-- ===== src/RunPlan/Template.antt =====
-- `substituteVars` (internal/server/runplan/template.go): {{NAME}} gives way to its value. The
-- regular expression is read at each position in turn, and what it matches is skipped.
use lightai_go.Common.{
  ℕ, zero, suc, ◌+◌, Bool, ◌&&◌, ◌||◌, Option, none, some, List, [], ◌∷◌, ◌++◌, leb, length, nat_eq,
  ◌==◌, if◌then◌else◌,
}
use lightai_go.Text.{Text, text}
use lightai_go.RunPlan.{Map, lookup}

-- `[A-Za-z_]` and `[A-Za-z0-9_]`
unfoldable pub is_name_start : ℕ → Bool
is_name_start c = leb b'A' c && leb c b'Z' || leb b'a' c && leb c b'z' || c == b'_'

unfoldable pub is_name_char : ℕ → Bool
unfolding is_name_start
is_name_char c = is_name_start c || leb b'0' c && leb c b'9'

-- `[A-Za-z0-9_]*\}\}`
unfoldable pub name_rest : Text → Option Text
unfolding is_name_char
name_rest [] = none
name_rest (c ∷ []) = none
name_rest (c ∷ d ∷ s) =
    let longer = name_rest (d ∷ s) in
    if c == b'}' && d == b'}'
    then some []
    else if is_name_char c
    then elim longer [ none ↦ none | some name ↦ some (c ∷ name) ]
    else none

abbrev start_name : Text → Option Text
start_name [] = none
start_name (c ∷ s) =
    if is_name_start c
    then elim (name_rest s) [ none ↦ none | some name ↦ some (c ∷ name) ]
    else none

-- The name of a placeholder that begins here.
unfoldable pub placeholder : Text → Option Text
unfolding is_name_start name_rest
placeholder [] = none
placeholder (c ∷ []) = none
placeholder (c ∷ d ∷ s) = if c == b'{' && d == b'{' then start_name s else none

-- The result, and the names that are not defined. A placeholder of an unknown name stays.
unfoldable pub substitute_from : Map → ℕ → Text → Text × List Text
unfolding placeholder
substitute_from vars skip [] = ([], [])
substitute_from vars (suc skip) (c ∷ s) = substitute_from vars skip s
substitute_from vars zero (c ∷ s) = elim (placeholder (c ∷ s)) [
  | none ↦ let (out, unknown) = substitute_from vars 0 s in (c ∷ out, unknown)
  | some name ↦
      let (out, unknown) = substitute_from vars (length name + 3) s in
      elim (lookup name vars) [
        | some v ↦ (v ++ out, unknown)
        | none ↦ (text "{{" ++ (name ++ (text "}}" ++ out)), name ∷ unknown)
      ]
]

unfoldable pub substitute_vars : Map → Text → Text × List Text
unfolding substitute_from lookup
substitute_vars vars template = substitute_from vars 0 template
