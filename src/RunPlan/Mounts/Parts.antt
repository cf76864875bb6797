-- ===== src/RunPlan/Mounts/Parts.antt =====
-- The components of paths: how the joins, the trims and `cleanPath`
-- (internal/server/runplan/resolver.go) act on them.
use lightai_go.Common.{
  ℕ, ◌≡◌, refl, ap, ◌∙◌, Bool, true, false, not, ◌||◌, none, some, List, [], ◌∷◌, ◌++◌,
  append_assoc, arith, inl, inr, any, filter_by, Bool-cases, nat_eq, ◌==◌, if◌then◌else◌,
}
use lightai_go.Text.{
  Text, text, text_eq, text_beq, has_prefix, contains_text, trim_left, trim_right, fields_from,
  fields_func,
}
use lightai_go.RunPlan.Mounts.{is_slash, clean_parts, keep_part, join_path}

abbrev pub parts_of : Text → List Text
parts_of p = fields_func is_slash p

abbrev pub is_parent : Text → Bool
is_parent part = part == text ".."

-- The components without those that are "."
abbrev pub named : List Text → List Text
named parts = filter_by (λ (part : Text). not (part == text ".")) parts

fields_from-slash :
    (cur a b : Text)
    → fields_from is_slash cur (a ++ b'/' ∷ b)
      ≡ fields_from is_slash cur a ++ fields_from is_slash [] b
unfolding fields_from
fields_from-slash [] [] b = refl
fields_from-slash (d ∷ cur) [] b = refl
fields_from-slash [] (c ∷ a) b = elim (Bool-cases (is_slash c)) [
  | inl e ↦ rw e (fields_from-slash [] a b)
  | inr e ↦ rw e (fields_from-slash (c ∷ []) a b)
]
fields_from-slash (d ∷ cur) (c ∷ a) b = elim (Bool-cases (is_slash c)) [
  | inl e ↦ rw e (ap (λ (ps : List Text). (d ∷ cur) ∷ ps) (fields_from-slash [] a b))
  | inr e ↦ rw e (fields_from-slash (d ∷ cur ++ c ∷ []) a b)
]

fields_from-cons :
    (cur : Text) (c : ℕ) (r s : Text)
    → ((x : Text) → fields_from is_slash x r ≡ fields_from is_slash x s)
    → fields_from is_slash cur (c ∷ r) ≡ fields_from is_slash cur (c ∷ s)
unfolding fields_from
fields_from-cons [] c r s h = rw (h []) (rw (h (c ∷ [])) refl)
fields_from-cons (d ∷ cur) c r s h = rw (h []) (rw (h (d ∷ cur ++ c ∷ [])) refl)

last_slash :
    (cur : Text) (c : ℕ)
    → fields_from is_slash cur (if is_slash c then [] else c ∷ [])
      ≡ fields_from is_slash cur (c ∷ [])
unfolding fields_from
last_slash [] c = ground arith
last_slash (d ∷ cur) c = ground arith

fields_from-trim_right :
    (s cur : Text) → fields_from is_slash cur (trim_right is_slash s) ≡ fields_from is_slash cur s
unfolding trim_right
fields_from-trim_right [] cur = refl
fields_from-trim_right (c ∷ s) cur = trimmed (trim_right is_slash s) (fields_from-trim_right s)
  where
    trimmed :
        (r : Text)
        → ((x : Text) → fields_from is_slash x r ≡ fields_from is_slash x s)
        → fields_from is_slash cur
            (elim r [ [] ↦ if is_slash c then [] else c ∷ [] | d ∷ t ↦ c ∷ d ∷ t ])
          ≡ fields_from is_slash cur (c ∷ s)
    trimmed [] h = last_slash cur c ∙ fields_from-cons cur c [] s h
    trimmed (d ∷ t) h = fields_from-cons cur c (d ∷ t) s h

fields_from-trim_left :
    (s : Text) → fields_from is_slash [] (trim_left is_slash s) ≡ fields_from is_slash [] s
unfolding trim_left fields_from
fields_from-trim_left [] = refl
fields_from-trim_left (c ∷ s) = ground (arith, fields_from-trim_left s)

pub parts_of-join_path :
    (dir rel : Text) → parts_of (join_path dir rel) ≡ parts_of dir ++ parts_of rel
unfolding fields_func
parts_of-join_path dir rel =
    fields_from-slash [] (trim_right is_slash dir) (trim_left is_slash rel)
    ∙ rw (fields_from-trim_right dir []) (rw (fields_from-trim_left rel) refl)

pub clean_parts-named :
    (parts : List Text)
    → clean_parts parts ≡ (if any is_parent parts then none else some (named parts))
unfolding clean_parts text_beq
clean_parts-named [] = refl
clean_parts-named (part ∷ parts) = elim (Bool-cases (part == text ".")) [
  | inl e ↦
      let here : part ≡ text "." = (text_eq.equal_iff _ _).0 e in rw here (clean_parts-named parts)
  | inr e ↦ rw e (kept (is_parent part) (any is_parent parts) (clean_parts-named parts))
]
  where
    kept :
        (b later : Bool)
        → clean_parts parts ≡ (if later then none else some (named parts))
        → (if b then none else keep_part part (clean_parts parts))
          ≡ (if b || later then none else some (part ∷ named parts))
    kept true later h = refl
    kept false true h = rw h refl
    kept false false h = rw h refl

contains_later :
    (cur rest p : Text) → contains_text (cur ++ rest) p ≡ false → contains_text rest p ≡ false
unfolding contains_text
contains_later [] rest p h = h
contains_later (c ∷ cur) rest p h = contains_later cur rest p (ground arith)

begins_with_parent : (rest : Text) → contains_text (text ".." ++ rest) (text "..") ≡ true
unfolding contains_text has_prefix
begins_with_parent rest = refl

not_parent :
    (cur rest : Text) → contains_text (cur ++ rest) (text "..") ≡ false → is_parent cur ≡ false
not_parent cur rest h = elim (Bool-cases (is_parent cur)) [
  | inr e ↦ e
  | inl e ↦
      let same : cur ≡ text ".." = (text_eq.equal_iff _ _).0 e in
      let found = begins_with_parent rest in absurd (let k = rw same at h in cc)
]

fields_from-no_parent :
    (cur s : Text)
    → contains_text (cur ++ s) (text "..") ≡ false
    → any is_parent (fields_from is_slash cur s) ≡ false
unfolding fields_from
fields_from-no_parent [] [] h = refl
fields_from-no_parent (d ∷ cur) [] h = let k = not_parent (d ∷ cur) [] h in ground arith
fields_from-no_parent [] (c ∷ s) h =
    let later = fields_from-no_parent [] s (contains_later (c ∷ []) s (text "..") h) in
    let longer = fields_from-no_parent (c ∷ []) s h in
    elim (Bool-cases (is_slash c)) [ inl e ↦ rw e later | inr e ↦ rw e longer ]
fields_from-no_parent (d ∷ cur) (c ∷ s) h =
    let rest = contains_later (d ∷ cur) (c ∷ s) (text "..") h in
    let later = fields_from-no_parent [] s (contains_later (c ∷ []) s (text "..") rest) in
    let longer =
      fields_from-no_parent (d ∷ cur ++ c ∷ []) s (rw (append_assoc (d ∷ cur) (c ∷ []) s) h) in
    let k = not_parent (d ∷ cur) (c ∷ s) h in
    elim (Bool-cases (is_slash c)) [ inl e ↦ rw e (rw k later) | inr e ↦ rw e longer ]

-- No component of a text without ".." is "..".
pub parts_of-no_parent :
    (s : Text) → contains_text s (text "..") ≡ false → any is_parent (parts_of s) ≡ false
unfolding fields_func
parts_of-no_parent s h = fields_from-no_parent [] s h

pub any-append_none :
    (xs ys : List Text) → any is_parent ys ≡ false → any is_parent (xs ++ ys) ≡ any is_parent xs
any-append_none [] ys h = h
any-append_none (x ∷ xs) ys h = ground (arith, any-append_none xs ys h)

pub named-append : (xs ys : List Text) → named (xs ++ ys) ≡ named xs ++ named ys
named-append [] ys = refl
named-append (x ∷ xs) ys = ground (arith, named-append xs ys)
