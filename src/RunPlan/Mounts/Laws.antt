-- ===== src/RunPlan/Mounts/Laws.antt =====
-- What `cleanPath` and `buildMounts` (internal/server/runplan/resolver.go) promise.
use lightai_go.Common.{
  ℕ, ◌≡◌, refl, ap, sym, ◌∙◌, ◌≢◌, true, false, ◌||◌, Option, none, some, List, [], ◌∷◌, ◌++◌,
  arith, inl, inr, any, is_empty, All, if_holds, Bool-cases, append_assoc, append-nil, nat_eq, ◌==◌,
  ◌⊎◌, subst, if◌then◌else◌,
}
use lightai_go.Text.{Text, text, text_eq, has_prefix, contains_text, fields_from, fields_func, join}
use lightai_go.RunPlan.{Input}
use lightai_go.RunPlan.Mounts.Parts.{
  parts_of, is_parent, named, parts_of-join_path, clean_parts-named, parts_of-no_parent,
  any-append_none, named-append,
}
use lightai_go.RunPlan.Mounts.{
  Mounted, mounted, refused, is_slash, clean_parts, keep_part, rooted, clean_path, mount_dir,
  is_under, build_mounts, join_path, model_relative_path, host_root,
}

-- One component of a path.
abbrev pub IsPart : Text → Type 0
IsPart s = (is_empty s ≡ false) × (any is_slash s ≡ false)

-- A component that names no directory by a dot.
abbrev pub IsPlain : Text → Type 0
IsPlain s = IsPart s × (((s == text ".") ≡ false) × ((s == text "..") ≡ false))

fields_from-word :
    (cur s rest : Text)
    → any is_slash s ≡ false
    → fields_from is_slash cur (s ++ rest) ≡ fields_from is_slash (cur ++ s) rest
unfolding fields_from
fields_from-word cur [] rest h =
    ap (λ (c : Text). fields_from is_slash c rest) (sym (append-nil cur))
fields_from-word [] (c ∷ s) rest h = let longer = fields_from-word (c ∷ []) s rest in ground arith
fields_from-word (d ∷ cur) (c ∷ s) rest h =
    let longer = fields_from-word (d ∷ cur ++ c ∷ []) s rest in
    let same = append_assoc (d ∷ cur) (c ∷ []) s in ground arith

word_ends : (s : Text) → is_empty s ≡ false → fields_from is_slash s [] ≡ s ∷ []
unfolding fields_from
word_ends [] h = absurd (cc)
word_ends (c ∷ s) h = refl

word_ends_at_slash :
    (s rest : Text)
    → is_empty s ≡ false
    → fields_from is_slash s (b'/' ∷ rest) ≡ s ∷ fields_from is_slash [] rest
unfolding fields_from
word_ends_at_slash [] rest h = absurd (cc)
word_ends_at_slash (c ∷ s) rest h = refl

fields_from-join :
    (parts : List Text)
    → All IsPlain parts
    → fields_from is_slash [] (join (b'/' ∷ []) parts) ≡ parts
unfolding fields_from join
fields_from-join [] h = refl
fields_from-join (s ∷ []) h =
    ap (λ (t : Text). fields_from is_slash [] t) (sym (append-nil s))
    ∙ (fields_from-word [] s [] h.0.0.1 ∙ word_ends s h.0.0.0)
fields_from-join (s ∷ t ∷ parts) h =
    let rest = join (b'/' ∷ []) (t ∷ parts) in
    fields_from-word [] s (b'/' ∷ rest) h.0.0.1
    ∙ (word_ends_at_slash s rest h.0.0.0
        ∙ ap (λ (ps : List Text). s ∷ ps) (fields_from-join (t ∷ parts) h.1))

any_word :
    (cur : Text) (c : ℕ)
    → any is_slash cur ≡ false
    → is_slash c ≡ false
    → any is_slash (cur ++ c ∷ []) ≡ false
any_word [] c h k = ground arith
any_word (d ∷ cur) c h k = ground (arith, any_word cur c)

fields_from-IsPart :
    (cur s : Text) → any is_slash cur ≡ false → All IsPart (fields_from is_slash cur s)
unfolding fields_from
fields_from-IsPart [] [] h = tt
fields_from-IsPart (d ∷ cur) [] h = ((refl, h), tt)
fields_from-IsPart [] (c ∷ s) h = elim (Bool-cases (is_slash c)) [
  | inl e ↦ rw e (fields_from-IsPart [] s refl)
  | inr e ↦ rw e (fields_from-IsPart (c ∷ []) s (any_word [] c refl e))
]
fields_from-IsPart (d ∷ cur) (c ∷ s) h = elim (Bool-cases (is_slash c)) [
  | inl e ↦ rw e ((refl, h), fields_from-IsPart [] s refl)
  | inr e ↦ rw e (fields_from-IsPart (d ∷ cur ++ c ∷ []) s (any_word (d ∷ cur) c h e))
]

parts_of-IsPart : (p : Text) → All IsPart (parts_of p)
unfolding fields_func
parts_of-IsPart p = fields_from-IsPart [] p refl

-- What the loop of `cleanPath` gives is plain, and stays as it is under the loop.
abbrev IsCleaned : Option (List Text) → Type 0
IsCleaned none = Unit
IsCleaned (some out) = All IsPlain out × (clean_parts out ≡ some out)

keep_part-IsCleaned :
    (part : Text) (o : Option (List Text))
    → IsPlain part
    → IsCleaned o
    → IsCleaned (keep_part part o)
unfolding clean_parts
keep_part-IsCleaned part none plain h = tt
keep_part-IsCleaned part (some out) plain h =
    ((plain, h.0), rw (plain.1.0) (rw (plain.1.1) (rw h.1 refl)))

clean_parts-IsCleaned : (parts : List Text) → All IsPart parts → IsCleaned (clean_parts parts)
unfolding clean_parts
clean_parts-IsCleaned [] h = (tt, refl)
clean_parts-IsCleaned (part ∷ parts) h =
    let rest = clean_parts-IsCleaned parts h.1 in
    elim (Bool-cases (part == text ".")) [
      | inl e ↦ rw e rest
      | inr e ↦ elim (Bool-cases (part == text "..")) [
        | inl f ↦ rw e (rw f tt)
        | inr f ↦ rw e (rw f (keep_part-IsCleaned part (clean_parts parts) (h.0, (e, f)) rest))
      ]
    ]

rooted_stays :
    (o : Option (List Text)) → IsCleaned o → rooted o ≢ [] → clean_path (rooted o) ≡ rooted o
unfolding clean_path fields_func
rooted_stays none h given = absurd (given refl)
rooted_stays (some out) h given =
    ap (λ (ps : List Text). rooted (clean_parts ps)) (fields_from-join out h.0) ∙ ap rooted h.1

-- Cleaning a path a second time changes nothing, unless the first time refused it.
pub clean_path_idempotent :
    (p : Text) → clean_path p ≢ [] → clean_path (clean_path p) ≡ clean_path p
unfolding clean_path fields_func
clean_path_idempotent p given =
    rooted_stays (clean_parts (fields_from is_slash [] p))
      (clean_parts-IsCleaned _ (fields_from-IsPart [] p refl)) given

has_prefix_rest : (s p : Text) → has_prefix s p ≡ true → (rest : Text) × (s ≡ p ++ rest)
unfolding has_prefix
has_prefix_rest s [] h = (s, refl)
has_prefix_rest [] (c ∷ p) h = absurd (cc)
has_prefix_rest (d ∷ s) (c ∷ p) h = elim (Bool-cases (d == c)) [
  | inl e ↦
      let (rest, same) = has_prefix_rest s p (rw e at h) in
      (rest, rw ((nat_eq.equal_iff d c).0 e) (ap (λ (t : Text). c ∷ t) same))
  | inr e ↦ absurd (let x = rw e at h in cc)
]

-- A path is the directory's, or stands below it after a "/".
abbrev pub IsUnder : Text → Text → Type 0
IsUnder dir path =
    (path ≡ clean_path dir) ⊎ ((rest : Text) × (path ≡ clean_path dir ++ b'/' ∷ rest))

is_under-IsUnder : (dir path : Text) → is_under dir path ≡ true → IsUnder dir path
is_under-IsUnder dir path h = elim (Bool-cases (has_prefix path (clean_path dir ++ b'/' ∷ []))) [
  | inl e ↦
      let (rest, same) = has_prefix_rest path (clean_path dir ++ b'/' ∷ []) e in
      inr (rest, same ∙ append_assoc (clean_path dir) (b'/' ∷ []) rest)
  | inr e ↦ inl ((text_eq.equal_iff _ _).0 (rw e at h))
]

rooted_parts :
    (parts out : List Text)
    → All IsPart parts
    → clean_parts parts ≡ some out
    → parts_of (rooted (clean_parts parts)) ≡ out
unfolding fields_func fields_from
rooted_parts parts out h e =
    let clean = subst IsCleaned e (clean_parts-IsCleaned parts h) in
    rw e (fields_from-join out clean.0)

-- Where a cleaned path of a mount is: nowhere, if the directory has the component "..", and otherwise
-- at the components of the directory and then those of the relative path, without the ones that
-- are ".".
abbrev pub IsContained : Text → Text → Text → Type 0
IsContained dir rel path =
    ((any is_parent (parts_of dir) ≡ true) × (path ≡ []))
    ⊎ ((any is_parent (parts_of dir) ≡ false)
        × (parts_of path ≡ named (parts_of dir) ++ named (parts_of rel))
        × IsUnder dir path)

joined_parts :
    (dir rel : Text)
    → any is_parent (parts_of rel) ≡ false
    → clean_parts (parts_of (join_path dir rel)) ≡ (
        if any is_parent (parts_of dir)
        then none
        else some (named (parts_of dir) ++ named (parts_of rel)))
joined_parts dir rel h =
    let both = clean_parts-named (parts_of dir ++ parts_of rel) in
    rw (parts_of-join_path dir rel) (
      rw both (
        rw (any-append_none (parts_of dir) (parts_of rel) h)
          (rw (named-append (parts_of dir) (parts_of rel)) refl)))

clean_path-IsContained :
    (dir rel : Text)
    → any is_parent (parts_of rel) ≡ false
    → is_under dir (clean_path (join_path dir rel)) ≡ true
    → IsContained dir rel (clean_path (join_path dir rel))
unfolding clean_path
clean_path-IsContained dir rel h under = elim (Bool-cases (any is_parent (parts_of dir))) [
  | inl e ↦
      let dead : clean_parts (parts_of (join_path dir rel)) ≡ none =
        joined_parts dir rel h ∙ rw e refl in
      inl (e, ap rooted dead)
  | inr e ↦
      let live : clean_parts (parts_of (join_path dir rel))
          ≡ some (named (parts_of dir) ++ named (parts_of rel)) =
        joined_parts dir rel h ∙ rw e refl in
      inr (
        e,
        rooted_parts (parts_of (join_path dir rel)) _ (parts_of-IsPart (join_path dir rel)) live,
        is_under-IsUnder dir _ under,
      )
]

abbrev pub IsSafe : Input → Mounted → Type 0
IsSafe input (refused e) = Unit
IsSafe input (mounted m) =
    let rel = model_relative_path input.artifact in
    (m.host_path ≡ join_path (host_root input) rel)
    × (parts_of m.host_path ≡ parts_of (host_root input) ++ parts_of rel)
    × (any is_parent (parts_of rel) ≡ false)
    × IsContained (mount_dir input.runtime.model_mount) rel m.container_path

-- The host path of a mount that `buildMounts` gives is the host's root joined with the relative path:
-- its components are those of the root and then those of the relative path, none of which is "..".
-- Its container path, where the mount directory has no component "..", has the components of that
-- directory and then those of the relative path, without the ones that are ".", and is the cleaned
-- mount directory or stands below it after a "/"; where the directory has the component "..", the
-- container path is empty.
pub build_mounts-IsSafe : (input : Input) → IsSafe input (build_mounts input)
unfolding build_mounts
build_mounts-IsSafe input =
    let rel = model_relative_path input.artifact in
    let dir = mount_dir input.runtime.model_mount in
    let cleaned = clean_path (join_path dir rel) in
    if_holds (IsSafe input) (rel == [] || rel == text ".") _ _ tt
      (elim (Bool-cases (contains_text rel (text ".."))) [
        | inl e ↦ rw e tt
        | inr e ↦ rw e (
            if_holds (IsSafe input) (has_prefix input.artifact.relative_path (b'/' ∷ [])) _ _ tt
              (elim (Bool-cases (is_under dir cleaned)) [
                | inl f ↦
                    let plain = parts_of-no_parent rel e in
                    rw f (
                      refl,
                      parts_of-join_path (host_root input) rel,
                      plain,
                      clean_path-IsContained dir rel plain f,
                    )
                | inr f ↦ rw f tt
              ]))
      ])
