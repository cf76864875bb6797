-- ===== src/Text/Maps.antt =====
-- Go's maps with text keys, as lists of entries with distinct keys.
use lightai_go.Common.{
  ◌≡◌, refl, Option, none, some, List, [], ◌∷◌, arith, inl, inr, Bool-cases, if_holds, ◌==◌,
  if◌then◌else◌,
}
use lightai_go.Text.{Text, text_eq}

abbrev pub Map : Type 0
Map = List (Text × Text)

unfoldable pub lookup {ℓ} : {V : Type ℓ} → Text → List (Text × V) → Option V
lookup name [] = none
lookup name ((other, v) ∷ rest) = if other == name then some v else lookup name rest

-- `m[k] = v`
unfoldable pub insert {ℓ} : {V : Type ℓ} → Text → V → List (Text × V) → List (Text × V)
insert name v [] = (name, v) ∷ []
insert name v ((other, old) ∷ rest) =
    if other == name then (name, v) ∷ rest else (other, old) ∷ insert name v rest

-- `delete(m, k)`
unfoldable pub remove {ℓ} : {V : Type ℓ} → Text → List (Text × V) → List (Text × V)
remove k [] = []
remove k ((j, v) ∷ m) = if j == k then remove k m else (j, v) ∷ remove k m

pub lookup-insert {ℓ} :
    {V : Type ℓ} (k j : Text) (v : V) (m : List (Text × V))
    → lookup k (insert j v m) ≡ (if j == k then some v else lookup k m)
unfolding lookup insert
lookup-insert k j v [] = refl
lookup-insert k j v ((i, w) ∷ m) = elim (Bool-cases (i == j)) [
  | inl e ↦ rw e (rw ((text_eq.equal_iff i j).0 e) (ground arith))
  | inr e ↦ rw e (
      ground (
        arith,
        lookup-insert k j v m,
        text_eq.equal_iff i j,
        text_eq.equal_iff i k,
        text_eq.equal_iff j k,
      ))
]

pub lookup-remove {ℓ} :
    {V : Type ℓ} (k j : Text) (m : List (Text × V))
    → lookup k (remove j m) ≡ (if j == k then none else lookup k m)
unfolding lookup remove
lookup-remove {V} k j [] = if_holds (λ (o : Option V). none ≡ o) (j == k) none none refl refl
lookup-remove k j ((i, w) ∷ m) = elim (Bool-cases (i == j)) [
  | inl e ↦ rw e (rw ((text_eq.equal_iff i j).0 e) (ground (arith, lookup-remove k j m)))
  | inr e ↦ rw e (
      ground (
        arith,
        lookup-remove k j m,
        text_eq.equal_iff i j,
        text_eq.equal_iff i k,
        text_eq.equal_iff j k,
      ))
]
