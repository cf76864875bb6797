-- ===== src/Rbac/Rows.antt =====
-- Rows of a table that a test selects, under appends, deletions and updates of other rows.
use lightai_go.Common.{
  ◌≡◌, refl, ap, Bool, true, false, ◌||◌, none, some, List, [], ◌∷◌, ◌++◌, any, find, filter_by,
  update_where, delete_where, All, inl, inr, arith, Bool-cases,
}

-- Rows that a test passes over may come, go and change.
pub filter-append {ℓ} :
    {A : Type ℓ} (p : A → Bool) (xs : List A) (a : A)
    → p a ≡ false
    → filter_by p (xs ++ a ∷ []) ≡ filter_by p xs
filter-append p [] a h = rw h refl
filter-append p (x ∷ xs) a h = elim (Bool-cases (p x)) [
  | inl e ↦ rw e (ap (λ (rest : List _). x ∷ rest) (filter-append p xs a h))
  | inr e ↦ rw e (filter-append p xs a h)
]

pub filter-delete {ℓ} :
    {A : Type ℓ} (p q : A → Bool) (xs : List A)
    → All (λ x. q x ≡ true → p x ≡ false) xs
    → filter_by p (delete_where q xs) ≡ filter_by p xs
unfolding delete_where
filter-delete p q [] h = refl
filter-delete p q (x ∷ xs) h = elim (Bool-cases (q x)) [
  | inl e ↦ let out = h.0 e in rw e (rw out (filter-delete p q xs h.1))
  | inr e ↦ rw e (elim (Bool-cases (p x)) [
    | inl f ↦ rw f (ap (λ (rest : List _). x ∷ rest) (filter-delete p q xs h.1))
    | inr f ↦ rw f (filter-delete p q xs h.1)
  ])
]

pub filter-update {ℓ} :
    {A : Type ℓ} (p q : A → Bool) (f : A → A) (xs : List A)
    → All (λ x. q x ≡ true → (p x ≡ false) × (p (f x) ≡ false)) xs
    → filter_by p (update_where q f xs) ≡ filter_by p xs
unfolding update_where
filter-update p q f [] h = refl
filter-update p q f (x ∷ xs) h = elim (Bool-cases (q x)) [
  | inl e ↦ let (before, after) = h.0 e in rw e (rw before (rw after (filter-update p q f xs h.1)))
  | inr e ↦ rw e (elim (Bool-cases (p x)) [
    | inl g ↦ rw g (ap (λ (rest : List _). x ∷ rest) (filter-update p q f xs h.1))
    | inr g ↦ rw g (filter-update p q f xs h.1)
  ])
]

pub All-imply {ℓ κ μ} :
    {A : Type ℓ} (P : A → Type κ) (Q : A → Type μ) (xs : List A)
    → ((x : A) → P x → Q x)
    → All P xs
    → All Q xs
All-imply P Q [] h k = tt
All-imply P Q (x ∷ xs) h k = (h x k.0, All-imply P Q xs h k.1)

pub All-each {ℓ κ} : {A : Type ℓ} (P : A → Type κ) (xs : List A) → ((x : A) → P x) → All P xs
All-each P [] h = tt
All-each P (x ∷ xs) h = (h x, All-each P xs h)

pub find_holds {ℓ κ} :
    {A : Type ℓ} (P : A → Type κ) (p : A → Bool) (xs : List A) (a : A)
    → find p xs ≡ some a
    → All P xs
    → (p a ≡ true) × P a
find_holds P p [] a h k = absurd (cc)
find_holds P p (x ∷ xs) a h k = elim (Bool-cases (p x)) [
  | inl e ↦ let same : x ≡ a = (let k : some x ≡ some a = rw e at h in cc) in rw (← same) (e, k.0)
  | inr e ↦ find_holds P p xs a (rw e at h) k.1
]

pub find_free {ℓ} :
    {A : Type ℓ} (p q : A → Bool) (xs : List A)
    → any (λ x. p x || q x) xs ≡ false
    → find p xs ≡ none
find_free p q [] h = refl
find_free p q (x ∷ xs) h = ground (arith, find_free p q xs)
