-- ===== src/Common/Tables.antt =====
-- A table is the list of its rows in insertion order. `update_where p f` is `UPDATE … SET f WHERE p`
-- and `delete_where p` is `DELETE … WHERE p`.
use Prim.Native.Nat.{◌≤◌}
use mathlib.Core.Path.{◌≡◌}
use mathlib.Core.Logic.{inl, inr}
use mathlib.Core.Bool.{Bool, true, false, not}
use mathlib.Core.List.{List, [], ◌∷◌}
use native.Mathlib.Omega.{arith}
use lightai_go.Common.Tests.{if◌then◌else◌, Bool-cases}
use lightai_go.Common.Lists.{count_by, filter_by, All}

module _ {ℓ} {A : Type ℓ} where
  unfoldable pub update_where : (A → Bool) → (A → A) → List A → List A
  update_where p f [] = []
  update_where p f (x ∷ xs) = (if p x then f x else x) ∷ update_where p f xs

  unfoldable pub delete_where : (A → Bool) → List A → List A
  delete_where p xs = filter_by (λ x. not (p x)) xs

  -- An update brings no row under `q` that was not under it before.
  pub count_by-update_where :
      (q p : A → Bool) (f : A → A) (xs : List A)
      → ((x : A) → p x ≡ true → q (f x) ≡ true → q x ≡ true)
      → count_by q (update_where p f xs) ≤ count_by q xs
  unfolding update_where
  count_by-update_where q p f [] h = omega arith
  count_by-update_where q p f (x ∷ xs) h = ground (arith, h x, count_by-update_where q p f xs h)

  pub count_by-filter_by :
      (q p : A → Bool) (xs : List A) → count_by q (filter_by p xs) ≤ count_by q xs
  count_by-filter_by q p [] = omega arith
  count_by-filter_by q p (x ∷ xs) = ground (arith, count_by-filter_by q p xs)

  pub count_by-delete_where :
      (q p : A → Bool) (xs : List A) → count_by q (delete_where p xs) ≤ count_by q xs
  unfolding delete_where
  count_by-delete_where q p xs = count_by-filter_by q (λ x. not (p x)) xs

  pub All-update_where {κ μ} :
      (P : A → Type κ) (Q : A → Type μ) (p : A → Bool) (f : A → A) (xs : List A)
      → ((x : A) → P x → p x ≡ true → Q (f x))
      → ((x : A) → P x → p x ≡ false → Q x)
      → All P xs
      → All Q (update_where p f xs)
  unfolding update_where
  All-update_where P Q p f [] h k a = tt
  All-update_where P Q p f (x ∷ xs) h k a = (
    elim (Bool-cases (p x)) [ inl e ↦ rw e (h x a.0 e) | inr e ↦ rw e (k x a.0 e) ],
    All-update_where P Q p f xs h k a.1,
  )

  pub All-filter_by {κ} :
      (P : A → Type κ) (p : A → Bool) (xs : List A) → All P xs → All P (filter_by p xs)
  All-filter_by P p [] a = tt
  All-filter_by P p (x ∷ xs) a = elim (Bool-cases (p x)) [
    | inl e ↦ rw e (a.0, All-filter_by P p xs a.1)
    | inr e ↦ rw e (All-filter_by P p xs a.1)
  ]
