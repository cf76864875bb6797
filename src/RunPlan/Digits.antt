-- ===== src/RunPlan/Digits.antt =====
-- The digits of the ports and counts that the resolver prints by `fmt.Sprintf("%d", n)`
-- (internal/server/runplan/resolver.go).
use lightai_go.Common.{
  ℕ, zero, suc, ◌+◌, ◌-◌, ◌*◌, ◌/◌, ◌%◌, ◌<◌, ◌≤◌, false, ◌==◌, ◌≡◌, ap, ◌∙◌, [], ◌∷◌, inl, inr,
  arith, ltb, Bool-cases,
}
use lightai_go.Text.{Text, text_eq, text_beq}
use lightai_go.RunPlan.{print_from, print_nat}

-- The number that decimal digits stand for, after a number already read.
unfoldable pub read_from : ℕ → Text → ℕ
read_from n [] = n
read_from n (c ∷ s) = read_from (n * 10 + (c - 48)) s

read_from-print_from :
    (fuel n : ℕ) (rest : Text) → n < fuel → read_from 0 (print_from fuel n rest) ≡ read_from n rest
unfolding print_from read_from
read_from-print_from zero n rest h = absurd (omega (arith, h))
read_from-print_from (suc fuel) n rest h = elim (Bool-cases (ltb n 10)) [
  | inl e ↦ rw e (ap (λ (m : ℕ). read_from m rest) (omega arith))
  | inr e ↦
      let big : 9 < n = ground arith in
      let smaller : n / 10 < fuel = omega (arith, big, h) in
      rw e (
        read_from-print_from fuel (n / 10) ((48 + n % 10) ∷ rest) smaller
        ∙ ap (λ (m : ℕ). read_from m rest) (omega arith))
]

-- Reading the decimal digits of a printed number gives the number, so the printer's fuel is enough.
pub read_from-print_nat : (n : ℕ) → read_from 0 (print_nat n) ≡ n
unfolding print_nat read_from
read_from-print_nat n = read_from-print_from (suc n) n [] (omega arith)

-- The text begins with a character from "0" on.
abbrev IsDigitFirst : Text → Type 0
IsDigitFirst [] = ⊥
IsDigitFirst (c ∷ s) = 48 ≤ c

print_from-IsDigitFirst :
    (fuel n : ℕ) (rest : Text) → n < fuel → IsDigitFirst (print_from fuel n rest)
unfolding print_from
print_from-IsDigitFirst zero n rest h = absurd (omega (arith, h))
print_from-IsDigitFirst (suc fuel) n rest h = elim (Bool-cases (ltb n 10)) [
  | inl e ↦ rw e (omega arith)
  | inr e ↦
      let big : 9 < n = ground arith in
      let smaller : n / 10 < fuel = omega (arith, big, h) in
      rw e (print_from-IsDigitFirst fuel (n / 10) ((48 + n % 10) ∷ rest) smaller)
]

not_flag : (t s : Text) → IsDigitFirst t → (t == b'-' ∷ s) ≡ false
unfolding text_beq
not_flag [] s h = absurd h
not_flag (c ∷ t) s h = ground arith

-- A printed number is no flag.
pub print_nat-not_flag : (n : ℕ) (s : Text) → (print_nat n == b'-' ∷ s) ≡ false
unfolding print_nat
print_nat-not_flag n s =
    not_flag (print_nat n) s (print_from-IsDigitFirst (suc n) n [] (omega arith))
