-- ===== src/Text/Print.antt =====
-- Go's decimal printing of a number that is not negative.
use lightai_go.Common.{ℕ, suc, ◌+◌, ◌/◌, ◌%◌, [], ◌∷◌, ltb, if◌then◌else◌}
use lightai_go.Text.{Text}

-- `fmt.Sprintf("%d", n)`, digit by digit; the fuel is more than the number of digits.
unfoldable pub print_from : ℕ → ℕ → Text → Text
print_from ℕ.zero n acc = acc
print_from (suc fuel) n acc =
    let rest = print_from fuel (n / 10) ((48 + n % 10) ∷ acc) in
    if ltb n 10 then (48 + n) ∷ acc else rest

unfoldable pub print_nat : ℕ → Text
unfolding print_from
print_nat n = print_from (suc n) n []
