-- ===== src/RunPlan/Args/Laws.antt =====
-- What the arguments of a plan keep: the service's host and port, the disabled flags, and the
-- precedence of the layers.
use lightai_go.Common.{
  ℕ, zero, suc, ◌≡◌, refl, true, false, Option, none, some, List, [], ◌∷◌, ◌++◌, set, inl, inr,
  if_holds, contains, All, arith, Bool-cases, Option-cases, ◌==◌, if◌then◌else◌,
}
use lightai_go.Text.{Text, text_eq}
use lightai_go.RunPlan.Args.{is_flag, remove_disabled}
use lightai_go.RunPlan.Args.Service.{last_place, set_last_flag_value}

-- The value behind the last occurrence of a flag.
unfoldable pub last_value : Text → List Text → Option Text
last_value flag [] = none
last_value flag (arg ∷ []) = none
last_value flag (arg ∷ value ∷ rest) = elim (last_value flag (value ∷ rest)) [
  | some v ↦ some v
  | none ↦ if arg == flag then some value else none
]

same_key : (t : Text) → (t == t) ≡ true
same_key t = (text_eq.equal_iff t t).1 refl

no_place :
    (flag : Text) (args : List Text) → last_place flag args ≡ none → last_value flag args ≡ none
unfolding last_place last_value
no_place flag [] h = refl
no_place flag (a ∷ []) h = refl
no_place flag (a ∷ b ∷ rest) h = ground (arith, no_place flag (b ∷ rest))

no_place_behind :
    (flag v b : Text) (rest : List Text)
    → (v == flag) ≡ false
    → last_place flag (b ∷ rest) ≡ none
    → last_value flag (v ∷ rest) ≡ none
unfolding last_place last_value
no_place_behind flag v b [] ne h = refl
no_place_behind flag v b (c ∷ rest) ne h = ground (arith, no_place flag (c ∷ rest))

value_set :
    (flag v : Text) (args : List Text) (i : ℕ)
    → (v == flag) ≡ false
    → last_place flag args ≡ some i
    → last_value flag (set args (suc i) v) ≡ some v
unfolding last_place last_value
value_set flag v [] i ne h = absurd (cc)
value_set flag v (a ∷ []) i ne h = absurd (cc)
value_set flag v (a ∷ b ∷ rest) zero ne h = ground (arith, no_place_behind flag v b rest ne)
value_set flag v (a ∷ b ∷ rest) (suc i) ne h = ground (arith, value_set flag v (b ∷ rest) i ne)

value_appended :
    (flag v : Text) (args : List Text)
    → (v == flag) ≡ false
    → last_value flag (args ++ flag ∷ v ∷ []) ≡ some v
unfolding last_value
value_appended flag v [] ne = rw (same_key flag) refl
value_appended flag v (a ∷ []) ne = let rest = value_appended flag v [] ne in ground arith
value_appended flag v (a ∷ b ∷ xs) ne = let rest = value_appended flag v (b ∷ xs) ne in ground arith

pub last_value-set_last_flag_value :
    (args : List Text) (flag v : Text)
    → (v == flag) ≡ false
    → last_value flag (set_last_flag_value args flag v) ≡ some v
unfolding set_last_flag_value
last_value-set_last_flag_value args flag v ne = elim (Option-cases (last_place flag args)) [
  | inl e ↦ rw (e, set_last_flag_value) (value_appended flag v args ne)
  | inr (i, e) ↦ rw (e, set_last_flag_value) (value_set flag v args i ne e)
]

-- Of the arguments that `remove_disabled` leaves, none is a flag that the deployment disables.
pub remove_disabled_lem :
    (disabled args : List Text)
    → All (λ arg. contains disabled arg ≡ false) (remove_disabled disabled args)
unfolding remove_disabled
remove_disabled_lem disabled [] = tt
remove_disabled_lem disabled (a ∷ []) = elim (Bool-cases (contains disabled a)) [
  | inl e ↦ rw e tt
  | inr e ↦ rw e (e, tt)
]
remove_disabled_lem disabled (a ∷ b ∷ rest) =
    let shorter = remove_disabled_lem disabled rest in
    let longer = remove_disabled_lem disabled (b ∷ rest) in
    elim (Bool-cases (contains disabled a)) [
      | inl e ↦ rw e (if_holds (All _) (is_flag b) _ _ longer shorter)
      | inr e ↦ rw e (e, longer)
    ]
