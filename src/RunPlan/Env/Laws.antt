-- ===== src/RunPlan/Env/Laws.antt =====
-- Which source of an environment variable wins in `buildEnv` (internal/server/runplan/resolver.go).
use lightai_go.Common.{
  ◌≡◌, refl, true, false, Option, none, some, List, [], ◌∷◌, arith, inl, inr, any, Bool-cases,
  Option-cases, Bool, not, is_empty, ◌&&◌, ◌∙◌, ◌==◌, if◌then◌else◌,
}
use lightai_go.Text.{Text, text, text_eq}
use lightai_go.Text.Maps.{lookup-insert, lookup-remove}
use lightai_go.RunPlan.{Map, lookup, ParameterValue, Snapshot, Input}
use lightai_go.RunPlan.Template.{substitute_vars}
use lightai_go.RunPlan.Env.{
  EnvState, add_env, add_env_overrides, remove_disabled_env, full_env, env_name_of, disable_one,
  build_env, warn, node_env,
}

abbrev pub disables : Text → ParameterValue → Bool
disables k pv = pv.target == text "env" && env_name_of pv == k

lookup-disable_one :
    (k : Text) (pv : ParameterValue) (env : Map)
    → lookup k (disable_one pv env) ≡ (if disables k pv then none else lookup k env)
lookup-disable_one k pv env = ground (arith, lookup-remove k (env_name_of pv) env)

none_stays :
    (k : Text) (pvs : List ParameterValue) (env : Map)
    → lookup k env ≡ none
    → lookup k (remove_disabled_env pvs env) ≡ none
unfolding remove_disabled_env
none_stays k [] env h = h
none_stays k (pv ∷ pvs) env h =
    none_stays k pvs (disable_one pv env) (let one = lookup-disable_one k pv env in ground arith)

-- A disabled name leaves the environment.
disabled_leaves :
    (k : Text) (pvs : List ParameterValue) (env : Map)
    → any (disables k) pvs ≡ true
    → lookup k (remove_disabled_env pvs env) ≡ none
unfolding remove_disabled_env
disabled_leaves k [] env h = absurd (cc)
disabled_leaves k (pv ∷ pvs) env h = elim (Bool-cases (disables k pv)) [
  | inl e ↦
      none_stays k pvs (disable_one pv env) (let one = lookup-disable_one k pv env in rw e at one)
  | inr e ↦ disabled_leaves k pvs (disable_one pv env) (rw e at h)
]

other_stays :
    (k : Text) (pvs : List ParameterValue) (env : Map)
    → any (disables k) pvs ≡ false
    → lookup k (remove_disabled_env pvs env) ≡ lookup k env
unfolding remove_disabled_env
other_stays k [] env h = refl
other_stays k (pv ∷ pvs) env h = elim (Bool-cases (disables k pv)) [
  | inl e ↦ absurd (let x = rw e at h in cc)
  | inr e ↦
      other_stays k pvs (disable_one pv env) (rw e at h)
      ∙ (let one = lookup-disable_one k pv env in rw e at one)
]

abbrev pub preferred : Option Text → Option Text → Option Text
preferred none other = other
preferred (some x) other = some x

-- The last value that the deployment has for a name and that is not empty once its variables are
-- put in.
unfoldable pub override_value : Map → Text → Map → Option Text
override_value vars k [] = none
override_value vars k ((j, v) ∷ m) =
    let out = (substitute_vars vars v).0 in
    preferred (override_value vars k m) (if j == k && not (out == []) then some out else none)

preferred_step :
    (o : Option Text) (b : Bool) (v : Text) (x : Option Text)
    → preferred o (if b then some v else x) ≡ preferred (preferred o (if b then some v else none)) x
preferred_step none true v x = refl
preferred_step none false v x = refl
preferred_step (some z) b v x = refl

lookup-add_env :
    (k j v : Text) (b : Bool) (st : EnvState)
    → lookup k (add_env j v (if b then st else warn j st)).env
      ≡ (if j == k && not (v == []) then some v else lookup k st.env)
unfolding add_env
lookup-add_env k j v true st = ground (arith, lookup-insert k j v st.env)
lookup-add_env k j v false st = ground (arith, lookup-insert k j v st.env)

lookup-add_env_overrides :
    (vars : Map) (k : Text) (m : Map) (st : EnvState)
    → lookup k (add_env_overrides vars m st).env
      ≡ preferred (override_value vars k m) (lookup k st.env)
unfolding add_env_overrides override_value
lookup-add_env_overrides vars k [] st = refl
lookup-add_env_overrides vars k ((j, v) ∷ m) st =
    let out = substitute_vars vars v in
    let next = add_env j out.0 (if is_empty out.1 then st else warn j st) in
    let added = lookup-add_env k j out.0 (is_empty out.1) st in
    lookup-add_env_overrides vars k m next
    ∙ rw added (preferred_step _ (j == k && not (out.0 == [])) out.0 (lookup k st.env))

with_snapshot :
    (input : Input) (vars : Map) (s : Snapshot)
    → input.snapshot ≡ some s
    → (build_env input vars).0
      ≡ remove_disabled_env input.deployment.disabled_parameters (full_env input vars).env
unfolding build_env
with_snapshot input vars s e = rw e refl

without_snapshot :
    (input : Input) (vars : Map) → input.snapshot ≡ none → (build_env input vars).0 ≡ []
unfolding build_env
without_snapshot input vars e = rw e refl

-- A variable that the deployment disables is not in the container's environment.
pub disabled_is_absent :
    (input : Input) (vars : Map) (k : Text)
    → any (disables k) input.deployment.disabled_parameters ≡ true
    → lookup k (build_env input vars).0 ≡ none
unfolding lookup
disabled_is_absent input vars k h = elim (Option-cases input.snapshot) [
  | inl e ↦ rw (without_snapshot input vars e) refl
  | inr (s, e) ↦
      rw (with_snapshot input vars s e)
        (disabled_leaves k input.deployment.disabled_parameters (full_env input vars).env h)
]

-- When there is a snapshot, a variable that the deployment does not disable has the last non-empty
-- value that the deployment's overrides give it, and without one the value that the snapshot and the
-- node's override give it.
pub build_env_lem :
    (input : Input) (vars : Map) (s : Snapshot) (k : Text)
    → input.snapshot ≡ some s
    → any (disables k) input.deployment.disabled_parameters ≡ false
    → lookup k (build_env input vars).0
      ≡ preferred
          (override_value vars k input.deployment.env_overrides)
          (lookup k (node_env input vars).env)
build_env_lem input vars s k e h = rw (with_snapshot input vars s e) (
    other_stays k input.deployment.disabled_parameters (full_env input vars).env h
    ∙ lookup-add_env_overrides vars k input.deployment.env_overrides (node_env input vars))
