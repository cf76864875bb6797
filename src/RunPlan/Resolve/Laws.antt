-- ===== src/RunPlan/Resolve/Laws.antt =====
-- What `Resolve` (internal/server/runplan/resolver.go) promises of a plan.
use lightai_go.Common.{
  ◌≡◌, refl, ◌≢◌, subst, false, not, Option, none, some, List, [], ◌∷◌, ◌++◌, arith, inl, inr,
  if_holds, ◌⊎◌, ◌||◌, Bool-cases, ◌==◌,
}
use lightai_go.Text.{Text, text, text_eq, to_lower, trim_space}
use lightai_go.RunPlan.{Map, lookup, DeviceBindingConfig, Input}
use lightai_go.Text.Maps.{lookup-remove}
use lightai_go.RunPlan.Mounts.{Mount, Mounted, mounted, refused, build_mounts}
use lightai_go.RunPlan.Ports.{resolve_launcher_kind, resolve_image}
use lightai_go.RunPlan.Devices.{
  DeviceBinding, device_config, or_config, default_visible_env_key, device_binding_enabled,
  build_device_binding,
}
use lightai_go.RunPlan.Resolve.{Plan, ResolveError, device_env, make_plan, finish, resolve}

-- A plan for the mount, or none, with an error.
abbrev Outcome : Input → Option Plan × List ResolveError → Type 0
Outcome input (o, errors) =
    ((m : Mount) × (o ≡ some (make_plan input m))) ⊎ ((o ≡ none) × (errors ≢ []))

append_one : (errors : List ResolveError) (e : ResolveError) → errors ++ e ∷ [] ≢ []
append_one [] e h = absurd (cc)
append_one (x ∷ errors) e h = absurd (cc)

finish-Outcome :
    (input : Input) (errors : List ResolveError) (m : Mounted)
    → Outcome input (finish input errors m)
finish-Outcome input errors (mounted m) = inl (m, refl)
finish-Outcome input errors (refused e) = inr (refl, append_one errors (ResolveError.of_mounts e))

one_error : (e : ResolveError) → e ∷ [] ≢ []
one_error e h = absurd (cc)

resolve-Outcome : (input : Input) → Outcome input (resolve input)
unfolding resolve
resolve-Outcome input =
    if_holds (Outcome input) (not (resolve_launcher_kind input.runtime == text "docker")) _ _
      (inr (refl, one_error _))
      (if_holds (Outcome input) (resolve_image input == []) _ _ (inr (refl, one_error _))
        (finish-Outcome input _ (build_mounts input)))

key_present :
    (cfg : Option DeviceBindingConfig) (field : DeviceBindingConfig → Text) (other : Text)
    → other ≢ []
    → or_config cfg field other ≢ []
key_present none field other ne = ne
key_present (some cfg) field other ne = elim (Bool-cases (trim_space (field cfg) == [])) [
  | inl e ↦ rw e ne
  | inr e ↦ rw e (λ h. absurd (let x = (text_eq.equal_iff _ _).1 h in cc))
]

default_present : (vendor : Text) → default_visible_env_key vendor ≢ []
unfolding default_visible_env_key
default_present vendor =
    if_holds (λ (t : Text). t ≢ [])
      (to_lower vendor == text "huawei" || to_lower vendor == text "ascend") _ _ (λ h. absurd (cc))
      (λ h. absurd (cc))

abbrev HasKey : DeviceBinding → Type 0
HasKey b = b.visible_env_key ≢ []

binding_key : (input : Input) → HasKey (build_device_binding input)
unfolding build_device_binding
binding_key input =
    if_holds HasKey (not (device_binding_enabled input)) _ _
      (key_present (device_config input) (λ c. c.visible_env_key) _ (default_present _))
      (key_present (device_config input) (λ c. c.visible_env_key) _ (default_present _))

abbrev IsOff : DeviceBinding → Type 0
IsOff b = (b.enabled ≡ false) × (b.gpu_device_ids ≡ [])

build_device_binding-IsOff :
    (input : Input) → device_binding_enabled input ≡ false → IsOff (build_device_binding input)
unfolding build_device_binding
build_device_binding-IsOff input off = rw off (refl, refl)

device_env_off :
    (b : DeviceBinding) (env : Map)
    → b.enabled ≡ false
    → b.visible_env_key ≢ []
    → lookup b.visible_env_key (device_env b env) ≡ none
unfolding device_env
device_env_off b env off key =
    let gone = lookup-remove b.visible_env_key b.visible_env_key env in
    ground (
      arith,
      text_eq.equal_iff b.visible_env_key [],
      text_eq.equal_iff b.visible_env_key b.visible_env_key,
    )

abbrev IsBare : Plan → Type 0
IsBare plan =
    (plan.device_binding.gpu_device_ids ≡ [])
    × (lookup plan.device_binding.visible_env_key plan.env ≡ none)

pub disabled_binding_lem :
    (input : Input) (plan : Plan)
    → device_binding_enabled input ≡ false
    → (resolve input).0 ≡ some plan
    → (plan.device_binding.gpu_device_ids ≡ [])
      × (lookup plan.device_binding.visible_env_key plan.env ≡ none)
disabled_binding_lem input plan off e = elim (resolve-Outcome input) [
  | inl (m, given) ↦
      let same : make_plan input m ≡ plan = cc in
      let binding = build_device_binding-IsOff input off in
      subst IsBare same
        (binding.1, device_env_off (build_device_binding input) _ binding.0 (binding_key input))
  | inr (missing, h) ↦ absurd (cc)
]

-- Without a plan there is an error.
pub no_plan_has_error : (input : Input) → (resolve input).0 ≡ none → (resolve input).1 ≢ []
no_plan_has_error input none_given = elim (resolve-Outcome input) [
  | inl (m, given) ↦ absurd (cc)
  | inr (missing, h) ↦ h
]
