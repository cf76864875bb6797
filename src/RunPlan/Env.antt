-- ===== src/RunPlan/Env.antt =====
-- The container's environment: `buildEnv` (internal/server/runplan/resolver.go). Of the warnings,
-- the model has the names they are about.
pub mod Laws
use lightai_go.Common.{
  Bool, true, not, ◌||◌, Option, none, some, List, [], ◌∷◌, ◌++◌, is_empty, ◌==◌, if◌then◌else◌,
}
use lightai_go.Text.{Text, text, text_eq}
use lightai_go.RunPlan.{
  Map, lookup, insert, remove, format_value, is_blank, ParameterValue, NodeOverride, Input,
}
use lightai_go.RunPlan.Template.{substitute_vars}

pub record EnvState : Type 0 where
  pub env : Map
  pub warnings : List Text

-- `addEnv`
unfoldable pub add_env : Text → Text → EnvState → EnvState
unfolding insert
add_env k v st = if v == [] then st else record st { env = insert k v st.env }

abbrev pub warn : Text → EnvState → EnvState
warn k st = record st { warnings = st.warnings ++ k ∷ [] }

-- The loop over the snapshot's environment, or over the node override's.
unfoldable pub add_defaults : Map → Map → EnvState → EnvState
unfolding add_env substitute_vars
add_defaults vars [] st = st
add_defaults vars ((k, v) ∷ m) st =
    let (out, unknown) = substitute_vars vars v in
    add_defaults vars m (if is_empty unknown then add_env k out st else warn k st)

abbrev pub env_name_of : ParameterValue → Text
env_name_of pv = if pv.env_name == [] then pv.key else pv.env_name

unfoldable pub add_env_values : List ParameterValue → EnvState → EnvState
unfolding add_env format_value
add_env_values [] st = st
add_env_values (pv ∷ pvs) st = add_env_values pvs (
    if not pv.enabled || not (pv.target == text "env")
    then st
    else if is_blank pv.value
    then warn (env_name_of pv) st
    else add_env (env_name_of pv) (format_value pv.value) st)

-- The loop over the deployment's environment: a value with an unknown variable is warned about, and
-- added as well.
unfoldable pub add_env_overrides : Map → Map → EnvState → EnvState
unfolding add_env substitute_vars
add_env_overrides vars [] st = st
add_env_overrides vars ((k, v) ∷ m) st =
    let (out, unknown) = substitute_vars vars v in
    add_env_overrides vars m (add_env k out (if is_empty unknown then st else warn k st))

abbrev pub disable_one : ParameterValue → Map → Map
disable_one pv env = if pv.target == text "env" then remove (env_name_of pv) env else env

unfoldable pub remove_disabled_env : List ParameterValue → Map → Map
unfolding remove
remove_disabled_env [] env = env
remove_disabled_env (pv ∷ pvs) env = remove_disabled_env pvs (disable_one pv env)

abbrev pub override_env : Option NodeOverride → Map
override_env none = []
override_env (some o) = o.env

-- The environment before the deployment's overrides.
abbrev pub node_env : Input → Map → EnvState
node_env input vars = elim input.snapshot [
  | none ↦ record { env = []; warnings = [] }
  | some s ↦ add_defaults vars (override_env input.override) (
      add_env_values s.parameter_values
        (add_defaults vars s.default_env record { env = []; warnings = [] }))
]

-- The environment before the deployment's disabled names leave it.
abbrev pub full_env : Input → Map → EnvState
full_env input vars = add_env_overrides vars input.deployment.env_overrides (node_env input vars)

-- `buildEnv`
unfoldable pub build_env : Input → Map → Map × List Text
unfolding add_defaults add_env_values add_env_overrides remove_disabled_env
build_env input vars = elim input.snapshot [
  | none ↦ ([], text "snapshot" ∷ [])
  | some s ↦
      let st = full_env input vars in
      (remove_disabled_env input.deployment.disabled_parameters st.env, st.warnings)
]
