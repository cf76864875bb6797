-- ===== src/RunPlan/Args/Service.antt =====
-- The service's ports and host in the arguments, and `buildArgs` as a whole
-- (internal/server/runplan/resolver.go).
use lightai_go.Common.{
  ℕ, suc, Option, none, some, List, [], ◌∷◌, ◌++◌, map, ltb, set, ◌==◌, if◌then◌else◌,
}
use lightai_go.Text.{Text, text, text_eq, trim_space}
use lightai_go.RunPlan.{Map, print_nat, Service, ServicePortBinding, Snapshot, Input}
use lightai_go.RunPlan.Args.{
  ArgError, snapshot_missing, ArgState, cli_name_of, add_overrides, add_layer, protected_flags,
  collect_existing_flags, check_required, deduplicate_args, remove_disabled,
}

-- The last place of a flag that has an argument behind it.
unfoldable pub last_place : Text → List Text → Option ℕ
last_place flag [] = none
last_place flag (arg ∷ []) = none
last_place flag (arg ∷ value ∷ rest) = elim (last_place flag (value ∷ rest)) [
  | some i ↦ some (suc i)
  | none ↦ if arg == flag then some 0 else none
]

-- `setLastFlagValue`
unfoldable pub set_last_flag_value : List Text → Text → Text → List Text
unfolding last_place
set_last_flag_value args flag value = elim (last_place flag args) [
  | some i ↦ set args (suc i) value
  | none ↦ args ++ flag ∷ value ∷ []
]

abbrev pub with_port : List Text → Service → List Text
with_port args svc =
    if ltb 0 svc.app_port
    then set_last_flag_value args (text "--port") (print_nat svc.app_port)
    else args

-- `applyServiceArgs`
unfoldable pub apply_service_args : List Text → Service → List Text
unfolding set_last_flag_value trim_space print_nat
apply_service_args args svc =
    if trim_space svc.listen_host == []
    then with_port args svc
    else set_last_flag_value (with_port args svc) (text "--host") (trim_space svc.listen_host)

abbrev pub bind_service : Service → ServicePortBinding → Service
bind_service svc b = record {
  host_port = if ltb 0 b.host_port then b.host_port else svc.host_port;
  container_port = if ltb 0 b.container_port then b.container_port else svc.container_port;
  app_port = if ltb 0 b.container_port then b.container_port else svc.app_port;
  listen_host =
      if trim_space b.listen_host == [] then svc.listen_host else trim_space b.listen_host;
}

abbrev pub port_binding : Input → Option ServicePortBinding
port_binding input = elim input.snapshot [ none ↦ none | some s ↦ s.service_port_binding ]

-- `effectiveServiceInfo`
unfoldable pub effective_service_info : Input → Service
effective_service_info input = elim (port_binding input) [
  | none ↦ input.deployment.service
  | some b ↦ bind_service input.deployment.service b
]

abbrev pub no_args : ArgState
no_args = record { args = []; errors = []; repeatable = [] }

-- The three layers: the snapshot's command, its parameter values, and the deployment's.
unfoldable pub layered_args : Snapshot → Input → Map → ArgState
unfolding add_overrides
layered_args s input vars =
    add_layer protected_flags vars input.deployment.parameter_values
      (add_layer [] vars s.parameter_values (add_overrides vars s.args_override no_args))

-- Without repeated flags, and without what the deployment disables.
abbrev pub kept_args : Snapshot → Input → Map → List Text
kept_args s input vars =
    let st = layered_args s input vars in
    remove_disabled (map cli_name_of input.deployment.disabled_parameters)
      (deduplicate_args st.args st.repeatable)

-- `buildArgs`
unfoldable pub build_args : Input → Map → List Text × List ArgError
unfolding layered_args check_required deduplicate_args remove_disabled apply_service_args
    effective_service_info collect_existing_flags
build_args input vars = elim input.snapshot [
  | none ↦ ([], snapshot_missing ∷ [])
  | some s ↦
      let st = layered_args s input vars in
      let missing = check_required (collect_existing_flags st.args) s.parameter_schema in
      (
        apply_service_args (kept_args s input vars) (effective_service_info input),
        st.errors ++ missing,
      )
]
