-- ===== src/RunPlan/Resolve.antt =====
-- `Resolve` (internal/server/runplan/resolver.go): the plan, or none, with the errors. The hashes
-- of the plan and of the input are functions of their JSON encoding, which the model leaves out.
pub mod Laws
use lightai_go.Common.{
  ℕ, Bool, true, false, not, ◌&&◌, ◌||◌, Option, none, some, List, [], ◌∷◌, ◌++◌, map, take,
  is_empty, ◌==◌, if◌then◌else◌,
}
use lightai_go.Text.{Text, text, text_eq}
use lightai_go.RunPlan.{Map, lookup, insert, remove, ProcessStart, DockerSpec, HealthCheck, Input}
use lightai_go.RunPlan.Args.{ArgError}
use lightai_go.RunPlan.Args.Service.{build_args}
use lightai_go.RunPlan.Env.{build_env}
use lightai_go.RunPlan.Mounts.{Mount, Mounted, MountError, mounted, refused, build_mounts}
use lightai_go.RunPlan.Ports.{
  effective_container_port, effective_host_port, build_health_check, resolve_launcher_kind,
  resolve_image, merge_docker_spec,
}
use lightai_go.RunPlan.Devices.{DeviceBinding, build_device_binding}
use lightai_go.RunPlan.Vars.{build_var_map}

pub data ResolveError : Type 0 where
  unsupported_launcher : Text → ResolveError
  no_image : Text → ResolveError
  of_args : ArgError → ResolveError
  of_mounts : MountError → ResolveError

pub record Plan : Type 0 where
  pub image : Text
  pub container_name : Text
  pub entrypoint : List Text
  pub args : List Text
  pub env : Map
  pub docker : DockerSpec
  pub mounts : List Mount
  pub host_port : ℕ
  pub container_port : ℕ
  pub device_binding : DeviceBinding
  pub health_check : HealthCheck
  pub served_model_name : Text

abbrev pub default_entrypoint_of : Input → List Text
default_entrypoint_of input =
    if is_empty input.runtime.entrypoint_override
    then input.version.default_entrypoint
    else input.runtime.entrypoint_override

unfoldable pub resolve_entrypoint : Input → List Text
resolve_entrypoint input = elim input.process_start [
  | none ↦ default_entrypoint_of input
  | some p ↦
      if p.entrypoint_mode == text "image_default"
      then []
      else if p.entrypoint_mode == text "custom" && not (is_empty p.entrypoint)
      then p.entrypoint
      else default_entrypoint_of input
]

abbrev pub prefix_of : Input → List Text
prefix_of input = elim input.process_start [ none ↦ [] | some p ↦ p.command_prefix ]

-- What the accelerators put into the environment, or take out of it.
unfoldable pub device_env : DeviceBinding → Map → Map
unfolding insert remove
device_env b env =
    if b.visible_env_key == []
    then env
    else if not b.enabled
    then remove b.visible_env_key env
    else if b.visible_env_value == []
    then env
    else insert b.visible_env_key b.visible_env_value env

abbrev pub with_mounts : DeviceBinding → DockerSpec → DockerSpec
with_mounts b d = record d { devices = d.devices ++ b.final_device_mounts }

abbrev pub value_or_empty : Option Text → Text
value_or_empty none = []
value_or_empty (some v) = v

abbrev pub make_plan : Input → Mount → Plan
make_plan input mount =
    let vars = build_var_map input in
    let binding = build_device_binding input in
    let container_port = effective_container_port input in
    record {
      image = resolve_image input;
      container_name = text "lightai-" ++ take 12 input.instance_id;
      entrypoint = resolve_entrypoint input;
      args = prefix_of input ++ (build_args input vars).0;
      env = device_env binding (build_env input vars).0;
      docker = with_mounts binding (merge_docker_spec input);
      mounts = mount ∷ [];
      host_port = effective_host_port input container_port;
      container_port = container_port;
      device_binding = binding;
      health_check = build_health_check input;
      served_model_name = value_or_empty (lookup (text "SERVED_MODEL_NAME") vars);
    }

-- The end of `Resolve`, from the mounts on.
abbrev pub finish : Input → List ResolveError → Mounted → Option Plan × List ResolveError
finish input errors (refused e) = (none, errors ++ of_mounts e ∷ [])
finish input errors (mounted mount) = (some (make_plan input mount), errors)

-- `Resolve`: the errors of the arguments do not keep the plan back; the callers look at them.
unfoldable pub resolve : Input → Option Plan × List ResolveError
unfolding lookup resolve_entrypoint device_env build_var_map build_args build_env build_mounts
    build_device_binding effective_container_port effective_host_port build_health_check
    resolve_launcher_kind resolve_image merge_docker_spec
resolve input =
    let arg_errors = map of_args (build_args input (build_var_map input)).1 in
    if not (resolve_launcher_kind input.runtime == text "docker")
    then (none, unsupported_launcher (resolve_launcher_kind input.runtime) ∷ [])
    else if resolve_image input == []
    then (none, no_image input.runtime.vendor ∷ [])
    else finish input arg_errors (build_mounts input)
