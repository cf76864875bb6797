-- ===== src/RunPlan/Vars.antt =====
-- The variables of the templates: `buildVarMap` (internal/server/runplan/resolver.go).
use lightai_go.Common.{
  ℕ, String, Bool, true, false, not, ◌&&◌, ◌||◌, none, some, List, [], ◌∷◌, ◌++◌, map, ltb, length,
  nat_eq, ◌==◌, if◌then◌else◌,
}
use lightai_go.Text.{
  Text, text, text_eq, has_prefix, contains_text, trim_left, trim_right, trim_space, join,
}
use lightai_go.RunPlan.{
  Map, lookup, insert, print_nat, Value, format_value, ParameterDef, null, Input,
}
use lightai_go.RunPlan.Args.{normalized_name}
use lightai_go.RunPlan.Mounts.{
  filepath_base, model_host_root, model_relative_path, mount_dir, join_path,
}
use lightai_go.RunPlan.Ports.{effective_container_port, effective_app_port}

-- `strings.HasSuffix`
unfoldable pub has_suffix : Text → Text → Bool
has_suffix [] p = p == []
has_suffix (c ∷ s) p = p == c ∷ s || has_suffix s p

abbrev pub model_container_path : Input → Text
model_container_path input =
    let base = model_relative_path input.artifact in
    let dir = mount_dir input.runtime.model_mount in
    if base == []
      || base == text "."
      || contains_text base (text "..")
      || has_prefix base (b'/' ∷ [])
    then dir
    else join_path dir base

abbrev pub model_container_file : Input → Text
model_container_file input =
    let base = model_relative_path input.artifact in
    let file = filepath_base input.artifact.path in
    if not (has_suffix base (text ".gguf")) && has_suffix file (text ".gguf")
    then join_path (mount_dir input.runtime.model_mount) base ++ b'/' ∷ file
    else model_container_path input

abbrev pub model_host_path : Input → Text
model_host_path input =
    let a = input.artifact in
    if a.model_root == [] || a.relative_path == []
    then a.path
    else join_path a.model_root a.relative_path

abbrev pub dashed : Text → Text
dashed = map λ c. if c == b'_' then b'-' else c

abbrev pub is_null : Value → Bool
is_null null = true
is_null _ = false

-- The default of the first definition under the name that has one.
unfoldable pub default_of : Text → List ParameterDef → Value
unfolding normalized_name
default_of name [] = null
default_of name (d ∷ ds) =
    let rest = default_of name ds in
    let named =
      d.name == name || d.name == text "--" ++ dashed name || normalized_name d.name == name in
    if named && not (is_null d.default) then d.default else rest

-- `getParam`
unfoldable pub get_param : Input → Text → Value
unfolding default_of lookup
get_param input name = elim (lookup name input.deployment.parameters) [
  | some v ↦ v
  | none ↦ default_of name input.version.parameter_defs
]

-- A variable under its two spellings.
abbrev pub both : String → String → Text → Map → Map
both upper lower v m = insert (text lower) v (insert (text upper) v m)

abbrev pub both_if_given : String → String → Value → Map → Map
both_if_given upper lower null m = m
both_if_given upper lower v m = both upper lower (format_value v) m

abbrev pub from_parameter : Value → Text
from_parameter null = []
from_parameter v = if trim_space (format_value v) == [] then [] else format_value v

abbrev pub from_artifact : Input → Text
from_artifact input =
    let a = input.artifact in
    if a.name == []
    then []
    else if trim_space a.name == [] && not (a.path == [])
    then trim_space (filepath_base a.path)
    else trim_space a.name

unfoldable pub served_model_name : Input → Text
unfolding get_param format_value trim_space filepath_base
served_model_name input =
    let given = from_parameter (get_param input (text "served_model_name")) in
    if given == [] then from_artifact input else given

abbrev pub host_port_var : Input → ℕ
host_port_var input =
    if ltb 0 input.deployment.service.host_port
    then input.deployment.service.host_port
    else effective_container_port input

abbrev pub path_vars : Input → Map
path_vars input =
    both "MODEL_PARENT_HOST_PATH" "model_parent_host_path" (model_host_root input.artifact) (
      both "MODEL_HOST_PATH" "model_host_path" (model_host_path input) (
        both "MODEL_CONTAINER_FILE" "model_container_file" (model_container_file input)
          (both "MODEL_CONTAINER_PATH" "model_container_path" (model_container_path input) [])))

abbrev pub port_vars : Input → Map → Map
port_vars input m =
    let container_port = effective_container_port input in
    both "HOST_PORT" "host_port" (print_nat (host_port_var input)) (
      both "APP_PORT" "app_port" (print_nat (effective_app_port input container_port))
        (both "CONTAINER_PORT" "container_port" (print_nat container_port) m))

abbrev pub parameter_vars : Input → Map → Map
parameter_vars input m =
    both_if_given "TENSOR_PARALLEL_SIZE" "tensor_parallel_size"
      (get_param input (text "tensor_parallel_size"))
      (both_if_given "GPU_MEMORY_UTILIZATION" "gpu_memory_utilization"
        (get_param input (text "gpu_memory_utilization"))
        (both_if_given "MAX_MODEL_LEN" "max_model_len" (get_param input (text "max_model_len"))
          (both "SERVED_MODEL_NAME" "served_model_name" (served_model_name input) m)))

abbrev pub gpu_vars : Input → Map → Map
gpu_vars input m =
    let indexes = join (text ",") (map print_nat input.assigned_gpus) in
    both "ASSIGNED_GPU_COUNT" "assigned_gpu_count" (print_nat (length input.assigned_gpus)) (
      both "VENDOR_VISIBLE_DEVICES" "vendor_visible_devices" indexes
        (both "ASSIGNED_GPU_INDEXES" "assigned_gpu_indexes" indexes m))

-- `buildVarMap`
unfoldable pub build_var_map : Input → Map
unfolding insert print_nat format_value get_param served_model_name has_suffix has_prefix
    contains_text trim_left trim_right join filepath_base model_host_root model_relative_path
    effective_container_port effective_app_port
build_var_map input = both "NODE_IP" "node_ip" input.node_ip (
    both "NODE_ID" "node_id" input.node_id (
      both "INSTANCE_ID" "instance_id" input.instance_id (
        both "DEPLOYMENT_NAME" "deployment_name" input.deployment.name
          (gpu_vars input (parameter_vars input (port_vars input (path_vars input)))))))
