-- ===== src/RunPlan.antt =====
-- The run-plan resolver's input and output (internal/server/runplan/resolver.go, types.go).
-- A Go map is a list of entries with distinct keys, in the order in which it is ranged over. A port
-- or a count that is not positive is 0. What no function of the resolver reads is left out.
pub mod Digits
pub mod Template
pub mod Args
pub mod Env
pub mod Mounts
pub mod Ports
pub mod Devices
pub mod Compat
pub mod Vars
pub mod Resolve
pub mod Lint
pub mod Detection
mod Samples
mod Tests
use lightai_go.Common.{
  ℕ, suc, ◌-◌, ◌+◌, ◌/◌, ◌%◌, Bool, true, false, not, ◌&&◌, ◌||◌, Option, none, some, List, [], ◌∷◌,
  ◌++◌, ltb, ◌==◌, if◌then◌else◌,
}
unfoldable pub use lightai_go.Text.Maps.{Map, lookup, insert, remove}
unfoldable pub use lightai_go.Text.Print.{print_from, print_nat}
use lightai_go.Text.{Text, text, text_eq, join}

-- A value of an `interface{}`. A number, and an item of a list, stands as `%v` prints it.
pub data Value : Type 0 where
  null : Value
  str : Text → Value
  bool : Bool → Value
  number : Text → Value
  list : List Text → Value

-- `fmt.Sprintf("%v", v)`
unfoldable pub format_value : Value → Text
format_value null = text "<nil>"
format_value (str s) = s
format_value (bool true) = text "true"
format_value (bool false) = text "false"
format_value (number s) = s
format_value (list xs) = text "[" ++ (join (text " ") xs ++ text "]")

-- `v == nil || v == ""`
abbrev pub is_blank : Value → Bool
is_blank null = true
is_blank (str []) = true
is_blank _ = false

pub record ParameterValue : Type 0 where
  pub key : Text
  pub target : Text
  pub cli_name : Text
  pub env_name : Text
  pub render_style : Text
  pub enabled : Bool
  pub value : Value

pub record ParameterDef : Type 0 where
  pub name : Text
  pub cli_name : Text
  pub alias : Text
  pub default : Value
  pub required : Bool

pub record DeviceMapping : Type 0 where
  pub host_path : Text
  pub container_path : Text

pub record DockerSpec : Type 0 where
  pub privileged : Bool
  pub ipc_mode : Text
  pub uts_mode : Text
  pub network_mode : Text
  pub shm_size : Text
  pub gpu_visible_env_key : Text
  pub ulimits : Map
  pub security_options : List Text
  pub cap_add : List Text
  pub cap_drop : List Text
  pub devices : List DeviceMapping
  pub group_add : List Text
  pub gpu_driver : Text
  pub gpu_capabilities : List (List Text)

pub record ModelMount : Type 0 where
  pub container_path : Text
  pub readonly : Bool

pub record HealthCheck : Type 0 where
  pub path : Text
  pub expected_status : ℕ
  pub startup_timeout_seconds : ℕ
  pub interval_seconds : ℕ
  pub timeout_seconds : ℕ

pub record DeviceBindingConfig : Type 0 where
  pub enabled : Bool
  pub mode : Text
  pub vendor : Text
  pub accelerator_ids : List Text
  pub accelerator_count : ℕ
  pub visible_env_key : Text
  pub visible_env_value : Text
  pub docker_gpu_option : Text
  pub device_mounts : List DeviceMapping

pub record ServicePortBinding : Type 0 where
  pub listen_host : Text
  pub container_port : ℕ
  pub host_port : ℕ

-- The frozen snapshot of the node's backend runtime.
pub record Snapshot : Type 0 where
  pub args_override : List Text
  pub default_env : Map
  pub device_binding : Option DeviceBindingConfig
  pub service_port_binding : Option ServicePortBinding
  pub parameter_schema : List ParameterDef
  pub parameter_values : List ParameterValue

pub record Version : Type 0 where
  pub version : Text
  pub default_entrypoint : List Text
  pub parameter_defs : List ParameterDef
  pub health_check : HealthCheck
  pub default_container_port : ℕ

pub record Runtime : Type 0 where
  pub vendor : Text
  pub runtime_type : Text
  pub launcher_kind : Text
  pub image_name : Text
  pub entrypoint_override : List Text
  pub docker : DockerSpec
  pub model_mount : ModelMount
  pub health_check_override : Option HealthCheck

pub record NodeOverride : Type 0 where
  pub image_name : Text
  pub env : Map
  pub docker_override : Option DockerSpec
  pub model_root_host_path : Text

pub record Artifact : Type 0 where
  pub name : Text
  pub path : Text
  pub model_root : Text
  pub relative_path : Text

pub record Placement : Type 0 where
  pub accelerator_ids : List Text
  pub accelerator_selection_mode : Text
  pub device_binding_enabled : Option Bool
  pub allow_auto_select : Bool

pub record Service : Type 0 where
  pub host_port : ℕ
  pub container_port : ℕ
  pub app_port : ℕ
  pub listen_host : Text

pub record Deployment : Type 0 where
  pub id : Text
  pub name : Text
  pub parameters : List (Text × Value)
  pub env_overrides : Map
  pub parameter_values : List ParameterValue
  pub disabled_parameters : List ParameterValue
  pub placement : Placement
  pub service : Service

pub record ProcessStart : Type 0 where
  pub entrypoint_mode : Text
  pub entrypoint : List Text
  pub command_prefix : List Text

-- `ResolveInput`; the pointers that every caller sets are plain fields.
pub record Input : Type 0 where
  pub backend_name : Text
  pub version : Version
  pub runtime : Runtime
  pub override : Option NodeOverride
  pub artifact : Artifact
  pub deployment : Deployment
  pub instance_id : Text
  pub node_id : Text
  pub node_ip : Text
  pub assigned_gpus : List ℕ
  pub process_start : Option ProcessStart
  pub snapshot : Option Snapshot
