-- ===== src/RunPlan/Devices.antt =====
-- The accelerators of a container: `deviceBindingEnabled` and `buildDeviceBinding`
-- (internal/server/runplan/resolver.go). The fields that no function reads again are left out:
-- `PatchTarget`, `Editable`, `InjectionPreview` and the descriptions of the effects.
use lightai_go.Common.{
  ℕ, Bool, true, false, not, ◌&&◌, ◌||◌, Option, none, some, List, [], ◌++◌, map, ltb, length,
  is_empty, ◌==◌, if◌then◌else◌,
}
use lightai_go.Text.{Text, text, text_eq, trim_space, to_lower, join}
use lightai_go.RunPlan.{print_nat, DeviceMapping, DeviceBindingConfig, Input}

abbrev pub device_config : Input → Option DeviceBindingConfig
device_config input = elim input.snapshot [ none ↦ none | some s ↦ s.device_binding ]

abbrev pub tidy : Text → Text
tidy s = to_lower (trim_space s)

abbrev pub is_refused : Option Bool → Bool
is_refused (some false) = true
is_refused _ = false

-- `deviceBindingEnabled`
unfoldable pub device_binding_enabled : Input → Bool
unfolding to_lower trim_space
device_binding_enabled input =
    let vendor = tidy input.runtime.vendor in
    let placement = input.deployment.placement in
    let by_placement =
      if vendor == [] || vendor == text "cpu" || vendor == text "none"
      then false
      else if is_refused placement.device_binding_enabled
      then false
      else not (tidy placement.accelerator_selection_mode == text "disabled") in
    elim (device_config input) [
      | none ↦ by_placement
      | some cfg ↦ cfg.enabled && not (tidy cfg.mode == text "disabled")
    ]

-- `defaultVisibleEnvKey`
unfoldable pub default_visible_env_key : Text → Text
default_visible_env_key vendor =
    if to_lower vendor == text "huawei" || to_lower vendor == text "ascend"
    then text "ASCEND_VISIBLE_DEVICES"
    else text "CUDA_VISIBLE_DEVICES"

pub record DeviceBinding : Type 0 where
  pub enabled : Bool
  pub selection_mode : Text
  pub vendor : Text
  pub accelerator_ids : List Text
  pub accelerator_count : ℕ
  pub allow_auto_select : Bool
  pub source : Text
  pub gpu_device_ids : List Text
  pub visible_env_key : Text
  pub visible_env_value : Text
  pub docker_gpu_option : Text
  pub final_device_mounts : List DeviceMapping

-- A field of the configuration, trimmed, when there is one and it is not blank.
abbrev pub or_config : Option DeviceBindingConfig → (DeviceBindingConfig → Text) → Text → Text
or_config none field other = other
or_config (some cfg) field other =
    if trim_space (field cfg) == [] then other else trim_space (field cfg)

abbrev pub config_mounts : Option DeviceBindingConfig → List DeviceMapping
config_mounts none = []
config_mounts (some cfg) = cfg.device_mounts

abbrev pub config_ids : Option DeviceBindingConfig → List Text
config_ids none = []
config_ids (some cfg) = cfg.accelerator_ids

abbrev pub config_count : Option DeviceBindingConfig → ℕ
config_count none = 0
config_count (some cfg) = cfg.accelerator_count

abbrev pub assigned_ids : Input → List Text
assigned_ids input =
    if not (is_empty (config_ids (device_config input)))
    then config_ids (device_config input)
    else if device_binding_enabled input
    then map print_nat input.assigned_gpus
    else []

abbrev pub selection_mode_of : Input → Text
selection_mode_of input =
    let placement = input.deployment.placement in
    let mode =
      tidy
        (or_config (device_config input) (λ cfg. cfg.mode) placement.accelerator_selection_mode) in
    if not (mode == [])
    then mode
    else if not (is_empty placement.accelerator_ids)
    then text "manual"
    else if not (is_empty (assigned_ids input))
    then text "auto"
    else text "disabled"

-- `buildDeviceBinding`
unfoldable pub build_device_binding : Input → DeviceBinding
unfolding device_binding_enabled default_visible_env_key print_nat join to_lower trim_space
build_device_binding input =
    let cfg = device_config input in
    let ids = assigned_ids input in
    let mode = selection_mode_of input in
    let vendor = tidy (or_config cfg (λ c. c.vendor) input.runtime.vendor) in
    let source =
      if mode == text "auto" then text "node_inventory_default" else text "configedit_component" in
    let key = or_config cfg (λ c. c.visible_env_key) (default_visible_env_key vendor) in
    let value = or_config cfg (λ c. c.visible_env_value) (join (text ",") ids) in
    let option =
      if vendor == text "nvidia"
      then or_config cfg (λ c. c.docker_gpu_option) (text "device=" ++ value)
      else [] in
    let auto = input.deployment.placement.allow_auto_select in
    if not (device_binding_enabled input)
    then record {
      enabled = false;
      selection_mode = text "disabled";
      vendor = vendor;
      accelerator_ids = [];
      accelerator_count = 0;
      allow_auto_select = auto;
      source = source;
      gpu_device_ids = [];
      visible_env_key = key;
      visible_env_value = [];
      docker_gpu_option = [];
      final_device_mounts = [];
    }
    else record {
      enabled = not (is_empty ids);
      selection_mode = mode;
      vendor = vendor;
      accelerator_ids = ids;
      accelerator_count = if ltb 0 (config_count cfg) then config_count cfg else length ids;
      allow_auto_select = auto || mode == text "auto";
      source = source;
      gpu_device_ids = ids;
      visible_env_key = key;
      visible_env_value = value;
      docker_gpu_option = option;
      final_device_mounts = config_mounts cfg;
    }
