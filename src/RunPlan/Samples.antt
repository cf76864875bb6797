-- ===== src/RunPlan/Samples.antt =====
-- Concrete inputs for the tests of the resolver.
use lightai_go.Common.{true, false, none, some, [], ◌∷◌}
use lightai_go.Text.{text, text_eq}
use lightai_go.RunPlan.{str, ParameterValue, DockerSpec, HealthCheck, Snapshot, Deployment, Input}
use lightai_go.RunPlan.Mounts.{Mount}
use lightai_go.RunPlan.Compat.{ModelDescriptor, BackendDescriptor}

abbrev pub temperature : ParameterValue
temperature = record {
  key = text "--seed";
  target = text "cli";
  cli_name = [];
  env_name = [];
  render_style = [];
  enabled = true;
  value = str (text "7");
}

abbrev pub disabled_env : ParameterValue
disabled_env = record temperature { key = text "DEBUG"; target = text "env" }

abbrev pub snapshot : Snapshot
snapshot = record {
  args_override = text "--seed" ∷ text "1" ∷ [];
  default_env = (text "DEBUG", text "1") ∷ (text "MODE", text "slow") ∷ [];
  device_binding = none;
  service_port_binding = none;
  parameter_schema = [];
  parameter_values = [];
}

abbrev pub no_docker : DockerSpec
no_docker = record {
  privileged = false;
  ipc_mode = [];
  uts_mode = [];
  network_mode = [];
  shm_size = [];
  gpu_visible_env_key = [];
  ulimits = [];
  security_options = [];
  cap_add = [];
  cap_drop = [];
  devices = [];
  group_add = [];
  gpu_driver = [];
  gpu_capabilities = [];
}

abbrev pub no_health : HealthCheck
no_health = record {
  path = [];
  expected_status = 0;
  startup_timeout_seconds = 0;
  interval_seconds = 0;
  timeout_seconds = 0;
}

abbrev pub deployment : Deployment
deployment = record {
  id = text "d1";
  name = text "chat";
  parameters = [];
  env_overrides = (text "MODE", text "fast") ∷ [];
  parameter_values = temperature ∷ [];
  disabled_parameters = disabled_env ∷ [];
  placement = record {
    accelerator_ids = [];
    accelerator_selection_mode = [];
    device_binding_enabled = none;
    allow_auto_select = false;
  };
  service = record {
    host_port = 8001;
    container_port = 8000;
    app_port = 0;
    listen_host = text "0.0.0.0";
  };
}

abbrev pub input : Input
input = record {
  backend_name = text "vllm";
  version = record {
    version = text "1";
    default_entrypoint = [];
    parameter_defs = [];
    health_check = no_health;
    default_container_port = 0;
  };
  runtime = record {
    vendor = text "cpu";
    runtime_type = text "docker";
    launcher_kind = [];
    image_name = text "vllm:1";
    entrypoint_override = [];
    docker = no_docker;
    model_mount = record { container_path = []; readonly = false };
    health_check_override = none;
  };
  override = none;
  artifact = record { name = text "m"; path = text "/data/m"; model_root = []; relative_path = [] };
  deployment = deployment;
  instance_id = text "i1";
  node_id = text "n1";
  node_ip = text "10.0.0.1";
  assigned_gpus = [];
  process_start = none;
  snapshot = some snapshot;
}

abbrev pub without_image : Input
without_image = record input { runtime = record input.runtime { image_name = [] } }

abbrev pub model : ModelDescriptor
model = record {
  format = text "gguf";
  task = text "chat";
  deployable = true;
  path_type = text "file";
  architecture = text "llama";
}

abbrev pub backend : BackendDescriptor
backend = record {
  supported_formats = text "gguf" ∷ [];
  supported_tasks = text "chat" ∷ [];
  model_path_modes = text "file" ∷ [];
  blocked_architectures = [];
}

abbrev pub mount : Mount
mount = record { host_path = text "/data/m"; container_path = text "/models/m"; readonly = true }

abbrev pub on_port : Input
on_port = record input {
  deployment = record deployment {
    service = record { host_port = 8001; container_port = 8000; app_port = 8000; listen_host = [] };
  };
}
