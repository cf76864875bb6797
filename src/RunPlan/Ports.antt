-- ===== src/RunPlan/Ports.antt =====
-- Ports, health check, launcher, image and Docker settings of a plan
-- (internal/server/runplan/resolver.go).
use lightai_go.Common.{
  ℕ, none, some, List, [], ◌∷◌, ◌||◌, ltb, or_else, nat_eq, ◌==◌, if◌then◌else◌,
}
use lightai_go.Text.{Text, text_eq, trim_space, to_lower}
use lightai_go.RunPlan.{Map, insert, DockerSpec, HealthCheck, Runtime, Input}
use lightai_go.RunPlan.Args.Service.{port_binding}

abbrev pub or_positive : ℕ → ℕ → ℕ
or_positive n other = if ltb 0 n then n else other

abbrev pub bound_container_port : Input → ℕ
bound_container_port input = elim (port_binding input) [ none ↦ 0 | some b ↦ b.container_port ]

abbrev pub bound_host_port : Input → ℕ
bound_host_port input = elim (port_binding input) [ none ↦ 0 | some b ↦ b.host_port ]

-- `effectiveContainerPort`
unfoldable pub effective_container_port : Input → ℕ
effective_container_port input = or_positive (bound_container_port input) (
    or_positive input.deployment.service.container_port (
      or_positive input.deployment.service.app_port
        (or_positive input.version.default_container_port 8000)))

-- `effectiveHostPort`
unfoldable pub effective_host_port : Input → ℕ → ℕ
effective_host_port input container_port =
    or_positive (bound_host_port input)
      (or_positive input.deployment.service.host_port container_port)

-- `effectiveAppPort`
unfoldable pub effective_app_port : Input → ℕ → ℕ
effective_app_port input container_port =
    or_positive (bound_container_port input)
      (or_positive input.deployment.service.app_port container_port)

-- `buildHealthCheck`
abbrev pub or_default : ℕ → ℕ → ℕ
or_default n d = if n == 0 then d else n

unfoldable pub build_health_check : Input → HealthCheck
build_health_check input =
    let hc = or_else input.runtime.health_check_override input.version.health_check in
    if hc.path == [] then hc else record hc {
      expected_status = or_default hc.expected_status 200;
      startup_timeout_seconds = or_default hc.startup_timeout_seconds 120;
      interval_seconds = or_default hc.interval_seconds 5;
      timeout_seconds = or_default hc.timeout_seconds 3;
    }

-- `ResolveLauncherKind`
unfoldable pub resolve_launcher_kind : Runtime → Text
unfolding to_lower trim_space
resolve_launcher_kind rt =
    if trim_space (to_lower rt.launcher_kind) == []
    then trim_space (to_lower rt.runtime_type)
    else trim_space (to_lower rt.launcher_kind)

-- `resolveImage`
unfoldable pub resolve_image : Input → Text
resolve_image input = elim input.override [
  | none ↦ input.runtime.image_name
  | some o ↦ if o.image_name == [] then input.runtime.image_name else o.image_name
]

abbrev pub or_text : Text → Text → Text
or_text s other = if s == [] then other else s

abbrev pub or_list {ℓ} : {A : Type ℓ} → List A → List A → List A
or_list [] other = other
or_list (x ∷ xs) other = x ∷ xs

unfoldable pub insert_all : Map → Map → Map
unfolding insert
insert_all [] m = m
insert_all ((k, v) ∷ kvs) m = insert_all kvs (insert k v m)

abbrev pub override_docker : DockerSpec → DockerSpec → DockerSpec
override_docker o d = record d {
  privileged = o.privileged || d.privileged;
  ipc_mode = or_text o.ipc_mode d.ipc_mode;
  uts_mode = or_text o.uts_mode d.uts_mode;
  network_mode = or_text o.network_mode d.network_mode;
  shm_size = or_text o.shm_size d.shm_size;
  gpu_visible_env_key = or_text o.gpu_visible_env_key d.gpu_visible_env_key;
  devices = or_list o.devices d.devices;
  security_options = or_list o.security_options d.security_options;
  cap_add = or_list o.cap_add d.cap_add;
  cap_drop = or_list o.cap_drop d.cap_drop;
  ulimits = insert_all o.ulimits d.ulimits;
  group_add = or_list o.group_add d.group_add;
}

-- `mergeDockerSpec`
unfoldable pub merge_docker_spec : Input → DockerSpec
unfolding insert_all
merge_docker_spec input = elim input.override [
  | none ↦ input.runtime.docker
  | some o ↦ elim o.docker_override [
    | none ↦ input.runtime.docker
    | some d ↦ override_docker d input.runtime.docker
  ]
]
