-- ===== src/RunPlan/Tests.antt =====
-- The resolver's theorems at concrete inputs.
use lightai_go.Common.{◌≡◌, ◌≢◌, refl, ◌↔◌, false, none, some, [], ◌∷◌, is_empty}
use lightai_go.Text.{trim_space, Text, text, text_eq, text_beq, has_prefix, cut_last}
use lightai_go.Common.{any, contains, is_empty, true, ◌&&◌}
use lightai_go.RunPlan.Resolve.{Plan}
use lightai_go.Text.{to_lower, has_prefix, contains_text}
use lightai_go.RunPlan.Lint.{lint_preflight, lint_preview, is_other_vendor, nvidia_only_flags}
use lightai_go.RunPlan.Lint.Laws.{is_lint_error, lint_preflight_lem, lint_preview_lem}
use lightai_go.RunPlan.Detection.{
  default_process_start_profiles, select_profile, score_profile, score_of, best_of, launcher_module,
  has_suffix, classify_entrypoint_shape, detect_process_start, is_launcher_token,
}
use lightai_go.RunPlan.Detection.Laws.{
  start_of, is_server_launch, sglang_start, detect_process_start_lem,
}
use lightai_go.RunPlan.{lookup}
use lightai_go.RunPlan.Args.Service.{effective_service_info, build_args}
use lightai_go.RunPlan.Args.Precedence.{build_args_port}
use lightai_go.RunPlan.Args.Laws.{last_value}
use lightai_go.RunPlan.{print_nat}
use lightai_go.RunPlan.Env.{build_env, node_env}
use lightai_go.RunPlan.Env.Laws.{preferred, override_value, build_env_lem}
use lightai_go.RunPlan.Mounts.{build_mounts}
use lightai_go.RunPlan.Mounts.Laws.{IsSafe, build_mounts-IsSafe}
use lightai_go.RunPlan.Devices.{device_binding_enabled}
use lightai_go.RunPlan.Resolve.{make_plan, resolve}
use lightai_go.RunPlan.Resolve.Laws.{disabled_binding_lem}
use lightai_go.RunPlan.Compat.{ok, check_compatibility, IsRunnable, check_compatibility_lem}
use lightai_go.RunPlan.Samples.{snapshot, input, model, backend, mount, on_port}

build_mounts-IsSafe_example : IsSafe input (build_mounts input)
build_mounts-IsSafe_example = build_mounts-IsSafe input

build_env_lem_example :
    lookup (text "MODE") (build_env input []).0
    ≡ preferred
        (override_value [] (text "MODE") input.deployment.env_overrides)
        (lookup (text "MODE") (node_env input []).env)
unfolding text_beq
build_env_lem_example = build_env_lem input [] snapshot (text "MODE") refl refl

nonempty : (s : Text) → is_empty s ≡ false → s ≢ []
nonempty [] h = absurd (cc)
nonempty (c ∷ s) h = λ e. cc

check_compatibility_lem_example :
    (check_compatibility model backend ≡ ok) ↔ IsRunnable model backend
check_compatibility_lem_example = check_compatibility_lem model backend

build_args_port_example :
    last_value (text "--port") (build_args on_port []).0
    ≡ some (print_nat (effective_service_info on_port).app_port)
unfolding effective_service_info trim_space
build_args_port_example = build_args_port on_port [] snapshot refl refl refl

resolves : (resolve input).0 ≡ some (make_plan input mount)
unfolding resolve build_mounts text_beq cut_last
resolves = refl

disabled_binding_lem_example :
    ((make_plan input mount).device_binding.gpu_device_ids ≡ [])
    × (lookup (make_plan input mount).device_binding.visible_env_key (make_plan input mount).env
        ≡ none)
unfolding device_binding_enabled text_beq
disabled_binding_lem_example = disabled_binding_lem input (make_plan input mount) refl resolves

lint_preflight_lem_example :
    is_lint_error (lint_preflight (make_plan input mount) (text "vllm")).status ≡ false
lint_preflight_lem_example = lint_preflight_lem (make_plan input mount) (text "vllm")

abbrev on_metax : Plan
on_metax = record (make_plan input mount) { args = text "--tensor-parallel-size" ∷ text "2" ∷ [] }

lint_preview_lem_example :
    is_lint_error (lint_preview (some on_metax) (text "vllm") [] (text "metax")).status
    ≡ (is_other_vendor (text "metax") && any (contains nvidia_only_flags) on_metax.args)
lint_preview_lem_example = lint_preview_lem (some on_metax) (text "vllm") [] (text "metax")

-- The plan has a flag that is for another vendor's devices.
metax_refused :
    (is_other_vendor (text "metax") && any (contains nvidia_only_flags) on_metax.args) ≡ true
unfolding text_beq
metax_refused = refl

detect_process_start_lem_example :
    start_of (detect_process_start (text "sglang") (text "sglang" ∷ text "serve" ∷ []))
    ≡ sglang_start (
        is_server_launch
          (classify_entrypoint_shape (text "sglang" ∷ text "serve" ∷ []))
          (any is_launcher_token (text "sglang" ∷ text "serve" ∷ [])))
detect_process_start_lem_example = detect_process_start_lem (text "sglang" ∷ text "serve" ∷ [])

-- The image starts SGLang itself.
sglang_twice :
    is_server_launch
      (classify_entrypoint_shape (text "sglang" ∷ text "serve" ∷ []))
      (any is_launcher_token (text "sglang" ∷ text "serve" ∷ []))
    ≡ true
unfolding classify_entrypoint_shape has_suffix has_prefix contains_text to_lower text_beq
sglang_twice = refl

-- An image whose entrypoint starts the launcher by Python: the command names the launcher again.
python_launch_twice :
    start_of (
      detect_process_start
        (text "sglang")
        (text "python3" ∷ text "-m" ∷ text "sglang.launch_server" ∷ []))
    ≡ (text "sglang.python_module_launcher", [], launcher_module)
unfolding detect_process_start default_process_start_profiles classify_entrypoint_shape
    select_profile score_profile score_of best_of text_beq contains_text to_lower has_prefix
python_launch_twice = refl
