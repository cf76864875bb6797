-- ===== src/RunPlan/Lint.antt =====
-- The lint of a run plan (internal/server/runplan/lint.go) and its two uses
-- (internal/server/api/deployment_lifecycle_handlers.go, deployment_preview_handlers.go). A finding
-- keeps the subjects of its message; the sentences for people are left out.
pub mod Laws
use lightai_go.Common.{
  ℕ, Bool, true, false, not, ◌&&◌, ◌||◌, Option, none, some, List, [], ◌∷◌, ◌++◌, any, map,
  concat_map, contains, count_by, filter_by, is_empty, or_else, ltb, ◌==◌, nat_eq, if◌then◌else◌,
}
use lightai_go.Text.{Text, text, text_eq, has_prefix, cut_last}
use lightai_go.RunPlan.{Map, lookup, insert, DockerSpec}
use lightai_go.RunPlan.Resolve.{Plan}

pub data LintSeverity : Type 0 where
  severity_error severity_warning severity_advisory : LintSeverity

pub data LintCategory : Type 0 where
  duplicate_arg env_cli_conflict platform_overridden high_risk unsupported : LintCategory
  disabled_applied missing_required vendor_incompatible : LintCategory

pub record LintFinding : Type 0 where
  pub id : Text
  pub severity : LintSeverity
  pub category : LintCategory
  pub subject : List Text
  pub field_path : Text
  pub sources : List Text

pub data LintStatus : Type 0 where
  lint_ok lint_warning lint_error : LintStatus

pub record LintResult : Type 0 where
  pub status : LintStatus
  pub findings : List LintFinding

pub record LogicalParamSpec : Type 0 where
  pub name : Text
  pub cli_flags : List Text
  pub env_vars : List Text
  pub owner : Text
  pub conflict : Text

-- `LintInput` without the fields that no rule reads; a nil map is empty.
pub record LintInput : Type 0 where
  pub pre_dedup_args : List Text
  pub final_args : List Text
  pub env : Map
  pub platform_owned_params : List LogicalParamSpec
  pub backend_name : Text
  pub docker_spec : Option DockerSpec
  pub env_sources : Map
  pub required_param_keys : List Text
  pub disabled_param_keys : List Text
  pub disabled_param_sources : Map
  pub vendor : Text
  pub backend_args_schema : List Text

abbrev pub platform_param : Text → Text → List Text → LogicalParamSpec
platform_param name flag env_vars = record {
  name = name;
  cli_flags = flag ∷ [];
  env_vars = env_vars;
  owner = text "platform";
  conflict = text "reject";
}

unfoldable pub default_logical_param_specs : List LogicalParamSpec
default_logical_param_specs =
    platform_param (text "host") (text "--host") (text "LLAMA_ARG_HOST" ∷ [])
    ∷ platform_param (text "port") (text "--port") (text "LLAMA_ARG_PORT" ∷ [])
    ∷ platform_param (text "model_path") (text "--model") []
    ∷ platform_param (text "served_model_name") (text "--served-model-name") []
    ∷ platform_param (text "sglang_model_path") (text "--model-path") []
    ∷ []

abbrev pub is_flag : Text → Bool
is_flag arg = has_prefix arg (text "-")

-- The flags that the loop over the arguments sees; it steps over the value of a flag.
unfoldable pub flags_of : List Text → List Text
flags_of [] = []
flags_of (arg ∷ []) = if is_flag arg then arg ∷ [] else []
flags_of (arg ∷ following ∷ rest) = elim (is_flag arg) [
  | true ↦
      arg
      ∷ (elim (is_flag following) [ true ↦ flags_of (following ∷ rest) | false ↦ flags_of rest ])
  | false ↦ flags_of (following ∷ rest)
]

-- The values of the flags that have one
unfoldable pub flag_values : List Text → Map → Map
flag_values [] found = found
flag_values (arg ∷ []) found = found
flag_values (arg ∷ following ∷ rest) found = elim (is_flag arg && not (is_flag following)) [
  | true ↦ flag_values rest (insert arg following found)
  | false ↦ flag_values (following ∷ rest) found
]

-- The keys of a map that is filled with these
unfoldable pub distinct : List Text → List Text → List Text
distinct seen [] = seen
distinct seen (x ∷ rest) = distinct (if contains seen x then seen else seen ++ x ∷ []) rest

abbrev pub finding_if : Bool → LintFinding → List LintFinding
finding_if true f = f ∷ []
finding_if false f = []

abbrev pub duplicate_finding : List Text → Text → List LintFinding
duplicate_finding flags flag = finding_if (ltb 1 (count_by (λ f. f == flag) flags)) (record {
  id = text "arg.duplicate";
  severity = severity_error;
  category = duplicate_arg;
  subject = flag ∷ [];
  field_path = text "args";
  sources = text "user_extra_args" ∷ [];
})

abbrev pub override_finding : List Text → Text → List LintFinding
override_finding args flag = finding_if (ltb 1 (count_by (λ arg. arg == flag) args)) (record {
  id = text "arg.platform_overridden";
  severity = severity_error;
  category = platform_overridden;
  subject = flag ∷ [];
  field_path = text "args";
  sources = text "platform" ∷ text "user_extra_args" ∷ [];
})

abbrev pub override_findings : List Text → LogicalParamSpec → List LintFinding
override_findings args spec =
    if spec.owner == text "platform" && spec.conflict == text "reject"
    then concat_map (override_finding args) spec.cli_flags
    else []

-- `lintPreNormalization`
unfoldable pub lint_pre_normalization : List Text → List LogicalParamSpec → List LintFinding
unfolding flags_of distinct
lint_pre_normalization args specs =
    concat_map (duplicate_finding (flags_of args)) (distinct [] (flags_of args))
    ++ concat_map (override_findings args) specs

-- The severity of a variable that a flag conflicts with, by the variable's source
abbrev pub conflict_severity : Text → LogicalParamSpec → LintSeverity
conflict_severity source spec =
    if source == text "user_env" && spec.owner == text "platform"
    then severity_error
    else severity_warning

abbrev pub conflict_finding : Map → LogicalParamSpec → Text → Text → Text → LintFinding
conflict_finding env_sources spec env_var value flag =
    let source = or_else (lookup env_var env_sources) (text "unknown") in
    record {
      id = text "arg.env_cli_conflict";
      severity = conflict_severity source spec;
      category = env_cli_conflict;
      subject = env_var ∷ value ∷ flag ∷ [];
      field_path = text "env+args";
      sources = source ∷ text "platform" ∷ [];
    }

abbrev pub is_set : Option Text → Bool
is_set none = false
is_set (some v) = true

abbrev pub conflict_of : Map → Map → LogicalParamSpec → Text → Text → Text → List LintFinding
conflict_of values env_sources spec env_var value flag =
    finding_if (is_set (lookup flag values)) (conflict_finding env_sources spec env_var value flag)

abbrev pub conflicts_with : Map → Map → LogicalParamSpec → Text → Option Text → List LintFinding
conflicts_with values env_sources spec env_var none = []
conflicts_with values env_sources spec env_var (some value) =
    concat_map (conflict_of values env_sources spec env_var value) spec.cli_flags

abbrev pub env_conflicts : Map → Map → Map → LogicalParamSpec → Text → List LintFinding
env_conflicts values env env_sources spec env_var =
    conflicts_with values env_sources spec env_var (lookup env_var env)

abbrev pub spec_conflicts : Map → Map → Map → LogicalParamSpec → List LintFinding
spec_conflicts values env env_sources spec =
    concat_map (env_conflicts values env env_sources spec) spec.env_vars

abbrev pub risk : Text → Text → List Text → LintFinding
risk id path subject = record {
  id = id;
  severity = severity_warning;
  category = high_risk;
  subject = subject;
  field_path = path;
  sources = text "platform" ∷ [];
}

abbrev pub option_risk : Text → List LintFinding
option_risk option =
    finding_if (option == text "seccomp=unconfined" || option == text "apparmor=unconfined")
      (risk (text "security.unconfined") (text "docker.security_options") (option ∷ []))

abbrev pub privileged_risk : Bool → List LintFinding
privileged_risk b =
    finding_if b (risk (text "security.privileged_enabled") (text "docker.privileged") [])

abbrev pub ipc_risk : Bool → List LintFinding
ipc_risk b = finding_if b (risk (text "security.ipc_host") (text "docker.ipc_mode") [])

abbrev pub docker_risks : Option DockerSpec → List LintFinding
docker_risks none = []
docker_risks (some d) =
    privileged_risk d.privileged
    ++ (ipc_risk (d.ipc_mode == text "host") ++ concat_map option_risk d.security_options)

-- `lintFinal`
unfoldable pub lint_final :
    List Text → Map → List LogicalParamSpec → Map → Option DockerSpec → List LintFinding
unfolding flag_values lookup
lint_final args env specs env_sources docker =
    let values = flag_values args [] in
    concat_map (spec_conflicts values env env_sources) specs ++ docker_risks docker

unfoldable pub param_key_matches_flag : Text → Text → Bool
unfolding cut_last
param_key_matches_flag key flag =
    let suffix : Text = elim (cut_last b'.' key) [ none ↦ key | some (before, after) ↦ after ] in
    flag == text "--" ++ map (λ c. if c == b'_' then b'-' else c) suffix

abbrev pub disabled_finding : LintInput → Text → Text → List LintFinding
disabled_finding input key flag =
    let source = or_else (lookup key input.disabled_param_sources) (text "unknown") in
    finding_if (param_key_matches_flag key flag && not (contains input.backend_args_schema flag))
      (record {
        id = text "param.disabled_applied";
        severity = severity_warning;
        category = disabled_applied;
        subject = key ∷ flag ∷ [];
        field_path = text "params";
        sources = source ∷ [];
      })

abbrev pub missing_finding : List Text → Text → List LintFinding
missing_finding flags key = finding_if (not (any (param_key_matches_flag key) flags)) (record {
  id = text "param.missing_required";
  severity = severity_error;
  category = missing_required;
  subject = key ∷ [];
  field_path = text "params";
  sources = text "platform" ∷ [];
})

abbrev pub nvidia_only_flags : List Text
nvidia_only_flags =
    text "--gpu-memory-utilization"
    ∷ text "--tensor-parallel-size"
    ∷ text "--pipeline-parallel-size"
    ∷ text "--kv-cache-dtype"
    ∷ []

abbrev pub is_other_vendor : Text → Bool
is_other_vendor vendor =
    not (vendor == []) && not (vendor == text "nvidia") && not (vendor == text "cpu")

abbrev pub vendor_finding : Text → Text → List LintFinding
vendor_finding vendor flag = finding_if (contains nvidia_only_flags flag) (record {
  id = text "param.vendor_incompatible";
  severity = severity_error;
  category = vendor_incompatible;
  subject = flag ∷ vendor ∷ [];
  field_path = text "params";
  sources = text "user" ∷ [];
})

abbrev pub vendor_findings : Text → List Text → List LintFinding
vendor_findings vendor flags =
    if is_other_vendor vendor then concat_map (vendor_finding vendor) flags else []

abbrev pub platform_managed : List Text
platform_managed =
    text "--model" ∷ text "--host" ∷ text "--port" ∷ text "--model-path" ∷ text "-m" ∷ []

abbrev pub unsupported_finding : LintInput → Text → List LintFinding
unsupported_finding input flag =
    finding_if
      (not (
        contains input.backend_args_schema flag
        || contains platform_managed flag
        || is_empty input.backend_args_schema))
      (record {
        id = text "param.unsupported";
        severity = severity_warning;
        category = unsupported;
        subject = flag ∷ input.backend_name ∷ [];
        field_path = text "params";
        sources = text "user" ∷ [];
      })

-- `lintParamRules`
unfoldable pub lint_param_rules : LintInput → List LintFinding
unfolding flags_of distinct param_key_matches_flag
lint_param_rules input =
    let flags = distinct [] (flags_of input.final_args) in
    concat_map (λ (key : Text). concat_map (disabled_finding input key) flags)
      input.disabled_param_keys
    ++ (concat_map (missing_finding flags) input.required_param_keys
        ++ (vendor_findings input.vendor flags ++ concat_map (unsupported_finding input) flags))

abbrev pub worse : LintStatus → LintSeverity → LintStatus
worse status severity_error = lint_error
worse lint_error severity_warning = lint_error
worse lint_ok severity_warning = lint_warning
worse lint_warning severity_warning = lint_warning
worse lint_ok severity_advisory = lint_warning
worse lint_warning severity_advisory = lint_warning
worse lint_error severity_advisory = lint_error

-- The loop that finds the overall status
unfoldable pub status_of : LintStatus → List LintFinding → LintStatus
status_of status [] = status
status_of status (f ∷ rest) = status_of (worse status f.severity) rest

-- `LintRunPlan`
unfoldable pub lint_run_plan : LintInput → LintResult
unfolding lint_pre_normalization lint_param_rules lint_final status_of
lint_run_plan input =
    let findings =
      lint_pre_normalization input.pre_dedup_args input.platform_owned_params
      ++ (lint_param_rules input
          ++ lint_final input.final_args input.env input.platform_owned_params input.env_sources
              input.docker_spec) in
    record { status = status_of lint_ok findings; findings = findings }

-- What the preflight gives the lint; it counts every variable of the plan as one of the platform.
abbrev pub preflight_input : Plan → Text → LintInput
preflight_input plan backend_name = record {
  pre_dedup_args = [];
  final_args = plan.args;
  env = plan.env;
  platform_owned_params = default_logical_param_specs;
  backend_name = backend_name;
  docker_spec = some plan.docker;
  env_sources = map (λ (entry : Text × Text). (entry.0, text "platform")) plan.env;
  required_param_keys = [];
  disabled_param_keys = [];
  disabled_param_sources = [];
  vendor = [];
  backend_args_schema = [];
}

-- The lint of the preflight
unfoldable pub lint_preflight : Plan → Text → LintResult
unfolding lint_run_plan default_logical_param_specs
lint_preflight plan backend_name = lint_run_plan (preflight_input plan backend_name)

-- What the preview gives it, with the flags of the parameter definitions and the vendor of the runtime
abbrev pub preview_input : List Text → Map → Option DockerSpec → Text → List Text → Text → LintInput
preview_input args env docker backend_name schema vendor = record {
  pre_dedup_args = [];
  final_args = args;
  env = env;
  platform_owned_params = default_logical_param_specs;
  backend_name = backend_name;
  docker_spec = docker;
  env_sources = [];
  required_param_keys = [];
  disabled_param_keys = [];
  disabled_param_sources = [];
  vendor = vendor;
  backend_args_schema = schema;
}

-- The lint of the preview
unfoldable pub lint_preview : Option Plan → Text → List Text → Text → LintResult
unfolding lint_run_plan default_logical_param_specs
lint_preview none backend_name schema vendor =
    lint_run_plan (preview_input [] [] none backend_name schema vendor)
lint_preview (some plan) backend_name schema vendor =
    lint_run_plan (preview_input plan.args plan.env (some plan.docker) backend_name schema vendor)
