-- ===== src/RunPlan/Lint/Laws.antt =====
-- What the lint of a run plan reports (internal/server/runplan/lint.go).
use lightai_go.Common.{
  ◌≡◌, refl, ◌∙◌, Bool, true, false, ◌&&◌, ◌||◌, Option, none, some, List, [], ◌∷◌, ◌++◌, any,
  any-append, any-concat_map, all, map, concat_map, contains, filter_by, is_empty, or_else, ◌==◌,
  nat_eq, inl, inr, arith, Bool-cases,
}
use lightai_go.Text.{Text, text, text_eq, text_beq, has_prefix}
use lightai_go.RunPlan.{Map, lookup, DockerSpec}
use lightai_go.RunPlan.Resolve.{Plan}
use lightai_go.RunPlan.Lint.{
  LintSeverity, severity_error, severity_warning, severity_advisory, LintFinding, LintStatus,
  lint_ok, lint_warning, lint_error, LogicalParamSpec, LintInput, is_flag, flags_of, flag_values,
  distinct, finding_if, override_findings, lint_pre_normalization, conflict_finding, is_set,
  conflict_of, conflicts_with, spec_conflicts, override_finding, privileged_risk, ipc_risk,
  option_risk, vendor_findings, env_conflicts, docker_risks, lint_final, nvidia_only_flags,
  is_other_vendor, vendor_finding, unsupported_finding, lint_param_rules, worse, status_of,
  lint_run_plan, preflight_input, preview_input, lint_preflight, lint_preview,
}

abbrev pub is_severe : LintSeverity → Bool
is_severe severity_error = true
is_severe severity_warning = false
is_severe severity_advisory = false

abbrev pub is_error : LintFinding → Bool
is_error f = is_severe f.severity

abbrev pub is_lint_error : LintStatus → Bool
is_lint_error lint_ok = false
is_lint_error lint_warning = false
is_lint_error lint_error = true

abbrev pub is_lint_ok : LintStatus → Bool
is_lint_ok lint_ok = true
is_lint_ok lint_warning = false
is_lint_ok lint_error = false

worse-error :
    (s : LintStatus) (v : LintSeverity)
    → is_lint_error (worse s v) ≡ (is_lint_error s || is_severe v)
worse-error lint_ok severity_error = refl
worse-error lint_warning severity_error = refl
worse-error lint_error severity_error = refl
worse-error lint_ok severity_warning = refl
worse-error lint_warning severity_warning = refl
worse-error lint_error severity_warning = refl
worse-error lint_ok severity_advisory = refl
worse-error lint_warning severity_advisory = refl
worse-error lint_error severity_advisory = refl

worse-ok : (s : LintStatus) (v : LintSeverity) → is_lint_ok (worse s v) ≡ false
worse-ok lint_ok severity_error = refl
worse-ok lint_warning severity_error = refl
worse-ok lint_error severity_error = refl
worse-ok lint_ok severity_warning = refl
worse-ok lint_warning severity_warning = refl
worse-ok lint_error severity_warning = refl
worse-ok lint_ok severity_advisory = refl
worse-ok lint_warning severity_advisory = refl
worse-ok lint_error severity_advisory = refl

status_of-error :
    (s : LintStatus) (fs : List LintFinding)
    → is_lint_error (status_of s fs) ≡ (is_lint_error s || any is_error fs)
unfolding status_of
status_of-error s [] = ground arith
status_of-error s (f ∷ fs) =
    ground (arith, status_of-error (worse s f.severity) fs, worse-error s f.severity)

status_of-worse :
    (s : LintStatus) (fs : List LintFinding)
    → is_lint_ok s ≡ false
    → is_lint_ok (status_of s fs) ≡ false
unfolding status_of
status_of-worse s [] h = h
status_of-worse s (f ∷ fs) h = status_of-worse (worse s f.severity) fs (worse-ok s f.severity)

status_of-ok : (fs : List LintFinding) → is_lint_ok (status_of lint_ok fs) ≡ is_empty fs
unfolding status_of
status_of-ok [] = refl
status_of-ok (f ∷ fs) = status_of-worse (worse lint_ok f.severity) fs (worse-ok lint_ok f.severity)

-- A lint is an error where one of its findings is, and is good where it has none.
pub lint_run_plan_lem :
    (input : LintInput)
    → (is_lint_error (lint_run_plan input).status ≡ any is_error (lint_run_plan input).findings)
      × (is_lint_ok (lint_run_plan input).status ≡ is_empty (lint_run_plan input).findings)
unfolding lint_run_plan
lint_run_plan_lem input = (
  status_of-error lint_ok (lint_run_plan input).findings,
  status_of-ok (lint_run_plan input).findings,
)

-- The loop over the arguments sees each that begins with a dash.
pub flags_of_lem : (args : List Text) → flags_of args ≡ filter_by is_flag args
unfolding flags_of
flags_of_lem [] = refl
flags_of_lem (arg ∷ []) = refl
flags_of_lem (arg ∷ following ∷ rest) =
    ground (arith, flags_of_lem (following ∷ rest), flags_of_lem rest)

contains-flags :
    (flags : List Text) (arg : Text)
    → all is_flag flags ≡ true
    → contains flags arg ≡ true
    → is_flag arg ≡ true
contains-flags [] arg h k = absurd (cc)
contains-flags (f ∷ flags) arg h k = elim (Bool-cases (f == arg)) [
  | inl e ↦ rw (← (text_eq.equal_iff f arg).0 e) (ground (arith, h))
  | inr e ↦ contains-flags flags arg (ground (arith, h)) (rw e at k)
]

nvidia_flags : all is_flag nvidia_only_flags ≡ true
unfolding has_prefix
nvidia_flags = refl

any-filter_by :
    (p q : Text → Bool) (xs : List Text)
    → ((x : Text) → p x ≡ true → q x ≡ true)
    → any p (filter_by q xs) ≡ any p xs
any-filter_by p q [] h = refl
any-filter_by p q (x ∷ xs) h = ground (arith, any-filter_by p q xs h, h x)

any-contains :
    (p : Text → Bool) (xs : List Text) (x : Text)
    → contains xs x ≡ true
    → p x ≡ true
    → any p xs ≡ true
any-contains p [] x h k = absurd (cc)
any-contains p (y ∷ xs) x h k = elim (Bool-cases (y == x)) [
  | inl e ↦ rw ((text_eq.equal_iff y x).0 e) (rw k refl)
  | inr e ↦ rw (any-contains p xs x (rw e at h) k) (ground arith)
]

any-distinct :
    (p : Text → Bool) (seen xs : List Text) → any p (distinct seen xs) ≡ (any p seen || any p xs)
unfolding distinct
any-distinct p seen [] = ground arith
any-distinct p seen (x ∷ xs) = elim (Bool-cases (contains seen x)) [
  | inl e ↦ rw e (ground (arith, any-distinct p seen xs, any-contains p seen x e))
  | inr e ↦ rw e (ground (arith, any-distinct p (seen ++ x ∷ []) xs, any-append p seen (x ∷ [])))
]

finding_if-error : (b : Bool) (f : LintFinding) → any is_error (finding_if b f) ≡ (b && is_error f)
finding_if-error true f = ground arith
finding_if-error false f = refl

any-false {ℓ} :
    {A : Type ℓ} (p : A → Bool) (xs : List A) → ((x : A) → p x ≡ false) → any p xs ≡ false
any-false p [] h = refl
any-false p (x ∷ xs) h = rw (h x) (any-false p xs h)

none_in {ℓ} :
    {A : Type ℓ} (f : A → List LintFinding) (xs : List A)
    → ((x : A) → any is_error (f x) ≡ false)
    → any is_error (concat_map f xs) ≡ false
none_in f xs h = any-concat_map is_error f xs ∙ any-false (λ x. any is_error (f x)) xs h

vendor_errors :
    (vendor : Text) (flags : List Text)
    → any is_error (concat_map (vendor_finding vendor) flags)
      ≡ any (contains nvidia_only_flags) flags
vendor_errors vendor [] = refl
vendor_errors vendor (flag ∷ flags) =
    any-append is_error (vendor_finding vendor flag) _
    ∙ rw (vendor_errors vendor flags)
        (rw (finding_if-error (contains nvidia_only_flags flag) _) (ground arith))

none_append :
    (xs ys : List LintFinding)
    → any is_error xs ≡ false
    → any is_error ys ≡ false
    → any is_error (xs ++ ys) ≡ false
none_append xs ys h k = any-append is_error xs ys ∙ rw h k

-- The variable is not said to come from the user.
abbrev pub is_of_user : Map → Text → Bool
is_of_user sources env_var = or_else (lookup env_var sources) (text "unknown") == text "user_env"

no_conflict_error :
    (values sources : Map) (spec : LogicalParamSpec) (env_var : Text) (value : Option Text)
    → is_of_user sources env_var ≡ false
    → any is_error (conflicts_with values sources spec env_var value) ≡ false
no_conflict_error values sources spec env_var none h = refl
no_conflict_error values sources spec env_var (some v) h =
    none_in (conflict_of values sources spec env_var v) spec.cli_flags (λ flag.
      finding_if-error (is_set (lookup flag values)) (conflict_finding sources spec env_var v flag)
      ∙ rw h (ground arith))

mild_if : (b : Bool) (f : LintFinding) → is_error f ≡ false → any is_error (finding_if b f) ≡ false
mild_if b f h = finding_if-error b f ∙ rw h (ground arith)

risks_no_error : (docker : Option DockerSpec) → any is_error (docker_risks docker) ≡ false
risks_no_error none = refl
risks_no_error (some d) =
    none_append (privileged_risk d.privileged) _ (mild_if d.privileged _ refl) (
      none_append (ipc_risk (d.ipc_mode == text "host")) (concat_map option_risk d.security_options)
        (mild_if (d.ipc_mode == text "host") _ refl)
        (none_in option_risk d.security_options (λ option. mild_if _ _ refl)))

no_override_error : (spec : LogicalParamSpec) → any is_error (override_findings [] spec) ≡ false
no_override_error spec =
    elim (Bool-cases (spec.owner == text "platform" && spec.conflict == text "reject")) [
      | inl e ↦ rw e (none_in (override_finding []) spec.cli_flags (λ flag. refl))
      | inr e ↦ rw e refl
    ]

final_no_error :
    (args : List Text) (env : Map) (specs : List LogicalParamSpec) (sources : Map)
    (docker : Option DockerSpec)
    → ((env_var : Text) → is_of_user sources env_var ≡ false)
    → any is_error (lint_final args env specs sources docker) ≡ false
unfolding lint_final
final_no_error args env specs sources docker h =
    let values = flag_values args [] in
    none_append (concat_map (spec_conflicts values env sources) specs) (docker_risks docker)
      (none_in (spec_conflicts values env sources) specs (λ spec.
        none_in (env_conflicts values env sources spec) spec.env_vars (λ env_var.
          no_conflict_error values sources spec env_var (lookup env_var env) (h env_var))))
      (risks_no_error docker)

vendor_part :
    (vendor : Text) (args : List Text)
    → any is_error (vendor_findings vendor (distinct [] (flags_of args)))
      ≡ (is_other_vendor vendor && any (contains nvidia_only_flags) args)
vendor_part vendor args = elim (Bool-cases (is_other_vendor vendor)) [
  | inl e ↦ rw e (
      vendor_errors vendor (distinct [] (flags_of args))
      ∙ any-distinct (contains nvidia_only_flags) [] (flags_of args)
      ∙ rw (flags_of_lem args) (
          any-filter_by (contains nvidia_only_flags) is_flag args
            (λ x. contains-flags nvidia_only_flags x nvidia_flags)))
  | inr e ↦ rw e refl
]

first_mild :
    (xs ys : List LintFinding) → any is_error xs ≡ false → any is_error (xs ++ ys) ≡ any is_error ys
first_mild xs ys h = any-append is_error xs ys ∙ rw h refl

last_mild :
    (xs ys : List LintFinding) → any is_error ys ≡ false → any is_error (xs ++ ys) ≡ any is_error xs
last_mild xs ys h = any-append is_error xs ys ∙ rw h (ground arith)

params_errors :
    (input : LintInput)
    → input.required_param_keys ≡ []
    → input.disabled_param_keys ≡ []
    → any is_error (lint_param_rules input)
      ≡ (is_other_vendor input.vendor && any (contains nvidia_only_flags) input.final_args)
unfolding lint_param_rules
params_errors input required disabled =
    let flags = distinct [] (flags_of input.final_args) in
    let others = concat_map (unsupported_finding input) flags in
    let mild = none_in (unsupported_finding input) flags (λ flag. mild_if _ _ refl) in
    rw (required, disabled)
      (last_mild (vendor_findings input.vendor flags) others mild
        ∙ vendor_part input.vendor input.final_args)

plain_errors :
    (input : LintInput)
    → input.pre_dedup_args ≡ []
    → input.required_param_keys ≡ []
    → input.disabled_param_keys ≡ []
    → ((env_var : Text) → is_of_user input.env_sources env_var ≡ false)
    → is_lint_error (lint_run_plan input).status
      ≡ (is_other_vendor input.vendor && any (contains nvidia_only_flags) input.final_args)
unfolding lint_run_plan lint_pre_normalization flags_of distinct
plain_errors input pre required disabled sources =
    let specs = input.platform_owned_params in
    (lint_run_plan_lem input).0
    ∙ first_mild (lint_pre_normalization input.pre_dedup_args specs) _
        (rw pre (none_in (override_findings []) specs no_override_error))
    ∙ last_mild (lint_param_rules input) _ (
        final_no_error input.final_args input.env specs input.env_sources input.docker_spec sources)
    ∙ params_errors input required disabled

platform_sources :
    (env : Map) (env_var : Text)
    → is_of_user (map (λ (entry : Text × Text). (entry.0, text "platform")) env) env_var ≡ false
unfolding lookup text_beq
platform_sources [] env_var = refl
platform_sources ((k, v) ∷ env) env_var = ground (arith, platform_sources env env_var)

no_sources : (env_var : Text) → is_of_user [] env_var ≡ false
unfolding lookup text_beq
no_sources env_var = refl

-- The lint of the preflight is an error for no plan.
pub lint_preflight_lem :
    (plan : Plan) (backend_name : Text)
    → is_lint_error (lint_preflight plan backend_name).status ≡ false
unfolding lint_preflight text_beq
lint_preflight_lem plan backend_name =
    plain_errors (preflight_input plan backend_name) refl refl refl (platform_sources plan.env)

abbrev pub args_of : Option Plan → List Text
args_of none = []
args_of (some plan) = plan.args

-- The lint of the preview is an error exactly where the vendor is given and is neither NVIDIA nor a
-- CPU, and an argument of the plan is one of the four flags for NVIDIA's GPUs.
pub lint_preview_lem :
    (plan : Option Plan) (backend_name : Text) (schema : List Text) (vendor : Text)
    → is_lint_error (lint_preview plan backend_name schema vendor).status
      ≡ (is_other_vendor vendor && any (contains nvidia_only_flags) (args_of plan))
unfolding lint_preview
lint_preview_lem none backend_name schema vendor =
    plain_errors (preview_input [] [] none backend_name schema vendor) refl refl refl no_sources
lint_preview_lem (some plan) backend_name schema vendor =
    plain_errors (preview_input plan.args plan.env (some plan.docker) backend_name schema vendor)
      refl refl refl no_sources
