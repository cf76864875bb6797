-- ===== src/RunPlan/Detection.antt =====
-- How a backend's process starts in an image (internal/server/runplan/detection.go, profiles.go).
-- A score is fifty more than the code's, which no rule takes below minus fifty. The lists of reasons
-- and warnings, the evidence, and the descriptions, all for people, are left out.
pub mod Laws
use lightai_go.Common.{
  ℕ, ◌+◌, ◌-◌, Bool, true, false, not, ◌&&◌, ◌||◌, Option, none, some, List, [], ◌∷◌, any, map,
  find, contains, ltb, leb, is_empty, ◌==◌, if◌then◌else◌,
}
use lightai_go.Text.{Text, text, text_eq, has_prefix, trim_prefix, contains_text, to_lower}

-- `strings.HasSuffix`
unfoldable pub has_suffix : Text → Text → Bool
has_suffix [] p = [] == p
has_suffix (c ∷ s) p = (c ∷ s) == p || has_suffix s p

-- `ClassifyEntrypointShape`
unfoldable pub classify_entrypoint_shape : List Text → Text
unfolding has_suffix has_prefix contains_text
classify_entrypoint_shape [] = text "empty"
classify_entrypoint_shape (first ∷ rest) =
    if first == text "python" || first == text "python3"
    then text "python_launcher"
    else if has_suffix first (text ".sh")
        || contains_text first (text "entrypoint")
        || contains_text first (text "nvidia")
    then text "wrapper_script"
    else if has_prefix first (text "/")
        || contains_text first (text "llama")
        || contains_text first (text "vllm")
        || contains_text first (text "sglang")
    then text "server_binary"
    else if not (contains_text first (text "/")) && not (contains_text first (text "."))
    then text "server_binary"
    else text "unknown"

pub record ProcessStartDetectionHints : Type 0 where
  pub entrypoint_kinds : List Text
  pub avoid_if_entrypoint_already_starts_backend : Bool

pub record ProcessStartProfile : Type 0 where
  pub id : Text
  pub backend_family : Text
  pub entrypoint_mode : Text
  pub entrypoint : List Text
  pub command_prefix : List Text
  pub priority : ℕ
  pub detection_hints : Option ProcessStartDetectionHints

pub data Confidence : Type 0 where
  low medium high : Confidence

pub record DetectionCandidate : Type 0 where
  pub profile_id : Text
  pub score : ℕ
  pub confidence : Confidence

pub record ProcessStartDetection : Type 0 where
  pub status : Text
  pub selected_profile : Text
  pub entrypoint_mode : Text
  pub entrypoint : List Text
  pub command_prefix : List Text
  pub confidence : Confidence
  pub all_candidates : List DetectionCandidate

abbrev pub launcher_module : List Text
launcher_module = text "python3" ∷ text "-m" ∷ text "sglang.launch_server" ∷ []

abbrev pub image_default : Text → Text → ProcessStartProfile
image_default id family = record {
  id = id;
  backend_family = family;
  entrypoint_mode = text "image_default";
  entrypoint = [];
  command_prefix = [];
  priority = 100;
  detection_hints = some (record {
    entrypoint_kinds = text "server_binary" ∷ text "empty" ∷ text "unknown" ∷ [];
    avoid_if_entrypoint_already_starts_backend = false;
  });
}

abbrev pub python_module_launcher : ProcessStartProfile
python_module_launcher = record {
  id = text "sglang.python_module_launcher";
  backend_family = text "sglang";
  entrypoint_mode = text "image_default";
  entrypoint = [];
  command_prefix = launcher_module;
  priority = 100;
  detection_hints = some (record {
    entrypoint_kinds = text "wrapper_script" ∷ text "empty" ∷ text "unknown" ∷ [];
    avoid_if_entrypoint_already_starts_backend = true;
  });
}

abbrev pub custom_entrypoint : ProcessStartProfile
custom_entrypoint = record {
  id = text "sglang.custom_entrypoint";
  backend_family = text "sglang";
  entrypoint_mode = text "custom";
  entrypoint = launcher_module;
  command_prefix = [];
  priority = 40;
  detection_hints = some (record {
    entrypoint_kinds = text "server_binary" ∷ text "empty" ∷ text "unknown" ∷ [];
    avoid_if_entrypoint_already_starts_backend = false;
  });
}

-- `DefaultProcessStartProfiles`, a missing family giving no profile
unfoldable pub default_process_start_profiles : Text → List ProcessStartProfile
default_process_start_profiles family =
    if family == text "vllm"
    then image_default (text "vllm.image_default") (text "vllm") ∷ []
    else if family == text "sglang"
    then python_module_launcher ∷ custom_entrypoint ∷ []
    else if family == text "llamacpp"
    then image_default (text "llamacpp.image_default") (text "llamacpp") ∷ []
    else []

abbrev pub is_launcher_token : Text → Bool
is_launcher_token token =
    let lower = to_lower token in
    contains_text lower (text "sglang")
    || contains_text lower (text "vllm")
    || contains_text lower (text "llama")
    || contains_text lower (text "server")

-- What the shape of the entrypoint makes of a score
abbrev pub shape_score : Bool → Bool → ℕ → ℕ
shape_score true is_unknown n = n + 20
shape_score false true n = n - 10
shape_score false false n = n - 20

abbrev pub avoid_score : Bool → ℕ → ℕ
avoid_score true n = n - 30
avoid_score false n = n

unfoldable pub score_of : ProcessStartProfile → Text → List Text → ℕ
unfolding contains_text to_lower
score_of p shape entrypoint = elim p.detection_hints [
  | none ↦ 50 + p.priority
  | some hints ↦
      avoid_score
        (hints.avoid_if_entrypoint_already_starts_backend
          && shape == text "server_binary"
          && any is_launcher_token entrypoint)
        (shape_score (contains hints.entrypoint_kinds shape) (shape == text "unknown")
          (50 + p.priority))
]

abbrev pub confidence_of : ℕ → Confidence
confidence_of score = if leb 150 score then high else if leb 120 score then medium else low

-- `scoreProfile`
unfoldable pub score_profile : Text → List Text → ProcessStartProfile → DetectionCandidate
unfolding score_of
score_profile shape entrypoint p =
    let score = score_of p shape entrypoint in
    record { profile_id = p.id; score = score; confidence = confidence_of score }

-- The loop that selects the best candidate, the first of several
unfoldable pub best_of : DetectionCandidate → List DetectionCandidate → DetectionCandidate
best_of best [] = best
best_of best (c ∷ rest) = best_of (if ltb best.score c.score then c else best) rest

abbrev pub no_profiles : ProcessStartDetection
no_profiles = record {
  status = text "no_profiles";
  selected_profile = [];
  entrypoint_mode = [];
  entrypoint = [];
  command_prefix = [];
  confidence = low;
  all_candidates = [];
}

unfoldable pub select_profile :
    List ProcessStartProfile → List DetectionCandidate → ProcessStartDetection
unfolding best_of
select_profile profiles [] = no_profiles
select_profile profiles (first ∷ rest) =
    let best = best_of first rest in
    let selected = find (λ (p : ProcessStartProfile). p.id == best.profile_id) profiles in
    record {
      status = text "candidate_found";
      selected_profile = best.profile_id;
      entrypoint_mode = elim selected [ none ↦ [] | some p ↦ p.entrypoint_mode ];
      entrypoint = elim selected [ none ↦ [] | some p ↦ p.entrypoint ];
      command_prefix = elim selected [ none ↦ [] | some p ↦ p.command_prefix ];
      confidence = best.confidence;
      all_candidates = first ∷ rest;
    }

-- `DetectProcessStart`
unfoldable pub detect_process_start : Text → List Text → ProcessStartDetection
unfolding default_process_start_profiles classify_entrypoint_shape score_profile select_profile
detect_process_start family entrypoint =
    let profiles = default_process_start_profiles family in
    select_profile profiles
      (map (score_profile (classify_entrypoint_shape entrypoint) entrypoint) profiles)

-- `DeriveBackendFamily`
unfoldable pub derive_backend_family : Text → Text
unfolding has_prefix
derive_backend_family id =
    if has_prefix id (text "backend.")
    then trim_prefix id (text "backend.")
    else if has_prefix id (text "backend-")
    then trim_prefix id (text "backend-")
    else id
