-- ===== src/RunPlan/Detection/Laws.antt =====
-- What the detection of a process's start selects (internal/server/runplan/detection.go).
use lightai_go.Common.{
  ◌≤◌, ◌≡◌, refl, Bool, true, false, ◌&&◌, ◌⊎◌, inl, inr, List, [], ◌∷◌, any, map, All, ltb, ◌==◌,
  if◌then◌else◌, if_holds, arith, Bool-cases,
}
use lightai_go.Text.{Text, text, text_eq, text_beq}
use lightai_go.RunPlan.Detection.{
  classify_entrypoint_shape, ProcessStartProfile, DetectionCandidate, ProcessStartDetection,
  launcher_module, python_module_launcher, custom_entrypoint, default_process_start_profiles,
  is_launcher_token, score_of, score_profile, best_of, select_profile, detect_process_start,
}

-- The shapes that an entrypoint is classified as
abbrev pub IsShape : Text → Type 0
IsShape shape =
    (shape ≡ text "empty")
    ⊎ ((shape ≡ text "python_launcher")
        ⊎ ((shape ≡ text "wrapper_script")
            ⊎ ((shape ≡ text "server_binary") ⊎ (shape ≡ text "unknown"))))

classify-IsShape : (entrypoint : List Text) → IsShape (classify_entrypoint_shape entrypoint)
unfolding classify_entrypoint_shape
classify-IsShape [] = inl refl
classify-IsShape (first ∷ rest) = if_holds IsShape _ _ _ (inr (inl refl)) (
    if_holds IsShape _ _ _ (inr (inr (inl refl))) (
      if_holds IsShape _ _ _ (inr (inr (inr (inl refl))))
        (if_holds IsShape _ _ _ (inr (inr (inr (inl refl)))) (inr (inr (inr (inr refl)))))))

abbrev pub sglang_profiles : List ProcessStartProfile
sglang_profiles = python_module_launcher ∷ custom_entrypoint ∷ []

-- The start of a detection: its profile, its entrypoint and the beginning of its command
abbrev pub start_of : ProcessStartDetection → Text × List Text × List Text
start_of d = (d.selected_profile, d.entrypoint, d.command_prefix)

-- The image's entrypoint has the shape of a server binary and names a launcher; an entrypoint that
-- starts the launcher by Python has the shape of Python's and is not one.
abbrev pub is_server_launch : Text → Bool → Bool
is_server_launch shape launches = shape == text "server_binary" && launches

abbrev pub sglang_start : Bool → Text × List Text × List Text
sglang_start true = (text "sglang.custom_entrypoint", launcher_module, [])
sglang_start false = (text "sglang.python_module_launcher", [], launcher_module)

sglang_at :
    (shape : Text) (entrypoint : List Text)
    → IsShape shape
    → start_of
        (select_profile sglang_profiles (map (score_profile shape entrypoint) sglang_profiles))
      ≡ sglang_start (is_server_launch shape (any is_launcher_token entrypoint))
unfolding select_profile score_profile score_of best_of text_beq
sglang_at shape entrypoint (inl e) = rw e refl
sglang_at shape entrypoint (inr (inl e)) = rw e refl
sglang_at shape entrypoint (inr (inr (inl e))) = rw e refl
sglang_at shape entrypoint (inr (inr (inr (inl e)))) =
    rw e (elim (Bool-cases (any is_launcher_token entrypoint)) [
      | inl b ↦ rw b refl
      | inr b ↦ rw b refl
    ])
sglang_at shape entrypoint (inr (inr (inr (inr e)))) = rw e refl

pub detect_process_start_lem :
    (entrypoint : List Text)
    → start_of (detect_process_start (text "sglang") entrypoint)
      ≡ sglang_start (
          is_server_launch
            (classify_entrypoint_shape entrypoint)
            (any is_launcher_token entrypoint))
unfolding detect_process_start default_process_start_profiles text_beq
detect_process_start_lem entrypoint =
    sglang_at (classify_entrypoint_shape entrypoint) entrypoint (classify-IsShape entrypoint)

-- No candidate scores more than the best, which is one of them.
abbrev pub IsBest : DetectionCandidate → List DetectionCandidate → Type 0
IsBest best cs = All (λ (c : DetectionCandidate). c.score ≤ best.score) cs

best_of_least :
    (best : DetectionCandidate) (cs : List DetectionCandidate)
    → best.score ≤ (best_of best cs).score
unfolding best_of
best_of_least best [] = omega arith
best_of_least best (c ∷ cs) = ground (arith, best_of_least best cs, best_of_least c cs)

pub best_of-IsBest :
    (best : DetectionCandidate) (cs : List DetectionCandidate)
    → IsBest (best_of best cs) (best ∷ cs)
unfolding best_of
best_of-IsBest best [] = (omega arith, tt)
best_of-IsBest best (c ∷ cs) =
    later (ltb best.score c.score) refl (best_of-IsBest best cs) (best_of-IsBest c cs)
  where
    later :
        (b : Bool)
        → ltb best.score c.score ≡ b
        → IsBest (best_of best cs) (best ∷ cs)
        → IsBest (best_of c cs) (c ∷ cs)
        → IsBest (best_of (if b then c else best) cs) (best ∷ c ∷ cs)
    later true e old new = (ground (arith, e, best_of_least c cs), new)
    later false e old new = (old.0, (ground (arith, e, best_of_least best cs), old.1))
