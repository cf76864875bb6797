-- ===== src/RunPlan/Compat.antt =====
-- Whether a model can run on a backend: `CheckCompatibility` (internal/server/runplan/compat.go).
-- The messages for people are left out, but for the reason of a blocked architecture.
use lightai_go.Common.{
  ◌≡◌, refl, Bool, true, false, not, none, some, List, [], ◌∷◌, is_empty, contains, ◌↔◌, arith,
  if◌then◌else◌,
}
use lightai_go.Text.{Text, text_eq}
use lightai_go.RunPlan.{Map, lookup}

pub record ModelDescriptor : Type 0 where
  pub format : Text
  pub task : Text
  pub deployable : Bool
  pub path_type : Text
  pub architecture : Text

pub record BackendDescriptor : Type 0 where
  pub supported_formats : List Text
  pub supported_tasks : List Text
  pub model_path_modes : List Text
  pub blocked_architectures : Map

pub data Compat : Type 0 where
  backend_capability_missing not_deployable format_mismatch path_mode_mismatch : Compat
  architecture_blocked : Text → Compat
  task_mismatch ok : Compat

-- `CheckCompatibility`
unfoldable pub check_compatibility : ModelDescriptor → BackendDescriptor → Compat
unfolding lookup
check_compatibility m b =
    if is_empty b.supported_formats
    then backend_capability_missing
    else if not m.deployable
    then not_deployable
    else if not (contains b.supported_formats m.format)
    then format_mismatch
    else if not (contains b.model_path_modes m.path_type)
    then path_mode_mismatch
    else elim (lookup m.architecture b.blocked_architectures) [
      | some reason ↦ architecture_blocked reason
      | none ↦ if contains b.supported_tasks m.task then ok else task_mismatch
    ]

-- What the model asks of the backend.
abbrev pub IsRunnable : ModelDescriptor → BackendDescriptor → Type 0
IsRunnable m b =
    (m.deployable ≡ true)
    × ((contains b.supported_formats m.format ≡ true)
        × ((contains b.model_path_modes m.path_type ≡ true)
            × ((lookup m.architecture b.blocked_architectures ≡ none)
                × (contains b.supported_tasks m.task ≡ true))))

some_format :
    (formats : List Text) (f : Text) → contains formats f ≡ true → is_empty formats ≡ false
some_format [] f h = absurd (cc)
some_format (x ∷ xs) f h = refl

-- The check answers `ok` exactly for a deployable model whose format, path type and task the backend
-- lists and whose architecture it does not block.
pub check_compatibility_lem :
    (m : ModelDescriptor) (b : BackendDescriptor) → (check_compatibility m b ≡ ok) ↔ IsRunnable m b
unfolding check_compatibility
check_compatibility_lem m b =
    let nonempty = some_format b.supported_formats m.format in
    (
      λ h. ground arith,
      λ (d, (f, (p, (a, t)))). rw (nonempty f) (rw d (rw f (rw p (rw (a, lookup) (rw t refl))))),
    )
