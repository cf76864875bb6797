-- ===== src/RunPlan/Mounts.antt =====
-- The model's mount: `buildMounts`, `cleanPath` and the artifact's paths
-- (internal/server/runplan/resolver.go).
pub mod Laws
pub mod Parts
use lightai_go.Common.{
  ℕ, Bool, true, false, not, ◌&&◌, ◌||◌, Option, none, some, List, [], ◌∷◌, ◌++◌, nat_eq, ◌==◌,
  if◌then◌else◌,
}
use lightai_go.Text.{
  Text, text, text_eq, has_prefix, trim_prefix, contains_text, trim_left, trim_right, fields_func,
  join, cut_last,
}
use lightai_go.RunPlan.{Artifact, NodeOverride, ModelMount, Input}

pub record Mount : Type 0 where
  pub host_path : Text
  pub container_path : Text
  pub readonly : Bool

pub data MountError : Type 0 where
  empty_relative_path : MountError
  parent_in_path : MountError
  absolute_path : MountError
  escapes_mount_dir : MountError

pub data Mounted : Type 0 where
  mounted : Mount → Mounted
  refused : MountError → Mounted

abbrev pub is_slash : ℕ → Bool
is_slash c = c == b'/'

abbrev pub keep_part : Text → Option (List Text) → Option (List Text)
keep_part part none = none
keep_part part (some out) = some (part ∷ out)

-- The loop of `cleanPath`: none for a path that has "..".
unfoldable pub clean_parts : List Text → Option (List Text)
clean_parts [] = some []
clean_parts (part ∷ parts) =
    let rest = clean_parts parts in
    if part == text "." then rest else if part == text ".." then none else keep_part part rest

abbrev pub rooted : Option (List Text) → Text
rooted none = []
rooted (some out) = b'/' ∷ join (b'/' ∷ []) out

-- `cleanPath`
unfoldable pub clean_path : Text → Text
unfolding clean_parts join fields_func
clean_path p = rooted (clean_parts (fields_func is_slash p))

-- `filepathBase`
unfoldable pub filepath_base : Text → Text
filepath_base path = elim (cut_last b'/' path) [ none ↦ path | some (before, after) ↦ after ]

abbrev pub parent_path : Text → Text
parent_path path = elim (cut_last b'/' path) [ none ↦ path | some (before, after) ↦ before ]

-- `modelHostRoot`
unfoldable pub model_host_root : Artifact → Text
model_host_root a = if a.model_root == [] then parent_path a.path else a.model_root

-- `modelRelativePath`
unfoldable pub model_relative_path : Artifact → Text
unfolding filepath_base trim_prefix
model_relative_path a =
    if a.relative_path == [] then filepath_base a.path else trim_prefix a.relative_path (b'/' ∷ [])

-- The two paths with one "/" between them.
abbrev pub join_path : Text → Text → Text
join_path dir rel = trim_right is_slash dir ++ b'/' ∷ trim_left is_slash rel

abbrev pub host_root : Input → Text
host_root input = elim input.override [
  | none ↦ model_host_root input.artifact
  | some o ↦
      if o.model_root_host_path == []
      then model_host_root input.artifact
      else o.model_root_host_path
]

abbrev pub mount_dir : ModelMount → Text
mount_dir m = if m.container_path == [] then text "/models" else m.container_path

-- The cleaned container path stays under the mount directory.
abbrev pub is_under : Text → Text → Bool
is_under dir cleaned = has_prefix cleaned (clean_path dir ++ b'/' ∷ []) || cleaned == clean_path dir

-- `buildMounts`
unfoldable pub build_mounts : Input → Mounted
unfolding clean_path model_host_root model_relative_path trim_left trim_right has_prefix
    contains_text
build_mounts input =
    let rel = model_relative_path input.artifact in
    let dir = mount_dir input.runtime.model_mount in
    let cleaned = clean_path (join_path dir rel) in
    if rel == [] || rel == text "."
    then refused empty_relative_path
    else if contains_text rel (text "..")
    then refused parent_in_path
    else if has_prefix input.artifact.relative_path (b'/' ∷ [])
    then refused absolute_path
    else if not (is_under dir cleaned)
    then refused escapes_mount_dir
    else mounted record {
      host_path = join_path (host_root input) rel;
      container_path = cleaned;
      readonly =
          input.runtime.model_mount.readonly || input.runtime.model_mount.container_path == [];
    }
