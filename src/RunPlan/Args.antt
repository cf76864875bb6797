-- ===== src/RunPlan/Args.antt =====
-- The container's arguments: `buildArgs` and its helpers (internal/server/runplan/resolver.go).
pub mod Service
pub mod Laws
pub mod Precedence
use lightai_go.Common.{
  ℕ, suc, ◌+◌, Bool, true, false, not, ◌&&◌, ◌||◌, Option, none, some, List, [], ◌∷◌, ◌++◌, map,
  any, length, contains, set, is_empty, nat_eq, ◌==◌, if◌then◌else◌,
}
use lightai_go.Text.{
  Text, text, text_eq, has_prefix, trim_prefix, trim_space, to_lower, cut, split, fields,
}
use lightai_go.RunPlan.{
  Map, lookup, insert, Value, null, str, bool, number, list, format_value, is_blank, ParameterValue,
  ParameterDef, Snapshot, Input,
}
use lightai_go.RunPlan.Template.{substitute_vars}

pub data ArgError : Type 0 where
  snapshot_missing : ArgError
  undefined_variables : List Text → ArgError
  protected_parameter empty_value missing_parameter : Text → ArgError

-- `strings.HasPrefix(arg, "-")`
abbrev pub is_flag : Text → Bool
is_flag arg = has_prefix arg (b'-' ∷ [])

-- The name of a flag, without a value behind "=".
abbrev pub flag_name : Text → Text
flag_name arg = elim (cut b'=' arg) [ none ↦ arg | some (before, after) ↦ before ]

unfoldable pub collect_existing_flags : List Text → List Text
collect_existing_flags [] = []
collect_existing_flags (arg ∷ args) =
    if is_flag arg then flag_name arg ∷ collect_existing_flags args else collect_existing_flags args

-- `resolve` of `renderParameterValueArgs`
pub data Rendered : Type 0 where
  rendered : List Text → Rendered
  undefined : List Text → Rendered

abbrev pub resolved : Map → Text → (Text → Rendered) → Rendered
resolved vars v k =
    let (out, unknown) = substitute_vars vars v in
    if is_empty unknown then k out else undefined unknown

abbrev pub append_rendered : List Text → Rendered → Rendered
append_rendered before (rendered more) = rendered (before ++ more)
append_rendered before (undefined names) = undefined names

unfoldable pub repeat_flag : Map → Text → List Text → Rendered
repeat_flag vars cli [] = rendered []
repeat_flag vars cli (v ∷ vs) =
    let rest = repeat_flag vars cli vs in
    resolved vars v λ out. append_rendered (cli ∷ out ∷ []) rest

abbrev pub words_of_lines : List Text → List Text
words_of_lines [] = []
words_of_lines (line ∷ lines) = fields line ++ words_of_lines lines

unfoldable pub raw_lines : Map → List Text → Rendered
raw_lines vars [] = rendered []
raw_lines vars (v ∷ vs) =
    let rest = raw_lines vars vs in
    resolved vars v λ out. append_rendered (words_of_lines (split 10 out)) rest

-- `anySlice`
abbrev pub any_slice : Value → List Text
any_slice (list xs) = xs
any_slice _ = []

abbrev pub is_true : Value → Bool
is_true (bool b) = b
is_true v = to_lower (format_value v) == text "true"

unfoldable pub render_parameter_value : ParameterValue → Text → Map → Rendered
unfolding repeat_flag raw_lines format_value trim_space to_lower
render_parameter_value pv cli vars =
    let style = trim_space pv.render_style in
    let shown = format_value pv.value in
    if style == text "flag_equals_value"
    then resolved vars shown (λ out. rendered ((cli ++ (b'=' ∷ out)) ∷ []))
    else if style == text "flag_if_true"
    then rendered (if is_true pv.value then cli ∷ [] else [])
    else if style == text "repeat_flag"
    then repeat_flag vars cli (any_slice pv.value)
    else if style == text "positional"
    then resolved vars shown (λ out. rendered (out ∷ []))
    else if style == text "raw_lines" || style == text "raw_list"
    then raw_lines vars (if is_empty (any_slice pv.value) then shown ∷ [] else any_slice pv.value)
    else resolved vars shown (λ out. rendered (cli ∷ out ∷ []))

pub record ArgState : Type 0 where
  pub args : List Text
  pub errors : List ArgError
  pub repeatable : List Text

abbrev pub cli_name_of : ParameterValue → Text
cli_name_of pv = if pv.cli_name == [] then pv.key else pv.cli_name

abbrev pub add_error : ArgError → ArgState → ArgState
add_error e st = record st { errors = st.errors ++ e ∷ [] }

-- One round of the loop over a layer's parameter values; the layer of the node's backend runtime
-- protects no flag.
unfoldable pub add_value : List Text → List Text → Map → ParameterValue → ArgState → ArgState
unfolding render_parameter_value
add_value protected existing vars pv st =
    let cli = cli_name_of pv in
    if not pv.enabled || pv.target == text "env"
    then st
    else if contains protected cli
    then add_error (protected_parameter cli) st
    else if contains existing cli
    then st
    else if is_blank pv.value
    then add_error (empty_value cli) st
    else elim (render_parameter_value pv cli vars) [
      | undefined names ↦ add_error (undefined_variables names) st
      | rendered more ↦ record st {
        args = st.args ++ more;
        repeatable =
            if pv.render_style == text "repeat_flag" then cli ∷ st.repeatable else st.repeatable;
      }
    ]

unfoldable pub add_values : List Text → List Text → Map → List ParameterValue → ArgState → ArgState
unfolding add_value
add_values protected existing vars [] st = st
add_values protected existing vars (pv ∷ pvs) st =
    add_values protected existing vars pvs (add_value protected existing vars pv st)

-- A layer sees the flags that were there before it.
abbrev pub add_layer : List Text → Map → List ParameterValue → ArgState → ArgState
add_layer protected vars pvs st = add_values protected (collect_existing_flags st.args) vars pvs st

abbrev pub protected_flags : List Text
protected_flags = text "--host" ∷ text "-h" ∷ text "--port" ∷ []

unfoldable pub add_overrides : Map → List Text → ArgState → ArgState
add_overrides vars [] st = st
add_overrides vars (arg ∷ rest) st =
    let (out, unknown) = substitute_vars vars arg in
    add_overrides vars rest (
      if is_empty unknown
      then record st { args = st.args ++ out ∷ [] }
      else add_error (undefined_variables unknown) st)

-- `effectiveCliName`
unfoldable pub effective_cli_name : ParameterDef → Text
effective_cli_name d =
    if not (d.cli_name == []) then d.cli_name else if not (d.alias == []) then d.alias else d.name

-- Without one or two leading dashes, and with "_" for "-".
unfoldable pub normalized_name : Text → Text
unfolding trim_prefix
normalized_name n =
    map (λ c. if c == b'-' then b'_' else c) (trim_prefix (trim_prefix n (b'-' ∷ [])) (b'-' ∷ []))

abbrev pub is_provided : List Text → ParameterDef → Bool
is_provided existing d =
    let normalized = normalized_name d.name in
    contains existing d.name
    || contains existing (effective_cli_name d)
    || not (normalized == d.name) && contains existing normalized

unfoldable pub check_required : List Text → List ParameterDef → List ArgError
unfolding effective_cli_name normalized_name
check_required existing [] = []
check_required existing (d ∷ ds) =
    if not d.required || is_provided existing d
    then check_required existing ds
    else missing_parameter d.name ∷ check_required existing ds

-- `deduplicateArgs`: `seen` has the place in `out` of each flag that came with a value.
unfoldable pub deduplicate_from : List Text → List (Text × ℕ) → List Text → List Text → List Text
unfolding lookup insert
deduplicate_from repeatable seen out [] = out
deduplicate_from repeatable seen out (arg ∷ []) = out ++ arg ∷ []
deduplicate_from repeatable seen out (arg ∷ value ∷ rest) =
    let single = deduplicate_from repeatable seen (out ++ arg ∷ []) (value ∷ rest) in
    let repeated = deduplicate_from repeatable seen (out ++ arg ∷ value ∷ []) rest in
    let first =
      deduplicate_from repeatable (insert arg (length out) seen) (out ++ arg ∷ value ∷ []) rest in
    let again =
      λ (i : ℕ). deduplicate_from repeatable seen (set (set out i arg) (suc i) value) rest in
    if is_flag arg && not (is_flag value)
    then if contains repeatable arg
      then repeated
      else elim (lookup arg seen) [ some i ↦ again i | none ↦ first ]
    else single

unfoldable pub deduplicate_args : List Text → List Text → List Text
unfolding deduplicate_from
deduplicate_args args repeatable = deduplicate_from repeatable [] [] args

-- The loop that removes what the deployment disables.
unfoldable pub remove_disabled : List Text → List Text → List Text
remove_disabled disabled [] = []
remove_disabled disabled (arg ∷ []) = if contains disabled arg then [] else arg ∷ []
remove_disabled disabled (arg ∷ value ∷ rest) =
    let with_value = remove_disabled disabled rest in
    let alone = remove_disabled disabled (value ∷ rest) in
    if contains disabled arg then if is_flag value then alone else with_value else arg ∷ alone
