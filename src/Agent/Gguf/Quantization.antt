-- ===== src/Agent/Gguf/Quantization.antt =====
-- The quantization of a GGUF file, from the types of its tensors
-- (internal/agent/collector/gguf_reader.go).
pub mod Laws
use lightai_go.Common.{
  ℕ, zero, suc, ◌+◌, ◌-◌, ◌*◌, ◌/◌, ◌%◌, ◌^◌, Bool, ◌||◌, ◌&&◌, String, Option, none, some, List,
  [], ◌∷◌, ◌++◌, map, find, ltb, leb, or_else, nat_eq, ◌==◌, if◌then◌else◌,
}
use lightai_go.Text.{Text, text, text_eq, has_prefix, contains_text, to_lower}
use lightai_go.Text.Maps.{lookup, insert}
use lightai_go.Text.Print.{print_nat}
use lightai_go.Agent.Gguf.{Result, ok, err, ◌>>=◌, read_le, read_full, read_string}

-- `strings.ToUpper`
unfoldable pub to_upper : Text → Text
to_upper = map λ c. if leb b'a' c && leb c b'z' then c - 32 else c

abbrev pub named : ℕ → List (ℕ × String) → Option Text
named code [] = none
named code ((c, name) ∷ rest) = if c == code then some (text name) else named code rest

-- `tensorTypeName`
unfoldable pub tensor_type_name : ℕ → Text
unfolding print_nat
tensor_type_name code =
    or_else
      (named code (
        (0, "f32")
        ∷ (1, "f16")
        ∷ (2, "q4_0")
        ∷ (3, "q4_1")
        ∷ (6, "q5_0")
        ∷ (7, "q5_1")
        ∷ (8, "q8_0")
        ∷ (9, "q8_1")
        ∷ (10, "q2_k")
        ∷ (11, "q3_k")
        ∷ (12, "q4_k")
        ∷ (13, "q5_k")
        ∷ (14, "q6_k")
        ∷ (15, "q8_k")
        ∷ (16, "iq2_xxs")
        ∷ (17, "iq2_xs")
        ∷ (18, "iq3_xxs")
        ∷ (19, "iq1_s")
        ∷ (20, "iq4_nl")
        ∷ (21, "iq3_s")
        ∷ (22, "iq2_s")
        ∷ (23, "iq4_xs")
        ∷ (24, "i8")
        ∷ (25, "i16")
        ∷ (26, "i32")
        ∷ (27, "i64")
        ∷ (28, "f64")
        ∷ (29, "iq1_m")
        ∷ (30, "bf16")
        ∷ []))
      (text "type_" ++ print_nat code)

-- The table of `quantNameFromGGML` has the upper case of a name, but for these two.
unfoldable pub quant_name : Text → Text
unfolding to_upper
quant_name t =
    if t == text "q4_k"
    then text "Q4_K_M"
    else if t == text "q5_k"
    then text "Q5_K_M"
    else to_upper t

abbrev pub patterns : List String
patterns =
    "iq1_s" ∷ "iq1_m" ∷ "iq2_xxs" ∷ "iq2_xs" ∷ "iq2_s" ∷ "iq3_xxs" ∷ "iq3_s" ∷ "iq4_nl" ∷ "iq4_xs"
    ∷ "q2_k" ∷ "q3_k_s" ∷ "q3_k_m" ∷ "q3_k_l" ∷ "q4_k_s" ∷ "q4_k_m" ∷ "q4_0" ∷ "q4_1" ∷ "q5_k_s"
    ∷ "q5_k_m" ∷ "q5_0" ∷ "q5_1" ∷ "q6_k" ∷ "q8_k" ∷ "q8_0" ∷ "q8_1" ∷ "f16" ∷ "f32" ∷ "bf16" ∷ []

-- `guessQuantFromFilename`
unfoldable pub guess_quant : Text → Text
unfolding to_upper to_lower contains_text
guess_quant file = elim (find (λ (p : String). contains_text (to_lower file) (text p)) patterns) [
  | none ↦ text "unknown"
  | some p ↦ to_upper (text p)
]

-- One round of reading; the size of the dimensions is a product of uint32.
unfoldable pub read_tensor : List ℕ → Result ℕ
unfolding read_le read_full read_string
read_tensor s = read_string s >>= λ name s1. read_le 4 s1 >>= λ dims s2.
    read_full (dims * 8 % 2 ^ 32) s2 >>= λ skipped s3.
    read_le 4 s3 >>= λ type s4. read_le 8 s4 >>= λ offset rest. ok type rest

pub record Tally : Type 0 where
  pub counts : List (Text × ℕ)
  pub dominant : Text
  pub most : ℕ

abbrev pub count_of : Text → List (Text × ℕ) → ℕ
count_of name counts = or_else (lookup name counts) 0

abbrev pub no_tally : Tally
no_tally = record { counts = []; dominant = []; most = 0 }

unfoldable pub add_tensor : Text → Tally → Tally
unfolding lookup insert
add_tensor name t =
    let n = suc (count_of name t.counts) in
    if ltb t.most n
    then record { counts = insert name n t.counts; dominant = name; most = n }
    else record t { counts = insert name n t.counts }

-- The loop over the tensors, which a failed read ends
unfoldable pub scan : ℕ → List ℕ → Tally → Tally
unfolding read_tensor tensor_type_name add_tensor
scan zero s t = t
scan (suc n) s t = elim (read_tensor s) [
  | err e ↦ t
  | ok type rest ↦ scan n rest (add_tensor (tensor_type_name type) t)
]

abbrev pub is_quantized : ℕ → Text × ℕ → Bool
is_quantized least (name, n) =
    (has_prefix name (text "q") || has_prefix name (text "iq")) && ltb (least / 4) n

-- The type that is named; `order` puts the counts in the order in which Go ranges over the map.
unfoldable pub choose : (List (Text × ℕ) → List (Text × ℕ)) → Tally → Text
unfolding quant_name has_prefix lookup
choose order t =
    if t.dominant == []
    then text "unknown"
    else if t.dominant == text "f16" || t.dominant == text "f32"
    then elim (find (is_quantized (count_of t.dominant t.counts)) (order t.counts)) [
      | some (name, n) ↦ quant_name name
      | none ↦ t.dominant
    ]
    else quant_name t.dominant

-- `detectGGUFQuantization`
unfoldable pub detect_quantization : (List (Text × ℕ) → List (Text × ℕ)) → ℕ → List ℕ → Text
unfolding guess_quant scan choose
detect_quantization order tensors s =
    if tensors == 0 then guess_quant [] else choose order (scan tensors s no_tally)
