-- ===== src/Agent/Gguf/Header.antt =====
-- `readGGUFMeta` on the bytes of a file that opens (internal/agent/collector/gguf_reader.go).
pub mod Laws
use lightai_go.Common.{
  ℕ, zero, suc, ◌+◌, ◌-◌, ◌^◌, Option, none, some, List, [], ◌∷◌, ◌++◌, ltb, length, nat_eq, ◌==◌,
  if◌then◌else◌,
}
use lightai_go.Text.{Text, text, text_eq}
use lightai_go.Text.Maps.{lookup}
use lightai_go.Agent.Gguf.{
  not_gguf, Result, ok, err, ◌>>=◌, Kind, uint8, int8, uint16, int16, uint32, int32, float32,
  uint64, int64, float64, flag, string, array, Value, num, read_le, read_kvs,
}
use lightai_go.Agent.Gguf.Quantization.{detect_quantization}

-- What Go's library and language do that the reader relies on: printing a value by `%v`, the
-- conversion of a float to an int64, and the order in which a map is ranged over.
pub record GoLibrary : Type 0 where
  pub show : Value → Text
  pub float_to_int : Kind → ℕ → ℕ
  pub range_order : List (Text × ℕ) → List (Text × ℕ)

-- A signed number of so many bits as an int64
abbrev pub sign_extend : ℕ → ℕ → ℕ
sign_extend bits n = if ltb n (2 ^ (bits - 1)) then n else n + (2 ^ 64 - 2 ^ bits)

-- `ggufInt`: an int64
abbrev pub to_int64 : GoLibrary → Kind → ℕ → ℕ
to_int64 go int8 n = sign_extend 8 n
to_int64 go int16 n = sign_extend 16 n
to_int64 go int32 n = sign_extend 32 n
to_int64 go float32 n = go.float_to_int float32 n
to_int64 go float64 n = go.float_to_int float64 n
to_int64 go k n = n

unfoldable pub gguf_int : GoLibrary → List (Text × Value) → Text → ℕ
unfolding lookup
gguf_int go kv key = elim (lookup key kv) [ some (num k n) ↦ to_int64 go k n | _ ↦ 0 ]

-- `ggufString`
unfoldable pub gguf_string : GoLibrary → List (Text × Value) → Text → Text
unfolding lookup
gguf_string go kv key = elim (lookup key kv) [
  | none ↦ []
  | some (Value.text t) ↦ t
  | some v ↦ go.show v
]

pub data Warning : Type 0 where
  no_architecture no_context_length : Warning

pub record Metadata : Type 0 where
  pub architecture : Text
  pub context_length : ℕ
  pub embedding_length : ℕ
  pub block_count : ℕ
  pub vocab_size : ℕ
  pub head_count : ℕ
  pub head_count_kv : ℕ
  pub quantization : Text
  pub file_size_bytes : ℕ
  pub warnings : List Warning

unfoldable pub architecture_of : GoLibrary → List (Text × Value) → Text
unfolding gguf_string
architecture_of go kv =
    if gguf_string go kv (text "general.architecture") == []
    then text "unknown"
    else gguf_string go kv (text "general.architecture")

abbrev pub warnings_of : GoLibrary → List (Text × Value) → ℕ → List Warning
warnings_of go kv context =
    (if gguf_string go kv (text "general.architecture") == [] then no_architecture ∷ [] else [])
    ++ (if context == 0 then no_context_length ∷ [] else [])

-- The known fields
unfoldable pub metadata_of : GoLibrary → List (Text × Value) → Text → ℕ → Metadata
unfolding architecture_of gguf_int
metadata_of go kv quantization size =
    let arch = architecture_of go kv in
    let context = gguf_int go kv (arch ++ text ".context_length") in
    let heads = gguf_int go kv (arch ++ text ".attention.head_count") in
    let heads_kv = gguf_int go kv (arch ++ text ".attention.head_count_kv") in
    record {
      architecture = arch;
      context_length = context;
      embedding_length = gguf_int go kv (arch ++ text ".embedding_length");
      block_count = gguf_int go kv (arch ++ text ".block_count");
      vocab_size = gguf_int go kv (arch ++ text ".vocab_size");
      head_count = heads;
      head_count_kv = if heads_kv == 0 then heads else heads_kv;
      quantization = quantization;
      file_size_bytes = size;
      warnings = warnings_of go kv context;
    }

abbrev pub gguf_magic : ℕ
gguf_magic = 0x46554747

-- What follows the magic number
unfoldable pub read_rest : GoLibrary → ℕ → List ℕ → Result Metadata
unfolding read_le read_kvs detect_quantization metadata_of
read_rest go size s = read_le 4 s >>= λ version s1. read_le 8 s1 >>= λ tensors s2.
    read_le 8 s2 >>= λ entries s3. read_kvs (suc size) entries [] s3 >>= λ kv s4.
    ok (metadata_of go kv (detect_quantization go.range_order tensors s4) size) s4

-- `readGGUFMeta`
unfoldable pub read_meta : GoLibrary → List ℕ → Result Metadata
unfolding read_le read_rest
read_meta go file = read_le 4 file >>= λ magic s.
    if magic == gguf_magic then read_rest go (length file) s else err (not_gguf magic)
