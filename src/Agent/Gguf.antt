-- ===== src/Agent/Gguf.antt =====
-- The reader of a GGUF file's header (internal/agent/collector/gguf_reader.go). A file is the list of
-- its bytes; a reader gives what it has read and the bytes that are left. A Go integer of w bits is
-- its bit pattern, below 2 ^ w.
pub mod Bounds
pub mod RoundTrip
pub mod Quantization
pub mod Header
use lightai_go.Common.{
  ℕ, zero, suc, ◌+◌, ◌*◌, Bool, true, false, not, Option, none, some, List, [], ◌∷◌, ltb, length,
  nat_eq, ◌==◌, if◌then◌else◌,
}
use lightai_go.Text.{Text}
use lightai_go.Text.Maps.{insert}

pub data ReadError : Type 0 where
  truncated : ReadError
  string_too_long array_too_long unknown_type not_gguf : ℕ → ReadError
  -- No error of the program: the fuel of the model has run out.
  out_of_fuel : ReadError

pub data Result {ℓ} (A : Type ℓ) : Type ℓ where
  ok : A → List ℕ → Result A
  err : ReadError → Result A

infixl 5 ◌>>=◌
abbrev pub ◌>>=◌ {ℓ κ} : {A : Type ℓ} {B : Type κ} → Result A → (A → List ℕ → Result B) → Result B
ok a s >>= f = f a s
err e >>= f = err e

-- The types that a value in the file can have.
pub data Kind : Type 0 where
  uint8 int8 uint16 int16 uint32 int32 float32 flag string array uint64 int64 float64 : Kind

-- The constants `ggufTypeUint8` and so on
abbrev pub code_of : Kind → ℕ
code_of uint8 = 0
code_of int8 = 1
code_of uint16 = 2
code_of int16 = 3
code_of uint32 = 4
code_of int32 = 5
code_of float32 = 6
code_of flag = 7
code_of string = 8
code_of array = 9
code_of uint64 = 10
code_of int64 = 11
code_of float64 = 12

abbrev kind_among : List Kind → ℕ → Option Kind
kind_among [] code = none
kind_among (k ∷ ks) code = if code_of k == code then some k else kind_among ks code

abbrev all_kinds : List Kind
all_kinds =
    uint8 ∷ int8 ∷ uint16 ∷ int16 ∷ uint32 ∷ int32 ∷ float32 ∷ flag ∷ string ∷ array ∷ uint64
    ∷ int64 ∷ float64 ∷ []

-- The cases of the `switch` over the type
unfoldable pub kind_of : ℕ → Option Kind
kind_of code = kind_among all_kinds code

-- The bytes of a value that has a fixed size
abbrev pub width_of : Kind → ℕ
width_of uint8 = 1
width_of int8 = 1
width_of uint16 = 2
width_of int16 = 2
width_of uint32 = 4
width_of int32 = 4
width_of float32 = 4
width_of flag = 1
width_of string = 8
width_of array = 12
width_of uint64 = 8
width_of int64 = 8
width_of float64 = 8

-- A Go value with its dynamic type. A float is its bit pattern; a float32 has its own 32 bits.
mutual
  pub data Value : Type 0 where
    num : Kind → ℕ → Value
    truth : Bool → Value
    text : Text → Value
    items : Items → Value

  pub data Items : Type 0 where
    nil : Items
    cons : Value → Items → Items

-- `binary.Read` of an unsigned number in so many bytes, the lowest first
unfoldable pub read_le : ℕ → List ℕ → Result ℕ
read_le zero s = ok 0 s
read_le (suc n) [] = err truncated
read_le (suc n) (b ∷ s) = read_le n s >>= λ high rest. ok (b + 256 * high) rest

-- `io.ReadFull`
unfoldable pub read_full : ℕ → List ℕ → Result (List ℕ)
read_full zero s = ok [] s
read_full (suc n) [] = err truncated
read_full (suc n) (b ∷ s) = read_full n s >>= λ bs rest. ok (b ∷ bs) rest

abbrev pub max_string : ℕ
max_string = 10485760

abbrev pub max_items : ℕ
max_items = 1000000

-- `readGGUFString`
unfoldable pub read_string : List ℕ → Result Text
unfolding read_le read_full
read_string s =
    read_le 8 s >>= λ n rest. if ltb max_string n then err (string_too_long n) else read_full n rest

abbrev pub scalar : Kind → ℕ → Value
scalar flag n = truth (not (n == 0))
scalar k n = num k n

-- The loop of `readGGUFArray`
unfoldable pub read_items : (List ℕ → Result Value) → ℕ → List ℕ → Result Items
read_items read zero s = ok nil s
read_items read (suc n) s =
    read s >>= λ v rest. read_items read n rest >>= λ vs left. ok (cons v vs) left

-- `readGGUFArray`; `read` is `readGGUFValue`.
unfoldable pub read_array : (ℕ → List ℕ → Result Value) → List ℕ → Result Value
unfolding read_le read_items
read_array read s = read_le 4 s >>= λ code s1. read_le 8 s1 >>= λ count s2.
    if ltb max_items count
    then err (array_too_long count)
    else read_items (read code) count s2 >>= λ vs rest. ok (items vs) rest

unfoldable pub read_kind : (ℕ → List ℕ → Result Value) → Kind → List ℕ → Result Value
unfolding read_le read_string read_array
read_kind read string s = read_string s >>= λ t rest. ok (text t) rest
read_kind read array s = read_array read s
read_kind read k s = read_le (width_of k) s >>= λ n rest. ok (scalar k n) rest

-- `readGGUFValue`; the fuel bounds how deep arrays stand in arrays.
unfoldable pub read_value : ℕ → ℕ → List ℕ → Result Value
unfolding kind_of read_kind
read_value zero code s = err out_of_fuel
read_value (suc fuel) code s = elim (kind_of code) [
  | none ↦ err (unknown_type code)
  | some k ↦ read_kind (read_value fuel) k s
]

-- `readGGUFKV`
unfoldable pub read_kv : ℕ → List ℕ → Result (Text × Value)
unfolding read_le read_string read_value
read_kv fuel s = read_string s >>= λ key s1.
    read_le 4 s1 >>= λ code s2. read_value fuel code s2 >>= λ v rest. ok (key, v) rest

-- The loop over the metadata of `readGGUFMeta`
unfoldable pub read_kvs : ℕ → ℕ → List (Text × Value) → List ℕ → Result (List (Text × Value))
unfolding read_kv insert
read_kvs fuel zero kv s = ok kv s
read_kvs fuel (suc n) kv s =
    read_kv fuel s >>= λ entry rest. read_kvs fuel n (insert entry.0 entry.1 kv) rest
