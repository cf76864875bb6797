-- ===== src/Agent/Gguf/RoundTrip.antt =====
-- What the reader of GGUF metadata makes of a file that is written by the format's rules
-- (internal/agent/collector/gguf_reader.go).
use Prim.Native.Nat.{max}
use lightai_go.Common.{
  ℕ, zero, suc, ◌/◌, ◌%◌, ◌^◌, ◌≤◌, ◌<◌, ◌≡◌, refl, ap, ◌∙◌, Bool, true, false, not, ◌==◌, nat_eq,
  some, List, [], ◌∷◌, ◌++◌, ltb, length, append_assoc, All, arith,
}
use lightai_go.Text.{Text}
use lightai_go.Text.Maps.{insert}
use lightai_go.Agent.Gguf.{
  Result, ok, Kind, uint8, flag, string, array, code_of, kind_of, width_of, Value, num, truth, text,
  items, Items, nil, cons, read_le, read_full, max_string, max_items, read_string, read_items,
  read_array, read_kind, read_value, read_kv, read_kvs,
}

-- A number in so many bytes, the lowest first
unfoldable pub write_le : ℕ → ℕ → List ℕ
write_le zero n = []
write_le (suc k) n = n % 256 ∷ write_le k (n / 256)

abbrev pub write_string : Text → List ℕ
write_string t = write_le 8 (length t) ++ t

abbrev pub kind_of_value : Value → Kind
kind_of_value (num k n) = k
kind_of_value (truth b) = flag
kind_of_value (text t) = string
kind_of_value (items vs) = array

-- The type of the elements; an empty array is written as one of uint8.
abbrev pub kind_of_items : Items → Kind
kind_of_items nil = uint8
kind_of_items (cons v vs) = kind_of_value v

abbrev pub count_items : Items → ℕ
count_items nil = 0
count_items (cons v vs) = suc (count_items vs)

unfoldable mutual
  pub write_value : Value → List ℕ
  write_value (num k n) = write_le (width_of k) n
  write_value (truth true) = 1 ∷ []
  write_value (truth false) = 0 ∷ []
  write_value (text t) = write_string t
  write_value (items vs) =
      write_le 4 (code_of (kind_of_items vs)) ++ (write_le 8 (count_items vs) ++ write_items vs)

  pub write_items : Items → List ℕ
  write_items nil = []
  write_items (cons v vs) = write_value v ++ write_items vs

abbrev pub is_number : Kind → Bool
is_number flag = false
is_number string = false
is_number array = false
is_number k = true

-- What the format can hold, and the reader's limits: elements of one type, numbers that fit.
unfoldable mutual
  pub IsWritable : Value → Type 0
  IsWritable (num k n) = (is_number k ≡ true) × (n < 256 ^ width_of k)
  IsWritable (truth b) = Unit
  IsWritable (text t) = length t ≤ max_string
  IsWritable (items vs) = (count_items vs ≤ max_items) × AllWritable (kind_of_items vs) vs

  pub AllWritable : Kind → Items → Type 0
  AllWritable k nil = Unit
  AllWritable k (cons v vs) = (kind_of_value v ≡ k) × (IsWritable v × AllWritable k vs)

-- How deep arrays stand in arrays
unfoldable mutual
  pub depth : Value → ℕ
  depth (num k n) = 0
  depth (truth b) = 0
  depth (text t) = 0
  depth (items vs) = suc (depth_items vs)

  pub depth_items : Items → ℕ
  depth_items nil = 0
  depth_items (cons v vs) = max (depth v) (depth_items vs)

pub read_le-write_le :
    (k n : ℕ) (rest : List ℕ) → n < 256 ^ k → read_le k (write_le k n ++ rest) ≡ ok n rest
unfolding read_le write_le
read_le-write_le zero n rest h = ground arith
read_le-write_le (suc k) n rest h =
    let high = read_le-write_le k (n / 256) rest (omega arith) in
    rw high (ap (λ (m : ℕ). ok m rest) (omega arith))

read_full-append : (t rest : List ℕ) → read_full (length t) (t ++ rest) ≡ ok t rest
unfolding read_full
read_full-append [] rest = refl
read_full-append (b ∷ t) rest = rw (read_full-append t rest) refl

read_string-write_string :
    (t : Text) (rest : List ℕ)
    → length t ≤ max_string
    → read_string (write_string t ++ rest) ≡ ok t rest
unfolding read_string
read_string-write_string t rest h =
    let short : ltb max_string (length t) ≡ false = ground arith in
    rw (append_assoc (write_le 8 (length t)) t rest) (
      rw (read_le-write_le 8 (length t) (t ++ rest) (omega arith))
        (rw short (read_full-append t rest)))

kind_of-code_of : (k : Kind) → kind_of (code_of k) ≡ some k
unfolding kind_of
kind_of-code_of uint8 = refl
kind_of-code_of k = refl

code_small : (k : Kind) → code_of k < 256 ^ 4
code_small uint8 = omega arith
code_small k = omega arith

read_kind-num :
    (read : ℕ → List ℕ → Result Value) (k : Kind) (n : ℕ) (rest : List ℕ)
    → is_number k ≡ true
    → n < 256 ^ width_of k
    → read_kind read k (write_le (width_of k) n ++ rest) ≡ ok (num k n) rest
unfolding read_kind
read_kind-num read flag n rest e h = absurd (cc)
read_kind-num read string n rest e h = absurd (cc)
read_kind-num read array n rest e h = absurd (cc)
read_kind-num read k n rest e h = rw (read_le-write_le (width_of k) n rest h) refl

read_array-written :
    (read : ℕ → List ℕ → Result Value) (k : Kind) (vs : Items) (body rest : List ℕ)
    → count_items vs ≤ max_items
    → read_items (read (code_of k)) (count_items vs) (body ++ rest) ≡ ok vs rest
    → read_array read ((write_le 4 (code_of k) ++ (write_le 8 (count_items vs) ++ body)) ++ rest)
      ≡ ok (items vs) rest
unfolding read_array
read_array-written read k vs body rest h read_body =
    let few : ltb max_items (count_items vs) ≡ false = ground arith in
    let tail = write_le 8 (count_items vs) ++ body in
    rw (append_assoc (write_le 4 (code_of k)) tail rest) (
      rw (append_assoc (write_le 8 (count_items vs)) body rest) (
        rw
          (read_le-write_le 4 (code_of k) (write_le 8 (count_items vs) ++ (body ++ rest))
            (code_small k))
          (rw (read_le-write_le 8 (count_items vs) (body ++ rest) (omega (arith, h)))
            (rw few (rw read_body refl)))))

read_some :
    (fuel : ℕ) (k : Kind) (s : List ℕ)
    → read_value (suc fuel) (code_of k) s ≡ read_kind (read_value fuel) k s
unfolding read_value
read_some fuel k s = rw (kind_of-code_of k, read_value) refl

read_flag :
    (fuel b : ℕ) (v : Bool) (rest : List ℕ)
    → not (b == 0) ≡ v
    → read_value (suc fuel) (code_of flag) (b ∷ rest) ≡ ok (truth v) rest
unfolding read_kind read_le
read_flag fuel b v rest e =
    read_some fuel flag (b ∷ rest)
    ∙ rw (← e) (ap (λ (n : ℕ). ok (truth (not (n == 0))) rest) (omega arith))

read_text :
    (fuel : ℕ) (t : Text) (rest : List ℕ)
    → length t ≤ max_string
    → read_value (suc fuel) (code_of string) (write_string t ++ rest) ≡ ok (text t) rest
unfolding read_kind
read_text fuel t rest h = read_some fuel string _ ∙ rw (read_string-write_string t rest h) refl

read_nested :
    (fuel : ℕ) (s : List ℕ)
    → read_value (suc fuel) (code_of array) s ≡ read_array (read_value fuel) s
unfolding read_kind
read_nested fuel s = read_some fuel array s

mutual
  unfolding write_value IsWritable depth read_items

  read_written :
      (v : Value) (fuel : ℕ) (rest : List ℕ)
      → depth v < fuel
      → IsWritable v
      → read_value fuel (code_of (kind_of_value v)) (write_value v ++ rest) ≡ ok v rest
  read_written v zero rest d h = absurd (omega (arith, d))
  read_written (num k n) (suc fuel) rest d h =
      read_some fuel k _ ∙ read_kind-num (read_value fuel) k n rest h.0 h.1
  read_written (truth true) (suc fuel) rest d h = read_flag fuel 1 true rest refl
  read_written (truth false) (suc fuel) rest d h = read_flag fuel 0 false rest refl
  read_written (text t) (suc fuel) rest d h = read_text fuel t rest h
  read_written (items vs) (suc fuel) rest d h =
      read_nested fuel _
      ∙ read_array-written (read_value fuel) (kind_of_items vs) vs (write_items vs) rest h.0
          (read_items_written vs (kind_of_items vs) fuel rest (omega (arith, d)) h.1)

  read_items_written :
      (vs : Items) (k : Kind) (fuel : ℕ) (rest : List ℕ)
      → depth_items vs < fuel
      → AllWritable k vs
      → read_items (read_value fuel (code_of k)) (count_items vs) (write_items vs ++ rest)
        ≡ ok vs rest
  read_items_written nil k fuel rest d h = refl
  read_items_written (cons v vs) k fuel rest d h =
      let first = read_written v fuel (write_items vs ++ rest) (omega (arith, d)) h.1.0 in
      let others = read_items_written vs k fuel rest (omega (arith, d)) h.1.1 in
      rw (append_assoc (write_value v) (write_items vs) rest)
        (let same = rw h.0 at first in rw same (rw others refl))

abbrev pub Entry : Type 0
Entry = Text × Value

abbrev pub write_kv : Entry → List ℕ
write_kv (key, v) = write_string key ++ (write_le 4 (code_of (kind_of_value v)) ++ write_value v)

abbrev pub write_kvs : List Entry → List ℕ
write_kvs [] = []
write_kvs (e ∷ es) = write_kv e ++ write_kvs es

-- An entry that the format can hold, with arrays no deeper than the fuel
abbrev pub IsEntry : ℕ → Entry → Type 0
IsEntry fuel (key, v) = (length key ≤ max_string) × (IsWritable v × (depth v < fuel))

-- The map of the entries, where a later entry replaces an earlier one of its key
abbrev pub insert_entries : List Entry → List Entry → List Entry
insert_entries [] kv = kv
insert_entries (e ∷ es) kv = insert_entries es (insert e.0 e.1 kv)

read_kv-write_kv :
    (fuel : ℕ) (e : Entry) (rest : List ℕ)
    → IsEntry fuel e
    → read_kv fuel (write_kv e ++ rest) ≡ ok e rest
unfolding read_kv
read_kv-write_kv fuel (key, v) rest h =
    let code = write_le 4 (code_of (kind_of_value v)) in
    rw (append_assoc (write_string key) (code ++ write_value v) rest) (
      rw (append_assoc code (write_value v) rest) (
        rw (read_string-write_string key (code ++ (write_value v ++ rest)) h.0) (
          rw
            (read_le-write_le 4 (code_of (kind_of_value v)) (write_value v ++ rest)
              (code_small (kind_of_value v)))
            (rw (read_written v fuel rest h.1.1 h.1.0) refl))))

-- Of metadata that is written by the format's rules, with keys, texts and arrays within the reader's
-- limits and arrays no deeper than the fuel, the reader gives the map of the entries, and leaves what
-- follows them in the file.
pub read_kvs-write_kvs :
    (fuel : ℕ) (es kv : List Entry) (rest : List ℕ)
    → All (IsEntry fuel) es
    → read_kvs fuel (length es) kv (write_kvs es ++ rest) ≡ ok (insert_entries es kv) rest
unfolding read_kvs
read_kvs-write_kvs fuel [] kv rest h = refl
read_kvs-write_kvs fuel (e ∷ es) kv rest h = rw (append_assoc (write_kv e) (write_kvs es) rest) (
    rw (read_kv-write_kv fuel e (write_kvs es ++ rest) h.0)
      (read_kvs-write_kvs fuel es (insert e.0 e.1 kv) rest h.1))
