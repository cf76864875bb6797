-- ===== src/Agent/Gguf/Bounds.antt =====
-- The bytes that the reader takes, and its end on every file
-- (internal/agent/collector/gguf_reader.go).
use lightai_go.Common.{
  ℕ, zero, suc, ◌+◌, ◌*◌, ◌≤◌, ◌<◌, ◌≢◌, List, [], ◌∷◌, ltb, length, inl, inr, arith, Option-cases,
  if_holds,
}
use lightai_go.Text.{Text}
use lightai_go.Text.Maps.{insert}
use lightai_go.Agent.Gguf.{
  out_of_fuel, Result, ok, err, ◌>>=◌, Kind, string, array, kind_of, width_of, Value, items,
  read_le, read_full, max_string, max_items, read_string, scalar, read_items, read_array, read_kind,
  read_value, read_kv, read_kvs,
}

-- A reader has taken at least `least` bytes of a file of `size` bytes, or has failed by an error of
-- the program.
abbrev pub Takes {ℓ} : {A : Type ℓ} → ℕ → ℕ → Result A → Type 0
Takes least size (ok a rest) = length rest + least ≤ size
Takes least size (err e) = e ≢ out_of_fuel

pub Takes-le {ℓ} :
    {A : Type ℓ} (m n size small : ℕ) (r : Result A)
    → small + m ≤ size + n
    → Takes n small r
    → Takes m size r
Takes-le m n size small (ok a rest) le h = omega arith
Takes-le m n size small (err e) le h = h

pub Takes-then {ℓ κ} :
    {A : Type ℓ} {B : Type κ} (m n size : ℕ) (r : Result A) (f : A → List ℕ → Result B)
    → Takes m size r
    → ((a : A) (s : List ℕ) → length s + m ≤ size → Takes n (length s) (f a s))
    → Takes (m + n) size (r >>= f)
Takes-then m n size (ok a s) f h k =
    Takes-le (m + n) n size (length s) (f a s) (omega arith) (k a s h)
Takes-then m n size (err e) f h k = h

-- What follows a reader takes nothing more.
Takes-map {ℓ κ} :
    {A : Type ℓ} {B : Type κ} (n size : ℕ) (r : Result A) (g : A → B)
    → Takes n size r
    → Takes n size (r >>= λ a rest. ok (g a) rest)
Takes-map n size (ok a s) g h = h
Takes-map n size (err e) g h = h

pub read_le-Takes : (n : ℕ) (s : List ℕ) → Takes n (length s) (read_le n s)
unfolding read_le
read_le-Takes zero s = omega arith
read_le-Takes (suc n) [] = λ e. cc
read_le-Takes (suc n) (b ∷ s) =
    Takes-le (suc n) n (suc (length s)) (length s)
      (read_le n s >>= λ high rest. ok (b + 256 * high) rest) (omega arith)
      (Takes-map n (length s) (read_le n s) (λ high. b + 256 * high) (read_le-Takes n s))

read_full-Takes : (n : ℕ) (s : List ℕ) → Takes n (length s) (read_full n s)
unfolding read_full
read_full-Takes zero s = omega arith
read_full-Takes (suc n) [] = λ e. cc
read_full-Takes (suc n) (b ∷ s) =
    Takes-le (suc n) n (suc (length s)) (length s) (read_full n s >>= λ bs rest. ok (b ∷ bs) rest)
      (omega arith) (Takes-map n (length s) (read_full n s) (λ bs. b ∷ bs) (read_full-Takes n s))

read_string-Takes : (s : List ℕ) → Takes 8 (length s) (read_string s)
unfolding read_string
read_string-Takes s = Takes-then 8 0 (length s) (read_le 8 s) _ (read_le-Takes 8 s) (λ n rest _.
    if_holds (Takes {A = Text} 0 (length rest)) (ltb max_string n) _ _ (λ e. cc)
      (Takes-le 0 n (length rest) (length rest) (read_full n rest) (omega arith)
        (read_full-Takes n rest)))

read_items-Takes :
    (read : List ℕ → Result Value) (bound : ℕ)
    → ((s : List ℕ) → length s < bound → Takes 1 (length s) (read s))
    → (n : ℕ) (s : List ℕ) → length s < bound
    → Takes n (length s) (read_items read n s)
unfolding read_items
read_items-Takes read bound h zero s le = omega arith
read_items-Takes read bound h (suc n) s le =
    Takes-le (suc n) (1 + n) (length s) (length s) (read_items read (suc n) s) (omega arith) (
      Takes-then 1 n (length s) (read s) _ (h s le) (λ v rest shorter.
        Takes-map n (length rest) (read_items read n rest) _
          (read_items-Takes read bound h n rest (omega (arith, shorter, le)))))

read_array-Takes :
    (read : ℕ → List ℕ → Result Value) (bound : ℕ)
    → ((code : ℕ) (s : List ℕ) → length s < bound → Takes 1 (length s) (read code s))
    → (s : List ℕ) → length s ≤ bound
    → Takes 1 (length s) (read_array read s)
unfolding read_array
read_array-Takes read bound h s le =
    Takes-le 1 (4 + (8 + 0)) (length s) (length s) (read_array read s) (omega arith) (
      Takes-then 4 (8 + 0) (length s) (read_le 4 s) _ (read_le-Takes 4 s) (λ code s1 le1.
        Takes-then 8 0 (length s1) (read_le 8 s1) _ (read_le-Takes 8 s1) (λ count s2 le2.
          if_holds (Takes {A = Value} 0 (length s2)) (ltb max_items count) _ _ (λ e. cc)
            (Takes-le 0 count (length s2) (length s2)
              (read_items (read code) count s2 >>= λ vs rest. ok (items vs) rest) (omega arith)
              (Takes-map count (length s2) (read_items (read code) count s2) items (
                read_items-Takes (read code) bound (h code) count s2
                  (omega (arith, le, le1, le2))))))))

scalar-Takes :
    (k : Kind) (s : List ℕ)
    → 1 ≤ width_of k
    → Takes 1 (length s) (read_le (width_of k) s >>= λ n rest. ok (scalar k n) rest)
scalar-Takes k s le =
    Takes-le 1 (width_of k) (length s) (length s)
      (read_le (width_of k) s >>= λ n rest. ok (scalar k n) rest) (omega (arith, le))
      (Takes-map (width_of k) (length s) (read_le (width_of k) s) (scalar k)
        (read_le-Takes (width_of k) s))

read_kind-Takes :
    (read : ℕ → List ℕ → Result Value) (bound : ℕ)
    → ((code : ℕ) (s : List ℕ) → length s < bound → Takes 1 (length s) (read code s))
    → (k : Kind) (s : List ℕ) → length s ≤ bound
    → Takes 1 (length s) (read_kind read k s)
unfolding read_kind
read_kind-Takes read bound h string s le =
    Takes-le 1 8 (length s) (length s) (read_string s >>= λ t rest. ok (Value.text t) rest)
      (omega arith) (Takes-map 8 (length s) (read_string s) Value.text (read_string-Takes s))
read_kind-Takes read bound h array s le = read_array-Takes read bound h s le
read_kind-Takes read bound h k s le = scalar-Takes k s (omega arith)

read_value-Takes :
    (fuel code : ℕ) (s : List ℕ) → length s < fuel → Takes 1 (length s) (read_value fuel code s)
unfolding read_value
read_value-Takes zero code s h = absurd (omega (arith, h))
read_value-Takes (suc fuel) code s h = elim (Option-cases (kind_of code)) [
  | inl e ↦ rw (e, read_value) (λ x. cc)
  | inr (k, e) ↦
      rw (e, read_value)
        (read_kind-Takes (read_value fuel) fuel (λ code s lt. read_value-Takes fuel code s lt) k s
          (omega (arith, h)))
]

read_kv-Takes : (fuel : ℕ) (s : List ℕ) → length s < fuel → Takes 13 (length s) (read_kv fuel s)
unfolding read_kv
read_kv-Takes fuel s h =
    Takes-then 8 5 (length s) (read_string s) _ (read_string-Takes s) (λ key s1 le1.
      Takes-then 4 1 (length s1) (read_le 4 s1) _ (read_le-Takes 4 s1) (λ code s2 le2.
        Takes-map 1 (length s2) (read_value fuel code s2) _
          (read_value-Takes fuel code s2 (omega (arith, h, le1, le2)))))

-- With more fuel than the file has bytes left, reading `n` entries of metadata never runs out of
-- fuel, and where it succeeds it has taken at least thirteen bytes for each entry: a file bounds the
-- rounds of the loop, whatever count its header gives.
pub read_kvs-Takes :
    (fuel n : ℕ) (kv : List (Text × Value)) (s : List ℕ)
    → length s < fuel
    → Takes (n * 13) (length s) (read_kvs fuel n kv s)
unfolding read_kvs
read_kvs-Takes fuel zero kv s h = omega arith
read_kvs-Takes fuel (suc n) kv s h =
    Takes-le (suc n * 13) (13 + n * 13) (length s) (length s) (read_kvs fuel (suc n) kv s)
      (omega arith)
      (Takes-then 13 (n * 13) (length s) (read_kv fuel s) _ (read_kv-Takes fuel s h)
        (λ entry rest le.
          read_kvs-Takes fuel n (insert entry.0 entry.1 kv) rest (omega (arith, h, le))))
