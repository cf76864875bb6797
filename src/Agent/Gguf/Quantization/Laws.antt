-- ===== src/Agent/Gguf/Quantization/Laws.antt =====
-- The tally of tensor types (internal/agent/collector/gguf_reader.go).
use lightai_go.Common.{
  ℕ, zero, suc, ◌≤◌, ◌≡◌, refl, Bool, true, false, some, List, ltb, or_else, arith, inl, inr, ◌⊎◌,
  Bool-cases, ◌==◌, if◌then◌else◌,
}
use lightai_go.Text.{Text, text_eq}
use lightai_go.Text.Maps.{lookup, insert, lookup-insert}
use lightai_go.Agent.Gguf.{ReadError, Result, ok, err}
use lightai_go.Agent.Gguf.Quantization.{
  read_tensor, tensor_type_name, Tally, count_of, no_tally, add_tensor, scan,
}

-- No type has more tensors than `most`, and the dominant one has as many.
abbrev pub IsDominant : Tally → Type 0
IsDominant t =
    ((name : Text) → count_of name t.counts ≤ t.most) × (count_of t.dominant t.counts ≡ t.most)

count_of-insert :
    (other name : Text) (n : ℕ) (counts : List (Text × ℕ))
    → count_of other (insert name n counts) ≡ (if name == other then n else count_of other counts)
count_of-insert other name n counts = rw (lookup-insert other name n counts) (if_or (name == other))
  where
    if_or :
        (b : Bool)
        → or_else (if b then some n else lookup other counts) 0
          ≡ (if b then n else count_of other counts)
    if_or true = refl
    if_or false = refl

same_name : (name : Text) → (name == name) ≡ true
same_name name = (text_eq.equal_iff name name).1 refl

add_tensor-IsDominant : (name : Text) (t : Tally) → IsDominant t → IsDominant (add_tensor name t)
unfolding add_tensor
add_tensor-IsDominant name t h = elim (Bool-cases (ltb t.most (suc (count_of name t.counts)))) [
  | inl more ↦ rw more (
    (λ other.
        ground
          (arith, count_of-insert other name (suc (count_of name t.counts)) t.counts, h.0 other)),
    rw (count_of-insert name name (suc (count_of name t.counts)) t.counts)
        (rw (same_name name) refl),
  )
  | inr kept ↦ rw kept (
    (λ other.
        ground
          (arith, count_of-insert other name (suc (count_of name t.counts)) t.counts, h.0 other)),
    ground (
      arith,
      h.1,
      text_eq.equal_iff name t.dominant,
      count_of-insert t.dominant name (suc (count_of name t.counts)) t.counts,
    ),
  )
]

Result-cases :
    (r : Result ℕ)
    → ((e : ReadError) × (r ≡ err e)) ⊎ ((n : ℕ) × ((rest : List ℕ) × (r ≡ ok n rest)))
Result-cases (ok n rest) = inr (n, (rest, refl))
Result-cases (err e) = inl (e, refl)

scan_keeps : (n : ℕ) (s : List ℕ) (t : Tally) → IsDominant t → IsDominant (scan n s t)
unfolding scan
scan_keeps zero s t h = h
scan_keeps (suc n) s t h = elim (Result-cases (read_tensor s)) [
  | inl (x, e) ↦ rw (e, scan) h
  | inr (type, (rest, e)) ↦
      rw (e, scan)
        (scan_keeps n rest (add_tensor (tensor_type_name type) t)
          (add_tensor-IsDominant (tensor_type_name type) t h))
]

-- Wherever the reading of the tensors ends, no type of tensor has been counted more often than the
-- tally's `most`, and its dominant type has been counted as often.
pub scan-IsDominant : (n : ℕ) (s : List ℕ) → IsDominant (scan n s no_tally)
unfolding lookup
scan-IsDominant n s = scan_keeps n s no_tally ((λ name. omega arith), refl)
