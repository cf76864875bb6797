-- ===== src/Agent/Gguf/Header/Laws.antt =====
-- `readGGUFMeta` as a whole (internal/agent/collector/gguf_reader.go).
use lightai_go.Common.{
  ℕ, zero, ◌/◌, suc, ◌+◌, ◌*◌, ◌^◌, ◌≤◌, ◌<◌, ◌≡◌, refl, List, [], ◌∷◌, ◌++◌, length, All, arith,
  if_holds, nat_eq, ◌==◌,
}
use lightai_go.Text.{Text}
use lightai_go.Agent.Gguf.{
  ok, ◌>>=◌, code_of, Value, num, truth, items, Items, nil, cons, max_string, read_le, read_kvs,
}
use lightai_go.Agent.Gguf.Bounds.{Takes, Takes-le, Takes-then, read_le-Takes, read_kvs-Takes}
use lightai_go.Agent.Gguf.RoundTrip.{
  write_le, write_string, write_value, write_items, write_kv, write_kvs, kind_of_value,
  kind_of_items, IsWritable, depth, depth_items, Entry, IsEntry, insert_entries, count_items,
  read_le-write_le, read_kvs-write_kvs,
}
use lightai_go.Agent.Gguf.Quantization.{detect_quantization}
use lightai_go.Agent.Gguf.Header.{
  GoLibrary, Metadata, metadata_of, gguf_magic, read_rest, read_meta,
}

read_rest-Takes :
    (go : GoLibrary) (size : ℕ) (s : List ℕ)
    → length s ≤ size
    → Takes 20 (length s) (read_rest go size s)
unfolding read_rest
read_rest-Takes go size s h =
    Takes-then 4 16 (length s) (read_le 4 s) _ (read_le-Takes 4 s) (λ version s1 le1.
      Takes-then 8 8 (length s1) (read_le 8 s1) _ (read_le-Takes 8 s1) (λ tensors s2 le2.
        Takes-then 8 0 (length s2) (read_le 8 s2) _ (read_le-Takes 8 s2) (λ entries s3 le3.
          Takes-le 0 (entries * 13 + 0) (length s3) (length s3)
            (read_kvs (suc size) entries [] s3 >>= λ kv s4.
              ok (metadata_of go kv (detect_quantization go.range_order tensors s4) size) s4)
            (omega arith)
            (Takes-then (entries * 13) 0 (length s3) (read_kvs (suc size) entries [] s3) _
              (read_kvs-Takes (suc size) entries [] s3 (omega (arith, h, le1, le2, le3)))
              (λ kv s4 le4. omega arith)))))

-- On every file the reader ends: with an error of the program, or with metadata after at least 24
-- bytes. It never runs out of fuel.
pub read_meta-Takes : (go : GoLibrary) (file : List ℕ) → Takes 24 (length file) (read_meta go file)
unfolding read_meta
read_meta-Takes go file =
    Takes-then 4 20 (length file) (read_le 4 file) _ (read_le-Takes 4 file) (λ magic s le.
      if_holds (Takes {A = Metadata} 20 (length s)) (magic == gguf_magic) _ _
        (read_rest-Takes go (length file) s (omega (arith, le))) (λ e. cc))

length-append : (s t : List ℕ) → length (s ++ t) ≡ length s + length t
length-append [] t = omega arith
length-append (b ∷ s) t = omega (arith, length-append s t)

length-write_le : (k n : ℕ) → length (write_le k n) ≡ k
unfolding write_le
length-write_le zero n = refl
length-write_le (suc k) n = omega (arith, length-write_le k (n / 256))

mutual
  unfolding depth write_value

  depth-le : (v : Value) → depth v ≤ length (write_value v)
  depth-le (num k n) = omega arith
  depth-le (truth b) = omega arith
  depth-le (Value.text t) = omega arith
  depth-le (items vs) =
      let code = write_le 4 (code_of (kind_of_items vs)) in
      let count = write_le 8 (count_items vs) in
      omega (
        arith,
        length-append code (count ++ write_items vs),
        length-append count (write_items vs),
        length-write_le 4 (code_of (kind_of_items vs)),
        length-write_le 8 (count_items vs),
        depth_items-le vs,
      )

  depth_items-le : (vs : Items) → depth_items vs ≤ length (write_items vs)
  depth_items-le nil = omega arith
  depth_items-le (cons v vs) =
      omega (arith, length-append (write_value v) (write_items vs), depth-le v, depth_items-le vs)

-- An entry that the format can hold
abbrev pub IsStorable : Entry → Type 0
IsStorable (key, v) = (length key ≤ max_string) × IsWritable v

length-write_kvs-le :
    (e : Entry) (es : List Entry)
    → length (write_kv e) + length (write_kvs es) ≤ length (write_kvs (e ∷ es))
length-write_kvs-le e es = omega (arith, length-append (write_kv e) (write_kvs es))

depth-write_kv : (key : Text) (v : Value) → depth v ≤ length (write_kv (key, v))
depth-write_kv key v =
    let code = write_le 4 (code_of (kind_of_value v)) in
    omega (
      arith,
      depth-le v,
      length-append (write_string key) (code ++ write_value v),
      length-append code (write_value v),
    )

all-IsEntry :
    (fuel : ℕ) (es : List Entry)
    → length (write_kvs es) < fuel
    → All IsStorable es
    → All (IsEntry fuel) es
all-IsEntry fuel [] le h = tt
all-IsEntry fuel ((key, v) ∷ es) le h =
    let room = length-write_kvs-le (key, v) es in
    (
      (h.0.0, (h.0.1, omega (arith, le, room, depth-write_kv key v))),
      all-IsEntry fuel es (omega (arith, le, room)) h.1,
    )

-- A file by the format's rules: version, count of tensors and of entries, entries, then the tensors
abbrev pub write_file : ℕ → ℕ → List Entry → List ℕ → List ℕ
write_file version tensors es rest =
    write_le 4 gguf_magic
    ++ (write_le 4 version
        ++ (write_le 8 tensors ++ (write_le 8 (length es) ++ (write_kvs es ++ rest))))

room_of_entries :
    (version tensors : ℕ) (es : List Entry) (rest : List ℕ)
    → length (write_kvs es) ≤ length (write_file version tensors es rest)
room_of_entries version tensors es rest =
    let body = write_kvs es ++ rest in
    let counted = write_le 8 (length es) ++ body in
    let sized = write_le 8 tensors ++ counted in
    omega (
      arith,
      length-append (write_le 4 gguf_magic) (write_le 4 version ++ sized),
      length-append (write_le 4 version) sized,
      length-append (write_le 8 tensors) counted,
      length-append (write_le 8 (length es)) body,
      length-append (write_kvs es) rest,
    )

read_rest-written :
    (go : GoLibrary) (size version tensors : ℕ) (es : List Entry) (rest : List ℕ)
    → version < 256 ^ 4
    → tensors < 256 ^ 8
    → length es < 256 ^ 8
    → All (IsEntry (suc size)) es
    → read_rest go size (
        write_le 4 version
        ++ (write_le 8 tensors ++ (write_le 8 (length es) ++ (write_kvs es ++ rest))))
      ≡ ok
          (metadata_of go
            (insert_entries es [])
            (detect_quantization go.range_order tensors rest)
            size)
          rest
unfolding read_rest
read_rest-written go size version tensors es rest hv ht he good =
    let body = write_kvs es ++ rest in
    let counted = write_le 8 (length es) ++ body in
    rw (read_le-write_le 4 version (write_le 8 tensors ++ counted) hv) (
      rw (read_le-write_le 8 tensors counted ht) (
        rw (read_le-write_le 8 (length es) body he)
          (rw (read_kvs-write_kvs (suc size) es [] rest good) refl)))

-- Of a file by the format's rules, whose counts fit their fields and whose keys, texts and arrays are
-- within the reader's limits, the reader gives the metadata of the map of its entries, with the
-- quantization found in what follows them and the size of the file, however deep its arrays stand in
-- arrays.
pub read_meta-write_file :
    (go : GoLibrary) (version tensors : ℕ) (es : List Entry) (rest : List ℕ)
    → version < 256 ^ 4
    → tensors < 256 ^ 8
    → length es < 256 ^ 8
    → All IsStorable es
    → read_meta go (write_file version tensors es rest)
      ≡ ok
          (metadata_of go
            (insert_entries es [])
            (detect_quantization go.range_order tensors rest)
            (length (write_file version tensors es rest)))
          rest
unfolding read_meta
read_meta-write_file go version tensors es rest hv ht he good =
    let tail =
      write_le 4 version
      ++ (write_le 8 tensors ++ (write_le 8 (length es) ++ (write_kvs es ++ rest))) in
    let size = length (write_file version tensors es rest) in
    rw (read_le-write_le 4 gguf_magic tail (omega arith)) (
      read_rest-written go size version tensors es rest hv ht he
        (all-IsEntry (suc size) es (omega (arith, room_of_entries version tensors es rest)) good))
