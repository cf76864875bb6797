-- ===== src/Agent/Tests.antt =====
-- The theorems on the reader of GGUF metadata at small files.
use lightai_go.Common.{ℕ, suc, ◌*◌, ◌≡◌, refl, All, List, [], ◌∷◌, ◌++◌, length, arith}
use lightai_go.Text.{text}
use lightai_go.Agent.Gguf.{ok, uint32, Value, num, items, nil, cons, read_kvs}
use lightai_go.Agent.Gguf.Bounds.{Takes, read_kvs-Takes}
use lightai_go.Agent.Gguf.RoundTrip.{
  write_string, Entry, IsEntry, IsWritable, depth, write_le, write_kvs, insert_entries,
}
use lightai_go.Agent.Gguf.Quantization.{detect_quantization}
use lightai_go.Agent.Gguf.Header.{GoLibrary, metadata_of, read_meta}
use lightai_go.Agent.Gguf.Header.Laws.{
  IsStorable, write_file, read_meta-Takes, read_meta-write_file,
}

abbrev go : GoLibrary
go = record { show = λ v. text "value"; float_to_int = λ k n. 0; range_order = λ m. m }

abbrev entries : List Entry
entries =
    (text "general.architecture", Value.text (text "llama"))
    ∷ (text "llama.context_length", num uint32 4096)
    ∷ (text "tags", items (cons (Value.text (text "chat")) nil))
    ∷ []

good : All IsStorable entries
unfolding IsWritable
good = (
  (omega arith, omega arith),
  (
    (omega arith, (refl, omega arith)),
    ((omega arith, (omega arith, (refl, (omega arith, tt)))), tt),
  ),
)

read_kvs-Takes_example :
    Takes
      (3 * 13)
      (length (write_kvs entries))
      (read_kvs (suc (length (write_kvs entries))) 3 [] (write_kvs entries))
read_kvs-Takes_example =
    read_kvs-Takes (suc (length (write_kvs entries))) 3 [] (write_kvs entries) (omega arith)

within : All (IsEntry 3) entries
unfolding IsWritable depth
within = (
  (omega arith, (omega arith, omega arith)),
  (
    (omega arith, ((refl, omega arith), omega arith)),
    ((omega arith, ((omega arith, (refl, (omega arith, tt))), omega arith)), tt),
  ),
)

read_meta-Takes_example :
    Takes 24 (length (write_file 3 0 entries [])) (read_meta go (write_file 3 0 entries []))
read_meta-Takes_example = read_meta-Takes go (write_file 3 0 entries [])

-- A tensor of one dimension of 16 elements, of type 12 (q4_K)
abbrev tensor : List ℕ
tensor =
    write_string (text "w") ++ (write_le 4 1 ++ (write_le 8 16 ++ (write_le 4 12 ++ write_le 8 0)))

abbrev two_tensors : List ℕ
two_tensors = tensor ++ tensor

read_meta-write_file_example :
    read_meta go (write_file 3 0 entries [])
    ≡ ok
        (metadata_of go
          (insert_entries entries [])
          (detect_quantization go.range_order 0 [])
          (length (write_file 3 0 entries [])))
        []
read_meta-write_file_example =
    read_meta-write_file go 3 0 entries [] (omega arith) (omega arith) (omega arith) good
