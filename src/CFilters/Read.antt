-- ===== src/CFilters/Read.antt =====
-- Reading filter files: `readFilterFile` of custom-filter-files.go, on the file's bytes.
use block_dn.Common.{
  ℕ, zero, suc, ◌+◌, ◌<◌, ◌≤◌, ◌^◌, ◌≡◌, ap, ◌∙◌, List, [], ◌∷◌, length, length-append, All, arith,
}
use block_dn.Common.Int.{ℤ}
use block_dn.Common.Heights.{HeightMap, heights}
use block_dn.Common.Effect.{ok, err, failed, exhausted, M}
use block_dn.External.{Bytes, Wire, WireLaws, got, eof, bad, write_var_bytes}
use block_dn.Entries.{Holds, concat, serialize_entries-Holds}
use block_dn.CFilters.{serialize_filters}

module _ {H : Type 0} (wire : Wire H) (limit : ℕ) {S : Type 0} (each : ℕ → Bytes → S → S) where
  -- The loop of `readFilterFile` on fuel: entry `idx` is next, and `each` is the callback.
  unfoldable pub read_entries : ℕ → Bytes → ℕ → M S ℕ
  read_entries zero reader idx s = (s, err exhausted)
  read_entries (suc n) reader idx s = elim (wire.read_var_bytes limit reader) [
    | got filter rest ↦ read_entries n rest (idx + 1) (each idx filter s)
    | eof ↦ (s, ok idx)
    | bad ↦ (s, err failed)
  ]

  -- Each entry takes a byte at least, so one round more than the file has bytes is enough.
  unfoldable pub read_filter_file : Bytes → M S ℕ
  read_filter_file file = read_entries (suc (length file)) file 0

  -- The callback on a list of entries, the first of them with the index `idx`.
  unfoldable pub on_each : ℕ → List Bytes → S → S
  on_each idx [] s = s
  on_each idx (filter ∷ filters) s = on_each (idx + 1) filters (each idx filter s)

  module _ (laws : WireLaws wire) (small : limit < 2 ^ 64) where
    pub read_entries-concat :
        (filters : List Bytes) (n idx : ℕ) (s : S)
        → All (λ (f : Bytes). length f ≤ limit) filters
        → length (concat (write_var_bytes wire) filters) < n
        → read_entries n (concat (write_var_bytes wire) filters) idx s
          ≡ (on_each idx filters s, ok (idx + length filters))
    unfolding read_entries on_each concat
    read_entries-concat filters zero idx s fit fuel = absurd (omega arith)
    read_entries-concat [] (suc n) idx s fit fuel =
        rw (read_entries, concat, on_each, laws.read_var_bytes_end limit)
          (ap (λ k. (s, ok k)) (omega arith))
    read_entries-concat (f ∷ fs) (suc n) idx s fit fuel =
        rw
          (
            read_entries,
            concat,
            on_each,
            laws.read-write_var_bytes limit f (concat (write_var_bytes wire) fs) small fit.0,
          )
          (read_entries-concat fs n (idx + 1) (each idx f s) fit.1 (
              omega (
                arith,
                fuel,
                length-append (write_var_bytes wire f) (concat (write_var_bytes wire) fs),
                length-append (wire.write_var_int (length f)) f,
                laws.length-write_var_int (length f),
                laws.var_int_size_pos (length f),
              ))
            ∙ ap (λ k. (on_each (idx + 1) fs (each idx f s), ok k)) (omega arith))

    -- A filter file is read back as it was written: if every height of the range has its filter
    -- and no filter is longer than the limit, which is below 2^64, serializing the range succeeds,
    -- and `readFilterFile` on what was written calls back with exactly these filters, in order and
    -- with their indices, and returns their number.
    pub read_filter_file-serialize :
        (m : HeightMap Bytes) (start end : ℤ) (filters : List Bytes) (s : S)
        → Holds m (heights start end) filters
        → All (λ (f : Bytes). length f ≤ limit) filters
        → (file : Bytes) × (serialize_filters wire m start end [] ≡ (file, ok tt))
          × (read_filter_file file s ≡ (on_each 0 filters s, ok (length filters)))
    unfolding serialize_filters read_filter_file
    read_filter_file-serialize m start end filters s holds fit = (
      concat (write_var_bytes wire) filters,
      serialize_entries-Holds (write_var_bytes wire) m (heights start end) filters [] holds,
      read_entries-concat filters _ 0 s fit (omega arith)
          ∙ ap (λ k. (on_each 0 filters s, ok k)) (omega arith),
    )
