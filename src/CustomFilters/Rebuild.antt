-- ===== src/CustomFilters/Rebuild.antt =====
-- The filter header chains, computed from filter files.
use block_dn.Common.{
  ℕ, zero, suc, ◌+◌, ◌*◌, ◌≤◌, ◌<◌, ◌^◌, ◌==◌, ◌≡◌, refl, sym, ap, ◌∙◌, Bool, true, false, some,
  List, [], ◌∷◌, ◌++◌, leb, length, map, All, arith,
}
use block_dn.Common.Int.{ℤ, pos, ◌+ℤ◌, ◌-ℤ◌, ◌≤ℤ◌, ◌<ℤ◌, int_laws, <ℤ→ltb_ℤ, ≤ℤ→ltb_ℤ, parts}
use block_dn.Common.Heights.{heights_from}
use block_dn.Common.Effect.{M, Result, ok, and_then}
use block_dn.External.{Bytes, Hash, zero_hash, Wire, WireLaws, write_var_bytes}
use block_dn.Files.{FileName, Disk}
use block_dn.Entries.{concat}
use block_dn.CFilters.{next_header}
use block_dn.CFilters.Read.{read_filter_file, on_each, read_entries-concat}
use mathlib.Core.Path.{subst}
use block_dn.CustomFilters.{
  read, CustomFilterFiles, config_indices, custom_filter_file, Column, add_header, complete,
  read_column, read_columns, last_headers, with_rows, rebuild_filter_headers,
}

-- The filters of a configuration and the filter header in front of each height.
pub record Uninterrupted {H : Type 0} (wire : Wire H) : Type 0 where
  pub filter : ℕ → ℤ → Bytes
  pub before : ℕ → ℤ → Hash
  pub genesis : (index : ℕ) → before index (pos 0) ≡ zero_hash
  pub commits :
      (index : ℕ) (k : ℤ)
      → pos 0 ≤ℤ k
      → before index (k +ℤ pos 1) ≡ next_header wire (filter index k) (before index k)

module _ {H : Type 0} (wire : Wire H) (best : Uninterrupted wire) where
  -- The filters of a file, and its bytes.
  abbrev pub filters_of : ℕ → ℤ → ℕ → List Bytes
  filters_of index start n = map (best.filter index) (heights_from start n)

  -- The headers of all configurations in front of a height.
  abbrev pub headers_before : ℤ → List ℕ → List Hash
  headers_before k indices = map (λ index. best.before index k) indices

module _ {H : Type 0} (wire : Wire H) (laws : WireLaws wire)
    (entries_per_file headers_per_file limit : ℕ) (opens : FileName → Bool)
    (best : Uninterrupted wire) (small : limit < 2 ^ 64) where
  -- A configuration's filter file of a range can be read, and holds the filters of the chain.
  pub record HasFile (disk : Disk) (start : ℤ) (index : ℕ) : Type 0 where
    pub at :
        disk (custom_filter_file index start (start +ℤ pos entries_per_file -ℤ pos 1))
        ≡ some (concat (write_var_bytes wire) (filters_of wire best index start entries_per_file))
    pub opened :
        opens (custom_filter_file index start (start +ℤ pos entries_per_file -ℤ pos 1)) ≡ true
    pub fit :
        All (λ (f : Bytes). length f ≤ limit) (filters_of wire best index start entries_per_file)

  length-filters_of :
      (index : ℕ) (start : ℤ) (n : ℕ) → length (filters_of wire best index start n) ≡ n
  unfolding heights_from
  length-filters_of index start zero = refl
  length-filters_of index start (suc n) = ap suc (length-filters_of index (start +ℤ pos 1) n)

  abbrev add :
      ℕ
      → Bytes
      → Column wire entries_per_file headers_per_file limit opens
      → Column wire entries_per_file headers_per_file limit opens
  add = add_header wire entries_per_file headers_per_file limit opens

  add-next :
      (i : ℕ) (f : Bytes) (prev : Hash) (column : List Hash)
      → i < entries_per_file
      → add i f (prev, column) ≡ (next_header wire f prev, column ++ next_header wire f prev ∷ [])
  unfolding add_header
  add-next i f prev column lt =
      let under : leb entries_per_file i ≡ false = ground (arith, lt) in rw under

  on_each-add :
      (index : ℕ) (n : ℕ) (start : ℤ) (i : ℕ) (column : List Hash)
      → pos 0 ≤ℤ start
      → i + n ≤ entries_per_file
      → (on_each wire limit add i
          (filters_of wire best index start n)
          (best.before index start, column)).0
        ≡ best.before index (start +ℤ pos n)
  unfolding on_each heights_from
  on_each-add index zero start i column up fits = ap (best.before index) (omega int_laws)
  on_each-add index (suc n) start i column up fits =
      ap (λ c. (on_each wire limit add (i + 1) (filters_of wire best index (start +ℤ pos 1) n) c).0)
        (add-next i (best.filter index start) (best.before index start) column (omega (arith, fits))
          ∙ ap (λ h. (h, column ++ h ∷ [])) (sym (best.commits index start up)))
      ∙ on_each-add index n (start +ℤ pos 1) (i + 1)
          (column ++ best.before index (start +ℤ pos 1) ∷ []) (omega (int_laws, up))
          (omega (arith, fits))
      ∙ ap (best.before index) (omega int_laws)

  -- A file that is there and can be opened is read.
  pub read-found :
      (name : FileName) (disk : Disk) (found : Bytes)
      → opens name ≡ true
      → disk name ≡ some found
      → read wire entries_per_file headers_per_file limit opens name disk ≡ ok found
  read-found name disk found opened at = rw (opened, at) refl

  abbrev columns_of : ℤ → List ℕ → List (Column wire entries_per_file headers_per_file limit opens)
  columns_of start indices =
      map
        (λ index.
          on_each wire limit add 0 (filters_of wire best index start entries_per_file)
            (best.before index start, []))
        indices

  read_column-HasFile :
      (disk : Disk) (start : ℤ) (index : ℕ)
      → HasFile disk start index
      → read_column wire entries_per_file headers_per_file limit opens start disk index
          (best.before index start)
        ≡ ok (
            on_each wire limit add 0
              (filters_of wire best index start entries_per_file)
              (best.before index start, []))
  unfolding read_column read_filter_file
  read_column-HasFile disk start index has =
      let fs = filters_of wire best index start entries_per_file in
      let file = concat (write_var_bytes wire) fs in
      let count : 0 + length fs ≡ entries_per_file =
        omega (arith, length-filters_of index start entries_per_file) in
      let full : (0 + length fs == entries_per_file) ≡ true = ground (arith, count) in
      let ran : read_filter_file wire limit add file (best.before index start, [])
          ≡ (on_each wire limit add 0 fs (best.before index start, []), ok (0 + length fs)) =
        read_entries-concat wire limit add laws small fs (suc (length file)) 0
          (best.before index start, []) has.fit (omega arith) in
      let name = custom_filter_file index start (start +ℤ pos entries_per_file -ℤ pos 1) in
      ap
        (λ (r : Result Bytes). and_then r λ found.
          complete wire entries_per_file headers_per_file limit opens
            (read_filter_file wire limit add found (best.before index start, [])))
        (read-found name disk file has.opened has.at)
      ∙ ap (complete wire entries_per_file headers_per_file limit opens) ran
      ∙ rw full

  read_columns-HasFile :
      (disk : Disk) (start : ℤ) (indices : List ℕ)
      → All (HasFile disk start) indices
      → read_columns wire entries_per_file headers_per_file limit opens start disk indices
          (headers_before wire best start indices)
        ≡ ok (columns_of start indices)
  unfolding read_columns
  read_columns-HasFile disk start [] _ = refl
  read_columns-HasFile disk start (index ∷ rest) (h, hs) =
      rw (read_column-HasFile disk start index h, read_columns-HasFile disk start rest hs)

  last_headers-columns_of :
      (start : ℤ) (indices : List ℕ)
      → pos 0 ≤ℤ start
      → last_headers wire entries_per_file headers_per_file limit opens (columns_of start indices)
        ≡ headers_before wire best (start +ℤ pos entries_per_file) indices
  last_headers-columns_of start [] up = refl
  last_headers-columns_of start (index ∷ rest) up = rw (
    on_each-add index entries_per_file start 0 [] up (omega arith),
    last_headers-columns_of start rest up,
  )

  -- The files of `m` ranges from `start` on.
  abbrev pub HasFiles : Disk → ℤ → ℕ → Type 0
  HasFiles disk start m =
      (i : ℕ) → i < m → All (HasFile disk (start +ℤ pos (i * entries_per_file))) config_indices

  abbrev rebuild : ℕ → List Hash → ℤ → ℤ → M CustomFilterFiles (List Hash)
  rebuild = rebuild_filter_headers wire entries_per_file headers_per_file limit opens

  rebuild-over :
      (n : ℕ) (prev : List Hash) (start end : ℤ) (c : CustomFilterFiles)
      → end <ℤ start
      → rebuild (suc n) prev start end c ≡ (c, ok prev)
  unfolding rebuild_filter_headers
  rebuild-over n prev start end c lt = rw (rebuild_filter_headers, <ℤ→ltb_ℤ end start lt)

  rebuild-next :
      (n : ℕ) (start end : ℤ) (c : CustomFilterFiles)
      → pos 0 ≤ℤ start
      → start ≤ℤ end
      → All (HasFile c.disk start) config_indices
      → rebuild (suc n) (headers_before wire best start config_indices) start end c
        ≡ rebuild n
            (headers_before wire best (start +ℤ pos entries_per_file) config_indices)
            (start +ℤ pos entries_per_file)
            end
            (with_rows wire entries_per_file headers_per_file limit opens start
              (columns_of start config_indices)
              c)
  unfolding rebuild_filter_headers
  rebuild-next n start end c up le has =
      rw
        (
          rebuild_filter_headers,
          ≤ℤ→ltb_ℤ end start le,
          read_columns-HasFile c.disk start config_indices has,
        )
        (ap
          (λ prev. rebuild n prev (start +ℤ pos entries_per_file) end (
            with_rows wire entries_per_file headers_per_file limit opens start
              (columns_of start config_indices) c))
          (last_headers-columns_of start config_indices up))

  first_start : (start : ℤ) → start +ℤ pos (0 * entries_per_file) ≡ start
  first_start start = omega int_laws

  next_start :
      (start : ℤ) (i : ℕ)
      → start +ℤ pos (suc i * entries_per_file)
        ≡ start +ℤ pos entries_per_file +ℤ pos (i * entries_per_file)
  next_start start i = omega int_laws

  pub rebuild-HasFiles :
      (n m : ℕ) (start end : ℤ) (c : CustomFilterFiles)
      → 0 < entries_per_file
      → pos 0 ≤ℤ start
      → m < n
      → end +ℤ pos 1 ≡ start +ℤ pos (m * entries_per_file)
      → HasFiles c.disk start m
      → (rebuild n (headers_before wire best start config_indices) start end c).1
        ≡ ok (headers_before wire best (end +ℤ pos 1) config_indices)
  rebuild-HasFiles zero m start end c some_entries up fuel at has = absurd (omega arith)
  rebuild-HasFiles (suc n) zero start end c some_entries up fuel at has =
      ap (λ p. p.1)
        (rebuild-over n (headers_before wire best start config_indices) start end c
          (omega (int_laws, parts at)))
      ∙ ap (λ k. ok (headers_before wire best k config_indices)) (omega (int_laws, parts at))
  rebuild-HasFiles (suc n) (suc m) start end c some_entries up fuel at has =
      ap (λ p. p.1)
        (rebuild-next n start end c up (omega (int_laws, parts at, some_entries)) (
          subst (λ k. All (HasFile c.disk k) config_indices) (first_start start)
            (has 0 (omega arith))))
      ∙ rebuild-HasFiles n m (start +ℤ pos entries_per_file) end _ some_entries
          (omega (int_laws, up)) (omega (arith, fuel)) (omega (int_laws, parts at))
          (λ i lt.
            subst (λ k. All (HasFile c.disk k) config_indices) (next_start start i)
              (has (suc i) (omega (arith, lt))))
