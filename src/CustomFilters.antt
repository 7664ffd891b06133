-- ===== src/CustomFilters.antt =====
-- custom-filter-files.go: the producer of filters that are restricted to some output types. A row is
-- what a height has for each configuration, in the order of the configurations.
pub mod Building
pub mod Rebuild
pub mod Resume
pub mod Order
use block_dn.Common.{
  ℕ, zero, suc, ◌+◌, ◌-◌, ◌*◌, ◌/◌, ◌%◌, ◌==◌, Bool, true, false, Option, none, some, List, [], ◌∷◌,
  ◌++◌, if◌then◌else◌, leb, length, map, get_or, drop, replicate,
}
use block_dn.Common.Int.{ℤ, pos, pos_part, ◌+ℤ◌, ◌-ℤ◌, eqb_ℤ, ltb_ℤ}
use block_dn.Common.Heights.{HeightMap, heights, insert, delete_all}
use block_dn.Common.Effect.{
  Result, ok, err, failed, io_failed, exhausted, M, pure, raise, and_then, lift, ◌>>=◌, ◌>>◌,
  continue, gets, modify,
}
use block_dn.External.{Bytes, Hash, zero_hash, Chain, Wire, write_var_bytes}
use block_dn.Files.{FileName, FileKind, Disk, Io, create_and_write}
use block_dn.Entries.{serialize_entries, entries_size}
use block_dn.CFilters.{next_header}
use block_dn.CFilters.Read.{read_filter_file}

pub record CustomFilterFiles : Type 0 where
  pub filters : HeightMap (List Bytes)
  pub filter_headers : HeightMap (List Hash)
  pub height_to_hash : HeightMap Hash
  pub disk : Disk

-- The indices of the configurations: segwit, p2wpkh, p2wsh and p2tr.
abbrev pub config_indices : List ℕ
config_indices = 0 ∷ 1 ∷ 2 ∷ 3 ∷ []

abbrev pub custom_filter_file : ℕ → ℤ → ℤ → FileName
custom_filter_file index first last = record {
  kind = FileKind.custom_filters index;
  first = first;
  last = last;
}

abbrev pub custom_header_file : ℕ → ℤ → ℤ → FileName
custom_header_file index first last = record {
  kind = FileKind.custom_filter_headers index;
  first = first;
  last = last;
}

-- A producer with `entries_per_file` filters and `headers_per_file` filter headers per file. `limit` is
-- `wire.MaxMessagePayload`, and `opens` says which files can be read.
module _ {H : Type 0} (wire : Wire H) (entries_per_file headers_per_file limit : ℕ)
    (opens : FileName → Bool) where
  abbrev pub read_found : Bool → Option Bytes → Result Bytes
  read_found readable none = err io_failed
  read_found true (some found) = ok found
  read_found false (some found) = err io_failed

  abbrev pub read : FileName → Disk → Result Bytes
  read name disk = read_found (opens name) (disk name)

  -- One round of `readHeaderFileAnchor`.
  unfoldable pub read_anchor : ℤ → Disk → ℕ → Result Hash
  read_anchor height disk index =
      and_then
        (read (custom_header_file index (height +ℤ pos 1 -ℤ pos headers_per_file) height) disk)
        λ found.
          if length found == headers_per_file * 32
          then ok (drop (length found - 32) found)
          else err failed

  unfoldable pub read_anchors : ℤ → Disk → List ℕ → Result (List Hash)
  read_anchors height disk [] = ok []
  read_anchors height disk (index ∷ rest) =
      and_then (read_anchor height disk index)
        λ hash. and_then (read_anchors height disk rest) λ hashes. ok (hash ∷ hashes)

  unfoldable pub read_header_file_anchor : ℤ → Disk → Result (List Hash)
  read_header_file_anchor height disk = read_anchors height disk config_indices

  -- The headers of one configuration over a file, and the last of them: the callback of
  -- `rebuildFilterHeaders` adds the next one, if the file should have it.
  abbrev pub Column : Type 0
  Column = Hash × List Hash

  unfoldable pub add_header : ℕ → Bytes → Column → Column
  add_header index filter (prev, column) =
      if leb entries_per_file index
      then (prev, column)
      else (next_header wire filter prev, column ++ next_header wire filter prev ∷ [])

  abbrev pub complete : Column × Result ℕ → Result Column
  complete (column, err e) = err e
  complete (column, ok count) = if count == entries_per_file then ok column else err failed

  unfoldable pub read_column : ℤ → Disk → ℕ → Hash → Result Column
  read_column file_start disk index prev =
      and_then
        (read (custom_filter_file index file_start (file_start +ℤ pos entries_per_file -ℤ pos 1))
          disk)
        λ found. complete (read_filter_file wire limit add_header found (prev, []))

  unfoldable pub read_columns : ℤ → Disk → List ℕ → List Hash → Result (List Column)
  read_columns file_start disk (index ∷ rest) (prev ∷ prevs) =
      and_then (read_column file_start disk index prev) λ column.
        and_then (read_columns file_start disk rest prevs) λ columns. ok (column ∷ columns)
  read_columns file_start disk _ _ = ok []

  -- The row of entry `r` of a file.
  abbrev pub row : List Column → ℕ → List Hash
  row columns r = map (λ (c : Column). get_or c.1 r zero_hash) columns

  -- `for r, headers := range rows`, with the number of rows that are left.
  unfoldable pub store_rows :
      ℤ → List Column → ℕ → ℕ → HeightMap (List Hash) → HeightMap (List Hash)
  store_rows file_start columns zero r m = m
  store_rows file_start columns (suc n) r m =
      store_rows file_start columns n (suc r) (insert (file_start +ℤ pos r) (row columns r) m)

  abbrev pub last_headers : List Column → List Hash
  last_headers columns = map (λ (c : Column). c.0) columns

  abbrev pub with_rows : ℤ → List Column → CustomFilterFiles → CustomFilterFiles
  with_rows file_start columns c = record c {
    filter_headers = store_rows file_start columns entries_per_file 0 c.filter_headers;
  }

  -- The loop of `rebuildFilterHeaders` on fuel, from the file that starts at `file_start` on.
  unfoldable pub rebuild_filter_headers : ℕ → List Hash → ℤ → ℤ → M CustomFilterFiles (List Hash)
  rebuild_filter_headers zero prev file_start end c = (c, err exhausted)
  rebuild_filter_headers (suc n) prev file_start end c = elim (ltb_ℤ end file_start) [
    | true ↦ (c, ok prev)
    | false ↦ elim (read_columns file_start c.disk config_indices prev) [
      | err e ↦ (c, err e)
      | ok columns ↦
          rebuild_filter_headers n (last_headers columns) (file_start +ℤ pos entries_per_file) end
            (with_rows file_start columns c)
    ]
  ]

  abbrev pub no_headers : List Hash
  no_headers = replicate 4 zero_hash

  -- The number of heights that the header files below a height cover.
  abbrev pub anchor_count : ℕ → ℕ
  anchor_count height = height / headers_per_file * headers_per_file

  abbrev pub anchor_headers : ℕ → Disk → Result (List Hash)
  anchor_headers zero disk = ok no_headers
  anchor_headers (suc n) disk = read_header_file_anchor (pos (suc n) -ℤ pos 1) disk

  -- The loop gets one round more than there are heights to rebuild.
  unfoldable pub resume_filter_headers : ℕ → M CustomFilterFiles (List Hash)
  resume_filter_headers height c = elim (anchor_headers (anchor_count height) c.disk) [
    | err e ↦ (c, err e)
    | ok prev ↦
        if anchor_count height == height
        then (c, ok prev)
        else rebuild_filter_headers (suc (height - anchor_count height)) prev
            (pos (anchor_count height)) (pos height -ℤ pos 1) c
  ]

  -- Heights are not negative.
  unfoldable pub prev_filter_headers : ℤ → M CustomFilterFiles (List Hash)
  prev_filter_headers height c =
      if eqb_ℤ height (pos 0)
      then (c, ok no_headers)
      else elim (c.filter_headers (height -ℤ pos 1)) [
        | some headers ↦ (c, ok headers)
        | none ↦ resume_filter_headers (pos_part height) c
      ]
