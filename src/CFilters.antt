-- ===== src/CFilters.antt =====
-- cfilter-files.go: the producer of compact filters.
pub mod Backend
pub mod Verify
pub mod Laws
pub mod Read
use block_dn.Common.{
  ℕ, ◌+◌, ◌==◌, Bool, true, false, Option, none, some, List, [], ◌∷◌, ◌++◌, length, if◌then◌else◌,
  bytes_eq,
}
use block_dn.Common.Int.{ℤ, pos, ◌+ℤ◌, ◌-ℤ◌, ltb_ℤ}
use block_dn.Common.Heights.{HeightMap, heights, insert, delete_all}
use block_dn.Common.Effect.{
  Result, ok, err, missing_entry, not_anchored, M, pure, lift, ◌>>=◌, ◌>>◌, continue, gets, modify,
}
use block_dn.External.{Bytes, Hash, zero_hash, Chain, Wire, write_var_bytes}
use block_dn.Cache.{get_block_hash}
use block_dn.Files.{FileName, FileKind, Disk, Io, create_and_write}
use block_dn.Entries.{serialize_entries, entries_size}
use block_dn.Producer.{Shared, Hooks, on_cache, on_own}

pub record CFilterFiles : Type 0 where
  pub filters : HeightMap Bytes
  pub height_to_hash : HeightMap Hash
  pub disk : Disk

abbrev pub filter_file : ℤ → ℤ → FileName
filter_file first last = record { kind = FileKind.filters; first = first; last = last }

-- `if prevHeader != *wantEnd`
abbrev pub closes_at : Hash → Hash → Result (Unit {0})
closes_at want last = if bytes_eq last want then ok tt else err not_anchored

module _ {H : Type 0} (wire : Wire H) where
  -- One link of the BIP157 commitment chain: the filter header of a filter and the one before it.
  unfoldable pub next_header : Bytes → Hash → Hash
  next_header filter before = wire.double_hash (wire.double_hash filter ++ before)

  -- What `ingest` stores under the write lock.
  abbrev pub store_filter : ℤ → Bytes → Hash → Shared CFilterFiles → Shared CFilterFiles
  store_filter height filter hash s = record s {
    own = record s.own {
      filters = insert height filter s.own.filters;
      height_to_hash = insert height hash s.own.height_to_hash;
    };
  }

  unfoldable pub ingest : Chain H → ℤ → M (Shared CFilterFiles) (Unit {0})
  ingest chain height = do
    hash ← on_cache (get_block_hash chain height)
    filter ← lift (chain.get_block_filter hash)
    filter_bytes ← lift (wire.decode_hex filter.filter)
    modify (store_filter height filter_bytes hash)

  -- `authHeader`
  unfoldable pub auth_header : Chain H → ℤ → M (Shared CFilterFiles) Hash
  auth_header chain height = do
    hash ← on_cache (get_block_hash chain height)
    filter ← lift (chain.get_block_filter hash)
    lift (wire.hash_from_str filter.header)

  -- The filter header that the range starts from.
  unfoldable pub start_header : Chain H → ℤ → M (Shared CFilterFiles) Hash
  start_header chain file_start =
      if ltb_ℤ (pos 0) file_start then auth_header chain (file_start -ℤ pos 1) else pure zero_hash

  -- The loop of `verifyFilters`, over the heights that are left.
  unfoldable pub filter_chain : HeightMap Bytes → List ℤ → Hash → Result Hash
  filter_chain filters [] prev_header = ok prev_header
  filter_chain filters (height ∷ rest) prev_header = elim (filters height) [
    | none ↦ err missing_entry
    | some filter ↦ filter_chain filters rest (next_header filter prev_header)
  ]

  unfoldable pub verify_filters : Chain H → ℤ → ℤ → M (Shared CFilterFiles) (Unit {0})
  verify_filters chain file_start file_end = do
    prev_header ← start_header chain file_start
    want_end ← auth_header chain file_end
    filters ← gets (λ s. s.own.filters)
    last ← lift (filter_chain filters (heights file_start file_end) prev_header)
    lift (closes_at want_end last)

  -- `serializeFiltersLocked`
  unfoldable pub serialize_filters : HeightMap Bytes → ℤ → ℤ → M Bytes (Unit {0})
  serialize_filters filters start end =
      serialize_entries (write_var_bytes wire) filters (heights start end)

  -- The size of a filter with its length in front.
  abbrev pub filter_size : Bytes → ℕ
  filter_size filter = wire.var_int_size (length filter) + length filter

  unfoldable pub filters_size : HeightMap Bytes → ℤ → ℤ → Option ℕ
  filters_size filters start end = entries_size filter_size filters (heights start end) 0

  unfoldable pub write_filters : Io → ℤ → ℤ → M CFilterFiles (Unit {0})
  write_filters io start end c =
      let (disk, r) =
        create_and_write io (filter_file start end) (serialize_filters c.filters start end)
          c.disk in
      (record c { disk = disk }, r)

  unfoldable pub write_sealed_file : Io → Chain H → ℤ → ℤ → M (Shared CFilterFiles) (Unit {0})
  write_sealed_file io chain file_start file_end =
      verify_filters chain file_start file_end >> on_own (write_filters io file_start file_end)

unfoldable pub prune_locked : ℤ → ℤ → CFilterFiles → CFilterFiles
prune_locked start end c = record c {
  filters = delete_all (heights start end) c.filters;
  height_to_hash = delete_all (heights start end) c.height_to_hash;
}

unfoldable pub cached_hash : ℤ → CFilterFiles → Option Hash
cached_hash height c = c.height_to_hash height

unfoldable pub filter_at_height : ℤ → CFilterFiles → Option Bytes
filter_at_height height c = c.filters height

-- The hooks that `newCFilterFiles` installs.
unfoldable pub cfilter_hooks : {H : Type 0} → Wire H → Io → Hooks H CFilterFiles
cfilter_hooks wire io = record {
  ingest = ingest wire;
  write_sealed_file = write_sealed_file wire io;
  prune_locked = prune_locked;
  cached_hash = cached_hash;
  after_catch_up = none;
}
