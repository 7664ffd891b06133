-- ===== src/CustomFilters/Building.antt =====
-- custom-filter-files.go: building the filters of a block, the files of a range, and the hooks.
use block_dn.Common.{
  ℕ, zero, suc, ◌+◌, ◌*◌, ◌%◌, ◌==◌, ◌||◌, not, Bool, true, false, Option, none, some, List, [],
  ◌∷◌, ◌++◌, if◌then◌else◌, length, get_or,
}
use block_dn.Common.Int.{ℤ, pos, pos_part, ◌+ℤ◌, ◌-ℤ◌, ltb_ℤ}
use block_dn.Common.Heights.{HeightMap, heights, insert, delete_all}
use block_dn.Common.Effect.{
  Result, ok, err, failed, io_failed, M, pure, raise, and_then, lift, ◌>>=◌, ◌>>◌, modify,
}
use block_dn.External.{Bytes, Hash, zero_hash, Chain, Wire, write_var_bytes}
use block_dn.Cache.{get_block_hash}
use block_dn.Files.{FileName, Disk, Io, create_and_write}
use block_dn.Entries.{serialize_entries, entries_size}
use block_dn.CFilters.{next_header}
use block_dn.SpTweaks.{Block}
use block_dn.Producer.{Shared, Hooks, on_cache, on_own}
use block_dn.CustomFilters.{
  CustomFilterFiles, config_indices, custom_filter_file, custom_header_file, prev_filter_headers,
}

-- What comes from btcd: the output scripts of a transaction, the script templates, and the filter
-- builder. `spent_scripts` lists the scripts of a block's map in the order in which Go visits them.
pub record Building (T O G : Type 0) : Type 0 where
  pub out_scripts : T → List Bytes
  pub spent_scripts : Block T O → List Bytes
  pub is_pay_to_witness_pub_key_hash : Bytes → Bool
  pub is_pay_to_witness_script_hash : Bytes → Bool
  pub is_pay_to_taproot : Bytes → Bool
  pub build : Hash → List Bytes → Result G
  pub n_bytes : G → Result Bytes

-- `scriptTypes`, as the single bits that `classifyScript` returns; `none` is its zero.
pub data ScriptType : Type 0 where
  p2wpkh p2wsh p2tr : ScriptType

-- The types that a configuration includes, by its index.
abbrev pub includes : ℕ → ScriptType → Bool
includes zero t = true
includes (suc zero) p2wpkh = true
includes (suc (suc zero)) p2wsh = true
includes (suc (suc (suc zero))) p2tr = true
includes index t = false

module _ {T O G : Type 0} (b : Building T O G) where
  unfoldable pub classify_script : Bytes → Option ScriptType
  classify_script script =
      if b.is_pay_to_witness_pub_key_hash script
      then some p2wpkh
      else if b.is_pay_to_witness_script_hash script
      then some p2wsh
      else if b.is_pay_to_taproot script
      then some p2tr
      else none

  abbrev pub is_included : ℕ → Option ScriptType → Bool
  is_included index none = false
  is_included index (some t) = includes index t

  -- The entries that one builder gets.
  unfoldable pub entries_of : ℕ → List Bytes → List Bytes
  entries_of index [] = []
  entries_of index (script ∷ scripts) =
      (if is_included index (classify_script script) then script ∷ [] else [])
      ++ entries_of index scripts

  abbrev pub all_out_scripts : List T → List Bytes
  all_out_scripts [] = []
  all_out_scripts (tx ∷ txs) = b.out_scripts tx ++ all_out_scripts txs

  unfoldable pub build_each : Hash → List Bytes → List ℕ → Result (List G)
  build_each hash scripts [] = ok []
  build_each hash scripts (index ∷ rest) =
      and_then (b.build hash (entries_of index scripts))
        λ filter. and_then (build_each hash scripts rest) λ filters. ok (filter ∷ filters)

  unfoldable pub build_custom_filters : Hash → Block T O → Result (List G)
  build_custom_filters hash block =
      build_each hash (all_out_scripts block.txs ++ b.spent_scripts block) config_indices

  -- The bytes of each filter.
  unfoldable pub all_bytes : List G → Result (List Bytes)
  all_bytes [] = ok []
  all_bytes (filter ∷ filters) =
      and_then (b.n_bytes filter) λ bytes. and_then (all_bytes filters) λ rest. ok (bytes ∷ rest)

module _ {H : Type 0} (wire : Wire H) (entries_per_file headers_per_file limit : ℕ)
    (opens : FileName → Bool) where
  -- Each filter's header, chained onto the header of the same configuration.
  unfoldable pub next_headers : List Bytes → List Hash → List Hash
  next_headers (filter ∷ filters) (prev ∷ prevs) =
      next_header wire filter prev ∷ next_headers filters prevs
  next_headers _ _ = []

  -- What `ingest` stores under the write lock.
  abbrev pub store_row :
      ℤ → Hash → List Bytes → List Hash → Shared CustomFilterFiles → Shared CustomFilterFiles
  store_row height hash serialized prev_headers s = record s {
    own = record s.own {
      filters = insert height serialized s.own.filters;
      filter_headers = insert height (next_headers serialized prev_headers) s.own.filter_headers;
      height_to_hash = insert height hash s.own.height_to_hash;
    };
  }

  -- `ingest`; `fetch` is `blockFetcher.fetchBlock`. The statistics are left out.
  unfoldable pub ingest :
      {T O G : Type 0}
      → Building T O G
      → (ℤ → Hash → Result (Block T O))
      → Chain H
      → ℤ
      → M (Shared CustomFilterFiles) (Unit {0})
  ingest b fetch chain height = do
    hash ← on_cache (get_block_hash chain height)
    prev_headers ←
        on_own (prev_filter_headers wire entries_per_file headers_per_file limit opens height)
    block ← lift (fetch height hash)
    filters ← lift (build_custom_filters b hash block)
    serialized ← lift (all_bytes b filters)
    modify (store_row height hash serialized prev_headers)

  unfoldable pub serialize_filters : HeightMap (List Bytes) → ℕ → ℤ → ℤ → M Bytes (Unit {0})
  serialize_filters filters index start end =
      serialize_entries (λ (r : List Bytes). write_var_bytes wire (get_or r index [])) filters
        (heights start end)

  unfoldable pub serialize_filter_headers : HeightMap (List Hash) → ℕ → ℤ → ℤ → M Bytes (Unit {0})
  serialize_filter_headers filter_headers index start end =
      serialize_entries (λ (r : List Hash). get_or r index zero_hash) filter_headers
        (heights start end)

  abbrev pub filter_size : Bytes → ℕ
  filter_size filter = wire.var_int_size (length filter) + length filter

  unfoldable pub filters_size : HeightMap (List Bytes) → ℕ → ℤ → ℤ → Option ℕ
  filters_size filters index start end =
      entries_size (λ (r : List Bytes). filter_size (get_or r index [])) filters (heights start end)
        0

  unfoldable pub filter_headers_size : ℤ → ℤ → Option ℕ
  filter_headers_size start end =
      if ltb_ℤ end start then none else some (pos_part (end -ℤ start +ℤ pos 1) * 32)

  -- The loops over the configurations.
  unfoldable pub write_header_files :
      Io → HeightMap (List Hash) → ℤ → ℤ → List ℕ → M Disk (Unit {0})
  write_header_files io filter_headers start end [] = pure tt
  write_header_files io filter_headers start end (index ∷ rest) =
      create_and_write io (custom_header_file index start end)
        (serialize_filter_headers filter_headers index start end)
      >> write_header_files io filter_headers start end rest

  unfoldable pub write_filter_files :
      Io → HeightMap (List Bytes) → ℤ → ℤ → List ℕ → M Disk (Unit {0})
  write_filter_files io filters start end [] = pure tt
  write_filter_files io filters start end (index ∷ rest) =
      create_and_write io (custom_filter_file index start end)
        (serialize_filters filters index start end)
      >> write_filter_files io filters start end rest

  abbrev pub prune_headers :
      ℤ → ℤ → CustomFilterFiles × Result (Unit {0}) → CustomFilterFiles × Result (Unit {0})
  prune_headers start end (c, err e) = (c, err e)
  prune_headers start end (c, ok u) =
      (record c { filter_headers = delete_all (heights start end) c.filter_headers }, ok tt)

  unfoldable pub write_filter_header_files : Io → ℤ → M CustomFilterFiles (Unit {0})
  write_filter_header_files io file_end c =
      let start = file_end +ℤ pos 1 -ℤ pos headers_per_file in
      let (disk, r) = write_header_files io c.filter_headers start file_end config_indices c.disk in
      prune_headers start file_end (record c { disk = disk }, r)

  -- `slices.Backward(customFilterConfigs)`
  abbrev pub backward : List ℕ
  backward = 3 ∷ 2 ∷ 1 ∷ 0 ∷ []

  unfoldable pub write_filters : Io → ℤ → ℤ → M CustomFilterFiles (Unit {0})
  write_filters io file_start file_end c =
      let (disk, r) = write_filter_files io c.filters file_start file_end backward c.disk in
      (record c { disk = disk }, r)

  abbrev pub ends_header_file : ℤ → Bool
  ends_header_file file_end = pos_part (file_end +ℤ pos 1) % headers_per_file == 0

  unfoldable pub write_sealed_file : Io → ℤ → ℤ → M CustomFilterFiles (Unit {0})
  write_sealed_file io file_start file_end =
      (if ends_header_file file_end then write_filter_header_files io file_end else pure tt)
      >> write_filters io file_start file_end

unfoldable pub prune_locked : ℤ → ℤ → CustomFilterFiles → CustomFilterFiles
prune_locked start end c = record c {
  filters = delete_all (heights start end) c.filters;
  height_to_hash = delete_all (heights start end) c.height_to_hash;
}

unfoldable pub cached_hash : ℤ → CustomFilterFiles → Option Hash
cached_hash height c = c.height_to_hash height

-- The hooks that `newCustomFilterFiles` installs.
unfoldable pub custom_filter_hooks :
    {H T O G : Type 0}
    → Wire H
    → ℕ
    → ℕ
    → ℕ
    → (FileName → Bool)
    → Building T O G
    → (ℤ → Hash → Result (Block T O))
    → Io
    → Hooks H CustomFilterFiles
custom_filter_hooks wire entries_per_file headers_per_file limit opens b fetch io = record {
  ingest = ingest wire entries_per_file headers_per_file limit opens b fetch;
  write_sealed_file = λ chain start end.
      on_own (write_sealed_file wire entries_per_file headers_per_file limit opens io start end);
  prune_locked = prune_locked;
  cached_hash = cached_hash;
  after_catch_up = none;
}

-- `updateFiles`, which shadows that of the base, `update`; `makes` says whether the directories can be
-- made.
unfoldable pub update_custom_files : {S : Type 0} → ℕ → ℕ → Bool → M S (Unit {0}) → M S (Unit {0})
update_custom_files entries_per_file headers_per_file makes update =
    if headers_per_file == 0 || not (headers_per_file % entries_per_file == 0)
    then raise failed
    else if makes
    then update
    else raise io_failed
