-- ===== src/Headers.antt =====
-- header-files.go: the producer of block headers and filter headers. `H` is `wire.BlockHeader`.
pub mod Verify
pub mod Accept
pub mod Seal
pub mod Laws
use block_dn.Common.{
  ℕ, suc, ◌+◌, ◌*◌, Bool, true, false, not, ◌&&◌, Option, none, some, List, [], ◌∷◌, ◌++◌,
  if◌then◌else◌, bytes_eq,
}
use block_dn.Common.Int.{ℤ, pos, pos_part, ◌+ℤ◌, ◌-ℤ◌, ltb_ℤ}
use block_dn.Common.Heights.{HeightMap, heights, insert, delete_all}
use block_dn.Common.Effect.{
  Result, ok, err, Err, missing_entry, unlinked, not_anchored, M, pure, raise, lift, ◌>>=◌, ◌>>◌,
  continue, gets, modify, and_then,
}
use mathlib.Core.Option
use block_dn.External.{Bytes, Hash, zero_hash, Chain, Wire}
use block_dn.Cache.{H2HCache, get_block_hash}
use block_dn.Files.{FileName, FileKind, Disk, Io, write, create_and_write}
use block_dn.Entries.{serialize_entries}
use block_dn.Producer.{Shared, Hooks, on_cache, on_own}

pub record HeaderFiles (H : Type 0) : Type 0 where
  pub headers : HeightMap H
  pub filter_headers : HeightMap Hash
  pub disk : Disk

abbrev pub header_file : ℤ → ℤ → FileName
header_file first last = record { kind = FileKind.headers; first = first; last = last }

abbrev pub filter_header_file : ℤ → ℤ → FileName
filter_header_file first last = record {
  kind = FileKind.filter_headers;
  first = first;
  last = last;
}

module _ {H : Type 0} (wire : Wire H) where
  -- `serializeHeadersLocked`
  unfoldable pub serialize_headers : HeightMap H → ℤ → ℤ → M Bytes (Unit {0})
  serialize_headers headers start end = serialize_entries wire.serialize headers (heights start end)

  -- `serializeFilterHeadersLocked`: the bytes of each hash. (A write to memory is never short.)
  unfoldable pub serialize_filter_headers : HeightMap Hash → ℤ → ℤ → M Bytes (Unit {0})
  serialize_filter_headers filter_headers start end =
      serialize_entries (λ hash. hash) filter_headers (heights start end)

  -- `headersSize` and `filterHeadersSize`: `none` is the result `(0, false)`.
  unfoldable pub headers_size : ℤ → ℤ → Option ℕ
  headers_size start end =
      if ltb_ℤ end start then none else some (pos_part (end -ℤ start +ℤ pos 1) * 80)

  unfoldable pub filter_headers_size : ℤ → ℤ → Option ℕ
  filter_headers_size start end =
      if ltb_ℤ end start then none else some (pos_part (end -ℤ start +ℤ pos 1) * 32)

  -- What `ingest` stores under the write lock.
  abbrev pub store : ℤ → H → Hash → Shared (HeaderFiles H) → Shared (HeaderFiles H)
  store height header filter_header s = record s {
    own = record s.own {
      headers = insert height header s.own.headers;
      filter_headers = insert height filter_header s.own.filter_headers;
    };
  }

  unfoldable pub ingest : Chain H → ℤ → M (Shared (HeaderFiles H)) (Unit {0})
  ingest chain height = do
    hash ← on_cache (get_block_hash chain height)
    header ← lift (chain.get_block_header hash)
    filter ← lift (chain.get_block_filter hash)
    filter_header ← lift (wire.hash_from_str filter.header)
    modify (store height header filter_header)

  -- The loop of `verifyHeaders` over the heights that are left; `running` is the hash of the last
  -- header.
  unfoldable pub verify_loop : HeightMap H → ℤ → List ℤ → Hash → Result Hash
  verify_loop headers file_start [] running = ok running
  verify_loop headers file_start (height ∷ rest) running = elim (headers height) [
    | none ↦ err missing_entry
    | some header ↦
        elim (ltb_ℤ file_start height && not (bytes_eq (wire.prev_block header) running)) [
          | true ↦ err unlinked
          | false ↦ verify_loop headers file_start rest (wire.block_hash header)
        ]
  ]

  abbrev anchored : Hash → Hash → Result (Unit {0})
  anchored end_hash running = if bytes_eq running end_hash then ok tt else err not_anchored

  unfoldable pub verify_headers : Chain H → HeightMap H → ℤ → ℤ → Result (Unit {0})
  verify_headers chain headers file_start file_end =
      and_then (chain.get_block_hash file_end) λ end_hash.
        and_then (verify_loop headers file_start (heights file_start file_end) zero_hash)
          (anchored end_hash)

  -- `writeHeaders` and `writeFilterHeaders`
  unfoldable pub write_headers : Io → ℤ → ℤ → M (HeaderFiles H) (Unit {0})
  write_headers io start end h =
      let (disk, r) =
        create_and_write io (header_file start end) (serialize_headers h.headers start end)
          h.disk in
      (record h { disk = disk }, r)

  unfoldable pub write_filter_headers : Io → ℤ → ℤ → M (HeaderFiles H) (Unit {0})
  write_filter_headers io start end h =
      let (disk, r) =
        create_and_write io (filter_header_file start end)
          (serialize_filter_headers h.filter_headers start end) h.disk in
      (record h { disk = disk }, r)

  unfoldable pub write_sealed_file : Io → Chain H → ℤ → ℤ → M (HeaderFiles H) (Unit {0})
  write_sealed_file io chain file_start file_end h =
      continue (h, verify_headers chain h.headers file_start file_end)
        λ _. write_headers io file_start file_end >> write_filter_headers io file_start file_end

  unfoldable pub prune_locked : ℤ → ℤ → HeaderFiles H → HeaderFiles H
  prune_locked start end h = record h {
    headers = delete_all (heights start end) h.headers;
    filter_headers = delete_all (heights start end) h.filter_headers;
  }

  unfoldable pub cached_hash : ℤ → HeaderFiles H → Option Hash
  cached_hash height h = Option.map wire.block_hash (h.headers height)

  unfoldable pub filter_header_at_height : ℤ → HeaderFiles H → Option Hash
  filter_header_at_height height h = h.filter_headers height

  -- The hooks that `newHeaderFiles` installs.
  unfoldable pub header_hooks : Io → Hooks H (HeaderFiles H)
  header_hooks io = record {
    ingest = ingest;
    write_sealed_file = λ chain start end. on_own (write_sealed_file io chain start end);
    prune_locked = prune_locked;
    cached_hash = cached_hash;
    after_catch_up = none;
  }
