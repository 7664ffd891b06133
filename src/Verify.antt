-- ===== src/Verify.antt =====
-- verify.go: the check of all sealed files against the backend, and their repair. This module has the
-- state of a run and what both walks share; the walks are in HeaderFiles and FilterFiles.
pub mod HeaderFiles
pub mod FilterFiles
pub mod Records
pub mod Repair
pub mod Stored
pub mod Kept
pub mod Untouched
pub mod HeaderWalks
pub mod FilterWalks
pub mod Running
pub mod Closure
use block_dn.Common.{
  ℕ, ◌+◌, ◌*◌, ◌%◌, ◌==◌, Bool, true, false, Option, none, some, List, [], ◌∷◌, ◌++◌, if◌then◌else◌,
  leb, length, take, drop,
}
use block_dn.Common.Int.{ℤ, pos, negsuc, pos_part, ◌+ℤ◌, ◌-ℤ◌, eqb_ℤ}
use block_dn.Common.Heights.{heights}
use block_dn.Common.Effect.{
  Result, ok, err, failed, io_failed, M, pure, raise, and_then, lift, ◌>>=◌, ◌>>◌, continue,
}
use block_dn.External.{Bytes, Hash, Chain, Wire, write_var_bytes}
use block_dn.Files.{FileName, Disk, put}
use block_dn.Headers.{filter_header_file}

-- What `badFiles` lists: a file, or a range in the memory of the running server.
pub data BadFile : Type 0 where
  file : FileName → BadFile
  memory_headers memory_filter_headers : ℤ → ℤ → BadFile

-- The state of `verifier`, with the disk that it repairs.
pub record Verifier : Type 0 where
  pub disk : Disk
  pub bad_files : List BadFile
  pub fixed_files : List FileName
  pub cache_start : ℤ
  pub cache : Bytes
  pub cache_from_memory : Bool

-- Its settings, without `fix`, which is an argument: `limit` is `wire.MaxBlockPayload`, and `genesis_hash` that of the network.
pub record Settings : Type 0 where
  pub headers_per_file : ℕ
  pub filters_per_file : ℕ
  pub re_org_safe_depth : ℤ
  pub genesis_hash : Hash
  pub limit : ℕ

pub data Route : Type 0 where
  headers_route filter_headers_route : Route

-- The file system and the running server: whether a file can be read, whether the steps of a repair
-- succeed (a temporary file, the write of each height, closing it, renaming it), and the status and
-- the body of a request.
pub record Surroundings : Type 0 where
  pub reads : FileName → Bool
  pub creates_temp : FileName → Bool
  pub writes : ℤ → Bool
  pub closes_temp : FileName → Bool
  pub renames : FileName → Bool
  pub http_get : Route → ℤ → Result (ℕ × Bytes)

-- `os.ReadFile`
pub data FileRead : Type 0 where
  contents : Bytes → FileRead
  missing unreadable : FileRead

abbrev pub read_found : Bool → Option Bytes → FileRead
read_found readable none = missing
read_found true (some data') = contents data'
read_found false (some data') = unreadable

abbrev pub read_file : Surroundings → FileName → Disk → FileRead
read_file env name disk = read_found (env.reads name) (disk name)

abbrev pub must_read : FileRead → Result Bytes
must_read (contents data') = ok data'
must_read missing = err io_failed
must_read unreadable = err io_failed

-- `fileExists`
abbrev pub file_exists : FileName → Disk → Bool
file_exists name disk = elim (disk name) [ none ↦ false | some data' ↦ true ]

unfoldable pub fetch_in_memory : Surroundings → Route → ℤ → Result Bytes
fetch_in_memory env route start =
    and_then (env.http_get route start) λ p. if p.0 == 200 then ok p.1 else err failed

-- The last height of the file that starts at `start`.
abbrev pub file_end : ℤ → ℕ → ℤ
file_end start per_file = start +ℤ pos per_file -ℤ pos 1

-- `data[offset : offset+size]` for the record of a height.
abbrev pub record_at : ℕ → Bytes → ℤ → ℤ → Bytes
record_at size data' start height = take size (drop (pos_part (height -ℤ start) * size) data')

module _ {H : Type 0} (wire : Wire H) (chain : Chain H) where
  unfoldable pub auth_filter_header : ℤ → Result Hash
  auth_filter_header height =
      and_then (chain.get_block_hash height)
        λ hash. and_then (chain.get_block_filter hash) λ filter. wire.hash_from_str filter.header

  -- What `writeHeaderRecord`, `writeFilterHeaderRecord` and `writeFilterRecord` write.
  unfoldable pub header_record : ℤ → Result Bytes
  header_record height =
      and_then (chain.get_block_hash height)
        λ hash. and_then (chain.get_block_header hash) λ header. ok (wire.serialize header)

  unfoldable pub filter_record : ℤ → Result Bytes
  filter_record height = and_then (chain.get_block_hash height) λ hash.
      and_then (chain.get_block_filter hash) λ filter.
        and_then (wire.decode_hex filter.filter)
          λ filter_bytes. ok (write_var_bytes wire filter_bytes)

-- The loop of `regenerate`: the records of the heights behind what is written so far.
unfoldable pub write_records : Surroundings → (ℤ → Result Bytes) → List ℤ → Bytes → Result Bytes
write_records env record_of [] out = ok out
write_records env record_of (height ∷ rest) out = and_then (record_of height) λ bytes.
    and_then (if env.writes height then ok tt else err io_failed)
      λ (u : Unit {0}). write_records env record_of rest (out ++ bytes)

abbrev pub must : Bool → Result (Unit {0})
must done = if done then ok tt else err io_failed

unfoldable pub regenerate :
    Surroundings → (ℤ → Result Bytes) → FileName → ℤ → ℤ → M Verifier (Unit {0})
regenerate env record_of name start end v =
    elim (and_then (must (env.creates_temp name)) λ u.
      and_then (write_records env record_of (heights start end) []) λ out.
        and_then (must (env.closes_temp name))
          λ u'. and_then (must (env.renames name)) λ u''. ok out) [
            | err e ↦ (v, err e)
            | ok out ↦ (
              record v { disk = put name out v.disk; fixed_files = v.fixed_files ++ name ∷ [] },
              ok tt,
            )
          ]

abbrev pub report : BadFile → Verifier → Verifier
report bad v = record v { bad_files = v.bad_files ++ bad ∷ [] }

-- `v.fHeaderCacheStart = -1`
abbrev pub forget : Verifier → Verifier
forget v = record v { cache_start = negsuc 0 }

module _ (cfg : Settings) (env : Surroundings) where
  abbrev pub fill_cache : ℤ → Bool → Bytes → Verifier → Verifier
  fill_cache start from_memory data' v = record v {
    cache_start = start;
    cache = data';
    cache_from_memory = from_memory;
  }

  unfoldable pub load_filter_headers : ℤ → M Verifier (Unit {0})
  load_filter_headers start v =
      elim (read_file env (filter_header_file start (file_end start cfg.headers_per_file)) v.disk) [
        | contents data' ↦ (fill_cache start false data' v, ok tt)
        | missing ↦ elim (fetch_in_memory env filter_headers_route start) [
          | ok data' ↦ (fill_cache start true data' v, ok tt)
          | err e ↦ (v, err e)
        ]
        | unreadable ↦ (v, err io_failed)
      ]

  unfoldable pub ensure_loaded : ℤ → M Verifier (Unit {0})
  ensure_loaded start v =
      if eqb_ℤ v.cache_start start then (v, ok tt) else load_filter_headers start v

  -- The entry of a height in the cached range that starts at `start`.
  unfoldable pub cached_entry : ℤ → ℤ → Bytes → Option Hash
  cached_entry start height data' =
      if leb (pos_part (height -ℤ start) * 32 + 32) (length data')
      then some (record_at 32 data' start height)
      else none

  -- `v.headersPerFile`-aligned start of the range of a height, 0 or above.
  abbrev pub range_start : ℤ → ℤ
  range_start height = height -ℤ pos (pos_part height % cfg.headers_per_file)

  -- The second round of the loop of `storedFilterHeader`.
  unfoldable pub second_attempt : ℤ → M Verifier Hash
  second_attempt height = ensure_loaded (range_start height) >> λ v.
      elim (cached_entry (range_start height) height v.cache) [
        | some hash ↦ (v, ok hash)
        | none ↦ (v, err failed)
      ]

  -- Only what came from memory is fetched again.
  unfoldable pub refresh_if : Bool → ℤ → M Verifier Hash
  refresh_if true height v = second_attempt height (forget v)
  refresh_if false height v = (v, err failed)

  unfoldable pub stored_filter_header : ℤ → M Verifier Hash
  stored_filter_header height = ensure_loaded (range_start height) >> λ v.
      elim (cached_entry (range_start height) height v.cache) [
        | some hash ↦ (v, ok hash)
        | none ↦ refresh_if v.cache_from_memory height v
      ]
