-- ===== src/Serving.antt =====
-- handlers.go: what is served for a range of heights, from files or from memory.
pub mod Outcomes
pub mod Ranges
pub mod Import
pub mod Stream
use block_dn.Common.{
  ℕ, zero, suc, ◌+◌, ◌-◌, ◌*◌, ◌%◌, ◌^◌, ◌==◌, Bool, true, false, not, ◌&&◌, ◌||◌, Option, none,
  some, List, [], ◌∷◌, ◌++◌, if◌then◌else◌, ltb, leb, length,
}
use block_dn.Common.Int.{ℤ, pos, negsuc, pos_part, neg_part, ◌+ℤ◌, ◌-ℤ◌, ltb_ℤ, leb_ℤ, eqb_ℤ}
use block_dn.Common.Effect.{
  Result, ok, err, Err, blocked, failed, M, pure, raise, ◌>>=◌, ◌>>◌, continue, modify, and_then,
}
use block_dn.External.{Bytes, Hash, Chain}
use block_dn.Cache.{H2HCache, r_lock, r_unlock, get_block_hash}
use block_dn.Files.{FileName}
use block_dn.Responses.{FileServer, Asked, serve_file}
pub use block_dn.Responses.{
  Tier, no_header, no_cache, max_age_temporary, max_age_memory, max_age_disk, ContentType, unset,
  text_html, application_json, octet_stream, Response,
}
unfoldable pub use block_dn.Responses.{send_error}
use block_dn.SpTweaks.{little_endian, to_uint}

-- `int32` of an `int64`.
abbrev pub to_int32 : ℤ → ℤ
to_int32 h =
    if ltb (to_uint 32 h) (2 ^ 31) then pos (to_uint 32 h) else pos (to_uint 32 h) -ℤ pos (2 ^ 32)

-- `blockProcessor`
pub record Processor : Type 0 where
  pub is_startup_complete : Bool
  pub current_height : ℤ
  pub last_sealed_height : ℤ

-- What a route serves: the names of its files, the entries of a file, and the callbacks.
pub record Route : Type 0 where
  pub file_name : ℤ → ℤ → FileName
  pub entries_per_file : ℕ
  pub serialize : ℤ → ℤ → M Bytes (Unit {0})
  pub size : ℤ → ℤ → Option ℕ

-- Whether a height is no multiple of a number; the sign of Go's remainder does not matter here.
abbrev pub is_odd_for : ℤ → ℕ → Bool
is_odd_for height n = not ((pos_part height + neg_part height) % n == 0)

unfoldable pub check_start_height : Processor → ℤ → ℕ → Result (Unit {0})
check_start_height p height entries_per_file =
    if ltb_ℤ p.current_height (to_int32 height)
    then err failed
    else if not (eqb_ℤ height (pos 0)) && is_odd_for height entries_per_file
    then err failed
    else ok tt

unfoldable pub check_end_height : Processor → ℤ → ℕ → Result (Unit {0})
check_end_height p height entries_per_file =
    if ltb_ℤ (p.current_height +ℤ pos 1) (to_int32 height)
    then err failed
    else if eqb_ℤ height (pos 0)
    then err failed
    else ok tt

-- The range from memory: what `serializeCb` has written, also if it ends in an error.
unfoldable pub memory_response : Route → ℤ → ℤ → Response
memory_response route start end = record {
  status = 200;
  tier = max_age_memory;
  content_type = octet_stream;
  content_length = route.size start end;
  body = (route.serialize start end []).0;
}

-- Whether a call never came back, which is no error that a handler could see.
abbrev pub is_blocked : Err → Bool
is_blocked blocked = true
is_blocked _ = false

-- The end of a handler that holds the read lock of the cache, after its `getBlockHash`.
unfoldable pub after_hash : Response → Result Hash → M H2HCache Response
after_hash response (ok hash) = r_unlock >> pure response
after_hash response (err e) = if is_blocked e then raise e else r_unlock >> pure (send_error 400)

-- `getBlockHash` as a step whose error the handler itself looks at.
abbrev pub attempt : {A B : Type 0} → M H2HCache A → (Result A → M H2HCache B) → M H2HCache B
attempt m f c = let (c1, r) = m c in f r c1

module _ {H : Type 0} (chain : Chain H) (disk : FileServer) (asked : Asked) where
  unfoldable pub serve_memory : Processor → Route → ℤ → M H2HCache Response
  unfolding after_hash
  serve_memory p route start =
      r_lock
      >> attempt (get_block_hash chain (to_int32 start))
          (after_hash (memory_response route (to_int32 start) p.current_height))

  -- The part of `heightBasedRequestHandler` behind its checks.
  unfoldable pub serve_range : Processor → Route → ℤ → M H2HCache Response
  serve_range p route start =
      let name = route.file_name start (start +ℤ pos route.entries_per_file -ℤ pos 1) in
      elim (disk.contents name) [
        | some bytes ↦ pure (serve_file disk asked name bytes)
        | none ↦ serve_memory p route start
      ]

  unfoldable pub serve_checked : Processor → Route → ℤ → Result (Unit {0}) → M H2HCache Response
  serve_checked p route start (err e) = pure (send_error 400)
  serve_checked p route start (ok u) = serve_range p route start

  unfoldable pub serve_parsed : Processor → Route → Result ℤ → M H2HCache Response
  serve_parsed p route (err e) = pure (send_error 400)
  serve_parsed p route (ok start) =
      serve_checked p route start (check_start_height p start route.entries_per_file)

  -- `heightBasedRequestHandler`; `height` is what `parseRequestParamInt64` returned.
  unfoldable pub height_based_request_handler :
      Bool → Processor → Route → Result ℤ → M H2HCache Response
  height_based_request_handler light_mode p route height =
      if light_mode
      then pure (send_error 503)
      else if p.is_startup_complete
      then serve_parsed p route height
      else pure (send_error 503)
