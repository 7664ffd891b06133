-- ===== src/Serving/Import.antt =====
-- handlers.go: the import files, which have all entries from height 0 up to an end height, from the
-- sealed files as far as they go and from memory behind them. And single filters.
use block_dn.Common.{
  ℕ, zero, suc, Bool, true, false, Option, none, some, [], ◌∷◌, ◌++◌, if◌then◌else◌, length, take,
}
use block_dn.Common.Int.{ℤ, pos, ◌+ℤ◌, ◌-ℤ◌, ltb_ℤ, leb_ℤ, eqb_ℤ}
use block_dn.Common.Heights.{span}
use block_dn.Common.Effect.{Result, ok, err, exhausted, M, pure, raise, ◌>>◌}
use block_dn.External.{Bytes, Hash, Chain, Wire}
use block_dn.Cache.{H2HCache, r_lock, r_unlock, get_block_hash}
use block_dn.Responses.{FileServer}
use block_dn.SpTweaks.{little_endian}
use block_dn.CFilters.{CFilterFiles, filter_at_height}
use block_dn.Serving.{
  Tier, max_age_memory, max_age_disk, unset, Response, Processor, Route, send_error,
  check_end_height, is_odd_for, to_int32, attempt, is_blocked,
}

-- The two gates: `none` lets a request pass.
unfoldable pub check_import_preconditions : Bool → Processor → Option Response
check_import_preconditions light_mode p =
    if light_mode
    then some (send_error 503)
    else if p.is_startup_complete
    then none
    else some (send_error 503)

-- A handler behind the gates.
abbrev pub gate : Option Response → M H2HCache Response → M H2HCache Response
gate (some response) m = pure response
gate none m = m

-- The network, the version 0, the file type, and the start height 0.
unfoldable pub import_metadata : ℕ → ℕ → Bytes
import_metadata net file_type = little_endian 4 net ++ 0 ∷ file_type ∷ little_endian 4 0

-- How the loop over the files ends, with what was streamed: at the end height, in a file that cannot
-- be streamed to its end, or at a height that no file starts with.
pub data Streamed : Type 0 where
  complete cut_off : Bytes → Streamed
  gap_at : ℤ → Bytes → Streamed

-- The loop of `serveHeightBasedImport` on fuel.
unfoldable pub stream_files : FileServer → Route → ℕ → ℤ → ℤ → Bytes → Result Streamed
stream_files disk route zero end_height last_height out = err exhausted
stream_files disk route (suc n) end_height last_height out = elim (ltb_ℤ end_height last_height) [
  | true ↦ ok (gap_at last_height out)
  | false ↦ elim (eqb_ℤ last_height end_height) [
    | true ↦ ok (complete out)
    | false ↦
        let name =
          route.file_name last_height (last_height +ℤ pos route.entries_per_file -ℤ pos 1) in
        elim (disk.contents name) [
          | none ↦ ok (gap_at last_height out)
          | some bytes ↦ elim (disk.breaks_after name) [
            | some sent ↦ ok (cut_off (out ++ take sent bytes))
            | none ↦
                stream_files disk route n end_height (last_height +ℤ pos route.entries_per_file)
                  (out ++ bytes)
          ]
        ]
  ]
]

-- The text of the error, which `sendError` appends to a response whose status is already sent.
abbrev invalid_height : Bytes
invalid_height =
    105 ∷ 110 ∷ 118 ∷ 97 ∷ 108 ∷ 105 ∷ 100 ∷ 32 ∷ 104 ∷ 101 ∷ 105 ∷ 103 ∷ 104 ∷ 116 ∷ []

abbrev pub import_response : Tier → Bytes → Response
import_response tier body = record {
  status = 200;
  tier = tier;
  content_type = unset;
  content_length = none;
  body = body;
}

module _ {H : Type 0} (chain : Chain H) (disk : FileServer) (net : ℕ) where
  -- The tail from memory, behind `getBlockHash`.
  unfoldable pub stream_tail : Route → Tier → ℤ → ℤ → Bytes → Result Hash → M H2HCache Response
  stream_tail route tier last_height end_height out (ok hash) =
      r_unlock
      >> pure (
          import_response tier
            (route.serialize (to_int32 last_height) (to_int32 end_height -ℤ pos 1) out).0)
  stream_tail route tier last_height end_height out (err e) =
      if is_blocked e
      then raise e
      else r_unlock >> pure (import_response tier (out ++ invalid_height))

  unfoldable pub after_files : Route → Tier → ℤ → Result Streamed → M H2HCache Response
  unfolding stream_tail
  after_files route tier end_height (err e) = raise e
  after_files route tier end_height (ok (complete out)) = pure (import_response tier out)
  after_files route tier end_height (ok (cut_off out)) = pure (import_response tier out)
  after_files route tier end_height (ok (gap_at last_height out)) =
      r_lock
      >> attempt (get_block_hash chain (to_int32 last_height))
          (stream_tail route tier last_height end_height out)

  -- From the response headers on. A round of the loop takes `entries_per_file` heights, so with one
  -- entry at least, one round more than there are heights is enough.
  unfoldable pub stream_import : Route → Tier → ℕ → ℤ → M H2HCache Response
  stream_import route tier file_type end_height = after_files route tier end_height (
      stream_files disk route (suc (span (pos 0) end_height)) end_height (pos 0)
        (import_metadata net file_type))

  unfoldable pub serve_height_based_import : Processor → Route → ℕ → ℤ → M H2HCache Response
  serve_height_based_import p route file_type end_height =
      if leb_ℤ end_height (p.last_sealed_height +ℤ pos 1)
      then if is_odd_for end_height route.entries_per_file
        then pure (send_error 400)
        else stream_import route max_age_disk file_type end_height
      else stream_import route max_age_memory file_type end_height

  abbrev import_checked : Processor → Route → ℕ → ℤ → Result (Unit {0}) → M H2HCache Response
  import_checked p route file_type end_height (err e) = pure (send_error 400)
  import_checked p route file_type end_height (ok u) =
      serve_height_based_import p route file_type end_height

  abbrev import_parsed : Processor → Route → ℕ → Result ℤ → M H2HCache Response
  import_parsed p route file_type (err e) = pure (send_error 400)
  import_parsed p route file_type (ok end_height) =
      import_checked p route file_type end_height
        (check_end_height p end_height route.entries_per_file)

  unfoldable pub height_based_import_request_handler :
      Bool → Processor → Route → ℕ → Result ℤ → M H2HCache Response
  height_based_import_request_handler light_mode p route file_type height =
      gate (check_import_preconditions light_mode p) (import_parsed p route file_type height)

  unfoldable pub height_based_import_latest_handler :
      Bool → Processor → Route → ℕ → M H2HCache Response
  height_based_import_latest_handler light_mode p route file_type =
      gate (check_import_preconditions light_mode p)
        (serve_height_based_import p route file_type (p.current_height +ℤ pos 1))

-- `sendRawBytes`
abbrev pub send_raw_bytes : Bytes → Tier → Response
send_raw_bytes bytes tier = record {
  status = 200;
  tier = tier;
  content_type = unset;
  content_length = some (length bytes);
  body = bytes;
}

module _ {H : Type 0} (wire : Wire H) (chain : Chain H) (light_mode : Bool) where
  abbrev pub single_tier : Processor → ℤ → Tier
  single_tier p height =
      if light_mode
      then max_age_memory
      else if leb_ℤ height p.last_sealed_height
      then max_age_disk
      else max_age_memory

  -- `filterSingleRequestHandler` once it has the hash, or the error, of the height.
  unfoldable pub single_of_hash : Processor → ℤ → Result Hash → M H2HCache Response
  single_of_hash p height (err e) = if is_blocked e then raise e else pure (send_error 400)
  single_of_hash p height (ok hash) = elim (chain.get_block_filter hash) [
    | err e ↦ pure (send_error 500)
    | ok filter ↦ elim (wire.decode_hex filter.filter) [
      | err e ↦ pure (send_error 500)
      | ok bytes ↦ pure (send_raw_bytes bytes (single_tier p height))
    ]
  ]

  abbrev single_from_backend : Processor → ℤ → M H2HCache Response
  single_from_backend p height =
      attempt (get_block_hash chain (to_int32 height)) (single_of_hash p height)

  abbrev single_from_memory : Processor → ℤ → Option Bytes → M H2HCache Response
  single_from_memory p height (some filter) = pure (send_raw_bytes filter max_age_memory)
  single_from_memory p height none = single_from_backend p height

  unfoldable pub filter_single_request_handler :
      Processor → CFilterFiles → Result ℤ → M H2HCache Response
  filter_single_request_handler p files (err e) = pure (send_error 400)
  filter_single_request_handler p files (ok height) =
      if light_mode
      then single_from_backend p height
      else if p.is_startup_complete
      then if ltb_ℤ p.current_height height
        then pure (send_error 400)
        else single_from_memory p height (filter_at_height (to_int32 height) files)
      else single_from_backend p height
