-- ===== src/Requests/Status.antt =====
-- handlers.go: the status request.
use block_dn.Common.{ℕ, Bool, true, false, ◌&&◌, Option, none, some, if◌then◌else◌}
use block_dn.Common.Int.{ℤ, pos, eqb_ℤ}
use block_dn.Common.Effect.{Result, ok, err, missing_entry, M, pure, raise, lift, ◌>>=◌, ◌>>◌}
use block_dn.External.{Bytes, Hash, Chain, Wire}
use block_dn.Cache.{H2HCache, r_lock, r_unlock, get_block_hash}
use block_dn.Headers.{filter_header_at_height}
use block_dn.Serving.{Response, max_age_memory, send_error, attempt, is_blocked}
use block_dn.Requests.{Server, Side, send_json}

-- `Status`, without the version, the commit and the names of the chain.
pub record Status : Type 0 where
  pub best_block_height : ℤ
  pub best_block_hash : Hash
  pub best_filter_height : ℤ
  pub best_filter_header : Hash
  pub best_sp_tweak_height : ℤ
  pub custom_filters_available : Bool
  pub best_custom_filter_height : ℤ
  pub entries_per_header_file : ℕ
  pub entries_per_filter_file : ℕ
  pub entries_per_sp_tweak_file : ℕ
  pub all_files_synced : Bool

-- The height of a producer, which is 0 where there is none.
abbrev pub side_height : {S : Type 0} → Option (Side S) → ℤ
side_height none = pos 0
side_height (some side) = side.processor.current_height

-- Whether a producer that was started has the height.
abbrev pub is_at : {S : Type 0} → ℤ → Option (Side S) → Bool
is_at height none = true
is_at height (some side) = eqb_ℤ height side.processor.current_height

abbrev pub is_some : {A : Type 0} → Option A → Bool
is_some none = false
is_some (some a) = true

module _ {H : Type 0} (s : Server H) where
  abbrev pub best_height : ℤ
  best_height = s.header_files.processor.current_height

  unfoldable pub status_of : Hash → Hash → Status
  status_of hash filter_header = record {
    best_block_height = best_height;
    best_block_hash = hash;
    best_filter_height = s.cfilter_files.processor.current_height;
    best_filter_header = filter_header;
    best_sp_tweak_height = side_height s.sp_tweak_files;
    custom_filters_available = is_some s.custom_filter_files;
    best_custom_filter_height = side_height s.custom_filter_files;
    entries_per_header_file = s.headers_per_file;
    entries_per_filter_file = s.filters_per_file;
    entries_per_sp_tweak_file = s.sp_tweaks_per_file;
    all_files_synced =
        eqb_ℤ best_height s.cfilter_files.processor.current_height
        && is_at best_height s.sp_tweak_files
        && is_at best_height s.custom_filter_files;
  }

-- The end of the handler, which holds the read lock of the cache.
unfoldable pub after_status : (Status → Bytes) → Result Status → M H2HCache Response
after_status encode (ok status) = r_unlock >> pure (send_json (encode status) max_age_memory)
after_status encode (err e) = if is_blocked e then raise e else r_unlock >> pure (send_error 500)

module _ {H : Type 0} (wire : Wire H) (s : Server H) where
  -- `filterHeaderAtHeight` of the best height, or the error that it is missing.
  abbrev with_filter_header : Hash → Option Hash → Result Status
  with_filter_header hash none = err missing_entry
  with_filter_header hash (some filter_header) = ok (status_of s hash filter_header)

  unfoldable pub current_status : Chain H → M H2HCache Status
  unfolding status_of
  current_status chain = do
    hash ← get_block_hash chain (best_height s)
    lift (with_filter_header hash (filter_header_at_height wire (best_height s) s.header_files.own))

  -- `encode` is the JSON encoder.
  unfoldable pub status_request_handler : (Status → Bytes) → Chain H → M H2HCache Response
  unfolding after_status current_status
  status_request_handler encode chain =
      r_lock >> attempt (current_status chain) (after_status encode)
