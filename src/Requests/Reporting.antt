-- ===== src/Requests/Reporting.antt =====
-- What a status request reports, and when it cannot.
use block_dn.Common.{
  ◌≡◌, ◌↔◌, refl, sym, ap, ◌∙◌, ◌&&◌, Bool, true, false, Option, none, some, arith,
}
use block_dn.Common.Int.{ℤ, eqb_ℤ, eqb_ℤ→eq, eqb_ℤ-refl}
use block_dn.Common.Effect.{ok, err, Err, blocked}
use block_dn.External.{Bytes, Hash, Chain, Wire}
use block_dn.Cache.{H2HCache, get_block_hash}
use block_dn.Headers.{filter_header_at_height}
use block_dn.Serving.{max_age_memory, send_error}
use block_dn.Requests.{Server, Side, send_json}
use block_dn.Requests.Status.{Status, best_height, is_at, status_of, status_request_handler}

-- A producer has the height, if it was started.
abbrev pub HasHeight : {S : Type 0} → ℤ → Option (Side S) → Type 0
HasHeight h none = Unit
HasHeight h (some side) = h ≡ side.processor.current_height

is_at-HasHeight :
    {S : Type 0} (h : ℤ) (side : Option (Side S)) → (is_at h side ≡ true) ↔ HasHeight h side
is_at-HasHeight h none = (λ e. tt, λ u. refl)
is_at-HasHeight h (some side) =
    (λ e. eqb_ℤ→eq h side.processor.current_height e, λ e. ap (eqb_ℤ h) (sym e) ∙ eqb_ℤ-refl h)

module _ {H : Type 0} (wire : Wire H) (s : Server H) where
  -- Every producer that was started is at the best height.
  pub record IsSynced : Type 0 where
    pub filters : best_height s ≡ s.cfilter_files.processor.current_height
    pub sp_tweaks : HasHeight (best_height s) s.sp_tweak_files
    pub custom_filters : HasHeight (best_height s) s.custom_filter_files

  -- What a status says of the producers.
  pub record Reports (hash filter_header : Hash) (status : Status) : Type 0 where
    pub height : status.best_block_height ≡ best_height s
    pub block : status.best_block_hash ≡ hash
    pub header : status.best_filter_header ≡ filter_header
    pub filter_height : status.best_filter_height ≡ s.cfilter_files.processor.current_height
    pub synced : (status.all_files_synced ≡ true) ↔ IsSynced

  status_of-Reports :
      (hash filter_header : Hash) → Reports hash filter_header (status_of s hash filter_header)
  unfolding status_of
  status_of-Reports hash filter_header = record {
    height = refl;
    block = refl;
    header = refl;
    filter_height = refl;
    synced = (to, from);
  }
    where
      first : Bool
      first = eqb_ℤ (best_height s) s.cfilter_files.processor.current_height

      second : Bool
      second = is_at (best_height s) s.sp_tweak_files

      third : Bool
      third = is_at (best_height s) s.custom_filter_files

      split : (a b c : Bool) → (a && b && c) ≡ true → (a ≡ true) × (b ≡ true) × (c ≡ true)
      split true true true e = (refl, refl, refl)
      split true true false e = cc
      split true false c e = cc
      split false b c e = cc

      to : (first && second && third) ≡ true → IsSynced
      to e =
          let (a, b, c) = split first second third e in
          record {
            filters = eqb_ℤ→eq (best_height s) s.cfilter_files.processor.current_height a;
            sp_tweaks = (is_at-HasHeight (best_height s) s.sp_tweak_files).0 b;
            custom_filters = (is_at-HasHeight (best_height s) s.custom_filter_files).0 c;
          }

      from : IsSynced → (first && second && third) ≡ true
      from y =
          let a : first ≡ true =
            ap (eqb_ℤ (best_height s)) (sym y.filters) ∙ eqb_ℤ-refl (best_height s) in
          let b : second ≡ true =
            (is_at-HasHeight (best_height s) s.sp_tweak_files).1 y.sp_tweaks in
          let c : third ≡ true =
            (is_at-HasHeight (best_height s) s.custom_filter_files).1 y.custom_filters in
          cc

  module _ (encode : Status → Bytes) (chain : Chain H) (c : H2HCache) where
    -- While no writer holds the lock, and with the hash and the filter header of the best height at
    -- hand: a status request is answered with that height, hash and filter header, it says that all
    -- files are synced exactly if every producer that was started is at that height, and it leaves
    -- the cache and its lock as they were.
    pub status_request_handler-Reports :
        (hash filter_header : Hash)
        → c.writer ≡ false
        → c.height_to_hash (best_height s) ≡ some hash
        → s.header_files.own.filter_headers (best_height s) ≡ some filter_header
        → (status : Status) × (status_request_handler wire s encode chain c
            ≡ (c, ok (send_json (encode status) max_age_memory)))
          × Reports hash filter_header status
    unfolding status_request_handler filter_header_at_height get_block_hash
    status_request_handler-Reports hash filter_header free there header = (
      status_of s hash filter_header,
      ground (arith, free, there, header),
      status_of-Reports hash filter_header,
    )

    -- Without the filter header of the best height, as in light mode, which starts no producer that
    -- would store one, a status request ends with the status 500, and changes nothing, if the hash of
    -- the best height is cached or the backend refuses it. If the backend has it, there is no
    -- answer: the handler waits for a write lock that its own read lock keeps from being free.
    pub status_request_handler-fails :
        c.writer ≡ false
        → s.header_files.own.filter_headers (best_height s) ≡ none
        → ((hash : Hash)
            → c.height_to_hash (best_height s) ≡ some hash
            → status_request_handler wire s encode chain c ≡ (c, ok (send_error 500)))
          × ((e : Err)
              → c.height_to_hash (best_height s) ≡ none
              → chain.get_block_hash (best_height s) ≡ err e
              → status_request_handler wire s encode chain c ≡ (c, ok (send_error 500)))
          × ((hash : Hash)
              → c.height_to_hash (best_height s) ≡ none
              → chain.get_block_hash (best_height s) ≡ ok hash
              → (status_request_handler wire s encode chain c).1 ≡ err blocked)
    unfolding status_request_handler filter_header_at_height get_block_hash
    status_request_handler-fails free missing = (
      λ hash there. ground (arith, free, there, missing),
      λ e unseen refused. ground (arith, free, unseen, refused),
      λ hash unseen has. ground (arith, free, unseen, has),
    )
