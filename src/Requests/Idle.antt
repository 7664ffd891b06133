-- ===== src/Requests/Idle.antt =====
-- The producer of silent payments on a network without taproot, as requests see it.
use block_dn.Common.{
  ◌+◌, ◌≡◌, refl, ap, Bool, false, none, some, Bool-cases, Option-cases, inl, inr, arith,
}
use block_dn.Common.Int.{pos, ◌<ℤ◌, eqb_ℤ, eqb_ℤ-ne, int_laws, parts}
use block_dn.Common.Effect.{Result, ok, err, M, blocked, Run-cases}
use block_dn.External.{Bytes, Hash, Chain, Wire}
use block_dn.Cache.{H2HCache, get_block_hash}
use block_dn.Headers.{filter_header_at_height}
use block_dn.Producer.{Base}
use block_dn.SpTweaks.{SpTweakFiles, update_sp_tweak_files}
use block_dn.Serving.{Response, max_age_memory, send_error, is_blocked}
use block_dn.Serving.Outcomes.{Ensures, ok-Ensures, err-Ensures}
use block_dn.Requests.{Server, Side, send_json}
use block_dn.Requests.Status.{
  Status, best_height, status_of, after_status, current_status, status_request_handler,
}

-- A producer as requests see it.
abbrev pub side_of : {S : Type 0} → Base S → Side S
side_of b = record {
  processor = record {
    is_startup_complete = b.startup_complete;
    current_height = b.current_height;
    last_sealed_height = b.last_sealed_height;
  };
  own = b.shared.own;
}

-- A response that is the status 500, or a status that does not say that all files are synced.
pub data IsUnsynced {H : Type 0} (s : Server H) (encode : Status → Bytes) (response : Response)
    : Type 0 where
  no_status : response ≡ send_error 500 → IsUnsynced s encode response
  unsynced :
      (hash filter_header : Hash)
      → (status_of s hash filter_header).all_files_synced ≡ false
      → response ≡ send_json (encode (status_of s hash filter_header)) max_age_memory
      → IsUnsynced s encode response

module _ {H : Type 0} (wire : Wire H) (s : Server H) (encode : Status → Bytes) where
  -- A producer that is not at the best height keeps the flag from being set.
  behind :
      (side : Side SpTweakFiles) (hash filter_header : Hash)
      → s.sp_tweak_files ≡ some side
      → side.processor.current_height <ℤ best_height s
      → (status_of s hash filter_header).all_files_synced ≡ false
  unfolding status_of
  behind side hash filter_header there below =
      let differ : eqb_ℤ (best_height s) side.processor.current_height ≡ false =
        eqb_ℤ-ne (best_height s) side.processor.current_height (inr below) in
      rw there (ground (arith, differ))

  module _
      (never : (hash filter_header : Hash)
        → (status_of s hash filter_header).all_files_synced ≡ false) where
    after_status-IsUnsynced :
        (r : Result Status) (c : H2HCache)
        → ((status : Status)
            → r ≡ ok status
            → (hash : Hash) × (filter_header : Hash) × (status ≡ status_of s hash filter_header))
        → Ensures (IsUnsynced s encode) (after_status encode r c).1
    unfolding after_status
    after_status-IsUnsynced (err e) c made = elim (Bool-cases (is_blocked e)) [
      | inl q ↦ rw q (err-Ensures (IsUnsynced s encode) e)
      | inr q ↦ rw q (ok-Ensures (IsUnsynced s encode) (no_status refl))
    ]
    after_status-IsUnsynced (ok status) c made =
        let (hash, filter_header, same) = made status refl in
        ok-Ensures (IsUnsynced s encode) (
          unsynced hash filter_header (never hash filter_header)
            (ap (λ st. send_json (encode st) max_age_memory) same))

    current_status_lem :
        (chain : Chain H) (c : H2HCache) (status : Status)
        → (current_status wire s chain c).1 ≡ ok status
        → (hash : Hash) × (filter_header : Hash) × (status ≡ status_of s hash filter_header)
    unfolding current_status
    current_status_lem chain c status e =
        elim (Run-cases (get_block_hash chain (best_height s) c)) [
          | inr (c1, x, q) ↦ cc (rw (q, current_status) at e)
          | inl (c1, hash, q) ↦
              elim (Option-cases
                (filter_header_at_height wire (best_height s) s.header_files.own)) [
                  | inl q2 ↦ cc (rw (q, q2, current_status) at e)
                  | inr (filter_header, q2) ↦
                      (hash, filter_header, ok_eq (rw (q, q2, current_status) at e))
                ]
        ]
      where
        ok_eq : {a b : Status} → ok a ≡ ok b → b ≡ a
        ok_eq e = cc

    status-IsUnsynced :
        (chain : Chain H) (c : H2HCache)
        → Ensures (IsUnsynced s encode) (status_request_handler wire s encode chain c).1
    unfolding status_request_handler
    status-IsUnsynced chain c = elim (Bool-cases c.writer) [
      | inl q ↦ rw q (err-Ensures (IsUnsynced s encode) blocked)
      | inr q ↦
          let held : H2HCache = record c { readers = c.readers + 1; writer = false } in
          simp q (
            after_status-IsUnsynced (current_status wire s chain held).1
              (current_status wire s chain held).0 (current_status_lem chain held))
    ]

-- A server whose producer of silent payments is on a network without taproot, and has started at
-- height 0, never says that all files are synced from the first block on: whatever the hash cache
-- and the backend have, an answer to a status request is the status 500, or a status that denies it.
pub update_sp_tweak_files-idle :
    {H : Type 0} (wire : Wire H) (s : Server H) (makes lists : Bool)
    (update : M (Base SpTweakFiles) (Unit {0})) (b : Base SpTweakFiles)
    → b.current_height ≡ pos 0
    → pos 0 <ℤ best_height s
    → s.sp_tweak_files ≡ some (side_of (update_sp_tweak_files none makes lists update b).0)
    → (encode : Status → Bytes) (chain : Chain H) (c : H2HCache)
    → Ensures (IsUnsynced s encode) (status_request_handler wire s encode chain c).1
unfolding update_sp_tweak_files
update_sp_tweak_files-idle wire s makes lists update b zero_height above there encode chain c =
    status-IsUnsynced wire s encode
      (λ hash filter_header.
        behind wire s encode (side_of (update_sp_tweak_files none makes lists update b).0) hash
          filter_header there (omega (int_laws, above, parts zero_height)))
      chain c
