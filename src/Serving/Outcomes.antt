-- ===== src/Serving/Outcomes.antt =====
-- What a range request can end with, whatever its parts do: one of two errors, a file, or a range
-- from memory; and what an import request can end with: an error, or a stream.
use block_dn.Common.{ℕ, ◌≡◌, refl, inl, inr, Bool, true, false, some, Bool-cases, Option-cases}
use block_dn.Common.Int.{ℤ, pos, ◌+ℤ◌, ◌-ℤ◌, ◌≤ℤ◌, leb_ℤ, ltb_ℤ, leb_ℤ→≤ℤ}
use block_dn.Common.Effect.{Result, ok, err, Err, M, Result-cases}
use block_dn.External.{Bytes, Hash, Chain, Wire}
use block_dn.Cache.{H2HCache}
use block_dn.Responses.{FileServer, Asked, serve_file}
use block_dn.Serving.Import.{
  Streamed, complete, cut_off, gap_at, stream_tail, after_files, stream_import, import_response,
  serve_height_based_import, gate, check_import_preconditions, height_based_import_request_handler,
  height_based_import_latest_handler, filter_single_request_handler, single_of_hash, send_raw_bytes,
}
use block_dn.CFilters.{CFilterFiles, filter_at_height}
use block_dn.Serving.{
  Tier, max_age_memory, max_age_disk, check_end_height, is_odd_for, to_int32, Processor, Route,
  Response, check_start_height, height_based_request_handler, serve_memory, serve_range,
  serve_checked, serve_parsed, send_error, memory_response, after_hash, is_blocked,
}

-- Every response that a run ends with has the property.
abbrev pub Ensures : (Response → Type 0) → Result Response → Type 0
Ensures P result = (response : Response) → result ≡ ok response → P response

module _ (P : Response → Type 0) where
  pub ok-Ensures : {r : Response} → P r → Ensures P (ok r)
  ok-Ensures {r = r} h response e = rw (← response_eq e) h
    where
      response_eq : ok r ≡ ok response → r ≡ response
      response_eq e = cc

  pub err-Ensures : (e : Err) → Ensures P (err e)
  err-Ensures e response q = cc

  module _ (disk : FileServer) (asked : Asked) (route : Route) where
    -- The property holds of all that a range request can send.
    pub record Covers : Type 0 where
      pub refused : P (send_error 400)
      pub unavailable : P (send_error 503)
      pub from_file :
          (start : ℤ) (bytes : Bytes)
          → disk.contents (route.file_name start (start +ℤ pos route.entries_per_file -ℤ pos 1))
            ≡ some bytes
          → P (
              serve_file disk asked
                (route.file_name start (start +ℤ pos route.entries_per_file -ℤ pos 1))
                bytes)
      pub from_memory : (start end : ℤ) → P (memory_response route start end)

    module _ {H : Type 0} (chain : Chain H) (p : Processor) (covers : Covers) where
      after_hash-Ensures :
          (start end : ℤ) (r : Result Hash) (c : H2HCache)
          → Ensures P (after_hash (memory_response route start end) r c).1
      unfolding after_hash
      after_hash-Ensures start end (ok hash) c = ok-Ensures (covers.from_memory start end)
      after_hash-Ensures start end (err e) c = elim (Bool-cases (is_blocked e)) [
        | inl q ↦ rw q (err-Ensures e)
        | inr q ↦ rw q (ok-Ensures covers.refused)
      ]

      serve_memory-Ensures :
          (start : ℤ) (c : H2HCache) → Ensures P (serve_memory chain disk asked p route start c).1
      unfolding serve_memory
      serve_memory-Ensures start c = elim (Bool-cases c.writer) [
        | inl q ↦ rw q (λ response e. cc)
        | inr q ↦ rw q (after_hash-Ensures _ _ _ _)
      ]

      serve_range-Ensures :
          (start : ℤ) (c : H2HCache) → Ensures P (serve_range chain disk asked p route start c).1
      unfolding serve_range
      serve_range-Ensures start c =
          elim (Option-cases (
            disk.contents (route.file_name start (start +ℤ pos route.entries_per_file -ℤ pos 1)))) [
              | inl q ↦ rw (q, serve_range) (serve_memory-Ensures start c)
              | inr (bytes, q) ↦ rw (q, serve_range) (ok-Ensures (covers.from_file start bytes q))
            ]

      serve_parsed-Ensures :
          (height : Result ℤ) (c : H2HCache)
          → Ensures P (serve_parsed chain disk asked p route height c).1
      unfolding serve_parsed serve_checked
      serve_parsed-Ensures (err e) c = ok-Ensures covers.refused
      serve_parsed-Ensures (ok start) c =
          elim (Result-cases (check_start_height p start route.entries_per_file)) [
            | inl (u, q) ↦ rw q (serve_range-Ensures start c)
            | inr (x, q) ↦ rw q (ok-Ensures covers.refused)
          ]

      pub height_based_request_handler-Ensures :
          (light_mode : Bool) (height : Result ℤ) (c : H2HCache)
          → Ensures P (height_based_request_handler chain disk asked light_mode p route height c).1
      unfolding height_based_request_handler serve_parsed check_start_height serve_checked
          serve_range serve_memory
      height_based_request_handler-Ensures light_mode height c = elim (Bool-cases light_mode) [
        | inl q ↦ rw q (ok-Ensures covers.unavailable)
        | inr q ↦ elim (Bool-cases p.is_startup_complete) [
          | inl q2 ↦ rw (q, q2) (serve_parsed-Ensures height c)
          | inr q2 ↦ rw (q, q2) (ok-Ensures covers.unavailable)
        ]
      ]

module _ (P : Response → Type 0) {H : Type 0} (chain : Chain H) (disk : FileServer) (net : ℕ)
    (route : Route) where
  stream_tail-Ensures :
      (tier : Tier) (last end : ℤ) (out : Bytes) (r : Result Hash) (c : H2HCache)
      → ((body : Bytes) → P (import_response tier body))
      → Ensures P (stream_tail chain disk net route tier last end out r c).1
  unfolding stream_tail
  stream_tail-Ensures tier last end out (ok hash) c h = ok-Ensures P (h _)
  stream_tail-Ensures tier last end out (err e) c h = elim (Bool-cases (is_blocked e)) [
    | inl q ↦ rw q (err-Ensures P e)
    | inr q ↦ rw q (ok-Ensures P (h _))
  ]

  after_files-Ensures :
      (tier : Tier) (end : ℤ) (r : Result Streamed) (c : H2HCache)
      → ((body : Bytes) → P (import_response tier body))
      → Ensures P (after_files chain disk net route tier end r c).1
  unfolding after_files
  after_files-Ensures tier end (err e) c h = err-Ensures P e
  after_files-Ensures tier end (ok (complete out)) c h = ok-Ensures P (h out)
  after_files-Ensures tier end (ok (cut_off out)) c h = ok-Ensures P (h out)
  after_files-Ensures tier end (ok (gap_at last out)) c h = elim (Bool-cases c.writer) [
    | inl q ↦ rw q (λ response e. cc)
    | inr q ↦ rw q (stream_tail-Ensures tier last end out _ _ h)
  ]

  module _ (p : Processor) (refused : P (send_error 400)) (unavailable : P (send_error 503))
      (in_memory : (body : Bytes) → P (import_response max_age_memory body)) (file_type : ℕ) where
    -- What a stream of the last tier ends below.
    abbrev pub OnDisk : ℤ → Type 0
    OnDisk end =
        (body : Bytes)
        → end ≤ℤ p.last_sealed_height +ℤ pos 1
        → P (import_response max_age_disk body)

    serve_import-Ensures :
        (end : ℤ) (c : H2HCache)
        → OnDisk end
        → Ensures P (serve_height_based_import chain disk net p route file_type end c).1
    unfolding serve_height_based_import stream_import
    serve_import-Ensures end c on_disk =
        elim (Bool-cases (leb_ℤ end (p.last_sealed_height +ℤ pos 1))) [
          | inl q ↦ elim (Bool-cases (is_odd_for end route.entries_per_file)) [
            | inl odd ↦ rw (q, odd) (ok-Ensures P refused)
            | inr even ↦
                rw (q, even)
                  (after_files-Ensures max_age_disk end _ c
                    (λ body. on_disk body (leb_ℤ→≤ℤ end (p.last_sealed_height +ℤ pos 1) q)))
          ]
          | inr q ↦ rw q (after_files-Ensures max_age_memory end _ c in_memory)
        ]

    -- Both gates, in front of a request.
    gated :
        (light_mode : Bool) (m : M H2HCache Response) (c : H2HCache)
        → Ensures P (m c).1
        → Ensures P (gate (check_import_preconditions light_mode p) m c).1
    unfolding check_import_preconditions
    gated light_mode m c h = elim (Bool-cases light_mode) [
      | inl q ↦ rw q (ok-Ensures P unavailable)
      | inr q ↦ elim (Bool-cases p.is_startup_complete) [
        | inl q2 ↦ rw (q, q2) h
        | inr q2 ↦ rw (q, q2) (ok-Ensures P unavailable)
      ]
    ]

    pub height_based_import_request_handler-Ensures :
        (light_mode : Bool) (height : Result ℤ) (c : H2HCache)
        → ((end : ℤ) → height ≡ ok end → OnDisk end)
        → Ensures P
            (height_based_import_request_handler chain disk net light_mode p route file_type height
              c).1
    unfolding height_based_import_request_handler
    height_based_import_request_handler-Ensures light_mode (err e) c on_disk =
        gated light_mode _ c (ok-Ensures P refused)
    height_based_import_request_handler-Ensures light_mode (ok end) c on_disk =
        gated light_mode _ c (elim (Result-cases (check_end_height p end route.entries_per_file)) [
          | inl (u, q) ↦ rw q (serve_import-Ensures end c (on_disk end refl))
          | inr (x, q) ↦ rw q (ok-Ensures P refused)
        ])

    pub height_based_import_latest_handler-Ensures :
        (light_mode : Bool) (c : H2HCache)
        → OnDisk (p.current_height +ℤ pos 1)
        → Ensures P
            (height_based_import_latest_handler chain disk net light_mode p route file_type c).1
    unfolding height_based_import_latest_handler
    height_based_import_latest_handler-Ensures light_mode c on_disk =
        gated light_mode _ c (serve_import-Ensures _ c on_disk)

-- A single filter: an error, a filter from memory, or what the backend's filter index leads to.
module _ (P : Response → Type 0) {H : Type 0} (wire : Wire H) (chain : Chain H) (p : Processor)
    (files : CFilterFiles) (refused : P (send_error 400))
    (in_memory : (bytes : Bytes) → P (send_raw_bytes bytes max_age_memory)) where
  pub filter_single_request_handler-Ensures :
      (light_mode : Bool) (height : Result ℤ) (c : H2HCache)
      → ((h : ℤ) (hash : Result Hash) (c : H2HCache)
          → height ≡ ok h
          → Ensures P (single_of_hash wire chain light_mode p h hash c).1)
      → Ensures P (filter_single_request_handler wire chain light_mode p files height c).1
  unfolding filter_single_request_handler
  filter_single_request_handler-Ensures light_mode (err e) c of_hash = ok-Ensures P refused
  filter_single_request_handler-Ensures true (ok height) c of_hash = of_hash height _ _ refl
  filter_single_request_handler-Ensures false (ok height) c of_hash =
      elim (Bool-cases p.is_startup_complete) [
        | inr q ↦ simp q (of_hash height _ _ refl)
        | inl q ↦ elim (Bool-cases (ltb_ℤ p.current_height height)) [
          | inl q2 ↦ simp (q, q2) (ok-Ensures P refused)
          | inr q2 ↦ elim (Option-cases (filter_at_height (to_int32 height) files)) [
            | inl q3 ↦ simp (q, q2, q3) (of_hash height _ _ refl)
            | inr (bytes, q3) ↦ simp (q, q2, q3) (ok-Ensures P (in_memory bytes))
          ]
        ]
      ]
