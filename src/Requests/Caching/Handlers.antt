-- ===== src/Requests/Caching/Handlers.antt =====
-- Each handler sends what caches may rely on.
use block_dn.Common.{ℕ, ◌≡◌, ◌⊎◌, refl, inl, inr, Bool-cases, Option-cases}
use block_dn.Common.Int.{ℤ, pos, ◌+ℤ◌, ◌≤ℤ◌, leb_ℤ, leb_ℤ→≤ℤ}
use block_dn.Common.Effect.{Result, ok, err, Result-cases}
use block_dn.External.{Bytes, Hash}
use block_dn.Cache.{H2HCache}
use block_dn.SpTweaks.{SpTweakFiles, to_uint, is_valid_sp_tweak_dust_limit}
use block_dn.CustomFilters.{CustomFilterFiles}
use block_dn.Serving.{Tier, max_age_disk, max_age_memory, Response, Route, is_blocked}
use block_dn.Serving.Import.{
  height_based_import_request_handler, height_based_import_latest_handler, import_response,
  single_of_hash, single_tier, send_raw_bytes,
}
use block_dn.Serving.Outcomes.{
  filter_single_request_handler-Ensures, Ensures, ok-Ensures, err-Ensures,
  height_based_import_request_handler-Ensures, height_based_import_latest_handler-Ensures,
}
use block_dn.Requests.{Request, Server, Side, Var}
use block_dn.Requests.Status.{Status, after_status, status_request_handler, current_status}
use block_dn.Requests.Routes.{World, Endpoint, handle, index_response}
use block_dn.Requests.Ranges
use block_dn.Requests.Ranges.{
  requested_height, headers_route, filter_headers_route, custom_filter_config, custom_filters_of,
  custom_headers_of, sp_tweaks_at,
}
use block_dn.Requests.Caching
use block_dn.Requests.Caching.{Lasting, IsCacheable, success, failure, of_range}
use block_dn.Requests.Caching.Proxied
use block_dn.Requests.Caching.Proxied.{Good, fails}

module _ {H : Type 0} (w : World H) (s : Server H) (r : Request) where
  abbrev Sends : Endpoint → Result Response → Type 0
  Sends e = Ensures (Good w s r e)

  sent : (e : Endpoint) {response : Response} → Good w s r e response → Sends e (ok response)
  sent e = ok-Ensures (Good w s r e)

  status-Sends :
      (c : H2HCache)
      → Sends Endpoint.status (status_request_handler w.wire s w.encode_status w.chain c).1
  unfolding status_request_handler
  status-Sends c = elim (Bool-cases c.writer) [
    | inl q ↦ rw q (λ response e. cc)
    | inr q ↦ rw q (ended (current_status w.wire s w.chain _))
  ]
    where
      after :
          (result : Result Status) (c : H2HCache)
          → Sends Endpoint.status (after_status w.encode_status result c).1
      after (ok status) c = sent Endpoint.status (Proxied.json_memory w s r Endpoint.status _)
      after (err e) c = elim (Bool-cases (is_blocked e)) [
        | inl q ↦ rw q (err-Ensures (Good w s r Endpoint.status) e)
        | inr q ↦ rw q (sent Endpoint.status (fails w s r Endpoint.status 500))
      ]

      ended :
          (run : H2HCache × Result Status)
          → Sends Endpoint.status (after_status w.encode_status run.1 run.0).1
      ended run = after run.1 run.0

  single_of_hash-Sends :
      (height : ℤ) (result : Result Hash) (c : H2HCache)
      → requested_height w.wire s w.chain w.disk r ≡ ok height
      → Sends Endpoint.filter_single
          (single_of_hash w.wire w.chain s.light_mode s.cfilter_files.processor height result c).1
  unfolding single_of_hash
  single_of_hash-Sends height (err e) c at = elim (Bool-cases (is_blocked e)) [
    | inl q ↦ rw q (err-Ensures (Good w s r Endpoint.filter_single) e)
    | inr q ↦ rw q (sent Endpoint.filter_single (fails w s r Endpoint.filter_single 400))
  ]
  single_of_hash-Sends height (ok hash) c at = elim (Result-cases (w.chain.get_block_filter hash)) [
    | inr (x, q) ↦
        rw (q, single_of_hash)
          (sent Endpoint.filter_single (fails w s r Endpoint.filter_single 500))
    | inl (filter, q) ↦ elim (Result-cases (w.wire.decode_hex filter.filter)) [
      | inr (x, q2) ↦
          rw (q, q2, single_of_hash)
            (sent Endpoint.filter_single (fails w s r Endpoint.filter_single 500))
      | inl (bytes, q2) ↦
          rw (q, q2, single_of_hash)
            (sent Endpoint.filter_single (
              success w s r Endpoint.filter_single (send_raw_bytes bytes (tier_of height)) refl
                (λ p. Lasting.sealed_filter height at (sealed height p))))
    ]
  ]
    where
      tier_of : ℤ → Tier
      tier_of height = single_tier w.wire w.chain s.light_mode s.cfilter_files.processor height

      sealed :
          (height : ℤ)
          → tier_of height ≡ max_age_disk
          → height ≤ℤ s.cfilter_files.processor.last_sealed_height
      sealed height p = elim (Bool-cases s.light_mode) [
        | inl q ↦ cc (rw q at p)
        | inr q ↦ elim (Bool-cases (leb_ℤ height s.cfilter_files.processor.last_sealed_height)) [
          | inl q2 ↦ leb_ℤ→≤ℤ height s.cfilter_files.processor.last_sealed_height q2
          | inr q2 ↦ cc (rw (q, q2) at p)
        ]
      ]

  single-Sends :
      (c : H2HCache)
      → Sends Endpoint.filter_single (Ranges.single_request_handler w.wire s w.chain w.disk r c).1
  unfolding Ranges.single_request_handler
  single-Sends c =
      filter_single_request_handler-Ensures (Good w s r Endpoint.filter_single) w.wire w.chain
        s.cfilter_files.processor s.cfilter_files.own (fails w s r Endpoint.filter_single 400)
        (λ bytes.
          success w s r Endpoint.filter_single (send_raw_bytes bytes max_age_memory) refl (λ p. cc))
        s.light_mode _ c single_of_hash-Sends

  of_config :
      (e : Endpoint) (config : Response ⊎ (Side CustomFilterFiles × ℕ)) (c : H2HCache)
      → ((response : Response) → config ≡ inl response → Good w s r e response)
      → Sends e (custom_filters_of w.wire s w.chain w.disk r config c).1
        × Sends e (custom_headers_of w.wire s w.chain w.disk r config c).1
  unfolding custom_filters_of custom_headers_of
  of_config e (inl response) c h = (sent e (h response refl), sent e (h response refl))
  of_config e (inr (custom, index)) c h = (
    of_range w s r e custom.processor (Ranges.custom_filters_route w.wire s custom index) c,
    of_range w s r e custom.processor (Ranges.custom_headers_route w.wire s custom index) c,
  )

  inl_eq : {A B : Type 0} {a a' : A} → ◌≡◌ {A = A ⊎ B} (inl a) (inl a') → a' ≡ a
  inl_eq e = cc

  refused_config :
      (e : Endpoint) (response : Response)
      → custom_filter_config s r ≡ inl response
      → Good w s r e response
  unfolding custom_filter_config
  refused_config e response p = elim (Option-cases s.custom_filter_files) [
    | inl q ↦ rw (inl_eq (rw q at p)) (fails w s r e 503)
    | inr (custom, q) ↦
        elim (Option-cases (Ranges.custom_filter_config_index (r.var Var.filter_type))) [
          | inl q2 ↦ rw (inl_eq (rw (q, q2) at p)) (fails w s r e 400)
          | inr (index, q2) ↦ cc (rw (q, q2) at p)
        ]
  ]

  sp_tweaks_at-Sends :
      (side : Side SpTweakFiles) (level : Result ℤ) (c : H2HCache)
      → Sends Endpoint.sp_tweaks (sp_tweaks_at w.wire s w.chain w.disk r side level c).1
  unfolding sp_tweaks_at
  sp_tweaks_at-Sends side (err e) c = sent Endpoint.sp_tweaks (fails w s r Endpoint.sp_tweaks 400)
  sp_tweaks_at-Sends side (ok level) c =
      elim (Bool-cases (is_valid_sp_tweak_dust_limit (to_uint 64 level))) [
        | inl q ↦ rw q (
            of_range w s r Endpoint.sp_tweaks side.processor
              (Ranges.sp_tweaks_route w.wire s side (to_uint 64 level)) c)
        | inr q ↦ rw q (sent Endpoint.sp_tweaks (fails w s r Endpoint.sp_tweaks 400))
      ]

  sp_tweaks-Sends :
      (c : H2HCache)
      → Sends Endpoint.sp_tweaks (Ranges.sp_tweaks_request_handler w.wire s w.chain w.disk r c).1
  unfolding Ranges.sp_tweaks_request_handler
  sp_tweaks-Sends c = elim (Option-cases s.sp_tweak_files) [
    | inl q ↦ simp q (sent Endpoint.sp_tweaks (fails w s r Endpoint.sp_tweaks 503))
    | inr (side, q) ↦ simp q (sp_tweaks_at-Sends side _ c)
  ]

  -- The imports, which have their sealed height from the header producer.
  module _ (e : Endpoint) (route : Route) (file_type : ℕ) (c : H2HCache) where
    stream_memory : (body : Bytes) → Good w s r e (import_response max_age_memory body)
    stream_memory body = success w s r e (import_response max_age_memory body) refl (λ p. cc)

    stream_disk :
        (end : ℤ) (body : Bytes)
        → Caching.Ends w s r end e
        → end ≤ℤ s.header_files.processor.last_sealed_height +ℤ pos 1
        → Good w s r e (import_response max_age_disk body)
    stream_disk end body ends le =
        success w s r e (import_response max_age_disk body) refl
          (λ p. Lasting.sealed_import end ends le)

    import-Sends :
        (height : Result ℤ)
        → ((end : ℤ) → height ≡ ok end → Caching.Ends w s r end e)
        → Sends e
            (height_based_import_request_handler w.chain w.disk s.net s.light_mode
              s.header_files.processor route file_type height c).1
    import-Sends height ends =
        height_based_import_request_handler-Ensures (Good w s r e) w.chain w.disk s.net route
          s.header_files.processor (fails w s r e 400) (fails w s r e 503) stream_memory file_type
          s.light_mode height c (λ end q body. stream_disk end body (ends end q))

    latest-Sends :
        Caching.Ends w s r (s.header_files.processor.current_height +ℤ pos 1) e
        → Sends e
            (height_based_import_latest_handler w.chain w.disk s.net s.light_mode
              s.header_files.processor route file_type c).1
    latest-Sends ends =
        height_based_import_latest_handler-Ensures (Good w s r e) w.chain w.disk s.net route
          s.header_files.processor (fails w s r e 400) (fails w s r e 503) stream_memory file_type
          s.light_mode c (λ body. stream_disk _ body ends)

  -- Whatever a route answers, for every request with any byte ranges and conditions, and for every
  -- state of the producers, of the files and of the hash cache: a response that caches may keep for
  -- a year is made of a file on disk, all of it with the status 200, one or several parts of it with
  -- the status 206, or no body and the status 304 or 412. Or it has the status 200, and its body is
  -- what bitcoind has under the hash that was requested, or the proof of the requested transaction,
  -- whose block is at or below the safe height; or it answers a request for the filter of a height
  -- that is sealed, or an import that ends at the requested height or behind the tip and at a
  -- sealed height. And a status from 500 on comes with `no-cache`.
  pub handle-IsCacheable :
      (e : Endpoint) (c : H2HCache) → Ensures (IsCacheable w s r e) (handle w s e r c).1
  unfolding handle Ranges.headers_request_handler Ranges.filter_headers_request_handler
      Ranges.filters_request_handler Ranges.headers_import_request_handler
      Ranges.headers_import_latest_request_handler Ranges.filter_headers_import_request_handler
      Ranges.filter_headers_import_latest_request_handler Ranges.custom_filters_request_handler
      Ranges.custom_filter_headers_request_handler
  handle-IsCacheable Endpoint.index c =
      sent Endpoint.index
        (success w s r Endpoint.index (index_response w.index_html) refl (λ p. cc))
  handle-IsCacheable Endpoint.status c = status-Sends c
  handle-IsCacheable Endpoint.block c = sent Endpoint.block (Proxied.block w s r)
  handle-IsCacheable Endpoint.spent_tx_outs c = sent Endpoint.spent_tx_outs (Proxied.spent w s r)
  handle-IsCacheable Endpoint.header c = sent Endpoint.header (Proxied.header w s r)
  handle-IsCacheable Endpoint.estimate_fee c = sent Endpoint.estimate_fee (Proxied.fee w s r)
  handle-IsCacheable Endpoint.tx_out_proof c = sent Endpoint.tx_out_proof (Proxied.proof w s r)
  handle-IsCacheable Endpoint.raw_tx c = sent Endpoint.raw_tx (Proxied.raw_tx w s r)
  handle-IsCacheable Endpoint.utxo c = sent Endpoint.utxo (Proxied.utxo w s r)
  handle-IsCacheable Endpoint.headers c =
      of_range w s r Endpoint.headers s.header_files.processor (headers_route w.wire s) c
  handle-IsCacheable Endpoint.headers_import c =
      import-Sends Endpoint.headers_import (headers_route w.wire s) 0 c _
        (λ end. Caching.headers_to)
  handle-IsCacheable Endpoint.headers_import_latest c =
      latest-Sends Endpoint.headers_import_latest (headers_route w.wire s) 0 c
        (Caching.headers_latest refl)
  handle-IsCacheable Endpoint.filter_headers c =
      of_range w s r Endpoint.filter_headers s.header_files.processor
        (filter_headers_route w.wire s) c
  handle-IsCacheable Endpoint.filter_headers_import c =
      import-Sends Endpoint.filter_headers_import (filter_headers_route w.wire s) 1 c _
        (λ end. Caching.filter_headers_to)
  handle-IsCacheable Endpoint.filter_headers_import_latest c =
      latest-Sends Endpoint.filter_headers_import_latest (filter_headers_route w.wire s) 1 c
        (Caching.filter_headers_latest refl)
  handle-IsCacheable Endpoint.filters c =
      of_range w s r Endpoint.filters s.cfilter_files.processor (Ranges.filters_route w.wire s) c
  handle-IsCacheable Endpoint.filter_single c = single-Sends c
  handle-IsCacheable Endpoint.custom_filters c =
      (of_config Endpoint.custom_filters (custom_filter_config s r) c
        (refused_config Endpoint.custom_filters)).0
  handle-IsCacheable Endpoint.custom_filter_headers c =
      (of_config Endpoint.custom_filter_headers (custom_filter_config s r) c
        (refused_config Endpoint.custom_filter_headers)).1
  handle-IsCacheable Endpoint.sp_tweaks c = sp_tweaks-Sends c
