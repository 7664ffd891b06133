-- ===== src/Requests/Sizes.antt =====
-- The lengths that the range requests announce.
use block_dn.Common.{
  ℕ, ◌≡◌, sym, ap, ◌∙◌, inl, inr, Bool-cases, some, [], length, length-append, ◌+◌, arith,
}
use block_dn.Common.Int.{ℤ, ltb_ℤ, ltb_ℤ→≤ℤ}
use block_dn.Common.Heights.{heights}
use block_dn.Common.Effect.{Result, ok}
use block_dn.External.{Bytes, Chain, Wire, WireLaws, write_var_bytes}
use block_dn.Cache.{H2HCache}
use block_dn.Entries.{serialize_entries-size}
use block_dn.Headers.{headers_size}
use block_dn.Headers.Seal.{serialize_headers-size}
use block_dn.CFilters.{serialize_filters, filters_size}
use block_dn.SpTweaks.{SpTweakFiles, to_uint, is_valid_sp_tweak_dust_limit}
use block_dn.SpTweaks.Level.{sp_tweaks-size}
use block_dn.Responses.{FileServer}
use block_dn.Serving.{Route}
use block_dn.Serving.Outcomes.{ok-Ensures}
use block_dn.Serving.Ranges.{IsHonest, IsHonestResult, error, height_based_request_handler-IsHonest}
use block_dn.Requests.{Request, Server, Side}
use block_dn.Requests.Ranges.{
  headers_route, filters_route, sp_tweaks_route, headers_request_handler, filters_request_handler,
  sp_tweaks_at,
}

-- Where a route computes a size, it is the length of what the route serializes without an error.
abbrev IsSized : Route → Type 0
IsSized route =
    (start end : ℤ) (n : ℕ) (out : Bytes)
    → route.size start end ≡ some n
    → route.serialize start end [] ≡ (out, ok tt)
    → length out ≡ n

some_eq : {a b : ℕ} → some a ≡ some b → a ≡ b
some_eq e = cc

module _ {H : Type 0} (wire : Wire H) (laws : WireLaws wire) (s : Server H) where
  headers_route-IsSized : IsSized (headers_route wire s)
  unfolding headers_size
  headers_route-IsSized start end n out size run = elim (Bool-cases (ltb_ℤ end start)) [
    | inl q ↦ cc (rw (q, headers_size) at size)
    | inr q ↦ some_eq (
        sym (
          serialize_headers-size wire laws s.header_files.own.headers start end
            (ltb_ℤ→≤ℤ end start q) run)
        ∙ size)
  ]

  filters_route-IsSized : IsSized (filters_route wire s)
  unfolding serialize_filters filters_size
  filters_route-IsSized start end n out size run =
      let (body, ran, fits) =
        serialize_entries-size (write_var_bytes wire) (λ f. wire.var_int_size (length f) + length f)
          s.cfilter_files.own.filters (heights start end) 0 n []
          (λ f.
            length-append (wire.write_var_int (length f)) f
            ∙ ap (λ k. k + length f) (laws.length-write_var_int (length f)))
          size in
      ap (λ (r : Bytes × Result (Unit {0})). length r.0) (sym run ∙ ran) ∙ omega (arith, fits)

  sp_tweaks_route-IsSized :
      (side : Side SpTweakFiles) (dust_limit : ℕ) → IsSized (sp_tweaks_route wire s side dust_limit)
  sp_tweaks_route-IsSized side dust_limit start end n out size run =
      let (body, ran, fits) =
        sp_tweaks-size wire laws s.net side.own.tweak_data dust_limit start end n size in
      ap (λ (r : Bytes × Result (Unit {0})). length r.0) (sym run ∙ ran) ∙ fits

  module _ (chain : Chain H) (disk : FileServer) (r : Request) (c : H2HCache) where
    -- The requests for headers, for filters and for the tweaks of a dust level, whatever the
    -- producers have in memory, and for any byte ranges and conditions of the request: every
    -- response is honest. A length that it announces is that of its body, unless the body is what a
    -- failed serialization has written; and if it may be cached for long, there is a file of the
    -- route on disk, and the response is all of it, one or several parts of it, or has no body.
    pub headers_request_handler-IsHonest :
        IsHonestResult disk (headers_route wire s) (headers_request_handler wire s chain disk r c).1
        × IsHonestResult disk
            (filters_route wire s)
            (filters_request_handler wire s chain disk r c).1
        × ((side : Side SpTweakFiles) (level : ℤ)
            → IsHonestResult disk
                (sp_tweaks_route wire s side (to_uint 64 level))
                (sp_tweaks_at wire s chain disk r side (ok level) c).1)
    unfolding headers_request_handler filters_request_handler sp_tweaks_at
    headers_request_handler-IsHonest = (
      height_based_request_handler-IsHonest disk (headers_route wire s) r.asked
          headers_route-IsSized chain s.header_files.processor s.light_mode _ c,
      height_based_request_handler-IsHonest disk (filters_route wire s) r.asked
          filters_route-IsSized chain s.cfilter_files.processor s.light_mode _ c,
      tweaks,
    )
      where
        tweaks :
            (side : Side SpTweakFiles) (level : ℤ)
            → IsHonestResult disk
                (sp_tweaks_route wire s side (to_uint 64 level))
                (sp_tweaks_at wire s chain disk r side (ok level) c).1
        tweaks side level =
            let route = sp_tweaks_route wire s side (to_uint 64 level) in
            elim (Bool-cases (is_valid_sp_tweak_dust_limit (to_uint 64 level))) [
              | inl q ↦ rw q (
                  height_based_request_handler-IsHonest disk route r.asked
                    (sp_tweaks_route-IsSized side (to_uint 64 level)) chain side.processor
                    s.light_mode _ c)
              | inr q ↦ rw q (ok-Ensures (IsHonest disk route) (error disk route 400))
            ]
