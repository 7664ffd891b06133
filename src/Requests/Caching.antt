-- ===== src/Requests/Caching.antt =====
-- What the responses allow caches to do: only what cannot change any more is kept for a year, and no
-- failure of the server is kept at all.
pub mod Proxied
pub mod Handlers
use block_dn.Common.{
  ℕ, ◌+◌, ◌-◌, ◌<◌, ◌≤◌, ◌≡◌, ◌&&◌, refl, inl, inr, Bool, true, false, Option, none, some,
  Bool-cases, Option-cases, arith, leb, ltb, ◌==◌, if◌then◌else◌,
}
use block_dn.Common.Int.{ℤ, pos, ◌+ℤ◌, ◌-ℤ◌, ◌≤ℤ◌, leb_ℤ, ltb_ℤ, ltb_ℤ→≤ℤ, leb_ℤ→≤ℤ}
use block_dn.Common.Effect.{Result, ok, err, Result-cases}
use block_dn.External.{Bytes, Hash}
use block_dn.Cache.{H2HCache, get_block_hash}
use block_dn.Files.{FileName}
use block_dn.Responses.Parts.{IsFileOr, IsServed, serve_file-cases}
use block_dn.Serving.{
  Tier, max_age_disk, max_age_memory, Response, Route, Processor, send_error, memory_response,
  height_based_request_handler,
}
use block_dn.Serving.Outcomes.{
  Ensures, ok-Ensures, err-Ensures, Covers, height_based_request_handler-Ensures,
  height_based_import_request_handler-Ensures, height_based_import_latest_handler-Ensures,
}
use block_dn.Requests
use block_dn.Requests.{
  query_format, Request, Server, Var, CacheControl, no_caching, revalidated_after, cache_control,
  add_cache_headers,
}
use block_dn.Requests.Routes.{World, Endpoint, handle}
use block_dn.Requests.Routes
use block_dn.Common.{List, []}
use block_dn.Requests.Proxy.{
  spent_tx_outs_of, MerkleBlock, requested_hash, safe_height, rest_response, binary_or_error,
  Serializable,
}
use block_dn.Requests.Ranges.{requested_height}

module _ {H : Type 0} (w : World H) (s : Server H) (r : Request) where
  -- The body is what bitcoind has under a hash of the request.
  pub record IsObject (call : Hash → Result Serializable) (v : Var) (response : Response)
      : Type 0 where
    pub hash : Hash
    pub requested : requested_hash w.node r v ≡ ok hash
    pub object : Serializable
    pub found : call hash ≡ ok object
    pub sent : response.body ≡ (object []).0

  -- The body is a merkle block of the requested transaction, whose block is at a safe height.
  pub record IsDeepProof (response : Response) : Type 0 where
    pub hash : Hash
    pub requested : requested_hash w.node r Var.txid ≡ ok hash
    pub block : MerkleBlock
    pub found : w.node.get_tx_out_proof hash ≡ ok block
    pub sent : block.encoded ≡ ok response.body
    pub height : ℤ
    pub at : w.node.header_height block.block_hash ≡ ok height
    pub safe : height ≤ℤ safe_height w.node r s

  -- The end height of an import request is in the request, or behind the tip.
  pub data Ends (end : ℤ) : Endpoint → Type 0 where
    headers_to :
        requested_height w.wire s w.chain w.disk r ≡ ok end → Ends end Endpoint.headers_import
    filter_headers_to :
        requested_height w.wire s w.chain w.disk r ≡ ok end
        → Ends end Endpoint.filter_headers_import
    headers_latest :
        end ≡ s.header_files.processor.current_height +ℤ pos 1
        → Ends end Endpoint.headers_import_latest
    filter_headers_latest :
        end ≡ s.header_files.processor.current_height +ℤ pos 1
        → Ends end Endpoint.filter_headers_import_latest

  -- Why a successful response may be kept for a year: it is an object of bitcoind under
  -- its own hash; or the proof of a transaction in a block at or below the safe height; or the
  -- filter of a height that is sealed; or an import up to a height that is sealed.
  pub data Lasting (response : Response) : Endpoint → Type 0 where
    of_block : IsObject w.node.get_block Var.hash response → Lasting response Endpoint.block
    of_header :
        IsObject w.node.get_block_header Var.hash response → Lasting response Endpoint.header
    of_tx : IsObject w.node.get_raw_transaction Var.txid response → Lasting response Endpoint.raw_tx
    of_spent :
        (h : Hash)
        → requested_hash w.node r Var.hash ≡ ok h
        → w.node.rest (spent_tx_outs_of h (query_format r)) ≡ ok (200, response.body)
        → Lasting response Endpoint.spent_tx_outs
    deep_proof : IsDeepProof response → Lasting response Endpoint.tx_out_proof
    sealed_filter :
        (height : ℤ)
        → requested_height w.wire s w.chain w.disk r ≡ ok height
        → height ≤ℤ s.cfilter_files.processor.last_sealed_height
        → Lasting response Endpoint.filter_single
    sealed_import :
        {e : Endpoint} (end : ℤ)
        → Ends end e
        → end ≤ℤ s.header_files.processor.last_sealed_height +ℤ pos 1
        → Lasting response e

  -- Why a response may be kept for a year: it is a success as above; or the file server made it of a
  -- file on disk.
  pub data Kept (response : Response) (e : Endpoint) : Type 0 where
    success_of : response.status ≡ 200 → Lasting response e → Kept response e
    file_of :
        (name : FileName) (bytes : Bytes)
        → w.disk.contents name ≡ some bytes
        → IsFileOr w.disk bytes response
        → Kept response e

  -- What a cache may rely on.
  pub record IsCacheable (e : Endpoint) (response : Response) : Type 0 where
    pub lasting : (n : ℕ) → cache_control response ≡ revalidated_after n → Kept response e
    pub failing : 500 ≤ response.status → cache_control response ≡ no_caching

  module _ (e : Endpoint) where
    last_tier :
        (tier : Tier) (n : ℕ)
        → Requests.tier_header tier ≡ revalidated_after n
        → tier ≡ max_age_disk
    unfolding add_cache_headers
    last_tier Tier.no_header n q = cc
    last_tier Tier.no_cache n q = cc
    last_tier Tier.max_age_temporary n q = cc
    last_tier Tier.max_age_memory n q = cc
    last_tier Tier.max_age_disk n q = refl

    of_file :
        (response : Response) (name : FileName) (bytes : Bytes)
        → w.disk.contents name ≡ some bytes
        → IsServed w.disk bytes response
        → IsCacheable e response
    of_file response name bytes there served = record {
      lasting = λ n q. file_of name bytes there (served.kept (last_tier response.tier n q));
      failing = λ bad. absurd (omega (arith, served.low, bad));
    }

    -- A success, which is lasting if it is in the last tier.
    pub success :
        (response : Response)
        → response.status ≡ 200
        → (response.tier ≡ max_age_disk → Lasting response e)
        → IsCacheable e response
    unfolding add_cache_headers
    success response good why = record {
      lasting = λ n q. success_of good (why (last_tier response.tier n q));
      failing = λ bad. absurd (omega (arith, good, bad));
    }

    pub failure : (code : ℕ) → IsCacheable e (send_error code)
    unfolding send_error add_cache_headers
    failure code = elim (Bool-cases (leb 400 code && ltb code 500)) [
      | inl q ↦ record {
        lasting = λ n p. cc (rw q at p);
        failing = λ bad. absurd (ground (arith, q));
      }
      | inr q ↦ record { lasting = λ n p. cc (rw q at p); failing = λ bad. rw q }
    ]

    covers : (route : Route) → Covers (IsCacheable e) w.disk r.asked route
    unfolding memory_response
    covers route = record {
      refused = failure 400;
      unavailable = failure 503;
      from_file = λ start bytes q.
          serve_file-cases (IsCacheable e) w.disk r.asked _ bytes (failure 500)
            (λ response served. of_file response _ bytes q served);
      from_memory = λ start end. success (memory_response route start end) refl (λ p. cc);
    }

    pub of_range :
        (p : Processor) (route : Route) (c : H2HCache)
        → Ensures
            (IsCacheable e)
            (height_based_request_handler w.chain w.disk r.asked s.light_mode p route
              (requested_height w.wire s w.chain w.disk r)
              c).1
    of_range p route c =
        height_based_request_handler-Ensures (IsCacheable e) w.disk r.asked route w.chain p
          (covers route) s.light_mode _ c
