-- ===== src/Requests/Caching/Proxied.antt =====
-- The handlers that pass a request on to bitcoind send what caches may rely on.
use block_dn.Common.{ℕ, ◌≡◌, refl, inl, inr, Bool-cases, Option-cases, ◌==◌, ap, arith}
use block_dn.Common.Int.{ℤ, ◌≤ℤ◌, ltb_ℤ, ltb_ℤ→≤ℤ}
use block_dn.Common.Effect.{Result, ok, err, Result-cases}
use block_dn.External.{Bytes, Hash}
use block_dn.Serving.{Tier, max_age_disk, max_age_memory, Response, send_error}
use block_dn.Serving.Import.{send_raw_bytes}
use block_dn.Requests.{
  parse_request_param_int64, Request, Server, Var, query_format, check_mempool, send_json,
  send_binary,
}
use block_dn.Requests.Routes.{World, Endpoint}
use block_dn.Requests.Proxy.{
  spent_tx_outs_of, utxos_of, Serializable, requested_hash, safe_height, proof_tier, rest_response,
  binary_or_error, block_request_handler, header_request_handler, raw_tx_request_handler,
  block_spent_tx_outs_request_handler, utxo_request_handler, estimate_fee_request_handler,
  tx_out_proof_request_handler,
}
use block_dn.Requests.Caching.{IsObject, Lasting, IsCacheable, success, failure}

module _ {H : Type 0} (w : World H) (s : Server H) (r : Request) where
  abbrev pub Good : Endpoint → Response → Type 0
  Good = IsCacheable w s r

  pub fails : (e : Endpoint) (code : ℕ) → Good e (send_error code)
  fails = failure w s r

  binary :
      (e : Endpoint) (call : Hash → Result Serializable) (v : Var) (h : Hash)
      → requested_hash w.node r v ≡ ok h
      → ((response : Response) → IsObject w s r call v response → Lasting w s r response e)
      → Good e (binary_or_error (call h))
  binary e call v h at why = elim (Result-cases (call h)) [
    | inr (x, q) ↦ rw q (fails e 500)
    | inl (object, q) ↦ rw q (
        success w s r e (send_binary object max_age_disk) refl (λ p.
          why _ (record { hash = h; requested = at; object = object; found = q; sent = refl })))
  ]

  rest :
      (e : Endpoint) (tier : Tier) (answer : Result (ℕ × Bytes))
      → ((body : Bytes)
          → answer ≡ ok (200, body)
          → tier ≡ max_age_disk
          → Lasting w s r (send_json body tier) e)
      → Good e (rest_response tier answer)
  rest e tier (err x) why = fails e 500
  rest e tier (ok (code, body)) why = elim (Bool-cases (code == 200)) [
    | inl q ↦ rw q (
        success w s r e (send_json body tier) refl
          (λ p. why body (ap (λ (k : ℕ). ok (k, body)) (ground (arith, q))) p))
    | inr q ↦ rw q (fails e code)
  ]

  pub block : Good Endpoint.block (block_request_handler w.node r)
  unfolding block_request_handler
  block = elim (Result-cases (requested_hash w.node r Var.hash)) [
    | inl (h, q) ↦
        rw q (binary Endpoint.block w.node.get_block Var.hash h q (λ response. Lasting.of_block))
    | inr (x, q) ↦ rw q (fails Endpoint.block 400)
  ]

  pub header : Good Endpoint.header (header_request_handler w.node r)
  unfolding header_request_handler
  header = elim (Result-cases (requested_hash w.node r Var.hash)) [
    | inl (h, q) ↦ rw q (
        binary Endpoint.header w.node.get_block_header Var.hash h q (λ response. Lasting.of_header))
    | inr (x, q) ↦ rw q (fails Endpoint.header 400)
  ]

  pub raw_tx : Good Endpoint.raw_tx (raw_tx_request_handler w.node r)
  unfolding raw_tx_request_handler
  raw_tx = elim (Result-cases (requested_hash w.node r Var.txid)) [
    | inl (h, q) ↦
        rw q (
          binary Endpoint.raw_tx w.node.get_raw_transaction Var.txid h q
            (λ response. Lasting.of_tx))
    | inr (x, q) ↦ rw q (fails Endpoint.raw_tx 400)
  ]

  pub spent : Good Endpoint.spent_tx_outs (block_spent_tx_outs_request_handler w.node r)
  unfolding block_spent_tx_outs_request_handler
  spent = elim (Result-cases (requested_hash w.node r Var.hash)) [
    | inl (h, q) ↦ rw q (
        rest Endpoint.spent_tx_outs max_age_disk (w.node.rest (spent_tx_outs_of h (query_format r)))
          (λ body found p. Lasting.of_spent h q found))
    | inr (x, q) ↦ rw q (fails Endpoint.spent_tx_outs 400)
  ]

  pub utxo : Good Endpoint.utxo (utxo_request_handler w.node r)
  unfolding utxo_request_handler
  utxo = elim (Result-cases (requested_hash w.node r Var.txid)) [
    | inl (h, q) ↦ elim (Result-cases (parse_request_param_int64 r Var.vout)) [
      | inl (i, q2) ↦
          rw (q, q2)
            (rest Endpoint.utxo max_age_memory
              (w.node.rest (utxos_of (check_mempool r) h i (query_format r))) (λ body found p. cc))
      | inr (x, q2) ↦ rw (q, q2) (fails Endpoint.utxo 400)
    ]
    | inr (x, q) ↦ rw q (fails Endpoint.utxo 400)
  ]

  pub json_memory : (e : Endpoint) (body : Bytes) → Good e (send_json body max_age_memory)
  json_memory e body = success w s r e (send_json body max_age_memory) refl (λ q. cc)

  pub fee : Good Endpoint.estimate_fee (estimate_fee_request_handler w.node r w.encode_fee)
  unfolding estimate_fee_request_handler
  fee = elim (Result-cases (parse_request_param_int64 r Var.blocks)) [
    | inr (x, q) ↦ rw q (fails Endpoint.estimate_fee 500)
    | inl (target, q) ↦ elim (Result-cases (w.node.estimate_smart_fee target)) [
      | inr (x, q2) ↦ rw (q, q2) (fails Endpoint.estimate_fee 500)
      | inl (estimate, q2) ↦ elim (Bool-cases estimate.has_errors) [
        | inl q3 ↦ rw (q, q2, q3) (fails Endpoint.estimate_fee 500)
        | inr q3 ↦ elim (Option-cases estimate.rate) [
          | inl q4 ↦ rw (q, q2, q3, q4) (fails Endpoint.estimate_fee 500)
          | inr (kvb, q4) ↦ rw (q, q2, q3, q4) (json_memory Endpoint.estimate_fee _)
        ]
      ]
    ]
  ]

  pub proof : Good Endpoint.tx_out_proof (tx_out_proof_request_handler w.node r s)
  unfolding tx_out_proof_request_handler
  proof = elim (Result-cases (requested_hash w.node r Var.txid)) [
    | inr (x, q) ↦ rw q (fails Endpoint.tx_out_proof 400)
    | inl (h, q) ↦ elim (Result-cases (w.node.get_tx_out_proof h)) [
      | inr (x, q2) ↦ rw (q, q2) (fails Endpoint.tx_out_proof 500)
      | inl (block, q2) ↦ elim (Result-cases (w.node.header_height block.block_hash)) [
        | inr (x, q3) ↦ rw (q, q2, q3) (fails Endpoint.tx_out_proof 500)
        | inl (height, q3) ↦ elim (Result-cases block.encoded) [
          | inr (x, q4) ↦ rw (q, q2, q3, q4) (fails Endpoint.tx_out_proof 500)
          | inl (bytes, q4) ↦
              rw (q, q2, q3, q4)
                (success w s r Endpoint.tx_out_proof
                  (send_raw_bytes bytes (proof_tier w.node r s height)) refl
                  (λ p. Lasting.deep_proof (record {
                    hash = h;
                    requested = q;
                    block = block;
                    found = q2;
                    sent = q4;
                    height = height;
                    at = q3;
                    safe = deep height p;
                  })))
        ]
      ]
    ]
  ]
    where
      deep :
          (height : ℤ)
          → proof_tier w.node r s height ≡ max_age_disk
          → height ≤ℤ safe_height w.node r s
      deep height p = elim (Bool-cases (ltb_ℤ (safe_height w.node r s) height)) [
        | inl q ↦ cc (rw q at p)
        | inr q ↦ ltb_ℤ→≤ℤ (safe_height w.node r s) height q
      ]
