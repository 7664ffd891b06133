-- ===== src/Requests/Proxy.antt =====
-- handlers.go: the requests that are passed on to bitcoind: blocks, headers, transactions, proofs,
-- outputs and fees.
use Prim.Native.String.{String}
use block_dn.Common.{ℕ, Bool, Option, none, some, ◌==◌, if◌then◌else◌}
use block_dn.Common.Int.{ℤ, pos, ◌-ℤ◌, ltb_ℤ}
use block_dn.Common.Effect.{Result, ok, err, M}
use block_dn.External.{Bytes, Hash}
use block_dn.Serving.{
  Tier, max_age_temporary, max_age_memory, max_age_disk, Response, send_error, to_int32,
}
use block_dn.Serving.Import.{send_raw_bytes}
use block_dn.Requests.{
  Request, Server, Format, Var, hash, blocks, txid, vout, parse_request_param_int64,
  parse_request_param_chain_hash, query_format, check_mempool, send_json, send_binary,
}

-- A `wire` object that is sent by its `Serialize`.
abbrev pub Serializable : Type 0
Serializable = M Bytes (Unit {0})

-- A `wire.MsgMerkleBlock`: the hash of its header, and what `BtcEncode` makes of it.
pub record MerkleBlock : Type 0 where
  pub block_hash : Hash
  pub encoded : Result Bytes

-- The answer of `EstimateSmartFee`: whether it lists errors, and its rate, if it has one, in
-- satoshis per 1000 virtual bytes.
pub record FeeEstimate : Type 0 where
  pub has_errors : Bool
  pub rate : Option ℤ

pub record FeeRate : Type 0 where
  pub sat_per_kvbyte : ℤ
  pub sat_per_kweight : ℤ
  pub sat_per_vbyte : ℤ

-- The paths of bitcoind's REST API that are asked for.
pub data RestPath : Type 0 where
  spent_tx_outs_of : Hash → Format → RestPath
  utxos_of : Bool → Hash → ℤ → Format → RestPath

-- bitcoind as one request sees it, and the conversions of lnd's package chainfee. An error of `rest`
-- is one of building or of sending the request.
pub record Node : Type 0 where
  pub get_block : Hash → Result Serializable
  pub get_block_header : Hash → Result Serializable
  pub get_raw_transaction : Hash → Result Serializable
  pub get_tx_out_proof : Hash → Result MerkleBlock
  pub header_height : Hash → Result ℤ
  pub estimate_smart_fee : ℤ → Result FeeEstimate
  pub rest : RestPath → Result (ℕ × Bytes)
  pub fee_per_kweight : ℤ → ℤ
  pub fee_per_vbyte : ℤ → ℤ
  pub new_hash_from_str : String → Result Hash

-- An object of bitcoind, or the error of the call.
abbrev pub binary_or_error : Result Serializable → Response
binary_or_error (ok object) = send_binary object max_age_disk
binary_or_error (err e) = send_error 500

-- The answer of the REST API: its body, or its status as an error.
abbrev pub rest_response : Tier → Result (ℕ × Bytes) → Response
rest_response tier (err e) = send_error 500
rest_response tier (ok (status, body)) =
    if status == 200 then send_json body tier else send_error status

module _ (node : Node) (r : Request) where
  abbrev pub requested_hash : Var → Result Hash
  requested_hash = parse_request_param_chain_hash node.new_hash_from_str r

  abbrev binary_of : (Hash → Result Serializable) → Result Hash → Response
  binary_of call (err e) = send_error 400
  binary_of call (ok h) = binary_or_error (call h)

  unfoldable pub block_request_handler : Response
  block_request_handler = binary_of node.get_block (requested_hash hash)

  unfoldable pub header_request_handler : Response
  header_request_handler = binary_of node.get_block_header (requested_hash hash)

  unfoldable pub raw_tx_request_handler : Response
  raw_tx_request_handler = binary_of node.get_raw_transaction (requested_hash txid)

  abbrev spent_of : Result Hash → Response
  spent_of (err e) = send_error 400
  spent_of (ok h) = rest_response max_age_disk (node.rest (spent_tx_outs_of h (query_format r)))

  unfoldable pub block_spent_tx_outs_request_handler : Response
  block_spent_tx_outs_request_handler = spent_of (requested_hash hash)

  abbrev utxo_of : Hash → Result ℤ → Response
  utxo_of h (err e) = send_error 400
  utxo_of h (ok index) =
      rest_response max_age_memory (node.rest (utxos_of (check_mempool r) h index (query_format r)))

  abbrev utxos_of_tx : Result Hash → Response
  utxos_of_tx (err e) = send_error 400
  utxos_of_tx (ok h) = utxo_of h (parse_request_param_int64 r vout)

  unfoldable pub utxo_request_handler : Response
  utxo_request_handler = utxos_of_tx (requested_hash txid)

  -- The rate in its three units.
  abbrev pub fee_rate : ℤ → FeeRate
  fee_rate kvb = record {
    sat_per_kvbyte = kvb;
    sat_per_kweight = node.fee_per_kweight kvb;
    sat_per_vbyte = node.fee_per_vbyte (node.fee_per_kweight kvb);
  }

  abbrev rated : (FeeRate → Bytes) → Option ℤ → Response
  rated encode none = send_error 500
  rated encode (some kvb) = send_json (encode (fee_rate kvb)) max_age_memory

  abbrev estimated : (FeeRate → Bytes) → Result FeeEstimate → Response
  estimated encode (err e) = send_error 500
  estimated encode (ok estimate) =
      if estimate.has_errors then send_error 500 else rated encode estimate.rate

  abbrev fee_for : (FeeRate → Bytes) → Result ℤ → Response
  fee_for encode (err e) = send_error 500
  fee_for encode (ok target) = estimated encode (node.estimate_smart_fee target)

  -- `encode` is the JSON encoder.
  unfoldable pub estimate_fee_request_handler : (FeeRate → Bytes) → Response
  estimate_fee_request_handler encode = fee_for encode (parse_request_param_int64 r blocks)

  module _ {H : Type 0} (s : Server H) where
    -- The highest height that is safe from reorganizations, in 32 bits.
    abbrev pub safe_height : ℤ
    safe_height =
        to_int32 (s.header_files.processor.current_height -ℤ to_int32 (pos s.re_org_safe_depth))

    abbrev pub proof_tier : ℤ → Tier
    proof_tier height = if ltb_ℤ safe_height height then max_age_temporary else max_age_disk

    abbrev proof_at : MerkleBlock → Result ℤ → Response
    proof_at merkle_block (err e) = send_error 500
    proof_at merkle_block (ok height) = elim merkle_block.encoded [
      | err e ↦ send_error 500
      | ok bytes ↦ send_raw_bytes bytes (proof_tier height)
    ]

    abbrev proof_of : Result MerkleBlock → Response
    proof_of (err e) = send_error 500
    proof_of (ok merkle_block) = proof_at merkle_block (node.header_height merkle_block.block_hash)

    abbrev proof_for : Result Hash → Response
    proof_for (err e) = send_error 400
    proof_for (ok h) = proof_of (node.get_tx_out_proof h)

    unfoldable pub tx_out_proof_request_handler : Response
    tx_out_proof_request_handler = proof_for (requested_hash txid)
