-- ===== src/PrevOuts.antt =====
-- block-prevouts.go: blocks together with the scripts of the outputs that they spend. `T` is
-- `wire.MsgTx` and `O` is `wire.OutPoint`.
pub mod RoundTrip
pub mod Bounds
pub mod Pairing
pub mod Known
pub mod Prefetch
use block_dn.Common.{
  ℕ, zero, suc, ◌+◌, ◌-◌, ◌*◌, ◌^◌, ◌==◌, ◌≡◌, Bool, true, false, Option, none, some, List, [], ◌∷◌,
  ◌++◌, if◌then◌else◌, ltb, leb, length, take, drop,
}
use block_dn.Common.Int.{ℤ, pos, negsuc, ltb_ℤ}
use block_dn.Common.Effect.{
  Result, ok, err, failed, M, and_then, lift, ◌>>=◌, ◌>>◌, continue, gets, modify,
}
use block_dn.External.{Bytes, Hash, Wire, Read, got, eof, bad}
use block_dn.SpTweaks.{TxOut, Block, to_uint}
use Prim.Native.String.{String}

-- A value and the bytes behind it.
abbrev pub Parsed : Type 0 → Type 0
Parsed A = Result (A × Bytes)

abbrev pub from_read : {A : Type 0} → Read A → Parsed A
from_read (got a rest) = ok (a, rest)
from_read eof = err failed
from_read bad = err failed

-- `binary.LittleEndian.Uint64` on the bytes, and `int64` of it.
abbrev pub from_little_endian : Bytes → ℕ
from_little_endian [] = 0
from_little_endian (b ∷ bs) = b + 256 * from_little_endian bs

abbrev pub to_int64 : ℕ → ℤ
to_int64 n = if ltb n (2 ^ 63) then pos n else negsuc (2 ^ 64 - 1 - n)

-- `io.ReadFull` into eight bytes.
abbrev pub read_eight : Bytes → Parsed Bytes
read_eight bs = if leb 8 (length bs) then ok (take 8 bs, drop 8 bs) else err failed

module _ {H : Type 0} (wire : Wire H) (max_count max_payload : ℕ) where
  -- One spent output: its value and its script.
  unfoldable pub parse_out : Bytes → Parsed TxOut
  parse_out r = and_then (read_eight r) λ p.
      and_then (from_read (wire.read_var_bytes max_payload p.1))
        λ q. ok (record { value = to_int64 (from_little_endian p.0); pk_script = q.0 }, q.1)

  unfoldable pub parse_outs : ℕ → Bytes → Parsed (List TxOut)
  parse_outs zero r = ok ([], r)
  parse_outs (suc n) r =
      and_then (parse_out r) λ p. and_then (parse_outs n p.1) λ q. ok (p.0 ∷ q.0, q.1)

  -- A count that is above the cap is an error.
  unfoldable pub parse_count : Bytes → Parsed ℕ
  parse_count r =
      and_then (from_read (wire.read_var_int r)) λ p. if ltb max_count p.0 then err failed else ok p

  unfoldable pub parse_list : Bytes → Parsed (List TxOut)
  parse_list r = and_then (parse_count r) λ p. parse_outs p.0 p.1

  unfoldable pub parse_lists : ℕ → Bytes → Parsed (List (List TxOut))
  parse_lists zero r = ok ([], r)
  parse_lists (suc n) r =
      and_then (parse_list r) λ p. and_then (parse_lists n p.1) λ q. ok (p.0 ∷ q.0, q.1)

  -- The end of the response is checked last.
  abbrev pub no_trailing : List (List TxOut) × Bytes → Result (List (List TxOut))
  no_trailing (lists, []) = ok lists
  no_trailing (lists, b ∷ bs) = err failed

  unfoldable pub parse_spent_tx_outs : Bytes → Result (List (List TxOut))
  parse_spent_tx_outs r = and_then (parse_count r) λ p. and_then (parse_lists p.0 p.1) no_trailing

-- What the code takes from btcd's packages wire and blockchain, and Go's equality of outpoints.
pub record Blocks (T O : Type 0) : Type 0 where
  pub tx_ins : T → List O
  pub outpoint_eq : O → O → Bool
  pub is_coinbase : T → Bool
  pub deserialize_block : Bytes → Result (List T)
  pub deserialize_tx_hex : String → Result T

-- The paths of the REST API.
pub data RestPath : Type 0 where
  chain_info : RestPath
  block_at spent_tx_outs_at : Hash → RestPath

-- One transaction of the getblock response: its hex, and the script of each input's previous
-- output, if the response has one.
pub record GetBlockTx : Type 0 where
  pub hex : String
  pub vin : List (Option String)

-- The backend, as one fetch sees it: an HTTP status with a body, and the decoded getblock response.
pub record PrevOutBackend : Type 0 where
  pub http_get : RestPath → Result (ℕ × Bytes)
  pub get_block : Hash → Result (List GetBlockTx)

unfoldable pub rest_get : PrevOutBackend → RestPath → Result Bytes
rest_get backend path =
    and_then (backend.http_get path) λ p. if p.0 == 200 then ok p.1 else err failed

-- The previous output of one input in the getblock response: it may be missing, and it is in hex.
unfoldable pub vin_script : {H : Type 0} → Wire H → Option String → Result Bytes
vin_script wire none = err failed
vin_script wire (some hex) = wire.decode_hex hex

module _ {T O : Type 0} (blocks : Blocks T O) where
  abbrev pub Scripts : Type 0
  Scripts = O → Option Bytes

  abbrev pub put_script : O → Bytes → Scripts → Scripts
  put_script op script scripts other =
      if blocks.outpoint_eq other op then some script else scripts other

  abbrev pub no_scripts : Scripts
  no_scripts op = none

  -- `for vinIndex, txIn := range tx.TxIn`, where there are as many outputs as inputs.
  unfoldable pub put_spent : List O → List TxOut → Scripts → Scripts
  put_spent (op ∷ ops) (s ∷ ss) scripts = put_spent ops ss (put_script op s.pk_script scripts)
  put_spent _ _ scripts = scripts

  unfoldable pub pair_tx : T → List TxOut → Scripts → Result Scripts
  pair_tx tx spent scripts =
      if length spent == length (blocks.tx_ins tx)
      then ok (put_spent (blocks.tx_ins tx) spent scripts)
      else err failed

  -- The loop of `fetchBlockREST` behind the coinbase transaction, where there are as many lists as
  -- transactions.
  unfoldable pub pair_txs : List T → List (List TxOut) → Scripts → Result Scripts
  pair_txs (tx ∷ txs) (l ∷ ls) scripts = and_then (pair_tx tx l scripts) (pair_txs txs ls)
  pair_txs _ _ scripts = ok scripts

  -- The first list belongs to the coinbase transaction, and is not looked at.
  abbrev pair_behind_first : List T → List (List TxOut) → Result Scripts
  pair_behind_first (tx ∷ txs) (l ∷ ls) = pair_txs txs ls no_scripts
  pair_behind_first _ _ = ok no_scripts

  unfoldable pub pair_block : List T → List (List TxOut) → Result Scripts
  pair_block txs lists =
      if length lists == length txs then pair_behind_first txs lists else err failed

  abbrev pub bundle : List T → Scripts → Block T O
  bundle txs scripts = record { txs = txs; prev_out_scripts = scripts }

  module _ {H : Type 0} (wire : Wire H) where
    unfoldable pub put_vins : List O → List (Option String) → Scripts → Result Scripts
    put_vins (op ∷ ops) (v ∷ vs) scripts =
        and_then (vin_script wire v) λ script. put_vins ops vs (put_script op script scripts)
    put_vins _ _ scripts = ok scripts

    unfoldable pub pair_rpc_tx : T → List (Option String) → Scripts → Result Scripts
    pair_rpc_tx tx vin scripts = elim (blocks.is_coinbase tx) [
      | true ↦ ok scripts
      | false ↦
          if length vin == length (blocks.tx_ins tx)
          then put_vins (blocks.tx_ins tx) vin scripts
          else err failed
    ]

    -- The loop of `getBlockWithPrevOuts`; `txs` are the transactions so far.
    unfoldable pub pair_rpc : List GetBlockTx → List T → Scripts → Result (Block T O)
    pair_rpc [] txs scripts = ok (bundle txs scripts)
    pair_rpc (r ∷ rs) txs scripts = and_then (blocks.deserialize_tx_hex r.hex) λ tx.
        and_then (pair_rpc_tx tx r.vin scripts) λ scripts. pair_rpc rs (txs ++ tx ∷ []) scripts

  -- `fetchBlockREST` and `getBlockWithPrevOuts`
  module _ {H : Type 0} (wire : Wire H) (max_count max_payload : ℕ) (backend : PrevOutBackend) where
    unfoldable pub fetch_block_rest : Hash → Result (Block T O)
    fetch_block_rest hash = and_then (rest_get backend (block_at hash)) λ block_bytes.
        and_then (blocks.deserialize_block block_bytes) λ txs.
          and_then (rest_get backend (spent_tx_outs_at hash)) λ spent_bytes.
            and_then (parse_spent_tx_outs wire max_count max_payload spent_bytes)
              λ lists. and_then (pair_block txs lists) λ scripts. ok (bundle txs scripts)

    unfoldable pub get_block_with_prev_outs : Hash → Result (Block T O)
    get_block_with_prev_outs hash =
        and_then (backend.get_block hash) λ rs. pair_rpc wire rs [] no_scripts

-- `blockPrevOutFetcher`: whether the one probe has run, and what it found.
pub record BlockPrevOutFetcher : Type 0 where
  pub probed : Bool
  pub use_rest : Bool

-- `newBlockPrevOutFetcher`
abbrev pub new_block_prev_out_fetcher : BlockPrevOutFetcher
new_block_prev_out_fetcher = record { probed = false; use_rest = false }

-- `probeREST`: a status other than 200, or no answer, leaves the REST API unused.
unfoldable pub probe_rest : PrevOutBackend → BlockPrevOutFetcher → BlockPrevOutFetcher
probe_rest backend f = elim (backend.http_get chain_info) [
  | err e ↦ f
  | ok (status, body) ↦ if status == 200 then record f { use_rest = true } else f
]

-- `f.probeOnce.Do(f.probeREST)`
unfoldable pub probe_once : PrevOutBackend → BlockPrevOutFetcher → BlockPrevOutFetcher
probe_once backend f = if f.probed then f else record (probe_rest backend f) { probed = true }

unfoldable pub require_rest : PrevOutBackend → M BlockPrevOutFetcher (Unit {0})
require_rest backend f =
    let f1 = probe_once backend f in (f1, if f1.use_rest then ok tt else err failed)

unfoldable pub fetch_block :
    {T O H : Type 0}
    → Blocks T O
    → Wire H
    → ℕ
    → ℕ
    → PrevOutBackend
    → Hash
    → M BlockPrevOutFetcher (Block T O)
fetch_block blocks wire max_count max_payload backend hash f =
    let f1 = probe_once backend f in
    (
      f1,
      if f1.use_rest
          then fetch_block_rest blocks wire max_count max_payload backend hash
          else get_block_with_prev_outs blocks wire max_count max_payload backend hash,
    )

-- `minPrevOutBackendVersion`
unfoldable pub verify_prev_out_backend_version : ℤ → Result (Unit {0})
verify_prev_out_backend_version version = if ltb_ℤ version (pos 300000) then err failed else ok tt
