-- ===== src/PrevOuts/Pairing.antt =====
-- The REST API and the RPC give the same block with the same scripts.
use block_dn.Common.{
  ℕ, suc, ◌==◌, ◌≤◌, ◌<◌, ◌^◌, ◌≡◌, refl, sym, ap, ◌∙◌, true, false, Option, List, [], ◌∷◌, ◌++◌,
  length, All, arith,
}
use block_dn.Common.Effect.{ok}
use block_dn.External.{Bytes, Hash, Wire, WireLaws}
use block_dn.SpTweaks.{TxOut}
use block_dn.PrevOuts.{
  Blocks, Scripts, GetBlockTx, PrevOutBackend, block_at, spent_tx_outs_at, rest_get, vin_script,
  no_scripts, put_script, put_spent, pair_tx, pair_txs, pair_block, bundle, put_vins, pair_rpc_tx,
  pair_rpc, fetch_block_rest, get_block_with_prev_outs,
}
use block_dn.PrevOuts.RoundTrip.{IsOutList, encode_lists, parse_spent_tx_outs-encode}
use mathlib.Core.List.{append_assoc, append-nil}
use Prim.Native.String.{String}

-- The inputs of a transaction in the getblock response have these spent outputs.
pub data AreVins {H : Type 0} (wire : Wire H) : List (Option String) → List TxOut → Type 0 where
  no_more : AreVins wire [] []
  more :
      {v : Option String} {vs : List (Option String)} {o : TxOut} {os : List TxOut}
      → vin_script wire v ≡ ok o.pk_script
      → AreVins wire vs os
      → AreVins wire (v ∷ vs) (o ∷ os)

length-AreVins :
    {H : Type 0} {wire : Wire H} {vs : List (Option String)} {os : List TxOut}
    → AreVins wire vs os
    → length vs ≡ length os
length-AreVins no_more = refl
length-AreVins (more e h) = ap suc (length-AreVins h)

module _ {T O H : Type 0} (blocks : Blocks T O) (wire : Wire H) where
  -- The response has these transactions, none of them coinbase, and each input's spent output.
  pub data AreSpending : List GetBlockTx → List T → List (List TxOut) → Type 0 where
    all_paired : AreSpending [] [] []
    paired :
        {r : GetBlockTx} {rs : List GetBlockTx} {tx : T} {txs : List T} {l : List TxOut}
        {ls : List (List TxOut)}
        → blocks.deserialize_tx_hex r.hex ≡ ok tx
        → blocks.is_coinbase tx ≡ false
        → length l ≡ length (blocks.tx_ins tx)
        → AreVins wire r.vin l
        → AreSpending rs txs ls
        → AreSpending (r ∷ rs) (tx ∷ txs) (l ∷ ls)

  -- The response to getblock: a coinbase transaction in front of those that spend.
  pub data IsResponse : List GetBlockTx → List T → List (List TxOut) → Type 0 where
    response :
        {r : GetBlockTx} {rs : List GetBlockTx} {tx : T} {txs : List T} {l : List TxOut}
        {ls : List (List TxOut)}
        → blocks.deserialize_tx_hex r.hex ≡ ok tx
        → blocks.is_coinbase tx ≡ true
        → AreSpending rs txs ls
        → IsResponse (r ∷ rs) (tx ∷ txs) (l ∷ ls)

  -- The scripts of all inputs, put in order.
  put_all : List T → List (List TxOut) → Scripts blocks → Scripts blocks
  put_all (tx ∷ txs) (l ∷ ls) scripts =
      put_all txs ls (put_spent blocks (blocks.tx_ins tx) l scripts)
  put_all _ _ scripts = scripts

  put_vins-put_spent :
      (ops : List O) {vs : List (Option String)} {os : List TxOut} (scripts : Scripts blocks)
      → AreVins wire vs os
      → put_vins blocks wire ops vs scripts ≡ ok (put_spent blocks ops os scripts)
  unfolding put_vins put_spent
  put_vins-put_spent [] scripts no_more = refl
  put_vins-put_spent [] scripts (more e h) = refl
  put_vins-put_spent (op ∷ ops) scripts no_more = refl
  put_vins-put_spent (op ∷ ops) scripts (more {o = o} e h) =
      rw e (put_vins-put_spent ops (put_script blocks op o.pk_script scripts) h)

  eq_length : (m n : ℕ) → m ≡ n → (m == n) ≡ true
  eq_length m n e = ground (arith, e)

  pair_txs-put_all :
      {rs : List GetBlockTx} {txs : List T} {ls : List (List TxOut)} (scripts : Scripts blocks)
      → AreSpending rs txs ls
      → pair_txs blocks txs ls scripts ≡ ok (put_all txs ls scripts)
  unfolding pair_txs pair_tx put_all
  pair_txs-put_all scripts all_paired = refl
  pair_txs-put_all scripts (paired {tx = tx} {l = l} e c n v h) =
      rw (eq_length (length l) (length (blocks.tx_ins tx)) n)
        (pair_txs-put_all (put_spent blocks (blocks.tx_ins tx) l scripts) h)

  pair_rpc_tx-put_spent :
      (vin : List (Option String)) (l : List TxOut) (tx : T) (scripts : Scripts blocks)
      → blocks.is_coinbase tx ≡ false
      → length l ≡ length (blocks.tx_ins tx)
      → AreVins wire vin l
      → pair_rpc_tx blocks wire tx vin scripts ≡ ok (put_spent blocks (blocks.tx_ins tx) l scripts)
  unfolding pair_rpc_tx
  pair_rpc_tx-put_spent vin l tx scripts c n v =
      rw (pair_rpc_tx, c, eq_length (length vin) (length (blocks.tx_ins tx)) (length-AreVins v ∙ n))
        (put_vins-put_spent (blocks.tx_ins tx) scripts v)

  pair_rpc_tx-coinbase :
      (vin : List (Option String)) (tx : T) (scripts : Scripts blocks)
      → blocks.is_coinbase tx ≡ true
      → pair_rpc_tx blocks wire tx vin scripts ≡ ok scripts
  unfolding pair_rpc_tx
  pair_rpc_tx-coinbase vin tx scripts c = rw (pair_rpc_tx, c)

  pair_rpc-put_all :
      {rs : List GetBlockTx} {txs : List T} {ls : List (List TxOut)} (before : List T)
      (scripts : Scripts blocks)
      → AreSpending rs txs ls
      → pair_rpc blocks wire rs before scripts
        ≡ ok (bundle blocks (before ++ txs) (put_all txs ls scripts))
  unfolding pair_rpc put_all
  pair_rpc-put_all before scripts all_paired =
      ap (λ t. ok (bundle blocks t scripts)) (sym (append-nil before))
  pair_rpc-put_all before scripts (paired {r = r} {tx = tx} {txs = txs} {l = l} e c n v h) =
      rw (e, pair_rpc_tx-put_spent r.vin l tx scripts c n v, ← append_assoc before (tx ∷ []) txs)
        (pair_rpc-put_all (before ++ tx ∷ []) (put_spent blocks (blocks.tx_ins tx) l scripts) h)

  length-AreSpending :
      {rs : List GetBlockTx} {txs : List T} {ls : List (List TxOut)}
      → AreSpending rs txs ls
      → length ls ≡ length txs
  length-AreSpending all_paired = refl
  length-AreSpending (paired e c n v h) = ap suc (length-AreSpending h)

  pair_block-put_all :
      (tx : T) (l : List TxOut) {rs : List GetBlockTx} {txs : List T} {ls : List (List TxOut)}
      → AreSpending rs txs ls
      → pair_block blocks (tx ∷ txs) (l ∷ ls) ≡ ok (put_all txs ls (no_scripts blocks))
  unfolding pair_block
  pair_block-put_all tx l {txs = txs} {ls = ls} h =
      rw (eq_length (suc (length ls)) (suc (length txs)) (ap suc (length-AreSpending h)))
        (pair_txs-put_all (no_scripts blocks) h)

  get_block_with_prev_outs-put_all :
      (max_count max_payload : ℕ) (backend : PrevOutBackend) (hash : Hash) {rs : List GetBlockTx}
      {txs : List T} {lists : List (List TxOut)}
      → backend.get_block hash ≡ ok rs
      → IsResponse rs txs lists
      → (scripts : Scripts blocks) × (pair_block blocks txs lists ≡ ok scripts)
        × (get_block_with_prev_outs blocks wire max_count max_payload backend hash
            ≡ ok (bundle blocks txs scripts))
  unfolding get_block_with_prev_outs pair_rpc
  get_block_with_prev_outs-put_all max_count max_payload backend hash got
        (response {r = r} {tx = tx} {txs = txs} {l = l} {ls = ls} e c h) =
      (
        put_all txs ls (no_scripts blocks),
        pair_block-put_all tx l h,
        rw (got, e, pair_rpc_tx-coinbase r.vin tx (no_scripts blocks) c)
            (pair_rpc-put_all (tx ∷ []) (no_scripts blocks) h),
      )

  -- The REST API and the RPC answer a request with the same block: if the spenttxouts answer is an
  -- encoding of lists within the caps, the getblock response has the transactions of the REST
  -- block, the first of them coinbase and no other, and each input's script there is the script of
  -- its list entry, then `fetchBlockREST` and `getBlockWithPrevOuts` both succeed with the same
  -- transactions and the same scripts.
  pub fetch_block_rest-get_block_with_prev_outs :
      (laws : WireLaws wire) (max_count max_payload : ℕ) (backend : PrevOutBackend) (hash : Hash)
      (block_bytes : Bytes) (rs : List GetBlockTx) (txs : List T) (lists : List (List TxOut))
      → max_count < 2 ^ 64
      → max_payload < 2 ^ 64
      → backend.http_get (block_at hash) ≡ ok (200, block_bytes)
      → blocks.deserialize_block block_bytes ≡ ok txs
      → backend.http_get (spent_tx_outs_at hash)
        ≡ ok (200, encode_lists wire laws max_count max_payload lists)
      → length lists ≤ max_count
      → All (IsOutList wire laws max_count max_payload) lists
      → backend.get_block hash ≡ ok rs
      → IsResponse rs txs lists
      → (scripts : Scripts blocks) × (fetch_block_rest blocks wire max_count max_payload backend
            hash
          ≡ ok (bundle blocks txs scripts))
        × (get_block_with_prev_outs blocks wire max_count max_payload backend hash
            ≡ ok (bundle blocks txs scripts))
  unfolding fetch_block_rest rest_get
  fetch_block_rest-get_block_with_prev_outs laws max_count max_payload backend hash block_bytes rs
        txs lists small1 small2 e1 e2 e3 le all e4 h =
      let (scripts, from_lists, answered) =
        get_block_with_prev_outs-put_all max_count max_payload backend hash e4 h in
      (
        scripts,
        rw (
          e1,
          e2,
          e3,
          parse_spent_tx_outs-encode wire laws max_count max_payload small1 small2 lists le all,
          from_lists,
        ),
        answered,
      )
