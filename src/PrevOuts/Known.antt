-- ===== src/PrevOuts/Known.antt =====
-- A fetched block knows the script of every output that it spends.
use block_dn.Common.{
  ℕ, ◌==◌, ◌≡◌, inl, inr, true, false, Option, some, List, [], ◌∷◌, ◌++◌, length, drop, All,
  Bool-cases, arith,
}
use block_dn.Common.Effect.{ok, and_then-ok}
use block_dn.External.{Bytes, Hash, Wire}
use block_dn.SpTweaks.{TxOut, Block}
use block_dn.PrevOuts.{
  Blocks, Scripts, GetBlockTx, PrevOutBackend, BlockPrevOutFetcher, block_at, spent_tx_outs_at,
  rest_get, vin_script, no_scripts, put_script, put_spent, pair_tx, pair_txs, pair_behind_first,
  pair_block, put_vins, pair_rpc_tx, pair_rpc, fetch_block_rest, get_block_with_prev_outs,
  fetch_block, probe_once, parse_spent_tx_outs,
}
use Prim.Native.String.{String}

ok_eq : {A : Type 0} {a b : A} → ok a ≡ ok b → a ≡ b
ok_eq e = cc

abbrev pub Knows : {O : Type 0} → (O → Option Bytes) → O → Type 0
Knows scripts op = (script : Bytes) × (scripts op ≡ some script)

map-All :
    {A : Type 0} {P Q : A → Type 0} (f : (a : A) → P a → Q a) (xs : List A) → All P xs → All Q xs
map-All f [] _ = tt
map-All f (x ∷ xs) (h, hs) = (f x h, map-All f xs hs)

eq→length : (m n : ℕ) → (m == n) ≡ true → m ≡ n
eq→length m n e = ground (arith, e)

module _ {T O : Type 0} (blocks : Blocks T O)
    (refl_eq : (op : O) → blocks.outpoint_eq op op ≡ true) where
  put_script-Knows :
      (op other : O) (script : Bytes) (scripts : Scripts blocks)
      → Knows scripts other
      → Knows (put_script blocks op script scripts) other
  put_script-Knows op other script scripts (s, e) =
      elim (Bool-cases (blocks.outpoint_eq other op)) [
        | inl q ↦ (script, rw q)
        | inr q ↦ (s, rw q e)
      ]

  put_spent-Knows :
      (ops : List O) (os : List TxOut) (other : O) (scripts : Scripts blocks)
      → Knows scripts other
      → Knows (put_spent blocks ops os scripts) other
  unfolding put_spent
  put_spent-Knows [] os other scripts h = h
  put_spent-Knows (op ∷ ops) [] other scripts h = h
  put_spent-Knows (op ∷ ops) (o ∷ os) other scripts h =
      put_spent-Knows ops os other (put_script blocks op o.pk_script scripts)
        (put_script-Knows op other o.pk_script scripts h)

  put_spent-All :
      (ops : List O) (os : List TxOut) (scripts : Scripts blocks)
      → length os ≡ length ops
      → All (Knows (put_spent blocks ops os scripts)) ops
  unfolding put_spent
  put_spent-All [] os scripts len = tt
  put_spent-All (op ∷ ops) [] scripts len = absurd (omega (arith, len))
  put_spent-All (op ∷ ops) (o ∷ os) scripts len = (
    put_spent-Knows ops os op (put_script blocks op o.pk_script scripts)
        (o.pk_script, rw (refl_eq op)),
    put_spent-All ops os (put_script blocks op o.pk_script scripts) (omega (arith, len)),
  )

  abbrev pub HasScripts : Scripts blocks → T → Type 0
  HasScripts scripts tx = All (Knows scripts) (blocks.tx_ins tx)

  -- What one step of either loop does to what is known.
  abbrev Learns : T → Scripts blocks → Scripts blocks → Type 0
  Learns tx scripts after =
      ((other : O) → Knows scripts other → Knows after other) × HasScripts after tx

  pair_tx-Learns :
      (tx : T) (l : List TxOut) (scripts after : Scripts blocks)
      → pair_tx blocks tx l scripts ≡ ok after
      → Learns tx scripts after
  unfolding pair_tx
  pair_tx-Learns tx l scripts after e = elim (Bool-cases (length l == length (blocks.tx_ins tx))) [
    | inl q ↦
        let put : put_spent blocks (blocks.tx_ins tx) l scripts ≡ after = ok_eq (rw q at e) in
        rw (← put) (
          λ other. put_spent-Knows (blocks.tx_ins tx) l other scripts,
          put_spent-All (blocks.tx_ins tx) l scripts (eq→length _ _ q),
        )
    | inr q ↦ cc (rw q at e)
  ]

  put_vins-Knows :
      {H : Type 0} (wire : Wire H) (ops : List O) (vs : List (Option String)) (other : O)
      (scripts after : Scripts blocks)
      → put_vins blocks wire ops vs scripts ≡ ok after
      → Knows scripts other
      → Knows after other
  unfolding put_vins
  put_vins-Knows wire [] vs other scripts after e h = rw (← ok_eq e) h
  put_vins-Knows wire (op ∷ ops) [] other scripts after e h = rw (← ok_eq e) h
  put_vins-Knows wire (op ∷ ops) (v ∷ vs) other scripts after e h =
      let (script, e1, e2) = and_then-ok (vin_script wire v) _ e in
      put_vins-Knows wire ops vs other (put_script blocks op script scripts) after e2
        (put_script-Knows op other script scripts h)

  put_vins-All :
      {H : Type 0} (wire : Wire H) (ops : List O) (vs : List (Option String))
      (scripts after : Scripts blocks)
      → put_vins blocks wire ops vs scripts ≡ ok after
      → length vs ≡ length ops
      → All (Knows after) ops
  unfolding put_vins
  put_vins-All wire [] vs scripts after e len = tt
  put_vins-All wire (op ∷ ops) [] scripts after e len = absurd (omega (arith, len))
  put_vins-All wire (op ∷ ops) (v ∷ vs) scripts after e len =
      let (script, e1, e2) = and_then-ok (vin_script wire v) _ e in
      let put = put_script blocks op script scripts in
      (
        put_vins-Knows wire ops vs op put after e2 (script, rw (refl_eq op)),
        put_vins-All wire ops vs put after e2 (omega (arith, len)),
      )

  abbrev pub HasSpent : Scripts blocks → T → Type 0
  HasSpent scripts tx = blocks.is_coinbase tx ≡ false → HasScripts scripts tx

  map-HasSpent :
      (scripts after : Scripts blocks)
      → ((other : O) → Knows scripts other → Knows after other)
      → (txs : List T) → All (HasSpent scripts) txs
      → All (HasSpent after) txs
  map-HasSpent scripts after mono =
      map-All λ tx h spends. map-All mono (blocks.tx_ins tx) (h spends)

  pair_txs-All :
      (txs : List T) (ls : List (List TxOut)) (scripts after : Scripts blocks)
      → pair_txs blocks txs ls scripts ≡ ok after
      → length ls ≡ length txs
      → ((other : O) → Knows scripts other → Knows after other) × All (HasScripts after) txs
  unfolding pair_txs
  pair_txs-All [] ls scripts after e len = (λ other h. rw (← ok_eq e) h, tt)
  pair_txs-All (tx ∷ txs) [] scripts after e len = absurd (omega (arith, len))
  pair_txs-All (tx ∷ txs) (l ∷ ls) scripts after e len =
      let (mid, e1, e2) = and_then-ok (pair_tx blocks tx l scripts) _ e in
      let (keeps1, has) = pair_tx-Learns tx l scripts mid e1 in
      let (keeps2, all) = pair_txs-All txs ls mid after e2 (omega (arith, len)) in
      (λ other h. keeps2 other (keeps1 other h), (map-All keeps2 (blocks.tx_ins tx) has, all))

  pair_block-All :
      (txs : List T) (lists : List (List TxOut)) (after : Scripts blocks)
      → pair_block blocks txs lists ≡ ok after
      → All (HasSpent after) (drop 1 txs)
  unfolding pair_block
  pair_block-All txs lists after e = elim (Bool-cases (length lists == length txs)) [
    | inl q ↦ go txs lists (eq→length _ _ q) (rw q at e)
    | inr q ↦ cc (rw q at e)
  ]
    where
      go :
          (txs : List T) (lists : List (List TxOut))
          → length lists ≡ length txs
          → pair_behind_first blocks txs lists ≡ ok after
          → All (HasSpent after) (drop 1 txs)
      go [] lists len e = tt
      go (tx ∷ txs) [] len e = absurd (omega (arith, len))
      go (tx ∷ txs) (l ∷ ls) len e =
          map-All (λ tx has spends. has) txs
            (pair_txs-All txs ls (no_scripts blocks) after e (omega (arith, len))).1

  pair_rpc_tx-Learns :
      {H : Type 0} (wire : Wire H) (tx : T) (vin : List (Option String))
      (scripts after : Scripts blocks)
      → pair_rpc_tx blocks wire tx vin scripts ≡ ok after
      → ((other : O) → Knows scripts other → Knows after other) × HasSpent after tx
  unfolding pair_rpc_tx
  pair_rpc_tx-Learns wire tx vin scripts after e = elim (Bool-cases (blocks.is_coinbase tx)) [
    | inl c ↦ (λ other h. rw (← ok_eq (rw (pair_rpc_tx, c) at e)) h, λ spends. cc)
    | inr c ↦ elim (Bool-cases (length vin == length (blocks.tx_ins tx))) [
      | inl q ↦
          let put : put_vins blocks wire (blocks.tx_ins tx) vin scripts ≡ ok after =
            rw (pair_rpc_tx, c, q) at e in
          (
            λ other. put_vins-Knows wire (blocks.tx_ins tx) vin other scripts after put,
            λ spends. put_vins-All wire (blocks.tx_ins tx) vin scripts after put (eq→length _ _ q),
          )
      | inr q ↦ cc (rw (pair_rpc_tx, c, q) at e)
    ]
  ]

  pair_rpc-All :
      {H : Type 0} (wire : Wire H) (rs : List GetBlockTx) (before : List T)
      (scripts : Scripts blocks) (b : Block T O)
      → pair_rpc blocks wire rs before scripts ≡ ok b
      → All (HasSpent scripts) before
      → All (HasSpent b.prev_out_scripts) b.txs
  unfolding pair_rpc
  pair_rpc-All wire [] before scripts b e all = rw (← ok_eq e) all
  pair_rpc-All wire (r ∷ rs) before scripts b e all =
      let (tx, e1, e2) = and_then-ok (blocks.deserialize_tx_hex r.hex) _ e in
      let (mid, e3, e4) = and_then-ok (pair_rpc_tx blocks wire tx r.vin scripts) _ e2 in
      let (keeps, has) = pair_rpc_tx-Learns wire tx r.vin scripts mid e3 in
      pair_rpc-All wire rs (before ++ tx ∷ []) mid b e4 (
        All-append (HasSpent mid) before (tx ∷ []) (map-HasSpent scripts mid keeps before all)
          (has, tt))
    where
      All-append : (P : T → Type 0) (xs ys : List T) → All P xs → All P ys → All P (xs ++ ys)
      All-append P [] ys _ hs = hs
      All-append P (x ∷ xs) ys (h, hs) ks = (h, All-append P xs ys hs ks)

  module _ {H : Type 0} (wire : Wire H) (max_count max_payload : ℕ) (backend : PrevOutBackend) where
    fetch_block_rest-All :
        (hash : Hash) (b : Block T O)
        → fetch_block_rest blocks wire max_count max_payload backend hash ≡ ok b
        → All (HasSpent b.prev_out_scripts) (drop 1 b.txs)
    unfolding fetch_block_rest
    fetch_block_rest-All hash b e =
        let (block_bytes, e1, e2) = and_then-ok (rest_get backend (block_at hash)) _ e in
        let (txs, e3, e4) = and_then-ok (blocks.deserialize_block block_bytes) _ e2 in
        let (spent_bytes, e5, e6) = and_then-ok (rest_get backend (spent_tx_outs_at hash)) _ e4 in
        let (lists, e7, e8) =
          and_then-ok (parse_spent_tx_outs wire max_count max_payload spent_bytes) _ e6 in
        let (scripts, e9, e10) = and_then-ok (pair_block blocks txs lists) _ e8 in
        rw (← ok_eq e10) (pair_block-All txs lists scripts e9)

    drop-All : (P : T → Type 0) (xs : List T) → All P xs → All P (drop 1 xs)
    drop-All P [] _ = tt
    drop-All P (x ∷ xs) (h, hs) = hs

    -- A fetched block is complete: whichever way `fetchBlock` takes, if it returns a block, each
    -- input of each transaction behind the first that is no coinbase transaction has a script in
    -- the block's map. (Outpoints are equal to themselves.)
    pub fetch_block-HasSpent :
        (hash : Hash) (f : BlockPrevOutFetcher) (b : Block T O)
        → (fetch_block blocks wire max_count max_payload backend hash f).1 ≡ ok b
        → All (HasSpent b.prev_out_scripts) (drop 1 b.txs)
    unfolding fetch_block get_block_with_prev_outs
    fetch_block-HasSpent hash f b e = elim (Bool-cases (probe_once backend f).use_rest) [
      | inl q ↦ fetch_block_rest-All hash b (rw q at e)
      | inr q ↦
          let (rs, e1, e2) = and_then-ok (backend.get_block hash) _ (rw q at e) in
          drop-All (HasSpent b.prev_out_scripts) b.txs
            (pair_rpc-All wire rs [] (no_scripts blocks) b e2 tt)
    ]
