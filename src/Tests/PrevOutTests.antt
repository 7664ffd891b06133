-- ===== src/Tests/PrevOutTests.antt =====
-- The fetching of blocks with their spent outputs at concrete inputs.
use block_dn.Common.{
  ℕ, if◌then◌else◌, bytes_eq, Bool-cases, inl, inr, ◌==◌, ◌≡◌, ◌≤◌, ◌<◌, ◌^◌, refl, Bool, true,
  false, some, none, List, [], ◌∷◌, length, All, arith,
}
use block_dn.Common.Int.{pos, negsuc, int_laws, ◌+ℤ◌, ◌-ℤ◌}
use block_dn.Common.Heights.{heights}
use block_dn.Common.Effect.{Result, ok, err, failed}
use block_dn.External.{Bytes, Hash}
use block_dn.SpTweaks.{TxOut, Block}
use block_dn.Entries.{concat}
use block_dn.PrevOuts.{
  Blocks, Scripts, RestPath, chain_info, block_at, spent_tx_outs_at, GetBlockTx, PrevOutBackend,
  BlockPrevOutFetcher, parse_spent_tx_outs, parse_count, parse_lists, parse_list, parse_outs,
  parse_out, fetch_block, fetch_block_rest, get_block_with_prev_outs, probe_once, probe_rest,
  rest_get, pair_block, pair_txs, pair_tx, put_spent, bundle, no_scripts, vin_script,
}
use block_dn.PrevOuts.RoundTrip.{
  encode_lists, encode_list, encode_out, IsOutList, parse_spent_tx_outs-encode,
}
use block_dn.PrevOuts.Bounds.{IsCapped, parse_spent_tx_outs-IsCapped}
use block_dn.PrevOuts.Pairing.{
  IsResponse, no_more, more, all_paired, paired, response,
  fetch_block_rest-get_block_with_prev_outs,
}
use block_dn.PrevOuts.Known.{HasSpent, fetch_block-HasSpent}
use block_dn.PrevOuts.Prefetch.{
  Fetch, IsFaithful, AllServe, fetch_all, prefetcher_fetch_block, schedule_ahead, schedule, consume,
  new_block_prefetcher, fetch_all-AllServe,
}
use block_dn.Tests.Toy.{toy_wire, toy_laws, hash_of, known}
use Prim.Native.String.{String}

-- A block whose second transaction spends two outputs.
abbrev two_outs : List (List TxOut)
two_outs =
    []
    ∷ (record { value = pos 300; pk_script = [] }
        ∷ record { value = negsuc 0; pk_script = [] }
        ∷ [])
    ∷ []

small : 9 < 2 ^ 64
small = omega arith

two_outs-IsOutList : All (IsOutList toy_wire toy_laws 9 9) two_outs
two_outs-IsOutList = (
  (omega arith, tt),
  (
    (
      omega arith,
      (
        ((omega int_laws, omega int_laws), omega arith),
        (((omega int_laws, omega int_laws), omega arith), tt),
      ),
    ),
    tt,
  ),
)

parse_spent_tx_outs-encode_example :
    parse_spent_tx_outs toy_wire 9 9 (encode_lists toy_wire toy_laws 9 9 two_outs) ≡ ok two_outs
parse_spent_tx_outs-encode_example =
    parse_spent_tx_outs-encode toy_wire toy_laws 9 9 small small two_outs (omega arith)
      two_outs-IsOutList

-- One transaction with one output of value 5.
abbrev answer : Bytes
answer = 1 ∷ 1 ∷ 5 ∷ 0 ∷ 0 ∷ 0 ∷ 0 ∷ 0 ∷ 0 ∷ 0 ∷ 2 ∷ 7 ∷ 8 ∷ []

abbrev answered : List (List TxOut)
answered = (record { value = pos 5; pk_script = 7 ∷ 8 ∷ [] } ∷ []) ∷ []

answer_parsed : parse_spent_tx_outs toy_wire 9 9 answer ≡ ok answered
unfolding parse_spent_tx_outs parse_count parse_lists parse_list parse_outs parse_out
answer_parsed = refl

parse_spent_tx_outs-IsCapped_example : (length answered ≤ 9) × All (IsCapped toy_wire 9 9) answered
parse_spent_tx_outs-IsCapped_example =
    parse_spent_tx_outs-IsCapped toy_wire 9 9 answer answered answer_parsed

-- A transaction is the list of the outpoints that it spends.
abbrev from_hex : String → Result (List ℕ)
from_hex String.[] = ok []
from_hex (String.◌∷◌ c s) = ok (7 ∷ 8 ∷ [])

abbrev no_inputs : List ℕ → Bool
no_inputs [] = true
no_inputs (op ∷ ops) = false

abbrev toy_blocks : Blocks (List ℕ) ℕ
toy_blocks = record {
  tx_ins = λ tx. tx;
  outpoint_eq = λ a b. a == b;
  is_coinbase = no_inputs;
  deserialize_block = λ bs. ok ([] ∷ (7 ∷ 8 ∷ []) ∷ []);
  deserialize_tx_hex = from_hex;
}

abbrev get_answer : RestPath → Result (ℕ × Bytes)
get_answer chain_info = ok (200, [])
get_answer (block_at hash) = ok (200, hash)
get_answer (spent_tx_outs_at hash) = ok (200, encode_lists toy_wire toy_laws 9 9 two_outs)

abbrev two_txs : List GetBlockTx
two_txs =
    record { hex = ""; vin = none ∷ [] } ∷ record { hex = "0a"; vin = some "" ∷ some "" ∷ [] } ∷ []

abbrev toy_prev_outs : PrevOutBackend
toy_prev_outs = record { http_get = get_answer; get_block = λ hash. ok two_txs }

seven : vin_script toy_wire (some "") ≡ ok []
unfolding vin_script
seven = refl

two_txs-IsResponse : IsResponse toy_blocks toy_wire two_txs ([] ∷ (7 ∷ 8 ∷ []) ∷ []) two_outs
two_txs-IsResponse =
    response refl refl (paired refl refl refl (more seven (more seven no_more)) all_paired)

fetch_block_rest-get_block_with_prev_outs_example :
    (scripts : Scripts toy_blocks) × (fetch_block_rest toy_blocks toy_wire 9 9 toy_prev_outs
        (hash_of 1)
      ≡ ok (bundle toy_blocks ([] ∷ (7 ∷ 8 ∷ []) ∷ []) scripts))
    × (get_block_with_prev_outs toy_blocks toy_wire 9 9 toy_prev_outs (hash_of 1)
        ≡ ok (bundle toy_blocks ([] ∷ (7 ∷ 8 ∷ []) ∷ []) scripts))
fetch_block_rest-get_block_with_prev_outs_example =
    fetch_block_rest-get_block_with_prev_outs toy_blocks toy_wire toy_laws 9 9 toy_prev_outs
      (hash_of 1) (hash_of 1) two_txs ([] ∷ (7 ∷ 8 ∷ []) ∷ []) two_outs small small refl refl refl
      (omega arith) two_outs-IsOutList refl two_txs-IsResponse

abbrev spent : List TxOut
spent =
    record { value = pos 300; pk_script = [] } ∷ record { value = negsuc 0; pk_script = [] } ∷ []

abbrev fetched : Block (List ℕ) ℕ
unfolding put_spent
fetched =
    bundle toy_blocks ([] ∷ (7 ∷ 8 ∷ []) ∷ [])
      (put_spent toy_blocks (7 ∷ 8 ∷ []) spent (no_scripts toy_blocks))

refl_eq : (n : ℕ) → (n == n) ≡ true
refl_eq n = ground arith

unprobed : BlockPrevOutFetcher
unprobed = record { probed = false; use_rest = false }

fetched_rest :
    (fetch_block toy_blocks toy_wire 9 9 toy_prev_outs (hash_of 1) unprobed).1 ≡ ok fetched
unfolding fetch_block probe_once probe_rest fetch_block_rest rest_get parse_spent_tx_outs
    parse_count parse_lists parse_list parse_outs parse_out pair_block pair_txs pair_tx encode_lists
    encode_list encode_out concat unprobed fetched
fetched_rest = refl

fetch_block-HasSpent_example :
    All (HasSpent toy_blocks refl_eq (fetched.prev_out_scripts)) ((7 ∷ 8 ∷ []) ∷ [])
unfolding fetched
fetch_block-HasSpent_example =
    fetch_block-HasSpent toy_blocks refl_eq toy_wire 9 9 toy_prev_outs (hash_of 1) unprobed fetched
      fetched_rest

-- A block is its hash. The second call asks for another hash than the one that was prefetched, and
-- the background fetches of the first call fail for the hash of height 3.
abbrev fetch_some : Hash → Result Hash
fetch_some hash = if bytes_eq hash (hash_of 3) then err failed else ok hash

abbrev first_fetch : Fetch (Unit {0}) Hash
first_fetch = record {
  height = pos 1;
  hash = hash_of 1;
  get_hash = λ h s. (s, known 0 h);
  background = fetch_some;
  direct = λ hash. ok hash;
}

abbrev second_fetch : Fetch (Unit {0}) Hash
second_fetch = record {
  height = pos 2;
  hash = hash_of 9;
  get_hash = λ h s. (s, err failed);
  background = fetch_some;
  direct = λ hash. ok hash;
}

abbrev third_fetch : Fetch (Unit {0}) Hash
third_fetch = record {
  height = pos 3;
  hash = hash_of 3;
  get_hash = λ h s. (s, err failed);
  background = fetch_some;
  direct = λ hash. err failed;
}

fetch_some-IsFaithful : IsFaithful (λ hash block. hash ≡ block) fetch_some
fetch_some-IsFaithful hash block e = elim (Bool-cases (bytes_eq hash (hash_of 3))) [
  | inl q ↦ cc (rw q at e)
  | inr q ↦ cc (rw q at e)
]

fetch_all-AllServe_example :
    AllServe
      (λ hash block. hash ≡ block)
      (first_fetch ∷ second_fetch ∷ third_fetch ∷ [])
      (fetch_all (first_fetch ∷ second_fetch ∷ third_fetch ∷ []) (new_block_prefetcher tt))
fetch_all-AllServe_example =
    fetch_all-AllServe (λ hash block. hash ≡ block) (first_fetch ∷ second_fetch ∷ third_fetch ∷ [])
      tt
      (
        (fetch_some-IsFaithful, λ hash block e. cc),
        (
          (fetch_some-IsFaithful, λ hash block e. cc),
          ((fetch_some-IsFaithful, λ hash block e. cc), tt),
        ),
      )

fetched_all :
    fetch_all (first_fetch ∷ second_fetch ∷ third_fetch ∷ []) (new_block_prefetcher tt)
    ≡ ok (hash_of 1) ∷ ok (hash_of 9) ∷ err failed ∷ []
unfolding fetch_all new_block_prefetcher prefetcher_fetch_block schedule_ahead schedule consume
    heights ◌+ℤ◌ ◌-ℤ◌ bytes_eq
fetched_all = refl
