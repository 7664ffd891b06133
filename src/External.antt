-- ===== src/External.antt =====
-- What block-dn takes from outside its sources: bitcoind behind rpcclient, and the btcd packages
-- chainhash and wire. The operations are parameters, and what the code relies on are named laws.
use block_dn.Common.{ℕ, List, [], ◌++◌, ◌≡◌, ◌<◌, ◌≤◌, ◌^◌, length, replicate}
use block_dn.Common.Int.{ℤ}
use block_dn.Common.Effect.{Result}
use Prim.Native.String.{String}

abbrev pub Bytes : Type 0
Bytes = List ℕ

-- `chainhash.Hash`, by its bytes.
abbrev pub Hash : Type 0
Hash = Bytes

abbrev pub zero_hash : Hash
zero_hash = replicate 32 0

-- `btcjson.GetBlockFilterResult`
pub record FilterResult : Type 0 where
  pub filter : String
  pub header : String

-- bitcoind as one call of an operation sees it: a later call may see another chain.
pub record Chain (H : Type 0) : Type 0 where
  pub get_block_count : Result ℤ
  pub get_block_hash : ℤ → Result Hash
  pub get_block_header : Hash → Result H
  pub get_block_filter : Hash → Result FilterResult

-- The networks of btcd's package chaincfg.
pub data Network : Type 0 where
  mainnet testnet3 testnet4 signet regtest : Network

-- The result of reading from a stream: a value and the rest, the end of the stream, or an error.
pub data Read (A : Type 0) : Type 0 where
  got : A → Bytes → Read A
  eof : Read A
  bad : Read A

-- The btcd functions, over the type `H` of `wire.BlockHeader`.
pub record Wire (H : Type 0) : Type 0 where
  pub prev_block : H → Hash
  pub block_hash : H → Hash
  pub serialize : H → Bytes
  pub deserialize : Bytes → Read H
  pub double_hash : Bytes → Hash
  pub write_var_int : ℕ → Bytes
  pub var_int_size : ℕ → ℕ
  pub read_var_int : Bytes → Read ℕ
  pub read_var_bytes : ℕ → Bytes → Read Bytes
  pub decode_hex : String → Result Bytes
  pub hash_from_str : String → Result Hash

-- `wire.WriteVarBytes`
abbrev pub write_var_bytes : {H : Type 0} → Wire H → Bytes → Bytes
write_var_bytes w bs = w.write_var_int (length bs) ++ bs

-- What the code relies on: fixed sizes, and that what was written is read back (of a header, one
-- with the same hash), up to the end of the stream.
pub record WireLaws {H : Type 0} (w : Wire H) : Type 0 where
  pub length-double_hash : (bs : Bytes) → length (w.double_hash bs) ≡ 32
  pub length-serialize : (h : H) → length (w.serialize h) ≡ 80
  pub length-write_var_int : (n : ℕ) → length (w.write_var_int n) ≡ w.var_int_size n
  pub var_int_size_pos : (n : ℕ) → 0 < w.var_int_size n
  pub read-write_var_int :
      (n : ℕ) (rest : Bytes) → n < 2 ^ 64 → w.read_var_int (w.write_var_int n ++ rest) ≡ got n rest
  pub read-write_var_bytes :
      (limit : ℕ) (bs rest : Bytes)
      → limit < 2 ^ 64
      → length bs ≤ limit
      → w.read_var_bytes limit (write_var_bytes w bs ++ rest) ≡ got bs rest
  pub read_var_bytes_end : (limit : ℕ) → w.read_var_bytes limit [] ≡ eof
  pub deserialize-serialize :
      (h : H) (rest : Bytes)
      → (h' : H) × (w.deserialize (w.serialize h ++ rest) ≡ got h' rest)
        × (w.block_hash h' ≡ w.block_hash h)
  pub deserialize_end : w.deserialize [] ≡ eof

-- Two different byte strings with one hash.
pub record Collision {H : Type 0} (w : Wire H) : Type 0 where
  pub left : Bytes
  pub right : Bytes
  pub apart : ¬ (left ≡ right)
  pub same : w.double_hash left ≡ w.double_hash right
