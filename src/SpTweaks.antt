-- ===== src/SpTweaks.antt =====
-- silent-payments-files.go: the producer of silent payment tweaks. `T` is `wire.MsgTx` and `O` is
-- `wire.OutPoint`.
pub mod Laws
pub mod Level
pub mod Seal
use block_dn.Common.{
  ℕ, zero, suc, ◌+◌, ◌-◌, ◌*◌, ◌/◌, ◌%◌, ◌^◌, ◌≡◌, Bool, true, false, Option, none, some, List, [],
  ◌∷◌, ◌++◌, length, if◌then◌else◌, ltb, leb, ◌==◌,
}
use block_dn.Common.Int.{ℤ, pos, negsuc, ltb_ℤ}
use block_dn.Common.Heights.{HeightMap, heights, insert, delete_all}
use block_dn.Common.Effect.{
  Result, ok, err, Err, failed, io_failed, shutdown, missing_entry, M, pure, raise, lift, ◌>>=◌,
  ◌>>◌, continue, modify, and_then,
}
use block_dn.External.{
  Bytes, Hash, Chain, Wire, Network, mainnet, testnet3, testnet4, signet, regtest,
}
use block_dn.Cache.{get_block_hash}
use block_dn.Files.{FileName, FileKind, Disk, Io, write, create_and_write}
use block_dn.Entries.{serialize_entries, entries_size}
use block_dn.Producer.{Shared, Base, Hooks, on_cache, on_own}

-- `spTweakDustLimits`, and its elements from the last to the first.
abbrev pub sp_tweak_dust_limits : List ℕ
sp_tweak_dust_limits = 0 ∷ 600 ∷ 1000 ∷ 3750 ∷ []

abbrev pub limits_backward : List ℕ
limits_backward = 3750 ∷ 1000 ∷ 600 ∷ 0 ∷ []

abbrev pub contains : List ℕ → ℕ → Bool
contains [] n = false
contains (m ∷ ms) n = if m == n then true else contains ms n

unfoldable pub is_valid_sp_tweak_dust_limit : ℕ → Bool
is_valid_sp_tweak_dust_limit dust_limit = contains sp_tweak_dust_limits dust_limit

-- `TaprootActivationHeights`
unfoldable pub taproot_activation_height : Network → Option ℤ
taproot_activation_height mainnet = some (pos 709632)
taproot_activation_height testnet3 = some (pos 2011968)
taproot_activation_height testnet4 = some (pos 1)
taproot_activation_height signet = some (pos 1)
taproot_activation_height regtest = none

-- `binary.LittleEndian`, and the conversions to unsigned integers.
abbrev pub little_endian : ℕ → ℕ → Bytes
little_endian zero n = []
little_endian (suc w) n = n % 256 ∷ little_endian w (n / 256)

abbrev pub to_uint : ℕ → ℤ → ℕ
to_uint w (pos n) = n % 2 ^ w
to_uint w (negsuc n) = 2 ^ w - 1 - n % 2 ^ w

-- `typeSPTweaks`.
abbrev pub type_sp_tweaks : ℕ
type_sp_tweaks = 2

unfoldable pub sp_tweak_file_header : ℕ → ℤ → ℕ → Bytes
sp_tweak_file_header net start_height dust_limit =
    little_endian 4 net
    ++ 0 ∷ type_sp_tweaks ∷ little_endian 4 (to_uint 32 start_height)
    ++ little_endian 8 dust_limit

-- A compressed public key: an array of 33 bytes.
pub record Key : Type 0 where
  pub bytes : Bytes
  pub is_33 : length bytes ≡ 33

pub record SpTweakEntry : Type 0 where
  pub tweak : Key
  pub max_value : ℕ

pub record TxOut : Type 0 where
  pub value : ℤ
  pub pk_script : Bytes

-- `blockWithPrevOuts`
pub record Block (T O : Type 0) : Type 0 where
  pub txs : List T
  pub prev_out_scripts : O → Option Bytes

-- What the code takes from btcd's packages blockchain, txscript and silentpayments.
pub record Payments (T O : Type 0) : Type 0 where
  pub is_coinbase : T → Bool
  pub tx_outs : T → List TxOut
  pub is_pay_to_taproot : Bytes → Bool
  pub transaction_tweak_data : T → (O → Result Bytes) → Result (Option Key)

pub record SpTweakFiles : Type 0 where
  pub tweak_data : HeightMap (List SpTweakEntry)
  pub height_to_hash : HeightMap Hash
  pub disk : Disk

-- `fetchPrevOutScript`
unfoldable pub fetch_prev_out_script : {T O : Type 0} → Block T O → O → Result Bytes
fetch_prev_out_script block op = elim (block.prev_out_scripts op) [
  | none ↦ err failed
  | some pk_script ↦ ok pk_script
]

module _ {T O : Type 0} (pay : Payments T O) where
  -- The largest value among the taproot outputs.
  unfoldable pub max_value_of : List TxOut → ℕ → ℕ
  max_value_of [] so_far = so_far
  max_value_of (out ∷ outs) so_far =
      if pay.is_pay_to_taproot out.pk_script
      then max_value_of outs
          (if ltb so_far (to_uint 64 out.value) then to_uint 64 out.value else so_far)
      else max_value_of outs so_far

  -- The loop of `indexBlockSPTweakData`.
  unfoldable pub index_txs : Block T O → List T → List SpTweakEntry → Result (List SpTweakEntry)
  index_txs block [] entries = ok entries
  index_txs block (tx ∷ txs) entries = elim (pay.is_coinbase tx) [
    | true ↦ index_txs block txs entries
    | false ↦ elim (pay.transaction_tweak_data tx (fetch_prev_out_script block)) [
      | err e ↦ err failed
      | ok none ↦ index_txs block txs entries
      | ok (some key) ↦
          index_txs block txs
            (entries ++ record { tweak = key; max_value = max_value_of (pay.tx_outs tx) 0 } ∷ [])
    ]
  ]

  abbrev pub store_entries : ℤ → List SpTweakEntry → Shared SpTweakFiles → Shared SpTweakFiles
  store_entries height entries s = record s {
    own = record s.own { tweak_data = insert height entries s.own.tweak_data };
  }

  abbrev store_some : ℤ → List SpTweakEntry → M (Shared SpTweakFiles) (Unit {0})
  store_some height [] = pure tt
  store_some height (e ∷ es) = modify (store_entries height (e ∷ es))

  unfoldable pub index_block_sp_tweak_data : ℤ → Block T O → M (Shared SpTweakFiles) (Unit {0})
  index_block_sp_tweak_data height block = lift (index_txs block block.txs []) >>= store_some height

  -- What `ingest` stores before it fetches the block.
  abbrev pub store_height : ℤ → Hash → Shared SpTweakFiles → Shared SpTweakFiles
  store_height height hash s = record s {
    own = record s.own {
      tweak_data = insert height [] s.own.tweak_data;
      height_to_hash = insert height hash s.own.height_to_hash;
    };
  }

  -- `ingest`; `fetch` is `blockFetcher.fetchBlock`.
  unfoldable pub ingest :
      {H : Type 0}
      → ℤ
      → (ℤ → Hash → Result (Block T O))
      → Chain H
      → ℤ
      → M (Shared SpTweakFiles) (Unit {0})
  ingest taproot_start_height fetch chain height = do
    hash ← on_cache (get_block_hash chain height)
    modify (store_height height hash)
    if ltb_ℤ height taproot_start_height
        then pure tt
        else lift (fetch height hash) >>= index_block_sp_tweak_data height

-- The entries of a dust level: those whose value is above the limit.
unfoldable pub count_above : ℕ → List SpTweakEntry → ℕ
count_above dust_limit [] = 0
count_above dust_limit (e ∷ es) =
    (if ltb dust_limit e.max_value then 1 else 0) + count_above dust_limit es

unfoldable pub tweaks_above : ℕ → List SpTweakEntry → Bytes
tweaks_above dust_limit [] = []
tweaks_above dust_limit (e ∷ es) =
    (if leb e.max_value dust_limit then [] else e.tweak.bytes) ++ tweaks_above dust_limit es

module _ {H : Type 0} (wire : Wire H) (net : ℕ) where
  unfoldable pub block_tweaks : ℕ → List SpTweakEntry → Bytes
  block_tweaks dust_limit entries =
      wire.write_var_int (count_above dust_limit entries) ++ tweaks_above dust_limit entries

  unfoldable pub serialize_sp_tweaks :
      HeightMap (List SpTweakEntry) → ℕ → ℤ → ℤ → M Bytes (Unit {0})
  serialize_sp_tweaks tweak_data dust_limit start end =
      write (sp_tweak_file_header net start dust_limit)
      >> serialize_entries (block_tweaks dust_limit) tweak_data (heights start end)

  unfoldable pub block_tweaks_size : ℕ → List SpTweakEntry → ℕ
  block_tweaks_size dust_limit entries =
      wire.var_int_size (count_above dust_limit entries) + count_above dust_limit entries * 33

  unfoldable pub sp_tweaks_size : HeightMap (List SpTweakEntry) → ℕ → ℤ → ℤ → Option ℕ
  sp_tweaks_size tweak_data dust_limit start end =
      entries_size (block_tweaks_size dust_limit) tweak_data (heights start end) (4 + 1 + 1 + 4 + 8)

  abbrev pub sp_file : ℕ → ℤ → ℤ → FileName
  sp_file dust_limit first last = record {
    kind = FileKind.sp_tweaks dust_limit;
    first = first;
    last = last;
  }

  -- The loop of `writeSealedFile`.
  unfoldable pub write_levels :
      Io → HeightMap (List SpTweakEntry) → ℤ → ℤ → List ℕ → M Disk (Unit {0})
  write_levels io tweak_data start end [] = pure tt
  write_levels io tweak_data start end (dust_limit ∷ limits) =
      create_and_write io (sp_file dust_limit start end)
        (serialize_sp_tweaks tweak_data dust_limit start end)
      >> write_levels io tweak_data start end limits

  -- `writeSealedFile`; the throughput that it logs is left out.
  unfoldable pub write_sealed_file : Io → ℤ → ℤ → M SpTweakFiles (Unit {0})
  write_sealed_file io file_start file_end t =
      let (disk, r) = write_levels io t.tweak_data file_start file_end limits_backward t.disk in
      (record t { disk = disk }, r)

unfoldable pub prune_locked : ℤ → ℤ → SpTweakFiles → SpTweakFiles
prune_locked start end t = record t {
  tweak_data = delete_all (heights start end) t.tweak_data;
  height_to_hash = delete_all (heights start end) t.height_to_hash;
}

unfoldable pub cached_hash : ℤ → SpTweakFiles → Option Hash
cached_hash height t = t.height_to_hash height

-- The hooks that `newSPTweakFiles` installs.
unfoldable pub sp_tweak_hooks :
    {H T O : Type 0}
    → Wire H
    → ℕ
    → Payments T O
    → ℤ
    → (ℤ → Hash → Result (Block T O))
    → Io
    → Hooks H SpTweakFiles
sp_tweak_hooks wire net pay taproot_start_height fetch io = record {
  ingest = ingest pay taproot_start_height fetch;
  write_sealed_file = λ chain start end. on_own (write_sealed_file wire net io start end);
  prune_locked = prune_locked;
  cached_hash = cached_hash;
  after_catch_up = none;
}

-- `updateFiles`, which shadows that of the base, `update`. `makes` says whether the directories can
-- be made, and `lists` whether the one of older files can be listed. Where the network has no
-- taproot it waits for the shutdown.
unfoldable pub update_sp_tweak_files :
    {S : Type 0} → Option ℤ → Bool → Bool → M (Base S) (Unit {0}) → M (Base S) (Unit {0})
update_sp_tweak_files none makes lists update =
    modify (λ b. record b { startup_complete = true }) >> raise shutdown
update_sp_tweak_files (some taproot_start_height) makes lists update =
    if makes then if lists then update else raise failed else raise io_failed
