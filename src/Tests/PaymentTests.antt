-- ===== src/Tests/PaymentTests.antt =====
-- The silent payment producer at concrete inputs.
use block_dn.Common.{
  ℕ, ◌≡◌, ◌==◌, refl, true, none, some, List, [], ◌∷◌, replicate, length-replicate,
}
use block_dn.Common.Int.{pos, ◌+ℤ◌, ◌-ℤ◌}
use block_dn.Common.Heights.{HeightMap, heights}
use block_dn.Common.Effect.{ok}
use block_dn.Files.{Io}
use block_dn.Producer.Sound.{HookLaws}
use block_dn.Entries.{entries_size}
use block_dn.SpTweaks.{
  Key, SpTweakEntry, SpTweakFiles, Block, Payments, sp_tweaks_size, write_sealed_file,
  sp_tweak_hooks, index_txs, max_value_of, block_tweaks_size, count_above,
}
use block_dn.SpTweaks.Seal.{IsOrdered, write_sealed_file-IsOrdered}
use block_dn.SpTweaks.Laws.{sp_tweak_hooks-HookLaws}
use block_dn.Tests.Toy.{toy_wire}

abbrev key : ℕ → Key
key n = record { bytes = replicate 33 n; is_33 = length-replicate 33 n }

-- A transaction is a number; 0 is the coinbase, and the others pay themselves to taproot.
abbrev pay : Payments ℕ ℕ
pay = record {
  is_coinbase = λ tx. tx == 0;
  tx_outs = λ tx. record { value = pos tx; pk_script = [] } ∷ [];
  is_pay_to_taproot = λ script. true;
  transaction_tweak_data = λ tx fetch. ok (some (key tx));
}

abbrev block : Block ℕ ℕ
block = record { txs = 0 ∷ 500 ∷ 700 ∷ []; prev_out_scripts = λ op. none }

-- The coinbase is skipped, and the entries keep the order of the transactions.
indexed :
    index_txs pay block block.txs []
    ≡ ok (
        record { tweak = key 500; max_value = 500 }
        ∷ record { tweak = key 700; max_value = 700 }
        ∷ [])
unfolding index_txs max_value_of
indexed = refl

abbrev tweak_data : HeightMap (List SpTweakEntry)
tweak_data k =
    some (
      record { tweak = key 500; max_value = 500 }
      ∷ record { tweak = key 700; max_value = 700 }
      ∷ [])

size_600 : sp_tweaks_size toy_wire 7 tweak_data 600 (pos 1) (pos 2) ≡ some 86
unfolding sp_tweaks_size entries_size block_tweaks_size count_above heights ◌-ℤ◌ ◌+ℤ◌
size_600 = refl

-- A disk that takes every file.
abbrev io : Io
io = record { creates = λ n. true; closes = λ n. true }

abbrev files : SpTweakFiles
files = record { tweak_data = tweak_data; height_to_hash = λ k. none; disk = λ n. none }

write_sealed_file-IsOrdered_example :
    IsOrdered toy_wire 7 io
      (pos 1)
      (pos 2)
      files
      (write_sealed_file toy_wire 7 io (pos 1) (pos 2) files).0.disk
write_sealed_file-IsOrdered_example =
    write_sealed_file-IsOrdered toy_wire 7 io (pos 1) (pos 2) files

sp_tweak_hooks-HookLaws_example :
    HookLaws (sp_tweak_hooks toy_wire 7 pay (pos 1) (λ k hash. ok block) io)
sp_tweak_hooks-HookLaws_example =
    sp_tweak_hooks-HookLaws toy_wire 7 pay (pos 1) (λ k hash. ok block) io
