-- ===== src/Tests/HeaderTests.antt =====
-- The header producer at concrete inputs.
use block_dn.Common.{ℕ, ◌≡◌, ◌⊎◌, refl, Option, none, some, true, [], ap, bytes_eq, arith, ◌-◌}
use block_dn.Common.Int.{ℤ, ◌≤ℤ◌, pos_part, pos, int_laws, ◌+ℤ◌, ◌-ℤ◌}
use block_dn.Common.Heights.{heights}
use block_dn.Common.Effect.{Result, ok}
use block_dn.Files.{Io, create_and_write}
use block_dn.Entries.{serialize_entries}
use block_dn.Producer.Sound.{HookLaws}
use block_dn.Headers.{
  HeaderFiles, verify_headers, verify_loop, write_sealed_file, write_headers, write_filter_headers,
  serialize_headers, serialize_filter_headers, header_hooks,
}
use block_dn.Headers.Verify.{BestChain, HeaderCollision, Matches, verify_headers-Matches}
use block_dn.Headers.Accept.{verify_headers-accepts}
use block_dn.Headers.Laws.{header_hooks-HookLaws}
use block_dn.Headers.Seal.{HasFiles, write_sealed_file-HasFiles}
use block_dn.Tests.Toy.{toy_wire, toy_chain, hash_of}

abbrev io : Io
io = record { creates = λ n. true; closes = λ n. true }

abbrev number : ℤ → ℕ
number k = pos_part k

-- The headers of the chain, at every height.
abbrev all_headers : ℤ → Option ℕ
all_headers k = some (number k)

links :
    (k : ℤ)
    → pos 0 ≤ℤ k
    → toy_wire.prev_block (number (k +ℤ pos 1)) ≡ toy_wire.block_hash (number k)
links k up = ap hash_of (shift k)
  where
    shift : (k : ℤ) → number (k +ℤ pos 1) - 1 ≡ number k
    shift k = omega int_laws

abbrev best : BestChain toy_wire (toy_chain 0) (pos 2)
best = record { header = number; links = links; tip = refl }

pass : verify_headers toy_wire (toy_chain 0) all_headers (pos 1) (pos 2) ≡ ok tt
unfolding verify_headers verify_loop bytes_eq heights ◌-ℤ◌ ◌+ℤ◌
pass = refl

verify_headers-Matches_example :
    Matches toy_wire all_headers number (pos 1) (pos 2) ⊎ HeaderCollision toy_wire
verify_headers-Matches_example =
    verify_headers-Matches toy_wire (toy_chain 0) all_headers (pos 1) (pos 2) best (omega arith)
      (omega arith) pass

verify_headers-accepts_example :
    verify_headers toy_wire (toy_chain 0) all_headers (pos 1) (pos 2) ≡ ok tt
verify_headers-accepts_example =
    verify_headers-accepts toy_wire (toy_chain 0) all_headers (pos 1) (pos 2) best (omega arith)
      (omega arith) (λ k lo hi. refl)

header_hooks-HookLaws_example : HookLaws (header_hooks toy_wire io)
header_hooks-HookLaws_example = header_hooks-HookLaws toy_wire io

abbrev files : HeaderFiles ℕ
files = record { headers = all_headers; filter_headers = λ k. some (hash_of 0); disk = λ n. none }

abbrev sealed : HeaderFiles ℕ × Result (Unit {0})
sealed = write_sealed_file toy_wire io (toy_chain 0) (pos 1) (pos 2) files

sealed-ok : sealed.1 ≡ ok tt
unfolding write_sealed_file verify_headers verify_loop bytes_eq heights ◌-ℤ◌ ◌+ℤ◌ write_headers
    write_filter_headers create_and_write serialize_headers serialize_filter_headers
    serialize_entries
sealed-ok = refl

write_sealed_file-HasFiles_example :
    (verify_headers toy_wire (toy_chain 0) all_headers (pos 1) (pos 2) ≡ ok tt)
    × HasFiles toy_wire io (toy_chain 0) (pos 1) (pos 2) files sealed.0.disk
write_sealed_file-HasFiles_example =
    write_sealed_file-HasFiles toy_wire io (toy_chain 0) (pos 1) (pos 2) files
      (ap (λ r. (sealed.0, r)) sealed-ok)

served :
    serialize_headers toy_wire all_headers (pos 1) (pos 2) []
    ≡ ((serialize_headers toy_wire all_headers (pos 1) (pos 2) []).0, ok tt)
unfolding serialize_headers serialize_entries heights ◌-ℤ◌ ◌+ℤ◌
served = refl
