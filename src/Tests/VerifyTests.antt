-- ===== src/Tests/VerifyTests.antt =====
-- The verify command at concrete inputs.
use block_dn.Common.{
  ℕ, zero, suc, ◌+◌, ◌*◌, ◌<◌, ◌/◌, ◌^◌, ◌≡◌, ◌⊎◌, inl, inr, refl, sym, ap, ◌∙◌, true, false,
  Bool-cases, leb, leb→le, take, drop, Option, some, none, [], ◌∷◌, ◌++◌, map, replicate, bytes_eq,
  if◌then◌else◌, arith,
}
use block_dn.Common.Int.{ℤ, pos, negsuc, pos_part, ◌+ℤ◌, ◌-ℤ◌, ◌≤ℤ◌, ◌<ℤ◌, int_laws, parts}
use block_dn.Common.Heights.{heights, heights_from}
use block_dn.Common.Effect.{Result, ok, err, rpc_failed}
use block_dn.External.{Bytes, Hash, zero_hash, Chain, Collision, FilterResult}
use block_dn.Files.{FileName, Disk, put}
use block_dn.Headers.{header_file}
use block_dn.CFilters.{filter_file, next_header}
use block_dn.Verify.{
  Verifier, Settings, Surroundings, file_end, load_filter_headers, ensure_loaded, cached_entry,
  stored_filter_header, fetch_in_memory,
}
use block_dn.Verify.HeaderFiles.{
  prev_field, continues, link_records, check_header_file, verify_one_header_file,
}
use block_dn.Verify.Records.{BestRecords, IsBest, verify_one_header_file-IsBest}
use block_dn.Verify.Repair.{Works, Serves, verify_one_header_file-repairs}
use block_dn.Verify.FilterFiles.{
  read_filters, parse_filters, read_filter_file, chain_filters, header_before, check_filter_chain,
  check_filter_file, verify_one_filter_file, run_verify,
}
use block_dn.Verify.Stored.{Commitments, AreEntries, IsServed}
use block_dn.Verify.Running.{VerifyRun, run_verify-VerifyRun}
use block_dn.Verify.Closure.{verify_one_filter_file-AreBest}
use native.Mathlib.Nat.{pow-suc, mul-suc}
use block_dn.Tests.Toy.{toy_wire, toy_laws, sum}

-- A chain of headers: all bytes of the header at height `k` are `80 ^ k`, the sum of those of the header
-- before it.
abbrev header_at : ℤ → Bytes
header_at k = replicate 80 (80 ^ pos_part k)

abbrev hash_at : ℤ → Hash
hash_at k = replicate 32 (sum (header_at k))

abbrev known_at : ℤ → Result Hash
known_at (pos n) = ok (hash_at (pos n))
known_at (negsuc n) = err rpc_failed

abbrev header_of : Hash → ℕ
header_of [] = 0
header_of (b ∷ bs) = b / 80

abbrev filter_of : Hash → Result FilterResult
filter_of hash = err rpc_failed

abbrev chained : Chain ℕ
chained = record {
  get_block_count = ok (pos 3);
  get_block_hash = known_at;
  get_block_header = λ hash. ok (header_of hash);
  get_block_filter = filter_of;
}

abbrev settings : Settings
settings = record {
  headers_per_file = 2;
  filters_per_file = 2;
  re_org_safe_depth = pos 1;
  genesis_hash = hash_at (pos 0);
  limit = 9;
}

sum-replicate : (m b : ℕ) → sum (replicate m b) ≡ b * m
sum-replicate zero b = omega arith
sum-replicate (suc m) b = omega (arith, sum-replicate m b, mul-suc b m)

add_one : (n : ℕ) → n + 1 ≡ suc n
add_one n = omega arith

links_at : (n : ℕ) → 80 ^ (n + 1) ≡ sum (replicate 80 (80 ^ n))
links_at n = ap (λ m. 80 ^ m) (add_one n) ∙ pow-suc 80 n ∙ sym (sum-replicate 80 (80 ^ n))

abbrev best : BestRecords toy_wire settings chained (pos 3)
best = record { header = header_at; links = links; tip = refl }
  where
    links : (k : ℤ) → pos 0 ≤ℤ k → prev_field (header_at (k +ℤ pos 1)) ≡ hash_at k
    links (pos n) up =
        let next : pos_part (pos n +ℤ pos 1) ≡ n + 1 = omega int_laws in
        ap (λ m. replicate 32 (80 ^ m)) next ∙ ap (replicate 32) (links_at n)
    links (negsuc n) up = absurd (omega arith)

abbrev works : Surroundings
works = record {
  reads = λ name. true;
  creates_temp = λ name. true;
  writes = λ k. true;
  closes_temp = λ name. true;
  renames = λ name. true;
  http_get = λ route start. err rpc_failed;
}

-- The second header file, with heights 2 and 3.
abbrev second_file : Bytes
second_file = header_at (pos 2) ++ header_at (pos 3)

abbrev new_verifier : Disk → Verifier
new_verifier disk = record {
  disk = disk;
  bad_files = [];
  fixed_files = [];
  cache_start = negsuc 0;
  cache = [];
  cache_from_memory = false;
}

abbrev with_second : Verifier
with_second = new_verifier (put (header_file (pos 2) (pos 3)) second_file (λ name. none))

second_passes :
    verify_one_header_file toy_wire settings chained works false
      (pos 2)
      (pos 3)
      (hash_at (pos 1))
      with_second
    ≡ (with_second, ok (hash_at (pos 3)))
unfolding verify_one_header_file check_header_file link_records continues heights bytes_eq ◌+ℤ◌ ◌-ℤ◌
second_passes = refl

verify_one_header_file-IsBest_example :
    IsBest toy_wire settings best (pos 2) with_second.disk (hash_at (pos 3)) ⊎ Collision toy_wire
verify_one_header_file-IsBest_example =
    verify_one_header_file-IsBest toy_wire settings best (pos 2) works false (hash_at (pos 1))
      with_second (omega int_laws) (omega int_laws) second_passes refl

serve : (k : ℤ) → pos 2 ≤ℤ k → k <ℤ pos 2 +ℤ pos 2 → Serves toy_wire settings chained header_at k
unfolding ◌+ℤ◌ ◌-ℤ◌
serve (pos (suc (suc zero))) lo hi = record {
  hash = hash_at (pos 2);
  header = 6400;
  at = refl;
  block = refl;
  same = refl;
  hashes = refl;
  size = refl;
  from_genesis = λ e. absurd (omega (arith, (parts e).0));
  links = λ lt. refl;
}
serve (pos (suc (suc (suc zero)))) lo hi = record {
  hash = hash_at (pos 3);
  header = 512000;
  at = refl;
  block = refl;
  same = refl;
  hashes = refl;
  size = refl;
  from_genesis = λ e. absurd (omega (arith, (parts e).0));
  links = λ lt. refl;
}
serve (pos zero) lo hi = absurd (omega arith)
serve (pos (suc zero)) lo hi = absurd (omega arith)
serve (pos (suc (suc (suc (suc n))))) lo hi = absurd (omega arith)
serve (negsuc n) lo hi = absurd (omega arith)

always_works : (name : FileName) → Works works name
always_works name = record {
  reads = refl;
  creates = refl;
  writes = λ k. refl;
  closes = refl;
  renames = refl;
}

-- The file is missing, and is written.
verify_one_header_file-repairs_example :
    (v' : Verifier) × (verify_one_header_file toy_wire settings chained works true
        (pos 2)
        (file_end (pos 2) 2)
        (hash_at (pos 1))
        (new_verifier (λ name. some (1 ∷ [])))
      ≡ (v', ok (hash_at (file_end (pos 2) 2))))
    × (v'.bad_files ≡ [])
unfolding ◌-ℤ◌
verify_one_header_file-repairs_example =
    verify_one_header_file-repairs toy_wire settings chained header_at 1 (pos 2) (omega int_laws)
      refl serve works (hash_at (pos 1)) (new_verifier (λ name. some (1 ∷ [])))
      (always_works (header_file (pos 2) (file_end (pos 2) 2))) (λ lt. refl)

-- Every block has the filter of one zero byte, whose filter headers are all zero.
abbrev commitments : Commitments toy_wire
unfolding next_header
commitments = record {
  filter = λ k. 0 ∷ [];
  before = λ k. zero_hash;
  genesis = refl;
  commits = λ k up. refl;
}

abbrev filter_disk : Disk
filter_disk = put (filter_file (pos 0) (file_end (pos 0) 2)) (1 ∷ 0 ∷ 1 ∷ 0 ∷ []) (λ name. none)

-- The filter headers are in the memory of the server.
abbrev serving : Surroundings
serving = record works { http_get = λ route start. ok (200, zero_hash ++ zero_hash) }

abbrev zeros : Bytes
zeros = zero_hash ++ zero_hash

entry_at : ℕ → Option Hash
entry_at m = if leb (m * 32 + 32) 64 then some (take 32 (drop (m * 32) zeros)) else none

zero_entry : (m : ℕ) (h : Hash) → entry_at m ≡ some h → h ≡ zero_hash
unfolding entry_at
zero_entry zero h e = cc
zero_entry (suc zero) h e = cc
zero_entry (suc (suc m)) h e = elim (Bool-cases (leb (suc (suc m) * 32 + 32) 64)) [
  | inl q ↦ absurd (omega (arith, leb→le (suc (suc m) * 32 + 32) 64 q))
  | inr q ↦ cc (rw q at e)
]

zeros-AreEntries : (start : ℤ) → AreEntries toy_wire commitments settings serving start zeros
unfolding cached_entry entry_at commitments
zeros-AreEntries start k h le e = zero_entry (pos_part (k -ℤ start)) h e

serving-IsServed : IsServed toy_wire commitments settings serving
unfolding fetch_in_memory
serving-IsServed start found e = rw (← ok_eq e) (zeros-AreEntries start)
  where
    ok_eq : {a b : Bytes} → ok a ≡ ok b → a ≡ b
    ok_eq e = cc

abbrev filters_done : Verifier × Result (Unit {0})
filters_done =
    verify_one_filter_file toy_wire settings serving chained false (pos 0) (file_end (pos 0) 2)
      (new_verifier filter_disk)

filters_pass : (filters_done.1 ≡ ok tt) × (filters_done.0.bad_files ≡ [])
unfolding verify_one_filter_file check_filter_file read_filter_file parse_filters read_filters
    check_filter_chain header_before stored_filter_header ensure_loaded load_filter_headers
    fetch_in_memory cached_entry chain_filters next_header bytes_eq ◌+ℤ◌ ◌-ℤ◌
filters_pass = (refl, refl)

verify_one_filter_file-AreBest_example :
    (read_filter_file toy_wire settings serving
        (filter_file (pos 0) (file_end (pos 0) 2))
        filters_done.0
      ≡ ok (map commitments.filter (heights_from (pos 0) 2)))
    ⊎ Collision toy_wire
verify_one_filter_file-AreBest_example =
    verify_one_filter_file-AreBest toy_wire toy_laws commitments settings serving serving-IsServed
      chained (pos 0) (new_verifier filter_disk) (omega arith) (omega arith)
      (record { cached = λ up. absurd (omega arith); on_disk = λ start found e. cc })
      (ap (λ r. (filters_done.0, r)) filters_pass.0) filters_pass.1

-- A disk with the first header file and no filter file.
abbrev first_file_only : Verifier
first_file_only =
    new_verifier
      (put (header_file (pos 0) (pos 1)) (header_at (pos 0) ++ header_at (pos 1)) (λ name. none))

run_verify-VerifyRun_example :
    (r : Verifier × Result (Unit {0})) × VerifyRun toy_wire settings serving true
      (λ start. chained)
      (λ start. chained)
      first_file_only
      r
    × ((n : ℕ)
        → 1 < n
        → 0 < n
        → run_verify toy_wire settings serving
            (λ start. chained)
            (λ start. chained)
            true
            n
            first_file_only
          ≡ r)
unfolding ◌+ℤ◌
run_verify-VerifyRun_example =
    run_verify-VerifyRun toy_wire settings serving true (λ start. chained) (λ start. chained) 1 0
      first_file_only (omega arith) (omega arith) refl refl
