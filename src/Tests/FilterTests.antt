-- ===== src/Tests/FilterTests.antt =====
-- The filter producer and the start from header files at concrete inputs.
use block_dn.Common.{
  ℕ, zero, suc, ◌+◌, ◌≡◌, ◌⊎◌, refl, ap, none, some, true, List, [], ◌∷◌, length, arith, bytes_eq,
}
use block_dn.Common.Int.{ℤ, pos, negsuc, pos_part, ◌+ℤ◌, ◌-ℤ◌, ◌≤ℤ◌}
use block_dn.Common.Heights.{HeightMap, heights}
use block_dn.Common.Effect.{Result, ok}
use block_dn.External.{Bytes, Collision}
use block_dn.Cache.{
  H2HCache, new_h2h_cache, get_block_hash, answer, fetch_missing, cache_fetched, store_hash,
  load_from_headers,
}
use block_dn.Cache.Load.{opened, joined, IsLoaded, load_from_headers-IsLoaded}
use block_dn.Files.{Io}
use block_dn.Entries.{Holds, no_more, more}
use block_dn.Producer.{Shared}
use block_dn.Producer.Sound.{HookLaws}
use block_dn.CFilters.{
  CFilterFiles, next_header, auth_header, start_header, filter_chain, verify_filters, cfilter_hooks,
  serialize_filters,
}
use block_dn.CFilters.Backend.{FilterChain, IsFresh}
use block_dn.CFilters.Verify.{HasFilters, verify_filters-HasFilters, verify_filters-accepts}
use block_dn.CFilters.Laws.{cfilter_hooks-HookLaws}
use block_dn.CFilters.Read.{read_filter_file, on_each, read_filter_file-serialize}
use block_dn.Tests.Toy.{toy_wire, toy_laws, toy_chain, hash_of}

-- The chain of the tests; each block has the filter of one zero byte.
abbrev best : FilterChain toy_wire (toy_chain 0) (pos 2)
unfolding next_header
best = record {
  hash = λ k. hash_of (pos_part k + 0);
  filter = λ k. 0 ∷ [];
  before = λ k. hash_of 0;
  genesis = refl;
  commits = λ k lo. refl;
  blocks = at;
  serves = λ k lo hi. (record { filter = ""; header = "" }, refl, refl);
}
  where
    at :
        (k : ℤ)
        → pos 0 ≤ℤ k
        → k ≤ℤ pos 2
        → (toy_chain 0).get_block_hash k ≡ ok (hash_of (pos_part k + 0))
    at (pos n) lo hi = refl
    at (negsuc n) lo hi = absurd (omega arith)

new_h2h_cache-IsFresh : IsFresh toy_wire best new_h2h_cache
unfolding new_h2h_cache
new_h2h_cache-IsFresh = record { free = (refl, refl); current = λ k x lo hi e. cc }

abbrev tail : Shared CFilterFiles
tail = record {
  cache = new_h2h_cache;
  own = record {
    filters = λ k. some (0 ∷ []);
    height_to_hash = λ k. some (hash_of (pos_part k));
    disk = λ n. none;
  };
}

abbrev verified : Shared CFilterFiles × Result (Unit {0})
verified = verify_filters toy_wire (toy_chain 0) (pos 1) (pos 2) tail

verified-ok : verified.1 ≡ ok tt
unfolding verify_filters start_header auth_header filter_chain next_header get_block_hash answer
    fetch_missing cache_fetched store_hash new_h2h_cache bytes_eq heights ◌-ℤ◌ ◌+ℤ◌
verified-ok = refl

verify_filters-HasFilters_example :
    HasFilters toy_wire tail.own.filters best.filter (pos 1) (pos 2) ⊎ Collision toy_wire
verify_filters-HasFilters_example =
    verify_filters-HasFilters toy_wire toy_laws (toy_chain 0) (pos 1) (pos 2) best tail
      (omega arith) (omega arith) new_h2h_cache-IsFresh (ap (λ r. (verified.0, r)) verified-ok)

verify_filters-accepts_example : verified.1 ≡ ok tt
unfolding best
verify_filters-accepts_example =
    verify_filters-accepts toy_wire (toy_chain 0) (pos 1) (pos 2) best tail (omega arith)
      (omega arith) new_h2h_cache-IsFresh (λ k lo hi. refl)

abbrev io : Io
io = record { creates = λ n. true; closes = λ n. true }

cfilter_hooks-HookLaws_example : HookLaws (cfilter_hooks toy_wire io)
cfilter_hooks-HookLaws_example = cfilter_hooks-HookLaws toy_wire io

-- Filters of one and of two bytes.
abbrev some_filters : HeightMap Bytes
some_filters (pos zero) = some (7 ∷ [])
some_filters (pos (suc n)) = some (n ∷ 5 ∷ [])
some_filters (negsuc n) = none

some_filters-Holds : Holds some_filters (heights (pos 0) (pos 1)) ((7 ∷ []) ∷ (0 ∷ 5 ∷ []) ∷ [])
unfolding heights ◌-ℤ◌ ◌+ℤ◌
some_filters-Holds = more refl (more refl no_more)

abbrev collect : ℕ → Bytes → List Bytes → List Bytes
collect idx filter filters = filter ∷ filters

read_filter_file-serialize_example :
    (file : Bytes) × (serialize_filters toy_wire some_filters (pos 0) (pos 1) [] ≡ (file, ok tt))
    × (read_filter_file toy_wire 100 collect file []
        ≡ (on_each toy_wire 100 collect 0 ((7 ∷ []) ∷ (0 ∷ 5 ∷ []) ∷ []) [], ok 2))
read_filter_file-serialize_example =
    read_filter_file-serialize toy_wire 100 collect toy_laws (omega arith) some_filters (pos 0)
      (pos 1) ((7 ∷ []) ∷ (0 ∷ 5 ∷ []) ∷ []) [] some_filters-Holds (omega arith, (omega arith, tt))

-- Two files, of two headers and of one.
abbrev header_files : List (List ℕ)
header_files = (0 ∷ 1 ∷ []) ∷ (2 ∷ []) ∷ []

load_from_headers-IsLoaded_example :
    (c : H2HCache) × (load_from_headers toy_wire (ok (opened toy_wire header_files)) new_h2h_cache
      ≡ (c, ok (pos (length (joined toy_wire header_files)) -ℤ pos 1)))
    × IsLoaded toy_wire toy_laws (joined toy_wire header_files) c
load_from_headers-IsLoaded_example = load_from_headers-IsLoaded toy_wire toy_laws header_files
