-- ===== src/Tests/CacheTests.antt =====
-- The hash cache at concrete inputs.
use block_dn.Common.{◌≡◌, refl, ◌⊎◌, arith}
use block_dn.Common.Int.{pos}
use block_dn.Common.Effect.{ok, err, Err, rpc_failed}
use block_dn.External.{Hash}
use block_dn.Cache.{H2HCache, new_h2h_cache, store_hash, get_block_hash, invalidate}
use block_dn.Cache.Invariant.{
  IsBounded, IsServed, store_hash-IsBounded, invalidate_lem, get_block_hash_lem,
  get_block_hash_fetched,
}
use block_dn.Tests.Toy.{hash_of, toy_chain}

-- The cache of the chain that was left, with blocks 1 and 2.
abbrev old_cache : H2HCache
old_cache = store_hash (pos 2) (hash_of 2) (store_hash (pos 1) (hash_of 1) new_h2h_cache)

new_h2h_cache-IsBounded : IsBounded new_h2h_cache
unfolding new_h2h_cache
new_h2h_cache-IsBounded h above = refl

old_cache-IsBounded : IsBounded old_cache
old_cache-IsBounded =
    store_hash-IsBounded (pos 2) (hash_of 2) _
      (store_hash-IsBounded (pos 1) (hash_of 1) new_h2h_cache new_h2h_cache-IsBounded)

get_block_hash_lem_example :
    ((hash : Hash) × (c' : H2HCache) × (get_block_hash (toy_chain 0) (pos 3) new_h2h_cache
        ≡ (c', ok hash))
      × IsServed (toy_chain 0) (pos 3) new_h2h_cache hash c')
    ⊎ ((e : Err) × ((toy_chain 0).get_block_hash (pos 3) ≡ err e)
        × (get_block_hash (toy_chain 0) (pos 3) new_h2h_cache ≡ (new_h2h_cache, err rpc_failed)))
get_block_hash_lem_example =
    get_block_hash_lem (toy_chain 0) (pos 3) new_h2h_cache (unfold new_h2h_cache in (refl, refl))

-- After the reorg to the chain with other hashes, block 2 is read anew.
refetched :
    get_block_hash (toy_chain 7) (pos 2) (invalidate (pos 2) old_cache)
    ≡ (store_hash (pos 2) (hash_of 9) (invalidate (pos 2) old_cache), ok (hash_of 9))
refetched =
    get_block_hash_fetched (toy_chain 7) (pos 2) (invalidate (pos 2) old_cache) (hash_of 9)
      (unfold invalidate store_hash new_h2h_cache in (refl, refl))
      ((invalidate_lem (pos 2) old_cache old_cache-IsBounded (pos 2)).0 (omega arith)) refl
