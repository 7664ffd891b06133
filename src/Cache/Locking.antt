-- ===== src/Cache/Locking.antt =====
-- The locks of `getBlockHash` under a caller that holds the read lock itself, as
-- `statusRequestHandler`, `heightBasedRequestHandler` and `serveHeightBasedImport` do.
use block_dn.Common.{◌<◌, ◌≡◌, false, none, some, arith}
use block_dn.Common.Int.{ℤ, eqb_ℤ-refl}
use block_dn.Common.Effect.{ok, err, blocked}
use block_dn.External.{Hash, Chain}
use block_dn.Cache.{H2HCache, get_block_hash, store_hash}

-- A hit needs no write lock: a caller that holds read locks gets its hash, and still holds them.
pub get_block_hash-hit_nested :
    {H : Type 0} (chain : Chain H) (h : ℤ) (c : H2HCache) (hash : Hash)
    → c.writer ≡ false
    → c.height_to_hash h ≡ some hash
    → get_block_hash chain h c ≡ (c, ok hash)
unfolding get_block_hash
get_block_hash-hit_nested chain h c hash f e = ground arith

-- A `getBlockHash` that misses the cache, whose call the backend answers, never returns to a
-- caller that holds a read lock: it waits for the write lock, which is not free before the caller
-- itself gives the read lock up.
pub get_block_hash-miss_nested :
    {H : Type 0} (chain : Chain H) (h : ℤ) (c : H2HCache) (hash : Hash)
    → 0 < c.readers
    → c.writer ≡ false
    → c.height_to_hash h ≡ none
    → chain.get_block_hash h ≡ ok hash
    → (get_block_hash chain h c).1 ≡ err blocked
unfolding get_block_hash
get_block_hash-miss_nested chain h c hash held f e r = ground arith

-- Whoever calls it, a hash that `getBlockHash` returns is cached afterwards.
pub get_block_hash-caches :
    {H : Type 0} (chain : Chain H) (h : ℤ) (c c' : H2HCache) (hash : Hash)
    → get_block_hash chain h c ≡ (c', ok hash)
    → c'.height_to_hash h ≡ some hash
unfolding get_block_hash store_hash
get_block_hash-caches chain h c c' hash run = ground (arith, run, eqb_ℤ-refl h)
