-- ===== src/Cache.antt =====
-- height-to-hash-cache.go: the cache of block hashes that the producers and the handlers share. Its
-- RWMutex is part of the state: `readers` counts the read locks that are held. Each operation runs
-- from a state between two operations; `blocked` is a goroutine that waits for a lock held there.
pub mod Invariant
pub mod Locking
pub mod Load
use block_dn.Common.{
  ℕ, zero, suc, ◌+◌, ◌-◌, ◌==◌, Bool, true, false, not, ◌&&◌, ◌||◌, Option, none, some, List, [],
  ◌∷◌, if◌then◌else◌, length,
}
use block_dn.Common.Int.{ℤ, pos, negsuc, ◌+ℤ◌, ◌-ℤ◌, ltb_ℤ}
use block_dn.Common.Heights.{HeightMap, heights, insert, delete_all}
use block_dn.Common.Effect.{
  Result, ok, err, Err, blocked, exhausted, failed, io_failed, rpc_failed, M, pure, raise, lift,
  ◌>>=◌, ◌>>◌, continue, gets, modify,
}
use block_dn.External.{Bytes, Hash, Chain, Read, got, eof, bad, Wire}

pub record H2HCache : Type 0 where
  pub height_to_hash : HeightMap Hash
  pub best_height : ℤ
  pub readers : ℕ
  pub writer : Bool

-- `newH2HCache`: an empty map, and the zero value of `bestHeight`.
unfoldable pub new_h2h_cache : H2HCache
new_h2h_cache = record {
  height_to_hash = λ h. none;
  best_height = pos 0;
  readers = 0;
  writer = false;
}

-- `sync.RWMutex`: a writer waits for all readers, a reader for the writer.
abbrev pub r_lock : M H2HCache (Unit {0})
r_lock c = if c.writer then (c, err blocked) else (record c { readers = c.readers + 1 }, ok tt)

abbrev pub r_unlock : M H2HCache (Unit {0})
r_unlock c = (record c { readers = c.readers - 1 }, ok tt)

abbrev pub lock : M H2HCache (Unit {0})
lock c =
    if c.writer || not (c.readers == 0)
    then (c, err blocked)
    else (record c { writer = true }, ok tt)

abbrev pub unlock : M H2HCache (Unit {0})
unlock c = (record c { writer = false }, ok tt)

-- `c.heightToHash[h] = *hash`, and `bestHeight` raised to `h` if that is higher.
unfoldable pub store_hash : ℤ → Hash → H2HCache → H2HCache
store_hash h hash c = record c {
  height_to_hash = insert h hash c.height_to_hash;
  best_height = if ltb_ℤ c.best_height h then h else c.best_height;
}

-- The branch of `getBlockHash` for a hash that is not cached: the read lock is given up for the
-- write lock, and taken again for the deferred `RUnlock`.
unfoldable pub cache_fetched : ℤ → Hash → M H2HCache Hash
unfolding store_hash
cache_fetched h hash = do
  r_unlock
  lock
  modify (store_hash h hash)
  unlock
  r_lock
  r_unlock
  pure hash

unfoldable pub fetch_missing : ℤ → Result Hash → M H2HCache Hash
unfolding cache_fetched
fetch_missing h (ok hash) = cache_fetched h hash
fetch_missing h (err e) = r_unlock >> raise rpc_failed

unfoldable pub answer : {H : Type 0} → Chain H → ℤ → Option Hash → M H2HCache Hash
unfolding fetch_missing
answer chain h (some hash) = r_unlock >> pure hash
answer chain h none = fetch_missing h (chain.get_block_hash h)

unfoldable pub get_block_hash : {H : Type 0} → Chain H → ℤ → M H2HCache Hash
unfolding answer
get_block_hash chain h = do r_lock; hash ← gets (λ c. c.height_to_hash h); answer chain h hash

unfoldable pub invalidate : ℤ → H2HCache → H2HCache
invalidate from_height c = record c {
  height_to_hash = delete_all (heights from_height c.best_height) c.height_to_hash;
  best_height = from_height -ℤ pos 1;
}

-- The inner loop of `loadFromHeaders`: `Deserialize` until the end of the file. Each header that is
-- read takes a byte at least, so one round more than the file has bytes is enough.
unfoldable pub load_file : {H : Type 0} → Wire H → ℕ → Bytes → ℤ → M H2HCache ℤ
load_file wire zero file height c = (c, err exhausted)
load_file wire (suc n) file height c = elim (wire.deserialize file) [
  | got header rest ↦
      load_file wire n rest (height +ℤ pos 1)
        (record c { height_to_hash = insert height (wire.block_hash header) c.height_to_hash })
  | eof ↦ (c, ok height)
  | bad ↦ (c, err failed)
]

-- The loop over the files; `none` is a file that does not open.
unfoldable pub load_files : {H : Type 0} → Wire H → List (Option Bytes) → ℤ → M H2HCache ℤ
load_files wire [] height c = (c, ok height)
load_files wire (none ∷ files) height c = (c, err io_failed)
load_files wire (some file ∷ files) height c =
    continue (load_file wire (suc (length file)) file height c) (load_files wire files)

-- The body of `loadFromHeaders`, under the write lock.
unfoldable pub load_locked : {H : Type 0} → Wire H → Result (List (Option Bytes)) → M H2HCache ℤ
unfolding load_file load_files
load_locked wire listing = do
  files ← lift listing
  height ← load_files wire files (pos 0)
  modify (λ c. record c { best_height = height -ℤ pos 1 })
  gets (λ c. c.best_height)

-- The deferred `Unlock`, which runs whatever the body returned.
abbrev pub and_unlock : {A : Type 0} → M H2HCache A → M H2HCache A
and_unlock body c = let (c1, r) = body c in (record c1 { writer = false }, r)

-- `loadFromHeaders` on what `listFiles` returned, with the files' contents. It runs once, on a new
-- cache, before the producers start.
unfoldable pub load_from_headers :
    {H : Type 0} → Wire H → Result (List (Option Bytes)) → M H2HCache ℤ
unfolding load_locked
load_from_headers wire listing = lock >> and_unlock (load_locked wire listing)
