-- ===== src/Cache/Invariant.antt =====
-- What every operation of the hash cache keeps: no hash is cached above `bestHeight`.
use block_dn.Common.{
  ◌≡◌, refl, ◌∙◌, ◌⊎◌, false, none, some, Bool-cases, Option-cases, inl, inr, arith,
}
use block_dn.Common.Int.{ℤ, ◌≤ℤ◌, ◌<ℤ◌, ltb_ℤ, eqb_ℤ, int_laws, int_tests, eqb_ℤ-refl}
use block_dn.Common.Heights.{delete_all_inside, delete_all_outside}
use block_dn.Common.Effect.{Result-cases, ok, err, Err, rpc_failed}
use block_dn.External.{Hash, Chain}
use block_dn.Cache.{H2HCache, store_hash, get_block_hash, invalidate}

-- No height above `best_height` has an entry.
abbrev pub IsBounded : H2HCache → Type 0
IsBounded c = (h : ℤ) → c.best_height <ℤ h → c.height_to_hash h ≡ none

-- Nobody holds the lock.
abbrev pub IsFree : H2HCache → Type 0
IsFree c = (c.readers ≡ 0) × (c.writer ≡ false)

pub store_hash-IsBounded :
    (k : ℤ) (hash : Hash) (c : H2HCache) → IsBounded c → IsBounded (store_hash k hash c)
unfolding store_hash
store_hash-IsBounded k hash c b h above = ground (arith, b h)

-- `invalidate` keeps `best_height` a bound on the heights that are cached, though it lowers
-- `best_height`: what it leaves behind would be an entry that no later `invalidate` deletes.
pub invalidate-IsBounded : (k : ℤ) (c : H2HCache) → IsBounded c → IsBounded (invalidate k c)
unfolding invalidate
invalidate-IsBounded k c b h above = elim (Bool-cases (ltb_ℤ c.best_height h)) [
  | inl over ↦
      delete_all_outside k c.best_height c.height_to_hash h (inr (omega int_tests))
      ∙ b h (omega int_tests)
  | inr under ↦
      delete_all_inside k c.best_height c.height_to_hash h (omega int_tests) (omega int_tests)
]

-- After `invalidate` no height from `k` on is cached, and the ones below are as they were.
pub invalidate_lem :
    (k : ℤ) (c : H2HCache)
    → IsBounded c
    → (h : ℤ)
    → (k ≤ℤ h → (invalidate k c).height_to_hash h ≡ none)
      × (h <ℤ k → (invalidate k c).height_to_hash h ≡ c.height_to_hash h)
invalidate_lem k c b h = (
  λ at. invalidate-IsBounded k c b h (unfold invalidate in omega int_laws),
  λ below. unfold invalidate in delete_all_outside k c.best_height c.height_to_hash h (inl below),
)

-- A hash that is cached is returned without a call, and nothing changes.
pub get_block_hash_cached :
    {H : Type 0} (chain : Chain H) (h : ℤ) (c : H2HCache) (hash : Hash)
    → IsFree c
    → c.height_to_hash h ≡ some hash
    → get_block_hash chain h c ≡ (c, ok hash)
unfolding get_block_hash
get_block_hash_cached chain h c hash f e = ground arith

pub get_block_hash_fetched :
    {H : Type 0} (chain : Chain H) (h : ℤ) (c : H2HCache) (hash : Hash)
    → IsFree c
    → c.height_to_hash h ≡ none
    → chain.get_block_hash h ≡ ok hash
    → get_block_hash chain h c ≡ (store_hash h hash c, ok hash)
unfolding get_block_hash
get_block_hash_fetched chain h c hash f e r = ground arith

pub get_block_hash_refused :
    {H : Type 0} (chain : Chain H) (h : ℤ) (c : H2HCache) (e : Err)
    → IsFree c
    → c.height_to_hash h ≡ none
    → chain.get_block_hash h ≡ err e
    → get_block_hash chain h c ≡ (c, err rpc_failed)
unfolding get_block_hash
get_block_hash_refused chain h c e f m r = ground arith

-- How `getBlockHash` leaves the cache, and what it returned.
pub record IsServed {H : Type 0} (chain : Chain H) (h : ℤ) (c : H2HCache) (hash : Hash)
    (c' : H2HCache) : Type 0 where
  pub free : IsFree c'
  pub bounded : IsBounded c → IsBounded c'
  pub cached : c'.height_to_hash h ≡ some hash
  pub others : (k : ℤ) → eqb_ℤ k h ≡ false → c'.height_to_hash k ≡ c.height_to_hash k
  pub source :
      (c.height_to_hash h ≡ some hash)
      ⊎ ((c.height_to_hash h ≡ none) × (chain.get_block_hash h ≡ ok hash))

module _ {H : Type 0} (chain : Chain H) (h : ℤ) (c : H2HCache) (f : IsFree c) where
  hit : (hash : Hash) → c.height_to_hash h ≡ some hash → IsServed chain h c hash c
  hit hash e = record {
    free = f;
    bounded = λ b. b;
    cached = e;
    others = λ k n. refl;
    source = inl e;
  }

  miss :
      (hash : Hash)
      → c.height_to_hash h ≡ none
      → chain.get_block_hash h ≡ ok hash
      → IsServed chain h c hash (store_hash h hash c)
  miss hash e r = record {
    free = unfold store_hash in f;
    bounded = store_hash-IsBounded h hash c;
    cached = unfold store_hash in ground (arith, eqb_ℤ-refl h);
    others = λ k n. unfold store_hash in ground arith;
    source = inr (e, r);
  }

  -- From a free lock `getBlockHash` always comes to an answer, with the lock free again: the hash
  -- that was cached or, if there was none, the backend's, which is then cached; or an error that
  -- leaves the cache as it was, and only if the backend answers with one.
  pub get_block_hash_lem :
      ((hash : Hash) × (c' : H2HCache) × (get_block_hash chain h c ≡ (c', ok hash))
        × IsServed chain h c hash c')
      ⊎ ((e : Err) × (chain.get_block_hash h ≡ err e)
          × (get_block_hash chain h c ≡ (c, err rpc_failed)))
  get_block_hash_lem = elim (Option-cases (c.height_to_hash h)) [
    | inl e ↦ elim (Result-cases (chain.get_block_hash h)) [
      | inl (hash, r) ↦
          inl
            (hash, store_hash h hash c, get_block_hash_fetched chain h c hash f e r, miss hash e r)
      | inr (x, r) ↦ inr (x, r, get_block_hash_refused chain h c x f e r)
    ]
    | inr (hash, e) ↦ inl (hash, c, get_block_hash_cached chain h c hash f e, hit hash e)
  ]

-- After a rollback has invalidated the heights from `k` on, `getBlockHash` at such a height asks
-- the backend: a hash that it returns is the backend's, not one of the chain that was left.
pub get_block_hash-invalidate :
    {H : Type 0} (chain : Chain H) (k h : ℤ) (c : H2HCache) {hash : Hash} {c' : H2HCache}
    → IsFree c
    → IsBounded c
    → k ≤ℤ h
    → get_block_hash chain h (invalidate k c) ≡ (c', ok hash)
    → (chain.get_block_hash h ≡ ok hash) × (c'.height_to_hash h ≡ some hash)
get_block_hash-invalidate chain k h c f b le run =
    elim (get_block_hash_lem chain h (invalidate k c) (unfold invalidate in f)) [
      | inl (x, d, e, s) ↦ ground (arith, (invalidate_lem k c b h).0 le, e, run, s.source, s.cached)
      | inr (x, r, e) ↦ cc
    ]
