-- ===== src/PrevOuts/Prefetch.antt =====
-- block-prevouts.go, `blockPrefetcher`: blocks fetched in the background. A pending entry holds what
-- its channel will deliver. `S` is the cache behind `getHash` and `B` is `blockWithPrevOuts`.
use block_dn.Common.{
  ◌≡◌, refl, ap, ◌∙◌, inl, inr, Option, none, some, List, [], ◌∷◌, if◌then◌else◌, All, bytes_eq,
  bytes_eq→eq, Bool-cases, Option-cases,
}
use block_dn.Common.Int.{ℤ, pos, ◌+ℤ◌, eqb_ℤ}
use block_dn.Common.Heights.{HeightMap, heights, insert, delete}
use block_dn.Common.Effect.{M, Result, ok, err, Result-cases}
use block_dn.External.{Hash}

-- `prefetchedBlock`: the hash that the fetch was started for, and its outcome.
pub record PrefetchedBlock (B : Type 0) : Type 0 where
  pub hash : Hash
  pub result : Result B

pub record BlockPrefetcher (S B : Type 0) : Type 0 where
  pub cache : S
  pub pending : HeightMap (PrefetchedBlock B)

-- One call of `fetchBlock`, with what the backend does during it: `get_hash` resolves heights,
-- `background` is what the fetches started by the call will deliver, and `direct` a fetch that the
-- call itself makes.
pub record Fetch (S B : Type 0) : Type 0 where
  pub height : ℤ
  pub hash : Hash
  pub get_hash : ℤ → M S Hash
  pub background : Hash → Result B
  pub direct : Hash → Result B

-- `prefetchDepth`
abbrev pub prefetch_depth : ℤ
prefetch_depth = pos 8

some_eq : {A : Type 0} {a b : A} → some a ≡ some b → a ≡ b
some_eq e = cc

-- A block that is fetched is the one that was asked for.
abbrev pub IsFaithful : {B : Type 0} → (Hash → B → Type 0) → (Hash → Result B) → Type 0
IsFaithful {B = B} IsBlock fetch =
    (hash : Hash) (block : B) → fetch hash ≡ ok block → IsBlock hash block

module _ {S B : Type 0} where
  -- A background fetch is started for a height that resolves to a hash.
  abbrev pub started :
      Fetch S B
      → ℤ
      → HeightMap (PrefetchedBlock B)
      → S × Result Hash
      → BlockPrefetcher S B × Result (Unit {0})
  started c h pending (cache, err e) = (record { cache = cache; pending = pending }, err e)
  started c h pending (cache, ok hash) = (
    record {
      cache = cache;
      pending = insert h (record { hash = hash; result = c.background hash }) pending;
    },
    ok tt,
  )

  -- The loop of `scheduleAhead`.
  unfoldable pub schedule : Fetch S B → List ℤ → BlockPrefetcher S B → BlockPrefetcher S B
  schedule c [] p = p
  schedule c (h ∷ hs) p = elim (p.pending h) [
    | some entry ↦ schedule c hs p
    | none ↦
        let (p1, result) = started c h p.pending (c.get_hash h p.cache) in
        elim result [ err e ↦ p1 | ok done ↦ schedule c hs p1 ]
  ]

  unfoldable pub schedule_ahead : Fetch S B → BlockPrefetcher S B → BlockPrefetcher S B
  schedule_ahead c = schedule c (heights (c.height +ℤ pos 1) (c.height +ℤ prefetch_depth))

  -- A result is used if the fetch succeeded for the hash that the caller expects.
  unfoldable pub consume : Fetch S B → Option (PrefetchedBlock B) → Result B
  consume c none = c.direct c.hash
  consume c (some entry) = elim entry.result [
    | err e ↦ c.direct c.hash
    | ok block ↦ if bytes_eq entry.hash c.hash then ok block else c.direct c.hash
  ]

  unfoldable pub prefetcher_fetch_block : Fetch S B → M (BlockPrefetcher S B) B
  prefetcher_fetch_block c p =
      let p1 = schedule_ahead c p in
      (record p1 { pending = delete c.height p1.pending }, consume c (p1.pending c.height))

  -- A run of the producer: calls one after the other.
  unfoldable pub fetch_all : List (Fetch S B) → BlockPrefetcher S B → List (Result B)
  fetch_all [] p = []
  fetch_all (c ∷ cs) p = let (p1, result) = prefetcher_fetch_block c p in result ∷ fetch_all cs p1

  unfoldable pub new_block_prefetcher : S → BlockPrefetcher S B
  new_block_prefetcher cache = record { cache = cache; pending = λ h. none }

  module _ (IsBlock : Hash → B → Type 0) where
    abbrev pub IsFetch : Fetch S B → Type 0
    IsFetch c = IsFaithful IsBlock c.background × IsFaithful IsBlock c.direct

    abbrev IsGenuine : BlockPrefetcher S B → Type 0
    IsGenuine p =
        (h : ℤ) (entry : PrefetchedBlock B) (block : B)
        → p.pending h ≡ some entry
        → entry.result ≡ ok block
        → IsBlock entry.hash block

    -- What a caller may rely on: a block is the one that was asked for, and an error is that of a
    -- direct fetch.
    pub Serves : Fetch S B → Result B → Type 0
    Serves c (ok block) = IsBlock c.hash block
    Serves c (err e) = c.direct c.hash ≡ err e

    pub AllServe : List (Fetch S B) → List (Result B) → Type 0
    AllServe [] [] = Unit
    AllServe (c ∷ cs) (r ∷ rs) = Serves c r × AllServe cs rs
    AllServe _ _ = ⊥

    started-IsGenuine :
        (c : Fetch S B) (h : ℤ) (p : BlockPrefetcher S B) (run : S × Result Hash)
        → IsFetch c
        → IsGenuine p
        → IsGenuine (started c h p.pending run).0
    started-IsGenuine c h p (cache, err e) faithful genuine k entry block at_k done =
        genuine k entry block at_k done
    started-IsGenuine c h p (cache, ok hash) (background, direct) genuine k entry block at_k done =
        elim (Bool-cases (eqb_ℤ k h)) [
          | inr q ↦ genuine k entry block (rw q at at_k) done
          | inl q ↦
              let same : record { hash = hash; result = c.background hash } ≡ entry =
                some_eq (rw q at at_k) in
              rw (← same)
                (background hash block (ap (λ (e : PrefetchedBlock B). e.result) same ∙ done))
        ]

    schedule-IsGenuine :
        (c : Fetch S B) (hs : List ℤ) (p : BlockPrefetcher S B)
        → IsFetch c
        → IsGenuine p
        → IsGenuine (schedule c hs p)
    unfolding schedule
    schedule-IsGenuine c [] p faithful genuine = genuine
    schedule-IsGenuine c (h ∷ hs) p faithful genuine = elim (Option-cases (p.pending h)) [
      | inr (entry, q) ↦ rw (schedule, q) (schedule-IsGenuine c hs p faithful genuine)
      | inl q ↦
          let p1 = started c h p.pending (c.get_hash h p.cache) in
          let genuine1 = started-IsGenuine c h p (c.get_hash h p.cache) faithful genuine in
          elim (Result-cases p1.1) [
            | inr (e, r) ↦ rw (schedule, q, r) genuine1
            | inl (done, r) ↦ rw (schedule, q, r) (schedule-IsGenuine c hs p1.0 faithful genuine1)
          ]
    ]

    direct-Serves : (c : Fetch S B) → IsFetch c → Serves c (c.direct c.hash)
    unfolding Serves
    direct-Serves c (background, direct) = elim (Result-cases (c.direct c.hash)) [
      | inl (block, e) ↦ rw e (direct c.hash block e)
      | inr (x, e) ↦ rw e e
    ]

    consume-Serves :
        (c : Fetch S B) (entry : Option (PrefetchedBlock B))
        → IsFetch c
        → ((e : PrefetchedBlock B) (block : B)
            → entry ≡ some e
            → e.result ≡ ok block
            → IsBlock e.hash block)
        → Serves c (consume c entry)
    unfolding consume Serves
    consume-Serves c none faithful genuine = direct-Serves c faithful
    consume-Serves c (some e) faithful genuine = elim (Result-cases e.result) [
      | inr (x, r) ↦ rw (consume, r) (direct-Serves c faithful)
      | inl (block, r) ↦ elim (Bool-cases (bytes_eq e.hash c.hash)) [
        | inr q ↦ rw (consume, r, q) (direct-Serves c faithful)
        | inl q ↦ rw (consume, r, q, ← bytes_eq→eq e.hash c.hash q) (genuine e block refl r)
      ]
    ]

    fetch_all-genuine :
        (cs : List (Fetch S B)) (p : BlockPrefetcher S B)
        → All IsFetch cs
        → IsGenuine p
        → AllServe cs (fetch_all cs p)
    unfolding fetch_all AllServe prefetcher_fetch_block schedule_ahead
    fetch_all-genuine [] p _ genuine = tt
    fetch_all-genuine (c ∷ cs) p (faithful, rest) genuine =
        let p1 = schedule_ahead c p in
        let genuine1 =
          schedule-IsGenuine c (heights (c.height +ℤ pos 1) (c.height +ℤ prefetch_depth)) p faithful
            genuine in
        (
          consume-Serves c (p1.pending c.height) faithful (genuine1 c.height),
          fetch_all-genuine cs (record p1 { pending = delete c.height p1.pending }) rest
              λ k entry block at_k. elim (Bool-cases (eqb_ℤ k c.height)) [
                | inl q ↦ cc (rw q at at_k)
                | inr q ↦ genuine1 k entry block (rw q at at_k)
              ],
        )

    -- Prefetching is not noticed: over any sequence of calls, in whatever order of heights, with
    -- reorganizations and failures between and during them, each block that a call returns is the
    -- one of the hash that the call asks for, and a call fails only with the error of its own direct
    -- fetch. (A fetch that succeeds returns a block of the hash it was started for.)
    pub fetch_all-AllServe :
        (cs : List (Fetch S B)) (cache : S)
        → All IsFetch cs
        → AllServe cs (fetch_all cs (new_block_prefetcher cache))
    unfolding new_block_prefetcher
    fetch_all-AllServe cs cache faithful =
        fetch_all-genuine cs (new_block_prefetcher cache) faithful (λ h entry block e. cc)
