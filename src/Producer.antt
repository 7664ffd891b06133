-- ===== src/Producer.antt =====
-- file-producer.go: the life of an on-disk producer. `S` is what a concrete producer adds to the
-- base: its maps and the files that it has written.
pub mod Sealing
pub mod Reorg
pub mod Sound
pub mod CatchUp
pub mod Polling
use block_dn.Common.{
  ℕ, zero, suc, ◌+◌, Bool, true, false, not, ◌&&◌, Option, none, some, List, [], ◌∷◌, if◌then◌else◌,
  bytes_eq,
}
use block_dn.Common.Int.{ℤ, pos, negsuc, pos_part, ◌+ℤ◌, ◌-ℤ◌, leb_ℤ, ltb_ℤ, eqb_ℤ}
use block_dn.Common.Heights.{heights, span}
use block_dn.Common.Effect.{
  Result, ok, err, Err, shutdown, deep_reorg, exhausted, io_failed, rpc_failed, M, pure, raise,
  lift, ◌>>=◌, ◌>>◌, continue, gets, modify,
}
use block_dn.External.{Hash, Chain}
use block_dn.Cache.{H2HCache, invalidate}

-- What the hooks work on: the shared hash cache, and the producer's own state.
pub record Shared (S : Type 0) : Type 0 where
  pub cache : H2HCache
  pub own : S

-- A method of the cache, or of the producer's own state, as a hook uses it.
abbrev pub on_cache : {S A : Type 0} → M H2HCache A → M (Shared S) A
on_cache m s = let (c, r) = m s.cache in (record s { cache = c }, r)

abbrev pub on_own : {S A : Type 0} → M S A → M (Shared S) A
on_own m s = let (o, r) = m s.own in (record s { own = o }, r)

-- `producerHooks`. A hook that calls bitcoind sees it as a `Chain`.
pub record Hooks (H S : Type 0) : Type 0 where
  pub ingest : Chain H → ℤ → M (Shared S) (Unit {0})
  pub write_sealed_file : Chain H → ℤ → ℤ → M (Shared S) (Unit {0})
  pub prune_locked : ℤ → ℤ → S → S
  pub cached_hash : ℤ → S → Option Hash
  pub after_catch_up : Option (S → S)

-- The settings of `producerBase` that the life cycle depends on.
pub record Config : Type 0 where
  pub entries_per_file : ℕ
  pub re_org_safe_depth : ℕ

-- The state of `producerBase`: its three atomics, and what its hooks work on.
pub record Base (S : Type 0) : Type 0 where
  pub startup_complete : Bool
  pub current_height : ℤ
  pub last_sealed_height : ℤ
  pub shared : Shared S

-- What the producer meets while it processes a range of blocks: bitcoind as it is while block `i`
-- is processed, and whether `quit` is closed by then.
pub record Env (H : Type 0) : Type 0 where
  pub chain_at : ℤ → Chain H
  pub quit_at : ℤ → Bool

abbrev on_shared : {S A : Type 0} → M (Shared S) A → M (Base S) A
on_shared m b = let (s, r) = m b.shared in (record b { shared = s }, r)

-- The last height of the file to be sealed next.
abbrev pub next_end : {S : Type 0} → Config → Base S → ℤ
next_end cfg b =
    if ltb_ℤ b.last_sealed_height (pos 0)
    then pos cfg.entries_per_file -ℤ pos 1
    else b.last_sealed_height +ℤ pos cfg.entries_per_file

abbrev pub safe_tip : {S : Type 0} → Config → Base S → ℤ
safe_tip cfg b = b.current_height -ℤ pos cfg.re_org_safe_depth

-- The first height of the file that ends at `end`.
abbrev pub file_start : Config → ℤ → ℤ
file_start cfg end = end -ℤ pos cfg.entries_per_file +ℤ pos 1

module _ {H S : Type 0} (cfg : Config) (hooks : Hooks H S) where
  abbrev prune : ℤ → ℤ → Base S → Base S
  prune start end b = record b {
    shared = record b.shared { own = hooks.prune_locked start end b.shared.own };
  }

  -- The part of the loop in `sealReadyFiles` behind its test.
  unfoldable pub seal_file : Chain H → Base S → Base S × Result (Unit {0})
  seal_file chain b =
      let end = next_end cfg b in
      let start = file_start cfg end in
      continue (on_shared (hooks.write_sealed_file chain start end) b)
        λ _. modify λ b. record (prune start end b) { last_sealed_height = end }

  -- `sealReadyFiles`, on fuel.
  unfoldable pub seal_loop : ℕ → Chain H → Base S → Base S × Result (Unit {0})
  seal_loop zero chain b = (b, err exhausted)
  seal_loop (suc n) chain b =
      if ltb_ℤ (safe_tip cfg b) (next_end cfg b)
      then (b, ok tt)
      else continue (seal_file chain b) (λ _. seal_loop n chain)

  -- A round moves the boundary up by one height at least, so one round more than there are heights
  -- between the last sealed one and the safe tip is enough.
  unfoldable pub seal_ready_files : Chain H → Base S → Base S × Result (Unit {0})
  seal_ready_files chain b =
      seal_loop (suc (span (b.last_sealed_height +ℤ pos 1) (safe_tip cfg b))) chain b

  -- One round of `updateCacheAndFiles`.
  unfoldable pub update_block : Env H → ℤ → Base S → Base S × Result (Unit {0})
  update_block env i b =
      if env.quit_at i
      then (b, err shutdown)
      else continue (on_shared (hooks.ingest (env.chain_at i) i) b)
          λ _ b. seal_ready_files (env.chain_at i) (record b { current_height = i })

  unfoldable pub update_blocks : Env H → List ℤ → Base S → Base S × Result (Unit {0})
  update_blocks env [] b = (b, ok tt)
  update_blocks env (i ∷ is) b = continue (update_block env i b) (λ _. update_blocks env is)

  unfoldable pub update_cache_and_files : Env H → ℤ → ℤ → Base S → Base S × Result (Unit {0})
  update_cache_and_files env start_block end_block =
      update_blocks env (heights start_block end_block)

-- Whether the hash that the producer has for a height is the backend's.
unfoldable pub tip_compare : Option Hash → Result Hash → Bool
tip_compare none theirs = false
tip_compare (some ours) (err e) = false
tip_compare (some ours) (ok theirs) = not (bytes_eq ours theirs)

module _ {H S : Type 0} (hooks : Hooks H S) (chain : Chain H) where
  unfoldable pub tip_reorged : Base S → Bool
  unfolding tip_compare
  tip_reorged b =
      let tip = b.current_height in
      if ltb_ℤ tip (pos 0)
      then false
      else tip_compare (hooks.cached_hash tip b.shared.own) (chain.get_block_hash tip)

  -- The loop of `findCommonAncestor`: `n` heights are left above the last sealed one, and `hgt` is
  -- the highest of them.
  unfoldable pub find_from : S → ℤ → ℕ → ℤ → Result ℤ
  find_from own last_sealed zero hgt = ok last_sealed
  find_from own last_sealed (suc n) hgt = elim (hooks.cached_hash hgt own) [
    | none ↦ find_from own last_sealed n (hgt -ℤ pos 1)
    | some ours ↦ elim (chain.get_block_hash hgt) [
      | err e ↦ err rpc_failed
      | ok theirs ↦ elim (bytes_eq ours theirs) [
        | true ↦ ok hgt
        | false ↦ find_from own last_sealed n (hgt -ℤ pos 1)
      ]
    ]
  ]

  unfoldable pub find_common_ancestor : Base S → ℤ → Result ℤ
  find_common_ancestor b tip =
      let last = b.last_sealed_height in find_from b.shared.own last (span (last +ℤ pos 1) tip) tip

  unfoldable pub rollback : ℤ → Base S → Base S
  rollback to_height b = record b {
    current_height = to_height;
    shared = record {
      cache = invalidate (to_height +ℤ pos 1) b.shared.cache;
      own = hooks.prune_locked (to_height +ℤ pos 1) b.current_height b.shared.own;
    };
  }

  -- `handleReorg` from the point where the tip is known to have been reorged away.
  unfoldable pub roll_back_to : Result ℤ → Base S → Base S × Result (Unit {0})
  unfolding rollback
  roll_back_to (err e) b = (b, err e)
  roll_back_to (ok common) b =
      if leb_ℤ common b.last_sealed_height then (b, err deep_reorg) else (rollback common b, ok tt)

  unfoldable pub compare_tip : Option Hash → Result Hash → Base S → Base S × Result (Unit {0})
  compare_tip none theirs b = (b, ok tt)
  compare_tip (some ours) (err e) b = (b, err rpc_failed)
  compare_tip (some ours) (ok theirs) b =
      if bytes_eq ours theirs
      then (b, ok tt)
      else roll_back_to (find_common_ancestor b b.current_height) b

  unfoldable pub handle_reorg : Base S → Base S × Result (Unit {0})
  handle_reorg b =
      let tip = b.current_height in
      if ltb_ℤ tip (pos 0)
      then (b, ok tt)
      else compare_tip (hooks.cached_hash tip b.shared.own) (chain.get_block_hash tip) b

-- What one wake-up of the poll loop meets: the backend while it looks for a new tip and a reorg,
-- and then while it processes the new blocks; or `quit` is closed.
pub data Wake (H : Type 0) : Type 0 where
  after_interval : Chain H → Env H → Wake H
  quit_closed : Wake H

module _ {H S : Type 0} (cfg : Config) (hooks : Hooks H S) where
  unfoldable pub poll_at : Chain H → Env H → ℤ → Base S → Base S × Result (Unit {0})
  poll_at chain env height b =
      if eqb_ℤ height b.current_height && not (tip_reorged hooks chain b)
      then (b, ok tt)
      else continue (handle_reorg hooks chain b) λ _ b.
        if leb_ℤ height b.current_height
        then (b, ok tt)
        else update_cache_and_files cfg hooks env (b.current_height +ℤ pos 1) height b

  -- One round of the poll loop in `updateFiles`.
  unfoldable pub poll : Wake H → Base S → Base S × Result (Unit {0})
  unfolding poll_at
  poll quit_closed b = (b, err shutdown)
  poll (after_interval chain env) b =
      continue (b, chain.get_block_count) (λ height. poll_at chain env height)

  -- The poll loop over the wake-ups so far; `ok` says that it is still running.
  unfoldable pub poll_loop : List (Wake H) → Base S → Base S × Result (Unit {0})
  poll_loop [] b = (b, ok tt)
  poll_loop (w ∷ ws) b = continue (poll w b) (λ _. poll_loop ws)

  abbrev pub run_after_catch_up : Option (S → S) → Base S → Base S
  run_after_catch_up none b = b
  run_after_catch_up (some f) b = record b { shared = record b.shared { own = f b.shared.own } }

  -- Where `updateFiles` resumes: behind the last file on disk.
  unfoldable pub resume : ℤ → Base S → Base S
  resume last_block b =
      if ltb_ℤ (pos 0) last_block
      then record b { last_sealed_height = last_block; current_height = last_block }
      else record b { last_sealed_height = negsuc 0 }

  -- `updateFiles`: `made_dir` is what `os.MkdirAll` returned, and `last_block` what `lastFile` did.
  unfoldable pub update_files :
      Result (Unit {0}) → Result ℤ → Env H → ℤ → List (Wake H) → Base S → Base S × Result (Unit {0})
  unfolding resume
  update_files made_dir last_block env num_blocks wakes = do
    lift made_dir
    last ← lift last_block
    modify (resume last)
    start_block ← gets (λ b. b.last_sealed_height +ℤ pos 1)
    update_cache_and_files cfg hooks env start_block num_blocks
    modify (λ b. run_after_catch_up hooks.after_catch_up (record b { startup_complete = true }))
    poll_loop wakes
