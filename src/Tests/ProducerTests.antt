-- ===== src/Tests/ProducerTests.antt =====
-- The producer life cycle at concrete inputs, with the hooks of the header producer.
use block_dn.Common.{
  ℕ, ap, bytes_eq, ◌*◌, ◌≡◌, ◌≢◌, refl, inl, Option, none, some, true, false, [], ◌∷◌, arith,
}
use block_dn.Common.Int.{ℤ, pos, negsuc, ◌+ℤ◌, ◌-ℤ◌, ◌<ℤ◌, int_laws}
use block_dn.Common.Heights.{heights}
use block_dn.Common.Effect.{Result, ok, err, exhausted}
use block_dn.External.{Hash}
use block_dn.Cache.{new_h2h_cache, get_block_hash, answer, fetch_missing, cache_fetched, store_hash}
use block_dn.Files.{Io}
use block_dn.Producer.{
  Hooks, Config, Base, Env, after_interval, quit_closed, seal_ready_files, find_common_ancestor,
  find_from, handle_reorg, update_cache_and_files, poll_loop, seal_loop, seal_file, update_block,
  update_blocks, resume, update_files,
}
use block_dn.Producer.Sealing.{SealsAll, seal_ready_files-Seals, seal_ready_files-ends}
use block_dn.Producer.Reorg.{Handles, handle_reorg-Handles}
use block_dn.Producer.Sound.{HookLaws, IsSound}
use block_dn.Producer.CatchUp.{IsSound→IsReady, Advances, update_cache_and_files-Advances}
use block_dn.Producer.Polling.{poll_loop-IsSound, update_files-IsSound}
use block_dn.Headers.{HeaderFiles, header_hooks, cached_hash, ingest}
use block_dn.Headers.Laws.{header_hooks-HookLaws}
use block_dn.Tests.Toy.{toy_wire, toy_chain, hash_of}

abbrev io : Io
io = record { creates = λ n. true; closes = λ n. true }

abbrev hooks : Hooks ℕ (HeaderFiles ℕ)
hooks = header_hooks toy_wire io

abbrev laws : HookLaws hooks
laws = header_hooks-HookLaws toy_wire io

abbrev cfg : Config
cfg = record { entries_per_file = 2; re_org_safe_depth = 1 }

abbrev below : ℤ → Option ℕ
below (pos n) = some n
below (negsuc n) = none

-- Blocks 0 to 3 are in memory, and nothing is sealed.
abbrev base : Base (HeaderFiles ℕ)
base = record {
  startup_complete = true;
  current_height = pos 3;
  last_sealed_height = negsuc 0;
  shared = record {
    cache = new_h2h_cache;
    own = record { headers = below; filter_headers = λ h. some (hash_of 0); disk = λ n. none };
  };
}

has_hash : (k : ℤ) → negsuc 0 <ℤ k → (x : Hash) × (cached_hash toy_wire k base.shared.own ≡ some x)
unfolding cached_hash
has_hash (pos n) h = (hash_of n, refl)
has_hash (negsuc n) h = absurd (omega arith)

base-IsSound : IsSound cfg hooks laws base
unfolding header_hooks
base-IsSound = record {
  aligned = (0, refl');
  sealed_below = omega arith;
  tracked = λ k lo hi. has_hash k lo;
}
  where
    refl' : negsuc 0 +ℤ pos 1 ≡ pos (0 * 2)
    refl' = omega int_laws

seal_ready_files-Seals_example : SealsAll cfg base (seal_ready_files cfg hooks (toy_chain 0) base)
seal_ready_files-Seals_example =
    seal_ready_files-Seals cfg hooks (toy_chain 0) base base-IsSound.aligned

walk : find_common_ancestor hooks (toy_chain 1) base (pos 3) ≡ ok (negsuc 0)
unfolding find_common_ancestor find_from header_hooks cached_hash bytes_eq ◌-ℤ◌ ◌+ℤ◌ heights
walk = refl

handle_reorg-Handles_example :
    Handles hooks (toy_chain 1) base (handle_reorg hooks (toy_chain 1) base)
handle_reorg-Handles_example = handle_reorg-Handles hooks (toy_chain 1) base (omega arith)

abbrev env : Env ℕ
env = record { chain_at = λ i. toy_chain 0; quit_at = λ i. false }

abbrev after_update : Base (HeaderFiles ℕ) × Result (Unit {0})
after_update = update_cache_and_files cfg hooks env (pos 4) (pos 5) base

update_cache_and_files-Advances_example :
    Advances cfg hooks laws base (pos 4) (pos 5) after_update.0 after_update.1
update_cache_and_files-Advances_example =
    update_cache_and_files-Advances cfg hooks laws env base (pos 4) (pos 5)
      (IsSound→IsReady cfg hooks laws base (pos 4) (omega int_laws) base-IsSound)

poll_loop-IsSound_example :
    IsSound cfg hooks laws
      (poll_loop cfg hooks (after_interval (toy_chain 1) env ∷ quit_closed ∷ []) base).0
poll_loop-IsSound_example =
    poll_loop-IsSound cfg hooks laws (after_interval (toy_chain 1) env ∷ quit_closed ∷ []) base
      base-IsSound

-- Hooks whose files are always written.
abbrev sure_hooks : Hooks ℕ (HeaderFiles ℕ)
sure_hooks = record hooks { write_sealed_file = λ chain start end s. (s, ok tt) }

seal_ready_files-ends_example :
    (seal_ready_files cfg sure_hooks (toy_chain 0) base).1 ≢ err exhausted
seal_ready_files-ends_example =
    seal_ready_files-ends cfg sure_hooks (toy_chain 0) (omega arith) (λ start end s e. cc) base
      base-IsSound.aligned

-- A start on an empty disk, with the four blocks of the chain.
abbrev synced : Base (HeaderFiles ℕ) × Result (Unit {0})
synced = update_files cfg hooks (ok tt) (ok (pos 0)) env (pos 1) [] base

synced-ok : synced.1 ≡ ok tt
unfolding update_files resume update_cache_and_files update_blocks update_block seal_ready_files
    seal_loop seal_file header_hooks ingest get_block_hash answer fetch_missing cache_fetched
    store_hash poll_loop new_h2h_cache heights ◌-ℤ◌ ◌+ℤ◌
synced-ok = refl

update_files-IsSound_example : IsSound cfg hooks laws synced.0
update_files-IsSound_example =
    update_files-IsSound cfg hooks laws env (pos 0) (pos 1) [] base synced.0
      (unfold header_hooks in refl) (inl refl) (unfold resume in omega int_laws)
      (ap (λ r. (synced.0, r)) synced-ok)
