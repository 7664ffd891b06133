-- ===== src/Producer/CatchUp.antt =====
-- `updateCacheAndFiles` keeps a producer sound, and reaches the last block unless it fails.
use block_dn.Common.{
  ℕ, zero, suc, ◌≡◌, refl, sym, ap, ◌∙◌, ◌⊎◌, inl, inr, true, false, some, Bool-cases, arith,
}
use block_dn.Common.Int.{
  ℤ, pos, ◌+ℤ◌, ◌≤ℤ◌, ◌<ℤ◌, leb_ℤ, eqb_ℤ, int_laws, int_tests, parts, eqb_ℤ→eq, eqb_ℤ-ne,
}
use block_dn.Common.Heights.{heights_cons, heights_nil, span}
use block_dn.Common.Effect.{Result, ok, err, Err, Run-cases}
use block_dn.External.{Hash}
use block_dn.Producer.{
  Shared, Hooks, Config, Base, Env, seal_ready_files, update_block, update_blocks,
  update_cache_and_files,
}
use block_dn.Producer.Sealing.{IsAligned, seal_ready_files-Seals}
use block_dn.Producer.Sound.{HookLaws, IsSound, hash_of, seal_ready_files-IsSound}

below_of_ne : (k i : ℤ) → k ≤ℤ i → eqb_ℤ k i ≡ false → k <ℤ i
below_of_ne k i le ne = ground arith

module _ {H S : Type 0} (cfg : Config) (hooks : Hooks H S) (laws : HookLaws hooks) where
  -- The base can go on with height `start`: all heights below it are sealed or in memory.
  pub record IsReady (b : Base S) (start : ℤ) : Type 0 where
    pub aligned : IsAligned cfg b
    pub sealed_below : b.last_sealed_height <ℤ start
    pub tracked :
        (k : ℤ)
        → b.last_sealed_height <ℤ k
        → k <ℤ start
        → (x : Hash) × (hash_of cfg hooks laws k b ≡ some x)

  pub IsSound→IsReady :
      (b : Base S) (i : ℤ) → b.current_height +ℤ pos 1 ≡ i → IsSound cfg hooks laws b → IsReady b i
  IsSound→IsReady b i e s = record {
    aligned = s.aligned;
    sealed_below = omega (int_laws, s.sealed_below, parts e);
    tracked = λ k lo hi. s.tracked k lo (omega (int_laws, parts e));
  }

  pub IsReady→IsSound :
      (b : Base S) (i : ℤ) → b.current_height +ℤ pos 1 ≡ i → IsReady b i → IsSound cfg hooks laws b
  IsReady→IsSound b i e s = record {
    aligned = s.aligned;
    sealed_below = omega (int_laws, s.sealed_below, parts e);
    tracked = λ k lo hi. s.tracked k lo (omega (int_laws, parts e));
  }

  -- A range of blocks from `start` on was processed: in part, and then the base is sound or as
  -- ready for `start` as it was; or, without an error, up to `end`.
  pub record Advances (b : Base S) (start end : ℤ) (b' : Base S) (r : Result (Unit {0}))
      : Type 0 where
    pub partly :
        IsSound cfg hooks laws b' ⊎ (IsReady b' start × (b'.current_height ≡ b.current_height))
    pub fully : r ≡ ok tt → start ≤ℤ end → IsSound cfg hooks laws b' × (b'.current_height ≡ end)

  abbrev AdvancesAll : Base S → ℤ → ℤ → Base S × Result (Unit {0}) → Type 0
  AdvancesAll b start end (b', r) = Advances b start end b' r

  module _ (env : Env H) where
    other_hash :
        (b : Base S) (i k : ℤ) (s : Shared S) (r : Result (Unit {0}))
        → hooks.ingest (env.chain_at i) i b.shared ≡ (s, r)
        → eqb_ℤ k i ≡ false
        → hooks.cached_hash k s.own ≡ hash_of cfg hooks laws k b
    other_hash b i k s r e q =
        ap (λ p. hooks.cached_hash k p.0.own) (sym e)
        ∙ laws.ingest_other (env.chain_at i) i k b.shared q

    ingested :
        (b : Base S) (i : ℤ) (s : Shared S)
        → IsReady b i
        → hooks.ingest (env.chain_at i) i b.shared ≡ (s, ok tt)
        → IsSound cfg hooks laws (record b { shared = s; current_height = i })
    ingested b i s ready e = record {
      aligned = ready.aligned;
      sealed_below = omega (arith, ready.sealed_below);
      tracked = λ k lo hi. elim (Bool-cases (eqb_ℤ k i)) [
        | inl q ↦ rw (eqb_ℤ→eq k i q) (laws.ingest_own (env.chain_at i) i b.shared s e)
        | inr q ↦
            let (x, c) = ready.tracked k lo (below_of_ne k i hi q) in
            (x, other_hash b i k s (ok tt) e q ∙ c)
      ];
    }

    refused_block :
        (b : Base S) (i : ℤ) (s : Shared S) (x : Err)
        → IsReady b i
        → hooks.ingest (env.chain_at i) i b.shared ≡ (s, err x)
        → Advances b i i (record b { shared = s }) (err x)
    refused_block b i s x ready e = record {
      partly = inr (
        record {
          aligned = ready.aligned;
          sealed_below = ready.sealed_below;
          tracked = λ k lo hi.
              let (x', c) = ready.tracked k lo hi in
              (x', other_hash b i k s (err x) e (eqb_ℤ-ne k i (inl hi)) ∙ c);
        },
        refl,
      );
      fully = λ h. cc;
    }

    sealed_block :
        (b : Base S) (i : ℤ) (s : Shared S)
        → IsSound cfg hooks laws (record b { shared = s; current_height = i })
        → AdvancesAll b i i (
            seal_ready_files cfg hooks
              (env.chain_at i)
              (record b { shared = s; current_height = i }))
    sealed_block b i s sound =
        let b1 = record b { shared = s; current_height = i } in
        let after = seal_ready_files-IsSound cfg hooks laws (env.chain_at i) b1 sound in
        record {
          partly = inl after;
          fully = λ _ _. (
            after,
            (seal_ready_files-Seals cfg hooks (env.chain_at i) b1 sound.aligned).same_tip,
          );
        }

    update_block-Advances :
        (b : Base S) (i : ℤ) → IsReady b i → AdvancesAll b i i (update_block cfg hooks env i b)
    unfolding update_block
    update_block-Advances b i ready = elim (Bool-cases (env.quit_at i)) [
      | inl q ↦ rw q (record { partly = inr (ready, refl); fully = λ h. cc })
      | inr q ↦ elim (Run-cases (hooks.ingest (env.chain_at i) i b.shared)) [
        | inl (s, u, e) ↦ rw (q, e) (sealed_block b i s (ingested b i s ready e))
        | inr (s, x, e) ↦ rw (q, e) (refused_block b i s x ready e)
      ]
    ]

    -- From the first block of a range on.
    after_block :
        (b b1 b' : Base S) (start end : ℤ) (r : Result (Unit {0}))
        → start ≤ℤ end
        → IsSound cfg hooks laws b1
        → b1.current_height ≡ start
        → (end ≡ start → b' ≡ b1)
        → Advances b1 (start +ℤ pos 1) end b' r
        → Advances b start end b' r
    after_block b b1 b' start end r le s1 at last rest = record {
      partly = inl (partly_sound rest.partly);
      fully = λ h _. reached h (Bool-cases (leb_ℤ end start));
    }
      where
        partly_sound :
            IsSound cfg hooks laws b'
              ⊎ (IsReady b' (start +ℤ pos 1) × (b'.current_height ≡ b1.current_height))
            → IsSound cfg hooks laws b'
        partly_sound (inl s) = s
        partly_sound (inr (ready, e)) = IsReady→IsSound b' (start +ℤ pos 1) (rw (e, at) refl) ready

        reached :
            r ≡ ok tt
            → (leb_ℤ end start ≡ true) ⊎ (leb_ℤ end start ≡ false)
            → IsSound cfg hooks laws b' × (b'.current_height ≡ end)
        reached h (inl q) =
            let e : end ≡ start = omega (int_tests, q) in
            (partly_sound rest.partly, ap (λ (c : Base S). c.current_height) (last e) ∙ at ∙ sym e)
        reached h (inr q) = rest.fully h (omega (int_tests, q))

    update_blocks-Advances :
        (n : ℕ) (b : Base S) (start end : ℤ)
        → span start end ≡ n
        → IsReady b start
        → AdvancesAll b start end (update_cache_and_files cfg hooks env start end b)
    unfolding update_cache_and_files update_blocks
    update_blocks-Advances zero b start end n ready =
        rw (heights_nil start end (omega (int_laws, n)))
          (record { partly = inr (ready, refl); fully = λ _ le. absurd (omega (int_laws, n)) })
    update_blocks-Advances (suc n) b start end e ready =
        rw (heights_cons start end (omega (int_laws, e)))
          (elim (Run-cases (update_block cfg hooks env start b)) [
            | inl (b1, u, q) ↦
                let now : Advances b start start b1 (ok u) =
                  rw q at (update_block-Advances b start ready) in
                let (sound, at) = now.fully refl (omega arith) in
                rw q (
                  after_block b b1 _ start end _ (omega (int_laws, e)) sound at
                    (λ same. rw (heights_nil (start +ℤ pos 1) end (omega (int_laws, parts same))))
                    (update_blocks-Advances n b1 (start +ℤ pos 1) end (omega (int_laws, e))
                      (IsSound→IsReady b1 (start +ℤ pos 1) (rw at) sound)))
            | inr (b1, x, q) ↦
                let now : Advances b start start b1 (err x) =
                  rw q at (update_block-Advances b start ready) in
                rw q (record { partly = now.partly; fully = λ h. cc })
          ])

    -- With hooks that keep their laws, from a base that is ready for `start`,
    -- `updateCacheAndFiles` leaves a base that is sound or still as ready, whatever error ends it,
    -- and without an error it has reached `end`: every height up to there is in a sealed file or
    -- in memory.
    pub update_cache_and_files-Advances :
        (b : Base S) (start end : ℤ)
        → IsReady b start
        → AdvancesAll b start end (update_cache_and_files cfg hooks env start end b)
    update_cache_and_files-Advances b start end =
        update_blocks-Advances (span start end) b start end refl
