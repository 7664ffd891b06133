-- ===== src/Producer/Polling.antt =====
-- The poll loop of `updateFiles` keeps a producer sound, whatever the backend does between its
-- rounds, and so does the resumption after a restart.
use block_dn.Common.{
  ℕ, ◌*◌, ◌≡◌, refl, ap, ◌∙◌, ◌⊎◌, inl, inr, true, ◌&&◌, not, List, [], ◌∷◌, if◌then◌else◌,
  Bool-cases, arith, none,
}
use block_dn.Common.Int.{ℤ, pos, ◌+ℤ◌, ◌≤ℤ◌, ◌<ℤ◌, leb_ℤ, eqb_ℤ, int_laws, <ℤ→ltb_ℤ}
use block_dn.Common.Effect.{Result, ok, err, Err, continue, Run-cases}
use block_dn.External.{Chain}
use block_dn.Producer.{
  Hooks, Config, Base, Env, Wake, after_interval, quit_closed, rollback, handle_reorg, tip_reorged,
  poll_at, poll, poll_loop, resume, run_after_catch_up, update_cache_and_files, update_files,
}
use block_dn.Producer.Reorg.{Handles, kept, rolled_back, too_deep, refused, handle_reorg-Handles}
use block_dn.Producer.Sound.{HookLaws, IsSound}
use block_dn.Producer.CatchUp.{
  IsReady, IsSound→IsReady, IsReady→IsSound, Advances, update_cache_and_files-Advances,
}

refused_run :
    {S : Type 0} {P : Type 0} (b : S) (x : Err) {b' : S}
    → ◌≡◌ {0} {A = S × Result (Unit {0})} (b, err x) (b', ok tt)
    → P
refused_run b x e = cc (ap (λ p. p.1) e)

module _ {H S : Type 0} (cfg : Config) (hooks : Hooks H S) (laws : HookLaws hooks) where
  abbrev Sound : Base S → Type 0
  Sound = IsSound cfg hooks laws

  rollback-Sound :
      (chain : Chain H) (b : Base S) (common : ℤ)
      → Sound b
      → b.last_sealed_height <ℤ common
      → common ≤ℤ b.current_height
      → Sound (rollback hooks chain common b)
  unfolding rollback
  rollback-Sound chain b common s lo hi = record {
    aligned = s.aligned;
    sealed_below = omega arith;
    tracked = λ k above below.
        let (x, e) = s.tracked k above (omega arith) in
        (
          x,
          laws.prune_outside (common +ℤ pos 1) b.current_height k b.shared.own
                (inl (omega int_laws))
              ∙ e,
        );
  }

  handled-Sound :
      (chain : Chain H) (b : Base S) (p : Base S × Result (Unit {0}))
      → Sound b
      → Handles hooks chain b p
      → Sound p.0
  handled-Sound chain b p s (kept h) = s
  handled-Sound chain b p s (rolled_back common d lo a) =
      rollback-Sound chain b common s lo a.at_or_below
  handled-Sound chain b p s (too_deep h) = s
  handled-Sound chain b p s (refused k e h) = s

  -- With hooks that keep their laws, `handleReorg` keeps a base sound: what it forgets is above the
  -- height that it rolls back to.
  pub handle_reorg-IsSound :
      (chain : Chain H) (b : Base S)
      → IsSound cfg hooks laws b
      → IsSound cfg hooks laws (handle_reorg hooks chain b).0
  handle_reorg-IsSound chain b s =
      handled-Sound chain b _ s (handle_reorg-Handles hooks chain b s.sealed_below)

  advanced-Sound :
      (b b' : Base S) (start end : ℤ) (r : Result (Unit {0}))
      → b.current_height +ℤ pos 1 ≡ start
      → Advances cfg hooks laws b start end b' r
      → Sound b'
  advanced-Sound b b' start end r e a = go a.partly
    where
      go :
          Sound b' ⊎ (IsReady cfg hooks laws b' start × (b'.current_height ≡ b.current_height))
          → Sound b'
      go (inl s) = s
      go (inr (ready, at)) = IsReady→IsSound cfg hooks laws b' start (rw at e) ready

  update-Sound :
      (env : Env H) (b : Base S) (end : ℤ)
      → Sound b
      → Sound (update_cache_and_files cfg hooks env (b.current_height +ℤ pos 1) end b).0
  update-Sound env b end s = advanced-Sound b _ (b.current_height +ℤ pos 1) end _ refl (
      update_cache_and_files-Advances cfg hooks laws env b (b.current_height +ℤ pos 1) end
        (IsSound→IsReady cfg hooks laws b (b.current_height +ℤ pos 1) refl s))

  poll_at-Sound :
      (chain : Chain H) (env : Env H) (height : ℤ) (b : Base S)
      → Sound b
      → Sound (poll_at cfg hooks chain env height b).0
  unfolding poll_at
  poll_at-Sound chain env height b s =
      elim (Bool-cases (eqb_ℤ height b.current_height && not (tip_reorged hooks chain b))) [
        | inl q ↦ rw q s
        | inr q ↦ elim (Run-cases (handle_reorg hooks chain b)) [
          | inl (b1, u, e) ↦ rw (q, e) (go b1 (rw e at (handle_reorg-IsSound chain b s)))
          | inr (b1, x, e) ↦ rw (q, e) (rw e at (handle_reorg-IsSound chain b s))
        ]
      ]
    where
      go :
          (b1 : Base S)
          → Sound b1
          → Sound
              (if leb_ℤ height b1.current_height
                then (b1, ok tt)
                else update_cache_and_files cfg hooks env (b1.current_height +ℤ pos 1) height b1).0
      go b1 s1 = elim (Bool-cases (leb_ℤ height b1.current_height)) [
        | inl q ↦ rw q s1
        | inr q ↦ rw q (update-Sound env b1 height s1)
      ]

  poll-Sound : (w : Wake H) (b : Base S) → Sound b → Sound (poll cfg hooks w b).0
  unfolding poll
  poll-Sound quit_closed b s = s
  poll-Sound (after_interval chain env) b s = go chain.get_block_count
    where
      go : (r : Result ℤ) → Sound (continue (b, r) (λ height. poll_at cfg hooks chain env height)).0
      go (ok height) = poll_at-Sound chain env height b s
      go (err x) = s

  -- With hooks that keep their laws, from a sound base the poll loop only reaches sound ones,
  -- whatever the backend reports at each wake-up (new blocks, reorgs of any depth, errors) and
  -- however the hooks fail: the sealed heights fill whole files below the tip, and every height
  -- above them is in memory.
  pub poll_loop-IsSound :
      (wakes : List (Wake H)) (b : Base S)
      → IsSound cfg hooks laws b
      → IsSound cfg hooks laws (poll_loop cfg hooks wakes b).0
  unfolding poll_loop
  poll_loop-IsSound [] b s = s
  poll_loop-IsSound (w ∷ ws) b s = elim (Run-cases (poll cfg hooks w b)) [
    | inl (b1, u, e) ↦ rw e (poll_loop-IsSound ws b1 (rw e at (poll-Sound w b s)))
    | inr (b1, x, e) ↦ rw e (rw e at (poll-Sound w b s))
  ]

  -- What `lastFile` may answer: 0 if there is no file, or the end of a whole number of files.
  abbrev pub IsFileEnd : ℤ → Type 0
  IsFileEnd last =
      (last ≡ pos 0)
      ⊎ ((pos 0 <ℤ last) × (k : ℕ) × (last +ℤ pos 1 ≡ pos (k * cfg.entries_per_file)))

  resume-IsReady :
      (b : Base S) (last : ℤ)
      → IsFileEnd last
      → IsReady cfg hooks laws
          (resume cfg hooks last b)
          ((resume cfg hooks last b).last_sealed_height +ℤ pos 1)
  unfolding resume
  resume-IsReady b last (inl e) = rw e (record {
    aligned = (0, omega int_laws);
    sealed_below = omega int_laws;
    tracked = λ j lo hi. absurd (omega int_laws);
  })
  resume-IsReady b last (inr (h, k, e)) = rw (<ℤ→ltb_ℤ (pos 0) last h) (record {
    aligned = (k, e);
    sealed_below = omega int_laws;
    tracked = λ j lo hi. absurd (omega int_laws);
  })

  complete-Sound :
      (b : Base S)
      → hooks.after_catch_up ≡ none
      → Sound b
      → Sound
          (run_after_catch_up cfg hooks hooks.after_catch_up (record b { startup_complete = true }))
  complete-Sound b e s =
      rw e (record { aligned = s.aligned; sealed_below = s.sealed_below; tracked = s.tracked })

  -- For a producer without an `afterCatchUp` hook and with hooks that keep their laws: if `lastFile`
  -- finds no file or the end of whole files, the backend's best block is above that, and
  -- `updateFiles` has met no error in its catch-up nor at the wake-ups of its poll loop so far, the
  -- base is sound: the sealed heights fill whole files up to the tip at most, and every height
  -- above them up to the tip is in memory.
  pub update_files-IsSound :
      (env : Env H) (last num_blocks : ℤ) (wakes : List (Wake H)) (b b' : Base S)
      → hooks.after_catch_up ≡ none
      → IsFileEnd last
      → (resume cfg hooks last b).last_sealed_height <ℤ num_blocks
      → update_files cfg hooks (ok tt) (ok last) env num_blocks wakes b ≡ (b', ok tt)
      → IsSound cfg hooks laws b'
  unfolding update_files
  update_files-IsSound env last num_blocks wakes b b' none_after file le run =
      elim (Run-cases
        (update_cache_and_files cfg hooks env (b0.last_sealed_height +ℤ pos 1) num_blocks b0)) [
          | inl (b1, u, e) ↦ finish b1 (caught_up b1 u e) (rw (e, update_files) at run)
          | inr (b1, x, e) ↦ refused_run b1 x (rw (e, update_files) at run)
        ]
    where
      b0 : Base S
      b0 = resume cfg hooks last b

      finish :
          (b1 : Base S)
          → Sound b1
          → poll_loop cfg hooks wakes (
              run_after_catch_up cfg hooks hooks.after_catch_up
                (record b1 { startup_complete = true }))
            ≡ (b', ok tt)
          → Sound b'
      finish b1 s e = rw e at (poll_loop-IsSound wakes _ (complete-Sound b1 none_after s))

      caught_up :
          (b1 : Base S) (u : Unit {0})
          → update_cache_and_files cfg hooks env (b0.last_sealed_height +ℤ pos 1) num_blocks b0
            ≡ (b1, ok u)
          → Sound b1
      caught_up b1 u e =
          let a =
            update_cache_and_files-Advances cfg hooks laws env b0 (b0.last_sealed_height +ℤ pos 1)
              num_blocks (resume-IsReady b last file) in
          let a1 : Advances cfg hooks laws b0 (b0.last_sealed_height +ℤ pos 1) num_blocks b1
              (ok u) =
            rw e at a in
          (a1.fully refl (omega (int_laws, le))).0
