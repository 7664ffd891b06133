-- ===== src/Producer/Sound.antt =====
-- The invariant of a producer, given what its hooks promise, and that sealing keeps it.
use block_dn.Common.{
  ℕ, zero, suc, ◌≡◌, refl, sym, ap, ◌∙◌, ◌⊎◌, inl, inr, false, Option, some, Bool-cases, arith,
}
use block_dn.Common.Int.{ℤ, pos, ◌+ℤ◌, ◌≤ℤ◌, ◌<ℤ◌, ltb_ℤ, eqb_ℤ, parts}
use block_dn.Common.Heights.{span}
use block_dn.Common.Effect.{Result, ok, err}
use block_dn.External.{Hash, Chain}
use block_dn.Producer.{
  Shared, Hooks, Config, Base, next_end, safe_tip, file_start, seal_loop, seal_ready_files,
}
use block_dn.Producer.Sealing.{
  IsAligned, Seals-below, seal_loop-Seals, seal_file_cases, promoted, pruned, written,
  promoted-IsAligned,
}

-- What a producer's hooks promise about the hashes that the base compares with the backend.
pub record HookLaws {H S : Type 0} (hooks : Hooks H S) : Type 0 where
  -- An ingested height has a hash, and the other heights keep theirs.
  pub ingest_own :
      (chain : Chain H) (i : ℤ) (s s' : Shared S)
      → hooks.ingest chain i s ≡ (s', ok tt)
      → (x : Hash) × (hooks.cached_hash i s'.own ≡ some x)
  pub ingest_other :
      (chain : Chain H) (i k : ℤ) (s : Shared S)
      → eqb_ℤ k i ≡ false
      → hooks.cached_hash k (hooks.ingest chain i s).0.own ≡ hooks.cached_hash k s.own
  pub write_same :
      (chain : Chain H) (start end k : ℤ) (s : Shared S)
      → hooks.cached_hash k (hooks.write_sealed_file chain start end s).0.own
        ≡ hooks.cached_hash k s.own
  pub prune_outside :
      (start end k : ℤ) (own : S)
      → (k <ℤ start) ⊎ (end <ℤ k)
      → hooks.cached_hash k (hooks.prune_locked start end own) ≡ hooks.cached_hash k own

module _ {H S : Type 0} (cfg : Config) (hooks : Hooks H S) (laws : HookLaws hooks) where
  abbrev pub hash_of : ℤ → Base S → Option Hash
  hash_of k b = hooks.cached_hash k b.shared.own

  -- The producer has a hash for every height that is not sealed, up to `top`.
  abbrev pub IsTracked : Base S → ℤ → Type 0
  IsTracked b top =
      (k : ℤ) → b.last_sealed_height <ℤ k → k ≤ℤ top → (x : Hash) × (hash_of k b ≡ some x)

  -- The sealed heights fill whole files, end below the tip, and the rest is in memory.
  pub record IsSound (b : Base S) : Type 0 where
    pub aligned : IsAligned cfg b
    pub sealed_below : b.last_sealed_height ≤ℤ b.current_height
    pub tracked : IsTracked b b.current_height

  module _ (chain : Chain H) where
    kept_by_write :
        (b : Base S) (s : Shared S) (r : Result (Unit {0})) (k : ℤ)
        → written cfg hooks chain b ≡ (s, r)
        → hooks.cached_hash k s.own ≡ hash_of k b
    kept_by_write b s r k w =
        ap (λ p. hooks.cached_hash k p.0.own) (sym w)
        ∙ laws.write_same chain (file_start cfg (next_end cfg b)) (next_end cfg b) k b.shared

    seal_loop_hash :
        (n : ℕ) (b : Base S) (k : ℤ)
        → IsAligned cfg b
        → (seal_loop cfg hooks n chain b).0.last_sealed_height <ℤ k
        → hash_of k (seal_loop cfg hooks n chain b).0 ≡ hash_of k b
    unfolding seal_loop
    seal_loop_hash zero b k al h = refl
    seal_loop_hash (suc n) b k al h = elim (Bool-cases (ltb_ℤ (safe_tip cfg b) (next_end cfg b))) [
      | inl stop ↦ rw stop
      | inr more ↦ elim (seal_file_cases cfg hooks chain b) [
        | inl (s, w, e) ↦
            let b1 = promoted cfg hooks chain b (pruned cfg hooks chain b s) in
            let al1 = promoted-IsAligned cfg hooks chain b (pruned cfg hooks chain b s) al in
            let h1 : (seal_loop cfg hooks n chain b1).0.last_sealed_height <ℤ k =
              rw (more, e) at h in
            rw (more, e)
              (seal_loop_hash n b1 k al1 h1
                ∙ laws.prune_outside _ (next_end cfg b) k s.own
                    (inr (omega (arith, h1, (seal_loop-Seals cfg hooks chain n b1 al1).grows)))
                ∙ kept_by_write b s (ok tt) k w)
        | inr (s, x, w, e) ↦ rw (more, e) (kept_by_write b s (err x) k w)
      ]
    ]

    -- Sealing keeps a base sound, whether it ends by an error or not.
    pub seal_ready_files-IsSound :
        (b : Base S) → IsSound b → IsSound (seal_ready_files cfg hooks chain b).0
    unfolding seal_ready_files
    seal_ready_files-IsSound b s =
        let n = suc (span (b.last_sealed_height +ℤ pos 1) (safe_tip cfg b)) in
        let after = seal_loop-Seals cfg hooks chain n b s.aligned in
        record {
          aligned = after.aligned;
          sealed_below = Seals-below after s.sealed_below;
          tracked = λ k lo hi.
              let (x, e) =
                s.tracked k (omega (arith, lo, after.grows))
                  (omega (arith, parts after.same_tip)) in
              (x, seal_loop_hash n b k s.aligned lo ∙ e);
        }
