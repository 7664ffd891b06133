-- ===== src/SpTweaks/Laws.antt =====
-- The hooks of the silent payment producer keep what the base relies on.
use block_dn.Common.{
  ◌≡◌, ◌≢◌, refl, sym, ap, ◌∙◌, ◌⊎◌, inl, inr, false, some, [], ◌∷◌, Bool-cases, ℕ,
}
use block_dn.Common.Int.{ℤ, ltb_ℤ, eqb_ℤ, eqb_ℤ-refl}
use block_dn.Common.Heights.{insert, delete_all_outside}
use block_dn.Common.Effect.{Result, ok, Run-cases, Result-cases}
use block_dn.External.{Hash, Chain, Wire}
use block_dn.Cache.{get_block_hash}
use block_dn.Files.{Io}
use block_dn.Producer.{Shared}
use block_dn.Producer.Sound.{HookLaws}
use block_dn.SpTweaks.{
  SpTweakFiles, Payments, Block, ingest, index_txs, index_block_sp_tweak_data, write_sealed_file,
  prune_locked, cached_hash, sp_tweak_hooks,
}

module _ {T O : Type 0} (pay : Payments T O) where
  -- `indexBlockSPTweakData` records no hash.
  index-same :
      (height : ℤ) (block : Block T O) (s : Shared SpTweakFiles)
      → (index_block_sp_tweak_data pay height block s).0.own.height_to_hash ≡ s.own.height_to_hash
  unfolding index_block_sp_tweak_data
  index-same height block s = elim (Result-cases (index_txs pay block block.txs [])) [
    | inl ([], e) ↦ rw e
    | inl (x ∷ xs, e) ↦ rw e
    | inr (x, e) ↦ rw e
  ]

  -- `ingest` records the hash of its height, or nothing if there is none.
  abbrev Ingests : ℤ → Shared SpTweakFiles → Shared SpTweakFiles × Result (Unit {0}) → Type 0
  Ingests i s p =
      ((hash : Hash) × (p.0.own.height_to_hash ≡ insert i hash s.own.height_to_hash))
      ⊎ ((p.0.own.height_to_hash ≡ s.own.height_to_hash) × (p.1 ≢ ok tt))

  module _ {H : Type 0} (taproot : ℤ) (fetch : ℤ → Hash → Result (Block T O))
      (chain : Chain H) where
    ingest-Ingests :
        (i : ℤ) (s : Shared SpTweakFiles) → Ingests i s (ingest pay taproot fetch chain i s)
    unfolding ingest
    ingest-Ingests i s = elim (Run-cases (get_block_hash chain i s.cache)) [
      | inl (c, hash, e) ↦ elim (Bool-cases (ltb_ℤ i taproot)) [
        | inl q ↦ simp (e, q) (inl (hash, refl))
        | inr q ↦ elim (Result-cases (fetch i hash)) [
          | inl (block, f) ↦ simp (e, q, f) (inl (hash, index-same i block _))
          | inr (x, f) ↦ simp (e, q, f) (inl (hash, refl))
        ]
      ]
      | inr (c, x, e) ↦ simp e (inr (refl, λ q. cc))
    ]

    ingest_own :
        (i : ℤ) (s s' : Shared SpTweakFiles)
        → ingest pay taproot fetch chain i s ≡ (s', ok tt)
        → (x : Hash) × (cached_hash i s'.own ≡ some x)
    unfolding cached_hash
    ingest_own i s s' e = elim (ingest-Ingests i s) [
      | inl (hash, q) ↦
          (hash, ap (λ m. m i) (ap (λ p. p.0.own.height_to_hash) (sym e) ∙ q) ∙ rw (eqb_ℤ-refl i))
      | inr (q, n) ↦ absurd (n (ap (λ p. p.1) e))
    ]

    ingest_other :
        (i k : ℤ) (s : Shared SpTweakFiles)
        → eqb_ℤ k i ≡ false
        → cached_hash k (ingest pay taproot fetch chain i s).0.own ≡ cached_hash k s.own
    unfolding cached_hash
    ingest_other i k s ne = elim (ingest-Ingests i s) [
      | inl (hash, q) ↦ ap (λ m. m k) q ∙ rw ne
      | inr (q, n) ↦ ap (λ m. m k) q
    ]

-- The silent payment producer's hooks keep the promises that the base's invariant rests on,
-- whatever the fetched blocks hold.
pub sp_tweak_hooks-HookLaws :
    {H T O : Type 0} (wire : Wire H) (net : ℕ) (pay : Payments T O) (taproot : ℤ)
    (fetch : ℤ → Hash → Result (Block T O)) (io : Io)
    → HookLaws (sp_tweak_hooks wire net pay taproot fetch io)
unfolding sp_tweak_hooks
sp_tweak_hooks-HookLaws wire net pay taproot fetch io = record {
  ingest_own = ingest_own pay taproot fetch;
  ingest_other = ingest_other pay taproot fetch;
  write_same = λ chain start end k s. unfold write_sealed_file cached_hash in refl;
  prune_outside = λ start end k own out.
      unfold cached_hash prune_locked in delete_all_outside start end own.height_to_hash k out;
}
