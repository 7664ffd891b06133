-- ===== src/CFilters/Laws.antt =====
-- The hooks of the filter producer keep what the base relies on.
use block_dn.Common.{
  ◌≡◌, ◌≢◌, refl, sym, ap, ◌∙◌, ◌⊎◌, inl, inr, false, some, Bool-cases, if◌then◌else◌,
}
use block_dn.Common.Int.{ℤ, pos, ltb_ℤ, eqb_ℤ, eqb_ℤ-refl}
use block_dn.Common.Heights.{heights, HeightMap, delete_all_outside}
use block_dn.Common.Effect.{Result, ok, Keeps, bind-Keeps, Run-cases, Result-cases}
use block_dn.External.{Bytes, Hash, Chain, Wire}
use block_dn.Cache.{get_block_hash}
use block_dn.Files.{Io}
use block_dn.Producer.{Shared}
use block_dn.Producer.Sound.{HookLaws}
use block_dn.CFilters.{
  CFilterFiles, ingest, auth_header, start_header, verify_filters, write_filters, write_sealed_file,
  prune_locked, filter_chain, cached_hash, cfilter_hooks, store_filter,
}

abbrev own_hashes : Shared CFilterFiles → HeightMap Hash
own_hashes s = s.own.height_to_hash

module _ {H : Type 0} (wire : Wire H) where
  abbrev Ingests : ℤ → Shared CFilterFiles → Shared CFilterFiles × Result (Unit {0}) → Type 0
  Ingests i s p =
      ((filter : Bytes) × (hash : Hash) × (p.0.own ≡ (store_filter wire i filter hash s).own))
      ⊎ ((p.0.own ≡ s.own) × (p.1 ≢ ok tt))

  ingest-Ingests :
      (chain : Chain H) (i : ℤ) (s : Shared CFilterFiles) → Ingests i s (ingest wire chain i s)
  unfolding ingest
  ingest-Ingests chain i s = elim (Run-cases (get_block_hash chain i s.cache)) [
    | inl (c, hash, e) ↦ elim (Result-cases (chain.get_block_filter hash)) [
      | inl (filter, ef) ↦ elim (Result-cases (wire.decode_hex filter.filter)) [
        | inl (bytes, ed) ↦ simp (e, ef, ed) (inl (bytes, hash, refl))
        | inr (x, ed) ↦ simp (e, ef, ed) (inr (refl, λ q. cc))
      ]
      | inr (x, ef) ↦ simp (e, ef) (inr (refl, λ q. cc))
    ]
    | inr (c, x, e) ↦ simp e (inr (refl, λ q. cc))
  ]

  stored_hash :
      (i k : ℤ) (s : Shared CFilterFiles) (own : CFilterFiles) (filter : Bytes) (hash : Hash)
      → own ≡ (store_filter wire i filter hash s).own
      → cached_hash k own ≡ (if eqb_ℤ k i then some hash else cached_hash k s.own)
  unfolding cached_hash
  stored_hash i k s own filter hash e =
      rw e (elim (Bool-cases (eqb_ℤ k i)) [ inl q ↦ rw q | inr q ↦ rw q ])

  module _ (chain : Chain H) where
    auth_header-Keeps : (k : ℤ) → Keeps own_hashes (auth_header wire chain k)
    unfolding auth_header
    auth_header-Keeps k s = elim (Run-cases (get_block_hash chain k s.cache)) [
      | inl (c, hash, e) ↦ elim (Result-cases (chain.get_block_filter hash)) [
        | inl (filter, ef) ↦ simp (e, ef)
        | inr (x, ef) ↦ simp (e, ef)
      ]
      | inr (c, x, e) ↦ simp e
    ]

    start_header-Keeps : (k : ℤ) → Keeps own_hashes (start_header wire chain k)
    unfolding start_header
    start_header-Keeps k s = elim (Bool-cases (ltb_ℤ (pos 0) k)) [
      | inl q ↦ rw q (auth_header-Keeps _ s)
      | inr q ↦ rw q
    ]

    verify_filters-Keeps : (start end : ℤ) → Keeps own_hashes (verify_filters wire chain start end)
    unfolding verify_filters
    verify_filters-Keeps start end =
        bind-Keeps own_hashes (start_header wire chain start) _ (start_header-Keeps start) (λ prev.
          bind-Keeps own_hashes (auth_header wire chain end) _ (auth_header-Keeps end) (λ want s.
            elim (Result-cases (filter_chain wire s.own.filters (heights start end) prev)) [
              | inl (last, e) ↦ rw e
              | inr (x, e) ↦ rw e
            ]))

    write_sealed_file-Keeps :
        (io : Io) (start end : ℤ) → Keeps own_hashes (write_sealed_file wire io chain start end)
    unfolding write_sealed_file write_filters
    write_sealed_file-Keeps io start end =
        bind-Keeps own_hashes (verify_filters wire chain start end) _
          (verify_filters-Keeps start end) (λ u s. refl)

  -- The filter producer's hooks keep the promises that the base's invariant rests on.
  pub cfilter_hooks-HookLaws : (io : Io) → HookLaws (cfilter_hooks wire io)
  unfolding cfilter_hooks cached_hash
  cfilter_hooks-HookLaws io = record {
    ingest_own = own;
    ingest_other = other;
    write_same =
        λ chain start end k s. ap (λ m. m k) (write_sealed_file-Keeps chain io start end s);
    prune_outside = λ start end k own out.
        unfold cached_hash prune_locked in delete_all_outside start end own.height_to_hash k out;
  }
    where
      own :
          (chain : Chain H) (i : ℤ) (s s' : Shared CFilterFiles)
          → ingest wire chain i s ≡ (s', ok tt)
          → (x : Hash) × (cached_hash i s'.own ≡ some x)
      own chain i s s' e = elim (ingest-Ingests chain i s) [
        | inl (filter, hash, q) ↦ (
          hash,
          rw (stored_hash i i s s'.own filter hash (ap (λ p. p.0.own) (sym e) ∙ q), eqb_ℤ-refl i),
        )
        | inr (q, n) ↦ absurd (n (ap (λ p. p.1) e))
      ]

      other :
          (chain : Chain H) (i k : ℤ) (s : Shared CFilterFiles)
          → eqb_ℤ k i ≡ false
          → cached_hash k (ingest wire chain i s).0.own ≡ cached_hash k s.own
      other chain i k s ne = elim (ingest-Ingests chain i s) [
        | inl (filter, hash, q) ↦ stored_hash i k s _ filter hash q ∙ rw ne
        | inr (q, n) ↦ ap (cached_hash k) q
      ]
