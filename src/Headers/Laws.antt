-- ===== src/Headers/Laws.antt =====
-- The hooks of the header producer keep what the base relies on.
use block_dn.Common.{
  ◌≡◌, ◌≢◌, refl, sym, ap, ◌∙◌, ◌⊎◌, inl, inr, false, some, Bool-cases, if◌then◌else◌,
}
use block_dn.Common.Int.{ℤ, eqb_ℤ, eqb_ℤ-refl}
use block_dn.Common.Heights.{delete_all_outside}
use block_dn.Common.Effect.{Result, ok, err, Err, continue, Run-cases, Result-cases}
use block_dn.External.{Hash, Chain, Wire}
use block_dn.Cache.{get_block_hash}
use block_dn.Files.{Io}
use block_dn.Producer.{Shared}
use block_dn.Producer.Sound.{HookLaws}
use block_dn.Headers.{
  HeaderFiles, ingest, write_sealed_file, verify_headers, write_headers, write_filter_headers,
  prune_locked, cached_hash, header_hooks, store,
}
use mathlib.Core.Option

module _ {H : Type 0} (wire : Wire H) where
  -- What `ingest` leaves: the state that it found, with entries for one height if it succeeded.
  abbrev Ingests : ℤ → Shared (HeaderFiles H) → Shared (HeaderFiles H) × Result (Unit {0}) → Type 0
  Ingests i s p =
      ((header : H) × (filter_header : Hash) × (p.0.own
          ≡ (store wire i header filter_header s).own))
      ⊎ ((p.0.own ≡ s.own) × (p.1 ≢ ok tt))

  ingest-Ingests :
      (chain : Chain H) (i : ℤ) (s : Shared (HeaderFiles H)) → Ingests i s (ingest wire chain i s)
  unfolding ingest
  ingest-Ingests chain i s = elim (Run-cases (get_block_hash chain i s.cache)) [
    | inl (c, hash, e) ↦ elim (Result-cases (chain.get_block_header hash)) [
      | inl (header, eh) ↦ elim (Result-cases (chain.get_block_filter hash)) [
        | inl (filter, ef) ↦ elim (Result-cases (wire.hash_from_str filter.header)) [
          | inl (fh, ep) ↦ simp (e, eh, ef, ep) (inl (header, fh, refl))
          | inr (x, ep) ↦ simp (e, eh, ef, ep) (inr (refl, λ q. cc))
        ]
        | inr (x, ef) ↦ simp (e, eh, ef) (inr (refl, λ q. cc))
      ]
      | inr (x, eh) ↦ simp (e, eh) (inr (refl, λ q. cc))
    ]
    | inr (c, x, e) ↦ simp e (inr (refl, λ q. cc))
  ]

  stored_hash :
      (i k : ℤ) (s : Shared (HeaderFiles H)) (own : HeaderFiles H) (header : H) (fh : Hash)
      → own ≡ (store wire i header fh s).own
      → cached_hash wire k own
        ≡ (if eqb_ℤ k i then some (wire.block_hash header) else cached_hash wire k s.own)
  unfolding cached_hash
  stored_hash i k s own header fh e =
      rw e (elim (Bool-cases (eqb_ℤ k i)) [ inl q ↦ rw q | inr q ↦ rw q ])

  -- Writing files changes the disk and nothing else.
  write_sealed_file_headers :
      (io : Io) (chain : Chain H) (start end : ℤ) (h : HeaderFiles H)
      → (write_sealed_file wire io chain start end h).0.headers ≡ h.headers
  unfolding write_sealed_file write_headers write_filter_headers
  write_sealed_file_headers io chain start end h =
      elim (Result-cases (verify_headers wire chain h.headers start end)) [
        | inl (u, e) ↦ rw e (after (Run-cases (write_headers wire io start end h)))
        | inr (x, e) ↦ rw e
      ]
    where
      after :
          ((h' : HeaderFiles H) × (u : Unit {0}) × (write_headers wire io start end h ≡ (h', ok u)))
            ⊎ ((h' : HeaderFiles H) × (x : Err) × (write_headers wire io start end h ≡ (h', err x)))
          → (continue
              (write_headers wire io start end h)
              (λ _. write_filter_headers wire io start end)).0.headers
            ≡ h.headers
      after (inl (h', u, e)) = rw e (sym (ap (λ p. p.0.headers) e))
      after (inr (h', x, e)) = rw e (sym (ap (λ p. p.0.headers) e))

  -- The header producer's hooks keep the promises that the base's invariant rests on.
  pub header_hooks-HookLaws : (io : Io) → HookLaws (header_hooks wire io)
  unfolding header_hooks cached_hash
  header_hooks-HookLaws io = record {
    ingest_own = own;
    ingest_other = other;
    write_same = λ chain start end k s.
        ap (λ m. Option.map wire.block_hash (m k))
          (write_sealed_file_headers io chain start end s.own);
    prune_outside = λ start end k own out.
        unfold cached_hash prune_locked in rw (delete_all_outside start end own.headers k out);
  }
    where
      own :
          (chain : Chain H) (i : ℤ) (s s' : Shared (HeaderFiles H))
          → ingest wire chain i s ≡ (s', ok tt)
          → (x : Hash) × (cached_hash wire i s'.own ≡ some x)
      own chain i s s' e = elim (ingest-Ingests chain i s) [
        | inl (header, fh, q) ↦ (
          wire.block_hash header,
          rw (stored_hash i i s s'.own header fh (ap (λ p. p.0.own) (sym e) ∙ q), eqb_ℤ-refl i),
        )
        | inr (q, n) ↦ absurd (n (ap (λ p. p.1) e))
      ]

      other :
          (chain : Chain H) (i k : ℤ) (s : Shared (HeaderFiles H))
          → eqb_ℤ k i ≡ false
          → cached_hash wire k (ingest wire chain i s).0.own ≡ cached_hash wire k s.own
      other chain i k s ne = elim (ingest-Ingests chain i s) [
        | inl (header, fh, q) ↦ stored_hash i k s _ header fh q ∙ rw ne
        | inr (q, n) ↦ ap (cached_hash wire k) q
      ]
