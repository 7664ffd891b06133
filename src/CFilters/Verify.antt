-- ===== src/CFilters/Verify.antt =====
-- `verifyFilters`: a range of filters passes exactly if it is the backend's.
use block_dn.Common.{
  ℕ, zero, suc, ◌≡◌, sym, ap, ◌∙◌, ◌⊎◌, inl, inr, some, List, [], ◌∷◌, ◌++◌, append_cancel,
  Bool-cases, Option-cases, bytes_eq, bytes_eq→eq, bytes_eq→ne, bytes_eq_refl, arith,
}
use block_dn.Common.Int.{ℤ, pos, ◌+ℤ◌, ◌≤ℤ◌, eqb_ℤ, int_laws, eqb_ℤ→eq, above_of_ne}
use block_dn.Common.Heights.{HeightMap, heights, span, heights_cons, heights_nil}
use block_dn.Common.Effect.{ok, and_then-ok}
use block_dn.External.{Bytes, Hash, Chain, Wire, WireLaws, Collision}
use block_dn.Producer.{Shared}
use block_dn.CFilters.{CFilterFiles, next_header, filter_chain, verify_filters}
use block_dn.CFilters.Backend.{FilterChain, IsFresh, verify_filters-Runs}

ok_eq : {a b : Hash} → ok a ≡ ok b → a ≡ b
ok_eq e = cc

module _ {H : Type 0} (wire : Wire H) where
  pub same_input :
      (a b : Bytes) → wire.double_hash a ≡ wire.double_hash b → (a ≡ b) ⊎ Collision wire
  same_input a b e = elim (Bool-cases (bytes_eq a b)) [
    | inl q ↦ inl (bytes_eq→eq a b q)
    | inr q ↦ inr (record { left = a; right = b; apart = bytes_eq→ne a b q; same = e })
  ]

  -- A link of the commitment chain commits to the filter and to the header before it.
  pub next_header-injective :
      (laws : WireLaws wire) (f g : Bytes) (p q : Hash)
      → next_header wire f p ≡ next_header wire g q
      → ((f ≡ g) × (p ≡ q)) ⊎ Collision wire
  unfolding next_header
  next_header-injective laws f g p q e =
      elim (same_input (wire.double_hash f ++ p) (wire.double_hash g ++ q) e) [
        | inl same ↦
            let (hashes, ps) =
              append_cancel (wire.double_hash f) (wire.double_hash g) p q
                (laws.length-double_hash f ∙ sym (laws.length-double_hash g)) same in
            elim (same_input f g hashes) [ inl fs ↦ inl (fs, ps) | inr c ↦ inr c ]
        | inr c ↦ inr c
      ]

  module _ (m : HeightMap Bytes) where
    chain_round :
        (h : ℤ) (rest : List ℤ) (prev last : Hash)
        → filter_chain wire m (h ∷ rest) prev ≡ ok last
        → (filter : Bytes) × (m h ≡ some filter)
          × (filter_chain wire m rest (next_header wire filter prev) ≡ ok last)
    unfolding filter_chain
    chain_round h rest prev last e = elim (Option-cases (m h)) [
      | inl n ↦ cc (rw (n, filter_chain) at e)
      | inr (filter, s) ↦ (filter, s, rw (s, filter_chain) at e)
    ]

    chain_end :
        {js : List ℤ} {prev last : Hash}
        → js ≡ []
        → filter_chain wire m js prev ≡ ok last
        → prev ≡ last
    chain_end none_left e = ok_eq (unfold filter_chain in rw none_left at e)

    -- At each height of a range the map holds the best chain's filter.
    abbrev pub HasFilters : (ℤ → Bytes) → ℤ → ℤ → Type 0
    HasFilters best start end = (k : ℤ) → start ≤ℤ k → k ≤ℤ end → m k ≡ some (best k)

    module _ {chain : Chain H} {top : ℤ} (best : FilterChain wire chain top) where
      filter_of : ℤ → Bytes
      filter_of = best.filter

      module _ (laws : WireLaws wire) where
        -- The filters of a range that the loop has run through, and the header that it started with.
        abbrev Proven : ℤ → ℤ → Hash → Type 0
        Proven start end prev =
            (HasFilters best.filter start end × (prev ≡ best.before start)) ⊎ Collision wire

        conclude :
            (start end : ℤ) (prev : Hash) (filter : Bytes)
            → pos 0 ≤ℤ start
            → m start ≡ some filter
            → next_header wire filter prev ≡ best.before (start +ℤ pos 1)
            → HasFilters best.filter (start +ℤ pos 1) end
            → Proven start end prev
        conclude start end prev filter up s e rest =
            elim (next_header-injective laws filter (best.filter start) prev (best.before start)
              (e ∙ best.commits start up)) [ inl (same, p) ↦ inl (extend same, p) | inr c ↦ inr c ]
          where
            extend : filter ≡ best.filter start → HasFilters best.filter start end
            extend same k lo hi = elim (Bool-cases (eqb_ℤ k start)) [
              | inl q ↦ rw (eqb_ℤ→eq k start q) (s ∙ ap some same)
              | inr q ↦ rest k (above_of_ne k start lo q) hi
            ]

        chain-Proven :
            (n : ℕ) (start end : ℤ) (prev : Hash)
            → span start end ≡ suc n
            → pos 0 ≤ℤ start
            → filter_chain wire m (heights start end) prev ≡ ok (best.before (end +ℤ pos 1))
            → Proven start end prev
        chain-Proven zero start end prev len up e =
            let (filter, s, rest) =
              chain_round start (heights (start +ℤ pos 1) end) prev _
                (rw (heights_cons start end (omega (int_laws, len))) at e) in
            let at : end ≡ start = omega (int_laws, len) in
            conclude start end prev filter up s
              (chain_end (heights_nil (start +ℤ pos 1) end (omega (int_laws, len))) rest
                ∙ ap (λ k. best.before (k +ℤ pos 1)) at)
              (λ k lo hi. absurd (omega (int_laws, len)))
        chain-Proven (suc n) start end prev len up e =
            let (filter, s, rest) =
              chain_round start (heights (start +ℤ pos 1) end) prev _
                (rw (heights_cons start end (omega (int_laws, len))) at e) in
            elim (chain-Proven n (start +ℤ pos 1) end (next_header wire filter prev)
              (omega (int_laws, len)) (omega (int_laws, up)) rest) [
                | inl (rest_has, p) ↦ conclude start end prev filter up s p rest_has
                | inr c ↦ inr c
              ]

      -- The loop runs through the best chain's filters to the filter header at the end.
      chain_accepts :
          (n : ℕ) (start end : ℤ)
          → span start end ≡ suc n
          → pos 0 ≤ℤ start
          → HasFilters best.filter start end
          → filter_chain wire m (heights start end) (best.before start)
            ≡ ok (best.before (end +ℤ pos 1))
      unfolding filter_chain
      chain_accepts zero start end len up has =
          let at : start ≡ end = omega (int_laws, len) in
          rw
            (
              heights_cons start end (omega (int_laws, len)),
              has start (omega arith) (omega (int_laws, len)),
              filter_chain,
              heights_nil (start +ℤ pos 1) end (omega (int_laws, len)),
            )
            (ap ok (sym (best.commits start up) ∙ ap (λ k. best.before (k +ℤ pos 1)) at))
      chain_accepts (suc n) start end len up has =
          rw
            (
              heights_cons start end (omega (int_laws, len)),
              has start (omega arith) (omega (int_laws, len)),
              filter_chain,
              ← best.commits start up,
            )
            (chain_accepts n (start +ℤ pos 1) end (omega (int_laws, len)) (omega (int_laws, up))
              (λ k lo hi. has k (omega (int_laws, lo)) hi))

  -- Filters of a range that is not empty and that pass `verifyFilters`, with a hash cache that is
  -- not stale, are the backend's: at every height of the range the map holds the filter of the best
  -- chain. Otherwise two byte strings with one double hash can be shown.
  pub verify_filters-HasFilters :
      (laws : WireLaws wire) (chain : Chain H) (start end : ℤ) (best : FilterChain wire chain end)
      (s : Shared CFilterFiles) {s' : Shared CFilterFiles}
      → pos 0 ≤ℤ start
      → start ≤ℤ end
      → IsFresh wire best s.cache
      → verify_filters wire chain start end s ≡ (s', ok tt)
      → HasFilters s.own.filters best.filter start end ⊎ Collision wire
  verify_filters-HasFilters laws chain start end best s up le fresh e =
      let r = verify_filters-Runs wire best s start up le fresh in
      let (last, ran, closed) =
        and_then-ok (filter_chain wire s.own.filters (heights start end) (best.before start)) _
          (ap (λ p. p.1) (sym r.result ∙ e)) in
      elim (Bool-cases (bytes_eq last (best.before (end +ℤ pos 1)))) [
        | inl q ↦
            elim (chain-Proven s.own.filters best laws (span (start +ℤ pos 1) end) start end
              (best.before start) (omega int_laws) up (ran ∙ ap ok (bytes_eq→eq last _ q))) [
                | inl (has, p) ↦ inl has
                | inr c ↦ inr c
              ]
        | inr q ↦ cc (rw q at closed)
      ]

  -- `verifyFilters` refuses no genuine range: if the range is not empty, the map holds the filters
  -- of the best chain and the hash cache is not stale, the check passes.
  pub verify_filters-accepts :
      (chain : Chain H) (start end : ℤ) (best : FilterChain wire chain end)
      (s : Shared CFilterFiles)
      → pos 0 ≤ℤ start
      → start ≤ℤ end
      → IsFresh wire best s.cache
      → HasFilters s.own.filters best.filter start end
      → (verify_filters wire chain start end s).1 ≡ ok tt
  verify_filters-accepts chain start end best s up le fresh has =
      let r = verify_filters-Runs wire best s start up le fresh in
      ap (λ p. p.1) r.result
      ∙ rw (
        chain_accepts s.own.filters best (span (start +ℤ pos 1) end) start end (omega int_laws) up
            has,
        bytes_eq_refl (best.before (end +ℤ pos 1)),
      )
