-- ===== src/CFilters/Backend.antt =====
-- What the backend answers while filters are verified: the best chain with its filters.
use block_dn.Common.{◌≡◌, refl, sym, ap, ◌∙◌, ◌⊎◌, inl, inr, none, some, Bool-cases, arith}
use block_dn.Common.Int.{
  ℤ, pos, ◌+ℤ◌, ◌-ℤ◌, ◌≤ℤ◌, ltb_ℤ, eqb_ℤ, int_laws, int_tests, ltb_ℤ→<ℤ, eqb_ℤ→eq,
}
use block_dn.Common.Heights.{heights}
use block_dn.Common.Effect.{ok, and_then, Result-cases}
use block_dn.External.{Bytes, Hash, zero_hash, Chain, Wire, FilterResult}
use block_dn.Cache.{H2HCache}
use block_dn.Cache.Invariant.{IsFree, IsServed, get_block_hash_lem}
use block_dn.Producer.{Shared}
use block_dn.CFilters.{
  CFilterFiles, next_header, auth_header, start_header, filter_chain, verify_filters, closes_at,
}

module _ {H : Type 0} (wire : Wire H) where
  -- The backend's best chain up to `end` with its filters: `before k` is the filter header that the
  -- filter of block `k` is chained to.
  pub record FilterChain (chain : Chain H) (end : ℤ) : Type 0 where
    pub hash : ℤ → Hash
    pub filter : ℤ → Bytes
    pub before : ℤ → Hash
    pub genesis : before (pos 0) ≡ zero_hash
    pub commits :
        (k : ℤ) → pos 0 ≤ℤ k → before (k +ℤ pos 1) ≡ next_header wire (filter k) (before k)
    pub blocks : (k : ℤ) → pos 0 ≤ℤ k → k ≤ℤ end → chain.get_block_hash k ≡ ok (hash k)
    pub serves :
        (k : ℤ)
        → pos 0 ≤ℤ k
        → k ≤ℤ end
        → (r : FilterResult) × (chain.get_block_filter (hash k) ≡ ok r)
          × (wire.hash_from_str r.header ≡ ok (before (k +ℤ pos 1)))

  module _ {chain : Chain H} {end : ℤ} (best : FilterChain chain end) where
    -- The hashes that are cached up to `end` are the best chain's.
    pub record IsFresh (c : H2HCache) : Type 0 where
      pub free : IsFree c
      pub current :
          (k : ℤ) (x : Hash) → pos 0 ≤ℤ k → k ≤ℤ end → c.height_to_hash k ≡ some x → x ≡ best.hash k

    served-best :
        (k : ℤ) {c c' : H2HCache} {x : Hash}
        → pos 0 ≤ℤ k
        → k ≤ℤ end
        → IsFresh c
        → IsServed chain k c x c'
        → x ≡ best.hash k
    served-best k {c = c} {x = x} lo hi f s = go s.source
      where
        go :
            (c.height_to_hash k ≡ some x)
              ⊎ ((c.height_to_hash k ≡ none) × (chain.get_block_hash k ≡ ok x))
            → x ≡ best.hash k
        go (inl e) = f.current k x lo hi e
        go (inr (e, r)) = cc (r, best.blocks k lo hi)

    served-IsFresh :
        (k : ℤ) {c c' : H2HCache} {x : Hash}
        → pos 0 ≤ℤ k
        → k ≤ℤ end
        → IsFresh c
        → IsServed chain k c x c'
        → IsFresh c'
    served-IsFresh k {c = c} {c' = c'} {x = x} lo hi f s = record {
      free = s.free;
      current = λ j y jlo jhi e. elim (Bool-cases (eqb_ℤ j k)) [
        | inl q ↦ at_k j y (eqb_ℤ→eq j k q) e
        | inr q ↦ f.current j y jlo jhi (sym (s.others j q) ∙ e)
      ];
    }
      where
        at_k : (j : ℤ) (y : Hash) → j ≡ k → c'.height_to_hash j ≡ some y → y ≡ best.hash j
        at_k j y q e = rw q (same y (rw q at e))
          where
            same : (y : Hash) → c'.height_to_hash k ≡ some y → y ≡ best.hash k
            same y e = cc (e, s.cached, served-best k lo hi f s)

    -- `authHeader` gives the filter header of a block of the best chain, and leaves a fresh cache.
    pub record Answers (s : Shared CFilterFiles) (k : ℤ) : Type 0 where
      pub after : Shared CFilterFiles
      pub same_own : after.own ≡ s.own
      pub fresh : IsFresh after.cache
      pub header : auth_header wire chain k s ≡ (after, ok (best.before (k +ℤ pos 1)))

    pub auth_header-Answers :
        (s : Shared CFilterFiles) (k : ℤ) → pos 0 ≤ℤ k → k ≤ℤ end → IsFresh s.cache → Answers s k
    unfolding auth_header
    auth_header-Answers s k lo hi f = elim (get_block_hash_lem chain k s.cache f.free) [
      | inl (x, c', e, v) ↦
          let (r, got_r, parsed) = best.serves k lo hi in
          let got_x : chain.get_block_filter x ≡ ok r =
            ap chain.get_block_filter (served-best k lo hi f v) ∙ got_r in
          record {
            after = record s { cache = c' };
            same_own = refl;
            fresh = served-IsFresh k lo hi f v;
            header = rw (e, got_x, parsed);
          }
      | inr (x, r, e) ↦ cc (r, best.blocks k lo hi)
    ]

    -- `verifyFilters` is the commitment chain over the filters in memory, between the two headers.
    pub record Runs (s : Shared CFilterFiles) (start : ℤ) : Type 0 where
      pub after : Shared CFilterFiles
      pub same_own : after.own ≡ s.own
      pub result : verify_filters wire chain start end s ≡ (
        after,
        and_then
            (filter_chain wire s.own.filters (heights start end) (best.before start))
            (closes_at (best.before (end +ℤ pos 1))),
      )

    start_header-before :
        (s : Shared CFilterFiles) (start : ℤ)
        → pos 0 ≤ℤ start
        → start ≤ℤ end
        → IsFresh s.cache
        → (s1 : Shared CFilterFiles) × (start_header wire chain start s
            ≡ (s1, ok (best.before start)))
          × (s1.own ≡ s.own)
          × IsFresh s1.cache
    unfolding start_header
    start_header-before s start lo hi f = elim (Bool-cases (ltb_ℤ (pos 0) start)) [
      | inl q ↦
          let a =
            auth_header-Answers s (start -ℤ pos 1) (omega (int_laws, ltb_ℤ→<ℤ (pos 0) start q))
              (omega (int_laws, hi)) f in
          (
            a.after,
            rw q (a.header ∙ ap (λ k. (a.after, ok (best.before k))) (omega int_laws)),
            a.same_own,
            a.fresh,
          )
      | inr q ↦ (
        s,
        rw q (
            ap (λ h. (s, ok h)) (sym best.genesis)
            ∙ ap (λ k. (s, ok (best.before k))) (omega (int_tests, q))),
        refl,
        f,
      )
    ]

    pub verify_filters-Runs :
        (s : Shared CFilterFiles) (start : ℤ)
        → pos 0 ≤ℤ start
        → start ≤ℤ end
        → IsFresh s.cache
        → Runs s start
    unfolding verify_filters
    verify_filters-Runs s start lo hi f =
        let (s1, e1, o1, f1) = start_header-before s start lo hi f in
        let a = auth_header-Answers s1 end (omega arith) (omega arith) f1 in
        elim (Result-cases
          (filter_chain wire s.own.filters (heights start end) (best.before start))) [
            | inl (last, r) ↦ record {
              after = a.after;
              same_own = a.same_own ∙ o1;
              result = rw (e1, a.header, a.same_own ∙ o1, r);
            }
            | inr (x, r) ↦ record {
              after = a.after;
              same_own = a.same_own ∙ o1;
              result = rw (e1, a.header, a.same_own ∙ o1, r);
            }
          ]
