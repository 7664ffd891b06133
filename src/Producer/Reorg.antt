-- ===== src/Producer/Reorg.antt =====
-- `findCommonAncestor`, `handleReorg` and `rollback`: what a producer does when bitcoind has left
-- the chain that the producer follows.
use block_dn.Common.{
  ℕ, zero, suc, ◌≡◌, sym, ◌∙◌, ◌≢◌, ◌⊎◌, inl, inr, false, none, some, Bool-cases, Option-cases,
  bytes_eq, bytes_eq→eq, bytes_eq→ne, bytes_eq_refl, arith,
}
use block_dn.Common.Int.{
  ℤ, pos, ◌+ℤ◌, ◌-ℤ◌, ◌≤ℤ◌, ◌<ℤ◌, leb_ℤ, ltb_ℤ, int_laws, int_tests, parts, ltb_ℤ→<ℤ, leb_ℤ→<ℤ,
  eqb_ℤ, eqb_ℤ→eq,
}
use block_dn.Common.Effect.{Result, ok, err, Err, rpc_failed, deep_reorg, Result-cases}
use block_dn.External.{Hash, Chain}
use block_dn.Producer.{
  Hooks, Base, find_from, find_common_ancestor, rollback, roll_back_to, compare_tip, handle_reorg,
}

ok_eq : {r : Result ℤ} {a b : ℤ} → r ≡ ok a → r ≡ ok b → a ≡ b
ok_eq p q = cc

err_eq : {r : Result ℤ} {a b : Err} → r ≡ err a → r ≡ err b → a ≡ b
err_eq p q = cc

module _ {H S : Type 0} (hooks : Hooks H S) (chain : Chain H) where
  -- The producer and the backend have the same block at a height.
  abbrev pub Agrees : S → ℤ → Type 0
  Agrees own h = (x : Hash) × (hooks.cached_hash h own ≡ some x) × (chain.get_block_hash h ≡ ok x)

  -- The producer has no block at a height, or another one than the backend.
  abbrev pub Differs : S → ℤ → Type 0
  Differs own h =
      (hooks.cached_hash h own ≡ none)
      ⊎ ((x y : Hash) × (hooks.cached_hash h own ≡ some x)
          × (chain.get_block_hash h ≡ ok y)
          × (x ≢ y))

  -- `r` is the highest height in (last, top] at which both agree, or `last` if there is none.
  pub record IsAncestor (own : S) (last top r : ℤ) : Type 0 where
    pub at_or_below : r ≤ℤ top
    pub agrees : ((r ≡ last) ⊎ ((last <ℤ r) × Agrees own r))
    pub above : (k : ℤ) → r <ℤ k → k ≤ℤ top → Differs own k

  found :
      (own : S) (last h : ℤ) (x : Hash)
      → last <ℤ h
      → hooks.cached_hash h own ≡ some x
      → chain.get_block_hash h ≡ ok x
      → IsAncestor own last h h
  found own last h x lt c b = record {
    at_or_below = omega arith;
    agrees = inr (lt, (x, c, b));
    above = λ k lo hi. absurd (omega arith);
  }

  walked :
      (own : S) (last h r : ℤ)
      → Differs own h
      → IsAncestor own last (h -ℤ pos 1) r
      → IsAncestor own last h r
  walked own last h r d a = record {
    at_or_below = omega (int_laws, a.at_or_below);
    agrees = a.agrees;
    above = λ k lo hi. elim (Bool-cases (eqb_ℤ k h)) [
      | inl e ↦ rw (eqb_ℤ→eq k h e) d
      | inr ne ↦ a.above k lo (omega (int_laws, eqb_ℤ→lt' k h hi ne))
    ];
  }
    where
      eqb_ℤ→lt' : (k h : ℤ) → k ≤ℤ h → eqb_ℤ k h ≡ false → k <ℤ h
      eqb_ℤ→lt' k h le ne = ground arith

  -- One round of the walk, by what the two have at the height.
  module _ (own : S) (last : ℤ) (n : ℕ) (h : ℤ) where
    round-Differs :
        Differs own h
        → find_from hooks chain own last (suc n) h ≡ find_from hooks chain own last n (h -ℤ pos 1)
    unfolding find_from
    round-Differs (inl c) = rw (c, find_from)
    round-Differs (inr (x, y, c, b, ne)) = elim (Bool-cases (bytes_eq x y)) [
      | inl e ↦ absurd (ne (bytes_eq→eq x y e))
      | inr e ↦ rw (c, b, e, find_from)
    ]

    round-Agrees : Agrees own h → find_from hooks chain own last (suc n) h ≡ ok h
    unfolding find_from
    round-Agrees (x, c, b) = rw (c, b, bytes_eq_refl x, find_from)

    round_refused :
        (x : Hash) (e : Err)
        → hooks.cached_hash h own ≡ some x
        → chain.get_block_hash h ≡ err e
        → find_from hooks chain own last (suc n) h ≡ err rpc_failed
    unfolding find_from
    round_refused x e c b = rw (c, b, find_from)

  -- What a height can be like.
  data Meets (own : S) (h : ℤ) : Type 0 where
    agree : Agrees own h → Meets own h
    differ : Differs own h → Meets own h
    refuse :
        (x : Hash) (e : Err)
        → hooks.cached_hash h own ≡ some x
        → chain.get_block_hash h ≡ err e
        → Meets own h

  compare_hashes :
      (own : S) (h : ℤ) (x y : Hash)
      → hooks.cached_hash h own ≡ some x
      → chain.get_block_hash h ≡ ok y
      → Meets own h
  compare_hashes own h x y c b = elim (Bool-cases (bytes_eq x y)) [
    | inl e ↦ agree (x, c, rw (bytes_eq→eq x y e) b)
    | inr e ↦ differ (inr (x, y, c, b, bytes_eq→ne x y e))
  ]

  meets : (own : S) (h : ℤ) → Meets own h
  meets own h = elim (Option-cases (hooks.cached_hash h own)) [
    | inl c ↦ differ (inl c)
    | inr (x, c) ↦ elim (Result-cases (chain.get_block_hash h)) [
      | inl (y, b) ↦ compare_hashes own h x y c b
      | inr (e, b) ↦ refuse x e c b
    ]
  ]

  find_from-IsAncestor :
      (own : S) (last : ℤ) (n : ℕ) (h r : ℤ)
      → last +ℤ pos n ≡ h
      → find_from hooks chain own last n h ≡ ok r
      → IsAncestor own last h r
  find_from-IsAncestor own last zero h r s e = record {
    at_or_below = omega (int_laws, parts s, parts (ends e));
    agrees = inl (ends e);
    above = λ k lo hi. absurd (omega (int_laws, parts s, parts (ends e)));
  }
    where
      ends : find_from hooks chain own last zero h ≡ ok r → r ≡ last
      ends q = unfold find_from in cc
  find_from-IsAncestor own last (suc n) h r s e = elim (meets own h) [
    | agree (x, c, b) ↦
        rw (← ok_eq (round-Agrees own last n h (x, c, b)) e)
          (found own last h x (omega (int_laws, parts s)) c b)
    | differ d ↦ walked own last h r d (
        find_from-IsAncestor own last n (h -ℤ pos 1) r (omega (int_laws, parts s))
          (sym (round-Differs own last n h d) ∙ e))
    | refuse x y c b ↦ cc (round_refused own last n h x y c b)
  ]

  -- From a tip at or above the last sealed height, `findCommonAncestor` without an error returns
  -- the highest height above the last sealed one at which the producer and the backend have the
  -- same block, or the last sealed height if there is no such height.
  pub find_common_ancestor-IsAncestor :
      (b : Base S) (tip r : ℤ)
      → b.last_sealed_height ≤ℤ tip
      → find_common_ancestor hooks chain b tip ≡ ok r
      → IsAncestor b.shared.own b.last_sealed_height tip r
  unfolding find_common_ancestor
  find_common_ancestor-IsAncestor b tip r le e =
      find_from-IsAncestor b.shared.own b.last_sealed_height _ tip r (omega int_laws) e

  find_from_refused :
      (own : S) (last : ℤ) (n : ℕ) (h : ℤ) {x : Err}
      → find_from hooks chain own last n h ≡ err x
      → (x ≡ rpc_failed) × (k : ℤ) × (y : Err) × (chain.get_block_hash k ≡ err y)
  find_from_refused own last zero h e = unfold find_from in cc
  find_from_refused own last (suc n) h e = elim (meets own h) [
    | agree a ↦ cc (round-Agrees own last n h a)
    | differ d ↦ find_from_refused own last n (h -ℤ pos 1) (sym (round-Differs own last n h d) ∙ e)
    | refuse x y c b ↦ (err_eq e (round_refused own last n h x y c b), h, y, b)
  ]

  find_common_ancestor_refused :
      (b : Base S) (tip : ℤ) {x : Err}
      → find_common_ancestor hooks chain b tip ≡ err x
      → (x ≡ rpc_failed) × (k : ℤ) × (y : Err) × (chain.get_block_hash k ≡ err y)
  unfolding find_common_ancestor
  find_common_ancestor_refused b tip e = find_from_refused b.shared.own b.last_sealed_height _ tip e

  -- What `handleReorg` can do to the base `b`, with the new base and the result.
  pub data Handles (b : Base S) : Base S × Result (Unit {0}) → Type 0 where
    -- The tip is the backend's, or there is nothing to compare: nothing happens.
    kept :
        (b.current_height <ℤ pos 0)
          ⊎ (hooks.cached_hash b.current_height b.shared.own ≡ none)
          ⊎ Agrees b.shared.own b.current_height
        → Handles b (b, ok tt)
    -- The tip is not the backend's, and the highest common block is not sealed: the base is rolled
    -- back to it.
    rolled_back :
        (common : ℤ)
        → Differs b.shared.own b.current_height
        → b.last_sealed_height <ℤ common
        → IsAncestor b.shared.own b.last_sealed_height b.current_height common
        → Handles b (rollback hooks chain common b, ok tt)
    -- There is no common block above the sealed ones: the base stays as it is.
    too_deep :
        ((k : ℤ) → b.last_sealed_height <ℤ k → k ≤ℤ b.current_height → Differs b.shared.own k)
        → Handles b (b, err deep_reorg)
    -- The backend did not answer for some height: the base stays as it is.
    refused : (k : ℤ) (e : Err) → chain.get_block_hash k ≡ err e → Handles b (b, err rpc_failed)

  roll_back-Handles :
      (b : Base S)
      → b.last_sealed_height ≤ℤ b.current_height
      → Differs b.shared.own b.current_height
      → Handles b (roll_back_to hooks chain (find_common_ancestor hooks chain b b.current_height) b)
  roll_back-Handles b le d =
      elim (Result-cases (find_common_ancestor hooks chain b b.current_height)) [
        | inl (common, e) ↦
            rw e (to_common common (find_common_ancestor-IsAncestor b b.current_height common le e))
        | inr (x, e) ↦ rw e (no_answer x e)
      ]
    where
      to_common :
          (common : ℤ)
          → IsAncestor b.shared.own b.last_sealed_height b.current_height common
          → Handles b (roll_back_to hooks chain (ok common) b)
      to_common common a = elim (Bool-cases (leb_ℤ common b.last_sealed_height)) [
        | inl e ↦
            unfold roll_back_to in
            rw e (too_deep (λ k lo hi. a.above k (omega (int_tests, e, lo)) hi))
        | inr e ↦
            unfold roll_back_to in
            rw e (rolled_back common d (leb_ℤ→<ℤ common b.last_sealed_height e) a)
      ]

      no_answer :
          (x : Err)
          → find_common_ancestor hooks chain b b.current_height ≡ err x
          → Handles b (roll_back_to hooks chain (err x) b)
      no_answer x e =
          let (is_rpc, k, y, r) = find_common_ancestor_refused b b.current_height e in
          unfold roll_back_to in rw is_rpc (refused k y r)

  -- On a base whose sealed heights end at or below its tip, and whatever the backend reports,
  -- `handleReorg` does one of four things: it keeps a tip that agrees with the backend or that it
  -- cannot compare; it rolls a tip that was reorged away back to the highest block that both have,
  -- which is not sealed; it gives up with `errDeepReorg` if the two agree nowhere above the sealed
  -- heights; or it gives up if the backend refuses a height. The base is changed in the second
  -- case only.
  pub handle_reorg-Handles :
      (b : Base S)
      → b.last_sealed_height ≤ℤ b.current_height
      → Handles b (handle_reorg hooks chain b)
  unfolding handle_reorg
  handle_reorg-Handles b le = elim (Bool-cases (ltb_ℤ b.current_height (pos 0))) [
    | inl e ↦ rw e (kept (inl (ltb_ℤ→<ℤ b.current_height (pos 0) e)))
    | inr e ↦ rw e (compare (meets b.shared.own b.current_height))
  ]
    where
      compare :
          Meets b.shared.own b.current_height
          → Handles b (
              compare_tip hooks chain
                (hooks.cached_hash b.current_height b.shared.own)
                (chain.get_block_hash b.current_height)
                b)
      compare (agree (x, c, r)) =
          unfold compare_tip in rw (c, r, bytes_eq_refl x) (kept (inr (inr (x, c, r))))
      compare (differ (inl c)) = unfold compare_tip in rw c (kept (inr (inl c)))
      compare (differ (inr (x, y, c, r, ne))) = elim (Bool-cases (bytes_eq x y)) [
        | inl q ↦ absurd (ne (bytes_eq→eq x y q))
        | inr q ↦ unfold compare_tip in rw (c, r, q) (roll_back-Handles b le (inr (x, y, c, r, ne)))
      ]
      compare (refuse x y c r) = unfold compare_tip in rw (c, r) (refused b.current_height y r)
