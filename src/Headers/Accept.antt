-- ===== src/Headers/Accept.antt =====
-- `verifyHeaders` refuses no genuine range.
use block_dn.Common.{
  ℕ, zero, suc, ◌≡◌, ap, ◌∙◌, inl, inr, false, not, ◌&&◌, some, List, ◌∷◌, Bool-cases, bytes_eq,
  bytes_eq_refl, arith,
}
use block_dn.Common.Int.{ℤ, pos, ◌+ℤ◌, ◌≤ℤ◌, ◌<ℤ◌, ltb_ℤ, int_laws, ltb_ℤ→<ℤ}
use block_dn.Common.Heights.{HeightMap, heights, span, heights_cons, heights_nil}
use block_dn.Common.Effect.{ok}
use block_dn.External.{Hash, zero_hash, Chain, Wire}
use block_dn.Headers.{verify_loop, verify_headers}
use block_dn.Headers.Verify.{BestChain}

module _ {H : Type 0} (wire : Wire H) where
  module _ (m : HeightMap H) (fs : ℤ) where
    passes :
        (h : ℤ) (prev running : Hash)
        → (fs <ℤ h → prev ≡ running)
        → (ltb_ℤ fs h && not (bytes_eq prev running)) ≡ false
    passes h prev running before = elim (Bool-cases (ltb_ℤ fs h)) [
      | inl q ↦ rw (before (ltb_ℤ→<ℤ fs h q), q, bytes_eq_refl running)
      | inr q ↦ rw q
    ]

    accept_round :
        (h : ℤ) (header : H) (rest : List ℤ) (running : Hash)
        → m h ≡ some header
        → (fs <ℤ h → wire.prev_block header ≡ running)
        → verify_loop wire m fs (h ∷ rest) running
          ≡ verify_loop wire m fs rest (wire.block_hash header)
    unfolding verify_loop
    accept_round h header rest running s before =
        rw (s, passes h (wire.prev_block header) running before, verify_loop)

    module _ (best : ℤ → H)
        (links : (k : ℤ)
          → pos 0 ≤ℤ k
          → wire.prev_block (best (k +ℤ pos 1)) ≡ wire.block_hash (best k)) where
      -- The loop lets a linked range pass, with the hash of its last header.
      loop_accepts :
          (n : ℕ) (start end : ℤ) (running : Hash)
          → span start end ≡ suc n
          → pos 0 ≤ℤ start
          → (fs <ℤ start → wire.prev_block (best start) ≡ running)
          → ((k : ℤ) → start ≤ℤ k → k ≤ℤ end → m k ≡ some (best k))
          → verify_loop wire m fs (heights start end) running ≡ ok (wire.block_hash (best end))
      loop_accepts zero start end running len up before stored =
          let at : start ≡ end = omega (int_laws, len) in
          rw (heights_cons start end (omega (int_laws, len))) (
            accept_round start (best start) _ running
              (stored start (omega arith) (omega (int_laws, len))) before
            ∙ rw (heights_nil (start +ℤ pos 1) end (omega (int_laws, len)))
                (unfold verify_loop in ap (λ k. ok (wire.block_hash (best k))) at))
      loop_accepts (suc n) start end running len up before stored =
          rw (heights_cons start end (omega (int_laws, len))) (
            accept_round start (best start) _ running
              (stored start (omega arith) (omega (int_laws, len))) before
            ∙ loop_accepts n (start +ℤ pos 1) end (wire.block_hash (best start))
                (omega (int_laws, len)) (omega (int_laws, up)) (λ _. links start up)
                (λ k lo hi. stored k (omega (int_laws, lo)) hi))

  -- `verifyHeaders` refuses no genuine range: if the range is not empty and the map holds the
  -- headers of the best chain that ends in the backend's block, the check passes.
  pub verify_headers-accepts :
      (chain : Chain H) (m : HeightMap H) (start end : ℤ) (best : BestChain wire chain end)
      → pos 0 ≤ℤ start
      → start ≤ℤ end
      → ((k : ℤ) → start ≤ℤ k → k ≤ℤ end → m k ≡ some (best.header k))
      → verify_headers wire chain m start end ≡ ok tt
  unfolding verify_headers
  verify_headers-accepts chain m start end best zero_up le stored = rw (
    best.tip,
    loop_accepts m start best.header best.links (span (start +ℤ pos 1) end) start end zero_hash
        (omega int_laws) zero_up (λ lt. absurd (omega arith)) stored,
    bytes_eq_refl (wire.block_hash (best.header end)),
  )
