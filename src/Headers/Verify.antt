-- ===== src/Headers/Verify.antt =====
-- `verifyHeaders`: a range of headers passes exactly if it is the backend's chain.
use block_dn.Common.{
  ℕ, zero, suc, ◌≡◌, refl, sym, ap, ◌∙◌, ◌⊎◌, inl, inr, Bool, true, false, not, ◌&&◌, some, List,
  [], ◌∷◌, Bool-cases, Option-cases, bytes_eq, bytes_eq→eq, bytes_eq→ne, arith,
}
use block_dn.Common.Int.{
  above_of_ne, ℤ, pos, ◌+ℤ◌, ◌-ℤ◌, ◌≤ℤ◌, ◌<ℤ◌, ltb_ℤ, eqb_ℤ, int_laws, <ℤ→ltb_ℤ, eqb_ℤ→eq,
}
use block_dn.Common.Heights.{HeightMap, heights, span, heights_cons, heights_nil}
use block_dn.Common.Effect.{ok, and_then-ok}
use block_dn.External.{Hash, zero_hash, Chain, Wire}
use block_dn.Headers.{verify_loop, verify_headers}

checked : (a b : Bool) → a ≡ true → a && not b ≡ false → b ≡ true
checked a true h e = refl
checked a false h e = ground arith

ok_eq : {a b : Hash} → ok a ≡ ok b → a ≡ b
ok_eq e = cc

module _ {H : Type 0} (wire : Wire H) where
  -- The backend's best chain up to `end`, from height 0: its headers are linked, and it reports
  -- the last hash.
  pub record BestChain (chain : Chain H) (end : ℤ) : Type 0 where
    pub header : ℤ → H
    pub links :
        (k : ℤ) → pos 0 ≤ℤ k → wire.prev_block (header (k +ℤ pos 1)) ≡ wire.block_hash (header k)
    pub tip : chain.get_block_hash end ≡ ok (wire.block_hash (header end))

  -- Two headers with one hash and different predecessors.
  pub record HeaderCollision : Type 0 where
    pub left : H
    pub right : H
    pub same : wire.block_hash left ≡ wire.block_hash right
    pub apart : ¬ (wire.prev_block left ≡ wire.prev_block right)

  -- At each height of a range the map holds a header with the hash of the best chain.
  abbrev pub Matches : HeightMap H → (ℤ → H) → ℤ → ℤ → Type 0
  Matches m best start end =
      (k : ℤ)
      → start ≤ℤ k
      → k ≤ℤ end
      → (header : H) × (m k ≡ some header) × (wire.block_hash header ≡ wire.block_hash (best k))

  same_prev :
      (a b : H)
      → wire.block_hash a ≡ wire.block_hash b
      → (wire.prev_block a ≡ wire.prev_block b) ⊎ HeaderCollision
  same_prev a b e = elim (Bool-cases (bytes_eq (wire.prev_block a) (wire.prev_block b))) [
    | inl q ↦ inl (bytes_eq→eq (wire.prev_block a) (wire.prev_block b) q)
    | inr q ↦ inr (record {
      left = a;
      right = b;
      same = e;
      apart = bytes_eq→ne (wire.prev_block a) (wire.prev_block b) q;
    })
  ]

  module _ (m : HeightMap H) (file_start : ℤ) where
    -- A round of the loop that goes on.
    round :
        (h : ℤ) (rest : List ℤ) (running last : Hash)
        → verify_loop wire m file_start (h ∷ rest) running ≡ ok last
        → (header : H) × (m h ≡ some header)
          × (file_start <ℤ h → wire.prev_block header ≡ running)
          × (verify_loop wire m file_start rest (wire.block_hash header) ≡ ok last)
    unfolding verify_loop
    round h rest running last e = elim (Option-cases (m h)) [
      | inl n ↦ cc (rw (n, verify_loop) at e)
      | inr (header, s) ↦
          elim (Bool-cases
            (ltb_ℤ file_start h && not (bytes_eq (wire.prev_block header) running))) [
              | inl q ↦ cc (rw (s, q, verify_loop) at e)
              | inr q ↦ (
                header,
                s,
                λ lt.
                    bytes_eq→eq (wire.prev_block header) running
                      (checked _ _ (<ℤ→ltb_ℤ file_start h lt) q),
                rw (s, q, verify_loop) at e,
              )
            ]
    ]

    loop_end :
        {js : List ℤ} {running last : Hash}
        → js ≡ []
        → verify_loop wire m file_start js running ≡ ok last
        → running ≡ last
    loop_end none_left e = ok_eq (unfold verify_loop in rw none_left at e)

    module _ (from_zero : pos 0 ≤ℤ file_start) (best : ℤ → H)
        (links : (k : ℤ)
          → pos 0 ≤ℤ k
          → wire.prev_block (best (k +ℤ pos 1)) ≡ wire.block_hash (best k)) where
      -- One height in front of a range that matches.
      extend :
          (start end : ℤ) (header : H)
          → m start ≡ some header
          → wire.block_hash header ≡ wire.block_hash (best start)
          → Matches m best (start +ℤ pos 1) end
          → Matches m best start end
      extend start end header s e rest k lo hi = elim (Bool-cases (eqb_ℤ k start)) [
        | inl q ↦ rw (eqb_ℤ→eq k start q) (header, s, e)
        | inr q ↦ rest k (above_of_ne k start lo q) hi
      ]

      prev_of_best :
          (k : ℤ) → file_start <ℤ k → wire.prev_block (best k) ≡ wire.block_hash (best (k -ℤ pos 1))
      prev_of_best k lt =
          let e : k -ℤ pos 1 +ℤ pos 1 ≡ k = omega int_laws in
          ap (λ j. wire.prev_block (best j)) (sym e)
          ∙ links (k -ℤ pos 1) (omega (int_laws, lt, from_zero))

      -- A range that the loop has run through, and the hash that it was entered with.
      abbrev Proven : ℤ → ℤ → Hash → Type 0
      Proven start end running =
          (Matches m best start end
            × (file_start <ℤ start → running ≡ wire.block_hash (best (start -ℤ pos 1))))
          ⊎ HeaderCollision

      conclude :
          (start end : ℤ) (running : Hash) (header : H)
          → m start ≡ some header
          → (file_start <ℤ start → wire.prev_block header ≡ running)
          → wire.block_hash header ≡ wire.block_hash (best start)
          → Matches m best (start +ℤ pos 1) end
          → Proven start end running
      conclude start end running header s linked same rest =
          elim (same_prev header (best start) same) [
            | inl p ↦ inl (
              extend start end header s same rest,
              λ lt. sym (linked lt) ∙ p ∙ prev_of_best start lt,
            )
            | inr c ↦ inr c
          ]

      loop-Proven :
          (n : ℕ) (start end : ℤ) (running : Hash)
          → span start end ≡ suc n
          → file_start ≤ℤ start
          → verify_loop wire m file_start (heights start end) running
            ≡ ok (wire.block_hash (best end))
          → Proven start end running
      loop-Proven zero start end running len from e =
          let (header, s, linked, rest) =
            round start (heights (start +ℤ pos 1) end) running _
              (rw (heights_cons start end (omega (int_laws, len))) at e) in
          let at : start ≡ end = omega (int_laws, len) in
          conclude start end running header s linked
            (loop_end (heights_nil (start +ℤ pos 1) end (omega (int_laws, len))) rest
              ∙ ap (λ k. wire.block_hash (best k)) (sym at))
            (λ k lo hi. absurd (omega (int_laws, len)))
      loop-Proven (suc n) start end running len from e =
          let (header, s, linked, rest) =
            round start (heights (start +ℤ pos 1) end) running _
              (rw (heights_cons start end (omega (int_laws, len))) at e) in
          elim (loop-Proven n (start +ℤ pos 1) end (wire.block_hash header) (omega (int_laws, len))
            (omega (int_laws, from)) rest) [
              | inl (matches, before) ↦
                  conclude start end running header s linked
                    (before (omega (int_laws, from))
                      ∙ ap (λ k. wire.block_hash (best k)) (omega int_laws))
                    matches
              | inr c ↦ inr c
            ]

  end_matches :
      (chain : Chain H) (m : HeightMap H) (start end : ℤ)
      → verify_headers wire chain m start end ≡ ok tt
      → (last : Hash) × (chain.get_block_hash end ≡ ok last)
        × (verify_loop wire m start (heights start end) zero_hash ≡ ok last)
  unfolding verify_headers
  end_matches chain m start end e =
      let (end_hash, got_end, more) = and_then-ok (chain.get_block_hash end) _ e in
      let (running, ran, same) =
        and_then-ok (verify_loop wire m start (heights start end) zero_hash) _ more in
      elim (Bool-cases (bytes_eq running end_hash)) [
        | inl q ↦ (end_hash, got_end, ran ∙ ap ok (bytes_eq→eq running end_hash q))
        | inr q ↦ cc (rw q at same)
      ]

  -- Headers of a range that is not empty and that pass `verifyHeaders` are the backend's: at every
  -- height of the range the stored header has the hash of the best chain that ends in the
  -- backend's block. Otherwise two headers with one hash and different predecessors can be shown.
  pub verify_headers-Matches :
      (chain : Chain H) (m : HeightMap H) (start end : ℤ) (best : BestChain chain end)
      → pos 0 ≤ℤ start
      → start ≤ℤ end
      → verify_headers wire chain m start end ≡ ok tt
      → Matches m best.header start end ⊎ HeaderCollision
  verify_headers-Matches chain m start end best zero_up le e =
      let (last, at_end, ran) = end_matches chain m start end e in
      let same : last ≡ wire.block_hash (best.header end) = ok_eq (sym at_end ∙ best.tip) in
      elim (loop-Proven m start zero_up best.header best.links (span (start +ℤ pos 1) end) start end
        zero_hash (omega int_laws) (omega arith) (ran ∙ ap ok same)) [
          | inl (matches, _) ↦ inl matches
          | inr c ↦ inr c
        ]
