-- ===== src/Verify/Records.antt =====
-- A header file that passes the check is the backend's chain.
use block_dn.Common.{
  ℕ, zero, suc, ◌*◌, ◌≡◌, sym, ap, ◌∙◌, ◌⊎◌, inl, inr, Bool, true, false, Option, none, some, List,
  [], ◌∷◌, ◌++◌, length, length-append, Bool-cases, bytes_eq, bytes_eq→eq, arith,
}
use block_dn.Common.Int.{ℤ, pos, ◌+ℤ◌, ◌-ℤ◌, ◌≤ℤ◌, ◌<ℤ◌, eqb_ℤ, int_laws, eqb_ℤ→eq, above_of_ne}
use block_dn.Common.Heights.{heights, span, heights_cons, heights_nil}
use block_dn.Common.Effect.{Err, Result, ok, err, and_then, and_then-ok, Result-cases, Run-cases}
use block_dn.External.{Bytes, Hash, Chain, Wire, Collision}
use block_dn.Files.{Disk}
use block_dn.Headers.{header_file}
use block_dn.CFilters.Verify.{same_input}
use block_dn.Verify.{
  Verifier, Settings, Surroundings, read_found, read_file, must_read, record_at, header_record,
  regenerate,
}
use block_dn.Verify.HeaderFiles.{
  prev_field, continues, link_records, has_size, check_header_file, verify_one_header_file,
}

ok_eq : {A : Type 0} {a b : A} → ok a ≡ ok b → a ≡ b
ok_eq e = cc

pub must_read-ok :
    (readable : Bool) (found : Option Bytes) (bytes : Bytes)
    → must_read (read_found readable found) ≡ ok bytes
    → found ≡ some bytes
must_read-ok true none bytes e = cc
must_read-ok false none bytes e = cc
must_read-ok true (some found) bytes e = ap some (ok_eq e)
must_read-ok false (some found) bytes e = cc

pub grew : {A : Type 0} (xs : List A) (x : A) → ¬ (xs ++ x ∷ [] ≡ xs)
grew xs x e = omega (arith, length-append xs (x ∷ []), ap length e)

module _ {H : Type 0} (wire : Wire H) (cfg : Settings) where
  -- The backend's best chain up to `end`, by the serialized headers: each names the hash of the one
  -- before it, and the backend reports the hash of the last.
  pub record BestRecords (chain : Chain H) (end : ℤ) : Type 0 where
    pub header : ℤ → Bytes
    pub links :
        (k : ℤ) → pos 0 ≤ℤ k → prev_field (header (k +ℤ pos 1)) ≡ wire.double_hash (header k)
    pub tip : chain.get_block_hash end ≡ ok (wire.double_hash (header end))

  continues_above :
      (height : ℤ) (header : Bytes) (prev : Hash)
      → pos 0 <ℤ height
      → continues wire cfg height header prev ≡ ok tt
      → prev_field header ≡ prev
  unfolding continues
  continues_above height header prev lt e = elim (Bool-cases (eqb_ℤ height (pos 0))) [
    | inl q ↦ absurd (ground (arith, lt, q))
    | inr q ↦ elim (Bool-cases (bytes_eq (prev_field header) prev)) [
      | inl r ↦ bytes_eq→eq (prev_field header) prev r
      | inr r ↦ cc (rw (q, r) at e)
    ]
  ]

  module _ (file' : Bytes) (file_start : ℤ) (best : ℤ → Bytes)
      (links : (k : ℤ)
        → pos 0 ≤ℤ k
        → prev_field (best (k +ℤ pos 1)) ≡ wire.double_hash (best k)) where
    abbrev at_height : ℤ → Bytes
    at_height k = record_at 80 file' file_start k

    -- A file has the best chain's header at each height of a range.
    abbrev pub HasRecords : ℤ → ℤ → Type 0
    HasRecords start end = (k : ℤ) → start ≤ℤ k → k ≤ℤ end → at_height k ≡ best k

    abbrev Proven : ℤ → ℤ → Hash → Type 0
    Proven start end prev =
        (HasRecords start end × (pos 0 <ℤ start → prev ≡ wire.double_hash (best (start -ℤ pos 1))))
        ⊎ Collision wire

    round :
        (h : ℤ) (rest : List ℤ) (prev last : Hash)
        → link_records wire cfg file' file_start (h ∷ rest) prev ≡ ok last
        → (continues wire cfg h (at_height h) prev ≡ ok tt)
          × (link_records wire cfg file' file_start rest (wire.double_hash (at_height h)) ≡ ok last)
    unfolding link_records
    round h rest prev last e =
        let (u, linked, more) = and_then-ok (continues wire cfg h (at_height h) prev) _ e in
        (linked, more)

    round_end :
        {js : List ℤ} {prev last : Hash}
        → js ≡ []
        → link_records wire cfg file' file_start js prev ≡ ok last
        → prev ≡ last
    round_end none_left e = ok_eq (unfold link_records in rw none_left at e)

    conclude :
        (start end : ℤ) (prev : Hash)
        → pos 0 ≤ℤ start
        → continues wire cfg start (at_height start) prev ≡ ok tt
        → wire.double_hash (at_height start) ≡ wire.double_hash (best start)
        → HasRecords (start +ℤ pos 1) end
        → Proven start end prev
    conclude start end prev up linked same rest =
        elim (same_input wire (at_height start) (best start) same) [
          | inr c ↦ inr c
          | inl eq ↦ inl (
            extend eq,
            λ lt.
                sym (continues_above start (at_height start) prev lt linked)
                ∙ ap prev_field eq
                ∙ ap (λ k. prev_field (best k)) (omega int_laws)
                ∙ links (start -ℤ pos 1) (omega (int_laws, lt)),
          )
        ]
      where
        extend : at_height start ≡ best start → HasRecords start end
        extend eq k lo hi = elim (Bool-cases (eqb_ℤ k start)) [
          | inl q ↦ rw (eqb_ℤ→eq k start q) eq
          | inr q ↦ rest k (above_of_ne k start lo q) hi
        ]

    records-Proven :
        (n : ℕ) (start end : ℤ) (prev : Hash)
        → span start end ≡ suc n
        → pos 0 ≤ℤ start
        → link_records wire cfg file' file_start (heights start end) prev
          ≡ ok (wire.double_hash (best end))
        → Proven start end prev
    records-Proven zero start end prev len up e =
        let (linked, rest) =
          round start (heights (start +ℤ pos 1) end) prev _
            (rw (heights_cons start end (omega (int_laws, len))) at e) in
        let at : start ≡ end = omega (int_laws, len) in
        conclude start end prev up linked
          (round_end (heights_nil (start +ℤ pos 1) end (omega (int_laws, len))) rest
            ∙ ap (λ k. wire.double_hash (best k)) (sym at))
          (λ k lo hi. absurd (omega (int_laws, len)))
    records-Proven (suc n) start end prev len up e =
        let (linked, rest) =
          round start (heights (start +ℤ pos 1) end) prev _
            (rw (heights_cons start end (omega (int_laws, len))) at e) in
        elim (records-Proven n (start +ℤ pos 1) end (wire.double_hash (at_height start))
          (omega (int_laws, len)) (omega (int_laws, up)) rest) [
            | inl (has, before) ↦
                conclude start end prev up linked
                  (before (omega (int_laws, up))
                    ∙ ap (λ k. wire.double_hash (best k)) (omega int_laws))
                  has
            | inr c ↦ inr c
          ]

  module _ {chain : Chain H} {end : ℤ} (best : BestRecords chain end) (start : ℤ) where
    -- The file of a range is the best chain's: its size, and the header at each height.
    pub record IsBest (disk : Disk) (last : Hash) : Type 0 where
      pub found : Bytes
      pub at : disk (header_file start end) ≡ some found
      pub size : length found ≡ cfg.headers_per_file * 80
      pub has_records : HasRecords found start best.header best.links start end
      pub ends : last ≡ wire.double_hash (best.header end)

    abbrev checks : Surroundings → Hash → Disk → Result Hash
    checks env running disk =
        and_then (must_read (read_file env (header_file start end) disk))
          (check_header_file wire cfg chain start end running)

    check_header_file-IsBest :
        (running : Hash) (disk : Disk) (env : Surroundings) (last : Hash)
        → pos 0 ≤ℤ start
        → start ≤ℤ end
        → checks env running disk ≡ ok last
        → IsBest disk last ⊎ Collision wire
    unfolding check_header_file
    check_header_file-IsBest running disk env last up le e =
        let (found, r, e1) =
          and_then-ok (must_read (read_file env (header_file start end) disk)) _ e in
        let (u, sized, e2) =
          and_then-ok (has_size wire cfg chain (cfg.headers_per_file * 80) found) _ e1 in
        let (end_hash, linked, e3) =
          and_then-ok (link_records wire cfg found start (heights start end) running) _ e2 in
        let (anchor, got_anchor, e4) = and_then-ok (chain.get_block_hash end) _ e3 in
        let size : length found ≡ cfg.headers_per_file * 80 = ground (arith, sized) in
        let at : disk (header_file start end) ≡ some found =
          must_read-ok (env.reads (header_file start end)) _ found r in
        let best_end : anchor ≡ wire.double_hash (best.header end) =
          ok_eq (sym got_anchor ∙ best.tip) in
        elim (Bool-cases (bytes_eq end_hash anchor)) [
          | inr q ↦ cc (rw q at e4)
          | inl q ↦
              let same : end_hash ≡ anchor = bytes_eq→eq end_hash anchor q in
              let ends : last ≡ wire.double_hash (best.header end) =
                sym (ok_eq (rw q at e4)) ∙ same ∙ best_end in
              elim (records-Proven found start best.header best.links (span (start +ℤ pos 1) end)
                start end running (omega int_laws) up (linked ∙ ap ok (same ∙ best_end))) [
                  | inr c ↦ inr c
                  | inl (has, before) ↦ inl (record {
                    found = found;
                    at = at;
                    size = size;
                    has_records = has;
                    ends = ends;
                  })
                ]
        ]

    -- The two ways behind a check that fails.
    not_passed :
        (env : Surroundings) (fix : Bool) (running : Hash) (v v' : Verifier) (last : Hash) (x : Err)
        → pos 0 ≤ℤ start
        → start ≤ℤ end
        → checks env running v.disk ≡ err x
        → verify_one_header_file wire cfg chain env fix start end running v ≡ (v', ok last)
        → v'.bad_files ≡ v.bad_files
        → IsBest v'.disk last ⊎ Collision wire
    unfolding verify_one_header_file
    not_passed env false running v v' last x up le q e none_bad = absurd (
        grew v.bad_files _
          (ap (λ p. p.0.bad_files) (rw (verify_one_header_file, q) at e) ∙ none_bad))
    not_passed env true running v v' last x up le q e none_bad =
        elim (Run-cases
          (regenerate env (header_record wire chain) (header_file start end) start end v)) [
            | inr (v1, y, r) ↦ cc (rw (verify_one_header_file, q, r) at e)
            | inl (v1, u, r) ↦
                let same : (v1, checks env running v1.disk) ≡ (v', ok last) =
                  rw (verify_one_header_file, q, r) at e in
                rw (← ap (λ p. p.0) same)
                  (check_header_file-IsBest running v1.disk env last up le (ap (λ p. p.1) same))
          ]

    -- What `verifyOneHeaderFile` does not report as bad is right: if the call returns without an
    -- error and lists no bad file, with a repair or without one, the file of the range is on the disk,
    -- has the size of a full file, and holds at every height the serialized header of the best chain
    -- that ends in the backend's block, byte for byte; the hash that it passes on is that of the last
    -- block. Otherwise two byte strings with one hash can be shown.
    pub verify_one_header_file-IsBest :
        (env : Surroundings) (fix : Bool) (running : Hash) (v : Verifier) {v' : Verifier}
        {last : Hash}
        → pos 0 ≤ℤ start
        → start ≤ℤ end
        → verify_one_header_file wire cfg chain env fix start end running v ≡ (v', ok last)
        → v'.bad_files ≡ v.bad_files
        → IsBest v'.disk last ⊎ Collision wire
    unfolding verify_one_header_file
    verify_one_header_file-IsBest env fix running v {v' = v'} {last = last} up le e none_bad =
        elim (Result-cases (checks env running v.disk)) [
          | inl (h, q) ↦
              let same : (v, ok h) ≡ (v', ok last) = rw (verify_one_header_file, q) at e in
              rw (← ap (λ p. p.0) same)
                (check_header_file-IsBest running v.disk env last up le (q ∙ ap (λ p. p.1) same))
          | inr (x, q) ↦ not_passed env fix running v v' last x up le q e none_bad
        ]
