-- ===== src/Verify/Repair.antt =====
-- The repair of a header file succeeds.
use block_dn.Common.{
  ℕ, zero, suc, ◌*◌, ◌==◌, ◌≡◌, refl, sym, ap, ◌∙◌, inl, inr, true, [], ◌∷◌, ◌++◌, length,
  length-append, Bool-cases, take, take-append_all, drop-append_all, bytes_eq, bytes_eq→eq,
  bytes_eq_refl, arith,
}
use block_dn.Common.Int.{ℤ, pos, pos_part, ◌+ℤ◌, ◌-ℤ◌, ◌≤ℤ◌, ◌<ℤ◌, eqb_ℤ, int_laws, eqb_ℤ→eq}
use block_dn.Common.Heights.{heights, heights_from, span}
use block_dn.Common.Effect.{Result, ok, and_then, and_then-ok, Result-cases}
use block_dn.External.{Bytes, Hash, Chain, Wire}
use block_dn.Files.{FileName, put, name_eq_refl}
use block_dn.Entries.{concat}
use block_dn.Headers.{header_file}
use block_dn.Verify.{
  Verifier, Settings, Surroundings, read_file, must_read, record_at, file_end, write_records,
  header_record, regenerate,
}
use block_dn.Verify.HeaderFiles.{
  prev_field, continues, link_records, has_size, check_header_file, verify_one_header_file,
}
use mathlib.Core.List.{append_assoc, append-nil}

ok_eq : {A : Type 0} {a b : A} → ok a ≡ ok b → a ≡ b
ok_eq e = cc

-- The steps of a repair of this file all succeed, and it can be read.
pub record Works (env : Surroundings) (name : FileName) : Type 0 where
  pub reads : env.reads name ≡ true
  pub creates : env.creates_temp name ≡ true
  pub writes : (k : ℤ) → env.writes k ≡ true
  pub closes : env.closes_temp name ≡ true
  pub renames : env.renames name ≡ true

module _ {H : Type 0} (wire : Wire H) (cfg : Settings) (chain : Chain H) (best : ℤ → Bytes) where
  -- The backend serves the best chain at a height.
  pub record Serves (k : ℤ) : Type 0 where
    pub hash : Hash
    pub header : H
    pub at : chain.get_block_hash k ≡ ok hash
    pub block : chain.get_block_header hash ≡ ok header
    pub same : wire.serialize header ≡ best k
    pub hashes : hash ≡ wire.double_hash (best k)
    pub size : length (best k) ≡ 80
    pub from_genesis : k ≡ pos 0 → wire.double_hash (best k) ≡ cfg.genesis_hash
    pub links : pos 0 <ℤ k → prev_field (best k) ≡ wire.double_hash (best (k -ℤ pos 1))

  -- The hash that the walk is at in front of a height.
  abbrev pub IsBefore : ℤ → Hash → Type 0
  IsBefore k prev = pos 0 <ℤ k → prev ≡ wire.double_hash (best (k -ℤ pos 1))

  continues-Serves :
      (k : ℤ) (prev : Hash)
      → pos 0 ≤ℤ k
      → Serves k
      → IsBefore k prev
      → continues wire cfg k (best k) prev ≡ ok tt
  unfolding continues
  continues-Serves k prev up s before = elim (Bool-cases (eqb_ℤ k (pos 0))) [
    | inl q ↦ rw (q, s.from_genesis (eqb_ℤ→eq k (pos 0) q), bytes_eq_refl cfg.genesis_hash)
    | inr q ↦
        let lt : pos 0 <ℤ k = ground (arith, q, up) in
        rw (q, s.links lt, before lt, bytes_eq_refl (wire.double_hash (best (k -ℤ pos 1))))
  ]

  -- The hash after `n` heights from `h` on.
  abbrev last_hash : ℤ → ℕ → Hash → Hash
  last_hash h zero prev = prev
  last_hash h (suc n) prev = last_hash (h +ℤ pos 1) n (wire.double_hash (best h))

  last_hash-suc :
      (n : ℕ) (h : ℤ) (prev : Hash)
      → last_hash h (suc n) prev ≡ wire.double_hash (best (h +ℤ pos n))
  last_hash-suc zero h prev = ap (λ k. wire.double_hash (best k)) (omega int_laws)
  last_hash-suc (suc n) h prev =
      last_hash-suc n (h +ℤ pos 1) (wire.double_hash (best h))
      ∙ ap (λ k. wire.double_hash (best k)) (omega int_laws)

  module _ (n : ℕ) (start : ℤ)
      (serves : (k : ℤ) → start ≤ℤ k → k <ℤ start +ℤ pos n → Serves k) where
    write_records-concat :
        (env : Surroundings)
        → ((k : ℤ) → env.writes k ≡ true)
        → (m : ℕ) (h : ℤ) (out : Bytes) → start ≤ℤ h
        → h +ℤ pos m ≤ℤ start +ℤ pos n
        → write_records env (header_record wire chain) (heights_from h m) out
          ≡ ok (out ++ concat best (heights_from h m))
    unfolding write_records header_record concat heights_from
    write_records-concat env writes zero h out lo hi = ap ok (sym (append-nil out))
    write_records-concat env writes (suc m) h out lo hi =
        let s = serves h lo (omega (int_laws, hi)) in
        rw (s.at, s.block, writes h, s.same)
          (write_records-concat env writes m (h +ℤ pos 1) (out ++ best h) (omega (int_laws, lo))
              (omega (int_laws, hi))
            ∙ ap ok (append_assoc out (best h) (concat best (heights_from (h +ℤ pos 1) m))))

    length-concat :
        (m : ℕ) (h : ℤ)
        → start ≤ℤ h
        → h +ℤ pos m ≤ℤ start +ℤ pos n
        → length (concat best (heights_from h m)) ≡ m * 80
    unfolding concat heights_from
    length-concat zero h lo hi = refl
    length-concat (suc m) h lo hi =
        let s = serves h lo (omega (int_laws, hi)) in
        omega (
          arith,
          length-append (best h) (concat best (heights_from (h +ℤ pos 1) m)),
          s.size,
          length-concat m (h +ℤ pos 1) (omega (int_laws, lo)) (omega (int_laws, hi)),
        )

    record_at-next :
        (h : ℤ) (before rest : Bytes)
        → length before ≡ pos_part (h -ℤ start) * 80
        → length (best h) ≡ 80
        → record_at 80 (before ++ (best h ++ rest)) start h ≡ best h
    record_at-next h before rest len size =
        ap (take 80) (drop-append_all before (best h ++ rest) (pos_part (h -ℤ start) * 80) len)
        ∙ take-append_all (best h) rest 80 size

    link_records-concat :
        (m : ℕ) (h : ℤ) (before : Bytes) (prev : Hash)
        → pos 0 ≤ℤ start
        → start ≤ℤ h
        → h +ℤ pos m ≤ℤ start +ℤ pos n
        → length before ≡ pos_part (h -ℤ start) * 80
        → IsBefore h prev
        → link_records wire cfg
            (before ++ concat best (heights_from h m))
            start
            (heights_from h m)
            prev
          ≡ ok (last_hash h m prev)
    unfolding link_records heights_from concat
    link_records-concat zero h before prev up lo hi len is_before = refl
    link_records-concat (suc m) h before prev up lo hi len is_before =
        let s = serves h lo (omega (int_laws, hi)) in
        let rest = concat best (heights_from (h +ℤ pos 1) m) in
        let here : record_at 80 (before ++ (best h ++ rest)) start h ≡ best h =
          record_at-next h before rest len s.size in
        let hs = heights_from (h +ℤ pos 1) m in
        let next : Bytes → Unit {0} → Result Hash =
          λ data' u. link_records wire cfg data' start hs (wire.double_hash (best h)) in
        ap
          (λ r.
            and_then (continues wire cfg h r prev)
              λ u. link_records wire cfg (before ++ (best h ++ rest)) start hs (wire.double_hash r))
          here
        ∙ ap (λ c. and_then c (next (before ++ (best h ++ rest))))
            (continues-Serves h prev (omega (int_laws, up, lo)) s is_before)
        ∙ ap (λ d. next d tt) (sym (append_assoc before (best h) rest))
        ∙ link_records-concat m (h +ℤ pos 1) (before ++ best h) (wire.double_hash (best h)) up
            (omega (int_laws, lo)) (omega (int_laws, hi))
            (omega (int_laws, length-append before (best h), len, s.size, lo))
            (λ lt. ap (λ k. wire.double_hash (best k)) (omega int_laws))

  module _ (n : ℕ) (start : ℤ) (up : pos 0 ≤ℤ start) (full : cfg.headers_per_file ≡ suc n)
      (serves : (k : ℤ) → start ≤ℤ k → k <ℤ start +ℤ pos (suc n) → Serves k) where
    abbrev end : ℤ
    end = file_end start cfg.headers_per_file

    abbrev best_file : Bytes
    best_file = concat best (heights_from start (suc n))

    heights_all : heights start end ≡ heights_from start (suc n)
    unfolding heights
    heights_all =
        let rounds : span start end ≡ suc n = omega (int_laws, full) in
        ap (heights_from start) rounds

    Serves-end : Serves end
    Serves-end = serves end (omega (int_laws, full)) (omega (int_laws, full))

    -- The records of the best chain pass the check.
    check_header_file-best :
        (running : Hash)
        → IsBefore start running
        → check_header_file wire cfg chain start end running best_file
          ≡ ok (wire.double_hash (best end))
    unfolding check_header_file
    check_header_file-best running is_before =
        let len = length-concat (suc n) start serves (suc n) start (omega arith) (omega arith) in
        let sized : (length best_file == cfg.headers_per_file * 80) ≡ true =
          ground (arith, len, full) in
        let linked : link_records wire cfg best_file start (heights start end) running
            ≡ ok (wire.double_hash (best end)) =
          ap (λ hs. link_records wire cfg best_file start hs running) heights_all
          ∙ link_records-concat (suc n) start serves (suc n) start [] running up (omega arith)
              (omega arith) (omega int_laws) is_before
          ∙ ap ok (
              last_hash-suc n start running
              ∙ ap (λ k. wire.double_hash (best k)) (omega (int_laws, full))) in
        rw (
          sized,
          linked,
          Serves-end.at,
          Serves-end.hashes,
          bytes_eq_refl (wire.double_hash (best end)),
        )

    check_header_file-last :
        (running last : Hash) (data' : Bytes)
        → check_header_file wire cfg chain start end running data' ≡ ok last
        → last ≡ wire.double_hash (best end)
    unfolding check_header_file
    check_header_file-last running last data' e =
        let (u, sized, e1) =
          and_then-ok (has_size wire cfg chain (cfg.headers_per_file * 80) data') _ e in
        let (end_hash, linked, e2) =
          and_then-ok (link_records wire cfg data' start (heights start end) running) _ e1 in
        let (anchor, got_anchor, e3) = and_then-ok (chain.get_block_hash end) _ e2 in
        let best_end : anchor ≡ wire.double_hash (best end) =
          ok_eq (sym got_anchor ∙ Serves-end.at) ∙ Serves-end.hashes in
        elim (Bool-cases (bytes_eq end_hash anchor)) [
          | inr q ↦ cc (rw q at e3)
          | inl q ↦ sym (ok_eq (rw q at e3)) ∙ bytes_eq→eq end_hash anchor q ∙ best_end
        ]

    regenerate-best :
        (env : Surroundings) (v : Verifier)
        → Works env (header_file start end)
        → regenerate env (header_record wire chain) (header_file start end) start end v ≡ (
          record v {
            disk = put (header_file start end) best_file v.disk;
            fixed_files = v.fixed_files ++ header_file start end ∷ [];
          },
          ok tt,
        )
    unfolding regenerate
    regenerate-best env v works =
        let written : write_records env (header_record wire chain) (heights start end) []
            ≡ ok best_file =
          ap (λ hs. write_records env (header_record wire chain) hs []) heights_all
          ∙ write_records-concat (suc n) start serves env works.writes (suc n) start []
              (omega arith) (omega arith) in
        rw (regenerate, works.creates, written, works.closes, works.renames)

    -- With `--fix`, a header file is always brought in order: if the backend serves a linked chain
    -- of 80-byte headers over the range, the walk is at the hash of its block below the range (or
    -- the range starts with the genesis block), and the file system does not fail, then
    -- `verifyOneHeaderFile` returns the hash of the last block, and lists no bad file, whatever the
    -- file held before.
    pub verify_one_header_file-repairs :
        (env : Surroundings) (running : Hash) (v : Verifier)
        → Works env (header_file start end)
        → IsBefore start running
        → (v' : Verifier) × (verify_one_header_file wire cfg chain env true start end running v
            ≡ (v', ok (wire.double_hash (best end))))
          × (v'.bad_files ≡ v.bad_files)
    unfolding verify_one_header_file
    verify_one_header_file-repairs env running v works is_before =
        let name = header_file start end in
        elim (Result-cases (
          and_then (must_read (read_file env name v.disk))
            (check_header_file wire cfg chain start end running))) [
              | inl (h, q) ↦
                  let (data', r, passed) =
                    and_then-ok (must_read (read_file env name v.disk)) _ q in
                  (
                    v,
                    rw (verify_one_header_file, q, check_header_file-last running h data' passed),
                    refl,
                  )
              | inr (x, q) ↦ (
                record v {
                  disk = put name best_file v.disk;
                  fixed_files = v.fixed_files ++ name ∷ [];
                },
                rw
                    (
                      verify_one_header_file,
                      q,
                      regenerate-best env v works,
                      works.reads,
                      name_eq_refl name,
                    )
                    (ap
                      (λ r. (
                        record v {
                          disk = put name best_file v.disk;
                          fixed_files = v.fixed_files ++ name ∷ [];
                        },
                        r,
                      ))
                      (check_header_file-best running is_before)),
                refl,
              )
            ]
