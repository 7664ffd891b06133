-- ===== src/Verify/Closure.antt =====
-- A filter file that passes the check holds the backend's filters.
use block_dn.Common.{
  ℕ, zero, suc, ◌<◌, ◌≡◌, refl, sym, ap, ◌∙◌, ◌⊎◌, inl, inr, false, List, [], ◌∷◌, ◌++◌, map,
  length, Bool-cases, bytes_eq, bytes_eq→eq,
}
use block_dn.Common.Int.{ℤ, pos, ◌+ℤ◌, ◌≤ℤ◌, int_laws}
use block_dn.Common.Heights.{heights_from}
use block_dn.Common.Effect.{Result, ok, and_then, and_then-ok, Result-cases, Run-cases, continue}
use block_dn.External.{Bytes, Hash, Chain, Wire, WireLaws, Collision, Read, got, eof, bad}
use block_dn.CFilters.{filter_file, next_header}
use block_dn.CFilters.Verify.{next_header-injective}
use block_dn.Files.{Disk}
use block_dn.Verify.{
  BadFile, file, Verifier, Settings, Surroundings, read_file, must_read, file_end,
  stored_filter_header, report,
}
use block_dn.Verify.Records.{grew}
use block_dn.Verify.Kept.{check_filter_file-Keeps}
use block_dn.Verify.Stored.{
  Commitments, IsServed, AreStored, Looked, Looked-trans, stored_filter_header-Answers,
  header_before-best,
}
use block_dn.Verify.FilterFiles.{
  read_filters, no_bytes_left, parse_filters, read_filter_file, chain_filters, header_before,
  closes_if, filters_or_none, settle, check_filter_chain, check_filter_file, verify_one_filter_file,
}

ok_eq : {A : Type 0} {a b : A} → ok a ≡ ok b → a ≡ b
ok_eq e = cc

Read-cases :
    {A : Type 0} (r : Read A)
    → ((a : A) × (rest : Bytes) × (r ≡ got a rest)) ⊎ (r ≡ eof) ⊎ (r ≡ bad)
Read-cases (got a rest) = inl (a, rest, refl)
Read-cases eof = inr (inl refl)
Read-cases bad = inr (inr refl)

module _ {H : Type 0} (wire : Wire H) (laws : WireLaws wire) (best : Commitments wire) where
  -- A chain of filters that ends in the backend's filter header is the backend's.
  chain_filters-best :
      (filters : List Bytes) (start : ℤ) (prev : Hash) (cfg : Settings) (env : Surroundings)
      → pos 0 ≤ℤ start
      → chain_filters wire cfg env filters prev ≡ best.before (start +ℤ pos (length filters))
      → ((filters ≡ map best.filter (heights_from start (length filters)))
          × (prev ≡ best.before start))
        ⊎ Collision wire
  unfolding chain_filters heights_from
  chain_filters-best [] start prev cfg env up e = inl (refl, e ∙ ap best.before (omega int_laws))
  chain_filters-best (f ∷ fs) start prev cfg env up e =
      elim (chain_filters-best fs (start +ℤ pos 1) (next_header wire f prev) cfg env
        (omega (int_laws, up)) (e ∙ ap best.before (omega int_laws))) [
          | inr c ↦ inr c
          | inl (rest, link) ↦
              elim (next_header-injective wire laws f (best.filter start) prev (best.before start)
                (link ∙ best.commits start up)) [
                  | inr c ↦ inr c
                  | inl (same, p) ↦ inl (rw (← same, ← rest) refl, p)
                ]
        ]

  length-read_filters :
      (limit n : ℕ) (reader rest : Bytes) (filters : List Bytes)
      → read_filters wire limit n reader ≡ ok (filters, rest)
      → length filters ≡ n
  unfolding read_filters
  length-read_filters limit zero reader rest filters e =
      ap (λ (p : List Bytes × Bytes). length p.0) (sym (ok_eq e))
  length-read_filters limit (suc n) reader rest filters e =
      elim (Read-cases (wire.read_var_bytes limit reader)) [
        | inl (f, r, q) ↦
            let (p, e1, e2) =
              and_then-ok (read_filters wire limit n r) _ (rw (read_filters, q) at e) in
            ap (λ (p : List Bytes × Bytes). length p.0) (sym (ok_eq e2))
            ∙ ap suc (length-read_filters limit n r p.1 p.0 e1)
        | inr (inl q) ↦ cc (rw (read_filters, q) at e)
        | inr (inr q) ↦ cc (rw (read_filters, q) at e)
      ]

  -- The filters of a file are as many as there should be.
  length-parse_filters :
      (limit n : ℕ) (reader : Bytes) (filters : List Bytes)
      → parse_filters wire limit n reader ≡ ok filters
      → length filters ≡ n
  unfolding parse_filters
  length-parse_filters limit n reader filters e =
      let (p, e1, e2) = and_then-ok (read_filters wire limit n reader) _ e in
      ap length (sym (no_bytes_left-ok p.0 p.1 filters e2))
      ∙ length-read_filters limit n reader p.1 p.0 e1
    where
      no_bytes_left-ok :
          (fs : List Bytes) (rest : Bytes) (filters : List Bytes)
          → no_bytes_left wire limit (fs, rest) ≡ ok filters
          → fs ≡ filters
      no_bytes_left-ok fs [] filters e = ok_eq e
      no_bytes_left-ok fs (b ∷ bs) filters e = cc

  module _ (cfg : Settings) (env : Surroundings) (served : IsServed wire best cfg env) where
    -- The stored filter headers that a check compares with.
    check_filter_chain-best :
        (filters : List Bytes) (start end : ℤ) (v v' : Verifier)
        → pos 0 ≤ℤ start
        → start ≤ℤ end
        → AreStored wire best cfg env v
        → check_filter_chain wire cfg env filters start end v ≡ (v', ok tt)
        → Looked wire best cfg env v v'
          × (chain_filters wire cfg env filters (best.before start) ≡ best.before (end +ℤ pos 1))
    unfolding check_filter_chain
    check_filter_chain-best filters start end v v' up le stored e =
        elim (Run-cases (header_before wire cfg env start v)) [
          | inr (v1, x, r) ↦ cc (rw r at e)
          | inl (v1, prev, r) ↦
              let (looked, is_prev) =
                header_before-best wire best cfg env served start v v1 prev up stored r in
              let e1 : continue (stored_filter_header cfg env end v1) (λ want.
                closes_if wire cfg env (bytes_eq (chain_filters wire cfg env filters prev) want))
                  ≡ (v', ok tt) =
                rw r at e in
              elim (Run-cases (stored_filter_header cfg env end v1)) [
                | inr (v2, x, r2) ↦ cc (rw (continue, r2) at e1)
                | inl (v2, want, r2) ↦
                    let (looked2, is_want) =
                      stored_filter_header-Answers wire best cfg env served end v1 v2 want
                        (omega (int_laws, up, le)) looked.stored r2 in
                    let e2 : closes_if wire cfg env
                          (bytes_eq (chain_filters wire cfg env filters prev) want) v2
                        ≡ (v', ok tt) =
                      rw r2 at e1 in
                    elim (Bool-cases (bytes_eq (chain_filters wire cfg env filters prev) want)) [
                      | inr q ↦ cc (rw q at e2)
                      | inl q ↦ (
                        rw (← ap (λ (p : Verifier × Result (Unit {0})). p.0) (rw q at e2))
                            (Looked-trans wire best cfg env v v1 v2 looked looked2),
                        ap (chain_filters wire cfg env filters) (sym is_prev)
                            ∙ bytes_eq→eq (chain_filters wire cfg env filters prev) want q
                            ∙ is_want,
                      )
                    ]
              ]
        ]

    check_filter_file-AreBest :
        (start : ℤ) (v v' : Verifier)
        → pos 0 ≤ℤ start
        → 0 < cfg.filters_per_file
        → AreStored wire best cfg env v
        → check_filter_file wire cfg env
            (filter_file start (file_end start cfg.filters_per_file))
            start
            (file_end start cfg.filters_per_file)
            v
          ≡ (v', ok tt)
        → (read_filter_file wire cfg env
              (filter_file start (file_end start cfg.filters_per_file))
              v'
            ≡ ok (map best.filter (heights_from start cfg.filters_per_file)))
          ⊎ Collision wire
    unfolding check_filter_file read_filter_file
    check_filter_file-AreBest start v v' up some_filters stored e =
        let end = file_end start cfg.filters_per_file in
        let name = filter_file start end in
        elim (Result-cases (read_filter_file wire cfg env name v)) [
          | inr (x, q) ↦ cc (rw (check_filter_file, q) at e)
          | inl (filters, q) ↦
              let (looked, closed) =
                check_filter_chain-best filters start end v v' up (omega (int_laws, some_filters))
                  stored (rw (check_filter_file, q) at e) in
              let (found, r, parsed) = and_then-ok (must_read (read_file env name v.disk)) _ q in
              let count =
                length-parse_filters cfg.limit cfg.filters_per_file found filters parsed in
              elim (chain_filters-best filters start (best.before start) cfg env up
                (closed ∙ ap best.before (omega (int_laws, count)))) [
                  | inr c ↦ inr c
                  | inl (are, p) ↦ inl (
                      ap
                        (λ d.
                          and_then (must_read (read_file env name d))
                            (parse_filters wire cfg.limit cfg.filters_per_file))
                        looked.same_disk
                      ∙ q
                      ∙ ap ok are
                      ∙ ap (λ n. ok (map best.filter (heights_from start n))) count)
                ]
        ]

    -- A filter file that `verifyOneFilterFile` does not report is right: if the filter headers that
    -- are cached, in the files and in the server's memory are the backend's, and a check without
    -- `--fix` returns no error and lists no bad file, then the file of the range, as it is read back,
    -- has exactly the filters of the backend at its heights. Otherwise two byte strings with one
    -- hash can be shown.
    pub verify_one_filter_file-AreBest :
        (chain : Chain H) (start : ℤ) (v : Verifier) {v' : Verifier}
        → pos 0 ≤ℤ start
        → 0 < cfg.filters_per_file
        → AreStored wire best cfg env v
        → verify_one_filter_file wire cfg env chain false start
            (file_end start cfg.filters_per_file)
            v
          ≡ (v', ok tt)
        → v'.bad_files ≡ v.bad_files
        → (read_filter_file wire cfg env
              (filter_file start (file_end start cfg.filters_per_file))
              v'
            ≡ ok (map best.filter (heights_from start cfg.filters_per_file)))
          ⊎ Collision wire
    unfolding verify_one_filter_file check_filter_file
    verify_one_filter_file-AreBest chain start v {v' = v'} up some_filters stored e none_bad =
        let end = file_end start cfg.filters_per_file in
        let name = filter_file start end in
        let filters : List Bytes =
          filters_or_none wire cfg env (read_filter_file wire cfg env name v) in
        let e1 : settle wire cfg env chain false start end filters
              (check_filter_file wire cfg env name start end v)
            ≡ (v', ok tt) =
          e in
        elim (Run-cases (check_filter_file wire cfg env name start end v)) [
          | inr (v1, x, r) ↦
              let same : report (file name) v1 ≡ v' =
                ap (λ (p : Verifier × Result (Unit {0})). p.0) (rw r at e1) in
              absurd (
                grew v.bad_files _ (
                  ap (λ b. b ++ file name ∷ [])
                    (sym (
                        ap (λ (p : List BadFile × Disk). p.0)
                          (check_filter_file-Keeps cfg env wire name start end v))
                      ∙ ap (λ p. p.0.bad_files) r)
                  ∙ ap (λ w. w.bad_files) same
                  ∙ none_bad))
          | inl (v1, u, r) ↦
              let same : v1 ≡ v' = ap (λ (p : Verifier × Result (Unit {0})). p.0) (rw r at e1) in
              rw (← same) (check_filter_file-AreBest start v v1 up some_filters stored r)
        ]
