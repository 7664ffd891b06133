-- ===== src/Verify/FilterWalks.antt =====
-- The walk over the filter files ends too.
use block_dn.Common.{
  ℕ, zero, suc, ◌<◌, ◌≡◌, refl, sym, ap, ◌∙◌, inl, inr, Bool, true, false, none, Bool-cases, arith,
}
use block_dn.Common.Int.{ℤ, pos, ◌+ℤ◌}
use block_dn.Common.Effect.{Result, ok, err, Err, M, Run-cases}
use block_dn.External.{Chain, Wire}
use block_dn.Files.{FileName, name_eq}
use block_dn.CFilters.{filter_file}
use block_dn.Verify.{Verifier, Settings, Surroundings, file_end, file_exists}
use block_dn.Verify.Untouched.{at, verify_one_filter_file-Keeps}
use block_dn.Verify.HeaderWalks.{nth_start, nth_start-ne, missing_lem}
use block_dn.Verify.FilterFiles.{verify_one_filter_file, verify_filter_files}

module _ {H : Type 0} (wire : Wire H) (cfg : Settings) (env : Surroundings) (fix : Bool)
    (chains : ℤ → Chain H) where
  abbrev pub filter_name : ℤ → FileName
  filter_name start = filter_file start (file_end start cfg.filters_per_file)

  abbrev pub one_filter : ℤ → M Verifier (Unit {0})
  one_filter start =
      verify_one_filter_file wire cfg env (chains start) fix start
        (file_end start cfg.filters_per_file)

  -- A walk over the filter files from a height on: it ends at a missing file or at the first error,
  -- or goes on behind the file.
  pub data FilterWalk : ℤ → Verifier → Verifier × Result (Unit {0}) → Type 0 where
    all_seen :
        {start : ℤ} {v : Verifier}
        → file_exists (filter_name start) v.disk ≡ false
        → FilterWalk start v (v, ok tt)
    file_fails :
        {start : ℤ} {v v1 : Verifier} {e : Err}
        → file_exists (filter_name start) v.disk ≡ true
        → one_filter start v ≡ (v1, err e)
        → FilterWalk start v (v1, err e)
    next_file :
        {start : ℤ} {v v1 : Verifier} {r : Verifier × Result (Unit {0})}
        → file_exists (filter_name start) v.disk ≡ true
        → one_filter start v ≡ (v1, ok tt)
        → FilterWalk (start +ℤ pos cfg.filters_per_file) v1 r
        → FilterWalk start v r

  abbrev walk : ℕ → ℤ → M Verifier (Unit {0})
  walk n start = verify_filter_files wire cfg env chains fix n start

  -- One round of the loop, by its outcome.
  module _ (start : ℤ) (v : Verifier) (n : ℕ) where
    last_round : file_exists (filter_name start) v.disk ≡ false → walk (suc n) start v ≡ (v, ok tt)
    unfolding verify_filter_files
    last_round q = rw (verify_filter_files, q)

    file_round :
        {v1 : Verifier} {e : Err}
        → file_exists (filter_name start) v.disk ≡ true
        → one_filter start v ≡ (v1, err e)
        → walk (suc n) start v ≡ (v1, err e)
    unfolding verify_filter_files
    file_round q q1 = rw (verify_filter_files, q, q1)

    next_round :
        {v1 : Verifier}
        → file_exists (filter_name start) v.disk ≡ true
        → one_filter start v ≡ (v1, ok tt)
        → walk (suc n) start v ≡ walk n (start +ℤ pos cfg.filters_per_file) v1
    unfolding verify_filter_files
    next_round q q1 = rw (verify_filter_files, q, q1)

  -- A later filter file is not touched by a round.
  round_at :
      (start : ℤ) (v v1 : Verifier) (k : ℕ)
      → 0 < cfg.filters_per_file
      → one_filter start v ≡ (v1, ok tt)
      → at (filter_name (nth_start cfg.filters_per_file (start +ℤ pos cfg.filters_per_file) k)) v1
        ≡ at (filter_name (nth_start cfg.filters_per_file (start +ℤ pos cfg.filters_per_file) k)) v
  round_at start v v1 k some_per q =
      let later : FileName =
        filter_name (nth_start cfg.filters_per_file (start +ℤ pos cfg.filters_per_file) k) in
      let apart : name_eq later (filter_name start) ≡ false =
        rw (nth_start-ne cfg.filters_per_file start k some_per) refl in
      ap (λ (p : Verifier × Result (Unit {0})). at later p.0) (sym q)
      ∙ verify_one_filter_file-Keeps wire cfg env (chains start) later start
          (file_end start cfg.filters_per_file) apart (λ first last. refl) fix v

  with_fuel :
      (k : ℕ) (start : ℤ) (v : Verifier) {r : Verifier × Result (Unit {0})}
      → ((n : ℕ) → k < suc n → walk (suc n) start v ≡ r)
      → (n : ℕ) → k < n
      → walk n start v ≡ r
  with_fuel k start v round zero lt = absurd (omega arith)
  with_fuel k start v round (suc n) lt = round n lt

  pub filter_walk :
      (k : ℕ) (start : ℤ) (v : Verifier)
      → 0 < cfg.filters_per_file
      → at (filter_name (nth_start cfg.filters_per_file start k)) v ≡ none
      → (r : Verifier × Result (Unit {0})) × FilterWalk start v r
        × ((n : ℕ) → k < n → walk n start v ≡ r)
  filter_walk zero start v some_per gone =
      let q : file_exists (filter_name start) v.disk ≡ false =
        missing_lem (filter_name start) v gone in
      ((v, ok tt), all_seen q, with_fuel 0 start v (λ n lt. last_round start v n q))
  filter_walk (suc k) start v some_per gone =
      elim (Bool-cases (file_exists (filter_name start) v.disk)) [
        | inr q ↦
            ((v, ok tt), all_seen q, with_fuel (suc k) start v (λ n lt. last_round start v n q))
        | inl q ↦ elim (Run-cases (one_filter start v)) [
          | inr (v1, e, q1) ↦ (
            (v1, err e),
            file_fails q q1,
            with_fuel (suc k) start v (λ n lt. file_round start v n q q1),
          )
          | inl (v1, u, q1) ↦
              let (r, rest, enough) =
                filter_walk k (start +ℤ pos cfg.filters_per_file) v1 some_per
                  (round_at start v v1 k some_per q1 ∙ gone) in
              (
                r,
                next_file q q1 rest,
                with_fuel (suc k) start v
                    (λ n lt. next_round start v n q q1 ∙ enough n (omega (arith, lt))),
              )
        ]
      ]
