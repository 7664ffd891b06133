-- ===== src/Verify/HeaderWalks.antt =====
-- The walk over the header files ends: it comes to a file that is missing, since a repair writes only
-- to files that are there. A relation says what the walk does, with no fuel.
use block_dn.Common.{
  ℕ, zero, suc, ◌<◌, ◌≡◌, refl, sym, ap, ◌∙◌, inl, inr, Bool, true, false, none, Bool-cases, arith,
}
use block_dn.Common.Int.{ℤ, pos, ◌+ℤ◌, ◌≤ℤ◌, eqb_ℤ, eqb_ℤ-ne, int_laws}
use block_dn.Common.Effect.{Result, ok, err, Err, M, Run-cases}
use block_dn.External.{Hash, Chain, Wire}
use block_dn.Files.{FileName, name_eq}
use block_dn.Headers.{header_file}
use block_dn.Verify.{Verifier, Settings, Surroundings, file_end, file_exists}
use block_dn.Verify.Untouched.{at, verify_one_header_file-Keeps, verify_filter_header_anchor-Keeps}
use block_dn.Verify.HeaderFiles.{
  verify_one_header_file, verify_filter_header_anchor, verify_memory_tail, verify_header_files,
}

-- The start of the `k`-th file behind a height.
abbrev pub nth_start : ℕ → ℤ → ℕ → ℤ
nth_start per start zero = start
nth_start per start (suc k) = nth_start per (start +ℤ pos per) k

nth_start-le : (per : ℕ) (start : ℤ) (k : ℕ) → start ≤ℤ nth_start per start k
nth_start-le per start zero = omega arith
nth_start-le per start (suc k) = omega (int_laws, nth_start-le per (start +ℤ pos per) k)

-- No later file starts where a file starts.
pub nth_start-ne :
    (per : ℕ) (start : ℤ) (k : ℕ)
    → 0 < per
    → eqb_ℤ (nth_start per (start +ℤ pos per) k) start ≡ false
nth_start-ne per start k some_per =
    eqb_ℤ-ne (nth_start per (start +ℤ pos per) k) start
      (inr (omega (int_laws, nth_start-le per (start +ℤ pos per) k)))

pub missing_lem :
    (name : FileName) (v : Verifier) → at name v ≡ none → file_exists name v.disk ≡ false
missing_lem name v e = rw (e, file_exists) refl

module _ {H : Type 0} (wire : Wire H) (cfg : Settings) (env : Surroundings) (fix : Bool) where
  module _ (chains : ℤ → Chain H) where
    abbrev pub header_name : ℤ → FileName
    header_name start = header_file start (file_end start cfg.headers_per_file)

    abbrev pub one_header : ℤ → Hash → M Verifier Hash
    one_header start running =
        verify_one_header_file wire cfg (chains start) env fix start
          (file_end start cfg.headers_per_file) running

    abbrev pub one_anchor : ℤ → M Verifier (Unit {0})
    one_anchor start =
        verify_filter_header_anchor wire cfg (chains start) env fix start
          (file_end start cfg.headers_per_file)

    -- A walk over the header files from a height on: it ends at a missing file with what the
    -- server's memory gives, or at the first error; or goes on behind the file.
    pub data HeaderWalk : ℤ → Hash → Verifier → Verifier × Result (Unit {0}) → Type 0 where
      memory :
          {start : ℤ} {running : Hash} {v : Verifier} {r : Verifier × Result (Unit {0})}
          → file_exists (header_name start) v.disk ≡ false
          → r ≡ verify_memory_tail wire cfg (chains start) env fix start running v
          → HeaderWalk start running v r
      file_fails :
          {start : ℤ} {running : Hash} {v v1 : Verifier} {e : Err}
          → file_exists (header_name start) v.disk ≡ true
          → one_header start running v ≡ (v1, err e)
          → HeaderWalk start running v (v1, err e)
      anchor_fails :
          {start : ℤ} {running running1 : Hash} {v v1 v2 : Verifier} {e : Err}
          → file_exists (header_name start) v.disk ≡ true
          → one_header start running v ≡ (v1, ok running1)
          → one_anchor start v1 ≡ (v2, err e)
          → HeaderWalk start running v (v2, err e)
      next_file :
          {start : ℤ} {running running1 : Hash} {v v1 v2 : Verifier}
          {r : Verifier × Result (Unit {0})}
          → file_exists (header_name start) v.disk ≡ true
          → one_header start running v ≡ (v1, ok running1)
          → one_anchor start v1 ≡ (v2, ok tt)
          → HeaderWalk (start +ℤ pos cfg.headers_per_file) running1 v2 r
          → HeaderWalk start running v r

    -- One round of the loop, by its outcome.
    module _ (start : ℤ) (running : Hash) (v : Verifier) (n : ℕ) where
      abbrev walked : ℕ → Verifier × Result (Unit {0})
      walked n = verify_header_files wire cfg chains env fix n start running v

      memory_round :
          file_exists (header_name start) v.disk ≡ false
          → walked (suc n) ≡ verify_memory_tail wire cfg (chains start) env fix start running v
      unfolding verify_header_files
      memory_round q = rw (verify_header_files, q)

      file_round :
          {v1 : Verifier} {e : Err}
          → file_exists (header_name start) v.disk ≡ true
          → one_header start running v ≡ (v1, err e)
          → walked (suc n) ≡ (v1, err e)
      unfolding verify_header_files
      file_round q q1 = rw (verify_header_files, q, q1)

      anchor_round :
          {running1 : Hash} {v1 v2 : Verifier} {e : Err}
          → file_exists (header_name start) v.disk ≡ true
          → one_header start running v ≡ (v1, ok running1)
          → one_anchor start v1 ≡ (v2, err e)
          → walked (suc n) ≡ (v2, err e)
      unfolding verify_header_files
      anchor_round q q1 q2 = rw (verify_header_files, q, q1, q2)

      next_round :
          {running1 : Hash} {v1 v2 : Verifier}
          → file_exists (header_name start) v.disk ≡ true
          → one_header start running v ≡ (v1, ok running1)
          → one_anchor start v1 ≡ (v2, ok tt)
          → walked (suc n)
            ≡ verify_header_files wire cfg chains env fix n
                (start +ℤ pos cfg.headers_per_file)
                running1
                v2
      unfolding verify_header_files
      next_round q q1 q2 = rw (verify_header_files, q, q1, q2)

    -- A later header file is not touched by a round.
    round_at :
        (start : ℤ) (running running1 : Hash) (v v1 v2 : Verifier) (k : ℕ)
        → 0 < cfg.headers_per_file
        → one_header start running v ≡ (v1, ok running1)
        → one_anchor start v1 ≡ (v2, ok tt)
        → at (header_name (nth_start cfg.headers_per_file (start +ℤ pos cfg.headers_per_file) k)) v2
          ≡ at
              (header_name (nth_start cfg.headers_per_file (start +ℤ pos cfg.headers_per_file) k))
              v
    round_at start running running1 v v1 v2 k some_per q1 q2 =
        let later : FileName =
          header_name (nth_start cfg.headers_per_file (start +ℤ pos cfg.headers_per_file) k) in
        let apart : name_eq later (header_name start) ≡ false =
          rw (nth_start-ne cfg.headers_per_file start k some_per) refl in
        ap (λ (p : Verifier × Result (Unit {0})). at later p.0) (sym q2)
        ∙ verify_filter_header_anchor-Keeps wire cfg env (chains start) running start
            (file_end start cfg.headers_per_file) later fix refl v1
        ∙ ap (λ (p : Verifier × Result Hash). at later p.0) (sym q1)
        ∙ verify_one_header_file-Keeps wire cfg env (chains start) running start
            (file_end start cfg.headers_per_file) later fix apart v

    -- Enough fuel is one round more than there are files.
    abbrev pub Walks : ℕ → ℤ → Hash → Verifier → Type 0
    Walks k start running v =
        (r : Verifier × Result (Unit {0})) × HeaderWalk start running v r
        × ((n : ℕ) → k < n → verify_header_files wire cfg chains env fix n start running v ≡ r)

    -- What a walk does with a round's fuel, it does with any more.
    with_fuel :
        (k : ℕ) (start : ℤ) (running : Hash) (v : Verifier) {r : Verifier × Result (Unit {0})}
        → ((n : ℕ) → k < suc n → walked start running v n (suc n) ≡ r)
        → (n : ℕ) → k < n
        → verify_header_files wire cfg chains env fix n start running v ≡ r
    with_fuel k start running v round zero lt = absurd (omega arith)
    with_fuel k start running v round (suc n) lt = round n lt

    pub header_walk :
        (k : ℕ) (start : ℤ) (running : Hash) (v : Verifier)
        → 0 < cfg.headers_per_file
        → at (header_name (nth_start cfg.headers_per_file start k)) v ≡ none
        → Walks k start running v
    header_walk zero start running v some_per gone =
        let q : file_exists (header_name start) v.disk ≡ false =
          missing_lem (header_name start) v gone in
        (
          verify_memory_tail wire cfg (chains start) env fix start running v,
          memory q refl,
          with_fuel 0 start running v (λ n lt. memory_round start running v n q),
        )
    header_walk (suc k) start running v some_per gone =
        elim (Bool-cases (file_exists (header_name start) v.disk)) [
          | inr q ↦ (
            verify_memory_tail wire cfg (chains start) env fix start running v,
            memory q refl,
            with_fuel (suc k) start running v (λ n lt. memory_round start running v n q),
          )
          | inl q ↦ elim (Run-cases (one_header start running v)) [
            | inr (v1, e, q1) ↦ (
              (v1, err e),
              file_fails q q1,
              with_fuel (suc k) start running v (λ n lt. file_round start running v n q q1),
            )
            | inl (v1, running1, q1) ↦ elim (Run-cases (one_anchor start v1)) [
              | inr (v2, e, q2) ↦ (
                (v2, err e),
                anchor_fails q q1 q2,
                with_fuel (suc k) start running v (λ n lt. anchor_round start running v n q q1 q2),
              )
              | inl (v2, u, q2) ↦
                  let (r, walk, enough) =
                    header_walk k (start +ℤ pos cfg.headers_per_file) running1 v2 some_per
                      (round_at start running running1 v v1 v2 k some_per q1 q2 ∙ gone) in
                  (
                    r,
                    next_file q q1 q2 walk,
                    with_fuel (suc k) start running v (λ n lt.
                        next_round start running v n q q1 q2 ∙ enough n (omega (arith, lt))),
                  )
            ]
          ]
        ]
