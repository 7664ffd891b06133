-- ===== src/Verify/Running.antt =====
-- A verify run ends.
use block_dn.Common.{ℕ, ◌<◌, ◌≡◌, refl, sym, ap, ◌∙◌, Option, Bool, none}
use block_dn.Common.Int.{ℤ, pos}
use block_dn.Common.Effect.{Result, ok, err, Err, Keeps, bind-Keeps, lift, continue}
use block_dn.External.{Bytes, Hash, zero_hash, Chain, Wire}
use block_dn.Files.{FileName}
use block_dn.CFilters.{filter_file}
use block_dn.Verify.{
  BadFile, Verifier, Settings, Surroundings, fetch_in_memory, headers_route, filter_headers_route,
  file_end,
}
use block_dn.Verify.Untouched.{at, verify_one_header_file-Keeps, verify_filter_header_anchor-Keeps}
use block_dn.Verify.HeaderFiles.{
  verify_memory_tail, verify_memory_headers, verify_memory_filter_headers, whole_records,
  report_failed, verify_header_files,
}
use block_dn.Verify.FilterFiles.{none_bad, run_verify, verify_filter_files}
use block_dn.Verify.HeaderWalks.{
  HeaderWalk, memory, file_fails, anchor_fails, next_file, header_walk, header_name, one_header,
  one_anchor, nth_start,
}
use block_dn.Verify.FilterWalks.{FilterWalk, filter_walk, filter_name}

module _ {H : Type 0} (wire : Wire H) (cfg : Settings) (env : Surroundings) (fix : Bool)
    (chains chains' : ℤ → Chain H) where
  -- What the server has in memory is only read.
  module _ (other : FileName) (chain : Chain H) where
    reported-at :
        (bad : BadFile) (result : Result (Unit {0})) (v : Verifier)
        → at other (report_failed wire cfg chain env fix bad result v) ≡ at other v
    reported-at bad (ok u) v = refl
    reported-at bad (err e) v = refl

    memory_headers-Keeps :
        (start : ℤ) (running : Hash)
        → Keeps (at other) (verify_memory_headers wire cfg chain env fix start running)
    unfolding verify_memory_headers
    memory_headers-Keeps start running =
        bind-Keeps (at other) (lift (fetch_in_memory env headers_route start)) _ (λ v. refl)
          λ data'.
            bind-Keeps (at other) (lift (whole_records wire cfg chain env fix 80 data')) _
              (λ v. refl) λ u v. reported-at _ _ v

    memory_filter_headers-Keeps :
        (start : ℤ) → Keeps (at other) (verify_memory_filter_headers wire cfg chain env fix start)
    unfolding verify_memory_filter_headers
    memory_filter_headers-Keeps start =
        bind-Keeps (at other) (lift (fetch_in_memory env filter_headers_route start)) _ (λ v. refl)
          λ data'.
            bind-Keeps (at other) (lift (whole_records wire cfg chain env fix 32 data')) _
              (λ v. refl) λ u v. reported-at _ _ v

    verify_memory_tail-Keeps :
        (start : ℤ) (running : Hash)
        → Keeps (at other) (verify_memory_tail wire cfg chain env fix start running)
    unfolding verify_memory_tail
    verify_memory_tail-Keeps start running =
        bind-Keeps (at other) (verify_memory_headers wire cfg chain env fix start running)
          (λ u. verify_memory_filter_headers wire cfg chain env fix start)
          (memory_headers-Keeps start running) (λ u. memory_filter_headers-Keeps start)

  -- The walk over the header files leaves the filter files alone.
  module _ (first last : ℤ) where
    abbrev there : Verifier → Option Bytes
    there = at (filter_file first last)

    one_header-at :
        (start : ℤ) (running : Hash) (v v1 : Verifier) {a : Result Hash}
        → one_header wire cfg env fix chains start running v ≡ (v1, a)
        → there v1 ≡ there v
    one_header-at start running v v1 q =
        ap (λ (p : Verifier × Result Hash). there p.0) (sym q)
        ∙ verify_one_header_file-Keeps wire cfg env (chains start) running start
            (file_end start cfg.headers_per_file) (filter_file first last) fix refl v

    one_anchor-at :
        (start : ℤ) (v v1 : Verifier) {a : Result (Unit {0})}
        → one_anchor wire cfg env fix chains start v ≡ (v1, a)
        → there v1 ≡ there v
    one_anchor-at start v v1 q =
        ap (λ (p : Verifier × Result (Unit {0})). there p.0) (sym q)
        ∙ verify_filter_header_anchor-Keeps wire cfg env (chains start) zero_hash start
            (file_end start cfg.headers_per_file) (filter_file first last) fix refl v

    HeaderWalk-at :
        {start : ℤ} {running : Hash} {v : Verifier} {r : Verifier × Result (Unit {0})}
        → HeaderWalk wire cfg env fix chains start running v r
        → there r.0 ≡ there v
    HeaderWalk-at (memory {start = start} {running = running} {v = v} q e) =
        ap (λ (p : Verifier × Result (Unit {0})). there p.0) e
        ∙ verify_memory_tail-Keeps (filter_file first last) (chains start) start running v
    HeaderWalk-at (file_fails {start = start} {running = running} {v = v} {v1 = v1} q q1) =
        one_header-at start running v v1 q1
    HeaderWalk-at
          (anchor_fails {start = start} {running = running} {v = v} {v1 = v1} {v2 = v2} q q1 q2) =
        one_anchor-at start v1 v2 q2 ∙ one_header-at start running v v1 q1
    HeaderWalk-at
          (next_file {start = start} {running = running} {v = v} {v1 = v1} {v2 = v2} q q1 q2 walk) =
        HeaderWalk-at walk ∙ one_anchor-at start v1 v2 q2 ∙ one_header-at start running v v1 q1

  -- A run: the walk over the header files from height 0, and if it succeeds that over the filter
  -- files, and if that does too, whether a file is bad.
  pub data VerifyRun (v : Verifier) : Verifier × Result (Unit {0}) → Type 0 where
    headers_fail :
        {v1 : Verifier} {e : Err}
        → HeaderWalk wire cfg env fix chains (pos 0) zero_hash v (v1, err e)
        → VerifyRun v (v1, err e)
    filters_fail :
        {v1 v2 : Verifier} {e : Err}
        → HeaderWalk wire cfg env fix chains (pos 0) zero_hash v (v1, ok tt)
        → FilterWalk wire cfg env fix chains' (pos 0) v1 (v2, err e)
        → VerifyRun v (v2, err e)
    both_end :
        {v1 v2 : Verifier} {r : Verifier × Result (Unit {0})}
        → HeaderWalk wire cfg env fix chains (pos 0) zero_hash v (v1, ok tt)
        → FilterWalk wire cfg env fix chains' (pos 0) v1 (v2, ok tt)
        → r ≡ none_bad wire cfg env v2
        → VerifyRun v r

  abbrev Runs : ℕ → ℕ → Verifier → Type 0
  Runs k l v =
      (r : Verifier × Result (Unit {0})) × VerifyRun v r
      × ((n : ℕ) → k < n → l < n → run_verify wire cfg env chains chains' fix n v ≡ r)

  abbrev headers_with : ℕ → Verifier → Verifier × Result (Unit {0})
  headers_with n v = verify_header_files wire cfg chains env fix n (pos 0) zero_hash v

  abbrev filters_with : ℕ → Verifier → Verifier × Result (Unit {0})
  filters_with n v = verify_filter_files wire cfg env chains' fix n (pos 0) v

  run_headers_fail :
      (n : ℕ) (v v1 : Verifier) (e : Err)
      → headers_with n v ≡ (v1, err e)
      → run_verify wire cfg env chains chains' fix n v ≡ (v1, err e)
  unfolding run_verify
  run_headers_fail n v v1 e q = rw (run_verify, q) refl

  run_filters :
      (n : ℕ) (v v1 v2 : Verifier) (a : Result (Unit {0}))
      → headers_with n v ≡ (v1, ok tt)
      → filters_with n v1 ≡ (v2, a)
      → run_verify wire cfg env chains chains' fix n v
        ≡ continue (v2, a) (λ u. none_bad wire cfg env)
  unfolding run_verify
  run_filters n v v1 v2 a q1 q2 = rw (run_verify, q1, q2) refl

  after_filters :
      (k l : ℕ) (v v1 v2 : Verifier) (second : Result (Unit {0}))
      → HeaderWalk wire cfg env fix chains (pos 0) zero_hash v (v1, ok tt)
      → FilterWalk wire cfg env fix chains' (pos 0) v1 (v2, second)
      → ((n : ℕ) → k < n → headers_with n v ≡ (v1, ok tt))
      → ((n : ℕ) → l < n → filters_with n v1 ≡ (v2, second))
      → Runs k l v
  after_filters k l v v1 v2 (err e) walk1 walk2 enough1 enough2 = (
    (v2, err e),
    filters_fail walk1 walk2,
    λ n kn ln. run_filters n v v1 v2 (err e) (enough1 n kn) (enough2 n ln),
  )
  after_filters k l v v1 v2 (ok u) walk1 walk2 enough1 enough2 = (
    none_bad wire cfg env v2,
    both_end walk1 walk2 refl,
    λ n kn ln. run_filters n v v1 v2 (ok tt) (enough1 n kn) (enough2 n ln),
  )

  -- What the walk over the filter files adds.
  after_headers :
      (k l : ℕ) (v v1 : Verifier) (first : Result (Unit {0}))
      → 0 < cfg.filters_per_file
      → at (filter_name wire cfg env fix chains' (nth_start cfg.filters_per_file (pos 0) l)) v
        ≡ none
      → HeaderWalk wire cfg env fix chains (pos 0) zero_hash v (v1, first)
      → ((n : ℕ) → k < n → headers_with n v ≡ (v1, first))
      → Runs k l v
  after_headers k l v v1 (err e) some_filters no_filter walk1 enough1 =
      ((v1, err e), headers_fail walk1, λ n kn ln. run_headers_fail n v v1 e (enough1 n kn))
  after_headers k l v v1 (ok u) some_filters no_filter walk1 enough1 =
      let start : ℤ = nth_start cfg.filters_per_file (pos 0) l in
      let ((v2, second), walk2, enough2) =
        filter_walk wire cfg env fix chains' l (pos 0) v1 some_filters
          (HeaderWalk-at start (file_end start cfg.filters_per_file) walk1 ∙ no_filter) in
      after_filters k l v v1 v2 second walk1 walk2 enough1 enough2

  -- A verify run on a disk where the `k`-th header file and the `l`-th filter file are missing ends,
  -- with a repair or without one: there is a result to which the two walks lead, file by file, up
  -- to a missing file or an error, and with any fuel above `k` and `l` the run gives that result.
  pub run_verify-VerifyRun :
      (k l : ℕ) (v : Verifier)
      → 0 < cfg.headers_per_file
      → 0 < cfg.filters_per_file
      → at (header_name wire cfg env fix chains (nth_start cfg.headers_per_file (pos 0) k)) v ≡ none
      → at (filter_name wire cfg env fix chains' (nth_start cfg.filters_per_file (pos 0) l)) v
        ≡ none
      → (r : Verifier × Result (Unit {0})) × VerifyRun v r
        × ((n : ℕ) → k < n → l < n → run_verify wire cfg env chains chains' fix n v ≡ r)
  unfolding run_verify
  run_verify-VerifyRun k l v some_headers some_filters no_header no_filter =
      let ((v1, first), walk1, enough1) =
        header_walk wire cfg env fix chains k (pos 0) zero_hash v some_headers no_header in
      after_headers k l v v1 first some_filters no_filter walk1 enough1
