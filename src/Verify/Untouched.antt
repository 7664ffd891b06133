-- ===== src/Verify/Untouched.antt =====
-- Which files a verification leaves alone: it writes to a file only in the walk over its own kind.
use block_dn.Common.{
  ◌≡◌, refl, ap, ◌∙◌, inl, inr, Bool, true, false, Option, List, [], ◌∷◌, Bool-cases, if◌then◌else◌,
}
use block_dn.Common.Int.{ℤ}
use block_dn.Common.Heights.{heights}
use block_dn.Common.Effect.{
  Result, ok, err, Keeps, bind-Keeps, Result-cases, continue, lift, pure, M, and_then, modify,
  ◌>>=◌,
}
use block_dn.External.{Bytes, Hash, Chain, Wire}
use block_dn.Files.{FileName, Disk, name_eq}
use block_dn.Headers.{header_file, filter_header_file}
use block_dn.CFilters.{filter_file}
use block_dn.Verify.{
  BadFile, Verifier, Settings, Surroundings, regenerate, write_records, must, must_read, read_file,
  stored_filter_header, range_start, file_end, file_exists, forget, auth_filter_header,
  filter_record, header_record,
}
use block_dn.Verify.Kept.{kept, check_filter_file-Keeps, stored_filter_header-Keeps}
use block_dn.Verify.HeaderFiles.{
  check_header_file, check_filter_header_file, verify_one_header_file, verify_filter_header_anchor,
}
use block_dn.Verify.FilterFiles.{
  Diagnosis, diagnose_height, diagnose, diagnose_range, fix_filter_headers, fix_range,
  fix_filter_file, settle, filters_or_none, read_filter_file, check_filter_file,
  verify_one_filter_file,
}

-- What is on the disk under a name.
abbrev pub at : FileName → Verifier → Option Bytes
at name v = v.disk name

kept-at : {A : Type 0} (other : FileName) (m : M Verifier A) → Keeps kept m → Keeps (at other) m
kept-at other m k v = ap (λ (p : List BadFile × Disk). p.1 other) (k v)

pub regenerate-Keeps :
    (env : Surroundings) (record_of : ℤ → Result Bytes) (name other : FileName) (start end : ℤ)
    → name_eq other name ≡ false
    → Keeps (at other) (regenerate env record_of name start end)
unfolding regenerate
regenerate-Keeps env record_of name other start end apart v =
    elim (Result-cases (
      and_then (must (env.creates_temp name)) λ u.
        and_then (write_records env record_of (heights start end) []) λ out.
          and_then (must (env.closes_temp name))
            λ u'. and_then (must (env.renames name)) λ u''. ok out)) [
              | inl (out, q) ↦ rw (regenerate, q) (rw apart)
              | inr (x, q) ↦ rw (regenerate, q)
            ]

module _ {H : Type 0} (wire : Wire H) (cfg : Settings) (env : Surroundings) (chain : Chain H) where
  -- A file that is neither of the range nor a filter header file.
  module _ (other : FileName) where
    diagnose_height-Keeps :
        (filters : List Bytes) (start height : ℤ) (d : Diagnosis wire cfg env)
        → Keeps (at other) (diagnose_height wire cfg env chain filters start height d)
    unfolding diagnose_height
    diagnose_height-Keeps filters start height d =
        bind-Keeps (at other) (lift (chain.get_block_hash height)) _ (λ v. refl)
          λ hash.
            bind-Keeps (at other) (lift (chain.get_block_filter hash)) _ (λ v. refl)
              λ auth.
                bind-Keeps (at other) (lift (wire.decode_hex auth.filter)) _ (λ v. refl)
                  λ auth_filter.
                    bind-Keeps (at other) (lift (wire.hash_from_str auth.header)) _ (λ v. refl)
                      λ auth_header.
                        bind-Keeps (at other) (stored_filter_header cfg env height) _
                          (kept-at other (stored_filter_header cfg env height)
                            (stored_filter_header-Keeps cfg env height))
                          λ stored v. refl

    diagnose-Keeps :
        (filters : List Bytes) (start : ℤ) (heights : List ℤ) (d : Diagnosis wire cfg env)
        → Keeps (at other) (diagnose wire cfg env chain filters start heights d)
    unfolding diagnose
    diagnose-Keeps filters start [] d v = refl
    diagnose-Keeps filters start (height ∷ rest) d v =
        bind-Keeps (at other) (diagnose_height wire cfg env chain filters start height d)
          (diagnose wire cfg env chain filters start rest)
          (diagnose_height-Keeps filters start height d)
          (λ d1. diagnose-Keeps filters start rest d1) v

    fix_filter_headers-Keeps :
        (start : ℤ)
        → ((first last : ℤ) → name_eq other (filter_header_file first last) ≡ false)
        → Keeps (at other) (fix_filter_headers wire cfg env chain start)
    unfolding fix_filter_headers
    fix_filter_headers-Keeps start apart v =
        let first = range_start cfg env start in
        let last = file_end first cfg.headers_per_file in
        elim (Bool-cases (file_exists (filter_header_file first last) v.disk)) [
          | inl q ↦ rw q (
              bind-Keeps (at other)
                (regenerate env (auth_filter_header wire chain) (filter_header_file first last)
                  first last)
                (λ u. modify forget)
                (regenerate-Keeps env (auth_filter_header wire chain)
                  (filter_header_file first last) other first last (apart first last))
                (λ u v. refl) v)
          | inr q ↦ rw q
        ]

    module _ (start end : ℤ) (apart : name_eq other (filter_file start end) ≡ false)
        (apart_headers : (first last : ℤ)
          → name_eq other (filter_header_file first last) ≡ false) where
      fix_range-Keeps :
          (d : Diagnosis wire cfg env)
          → Keeps (at other) (fix_range wire cfg env chain (filter_file start end) start end d)
      unfolding fix_range
      fix_range-Keeps d =
          bind-Keeps (at other)
            (if d.bad_filters
              then regenerate env (filter_record wire chain) (filter_file start end) start end
              else pure tt)
            (λ u.
              if d.bad_filter_headers then fix_filter_headers wire cfg env chain start else pure tt)
            (first d.bad_filters) (λ u. second d.bad_filter_headers)
        where
          first :
              (flag : Bool)
              → Keeps (at other) (
                  if flag
                  then regenerate env (filter_record wire chain) (filter_file start end) start end
                  else pure tt)
          first true v =
              regenerate-Keeps env (filter_record wire chain) (filter_file start end) other start
                end apart v
          first false v = refl

          second :
              (flag : Bool)
              → Keeps
                  (at other)
                  (if flag then fix_filter_headers wire cfg env chain start else pure tt)
          second true v = fix_filter_headers-Keeps start apart_headers v
          second false v = refl

      check-Keeps :
          Keeps (at other) (check_filter_file wire cfg env (filter_file start end) start end)
      check-Keeps =
          kept-at other (check_filter_file wire cfg env (filter_file start end) start end)
            (check_filter_file-Keeps cfg env wire (filter_file start end) start end)

      fix_filter_file-Keeps :
          (filters : List Bytes)
          → Keeps
              (at other)
              (fix_filter_file wire cfg env chain (filter_file start end) start end filters)
      unfolding fix_filter_file diagnose_range
      fix_filter_file-Keeps filters =
          bind-Keeps (at other)
            (diagnose_range wire cfg env chain filters start end
              >>= fix_range wire cfg env chain (filter_file start end) start end)
            (λ u. check_filter_file wire cfg env (filter_file start end) start end)
            (bind-Keeps (at other) (diagnose_range wire cfg env chain filters start end)
              (fix_range wire cfg env chain (filter_file start end) start end)
              (diagnose-Keeps filters start (heights start end) _) fix_range-Keeps)
            (λ u. check-Keeps)

      pub verify_one_filter_file-Keeps :
          (fix : Bool) → Keeps (at other) (verify_one_filter_file wire cfg env chain fix start end)
      unfolding verify_one_filter_file
      verify_one_filter_file-Keeps fix v =
          settled fix
            (filters_or_none wire cfg env (read_filter_file wire cfg env (filter_file start end) v))
            (check_filter_file wire cfg env (filter_file start end) start end v)
          ∙ check-Keeps v
        where
          settled :
              (fix : Bool) (filters : List Bytes) (run : Verifier × Result (Unit {0}))
              → at other (settle wire cfg env chain fix start end filters run).0 ≡ at other run.0
          settled fix filters (v, ok u) = refl
          settled true filters (v, err e) = fix_filter_file-Keeps filters v
          settled false filters (v, err e) = refl

  -- The walk over the header files writes to header files and to filter header files.
  module _ (running : Hash) (start end : ℤ) (other : FileName) (fix : Bool) where
    pub verify_one_header_file-Keeps :
        name_eq other (header_file start end) ≡ false
        → Keeps (at other) (verify_one_header_file wire cfg chain env fix start end running)
    unfolding verify_one_header_file
    verify_one_header_file-Keeps apart v =
        let name = header_file start end in
        elim (Result-cases (
          and_then (must_read (read_file env name v.disk))
            (check_header_file wire cfg chain start end running))) [
              | inl (last, q) ↦ rw (verify_one_header_file, q)
              | inr (x, q) ↦ elim (Bool-cases fix) [
                | inr q2 ↦ rw (verify_one_header_file, q, q2)
                | inl q2 ↦
                    rw (verify_one_header_file, q, q2)
                      (repaired (regenerate env (header_record wire chain) name start end v)
                        ∙ regenerate-Keeps env (header_record wire chain) name other start end apart
                            v)
              ]
            ]
      where
        repaired :
            (run : Verifier × Result (Unit {0}))
            → at other
                (continue run (λ u v1. (
                  v1,
                  and_then
                      (must_read (read_file env (header_file start end) v1.disk))
                      (check_header_file wire cfg chain start end running),
                ))).0
              ≡ at other run.0
        repaired (v1, ok u) = refl
        repaired (v1, err e) = refl

    pub verify_filter_header_anchor-Keeps :
        name_eq other (filter_header_file start end) ≡ false
        → Keeps (at other) (verify_filter_header_anchor wire cfg chain env fix start end)
    unfolding verify_filter_header_anchor
    verify_filter_header_anchor-Keeps apart v =
        let name = filter_header_file start end in
        elim (Result-cases (
          and_then (must_read (read_file env name v.disk))
            (check_filter_header_file wire cfg chain end))) [
              | inl (last, q) ↦ rw (verify_filter_header_anchor, q)
              | inr (x, q) ↦ elim (Bool-cases fix) [
                | inr q2 ↦ rw (verify_filter_header_anchor, q, q2)
                | inl q2 ↦
                    rw (verify_filter_header_anchor, q, q2)
                      (repaired (regenerate env (auth_filter_header wire chain) name start end v)
                        ∙ regenerate-Keeps env (auth_filter_header wire chain) name other start end
                            apart v)
              ]
            ]
      where
        repaired :
            (run : Verifier × Result (Unit {0}))
            → at other
                (continue run (λ u v1. (
                  forget v1,
                  and_then
                      (must_read (read_file env (filter_header_file start end) v1.disk))
                      λ data'.
                        and_then (check_filter_header_file wire cfg chain end data') λ last. ok tt,
                ))).0
              ≡ at other run.0
        repaired (v1, ok u) = refl
        repaired (v1, err e) = refl
