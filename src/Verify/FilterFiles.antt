-- ===== src/Verify/FilterFiles.antt =====
-- verify.go: the walk over the filter files, `verifyFilterFiles`, and the whole run.
use block_dn.Common.{
  ℕ, zero, suc, ◌||◌, not, Bool, true, false, Option, none, some, List, [], ◌∷◌, if◌then◌else◌,
  get_elem?, bytes_eq,
}
use block_dn.Common.Int.{ℤ, pos, pos_part, ◌+ℤ◌, ◌-ℤ◌, ltb_ℤ}
use block_dn.Common.Heights.{heights}
use block_dn.Common.Effect.{
  Result, ok, err, failed, not_anchored, exhausted, M, pure, raise, and_then, lift, ◌>>=◌, ◌>>◌,
  modify,
}
use block_dn.External.{Bytes, Hash, zero_hash, Chain, Wire, got, eof, bad}
use block_dn.Files.{FileName}
use block_dn.Headers.{filter_header_file}
use block_dn.CFilters.{filter_file, next_header}
use block_dn.Verify.{
  file, Verifier, Settings, Surroundings, read_file, must_read, file_exists, file_end,
  auth_filter_header, filter_record, regenerate, report, forget, range_start, stored_filter_header,
}
use block_dn.Verify.HeaderFiles.{verify_header_files}

module _ {H : Type 0} (wire : Wire H) (limit : ℕ) where
  -- The loop of `readFilterFile`, with the entries that are left to read.
  unfoldable pub read_filters : ℕ → Bytes → Result (List Bytes × Bytes)
  read_filters zero reader = ok ([], reader)
  read_filters (suc n) reader = elim (wire.read_var_bytes limit reader) [
    | eof ↦ err failed
    | bad ↦ err failed
    | got filter rest ↦ and_then (read_filters n rest) λ p. ok (filter ∷ p.0, p.1)
  ]

  -- Nothing may be left.
  abbrev pub no_bytes_left : List Bytes × Bytes → Result (List Bytes)
  no_bytes_left (filters, []) = ok filters
  no_bytes_left (filters, b ∷ bs) = err failed

  unfoldable pub parse_filters : ℕ → Bytes → Result (List Bytes)
  parse_filters count reader = and_then (read_filters count reader) no_bytes_left

module _ {H : Type 0} (wire : Wire H) (cfg : Settings) (env : Surroundings) where
  -- The method `readFilterFile` of `verifier`
  unfoldable pub read_filter_file : FileName → Verifier → Result (List Bytes)
  read_filter_file name v =
      and_then (must_read (read_file env name v.disk))
        λ data'. parse_filters wire cfg.limit cfg.filters_per_file data'

  -- The loop of `checkFilterChain`
  unfoldable pub chain_filters : List Bytes → Hash → Hash
  chain_filters [] prev = prev
  chain_filters (filter ∷ filters) prev = chain_filters filters (next_header wire filter prev)

  unfoldable pub header_before : ℤ → M Verifier Hash
  header_before start =
      if ltb_ℤ (pos 0) start then stored_filter_header cfg env (start -ℤ pos 1) else pure zero_hash

  -- `if prev != want`
  abbrev pub closes_if : Bool → M Verifier (Unit {0})
  closes_if same = if same then pure tt else raise not_anchored

  unfoldable pub check_filter_chain : List Bytes → ℤ → ℤ → M Verifier (Unit {0})
  check_filter_chain filters start end = do
    prev ← header_before start
    want ← stored_filter_header cfg env end
    closes_if (bytes_eq (chain_filters filters prev) want)

  -- The filters of a file, and the check; a file that cannot be parsed fails it.
  unfoldable pub check_filter_file : FileName → ℤ → ℤ → M Verifier (Unit {0})
  check_filter_file name start end v = elim (read_filter_file name v) [
    | err e ↦ (v, err e)
    | ok filters ↦ check_filter_chain filters start end v
  ]

  -- The filters that could be read.
  abbrev pub filters_or_none : Result (List Bytes) → List Bytes
  filters_or_none (ok filters) = filters
  filters_or_none (err e) = []

  -- Which of the two stores diverges from the backend.
  pub record Diagnosis : Type 0 where
    pub bad_filters : Bool
    pub bad_filter_headers : Bool

  abbrev pub differs : Option Bytes → Bytes → Bool
  differs none auth = true
  differs (some filter) auth = not (bytes_eq filter auth)

  module _ (chain : Chain H) where
    -- One round of the loop of `diagnoseRange`.
    unfoldable pub diagnose_height : List Bytes → ℤ → ℤ → Diagnosis → M Verifier Diagnosis
    diagnose_height filters start height d = do
      hash ← lift (chain.get_block_hash height)
      auth ← lift (chain.get_block_filter hash)
      auth_filter ← lift (wire.decode_hex auth.filter)
      auth_header ← lift (wire.hash_from_str auth.header)
      stored ← stored_filter_header cfg env height
      pure (record {
        bad_filters =
            d.bad_filters || differs (get_elem? filters (pos_part (height -ℤ start))) auth_filter;
        bad_filter_headers = d.bad_filter_headers || not (bytes_eq stored auth_header);
      })

    unfoldable pub diagnose : List Bytes → ℤ → List ℤ → Diagnosis → M Verifier Diagnosis
    diagnose filters start [] d = pure d
    diagnose filters start (height ∷ rest) d =
        diagnose_height filters start height d >>= diagnose filters start rest

    unfoldable pub diagnose_range : List Bytes → ℤ → ℤ → M Verifier Diagnosis
    diagnose_range filters start end =
        diagnose filters start (heights start end)
          (record { bad_filters = false; bad_filter_headers = false })

    -- The repair of the filter headers of a range; if they are not in a file, there is none.
    unfoldable pub fix_filter_headers : ℤ → M Verifier (Unit {0})
    fix_filter_headers start v =
        let first = range_start cfg env start in
        let last = file_end first cfg.headers_per_file in
        let name = filter_header_file first last in
        if file_exists name v.disk
        then (regenerate env (auth_filter_header wire chain) name first last >> modify forget) v
        else (v, err failed)

    unfoldable pub fix_range : FileName → ℤ → ℤ → Diagnosis → M Verifier (Unit {0})
    fix_range name start end d =
        (if d.bad_filters
          then regenerate env (filter_record wire chain) name start end
          else pure tt)
        >> (if d.bad_filter_headers then fix_filter_headers start else pure tt)

    unfoldable pub fix_filter_file : FileName → ℤ → ℤ → List Bytes → M Verifier (Unit {0})
    fix_filter_file name start end filters =
        diagnose_range filters start end
        >>= fix_range name start end
        >> check_filter_file name start end

    -- What follows the first check of a file, by its outcome.
    abbrev pub settle :
        Bool → ℤ → ℤ → List Bytes → Verifier × Result (Unit {0}) → Verifier × Result (Unit {0})
    settle fix start end filters (v, ok u) = (v, ok tt)
    settle true start end filters (v, err e) =
        fix_filter_file (filter_file start end) start end filters v
    settle false start end filters (v, err e) = (report (file (filter_file start end)) v, ok tt)

    unfoldable pub verify_one_filter_file : Bool → ℤ → ℤ → M Verifier (Unit {0})
    verify_one_filter_file fix start end v =
        settle fix start end (filters_or_none (read_filter_file (filter_file start end) v))
          (check_filter_file (filter_file start end) start end v)

  -- The loop of `verifyFilterFiles` on fuel, from the file that starts at `start` on.
  unfoldable pub verify_filter_files : (ℤ → Chain H) → Bool → ℕ → ℤ → M Verifier (Unit {0})
  verify_filter_files chains fix zero start v = (v, err exhausted)
  verify_filter_files chains fix (suc n) start v =
      let end = file_end start cfg.filters_per_file in
      elim (file_exists (filter_file start end) v.disk) [
        | false ↦ (v, ok tt)
        | true ↦
            (verify_one_filter_file (chains start) fix start end
                >> verify_filter_files chains fix n (start +ℤ pos cfg.filters_per_file))
              v
      ]

  abbrev pub none_bad : M Verifier (Unit {0})
  none_bad v = elim v.bad_files [ [] ↦ (v, ok tt) | name ∷ names ↦ (v, err failed) ]

  -- `runVerify` behind its set-up: both walks, and an error if a file is bad. The two walks may see
  -- different backends.
  unfoldable pub run_verify : (ℤ → Chain H) → (ℤ → Chain H) → Bool → ℕ → M Verifier (Unit {0})
  run_verify chains chains' fix n =
      verify_header_files wire cfg chains env fix n (pos 0) zero_hash
      >> verify_filter_files chains' fix n (pos 0)
      >> none_bad
