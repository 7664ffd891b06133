-- ===== src/Verify/Kept.antt =====
-- A check of filters reports nothing by itself, and leaves the disk alone.
use block_dn.Common.{refl, inl, inr, Bool, true, false, List, Bool-cases, Option-cases, bytes_eq}
use block_dn.Common.Int.{ℤ, pos, ◌-ℤ◌, eqb_ℤ, ltb_ℤ}
use block_dn.Common.Effect.{Keeps, bind-Keeps, Result-cases}
use block_dn.External.{Bytes, Wire}
use block_dn.Files.{FileName, Disk}
use block_dn.Headers.{filter_header_file}
use block_dn.Verify.{
  BadFile, Verifier, Settings, Surroundings, read_file, file_end, fetch_in_memory,
  filter_headers_route, forget, load_filter_headers, ensure_loaded, cached_entry, range_start,
  second_attempt, refresh_if, stored_filter_header,
}
use block_dn.Verify.Stored.{FileRead-cases}
use block_dn.Verify.FilterFiles.{
  read_filter_file, header_before, closes_if, check_filter_chain, check_filter_file, chain_filters,
}

abbrev pub kept : Verifier → List BadFile × Disk
kept v = (v.bad_files, v.disk)

module _ (cfg : Settings) (env : Surroundings) where
  load_filter_headers-Keeps : (start : ℤ) → Keeps kept (load_filter_headers cfg env start)
  unfolding load_filter_headers
  load_filter_headers-Keeps start v =
      elim (FileRead-cases
        (read_file env (filter_header_file start (file_end start cfg.headers_per_file)) v.disk)) [
          | inl (found, q) ↦ rw (load_filter_headers, q)
          | inr (inl q) ↦ elim (Result-cases (fetch_in_memory env filter_headers_route start)) [
            | inl (found, r) ↦ rw (load_filter_headers, q, r)
            | inr (x, r) ↦ rw (load_filter_headers, q, r)
          ]
          | inr (inr q) ↦ rw (load_filter_headers, q)
        ]

  ensure_loaded-Keeps : (start : ℤ) → Keeps kept (ensure_loaded cfg env start)
  unfolding ensure_loaded
  ensure_loaded-Keeps start v = elim (Bool-cases (eqb_ℤ v.cache_start start)) [
    | inl q ↦ rw q
    | inr q ↦ rw q (load_filter_headers-Keeps start v)
  ]

  second_attempt-Keeps : (k : ℤ) → Keeps kept (second_attempt cfg env k)
  unfolding second_attempt
  second_attempt-Keeps k =
      bind-Keeps kept (ensure_loaded cfg env (range_start cfg env k)) _
        (ensure_loaded-Keeps (range_start cfg env k))
        λ u v. elim (Option-cases (cached_entry cfg env (range_start cfg env k) k v.cache)) [
          | inl q ↦ rw q
          | inr (h, q) ↦ rw q
        ]

  refresh_if-Keeps : (from_memory : Bool) (k : ℤ) → Keeps kept (refresh_if cfg env from_memory k)
  unfolding refresh_if
  refresh_if-Keeps true k v = second_attempt-Keeps k (forget v)
  refresh_if-Keeps false k v = refl

  pub stored_filter_header-Keeps : (k : ℤ) → Keeps kept (stored_filter_header cfg env k)
  unfolding stored_filter_header
  stored_filter_header-Keeps k =
      bind-Keeps kept (ensure_loaded cfg env (range_start cfg env k)) _
        (ensure_loaded-Keeps (range_start cfg env k))
        λ u v. elim (Option-cases (cached_entry cfg env (range_start cfg env k) k v.cache)) [
          | inl q ↦ rw q (refresh_if-Keeps v.cache_from_memory k v)
          | inr (h, q) ↦ rw q
        ]

  module _ {H : Type 0} (wire : Wire H) where
    header_before-Keeps : (start : ℤ) → Keeps kept (header_before wire cfg env start)
    unfolding header_before
    header_before-Keeps start v = elim (Bool-cases (ltb_ℤ (pos 0) start)) [
      | inl q ↦ rw q (stored_filter_header-Keeps (start -ℤ pos 1) v)
      | inr q ↦ rw q
    ]

    closes_if-Keeps : (same : Bool) → Keeps kept (closes_if wire cfg env same)
    closes_if-Keeps true v = refl
    closes_if-Keeps false v = refl

    check_filter_chain-Keeps :
        (filters : List Bytes) (start end : ℤ)
        → Keeps kept (check_filter_chain wire cfg env filters start end)
    unfolding check_filter_chain
    check_filter_chain-Keeps filters start end =
        bind-Keeps kept (header_before wire cfg env start) _ (header_before-Keeps start) λ prev.
          bind-Keeps kept (stored_filter_header cfg env end) _ (stored_filter_header-Keeps end)
            λ want. closes_if-Keeps (bytes_eq (chain_filters wire cfg env filters prev) want)

    pub check_filter_file-Keeps :
        (name : FileName) (start end : ℤ)
        → Keeps kept (check_filter_file wire cfg env name start end)
    unfolding check_filter_file
    check_filter_file-Keeps name start end v =
        elim (Result-cases (read_filter_file wire cfg env name v)) [
          | inl (filters, q) ↦
              rw (kept, check_filter_file, q) (check_filter_chain-Keeps filters start end v)
          | inr (x, q) ↦ rw (kept, check_filter_file, q)
        ]
