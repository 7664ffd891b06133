-- ===== src/Verify/HeaderFiles.antt =====
-- verify.go: the walk over the header files, `verifyHeaderFiles`, and what the running server has in
-- memory behind them.
use block_dn.Common.{
  ℕ, zero, suc, ◌*◌, ◌/◌, ◌%◌, ◌-◌, ◌==◌, ◌||◌, not, Bool, true, false, List, [], ◌∷◌,
  if◌then◌else◌, length, take, drop, bytes_eq,
}
use block_dn.Common.Int.{ℤ, pos, ◌+ℤ◌, ◌-ℤ◌, eqb_ℤ, ltb_ℤ}
use block_dn.Common.Heights.{heights}
use block_dn.Common.Effect.{
  Result, ok, err, failed, unlinked, not_anchored, exhausted, M, and_then, lift, ◌>>=◌, ◌>>◌,
  continue, modify,
}
use block_dn.External.{Bytes, Hash, zero_hash, Chain, Wire}
use block_dn.Headers.{header_file, filter_header_file}
use block_dn.Verify.{
  BadFile, file, memory_headers, memory_filter_headers, Verifier, Settings, Surroundings,
  headers_route, filter_headers_route, read_file, must_read, file_exists, fetch_in_memory, file_end,
  record_at, auth_filter_header, header_record, regenerate, report, forget,
}

-- `record[4:36]`
abbrev pub prev_field : Bytes → Bytes
prev_field header = take 32 (drop 4 header)

module _ {H : Type 0} (wire : Wire H) (cfg : Settings) where
  -- Whether a record continues the chain after the block `prev`.
  unfoldable pub continues : ℤ → Bytes → Hash → Result (Unit {0})
  continues height header prev =
      if eqb_ℤ height (pos 0)
      then if bytes_eq (wire.double_hash header) cfg.genesis_hash then ok tt else err not_anchored
      else if bytes_eq (prev_field header) prev
      then ok tt
      else err unlinked

  -- The loop over the records of a file, over the heights that are left.
  unfoldable pub link_records : Bytes → ℤ → List ℤ → Hash → Result Hash
  link_records data' start [] prev = ok prev
  link_records data' start (height ∷ rest) prev =
      and_then (continues height (record_at 80 data' start height) prev)
        λ u. link_records data' start rest (wire.double_hash (record_at 80 data' start height))

  module _ (chain : Chain H) where
    abbrev pub has_size : ℕ → Bytes → Result (Unit {0})
    has_size want data' = if length data' == want then ok tt else err failed

    abbrev pub equals : Hash → Hash → Result Hash
    equals want hash = if bytes_eq hash want then ok hash else err not_anchored

    -- `verify` of `verifyOneHeaderFile`, on the file's contents: the last hash, if it passes.
    unfoldable pub check_header_file : ℤ → ℤ → Hash → Bytes → Result Hash
    check_header_file start end running data' =
        and_then (has_size (cfg.headers_per_file * 80) data') λ u.
          and_then (link_records data' start (heights start end) running)
            λ last. and_then (chain.get_block_hash end) λ anchor. equals anchor last

    -- `verify` of `verifyFilterHeaderAnchor`
    unfoldable pub check_filter_header_file : ℤ → Bytes → Result Hash
    check_filter_header_file end data' = and_then (has_size (cfg.headers_per_file * 32) data') λ u.
        and_then (auth_filter_header wire chain end)
          λ authority. equals authority (drop (length data' - 32) data')

    -- The loop of `checkMemoryHeaders`, which remembers the hash at the anchor's height.
    unfoldable pub link_memory : Bytes → ℤ → ℤ → List ℤ → Hash → Hash → Result Hash
    link_memory data' start anchor_height [] prev anchor_hash = ok anchor_hash
    link_memory data' start anchor_height (height ∷ rest) prev anchor_hash =
        let hash = wire.double_hash (record_at 80 data' start height) in
        and_then (continues height (record_at 80 data' start height) prev) λ u.
          link_memory data' start anchor_height rest hash
            (if eqb_ℤ height anchor_height then hash else anchor_hash)

    unfoldable pub check_memory_headers : Bytes → ℤ → ℤ → Hash → Result (Unit {0})
    check_memory_headers data' start end running =
        let anchor_height = end -ℤ cfg.re_org_safe_depth in
        and_then (link_memory data' start anchor_height (heights start end) running zero_hash)
          λ anchor_hash.
            if ltb_ℤ anchor_height start
            then ok tt
            else and_then (chain.get_block_hash anchor_height)
                λ anchor. and_then (equals anchor anchor_hash) λ same. ok tt

    unfoldable pub check_memory_filter_headers : Bytes → ℤ → ℤ → Result (Unit {0})
    check_memory_filter_headers data' start end =
        let anchor_height = end -ℤ cfg.re_org_safe_depth in
        if ltb_ℤ anchor_height start
        then ok tt
        else and_then (auth_filter_header wire chain anchor_height) λ authority.
          and_then (equals authority (record_at 32 data' start anchor_height)) λ same. ok tt

    module _ (env : Surroundings) (fix : Bool) where
      unfoldable pub verify_one_header_file : ℤ → ℤ → Hash → M Verifier Hash
      verify_one_header_file start end running v =
          let name = header_file start end in
          elim (and_then (must_read (read_file env name v.disk))
            (check_header_file start end running)) [
              | ok last ↦ (v, ok last)
              | err e ↦
                  if fix
                  then continue (regenerate env (header_record wire chain) name start end v)
                      (λ u v1. (
                        v1,
                        and_then (must_read (read_file env name v1.disk))
                            (check_header_file start end running),
                      ))
                  else (report (file name) v, ok running)
            ]

      unfoldable pub verify_filter_header_anchor : ℤ → ℤ → M Verifier (Unit {0})
      verify_filter_header_anchor start end v =
          let name = filter_header_file start end in
          elim (and_then (must_read (read_file env name v.disk)) (check_filter_header_file end)) [
            | ok last ↦ (v, ok tt)
            | err e ↦
                if fix
                then continue (regenerate env (auth_filter_header wire chain) name start end v)
                    (λ u v1. (
                      forget v1,
                      and_then (must_read (read_file env name v1.disk))
                          λ data'. and_then (check_filter_header_file end data') λ last. ok tt,
                    ))
                else (report (file name) v, ok tt)
          ]

      -- What is fetched from memory holds one record at least, and no part of one.
      abbrev pub whole_records : ℕ → Bytes → Result (Unit {0})
      whole_records size data' =
          if length data' == 0 || not (length data' % size == 0) then err failed else ok tt

      abbrev pub report_failed : BadFile → Result (Unit {0}) → Verifier → Verifier
      report_failed bad (ok u) v = v
      report_failed bad (err e) v = report bad v

      unfoldable pub verify_memory_headers : ℤ → Hash → M Verifier (Unit {0})
      verify_memory_headers start running = do
        header_data ← lift (fetch_in_memory env headers_route start)
        u ← lift (whole_records 80 header_data)
        let end = file_end start (length header_data / 80)
        modify (
            report_failed (memory_headers start end)
              (check_memory_headers header_data start end running))

      unfoldable pub verify_memory_filter_headers : ℤ → M Verifier (Unit {0})
      verify_memory_filter_headers start = do
        filter_data ← lift (fetch_in_memory env filter_headers_route start)
        u ← lift (whole_records 32 filter_data)
        let end = file_end start (length filter_data / 32)
        modify (
            report_failed (memory_filter_headers start end)
              (check_memory_filter_headers filter_data start end))

      unfoldable pub verify_memory_tail : ℤ → Hash → M Verifier (Unit {0})
      verify_memory_tail start running =
          verify_memory_headers start running >> verify_memory_filter_headers start

  -- The loop of `verifyHeaderFiles` on fuel, from the file that starts at `start` on; `chains` is the
  -- backend at the time when it comes to a file.
  unfoldable pub verify_header_files :
      (ℤ → Chain H) → Surroundings → Bool → ℕ → ℤ → Hash → M Verifier (Unit {0})
  verify_header_files chains env fix zero start running v = (v, err exhausted)
  verify_header_files chains env fix (suc n) start running v =
      let end = file_end start cfg.headers_per_file in
      elim (file_exists (header_file start end) v.disk) [
        | false ↦ verify_memory_tail (chains start) env fix start running v
        | true ↦
            continue (verify_one_header_file (chains start) env fix start end running v)
              λ running1 v1.
                continue (verify_filter_header_anchor (chains start) env fix start end v1) λ u v2.
                  verify_header_files chains env fix n (start +ℤ pos cfg.headers_per_file) running1
                    v2
      ]
