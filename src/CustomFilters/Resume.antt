-- ===== src/CustomFilters/Resume.antt =====
-- After a restart the filter header chains go on as if they had never been interrupted.
use block_dn.Common.{
  ℕ, zero, suc, ◌+◌, ◌-◌, ◌*◌, ◌≤◌, ◌<◌, ◌^◌, ◌==◌, ◌≡◌, refl, ap, ◌∙◌, inl, inr, Bool, true, false,
  Bool-cases, Option-cases, some, List, [], ◌∷◌, if◌then◌else◌, length, drop, All, arith,
}
use block_dn.Common.Int.{ℤ, pos, ◌+ℤ◌, ◌-ℤ◌, eqb_ℤ, int_laws, eqb_ℤ-ne}
use block_dn.Common.Effect.{Result, ok, err, failed, and_then}
use block_dn.External.{Bytes, Hash, Wire, WireLaws}
use block_dn.Files.{FileName, Disk}
use native.Mathlib.Nat.{mul-suc}
use block_dn.CustomFilters.{
  CustomFilterFiles, config_indices, custom_header_file, read_anchor, read_anchors,
  read_header_file_anchor, anchor_count, anchor_headers, resume_filter_headers, prev_filter_headers,
}
use block_dn.CustomFilters.Rebuild.{
  Uninterrupted, headers_before, HasFiles, read-found, rebuild-HasFiles,
}

module _ {H : Type 0} (wire : Wire H) (laws : WireLaws wire)
    (entries_per_file headers_per_file limit : ℕ) (opens : FileName → Bool)
    (best : Uninterrupted wire) (small : limit < 2 ^ 64) where
  -- The header file of a configuration that ends at a height can be read, has its size, and ends in
  -- the header of the chain.
  pub record HasAnchor (disk : Disk) (height : ℤ) (index : ℕ) : Type 0 where
    pub found : Bytes
    pub at :
        disk (custom_header_file index (height +ℤ pos 1 -ℤ pos headers_per_file) height)
        ≡ some found
    pub opened :
        opens (custom_header_file index (height +ℤ pos 1 -ℤ pos headers_per_file) height) ≡ true
    pub size : length found ≡ headers_per_file * 32
    pub ends : drop (length found - 32) found ≡ best.before index (height +ℤ pos 1)

  read_anchor-HasAnchor :
      (disk : Disk) (height : ℤ) (index : ℕ)
      → HasAnchor disk height index
      → read_anchor wire entries_per_file headers_per_file limit opens height disk index
        ≡ ok (best.before index (height +ℤ pos 1))
  unfolding read_anchor
  read_anchor-HasAnchor disk height index has =
      let name = custom_header_file index (height +ℤ pos 1 -ℤ pos headers_per_file) height in
      let sized : (length has.found == headers_per_file * 32) ≡ true = ground (arith, has.size) in
      ap
        (λ (r : Result Bytes). and_then r λ found.
          if length found == headers_per_file * 32
          then ok (drop (length found - 32) found)
          else err failed)
        (read-found wire laws entries_per_file headers_per_file limit opens best small name disk
          has.found has.opened has.at)
      ∙ rw (sized, has.ends)

  read_anchors-HasAnchor :
      (disk : Disk) (height : ℤ) (indices : List ℕ)
      → All (HasAnchor disk height) indices
      → read_anchors wire entries_per_file headers_per_file limit opens height disk indices
        ≡ ok (headers_before wire best (height +ℤ pos 1) indices)
  unfolding read_anchors
  read_anchors-HasAnchor disk height [] _ = refl
  read_anchors-HasAnchor disk height (index ∷ rest) (h, hs) =
      rw (read_anchor-HasAnchor disk height index h, read_anchors-HasAnchor disk height rest hs)

  -- What the disk holds below a height that is not in memory: the header files up to the last one
  -- that is complete, and behind it the filter files of `files` ranges.
  pub record IsSealed (disk : Disk) (height : ℕ) : Type 0 where
    pub files : ℕ
    pub covers :
        height
        ≡ anchor_count wire entries_per_file headers_per_file limit opens height
          + files * entries_per_file
    pub anchored :
        0 < anchor_count wire entries_per_file headers_per_file limit opens height
        → All
            (HasAnchor disk (
              pos (anchor_count wire entries_per_file headers_per_file limit opens height)
              -ℤ pos 1))
            config_indices
    pub has_files :
        HasFiles wire laws entries_per_file headers_per_file limit opens best small disk
          (pos (anchor_count wire entries_per_file headers_per_file limit opens height))
          files

  anchor_headers-best :
      (n : ℕ) (disk : Disk)
      → (0 < n → All (HasAnchor disk (pos n -ℤ pos 1)) config_indices)
      → anchor_headers wire entries_per_file headers_per_file limit opens n disk
        ≡ ok (headers_before wire best (pos n) config_indices)
  unfolding read_header_file_anchor
  anchor_headers-best zero disk has =
      rw (best.genesis 0, best.genesis 1, best.genesis 2, best.genesis 3)
  anchor_headers-best (suc n) disk has =
      read_anchors-HasAnchor disk (pos (suc n) -ℤ pos 1) config_indices (has (omega arith))
      ∙ ap (λ k. ok (headers_before wire best k config_indices)) (omega int_laws)

  le_mul : (m p : ℕ) → 0 < p → m ≤ m * p
  le_mul m zero h = absurd (omega arith)
  le_mul m (suc p) h = omega (arith, mul-suc m p)

  resume_filter_headers-IsSealed :
      (height : ℕ) (c : CustomFilterFiles)
      → 0 < entries_per_file
      → IsSealed c.disk height
      → (resume_filter_headers wire entries_per_file headers_per_file limit opens height c).1
        ≡ ok (headers_before wire best (pos height) config_indices)
  unfolding resume_filter_headers
  resume_filter_headers-IsSealed height c some_entries sealed =
      let anchor = anchor_count wire entries_per_file headers_per_file limit opens height in
      let anchored = anchor_headers-best anchor c.disk sealed.anchored in
      elim (Bool-cases (anchor == height)) [
        | inl q ↦
            rw (resume_filter_headers, anchored, q)
              (ap (λ k. ok (headers_before wire best (pos k) config_indices)) (ground (arith, q)))
        | inr q ↦
            rw (resume_filter_headers, anchored, q)
              (rebuild-HasFiles wire laws entries_per_file headers_per_file limit opens best small
                  (suc (height - anchor)) sealed.files (pos anchor) (pos height -ℤ pos 1) c
                  some_entries (omega arith)
                  (omega (arith, le_mul sealed.files entries_per_file some_entries, sealed.covers))
                  (omega (int_laws, sealed.covers)) sealed.has_files
                ∙ ap (λ k. ok (headers_before wire best k config_indices)) (omega int_laws))
      ]

  -- A restart is not noticed in the chains of filter headers: if what is in memory for the height
  -- before is the uninterrupted chains' row, and the disk holds complete header files and behind
  -- them filter files of these chains, then `prevFilterHeaders` returns the headers of all
  -- configurations that the uninterrupted chains have in front of the height, whether it takes them
  -- from memory, from the header files or computes them from the filter files.
  pub prev_filter_headers-resumes :
      (height : ℕ) (c : CustomFilterFiles)
      → 0 < entries_per_file
      → ((row : List Hash)
          → c.filter_headers (pos height -ℤ pos 1) ≡ some row
          → row ≡ headers_before wire best (pos height) config_indices)
      → IsSealed c.disk height
      → (prev_filter_headers wire entries_per_file headers_per_file limit opens (pos height) c).1
        ≡ ok (headers_before wire best (pos height) config_indices)
  unfolding prev_filter_headers
  prev_filter_headers-resumes zero c some_entries in_memory sealed =
      anchor_headers-best zero c.disk λ lt. absurd (omega arith)
  prev_filter_headers-resumes (suc h) c some_entries in_memory sealed =
      let above : eqb_ℤ (pos (suc h)) (pos 0) ≡ false =
        eqb_ℤ-ne (pos (suc h)) (pos 0) (omega int_laws) in
      elim (Option-cases (c.filter_headers (pos (suc h) -ℤ pos 1))) [
        | inl q ↦
            rw (prev_filter_headers, above, q)
              (resume_filter_headers-IsSealed (suc h) c some_entries sealed)
        | inr (headers, q) ↦ rw (prev_filter_headers, above, q) (ap ok (in_memory headers q))
      ]
