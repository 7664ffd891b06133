-- ===== src/CustomFilters/Order.antt =====
-- The order in which the filter files of a range are written.
use block_dn.Common.{
  ℕ, ◌≡◌, refl, sym, ap, ◌∙◌, ◌⊎◌, inl, inr, Bool, false, Bool-cases, List, [], ◌∷◌, ◌++◌, some,
  All,
}
use block_dn.Common.Int.{ℤ, pos, ◌+ℤ◌, ◌-ℤ◌}
use block_dn.Common.Heights.{HeightMap}
use block_dn.Common.Effect.{Err, Result, ok, err, M, Run-cases}
use block_dn.External.{Bytes, Hash, Wire}
use block_dn.Files.{
  FileName, Disk, Io, name_eq, put_self, create_and_write, create_and_write-ok,
  create_and_write_other,
}
use mathlib.Core.Path.{subst}
use block_dn.CustomFilters.{
  CustomFilterFiles, config_indices, custom_filter_file, custom_header_file,
}
use block_dn.CustomFilters.Building.{
  serialize_filters, serialize_filter_headers, write_filter_files, write_header_files,
  write_filter_header_files, write_filters, write_sealed_file, ends_header_file,
}

module _ {H : Type 0} (wire : Wire H) (entries_per_file headers_per_file limit : ℕ)
    (opens : FileName → Bool) (io : Io) (start end : ℤ) where
  abbrev write_all : HeightMap (List Bytes) → List ℕ → M Disk (Unit {0})
  write_all filters =
      write_filter_files wire entries_per_file headers_per_file limit opens io filters start end

  abbrev write_one : HeightMap (List Bytes) → ℕ → M Disk (Unit {0})
  write_one filters index =
      create_and_write io (custom_filter_file index start end) (
        serialize_filters wire entries_per_file headers_per_file limit opens filters index start
          end)

  -- A configuration's file has the serialization of the configuration's filters.
  abbrev pub HasConfig : HeightMap (List Bytes) → Disk → ℕ → Type 0
  HasConfig filters disk index =
      (bytes : Bytes) × (serialize_filters wire entries_per_file headers_per_file limit opens
          filters index start end []
        ≡ (bytes, ok tt))
      × (disk (custom_filter_file index start end) ≡ some bytes)

  abbrev IsApart : FileName → List ℕ → Type 0
  IsApart name indices =
      All (λ (i : ℕ). name_eq name (custom_filter_file i start end) ≡ false) indices

  abbrev AreApart : List ℕ → Type 0
  AreApart [] = Unit
  AreApart (i ∷ rest) = IsApart (custom_filter_file i start end) rest × AreApart rest

  write_all_other :
      (filters : HeightMap (List Bytes)) (indices : List ℕ) (name : FileName) (disk : Disk)
      → IsApart name indices
      → (write_all filters indices disk).0 name ≡ disk name
  unfolding write_filter_files
  write_all_other filters [] name disk _ = refl
  write_all_other filters (i ∷ rest) name disk (apart, aparts) =
      let kept =
        create_and_write_other io (custom_filter_file i start end) name
          (serialize_filters wire entries_per_file headers_per_file limit opens filters i start end)
          disk apart in
      elim (Run-cases (write_one filters i disk)) [
        | inr (d1, x, e) ↦ rw e (ap (λ (p : Disk × Result (Unit {0})). p.0 name) (sym e) ∙ kept)
        | inl (d1, u, e) ↦ rw e (
            write_all_other filters rest name d1 aparts
            ∙ ap (λ (p : Disk × Result (Unit {0})). p.0 name) (sym e)
            ∙ kept)
      ]

  -- Either the last file is as it was, or those before it are complete.
  abbrev pub IsOrdered : HeightMap (List Bytes) → List ℕ → ℕ → Disk → Disk → Type 0
  IsOrdered filters indices last before after =
      (after (custom_filter_file last start end) ≡ before (custom_filter_file last start end))
      ⊎ All (HasConfig filters after) indices

  write_all-step :
      (filters : HeightMap (List Bytes)) (i : ℕ) (rest : List ℕ) (disk d1 : Disk)
      → write_one filters i disk ≡ (d1, ok tt)
      → write_all filters (i ∷ rest) disk ≡ write_all filters rest d1
  unfolding write_filter_files
  write_all-step filters i rest disk d1 e = rw e

  write_all-fails :
      (filters : HeightMap (List Bytes)) (i : ℕ) (rest : List ℕ) (disk d1 : Disk) (x : Err)
      → write_one filters i disk ≡ (d1, err x)
      → write_all filters (i ∷ rest) disk ≡ (d1, err x)
  unfolding write_filter_files
  write_all-fails filters i rest disk d1 x e = rw e

  write_all-IsOrdered :
      (filters : HeightMap (List Bytes)) (indices : List ℕ) (last : ℕ) (disk : Disk)
      → IsApart (custom_filter_file last start end) indices
      → AreApart (indices ++ last ∷ [])
      → IsOrdered filters indices last disk (write_all filters (indices ++ last ∷ []) disk).0
  write_all-IsOrdered filters [] last disk _ _ = inr tt
  write_all-IsOrdered filters (i ∷ rest) last disk (apart, aparts) (first, others) =
      let last_file = custom_filter_file last start end in
      let kept =
        create_and_write_other io (custom_filter_file i start end) last_file
          (serialize_filters wire entries_per_file headers_per_file limit opens filters i start end)
          disk apart in
      elim (Run-cases (write_one filters i disk)) [
        | inr (d1, x, e) ↦
            subst (λ (p : Disk × Result (Unit {0})). IsOrdered filters (i ∷ rest) last disk p.0)
              (sym (write_all-fails filters i (rest ++ last ∷ []) disk d1 x e))
              (inl (ap (λ (p : Disk × Result (Unit {0})). p.0 last_file) (sym e) ∙ kept))
        | inl (d1, u, e) ↦
            let (bytes, filled, same) =
              create_and_write-ok io (custom_filter_file i start end) _ disk e in
            let there : d1 (custom_filter_file i start end) ≡ some bytes =
              ap (λ (d : Disk). d (custom_filter_file i start end)) same
              ∙ put_self (custom_filter_file i start end) bytes disk in
            let untouched = ap (λ (p : Disk × Result (Unit {0})). p.0 last_file) (sym e) ∙ kept in
            subst (λ (p : Disk × Result (Unit {0})). IsOrdered filters (i ∷ rest) last disk p.0)
              (sym (write_all-step filters i (rest ++ last ∷ []) disk d1 e))
              (extend filters i rest last disk d1 (write_all filters (rest ++ last ∷ []) d1).0
                untouched
                (
                  bytes,
                  filled,
                  write_all_other filters (rest ++ last ∷ []) (custom_filter_file i start end) d1
                        first
                      ∙ there,
                )
                (write_all-IsOrdered filters rest last d1 aparts others))
      ]
    where
      extend :
          (filters : HeightMap (List Bytes)) (i : ℕ) (rest : List ℕ) (last : ℕ)
          (disk d1 after : Disk)
          → d1 (custom_filter_file last start end) ≡ disk (custom_filter_file last start end)
          → HasConfig filters after i
          → IsOrdered filters rest last d1 after
          → IsOrdered filters (i ∷ rest) last disk after
      extend filters i rest last disk d1 after untouched has (inl unchanged) =
          inl (unchanged ∙ untouched)
      extend filters i rest last disk d1 after untouched has (inr all) = inr (has, all)

  -- Header files are no filter files.
  write_header_files_other :
      (header_rows : HeightMap (List Hash)) (first : ℤ) (indices : List ℕ) (index : ℕ) (disk : Disk)
      → (write_header_files wire entries_per_file headers_per_file limit opens io header_rows first
            end indices disk).0
          (custom_filter_file index start end)
        ≡ disk (custom_filter_file index start end)
  unfolding write_header_files
  write_header_files_other header_rows first [] index disk = refl
  write_header_files_other header_rows first (i ∷ rest) index disk =
      let name = custom_filter_file index start end in
      let fill =
        serialize_filter_headers wire entries_per_file headers_per_file limit opens header_rows i
          first end in
      let kept = create_and_write_other io (custom_header_file i first end) name fill disk refl in
      elim (Run-cases (create_and_write io (custom_header_file i first end) fill disk)) [
        | inr (d1, x, e) ↦ rw e (ap (λ (p : Disk × Result (Unit {0})). p.0 name) (sym e) ∙ kept)
        | inl (d1, u, e) ↦ rw e (
            write_header_files_other header_rows first rest index d1
            ∙ ap (λ (p : Disk × Result (Unit {0})). p.0 name) (sym e)
            ∙ kept)
      ]

  filters-IsOrdered :
      (filters : HeightMap (List Bytes)) (disk : Disk)
      → IsOrdered filters (3 ∷ 2 ∷ 1 ∷ []) 0 disk (write_all filters (3 ∷ 2 ∷ 1 ∷ 0 ∷ []) disk).0
  filters-IsOrdered filters disk =
      write_all-IsOrdered filters (3 ∷ 2 ∷ 1 ∷ []) 0 disk (refl, (refl, (refl, tt)))
        ((refl, (refl, (refl, tt))), ((refl, (refl, tt)), ((refl, tt), (tt, tt))))

  rebase :
      (filters : HeightMap (List Bytes)) (before disk after : Disk)
      → disk (custom_filter_file 0 start end) ≡ before (custom_filter_file 0 start end)
      → IsOrdered filters (3 ∷ 2 ∷ 1 ∷ []) 0 disk after
      → IsOrdered filters (3 ∷ 2 ∷ 1 ∷ []) 0 before after
  rebase filters before disk after same (inl unchanged) = inl (unchanged ∙ same)
  rebase filters before disk after same (inr all) = inr all

  abbrev headers_done : CustomFilterFiles → Disk × Result (Unit {0})
  headers_done c =
      write_header_files wire entries_per_file headers_per_file limit opens io c.filter_headers
        (end +ℤ pos 1 -ℤ pos headers_per_file) end config_indices c.disk

  untouched :
      (c : CustomFilterFiles) (d : Disk) {r : Result (Unit {0})}
      → headers_done c ≡ (d, r)
      → d (custom_filter_file 0 start end) ≡ c.disk (custom_filter_file 0 start end)
  untouched c d e =
      ap (λ (p : Disk × Result (Unit {0})). p.0 (custom_filter_file 0 start end)) (sym e)
      ∙ write_header_files_other c.filter_headers (end +ℤ pos 1 -ℤ pos headers_per_file)
          config_indices 0 c.disk

  -- However `writeSealedFile` ends, by an error of any file or without one: the filter file of the
  -- first configuration, whose directory the producer resumes from, is as it was, or the filter
  -- files of all other configurations are complete.
  pub custom_write_sealed_file-IsOrdered :
      (c : CustomFilterFiles)
      → IsOrdered c.filters
          (3 ∷ 2 ∷ 1 ∷ [])
          0
          c.disk
          (write_sealed_file wire entries_per_file headers_per_file limit opens io start end
            c).0.disk
  unfolding write_sealed_file write_filters write_filter_header_files
  custom_write_sealed_file-IsOrdered c =
      elim (Bool-cases (ends_header_file wire entries_per_file headers_per_file limit opens end)) [
        | inr q ↦ rw q (filters-IsOrdered c.filters c.disk)
        | inl q ↦ elim (Run-cases (headers_done c)) [
          | inr (d, x, e) ↦ rw (q, e) (inl (untouched c d e))
          | inl (d, u, e) ↦
              rw (q, e)
                (rebase c.filters c.disk d (write_all c.filters (3 ∷ 2 ∷ 1 ∷ 0 ∷ []) d).0
                  (untouched c d e) (filters-IsOrdered c.filters d))
        ]
      ]
