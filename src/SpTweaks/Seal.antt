-- ===== src/SpTweaks/Seal.antt =====
-- The order in which the files of a range of silent payment data are written.
use block_dn.Common.{ℕ, ◌≡◌, refl, sym, ap, ◌∙◌, ◌⊎◌, inl, inr, false, some, []}
use block_dn.Common.Int.{ℤ}
use block_dn.Common.Effect.{Result, ok, M, Run-cases}
use block_dn.External.{Bytes, Wire}
use block_dn.Files.{
  Disk, Io, name_eq, put_self, create_and_write, create_and_write-ok, create_and_write_other,
}
use block_dn.SpTweaks.{SpTweakFiles, serialize_sp_tweaks, sp_file, write_levels, write_sealed_file}

module _ {H : Type 0} (wire : Wire H) (net : ℕ) (io : Io) (start end : ℤ) (t : SpTweakFiles) where
  -- A level's file has the level's serialization.
  abbrev pub HasLevel : Disk → ℕ → Type 0
  HasLevel disk dust_limit =
      (bytes : Bytes) × (serialize_sp_tweaks wire net t.tweak_data dust_limit start end []
        ≡ (bytes, ok tt))
      × (disk (sp_file wire net dust_limit start end) ≡ some bytes)

  abbrev write_level : ℕ → M Disk (Unit {0})
  write_level dust_limit =
      create_and_write io (sp_file wire net dust_limit start end)
        (serialize_sp_tweaks wire net t.tweak_data dust_limit start end)

  written-HasLevel :
      (dust_limit : ℕ) (disk disk' : Disk)
      → write_level dust_limit disk ≡ (disk', ok tt)
      → HasLevel disk' dust_limit
  written-HasLevel dust_limit disk disk' e =
      let (bytes, filled, same) =
        create_and_write-ok io (sp_file wire net dust_limit start end) _ disk e in
      (
        bytes,
        filled,
        ap (λ (d : Disk). d (sp_file wire net dust_limit start end)) same
            ∙ put_self (sp_file wire net dust_limit start end) bytes disk,
      )

  HasLevel-other :
      (dust_limit other : ℕ) (disk disk' : Disk) {r : Result (Unit {0})}
      → name_eq (sp_file wire net other start end) (sp_file wire net dust_limit start end) ≡ false
      → write_level dust_limit disk ≡ (disk', r)
      → disk' (sp_file wire net other start end) ≡ disk (sp_file wire net other start end)
  HasLevel-other dust_limit other disk disk' apart e =
      ap (λ (p : Disk × Result (Unit {0})). p.0 (sp_file wire net other start end)) (sym e)
      ∙ create_and_write_other io (sp_file wire net dust_limit start end)
          (sp_file wire net other start end) _ disk apart

  -- The state of the disk after `writeSealedFile`: either the unfiltered level, whose directory the
  -- producer resumes from, has the file that it had before, or all other levels are complete.
  abbrev pub IsOrdered : Disk → Type 0
  IsOrdered disk =
      (disk (sp_file wire net 0 start end) ≡ t.disk (sp_file wire net 0 start end))
      ⊎ (HasLevel disk 3750 × (HasLevel disk 1000 × HasLevel disk 600))

  move :
      (dust_limit : ℕ) (disk disk' : Disk)
      → disk' (sp_file wire net dust_limit start end) ≡ disk (sp_file wire net dust_limit start end)
      → HasLevel disk dust_limit
      → HasLevel disk' dust_limit
  move dust_limit disk disk' e (bytes, filled, there) = (bytes, filled, e ∙ there)

  -- However `writeSealedFile` ends, by an error of any file or without one: the file of the
  -- unfiltered level is as it was, or the files of all other levels are complete.
  pub write_sealed_file-IsOrdered : IsOrdered (write_sealed_file wire net io start end t).0.disk
  unfolding write_sealed_file write_levels
  write_sealed_file-IsOrdered = elim (Run-cases (write_level 3750 t.disk)) [
    | inr (d1, x, e1) ↦ rw e1 (inl (HasLevel-other 3750 0 t.disk d1 refl e1))
    | inl (d1, u, e1) ↦ elim (Run-cases (write_level 1000 d1)) [
      | inr (d2, x, e2) ↦
          rw (e1, e2)
            (inl (HasLevel-other 1000 0 d1 d2 refl e2 ∙ HasLevel-other 3750 0 t.disk d1 refl e1))
      | inl (d2, u2, e2) ↦ elim (Run-cases (write_level 600 d2)) [
        | inr (d3, x, e3) ↦
            rw (e1, e2, e3)
              (inl (
                HasLevel-other 600 0 d2 d3 refl e3
                ∙ HasLevel-other 1000 0 d1 d2 refl e2
                ∙ HasLevel-other 3750 0 t.disk d1 refl e1))
        | inl (d3, u3, e3) ↦ elim (Run-cases (write_level 0 d3)) [
          | inr (d4, x, e4) ↦ rw (e1, e2, e3, e4) (inr (all d1 d2 d3 d4 e1 e2 e3 e4))
          | inl (d4, u4, e4) ↦ rw (e1, e2, e3, e4) (inr (all d1 d2 d3 d4 e1 e2 e3 e4))
        ]
      ]
    ]
  ]
    where
      all :
          (d1 d2 d3 d4 : Disk) {r : Result (Unit {0})}
          → write_level 3750 t.disk ≡ (d1, ok tt)
          → write_level 1000 d1 ≡ (d2, ok tt)
          → write_level 600 d2 ≡ (d3, ok tt)
          → write_level 0 d3 ≡ (d4, r)
          → HasLevel d4 3750 × (HasLevel d4 1000 × HasLevel d4 600)
      all d1 d2 d3 d4 e1 e2 e3 e4 = (
        move 3750 d1 d4
            (HasLevel-other 0 3750 d3 d4 refl e4
              ∙ HasLevel-other 600 3750 d2 d3 refl e3
              ∙ HasLevel-other 1000 3750 d1 d2 refl e2)
            (written-HasLevel 3750 t.disk d1 e1),
        (
          move 1000 d2 d4
              (HasLevel-other 0 1000 d3 d4 refl e4 ∙ HasLevel-other 600 1000 d2 d3 refl e3)
              (written-HasLevel 1000 d1 d2 e2),
          move 600 d3 d4 (HasLevel-other 0 600 d3 d4 refl e4) (written-HasLevel 600 d2 d3 e3),
        ),
      )
