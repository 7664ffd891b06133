-- ===== src/Files.antt =====
-- The files that the producers write. A name is what `fmt.Sprintf` makes a path from: the directory
-- and the suffix, as a kind, and the first and last height.
use block_dn.Common.{
  ℕ, [], ◌++◌, Bool, true, false, ◌&&◌, Option, some, if◌then◌else◌, Bool-cases, ◌==◌, ◌≡◌, refl,
  arith, inl, inr,
}
use block_dn.Common.Int.{ℤ, eqb_ℤ, eqb_ℤ-refl}
use block_dn.Common.Effect.{ok, err, io_failed, M, continue, Run-cases}
use block_dn.External.{Bytes}

-- The directories with their suffixes. An SP tweak directory carries its dust limit, and a custom
-- filter directory the index of its configuration.
pub data FileKind : Type 0 where
  headers filter_headers filters : FileKind
  sp_tweaks custom_filters custom_filter_headers : ℕ → FileKind

pub record FileName : Type 0 where
  pub kind : FileKind
  pub first : ℤ
  pub last : ℤ

abbrev pub kind_eq : FileKind → FileKind → Bool
kind_eq headers headers = true
kind_eq filter_headers filter_headers = true
kind_eq filters filters = true
kind_eq (sp_tweaks m) (sp_tweaks n) = m == n
kind_eq (custom_filters m) (custom_filters n) = m == n
kind_eq (custom_filter_headers m) (custom_filter_headers n) = m == n
kind_eq _ _ = false

abbrev pub name_eq : FileName → FileName → Bool
name_eq a b = kind_eq a.kind b.kind && eqb_ℤ a.first b.first && eqb_ℤ a.last b.last

-- The contents of the base directory.
abbrev pub Disk : Type 0
Disk = FileName → Option Bytes

abbrev pub put : FileName → Bytes → Disk → Disk
put name bytes disk other = if name_eq other name then some bytes else disk other

-- Whether `os.Create` and `Close` succeed for a file.
pub record Io : Type 0 where
  pub creates : FileName → Bool
  pub closes : FileName → Bool

-- The writer that a serialization fills: what was written so far.
abbrev pub write : Bytes → M Bytes (Unit {0})
write bytes out = (out ++ bytes, ok tt)

-- `createAndWrite`: the file holds what was written also if an error ends the writing.
unfoldable pub create_and_write : Io → FileName → M Bytes (Unit {0}) → M Disk (Unit {0})
create_and_write io name fill disk =
    let (bytes, r) = fill [] in
    if io.creates name
    then continue (put name bytes disk, r)
        (λ _ d. if io.closes name then (d, ok tt) else (d, err io_failed))
    else (disk, err io_failed)

kind_eq_refl : (k : FileKind) → kind_eq k k ≡ true
kind_eq_refl headers = refl
kind_eq_refl filter_headers = refl
kind_eq_refl filters = refl
kind_eq_refl (sp_tweaks n) = ground arith
kind_eq_refl (custom_filters n) = ground arith
kind_eq_refl (custom_filter_headers n) = ground arith

pub name_eq_refl : (n : FileName) → name_eq n n ≡ true
name_eq_refl n = rw (kind_eq_refl n.kind, eqb_ℤ-refl n.first, eqb_ℤ-refl n.last)

pub put_self :
    (name : FileName) (bytes : Bytes) (disk : Disk) → put name bytes disk name ≡ some bytes
put_self name bytes disk = rw (name_eq_refl name)

pub put_other :
    (name other : FileName) (bytes : Bytes) (disk : Disk)
    → name_eq other name ≡ false
    → put name bytes disk other ≡ disk other
put_other name other bytes disk h = rw h

-- A file that was written without an error holds what the serializer wrote.
pub create_and_write-ok :
    (io : Io) (name : FileName) (fill : M Bytes (Unit {0})) (disk : Disk) {disk' : Disk}
    → create_and_write io name fill disk ≡ (disk', ok tt)
    → (bytes : Bytes) × (fill [] ≡ (bytes, ok tt)) × (disk' ≡ put name bytes disk)
unfolding create_and_write
create_and_write-ok io name fill disk e = elim (Run-cases (fill [])) [
  | inl (bytes, u, q) ↦ (bytes, q, ground (arith, q))
  | inr (bytes, x, q) ↦ ground (arith, q)
]

-- `createAndWrite` changes no other file.
pub create_and_write_other :
    (io : Io) (name other : FileName) (fill : M Bytes (Unit {0})) (disk : Disk)
    → name_eq other name ≡ false
    → (create_and_write io name fill disk).0 other ≡ disk other
unfolding create_and_write
create_and_write_other io name other fill disk apart = elim (Run-cases (fill [])) [
  | inl (bytes, u, q) ↦ elim (Bool-cases (io.creates name)) [
    | inl c ↦ elim (Bool-cases (io.closes name)) [
      | inl d ↦ rw (q, c, d, apart)
      | inr d ↦ rw (q, c, d, apart)
    ]
    | inr c ↦ rw (q, c)
  ]
  | inr (bytes, x, q) ↦ elim (Bool-cases (io.creates name)) [
    | inl c ↦ rw (q, c, apart)
    | inr c ↦ rw (q, c)
  ]
]
