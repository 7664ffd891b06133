-- ===== src/SpTweaks/Level.antt =====
-- The sizes that are announced for silent payment data.
use block_dn.Common.{
  ℕ, ◌*◌, ◌≡◌, refl, inl, inr, true, false, some, List, [], ◌∷◌, ◌++◌, length, length-append, ltb,
  leb, Bool-cases, arith,
}
use block_dn.Common.Int.{ℤ}
use block_dn.Common.Heights.{HeightMap, heights}
use block_dn.Common.Effect.{ok}
use block_dn.External.{Bytes, Wire, WireLaws}
use block_dn.Entries.{serialize_entries-size}
use block_dn.SpTweaks.{
  SpTweakEntry, count_above, tweaks_above, block_tweaks, block_tweaks_size, serialize_sp_tweaks,
  sp_tweaks_size, sp_tweak_file_header,
}

-- The count in front of a block's tweaks counts them: the two loops, one over `>` and one over
-- `<=`, select the same entries.
length-tweaks_above :
    (dust_limit : ℕ) (entries : List SpTweakEntry)
    → length (tweaks_above dust_limit entries) ≡ count_above dust_limit entries * 33
unfolding tweaks_above count_above
length-tweaks_above dust_limit [] = omega arith
length-tweaks_above dust_limit (e ∷ es) = elim (Bool-cases (ltb dust_limit e.max_value)) [
  | inl q ↦
      let p : leb e.max_value dust_limit ≡ false = ground arith in
      rw (p, q)
        (omega (
          arith,
          length-append e.tweak.bytes (tweaks_above dust_limit es),
          e.tweak.is_33,
          length-tweaks_above dust_limit es,
        ))
  | inr q ↦
      let p : leb e.max_value dust_limit ≡ true = ground arith in
      rw (p, q) (omega (arith, length-tweaks_above dust_limit es))
]

module _ {H : Type 0} (wire : Wire H) (laws : WireLaws wire) (net : ℕ) where
  length-block_tweaks :
      (dust_limit : ℕ) (entries : List SpTweakEntry)
      → length (block_tweaks wire net dust_limit entries)
        ≡ block_tweaks_size wire net dust_limit entries
  unfolding block_tweaks block_tweaks_size
  length-block_tweaks dust_limit entries = omega (
    arith,
    length-append (wire.write_var_int (count_above dust_limit entries))
        (tweaks_above dust_limit entries),
    laws.length-write_var_int (count_above dust_limit entries),
    length-tweaks_above dust_limit entries,
  )

  length-header :
      (start : ℤ) (dust_limit : ℕ) → length (sp_tweak_file_header net start dust_limit) ≡ 18
  unfolding sp_tweak_file_header
  length-header start dust_limit = refl

  -- For each dust level and range: where `spTweaksSize` announces a size, `serializeSPTweaks`
  -- succeeds and writes exactly that many bytes, its file header included.
  pub sp_tweaks-size :
      (m : HeightMap (List SpTweakEntry)) (dust_limit : ℕ) (start end : ℤ) (n : ℕ)
      → sp_tweaks_size wire net m dust_limit start end ≡ some n
      → (body : Bytes) × (serialize_sp_tweaks wire net m dust_limit start end [] ≡ (body, ok tt))
        × (length body ≡ n)
  unfolding serialize_sp_tweaks sp_tweaks_size
  sp_tweaks-size m dust_limit start end n e =
      let header = sp_tweak_file_header net start dust_limit in
      let (body, ran, size) =
        serialize_entries-size (block_tweaks wire net dust_limit)
          (block_tweaks_size wire net dust_limit) m (heights start end) 18 n header
          (length-block_tweaks dust_limit) e in
      (
        header ++ body,
        ran,
        omega (arith, size, length-append header body, length-header start dust_limit),
      )
