-- ===== src/Cache/Load.antt =====
-- `loadFromHeaders` reads back what the header producer has written.
use block_dn.Common.{
  ℕ, zero, suc, ◌<◌, ◌≡◌, refl, sym, ap, ◌∙◌, inr, Option, none, some, List, [], ◌∷◌, ◌++◌, map,
  length, length-append, get_elem?, arith,
}
use block_dn.Common.Int.{ℤ, pos, ◌+ℤ◌, ◌-ℤ◌, ◌≤ℤ◌, ◌<ℤ◌, eqb_ℤ-refl, eqb_ℤ-ne, int_laws}
use block_dn.Common.Heights.{HeightMap, insert}
use block_dn.Common.Effect.{ok}
use block_dn.External.{Bytes, Hash, Wire, WireLaws}
use block_dn.Cache.{H2HCache, new_h2h_cache, load_file, load_files, load_locked, load_from_headers}
use block_dn.Cache.Invariant.{IsFree, IsBounded}
use block_dn.Entries.{concat}

module _ {H : Type 0} (wire : Wire H) where
  -- The hashes of headers at the heights from `height` on.
  unfoldable pub load_all : List H → ℤ → HeightMap Hash → HeightMap Hash
  load_all [] height m = m
  load_all (h ∷ hs) height m = load_all hs (height +ℤ pos 1) (insert height (wire.block_hash h) m)

  load_all-append :
      (hs gs : List H) (height : ℤ) (m : HeightMap Hash)
      → load_all (hs ++ gs) height m
        ≡ load_all gs (height +ℤ pos (length hs)) (load_all hs height m)
  unfolding load_all
  load_all-append [] gs height m = ap (λ k. load_all gs k m) (omega int_laws)
  load_all-append (h ∷ hs) gs height m =
      load_all-append hs gs (height +ℤ pos 1) (insert height (wire.block_hash h) m)
      ∙ ap
          (λ k. load_all gs k (load_all hs (height +ℤ pos 1) (insert height (wire.block_hash h) m)))
          (omega int_laws)

  load_all-below :
      (hs : List H) (height k : ℤ) (m : HeightMap Hash) → k <ℤ height → load_all hs height m k ≡ m k
  unfolding load_all
  load_all-below [] height k m lt = refl
  load_all-below (h ∷ hs) height k m lt =
      load_all-below hs (height +ℤ pos 1) k (insert height (wire.block_hash h) m)
        (omega (int_laws, lt))
      ∙ rw (eqb_ℤ-ne k height (omega arith))

  load_all-above :
      (hs : List H) (height k : ℤ) (m : HeightMap Hash)
      → height +ℤ pos (length hs) ≤ℤ k
      → load_all hs height m k ≡ m k
  unfolding load_all
  load_all-above [] height k m le = refl
  load_all-above (h ∷ hs) height k m le =
      load_all-above hs (height +ℤ pos 1) k (insert height (wire.block_hash h) m)
        (omega (int_laws, le))
      ∙ rw (eqb_ℤ-ne k height (inr (omega (int_laws, le))))

  load_all-at :
      (hs : List H) (height : ℤ) (i : ℕ) (h : H) (m : HeightMap Hash)
      → get_elem? hs i ≡ some h
      → load_all hs height m (height +ℤ pos i) ≡ some (wire.block_hash h)
  unfolding load_all
  load_all-at [] height i h m e = cc
  load_all-at (g ∷ hs) height zero h m e =
      ap (load_all hs (height +ℤ pos 1) (insert height (wire.block_hash g) m)) (omega int_laws)
      ∙ load_all-below hs (height +ℤ pos 1) height (insert height (wire.block_hash g) m)
          (omega int_laws)
      ∙ rw (eqb_ℤ-refl height)
          (ap (λ (o : Option H). elim o [ none ↦ none | some x ↦ some (wire.block_hash x) ]) e)
  load_all-at (g ∷ hs) height (suc i) h m e =
      ap (load_all hs (height +ℤ pos 1) (insert height (wire.block_hash g) m)) (omega int_laws)
      ∙ load_all-at hs (height +ℤ pos 1) i h (insert height (wire.block_hash g) m) e

  -- The contents of a header file.
  abbrev pub header_bytes : List H → Bytes
  header_bytes hs = concat wire.serialize hs

  unfoldable pub joined : List (List H) → List H
  joined [] = []
  joined (hs ∷ files) = hs ++ joined files

  abbrev pub opened : List (List H) → List (Option Bytes)
  opened files = map (λ hs. some (header_bytes hs)) files

  module _ (laws : WireLaws wire) where
    load_file-headers :
        (hs : List H) (n : ℕ) (height : ℤ) (c : H2HCache)
        → length (header_bytes hs) < n
        → load_file wire n (header_bytes hs) height c ≡ (
          record c { height_to_hash = load_all hs height c.height_to_hash },
          ok (height +ℤ pos (length hs)),
        )
    unfolding load_file concat load_all
    load_file-headers hs zero height c fuel = absurd (omega arith)
    load_file-headers [] (suc n) height c fuel =
        rw (load_file, concat, load_all, laws.deserialize_end)
          (ap (λ k. (c, ok k)) (omega int_laws))
    load_file-headers (h ∷ hs) (suc n) height c fuel =
        let (h', e, same) = laws.deserialize-serialize h (header_bytes hs) in
        rw (load_file, concat, load_all, e, same)
          (load_file-headers hs n (height +ℤ pos 1) _ (
              omega (
                arith,
                fuel,
                laws.length-serialize h,
                length-append (wire.serialize h) (header_bytes hs),
              ))
            ∙ ap
                (λ k. (
                  record c {
                    height_to_hash =
                        load_all hs (height +ℤ pos 1)
                          (insert height (wire.block_hash h) c.height_to_hash);
                  },
                  ok k,
                ))
                (omega int_laws))

    load_files-headers :
        (files : List (List H)) (height : ℤ) (c : H2HCache)
        → load_files wire (opened files) height c ≡ (
          record c { height_to_hash = load_all (joined files) height c.height_to_hash },
          ok (height +ℤ pos (length (joined files))),
        )
    unfolding load_files joined load_all
    load_files-headers [] height c = ap (λ k. (c, ok k)) (omega int_laws)
    load_files-headers (hs ∷ files) height c =
        rw (load_file-headers hs (suc (length (header_bytes hs))) height c (omega arith)) (
          load_files-headers files (height +ℤ pos (length hs))
            (record c { height_to_hash = load_all hs height c.height_to_hash })
          ∙ ap
              (λ m. (
                record c { height_to_hash = m },
                ok (height +ℤ pos (length hs) +ℤ pos (length (joined files))),
              ))
              (sym (load_all-append hs (joined files) height c.height_to_hash))
          ∙ ap
              (λ k. (
                record c { height_to_hash = load_all (hs ++ joined files) height c.height_to_hash },
                ok k,
              ))
              (omega (int_laws, length-append hs (joined files))))

    -- What a start from header files gives: a free lock, the bound, and the hashes of all headers.
    pub record IsLoaded (hs : List H) (c : H2HCache) : Type 0 where
      pub free : IsFree c
      pub bounded : IsBounded c
      pub best : c.best_height ≡ pos (length hs) -ℤ pos 1
      pub hashes :
          (i : ℕ) (h : H)
          → get_elem? hs i ≡ some h
          → c.height_to_hash (pos i) ≡ some (wire.block_hash h)

    -- If the header files hold serialized headers, `loadFromHeaders` on a new cache succeeds with
    -- the height of the last header, which is the best height: the hash of the `i`-th header over
    -- all files is cached at height `i`, no hash is cached above the best height, and the lock is
    -- free.
    pub load_from_headers-IsLoaded :
        (files : List (List H))
        → (c : H2HCache) × (load_from_headers wire (ok (opened files)) new_h2h_cache
            ≡ (c, ok (pos (length (joined files)) -ℤ pos 1)))
          × IsLoaded (joined files) c
    unfolding load_from_headers load_locked new_h2h_cache
    load_from_headers-IsLoaded files = (
      c1,
      rw (load_files-headers files (pos 0) _)
          (ap (λ k. (record c1 { best_height = k }, ok k)) at_end),
      record {
        free = (refl, refl);
        bounded = λ k above.
            load_all-above (joined files) (pos 0) k (λ n. none) (omega (int_laws, above));
        best = refl;
        hashes = λ i h e.
            ap (load_all (joined files) (pos 0) (λ n. none)) (omega int_laws)
            ∙ load_all-at (joined files) (pos 0) i h (λ n. none) e;
      },
    )
      where
        c1 : H2HCache
        c1 = record new_h2h_cache {
          height_to_hash = load_all (joined files) (pos 0) (λ n. none);
          best_height = pos (length (joined files)) -ℤ pos 1;
        }

        at_end :
            pos 0 +ℤ pos (length (joined files)) -ℤ pos 1 ≡ pos (length (joined files)) -ℤ pos 1
        at_end = omega int_laws
