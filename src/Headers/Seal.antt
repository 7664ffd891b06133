-- ===== src/Headers/Seal.antt =====
-- What `writeSealedFile` of the header producer leaves on disk, and the sizes that the handlers
-- announce.
use block_dn.Common.{◌≡◌, sym, ap, ◌∙◌, ◌⊎◌, inl, inr, some, List, [], length}
use block_dn.Common.Int.{ℤ, ◌≤ℤ◌, int_laws, ≤ℤ→ltb_ℤ}
use block_dn.Common.Heights.{heights, length-heights, HeightMap}
use block_dn.Common.Effect.{Result, ok, err, Err, Run-cases, Result-cases}
use block_dn.External.{Bytes, Hash, Chain, Wire, WireLaws}
use block_dn.Entries.{
  serialize_entries, Holds, Holds-cases, Holds-length, concat, length-concat,
  serialize_entries-Holds,
}
use block_dn.Files.{Io, Disk, put_self, create_and_write, create_and_write-ok}
use block_dn.Headers.{
  HeaderFiles, header_file, filter_header_file, serialize_headers, serialize_filter_headers,
  headers_size, verify_headers, write_headers, write_filter_headers, write_sealed_file,
}

module _ {V : Type 0} (encode : V → Bytes) where
  -- A serialization from the start that succeeds has had every entry.
  serialized :
      (m : HeightMap V) (js : List ℤ) {out : Bytes}
      → serialize_entries encode m js [] ≡ (out, ok tt)
      → (vs : List V) × Holds m js vs × (out ≡ concat encode vs)
  serialized m js e = elim (Holds-cases encode (λ v. length (encode v)) m js) [
    | inl (vs, h) ↦ (vs, h, ap (λ p. p.0) (sym e ∙ serialize_entries-Holds encode m js vs [] h))
    | inr (fails, nothing) ↦ cc (fails [], ap (λ p. p.1) e)
  ]

module _ {H : Type 0} (wire : Wire H) (io : Io) (chain : Chain H) (start end : ℤ)
    (h : HeaderFiles H) where
  -- Both files of the range are on disk, with one entry for each height.
  pub record HasFiles (disk : Disk) : Type 0 where
    pub header_list : List H
    pub all_headers : Holds h.headers (heights start end) header_list
    pub header_bytes : disk (header_file start end) ≡ some (concat wire.serialize header_list)
    pub filter_header_list : List Hash
    pub all_filter_headers : Holds h.filter_headers (heights start end) filter_header_list
    pub filter_header_bytes :
        disk (filter_header_file start end) ≡ some (concat (λ hash. hash) filter_header_list)

  both_written :
      (disk1 disk2 : Disk)
      → create_and_write io
          (header_file start end)
          (serialize_headers wire h.headers start end)
          h.disk
        ≡ (disk1, ok tt)
      → create_and_write io
          (filter_header_file start end)
          (serialize_filter_headers wire h.filter_headers start end)
          disk1
        ≡ (disk2, ok tt)
      → HasFiles disk2
  both_written disk1 disk2 e1 e2 =
      let (b1, f1, p1) = create_and_write-ok io (header_file start end) _ h.disk e1 in
      let (b2, f2, p2) = create_and_write-ok io (filter_header_file start end) _ disk1 e2 in
      let (hs, all, q1) =
        serialized wire.serialize h.headers (heights start end) {out = b1}
          (unfold serialize_headers in f1) in
      let (fs, all_f, q2) =
        serialized (λ hash. hash) h.filter_headers (heights start end) {out = b2}
          (unfold serialize_filter_headers in f2) in
      record {
        header_list = hs;
        all_headers = all;
        header_bytes =
            ap (λ (d : Disk). d (header_file start end)) p2
            ∙ ap (λ (d : Disk). d (header_file start end)) p1
            ∙ put_self (header_file start end) b1 h.disk
            ∙ ap some q1;
        filter_header_list = fs;
        all_filter_headers = all_f;
        filter_header_bytes =
            ap (λ (d : Disk). d (filter_header_file start end)) p2
            ∙ put_self (filter_header_file start end) b2 disk1
            ∙ ap some q2;
      }

  -- A file pair that `writeSealedFile` reports as written has passed `verifyHeaders`, and holds the
  -- serialized headers and the filter headers of exactly the heights of the range, in order.
  pub write_sealed_file-HasFiles :
      {h' : HeaderFiles H}
      → write_sealed_file wire io chain start end h ≡ (h', ok tt)
      → (verify_headers wire chain h.headers start end ≡ ok tt) × HasFiles h'.disk
  unfolding write_sealed_file write_headers write_filter_headers
  write_sealed_file-HasFiles {h' = h'} e =
      elim (Result-cases (verify_headers wire chain h.headers start end)) [
        | inl (u, v) ↦ (v, first v (Run-cases first_write))
        | inr (x, v) ↦ cc (ap (λ p. p.1) (rw v at e))
      ]
    where
      first_write : Disk × Result (Unit {0})
      first_write =
          create_and_write io (header_file start end) (serialize_headers wire h.headers start end)
            h.disk

      second_write : Disk → Disk × Result (Unit {0})
      second_write =
          create_and_write io (filter_header_file start end)
            (serialize_filter_headers wire h.filter_headers start end)

      second :
          (v : verify_headers wire chain h.headers start end ≡ ok tt) (d1 : Disk)
          → first_write ≡ (d1, ok tt)
          → ((d2 : Disk) × (u : Unit {0}) × (second_write d1 ≡ (d2, ok u)))
            ⊎ ((d2 : Disk) × (x : Err) × (second_write d1 ≡ (d2, err x)))
          → HasFiles h'.disk
      second v d1 e1 (inl (d2, u, e2)) =
          rw (← ap (λ p. p.0.disk) (simp (v, e1, e2) at e)) (both_written d1 d2 e1 e2)
      second v d1 e1 (inr (d2, x, e2)) = cc (ap (λ p. p.1) (simp (v, e1, e2) at e))

      first :
          verify_headers wire chain h.headers start end ≡ ok tt
          → ((d1 : Disk) × (u : Unit {0}) × (first_write ≡ (d1, ok u)))
            ⊎ ((d1 : Disk) × (x : Err) × (first_write ≡ (d1, err x)))
          → HasFiles h'.disk
      first v (inl (d1, u, e1)) = second v d1 e1 (Run-cases (second_write d1))
      first v (inr (d1, x, e1)) = cc (ap (λ p. p.1) (simp (v, e1) at e))

  -- Headers that do not pass leave the disk as it was.
  pub write_sealed_file_refused :
      {x : Err}
      → verify_headers wire chain h.headers start end ≡ err x
      → write_sealed_file wire io chain start end h ≡ (h, err x)
  unfolding write_sealed_file
  write_sealed_file_refused e = rw e

module _ {H : Type 0} (wire : Wire H) (laws : WireLaws wire) where
  -- If the serialization of a range of headers that is not empty succeeds, `headersSize` announces
  -- the length of what it wrote.
  pub serialize_headers-size :
      (m : HeightMap H) (start end : ℤ) {out : Bytes}
      → start ≤ℤ end
      → serialize_headers wire m start end [] ≡ (out, ok tt)
      → headers_size wire start end ≡ some (length out)
  unfolding serialize_headers headers_size
  serialize_headers-size m start end {out = out} le e =
      let (vs, h, q) = serialized wire.serialize m (heights start end) e in
      rw (≤ℤ→ltb_ℤ end start le) (
        ap some (
          omega (
            int_laws,
            ap (λ (bs : Bytes). length bs) q,
            length-concat wire.serialize 80 vs laws.length-serialize,
            Holds-length m (heights start end) vs h,
            length-heights start end,
          )))
