-- ===== src/Tests/Toy.antt =====
-- A small instance of what is outside the sources: a header is its height, and hashes are its
-- bytes; block `n` has the filter of `n` bytes.
use block_dn.Common.{
  ◌++◌, ◌≡◌, if◌then◌else◌, length, leb, ap, Bool-cases, inl, inr, arith, take, drop, ◌&&◌, ◌<◌,
  ◌≤◌, ◌^◌, take-append_all, drop-append_all, length-append, ℕ, ◌+◌, ◌-◌, refl, [], ◌∷◌, replicate,
  length-replicate,
}
use block_dn.Common.Int.{ℤ, pos, negsuc}
use block_dn.Common.Effect.{Result, ok, err, rpc_failed}
use block_dn.External.{Bytes, Hash, Chain, Wire, WireLaws, Read, got, eof, bad}

abbrev pub hash_of : ℕ → Hash
hash_of n = replicate 32 n

-- A sum that tells the inputs of the tests apart.
abbrev pub sum : Bytes → ℕ
sum [] = 0
sum (b ∷ bs) = b + sum bs

abbrev pub read_header : Bytes → Read ℕ
read_header [] = eof
read_header (b ∷ bs) = got b (drop 79 bs)

abbrev pub read_number : Bytes → Read ℕ
read_number [] = eof
read_number (n ∷ bs) = got n bs

abbrev pub read_counted : ℕ → Bytes → Read Bytes
read_counted limit [] = eof
read_counted limit (n ∷ bs) =
    if leb n limit && leb n (length bs) then got (take n bs) (drop n bs) else bad

pub read_back :
    (limit : ℕ) (bs rest : Bytes)
    → limit < 2 ^ 64
    → length bs ≤ limit
    → read_counted limit (length bs ∷ bs ++ rest) ≡ got bs rest
read_back limit bs rest small fits =
    elim (Bool-cases (leb (length bs) limit && leb (length bs) (length (bs ++ rest)))) [
      | inl q ↦
          rw (q, take-append_all bs rest (length bs) refl, drop-append_all bs rest (length bs) refl)
      | inr q ↦ ground (arith, q, length-append bs rest)
    ]

abbrev pub toy_wire : Wire ℕ
toy_wire = record {
  prev_block = λ n. hash_of (n - 1);
  block_hash = hash_of;
  serialize = λ n. replicate 80 n;
  deserialize = read_header;
  double_hash = λ bs. replicate 32 (sum bs);
  write_var_int = λ n. n ∷ [];
  var_int_size = λ n. 1;
  read_var_int = read_number;
  read_var_bytes = read_counted;
  decode_hex = λ s. ok [];
  hash_from_str = λ s. ok (hash_of 0);
}

abbrev pub toy_laws : WireLaws toy_wire
toy_laws = record {
  length-double_hash = λ bs. length-replicate 32 (sum bs);
  length-serialize = λ n. length-replicate 80 n;
  length-write_var_int = λ n. refl;
  var_int_size_pos = λ n. omega arith;
  read-write_var_int = λ n rest h. refl;
  read-write_var_bytes = read_back;
  read_var_bytes_end = λ limit. refl;
  deserialize-serialize = λ h rest.
      (h, ap (got h) (drop-append_all (replicate 79 h) rest 79 (length-replicate 79 h)), refl);
  deserialize_end = refl;
}

-- The block at each height has that height's hash, up to `n`; `fork` is the offset of its hashes.
abbrev pub known : ℕ → ℤ → Result Hash
known fork (pos h) = ok (hash_of (h + fork))
known fork (negsuc h) = err rpc_failed

abbrev pub toy_chain : ℕ → Chain ℕ
toy_chain fork = record {
  get_block_count = ok (pos 3);
  get_block_hash = known fork;
  get_block_header = λ hash. ok (first hash);
  get_block_filter = λ hash. ok (record { filter = ""; header = "" });
}
  where
    first : Hash → ℕ
    first [] = 0
    first (b ∷ bs) = b
