-- ===== src/PrevOuts/RoundTrip.antt =====
-- The answer of the spenttxouts endpoint, written as its format says, is parsed back.
use block_dn.Common.{
  ℕ, zero, suc, ◌-◌, ◌*◌, ◌/◌, ◌^◌, ◌≤◌, ◌<◌, ◌≡◌, refl, sym, ap, true, false, List, [], ◌∷◌, ◌++◌,
  ltb, leb, length, take-append_all, drop-append_all, length-append, All, arith,
}
use block_dn.Common.Int.{ℤ, pos, negsuc, ◌≤ℤ◌, ◌<ℤ◌}
use block_dn.Common.Effect.{ok}
use block_dn.External.{Bytes, Wire, WireLaws, write_var_bytes}
use block_dn.SpTweaks.{TxOut, little_endian, to_uint}
use block_dn.Entries.{concat}
use block_dn.PrevOuts.{
  from_little_endian, to_int64, read_eight, parse_out, parse_outs, parse_count, parse_list,
  parse_lists, parse_spent_tx_outs,
}
use mathlib.Core.List.{append_assoc, append-nil}

from-little_endian : (w n : ℕ) → n < 256 ^ w → from_little_endian (little_endian w n) ≡ n
from-little_endian zero n h = omega arith
from-little_endian (suc w) n h =
    let below : n < 256 ^ w * 256 = omega (arith, h) in
    omega (arith, from-little_endian w (n / 256) (omega (arith, below)))

length-little_endian : (w n : ℕ) → length (little_endian w n) ≡ w
length-little_endian zero n = refl
length-little_endian (suc w) n = ap suc (length-little_endian w (n / 256))

abbrev pub IsInt64 : ℤ → Type 0
IsInt64 v = (negsuc (2 ^ 63 - 1) ≤ℤ v) × (v <ℤ pos (2 ^ 63))

to_int64-to_uint : (v : ℤ) → IsInt64 v → to_int64 (to_uint 64 v) ≡ v
to_int64-to_uint (pos n) h = ground arith
to_int64-to_uint (negsuc n) h = ground arith

to_uint-lt : (v : ℤ) → to_uint 64 v < 2 ^ 64
to_uint-lt (pos n) = omega arith
to_uint-lt (negsuc n) = omega arith

module _ {H : Type 0} (wire : Wire H) (laws : WireLaws wire) (max_count max_payload : ℕ) where
  -- The format: a value in eight bytes and the script with its length in front; counts in front of
  -- the outputs of a transaction and of the lists of a block.
  unfoldable pub encode_out : TxOut → Bytes
  encode_out o = little_endian 8 (to_uint 64 o.value) ++ write_var_bytes wire o.pk_script

  unfoldable pub encode_list : List TxOut → Bytes
  encode_list os = wire.write_var_int (length os) ++ concat encode_out os

  unfoldable pub encode_lists : List (List TxOut) → Bytes
  encode_lists ls = wire.write_var_int (length ls) ++ concat encode_list ls

  abbrev pub IsOut : TxOut → Type 0
  IsOut o = IsInt64 o.value × (length o.pk_script ≤ max_payload)

  abbrev pub IsOutList : List TxOut → Type 0
  IsOutList os = (length os ≤ max_count) × All IsOut os

  module _ (small_count : max_count < 2 ^ 64) (small_payload : max_payload < 2 ^ 64) where
    read_eight-append :
        (n : ℕ) (rest : Bytes)
        → read_eight (little_endian 8 n ++ rest) ≡ ok (little_endian 8 n, rest)
    read_eight-append n rest =
        let bytes = little_endian 8 n in
        let fits : leb 8 (length (bytes ++ rest)) ≡ true =
          ground (arith, length-append bytes rest, length-little_endian 8 n) in
        rw (
          fits,
          take-append_all bytes rest 8 (length-little_endian 8 n),
          drop-append_all bytes rest 8 (length-little_endian 8 n),
        )

    parse_out-encode :
        (o : TxOut) (rest : Bytes)
        → IsOut o
        → parse_out wire max_count max_payload (encode_out o ++ rest) ≡ ok (o, rest)
    unfolding parse_out encode_out
    parse_out-encode o rest (int, fits) = rw (
      append_assoc (little_endian 8 (to_uint 64 o.value)) (write_var_bytes wire o.pk_script) rest,
      read_eight-append (to_uint 64 o.value) (write_var_bytes wire o.pk_script ++ rest),
      laws.read-write_var_bytes max_payload o.pk_script rest small_payload fits,
      from-little_endian 8 (to_uint 64 o.value) (to_uint-lt o.value),
      to_int64-to_uint o.value int,
    )

    parse_outs-encode :
        (os : List TxOut) (rest : Bytes)
        → All IsOut os
        → parse_outs wire max_count max_payload (length os) (concat encode_out os ++ rest)
          ≡ ok (os, rest)
    unfolding parse_outs concat
    parse_outs-encode [] rest _ = refl
    parse_outs-encode (o ∷ os) rest (h, hs) = rw (
      append_assoc (encode_out o) (concat encode_out os) rest,
      parse_out-encode o (concat encode_out os ++ rest) h,
      parse_outs-encode os rest hs,
    )

    parse_count-write :
        (n : ℕ) (rest : Bytes)
        → n ≤ max_count
        → parse_count wire max_count max_payload (wire.write_var_int n ++ rest) ≡ ok (n, rest)
    unfolding parse_count
    parse_count-write n rest le =
        let under : ltb max_count n ≡ false = ground (arith, le) in
        rw (laws.read-write_var_int n rest (omega (arith, le)), under)

    parse_list-encode :
        (os : List TxOut) (rest : Bytes)
        → IsOutList os
        → parse_list wire max_count max_payload (encode_list os ++ rest) ≡ ok (os, rest)
    unfolding parse_list encode_list
    parse_list-encode os rest (le, h) =
        rw
          (
            append_assoc (wire.write_var_int (length os)) (concat encode_out os) rest,
            parse_count-write (length os) (concat encode_out os ++ rest) le,
          )
          (parse_outs-encode os rest h)

    parse_lists-encode :
        (ls : List (List TxOut)) (rest : Bytes)
        → All IsOutList ls
        → parse_lists wire max_count max_payload (length ls) (concat encode_list ls ++ rest)
          ≡ ok (ls, rest)
    unfolding parse_lists concat
    parse_lists-encode [] rest _ = refl
    parse_lists-encode (l ∷ ls) rest (h, hs) = rw (
      append_assoc (encode_list l) (concat encode_list ls) rest,
      parse_list-encode l (concat encode_list ls ++ rest) h,
      parse_lists-encode ls rest hs,
    )

    -- An answer that is written as its format says is parsed back: if no count is above the cap, no
    -- script is longer than a payload may be, both limits are below 2^64, and the values are 64-bit
    -- integers, `parseSpentTxOuts` returns exactly the lists that were written.
    pub parse_spent_tx_outs-encode :
        (ls : List (List TxOut))
        → length ls ≤ max_count
        → All IsOutList ls
        → parse_spent_tx_outs wire max_count max_payload (encode_lists ls) ≡ ok ls
    unfolding parse_spent_tx_outs encode_lists
    parse_spent_tx_outs-encode ls le h = rw (
      parse_count-write (length ls) (concat encode_list ls) le,
      sym (append-nil (concat encode_list ls)),
      parse_lists-encode ls [] h,
    )
