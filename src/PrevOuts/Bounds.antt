-- ===== src/PrevOuts/Bounds.antt =====
-- A parsed answer keeps the caps.
use block_dn.Common.{
  ℕ, zero, suc, ◌≤◌, ◌≡◌, refl, sym, ap, ◌∙◌, inl, inr, List, [], ◌∷◌, ltb, length, All, Bool-cases,
  arith,
}
use block_dn.Common.Effect.{ok, and_then-ok}
use block_dn.External.{Bytes, Wire}
use block_dn.SpTweaks.{TxOut}
use block_dn.PrevOuts.{
  parse_out, parse_outs, parse_count, parse_list, parse_lists, parse_spent_tx_outs, from_read,
  no_trailing,
}

ok_eq : {A : Type 0} {a b : A} → ok a ≡ ok b → a ≡ b
ok_eq e = cc

module _ {H : Type 0} (wire : Wire H) (max_count max_payload : ℕ) where
  length-parse_outs :
      (n : ℕ) (r rest : Bytes) (os : List TxOut)
      → parse_outs wire max_count max_payload n r ≡ ok (os, rest)
      → length os ≡ n
  unfolding parse_outs
  length-parse_outs zero r rest os e = ap (λ (p : List TxOut × Bytes). length p.0) (sym (ok_eq e))
  length-parse_outs (suc n) r rest os e =
      let (p, e1, e2) = and_then-ok (parse_out wire max_count max_payload r) _ e in
      let (q, e3, e4) = and_then-ok (parse_outs wire max_count max_payload n p.1) _ e2 in
      ap (λ (p : List TxOut × Bytes). length p.0) (sym (ok_eq e4))
      ∙ ap suc (length-parse_outs n p.1 q.1 q.0 e3)

  parse_count-le :
      (r rest : Bytes) (n : ℕ)
      → parse_count wire max_count max_payload r ≡ ok (n, rest)
      → n ≤ max_count
  unfolding parse_count
  parse_count-le r rest n e =
      let (p, e1, e2) = and_then-ok (from_read (wire.read_var_int r)) _ e in
      elim (Bool-cases (ltb max_count p.0)) [
        | inl q ↦ cc (rw q at e2)
        | inr q ↦
            let same : p.0 ≡ n = ap (λ (p : ℕ × Bytes). p.0) (ok_eq (rw q at e2)) in
            ground (arith, q, same)
      ]

  abbrev pub IsCapped : List TxOut → Type 0
  IsCapped os = length os ≤ max_count

  parse_list-IsCapped :
      (r rest : Bytes) (os : List TxOut)
      → parse_list wire max_count max_payload r ≡ ok (os, rest)
      → IsCapped os
  unfolding parse_list
  parse_list-IsCapped r rest os e =
      let (p, e1, e2) = and_then-ok (parse_count wire max_count max_payload r) _ e in
      omega (arith, length-parse_outs p.0 p.1 rest os e2, parse_count-le r p.1 p.0 e1)

  parse_lists-IsCapped :
      (n : ℕ) (r rest : Bytes) (ls : List (List TxOut))
      → parse_lists wire max_count max_payload n r ≡ ok (ls, rest)
      → (length ls ≡ n) × All IsCapped ls
  unfolding parse_lists
  parse_lists-IsCapped zero r rest ls e =
      rw (← ap (λ (p : List (List TxOut) × Bytes). p.0) (ok_eq e)) (refl, tt)
  parse_lists-IsCapped (suc n) r rest ls e =
      let (p, e1, e2) = and_then-ok (parse_list wire max_count max_payload r) _ e in
      let (q, e3, e4) = and_then-ok (parse_lists wire max_count max_payload n p.1) _ e2 in
      let (len, all) = parse_lists-IsCapped n p.1 q.1 q.0 e3 in
      rw (← ap (λ (p : List (List TxOut) × Bytes). p.0) (ok_eq e4))
        (ap suc len, (parse_list-IsCapped r p.1 p.0 e1, all))

  no_trailing-ok :
      (lists : List (List TxOut)) (rest : Bytes) (ls : List (List TxOut))
      → no_trailing wire max_count max_payload (lists, rest) ≡ ok ls
      → lists ≡ ls
  no_trailing-ok lists [] ls e = ok_eq e
  no_trailing-ok lists (b ∷ bs) ls e = cc

  -- Whatever the backend sends, an answer that `parseSpentTxOuts` accepts has at most as many lists
  -- as the cap allows, and each of them at most as many outputs.
  pub parse_spent_tx_outs-IsCapped :
      (r : Bytes) (ls : List (List TxOut))
      → parse_spent_tx_outs wire max_count max_payload r ≡ ok ls
      → (length ls ≤ max_count) × All IsCapped ls
  unfolding parse_spent_tx_outs
  parse_spent_tx_outs-IsCapped r ls e =
      let (p, e1, e2) = and_then-ok (parse_count wire max_count max_payload r) _ e in
      let (q, e3, e4) = and_then-ok (parse_lists wire max_count max_payload p.0 p.1) _ e2 in
      let (len, all) = parse_lists-IsCapped p.0 p.1 q.1 q.0 e3 in
      let same = no_trailing-ok q.0 q.1 ls e4 in
      rw (← same) (omega (arith, len, parse_count-le r p.1 p.0 e1), all)
