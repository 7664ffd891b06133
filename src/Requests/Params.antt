-- ===== src/Requests/Params.antt =====
-- The numbers in a request's path: what the parser makes of digits.
use block_dn.Common.{
  ℕ, ◌+◌, ◌-◌, ◌*◌, ◌≤◌, ◌≡◌, ◌^◌, List, [], ◌∷◌, some, Bool-cases, inl, inr, arith, ltb, ◌==◌,
  refl, if◌then◌else◌, false,
}
use block_dn.Common.Int.{ℤ, pos, ◌≤ℤ◌, ◌<ℤ◌}
use block_dn.Common.Effect.{ok, err, failed}
use block_dn.Requests.{
  Request, Var, codes, digits, parse_int, parse_request_param_int64, parse_some,
}

-- Every character is a decimal digit.
abbrev pub AllDigits : List ℕ → Type 0
AllDigits [] = Unit
AllDigits (c ∷ cs) = (b'0' ≤ c) × (c ≤ b'9') × AllDigits cs

-- The number that decimal digits stand for, by Horner's rule.
abbrev pub decimal : ℕ → List ℕ → ℕ
decimal value [] = value
decimal value (c ∷ cs) = decimal (value * 10 + (c - b'0')) cs

digits-decimal :
    (value : ℕ) (cs : List ℕ) → AllDigits cs → digits value cs ≡ some (decimal value cs)
unfolding digits
digits-decimal value [] h = refl
digits-decimal value (c ∷ cs) (low, high, rest) =
    ground (arith, low, high, digits-decimal (value * 10 + (c - b'0')) cs rest)

-- A path variable of digits alone is read as the number that it stands for, if an int64 holds it,
-- and refused otherwise: it is never negative, and it never wraps.
pub parse_int-decimal :
    (c : ℕ) (cs : List ℕ)
    → AllDigits (c ∷ cs)
    → parse_int (c ∷ cs)
      ≡ (if ltb (decimal 0 (c ∷ cs)) (2 ^ 63) then ok (pos (decimal 0 (c ∷ cs))) else err failed)
unfolding parse_int
parse_int-decimal c cs (low, high, rest) =
    let plus : (c == b'+') ≡ false = ground (arith, low) in
    let minus : (c == b'-') ≡ false = ground (arith, low) in
    rw (plus, minus, digits-decimal 0 (c ∷ cs) (low, high, rest))

-- A number of an int64 that is not negative.
abbrev pub InRange : ℤ → Type 0
InRange h = (pos 0 ≤ℤ h) × (h <ℤ pos (2 ^ 63))

parsed-InRange : (cs : List ℕ) (h : ℤ) → AllDigits cs → parse_int cs ≡ ok h → InRange h
unfolding parse_int
parsed-InRange [] h d e = cc
parsed-InRange (c ∷ cs) h d e = elim (Bool-cases (ltb (decimal 0 (c ∷ cs)) (2 ^ 63))) [
  | inl q ↦ ground (arith, parse_int-decimal c cs d, e, q)
  | inr q ↦ ground (arith, parse_int-decimal c cs d, e, q)
]

-- So is every path variable of digits; an empty one is refused.
pub parameter-InRange :
    (r : Request) (v : Var) (h : ℤ)
    → AllDigits (codes (r.var v))
    → parse_request_param_int64 r v ≡ ok h
    → InRange h
unfolding parse_request_param_int64
parameter-InRange r v h d e = of_codes (codes (r.var v)) d e
  where
    of_codes : (cs : List ℕ) → AllDigits cs → parse_some cs ≡ ok h → InRange h
    of_codes [] d e = cc
    of_codes (c ∷ cs) d e = parsed-InRange (c ∷ cs) h d e
