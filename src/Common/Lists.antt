-- ===== src/Common/Lists.antt =====
-- Lists measured and indexed by native numbers, under the library's names.
use Prim.Native.Nat.{ℕ, zero, suc, ◌+◌}
use mathlib.Core.Path.{◌≡◌, refl, sym, ap, ◌∙◌}
use mathlib.Core.List.{List, [], ◌∷◌, ◌++◌}
use mathlib.Core.Option.{Option, none, some}
use native.Mathlib.Omega.{arith}

module _ {ℓ} {A : Type ℓ} where
  abbrev pub length : List A → ℕ
  length [] = 0
  length (x ∷ xs) = suc (length xs)

  abbrev pub get_elem? : List A → ℕ → Option A
  get_elem? [] i = none
  get_elem? (x ∷ xs) zero = some x
  get_elem? (x ∷ xs) (suc i) = get_elem? xs i

  abbrev pub get_or : List A → ℕ → A → A
  get_or [] i d = d
  get_or (x ∷ xs) zero d = x
  get_or (x ∷ xs) (suc i) d = get_or xs i d

  abbrev pub take : ℕ → List A → List A
  take zero xs = []
  take (suc n) [] = []
  take (suc n) (x ∷ xs) = x ∷ take n xs

  abbrev pub drop : ℕ → List A → List A
  drop zero xs = xs
  drop (suc n) [] = []
  drop (suc n) (x ∷ xs) = drop n xs

  abbrev pub replicate : ℕ → A → List A
  replicate zero a = []
  replicate (suc n) a = a ∷ replicate n a

  pub length-append : (xs ys : List A) → length (xs ++ ys) ≡ length xs + length ys
  length-append [] ys = omega arith
  length-append (x ∷ xs) ys = omega (arith, length-append xs ys)

  pub length-replicate : (n : ℕ) (a : A) → length (replicate n a) ≡ n
  length-replicate zero a = refl
  length-replicate (suc n) a = ap suc (length-replicate n a)

  pub take-append_all : (xs ys : List A) (n : ℕ) → length xs ≡ n → take n (xs ++ ys) ≡ xs
  take-append_all [] ys zero h = refl
  take-append_all [] ys (suc n) h = absurd (omega arith)
  take-append_all (x ∷ xs) ys zero h = absurd (omega arith)
  take-append_all (x ∷ xs) ys (suc n) h = ap (λ t. x ∷ t) (take-append_all xs ys n (omega arith))

  pub drop-append_all : (xs ys : List A) (n : ℕ) → length xs ≡ n → drop n (xs ++ ys) ≡ ys
  drop-append_all [] ys zero h = refl
  drop-append_all [] ys (suc n) h = absurd (omega arith)
  drop-append_all (x ∷ xs) ys zero h = absurd (omega arith)
  drop-append_all (x ∷ xs) ys (suc n) h = drop-append_all xs ys n (omega arith)

  pub append_cancel :
      (as' bs ps qs : List A)
      → length as' ≡ length bs
      → as' ++ ps ≡ bs ++ qs
      → (as' ≡ bs) × (ps ≡ qs)
  append_cancel as' bs ps qs h e = (
    sym (take-append_all as' ps (length bs) h)
        ∙ ap (take (length bs)) e
        ∙ take-append_all bs qs (length bs) refl,
    sym (drop-append_all as' ps (length bs) h)
        ∙ ap (drop (length bs)) e
        ∙ drop-append_all bs qs (length bs) refl,
  )

-- Every element satisfies the predicate: a tuple, which the tactics read and build.
abbrev pub All {ℓ κ} : {A : Type ℓ} → (A → Type κ) → List A → Type κ
All P [] = Unit
All P (x ∷ xs) = P x × All P xs
