-- ===== src/Common/Effect.antt =====
-- Go's (value, error) results and methods that change a state.
use mathlib.Core.Path.{◌≡◌, refl, sym, ap, ◌∙◌}
use mathlib.Core.Logic.{◌⊎◌, inl, inr}

-- The errors that callers or operators tell apart. Two are no Go errors: `exhausted` is a loop out
-- of fuel, and `blocked` a goroutine that waits for a lock.
pub data Err : Type 0 where
  shutdown deep_reorg rpc_failed missing_entry unlinked not_anchored io_failed failed : Err
  exhausted blocked : Err

pub data Result {ℓ} (A : Type ℓ) : Type ℓ where
  ok : A → Result A
  err : Err → Result A

-- A method: what it changes stays changed when it returns an error.
abbrev pub M : Type 0 → Type 0 → Type 0
M S A = S → S × Result A

abbrev pub pure : {S A : Type 0} → A → M S A
pure a s = (s, ok a)

abbrev pub raise : {S A : Type 0} → Err → M S A
raise e s = (s, err e)

abbrev pub lift : {S A : Type 0} → Result A → M S A
lift r s = (s, r)

abbrev pub continue : {S A B : Type 0} → S × Result A → (A → M S B) → S × Result B
continue (s, ok a) f = f a s
continue (s, err e) f = (s, err e)

infixl 5 ◌>>=◌ ◌>>◌
abbrev pub ◌>>=◌ : {S A B : Type 0} → M S A → (A → M S B) → M S B
◌>>=◌ m f s = continue (m s) f

abbrev pub ◌>>◌ : {S B : Type 0} → M S (Unit {0}) → M S B → M S B
m >> k = m >>= λ _. k

abbrev pub modify : {S : Type 0} → (S → S) → M S (Unit {0})
modify f s = (f s, ok tt)

abbrev pub gets : {S A : Type 0} → (S → A) → M S A
gets f s = (s, ok (f s))

pub Result-cases {ℓ} :
    {A : Type ℓ} (r : Result A) → ((a : A) × (r ≡ ok a)) ⊎ ((e : Err) × (r ≡ err e))
Result-cases (ok a) = inl (a, refl)
Result-cases (err e) = inr (e, refl)

-- To split on what a method did.
pub Run-cases :
    {S A : Type 0} (p : S × Result A)
    → ((s : S) × (a : A) × (p ≡ (s, ok a))) ⊎ ((s : S) × (e : Err) × (p ≡ (s, err e)))
Run-cases (s, ok a) = inl (s, a, refl)
Run-cases (s, err e) = inr (s, e, refl)

-- A chain of results that changes no state.
abbrev pub and_then {ℓ κ} : {A : Type ℓ} {B : Type κ} → Result A → (A → Result B) → Result B
and_then (ok a) f = f a
and_then (err e) f = err e

pub and_then-ok :
    {A B : Type 0} (r : Result A) (f : A → Result B) {b : B}
    → and_then r f ≡ ok b
    → (a : A) × (r ≡ ok a) × (f a ≡ ok b)
and_then-ok (ok a) f h = (a, refl, h)
and_then-ok (err e) f h = cc

-- A method that leaves a part `p` of the state as it was.
abbrev pub Keeps : {S X A : Type 0} → (S → X) → M S A → Type 0
Keeps {S = S} p m = (s : S) → p (m s).0 ≡ p s

pub bind-Keeps :
    {S X A B : Type 0} (p : S → X) (m : M S A) (f : A → M S B)
    → Keeps p m
    → ((a : A) → Keeps p (f a))
    → Keeps p (m >>= f)
bind-Keeps {A = A} p m f first next s = elim (Run-cases (m s)) [
  | inl (s1, a, e) ↦ rw e (next a s1 ∙ ap (λ r. p r.0) (sym e) ∙ first s)
  | inr (s1, x, e) ↦ rw e (ap (λ r. p r.0) (sym e) ∙ first s)
]

-- The parts of a successful run.
pub >>=-ok :
    {S A B : Type 0} (m : M S A) (f : A → M S B) (s : S) {t : S} {b : B}
    → (m >>= f) s ≡ (t, ok b)
    → (s1 : S) × (a : A) × (m s ≡ (s1, ok a)) × (f a s1 ≡ (t, ok b))
>>=-ok m f s h = elim (Run-cases (m s)) [
  | inl (s1, a, e) ↦ (s1, a, e, rw e at h)
  | inr (s1, x, e) ↦ cc (rw e at h)
]
