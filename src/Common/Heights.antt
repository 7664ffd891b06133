-- ===== src/Common/Heights.antt =====
-- Loops `for h := start; h <= end; h++` over heights, and maps keyed by heights.
use Prim.Native.Nat.{ℕ, zero, suc}
use mathlib.Core.Path.{◌≡◌, refl, ◌∙◌}
use mathlib.Core.Option.{Option, none, some}
use mathlib.Core.Bool.{Bool, false, ◌&&◌}
use mathlib.Core.List.{List, [], ◌∷◌}
use mathlib.Core.Logic.{◌⊎◌, inl, inr}
use native.Mathlib.Omega.{arith}
use block_dn.Common.Tests.{if◌then◌else◌, Bool-cases}
use block_dn.Common.Lists.{length, All}
use block_dn.Common.Int.{ℤ, pos, pos_part, ◌+ℤ◌, ◌-ℤ◌, ◌≤ℤ◌, ◌<ℤ◌, leb_ℤ, eqb_ℤ, int_laws, eqb_ℤ-ne}

-- `n` heights from `start` on.
unfoldable pub heights_from : ℤ → ℕ → List ℤ
heights_from start zero = []
heights_from start (suc n) = start ∷ heights_from (start +ℤ pos 1) n

-- The number of rounds of the loop from `start` to `end`, 0 if `end < start`.
abbrev pub span : ℤ → ℤ → ℕ
span start end = pos_part (end +ℤ pos 1 -ℤ start)

-- The heights that `for h := start; h <= end; h++` visits, in order.
unfoldable pub heights : ℤ → ℤ → List ℤ
unfolding heights_from
heights start end = heights_from start (span start end)

abbrev pub HeightMap : Type 0 → Type 0
HeightMap V = ℤ → Option V

abbrev pub insert : {V : Type 0} → ℤ → V → HeightMap V → HeightMap V
insert k v m j = if eqb_ℤ j k then some v else m j

abbrev pub delete : {V : Type 0} → ℤ → HeightMap V → HeightMap V
delete k m j = if eqb_ℤ j k then none else m j

-- `for j := ...; j <= ...; j++ { delete(m, j) }`
unfoldable pub delete_all : {V : Type 0} → List ℤ → HeightMap V → HeightMap V
delete_all [] m = m
delete_all (k ∷ ks) m = delete_all ks (delete k m)

abbrev pub in_range : ℤ → ℤ → ℤ → Bool
in_range start end k = leb_ℤ start k && leb_ℤ k end

eqb_ℤ→lt : (k start : ℤ) → start ≤ℤ k → eqb_ℤ k start ≡ false → start <ℤ k
eqb_ℤ→lt k start h e = ground arith

split : (start end : ℤ) → (start ≤ℤ end +ℤ pos 1) ⊎ (span start end ≡ 0)
split start end = omega int_laws

span_zero : (start end : ℤ) → end <ℤ start → span start end ≡ 0
span_zero start end h = omega int_laws

span-suc : (start end : ℤ) → start ≤ℤ end → span start end ≡ suc (span (start +ℤ pos 1) end)
span-suc start end h = omega int_laws

length_from : (n : ℕ) (start : ℤ) → length (heights_from start n) ≡ n
unfolding heights_from
length_from zero start = refl
length_from (suc n) start = omega (arith, length_from n (start +ℤ pos 1))

All-from :
    {P : ℤ → Type 0} (n : ℕ) (start : ℤ)
    → ((h : ℤ) → start ≤ℤ h → h <ℤ start +ℤ pos n → P h)
    → All P (heights_from start n)
unfolding heights_from
All-from zero start f = tt
All-from (suc n) start f = (
  f start (omega int_laws) (omega int_laws),
  All-from n (start +ℤ pos 1) (λ h lo hi. f h (omega int_laws) (omega int_laws)),
)

delete_all-none :
    {V : Type 0} (ks : List ℤ) (m : HeightMap V) (k : ℤ) → m k ≡ none → delete_all ks m k ≡ none
unfolding delete_all
delete_all-none [] m k h = h
delete_all-none (j ∷ ks) m k h = delete_all-none ks (delete j m) k (ground arith)

delete_from_inside :
    {V : Type 0} (n : ℕ) (start : ℤ) (m : HeightMap V) (k : ℤ)
    → start ≤ℤ k
    → k <ℤ start +ℤ pos n
    → delete_all (heights_from start n) m k ≡ none
unfolding heights_from delete_all
delete_from_inside zero start m k lo hi = absurd (omega int_laws)
delete_from_inside (suc n) start m k lo hi = elim (Bool-cases (eqb_ℤ k start)) [
  | inl e ↦ delete_all-none (heights_from (start +ℤ pos 1) n) (delete start m) k (rw e)
  | inr ne ↦
      delete_from_inside n (start +ℤ pos 1) (delete start m) k
        (omega (int_laws, eqb_ℤ→lt k start lo ne)) (omega int_laws)
]

delete_from_outside :
    {V : Type 0} (n : ℕ) (start : ℤ) (m : HeightMap V) (k : ℤ)
    → (k <ℤ start) ⊎ (start +ℤ pos n ≤ℤ k)
    → delete_all (heights_from start n) m k ≡ m k
unfolding heights_from delete_all
delete_from_outside zero start m k out = refl
delete_from_outside (suc n) start m k out =
    delete_from_outside n (start +ℤ pos 1) (delete start m) k (omega int_laws)
    ∙ rw (eqb_ℤ-ne k start (omega int_laws))

-- The deletions of a loop empty its range.
pub delete_all_inside :
    {V : Type 0} (start end : ℤ) (m : HeightMap V) (k : ℤ)
    → start ≤ℤ k
    → k ≤ℤ end
    → delete_all (heights start end) m k ≡ none
unfolding heights
delete_all_inside start end m k lo hi =
    delete_from_inside (span start end) start m k lo (omega int_laws)

-- They leave every height outside the range as it was.
pub delete_all_outside :
    {V : Type 0} (start end : ℤ) (m : HeightMap V) (k : ℤ)
    → (k <ℤ start) ⊎ (end <ℤ k)
    → delete_all (heights start end) m k ≡ m k
unfolding heights
delete_all_outside start end m k out = elim (split start end) [
  | inl some_rounds ↦ delete_from_outside (span start end) start m k (omega int_laws)
  | inr none_left ↦ rw none_left (unfold delete_all heights_from in refl)
]

-- The first height of a range that is not empty, and the rest.
pub heights_cons :
    (start end : ℤ) → start ≤ℤ end → heights start end ≡ start ∷ heights (start +ℤ pos 1) end
unfolding heights
heights_cons start end h = rw (span-suc start end h) (unfold heights_from in refl)

pub heights_nil : (start end : ℤ) → end <ℤ start → heights start end ≡ []
unfolding heights
heights_nil start end h = rw (span_zero start end h) (unfold heights_from in refl)

pub length-heights : (start end : ℤ) → length (heights start end) ≡ span start end
unfolding heights
length-heights start end = length_from (span start end) start

-- What holds of every height in the range holds along the loop.
pub All-heights :
    {P : ℤ → Type 0} (start end : ℤ)
    → ((h : ℤ) → start ≤ℤ h → h ≤ℤ end → P h)
    → All P (heights start end)
unfolding heights
All-heights start end f = All-from (span start end) start (λ h lo hi. f h lo (omega int_laws))
