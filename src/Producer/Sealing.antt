-- ===== src/Producer/Sealing.antt =====
-- `sealReadyFiles`: which files it seals, and that it ends.
use block_dn.Common.{
  ℕ, zero, suc, ◌*◌, ◌<◌, ◌≡◌, refl, ap, ◌∙◌, ◌≢◌, ◌⊎◌, inl, inr, Bool-cases, arith,
}
use block_dn.Common.Int.{
  ℤ, pos, negsuc, ◌+ℤ◌, ◌≤ℤ◌, ◌<ℤ◌, ltb_ℤ, int_laws, int_tests, parts, ltb_ℤ→<ℤ, ltb_ℤ→≤ℤ,
}
use block_dn.Common.Heights.{span}
use block_dn.Common.Effect.{Result, ok, err, Err, exhausted, Run-cases}
use block_dn.External.{Chain}
use block_dn.Producer.{
  Shared, Hooks, Config, Base, next_end, safe_tip, file_start, seal_file, seal_loop,
  seal_ready_files,
}

-- The sealed heights fill whole files: there are `k * entries_per_file` of them.
abbrev pub IsAligned : {S : Type 0} → Config → Base S → Type 0
IsAligned cfg b = (k : ℕ) × (b.last_sealed_height +ℤ pos 1 ≡ pos (k * cfg.entries_per_file))

above_minus_one :
    {S : Type 0} (cfg : Config) (b : Base S) → IsAligned cfg b → negsuc 0 ≤ℤ b.last_sealed_height
above_minus_one cfg b (k, e) = omega (int_laws, parts e)

pub next_end_lem :
    {S : Type 0} (cfg : Config) (b : Base S)
    → IsAligned cfg b
    → next_end cfg b ≡ b.last_sealed_height +ℤ pos cfg.entries_per_file
next_end_lem cfg b al = elim (Bool-cases (ltb_ℤ b.last_sealed_height (pos 0))) [
  | inl e ↦ rw e (omega (int_tests, above_minus_one cfg b al))
  | inr e ↦ rw e
]

-- The next file starts where the sealed ones end.
pub file_start-next_end :
    {S : Type 0} (cfg : Config) (b : Base S)
    → IsAligned cfg b
    → file_start cfg (next_end cfg b) ≡ b.last_sealed_height +ℤ pos 1
file_start-next_end cfg b al = rw (next_end_lem cfg b al) (omega int_laws)

-- How `sealReadyFiles` leaves the base, and what it returned.
pub record Seals {S : Type 0} (cfg : Config) (b b' : Base S) (r : Result (Unit {0})) : Type 0 where
  pub aligned : IsAligned cfg b'
  pub same_tip : b'.current_height ≡ b.current_height
  pub grows : b.last_sealed_height ≤ℤ b'.last_sealed_height
  pub safe :
      (b'.last_sealed_height ≡ b.last_sealed_height) ⊎ (b'.last_sealed_height ≤ℤ safe_tip cfg b)
  pub complete : r ≡ ok tt → safe_tip cfg b <ℤ b'.last_sealed_height +ℤ pos cfg.entries_per_file

pub Seals-below :
    {S : Type 0} {cfg : Config} {b b' : Base S} {r : Result (Unit {0})}
    → Seals cfg b b' r
    → b.last_sealed_height ≤ℤ b.current_height
    → b'.last_sealed_height ≤ℤ b'.current_height
Seals-below {cfg = cfg} {b = b} {b' = b'} s le = go s.safe
  where
    go :
        (b'.last_sealed_height ≡ b.last_sealed_height) ⊎ (b'.last_sealed_height ≤ℤ safe_tip cfg b)
        → b'.last_sealed_height ≤ℤ b'.current_height
    go (inl e) = omega (arith, parts e, parts s.same_tip)
    go (inr h) = omega (int_laws, h, parts s.same_tip)

abbrev pub SealsAll : {S : Type 0} → Config → Base S → Base S × Result (Unit {0}) → Type 0
SealsAll cfg b (b', r) = Seals cfg b b' r

module _ {H S : Type 0} (cfg : Config) (hooks : Hooks H S) (chain : Chain H) where
  -- A base whose last sealed height is the end of the next file.
  abbrev pub promoted : Base S → Shared S → Base S
  promoted b s = record b { last_sealed_height = next_end cfg b; shared = s }

  -- The call of the write hook that seals the next file, and what is pruned after it.
  abbrev pub written : Base S → Shared S × Result (Unit {0})
  written b =
      hooks.write_sealed_file chain (file_start cfg (next_end cfg b)) (next_end cfg b) b.shared

  abbrev pub pruned : Base S → Shared S → Shared S
  pruned b s = record s {
    own = hooks.prune_locked (file_start cfg (next_end cfg b)) (next_end cfg b) s.own;
  }

  pub seal_file_cases :
      (b : Base S)
      → ((s : Shared S) × (written b ≡ (s, ok tt))
          × (seal_file cfg hooks chain b ≡ (promoted b (pruned b s), ok tt)))
        ⊎ ((s : Shared S) × (e : Err) × (written b ≡ (s, err e))
            × (seal_file cfg hooks chain b ≡ (record b { shared = s }, err e)))
  unfolding seal_file
  seal_file_cases b = elim (Run-cases (written b)) [
    | inl (s, u, e) ↦ inl (s, e, ground (arith, e))
    | inr (s, x, e) ↦ inr (s, x, e, ground (arith, e))
  ]

  pub promoted-IsAligned :
      (b : Base S) (s : Shared S) → IsAligned cfg b → IsAligned cfg (promoted b s)
  promoted-IsAligned b s (k, e) =
      (suc k, rw (next_end_lem cfg b (k, e)) (omega (int_laws, parts e)))

  stops : (b : Base S) → IsAligned cfg b → safe_tip cfg b <ℤ next_end cfg b → Seals cfg b b (ok tt)
  stops b al h = record {
    aligned = al;
    same_tip = refl;
    grows = omega arith;
    safe = inl refl;
    complete = λ _. rw (next_end_lem cfg b al) at h;
  }

  fails :
      (b : Base S) (s : Shared S) (e : Err)
      → IsAligned cfg b
      → Seals cfg b (record b { shared = s }) (err e)
  fails b s e al = record {
    aligned = al;
    same_tip = refl;
    grows = omega arith;
    safe = inl refl;
    complete = λ h. cc;
  }

  after_file :
      (b b' : Base S) (s : Shared S) (r : Result (Unit {0}))
      → IsAligned cfg b
      → next_end cfg b ≤ℤ safe_tip cfg b
      → Seals cfg (promoted b s) b' r
      → Seals cfg b b' r
  after_file b b' s r al h later = record {
    aligned = later.aligned;
    same_tip = later.same_tip;
    grows = omega (int_laws, later.grows, parts (next_end_lem cfg b al));
    safe = inr (safe_after later.safe);
    complete = later.complete;
  }
    where
      safe_after :
          (b'.last_sealed_height ≡ next_end cfg b) ⊎ (b'.last_sealed_height ≤ℤ safe_tip cfg b)
          → b'.last_sealed_height ≤ℤ safe_tip cfg b
      safe_after (inl e) = rw e h
      safe_after (inr le) = le

  pub seal_loop-Seals :
      (n : ℕ) (b : Base S) → IsAligned cfg b → SealsAll cfg b (seal_loop cfg hooks n chain b)
  unfolding seal_loop
  seal_loop-Seals zero b al = fails b b.shared exhausted al
  seal_loop-Seals (suc n) b al = elim (Bool-cases (ltb_ℤ (safe_tip cfg b) (next_end cfg b))) [
    | inl stop ↦ rw stop (stops b al (ltb_ℤ→<ℤ (safe_tip cfg b) (next_end cfg b) stop))
    | inr more ↦ elim (seal_file_cases b) [
      | inl (s, w, e) ↦
          rw (more, e)
            (after_file b _ (pruned b s) _ al (ltb_ℤ→≤ℤ (safe_tip cfg b) (next_end cfg b) more)
              (seal_loop-Seals n (promoted b (pruned b s)) (promoted-IsAligned b (pruned b s) al)))
      | inr (s, x, w, e) ↦ rw (more, e) (fails b s x al)
    ]
  ]

  -- From a base whose sealed heights fill whole files, `sealReadyFiles` keeps them so, leaves the
  -- tip as it was, and never unseals. It seals no height above the safe tip, and when it returns
  -- without an error the next file would reach above the safe tip.
  pub seal_ready_files-Seals :
      (b : Base S) → IsAligned cfg b → SealsAll cfg b (seal_ready_files cfg hooks chain b)
  unfolding seal_ready_files
  seal_ready_files-Seals b al = seal_loop-Seals _ b al

  module _ (entries : 0 < cfg.entries_per_file)
      (honest : (start end : ℤ) (s : Shared S)
        → (hooks.write_sealed_file chain start end s).1 ≢ err exhausted) where
    seal_loop-ends :
        (n : ℕ) (b : Base S)
        → IsAligned cfg b
        → span (b.last_sealed_height +ℤ pos 1) (safe_tip cfg b) < n
        → (seal_loop cfg hooks n chain b).1 ≢ err exhausted
    unfolding seal_loop
    seal_loop-ends zero b al h = absurd (omega arith)
    seal_loop-ends (suc n) b al h = elim (Bool-cases (ltb_ℤ (safe_tip cfg b) (next_end cfg b))) [
      | inl stop ↦ rw stop (λ e. cc)
      | inr more ↦ elim (seal_file_cases b) [
        | inl (s, w, e) ↦
            rw (more, e)
              (seal_loop-ends n (promoted b (pruned b s)) (promoted-IsAligned b (pruned b s) al)
                (omega (int_tests, more, h, parts (next_end_lem cfg b al))))
        | inr (s, x, w, e) ↦
            rw (more, e)
              (λ q.
                honest (file_start cfg (next_end cfg b)) (next_end cfg b) b.shared
                  (ap (λ p. p.1) w ∙ q))
      ]
    ]

    -- With files of one entry at least, a write hook that does not run out of fuel itself, and a
    -- base whose sealed heights fill whole files, the loop of `sealReadyFiles` ends by its own
    -- test or by an error of the write hook, never for want of fuel.
    pub seal_ready_files-ends :
        (b : Base S) → IsAligned cfg b → (seal_ready_files cfg hooks chain b).1 ≢ err exhausted
    unfolding seal_ready_files
    seal_ready_files-ends b al = seal_loop-ends _ b al (omega arith)
