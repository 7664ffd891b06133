-- ===== src/Entries.antt =====
-- The loop that the serializers of all producers share: each height of a range has an entry, which
-- is written, or the serialization fails. `entries_size` is the loop of the size functions.
use block_dn.Common.{
  ℕ, suc, ◌+◌, ◌*◌, ◌≡◌, refl, sym, ap, ◌∙◌, ◌⊎◌, inl, inr, Option, none, some, List, [], ◌∷◌, ◌++◌,
  length, length-append, Option-cases, arith,
}
use block_dn.Common.Int.{ℤ}
use block_dn.Common.Heights.{HeightMap}
use block_dn.Common.Effect.{ok, err, missing_entry, M}
use block_dn.External.{Bytes}
use mathlib.Core.List.{append-nil, append_assoc}

some_eq : {a b : ℕ} → some a ≡ some b → a ≡ b
some_eq e = cc

module _ {V : Type 0} where
  unfoldable pub serialize_entries : (V → Bytes) → HeightMap V → List ℤ → M Bytes (Unit {0})
  serialize_entries encode m [] out = (out, ok tt)
  serialize_entries encode m (j ∷ js) out = elim (m j) [
    | none ↦ (out, err missing_entry)
    | some v ↦ serialize_entries encode m js (out ++ encode v)
  ]

  unfoldable pub entries_size : (V → ℕ) → HeightMap V → List ℤ → ℕ → Option ℕ
  entries_size size m [] total = some total
  entries_size size m (j ∷ js) total = elim (m j) [
    | none ↦ none
    | some v ↦ entries_size size m js (total + size v)
  ]

  -- The entries of a range, in order, if none is missing.
  pub data Holds (m : HeightMap V) : List ℤ → List V → Type 0 where
    no_more : Holds m [] []
    more :
        {j : ℤ} {js : List ℤ} {v : V} {vs : List V}
        → m j ≡ some v
        → Holds m js vs
        → Holds m (j ∷ js) (v ∷ vs)

  unfoldable pub concat : (V → Bytes) → List V → Bytes
  concat encode [] = []
  concat encode (v ∷ vs) = encode v ++ concat encode vs

  -- With all entries there, their encodings are written one after the other.
  pub serialize_entries-Holds :
      (encode : V → Bytes) (m : HeightMap V) (js : List ℤ) (vs : List V) (out : Bytes)
      → Holds m js vs
      → serialize_entries encode m js out ≡ (out ++ concat encode vs, ok tt)
  unfolding serialize_entries concat
  serialize_entries-Holds encode m js vs out no_more = rw append-nil
  serialize_entries-Holds encode m js vs out (more {js = js'} {v = v} {vs = vs'} e h) =
      rw (e, serialize_entries)
        (serialize_entries-Holds encode m js' vs' (out ++ encode v) h
          ∙ rw (append_assoc out (encode v) (concat encode vs')))

  -- Either all entries are there, or both loops stop at the first that is missing.
  pub Holds-cases :
      (encode : V → Bytes) (size : V → ℕ) (m : HeightMap V) (js : List ℤ)
      → ((vs : List V) × Holds m js vs)
        ⊎ (((out : Bytes) → (serialize_entries encode m js out).1 ≡ err missing_entry)
            × ((total : ℕ) → entries_size size m js total ≡ none))
  unfolding serialize_entries entries_size
  Holds-cases encode size m [] = inl ([], no_more)
  Holds-cases encode size m (j ∷ js) = elim (Option-cases (m j)) [
    | inl n ↦ inr (λ out. rw (n, serialize_entries), λ total. rw (n, entries_size))
    | inr (v, s) ↦ elim (Holds-cases encode size m js) [
      | inl (vs, h) ↦ inl (v ∷ vs, more s h)
      | inr (fails, nothing) ↦ inr (
        λ out. rw (s, serialize_entries) (fails (out ++ encode v)),
        λ total. rw (s, entries_size) (nothing (total + size v)),
      )
    ]
  ]

  pub entries_size-Holds :
      (encode : V → Bytes) (size : V → ℕ) (m : HeightMap V) (js : List ℤ) (vs : List V) (total : ℕ)
      → ((v : V) → length (encode v) ≡ size v)
      → Holds m js vs
      → entries_size size m js total ≡ some (total + length (concat encode vs))
  unfolding entries_size concat
  entries_size-Holds encode size m js vs total fits no_more = ap some (omega arith)
  entries_size-Holds encode size m js vs total fits (more {js = js'} {v = v} {vs = vs'} e h) =
      rw (e, entries_size)
        (entries_size-Holds encode size m js' vs' (total + size v) fits h
          ∙ ap some (omega (arith, length-append (encode v) (concat encode vs'), fits v)))

  -- The size functions announce the length of what the serializers write: where a size is computed
  -- from the lengths of the encoded entries, the serialization succeeds with that many bytes.
  pub serialize_entries-size :
      (encode : V → Bytes) (size : V → ℕ) (m : HeightMap V) (js : List ℤ) (start n : ℕ)
      (out : Bytes)
      → ((v : V) → length (encode v) ≡ size v)
      → entries_size size m js start ≡ some n
      → (body : Bytes) × (serialize_entries encode m js out ≡ (out ++ body, ok tt))
        × (start + length body ≡ n)
  serialize_entries-size encode size m js start n out fits e = elim (Holds-cases encode size m js) [
    | inl (vs, h) ↦ (
      concat encode vs,
      serialize_entries-Holds encode m js vs out h,
      some_eq (sym (entries_size-Holds encode size m js vs start fits h) ∙ e),
    )
    | inr (fails, nothing) ↦ cc (nothing start)
  ]

  pub Holds-length :
      (m : HeightMap V) (js : List ℤ) (vs : List V) → Holds m js vs → length vs ≡ length js
  Holds-length m js vs no_more = refl
  Holds-length m js vs (more {js = js'} {vs = vs'} e h) = ap suc (Holds-length m js' vs' h)

  pub length-concat :
      (encode : V → Bytes) (n : ℕ) (vs : List V)
      → ((v : V) → length (encode v) ≡ n)
      → length (concat encode vs) ≡ length vs * n
  unfolding concat
  length-concat encode n [] fits = omega arith
  length-concat encode n (v ∷ vs) fits =
      omega
        (arith, length-append (encode v) (concat encode vs), fits v, length-concat encode n vs fits)
