-- ===== src/Verify/Stored.antt =====
-- What a look-up of a stored filter header answers, and what it leaves alone.
use block_dn.Common.{
  ◌≡◌, refl, sym, ap, ◌∙◌, ◌⊎◌, inl, inr, Bool, true, false, some, Bool-cases, Option-cases, arith,
}
use block_dn.Common.Int.{
  ℤ, pos, pos_part, ◌+ℤ◌, ◌-ℤ◌, ◌≤ℤ◌, eqb_ℤ, ltb_ℤ, int_laws, ltb_ℤ→<ℤ, ltb_ℤ→≤ℤ, eqb_ℤ→eq, parts,
}
use block_dn.Common.Effect.{Result, ok, Result-cases, Run-cases, continue}
use block_dn.External.{Bytes, Hash, zero_hash, Wire}
use block_dn.Headers.{filter_header_file}
use block_dn.CFilters.{next_header}
use block_dn.Verify.{
  Verifier, Settings, Surroundings, FileRead, contents, missing, unreadable, read_file, must_read,
  file_end, filter_headers_route, fetch_in_memory, fill_cache, forget, load_filter_headers,
  ensure_loaded, cached_entry, range_start, second_attempt, refresh_if, stored_filter_header,
}
use block_dn.Verify.Records.{must_read-ok}
use native.Mathlib.Nat.{mod-le}
use block_dn.Verify.FilterFiles.{header_before}

ok_eq : {A : Type 0} {a b : A} → ok a ≡ ok b → a ≡ b
ok_eq e = cc

pub FileRead-cases :
    (r : FileRead) → ((found : Bytes) × (r ≡ contents found)) ⊎ (r ≡ missing) ⊎ (r ≡ unreadable)
FileRead-cases (contents found) = inl (found, refl)
FileRead-cases missing = inr (inl refl)
FileRead-cases unreadable = inr (inr refl)

-- The backend's filters and the filter header in front of each height.
pub record Commitments {H : Type 0} (wire : Wire H) : Type 0 where
  pub filter : ℤ → Bytes
  pub before : ℤ → Hash
  pub genesis : before (pos 0) ≡ zero_hash
  pub commits : (k : ℤ) → pos 0 ≤ℤ k → before (k +ℤ pos 1) ≡ next_header wire (filter k) (before k)

module _ {H : Type 0} (wire : Wire H) (best : Commitments wire) where
  module _ (cfg : Settings) (env : Surroundings) where
    -- The entries of a range of stored filter headers are the backend's.
    abbrev pub AreEntries : ℤ → Bytes → Type 0
    AreEntries start data' =
        (k : ℤ) (h : Hash)
        → start ≤ℤ k
        → cached_entry cfg env start k data' ≡ some h
        → h ≡ best.before (k +ℤ pos 1)

    abbrev pub IsServed : Type 0
    IsServed =
        (start : ℤ) (data' : Bytes)
        → fetch_in_memory env filter_headers_route start ≡ ok data'
        → AreEntries start data'

    -- What `storedFilterHeader` may answer from: the cached range and the files.
    pub record AreStored (v : Verifier) : Type 0 where
      pub cached : pos 0 ≤ℤ v.cache_start → AreEntries v.cache_start v.cache
      pub on_disk :
          (start : ℤ) (data' : Bytes)
          → v.disk (filter_header_file start (file_end start cfg.headers_per_file)) ≡ some data'
          → AreEntries start data'

    -- What a look-up changes.
    pub record Looked (v v' : Verifier) : Type 0 where
      pub stored : AreStored v'
      pub same_disk : v'.disk ≡ v.disk
      pub same_bad : v'.bad_files ≡ v.bad_files

    pub Looked-trans : (v v1 v2 : Verifier) → Looked v v1 → Looked v1 v2 → Looked v v2
    Looked-trans v v1 v2 looked again = record {
      stored = again.stored;
      same_disk = again.same_disk ∙ looked.same_disk;
      same_bad = again.same_bad ∙ looked.same_bad;
    }

    filled :
        (start : ℤ) (from_memory : Bool) (found : Bytes) (v v' : Verifier)
        → AreStored v
        → fill_cache cfg env start from_memory found v ≡ v'
        → AreEntries start found
        → Looked v v' × AreEntries start v'.cache
    filled start from_memory found v v' stored e entries = rw (← e) (
      record {
        stored = record { cached = λ up. entries; on_disk = stored.on_disk };
        same_disk = refl;
        same_bad = refl;
      },
      entries,
    )

    module _ (served : IsServed) where
      load_filter_headers-Looked :
          (start : ℤ) (v v' : Verifier)
          → AreStored v
          → load_filter_headers cfg env start v ≡ (v', ok tt)
          → Looked v v' × AreEntries start v'.cache
      unfolding load_filter_headers
      load_filter_headers-Looked start v v' stored e =
          let name = filter_header_file start (file_end start cfg.headers_per_file) in
          elim (FileRead-cases (read_file env name v.disk)) [
            | inl (found, q) ↦
                filled start false found v v' stored
                  (ap (λ p. p.0) (rw (load_filter_headers, q) at e))
                  (stored.on_disk start found
                    (must_read-ok (env.reads name) (v.disk name) found (ap must_read q)))
            | inr (inl q) ↦ elim (Result-cases (fetch_in_memory env filter_headers_route start)) [
              | inl (found, r) ↦
                  filled start true found v v' stored
                    (ap (λ p. p.0) (rw (load_filter_headers, q, r) at e)) (served start found r)
              | inr (x, r) ↦ cc (rw (load_filter_headers, q, r) at e)
            ]
            | inr (inr q) ↦ cc (rw (load_filter_headers, q) at e)
          ]

      ensure_loaded-Looked :
          (start : ℤ) (v v' : Verifier)
          → pos 0 ≤ℤ start
          → AreStored v
          → ensure_loaded cfg env start v ≡ (v', ok tt)
          → Looked v v' × AreEntries start v'.cache
      unfolding ensure_loaded
      ensure_loaded-Looked start v v' up stored e = elim (Bool-cases (eqb_ℤ v.cache_start start)) [
        | inr q ↦ load_filter_headers-Looked start v v' stored (rw q at e)
        | inl q ↦
            let at : v.cache_start ≡ start = eqb_ℤ→eq v.cache_start start q in
            let same : v ≡ v' = ap (λ p. p.0) (rw q at e) in
            rw (← same) (
              record { stored = stored; same_disk = refl; same_bad = refl },
              rw (← at) (stored.cached (omega (int_laws, parts at, up))),
            )
      ]

      -- An entry that is found after loading.
      abbrev pub Answers : ℤ → Verifier → Verifier → Hash → Type 0
      Answers k v v' h = Looked v v' × (h ≡ best.before (k +ℤ pos 1))

      range_start_ok :
          (k : ℤ) → pos 0 ≤ℤ k → (pos 0 ≤ℤ range_start cfg env k) × (range_start cfg env k ≤ℤ k)
      range_start_ok k up =
          (omega (int_laws, up, mod-le (pos_part k) cfg.headers_per_file), omega int_laws)

      found-Answers :
          (k : ℤ) (v v1 v' : Verifier) (h' h : Hash)
          → pos 0 ≤ℤ k
          → AreStored v
          → ensure_loaded cfg env (range_start cfg env k) v ≡ (v1, ok tt)
          → cached_entry cfg env (range_start cfg env k) k v1.cache ≡ some h'
          → ◌≡◌ {A = Verifier × Result Hash} (v1, ok h') (v', ok h)
          → Answers k v v' h
      found-Answers k v v1 v' h' h up stored loaded found e =
          let (from, to) = range_start_ok k up in
          let (looked, entries) =
            ensure_loaded-Looked (range_start cfg env k) v v1 from stored loaded in
          rw (← ap (λ p. p.0) e, ← ok_eq (ap (λ p. p.1) e)) (looked, entries k h' to found)

      second_attempt-Answers :
          (k : ℤ) (v v' : Verifier) (h : Hash)
          → pos 0 ≤ℤ k
          → AreStored v
          → second_attempt cfg env k v ≡ (v', ok h)
          → Answers k v v' h
      unfolding second_attempt
      second_attempt-Answers k v v' h up stored e =
          elim (Run-cases (ensure_loaded cfg env (range_start cfg env k) v)) [
            | inr (v1, x, r) ↦ cc (rw (second_attempt, r) at e)
            | inl (v1, u, r) ↦
                let e1 = rw (second_attempt, r) at e in
                elim (Option-cases (cached_entry cfg env (range_start cfg env k) k v1.cache)) [
                  | inl q ↦ cc (rw (continue, q) at e1)
                  | inr (h', q) ↦
                      found-Answers k v v1 v' h' h up stored r q (rw (continue, q) at e1)
                ]
          ]

      refresh_if-Answers :
          (from_memory : Bool) (k : ℤ) (v v' : Verifier) (h : Hash)
          → pos 0 ≤ℤ k
          → AreStored v
          → refresh_if cfg env from_memory k v ≡ (v', ok h)
          → Answers k v v' h
      unfolding refresh_if
      refresh_if-Answers false k v v' h up stored e = cc
      refresh_if-Answers true k v v' h up stored e =
          let (looked, is) =
            second_attempt-Answers k (forget v) v' h up
              (record { cached = λ le. absurd (omega arith); on_disk = stored.on_disk }) e in
          (
            record {
              stored = looked.stored;
              same_disk = looked.same_disk;
              same_bad = looked.same_bad;
            },
            is,
          )

      pub stored_filter_header-Answers :
          (k : ℤ) (v v' : Verifier) (h : Hash)
          → pos 0 ≤ℤ k
          → AreStored v
          → stored_filter_header cfg env k v ≡ (v', ok h)
          → Answers k v v' h
      unfolding stored_filter_header
      stored_filter_header-Answers k v v' h up stored e =
          elim (Run-cases (ensure_loaded cfg env (range_start cfg env k) v)) [
            | inr (v1, x, r) ↦ cc (rw (stored_filter_header, r) at e)
            | inl (v1, u, r) ↦
                let e1 = rw (stored_filter_header, r) at e in
                elim (Option-cases (cached_entry cfg env (range_start cfg env k) k v1.cache)) [
                  | inr (h', q) ↦
                      found-Answers k v v1 v' h' h up stored r q (rw (continue, q) at e1)
                  | inl q ↦
                      let (from, to) = range_start_ok k up in
                      let (looked, entries) =
                        ensure_loaded-Looked (range_start cfg env k) v v1 from stored r in
                      let (again, is) =
                        refresh_if-Answers v1.cache_from_memory k v1 v' h up looked.stored
                          (rw (continue, q) at e1) in
                      (Looked-trans v v1 v' looked again, is)
                ]
          ]

      pub header_before-best :
          (start : ℤ) (v v' : Verifier) (h : Hash)
          → pos 0 ≤ℤ start
          → AreStored v
          → header_before wire cfg env start v ≡ (v', ok h)
          → Looked v v' × (h ≡ best.before start)
      unfolding header_before
      header_before-best start v v' h up stored e = elim (Bool-cases (ltb_ℤ (pos 0) start)) [
        | inl q ↦
            let (looked, is) =
              stored_filter_header-Answers (start -ℤ pos 1) v v' h
                (omega (int_laws, ltb_ℤ→<ℤ (pos 0) start q)) stored (rw q at e) in
            (looked, is ∙ ap best.before (omega int_laws))
        | inr q ↦
            let zero_start : start ≡ pos 0 = omega (int_laws, ltb_ℤ→≤ℤ (pos 0) start q, up) in
            let same : ◌≡◌ {A = Verifier × Result Hash} (v, ok zero_hash) (v', ok h) = rw q at e in
            rw (← ap (λ p. p.0) same, ← ok_eq (ap (λ p. p.1) same), zero_start)
              (record { stored = stored; same_disk = refl; same_bad = refl }, sym best.genesis)
      ]
