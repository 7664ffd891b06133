-- ===== src/Responses/Parts.antt =====
-- What Go's file server sends is made of the file's bytes, and of the announced length.
use block_dn.Common.{
  ℕ, zero, suc, ◌+◌, ◌-◌, ◌≤◌, ◌<◌, ◌≡◌, ◌∙◌, ◌==◌, refl, ap, inl, inr, Bool-cases, Option-cases,
  some, List, [], ◌∷◌, map, length, take, drop, ltb, leb, All, arith,
}
use mathlib.Core.Path.{subst}
use block_dn.External.{Bytes}
use block_dn.Files.{FileName}
use block_dn.Responses.{
  Tier, max_age_disk, Response, send_error, FileServer, ByteRange, between, from, last, Asked,
  everything, malformed, not_modified, precondition_failed, ranges, within, pieces_of, total, slice,
  whole_response, part_response, ranges_response, serve_content, serve_file,
}

-- A piece lies inside a file of a size.
abbrev pub IsInside : ℕ → ℕ × ℕ → Type 0
IsInside size piece = piece.0 + piece.1 ≤ size

some_piece :
    (size : ℕ) (a piece : ℕ × ℕ) → IsInside size a → some a ≡ some piece → IsInside size piece
some_piece size a piece inside e = subst (IsInside size) (piece_eq e) inside
  where
    piece_eq : some a ≡ some piece → a ≡ piece
    piece_eq e = cc

within-IsInside :
    (size : ℕ) (r : ByteRange) (piece : ℕ × ℕ) → within size r ≡ some piece → IsInside size piece
unfolding within
within-IsInside size (between first more) piece e = elim (Bool-cases (leb size first)) [
  | inl q ↦ cc (rw (q, within) at e)
  | inr q ↦ elim (Bool-cases (ltb (first + more) size)) [
    | inl q2 ↦
        some_piece size (first, more + 1) piece (ground (arith, q2)) (rw (q, q2, within) at e)
    | inr q2 ↦
        some_piece size (first, size - first) piece (ground (arith, q)) (rw (q, q2, within) at e)
  ]
]
within-IsInside size (from first) piece e = elim (Bool-cases (leb size first)) [
  | inl q ↦ cc (rw (q, within) at e)
  | inr q ↦ some_piece size (first, size - first) piece (ground (arith, q)) (rw (q, within) at e)
]
within-IsInside size (last count) piece e = elim (Bool-cases (leb size count)) [
  | inl q ↦ some_piece size (0, size) piece (omega arith) (rw (q, within) at e)
  | inr q ↦ some_piece size (size - count, count) piece (ground (arith, q)) (rw (q, within) at e)
]

pieces_of-All : (size : ℕ) (rs : List ByteRange) → All (IsInside size) (pieces_of size rs)
pieces_of-All size [] = tt
pieces_of-All size (r ∷ rs) = elim (Option-cases (within size r)) [
  | inl q ↦ rw q (pieces_of-All size rs)
  | inr (piece, q) ↦ rw q (within-IsInside size r piece q, pieces_of-All size rs)
]

length-slice :
    (bytes : Bytes) (start count : ℕ)
    → start + count ≤ length bytes
    → length (take count (drop start bytes)) ≡ count
length-slice bytes zero zero le = refl
length-slice [] zero (suc count) le = absurd (omega arith)
length-slice (b ∷ bytes) zero (suc count) le = ap suc (length-slice bytes zero count (omega arith))
length-slice [] (suc start) zero le = refl
length-slice [] (suc start) (suc count) le = absurd (omega arith)
length-slice (b ∷ bytes) (suc start) count le = length-slice bytes start count (omega arith)

module _ (files : FileServer) (bytes : Bytes) where
  -- A response that may be kept: the whole file, one part of it, several parts in the encoding of
  -- mime/multipart, or no bytes at all, each under its own status.
  pub data IsFileOr (response : Response) : Type 0 where
    whole : response.status ≡ 200 → response.body ≡ bytes → IsFileOr response
    part :
        (piece : ℕ × ℕ)
        → IsInside (length bytes) piece
        → response.status ≡ 206
        → response.body ≡ slice bytes piece
        → IsFileOr response
    parts :
        (pieces : List (ℕ × ℕ))
        → All (IsInside (length bytes)) pieces
        → response.status ≡ 206
        → response.body ≡ files.multipart (map (slice bytes) pieces)
        → IsFileOr response
    unmodified : response.status ≡ 304 → response.body ≡ [] → IsFileOr response
    mismatch : response.status ≡ 412 → response.body ≡ [] → IsFileOr response

  -- A response of the file server: it is as above if it may be kept for long, a length that it
  -- announces is that of its body, and it is no failure of the server.
  pub record IsServed (response : Response) : Type 0 where
    pub kept : response.tier ≡ max_age_disk → IsFileOr response
    pub announced : (n : ℕ) → response.content_length ≡ some n → length response.body ≡ n
    pub low : response.status < 500

  some_eq : {a b : ℕ} → some a ≡ some b → a ≡ b
  some_eq e = cc

  whole-IsServed : (tier : Tier) → IsServed (whole_response files.multipart tier bytes)
  whole-IsServed tier = record {
    kept = λ e. whole refl refl;
    announced = λ n e. some_eq e;
    low = omega arith;
  }

  part-IsServed :
      (tier : Tier) (piece : ℕ × ℕ) (pieces : List (ℕ × ℕ))
      → All (IsInside (length bytes)) (piece ∷ pieces)
      → IsServed (part_response files.multipart tier bytes piece pieces)
  part-IsServed tier piece [] (inside, _) = record {
    kept = λ e. part piece inside refl refl;
    announced = λ n e. length-slice bytes piece.0 piece.1 inside ∙ some_eq e;
    low = omega arith;
  }
  part-IsServed tier piece (next ∷ pieces) inside = record {
    kept = λ e. parts (piece ∷ next ∷ pieces) inside refl refl;
    announced = λ n e. some_eq e;
    low = omega arith;
  }

  ranges-IsServed :
      (tier : Tier) (pieces : List (ℕ × ℕ))
      → All (IsInside (length bytes)) pieces
      → IsServed (ranges_response files.multipart tier bytes pieces)
  unfolding ranges_response
  ranges-IsServed tier [] _ = elim (Bool-cases (length bytes == 0)) [
    | inl q ↦ rw q (whole-IsServed tier)
    | inr q ↦ rw q (record { kept = λ e. cc; announced = λ n e. cc; low = omega arith })
  ]
  ranges-IsServed tier (piece ∷ pieces) inside =
      elim (Bool-cases (ltb (length bytes) (total (piece ∷ pieces)))) [
        | inl q ↦ rw q (whole-IsServed tier)
        | inr q ↦ rw q (part-IsServed tier piece pieces inside)
      ]

  pub serve_content-IsServed :
      (tier : Tier) (asked : Asked) → IsServed (serve_content files.multipart tier bytes asked)
  unfolding serve_content
  serve_content-IsServed tier everything = whole-IsServed tier
  serve_content-IsServed tier malformed = record {
    kept = λ e. cc;
    announced = λ n e. cc;
    low = omega arith;
  }
  serve_content-IsServed tier not_modified = record {
    kept = λ e. unmodified refl refl;
    announced = λ n e. cc;
    low = omega arith;
  }
  serve_content-IsServed tier precondition_failed = record {
    kept = λ e. mismatch refl refl;
    announced = λ n e. cc;
    low = omega arith;
  }
  serve_content-IsServed tier (ranges r rs) =
      ranges-IsServed tier (pieces_of (length bytes) (r ∷ rs))
        (pieces_of-All (length bytes) (r ∷ rs))

-- What is sent for a file: the error that it cannot be opened, or what the file server makes of it.
pub serve_file-cases :
    (P : Response → Type 0) (files : FileServer) (asked : Asked) (name : FileName) (bytes : Bytes)
    → P (send_error 500)
    → ((response : Response) → IsServed files bytes response → P response)
    → P (serve_file files asked name bytes)
unfolding serve_file
serve_file-cases P files asked name bytes unreadable served = elim (Bool-cases (files.opens name)) [
  | inl q ↦ rw q (served _ (serve_content-IsServed files bytes max_age_disk asked))
  | inr q ↦ rw q unreadable
]
