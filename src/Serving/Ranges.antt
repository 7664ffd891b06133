-- ===== src/Serving/Ranges.antt =====
-- What a range request answers.
use block_dn.Common.{
  ℕ, ◌*◌, ◌%◌, ◌^◌, ◌≡◌, refl, ap, ◌⊎◌, inl, inr, Bool, Bool-cases, ◌&&◌, ltb, leb, if◌then◌else◌,
  some, [], length, arith,
}
use block_dn.Common.Int.{ℤ, pos, ◌+ℤ◌, ◌-ℤ◌, ◌≤ℤ◌}
use block_dn.Common.Effect.{Result, ok, err, Err, Run-cases}
use block_dn.External.{Bytes, Chain}
use block_dn.Cache.{H2HCache}
use block_dn.Responses.{FileServer, Asked}
use block_dn.Responses.Parts.{IsFileOr, serve_file-cases}
use block_dn.Serving.Outcomes.{Ensures, Covers, height_based_request_handler-Ensures}
use block_dn.Serving.{
  Processor, Route, Response, check_start_height, height_based_request_handler, send_error,
  memory_response, max_age_disk, max_age_memory, no_cache,
}

-- `checkStartHeight` compares the height after its conversion to 32 bits: a multiple of 2^32 that is
-- a multiple of the file size is accepted on any chain that has its first block.
pub check_start_height-wraps :
    (p : Processor) (k entries : ℕ)
    → pos 0 ≤ℤ p.current_height
    → (k * 2 ^ 32) % entries ≡ 0
    → check_start_height p (pos (k * 2 ^ 32)) entries ≡ ok tt
unfolding check_start_height
check_start_height-wraps p k entries up even =
    let wrapped : (k * 2 ^ 32) % 2 ^ 32 ≡ 0 = omega arith in ground (arith, wrapped, even)

module _ (disk : FileServer) (route : Route) where
  -- The body is what a failed serialization has written.
  pub record IsCut (response : Response) : Type 0 where
    pub start : ℤ
    pub end : ℤ
    pub error : Err
    pub failed : (route.serialize start end []).1 ≡ err error
    pub sent : response.body ≡ (route.serialize start end []).0

  -- An announced length is the length of the body, unless the body is cut short by an error; and what
  -- may be cached for long is made of a file.
  pub record IsHonest (response : Response) : Type 0 where
    pub announced :
        (n : ℕ) → response.content_length ≡ some n → (length response.body ≡ n) ⊎ IsCut response
    pub lasting :
        response.tier ≡ max_age_disk
        → (start : ℤ) × (bytes : Bytes) × (disk.contents
              (route.file_name start (start +ℤ pos route.entries_per_file -ℤ pos 1))
            ≡ some bytes)
          × IsFileOr disk bytes response

  -- Every response that a run ends with is honest.
  abbrev pub IsHonestResult : Result Response → Type 0
  IsHonestResult result = Ensures IsHonest result

  pub error : (status : ℕ) → IsHonest (send_error status)
  unfolding send_error
  error status = record { announced = λ n e. cc; lasting = λ e. absurd (never e) }
    where
      never :
          (if leb 400 status && ltb status 500 then max_age_memory else no_cache) ≡ max_age_disk → ⊥
      never e = elim (Bool-cases (leb 400 status && ltb status 500)) [
        | inl q ↦ cc (rw q at e)
        | inr q ↦ cc (rw q at e)
      ]

  module _ (asked : Asked)
      (sized : (start end : ℤ) (n : ℕ) (out : Bytes)
        → route.size start end ≡ some n
        → route.serialize start end [] ≡ (out, ok tt)
        → length out ≡ n) where
    memory : (start end : ℤ) → IsHonest (memory_response route start end)
    unfolding memory_response
    memory start end = record { announced = length_of; lasting = λ e. cc }
      where
        length_of :
            (n : ℕ)
            → route.size start end ≡ some n
            → (length (route.serialize start end []).0 ≡ n)
              ⊎ IsCut (memory_response route start end)
        length_of n e = elim (Run-cases (route.serialize start end [])) [
          | inl (out, u, q) ↦ inl (rw q (sized start end n out e q))
          | inr (out, x, q) ↦ inr (record {
            start = start;
            end = end;
            error = x;
            failed = ap (λ (p : Bytes × Result (Unit {0})). p.1) q;
            sent = refl;
          })
        ]

    covers : Covers IsHonest disk asked route
    covers = record {
      refused = error 400;
      unavailable = error 503;
      from_file = λ start bytes q.
          serve_file-cases IsHonest disk asked
            (route.file_name start (start +ℤ pos route.entries_per_file -ℤ pos 1)) bytes (error 500)
            (λ response served. record {
              announced = λ n e. inl (served.announced n e);
              lasting = λ e. (start, bytes, q, served.kept e);
            });
      from_memory = memory;
    }

    -- If the sizes that a route computes are the lengths of what it serializes without an error,
    -- every response of `heightBasedRequestHandler`, on each of its branches and for any byte ranges
    -- and conditions of the request, is honest: a length that it announces is that of its body,
    -- unless the body is what a failed serialization has written; and if it may be cached for long,
    -- there is a file of the route on disk, and the response is all of it with the status 200, one
    -- or several parts of it with the status 206, or it has no body and the status 304 or 412.
    pub height_based_request_handler-IsHonest :
        {H : Type 0} (chain : Chain H) (p : Processor) (light_mode : Bool) (height : Result ℤ)
        (c : H2HCache)
        → IsHonestResult
            (height_based_request_handler chain disk asked light_mode p route height c).1
    height_based_request_handler-IsHonest chain p light_mode height c =
        height_based_request_handler-Ensures IsHonest disk asked route chain p covers light_mode
          height c
