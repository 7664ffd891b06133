-- ===== src/Responses.antt =====
-- handlers.go: the responses, and what Go's `http.ServeContent` makes of a file, for a request with
-- any `Range` and conditional headers. A body is what a GET is answered with.
pub mod Parts
use block_dn.Common.{
  ℕ, ◌+◌, ◌-◌, ◌==◌, Bool, Option, none, some, List, [], ◌∷◌, map, if◌then◌else◌, ltb, leb, ◌&&◌,
  length, take, drop,
}
use block_dn.External.{Bytes}
use block_dn.Files.{FileName, Disk}

-- The cache tiers: no header at all, no caching, and the three ages that a handler passes on.
pub data Tier : Type 0 where
  no_header no_cache max_age_temporary max_age_memory max_age_disk : Tier

-- The `Content-Type` that is set, if one is.
pub data ContentType : Type 0 where
  unset text_html text_plain application_json octet_stream multipart_byteranges : ContentType

pub record Response : Type 0 where
  pub status : ℕ
  pub tier : Tier
  pub content_type : ContentType
  pub content_length : Option ℕ
  pub body : Bytes

-- `sendError`: user errors are cached for a short time. The message is left out.
unfoldable pub send_error : ℕ → Response
send_error status = record {
  status = status;
  tier = if leb 400 status && ltb status 500 then max_age_memory else no_cache;
  content_type = unset;
  content_length = none;
  body = [];
}

-- The file system and Go's file server, as a handler meets them: the files; whether one can be
-- opened; after how many bytes the copy of one to a client breaks off, if it does; and the encoding
-- of several parts of a file, with its random boundary, by mime/multipart.
pub record FileServer : Type 0 where
  pub contents : Disk
  pub opens : FileName → Bool
  pub breaks_after : FileName → Option ℕ
  pub multipart : List Bytes → Bytes

-- A byte range: `a-b` as `a` and `b - a`, `a-`, and `-n`.
pub data ByteRange : Type 0 where
  between : ℕ → ℕ → ByteRange
  from : ℕ → ByteRange
  last : ℕ → ByteRange

-- What the headers of a request ask for, once the conditional ones are compared with the time of the
-- file: all of it, byte ranges, or nothing, as the file is not modified or a precondition fails. A
-- `Range` header may also be malformed.
pub data Asked : Type 0 where
  everything malformed not_modified precondition_failed : Asked
  ranges : ByteRange → List ByteRange → Asked

-- The start and the length of a range in a file of a size; `none` is a range behind its end.
unfoldable pub within : ℕ → ByteRange → Option (ℕ × ℕ)
within size (between first more) =
    if leb size first
    then none
    else if ltb (first + more) size
    then some (first, more + 1)
    else some (first, size - first)
within size (from first) = if leb size first then none else some (first, size - first)
within size (last count) = if leb size count then some (0, size) else some (size - count, count)

abbrev pub put_piece : Option (ℕ × ℕ) → List (ℕ × ℕ) → List (ℕ × ℕ)
put_piece none pieces = pieces
put_piece (some piece) pieces = piece ∷ pieces

abbrev pub pieces_of : ℕ → List ByteRange → List (ℕ × ℕ)
pieces_of size [] = []
pieces_of size (r ∷ rs) = put_piece (within size r) (pieces_of size rs)

abbrev pub total : List (ℕ × ℕ) → ℕ
total [] = 0
total (piece ∷ pieces) = piece.1 + total pieces

abbrev pub slice : Bytes → ℕ × ℕ → Bytes
slice bytes piece = take piece.1 (drop piece.0 bytes)

module _ (multipart : List Bytes → Bytes) (tier : Tier) (bytes : Bytes) where
  abbrev pub whole_response : Response
  whole_response = record {
    status = 200;
    tier = tier;
    content_type = octet_stream;
    content_length = some (length bytes);
    body = bytes;
  }

  abbrev pub part_response : ℕ × ℕ → List (ℕ × ℕ) → Response
  part_response piece [] = record {
    status = 206;
    tier = tier;
    content_type = octet_stream;
    content_length = some piece.1;
    body = slice bytes piece;
  }
  part_response piece (next ∷ pieces) = record {
    status = 206;
    tier = tier;
    content_type = multipart_byteranges;
    content_length = some (length (multipart (map (slice bytes) (piece ∷ next ∷ pieces))));
    body = multipart (map (slice bytes) (piece ∷ next ∷ pieces));
  }

  -- An empty answer, by its status and the type that is left in its headers.
  abbrev pub bare_response : ℕ → Tier → ContentType → Response
  bare_response status tier content_type = record {
    status = status;
    tier = tier;
    content_type = content_type;
    content_length = none;
    body = [];
  }

  -- Ranges that are all behind the end are refused, unless the file is empty; and the whole file is
  -- sent if the ranges are longer together. The error takes the `Cache-Control` header away.
  unfoldable pub ranges_response : List (ℕ × ℕ) → Response
  ranges_response [] =
      if length bytes == 0 then whole_response else bare_response 416 no_header text_plain
  ranges_response (piece ∷ pieces) =
      if ltb (length bytes) (total (piece ∷ pieces))
      then whole_response
      else part_response piece pieces

  -- `http.ServeContent` on a file with these bytes.
  unfoldable pub serve_content : Asked → Response
  unfolding ranges_response
  serve_content everything = whole_response
  serve_content malformed = bare_response 416 no_header text_plain
  serve_content not_modified = bare_response 304 tier unset
  serve_content precondition_failed = bare_response 412 tier octet_stream
  serve_content (ranges r rs) = ranges_response (pieces_of (length bytes) (r ∷ rs))

-- `serveFile` on a file that exists, with the cache headers that the caller has set.
unfoldable pub serve_file : FileServer → Asked → FileName → Bytes → Response
serve_file files asked name bytes =
    if files.opens name
    then serve_content files.multipart max_age_disk bytes asked
    else send_error 500
