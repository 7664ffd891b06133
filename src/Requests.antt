-- ===== src/Requests.antt =====
-- handlers.go: what a request brings, the server as its handlers see it, and the functions that
-- send responses. The children have the handlers.
pub mod Params
pub mod Ranges
pub mod Status
pub mod Proxy
pub mod Routes
pub mod Caching
pub mod Reporting
pub mod Idle
pub mod Sizes
use Prim.Native.Char.{code}
use Prim.Native.String.{String}
use text.Mathlib.Text.{◌==◌ as str_eq}
use block_dn.Common.{
  ℕ, zero, suc, ◌+◌, ◌-◌, ◌*◌, ◌^◌, ◌==◌, Bool, ◌&&◌, Option, none, some, List, [], ◌∷◌,
  if◌then◌else◌, ltb, leb, length,
}
use block_dn.Common.Int.{ℤ, pos, negsuc}
use block_dn.Common.Effect.{Result, ok, err, failed, M, and_then}
use block_dn.External.{Bytes, Hash}
use block_dn.Serving.{
  Tier, no_header, no_cache, max_age_temporary, max_age_memory, max_age_disk, application_json,
  unset, Response, Processor,
}
use block_dn.Responses.{Asked}
use block_dn.Headers.{HeaderFiles}
use block_dn.CFilters.{CFilterFiles}
use block_dn.SpTweaks.{SpTweakFiles}
use block_dn.CustomFilters.{CustomFilterFiles}

-- The variables of the routes. A variable that the route does not have is empty.
pub data Var : Type 0 where
  hash height dust blocks filter_type txid vout : Var

-- `mux.Vars(r)`, the two query parameters that are read, and what the headers ask of a file.
pub record Request : Type 0 where
  pub var : Var → String
  pub format : String
  pub mempool : String
  pub asked : Asked

-- A producer as a handler reads it: its three atomics, and its own maps.
pub record Side (S : Type 0) : Type 0 where
  pub processor : Processor
  pub own : S

-- `server`, the fields that a handler reads. `none` is a producer that was not started.
pub record Server (H : Type 0) : Type 0 where
  pub light_mode : Bool
  pub net : ℕ
  pub re_org_safe_depth : ℕ
  pub headers_per_file : ℕ
  pub filters_per_file : ℕ
  pub sp_tweaks_per_file : ℕ
  pub header_files : Side (HeaderFiles H)
  pub cfilter_files : Side CFilterFiles
  pub sp_tweak_files : Option (Side SpTweakFiles)
  pub custom_filter_files : Option (Side CustomFilterFiles)

-- The bytes of a decimal number, one digit after the other; `none` at any other character.
unfoldable pub digits : ℕ → List ℕ → Option ℕ
digits value [] = some value
digits value (c ∷ cs) =
    if leb b'0' c && leb c b'9' then digits (value * 10 + (c - b'0')) cs else none

abbrev pub codes : String → List ℕ
codes String.[] = []
codes (String.◌∷◌ c s) = code c ∷ codes s

-- `strconv.ParseInt(s, 10, 64)`: a sign, digits, and the range of an int64.
abbrev pub positive : Option ℕ → Result ℤ
positive none = err failed
positive (some n) = if ltb n (2 ^ 63) then ok (pos n) else err failed

abbrev pub negative : Option ℕ → Result ℤ
negative none = err failed
negative (some zero) = ok (pos 0)
negative (some (suc n)) = if ltb n (2 ^ 63) then ok (negsuc n) else err failed

abbrev pub some_digits : List ℕ → Option ℕ
some_digits [] = none
some_digits (c ∷ cs) = digits 0 (c ∷ cs)

unfoldable pub parse_int : List ℕ → Result ℤ
unfolding digits
parse_int [] = err failed
parse_int (c ∷ cs) =
    if c == b'+'
    then positive (some_digits cs)
    else if c == b'-'
    then negative (some_digits cs)
    else positive (digits 0 (c ∷ cs))

-- An empty variable is refused before it is parsed.
abbrev pub parse_some : List ℕ → Result ℤ
parse_some [] = err failed
parse_some (c ∷ cs) = parse_int (c ∷ cs)

unfoldable pub parse_request_param_int64 : Request → Var → Result ℤ
unfolding parse_int
parse_request_param_int64 r name = parse_some (codes (r.var name))

-- `hash_from_str` is `chainhash.NewHashFromStr`.
unfoldable pub parse_request_param_chain_hash : (String → Result Hash) → Request → Var → Result Hash
parse_request_param_chain_hash hash_from_str r name =
    if length (codes (r.var name)) == 64 then hash_from_str (r.var name) else err failed

-- The ages in seconds.
abbrev pub max_age_disk_secs : ℕ
max_age_disk_secs = 60 * 60 * 24 * 365

-- The `Cache-Control` header: none, `no-cache`, `public, max-age=n`, and the same with
-- `stale-while-revalidate=86400`.
pub data CacheControl : Type 0 where
  absent no_caching : CacheControl
  public_for revalidated_after : ℕ → CacheControl

unfoldable pub add_cache_headers : ℕ → CacheControl
add_cache_headers secs =
    if secs == 0
    then no_caching
    else if leb max_age_disk_secs secs
    then revalidated_after secs
    else public_for secs

abbrev pub tier_header : Tier → CacheControl
tier_header no_header = absent
tier_header no_cache = add_cache_headers 0
tier_header max_age_temporary = add_cache_headers 1
tier_header max_age_memory = add_cache_headers 60
tier_header max_age_disk = add_cache_headers max_age_disk_secs

abbrev pub cache_control : Response → CacheControl
cache_control response = tier_header response.tier

-- `sendJSON`, and `sendJsonCopy` of a body that another server sent.
abbrev pub send_json : Bytes → Tier → Response
send_json body tier = record {
  status = 200;
  tier = tier;
  content_type = application_json;
  content_length = none;
  body = body;
}

-- `sendBinary`: what `Serialize` has written, also if it ends in an error.
abbrev pub send_binary : M Bytes (Unit {0}) → Tier → Response
send_binary serialize tier = record {
  status = 200;
  tier = tier;
  content_type = unset;
  content_length = none;
  body = (serialize []).0;
}

-- "bin" and "hex" are taken as they are, anything else is "json".
pub data Format : Type 0 where
  json bin hex : Format

unfoldable pub query_format : Request → Format
query_format r = if str_eq r.format "bin" then bin else if str_eq r.format "hex" then hex else json

unfoldable pub check_mempool : Request → Bool
check_mempool r = str_eq r.mempool "true"
