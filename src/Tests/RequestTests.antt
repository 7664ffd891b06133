-- ===== src/Tests/RequestTests.antt =====
-- Requests at concrete inputs: a server at height 1, and bitcoind with a block and a transaction.
use Prim.Native.String.{String}
use block_dn.Common.{
  ℕ, ◌≡◌, refl, true, false, none, some, [], ◌∷◌, List, Option, Bool, if◌then◌else◌, Bool-cases,
  ◌⊎◌, inl, inr, arith, ◌++◌,
}
use block_dn.Common.Int.{ℤ, pos, negsuc}
use block_dn.Common.Effect.{ok, pure, M}
use mathlib.Core.Path.{subst}
use block_dn.External.{Bytes}
use block_dn.Cache.{H2HCache, new_h2h_cache}
use block_dn.Files.{Disk}
use block_dn.Responses.{FileServer, everything}
use block_dn.Producer.{Base}
use block_dn.SpTweaks.{SpTweakFiles, to_uint, update_sp_tweak_files}
use block_dn.Serving.{Processor, max_age_disk, max_age_memory, unset}
use block_dn.Serving.Outcomes.{Ensures}
use block_dn.Requests.{
  Request, Server, Side, Var, send_json, codes, parse_request_param_chain_hash,
  parse_request_param_int64,
}
use block_dn.Requests.Params.{InRange}
use block_dn.Requests.Status.{Status, status_request_handler}
use block_dn.Requests.Proxy.{Node, block_request_handler}
use block_dn.Requests.Routes.{World, Endpoint, handle, create_router, Template, lit, digits_of}
use block_dn.Requests.Routes.Numbers.{
  Router, RouterLaws, OneOf, IsRoute, NamesIn, create_router-InRange,
}
use block_dn.Requests.Caching.{IsCacheable}
use block_dn.Requests.Caching.Handlers.{handle-IsCacheable}
use block_dn.Requests.Reporting.{Reports, status_request_handler-Reports}
use block_dn.Requests.Ranges.{
  headers_route, filters_route, sp_tweaks_route, headers_request_handler, filters_request_handler,
  sp_tweaks_at,
}
use block_dn.Requests.Sizes.{headers_request_handler-IsHonest}
use block_dn.Serving.Ranges.{IsHonestResult}
use block_dn.Requests.Idle.{side_of, IsUnsynced, update_sp_tweak_files-idle}
use block_dn.Tests.Toy.{toy_wire, toy_laws, toy_chain, hash_of}

abbrev processor : Processor
processor = record {
  is_startup_complete = true;
  current_height = pos 1;
  last_sealed_height = negsuc 0;
}

abbrev pub disk : Disk
disk name = none

abbrev files : FileServer
files = record {
  contents = disk;
  opens = λ name. true;
  breaks_after = λ name. none;
  multipart = λ parts. [];
}

-- The flag, the two heights and the state of a producer that has nothing.
abbrev idle_base : Base SpTweakFiles
idle_base = record {
  startup_complete = false;
  current_height = pos 0;
  last_sealed_height = negsuc 0;
  shared = record {
    cache = new_h2h_cache;
    own = record { tweak_data = λ k. none; height_to_hash = λ k. none; disk = disk };
  };
}

abbrev server_with : Option (Side SpTweakFiles) → Server ℕ
server_with sp_tweak_files = record {
  light_mode = false;
  net = 7;
  re_org_safe_depth = 6;
  headers_per_file = 4;
  filters_per_file = 2;
  sp_tweaks_per_file = 2;
  header_files = record {
    processor = processor;
    own = record { headers = λ k. none; filter_headers = λ k. some (hash_of 9); disk = disk };
  };
  cfilter_files = record {
    processor = processor;
    own = record { filters = λ k. none; height_to_hash = λ k. none; disk = disk };
  };
  sp_tweak_files = sp_tweak_files;
  custom_filter_files = none;
}

abbrev server : Server ℕ
server = server_with none

abbrev sixty_four : String
sixty_four = "00000000000000000001976b2202ff92bee756134a875e8fa73703f4047ac9fa"

abbrev pub request : Request
request = record { var = λ v. sixty_four; format = "hex"; mempool = ""; asked = everything }

abbrev object : M Bytes (Unit {0})
object out = (out ++ 1 ∷ 2 ∷ [], ok tt)

abbrev node : Node
node = record {
  get_block = λ hash. ok object;
  get_block_header = λ hash. ok object;
  get_raw_transaction = λ hash. ok object;
  get_tx_out_proof = λ hash. ok (record { block_hash = hash; encoded = ok (3 ∷ []) });
  header_height = λ hash. ok (pos 1);
  estimate_smart_fee = λ target. ok (record { has_errors = false; rate = some (pos 1000) });
  rest = λ path. ok (404, []);
  fee_per_kweight = λ k. k;
  fee_per_vbyte = λ k. k;
  new_hash_from_str = λ text. ok (hash_of 5);
}

abbrev pub world : World ℕ
world = record {
  index_html = [];
  encode_status = λ status. 4 ∷ [];
  encode_fee = λ rate. 5 ∷ [];
  wire = toy_wire;
  chain = toy_chain 0;
  node = node;
  disk = files;
}

abbrev pub warm : H2HCache
warm = record {
  height_to_hash = λ k. some (hash_of 1);
  best_height = pos 1;
  readers = 0;
  writer = false;
}

-- A block is sent as it is, to be kept for a year.
block_is_kept :
    (handle world server Endpoint.block request warm).1
    ≡ ok (record {
      status = 200;
      tier = max_age_disk;
      content_type = unset;
      content_length = none;
      body = 1 ∷ 2 ∷ [];
    })
unfolding handle block_request_handler parse_request_param_chain_hash
block_is_kept = refl

handle-IsCacheable_example :
    Ensures
      (IsCacheable world server request Endpoint.block)
      (handle world server Endpoint.block request warm).1
handle-IsCacheable_example = handle-IsCacheable world server request Endpoint.block warm

status_request_handler-Reports_example :
    (status : Status) × (status_request_handler toy_wire server
        (λ status. 4 ∷ [])
        (toy_chain 0)
        warm
      ≡ (warm, ok (send_json (4 ∷ []) max_age_memory)))
    × Reports toy_wire server (hash_of 1) (hash_of 9) status
status_request_handler-Reports_example =
    status_request_handler-Reports toy_wire server (λ status. 4 ∷ []) (toy_chain 0) warm (hash_of 1)
      (hash_of 9) refl refl refl

abbrev idle_server : Server ℕ
idle_server =
    server_with (some (side_of (update_sp_tweak_files none true true (pure tt) idle_base).0))

update_sp_tweak_files-idle_example :
    Ensures
      (IsUnsynced idle_server (λ status. 4 ∷ []))
      (status_request_handler toy_wire idle_server (λ status. 4 ∷ []) (toy_chain 0) warm).1
update_sp_tweak_files-idle_example =
    update_sp_tweak_files-idle toy_wire idle_server true true (pure tt) idle_base refl (omega arith)
      refl (λ status. 4 ∷ []) (toy_chain 0) warm

-- A router that takes the first route with a height behind a text, whatever the path.
abbrev is_height_route : Template → Bool
is_height_route (lit text ∷ digits_of Var.height ∷ []) = true
is_height_route _ = false

abbrev seven : Var → String
seven Var.height = "7"
seven _ = ""

abbrev first_height : Router
first_height [] path = none
first_height (route ∷ routes) path =
    let rest = first_height routes path in
    if is_height_route route.0 then some (route.1, seven) else rest

-- Its route has the one variable.
height-IsRoute :
    (t : Template) (endpoint : Endpoint)
    → is_height_route t ≡ true
    → IsRoute seven endpoint (t, endpoint)
height-IsRoute (lit text ∷ digits_of Var.height ∷ []) endpoint e = record {
  fits = (tt, (omega arith, tt));
  named = found;
  to = refl;
}
  where
    found : (v : Var) → NamesIn (lit text ∷ digits_of Var.height ∷ []) v ⊎ (codes (seven v) ≡ [])
    found Var.height = inl (inr (inl refl))
    found Var.hash = inr refl
    found Var.dust = inr refl
    found Var.blocks = inr refl
    found Var.filter_type = inr refl
    found Var.txid = inr refl
    found Var.vout = inr refl
height-IsRoute _ endpoint e = cc

some_pair : {found other : Endpoint × (Var → String)} → some found ≡ some other → found ≡ other
some_pair e = cc

first_matches :
    (table : List (Template × Endpoint)) (path : String) (endpoint : Endpoint) (vars : Var → String)
    → first_height table path ≡ some (endpoint, vars)
    → OneOf (IsRoute vars endpoint) table
first_matches [] path endpoint vars e = cc
first_matches (route ∷ routes) path endpoint vars e = elim (Bool-cases (is_height_route route.0)) [
  | inr q ↦ inr (first_matches routes path endpoint vars (rw q at e))
  | inl q ↦ inl (
      subst (λ (found : Endpoint × (Var → String)). IsRoute found.1 found.0 route)
        (some_pair (rw q at e)) (height-IsRoute route.0 route.1 q))
]

first_laws : RouterLaws first_height
first_laws = record { matched = first_matches }

abbrev height_request : Request
height_request = record { var = seven; format = ""; mempool = ""; asked = everything }

create_router-InRange_example : InRange (pos 7)
create_router-InRange_example =
    create_router-InRange first_height first_laws "/headers/7" Endpoint.headers height_request
      (unfold create_router in refl) Var.height (pos 7) refl
      (unfold parse_request_param_int64 in refl)

-- A request from height 0 on, which no file starts with.
abbrev from_zero : Request
from_zero = record height_request { var = λ v. "0" }

headers_request_handler-IsHonest_example :
    IsHonestResult files
      (headers_route toy_wire server)
      (headers_request_handler toy_wire server (toy_chain 0) files from_zero warm).1
    × IsHonestResult files
        (filters_route toy_wire server)
        (filters_request_handler toy_wire server (toy_chain 0) files from_zero warm).1
    × ((side : Side SpTweakFiles) (level : ℤ)
        → IsHonestResult files
            (sp_tweaks_route toy_wire server side (to_uint 64 level))
            (sp_tweaks_at toy_wire server (toy_chain 0) files from_zero side (ok level) warm).1)
headers_request_handler-IsHonest_example =
    headers_request_handler-IsHonest toy_wire toy_laws server (toy_chain 0) files from_zero warm
