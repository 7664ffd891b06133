-- ===== src/Tests/ServerTests.antt =====
-- The start of a server at concrete settings.
use block_dn.Common.{ℕ, ◌≡◌, refl, true, false, none, some, [], ◌∷◌, replicate}
use block_dn.Common.Int.{pos}
use block_dn.Common.Effect.{Err, ok, err, blocked, pure}
use block_dn.External.{Hash}
use block_dn.Cache.{new_h2h_cache}
use block_dn.CustomFilters.Building.{update_custom_files}
use block_dn.Serving.{send_error}
use block_dn.Requests.Routes.{Endpoint, handle}
use block_dn.Server.{
  MainCommand, Settings, regtest_sizes, Booting, StartEnv, started_server, resolve_network,
  new_server,
}
use block_dn.Server.Light.{status-fails}
use block_dn.Server.Networks.{Fits, resolve_network-Fits}
use block_dn.Tests.Toy.{toy_wire, toy_chain, hash_of}
use block_dn.Tests.RequestTests.{world, request, disk, warm}

abbrev settings : Settings
settings = record {
  light_mode = false;
  index_sp_tweak_data = true;
  index_custom_filters = false;
  net = 7;
  re_org_safe_depth = 6;
  sizes = regtest_sizes;
  read_timeout = pos 0;
  write_timeout = pos 7;
}

abbrev env : StartEnv ℕ
env = record {
  wire = toy_wire;
  connect = ok tt;
  network_version = ok (pos 300000);
  prev_outs = record { http_get = λ path. ok (200, []); get_block = λ hash. ok [] };
  chain = toy_chain 0;
  header_listing = ok (some (replicate 80 0) ∷ []);
  block_chain_info = ok (pos 3);
}

abbrev booting : Booting
booting = record {
  fetcher = record { probed = false; use_rest = false };
  cache = new_h2h_cache;
  tasks = [];
}

abbrev light : Settings
light = record settings { light_mode = true }

-- Its first block is cached.
status-fails_example :
    ((hash : Hash)
      → warm.height_to_hash (pos 0) ≡ some hash
      → handle world (started_server light disk) Endpoint.status request warm
        ≡ (warm, ok (send_error 500)))
    × ((e : Err)
        → warm.height_to_hash (pos 0) ≡ none
        → world.chain.get_block_hash (pos 0) ≡ err e
        → handle world (started_server light disk) Endpoint.status request warm
          ≡ (warm, ok (send_error 500)))
    × ((hash : Hash)
        → warm.height_to_hash (pos 0) ≡ none
        → world.chain.get_block_hash (pos 0) ≡ ok hash
        → (handle world (started_server light disk) Endpoint.status request warm).1 ≡ err blocked)
status-fails_example = status-fails light world request warm refl

-- With an empty cache no answer comes.
empty_cache_blocks :
    (handle world (started_server light disk) Endpoint.status request new_h2h_cache).1 ≡ err blocked
empty_cache_blocks =
    (status-fails light world request new_h2h_cache (unfold new_h2h_cache in refl)).2 (hash_of 0)
      (unfold new_h2h_cache in refl) refl

abbrev command : MainCommand
command = record {
  testnet = false;
  testnet4 = true;
  regtest = true;
  signet = false;
  re_org_safe_depth = 6;
}

resolve_network-Fits_example :
    Fits command (resolve_network command)
    × (update_custom_files
          (resolve_network command).2.filters_per_file
          (resolve_network command).2.headers_per_file
          true
          (pure tt)
        ≡ pure {S = ℕ} tt)
resolve_network-Fits_example = resolve_network-Fits command (pure tt)

-- Testnet 4 comes before regtest, and a missing timeout becomes the default.
depth_of_testnet4 : (resolve_network command).0.re_org_safe_depth ≡ 100
unfolding resolve_network
depth_of_testnet4 = refl

timeout_of_zero : (new_server settings).read_timeout ≡ pos 5000000000
unfolding new_server
timeout_of_zero = refl
