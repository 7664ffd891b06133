-- ===== src/Server.antt =====
-- server.go and main.go: the settings, and how the server starts and stops. A goroutine that is
-- started is a task; the tasks themselves are the other modules' operations.
pub mod Starting
pub mod Light
pub mod Networks
use block_dn.Common.{
  ℕ, ◌+◌, ◌*◌, ◌^◌, ◌==◌, Bool, true, false, not, ◌&&◌, ◌||◌, Option, none, some, List, [], ◌∷◌,
  ◌++◌, if◌then◌else◌, bytes_eq,
}
use block_dn.Common.Int.{ℤ, pos, negsuc, ltb_ℤ, leb_ℤ}
use block_dn.Common.Effect.{
  Result, ok, err, Err, shutdown, failed, io_failed, M, pure, raise, lift, ◌>>=◌, ◌>>◌, continue,
  modify,
}
use block_dn.External.{
  Bytes, Hash, Chain, Wire, Network, mainnet, testnet3, testnet4, signet, regtest,
}
use block_dn.Cache.{H2HCache, new_h2h_cache, get_block_hash, load_from_headers}
use block_dn.Headers.{HeaderFiles}
use block_dn.CFilters.{CFilterFiles}
use block_dn.SpTweaks.{SpTweakFiles}
use block_dn.CustomFilters.{CustomFilterFiles}
use block_dn.Files.{Disk}
use block_dn.PrevOuts.{
  BlockPrevOutFetcher, PrevOutBackend, new_block_prev_out_fetcher, require_rest,
  verify_prev_out_backend_version,
}
use block_dn.Serving.{Processor}
use block_dn.Requests.{Server, Side}

-- The flags of `mainCommand` that the settings depend on.
pub record MainCommand : Type 0 where
  pub testnet : Bool
  pub testnet4 : Bool
  pub regtest : Bool
  pub signet : Bool
  pub re_org_safe_depth : ℕ

pub record Sizes : Type 0 where
  pub headers_per_file : ℕ
  pub filters_per_file : ℕ
  pub sp_tweaks_per_file : ℕ

abbrev pub default_sizes : Sizes
default_sizes = record {
  headers_per_file = 100000;
  filters_per_file = 2000;
  sp_tweaks_per_file = 2000;
}

abbrev pub regtest_sizes : Sizes
regtest_sizes = record {
  headers_per_file = 2000;
  filters_per_file = 2000;
  sp_tweaks_per_file = 2000;
}

-- `defaultMainnetReOrgSafeDepth` and `defaultTestnetReOrgSafeDepth`.
abbrev pub mainnet_depth : ℕ
mainnet_depth = 6

abbrev pub testnet_depth : ℕ
testnet_depth = 100

abbrev deepen : MainCommand → MainCommand
deepen cc =
    if cc.re_org_safe_depth == mainnet_depth
    then record cc { re_org_safe_depth = testnet_depth }
    else cc

-- `resolveNetwork`, with the command that it may change.
unfoldable pub resolve_network : MainCommand → MainCommand × Network × Sizes
resolve_network cc =
    if cc.testnet
    then (deepen cc, testnet3, default_sizes)
    else if cc.testnet4
    then (deepen cc, testnet4, default_sizes)
    else if cc.signet
    then (cc, signet, default_sizes)
    else if cc.regtest
    then (cc, regtest, regtest_sizes)
    else (cc, mainnet, default_sizes)

-- The settings of `server`; the timeouts are in nanoseconds.
pub record Settings : Type 0 where
  pub light_mode : Bool
  pub index_sp_tweak_data : Bool
  pub index_custom_filters : Bool
  pub net : ℕ
  pub re_org_safe_depth : ℕ
  pub sizes : Sizes
  pub read_timeout : ℤ
  pub write_timeout : ℤ

abbrev pub default_read_timeout : ℤ
default_read_timeout = pos (5 * 10 ^ 9)

abbrev pub default_write_timeout : ℤ
default_write_timeout = pos (5 * 60 * 10 ^ 9)

abbrev or_default : ℤ → ℤ → ℤ
or_default default timeout = if leb_ℤ timeout (pos 0) then default else timeout

unfoldable pub new_server : Settings → Settings
new_server s = record s {
  read_timeout = or_default default_read_timeout s.read_timeout;
  write_timeout = or_default default_write_timeout s.write_timeout;
}

-- The goroutines that `start` starts. A producer's takes the number of blocks.
pub data Task : Type 0 where
  web_server : Task
  header_update filter_update sp_tweak_update custom_filter_update : ℤ → Task

-- The state of `start`.
pub record Booting : Type 0 where
  pub fetcher : BlockPrevOutFetcher
  pub cache : H2HCache
  pub tasks : List Task

-- What `start` meets: whether the RPC client connects, the backend's answers, and the header files.
pub record StartEnv (H : Type 0) : Type 0 where
  pub wire : Wire H
  pub connect : Result (Unit {0})
  pub network_version : Result ℤ
  pub prev_outs : PrevOutBackend
  pub chain : Chain H
  pub header_listing : Result (List (Option Bytes))
  pub block_chain_info : Result ℤ

abbrev pub on_cache : {A : Type 0} → M H2HCache A → M Booting A
on_cache m b = let (c, r) = m b.cache in (record b { cache = c }, r)

abbrev pub on_fetcher : {A : Type 0} → M BlockPrevOutFetcher A → M Booting A
on_fetcher m b = let (f, r) = m b.fetcher in (record b { fetcher = f }, r)

-- `go func() { … }()`
abbrev pub spawn : Task → M Booting (Unit {0})
spawn task b = (record b { tasks = b.tasks ++ task ∷ [] }, ok tt)

module _ {H : Type 0} (env : StartEnv H) where
  -- The fetcher is a new one, which has not probed the REST API.
  abbrev pub make_fetcher : M Booting (Unit {0})
  make_fetcher = modify (λ b. record b { fetcher = new_block_prev_out_fetcher })

  unfoldable pub check_prev_out_backend : M Booting (Unit {0})
  check_prev_out_backend = do
    version ← lift env.network_version
    lift (verify_prev_out_backend_version version)
    on_fetcher (require_rest env.prev_outs)

  abbrev pub needs_prev_outs : Settings → Bool
  needs_prev_outs s = (s.index_sp_tweak_data || s.index_custom_filters) && not s.light_mode

  -- The comparison of the best block in the cache with the backend's.
  abbrev pub same_block : Hash → Hash → Result (Unit {0})
  same_block cached backend = if bytes_eq backend cached then ok tt else err failed

  unfoldable pub check_tip : ℤ → M Booting (Unit {0})
  check_tip best_height =
      if ltb_ℤ best_height (pos 0)
      then pure tt
      else on_cache (get_block_hash env.chain best_height) >>= λ cached.
          lift (env.chain.get_block_hash best_height) >>= λ backend.
          lift (same_block cached backend)

  unfoldable pub start_producers : Settings → ℤ → M Booting (Unit {0})
  start_producers s blocks = do
    spawn (header_update blocks)
    spawn (filter_update blocks)
    if s.index_sp_tweak_data then spawn (sp_tweak_update blocks) else pure tt
    if s.index_custom_filters then spawn (custom_filter_update blocks) else pure tt

  -- The cache is a new one when the headers are loaded.
  unfoldable pub load_headers : M Booting ℤ
  load_headers = on_cache (λ c. load_from_headers env.wire env.header_listing new_h2h_cache)

  unfoldable pub check_headers : M Booting ℤ
  unfolding load_headers check_tip
  check_headers = load_headers >>= λ best_height. check_tip best_height >> lift env.block_chain_info

  unfoldable pub check_backend : Settings → M Booting (Unit {0})
  unfolding check_prev_out_backend
  check_backend s = if needs_prev_outs s then check_prev_out_backend else pure tt

  -- What is checked before anything is started, up to the number of blocks.
  unfoldable pub prepare : Settings → M Booting ℤ
  unfolding check_backend check_headers
  prepare s = lift env.connect >> (make_fetcher >> (check_backend s >> check_headers))

  abbrev pub start_tasks : Settings → ℤ → M Booting (Unit {0})
  start_tasks s blocks =
      spawn web_server >> (if s.light_mode then pure tt else start_producers s blocks)

  unfoldable pub start : Settings → M Booting (Unit {0})
  unfolding prepare start_producers
  start s = prepare s >>= start_tasks s

-- What a goroutine does with its result: an error other than the shutdown is queued.
unfoldable pub reported : Result (Unit {0}) → List Err
reported (ok u) = []
reported (err shutdown) = []
reported (err e) = e ∷ []

-- `stop`: the result of shutting the web server down, and the errors that are queued.
unfoldable pub stop : Result (Unit {0}) → List Err → Result (Unit {0})
stop closed [] = closed
stop closed (e ∷ es) = err e

-- The producers as `newHeaderFiles` and `newCFilterFiles` make them, and after them the others.
abbrev pub new_processor : Processor
new_processor = record {
  is_startup_complete = false;
  current_height = pos 0;
  last_sealed_height = negsuc 0;
}

unfoldable pub new_header_files : {H : Type 0} → Disk → Side (HeaderFiles H)
new_header_files disk = record {
  processor = new_processor;
  own = record { headers = λ h. none; filter_headers = λ h. none; disk = disk };
}

unfoldable pub new_cfilter_files : Disk → Side CFilterFiles
new_cfilter_files disk = record {
  processor = new_processor;
  own = record { filters = λ h. none; height_to_hash = λ h. none; disk = disk };
}

unfoldable pub new_sp_tweak_files : Disk → Side SpTweakFiles
new_sp_tweak_files disk = record {
  processor = new_processor;
  own = record { tweak_data = λ h. none; height_to_hash = λ h. none; disk = disk };
}

unfoldable pub new_custom_filter_files : Disk → Side CustomFilterFiles
new_custom_filter_files disk = record {
  processor = new_processor;
  own = record {
    filters = λ h. none;
    filter_headers = λ h. none;
    height_to_hash = λ h. none;
    disk = disk;
  };
}

-- The server as its handlers see it when `start` has returned.
unfoldable pub started_server : {H : Type 0} → Settings → Disk → Server H
unfolding new_header_files new_cfilter_files new_sp_tweak_files new_custom_filter_files
started_server s disk = record {
  light_mode = s.light_mode;
  net = s.net;
  re_org_safe_depth = s.re_org_safe_depth;
  headers_per_file = s.sizes.headers_per_file;
  filters_per_file = s.sizes.filters_per_file;
  sp_tweaks_per_file = s.sizes.sp_tweaks_per_file;
  header_files = new_header_files disk;
  cfilter_files = new_cfilter_files disk;
  sp_tweak_files =
      if not s.light_mode && s.index_sp_tweak_data then some (new_sp_tweak_files disk) else none;
  custom_filter_files =
      if not s.light_mode && s.index_custom_filters
      then some (new_custom_filter_files disk)
      else none;
}
