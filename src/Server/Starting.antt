-- ===== src/Server/Starting.antt =====
-- What `start` has checked when it has started anything.
use block_dn.Common.{◌≡◌, Bool, true, ◌++◌, List, [], ◌∷◌, some, if◌then◌else◌}
use block_dn.Common.Int.{ℤ, pos, ◌≤ℤ◌}
use block_dn.Common.Effect.{ok}
use block_dn.External.{Bytes, Hash}
use block_dn.Cache.{get_block_hash, load_from_headers, new_h2h_cache}
use block_dn.PrevOuts.{chain_info}
use block_dn.Server.{
  Settings, Task, web_server, header_update, filter_update, sp_tweak_update, custom_filter_update,
  Booting, StartEnv, needs_prev_outs,
}

-- The goroutines of a server with given settings.
abbrev pub only_if : Bool → Task → List Task
only_if flag task = if flag then task ∷ [] else []

abbrev pub tasks_of : Settings → ℤ → List Task
tasks_of s blocks =
    web_server
    ∷ (if s.light_mode
        then []
        else header_update blocks
          ∷ filter_update blocks
          ∷ (only_if s.index_sp_tweak_data (sp_tweak_update blocks)
              ++ only_if s.index_custom_filters (custom_filter_update blocks)))

module _ {H : Type 0} (env : StartEnv H) (s : Settings) where
  -- The backend can serve previous outputs: it is recent enough, and its REST API answered the probe.
  pub record IsFit : Type 0 where
    pub version : ℤ
    pub answered : env.network_version ≡ ok version
    pub recent : pos 300000 ≤ℤ version
    pub body : Bytes
    pub probed : env.prev_outs.http_get chain_info ≡ ok (200, body)

  -- The best header file that was loaded is on the backend's chain.
  pub record IsAnchored (b : Booting) : Type 0 where
    pub best : ℤ
    pub loaded : (load_from_headers env.wire env.header_listing new_h2h_cache).1 ≡ ok best
    pub same :
        pos 0 ≤ℤ best
        → (hash : Hash) × (b.cache.height_to_hash best ≡ some hash)
          × (env.chain.get_block_hash best ≡ ok hash)

  pub record IsStarted (b : Booting) : Type 0 where
    pub fit : needs_prev_outs env s ≡ true → IsFit
    pub anchored : IsAnchored b
    pub blocks : ℤ
    pub counted : env.block_chain_info ≡ ok blocks
    pub tasks : b.tasks ≡ tasks_of s blocks

  -- What a successful preparation has checked.
  pub record IsPrepared (b : Booting) (blocks : ℤ) : Type 0 where
    pub fit : needs_prev_outs env s ≡ true → IsFit
    pub anchored : IsAnchored b
    pub counted : env.block_chain_info ≡ ok blocks
