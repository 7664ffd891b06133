-- ===== src/Server/Light.antt =====
-- Light mode: what its server can and cannot answer.
use block_dn.Common.{◌≡◌, refl, none, some, false}
use block_dn.Common.Int.{pos}
use block_dn.Common.Effect.{ok, err, Err, blocked}
use block_dn.External.{Hash}
use block_dn.Cache.{H2HCache}
use block_dn.Serving.{send_error}
use block_dn.Requests.{Request}
use block_dn.Requests.Routes.{World, Endpoint, handle}
use block_dn.Requests.Reporting.{status_request_handler-fails}
use block_dn.Server.{Settings, started_server}

-- A server that has just been started, and one in light mode for as long as it runs, since no
-- producer then stores a filter header, answers no status request with success. While no writer
-- holds the lock of the cache: if the first block's hash is cached, or the backend refuses it, the
-- handler sends the status 500 and leaves the cache as it was; and if the hash is not cached and
-- the backend has it, as in light mode without header files, the handler waits for its own lock
-- and never answers.
pub status-fails :
    {H : Type 0} (s : Settings) (w : World H) (r : Request) (c : H2HCache)
    → c.writer ≡ false
    → ((hash : Hash)
        → c.height_to_hash (pos 0) ≡ some hash
        → handle w (started_server s w.disk.contents) Endpoint.status r c
          ≡ (c, ok (send_error 500)))
      × ((e : Err)
          → c.height_to_hash (pos 0) ≡ none
          → w.chain.get_block_hash (pos 0) ≡ err e
          → handle w (started_server s w.disk.contents) Endpoint.status r c
            ≡ (c, ok (send_error 500)))
      × ((hash : Hash)
          → c.height_to_hash (pos 0) ≡ none
          → w.chain.get_block_hash (pos 0) ≡ ok hash
          → (handle w (started_server s w.disk.contents) Endpoint.status r c).1 ≡ err blocked)
unfolding handle started_server
status-fails s w r c free =
    status_request_handler-fails w.wire (started_server s w.disk.contents) w.encode_status w.chain c
      free refl
