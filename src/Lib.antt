-- ===== src/Lib.antt =====
-- Verification of block-dn, a server that brings Bitcoin block headers, compact filters and silent
-- payment data from bitcoind to light clients, as files that never change once they are written.
--
-- Producers follow the backend's best chain. Each keeps the newest heights in memory, writes a file
-- once its heights are below the tip by a safe depth, and rolls its memory back when the backend
-- reorganizes. They share a cache of block hashes. Requests are answered from the files, and from
-- memory for the heights behind them.
--
--   * Cache (height-to-hash-cache.go): `heightToHashCache` as a record of its map, its best height
--     and its lock; `getBlockHash`, `invalidate`, `loadFromHeaders`.
--   * Producer (file-producer.go): `producerBase` and its hooks: `updateFiles` with its catch-up and
--     poll loop, `sealReadyFiles`, `handleReorg`, `findCommonAncestor`, `rollback`.
--   * Headers (header-files.go), CFilters (cfilter-files.go), SpTweaks (silent-payments-files.go):
--     the concrete producers: what they ingest, check, write, prune and announce. Their hooks fill
--     the interface `HookLaws` of Producer/Sound.
--   * CFilters/Read: `readFilterFile` of custom-filter-files.go.
--   * Files (custom-filter-files.go, `createAndWrite`) and Entries: file output, and the loops of all
--     serializers and size functions.
--   * Responses (handlers.go, `serveFile`, `sendError`): the responses, and what Go's file server sends
--     of a file for the byte ranges and conditions of a request.
--   * Serving (handlers.go): range requests, import files, single filters, with their checks.
--   * Requests (handlers.go, models.go): the routes, and a handler for each: the range requests with
--     what they pass to Serving, the status, and the requests that are passed on to bitcoind.
--   * Server (server.go, main.go): the settings of each network, `start` with its checks and the
--     goroutines that it starts, and the server as the handlers see it then.
--   * PrevOuts (block-prevouts.go): blocks with the scripts that they spend, over REST and over the
--     RPC, the parser of the REST answer, and the prefetcher.
--   * CustomFilters (custom-filter-files.go): the producer of filters for some output types, with its
--     filter header chains, which it resumes from the files of an earlier run. The loop over the
--     filter files has one round more than there are heights to rebuild, and CustomFilters/Resume
--     shows that it ends with the result.
--   * Verify (verify.go): the verify command: the check of all sealed files against the backend, with
--     the repair, and of what the running server has in memory. Its walks over the files run on fuel,
--     one round per file; Verify/Running is on how much is enough.
--   * External: bitcoind and the btcd packages, as parameters with the laws that the code relies on.
--   * Common: integers, lists, ranges of heights, and methods with errors as state passing.
--
-- A function keeps its name, in snake case. A method takes the state that it may change and returns
-- it with a result; an error keeps what was changed before it. Heights are integers without a
-- bound; where the code converts a request's height to int32, the conversion is written out. The
-- backend is an argument of each operation that calls it, so it may differ from one operation, one
-- block or one wake-up to the next.
--
-- Loops run over the list of their heights, or on fuel: `sealReadyFiles` has one round more than
-- there are heights below the safe tip, and Producer/Sealing shows that this is enough; the loops
-- over a file have one round more than it has bytes, and the theorems on them give results of the
-- whole run; the import stream has one round more than there are heights.
--
-- Operations of different goroutines run one after the other, each as a whole. The lock of the
-- cache is modelled inside `getBlockHash`, for callers that hold it already.
--
-- Not modelled: the matching of paths by mux, JSON, the tweak calculation, the filter builder and the
-- conversion of fees, and the multipart encoding of byte ranges (parameters); logging, the flags of
-- the command line, signals, and the creation of directories. A goroutine is the operation of
-- another module; `start` only says which run.
pub mod Common
pub mod External
pub mod Cache
pub mod Files
pub mod Entries
pub mod Producer
pub mod Headers
pub mod CFilters
pub mod SpTweaks
pub mod Responses
pub mod Serving
pub mod Requests
pub mod Server
pub mod PrevOuts
pub mod Verify
pub mod CustomFilters
mod Tests
