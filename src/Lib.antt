-- ===== src/Lib.antt =====
-- gitedge: a Git server on Cloudflare Workers. This library models its core and proves it correct.
--
-- The program. A worker speaks the Git protocol (src/worker/git) and keeps packs in a bucket. Each
-- repository has a durable object (src/worker/do/repo/repoDO.ts), which is the authority for its
-- refs, HEAD, the catalog of its packs and the leases of pushes and compactions. A push takes a
-- lease, uploads its pack and finalizes; a queue consumer compacts packs under a lease of its own;
-- an alarm clears leases, wakes compactions and deletes abandoned repositories. Around it stand
-- workers for accounts, forge metadata, limits and routing (workers/).
--
-- The model of the durable object is explicit state passing. `RepoStateSchema` (Repo/State.antt) is
-- the storage (src/worker/do/repo/repoState.ts), the table `pack_catalog` (db/schema.ts), the alarm
-- and the access time kept in memory. An operation takes the state and returns it with its answer.
--   * Repo/Catalog.antt: the queries of db/dal/packCatalog.ts (upsertPackCatalogRow and so on).
--   * Repo/Refs.antt: isValidRefName, validateReceiveCommands, applyReceiveCommands of
--     src/worker/git/operations/validation.ts, and refs.ts.
--   * Repo/Metadata.antt: catalog/shared.ts and catalog/activity.ts.
--   * Repo/Alarm.antt: scheduler.ts, repoConfig.ts and repoDO/access.ts.
--   * Repo/Leases.antt: catalog/leases.ts (beginReceiveLease, abortReceiveLease, ...).
--   * Repo/Plan.antt: catalog/compaction/plan.ts (selectCompactionPlan, rowsMatchForCommit, ...).
--   * Repo/Compaction.antt: catalog/compaction/lease.ts (beginCompactionState,
--     commitCompactionState, rearmCompactionQueueFromAlarm).
--   * Repo/Requests.antt: catalog/compaction/requests.ts.
--   * Repo/Receive.antt: catalog/receive.ts (finalizeReceiveState).
--   * Repo/Maintenance.antt: maintenance.ts. Repo/Packs.antt: removePack of packOperations.ts.
--   * Repo/Object.antt: the calls of repoDO.ts, with repoDO/seeding.ts, and its alarm; Object/Run.antt
--     runs sequences of calls, alarms and clearRepositoryStorage.
--   * Repo/Content.antt: the part of the state that a call must leave alone when it fails.
-- Limits.antt models the rate limiter (workers/limits/src/index.ts): `consume` over the table of
-- hits; Limits/Window.antt runs a sequence of requests, Limits/Retry.antt is about `retryAfter`.
-- PktLine.antt models the frames of the protocol (src/worker/git/core/pktline.ts): the encoders,
-- decodePktLines and parsePktSection, with `parseInt` written out and `TextDecoder` as a parameter.
-- Idx.antt models a pack's index (src/worker/git/object-store/idxView.ts): parseIdxView, and the
-- searches findOffsetIndex and findOidIndexFromBytes, which share the loop `bisect`; Idx/Cache.antt
-- models the cache of such views in memory (touchIdxViewCache).
-- Idx/Write.antt models src/worker/git/pack/indexer/writeIdx.ts (buildOidSortedEntryIndices, writeIdxV2):
-- the entry table is a list of entries, SHA-1 a parameter, and the buffer the parts one after another.
-- PackMeta.antt models the header of a pack entry: encodeObjHeader (src/worker/git/core/objects.ts)
-- and src/worker/git/pack/packMeta.ts (encodeOfsDeltaDistance, readPackHeaderExFromBuf). A size has
-- at most four more groups of seven bits, a distance of 32 bits at most five.
-- Delta.antt models applyGitDelta (src/worker/git/object-store/delta.ts), with its 32-bit operations;
-- Delta/Copy.antt and Delta/Varint.antt write down the format that it reads. Its loop has the length of
-- the instructions as fuel, since each takes a byte at least.
-- Sideband.antt models src/worker/git/operations/fetch/sideband.ts: createSidebandPacketChunks, whose
-- loop has the length of the payload as fuel, since a slice has a byte at least, and the steps of
-- SidebandProgressMux, which Sideband/Progress.antt runs in any order.
-- Push.antt models the request of a push (src/worker/git/receive): readPktSectionStream of
-- pktSectionStream.ts over the list of the chunks that the stream delivers, and parseReceiveRequest
-- of request.ts.
-- Closure.antt models the selection of objects for a fetch: computeNeededFast of
-- src/worker/git/operations/fetch/neededFast.ts and findCommonHaves of operations/closure.ts. A `Set`
-- is a list with its newest member first. The answers of the object store and of the clock are
-- parameters; a round of the search takes a name off the queue at least, and Closure/Ends.antt bounds
-- the rounds by the references of the objects in reach.
-- Fetch.antt models the request of a fetch and its negotiation: parseV2Command of core/protocol.ts
-- (Fetch/Advert.antt its capabilityAdvertisement, where the refs are an argument),
-- parseFetchArgs of operations/args.ts, operations/fetch/protocol.ts, and handleFetchV2Streaming of
-- operations/uploadStream/index.ts up to the plan of a pack, with findCommonHaves of Closure.antt.
-- Patch.antt and Patch/Unified.antt model the patch of a file (src/worker/git/operations/read/diff.ts):
-- toPatchLines, diffLines, formatUnifiedRange and buildUnifiedPatch; Patch/File.antt models its caller
-- readCommitFilePatch, with the decoders of texts and the store as parameters. Patch/Lcs.antt is the specification
-- of the table that diffLines fills; its walk back has the number of lines of both sides as fuel.
-- Objects.antt models the names of objects in hexadecimal (src/worker/common/hex.ts), the raw form of
-- objects (src/worker/git/core/objects.ts), and the parsers of trees in core/object-parse.ts and
-- operations/read/objects.ts, whose loops have the length of the tree as fuel.
-- Shared.antt and its children hold what these share: Boolean tests, lists, texts, association
-- lists with the order of a `Map`, a stable sort, and elements by position.
--
-- Conventions. Numbers are ℕ. A call runs to its end before the next (the input gates of a durable
-- object), and storage calls are taken to succeed, so `catch` branches of the storage are left out.
-- `Date.now()` is a clock: one answer for each place that reads it, in order, with no assumption on
-- their order. `crypto.randomUUID()`, the bucket and the queue are outside: an identifier or the
-- success of a call is an argument. A missing field is `none`; `||` on a number replaces 0 too.
-- Rows that tie in an ORDER BY keep the order of the table. `toLowerCase` is taken on ASCII. Log
-- lines and the fixed texts of messages are left out. Fuel: the batches of Repo/Catalog.antt have the
-- number of keys, the frame decoders the length of the buffer (a frame has four bytes at least), a
-- binary search the length of its range, and `toString(16)` the 14 digits of a number below 2^53.
--
-- Not modelled: the debug snapshots, the loose objects that seedMinimalRepoState writes without a
-- pack, the purge of the bucket, and the parts listed in the manifest of this library.
pub mod Shared
pub mod Repo
pub mod Limits
pub mod PktLine
pub mod Idx
pub mod PackMeta
pub mod Delta
pub mod Sideband
pub mod Push
pub mod Patch
pub mod Closure
pub mod Objects
pub mod Fetch
