-- ===== src/Lib.antt =====
-- A model of the vault synchronisation core of packages/core/src, with the theorems that make it
-- correct.
--
-- A vault is a set of notes that several devices keep in step through one authority. A device scans
-- its files into buckets of changes, fetches the authority's manifest, and plans a cycle of pushes
-- and pulls against the index of the heads that it last knew. The authority arbitrates every pushed
-- commit against the version history: it is applied, displaces the standing head or loses to it, and
-- the losing content is kept under the path of a conflict copy. A snapshot records the heads, and
-- a restore brings them back by ordinary commits.
--
-- The source files named here stand in packages/core/src:
--
-- Prelude        shared types and lemmas: text as UTF-16 units, dictionaries, results, permutations
-- Types, Clock   types.ts; clock.ts: compareClocks, nextClock
-- Decimal        the decimal form of a number in `v${n}` and ` ${n}`
-- Platform       the Unicode tables of the platform, a parameter: NFC and toLowerCase
-- Paths          paths.ts: normalizeVaultPath, joinPath, parentPath, basename, foldKeyForPath
-- ConflictNames  conflictnames.ts: sanitizeDeviceName, conflictCopyPath
-- Arbitrate      server/arbitrate.ts: State has the types, Commit arbitrateCommit with a function
--                per branch, Safety pathSafetyViolation; Branches and Inversion are the branches as
--                an indexed type, from which the other modules prove their invariants
-- Snapshots      server/snapshots.ts: snapshotHeadsOf, planSnapshotRestore; the commit loop of
--                handleSnapshotRestore in inmemory-server.ts
-- Wire           hashing.ts: sha256Hex; protocol.ts: bytesToBase64, base64ToBytes
-- Authority      inmemory-server.ts: Messages are those of protocol.ts, State has the server and its
--                plumbing, Hello, Content, Commits and Restores a function per handler, Session
--                handle and the queue; Steps is the step relation, and Changes what a step does to
--                the vault, over which Numbers, Blobs, Follow, History, CatchUp, Delta and
--                Restoring go by induction
-- Ignore         ignore.ts: isIgnored, with the matcher of the extra patterns
-- Scan           scan.ts: canonical paths, the walk in both modes, the deletions, detectRenames (Renames),
--                detectEmptyFolders (Folders) and scanVault (Whole)
-- Compat         compat.ts: parseSemVer, compareSemVer, checkServerCompatibility
-- LocalIndex     localindex.ts: applyCommit, removeEntry; recordHashedFiles of scan.ts
-- Resolve        resolve.ts: Contested has resolveContestedPath, Moves phase A of computeSyncPlan,
--                Plan the phases B to D, Order the sorting and the hoist
-- Merge          merge/threeway.ts: mergeText3 by lines, with lcsPairs as a table and a walk
-- Tests          runs on concrete data and the theorems at them
--
-- A map is an association list with one entry for a key, in the order of insertion, as `Map` and
-- `Object.keys` enumerate paths. An optional flag, which the code tests for being true, is a Boolean.
-- An error is its class; no code reads the message texts. `Array.prototype.sort` is the stable
-- insertion sort, which is that of the platform on consistent comparisons. Numbers are natural
-- numbers: counters, sizes and times are never negative, and none comes near 2^53. Time is an
-- argument, as in the code.
--
-- The authority's handlers return the next server and the messages that they send, in order. A
-- transport is a name; a closed one keeps its entry, marked closed, where the source drops it. The
-- handlers that await are queued as jobs and run one at a time, first come first served; between the
-- two any other step may come. A handler reads the clock once. Deliveries are what is sent, and
-- what the receivers do is their own step. The digest of Web Crypto, atob and btoa are parameters.
--
-- The loops that are not structural run on a number of rounds: the search for a copy name on the
-- 998 rounds that its `for` has, the hoist on the number of pushes (a round passes one at least), the
-- walk from a file to the folders above it on the length of its path (a parent is shorter), the
-- walk of the merge on the lengths of both texts (a round moves on in one), and the decimal form on
-- the number itself.
--
-- Not modelled: the progress reports of the scan, the pull engine, the
-- serialised index, the validation of messages, the session of the client, and all of the other
-- packages (the worker, the plugin, the daemon, the command line, the dashboard, the scripts), which
-- wrap the core in storage, network and user interface.
pub mod Prelude
pub mod Types
pub mod Clock
pub mod Decimal
pub mod Platform
pub mod Paths
pub mod ConflictNames
pub mod Arbitrate
mod Tests
pub mod Snapshots
pub mod LocalIndex
pub mod Resolve
pub mod Merge
pub mod Ignore
pub mod Scan
pub mod Compat
pub mod Wire
pub mod Authority
