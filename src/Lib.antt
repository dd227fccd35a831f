-- ===== src/Lib.antt =====
-- Verification of the Ceal CLI: the session commands of `ceal`, the stores that they keep under
-- ~/.ceal with their lock, its command line and its bounded streams (packages/ceal-worker-cli/src and
-- packages/ceal-client/src).
--
-- A host keeps one session file. `ceal session enroll` and `adopt` commit a session to it, every
-- command that calls the Gateway renews it first, and `ceal session logout` ends it. The receipt
-- spool and the discovery cache are derived from that session and carry its identity.
--
--   Base            lists, texts, JSON values and results that the other modules share
--   Platform        `new URL`, `Date.parse` and `toISOString`, as parameters with one law
--   SafeRef         safe-ref.ts and sha256.ts: the grammar of references, codes and digests
--   Endpoint        safe-endpoint.ts and resolveSafeHttpEndpoint of ceal-client's request-bounds.ts
--   Session         profile-store.ts: CealStoredSession, validateSession
--     Record        serializeSession and parseSession
--     Identity      session-identity.ts
--     Failure       sessionStoreFailureCode and clientSessionTransportFailure
--     World         the state of the session commands, and the store's load, save, replace, remove
--     Renewal       client-session.ts: ensureCurrentSessionWithDependencies, renewSession
--     Replacement   session-replacement.ts: commitEnrolledSession
--     Logout        client-session.ts: runSessionLogoutWithDependencies, the failure table
--   Adoption        device-adoption.ts: adoptSession, completeAdoption; Polling is its wait
--   ReceiptSpool    receipt-spool.ts: entries; File is the spool file, Drops the drop counter and
--                   CallResult the projection of a call result
--   DiscoveryCache  discovery-cache.ts
--   NamedOptions    named-options.ts
--   StoreLock       local-store-lock.ts: the lock directory, its owner record and its tombstones
--   StoreFile       local-store-file.ts: writeCealLocalStoreFile, sweepStaleTemporaries; Calls are the
--                   calls of the file system
--   BoundedProcess  bounded-process.ts: runBoundedProcess
--   StableUpdate    stable-update.ts: the runner of `ceal update`, the readbacks, compareVersions
--   ResponseBody    readBoundedResponseBody and mergeChunks of ceal-client's request-bounds.ts
--   AttachmentStream  leased-consumer-attachment-stream.ts: readAttachmentStreamRecords; Queue is the
--                   ByteQueue and Parse the grammar of the stream
--   Handoff         receiveLeasedConsumerAttachmentStream of the same file, on the records that the
--                   reader yields
--   HiddenInput     hidden-terminal-input.ts: the reader of an enrollment code
--   ControlStream   leased-consumer-control-session.ts: runLeasedConsumerControlSession
--   Tests           concrete instances
--
-- A session command is a function from the state to a result, or a thrown error, and the state that
-- it leaves. The state (World) holds the session file and every request with the file at that
-- moment, so an order of writes and requests is a fact of the final state. The n-th read and write
-- may fail as a parameter says; a failed write leaves the file as it was, as a write that is made by
-- a rename does. The Gateway's answers are parameters.
--
-- Times are milliseconds since the epoch, as natural numbers. Files hold JSON values: the texts
-- between JSON.stringify and JSON.parse are not modelled. Every loop of the modelled code runs over
-- a list, and no definition of a loop takes fuel; the loop of acquireLock runs over the list of its
-- turns. BoundedProcess.drive, the event loop when nothing but time comes, takes fuel: the time
-- left and the weight of the timers that are set are enough; so does the wait of an adoption, for
-- which the milliseconds of its local ceiling are enough, as a poll takes one at least.
--
-- The session commands run under a lock that they take as given. StoreLock models that lock: each of
-- its operations is one step on what the file system holds at the lock's path and at the tombstones'
-- paths.
--
-- StoreFile models the write that is one step of the session commands: a directory, and for each
-- call of the file system whether it works, fails, or is the one at which the process dies.
--
-- A bounded process is a function from its variables and one event to its variables. The events are
-- the chunks of the two streams, the end of the child, a millisecond that passes, and a timer that
-- fires; their order is any list. A millisecond does not pass a timer that is due.
--
-- A handoff is a function from what the reader yields to a result and to what is left of the root
-- directory; the answers of the file system are parameters. Its writes are whole, or end in a part
-- of the file.
--
-- The parts of a version are doubles in the program: how Number rounds them is a parameter, which is
-- exact on safe integers. The requests of a session name no Gateway endpoint: each goes to that of the
-- session that it concerns. In a handoff the checks of the fresh root and the agent's form of the
-- manifest are parameters. The decoder of UTF-8 is a parameter.
--
-- Not modelled: calls of two processes interleaved inside one lock operation or one write; the
-- guards of the stores but assertFile (local-store-guards.ts); the HTTP transport and the protocol
-- decoder; the texts that are printed for a reader; the rest of the leased consumer, the
-- observer, the agent guide and the release scripts.
pub mod Adoption
pub mod AttachmentStream
pub mod Base
pub mod BoundedProcess
pub mod Platform
pub mod SafeRef
pub mod Endpoint
pub mod Session
pub mod ReceiptSpool
pub mod DiscoveryCache
pub mod Handoff
pub mod HiddenInput
pub mod NamedOptions
pub mod Tests
pub mod StableUpdate
pub mod StoreFile
pub mod StoreLock
pub mod ResponseBody
pub mod ControlStream
