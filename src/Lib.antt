-- ===== src/Lib.antt =====
-- Verification library of the Hermes Codex bridge (bridge/src).
--
-- The bridge runs beside Codex. It observes what Codex writes, keeps each message as a durable
-- candidate, publishes a candidate to Telegram when the user is away or has had time to answer
-- locally, and brings the replies back to the Codex task they belong to. Every file below opens
-- with the source it is about; functions keep the source's names in snake case.
--
--   Base              lists, texts, JSON values, Boolean tests and results
--   Runtime           what Node.js provides: JSON texts, SHA-256, byte lengths (a parameter)
--   Contracts         bridge/src/contracts.mjs: validateEvent, validateReply and time stamps
--   CandidateStore    bridge/src/candidate-store.mjs: records, files, put, get, list, transition
--   NotificationGate  bridge/src/notification-gate.mjs: observe, flush, isReplyCurrent
--   ReplyDispatcher   bridge/src/reply-dispatcher.mjs: apply, processDirectory, scanInternal
--   Ledger            bridge/src/ledger.mjs: openLedger, has, mark, close, the canonical claims
--   UiActionStore     bridge/src/ui-action-store.mjs: enqueue, claim, release, applied, reject,
--                     listReady, registerRouter, heartbeat, healthSnapshot
--   FinalIdentity     bridge/src/final-identity.mjs: the names of final messages and of events
--   RolloutParser     bridge/src/rollout-parser.mjs: the parser of a record, and its two loops
--   SessionWatcher    bridge/src/session-watcher.mjs: the state file,
--                     walkCompleteRecords, deliverObservation
--   UiRouterHealth    bridge/src/ui-router-health.mjs: observe, over runs of observations
--
-- What a guard is meant to make sure of is said beside the code, on JSON records, files and times:
-- Contracts/Accepted and Contracts/Answered (a valid event and reply), ReplyDispatcher/Admitted (a
-- pair of files in time), UiActionStore/Task and UiActionStore/Leases (a reply that is free),
-- Ledger/Legacy (the lines of a text), RolloutParser/Subagent (a subagent's session).
--
-- A method that awaits is a function on the whole state: the promise chains of the source run one
-- call after the other. A file system is an association list of leaves with what `lstat` and
-- `readFile` tell of them; a write happens whole or not at all, and a stream of faults tells which
-- one fails. Clocks, the publisher, presence and the sinks are parameters, given by the number of
-- the call. Loops recur on the list that the source walks; where the source walks bytes and takes
-- some at each turn, the fuel is the number of the bytes, or one more (RolloutParser/Stream,
-- SessionWatcher/Frames, SessionWatcher/Walk). Within a call of the ledger, the claims that other
-- processes link in between are a parameter; the action store's methods run one after the other.
--
-- A JSON value is data (Base/Json), an object an ordered list of fields; `undefined` is a field
-- that is not there. Numbers are natural, or another finite number by its text. Texts are lists of
-- code points.
--
-- Not modelled: of the session watcher, the scan of the session files and the bootstrap; the
-- thread driver, the event publisher and the policy; process control, installation, the command
-- line, the redaction expressions, the app server's streams and the Hermes side.
mod Base
pub mod Runtime
pub mod Contracts
pub mod CandidateStore
pub mod NotificationGate
pub mod ReplyDispatcher
pub mod UiRouterHealth
pub mod Ledger
pub mod UiActionStore
pub mod FinalIdentity
pub mod RolloutParser
pub mod SessionWatcher
