-- ===== src/Lib.antt =====
-- SkillMeter for Claude Code: when the client captures, keeps and sends telemetry.
--
-- The client (clients/claude-code/skillmeter/scripts, with shared/lib copied into its lib folder)
-- is a set of short processes, hooks, commands and drains, that share files: the session of the
-- account, its refresh status, the telemetry policy, the backfill state and the upload queues. The
-- development models what each process does to those files as functions on their content, and what
-- several processes do as sequences of such steps or as functions between the steps of one.
--
-- * Session (credstore.js): the session and each write of it under its lock, bound to a snapshot
--   or an intent; Session/Intents runs interleaved writes, Session/Transmission compares the check
--   before an upload with the capture gate.
-- * Renewal (shared/lib/license-renewal.js, lib/license-activation.js): `renew_via_broker`,
--   `renew_and_record` and `ensure_fresh` over the session and the status file. The requests stand
--   in Renewal/Requests (refreshGrant of shared/lib/broker.js, exchangeIdToken of
--   shared/lib/license-exchange.js); the servers, and other processes during a request, are
--   parameters.
-- * Status (lib/license-status.js): the refresh status; `update_license_status` is its
--   compare-and-update loop with five tries. Its `Surroundings` say what others write before the
--   check and before the rename of the try with k tries left, and with which digest of the session
--   a try reads and stamps.
-- * Jwt (shared/lib/jwt.js) reads licenses. Host is the runtime: trimming, lower case, decimal
--   numbers, and the decoding of a token's payload.
-- * Policy (lib/telemetry-policy.js) is the capture gate; Policy/Keys and Policy/Store
--   (lib/telemetry-store.js) the policy file behind it, with its revision check.
-- * Collection (lib/collection-state.js, lib/collection-wording.js) reports the state.
-- * Transcript (lib/transcript-delta.js): Transcript is the delta behind a cursor, Transcript/Turns
--   the destination of each turn, Transcript/Groups the splitting, Transcript/Plan the chunk plan.
--   The recursion of `split_by_envelope` runs on fuel, the number of lines, which is enough since
--   each half of two or more lines is shorter. The sanitizer and gzip are parameters.
-- * Retry (lib/chunk-retry.js): the retry budget in a chunk's sidecar.
-- * Queue (lib/repository-queue.js, lib/organization-audit-queue.js, lib/transfer.js): what a drain
--   may send, in which order; Queue/Purge is what a switch-off deletes.
-- * Lock (shared/lib/credential-lock.js): the steps of processes that take, reap and release a lock
--   file, one file operation each, and the runs of any number of processes. That process ids in use
--   name one live process, and that tokens differ, are the hypotheses `IsSound`.
-- * Staging (lib/transfer.js): where the delta of a live transcript starts, and what is sealed of
--   its chunk plan. The sealing of one chunk is a parameter; the decompositions are Transcript's.
-- * Upload (lib/transfer.js): the upload of one chunk and of an event log; the collector's answer,
--   and the moments between the steps at which others change the state, are parameters.
-- * Settings (lib/repository-telemetry.js): the list of repositories, its switches, and the choice
--   on joining an organization.
-- * Sanitize (shared/lib/sanitize.js): the rules on a text, the walk over a record, and the names
--   of its output keys. A rule's expression is the function that splits a text at its matches;
--   HMAC and the hashing by path segment are parameters. The search for a free ordinal runs on
--   fuel, one more than the taken keys, of which the tries from the first ordinal are all
--   different.
-- * Backfill (lib/backfill-state.js): the lifecycle of the historical import and its consent.
-- * Signin (shared/lib/broker.js, shared/lib/signin-flow.js): the poll of the device grant over the
--   broker's answers in their order, the exchange for a license, and the store's commit.
-- * Codex (clients/codex/plugins/skillmeter/scripts/lib): the consent of the other client, which
--   keeps a record of its own. Codex/Record and Codex/Store (consent-store.js) are the record, its
--   file and marker, and the one write under the lock, a `Run` saying what disk, lock and other
--   processes do; Codex/Choices the writes built on it, Codex/Evaluate (consent-policy.js,
--   consent-reader.js) what the record allows, Codex/Preview (consent-preview.js, settings.js) and
--   Codex/Apply (consent-apply.js) what the commands show and check. Codex/Journal is the consent
--   journal of a transcript and Codex/Capture the loop that reads its lines (transcript-delta.js);
--   Codex/Queue is the publication of their chunks, one file operation after the other, and
--   `recover`. A process that ends, or an error, leaves the folder as it is after some of the steps.
-- * Rules (shared/lib/rules.js): the validators of card numbers and IPv4 addresses, on code units.
--
-- Numbers are natural numbers, as the code's times, counts and sizes are. A missing field, null and
-- undefined are one `none` where the code treats them alike. The hashing of a path by segment, the
-- stamp on a sanitized record, repository scope, the Codex client's hooks and drain, the hooks' input
-- and output, and failing disks are not modelled.

pub mod Prelude
pub mod Host
pub mod Examples
pub mod Jwt
pub mod Retry
pub mod Transcript
pub mod Policy
pub mod Session
pub mod Status
pub mod Renewal
pub mod Collection
pub mod Backfill
pub mod Queue
pub mod Lock
pub mod Settings
pub mod Upload
pub mod Staging
pub mod Sanitize
pub mod Signin
pub mod Codex
pub mod Rules
