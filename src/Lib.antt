-- ===== src/Lib.antt =====
-- A model of the WDC backend: ward development committees file reports, which coordinators review
-- and the system seals.
--
-- Prelude: shared numbers, texts, lists and Boolean tests.
-- Rls (src/common/rls, src/common/auth): roles, the per-request context and the role check.
-- Database (src/infra/postgres/schema, drizzle): the tables as a record of lists, transactions with
-- rollback and abort, and the row-level policies. A statement that a policy hides a row from does
-- not find it.
--
-- Report (src/modules/reports): Json holds payload values; Projection is report-projection.ts, the
-- sort and the replay of an op log; Lifecycle is its state machine. Service is reports.service.ts:
-- Statements (fetchReport, insertOp, reprojectCanonical), Write (create, setField, addAttachment),
-- Transitions (transition) and Seal (runSealingPass and the reads). A call is a function of its time,
-- of the UUIDs that it draws, of its arguments and of the store. Service/Run makes sequences of
-- calls; Consistent holds the invariant of the tables and History what becomes of one report.
--
-- Auth/Tokens (src/modules/auth/token.service.ts): refresh tokens. The hash, the signature and the
-- two lifetimes are the fields of a record of collaborators.
--
-- Sync (src/modules/sync/sync.service.ts): Content is applyContentOpsBatch, Batch the rest of
-- applyBatch. A batch is handled at one time, and each op comes with the UUIDs that the server would
-- draw for it. Answers matches the results with the ops, Counts puts the reports together, Pull is
-- about pages and cursors, Replay about idempotency keys.
--
-- Messaging (src/modules/messaging): QuietHours is the pair of functions on quiet hours, Breaker the
-- circuit breaker of adapters/circuit-breaker.ts with calls that do not overlap; Broadcast is
-- broadcast, its deliveries and the job of broadcast.worker.ts, with what the queue, a dispatch or the
-- audit log raises after the commit; Addressed and Done are about broadcast, Dispatch about the job.
-- Inbox is listDeliveries. The answers of
-- the adapters are a function of channel, user and body.
--
-- Audit (src/modules/audit): Canonical is canonicalJson, Log the append and the anchors, Chain what
-- they promise. The digest, the signature and the quoting of texts are fields of a record.
-- ReportsService appends its events to a plain list, in the model of its transactions.
--
-- Handler: the shape that the director's services share, which is the role check, one transaction
-- that an error rolls back, and one audit event after it; its laws hold whatever the statements are.
--
-- Investigations (src/modules/investigations/investigations.service.ts): the rows and views; Cases is
-- create, update, close and reopen, Evidence is addEvidence, removeEvidence and getById, Timeline is
-- timeline, Cursor and Pages are the cursors and list. Calls makes sequences of calls, Kept carries a
-- property through them, and Intact, Stays and Dated are such properties. Newest and Walk follow the
-- pages: the walk is on fuel, and more fuel than there are rows is enough. Base64, dates and uuids are
-- a record of functions with their documented laws.
--
-- Forms (src/modules/forms): Schema is form-schema.ts, Catalog is create, update, archive, list and
-- getById, Versions is createVersion, deploy and the reads of versions, Visible is listVisible. Calls
-- makes sequences of calls; Sound is the invariant of the tables and Deployed what never changes.
--
-- Users (src/modules/users/users.service.ts, src/common/crypto/phone.ts): the accounts; Phone is
-- normalisePhone, Service is create, getById, updateAssignment, setStatus and softDelete, Pages is
-- list, and Sound the invariant under these calls and the redemptions of Auth/Enrolment.
-- Auth/SignIn and Auth/Enrolment (src/modules/auth/auth.service.ts): signInMobile, signInConsole,
-- signOut and setCredentials, which issue and revoke tokens through Auth/Tokens. Digests, ciphers,
-- Argon2 and one-time passwords are the fields of a record.
--
-- Attachments (src/modules/attachments/attachments.service.ts): upload, listByReport and getById, on
-- tables that hold the reports as well; Process is the jobs of the two queues (processors), Sound is
-- what uploads keep and Runs what uploads and jobs keep. Audit/Export
-- (src/modules/audit/audit.controller.ts) is the export as CSV, and Audit/Export/RoundTrip and Rows
-- read it back; the fuel of the reader is the number of rows.
--
-- Calls run one after the other: two transactions at once are not modelled. UUIDs and times are
-- numbers in the order of their texts. Loops are recursion on lists, so no fuel is needed. A commit
-- does not fail. The append of an audit event, which runs after the commit, may raise in the handlers
-- built on Handler and in broadcast, not in the models of the reports service and of sign-in. A
-- negative sinceCursor is read as zero. Not modelled are the routes and the
-- parsing of requests, the AI service, telemetry, and the insides of
-- queues and storage.
pub mod Prelude
pub mod Rls
pub mod Report
pub mod Database
pub mod Handler
pub mod Auth
pub mod Users
pub mod Forms
pub mod Investigations
pub mod Sync
pub mod Messaging
pub mod Audit
pub mod Attachments
