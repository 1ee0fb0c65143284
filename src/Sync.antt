-- ===== src/Sync.antt =====
-- Offline sync (src/modules/sync/sync.service.ts, with the shapes of sync.dto.ts and the table
-- `idempotency_keys`).
pub mod Content
pub mod Batch
pub mod Answers
pub mod Counts
pub mod Pull
pub mod Sound
pub mod Replay
pub mod Tests
use wdc_backend.Prelude.{
  ℕ, Uuid, Timestamp, String, ◌⊎◌, inl, inr, Option, none, some, List, [], ◌∷◌, ◌==◌, if◌then◌else◌,
}
use wdc_backend.Report.Json.{Object}
use wdc_backend.Report.Projection.{OpKind}
use wdc_backend.Report.Lifecycle.{Transition}
use wdc_backend.Database.{
  Store, OpRow, Error, bad_request, unauthorized, forbidden, not_found, conflict, failure, database,
  DbError,
}

pub data SyncOpKind : Type 0 where
  field_set attachment_add submit open_review approve return edit_returned seal : SyncOpKind

-- An op of a batch, with the UUIDs that the server draws for it: in place of a missing op id, the
-- same again when its report's transaction has failed, and for the row that a transition logs.
pub record SyncOp : Type 0 where
  pub report_id : Uuid
  pub op_kind : SyncOpKind
  pub payload : Object
  pub op_id : Option Uuid
  pub wall_clock_ts : Option Timestamp
  pub device_id : Option String
  pub drawn : Uuid
  pub redrawn : Uuid
  pub logged : Uuid

-- `sinceCursor`, when it is neither missing nor empty: a natural number, which need not fit the
-- column, or a text that `BigInt` refuses, with the message. A negative number reads as zero here.
pub data SinceCursor : Type 0 where
  position : ℕ → SinceCursor
  unreadable : String → SinceCursor

pub record SyncBatch : Type 0 where
  pub idempotency_key : String
  pub ops : List SyncOp
  pub since_cursor : Option SinceCursor

pub data Status : Type 0 where
  applied rejected : Status

-- The message of an exception: a text of this code, or the database's.
pub data Message : Type 0 where
  text : String → Message
  database_text : DbError → Message

unfoldable pub message : Error → Message
message (bad_request t) = text t
message (unauthorized t) = text t
message (forbidden t) = text t
message (not_found t) = text t
message (conflict t) = text t
message (failure t) = text t
message (database e) = database_text e

pub record OpResult : Type 0 where
  pub report_id : Uuid
  pub op_id : Uuid
  pub status : Status
  pub server_seq : Option ℕ
  pub error : Option Message

pub record SyncResponse : Type 0 where
  pub next_cursor : ℕ
  pub applied : ℕ
  pub rejected : ℕ
  pub results : List OpResult
  pub pulled_ops : Option (List OpRow)

pub record IdempotencyRow : Type 0 where
  pub key : String
  pub response_body : SyncResponse
  pub expires_at : Timestamp

pub record SyncStore : Type 0 where
  pub tables : Store
  pub idempotency_keys : List IdempotencyRow

-- The test of the loop over a report's ops, and the cast of the others.
unfoldable pub classify : SyncOpKind → OpKind ⊎ Transition
classify field_set = inl OpKind.field_set
classify attachment_add = inl OpKind.attachment_add
classify submit = inr Transition.submit
classify open_review = inr Transition.open_review
classify approve = inr Transition.approve
classify return = inr Transition.return
classify edit_returned = inr Transition.edit_returned
classify seal = inr Transition.seal
