-- ===== src/Database.antt =====
-- The tables that reports and sync work on, and transactions over them (src/common/rls/rls-context.ts
-- for `withRlsTransaction`, src/infra/postgres/schema for the tables, drizzle/0001_init.sql and
-- drizzle/0002_rls.sql for constraints and policies).
pub mod Laws
use wdc_backend.Prelude.{
  ℕ, Uuid, Timestamp, Bool, true, false, ◌&&◌, ◌||◌, Option, none, some, List, [], ◌∷◌, String,
  ◌==◌, any, if◌then◌else◌, ◌⊎◌, inl, inr,
}
use wdc_backend.Rls.{Role, secretary, coordinator, director, system, RlsContext, is_current}
use wdc_backend.Report.Json.{Json, Object}
use wdc_backend.Report.Projection.{OpKind, CanonicalReport}
use wdc_backend.Report.Lifecycle.{ReportState}

pub data SubmissionMethod : Type 0 where
  amira wizard snap : SubmissionMethod

-- `canonical` is `none` for the column's default `{}`, before any projection was stored.
pub record ReportRow : Type 0 where
  pub id : Uuid
  pub form_version_id : Uuid
  pub ward_id : Uuid
  pub submitted_by : Uuid
  pub submission_method : SubmissionMethod
  pub state : ReportState
  pub sealed_at : Option Timestamp
  pub approved_at : Option Timestamp
  pub canonical : Option CanonicalReport
  pub created_at : Timestamp
  pub updated_at : Timestamp

pub record OpRow : Type 0 where
  pub report_id : Uuid
  pub op_id : Uuid
  pub server_seq : ℕ
  pub device_id : String
  pub actor_user_id : Uuid
  pub op_kind : OpKind
  pub payload : Object
  pub wall_clock_ts : Timestamp

pub record FormVersionRow : Type 0 where
  pub id : Uuid
  pub deployed_at : Option Timestamp

pub record WardRow : Type 0 where
  pub id : Uuid
  pub lga_id : Uuid

pub record AuditEventInput : Type 0 where
  pub actor_user_id : Option Uuid
  pub actor_role : Role
  pub event_kind : String
  pub target_table : Option String
  pub target_id : Option Uuid
  pub payload : Object
  pub request_id : Option Uuid

pub record Store : Type 0 where
  pub form_versions : List FormVersionRow
  pub wards : List WardRow
  pub reports : List ReportRow
  pub op_log : List OpRow
  pub next_seq : ℕ
  pub audit : List AuditEventInput

-- The failures of a statement that the code meets.
pub data DbError : Type 0 where
  duplicate_key foreign_key policy_violation not_null invalid_text restrict_violation
        numeric_out_of_range transaction_aborted :
      DbError

-- The exceptions, with their messages.
pub data Error : Type 0 where
  bad_request unauthorized forbidden not_found conflict failure : String → Error
  database : DbError → Error

pub data Result {ℓ} (A : Type ℓ) : Type ℓ where
  ok : A → Result A
  err : Error → Result A

-- A connection inside a transaction. After a failed statement PostgreSQL refuses every further one
-- until the transaction ends.
pub record Session : Type 0 where
  pub store : Store
  pub aborted : Bool

abbrev pub Tx : Type 0 → Type 0
Tx A = Session → Result A × Session

module _ {A : Type 0} where
  abbrev pub pure : A → Tx A
  pure a t = (ok a, t)

  abbrev pub throw : Error → Tx A
  throw e t = (err e, t)

  abbrev pub or_throw : Option A → Error → Tx A
  or_throw none e = throw e
  or_throw (some a) e = pure a

  -- A `SELECT`.
  unfoldable pub query : (Store → A) → Tx A
  query f t = if t.aborted then (err (database transaction_aborted), t) else (ok (f t.store), t)

  -- A statement that writes, or fails with an error and aborts the transaction.
  unfoldable pub execute : (Store → (DbError ⊎ A) × Store) → Tx A
  execute f t =
      if t.aborted
      then (err (database transaction_aborted), t)
      else let (r, s) = f t.store in
        elim r [
          | inl e ↦ (err (database e), record { store = s; aborted = true })
          | inr a ↦ (ok a, record { store = s; aborted = false })
        ]

infixl 5 ◌>>=◌ ◌>>◌
unfoldable pub ◌>>=◌ : {A B : Type 0} → Tx A → (A → Tx B) → Tx B
◌>>=◌ m f t = let (r, t') = m t in elim r [ ok a ↦ f a t' | err e ↦ (err e, t') ]

abbrev pub ◌>>◌ : {A B : Type 0} → Tx A → Tx B → Tx B
m >> k = m >>= λ _. k

abbrev pub guard : Bool → Error → Tx (Unit {0})
guard true e t = (ok tt, t)
guard false e t = (err e, t)

-- A service call.
abbrev pub Action : Type 0 → Type 0
Action A = Store → Result A × Store

-- What a rollback to `s` leaves of `t`: a sequence does not go back, and the audit log is written
-- on connections of its own.
unfoldable pub roll_back : Store → Store → Store
roll_back s t = record s { next_seq = t.next_seq; audit = t.audit }

-- Commits on success and rolls back on an exception; the commit of an aborted transaction is a
-- rollback. The context's identifiers are UUIDs and its role is a role by their types.
unfoldable pub with_rls_transaction : {A : Type 0} → Tx A → Action A
unfolding roll_back
with_rls_transaction fn s =
    let (r, t) = fn (record { store = s; aborted = false }) in
    elim r [
      | ok a ↦ (ok a, if t.aborted then roll_back s t.store else t.store)
      | err e ↦ (err e, roll_back s t.store)
    ]

-- `ward_id IN (SELECT id FROM wards WHERE lga_id = wdc_current_lga_id())`
unfoldable pub ward_in_lga : List WardRow → Uuid → Option Uuid → Bool
ward_in_lga wards ward_id lga = any (λ w. w.id == ward_id && is_current w.lga_id lga) wards

-- The policies `reports_select` and `reports_update`.
unfoldable pub report_visible : RlsContext → List WardRow → ReportRow → Bool
unfolding ward_in_lga
report_visible ctx wards r = elim ctx.role [
  | system ↦ true
  | director ↦ true
  | coordinator ↦ ward_in_lga wards r.ward_id ctx.lga_id
  | secretary ↦ is_current r.ward_id ctx.ward_id
]

-- The policy `reports_insert`.
unfoldable pub report_insertable : RlsContext → ReportRow → Bool
report_insertable ctx r = elim ctx.role [
  | system ↦ true
  | director ↦ true
  | coordinator ↦ false
  | secretary ↦ is_current r.ward_id ctx.ward_id
]

-- The policies of `report_op_log`: an op is visible with its report.
unfoldable pub parent_visible : RlsContext → Store → Uuid → Bool
parent_visible ctx s report_id =
    any (λ r. r.id == report_id && report_visible ctx s.wards r) s.reports
