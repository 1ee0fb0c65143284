-- ===== src/Report/Service/Write.antt =====
-- The writing operations of ReportsService: create and content ops.
pub mod Effect
use Prim.Native.String
use wdc_backend.Prelude.{
  Uuid, Timestamp, String, Bool, true, false, not, ◌&&◌, ◌⊎◌, inl, inr, Option, none, some, List,
  [], ◌∷◌, ◌++◌, ◌==◌, any, find, str_eq, if◌then◌else◌,
}
use wdc_backend.Rls.{
  Role, secretary, coordinator, director, system, RlsContext, includes, same_role, is_current,
}
use wdc_backend.Report.Json.{Json, str, null, Object}
use wdc_backend.Report.Projection.{OpKind}
use wdc_backend.Report.Lifecycle.{
  ReportState, Transition, submit, open_review, approve, return, edit_returned, seal, next_state,
  expected_from_state, roles_for_transition, is_editable, same_state,
}
use wdc_backend.Database.{
  Store, Tx, Action, ok, err, Error, bad_request, forbidden, not_found, conflict, DbError,
  policy_violation, foreign_key, duplicate_key, ReportRow, SubmissionMethod, AuditEventInput, query,
  execute, or_throw, guard, pure, throw, ◌>>=◌, ◌>>◌, with_rls_transaction, report_insertable,
  report_visible,
}
use wdc_backend.Report.Service.Statements.{
  find_report, fetch_report, NewOp, insert_op, update_report, reproject_canonical, or_else,
}

pub record CreateArgs : Type 0 where
  pub actor : RlsContext
  pub form_version_id : Uuid
  pub submission_method : SubmissionMethod
  pub ward_id : Option Uuid

unfoldable pub new_report : Timestamp → Uuid → CreateArgs → Uuid → Uuid → ReportRow
new_report now id args ward_id user_id = record {
  id = id;
  form_version_id = args.form_version_id;
  ward_id = ward_id;
  submitted_by = user_id;
  submission_method = args.submission_method;
  state = ReportState.draft;
  sealed_at = none;
  approved_at = none;
  canonical = none;
  created_at = now;
  updated_at = now;
}

-- The insert into `reports`, with its policy, its primary key and its reference to a ward.
unfoldable pub insert_report : RlsContext → ReportRow → Store → (DbError ⊎ ReportRow) × Store
insert_report ctx row s =
    if not (report_insertable ctx row)
    then (inl policy_violation, s)
    else (if any (λ r. r.id == row.id) s.reports
        then (inl duplicate_key, s)
        else (if not (any (λ w. w.id == row.ward_id) s.wards)
            then (inl foreign_key, s)
            else (inr row, record s { reports = s.reports ++ (row ∷ []) })))

abbrev pub is_some {ℓ} : {A : Type ℓ} → Option A → Bool
is_some none = false
is_some (some _) = true

unfoldable pub create_in : Timestamp → Uuid → CreateArgs → Uuid → Uuid → Tx ReportRow
create_in now id args ward_id user_id = do
  version ← query (λ s. find (λ v. v.id == args.form_version_id) s.form_versions)
  row ← or_throw version (not_found "form version not found")
  guard (is_some row.deployed_at)
      (bad_request "cannot create a report against a non-deployed form version")
  execute (insert_report args.actor (new_report now id args ward_id user_id))

-- `args.wardId ?? args.actor.wardId`
abbrev pub either {ℓ} : {A : Type ℓ} → Option A → Option A → Option A
either none b = b
either (some a) b = some a

-- `create`: `id` is the id that the database draws.
unfoldable pub create : Timestamp → Uuid → CreateArgs → Action ReportRow
create now id args s = elim (either args.ward_id args.actor.ward_id) [
  | none ↦ (err (bad_request "wardId is required (or sign in as a ward-scoped secretary)"), s)
  | some ward_id ↦ elim args.actor.user_id [
    | none ↦ (err (forbidden "actor must be authenticated"), s)
    | some user_id ↦ with_rls_transaction (create_in now id args ward_id user_id) s
  ]
]

pub record ContentOp : Type 0 where
  pub actor : RlsContext
  pub report_id : Uuid
  pub op_kind : OpKind
  pub payload : Object
  pub op_id : Option Uuid
  pub wall_clock_ts : Option Timestamp
  pub device_id : Option String

abbrev pub state_name : ReportState → String
state_name ReportState.draft = "draft"
state_name ReportState.submitted = "submitted"
state_name ReportState.in_review = "in_review"
state_name ReportState.approved = "approved"
state_name ReportState.returned = "returned"
state_name ReportState.sealed = "sealed"

abbrev pub text_append : String → String → String
text_append = String.◌++◌

unfoldable pub not_editable_text : ReportState → String
not_editable_text state =
    text_append "cannot append content op: report is "
      (text_append (state_name state) " (only draft/returned are editable)")

-- A secretary outside the report's ward.
abbrev pub outside_ward : RlsContext → ReportRow → Bool
outside_ward actor row =
    same_role actor.role secretary && not (is_current row.ward_id actor.ward_id)

unfoldable pub content_op : ContentOp → Uuid → NewOp
content_op args user_id = record {
  report_id = args.report_id;
  actor_user_id = user_id;
  op_kind = args.op_kind;
  payload = args.payload;
  op_id = args.op_id;
  wall_clock_ts = args.wall_clock_ts;
  device_id = args.device_id;
}

-- The transaction of `appendContentOp`.
unfoldable pub append_in : Timestamp → Uuid → ContentOp → Uuid → Tx ReportRow
append_in now fresh args user_id = do
  current ← fetch_report args.actor args.report_id
  guard (is_editable current.state) (conflict (not_editable_text current.state))
  guard (not (outside_ward args.actor current))
      (forbidden "secretary cannot edit a report outside their ward")
  insert_op args.actor now fresh (content_op args user_id)
  reproject_canonical args.actor now args.report_id
  out ← query (find_report args.actor args.report_id)
  or_throw out (not_found "report disappeared mid-update")

-- `appendContentOp`, which `setField` calls with `field_set` and `addAttachment` with
-- `attachment_add`.
unfoldable pub append_content_op : Timestamp → Uuid → ContentOp → Action ReportRow
append_content_op now fresh args s = elim args.actor.user_id [
  | none ↦ (err (forbidden "actor must be authenticated"), s)
  | some user_id ↦ with_rls_transaction (append_in now fresh args user_id) s
]

unfoldable pub set_field : Timestamp → Uuid → ContentOp → Action ReportRow
set_field now fresh args = append_content_op now fresh (record args { op_kind = OpKind.field_set })

unfoldable pub add_attachment : Timestamp → Uuid → ContentOp → Action ReportRow
add_attachment now fresh args =
    append_content_op now fresh (record args { op_kind = OpKind.attachment_add })
