-- ===== src/Report/Service/Transitions.antt =====
-- `transition` of ReportsService.
pub mod Effect
use wdc_backend.Prelude.{
  Uuid, Timestamp, String, Bool, true, false, not, ◌&&◌, inl, inr, Option, none, some, List, [],
  ◌∷◌, ◌==◌, find, str_eq, if◌then◌else◌,
}
use wdc_backend.Rls.{Role, secretary, coordinator, director, system, RlsContext, includes}
use wdc_backend.Report.Json.{Json, str, null, Object}
use wdc_backend.Report.Projection.{OpKind}
use wdc_backend.Report.Lifecycle.{
  ReportState, approved, returned, Transition, submit, open_review, approve, return, edit_returned,
  seal, next_state, expected_from_state, roles_for_transition, same_state,
}
use wdc_backend.Database.{
  Store, Session, Tx, Action, Result, ok, err, Error, forbidden, not_found, conflict, ReportRow,
  AuditEventInput, query, execute, or_throw, guard, pure, ◌>>=◌, ◌>>◌, with_rls_transaction,
}
use wdc_backend.Report.Service.Statements.{
  find_report, fetch_report, NewOp, insert_op, update_report, reproject_canonical, or_else,
}
use wdc_backend.Report.Service.Write.{state_name, text_append, is_some}

pub record TransitionArgs : Type 0 where
  pub actor : RlsContext
  pub report_id : Uuid
  pub transition : Transition
  pub notes : Option String
  pub request_id : Option Uuid

abbrev pub role_name : Role → String
role_name secretary = "secretary"
role_name coordinator = "coordinator"
role_name director = "director"
role_name system = "system"

abbrev pub transition_name : Transition → String
transition_name submit = "submit"
transition_name open_review = "open_review"
transition_name approve = "approve"
transition_name return = "return"
transition_name edit_returned = "edit_returned"
transition_name seal = "seal"

-- `allowed.join(', ')`
abbrev pub join_roles : List Role → String
join_roles [] = ""
join_roles (r ∷ []) = role_name r
join_roles (r ∷ rs) = text_append (role_name r) (text_append ", " (join_roles rs))

unfoldable pub role_text : Role → Transition → String
role_text role t = text_append (role_name role) (
    text_append " cannot perform " (
      text_append (transition_name t)
        (text_append " (allowed: " (text_append (join_roles (roles_for_transition t)) ")"))))

unfoldable pub state_text : Transition → ReportState → String
state_text t state = text_append "cannot " (
    text_append (transition_name t) (
      text_append ": current state is " (
        text_append (state_name state)
          (text_append ", expected " (state_name (expected_from_state t))))))

-- The kind of the op that a transition logs, if it logs one.
unfoldable pub op_kind_of : Transition → Option OpKind
op_kind_of submit = some OpKind.submit
op_kind_of open_review = some OpKind.open_review
op_kind_of approve = some OpKind.approve
op_kind_of return = some OpKind.return
op_kind_of seal = some OpKind.seal
op_kind_of edit_returned = none

abbrev pub is_return : Transition → Bool
is_return return = true
is_return _ = false

abbrev pub is_seal : Transition → Bool
is_seal seal = true
is_seal _ = false

-- A text that is not empty.
unfoldable pub notes_payload : Option String → Object
notes_payload none = []
notes_payload (some text) = if str_eq text "" then [] else ("notes", str text) ∷ []

unfoldable pub op_payload : Transition → Option String → Object
op_payload t notes = if is_return t then notes_payload notes else []

-- The columns that the `UPDATE` of a transition sets.
unfoldable pub set_columns : Timestamp → Transition → ReportRow → ReportRow
set_columns now t r = record r {
  state = next_state t;
  approved_at =
      if same_state (next_state t) approved
      then some now
      else (if same_state (expected_from_state t) approved && same_state (next_state t) returned
          then none
          else r.approved_at);
  sealed_at = if is_seal t then some now else r.sealed_at;
}

unfoldable pub transition_op : TransitionArgs → ReportRow → OpKind → NewOp
transition_op args current kind = record {
  report_id = args.report_id;
  actor_user_id = or_else args.actor.user_id current.submitted_by;
  op_kind = kind;
  payload = op_payload args.transition args.notes;
  op_id = none;
  wall_clock_ts = none;
  device_id = none;
}

unfoldable pub log_transition : Timestamp → Uuid → TransitionArgs → ReportRow → Tx (Unit {0})
log_transition now fresh args current = elim (op_kind_of args.transition) [
  | none ↦ pure tt
  | some kind ↦ insert_op args.actor now fresh (transition_op args current kind)
]

abbrev pub or_null : Option String → Json
or_null none = null
or_null (some s) = str s

unfoldable pub transition_event : TransitionArgs → AuditEventInput
transition_event args = record {
  actor_user_id = args.actor.user_id;
  actor_role = args.actor.role;
  event_kind = text_append "reports." (transition_name args.transition);
  target_table = some "reports";
  target_id = some args.report_id;
  payload =
      ("from", str (state_name (expected_from_state args.transition)))
      ∷ ("to", str (state_name (next_state args.transition)))
      ∷ ("notes", or_null args.notes)
      ∷ [];
  request_id = args.request_id;
}

-- `audit.append`, on a connection of its own: neither an aborted transaction nor a rollback
-- touches it. The list holds the newest event first.
unfoldable pub append_audit : AuditEventInput → Tx (Unit {0})
append_audit event t =
    (ok tt, record t { store = record (t.store) { audit = event ∷ t.store.audit } })

-- The transaction of `transition`.
unfoldable pub transition_in : Timestamp → Uuid → TransitionArgs → Tx ReportRow
transition_in now fresh args = do
  current ← fetch_report args.actor args.report_id
  guard (same_state current.state (expected_from_state args.transition))
      (conflict (state_text args.transition current.state))
  log_transition now fresh args current
  updated ← execute (λ s.
      let s' = update_report args.actor now args.report_id (set_columns now args.transition) s in
      (inr (find_report args.actor args.report_id s'), s'))
  or_throw updated (not_found "report not found")
  reproject_canonical args.actor now args.report_id
  append_audit (transition_event args)
  fetch_report args.actor args.report_id

-- `fresh` is the UUID that `insertOp` draws.
unfoldable pub transition : Timestamp → Uuid → TransitionArgs → Action ReportRow
transition now fresh args s =
    if not (includes (roles_for_transition args.transition) args.actor.role)
    then (err (forbidden (role_text args.actor.role args.transition)), s)
    else (if not (is_some args.actor.user_id) && not (is_seal args.transition)
        then (err (forbidden "actor must be authenticated"), s)
        else with_rls_transaction (transition_in now fresh args) s)
