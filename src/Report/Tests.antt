-- ===== src/Report/Tests.antt =====
-- Concrete reports and calls, on which the theorems about reports are applied.
use mathlib.Core.List.Perm
use wdc_backend.Prelude.{
  str_eq→≢, Uuid, Timestamp, String, inl, ◌≡◌, refl, ◌⊎◌, false, none, some, List, [], ◌∷◌, arith,
  All,
}
use wdc_backend.Rls.{secretary, coordinator, RlsContext}
use wdc_backend.Report.Json.{str}
use wdc_backend.Report.Projection.{
  OpKind, ReportOp, project_canonical, field_of, sort_ops, replay, insert_sorted, apply_kind,
}
use wdc_backend.Report.Projection.Order.{project_canonical-perm}
use wdc_backend.Report.Projection.Fields.{field_at, sets, Wins, project_canonical-Wins}
use wdc_backend.Report.Lifecycle.{
  Transition, ReportState, roles_for_transition, is_editable, expected_from_state,
}
use wdc_backend.Database.{
  report_visible, parent_visible, report_insertable, query, execute, ◌>>=◌, with_rls_transaction,
  Store, SubmissionMethod, ReportRow, Result, ok, err, database, transaction_aborted,
}
use wdc_backend.Report.Service.Write.{
  append_in, content_op, create_in, insert_report, new_report, CreateArgs, ContentOp, create,
  append_content_op,
}
use wdc_backend.Report.Service.Write.Effect.{AppendDone, append_content_op-ok}
use wdc_backend.Report.Service.Transitions.{
  TransitionArgs, transition, transition_in, log_transition, op_kind_of, transition_op, set_columns,
  append_audit, transition_event,
}
use wdc_backend.Report.Service.Transitions.Effect.{TransitionDone, transition-ok}
use wdc_backend.Report.Service.Seal.{seal_args, is_due, run_sealing_pass}
use wdc_backend.Report.Service.Failures.{append_content_op_retry}
use wdc_backend.Report.Service.Run.{
  run_call, Call, create_call, set_field_call, transition_call, seal_call, run_calls,
}
use wdc_backend.Report.Service.Statements.{
  find_report, fetch_report, insert_op, swallow_duplicate, insert_op_row, op_row, update_report,
  reproject_canonical, ops_of, to_report_op, has_op,
}
use wdc_backend.Report.History.{row_of, Kept, IsSealed}
use wdc_backend.Report.History.Grace.{run_sealing_pass-grace}
use wdc_backend.Report.History.Runs.{run_calls-Kept}
use wdc_backend.Report.Consistent.Runs.{IsSound, run_calls-IsSound}

abbrev field_op : Uuid → Timestamp → String → ReportOp
field_op id at value = record {
  op_id = id;
  op_kind = OpKind.field_set;
  payload = ("key", str "attendance") ∷ ("value", str value) ∷ [];
  wall_clock_ts = at;
}

abbrev first_op : ReportOp
first_op = field_op 2 10 "12"

abbrev second_op : ReportOp
second_op = field_op 1 10 "15"

project_canonical-perm_example :
    project_canonical (first_op ∷ second_op ∷ []) ≡ project_canonical (second_op ∷ first_op ∷ [])
project_canonical-perm_example =
    project_canonical-perm (first_op ∷ second_op ∷ []) (second_op ∷ first_op ∷ [])
      ((ground arith, tt), (tt, tt)) (Perm.swap second_op first_op [])

project_canonical-Wins_example :
    ((w : ReportOp) × Wins "attendance" (first_op ∷ second_op ∷ []) w
      × (field_at "attendance" (project_canonical (first_op ∷ second_op ∷ [])).fields
          ≡ some (field_of w)))
    ⊎ (All (λ o. sets "attendance" o ≡ false) (first_op ∷ second_op ∷ [])
        × (field_at "attendance" (project_canonical (first_op ∷ second_op ∷ [])).fields ≡ none))
project_canonical-Wins_example =
    project_canonical-Wins "attendance" (first_op ∷ second_op ∷ []) (str_eq→≢ _ _ refl)

abbrev pub the_secretary : RlsContext
the_secretary = record { user_id = some 7; role = secretary; lga_id = some 9; ward_id = some 1 }

abbrev pub the_coordinator : RlsContext
the_coordinator = record { user_id = some 8; role = coordinator; lga_id = some 9; ward_id = none }

-- One ward, one deployed form version, and no report yet.
abbrev pub no_reports : Store
no_reports = record {
  form_versions = record { id = 5; deployed_at = some 100 } ∷ [];
  wards = record { id = 1; lga_id = 9 } ∷ [];
  reports = [];
  op_log = [];
  next_seq = 1;
  audit = [];
}

abbrev a_create : CreateArgs
a_create = record {
  actor = the_secretary;
  form_version_id = 5;
  submission_method = SubmissionMethod.wizard;
  ward_id = none;
}

abbrev a_field : ContentOp
a_field = record {
  actor = the_secretary;
  report_id = 100;
  op_kind = OpKind.field_set;
  payload = ("key", str "attendance") ∷ ("value", str "12") ∷ [];
  op_id = some 50;
  wall_clock_ts = none;
  device_id = none;
}

abbrev step_by : RlsContext → Transition → TransitionArgs
step_by actor t = record {
  actor = actor;
  report_id = 100;
  transition = t;
  notes = none;
  request_id = none;
}

abbrev with_report : Store
with_report = run_call (create_call 1000 100 a_create) no_reports

abbrev life : List Call
life =
    create_call 1000 100 a_create
    ∷ set_field_call 1001 60 a_field
    ∷ transition_call 1002 61 (step_by the_secretary Transition.submit)
    ∷ transition_call 1003 62 (step_by the_coordinator Transition.open_review)
    ∷ transition_call 1004 63 (step_by the_coordinator Transition.approve)
    ∷ seal_call 1000000000 (λ id. 64) none 7
    ∷ []

no_reports-IsSound : IsSound no_reports
no_reports-IsSound = record { distinct = tt; keyed = tt; owned = tt; cached = tt }

run_calls-IsSound_example : IsSound (run_calls life no_reports)
run_calls-IsSound_example = run_calls-IsSound life no_reports no_reports-IsSound

abbrev pub the_report : ReportRow
the_report = record {
  id = 100;
  form_version_id = 5;
  ward_id = 1;
  submitted_by = 7;
  submission_method = SubmissionMethod.wizard;
  state = ReportState.draft;
  sealed_at = none;
  approved_at = none;
  canonical = none;
  created_at = 1000;
  updated_at = 1000;
}

abbrev pub one_report : Store
one_report = record no_reports { reports = the_report ∷ [] }

create_example_run : create 1000 100 a_create no_reports ≡ (ok the_report, one_report)
unfolding create with_rls_transaction create_in query execute insert_report ◌>>=◌ new_report
    report_insertable
create_example_run = refl

abbrev edited : Result ReportRow × Store
edited = append_content_op 1001 60 a_field one_report

abbrev the_edited : ReportRow
the_edited = elim edited.0 [ ok r ↦ r | err _ ↦ the_report ]

append_content_op_example_run :
    append_content_op 1001 60 a_field one_report ≡ (ok the_edited, edited.1)
unfolding append_content_op with_rls_transaction append_in fetch_report find_report query ◌>>=◌
    content_op insert_op swallow_duplicate execute insert_op_row op_row reproject_canonical
    update_report ops_of to_report_op project_canonical sort_ops replay insert_sorted apply_kind
    report_visible is_editable parent_visible has_op
append_content_op_example_run = refl

append_content_op-ok_example : AppendDone 1001 60 a_field one_report the_edited edited.1
append_content_op-ok_example =
    append_content_op-ok 1001 60 a_field one_report append_content_op_example_run

append_content_op_retry_example :
    (append_content_op 1001 60 a_field edited.1).0 ≡ err (database transaction_aborted)
unfolding append_content_op with_rls_transaction append_in fetch_report find_report query ◌>>=◌
    content_op insert_op swallow_duplicate execute insert_op_row op_row reproject_canonical
    update_report ops_of to_report_op project_canonical sort_ops replay insert_sorted apply_kind
    report_visible is_editable parent_visible has_op
append_content_op_retry_example =
    append_content_op_retry 1001 60 50 7 a_field edited.1 {current = the_edited} refl refl refl refl
      refl refl

abbrev approved_report : ReportRow
approved_report = record the_report { state = ReportState.approved; approved_at = some 1004 }

abbrev one_approved : Store
one_approved = record no_reports { reports = approved_report ∷ [] }

-- Sealed by the pass a week and a moment later.
abbrev sealed : Result ReportRow × Store
sealed = transition 604801005 64 (seal_args 100 none) one_approved

abbrev the_sealed : ReportRow
the_sealed = elim sealed.0 [ ok r ↦ r | err _ ↦ the_report ]

transition_example_run :
    transition 604801005 64 (seal_args 100 none) one_approved ≡ (ok the_sealed, sealed.1)
unfolding transition with_rls_transaction transition_in log_transition op_kind_of transition_op
    set_columns append_audit transition_event roles_for_transition fetch_report find_report query
    ◌>>=◌ insert_op swallow_duplicate execute insert_op_row op_row reproject_canonical update_report
    ops_of to_report_op project_canonical sort_ops replay insert_sorted apply_kind report_visible
    parent_visible has_op expected_from_state
transition_example_run = refl

transition-ok_example :
    TransitionDone 604801005 64 (seal_args 100 none) one_approved the_sealed sealed.1
transition-ok_example =
    transition-ok 604801005 64 (seal_args 100 none) one_approved transition_example_run

one_approved-IsSound : IsSound one_approved
one_approved-IsSound = record {
  distinct = (refl, tt);
  keyed = tt;
  owned = tt;
  cached = (inl (refl, refl), tt);
}

run_calls-Kept_example :
    Kept (IsSealed approved_report) 100 one_approved (run_calls life one_approved) approved_report
run_calls-Kept_example = run_calls-Kept 100 life one_approved one_approved-IsSound refl

pub one_report-IsSound : IsSound one_report
one_report-IsSound = record {
  distinct = (refl, tt);
  keyed = tt;
  owned = tt;
  cached = (inl (refl, refl), tt);
}

not_due : is_due 2000 7 approved_report ≡ false
unfolding is_due
not_due = refl

run_sealing_pass-grace_example :
    row_of 100 (run_sealing_pass 2000 (λ id. 64) none 7 one_approved).1 ≡ some approved_report
run_sealing_pass-grace_example =
    run_sealing_pass-grace 100 2000 (λ id. 64) none 7 one_approved one_approved-IsSound refl not_due
