-- ===== src/Report/Consistent/Runs.antt =====
-- Every sequence of calls of ReportsService keeps the invariant.
use wdc_backend.Prelude.{Uuid, Timestamp, refl, inl, inr, Option, List, [], ◌∷◌}
use wdc_backend.Database.{Store}
use wdc_backend.Report.Service.Write.{
  ContentOp, append_content_op, CreateArgs, create, set_field, add_attachment, new_report,
}
use wdc_backend.Report.Service.Write.Effect.{append_content_op-ok, create-ok}
use wdc_backend.Report.Service.Transitions.{TransitionArgs, transition}
use wdc_backend.Report.Service.Transitions.Effect.{transition-ok}
use wdc_backend.Report.Service.Seal.{seal_args, seal_all, run_sealing_pass, due_ids}
use wdc_backend.Report.Service.Failures.{
  SameTables, create-err, append_content_op-err, transition-err,
}
use wdc_backend.Report.Service.Run.{
  Call, create_call, set_field_call, add_attachment_call, transition_call, seal_call, run_call,
  run_calls,
}
use wdc_backend.Report.Consistent.{IsConsistent}
use wdc_backend.Database.Laws.{outcome}
use wdc_backend.Report.Consistent.Steps.{add_report-IsConsistent}
use wdc_backend.Report.Consistent.Calls.{appended-IsConsistent, transitioned-IsConsistent}

-- The tables of a store are consistent.
abbrev pub IsSound : Store → Type 0
IsSound s = IsConsistent s.reports s.op_log

pub SameTables-IsSound : (s s' : Store) → SameTables s s' → IsSound s → IsSound s'
SameTables-IsSound s s' (same_reports, same_log, _, _) c = rw (same_reports, same_log) c

create-IsSound :
    (now : Timestamp) (id : Uuid) (args : CreateArgs) (s : Store)
    → IsSound s
    → IsSound (create now id args s).1
unfolding new_report
create-IsSound now id args s c = elim (outcome (create now id args s)) [
  | inr (e, failed) ↦
      SameTables-IsSound s (create now id args s).1 (create-err now id args s failed) c
  | inl (r, s', done) ↦
      let (u, w, _, _, new, row, _, stored) = create-ok now id args s done in
      rw (done, stored, row)
        (add_report-IsConsistent (new_report now id args w u) s.reports s.op_log refl new c)
]

append_content_op-IsSound :
    (now : Timestamp) (fresh : Uuid) (args : ContentOp) (s : Store)
    → IsSound s
    → IsSound (append_content_op now fresh args s).1
append_content_op-IsSound now fresh args s c = elim (outcome (append_content_op now fresh args s)) [
  | inr (e, failed) ↦
      SameTables-IsSound s (append_content_op now fresh args s).1
        (append_content_op-err now fresh args s failed) c
  | inl (r, s', done) ↦
      let (u, _, _, found, _, _, new, stored, _) = append_content_op-ok now fresh args s done in
      rw (done, stored) (appended-IsConsistent now fresh args u s found new c)
]

pub transition-IsSound :
    (now : Timestamp) (fresh : Uuid) (args : TransitionArgs) (s : Store)
    → IsSound s
    → IsSound (transition now fresh args s).1
transition-IsSound now fresh args s c = elim (outcome (transition now fresh args s)) [
  | inr (e, failed) ↦
      SameTables-IsSound s (transition now fresh args s).1 (transition-err now fresh args s failed)
        c
  | inl (r, s', done) ↦
      let (_, current, found, _, new, stored, _) = transition-ok now fresh args s done in
      rw (done, stored) (transitioned-IsConsistent now fresh args current s found new c)
]

seal_all-IsSound :
    (now : Timestamp) (fresh : Uuid → Uuid) (request_id : Option Uuid) (ids : List Uuid) (s : Store)
    → IsSound s
    → IsSound (seal_all now fresh request_id ids s).1
unfolding seal_all
seal_all-IsSound now fresh request_id [] s c = c
seal_all-IsSound now fresh request_id (id ∷ ids) s c =
    seal_all-IsSound now fresh request_id ids _
      (transition-IsSound now (fresh id) (seal_args id request_id) s c)

pub run_call-IsSound : (call : Call) (s : Store) → IsSound s → IsSound (run_call call s)
unfolding run_call set_field add_attachment run_sealing_pass
run_call-IsSound (create_call now id args) s c = create-IsSound now id args s c
run_call-IsSound (set_field_call now fresh args) s c = append_content_op-IsSound _ _ _ s c
run_call-IsSound (add_attachment_call now fresh args) s c = append_content_op-IsSound _ _ _ s c
run_call-IsSound (transition_call now fresh args) s c = transition-IsSound now fresh args s c
run_call-IsSound (seal_call now fresh request_id days) s c =
    seal_all-IsSound now fresh request_id (due_ids now days s) s c

-- Whatever calls are made, by whatever actors and in whatever order, from sound tables: report ids
-- and the ids of a report's ops stay unique, every op has its report, and the canonical column of
-- every report is the projection of exactly its ops in the log.
pub run_calls-IsSound : (calls : List Call) (s : Store) → IsSound s → IsSound (run_calls calls s)
unfolding run_calls
run_calls-IsSound [] s c = c
run_calls-IsSound (call ∷ calls) s c =
    run_calls-IsSound calls (run_call call s) (run_call-IsSound call s c)
