-- ===== src/Report/History/Runs.antt =====
-- One report under every sequence of calls of ReportsService.
use wdc_backend.Prelude.{
  Uuid, Timestamp, ◌≡◌, ◌≢◌, sym, ap, ◌∙◌, refl, inl, inr, true, Option, some, List, [], ◌∷◌, find,
  ◌==◌, arith, subst,
}
use wdc_backend.Report.Lifecycle.{
  ReportState, Transition, transitions, expected_from_state, is_editable,
}
use wdc_backend.Report.Lifecycle.Laws.{same_state→eq}
use wdc_backend.Database.{Store, ReportRow}
use wdc_backend.Report.Service.Write.{
  CreateArgs, create, new_report, ContentOp, append_content_op, set_field, add_attachment,
}
use wdc_backend.Report.Service.Write.Effect.{appended, create-ok, append_content_op-ok}
use wdc_backend.Report.Service.Transitions.{TransitionArgs, transition}
use wdc_backend.Report.Service.Transitions.Effect.{transitioned, transition-ok}
use wdc_backend.Report.Service.Seal.{seal_args, seal_all, run_sealing_pass, due_ids}
use wdc_backend.Report.Service.Failures.{
  SameTables, create-err, append_content_op-err, transition-err,
}
use wdc_backend.Report.Service.Run.{
  Call, create_call, set_field_call, add_attachment_call, transition_call, seal_call, run_call,
  run_calls,
}
use wdc_backend.Report.Consistent.{ops_in}
use wdc_backend.Report.Service.Statements.{find_report}
use wdc_backend.Database.Laws.{outcome}
use wdc_backend.Report.Consistent.Runs.{IsSound, transition-IsSound, run_call-IsSound}
use wdc_backend.Report.History.{row_of, Reaches, Kept, IsSealed}
use wdc_backend.Report.History.Rows.{find-append, find_report-row}
use wdc_backend.Report.History.Calls.{Kept-refl, Kept-trans, Kept-appended, Kept-transitioned}

editable-unsealed : (r : ReportRow) → is_editable r.state ≡ true → r.state ≢ ReportState.sealed
unfolding is_editable
editable-unsealed r h = ground arith

expected-unsealed : (t : Transition) → expected_from_state t ≢ ReportState.sealed
unfolding expected_from_state transitions
expected-unsealed t = ground arith

module _ (id : Uuid) where
  Kept-same :
      {Still : Type 0} (s s' : Store) {r : ReportRow}
      → SameTables s s'
      → row_of id s ≡ some r
      → Kept Still id s s' r
  Kept-same s s' {r} (reports, log, _, _) h = record {
    row = r;
    there = ap (λ rs. find (λ x. x.id == id) rs) reports ∙ h;
    moved = Reaches.stay;
    frozen = λ _. (refl, ap (ops_in id) log);
  }

  create-Kept :
      (now : Timestamp) (new : Uuid) (args : CreateArgs) (s : Store) {r : ReportRow}
      → row_of id s ≡ some r
      → Kept (IsSealed r) id s (create now new args s).1 r
  unfolding new_report
  create-Kept now new args s {r} h = elim (outcome (create now new args s)) [
    | inr (e, failed) ↦ Kept-same s _ (create-err now new args s failed) h
    | inl (made, s', done) ↦
        let (u, w, _, _, _, row, _, stored) = create-ok now new args s done in
        record {
          row = r;
          there = rw (done, stored) (find-append id s.reports (made ∷ []) h);
          moved = Reaches.stay;
          frozen = λ _. (refl, rw (done, stored) refl);
        }
  ]

  append_content_op-Kept :
      (now : Timestamp) (fresh : Uuid) (args : ContentOp) (s : Store) {r : ReportRow}
      → IsSound s
      → row_of id s ≡ some r
      → Kept (IsSealed r) id s (append_content_op now fresh args s).1 r
  append_content_op-Kept now fresh args s {r} c h =
      elim (outcome (append_content_op now fresh args s)) [
        | inr (e, failed) ↦ Kept-same s _ (append_content_op-err now fresh args s failed) h
        | inl (out, s', done) ↦
            let (u, current, _, found, editable, _, _, stored, _) =
              append_content_op-ok now fresh args s done in
            let k : Kept (IsSealed r) id s (appended now fresh args u s) r =
              Kept-appended id now fresh args u s h (λ frozen same.
                editable-unsealed current editable (
                  ap (λ x. x.state)
                    (find_report-row args.actor id s c.distinct h
                      (subst (λ i. find_report args.actor i s ≡ some current) same found))
                  ∙ frozen)) in
            rw (done, stored) k
      ]

  transition-Kept :
      (now : Timestamp) (fresh : Uuid) (args : TransitionArgs) (s : Store) {r : ReportRow}
      → IsSound s
      → row_of id s ≡ some r
      → Kept (IsSealed r) id s (transition now fresh args s).1 r
  transition-Kept now fresh args s {r} c h = elim (outcome (transition now fresh args s)) [
    | inr (e, failed) ↦ Kept-same s _ (transition-err now fresh args s failed) h
    | inl (out, s', done) ↦
        let (_, current, found, from, _, stored, _) = transition-ok now fresh args s done in
        let state : args.report_id ≡ id → r.state ≡ expected_from_state args.transition = λ same.
          ap (λ x. x.state)
            (sym (
              find_report-row args.actor id s c.distinct h
                (subst (λ i. find_report args.actor i s ≡ some current) same found)))
          ∙ same_state→eq _ _ from in
        let k : Kept (IsSealed r) id s (transitioned now fresh args current s) r =
          Kept-transitioned id now fresh args current s h
            (λ frozen same. expected-unsealed args.transition (sym (state same) ∙ frozen)) state in
        rw (done, stored) k
  ]

  -- One call, then others.
  Kept-then :
      (s s' s'' : Store) {r : ReportRow} (k : Kept (IsSealed r) id s s' r)
      → Kept (IsSealed k.row) id s' s'' k.row
      → Kept (IsSealed r) id s s'' r
  Kept-then s s' s'' {r} k l = Kept-trans id s s' s'' k record {
    row = l.row;
    there = l.there;
    moved = l.moved;
    frozen = λ e. l.frozen (ap (λ x. x.state) (k.frozen e).0 ∙ e);
  }

  seal_all-Kept :
      (now : Timestamp) (fresh : Uuid → Uuid) (request_id : Option Uuid) (ids : List Uuid)
      (s : Store) {r : ReportRow}
      → IsSound s
      → row_of id s ≡ some r
      → Kept (IsSealed r) id s (seal_all now fresh request_id ids s).1 r
  unfolding seal_all
  seal_all-Kept now fresh request_id [] s c h = Kept-refl id s h
  seal_all-Kept now fresh request_id (i ∷ ids) s c h =
      let k = transition-Kept now (fresh i) (seal_args i request_id) s c h in
      Kept-then s _ _ k (
        seal_all-Kept now fresh request_id ids _
          (transition-IsSound now (fresh i) (seal_args i request_id) s c) k.there)

  run_call-Kept :
      (call : Call) (s : Store) {r : ReportRow}
      → IsSound s
      → row_of id s ≡ some r
      → Kept (IsSealed r) id s (run_call call s) r
  unfolding run_call set_field add_attachment run_sealing_pass
  run_call-Kept (create_call now new args) s c h = create-Kept now new args s h
  run_call-Kept (set_field_call now fresh args) s c h = append_content_op-Kept _ _ _ s c h
  run_call-Kept (add_attachment_call now fresh args) s c h = append_content_op-Kept _ _ _ s c h
  run_call-Kept (transition_call now fresh args) s c h = transition-Kept now fresh args s c h
  run_call-Kept (seal_call now fresh request_id days) s c h =
      seal_all-Kept now fresh request_id (due_ids now days s) s c h

-- Whatever calls are made from sound tables, a report that is there stays, its state only moves
-- along the table of transitions, and if it is sealed then its row and its ops stay what they are.
pub run_calls-Kept :
    (id : Uuid) (calls : List Call) (s : Store) {r : ReportRow}
    → IsSound s
    → row_of id s ≡ some r
    → Kept (IsSealed r) id s (run_calls calls s) r
unfolding run_calls
run_calls-Kept id [] s c h = Kept-refl id s h
run_calls-Kept id (call ∷ calls) s c h =
    let k = run_call-Kept id call s c h in
    Kept-then id s (run_call call s) (run_calls calls (run_call call s)) k
      (run_calls-Kept id calls (run_call call s) (run_call-IsSound call s c) k.there)
