-- ===== src/Report/History/Grace.antt =====
-- The sealing pass leaves every report alone that is not due.
use wdc_backend.Prelude.{
  Uuid, Timestamp, ℕ, ◌≡◌, ◌≢◌, ap, ◌∙◌, subst, inl, inr, Bool, false, ◌&&◌, Option, some, List, [],
  ◌∷◌, find, select, ◌==◌, ==_iff, arith, All, All-sort_by, All-take, All-map, Bool-cases,
}
use wdc_backend.Rls.{system_context}
use wdc_backend.Database.{Store, ReportRow, report_visible}
use wdc_backend.Database.Laws.{outcome}
use wdc_backend.Report.Service.Transitions.{TransitionArgs, transition}
use wdc_backend.Report.Service.Transitions.Effect.{transitioned, transition-ok}
use wdc_backend.Report.Service.Seal.{
  seal_args, seal_all, run_sealing_pass, due_ids, is_due, approved_first,
}
use wdc_backend.Report.Service.Failures.{transition-err}
use wdc_backend.Report.Consistent.{has_report, HasDistinctIds}
use wdc_backend.Report.Consistent.Runs.{IsSound}
use wdc_backend.Report.History.{row_of, Kept}
use wdc_backend.Report.History.Calls.{Kept-transitioned}

-- A transition of another report.
transition-other :
    (id : Uuid) (now : Timestamp) (fresh : Uuid) (args : TransitionArgs) (s : Store) {r : ReportRow}
    → row_of id s ≡ some r
    → args.report_id ≢ id
    → row_of id (transition now fresh args s).1 ≡ some r
transition-other id now fresh args s {r} h other = elim (outcome (transition now fresh args s)) [
  | inr (e, failed) ↦
      ap (λ rs. find (λ x. x.id == id) rs) (transition-err now fresh args s failed).0 ∙ h
  | inl (out, s', done) ↦
      let (_, current, _, _, _, stored, _) = transition-ok now fresh args s done in
      let k : Kept (Unit {0}) id s (transitioned now fresh args current s) r =
        Kept-transitioned id now fresh args current s h (λ _. other)
          (λ same. elim (other same) [ ]) in
      rw (done, stored) (k.there ∙ ap some (k.frozen tt).0)
]

seal_all-other :
    (id : Uuid) (now : Timestamp) (fresh : Uuid → Uuid) (request_id : Option Uuid) (ids : List Uuid)
    (s : Store) {r : ReportRow}
    → row_of id s ≡ some r
    → All (λ i. i ≢ id) ids
    → row_of id (seal_all now fresh request_id ids s).1 ≡ some r
unfolding seal_all
seal_all-other id now fresh request_id [] s h others = h
seal_all-other id now fresh request_id (i ∷ ids) s h (other, others) =
    seal_all-other id now fresh request_id ids _
      (transition-other id now (fresh i) (seal_args i request_id) s h other) others

select-absent :
    (id : Uuid) (test : ReportRow → Bool) (rs : List ReportRow)
    → has_report id rs ≡ false
    → All (λ x. x.id ≢ id) (select test rs)
select-absent id test [] h = tt
select-absent id test (x ∷ rs) h =
    let rest : has_report id rs ≡ false = ground arith in
    let ne : x.id ≢ id = ground arith in
    elim (Bool-cases (test x)) [
      | inl picked ↦ rw picked (ne, select-absent id test rs rest)
      | inr passed ↦ rw passed (select-absent id test rs rest)
    ]

-- Where ids are unique, the rows picked by a test that a report fails are of other reports.
select-others :
    (id : Uuid) (test : ReportRow → Bool) (rs : List ReportRow) {r : ReportRow}
    → HasDistinctIds rs
    → find (λ x. x.id == id) rs ≡ some r
    → test r ≡ false
    → All (λ x. x.id ≢ id) (select test rs)
select-others id test [] d h f = tt
select-others id test (x ∷ rs) {r} (new, d) h f = elim (Bool-cases (x.id == id)) [
  | inl here ↦
      let same : x ≡ r = ground arith in
      let skipped : test x ≡ false = ap test same ∙ f in
      rw skipped
        (select-absent id test rs (subst (λ i. has_report i rs ≡ false) ((==_iff _ _).0 here) new))
  | inr there ↦
      let rest = select-others id test rs {r = r} d (ground arith) f in
      let ne : x.id ≢ id = ground arith in
      elim (Bool-cases (test x)) [ inl picked ↦ rw picked (ne, rest) | inr passed ↦ rw passed rest ]
]

-- From sound tables, a sealing pass changes nothing of the row of a report that is not approved, or that was
-- approved no longer ago than the days of grace.
pub run_sealing_pass-grace :
    (id : Uuid) (now : Timestamp) (fresh : Uuid → Uuid) (request_id : Option Uuid) (grace_days : ℕ)
    (s : Store) {r : ReportRow}
    → IsSound s
    → row_of id s ≡ some r
    → is_due now grace_days r ≡ false
    → row_of id (run_sealing_pass now fresh request_id grace_days s).1 ≡ some r
unfolding run_sealing_pass due_ids
run_sealing_pass-grace id now fresh request_id grace_days s {r} c h early =
    let test : ReportRow → Bool =
      λ x. is_due now grace_days x && report_visible system_context s.wards x in
    seal_all-other id now fresh request_id (due_ids now grace_days s) s h (
      All-map (λ i. i ≢ id) (λ x. x.id) _
        (All-take _ 200 _ (
          All-sort_by _ approved_first (select test s.reports)
            (select-others id test s.reports c.distinct h (ground arith)))))
