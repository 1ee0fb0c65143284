-- ===== src/Report/Service/Failures.antt =====
-- A call that raises leaves every table as it was.
use wdc_backend.Prelude.{
  Uuid, Timestamp, ◌+◌, ◌≡◌, refl, some, arith, Option-cases, inl, inr, any_of_find, ◌==◌, true,
  false, ◌&&◌,
}
use wdc_backend.Database.{
  Store, Session, ok, err, Error, database, transaction_aborted, ReportRow, with_rls_transaction,
  ◌>>=◌, execute, query, parent_visible, report_visible,
}
use wdc_backend.Database.Laws.{with_rls_transaction-err}
use wdc_backend.Rls.{RlsContext}
use wdc_backend.Report.Lifecycle.{is_editable}
use wdc_backend.Report.Service.Statements.{
  find_report, fetch_report, NewOp, has_op, or_else, insert_op, insert_op_row, swallow_duplicate,
  op_row, reproject_canonical,
}
use wdc_backend.Report.Service.Write.{
  CreateArgs, create, ContentOp, append_content_op, append_in, content_op, outside_ward, create_in,
  either,
}
use wdc_backend.Report.Service.Transitions.{TransitionArgs, transition, transition_in}

abbrev pub SameTables : Store → Store → Type 0
SameTables s s' =
    (s'.reports ≡ s.reports)
    × (s'.op_log ≡ s.op_log)
    × (s'.form_versions ≡ s.form_versions)
    × (s'.wards ≡ s.wards)

-- A creation that raises changes no table.
pub create-err :
    (now : Timestamp) (id : Uuid) (args : CreateArgs) (s : Store) {e : Error}
    → (create now id args s).0 ≡ err e
    → SameTables s (create now id args s).1
unfolding create
create-err now id args s {e} h = elim (Option-cases (either args.ward_id args.actor.ward_id)) [
  | inl no_ward ↦ ground arith
  | inr (w, ward) ↦ elim (Option-cases args.actor.user_id) [
    | inl nobody ↦ ground arith
    | inr (u, user) ↦ ground (arith, with_rls_transaction-err (create_in now id args w u) s {e = e})
  ]
]

-- A content op that raises changes no table.
pub append_content_op-err :
    (now : Timestamp) (fresh : Uuid) (args : ContentOp) (s : Store) {e : Error}
    → (append_content_op now fresh args s).0 ≡ err e
    → SameTables s (append_content_op now fresh args s).1
unfolding append_content_op
append_content_op-err now fresh args s {e} h = elim (Option-cases args.actor.user_id) [
  | inl nobody ↦ ground arith
  | inr (u, user) ↦ ground (arith, with_rls_transaction-err (append_in now fresh args u) s {e = e})
]

-- A transition that raises changes no table.
pub transition-err :
    (now : Timestamp) (fresh : Uuid) (args : TransitionArgs) (s : Store) {e : Error}
    → (transition now fresh args s).0 ≡ err e
    → SameTables s (transition now fresh args s).1
unfolding transition
transition-err now fresh args s {e} h =
    ground (arith, with_rls_transaction-err (transition_in now fresh args) s {e = e})

insert_op_duplicate :
    (ctx : RlsContext) (now : Timestamp) (fresh : Uuid) (args : NewOp) (t : Session)
    → t.aborted ≡ false
    → parent_visible ctx t.store args.report_id ≡ true
    → has_op args.report_id (or_else args.op_id fresh) t.store.op_log ≡ true
    → insert_op ctx now fresh args t ≡ (
      ok tt,
      record { store = record (t.store) { next_seq = t.store.next_seq + 1 }; aborted = true },
    )
unfolding insert_op swallow_duplicate execute insert_op_row op_row
insert_op_duplicate ctx now fresh args t live shown dup = ground arith

reproject_aborted :
    (ctx : RlsContext) (now : Timestamp) (id : Uuid) (s : Store)
    → reproject_canonical ctx now id (record { store = s; aborted = true })
      ≡ (err (database transaction_aborted), record { store = s; aborted = true })
unfolding reproject_canonical query ◌>>=◌
reproject_aborted ctx now id s = refl

pub find_report-parent :
    (ctx : RlsContext) (id : Uuid) (s : Store) {r : ReportRow}
    → find_report ctx id s ≡ some r
    → parent_visible ctx s id ≡ true
unfolding find_report parent_visible
find_report-parent ctx id s found =
    any_of_find (λ r. r.id == id && report_visible ctx s.wards r) s.reports found

-- A retry of a content op under an op id that the report's log holds is not the no-op that the
-- code means it to be: for an actor who may edit the report it raises the database's
-- "transaction is aborted".
pub append_content_op_retry :
    (now : Timestamp) (fresh op_id user_id : Uuid) (args : ContentOp) (s : Store)
    {current : ReportRow}
    → args.actor.user_id ≡ some user_id
    → find_report args.actor args.report_id s ≡ some current
    → is_editable current.state ≡ true
    → outside_ward args.actor current ≡ false
    → args.op_id ≡ some op_id
    → has_op args.report_id op_id s.op_log ≡ true
    → (append_content_op now fresh args s).0 ≡ err (database transaction_aborted)
unfolding append_content_op with_rls_transaction append_in fetch_report query ◌>>=◌ content_op
append_content_op_retry now fresh op_id user_id args s {current} known found editable inside given
      dup =
    let start : Session = record { store = s; aborted = false } in
    let key : has_op args.report_id (or_else args.op_id fresh) s.op_log ≡ true = ground arith in
    let inserted =
      insert_op_duplicate args.actor now fresh (content_op args user_id) start refl
        (find_report-parent args.actor args.report_id s found) key in
    ground (
      arith,
      inserted,
      reproject_aborted args.actor now args.report_id (record s { next_seq = s.next_seq + 1 }),
    )
