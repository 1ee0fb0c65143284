-- ===== src/Report/Service/Write/Effect.antt =====
-- What content ops and creations have done when they return.
use wdc_backend.Prelude.{
  Uuid, Timestamp, ◌≡◌, ap, ◌∙◌, sym, subst, true, false, not, some, [], ◌∷◌, ◌++◌, any, arith,
  ◌==◌,
}
use wdc_backend.Report.Lifecycle.{is_editable}
use wdc_backend.Database.{
  Store, Session, ok, ReportRow, ◌>>=◌, with_rls_transaction, report_insertable, query, execute,
}
use wdc_backend.Database.Laws.{>>=-ok, guard-bind, with_rls_transaction-ok}
use wdc_backend.Report.Service.Statements.{find_report, op_row, has_op, or_else}
use wdc_backend.Report.Service.Statements.Steps.{
  add_op, reprojected, insert_op-live, fetch_report-bind, find_report-ok, reproject_canonical-bind,
}
use wdc_backend.Report.Service.Write.{
  ContentOp, append_in, append_content_op, outside_ward, content_op, CreateArgs, create,
  insert_report, new_report, either, create_in,
}

-- The tables with a content op appended.
unfoldable pub appended : Timestamp → Uuid → ContentOp → Uuid → Store → Store
appended now fresh args user_id s =
    reprojected args.actor now args.report_id
      (add_op (op_row now fresh (content_op args user_id)) s)

append_in-ok :
    (now : Timestamp) (fresh : Uuid) (args : ContentOp) (user_id : Uuid) (s : Store) {r : ReportRow}
    {t : Session}
    → append_in now fresh args user_id (record { store = s; aborted = false }) ≡ (ok r, t)
    → (current : ReportRow) × (find_report args.actor args.report_id s ≡ some current)
      × (is_editable current.state ≡ true)
      × (not (outside_ward args.actor current) ≡ true)
      × (has_op args.report_id (or_else args.op_id fresh) s.op_log ≡ false)
      × (t ≡ record { store = appended now fresh args user_id s; aborted = false })
      × (find_report args.actor args.report_id t.store ≡ some r)
unfolding append_in appended content_op
append_in-ok now fresh args user_id s {r} {t} h =
    let (_, current, found, h1) = fetch_report-bind _ _ _ _ h in
    let (editable, h2) = guard-bind _ _ _ _ h1 in
    let (inside, h3) = guard-bind _ _ _ _ h2 in
    let (_, u, inserted, h4) = >>=-ok _ _ _ h3 in
    let (live, h5) = reproject_canonical-bind _ _ _ _ _ h4 in
    let (_, same, new) = insert_op-live _ _ _ _ _ u inserted live in
    let (_, refetched, same') = find_report-ok _ _ _ _ h5 in
    let step : Session → Session =
      λ v. record { store = reprojected args.actor now args.report_id v.store; aborted = false } in
    (current, found, editable, inside, new, same' ∙ ap step same, rw same' refetched)

append_content_op_inner :
    (now : Timestamp) (fresh : Uuid) (args : ContentOp) (s : Store) {r : ReportRow} {s' : Store}
    → append_content_op now fresh args s ≡ (ok r, s')
    → (user_id : Uuid) × (args.actor.user_id ≡ some user_id)
      × (with_rls_transaction (append_in now fresh args user_id) s ≡ (ok r, s'))
unfolding append_content_op
append_content_op_inner now fresh args s h = ground arith

-- What a content op has found and left.
abbrev pub AppendDone : Timestamp → Uuid → ContentOp → Store → ReportRow → Store → Type 0
AppendDone now fresh args s r s' =
    (user_id : Uuid) × (current : ReportRow) × (args.actor.user_id ≡ some user_id)
    × (find_report args.actor args.report_id s ≡ some current)
    × (is_editable current.state ≡ true)
    × (outside_ward args.actor current ≡ false)
    × (has_op args.report_id (or_else args.op_id fresh) s.op_log ≡ false)
    × (s' ≡ appended now fresh args user_id s)
    × (find_report args.actor args.report_id s' ≡ some r)

-- A content op that returns had an authenticated actor, found the report visible, editable and,
-- for a secretary, of the secretary's ward, and found its op id new; it has left exactly the
-- tables `appended`: the op at the end of the log, the canonical projection computed anew.
pub append_content_op-ok :
    (now : Timestamp) (fresh : Uuid) (args : ContentOp) (s : Store) {r : ReportRow} {s' : Store}
    → append_content_op now fresh args s ≡ (ok r, s')
    → AppendDone now fresh args s r s'
append_content_op-ok now fresh args s {r} {s'} h =
    let (user_id, known, inner) = append_content_op_inner now fresh args s h in
    let (t, e, committed) = with_rls_transaction-ok _ s inner in
    let (current, found, editable, inside, new, same, refetched) =
      append_in-ok now fresh args user_id s e in
    let stored : s' ≡ appended now fresh args user_id s = rw same at committed in
    (
      user_id,
      current,
      known,
      found,
      editable,
      ground arith,
      new,
      stored,
      subst (λ u. find_report args.actor args.report_id u ≡ some r)
          (ap (λ u. u.store) same ∙ sym stored) refetched,
    )

-- What a creation has found and left.
abbrev pub CreateDone : Timestamp → Uuid → CreateArgs → Store → ReportRow → Store → Type 0
CreateDone now id args s r s' =
    (user_id : Uuid) × (ward_id : Uuid) × (args.actor.user_id ≡ some user_id)
    × (either args.ward_id args.actor.ward_id ≡ some ward_id)
    × (any (λ x. x.id == id) s.reports ≡ false)
    × (r ≡ new_report now id args ward_id user_id)
    × (report_insertable args.actor r ≡ true)
    × (s' ≡ record s { reports = s.reports ++ (r ∷ []) })

-- A creation that returns had an authenticated actor and a deployed form version, and has added
-- one draft report to the table, for the ward asked for or else the actor's own, with an id that
-- no report had.
pub create-ok :
    (now : Timestamp) (id : Uuid) (args : CreateArgs) (s : Store) {r : ReportRow} {s' : Store}
    → create now id args s ≡ (ok r, s')
    → CreateDone now id args s r s'
unfolding create with_rls_transaction create_in query execute insert_report ◌>>=◌ new_report
create-ok now id args s h = ground arith
