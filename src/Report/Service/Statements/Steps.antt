-- ===== src/Report/Service/Statements/Steps.antt =====
-- What the statements of a transaction have done when the sequence that they begin succeeds.
use wdc_backend.Prelude.{ℕ, ◌+◌, Uuid, Timestamp, ◌≡◌, false, some, [], ◌∷◌, ◌++◌, map, arith}
use wdc_backend.Rls.{RlsContext}
use wdc_backend.Report.Projection.{project_canonical}
use wdc_backend.Database.{
  Store, Session, Tx, ok, Error, ReportRow, OpRow, query, execute, or_throw, ◌>>=◌,
}
use wdc_backend.Database.Laws.{>>=-ok, query-bind, execute-ok}
use wdc_backend.Report.Service.Statements.{
  find_report, fetch_report, NewOp, op_row, insert_op, swallow_duplicate, insert_op_row,
  update_report, reproject_canonical, or_else, ops_of, to_report_op, has_op,
}

-- The tables with a row added to the op log.
unfoldable pub add_op : (ℕ → OpRow) → Store → Store
add_op row s = record s { op_log = s.op_log ++ (row s.next_seq ∷ []); next_seq = s.next_seq + 1 }

-- The tables with the canonical column of one report computed anew.
unfoldable pub reprojected : RlsContext → Timestamp → Uuid → Store → Store
reprojected ctx now id s =
    update_report ctx now id
      (λ r. record r { canonical = some (project_canonical (map to_report_op (ops_of ctx id s))) })
      s

-- An insert after which the transaction is alive found no duplicate, and added the row.
pub insert_op-live :
    (ctx : RlsContext) (now : Timestamp) (fresh : Uuid) (args : NewOp) (t t' : Session)
    → insert_op ctx now fresh args t ≡ (ok tt, t')
    → t'.aborted ≡ false
    → (t.aborted ≡ false)
      × (t' ≡ record { store = add_op (op_row now fresh args) t.store; aborted = false })
      × (has_op args.report_id (or_else args.op_id fresh) t.store.op_log ≡ false)
unfolding insert_op swallow_duplicate execute insert_op_row op_row add_op
insert_op-live ctx now fresh args t t' h n = ground arith

module _ (ctx : RlsContext) (id : Uuid) where
  pub find_report-ok :
      (e : Error) (t : Session) {r : ReportRow} {t' : Session}
      → (query (find_report ctx id) >>= λ row. or_throw row e) t ≡ (ok r, t')
      → (t.aborted ≡ false) × (find_report ctx id t.store ≡ some r) × (t' ≡ t)
  unfolding query ◌>>=◌
  find_report-ok e t h = ground arith

  pub fetch_report-ok :
      (t : Session) {r : ReportRow} {t' : Session}
      → fetch_report ctx id t ≡ (ok r, t')
      → (t.aborted ≡ false) × (find_report ctx id t.store ≡ some r) × (t' ≡ t)
  unfolding fetch_report
  fetch_report-ok t h = find_report-ok _ t h

  pub fetch_report-bind :
      {B : Type 0} (f : ReportRow → Tx B) (t : Session) {b : B} {t' : Session}
      → (fetch_report ctx id >>= f) t ≡ (ok b, t')
      → (t.aborted ≡ false)
        × (r : ReportRow) × (find_report ctx id t.store ≡ some r)
        × (f r t ≡ (ok b, t'))
  fetch_report-bind f t h =
      let (r, u, e, k) = >>=-ok _ _ _ h in
      let (live, found, same) = fetch_report-ok t e in (live, r, found, rw same at k)

  pub reproject_canonical-bind :
      {B : Type 0} (now : Timestamp) (f : Unit {0} → Tx B) (t : Session) {b : B} {t' : Session}
      → (reproject_canonical ctx now id >>= f) t ≡ (ok b, t')
      → (t.aborted ≡ false)
        × (f tt (record { store = reprojected ctx now id t.store; aborted = false }) ≡ (ok b, t'))
  unfolding reproject_canonical reprojected
  reproject_canonical-bind now f t h =
      let (_, u, e, k) = >>=-ok _ _ _ h in
      let (live, wrote) = query-bind _ _ _ e in
      let (_, done, same) = execute-ok _ _ wrote in (live, rw same at k)
