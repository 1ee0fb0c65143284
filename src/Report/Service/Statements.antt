-- ===== src/Report/Service/Statements.antt =====
-- The statements of ReportsService: reads, inserts and updates under row-level security.
pub mod Steps
use wdc_backend.Prelude.{
  ℕ, ◌+◌, Uuid, Timestamp, String, Bool, true, false, not, ◌&&◌, ◌⊎◌, inl, inr, Option, none, some,
  List, [], ◌∷◌, ◌++◌, map, ◌==◌, any, find, select, update_where, if◌then◌else◌,
}
use wdc_backend.Rls.{RlsContext}
use wdc_backend.Report.Json.{Object}
use wdc_backend.Report.Projection.{OpKind, ReportOp, project_canonical}
use wdc_backend.Database.{
  Store, Session, Tx, Result, ok, err, Error, not_found, database, DbError, duplicate_key,
  policy_violation, ReportRow, OpRow, query, execute, or_throw, ◌>>=◌, report_visible,
  parent_visible,
}

-- `SELECT … FROM reports WHERE id = $1`
unfoldable pub find_report : RlsContext → Uuid → Store → Option ReportRow
find_report ctx id s = find (λ r. r.id == id && report_visible ctx s.wards r) s.reports

unfoldable pub fetch_report : RlsContext → Uuid → Tx ReportRow
fetch_report ctx id = do
  row ← query (find_report ctx id)
  or_throw row (not_found "report not found")

pub record NewOp : Type 0 where
  pub report_id : Uuid
  pub actor_user_id : Uuid
  pub op_kind : OpKind
  pub payload : Object
  pub op_id : Option Uuid
  pub wall_clock_ts : Option Timestamp
  pub device_id : Option String

-- `a ?? b`
abbrev pub or_else {ℓ} : {A : Type ℓ} → Option A → A → A
or_else none b = b
or_else (some a) b = a

unfoldable pub op_row : Timestamp → Uuid → NewOp → ℕ → OpRow
op_row now fresh args seq = record {
  report_id = args.report_id;
  op_id = or_else args.op_id fresh;
  server_seq = seq;
  device_id = or_else args.device_id "server";
  actor_user_id = args.actor_user_id;
  op_kind = args.op_kind;
  payload = args.payload;
  wall_clock_ts = or_else args.wall_clock_ts now;
}

-- The primary key of the op log, on (report_id, op_id).
unfoldable pub has_op : Uuid → Uuid → List OpRow → Bool
has_op report_id op_id log = any (λ o. o.report_id == report_id && o.op_id == op_id) log

-- The insert into `report_op_log`: it draws its number in any case, then meets the policy and
-- the primary key.
unfoldable pub insert_op_row : RlsContext → (ℕ → OpRow) → Store → (DbError ⊎ Unit {0}) × Store
insert_op_row ctx row s =
    let o = row s.next_seq in
    let drawn = record s { next_seq = s.next_seq + 1 } in
    if not (parent_visible ctx s o.report_id)
    then (inl policy_violation, drawn)
    else (if has_op o.report_id o.op_id s.op_log
        then (inl duplicate_key, drawn)
        else (inr tt, record drawn { op_log = s.op_log ++ (o ∷ []) }))

abbrev pub is_duplicate : Error → Bool
is_duplicate (database duplicate_key) = true
is_duplicate _ = false

-- The handler of `insertOp`: a duplicate key counts as done.
unfoldable pub swallow_duplicate : Result (Unit {0}) × Session → Result (Unit {0}) × Session
swallow_duplicate (ok a, t) = (ok a, t)
swallow_duplicate (err e, t) = if is_duplicate e then (ok tt, t) else (err e, t)

unfoldable pub insert_op : RlsContext → Timestamp → Uuid → NewOp → Tx (Unit {0})
insert_op ctx now fresh args t =
    swallow_duplicate (execute (insert_op_row ctx (op_row now fresh args)) t)

-- `UPDATE reports SET … WHERE id = $1`, with the trigger that sets `updated_at`; no caller changes
-- a column that the policy reads.
unfoldable pub update_report :
    RlsContext → Timestamp → Uuid → (ReportRow → ReportRow) → Store → Store
update_report ctx now id f s = record s {
  reports =
      update_where (λ r. r.id == id && report_visible ctx s.wards r)
        (λ r. record (f r) { updated_at = now }) s.reports;
}

unfoldable pub to_report_op : OpRow → ReportOp
to_report_op row = record {
  op_id = row.op_id;
  op_kind = row.op_kind;
  payload = row.payload;
  wall_clock_ts = row.wall_clock_ts;
}

-- `SELECT … FROM report_op_log WHERE report_id = $1`
unfoldable pub ops_of : RlsContext → Uuid → Store → List OpRow
ops_of ctx id s = select (λ o. o.report_id == id && parent_visible ctx s o.report_id) s.op_log

unfoldable pub reproject_canonical : RlsContext → Timestamp → Uuid → Tx (Unit {0})
reproject_canonical ctx now id = do
  rows ← query (ops_of ctx id)
  let canonical = project_canonical (map to_report_op rows)
  execute (λ s. (inr tt, update_report ctx now id (λ r. record r { canonical = some canonical }) s))
