-- ===== src/Report/History.antt =====
-- What becomes of one report under calls of ReportsService (src/modules/reports/reports.service.ts).
pub mod Rows
pub mod Calls
pub mod Runs
pub mod Grace
use wdc_backend.Prelude.{Uuid, ◌≡◌, Option, some, ◌==◌, find}
use wdc_backend.Report.Lifecycle.{ReportState, Transition, expected_from_state, next_state}
use wdc_backend.Report.Consistent.{ops_in}
use wdc_backend.Database.{Store, ReportRow}

-- The row of a report, whoever reads it.
abbrev pub row_of : Uuid → Store → Option ReportRow
row_of id s = find (λ r. r.id == id) s.reports

-- States joined by transitions of the table.
pub data Reaches (a : ReportState) : ReportState → Type 0 where
  stay : Reaches a a
  step : (t : Transition) → Reaches a (expected_from_state t) → Reaches a (next_state t)

-- What calls keep of a report: the row stays, its state moves along the table, and under the
-- condition `Still` nothing of it changes.
pub record Kept (Still : Type 0) (id : Uuid) (s s' : Store) (r : ReportRow) : Type 0 where
  pub row : ReportRow
  pub there : row_of id s' ≡ some row
  pub moved : Reaches r.state row.state
  pub frozen : Still → (row ≡ r) × (ops_in id s'.op_log ≡ ops_in id s.op_log)

abbrev pub IsSealed : ReportRow → Type 0
IsSealed r = r.state ≡ ReportState.sealed
