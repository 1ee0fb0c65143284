-- ===== src/Report/Consistent.antt =====
-- The invariant of the report tables: keys are unique, every op has its report, and the canonical
-- column is the projection of the report's op log.
pub mod Steps
pub mod Updates
pub mod Calls
pub mod Runs
use wdc_backend.Prelude.{
  Uuid, ◌≡◌, ◌≢◌, ◌⊎◌, Bool, true, false, Option, none, some, List, [], ◌∷◌, map, ◌==◌, select, any,
  All,
}
use wdc_backend.Report.Projection.{project_canonical}
use wdc_backend.Database.{ReportRow, OpRow}
use wdc_backend.Report.Service.Statements.{to_report_op, has_op}

-- The ops of one report, in the order of the log.
abbrev pub ops_in : Uuid → List OpRow → List OpRow
ops_in id log = select (λ o. o.report_id == id) log

-- The canonical column was never written and the report has no op, or it is the projection of
-- the report's ops.
abbrev pub IsCached : List OpRow → ReportRow → Type 0
IsCached log r =
    ((r.canonical ≡ none) × (ops_in r.id log ≡ []))
    ⊎ (r.canonical ≡ some (project_canonical (map to_report_op (ops_in r.id log))))

abbrev pub has_report : Uuid → List ReportRow → Bool
has_report id reports = any (λ r. r.id == id) reports

abbrev pub HasDistinctIds : List ReportRow → Type 0
HasDistinctIds [] = Unit
HasDistinctIds (r ∷ rs) = (has_report r.id rs ≡ false) × HasDistinctIds rs

abbrev pub HasDistinctOps : List OpRow → Type 0
HasDistinctOps [] = Unit
HasDistinctOps (o ∷ os) = (has_op o.report_id o.op_id os ≡ false) × HasDistinctOps os

pub record IsConsistent (reports : List ReportRow) (log : List OpRow) : Type 0 where
  pub distinct : HasDistinctIds reports
  pub keyed : HasDistinctOps log
  pub owned : All (λ o. has_report o.report_id reports ≡ true) log
  pub cached : All (IsCached log) reports

-- The same, but the canonical column of one report may be out of date.
pub record IsConsistentBut (id : Uuid) (reports : List ReportRow) (log : List OpRow) : Type 0 where
  pub distinct : HasDistinctIds reports
  pub keyed : HasDistinctOps log
  pub owned : All (λ o. has_report o.report_id reports ≡ true) log
  pub cached : All (λ r. r.id ≢ id → IsCached log r) reports
