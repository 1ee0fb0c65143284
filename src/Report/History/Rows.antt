-- ===== src/Report/History/Rows.antt =====
-- The row and the ops of a report before and after the statements of a call.
use wdc_backend.Prelude.{
  Uuid, Timestamp, ◌≡◌, ◌≢◌, ◌⊎◌, Bool, false, ◌&&◌, some, List, [], ◌∷◌, ◌++◌, ◌==◌, find,
  update_where, arith,
}
use wdc_backend.Rls.{RlsContext}
use wdc_backend.Database.{Store, ReportRow, report_visible}
use wdc_backend.Report.Service.Statements.{find_report, update_report}
use wdc_backend.Report.Consistent.{has_report, HasDistinctIds}
use wdc_backend.Report.History.{row_of}

pub find-append :
    (id : Uuid) (rs more : List ReportRow) {r : ReportRow}
    → find (λ x. x.id == id) rs ≡ some r
    → find (λ x. x.id == id) (rs ++ more) ≡ some r
find-append id [] more h = cc
find-append id (x ∷ rs) more {r} h = ground (arith, find-append id rs more {r = r})

absent_of_find :
    (id : Uuid) (visible : ReportRow → Bool) (rs : List ReportRow) {c : ReportRow}
    → has_report id rs ≡ false
    → find (λ x. x.id == id && visible x) rs ≢ some c
absent_of_find id visible [] h e = cc
absent_of_find id visible (x ∷ rs) {c} h e = ground (arith, absent_of_find id visible rs {c = c})

-- Where ids are unique, the visible row of a report is its row.
find-visible :
    (id : Uuid) (visible : ReportRow → Bool) (rs : List ReportRow) {r c : ReportRow}
    → HasDistinctIds rs
    → find (λ x. x.id == id) rs ≡ some r
    → find (λ x. x.id == id && visible x) rs ≡ some c
    → c ≡ r
find-visible id visible [] d h e = cc
find-visible id visible (x ∷ rs) {r} {c} (new, d) h e = ground (
  arith,
  find-visible id visible rs {r = r} {c = c} d,
  absent_of_find x.id visible rs {c = c} new,
)

pub find_report-row :
    (ctx : RlsContext) (id : Uuid) (s : Store) {r c : ReportRow}
    → HasDistinctIds s.reports
    → row_of id s ≡ some r
    → find_report ctx id s ≡ some c
    → c ≡ r
unfolding find_report
find_report-row ctx id s d h e = find-visible id (report_visible ctx s.wards) s.reports d h e

find-update_where :
    (id j : Uuid) (visible : ReportRow → Bool) (f : ReportRow → ReportRow) (rs : List ReportRow)
    {r : ReportRow}
    → ((x : ReportRow) → (f x).id ≡ x.id)
    → find (λ x. x.id == id) rs ≡ some r
    → let found = find (λ x. x.id == id) (update_where (λ x. x.id == j && visible x) f rs) in
      (found ≡ some r) ⊎ ((j ≡ id) × (found ≡ some (f r)))
find-update_where id j visible f [] k h = cc
find-update_where id j visible f (x ∷ rs) {r} k h =
    ground (arith, find-update_where id j visible f rs {r = r} k, k x)

-- An update leaves a report as it was, or it is an update of this report.
pub row_of-update_report :
    (ctx : RlsContext) (now : Timestamp) (id j : Uuid) (f : ReportRow → ReportRow) (s : Store)
    {r : ReportRow}
    → ((x : ReportRow) → (f x).id ≡ x.id)
    → row_of id s ≡ some r
    → let found = row_of id (update_report ctx now j f s) in
      (found ≡ some r) ⊎ ((j ≡ id) × (found ≡ some (record (f r) { updated_at = now })))
unfolding update_report
row_of-update_report ctx now id j f s k h =
    find-update_where id j (report_visible ctx s.wards) (λ r. record (f r) { updated_at = now })
      s.reports k h
