-- ===== src/Sync/Sound/Content.antt =====
-- What the transaction over the content ops of a report leaves (`applyContentOpsBatch`).
use wdc_backend.Prelude.{
  ◌+◌, Uuid, Timestamp, ◌≡◌, ◌≢◌, refl, sym, ◌∙◌, ◌⊎◌, inl, inr, Bool, true, false, Option, none,
  some, List, [], ◌∷◌, ◌++◌, arith, Bool-cases, Option-cases, All, All-append,
}
use wdc_backend.Rls.{RlsContext}
use wdc_backend.Report.Lifecycle.{is_editable}
use wdc_backend.Database.{Store, Session, ok, ReportRow, OpRow, parent_visible, report_visible}
use wdc_backend.Database.Laws.{execute-bind}
use wdc_backend.Report.Service.Statements.{find_report, has_op}
use wdc_backend.Report.Service.Statements.Steps.{reprojected, reproject_canonical-bind}
use wdc_backend.Report.Service.Write.{outside_ward}
use wdc_backend.Report.Service.Failures.{find_report-parent}
use wdc_backend.Report.Consistent.{has_report, IsCached, IsConsistentBut}
use wdc_backend.Report.Consistent.Steps.{ops_in-append_ne, HasDistinctOps-append}
use wdc_backend.Report.Consistent.Updates.{IsVisible-of_find}
use wdc_backend.Report.Consistent.Calls.{reprojected-IsConsistent, has_report_of_find, weaken}
use wdc_backend.Report.Consistent.Runs.{IsSound}
use wdc_backend.Sync.{OpResult}
use wdc_backend.Sync.Content.{
  ContentSyncOp, sync_row, insert_rows, insert_batch, insert_and_project, content_batch_in,
}

IsCached-more :
    (id : Uuid) (o : OpRow) (rs : List ReportRow) (log : List OpRow)
    → o.report_id ≡ id
    → All (λ r. r.id ≢ id → IsCached log r) rs
    → All (λ r. r.id ≢ id → IsCached (log ++ (o ∷ [])) r) rs
IsCached-more id o [] log e a = tt
IsCached-more id o (r ∷ rs) log e (p, a) = (
  λ ne. rw (ops_in-append_ne r.id o log (λ e'. ne (sym e' ∙ e))) (p ne),
  IsCached-more id o rs log e a,
)

insert_rows-keeps :
    (now : Timestamp) (id user_id : Uuid) (ops : List ContentSyncOp) (s : Store)
    → let s' = (insert_rows now id user_id ops s).1 in
      (s'.reports ≡ s.reports) × (s'.wards ≡ s.wards)
unfolding insert_rows
insert_rows-keeps now id user_id [] s = (refl, refl)
insert_rows-keeps now id user_id (op ∷ ops) s =
    let o = sync_row now id user_id op s.next_seq in
    let drawn : Store = record s { next_seq = s.next_seq + 1 } in
    elim (Bool-cases (has_op o.report_id o.op_id s.op_log)) [
      | inl known ↦ rw known (insert_rows-keeps now id user_id ops drawn)
      | inr new ↦
          rw new
            (insert_rows-keeps now id user_id ops (record drawn { op_log = s.op_log ++ (o ∷ []) }))
    ]

insert_rows-IsConsistentBut :
    (now : Timestamp) (id user_id : Uuid) (ops : List ContentSyncOp) (s : Store)
    → has_report id s.reports ≡ true
    → IsConsistentBut id s.reports s.op_log
    → let s' = (insert_rows now id user_id ops s).1 in IsConsistentBut id s'.reports s'.op_log
unfolding insert_rows sync_row
insert_rows-IsConsistentBut now id user_id [] s there c = c
insert_rows-IsConsistentBut now id user_id (op ∷ ops) s there c =
    let o : OpRow = sync_row now id user_id op s.next_seq in
    let drawn : Store = record s { next_seq = s.next_seq + 1 } in
    elim (Bool-cases (has_op o.report_id o.op_id s.op_log)) [
      | inl known ↦ rw known (insert_rows-IsConsistentBut now id user_id ops drawn there c)
      | inr new ↦ rw new (
          insert_rows-IsConsistentBut now id user_id ops
            (record drawn { op_log = s.op_log ++ (o ∷ []) }) there
            record {
              distinct = c.distinct;
              keyed = HasDistinctOps-append o s.op_log new c.keyed;
              owned = All-append _ s.op_log (o ∷ []) c.owned (there, tt);
              cached = IsCached-more id o s.reports s.op_log refl c.cached;
            })
    ]

-- What the transaction over the content ops of a report leaves.
abbrev pub ContentLeaves :
    RlsContext → Timestamp → Uuid → List ContentSyncOp → Store → Session → Type 0
ContentLeaves actor now id ops s t =
    (t ≡ record { store = s; aborted = false })
    ⊎ ((user_id : Uuid) × (t ≡ record {
      store = reprojected actor now id (insert_rows now id user_id ops s).1;
      aborted = false;
    }))

insert_and_project-leaves :
    (actor : RlsContext) (now : Timestamp) (id : Uuid) (ops : List ContentSyncOp) (s : Store)
    (t : Session) {rs : List OpResult}
    → insert_and_project actor now id ops (record { store = s; aborted = false }) ≡ (ok rs, t)
    → ContentLeaves actor now id ops s t
unfolding insert_batch
insert_and_project-leaves actor now id ops s t h =
    let (_, inserted, wrote, h1) = execute-bind _ _ _ h in
    let (_, h2) = reproject_canonical-bind _ _ _ _ _ h1 in
    elim (Option-cases actor.user_id) [
      | inl nobody ↦ ground arith
      | inr (user_id, known) ↦ inr (user_id, ground arith)
    ]

pub content_batch_in-leaves :
    (actor : RlsContext) (now : Timestamp) (id : Uuid) (ops : List ContentSyncOp)
    (row : Option ReportRow) (s : Store) (t : Session) {rs : List OpResult}
    → content_batch_in actor now id ops row (record { store = s; aborted = false }) ≡ (ok rs, t)
    → (t ≡ record { store = s; aborted = false })
      ⊎ ((r : ReportRow) × (row ≡ some r) × ContentLeaves actor now id ops s t)
unfolding content_batch_in
content_batch_in-leaves actor now id ops none s t {rs} h = inl (ground arith)
content_batch_in-leaves actor now id ops (some r) s t {rs} h =
    elim (Bool-cases (is_editable r.state)) [
      | inr closed ↦ inl (ground arith)
      | inl editable ↦ elim (Bool-cases (outside_ward actor r)) [
        | inl outside ↦ inl (ground arith)
        | inr inside ↦
            inr (r, refl, insert_and_project-leaves actor now id ops s t {rs = rs} (ground arith))
      ]
    ]

pub inserted-IsSound :
    (actor : RlsContext) (now : Timestamp) (id user_id : Uuid) (ops : List ContentSyncOp)
    (s : Store) {r : ReportRow}
    → find_report actor id s ≡ some r
    → IsSound s
    → IsSound (reprojected actor now id (insert_rows now id user_id ops s).1)
unfolding find_report parent_visible
inserted-IsSound actor now id user_id ops s found c =
    let seen : ReportRow → Bool = report_visible actor s.wards in
    let s' = (insert_rows now id user_id ops s).1 in
    let (same_reports, same_wards) = insert_rows-keeps now id user_id ops s in
    reprojected-IsConsistent actor now id s'
      (rw (same_reports, same_wards) (find_report-parent actor id s found))
      (rw (same_reports, same_wards) (IsVisible-of_find id seen s.reports found c.distinct))
      (insert_rows-IsConsistentBut now id user_id ops s (has_report_of_find id seen s.reports found)
        (weaken id s.reports s.op_log c))
