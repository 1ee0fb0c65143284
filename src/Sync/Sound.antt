-- ===== src/Sync/Sound.antt =====
-- Batches keep the invariant of the report tables.
pub mod Content
use wdc_backend.Prelude.{
  ◌+◌, Uuid, Timestamp, String, ◌≡◌, ◌≢◌, refl, sym, ap, ◌∙◌, subst, ◌⊎◌, inl, inr, Bool, true,
  false, Option, none, some, List, [], ◌∷◌, ◌++◌, arith, Bool-cases, Option-cases, All, All-append,
}
use wdc_backend.Rls.{RlsContext}
use wdc_backend.Report.Lifecycle.{Transition, is_editable}
use wdc_backend.Database.{
  Result, ok, err, OpRow, Store, Session, ok, ReportRow, OpRow, query, ◌>>=◌, with_rls_transaction,
  parent_visible, report_visible,
}
use wdc_backend.Database.Laws.{
  outcome, query-bind, execute-bind, with_rls_transaction-ok, with_rls_transaction-err,
}
use wdc_backend.Report.Service.Statements.{find_report, has_op}
use wdc_backend.Report.Service.Statements.Steps.{reprojected, reproject_canonical-bind}
use wdc_backend.Report.Service.Transitions.{transition}
use wdc_backend.Report.Service.Write.{outside_ward}
use wdc_backend.Report.Service.Failures.{find_report-parent}
use wdc_backend.Report.Consistent.{has_report, IsCached, IsConsistentBut}
use wdc_backend.Report.Consistent.Steps.{ops_in-append_ne, HasDistinctOps-append}
use wdc_backend.Report.Consistent.Updates.{IsVisible-of_find}
use wdc_backend.Report.Consistent.Calls.{reprojected-IsConsistent, has_report_of_find, weaken}
use wdc_backend.Report.Consistent.Runs.{IsSound, SameTables-IsSound, transition-IsSound}
use wdc_backend.Sync.Sound.Content.{ContentLeaves, content_batch_in-leaves, inserted-IsSound}
use wdc_backend.Sync.{OpResult, SyncOp, SyncBatch, SyncStore, SyncResponse, OpResult}
use wdc_backend.Sync.Content.{
  ContentSyncOp, sync_row, insert_rows, insert_batch, insert_and_project, content_batch_in,
  apply_content_ops_batch,
}
use wdc_backend.Sync.Batch.{
  transition_args, apply_transition_op, apply_transitions, content_ops, transition_ops, by_report,
  apply_content, apply_group, apply_groups, check_idempotency, store_idempotency, pulled,
  answer_batch, apply_new_batch, apply_batch,
}

leaves-IsSound :
    (actor : RlsContext) (now : Timestamp) (id : Uuid) (ops : List ContentSyncOp) (s : Store)
    (t : Session)
    → (t ≡ record { store = s; aborted = false })
      ⊎ ((r : ReportRow) × (find_report actor id s ≡ some r) × ContentLeaves actor now id ops s t)
    → IsSound s
    → (t.aborted ≡ false) × IsSound t.store
leaves-IsSound actor now id ops s t (inl same) c = rw same (refl, c)
leaves-IsSound actor now id ops s t (inr (r, found, inl same)) c = rw same (refl, c)
leaves-IsSound actor now id ops s t (inr (r, found, inr (user_id, same))) c =
    rw same (refl, inserted-IsSound actor now id user_id ops s found c)

content_call-IsSound :
    (actor : RlsContext) (now : Timestamp) (id : Uuid) (ops : List ContentSyncOp) (s : Store)
    → IsSound s
    → IsSound
        (with_rls_transaction
          (query (find_report actor id) >>= content_batch_in actor now id ops)
          s).1
content_call-IsSound actor now id ops s c =
    elim (outcome (
      with_rls_transaction (query (find_report actor id) >>= content_batch_in actor now id ops)
        s)) [
          | inr (e, failed) ↦
              SameTables-IsSound s
                (with_rls_transaction
                  (query (find_report actor id) >>= content_batch_in actor now id ops) s).1
                (with_rls_transaction-err _ s failed) c
          | inl (rs, s', done) ↦
              let (t, e, committed) = with_rls_transaction-ok _ s done in
              let (_, h) = query-bind _ _ _ e in
              let (live, sound) =
                leaves-IsSound actor now id ops s t
                  (content_batch_in-leaves actor now id ops (find_report actor id s) s t h) c in
              let stored : s' ≡ t.store = rw live at committed in
              subst IsSound (sym (ap (λ q. q.1) done ∙ stored)) sound
        ]

apply_content_ops_batch-store :
    (actor : RlsContext) (now : Timestamp) (id : Uuid) (ops : List ContentSyncOp) (s : Store)
    → (apply_content_ops_batch actor now id ops s).1
      ≡ (with_rls_transaction
          (query (find_report actor id) >>= content_batch_in actor now id ops)
          s).1
unfolding apply_content_ops_batch
apply_content_ops_batch-store actor now id ops s = ground arith

apply_content-IsSound :
    (actor : RlsContext) (now : Timestamp) (id : Uuid) (ops : List ContentSyncOp) (s : Store)
    → IsSound s
    → IsSound (apply_content actor now id ops s).1
unfolding apply_content
apply_content-IsSound actor now id [] s c = c
apply_content-IsSound actor now id (op ∷ ops) s c =
    subst IsSound (sym (apply_content_ops_batch-store actor now id (op ∷ ops) s))
      (content_call-IsSound actor now id (op ∷ ops) s c)

apply_transition_op-store :
    (actor : RlsContext) (now : Timestamp) (t : Transition) (op : SyncOp) (s : Store)
    → (apply_transition_op actor now (t, op) s).1
      ≡ (transition now op.logged (transition_args actor t op) s).1
unfolding apply_transition_op
apply_transition_op-store actor now t op s = ground arith

apply_transitions-IsSound :
    (actor : RlsContext) (now : Timestamp) (ops : List (Transition × SyncOp)) (s : Store)
    → IsSound s
    → IsSound (apply_transitions actor now ops s).1
unfolding apply_transitions
apply_transitions-IsSound actor now [] s c = c
apply_transitions-IsSound actor now ((t, op) ∷ ops) s c =
    apply_transitions-IsSound actor now ops (apply_transition_op actor now (t, op) s).1 (
      subst IsSound (sym (apply_transition_op-store actor now t op s))
        (transition-IsSound now op.logged (transition_args actor t op) s c))

apply_groups-IsSound :
    (actor : RlsContext) (now : Timestamp) (groups : List (Uuid × List SyncOp)) (s : Store)
    → IsSound s
    → IsSound (apply_groups actor now groups s).1
unfolding apply_groups apply_group
apply_groups-IsSound actor now [] s c = c
apply_groups-IsSound actor now ((id, ops) ∷ groups) s c = apply_groups-IsSound actor now groups _ (
    apply_transitions-IsSound actor now (transition_ops ops) _
      (apply_content-IsSound actor now id (content_ops ops) s c))

store_idempotency-tables :
    (now : Timestamp) (key : String) (response : SyncResponse) (s : SyncStore)
    → (store_idempotency now key response s).tables ≡ s.tables
unfolding store_idempotency
store_idempotency-tables now key response s = ground arith

apply_batch-tables :
    (actor : RlsContext) (now : Timestamp) (batch : SyncBatch) (s : SyncStore)
    → ((apply_batch actor now batch s).1 ≡ s)
      ⊎ ((apply_batch actor now batch s).1 ≡ (apply_new_batch actor now batch s).1)
unfolding apply_batch
apply_batch-tables actor now batch s =
    elim (Option-cases (check_idempotency now batch.idempotency_key s)) [
      | inr (response, known) ↦ inl (ground arith)
      | inl new ↦ inr (ground arith)
    ]

answer_batch-IsSound :
    (now : Timestamp) (batch : SyncBatch) (results : List OpResult)
    (page : Result (Option (List OpRow))) (s : SyncStore)
    → IsSound s.tables
    → IsSound (answer_batch now batch results page s).1.tables
unfolding answer_batch
answer_batch-IsSound now batch results (err e) s c = c
answer_batch-IsSound now batch results (ok page) s c =
    subst IsSound (sym (store_idempotency-tables now batch.idempotency_key _ s)) c

apply_new_batch-IsSound :
    (actor : RlsContext) (now : Timestamp) (batch : SyncBatch) (s : SyncStore)
    → IsSound s.tables
    → IsSound (apply_new_batch actor now batch s).1.tables
unfolding apply_new_batch
apply_new_batch-IsSound actor now batch s c =
    let (results, tables) = apply_groups actor now (by_report batch.ops []) s.tables in
    answer_batch-IsSound now batch results (pulled actor batch.since_cursor tables)
      (record s { tables = tables })
      (apply_groups-IsSound actor now (by_report batch.ops []) s.tables c)

-- A batch, replayed or not, keeps the report tables sound, whatever part of it is rejected.
pub apply_batch-IsSound :
    (actor : RlsContext) (now : Timestamp) (batch : SyncBatch) (s : SyncStore)
    → IsSound s.tables
    → IsSound (apply_batch actor now batch s).1.tables
apply_batch-IsSound actor now batch s c = elim (apply_batch-tables actor now batch s) [
  | inl same ↦ subst (λ u. IsSound u.tables) (sym same) c
  | inr new ↦ subst (λ u. IsSound u.tables) (sym new) (apply_new_batch-IsSound actor now batch s c)
]
