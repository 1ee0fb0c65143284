-- ===== src/Sync/Content.antt =====
-- The content ops of one report, in one transaction (`applyContentOpsBatch`).

use wdc_backend.Prelude.{
  ℕ, ◌+◌, Uuid, Timestamp, not, ◌⊎◌, inl, inr, Option, none, some, List, [], ◌∷◌, ◌++◌, map, ◌==◌,
  if◌then◌else◌,
}
use wdc_backend.Rls.{RlsContext}
use wdc_backend.Report.Projection.{OpKind}
use wdc_backend.Report.Lifecycle.{is_editable}
use wdc_backend.Database.{
  Store, Tx, ok, err, DbError, policy_violation, not_null, ReportRow, OpRow, pure, query, execute,
  ◌>>=◌, ◌>>◌, with_rls_transaction, parent_visible,
}
use wdc_backend.Report.Service.Statements.{find_report, or_else, has_op, reproject_canonical}
use wdc_backend.Report.Service.Write.{outside_ward, state_name, text_append}
use wdc_backend.Sync.{SyncOp, OpResult, applied, rejected, Message, text, message}

abbrev pub ContentSyncOp : Type 0
ContentSyncOp = OpKind × SyncOp

-- `op.opId ?? randomUUID()`
abbrev pub id_of : SyncOp → Uuid
id_of op = or_else op.op_id op.drawn

abbrev pub rejection : (SyncOp → Uuid) → Message → ContentSyncOp → OpResult
rejection id error (kind, op) = record {
  report_id = op.report_id;
  op_id = id op;
  status = rejected;
  server_seq = none;
  error = some error;
}

unfoldable pub sync_row : Timestamp → Uuid → Uuid → ContentSyncOp → ℕ → OpRow
sync_row now report_id user_id (kind, op) seq = record {
  report_id = report_id;
  op_id = id_of op;
  server_seq = seq;
  device_id = or_else op.device_id "sync-client";
  actor_user_id = user_id;
  op_kind = kind;
  payload = op.payload;
  wall_clock_ts = or_else op.wall_clock_ts now;
}

-- The rows of one `INSERT … ON CONFLICT (report_id, op_id) DO NOTHING`, one after the other; every
-- row draws a number. It returns the ids and the numbers of the rows that went in.
unfoldable pub insert_rows :
    Timestamp → Uuid → Uuid → List ContentSyncOp → Store → List (Uuid × ℕ) × Store
insert_rows now report_id user_id [] s = ([], s)
insert_rows now report_id user_id (op ∷ ops) s =
    let o = sync_row now report_id user_id op s.next_seq in
    let drawn = record s { next_seq = s.next_seq + 1 } in
    let known = has_op o.report_id o.op_id s.op_log in
    let (inserted, s') =
      insert_rows now report_id user_id ops
        (if known then drawn else record drawn { op_log = s.op_log ++ (o ∷ []) }) in
    (if known then inserted else (o.op_id, o.server_seq) ∷ inserted, s')

-- The statement: the actor's id must not be null, and the report must be visible to the actor.
unfoldable pub insert_batch :
    RlsContext → Timestamp → Uuid → List ContentSyncOp → Store → (DbError ⊎ List (Uuid × ℕ)) × Store
insert_batch actor now report_id ops s =
    if not (parent_visible actor s report_id)
    then (inl policy_violation, s)
    else elim actor.user_id [
      | none ↦ (inl not_null, s)
      | some user_id ↦
          let (inserted, s') = insert_rows now report_id user_id ops s in (inr inserted, s')
    ]

-- `seqMap.get(opId)`
abbrev pub seq_of : Uuid → List (Uuid × ℕ) → Option ℕ
seq_of id [] = none
seq_of id ((i, seq) ∷ inserted) = if i == id then some seq else seq_of id inserted

unfoldable pub acceptance : List (Uuid × ℕ) → ContentSyncOp → OpResult
acceptance inserted (kind, op) = record {
  report_id = op.report_id;
  op_id = id_of op;
  status = applied;
  server_seq = seq_of (id_of op) inserted;
  error = none;
}

-- `serverSeqs`
unfoldable pub server_seqs : List OpResult → List ℕ
server_seqs [] = []
server_seqs (r ∷ rs) = elim r.server_seq [ none ↦ server_seqs rs | some seq ↦ seq ∷ server_seqs rs ]

abbrev pub not_editable_report : ReportRow → Message
not_editable_report r =
    text (text_append "cannot append content op: report is " (state_name r.state))

abbrev pub insert_and_project :
    RlsContext → Timestamp → Uuid → List ContentSyncOp → Tx (List OpResult)
insert_and_project actor now report_id ops = do
  inserted ← execute (insert_batch actor now report_id ops)
  reproject_canonical actor now report_id
  pure (map (acceptance inserted) ops)

unfoldable pub content_batch_in :
    RlsContext → Timestamp → Uuid → List ContentSyncOp → Option ReportRow → Tx (List OpResult)
content_batch_in actor now report_id ops none =
    pure (map (rejection id_of (text "report not found")) ops)
content_batch_in actor now report_id ops (some r) =
    if not (is_editable r.state)
    then pure (map (rejection id_of (not_editable_report r)) ops)
    else (if outside_ward actor r
        then pure
            (map (rejection id_of (text "secretary cannot edit a report outside their ward")) ops)
        else insert_and_project actor now report_id ops)

-- `applyContentOpsBatch`. An exception rejects every op with its message.
unfoldable pub apply_content_ops_batch :
    RlsContext → Timestamp → Uuid → List ContentSyncOp → Store → List OpResult × Store
apply_content_ops_batch actor now report_id ops s =
    let (r, s') =
      with_rls_transaction
        (query (find_report actor report_id) >>= content_batch_in actor now report_id ops) s in
    elim r [
      | ok results ↦ (results, s')
      | err e ↦ (map (rejection (λ op. or_else op.op_id op.redrawn) (message e)) ops, s')
    ]
