-- ===== src/Sync/Batch.antt =====
-- A batch (`applyBatch`): its ops by report, the page that it pulls, and its idempotency record.
use wdc_backend.Prelude.{
  ℕ, ◌+◌, Uuid, Timestamp, String, Bool, true, false, not, ◌&&◌, inl, inr, Option, none, some, List,
  [], ◌∷◌, ◌++◌, map, find, select, take, sort_by, length, ltb, leb, ◌==◌, str_eq, if◌then◌else◌,
}
use wdc_backend.Rls.{RlsContext}
use wdc_backend.Report.Json.{Json, str, get_property}
use wdc_backend.Report.Lifecycle.{Transition}
use wdc_backend.Database.{
  Store, Result, ok, err, OpRow, parent_visible, database, failure, numeric_out_of_range,
}
use wdc_backend.Report.Service.Transitions.{TransitionArgs, transition, is_return}
use wdc_backend.Sync.{
  SyncOp, SyncBatch, SinceCursor, position, unreadable, SyncStore, SyncResponse, OpResult, applied,
  rejected, message, classify,
}
use wdc_backend.Sync.Content.{ContentSyncOp, id_of, apply_content_ops_batch, server_seqs}

abbrev pub as_text : Json → Option String
as_text (str t) = some t
as_text _ = none

abbrev pub transition_args : RlsContext → Transition → SyncOp → TransitionArgs
transition_args actor t op = record {
  actor = actor;
  report_id = op.report_id;
  transition = t;
  notes = if is_return t then as_text (get_property "notes" op.payload) else none;
  request_id = none;
}

-- `lookupServerSeq`, under the system role.
unfoldable pub lookup_server_seq : Uuid → Uuid → Store → Option ℕ
lookup_server_seq report_id op_id s =
    elim (find (λ o. o.report_id == report_id && o.op_id == op_id) s.op_log) [
      | none ↦ none
      | some o ↦ some o.server_seq
    ]

-- `applyTransitionOp`
unfoldable pub apply_transition_op :
    RlsContext → Timestamp → Transition × SyncOp → Store → OpResult × Store
apply_transition_op actor now (t, op) s =
    let (r, s') = transition now op.logged (transition_args actor t op) s in
    elim r [
      | ok _ ↦ (
        record {
          report_id = op.report_id;
          op_id = id_of op;
          status = applied;
          server_seq = lookup_server_seq op.report_id (id_of op) s';
          error = none;
        },
        s',
      )
      | err e ↦ (
        record {
          report_id = op.report_id;
          op_id = id_of op;
          status = rejected;
          server_seq = none;
          error = some (message e);
        },
        s',
      )
    ]

unfoldable pub apply_transitions :
    RlsContext → Timestamp → List (Transition × SyncOp) → Store → List OpResult × Store
apply_transitions actor now [] s = ([], s)
apply_transitions actor now (op ∷ ops) s =
    let (r, s') = apply_transition_op actor now op s in
    let (rs, s'') = apply_transitions actor now ops s' in (r ∷ rs, s'')

-- The ops of a report that write content, and those that drive its state.
unfoldable pub content_ops : List SyncOp → List ContentSyncOp
content_ops [] = []
content_ops (op ∷ ops) = elim (classify op.op_kind) [
  | inl kind ↦ (kind, op) ∷ content_ops ops
  | inr t ↦ content_ops ops
]

unfoldable pub transition_ops : List SyncOp → List (Transition × SyncOp)
transition_ops [] = []
transition_ops (op ∷ ops) = elim (classify op.op_kind) [
  | inl kind ↦ transition_ops ops
  | inr t ↦ (t, op) ∷ transition_ops ops
]

-- `byReport`, in the order in which the reports first occur.
unfoldable pub add_to : SyncOp → List (Uuid × List SyncOp) → List (Uuid × List SyncOp)
add_to op [] = (op.report_id, op ∷ []) ∷ []
add_to op ((id, ops) ∷ groups) =
    if id == op.report_id then (id, ops ++ (op ∷ [])) ∷ groups else (id, ops) ∷ add_to op groups

unfoldable pub by_report : List SyncOp → List (Uuid × List SyncOp) → List (Uuid × List SyncOp)
by_report [] groups = groups
by_report (op ∷ ops) groups = by_report ops (add_to op groups)

-- The content ops of a report in one transaction, if there are any.
unfoldable pub apply_content :
    RlsContext → Timestamp → Uuid → List ContentSyncOp → Store → List OpResult × Store
apply_content actor now report_id [] s = ([], s)
apply_content actor now report_id (op ∷ ops) s =
    apply_content_ops_batch actor now report_id (op ∷ ops) s

unfoldable pub apply_group :
    RlsContext → Timestamp → Uuid × List SyncOp → Store → List OpResult × Store
apply_group actor now (report_id, ops) s =
    let (rs, s') = apply_content actor now report_id (content_ops ops) s in
    let (ts, s'') = apply_transitions actor now (transition_ops ops) s' in (rs ++ ts, s'')

unfoldable pub apply_groups :
    RlsContext → Timestamp → List (Uuid × List SyncOp) → Store → List OpResult × Store
apply_groups actor now [] s = ([], s)
apply_groups actor now (g ∷ gs) s =
    let (rs, s') = apply_group actor now g s in
    let (more, s'') = apply_groups actor now gs s' in (rs ++ more, s'')

-- `pullOps`
unfoldable pub pull_ops : RlsContext → ℕ → Store → List OpRow
pull_ops actor since s = take 200 (
    sort_by (λ a b. leb a.server_seq b.server_seq)
      (select (λ o. ltb since o.server_seq && parent_visible actor s o.report_id) s.op_log))

abbrev pub is_applied : OpResult → Bool
is_applied r = elim r.status [ applied ↦ true | rejected ↦ false ]

-- The largest number, from one on.
unfoldable pub max_seq : ℕ → List ℕ → ℕ
max_seq m [] = m
max_seq m (seq ∷ seqs) = max_seq (if ltb m seq then seq else m) seqs

-- `batch.sinceCursor ?? '0'`; no response is made under an unreadable cursor.
abbrev pub cursor_or_zero : Option SinceCursor → ℕ
cursor_or_zero none = 0
cursor_or_zero (some (position c)) = c
cursor_or_zero (some (unreadable message)) = 0

abbrev pub pulled_seqs : Option (List OpRow) → List ℕ
pulled_seqs none = []
pulled_seqs (some rows) = map (λ o. o.server_seq) rows

unfoldable pub response_of : Option SinceCursor → List OpResult → Option (List OpRow) → SyncResponse
response_of since results pulled =
    let m = max_seq (max_seq 0 (server_seqs results)) (pulled_seqs pulled) in
    record {
      next_cursor = if ltb 0 m then m else cursor_or_zero since;
      applied = length (select is_applied results);
      rejected = length (select (λ r. not (is_applied r)) results);
      results = results;
      pulled_ops = pulled;
    }

-- `checkIdempotency`
unfoldable pub check_idempotency : Timestamp → String → SyncStore → Option SyncResponse
check_idempotency now key s =
    elim (find (λ k. str_eq k.key key && ltb now k.expires_at) s.idempotency_keys) [
      | none ↦ none
      | some k ↦ some k.response_body
    ]

abbrev pub one_day : ℕ
one_day = 86400000

-- `storeIdempotency`: a key that is there stays as it is, expired or not.
unfoldable pub store_idempotency : Timestamp → String → SyncResponse → SyncStore → SyncStore
store_idempotency now key response s = elim (find (λ k. str_eq k.key key) s.idempotency_keys) [
  | some _ ↦ s
  | none ↦ record s {
    idempotency_keys =
        s.idempotency_keys
        ++ (record { key = key; response_body = response; expires_at = now + one_day } ∷ []);
  }
]

-- The column is a bigint.
abbrev pub bigint_limit : ℕ
bigint_limit = 9223372036854775808

-- The page, if a cursor asks for one.
abbrev pub pulled : RlsContext → Option SinceCursor → Store → Result (Option (List OpRow))
pulled actor none s = ok none
pulled actor (some (unreadable message)) s = err (failure message)
pulled actor (some (position since)) s =
    if ltb since bigint_limit
    then ok (some (pull_ops actor since s))
    else err (database numeric_out_of_range)

-- The response and its record; an exception of the pull comes after the ops were applied.
unfoldable pub answer_batch :
    Timestamp
    → SyncBatch
    → List OpResult
    → Result (Option (List OpRow))
    → SyncStore
    → Result SyncResponse × SyncStore
answer_batch now batch results (err e) s = (err e, s)
answer_batch now batch results (ok page) s =
    let response = response_of batch.since_cursor results page in
    (ok response, store_idempotency now batch.idempotency_key response s)

-- `applyBatch` on a batch whose key is not known.
unfoldable pub apply_new_batch :
    RlsContext → Timestamp → SyncBatch → SyncStore → Result SyncResponse × SyncStore
apply_new_batch actor now batch s =
    let (results, tables) = apply_groups actor now (by_report batch.ops []) s.tables in
    answer_batch now batch results (pulled actor batch.since_cursor tables)
      (record s { tables = tables })

unfoldable pub apply_batch :
    RlsContext → Timestamp → SyncBatch → SyncStore → Result SyncResponse × SyncStore
apply_batch actor now batch s = elim (check_idempotency now batch.idempotency_key s) [
  | some response ↦ (ok response, s)
  | none ↦ apply_new_batch actor now batch s
]
