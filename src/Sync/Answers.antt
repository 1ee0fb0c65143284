-- ===== src/Sync/Answers.antt =====
-- Each op of a group is answered under its report and its id (the loops of applyBatch).
use wdc_backend.Prelude.{
  ℕ, Uuid, Timestamp, ◌≡◌, refl, subst, inl, inr, not, Bool, true, ◌&&◌, ◌||◌, Option, none, some,
  List, [], ◌∷◌, ◌++◌, map, length, arith, Bool-cases, Option-cases, ==_refl, ◌==◌,
}
use wdc_backend.Rls.{RlsContext}
use wdc_backend.Report.Lifecycle.{Transition, is_editable}
use wdc_backend.Report.Service.Transitions.{transition}
use wdc_backend.Database.{Store, Session, ok, ReportRow, query, ◌>>=◌, with_rls_transaction}
use wdc_backend.Database.Laws.{outcome, query-bind, >>=-ok, with_rls_transaction-ok}
use wdc_backend.Report.Service.Statements.{find_report, or_else}
use wdc_backend.Report.Service.Write.{outside_ward}
use wdc_backend.Sync.{SyncOp, OpResult, Message, message, text}
use wdc_backend.Sync.Content.{
  ContentSyncOp, content_batch_in, insert_and_project, apply_content_ops_batch, acceptance,
  rejection, id_of, not_editable_report,
}
use wdc_backend.Sync.Batch.{
  apply_transition_op, transition_args, apply_transitions, apply_content, is_applied,
}

-- The id of an op, or one of the two that the server draws for it when it has none.
abbrev has_id_of : SyncOp → Uuid → Bool
has_id_of op id = elim op.op_id [
  | none ↦ id == op.drawn || id == op.redrawn
  | some given ↦ id == given
]

abbrev is_explained : OpResult → Bool
is_explained r = elim r.error [ none ↦ is_applied r | some _ ↦ not (is_applied r) ]

-- An answer to an op: its report, its id, and an error exactly when it is rejected.
unfoldable pub answers : SyncOp → OpResult → Bool
answers op r = (r.report_id == op.report_id && has_id_of op r.op_id) && is_explained r

-- One answer to each of some ops, in their order.
abbrev pub Answered : List SyncOp → List OpResult → Type 0
Answered [] [] = Unit
Answered [] (r ∷ rs) = ⊥
Answered (op ∷ ops) [] = ⊥
Answered (op ∷ ops) (r ∷ rs) = (answers op r ≡ true) × Answered ops rs

pub Answered-append :
    (ops ops' : List SyncOp) (rs rs' : List OpResult)
    → Answered ops rs
    → Answered ops' rs'
    → Answered (ops ++ ops') (rs ++ rs')
Answered-append [] ops' [] rs' h k = k
Answered-append [] ops' (r ∷ rs) rs' h k = elim h [ ]
Answered-append (op ∷ ops) ops' [] rs' h k = elim h [ ]
Answered-append (op ∷ ops) ops' (r ∷ rs) rs' (p, h) k = (p, Answered-append ops ops' rs rs' h k)

pub Answered-length :
    (ops : List SyncOp) (rs : List OpResult) → Answered ops rs → length rs ≡ length ops
Answered-length [] [] h = refl
Answered-length [] (r ∷ rs) h = elim h [ ]
Answered-length (op ∷ ops) [] h = elim h [ ]
Answered-length (op ∷ ops) (r ∷ rs) (p, h) = omega (arith, Answered-length ops rs h)

abbrev pub op_of : {K : Type 0} → K × SyncOp → SyncOp
op_of (kind, op) = op

abbrev pub ops_of : {K : Type 0} → List (K × SyncOp) → List SyncOp
ops_of ops = map op_of ops

Answered-map :
    (f : ContentSyncOp → OpResult) (ops : List ContentSyncOp)
    → ((op : ContentSyncOp) → answers (op_of op) (f op) ≡ true)
    → Answered (ops_of ops) (map f ops)
Answered-map f [] h = tt
Answered-map f (op ∷ ops) h = (h op, Answered-map f ops h)

answers-rejection :
    (error : Message) (op : ContentSyncOp) → answers (op_of op) (rejection id_of error op) ≡ true
unfolding answers
answers-rejection error (kind, op) = elim (Option-cases op.op_id) [
  | inl missing ↦ rw missing (ground (arith, ==_refl op.report_id, ==_refl op.drawn))
  | inr (id, given) ↦ rw given (ground (arith, ==_refl op.report_id, ==_refl id))
]

answers-rejection_redrawn :
    (error : Message) (op : ContentSyncOp)
    → answers (op_of op) (rejection (λ o. or_else o.op_id o.redrawn) error op) ≡ true
unfolding answers
answers-rejection_redrawn error (kind, op) = elim (Option-cases op.op_id) [
  | inl missing ↦ rw missing (ground (arith, ==_refl op.report_id, ==_refl op.redrawn))
  | inr (id, given) ↦ rw given (ground (arith, ==_refl op.report_id, ==_refl id))
]

answers-acceptance :
    (inserted : List (Uuid × ℕ)) (op : ContentSyncOp)
    → answers (op_of op) (acceptance inserted op) ≡ true
unfolding answers acceptance
answers-acceptance inserted (kind, op) = elim (Option-cases op.op_id) [
  | inl missing ↦ rw missing (ground (arith, ==_refl op.report_id, ==_refl op.drawn))
  | inr (id, given) ↦ rw given (ground (arith, ==_refl op.report_id, ==_refl id))
]

Answered-mapped :
    (f : ContentSyncOp → OpResult) (ops : List ContentSyncOp) {rs : List OpResult}
    → ((op : ContentSyncOp) → answers (op_of op) (f op) ≡ true)
    → map f ops ≡ rs
    → Answered (ops_of ops) rs
Answered-mapped f ops h e = subst (Answered (ops_of ops)) e (Answered-map f ops h)

answered_op :
    (op : SyncOp) (r : OpResult)
    → r.report_id ≡ op.report_id
    → r.op_id ≡ id_of op
    → is_explained r ≡ true
    → answers op r ≡ true
unfolding answers
answered_op op r p q e = elim (Option-cases op.op_id) [
  | inl missing ↦ ground (arith, ==_refl op.report_id, ==_refl op.drawn, missing)
  | inr (id, given) ↦ ground (arith, ==_refl op.report_id, ==_refl id, given)
]

module _ (actor : RlsContext) (now : Timestamp) where
  insert_and_project-Answered :
      (report_id : Uuid) (ops : List ContentSyncOp) (t t' : Session) {rs : List OpResult}
      → insert_and_project actor now report_id ops t ≡ (ok rs, t')
      → Answered (ops_of ops) rs
  insert_and_project-Answered report_id ops t t' {rs} h =
      let (inserted, _, _, h1) = >>=-ok _ _ _ h in
      let (_, _, _, h2) = >>=-ok _ _ _ h1 in
      Answered-mapped (acceptance inserted) ops (answers-acceptance inserted) (ground arith)

  content_batch_in-Answered :
      (report_id : Uuid) (ops : List ContentSyncOp) (row : Option ReportRow) (t t' : Session)
      {rs : List OpResult}
      → content_batch_in actor now report_id ops row t ≡ (ok rs, t')
      → Answered (ops_of ops) rs
  unfolding content_batch_in
  content_batch_in-Answered report_id ops none t t' {rs} h =
      Answered-mapped (rejection id_of (text "report not found")) ops
        (answers-rejection (text "report not found")) (ground arith)
  content_batch_in-Answered report_id ops (some r) t t' {rs} h =
      elim (Bool-cases (is_editable r.state)) [
        | inr closed ↦
            Answered-mapped (rejection id_of (not_editable_report r)) ops
              (answers-rejection (not_editable_report r)) (ground arith)
        | inl editable ↦ elim (Bool-cases (outside_ward actor r)) [
          | inl outside ↦
              let why = text "secretary cannot edit a report outside their ward" in
              Answered-mapped (rejection id_of why) ops (answers-rejection why) (ground arith)
          | inr inside ↦ insert_and_project-Answered report_id ops t t' (ground arith)
        ]
      ]

  content_call-Answered :
      (report_id : Uuid) (ops : List ContentSyncOp) (s s' : Store) {rs : List OpResult}
      → with_rls_transaction
          (query (find_report actor report_id) >>= content_batch_in actor now report_id ops)
          s
        ≡ (ok rs, s')
      → Answered (ops_of ops) rs
  content_call-Answered report_id ops s s' h =
      let (t, e, _) = with_rls_transaction-ok _ s h in
      let (_, k) = query-bind _ _ _ e in content_batch_in-Answered report_id ops _ _ t k

  apply_content_ops_batch-Answered :
      (report_id : Uuid) (ops : List ContentSyncOp) (s : Store)
      → Answered (ops_of ops) (apply_content_ops_batch actor now report_id ops s).0
  unfolding apply_content_ops_batch
  apply_content_ops_batch-Answered report_id ops s =
      elim (outcome (
        with_rls_transaction
          (query (find_report actor report_id) >>= content_batch_in actor now report_id ops) s)) [
            | inr (e, raises) ↦
                Answered-mapped (rejection (λ op. or_else op.op_id op.redrawn) (message e)) ops
                  (answers-rejection_redrawn (message e)) (ground (arith, raises))
            | inl (rs, s', done) ↦
                subst (Answered (ops_of ops)) (ground (arith, done))
                  (content_call-Answered report_id ops s s' done)
          ]

  pub apply_content-Answered :
      (report_id : Uuid) (ops : List ContentSyncOp) (s : Store)
      → Answered (ops_of ops) (apply_content actor now report_id ops s).0
  unfolding apply_content
  apply_content-Answered report_id [] s = tt
  apply_content-Answered report_id (op ∷ ops) s =
      apply_content_ops_batch-Answered report_id (op ∷ ops) s

  apply_transition_op-answers :
      (t : Transition) (op : SyncOp) (s : Store)
      → answers op (apply_transition_op actor now (t, op) s).0 ≡ true
  unfolding apply_transition_op answers
  apply_transition_op-answers t op s =
      elim (outcome (transition now op.logged (transition_args actor t op) s)) [
        | inl (state, s', done) ↦
            answered_op op (apply_transition_op actor now (t, op) s).0 (ground (arith, done))
              (ground (arith, done)) (ground (arith, done))
        | inr (e, raises) ↦
            answered_op op (apply_transition_op actor now (t, op) s).0 (ground (arith, raises))
              (ground (arith, raises)) (ground (arith, raises))
      ]

  pub apply_transitions-Answered :
      (ops : List (Transition × SyncOp)) (s : Store)
      → Answered (ops_of ops) (apply_transitions actor now ops s).0
  unfolding apply_transitions
  apply_transitions-Answered [] s = tt
  apply_transitions-Answered ((t, op) ∷ ops) s = (
    apply_transition_op-answers t op s,
    apply_transitions-Answered ops (apply_transition_op actor now (t, op) s).1,
  )
