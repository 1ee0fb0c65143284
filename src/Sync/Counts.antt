-- ===== src/Sync/Counts.antt =====
-- Every op of a batch is answered once.
use mathlib.Core.List
use mathlib.Core.List.{Perm}
use mathlib.Core.List.{Permᴰ}
use mathlib.Core.Logic.{∥∥₁_elim}
use wdc_backend.Prelude.{
  ℕ, ◌+◌, Uuid, Timestamp, ◌≡◌, refl, ap, ◌∙◌, subst, ◌⊎◌, inl, inr, not, Bool, true, false, Option,
  none, some, ltb, List, [], ◌∷◌, ◌++◌, length, select, arith, Bool-cases, ◌==◌,
}
use wdc_backend.Rls.{RlsContext}
use wdc_backend.Report.Lifecycle.{Transition}
use wdc_backend.Report.Projection.{OpKind}
use wdc_backend.Database.{Store, OpRow, Result, ok, err}
use wdc_backend.Sync.{
  SinceCursor, position, unreadable, SyncResponse, SyncOp, SyncBatch, SyncStore, OpResult, classify,
}
use wdc_backend.Sync.Batch.{
  content_ops, transition_ops, add_to, by_report, apply_content, apply_transitions, apply_group,
  apply_groups, is_applied, response_of, bigint_limit, pulled, pull_ops, answer_batch,
  apply_new_batch,
}
use wdc_backend.Sync.Answers.{
  Answered, Answered-append, Answered-length, ops_of, apply_content-Answered,
  apply_transitions-Answered,
}

-- The ops of a group in the order in which they are applied.
abbrev applied_order : List SyncOp → List SyncOp
applied_order ops = ops_of (content_ops ops) ++ ops_of (transition_ops ops)

abbrev flat : List (Uuid × List SyncOp) → List SyncOp
flat [] = []
flat ((id, ops) ∷ groups) = ops ++ flat groups

abbrev flat_applied : List (Uuid × List SyncOp) → List SyncOp
flat_applied [] = []
flat_applied ((id, ops) ∷ groups) = applied_order ops ++ flat_applied groups

module _ (actor : RlsContext) (now : Timestamp) where
  apply_group-Answered :
      (report_id : Uuid) (ops : List SyncOp) (s : Store)
      → Answered (applied_order ops) (apply_group actor now (report_id, ops) s).0
  unfolding apply_group
  apply_group-Answered report_id ops s =
      let c = apply_content actor now report_id (content_ops ops) s in
      Answered-append (ops_of (content_ops ops)) (ops_of (transition_ops ops)) c.0
        (apply_transitions actor now (transition_ops ops) c.1).0
        (apply_content-Answered actor now report_id (content_ops ops) s)
        (apply_transitions-Answered actor now (transition_ops ops) c.1)

  apply_groups-Answered :
      (groups : List (Uuid × List SyncOp)) (s : Store)
      → Answered (flat_applied groups) (apply_groups actor now groups s).0
  unfolding apply_groups
  apply_groups-Answered [] s = tt
  apply_groups-Answered ((id, ops) ∷ groups) s =
      let g = apply_group actor now (id, ops) s in
      Answered-append (applied_order ops) (flat_applied groups) g.0
        (apply_groups actor now groups g.1).0 (apply_group-Answered id ops s)
        (apply_groups-Answered groups g.1)

kind_cases :
    (k : OpKind ⊎ Transition)
    → ((kind : OpKind) × (k ≡ inl kind)) ⊎ ((t : Transition) × (k ≡ inr t))
kind_cases (inl kind) = inl (kind, refl)
kind_cases (inr t) = inr (t, refl)

module _ (op : SyncOp) (ops : List SyncOp) where
  applied_order-content :
      (kind : OpKind)
      → classify op.op_kind ≡ inl kind
      → op ∷ applied_order ops ≡ applied_order (op ∷ ops)
  unfolding content_ops transition_ops
  applied_order-content kind e = ground (arith, e)

  applied_order-transition :
      (t : Transition)
      → classify op.op_kind ≡ inr t
      → ops_of (content_ops ops) ++ (op ∷ ops_of (transition_ops ops)) ≡ applied_order (op ∷ ops)
  unfolding content_ops transition_ops
  applied_order-transition t e = ground (arith, e)

applied_order-perm : (ops : List SyncOp) → Perm (applied_order ops) ops
unfolding content_ops transition_ops
applied_order-perm [] = List.Perm.refl []
applied_order-perm (op ∷ ops) = elim (kind_cases (classify op.op_kind)) [
  | inl (kind, e) ↦
      subst (λ l. Perm l (op ∷ ops)) (applied_order-content op ops kind e)
        (List.Perm.cons op (applied_order-perm ops))
  | inr (t, e) ↦
      subst (λ l. Perm l (op ∷ ops)) (applied_order-transition op ops t e)
        (List.Perm.trans (List.perm_middle (ops_of (content_ops ops)) (ops_of (transition_ops ops)))
          (List.Perm.cons op (applied_order-perm ops)))
]

flat_applied-perm : (groups : List (Uuid × List SyncOp)) → Perm (flat_applied groups) (flat groups)
flat_applied-perm [] = List.Perm.refl []
flat_applied-perm ((id, ops) ∷ groups) =
    List.Perm.append (applied_order-perm ops) (flat_applied-perm groups)

append_one :
    (ops : List SyncOp) (op : SyncOp) (rest : List SyncOp)
    → (ops ++ (op ∷ [])) ++ rest ≡ ops ++ (op ∷ rest)
append_one [] op rest = refl
append_one (o ∷ ops) op rest = ap (λ l. o ∷ l) (append_one ops op rest)

flat-add_to :
    (op : SyncOp) (groups : List (Uuid × List SyncOp))
    → Perm (flat (add_to op groups)) (op ∷ flat groups)
unfolding add_to
flat-add_to op [] = List.Perm.refl _
flat-add_to op ((id, ops) ∷ groups) = elim (Bool-cases (id == op.report_id)) [
  | inl here ↦ rw here (rw (append_one ops op (flat groups)) (List.perm_middle ops (flat groups)))
  | inr other ↦ rw other (
      List.Perm.trans (List.Perm.append_left ops (flat-add_to op groups))
        (List.perm_middle ops (flat groups)))
]

flat-by_report :
    (ops : List SyncOp) (groups : List (Uuid × List SyncOp))
    → Perm (flat (by_report ops groups)) (ops ++ flat groups)
unfolding by_report
flat-by_report [] groups = List.Perm.refl _
flat-by_report (op ∷ ops) groups = List.Perm.trans (flat-by_report ops (add_to op groups)) (
    List.Perm.trans (List.Perm.append_left ops (flat-add_to op groups))
      (List.perm_middle ops (flat groups)))

nil_right : (ops : List SyncOp) → ops ++ [] ≡ ops
nil_right [] = refl
nil_right (op ∷ ops) = ap (λ l. op ∷ l) (nil_right ops)

ℕ-set : IsSet ℕ
ℕ-set = hlevel

length-perm_of : {xs ys : List SyncOp} → Permᴰ xs ys → length xs ≡ length ys
length-perm_of Permᴰ.nil = refl
length-perm_of (Permᴰ.cons e d) = omega (arith, length-perm_of d)
length-perm_of (Permᴰ.swap e₁ e₂) = refl
length-perm_of (Permᴰ.trans d₁ d₂) = length-perm_of d₁ ∙ length-perm_of d₂

length-perm : {xs ys : List SyncOp} → Perm xs ys → length xs ≡ length ys
length-perm p = ∥∥₁_elim p (ℕ-set _ _) length-perm_of

counted :
    (rs : List OpResult)
    → length (select is_applied rs) + length (select (λ r. not (is_applied r)) rs) ≡ length rs
counted [] = refl
counted (r ∷ rs) = ground (arith, counted rs)

-- A cursor that a pull takes: none, or a number of the column's range.
abbrev pub is_readable : Option SinceCursor → Bool
is_readable none = true
is_readable (some (position c)) = ltb c 9223372036854775808
is_readable (some (unreadable message)) = false

-- What a batch gives back: only a cursor makes it raise.
abbrev pub IsCounted : SyncBatch → Result SyncResponse → Type 0
IsCounted batch (err e) = is_readable batch.since_cursor ≡ false
IsCounted batch (ok response) =
    ((ops : List SyncOp) × Perm ops batch.ops × Answered ops response.results)
    × (response.applied ≡ length (select is_applied response.results))
    × (response.applied + response.rejected ≡ length batch.ops)

answer_batch-IsCounted :
    (actor : RlsContext) (now : Timestamp) (batch : SyncBatch) (ops : List SyncOp)
    (results : List OpResult) (tables : Store) (s : SyncStore)
    → Perm ops batch.ops
    → Answered ops results
    → IsCounted batch (answer_batch now batch results (pulled actor batch.since_cursor tables) s).0
unfolding answer_batch response_of
answer_batch-IsCounted actor now batch ops results tables s perm all =
    by_page batch.since_cursor refl
  where
    whole :
        (page : Option (List OpRow))
        → IsCounted batch (ok (response_of batch.since_cursor results page))
    whole page = (
      (ops, perm, all),
      refl,
      counted results ∙ Answered-length ops results all ∙ length-perm perm,
    )

    by_page :
        (c : Option SinceCursor)
        → batch.since_cursor ≡ c
        → IsCounted batch
            (answer_batch now batch results (pulled actor batch.since_cursor tables) s).0
    by_page none e = rw e (whole none)
    by_page (some (unreadable message)) e = rw e refl
    by_page (some (position c)) e = elim (Bool-cases (ltb c bigint_limit)) [
      | inl fits ↦ rw (e, fits) (whole (some (pull_ops actor c tables)))
      | inr large ↦ rw (e, large) large
    ]

-- A batch that is not a replay raises only because of a cursor that is no number of the column's
-- range. Otherwise its results are, one for one, answers to its ops in some order: each names the
-- report of its op, and the op's id or, when it has none, an id drawn for it, and has an error
-- exactly when it is rejected. The count of applied ops is that of the results, and the counts of
-- applied and of rejected ops add up to the number of the ops.
pub apply_new_batch-IsCounted :
    (actor : RlsContext) (now : Timestamp) (batch : SyncBatch) (s : SyncStore)
    → IsCounted batch (apply_new_batch actor now batch s).0
unfolding apply_new_batch
apply_new_batch-IsCounted actor now batch s =
    let groups = by_report batch.ops [] in
    let (results, tables) = apply_groups actor now groups s.tables in
    answer_batch-IsCounted actor now batch (flat_applied groups) results tables
      (record s { tables = tables })
      (List.Perm.trans (flat_applied-perm groups)
        (subst (λ l. Perm (flat groups) l) (nil_right batch.ops) (flat-by_report batch.ops [])))
      (apply_groups-Answered actor now groups s.tables)
