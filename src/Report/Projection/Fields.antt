-- ===== src/Report/Projection/Fields.antt =====
-- Which op decides a field of the canonical report: the latest that writes it.
use Prim.Native.Nat.{Ordering}
use mathlib.Core.HLevel.{¬_prop}
use mathlib.Core.Logic.Or
use mathlib.Core.List.{Mem, Memᴰ, Permᴰ, mem-cons, mem-cons_of_mem, not-mem-nil}
use mathlib.Core.List.Perm
use mathlib.Core.List.Permᴰ
use wdc_backend.Prelude.{
  ◌≡◌, refl, sym, ap, ◌∙◌, ◌≢◌, ◌⊎◌, inl, inr, Bool, true, false, ◌&&◌, String, Option, none, some,
  List, [], ◌∷◌, All, arith, str_eq, eq_iff, if◌then◌else◌, Option-cases,
}
use wdc_backend.Report.Projection.{
  ReportOp, OpKind, CanonicalReport, CanonicalField, compare_ops, insert_sorted, sort_ops,
  project_canonical, empty_report, replay, apply_kind, key_of, field_of, put, assign,
}
use wdc_backend.Report.Projection.Order.{All-perm}

-- `fields[k]`
unfoldable pub field_at : String → List (String × CanonicalField) → Option CanonicalField
field_at k [] = none
field_at k ((j, f) ∷ fields) = if str_eq j k then some f else field_at k fields

is_field_set : OpKind → Bool
is_field_set OpKind.field_set = true
is_field_set _ = false

-- The op writes the field `k`.
unfoldable pub sets : String → ReportOp → Bool
unfolding is_field_set
sets k op = is_field_set op.op_kind && str_eq (key_of op) k

-- The first op sorts no later than the second.
abbrev pub NotAfter : ReportOp → ReportOp → Type 0
NotAfter a b = compare_ops a b ≢ Ordering.gt

-- The op is in the log, writes the field `k`, and no op that writes it sorts after this one.
pub record Wins (k : String) (ops : List ReportOp) (op : ReportOp) : Type 0 where
  pub listed : Mem op ops
  pub writes : sets k op ≡ true
  pub latest : All (λ o. sets k o ≡ true → NotAfter o op) ops

field_at-put :
    (k j : String) (f : CanonicalField) (fields : List (String × CanonicalField))
    → field_at k (put j f fields) ≡ (if str_eq j k then some f else field_at k fields)
unfolding field_at put
field_at-put k j f [] = refl
field_at-put k j f ((i, g) ∷ fields) =
    ground (arith, eq_iff i j, eq_iff i k, eq_iff j k, field_at-put k j f fields)

abbrev IsSorted : List ReportOp → Type 0
IsSorted [] = Unit
IsSorted (op ∷ ops) = All (NotAfter op) ops × IsSorted ops

NotAfter-trans : (a b c : ReportOp) → NotAfter a b → NotAfter b c → NotAfter a c
unfolding compare_ops
NotAfter-trans a b c p q = ground arith

NotAfter-refl : (a : ReportOp) → NotAfter a a
unfolding compare_ops
NotAfter-refl a = ground arith

NotAfter-total : (a b : ReportOp) → compare_ops a b ≡ Ordering.gt → NotAfter b a
unfolding compare_ops
NotAfter-total a b = ground arith

All-NotAfter :
    (a b : ReportOp) (l : List ReportOp) → NotAfter a b → All (NotAfter b) l → All (NotAfter a) l
All-NotAfter a b [] h hs = tt
All-NotAfter a b (x ∷ l) h (p, hs) = (NotAfter-trans a b x h p, All-NotAfter a b l h hs)

insert_sorted-All :
    (a b : ReportOp) (l : List ReportOp)
    → NotAfter a b
    → All (NotAfter a) l
    → All (NotAfter a) (insert_sorted b l)
unfolding insert_sorted
insert_sorted-All a b [] h hs = (h, tt)
insert_sorted-All a b (x ∷ l) h (p, hs) = ground (arith, insert_sorted-All a b l h hs)

insert_sorted-IsSorted :
    (a : ReportOp) (l : List ReportOp) → IsSorted l → IsSorted (insert_sorted a l)
unfolding insert_sorted
insert_sorted-IsSorted a [] h = (tt, tt)
insert_sorted-IsSorted a (x ∷ l) (p, h) = ground (
  arith,
  insert_sorted-IsSorted a l h,
  insert_sorted-All x a l,
  NotAfter-total a x,
  All-NotAfter a x l,
)

sort_ops-IsSorted : (l : List ReportOp) → IsSorted (sort_ops l)
unfolding sort_ops
sort_ops-IsSorted [] = tt
sort_ops-IsSorted (op ∷ l) = insert_sorted-IsSorted op (sort_ops l) (sort_ops-IsSorted l)

insert_sorted-perm : (a : ReportOp) (l : List ReportOp) → Permᴰ (insert_sorted a l) (a ∷ l)
unfolding insert_sorted
insert_sorted-perm a [] = Permᴰ.refl _
insert_sorted-perm a (x ∷ l) =
    elim (compare_ops a x)
      as (λ o. Permᴰ (elim o [ Ordering.gt ↦ x ∷ insert_sorted a l | _ ↦ a ∷ x ∷ l ]) (a ∷ x ∷ l)) [
        | Ordering.gt ↦
            Permᴰ.trans (Permᴰ.cons refl (insert_sorted-perm a l)) (Permᴰ.swap refl refl)
        | _ ↦ Permᴰ.refl _
      ]

sort_ops-perm_self : (l : List ReportOp) → Permᴰ (sort_ops l) l
unfolding sort_ops
sort_ops-perm_self [] = Permᴰ.nil
sort_ops-perm_self (op ∷ l) =
    Permᴰ.trans (insert_sorted-perm op (sort_ops l)) (Permᴰ.cons refl (sort_ops-perm_self l))

-- The last op of a list that writes the field.
last_write : String → List ReportOp → Option ReportOp
last_write k [] = none
last_write k (op ∷ ops) = elim (last_write k ops) [
  | some w ↦ some w
  | none ↦ if sets k op then some op else none
]

apply_kind-field_at :
    (k : String) (op : ReportOp) (out : CanonicalReport)
    → k ≢ "__proto__"
    → field_at k (apply_kind op.op_kind op out).fields
      ≡ (if sets k op then some (field_of op) else field_at k out.fields)
unfolding sets apply_kind assign
apply_kind-field_at k op out h = go op.op_kind
  where
    go :
        (kind : OpKind)
        → field_at k (apply_kind kind op out).fields ≡ (
            if is_field_set kind && str_eq (key_of op) k
            then some (field_of op)
            else field_at k out.fields)
    go OpKind.field_set = ground (
      arith,
      eq_iff (key_of op) k,
      eq_iff (key_of op) "__proto__",
      field_at-put k (key_of op) (field_of op) out.fields,
    )
    go _ = refl

replay-field_at :
    (k : String) (out : CanonicalReport) (ops : List ReportOp)
    → k ≢ "__proto__"
    → field_at k (replay out ops).fields
      ≡ elim (last_write k ops) [ some w ↦ some (field_of w) | none ↦ field_at k out.fields ]
unfolding replay last_write
replay-field_at k out [] h = refl
replay-field_at k out (op ∷ ops) h =
    ground (
      arith,
      replay-field_at k (apply_kind op.op_kind op out) ops h,
      apply_kind-field_at k op out h,
    )

last_write-none :
    (k : String) (ops : List ReportOp) → last_write k ops ≡ none → All (λ o. sets k o ≡ false) ops
unfolding last_write
last_write-none k [] e = tt
last_write-none k (op ∷ ops) e = ground (arith, last_write-none k ops)

All-vacuous :
    (k : String) (w : ReportOp) (ops : List ReportOp)
    → All (λ o. sets k o ≡ false) ops
    → All (λ o. sets k o ≡ true → NotAfter o w) ops
All-vacuous k w [] h = tt
All-vacuous k w (o ∷ ops) (p, h) = (λ q. cc, All-vacuous k w ops h)

NotAfter-mem : (a b : ReportOp) (l : List ReportOp) → Mem b l → All (NotAfter a) l → NotAfter a b
NotAfter-mem a b [] m h = absurd (not-mem-nil m)
NotAfter-mem a b (x ∷ l) m (p, h) =
    Or.elim (¬_prop) (mem-cons.0 m) (λ e. rw e p) (λ m'. NotAfter-mem a b l m' h)

last_write-Wins :
    (k : String) (ops : List ReportOp) (w : ReportOp)
    → IsSorted ops
    → last_write k ops ≡ some w
    → Wins k ops w
unfolding last_write
last_write-Wins k [] w h e = cc
last_write-Wins k (op ∷ ops) w (p, h) e = elim (Option-cases (last_write k ops)) [
  | inl none_later ↦
      let here : (sets k op ≡ true) × (w ≡ op) = ground arith in
      record {
        listed = ∣ Memᴰ.head here.1 ∣₁;
        writes = rw here.1 here.0;
        latest = (
          λ _. rw here.1 (NotAfter-refl op),
          All-vacuous k w ops (last_write-none k ops none_later),
        );
      }
  | inr (w', later) ↦
      let same : w ≡ w' = ground arith in
      let ih = last_write-Wins k ops w h (later ∙ ap some (sym same)) in
      record {
        listed = mem-cons_of_mem op ih.listed;
        writes = ih.writes;
        latest = (λ _. NotAfter-mem op w ops ih.listed p, ih.latest);
      }
]

-- For each field name but `__proto__`: the canonical report shows what the latest op of the log
-- that writes the field says (latest by time, then by op id), or no op writes it and it is absent.
pub project_canonical-Wins :
    (k : String) (ops : List ReportOp)
    → k ≢ "__proto__"
    → ((w : ReportOp) × Wins k ops w
        × (field_at k (project_canonical ops).fields ≡ some (field_of w)))
      ⊎ (All (λ o. sets k o ≡ false) ops × (field_at k (project_canonical ops).fields ≡ none))
unfolding project_canonical field_at
project_canonical-Wins k ops h = elim (Option-cases (last_write k (sort_ops ops))) [
  | inl absent ↦ inr (
    All-perm _ (sort_ops-perm_self ops) (last_write-none k (sort_ops ops) absent),
    ground (arith, replay-field_at k empty_report (sort_ops ops) h),
  )
  | inr (w, found) ↦
      let wins = last_write-Wins k (sort_ops ops) w (sort_ops-IsSorted ops) found in
      inl (
        w,
        record {
          listed = Perm.subset ∣ sort_ops-perm_self ops ∣₁ w wins.listed;
          writes = wins.writes;
          latest = All-perm _ (sort_ops-perm_self ops) wins.latest;
        },
        ground (arith, replay-field_at k empty_report (sort_ops ops) h),
      )
]
