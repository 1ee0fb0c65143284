-- ===== src/Report/Consistent/Steps.antt =====
-- Each kind of change to the report tables keeps the invariant.
use wdc_backend.Prelude.{
  Uuid, ◌≡◌, refl, sym, ap, ◌∙◌, ◌≢◌, inl, inr, true, false, ◌||◌, none, List, [], ◌∷◌, ◌++◌, ◌==◌,
  ==_iff, All, All-append, arith, Bool-cases,
}
use wdc_backend.Database.{ReportRow, OpRow}
use wdc_backend.Report.Service.Statements.{has_op}
use wdc_backend.Report.Consistent.{
  ops_in, IsCached, has_report, HasDistinctIds, HasDistinctOps, IsConsistent, IsConsistentBut,
}

has_report-append :
    (id : Uuid) (rs ss : List ReportRow)
    → has_report id (rs ++ ss) ≡ (has_report id rs || has_report id ss)
has_report-append id [] ss = refl
has_report-append id (r ∷ rs) ss = ground (arith, has_report-append id rs ss)

has_op-append :
    (id op : Uuid) (os ps : List OpRow)
    → has_op id op (os ++ ps) ≡ (has_op id op os || has_op id op ps)
unfolding has_op
has_op-append id op [] ps = refl
has_op-append id op (o ∷ os) ps = ground (arith, has_op-append id op os ps)

HasDistinctIds-append :
    (r : ReportRow) (rs : List ReportRow)
    → has_report r.id rs ≡ false
    → HasDistinctIds rs
    → HasDistinctIds (rs ++ (r ∷ []))
HasDistinctIds-append r [] h d = (refl, tt)
HasDistinctIds-append r (x ∷ rs) h (p, d) = (
  ground (arith, has_report-append x.id rs (r ∷ [])),
  HasDistinctIds-append r rs (ground arith) d,
)

pub HasDistinctOps-append :
    (o : OpRow) (os : List OpRow)
    → has_op o.report_id o.op_id os ≡ false
    → HasDistinctOps os
    → HasDistinctOps (os ++ (o ∷ []))
unfolding has_op
HasDistinctOps-append o [] h d = (refl, tt)
HasDistinctOps-append o (x ∷ os) h (p, d) = (
  ground (arith, has_op-append x.report_id x.op_id os (o ∷ [])),
  HasDistinctOps-append o os (ground arith) d,
)

pub ops_in-append_ne :
    (id : Uuid) (o : OpRow) (log : List OpRow)
    → o.report_id ≢ id
    → ops_in id (log ++ (o ∷ [])) ≡ ops_in id log
ops_in-append_ne id o [] h = ground arith
ops_in-append_ne id o (x ∷ log) h = ground (arith, ops_in-append_ne id o log h)

-- A report that no row has owns no op.
ops_in-none :
    (id : Uuid) (reports : List ReportRow) (log : List OpRow)
    → has_report id reports ≡ false
    → All (λ o. has_report o.report_id reports ≡ true) log
    → ops_in id log ≡ []
ops_in-none id reports [] h a = refl
ops_in-none id reports (o ∷ log) h (p, a) = elim (Bool-cases (o.report_id == id)) [
  | inl same ↦
      let e : o.report_id ≡ id = (==_iff _ _).0 same in
      let clash : false ≡ true = sym h ∙ sym (ap (λ x. has_report x reports) e) ∙ p in cc
  | inr other ↦ rw other (ops_in-none id reports log h a)
]

pub owned_mono :
    (reports more : List ReportRow) (log : List OpRow)
    → ((id : Uuid) → has_report id reports ≡ true → has_report id more ≡ true)
    → All (λ o. has_report o.report_id reports ≡ true) log
    → All (λ o. has_report o.report_id more ≡ true) log
owned_mono reports more [] h a = tt
owned_mono reports more (o ∷ log) h (p, a) = (h o.report_id p, owned_mono reports more log h a)

-- A new report, with no canonical column, and an id that no report has.
pub add_report-IsConsistent :
    (r : ReportRow) (reports : List ReportRow) (log : List OpRow)
    → r.canonical ≡ none
    → has_report r.id reports ≡ false
    → IsConsistent reports log
    → IsConsistent (reports ++ (r ∷ [])) log
add_report-IsConsistent r reports log fresh new c = record {
  distinct = HasDistinctIds-append r reports new c.distinct;
  keyed = c.keyed;
  owned =
      owned_mono reports (reports ++ (r ∷ [])) log
        (λ id h. has_report-append id reports (r ∷ []) ∙ ap (λ b. b || has_report id (r ∷ [])) h)
        c.owned;
  cached =
      All-append (IsCached log) reports (r ∷ []) c.cached
        (inl (fresh, ops_in-none r.id reports log new c.owned), tt);
}

IsCached-append :
    (id : Uuid) (o : OpRow) (rs : List ReportRow) (log : List OpRow)
    → o.report_id ≡ id
    → All (IsCached log) rs
    → All (λ r. r.id ≢ id → IsCached (log ++ (o ∷ [])) r) rs
IsCached-append id o [] log e a = tt
IsCached-append id o (r ∷ rs) log e (p, a) = (
  λ ne. rw (ops_in-append_ne r.id o log (λ e'. ne (sym e' ∙ e))) p,
  IsCached-append id o rs log e a,
)

-- A new op of a report: its canonical column is now out of date.
pub add_op-IsConsistentBut :
    (o : OpRow) (reports : List ReportRow) (log : List OpRow)
    → has_report o.report_id reports ≡ true
    → has_op o.report_id o.op_id log ≡ false
    → IsConsistent reports log
    → IsConsistentBut o.report_id reports (log ++ (o ∷ []))
add_op-IsConsistentBut o reports log there new c = record {
  distinct = c.distinct;
  keyed = HasDistinctOps-append o log new c.keyed;
  owned = All-append _ log (o ∷ []) c.owned (there, tt);
  cached = IsCached-append o.report_id o reports log refl c.cached;
}
