-- ===== src/Report/Consistent/Calls.antt =====
-- Every writing call of ReportsService keeps the invariant.
use wdc_backend.Prelude.{
  Uuid, Timestamp, ◌≡◌, refl, ap, ◌∙◌, ◌⊎◌, inl, inr, Bool, true, false, ◌&&◌, Option, none, some,
  List, [], ◌∷◌, map, ◌==◌, ==_iff, select, any, find, update_where, arith, Bool-cases, All-mono,
  any_of_find,
}
use wdc_backend.Rls.{RlsContext}
use wdc_backend.Report.Lifecycle.{Transition}
use wdc_backend.Report.Projection.{OpKind, project_canonical}
use wdc_backend.Database.{ReportRow, OpRow, Store, report_visible, parent_visible}
use wdc_backend.Report.Service.Statements.{
  to_report_op, find_report, ops_of, update_report, op_row, has_op, or_else,
}
use wdc_backend.Report.Service.Statements.Steps.{add_op, reprojected}
use wdc_backend.Report.Service.Write.{ContentOp, content_op}
use wdc_backend.Report.Service.Write.Effect.{appended}
use wdc_backend.Report.Service.Transitions.{TransitionArgs, set_columns, op_kind_of, transition_op}
use wdc_backend.Report.Service.Transitions.Effect.{transitioned, logged, logged_as, LogsNew}
use wdc_backend.Report.Consistent.{ops_in, has_report, IsConsistent, IsConsistentBut}
use wdc_backend.Report.Consistent.Steps.{add_op-IsConsistentBut}
use wdc_backend.Report.Consistent.Updates.{
  is_row, IsVisible, IsVisible-of_find, IsVisible-updated, update-IsConsistentBut,
  store-IsConsistent,
}

select-visible :
    (id : Uuid) (shown : Uuid → Bool) (log : List OpRow)
    → shown id ≡ true
    → select (λ o. o.report_id == id && shown o.report_id) log ≡ ops_in id log
select-visible id shown [] h = refl
select-visible id shown (o ∷ log) h = elim (Bool-cases (o.report_id == id)) [
  | inl same ↦
      let e : o.report_id ≡ id = (==_iff _ _).0 same in
      let here : shown o.report_id ≡ true = ap shown e ∙ h in
      rw (same, here) (ap (λ l. o ∷ l) (select-visible id shown log h))
  | inr other ↦ rw other (select-visible id shown log h)
]

pub has_report_of_find :
    (id : Uuid) (visible : ReportRow → Bool) (rs : List ReportRow) {r : ReportRow}
    → find (is_row id visible) rs ≡ some r
    → has_report id rs ≡ true
has_report_of_find id visible [] e = cc
has_report_of_find id visible (x ∷ rs) {r} e =
    ground (arith, has_report_of_find id visible rs {r = r})

-- Projecting anew the ops of a visible report whose column may be out of date.
pub reprojected-IsConsistent :
    (ctx : RlsContext) (now : Timestamp) (id : Uuid) (s : Store)
    → parent_visible ctx s id ≡ true
    → IsVisible id (report_visible ctx s.wards) s.reports
    → IsConsistentBut id s.reports s.op_log
    → let s' = reprojected ctx now id s in IsConsistent s'.reports s'.op_log
unfolding reprojected update_report ops_of
reprojected-IsConsistent ctx now id s shown v c =
    store-IsConsistent id (report_visible ctx s.wards) _ (λ r. refl) s.reports s.op_log
      (λ r.
        ap (λ l. some (project_canonical (map to_report_op l)))
          (select-visible id (parent_visible ctx s) s.op_log shown))
      v c

pub appended-IsConsistent :
    (now : Timestamp) (fresh : Uuid) (args : ContentOp) (user_id : Uuid) (s : Store) {r : ReportRow}
    → find_report args.actor args.report_id s ≡ some r
    → has_op args.report_id (or_else args.op_id fresh) s.op_log ≡ false
    → IsConsistent s.reports s.op_log
    → let s' = appended now fresh args user_id s in IsConsistent s'.reports s'.op_log
unfolding appended add_op find_report op_row content_op parent_visible
appended-IsConsistent now fresh args user_id s found new c =
    let visible : ReportRow → Bool = report_visible args.actor s.wards in
    reprojected-IsConsistent args.actor now args.report_id
      (add_op (op_row now fresh (content_op args user_id)) s)
      (any_of_find (is_row args.report_id visible) s.reports found)
      (IsVisible-of_find args.report_id visible s.reports found c.distinct)
      (add_op-IsConsistentBut (op_row now fresh (content_op args user_id) s.next_seq) s.reports
        s.op_log (has_report_of_find args.report_id visible s.reports found) new c)

any_updated :
    (test : ReportRow → Bool) (f : ReportRow → ReportRow) (rs : List ReportRow)
    → ((r : ReportRow) → test (f r) ≡ test r)
    → any test (update_where test f rs) ≡ any test rs
any_updated test f [] k = refl
any_updated test f (r ∷ rs) k = ground (arith, any_updated test f rs k, k r)

pub weaken :
    (id : Uuid) (rs : List ReportRow) (log : List OpRow)
    → IsConsistent rs log
    → IsConsistentBut id rs log
weaken id rs log c = record {
  distinct = c.distinct;
  keyed = c.keyed;
  owned = c.owned;
  cached = All-mono _ _ rs (λ r h _. h) c.cached;
}

-- The op of a transition, or none.
logged_as-IsConsistentBut :
    (now : Timestamp) (fresh : Uuid) (args : TransitionArgs) (current : ReportRow) (s : Store)
    (kind : Option OpKind)
    → has_report args.report_id s.reports ≡ true
    → (kind ≡ none) ⊎ (has_op args.report_id fresh s.op_log ≡ false)
    → IsConsistent s.reports s.op_log
    → let s' = logged_as now fresh args current kind s in
      IsConsistentBut args.report_id s'.reports s'.op_log
unfolding logged_as add_op op_row transition_op
logged_as-IsConsistentBut now fresh args current s none there new c =
    weaken args.report_id s.reports s.op_log c
logged_as-IsConsistentBut now fresh args current s (some kind) there (inl e) c = cc
logged_as-IsConsistentBut now fresh args current s (some kind) there (inr new) c =
    add_op-IsConsistentBut (op_row now fresh (transition_op args current kind) s.next_seq) s.reports
      s.op_log there new c

find_report-logged_as :
    (now : Timestamp) (fresh : Uuid) (args : TransitionArgs) (current : ReportRow) (s : Store)
    (kind : Option OpKind) (ctx : RlsContext) (id : Uuid)
    → find_report ctx id (logged_as now fresh args current kind s) ≡ find_report ctx id s
unfolding logged_as add_op find_report
find_report-logged_as now fresh args current s none ctx id = refl
find_report-logged_as now fresh args current s (some kind) ctx id = refl

-- The columns of a transition and the projection, from tables where only this report may be out
-- of date.
moved-IsConsistent :
    (ctx : RlsContext) (now : Timestamp) (id : Uuid) (t : Transition) (s : Store) {r : ReportRow}
    → find_report ctx id s ≡ some r
    → IsConsistentBut id s.reports s.op_log
    → let s' = reprojected ctx now id (update_report ctx now id (set_columns now t) s) in
      IsConsistent s'.reports s'.op_log
unfolding update_report set_columns find_report parent_visible report_visible
moved-IsConsistent ctx now id t s found c =
    let seen : ReportRow → Bool = report_visible ctx s.wards in
    let f : ReportRow → ReportRow = λ r. record (set_columns now t r) { updated_at = now } in
    reprojected-IsConsistent ctx now id (update_report ctx now id (set_columns now t) s)
      (any_updated (is_row id seen) f s.reports (λ r. refl)
        ∙ any_of_find (is_row id seen) s.reports found)
      (IsVisible-updated id seen f (λ r. refl) s.reports (λ r. refl)
        (IsVisible-of_find id seen s.reports found c.distinct))
      (update-IsConsistentBut id seen f (λ r. refl) s.reports s.op_log c)

pub transitioned-IsConsistent :
    (now : Timestamp) (fresh : Uuid) (args : TransitionArgs) (current : ReportRow) (s : Store)
    → find_report args.actor args.report_id s ≡ some current
    → LogsNew fresh args s
    → IsConsistent s.reports s.op_log
    → let s' = transitioned now fresh args current s in IsConsistent s'.reports s'.op_log
unfolding transitioned logged find_report
transitioned-IsConsistent now fresh args current s found new c =
    let kind = op_kind_of args.transition in
    moved-IsConsistent args.actor now args.report_id args.transition
      (logged_as now fresh args current kind s)
      (find_report-logged_as now fresh args current s kind args.actor args.report_id ∙ found)
      (logged_as-IsConsistentBut now fresh args current s kind
        (has_report_of_find args.report_id (report_visible args.actor s.wards) s.reports found) new
        c)
