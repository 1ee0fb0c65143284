-- ===== src/Report/History/Calls.antt =====
-- What the tables that a content op or a transition leaves keep of a report.
use wdc_backend.Prelude.{
  ℕ, Uuid, Timestamp, ◌≡◌, ◌≢◌, refl, sym, ap, ◌∙◌, subst, inl, inr, Option, none, some, map, find,
  ◌==◌,
}
use wdc_backend.Rls.{RlsContext}
use wdc_backend.Report.Lifecycle.{ReportState, expected_from_state}
use wdc_backend.Report.Projection.{OpKind, project_canonical}
use wdc_backend.Database.{Store, ReportRow, OpRow}
use wdc_backend.Report.Service.Statements.{op_row, update_report, to_report_op, ops_of}
use wdc_backend.Report.Service.Statements.Steps.{add_op, reprojected}
use wdc_backend.Report.Service.Write.{ContentOp, content_op}
use wdc_backend.Report.Service.Write.Effect.{appended}
use wdc_backend.Report.Service.Transitions.{TransitionArgs, set_columns, op_kind_of, transition_op}
use wdc_backend.Report.Service.Transitions.Effect.{logged, logged_as, transitioned}
use wdc_backend.Report.Consistent.Steps.{ops_in-append_ne}
use wdc_backend.Report.History.{row_of, Reaches, Kept}
use wdc_backend.Report.History.Rows.{row_of-update_report}

pub Reaches-trans : {a b c : ReportState} → Reaches a b → Reaches b c → Reaches a c
Reaches-trans p Reaches.stay = p
Reaches-trans p (Reaches.step t q) = Reaches.step t (Reaches-trans p q)

same_row : {x : Option ReportRow} {a b : ReportRow} → x ≡ some a → x ≡ some b → a ≡ b
same_row h e = cc

logged_as-reports :
    (now : Timestamp) (fresh : Uuid) (args : TransitionArgs) (current : ReportRow) (s : Store)
    (kind : Option OpKind)
    → (logged_as now fresh args current kind s).reports ≡ s.reports
unfolding logged_as add_op
logged_as-reports now fresh args current s none = refl
logged_as-reports now fresh args current s (some kind) = refl

module _ {Still : Type 0} (id : Uuid) where
  pub Kept-refl : (s : Store) {r : ReportRow} → row_of id s ≡ some r → Kept Still id s s r
  Kept-refl s {r} h = record {
    row = r;
    there = h;
    moved = Reaches.stay;
    frozen = λ _. (refl, refl);
  }

  pub Kept-trans :
      (s s' s'' : Store) {r : ReportRow} (k : Kept Still id s s' r)
      → Kept Still id s' s'' k.row
      → Kept Still id s s'' r
  Kept-trans s s' s'' {r} k l = record {
    row = l.row;
    there = l.there;
    moved = Reaches-trans k.moved l.moved;
    frozen = λ e. ((l.frozen e).0 ∙ (k.frozen e).0, (l.frozen e).1 ∙ (k.frozen e).1);
  }

  -- An update of another report, or one that moves the state along the table.
  Kept-updated :
      (ctx : RlsContext) (now : Timestamp) (j : Uuid) (f : ReportRow → ReportRow) (s : Store)
      {r : ReportRow}
      → ((x : ReportRow) → (f x).id ≡ x.id)
      → row_of id s ≡ some r
      → (Still → j ≢ id)
      → (j ≡ id → Reaches r.state (f r).state)
      → Kept Still id s (update_report ctx now j f s) r
  unfolding update_report
  Kept-updated ctx now j f s {r} keeps h other moves =
      elim (row_of-update_report ctx now id j f s keeps h) [
        | inl same ↦ record {
          row = r;
          there = same;
          moved = Reaches.stay;
          frozen = λ _. (refl, refl);
        }
        | inr (e, found) ↦ record {
          row = record (f r) { updated_at = now };
          there = found;
          moved = moves e;
          frozen = λ still. elim (other still e) [ ];
        }
      ]

  Kept-reprojected :
      (ctx : RlsContext) (now : Timestamp) (j : Uuid) (s : Store) {r : ReportRow}
      → row_of id s ≡ some r
      → (Still → j ≢ id)
      → Kept Still id s (reprojected ctx now j s) r
  unfolding reprojected
  Kept-reprojected ctx now j s h other =
      Kept-updated ctx now j
        (λ x. record x { canonical = some (project_canonical (map to_report_op (ops_of ctx j s))) })
        s (λ x. refl) h other (λ _. Reaches.stay)

  Kept-add_op :
      (j : Uuid) (row : ℕ → OpRow) (s : Store) {r : ReportRow}
      → ((n : ℕ) → (row n).report_id ≡ j)
      → row_of id s ≡ some r
      → (Still → j ≢ id)
      → Kept Still id s (add_op row s) r
  unfolding add_op
  Kept-add_op j row s {r} of_j h other = record {
    row = r;
    there = h;
    moved = Reaches.stay;
    frozen = λ still. (
      refl,
      ops_in-append_ne id (row s.next_seq) s.op_log
          (λ same. other still (sym (of_j s.next_seq) ∙ same)),
    );
  }

  pub Kept-appended :
      (now : Timestamp) (fresh : Uuid) (args : ContentOp) (user_id : Uuid) (s : Store)
      {r : ReportRow}
      → row_of id s ≡ some r
      → (Still → args.report_id ≢ id)
      → Kept Still id s (appended now fresh args user_id s) r
  unfolding appended op_row content_op
  Kept-appended now fresh args user_id s h other =
      let row = op_row now fresh (content_op args user_id) in
      let k = Kept-add_op args.report_id row s (λ n. refl) h other in
      Kept-trans s (add_op row s) (appended now fresh args user_id s) k
        (Kept-reprojected args.actor now args.report_id (add_op row s) k.there other)

  Kept-logged_as :
      (now : Timestamp) (fresh : Uuid) (args : TransitionArgs) (current : ReportRow) (s : Store)
      (kind : Option OpKind) {r : ReportRow}
      → row_of id s ≡ some r
      → (Still → args.report_id ≢ id)
      → Kept Still id s (logged_as now fresh args current kind s) r
  unfolding logged_as op_row transition_op
  Kept-logged_as now fresh args current s none h other = Kept-refl s h
  Kept-logged_as now fresh args current s (some kind) h other =
      Kept-add_op args.report_id (op_row now fresh (transition_op args current kind)) s (λ n. refl)
        h other

  pub Kept-transitioned :
      (now : Timestamp) (fresh : Uuid) (args : TransitionArgs) (current : ReportRow) (s : Store)
      {r : ReportRow}
      → row_of id s ≡ some r
      → (Still → args.report_id ≢ id)
      → (args.report_id ≡ id → r.state ≡ expected_from_state args.transition)
      → Kept Still id s (transitioned now fresh args current s) r
  unfolding transitioned logged set_columns
  Kept-transitioned now fresh args current s {r} h other from =
      let kind = op_kind_of args.transition in
      let s₁ = logged_as now fresh args current kind s in
      let h₁ : row_of id s₁ ≡ some r =
        subst (λ rs. find (λ x. x.id == id) rs ≡ some r)
          (sym (logged_as-reports now fresh args current s kind)) h in
      let s₂ = update_report args.actor now args.report_id (set_columns now args.transition) s₁ in
      let k₁ = Kept-logged_as now fresh args current s kind h other in
      let same : r ≡ k₁.row = same_row h₁ k₁.there in
      let k₂ =
        Kept-updated args.actor now args.report_id (set_columns now args.transition) s₁ (λ x. refl)
          k₁.there other
          (λ e.
            Reaches.step args.transition (
              subst (Reaches k₁.row.state) (ap (λ x. x.state) (sym same) ∙ from e) Reaches.stay)) in
      let k₃ = Kept-reprojected args.actor now args.report_id s₂ k₂.there other in
      let s₃ = reprojected args.actor now args.report_id s₂ in
      let k = Kept-trans s s₁ s₃ k₁ (Kept-trans s₁ s₂ s₃ k₂ k₃) in
      record { row = k.row; there = k.there; moved = k.moved; frozen = k.frozen }
