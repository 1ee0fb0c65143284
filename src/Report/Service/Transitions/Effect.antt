-- ===== src/Report/Service/Transitions/Effect.antt =====
-- What a transition has done when it returns.
use wdc_backend.Prelude.{
  Uuid, Timestamp, ◌≡◌, ◌⊎◌, inl, inr, true, false, Option, none, some, arith, ◌∷◌, Option-cases,
  ap, ◌∙◌, subst, sym,
}
use wdc_backend.Rls.{includes}
use wdc_backend.Report.Projection.{OpKind}
use wdc_backend.Report.Lifecycle.{expected_from_state, roles_for_transition, same_state}
use wdc_backend.Database.{
  Store, Session, Tx, Result, ok, ReportRow, AuditEventInput, ◌>>=◌, with_rls_transaction,
}
use wdc_backend.Database.Laws.{
  >>=-ok, or_throw-bind, execute-bind, guard-bind, with_rls_transaction-ok,
}
use wdc_backend.Report.Service.Statements.Steps.{
  add_op, reprojected, insert_op-live, fetch_report-ok, fetch_report-bind, reproject_canonical-bind,
}
use wdc_backend.Report.Service.Statements.{find_report, update_report, op_row, has_op}
use wdc_backend.Report.Service.Transitions.{
  TransitionArgs, transition_op, transition, transition_in, log_transition, append_audit,
  transition_event, set_columns, op_kind_of,
}

-- The tables with the op that a transition logs, if it logs one.
unfoldable pub logged_as :
    Timestamp → Uuid → TransitionArgs → ReportRow → Option OpKind → Store → Store
logged_as now fresh args current none s = s
logged_as now fresh args current (some kind) s =
    add_op (op_row now fresh (transition_op args current kind)) s

unfoldable pub logged : Timestamp → Uuid → TransitionArgs → ReportRow → Store → Store
unfolding logged_as
logged now fresh args current s = logged_as now fresh args current (op_kind_of args.transition) s

-- What a transition leaves.
unfoldable pub transitioned : Timestamp → Uuid → TransitionArgs → ReportRow → Store → Store
transitioned now fresh args current s =
    let s' = reprojected args.actor now args.report_id (
      update_report args.actor now args.report_id (set_columns now args.transition)
        (logged now fresh args current s)) in
    record s' { audit = transition_event args ∷ s'.audit }

-- The transition logs no op, or one with an id that is new in the report's log.
abbrev pub LogsNew : Uuid → TransitionArgs → Store → Type 0
LogsNew fresh args s =
    (op_kind_of args.transition ≡ none) ⊎ (has_op args.report_id fresh s.op_log ≡ false)

log_transition-live :
    (now : Timestamp) (fresh : Uuid) (args : TransitionArgs) (current : ReportRow) (t t' : Session)
    → log_transition now fresh args current t ≡ (ok tt, t')
    → t'.aborted ≡ false
    → (t' ≡ record { store = logged now fresh args current t.store; aborted = false })
      × LogsNew fresh args t.store
unfolding log_transition logged transition_op
log_transition-live now fresh args current t t' h n =
    elim (Option-cases (op_kind_of args.transition)) [
      | inl silent ↦ ground arith
      | inr (kind, e) ↦
          ground (arith, insert_op-live args.actor now fresh (transition_op args current kind) t t')
    ]

append_audit-bind :
    {B : Type 0} (event : AuditEventInput) (f : Unit {0} → Tx B) (t : Session)
    {q : Result B × Session}
    → (append_audit event >>= f) t ≡ q
    → f tt
        (record { store = record (t.store) { audit = event ∷ t.store.audit }; aborted = t.aborted })
      ≡ q
unfolding append_audit ◌>>=◌
append_audit-bind event f t h = h

-- From the logged op on, as a function of the session.
abbrev transition_end : Timestamp → TransitionArgs → Session → Session
transition_end now args u =
    let s =
      reprojected args.actor now args.report_id
        (update_report args.actor now args.report_id (set_columns now args.transition) u.store) in
    record { store = record s { audit = transition_event args ∷ s.audit }; aborted = false }

transition_in-ok :
    (now : Timestamp) (fresh : Uuid) (args : TransitionArgs) (s : Store) {r : ReportRow}
    {t : Session}
    → transition_in now fresh args (record { store = s; aborted = false }) ≡ (ok r, t)
    → (current : ReportRow) × (find_report args.actor args.report_id s ≡ some current)
      × (same_state current.state (expected_from_state args.transition) ≡ true)
      × LogsNew fresh args s
      × (t ≡ record { store = transitioned now fresh args current s; aborted = false })
      × (find_report args.actor args.report_id t.store ≡ some r)
unfolding transition_in transitioned
transition_in-ok now fresh args s {r} {t} h =
    let (_, current, found, h1) = fetch_report-bind _ _ _ _ h in
    let (from, h2) = guard-bind _ _ _ _ h1 in
    let (_, u, logged_it, h3) = >>=-ok _ _ _ h2 in
    let (live, row, _, h4) = execute-bind _ _ _ h3 in
    let (same, new) = log_transition-live now fresh args current _ u logged_it live in
    let (_, _, h5) = or_throw-bind _ _ _ _ h4 in
    let (_, h6) = reproject_canonical-bind _ _ _ _ _ h5 in
    let h7 = append_audit-bind _ _ _ h6 in
    let (_, refetched, same') = fetch_report-ok _ _ _ h7 in
    (current, found, from, new, same' ∙ ap (transition_end now args) same, rw same' refetched)

transition_inner :
    (now : Timestamp) (fresh : Uuid) (args : TransitionArgs) (s : Store) {r : ReportRow}
    {s' : Store}
    → transition now fresh args s ≡ (ok r, s')
    → (includes (roles_for_transition args.transition) args.actor.role ≡ true)
      × (with_rls_transaction (transition_in now fresh args) s ≡ (ok r, s'))
unfolding transition
transition_inner now fresh args s h = ground arith

-- What a transition has found and left.
abbrev pub TransitionDone : Timestamp → Uuid → TransitionArgs → Store → ReportRow → Store → Type 0
TransitionDone now fresh args s r s' =
    (includes (roles_for_transition args.transition) args.actor.role ≡ true)
    × (current : ReportRow) × (find_report args.actor args.report_id s ≡ some current)
    × (same_state current.state (expected_from_state args.transition) ≡ true)
    × LogsNew fresh args s
    × (s' ≡ transitioned now fresh args current s)
    × (find_report args.actor args.report_id s' ≡ some r)

-- A transition that returns was allowed for the actor's role, found the report visible and in the
-- state that the table expects, drew a new op id if it logs an op, and has left exactly the tables `transitioned`: the op logged, the
-- columns set, the canonical projection computed anew and the event audited. The row that it
-- returns is the row that the actor reads there.
pub transition-ok :
    (now : Timestamp) (fresh : Uuid) (args : TransitionArgs) (s : Store) {r : ReportRow}
    {s' : Store}
    → transition now fresh args s ≡ (ok r, s')
    → TransitionDone now fresh args s r s'
transition-ok now fresh args s {r} {s'} h =
    let (allowed, inner) = transition_inner now fresh args s h in
    let (t, e, committed) = with_rls_transaction-ok _ s inner in
    let (current, found, from, new, same, refetched) = transition_in-ok now fresh args s e in
    let stored : s' ≡ transitioned now fresh args current s = rw same at committed in
    (
      allowed,
      current,
      found,
      from,
      new,
      stored,
      subst (λ u. find_report args.actor args.report_id u ≡ some r)
          (ap (λ u. u.store) same ∙ sym stored) refetched,
    )
