-- ===== src/Report/Service/Seal.antt =====
-- The sealing pass of ReportsService, and its reads.
use wdc_backend.Prelude.{
  ℕ, ◌+◌, ◌*◌, Uuid, Timestamp, Bool, true, false, ◌&&◌, Option, none, some, List, [], ◌∷◌, map,
  ltb, leb, take, select, sort_by,
}
use wdc_backend.Rls.{RlsContext, system_context}
use wdc_backend.Report.Lifecycle.{ReportState, approved, seal, same_state}
use wdc_backend.Database.{
  Store, Action, ok, err, ReportRow, OpRow, query, with_rls_transaction, report_visible, ◌>>◌,
}
use wdc_backend.Report.Service.Statements.{fetch_report, ops_of, or_else}
use wdc_backend.Report.Service.Transitions.{TransitionArgs, transition}

unfoldable pub get_by_id : RlsContext → Uuid → Action ReportRow
get_by_id actor id = with_rls_transaction (fetch_report actor id)

abbrev pub state_matches : Option ReportState → ReportRow → Bool
state_matches none r = true
state_matches (some state) r = same_state r.state state

-- `list`, newest first, at most 200.
unfoldable pub list : RlsContext → Option ReportState → Action (List ReportRow)
list actor state = with_rls_transaction (
    query λ s. take 200 (
      sort_by (λ a b. leb b.created_at a.created_at)
        (select (λ r. state_matches state r && report_visible actor s.wards r) s.reports)))

-- `listOps`, in the order of the server's numbers.
unfoldable pub list_ops : RlsContext → Uuid → Action (List OpRow)
list_ops actor report_id = with_rls_transaction do
  fetch_report actor report_id
  query (λ s. sort_by (λ a b. leb a.server_seq b.server_seq) (ops_of actor report_id s))

-- `interval 'n days'` in milliseconds.
abbrev pub days : ℕ → ℕ
days n = n * 86400000

-- Approved, and approved before the grace window: `approved_at < now() - interval`.
unfoldable pub is_due : Timestamp → ℕ → ReportRow → Bool
is_due now grace_days r = elim r.approved_at [
  | none ↦ false
  | some at ↦ same_state r.state approved && ltb (at + days grace_days) now
]

abbrev pub approved_first : ReportRow → ReportRow → Bool
approved_first a b = leb (or_else a.approved_at 0) (or_else b.approved_at 0)

-- The ids that the first transaction of the pass reads.
unfoldable pub due_ids : Timestamp → ℕ → Store → List Uuid
due_ids now grace_days s =
    map (λ r. r.id)
      (take 200 (
        sort_by approved_first (
          select (λ r. is_due now grace_days r && report_visible system_context s.wards r)
            s.reports)))

abbrev pub seal_args : Uuid → Option Uuid → TransitionArgs
seal_args id request_id = record {
  actor = system_context;
  report_id = id;
  transition = seal;
  notes = none;
  request_id = request_id;
}

-- One transition of the loop counts if it raises nothing; a failure is skipped.
unfoldable pub seal_all : Timestamp → (Uuid → Uuid) → Option Uuid → List Uuid → Store → ℕ × Store
seal_all now fresh request_id [] s = (0, s)
seal_all now fresh request_id (id ∷ ids) s =
    let (r, s') = transition now (fresh id) (seal_args id request_id) s in
    let (n, s'') = seal_all now fresh request_id ids s' in
    (elim r [ ok _ ↦ n + 1 | err _ ↦ n ], s'')

-- `runSealingPass`: `fresh` gives the UUID drawn for the op of each report.
unfoldable pub run_sealing_pass : Timestamp → (Uuid → Uuid) → Option Uuid → ℕ → Store → ℕ × Store
run_sealing_pass now fresh request_id grace_days s =
    seal_all now fresh request_id (due_ids now grace_days s) s
