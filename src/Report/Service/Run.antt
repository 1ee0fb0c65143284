-- ===== src/Report/Service/Run.antt =====
-- Sequences of writing calls of ReportsService, each with its time and its drawn UUIDs.
use wdc_backend.Prelude.{ℕ, Uuid, Timestamp, Option, List, [], ◌∷◌}
use wdc_backend.Database.{Store}
use wdc_backend.Report.Service.Write.{CreateArgs, create, ContentOp, set_field, add_attachment}
use wdc_backend.Report.Service.Transitions.{TransitionArgs, transition}
use wdc_backend.Report.Service.Seal.{run_sealing_pass}

pub data Call : Type 0 where
  create_call : Timestamp → Uuid → CreateArgs → Call
  set_field_call add_attachment_call : Timestamp → Uuid → ContentOp → Call
  transition_call : Timestamp → Uuid → TransitionArgs → Call
  seal_call : Timestamp → (Uuid → Uuid) → Option Uuid → ℕ → Call

-- What a call leaves, whether it returns or raises.
unfoldable pub run_call : Call → Store → Store
run_call (create_call now id args) s = (create now id args s).1
run_call (set_field_call now fresh args) s = (set_field now fresh args s).1
run_call (add_attachment_call now fresh args) s = (add_attachment now fresh args s).1
run_call (transition_call now fresh args) s = (transition now fresh args s).1
run_call (seal_call now fresh request_id days) s = (run_sealing_pass now fresh request_id days s).1

unfoldable pub run_calls : List Call → Store → Store
unfolding run_call
run_calls [] s = s
run_calls (c ∷ cs) s = run_calls cs (run_call c s)
