-- ===== src/Sync/Tests.antt =====
-- Concrete batches, on which the theorems about sync are applied.
use wdc_backend.Prelude.{◌≤◌, ◌<◌, ◌≡◌, refl, true, none, some, [], ◌∷◌, length, All, arith}
use wdc_backend.Report.Json.{str}
use wdc_backend.Database.{parent_visible, ok, err, failure}
use wdc_backend.Report.Consistent.Runs.{IsSound}
use wdc_backend.Report.Tests.{the_secretary, the_coordinator, one_report, one_report-IsSound}
use wdc_backend.Sync.{SyncOpKind, SyncOp, SyncBatch, SyncStore, SyncResponse, position, unreadable}
use wdc_backend.Sync.Content.{server_seqs}
use wdc_backend.Sync.Batch.{
  apply_batch, apply_new_batch, answer_batch, check_idempotency, pull_ops, pulled_seqs, response_of,
}
use wdc_backend.Sync.Counts.{IsCounted, apply_new_batch-IsCounted}
use wdc_backend.Sync.Pull.{IsAscending, AtMost, pull_ops-IsAscending, apply_new_batch-AtMost}
use wdc_backend.Sync.Sound.{apply_batch-IsSound}
use wdc_backend.Sync.Replay.{apply_batch-replay}

abbrev a_sync_op : SyncOp
a_sync_op = record {
  report_id = 100;
  op_kind = SyncOpKind.field_set;
  payload = ("key", str "attendance") ∷ ("value", str "12") ∷ [];
  op_id = some 50;
  wall_clock_ts = none;
  device_id = none;
  drawn = 901;
  redrawn = 902;
  logged = 903;
}

abbrev a_submit : SyncOp
a_submit = record a_sync_op { op_kind = SyncOpKind.submit; op_id = none }

abbrev a_batch : SyncBatch
a_batch = record {
  idempotency_key = "batch one";
  ops = a_sync_op ∷ a_submit ∷ a_sync_op ∷ [];
  since_cursor = some (position 0);
}

abbrev sync_store : SyncStore
sync_store = record { tables = one_report; idempotency_keys = [] }

apply_new_batch-IsCounted_example :
    IsCounted a_batch (apply_new_batch the_secretary 2000 a_batch sync_store).0
apply_new_batch-IsCounted_example = apply_new_batch-IsCounted the_secretary 2000 a_batch sync_store

-- The same batch with a cursor that is no number: it raises.
apply_new_batch_unreadable :
    (apply_new_batch the_secretary 2000
      (record a_batch { since_cursor = some (unreadable "Cannot convert x to a BigInt") })
      sync_store).0
    ≡ err (failure "Cannot convert x to a BigInt")
unfolding apply_new_batch answer_batch
apply_new_batch_unreadable = refl

apply_batch-IsSound_example : IsSound (apply_batch the_secretary 2000 a_batch sync_store).1.tables
apply_batch-IsSound_example =
    apply_batch-IsSound the_secretary 2000 a_batch sync_store one_report-IsSound

-- What the batch gives back.
abbrev the_answer : SyncResponse
the_answer = elim (apply_new_batch the_secretary 2000 a_batch sync_store).0 [
  | ok response ↦ response
  | err e ↦ response_of none [] none
]

a_new_batch_returns : (apply_new_batch the_secretary 2000 a_batch sync_store).0 ≡ ok the_answer
unfolding apply_new_batch answer_batch pull_ops
a_new_batch_returns = refl

a_batch_returns : (apply_batch the_secretary 2000 a_batch sync_store).0 ≡ ok the_answer
unfolding apply_batch check_idempotency apply_new_batch answer_batch
a_batch_returns = refl

apply_batch-replay_example :
    apply_batch the_coordinator 3000
      (record a_batch { ops = [] })
      (apply_batch the_secretary 2000 a_batch sync_store).1
    ≡ (ok the_answer, (apply_batch the_secretary 2000 a_batch sync_store).1)
apply_batch-replay_example =
    apply_batch-replay the_secretary the_coordinator 2000 3000 a_batch (record a_batch { ops = [] })
      sync_store the_answer refl refl (omega arith) a_batch_returns

pull_ops-IsAscending_example :
    (length (pull_ops the_secretary 0 one_report) ≤ 200)
    × IsAscending (pull_ops the_secretary 0 one_report)
    × All
        (λ o. (0 < o.server_seq) × (parent_visible the_secretary one_report o.report_id ≡ true))
        (pull_ops the_secretary 0 one_report)
pull_ops-IsAscending_example = pull_ops-IsAscending the_secretary 0 one_report

apply_new_batch-AtMost_example :
    AtMost the_answer.next_cursor (server_seqs the_answer.results)
    × AtMost the_answer.next_cursor (pulled_seqs the_answer.pulled_ops)
apply_new_batch-AtMost_example =
    apply_new_batch-AtMost the_secretary 2000 a_batch sync_store the_answer a_new_batch_returns
