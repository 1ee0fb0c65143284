-- ===== src/Messaging/Broadcast/Tests.antt =====
-- A concrete broadcast, on which the theorems about broadcasts are applied.
use wdc_backend.Prelude.{◌+◌, false, none, [], ◌∷◌}
use wdc_backend.Handler.{World}
use wdc_backend.Users.Tests.{enrolled, invited, gone, a_director}
use wdc_backend.Messaging.Broadcast.{
  in_app, sms, lga, Adapters, accepted, BroadcastArgs, BroadcastDraw, MessageTables, new_delivery,
  broadcast, run_dispatch_job,
}
use wdc_backend.Messaging.Broadcast.Done.{IsDone, broadcast-IsDone}
use wdc_backend.Messaging.Broadcast.Dispatch.{NothingWaits, run_dispatch_job-NothingWaits}

abbrev sending : Adapters
sending channel user body = accepted "ref"

abbrev the_args : BroadcastArgs
the_args = record {
  body = "Meeting on Friday";
  channels = in_app ∷ sms ∷ [];
  scope_kind = lga;
  scope_ids = 9 ∷ [];
  urgent = false;
  request_id = none;
}

abbrev the_draw : BroadcastDraw
the_draw = record {
  conversation_id = 60;
  message_id = 61;
  delivery_id = λ n. 100 + n;
  ciphertext = "xyz";
  now = 9000000;
  clock = 9000;
  logged_at = 9001;
  queue_fails = none;
  dispatch_fails = λ id. none;
  append_fails = none;
}

abbrev no_message : World MessageTables
no_message = record {
  tables = record {
    accounts = record enrolled { id = 5 } ∷ invited ∷ gone ∷ [];
    messages = [];
    deliveries = [];
    jobs = [];
  };
  audit = [];
}

broadcast-IsDone_example :
    IsDone the_draw a_director the_args no_message
      (broadcast sending (λ n. "n") "[]" the_draw a_director the_args no_message)
broadcast-IsDone_example =
    broadcast-IsDone sending (λ n. "n") "[]" the_draw a_director the_args no_message

abbrev one_waiting : MessageTables
one_waiting = record no_message.tables { deliveries = new_delivery the_draw the_args 0 8 sms ∷ [] }

run_dispatch_job-NothingWaits_example :
    NothingWaits 60 (run_dispatch_job sending 9100000 60 one_waiting).deliveries
run_dispatch_job-NothingWaits_example = run_dispatch_job-NothingWaits sending 9100000 60 one_waiting
