-- ===== src/Messaging/Broadcast.antt =====
-- Broadcasts and their deliveries (src/modules/messaging/messaging.service.ts, and the job of
-- src/modules/messaging/broadcast.worker.ts).
pub mod Dispatch
pub mod Addressed
pub mod Done
pub mod Tests
use wdc_backend.Prelude.{
  ℕ, suc, ◌+◌, Uuid, Timestamp, String, Bool, true, false, not, ◌&&◌, ◌||◌, Option, none, some,
  List, [], ◌∷◌, ◌++◌, any, find, select, length, update_where, ◌==◌, str_eq, if◌then◌else◌,
}
use wdc_backend.Rls.{RlsContext}
use wdc_backend.Report.Json.{Json, str, num, bool, structured, Object}
use wdc_backend.Database.{
  Result, ok, err, Error, not_found, database, duplicate_key, foreign_key, not_null,
}
use wdc_backend.Handler.{Draw, World, Body, Handler, as_director, transact, audited, event_by}
use wdc_backend.Auth.Tokens.{UserStatus}
use wdc_backend.Auth.SignIn.{is_active}
use wdc_backend.Users.{Account, is_present}
use wdc_backend.Messaging.QuietHours.{is_quiet_hours_wat, ms_until_quiet_hours_end}

pub data Channel : Type 0 where
  in_app email sms whatsapp : Channel

pub data DeliveryStatus : Type 0 where
  queued sent delivered read failed : DeliveryStatus

pub record Payload : Type 0 where
  pub message_id : Uuid
  pub conversation_id : Uuid
  pub body : String

pub record DeliveryRow : Type 0 where
  pub id : Uuid
  pub recipient_user_id : Uuid
  pub channel : Channel
  pub provider_ref : Option String
  pub status : DeliveryStatus
  pub payload : Payload
  pub queued_at : Timestamp
  pub sent_at : Option Timestamp
  pub delivered_at : Option Timestamp
  pub read_at : Option Timestamp
  pub failed_at : Option Timestamp
  pub error_message : Option String

pub record MessageRow : Type 0 where
  pub id : Uuid
  pub conversation_id : Uuid
  pub sender_user_id : Uuid
  pub body_ciphertext : String

-- A job of the queue, with its delay.
pub record DispatchJob : Type 0 where
  pub conversation_id : Uuid
  pub delay_ms : ℕ

pub record MessageTables : Type 0 where
  pub accounts : List Account
  pub messages : List MessageRow
  pub deliveries : List DeliveryRow
  pub jobs : List DispatchJob

pub data Scope : Type 0 where
  state lga ward : Scope

-- What an adapter answers: the reference of its provider, or the message of its error.
pub data Answer : Type 0 where
  accepted raised : String → Answer

-- The adapters of the channels, by user and body. Each channel of the table has one.
abbrev pub Adapters : Type 0
Adapters = Channel → Uuid → String → Answer

pub record BroadcastArgs : Type 0 where
  pub body : String
  pub channels : List Channel
  pub scope_kind : Scope
  pub scope_ids : List Uuid
  pub urgent : Bool
  pub request_id : Option Uuid

-- What a broadcast draws: its conversation and message, the ids of its deliveries in turn, the
-- ciphertext of its body, its times, and what the calls after the commit raise, if they do: the
-- queue, the dispatch of a delivery, and the append of the audit event.
pub record BroadcastDraw : Type 0 where
  pub conversation_id : Uuid
  pub message_id : Uuid
  pub delivery_id : ℕ → Uuid
  pub ciphertext : String
  pub now : Timestamp
  pub clock : Timestamp
  pub logged_at : Timestamp
  pub queue_fails : Option Error
  pub dispatch_fails : Uuid → Option Error
  pub append_fails : Option Error

abbrev pub lists_id : List Uuid → Option Uuid → Bool
lists_id ids none = false
lists_id ids (some id) = any (λ i. i == id) ids

abbrev pub in_scope : Scope → List Uuid → Account → Bool
in_scope state ids a = true
in_scope lga ids a = lists_id ids a.lga_id
in_scope ward ids a = lists_id ids a.ward_id

-- `resolveRecipients`
unfoldable pub resolve_recipients : Scope → List Uuid → List Account → List Account
resolve_recipients kind ids accounts =
    select (λ a. (is_active a.status && is_present a) && in_scope kind ids a) accounts

unfoldable pub new_delivery : BroadcastDraw → BroadcastArgs → ℕ → Uuid → Channel → DeliveryRow
new_delivery draw args n user channel = record {
  id = draw.delivery_id n;
  recipient_user_id = user;
  channel = channel;
  provider_ref = none;
  status = queued;
  payload = record {
    message_id = draw.message_id;
    conversation_id = draw.conversation_id;
    body = args.body;
  };
  queued_at = draw.now;
  sent_at = none;
  delivered_at = none;
  read_at = none;
  failed_at = none;
  error_message = none;
}

-- The inner loop, from the n-th delivery on.
unfoldable pub for_channels :
    BroadcastDraw → BroadcastArgs → ℕ → Uuid → List Channel → List DeliveryRow
for_channels draw args n user [] = []
for_channels draw args n user (channel ∷ channels) =
    new_delivery draw args n user channel ∷ for_channels draw args (suc n) user channels

-- The loop over the recipients.
unfoldable pub for_recipients : BroadcastDraw → BroadcastArgs → ℕ → List Account → List DeliveryRow
for_recipients draw args n [] = []
for_recipients draw args n (a ∷ recipients) =
    let rows = for_channels draw args n a.id args.channels in
    rows ++ for_recipients draw args (n + length rows) recipients

-- The rows that a failed statement would leave are rolled back, so the statements fail as one.
abbrev has_id : List DeliveryRow → Uuid → Bool
has_id rows id = any (λ d. d.id == id) rows

unfoldable pub clashes : List DeliveryRow → List DeliveryRow → Bool
clashes rows [] = false
clashes rows (d ∷ new) = if has_id rows d.id then true else clashes (d ∷ rows) new

pub record Planned : Type 0 where
  pub recipients : List Account
  pub pending : List DeliveryRow

-- The transaction of `broadcast`.
unfoldable pub plan : BroadcastDraw → RlsContext → BroadcastArgs → Body MessageTables Planned
plan draw actor args t = elim actor.user_id [
  | none ↦ (err (database not_null), t)
  | some sender ↦
      let recipients = resolve_recipients args.scope_kind args.scope_ids t.accounts in
      let pending = for_recipients draw args 0 recipients in
      if any (λ m. m.id == draw.message_id) t.messages || clashes t.deliveries pending
      then (err (database duplicate_key), t)
      else (if not (any (λ a. a.id == sender) t.accounts)
          then (err (database foreign_key), t)
          else (
            ok (record { recipients = recipients; pending = pending }),
            record t {
              messages =
                  t.messages
                  ++ (record {
                    id = draw.message_id;
                    conversation_id = draw.conversation_id;
                    sender_user_id = sender;
                    body_ciphertext = draw.ciphertext;
                  }
                      ∷ []);
              deliveries = t.deliveries ++ pending;
            },
          ))
]

-- What the answer of an adapter makes of a delivery.
unfoldable pub settle : Timestamp → Answer → DeliveryRow → DeliveryRow
settle now (accepted ref) d = record d {
  status = sent;
  provider_ref = some ref;
  sent_at = some now;
}
settle now (raised message) d = record d {
  status = failed;
  failed_at = some now;
  error_message = some message;
}

-- `dispatchOneSystem`, and one round of the worker's loop.
unfoldable pub dispatch_one :
    Adapters → Timestamp → DeliveryRow → List DeliveryRow → List DeliveryRow
dispatch_one adapters now d deliveries =
    update_where (λ e. e.id == d.id)
      (settle now (adapters d.channel d.recipient_user_id d.payload.body)) deliveries

unfoldable pub dispatch_all :
    Adapters → Timestamp → List DeliveryRow → List DeliveryRow → List DeliveryRow
dispatch_all adapters now [] deliveries = deliveries
dispatch_all adapters now (d ∷ pending) deliveries =
    dispatch_all adapters now pending (dispatch_one adapters now d deliveries)

-- An exception of `dispatchOneSystem` rolls its own transaction back and ends the loop.
abbrev pub or_stop :
    Option Error
    → List DeliveryRow
    → Result (Unit {0}) × List DeliveryRow
    → Result (Unit {0}) × List DeliveryRow
or_stop (some e) deliveries rest = (err e, deliveries)
or_stop none deliveries rest = rest

-- The loop of `broadcast`.
unfoldable pub dispatch_pending :
    Adapters
    → (Uuid → Option Error)
    → Timestamp
    → List DeliveryRow
    → List DeliveryRow
    → Result (Unit {0}) × List DeliveryRow
dispatch_pending adapters fails now [] deliveries = (ok tt, deliveries)
dispatch_pending adapters fails now (d ∷ pending) deliveries =
    let rest =
      dispatch_pending adapters fails now pending (dispatch_one adapters now d deliveries) in
    or_stop (fails d.id) deliveries rest

pub record BroadcastView : Type 0 where
  pub message_id : Uuid
  pub conversation_id : Uuid
  pub recipient_count : ℕ
  pub delivery_count : ℕ
  pub queued_during_quiet_hours : Bool

-- `queuedDuringQuietHours`
abbrev pub is_held : BroadcastDraw → BroadcastArgs → Bool
is_held draw args = is_quiet_hours_wat draw.clock && not args.urgent

-- `msgQueue.add`
abbrev pub add_dispatch_job : BroadcastDraw → MessageTables → Result (Unit {0}) × MessageTables
add_dispatch_job draw t = elim draw.queue_fails [
  | some e ↦ (err e, t)
  | none ↦ (
    ok tt,
    record t {
      jobs =
          t.jobs
          ++ (record {
            conversation_id = draw.conversation_id;
            delay_ms = ms_until_quiet_hours_end draw.clock;
          }
              ∷ []);
    },
  )
]

-- After the transaction: the adapters, or a job that waits for the end of the quiet hours.
unfoldable pub send_or_hold :
    Adapters
    → BroadcastDraw
    → BroadcastArgs
    → Planned
    → MessageTables
    → Result (Unit {0}) × MessageTables
send_or_hold adapters draw args planned t =
    let (r, deliveries) =
      dispatch_pending adapters draw.dispatch_fails draw.now planned.pending t.deliveries in
    if is_held draw args then add_dispatch_job draw t else (r, record t { deliveries = deliveries })

abbrev pub sent_or_held :
    Planned
    → World MessageTables
    → Result (Unit {0}) × MessageTables
    → Result Planned × World MessageTables
sent_or_held planned w (ok u, t) = (ok planned, record w { tables = t })
sent_or_held planned w (err e, t) = (err e, record w { tables = t })

abbrev pub after_plan :
    Adapters
    → BroadcastDraw
    → BroadcastArgs
    → Result Planned × World MessageTables
    → Result Planned × World MessageTables
after_plan adapters draw args (ok planned, w) =
    sent_or_held planned w (send_or_hold adapters draw args planned w.tables)
after_plan adapters draw args (err e, w) = (err e, w)

abbrev pub broadcast_view : BroadcastDraw → BroadcastArgs → Planned → BroadcastView
broadcast_view draw args planned = record {
  message_id = draw.message_id;
  conversation_id = draw.conversation_id;
  recipient_count = length planned.recipients;
  delivery_count = length planned.pending;
  queued_during_quiet_hours = is_held draw args;
}

abbrev scope_name : Scope → String
scope_name state = "state"
scope_name lga = "lga"
scope_name ward = "ward"

-- `broadcast`. `channels_text` is the JSON text of the channels, and `text_of` writes numbers.
unfoldable pub broadcast :
    Adapters
    → (ℕ → String)
    → String
    → BroadcastDraw
    → RlsContext
    → BroadcastArgs
    → Handler MessageTables BroadcastView
broadcast adapters text_of channels_text draw actor args = as_director actor (
    audited
      (λ planned.
        event_by
          (record {
            id = draw.message_id;
            now = draw.now;
            logged_at = draw.logged_at;
            append_fails = draw.append_fails;
          })
          actor "messages.broadcast" "messages" draw.message_id
          (("scope_kind", str (scope_name args.scope_kind))
            ∷ ("channels", structured channels_text channels_text)
            ∷ ("recipient_count", num (text_of (length planned.recipients)))
            ∷ ("quiet_hours_queued", bool (is_held draw args))
            ∷ [])
          args.request_id)
      (broadcast_view draw args)
      (λ w. after_plan adapters draw args (transact (plan draw actor args) w)))

abbrev pub is_waiting : DeliveryStatus → Bool
is_waiting queued = true
is_waiting _ = false

abbrev pub is_pending : Uuid → DeliveryRow → Bool
is_pending conversation_id d = is_waiting d.status && d.payload.conversation_id == conversation_id

-- The job of the worker.
unfoldable pub run_dispatch_job : Adapters → Timestamp → Uuid → MessageTables → MessageTables
run_dispatch_job adapters now conversation_id t = record t {
  deliveries =
      dispatch_all adapters now (select (is_pending conversation_id) t.deliveries) t.deliveries;
}

abbrev pub is_own : RlsContext → Uuid → DeliveryRow → Bool
is_own actor id d =
    d.id == id && elim actor.user_id [ none ↦ false | some user ↦ d.recipient_user_id == user ]

-- `markRead`
unfoldable pub mark_read : Timestamp → RlsContext → Uuid → Handler MessageTables (Unit {0})
mark_read now actor id = transact (λ t.
    if any (is_own actor id) t.deliveries
    then (
      ok tt,
      record t {
        deliveries =
            update_where (is_own actor id) (λ d. record d { status = read; read_at = some now })
              t.deliveries;
      },
    )
    else (err (not_found "delivery attempt not found"), t))

-- `getDelivery`, with the row for its view.
unfoldable pub get_delivery : RlsContext → Uuid → Handler MessageTables DeliveryRow
get_delivery actor id = transact (λ t. elim (find (is_own actor id) t.deliveries) [
  | none ↦ (err (not_found "delivery attempt not found"), t)
  | some d ↦ (ok d, t)
])
