-- ===== src/Messaging/Broadcast/Done.antt =====
-- What a broadcast leaves, also when a call after its commit raises.
use wdc_backend.Prelude.{
  ℕ, Uuid, Timestamp, String, ◌≡◌, refl, sym, ap, ◌∙◌, ◌⊎◌, Option, none, some, List, [], ◌∷◌, ◌++◌,
  map, select, length, arith, Bool-cases, Option-cases, inl, inr,
}
use wdc_backend.Rls.{RlsContext}
use wdc_backend.Database.{Result, ok, err, Error}
use wdc_backend.Handler.{
  Append, World, is_director, as_director, transact, audited, commit, log_and_view,
}
use wdc_backend.Messaging.Broadcast.{
  DeliveryRow, MessageTables, Adapters, BroadcastArgs, BroadcastDraw, BroadcastView,
  resolve_recipients, for_recipients, plan, Planned, dispatch_one, or_stop, dispatch_pending,
  is_held, add_dispatch_job, send_or_hold, sent_or_held, after_plan, broadcast, broadcast_view,
}
use wdc_backend.Messaging.Broadcast.Addressed.{
  is_reached, address, addresses, map_append, address-for_recipients, count-reached, length-address,
  dispatch_one-address,
}

-- What the loop raises is what the dispatch of a delivery raised.
abbrev RaisedBy : (Uuid → Option Error) → Result (Unit {0}) → Type 0
RaisedBy fails (ok u) = Unit
RaisedBy fails (err e) = (id : Uuid) × (fails id ≡ some e)

-- The addresses are as they were, and an error is what a dispatch raised.
abbrev Sends :
    (Uuid → Option Error) → List DeliveryRow → Result (Unit {0}) × List DeliveryRow → Type 0
Sends fails ds r = (map address r.1 ≡ map address ds) × RaisedBy fails r.0

or_stop-Sends :
    (fails : Uuid → Option Error) (id : Uuid) (f : Option Error) (ds : List DeliveryRow)
    (rest : Result (Unit {0}) × List DeliveryRow)
    → fails id ≡ f
    → Sends fails ds rest
    → Sends fails ds (or_stop f ds rest)
or_stop-Sends fails id (some e) ds rest raises h = (refl, (id, raises))
or_stop-Sends fails id none ds rest raises h = h

dispatch_pending-Sends :
    (adapters : Adapters) (fails : Uuid → Option Error) (now : Timestamp)
    (pending ds : List DeliveryRow)
    → Sends fails ds (dispatch_pending adapters fails now pending ds)
unfolding dispatch_pending
dispatch_pending-Sends adapters fails now [] ds = (refl, tt)
dispatch_pending-Sends adapters fails now (d ∷ pending) ds =
    let (same, raised_by) =
      dispatch_pending-Sends adapters fails now pending (dispatch_one adapters now d ds) in
    or_stop-Sends fails d.id (fails d.id) ds
      (dispatch_pending adapters fails now pending (dispatch_one adapters now d ds)) refl
      (same ∙ dispatch_one-address adapters now d ds, raised_by)

-- The calls after the commit of a broadcast: what they may raise.
abbrev pub RaisesAfter : BroadcastDraw → Error → Type 0
RaisesAfter draw e =
    (draw.queue_fails ≡ some e)
    ⊎ (((id : Uuid) × (draw.dispatch_fails id ≡ some e)) ⊎ (draw.append_fails ≡ some e))

-- The deliveries after a broadcast that committed.
abbrev pub Delivers : BroadcastDraw → BroadcastArgs → MessageTables → MessageTables → Type 0
Delivers draw args t t' =
    map address t'.deliveries ≡ map address t.deliveries ++ addresses draw args t.accounts

-- What a broadcast leaves.
abbrev pub IsDone :
    BroadcastDraw
    → RlsContext
    → BroadcastArgs
    → World MessageTables
    → Result BroadcastView × World MessageTables
    → Type 0
IsDone draw actor args w (ok view, w') =
    (view.recipient_count ≡ length (select (is_reached args) w.tables.accounts))
    × (view.delivery_count ≡ length (addresses draw args w.tables.accounts))
    × Delivers draw args w.tables w'.tables
IsDone draw actor args w (err e, w') =
    (w' ≡ w) ⊎ (RaisesAfter draw e × (w'.audit ≡ w.audit) × Delivers draw args w.tables w'.tables)

-- What the transaction leaves.
abbrev Plans :
    BroadcastDraw → BroadcastArgs → MessageTables → Result Planned × MessageTables → Type 0
Plans draw args t (ok planned, t') =
    (length planned.recipients ≡ length (select (is_reached args) t.accounts))
    × (length planned.pending ≡ length (addresses draw args t.accounts))
    × Delivers draw args t t'
Plans draw args t (err e, t') = Unit

plan-Plans :
    (draw : BroadcastDraw) (actor : RlsContext) (args : BroadcastArgs) (t : MessageTables)
    → Plans draw args t (plan draw actor args t)
unfolding plan
plan-Plans draw actor args t =
    let recipients = resolve_recipients args.scope_kind args.scope_ids t.accounts in
    let pending = for_recipients draw args 0 recipients in
    let to = address-for_recipients draw args 0 t.accounts in
    let count = count-reached draw args t.accounts in
    let total = sym (length-address pending) ∙ ap length to in
    let delivered = map_append t.deliveries pending ∙ ap (λ l. map address t.deliveries ++ l) to in
    elim (Option-cases actor.user_id) [
      | inl nobody ↦ ground arith
      | inr (sender, there) ↦ ground (arith, count, total, delivered)
    ]

-- The calls after the commit, but for the append: the addresses are as they were.
abbrev Sent : BroadcastDraw → MessageTables → Result (Unit {0}) × MessageTables → Type 0
Sent draw t (ok u, t') = map address t'.deliveries ≡ map address t.deliveries
Sent draw t (err e, t') =
    (map address t'.deliveries ≡ map address t.deliveries) × RaisesAfter draw e

held-Sent : (draw : BroadcastDraw) (t : MessageTables) → Sent draw t (add_dispatch_job draw t)
held-Sent draw t = elim (Option-cases draw.queue_fails) [
  | inl returns ↦ rw returns refl
  | inr (e, raises) ↦ rw raises (refl, inl refl)
]

dispatched-Sent :
    (draw : BroadcastDraw) (t : MessageTables) (r : Result (Unit {0}) × List DeliveryRow)
    → Sends draw.dispatch_fails t.deliveries r
    → Sent draw t (r.0, record t { deliveries = r.1 })
dispatched-Sent draw t (ok u, ds) (same, raised_by) = same
dispatched-Sent draw t (err e, ds) (same, raised_by) = (same, inr (inl raised_by))

send_or_hold-Sent :
    (adapters : Adapters) (draw : BroadcastDraw) (args : BroadcastArgs) (planned : Planned)
    (t : MessageTables)
    → Sent draw t (send_or_hold adapters draw args planned t)
unfolding send_or_hold
send_or_hold-Sent adapters draw args planned t = elim (Bool-cases (is_held draw args)) [
  | inl held ↦ rw held (held-Sent draw t)
  | inr now ↦ rw now (
      dispatched-Sent draw t _
        (dispatch_pending-Sends adapters draw.dispatch_fails draw.now planned.pending t.deliveries))
]

module _ (draw : BroadcastDraw) (actor : RlsContext) (args : BroadcastArgs)
    (event : Planned → Append) (fails : (p : Planned) → (event p).fails ≡ draw.append_fails) where
  Sent-IsDone :
      (w : World MessageTables) (planned : Planned) (t : MessageTables)
      (r : Result (Unit {0}) × MessageTables)
      → Plans draw args w.tables (ok planned, t)
      → Sent draw t r
      → IsDone draw actor args w (
          log_and_view event
            (broadcast_view draw args)
            (sent_or_held planned (record w { tables = t }) r))
  Sent-IsDone w planned t (ok u, t') (count, total, delivers) same =
      elim (Option-cases (event planned).fails) [
        | inl returns ↦ rw returns (count, total, same ∙ delivers)
        | inr (e, raises) ↦
            rw raises (inr (inr (inr (sym (fails planned) ∙ raises)), refl, same ∙ delivers))
      ]
  Sent-IsDone w planned t (err e, t') (count, total, delivers) (same, raised_by) =
      inr (raised_by, refl, same ∙ delivers)

  planned-IsDone :
      (adapters : Adapters) (w : World MessageTables) (p : Result Planned × MessageTables)
      → Plans draw args w.tables p
      → IsDone draw actor args w (
          log_and_view event
            (broadcast_view draw args)
            (after_plan adapters draw args (commit w p)))
  planned-IsDone adapters w (ok planned, t) h =
      Sent-IsDone w planned t (send_or_hold adapters draw args planned t) h
        (send_or_hold-Sent adapters draw args planned t)
  planned-IsDone adapters w (err e, t) h = inl refl

-- A broadcast that returns counts the accounts that it reaches (active, not deleted and in the
-- scope), and adds to the deliveries exactly one for each of them on each of the channels, to this
-- account, on this channel and with the message. One that raises an error leaves everything as it
-- was, or the error comes from a call after the commit (the queue, a dispatch or the append of the
-- event): then the deliveries are those of a broadcast that returns, and the audit log is as it was.
pub broadcast-IsDone :
    (adapters : Adapters) (text_of : ℕ → String) (channels_text : String) (draw : BroadcastDraw)
    (actor : RlsContext) (args : BroadcastArgs) (w : World MessageTables)
    → IsDone draw actor args w (broadcast adapters text_of channels_text draw actor args w)
unfolding broadcast as_director audited transact
broadcast-IsDone adapters text_of channels_text draw actor args w =
    elim (Bool-cases (is_director actor)) [
      | inl granted ↦ rw granted (
          planned-IsDone draw actor args _ (λ p. refl) adapters w (plan draw actor args w.tables)
            (plan-Plans draw actor args w.tables))
      | inr other ↦ rw other (inl refl)
    ]
