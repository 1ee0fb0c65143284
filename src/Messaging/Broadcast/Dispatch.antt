-- ===== src/Messaging/Broadcast/Dispatch.antt =====
-- What the worker's job leaves of what waited.
use wdc_backend.Prelude.{
  Uuid, Timestamp, ◌≡◌, refl, true, false, List, [], ◌∷◌, any, select, update_where, ◌==◌, arith,
  All, All-mono, Bool-cases, inl, inr,
}
use wdc_backend.Messaging.Broadcast.{
  DeliveryRow, MessageTables, Adapters, Answer, settle, dispatch_one, dispatch_all, is_pending,
  run_dispatch_job, accepted, raised,
}

-- What a worker's job leaves: nothing of the conversation waits.
abbrev pub NothingWaits : Uuid → List DeliveryRow → Type 0
NothingWaits id ds = All (λ d. is_pending id d ≡ false) ds

-- Each delivery that waits is among the ones still to be dispatched.
abbrev Covered : Uuid → List DeliveryRow → DeliveryRow → Type 0
Covered id pending d = is_pending id d ≡ true → any (λ p. p.id == d.id) pending ≡ true

settled_status :
    (now : Timestamp) (answer : Answer) (d : DeliveryRow) (id : Uuid)
    → is_pending id (settle now answer d) ≡ false
unfolding settle
settled_status now (accepted ref) d id = refl
settled_status now (raised message) d id = refl

Covered-settled :
    (id : Uuid) (now : Timestamp) (answer : Answer) (p : DeliveryRow)
    (pending ds : List DeliveryRow)
    → All (Covered id (p ∷ pending)) ds
    → All (Covered id pending) (update_where (λ e. e.id == p.id) (settle now answer) ds)
Covered-settled id now answer p pending [] h = tt
Covered-settled id now answer p pending (d ∷ ds) (c, h) = elim (Bool-cases (d.id == p.id)) [
  | inl here ↦ rw here (
    (λ waits. absurd (ground (arith, settled_status now answer d id))),
    Covered-settled id now answer p pending ds h,
  )
  | inr other ↦
      rw other ((λ waits. ground (arith, c waits)), Covered-settled id now answer p pending ds h)
]

dispatch_all-NothingWaits :
    (id : Uuid) (adapters : Adapters) (now : Timestamp) (pending ds : List DeliveryRow)
    → All (Covered id pending) ds
    → NothingWaits id (dispatch_all adapters now pending ds)
unfolding dispatch_all dispatch_one
dispatch_all-NothingWaits id adapters now [] ds h = All-mono _ _ ds (λ d c. ground (arith, c)) h
dispatch_all-NothingWaits id adapters now (p ∷ pending) ds h =
    dispatch_all-NothingWaits id adapters now pending (dispatch_one adapters now p ds) (
      Covered-settled id now (adapters p.channel p.recipient_user_id p.payload.body) p pending ds h)

-- The selection holds every delivery that waits.
Covered-select :
    (id : Uuid) (d : DeliveryRow) (ds : List DeliveryRow)
    → Covered id (select (is_pending id) ds) d
    → (e : DeliveryRow) → Covered id (select (is_pending id) (e ∷ ds)) d
Covered-select id d ds c e waits = ground (arith, c waits)

each_waiting : (id : Uuid) (ds : List DeliveryRow) → All (Covered id (select (is_pending id) ds)) ds
each_waiting id [] = tt
each_waiting id (d ∷ ds) = (
  (λ waits. ground arith),
  All-mono _ _ ds (λ e c. Covered-select id e ds c d) (each_waiting id ds),
)

-- After the job of a conversation has run, none of its deliveries waits, whatever the adapters
-- answer and whatever else was in the table.
pub run_dispatch_job-NothingWaits :
    (adapters : Adapters) (now : Timestamp) (id : Uuid) (t : MessageTables)
    → NothingWaits id (run_dispatch_job adapters now id t).deliveries
unfolding run_dispatch_job
run_dispatch_job-NothingWaits adapters now id t =
    dispatch_all-NothingWaits id adapters now (select (is_pending id) t.deliveries) t.deliveries
      (each_waiting id t.deliveries)
