-- ===== src/Messaging/Broadcast/Addressed.antt =====
-- To whom a broadcast goes, written out, and that its loops make these deliveries.
use wdc_backend.Prelude.{
  ℕ, suc, ◌+◌, Uuid, Timestamp, ◌≡◌, refl, ap, ◌∙◌, Bool, true, false, ◌&&◌, none, some, List, [],
  ◌∷◌, ◌++◌, map, any, select, length, ◌==◌, if◌then◌else◌, arith, Bool-cases, inl, inr,
}
use wdc_backend.Auth.Tokens.{active, suspended, deleted}
use wdc_backend.Auth.SignIn.{is_active}
use wdc_backend.Users.{Account, is_present}
use wdc_backend.Messaging.Broadcast.{
  Channel, Payload, DeliveryRow, Adapters, BroadcastArgs, BroadcastDraw, state, lga, ward,
  resolve_recipients, in_scope, for_channels, for_recipients, new_delivery, settle, dispatch_one,
  accepted, raised, Answer,
}

-- Whom a broadcast reaches: active, not deleted, and in the scope.
abbrev pub is_reached : BroadcastArgs → Account → Bool
is_reached args a = elim a.status [
  | suspended ↦ false
  | deleted ↦ false
  | active ↦ elim a.deleted_at [
    | some _ ↦ false
    | none ↦ elim args.scope_kind [
      | state ↦ true
      | lga ↦ elim a.lga_id [ none ↦ false | some id ↦ any (λ i. i == id) args.scope_ids ]
      | ward ↦ elim a.ward_id [ none ↦ false | some id ↦ any (λ i. i == id) args.scope_ids ]
    ]
  ]
]

-- To whom a delivery goes, on which channel and with what.
abbrev pub address : DeliveryRow → Uuid × Channel × Payload
address d = (d.recipient_user_id, d.channel, d.payload)

abbrev pub payload_of : BroadcastDraw → BroadcastArgs → Payload
payload_of draw args = record {
  message_id = draw.message_id;
  conversation_id = draw.conversation_id;
  body = args.body;
}

abbrev pub on_channels :
    BroadcastDraw → BroadcastArgs → Uuid → List Channel → List (Uuid × Channel × Payload)
on_channels draw args user channels =
    map (λ channel. (user, channel, payload_of draw args)) channels

-- The addresses of a broadcast: each account that it reaches, on each channel.
abbrev pub addresses :
    BroadcastDraw → BroadcastArgs → List Account → List (Uuid × Channel × Payload)
addresses draw args [] = []
addresses draw args (a ∷ accounts) =
    let rest = addresses draw args accounts in
    if is_reached args a then on_channels draw args a.id args.channels ++ rest else rest

pub map_append :
    (ds es : List DeliveryRow) → map address (ds ++ es) ≡ map address ds ++ map address es
map_append [] es = refl
map_append (d ∷ ds) es = ap (λ l. address d ∷ l) (map_append ds es)

module _ (draw : BroadcastDraw) (args : BroadcastArgs) where
  address-for_channels :
      (n : ℕ) (user : Uuid) (channels : List Channel)
      → map address (for_channels draw args n user channels) ≡ on_channels draw args user channels
  unfolding for_channels new_delivery
  address-for_channels n user [] = refl
  address-for_channels n user (channel ∷ channels) =
      ap (λ l. (user, channel, payload_of draw args) ∷ l)
        (address-for_channels (suc n) user channels)

  reached :
      (a : Account)
      → ((is_active a.status && is_present a) && in_scope args.scope_kind args.scope_ids a)
        ≡ is_reached args a
  reached a = ground arith

  pub address-for_recipients :
      (n : ℕ) (accounts : List Account)
      → map address
          (for_recipients draw args n (resolve_recipients args.scope_kind args.scope_ids accounts))
        ≡ addresses draw args accounts
  unfolding for_recipients resolve_recipients
  address-for_recipients n [] = refl
  address-for_recipients n (a ∷ accounts) = elim (Bool-cases (is_reached args a)) [
    | inl here ↦
        let rows = for_channels draw args n a.id args.channels in
        let more =
          for_recipients draw args (n + length rows)
            (resolve_recipients args.scope_kind args.scope_ids accounts) in
        rw (reached a ∙ here) (
          rw here (
            map_append rows more
            ∙ ap (λ l. l ++ map address more) (address-for_channels n a.id args.channels)
            ∙ ap (λ l. on_channels draw args a.id args.channels ++ l)
                (address-for_recipients (n + length rows) accounts)))
    | inr other ↦ rw (reached a ∙ other) (rw other (address-for_recipients n accounts))
  ]

  pub count-reached :
      (accounts : List Account)
      → length (resolve_recipients args.scope_kind args.scope_ids accounts)
        ≡ length (select (is_reached args) accounts)
  unfolding resolve_recipients
  count-reached [] = refl
  count-reached (a ∷ accounts) = elim (Bool-cases (is_reached args a)) [
    | inl here ↦ rw (reached a ∙ here) (rw here (ap suc (count-reached accounts)))
    | inr other ↦ rw (reached a ∙ other) (rw other (count-reached accounts))
  ]

pub length-address : (ds : List DeliveryRow) → length (map address ds) ≡ length ds
length-address [] = refl
length-address (d ∷ ds) = ap suc (length-address ds)

settle-address :
    (now : Timestamp) (answer : Answer) (d : DeliveryRow)
    → address (settle now answer d) ≡ address d
unfolding settle
settle-address now (accepted ref) d = refl
settle-address now (raised message) d = refl

pub dispatch_one-address :
    (adapters : Adapters) (now : Timestamp) (d : DeliveryRow) (ds : List DeliveryRow)
    → map address (dispatch_one adapters now d ds) ≡ map address ds
unfolding dispatch_one
dispatch_one-address adapters now d [] = refl
dispatch_one-address adapters now d (e ∷ ds) =
    let answer = adapters d.channel d.recipient_user_id d.payload.body in
    elim (Bool-cases (e.id == d.id)) [
      | inl here ↦
          rw here (cc (settle-address now answer e, dispatch_one-address adapters now d ds))
      | inr other ↦ rw other (ap (λ l. address e ∷ l) (dispatch_one-address adapters now d ds))
    ]
