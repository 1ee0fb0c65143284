-- ===== src/Messaging/Inbox.antt =====
-- The inbox: `listDeliveries` (src/modules/messaging/messaging.service.ts).
use wdc_backend.Prelude.{
  ℕ, suc, ◌*◌, ◌/◌, min, Uuid, Timestamp, String, Bool, false, ◌&&◌, ◌||◌, Option, none, some, List,
  [], ◌∷◌, map, take, length, select, sort_by, ltb, leb, ◌==◌, is_empty, if◌then◌else◌,
}
use wdc_backend.Rls.{RlsContext}
use wdc_backend.Database.{Result, ok, err, forbidden, database, invalid_text}
use wdc_backend.Handler.{Body, Handler, transact}
use wdc_backend.Messaging.Broadcast.{DeliveryRow, MessageTables}
use wdc_backend.Investigations.Cursor.{Codec, encode_cursor, decode_cursor}

abbrev date_of : Option Timestamp → Option Timestamp
date_of none = none
date_of (some t) = some (t / 1000)

-- `toDeliveryView`: the row, with its dates in milliseconds.
unfoldable pub to_delivery_view : DeliveryRow → DeliveryRow
to_delivery_view row = record row {
  queued_at = row.queued_at / 1000;
  sent_at = date_of row.sent_at;
  delivered_at = date_of row.delivered_at;
  read_at = date_of row.read_at;
  failed_at = date_of row.failed_at;
}

pub record DeliveryPage : Type 0 where
  pub items : List DeliveryRow
  pub next_cursor : Option String

abbrev pub is_mine : RlsContext → DeliveryRow → Bool
is_mine actor d = elim actor.user_id [ none ↦ false | some user ↦ d.recipient_user_id == user ]

abbrev pub latest_queued : DeliveryRow → DeliveryRow → Bool
latest_queued a b = ltb b.queued_at a.queued_at || (b.queued_at == a.queued_at && leb b.id a.id)

abbrev pub queued_before : Timestamp → Uuid → DeliveryRow → Bool
queued_before t id d = ltb d.queued_at (t * 1000) || (d.queued_at == t * 1000 && ltb d.id id)

abbrev own_deliveries : RlsContext → MessageTables → List DeliveryRow
own_deliveries actor t = sort_by latest_queued (select (is_mine actor) t.deliveries)

abbrev given_cursor : Option String → Option String
given_cursor none = none
given_cursor (some text) = if is_empty text then none else some text

unfoldable pub select_deliveries :
    Codec → RlsContext → Option String → ℕ → Body MessageTables (List DeliveryRow)
select_deliveries codec actor cursor count t = elim (given_cursor cursor) [
  | none ↦ (ok (take count (own_deliveries actor t)), t)
  | some text ↦ elim (decode_cursor codec text) [
    | none ↦ (err (forbidden "invalid cursor"), t)
    | some c ↦ elim (codec.parse_uuid c.id) [
      | none ↦ (err (database invalid_text), t)
      | some id ↦
          (ok (take count (select (queued_before c.created_at id) (own_deliveries actor t))), t)
    ]
  ]
]

abbrev last_delivery : List DeliveryRow → Option DeliveryRow
last_delivery [] = none
last_delivery (d ∷ ds) = let last = last_delivery ds in elim ds [ [] ↦ some d | _ ∷ _ ↦ last ]

unfoldable pub delivery_page : Codec → ℕ → List DeliveryRow → DeliveryPage
delivery_page codec limit rows =
    if ltb limit (length rows)
    then record {
      items = map to_delivery_view (take limit rows);
      next_cursor = elim (last_delivery (take limit rows)) [
        | none ↦ none
        | some d ↦ some (
            encode_cursor codec
              (record { created_at = d.queued_at / 1000; id = codec.uuid_text d.id }))
      ];
    }
    else record { items = map to_delivery_view rows; next_cursor = none }

abbrev inbox_size : Option ℕ → ℕ
inbox_size none = 20
inbox_size (some n) = min n 100

abbrev paged : {T : Type 0} → Codec → ℕ → Result (List DeliveryRow) × T → Result DeliveryPage × T
paged codec limit (ok rows, t) = (ok (delivery_page codec limit rows), t)
paged codec limit (err e, t) = (err e, t)

-- `listDeliveries`
unfoldable pub list_deliveries :
    Codec → RlsContext → Option String → Option ℕ → Handler MessageTables DeliveryPage
list_deliveries codec actor cursor limit w =
    let size = inbox_size limit in
    paged codec size (transact (select_deliveries codec actor cursor (suc size)) w)
