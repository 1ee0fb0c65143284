-- ===== src/Investigations/Cursor.antt =====
-- The cursors of the lists (`encodeCursor` and `decodeCursor` of
-- src/modules/investigations/investigations.service.ts).

use wdc_backend.Prelude.{
  Uuid, Timestamp, String, ◌+++◌, ◌≡◌, refl, false, ◌||◌, Option, none, some, has_char, is_empty,
  before, after, before-joined, after-joined, before_all, if◌then◌else◌, arith,
}

-- Node and PostgreSQL: base64url of a text, the ISO text of a date and the date that
-- `new Date(iso)` makes of a text, and the text of a `uuid` column and back. Times are in
-- milliseconds; those before 1970 are left out.
pub record Codec : Type 0 where
  pub base64url : String → String
  pub from_base64url : String → String
  pub to_iso : Timestamp → String
  pub parse_date : String → Option Timestamp
  pub uuid_text : Uuid → String
  pub parse_uuid : String → Option Uuid

pub record Cursor : Type 0 where
  pub created_at : Timestamp
  pub id : String

abbrev pub bar : String
bar = "|"

-- `encodeCursor`
unfoldable pub encode_cursor : Codec → Cursor → String
encode_cursor codec c = codec.base64url (codec.to_iso c.created_at +++ (bar +++ c.id))

-- The two texts that `split` gives, and the date of the first.
abbrev pub read_parts : Codec → String → String → Option Cursor
read_parts codec iso id =
    if is_empty iso || is_empty id then none else elim (codec.parse_date iso) [
      | none ↦ none
      | some t ↦ some (record { created_at = t; id = id })
    ]

-- `decodeCursor`
unfoldable pub decode_cursor : Codec → String → Option Cursor
decode_cursor codec cursor =
    let decoded = codec.from_base64url cursor in
    elim (after b'|' decoded) [
      | none ↦ none
      | some rest ↦ read_parts codec (before b'|' decoded) (before b'|' rest)
    ]

-- What is documented of them: each text is read back, no text but the empty one is encoded as the
-- empty one, and neither the ISO text nor the one of a uuid is empty or has a bar.
pub record IsCodec (codec : Codec) : Type 0 where
  pub base64 : (s : String) → codec.from_base64url (codec.base64url s) ≡ s
  pub base64_filled : (s : String) → is_empty s ≡ false → is_empty (codec.base64url s) ≡ false
  pub dates : (t : Timestamp) → codec.parse_date (codec.to_iso t) ≡ some t
  pub uuids : (id : Uuid) → codec.parse_uuid (codec.uuid_text id) ≡ some id
  pub dates_barless : (t : Timestamp) → has_char b'|' (codec.to_iso t) ≡ false
  pub dates_filled : (t : Timestamp) → is_empty (codec.to_iso t) ≡ false
  pub uuids_barless : (id : Uuid) → has_char b'|' (codec.uuid_text id) ≡ false
  pub uuids_filled : (id : Uuid) → is_empty (codec.uuid_text id) ≡ false

-- The cursor of a time and a row's id is read back as that time and that id, where texts, dates
-- and uuids are.
pub decode_cursor-encode_cursor :
    (codec : Codec) (t : Timestamp) (id : Uuid)
    → IsCodec codec
    → decode_cursor codec (encode_cursor codec (record { created_at = t; id = codec.uuid_text id }))
      ≡ some (record { created_at = t; id = codec.uuid_text id })
unfolding decode_cursor encode_cursor
decode_cursor-encode_cursor codec t id laws =
    let iso = codec.to_iso t in
    let text = codec.uuid_text id in
    ground (
      arith,
      laws.base64 (iso +++ (bar +++ text)),
      laws.dates t,
      laws.dates_filled t,
      laws.uuids_filled id,
      before-joined b'|' iso "|" text (laws.dates_barless t) refl,
      after-joined b'|' iso "|" text (laws.dates_barless t) refl,
      before_all b'|' text (laws.uuids_barless id),
    )
