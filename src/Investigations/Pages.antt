-- ===== src/Investigations/Pages.antt =====
-- `list`, the pages of investigations (src/modules/investigations/investigations.service.ts).
use wdc_backend.Prelude.{
  ℕ, suc, ◌*◌, min, Uuid, Timestamp, String, Bool, ◌&&◌, ◌||◌, Option, none, some, List, [], ◌∷◌,
  map, take, length, select, sort_by, ltb, leb, ◌==◌, is_empty, if◌then◌else◌,
}
use wdc_backend.Rls.{RlsContext}
use wdc_backend.Database.{Result, ok, err, forbidden, database, invalid_text}
use wdc_backend.Handler.{Body, Handler, as_director, transact}
use wdc_backend.Investigations.{
  InvestigationRow, Tables, InvestigationView, to_investigation_view, date,
}
use wdc_backend.Investigations.Cursor.{Codec, encode_cursor, decode_cursor}

pub record ListArgs : Type 0 where
  pub cursor : Option String
  pub limit : Option ℕ

pub record Page : Type 0 where
  pub items : List InvestigationView
  pub next_cursor : Option String

-- `ORDER BY created_at DESC, id DESC`
abbrev pub newest_first : InvestigationRow → InvestigationRow → Bool
newest_first a b = ltb b.created_at a.created_at || (b.created_at == a.created_at && leb b.id a.id)

-- `(created_at, id) < ($1, $2)`, where the time of the cursor has no more than milliseconds.
abbrev pub is_older : Timestamp → Uuid → InvestigationRow → Bool
is_older t id i = ltb i.created_at (t * 1000) || (i.created_at == t * 1000 && ltb i.id id)

-- The empty text is no cursor.
abbrev pub given : Option String → Option String
given none = none
given (some text) = if is_empty text then none else some text

-- The rows that the `SELECT` gives.
unfoldable pub select_page : Codec → Option String → ℕ → Body Tables (List InvestigationRow)
select_page codec none count t = (ok (take count (sort_by newest_first t.investigations)), t)
select_page codec (some text) count t = elim (decode_cursor codec text) [
  | none ↦ (err (forbidden "invalid cursor"), t)
  | some c ↦ elim (codec.parse_uuid c.id) [
    | none ↦ (err (database invalid_text), t)
    | some id ↦ (
      ok (take count (select (is_older c.created_at id) (sort_by newest_first t.investigations))),
      t,
    )
  ]
]

abbrev pub last_row : List InvestigationRow → Option InvestigationRow
last_row [] = none
last_row (i ∷ is) = let rest = last_row is in elim is [ [] ↦ some i | _ ∷ _ ↦ rest ]

abbrev pub cursor_of : Codec → InvestigationRow → String
cursor_of codec i =
    encode_cursor codec (record { created_at = date i.created_at; id = codec.uuid_text i.id })

-- The slice, and the cursor after it when there are more rows.
unfoldable pub page_of : Codec → ℕ → List InvestigationRow → Page
page_of codec limit rows =
    if ltb limit (length rows)
    then record {
      items = map to_investigation_view (take limit rows);
      next_cursor = elim (last_row (take limit rows)) [
        | none ↦ none
        | some i ↦ some (cursor_of codec i)
      ];
    }
    else record { items = map to_investigation_view rows; next_cursor = none }

abbrev pub page_size : Option ℕ → ℕ
page_size none = 20
page_size (some n) = min n 100

abbrev pub with_page :
    {T : Type 0} → Codec → ℕ → Result (List InvestigationRow) × T → Result Page × T
with_page codec limit (ok rows, t) = (ok (page_of codec limit rows), t)
with_page codec limit (err e, t) = (err e, t)

-- `list`
unfoldable pub list : Codec → RlsContext → ListArgs → Handler Tables Page
list codec actor args = as_director actor (λ w.
    let limit = page_size args.limit in
    with_page codec limit (transact (select_page codec (given args.cursor) (suc limit)) w))
