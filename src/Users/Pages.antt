-- ===== src/Users/Pages.antt =====
-- `list` of users (src/modules/users/users.service.ts).
use wdc_backend.Prelude.{
  ℕ, suc, ◌*◌, ◌/◌, min, max, Uuid, Timestamp, String, Bool, true, ◌&&◌, ◌||◌, Option, none, some,
  List, [], ◌∷◌, map, take, length, select, sort_by, ltb, leb, ◌==◌, is_empty, if◌then◌else◌,
}
use wdc_backend.Rls.{Role, RlsContext, same_role}
use wdc_backend.Database.{Result, ok, err, database, invalid_text}
use wdc_backend.Handler.{Body, Handler, transact}
use wdc_backend.Users.{
  Account, AccountTables, Primitives, UserView, view_from_row, is_present, account_visible,
  equals_option,
}
use wdc_backend.Investigations.Cursor.{Codec, Cursor, encode_cursor, decode_cursor}

pub record UserFilters : Type 0 where
  pub role : Option Role
  pub lga_id : Option Uuid
  pub ward_id : Option Uuid
  pub cursor : Option String
  pub limit : Option ℕ

pub record UserPage : Type 0 where
  pub items : List UserView
  pub next_cursor : Option String

abbrev pub page_limit : Option ℕ → ℕ
page_limit none = 25
page_limit (some n) = min (max n 1) 100

-- A cursor that cannot be read, and the empty text, are no cursor.
abbrev pub cursor_ts : Codec → Option String → Option Cursor
cursor_ts codec none = none
cursor_ts codec (some text) = if is_empty text then none else decode_cursor codec text

abbrev matches_role : Option Role → Account → Bool
matches_role none a = true
matches_role (some r) a = same_role r a.role

abbrev matches_id : Option Uuid → Option Uuid → Bool
matches_id none column = true
matches_id (some id) column = equals_option column (some id)

-- The conditions of the `WHERE` but the one on the cursor, and the policy.
unfoldable pub is_listed : RlsContext → UserFilters → Account → Bool
is_listed actor f a =
    (is_present a && account_visible actor a)
    && (matches_role f.role a && (matches_id f.lga_id a.lga_id && matches_id f.ward_id a.ward_id))

abbrev pub newest_first : Account → Account → Bool
newest_first a b = ltb b.created_at a.created_at || (b.created_at == a.created_at && leb b.id a.id)

abbrev pub is_older : Timestamp → Uuid → Account → Bool
is_older t id a = ltb a.created_at (t * 1000) || (a.created_at == t * 1000 && ltb a.id id)

abbrev rows_of : RlsContext → UserFilters → AccountTables → List Account
rows_of actor f t = sort_by newest_first (select (is_listed actor f) t.accounts)

-- The rows of the `SELECT`.
unfoldable pub select_users :
    Codec → RlsContext → UserFilters → ℕ → Body AccountTables (List Account)
select_users codec actor f count t = elim (cursor_ts codec f.cursor) [
  | none ↦ (ok (take count (rows_of actor f t)), t)
  | some c ↦ elim (codec.parse_uuid c.id) [
    | none ↦ (err (database invalid_text), t)
    | some id ↦ (ok (take count (select (is_older c.created_at id) (rows_of actor f t))), t)
  ]
]

abbrev last_account : List Account → Option Account
last_account [] = none
last_account (a ∷ rest) = let last = last_account rest in elim rest [ [] ↦ some a | _ ∷ _ ↦ last ]

unfoldable pub user_page : Primitives → Codec → ℕ → List Account → UserPage
user_page prims codec limit rows =
    if ltb limit (length rows)
    then record {
      items = map (view_from_row prims) (take limit rows);
      next_cursor = elim (last_account (take limit rows)) [
        | none ↦ none
        | some a ↦ some (
            encode_cursor codec
              (record { created_at = a.created_at / 1000; id = codec.uuid_text a.id }))
      ];
    }
    else record { items = map (view_from_row prims) rows; next_cursor = none }

abbrev with_page :
    {T : Type 0} → Primitives → Codec → ℕ → Result (List Account) × T → Result UserPage × T
with_page prims codec limit (ok rows, t) = (ok (user_page prims codec limit rows), t)
with_page prims codec limit (err e, t) = (err e, t)

-- `list`
unfoldable pub list : Primitives → Codec → RlsContext → UserFilters → Handler AccountTables UserPage
list prims codec actor f w =
    let limit = page_limit f.limit in
    with_page prims codec limit (transact (select_users codec actor f (suc limit)) w)
