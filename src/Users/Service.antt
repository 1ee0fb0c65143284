-- ===== src/Users/Service.antt =====
-- `create`, `getById`, `updateAssignment`, `setStatus` and `softDelete`
-- (src/modules/users/users.service.ts).
use wdc_backend.Prelude.{
  ℕ, ◌+◌, ◌*◌, Uuid, Timestamp, String, Bool, true, false, not, ◌&&◌, Option, none, some, List, [],
  ◌∷◌, ◌++◌, find, any, update_where, ◌==◌, str_eq, is_empty, if◌then◌else◌,
}
use wdc_backend.Rls.{Role, RlsContext}
use wdc_backend.Report.Json.{Json, str, null}
use wdc_backend.Report.Service.Transitions.{role_name}
use wdc_backend.Database.{
  Result, ok, err, failure, not_found, conflict, database, duplicate_key, foreign_key,
}
use wdc_backend.Handler.{Draw, Body, Handler, as_director, transact, audited, event_by}
use wdc_backend.Auth.Tokens.{UserStatus, active, suspended, deleted}
use wdc_backend.Users.{
  Account, AccountTables, Primitives, UserView, view_from_row, materialise_view, is_present,
  account_visible,
}
use wdc_backend.Users.Phone.{normalise_phone}

-- `token` is the one that `randomBytes` draws, and `clock` the time of `Date.now()`.
pub record CreateArgs : Type 0 where
  pub role : Role
  pub full_name : String
  pub phone : String
  pub email : Option String
  pub lga_id : Option Uuid
  pub ward_id : Option Uuid
  pub request_id : Option Uuid
  pub token : String
  pub clock : Timestamp

abbrev pub enrolment_ttl_ms : ℕ
enrolment_ttl_ms = 24 * 60 * 60 * 1000

abbrev pub normal_email : Primitives → CreateArgs → Option String
normal_email prims args = elim args.email [
  | none ↦ none
  | some email ↦ some (prims.lower_case (prims.trim email))
]

-- `emailNorm ? … : null`: the empty text is no address.
abbrev pub address : Option String → Option String
address none = none
address (some email) = if is_empty email then none else some email

-- `emailHash`
abbrev pub email_hash_of : Primitives → String → String
email_hash_of prims email = prims.sha256 (prims.lower_case (prims.trim email))

abbrev pub same_text : Option String → String → Bool
same_text none s = false
same_text (some r) s = str_eq r s

abbrev pub is_known : Option Uuid → List Uuid → Bool
is_known none ids = true
is_known (some id) ids = any (λ i. i == id) ids

unfoldable pub new_account : Primitives → Draw → CreateArgs → String → Account
new_account prims draw args phone = record {
  id = draw.id;
  role = args.role;
  lga_id = args.lga_id;
  ward_id = args.ward_id;
  full_name_ciphertext = prims.encrypt draw.id args.full_name;
  phone_hash = prims.sha256 phone;
  phone_ciphertext = prims.encrypt draw.id phone;
  email_hash = elim (address (normal_email prims args)) [
    | none ↦ none
    | some email ↦ some (email_hash_of prims email)
  ];
  email_ciphertext = elim (address (normal_email prims args)) [
    | none ↦ none
    | some email ↦ some (prims.encrypt draw.id email)
  ];
  pin_hash = none;
  password_hash = none;
  totp_secret_ciphertext = none;
  status = active;
  enrolment_token_hash = some (prims.sha256 args.token);
  enrolment_expires_at = some (args.clock + enrolment_ttl_ms);
  deleted_at = none;
  created_at = draw.now;
  updated_at = draw.now;
}

abbrev pub enrols : Account → String → Bool
enrols a hash = same_text a.enrolment_token_hash hash

-- `INSERT INTO users`; the key on the digest of the phone is the one that is caught.
unfoldable pub insert_account : Account → Body AccountTables Account
insert_account row t =
    if any (λ a. a.id == row.id) t.accounts
    then (err (database duplicate_key), t)
    else (if any (λ a. str_eq a.phone_hash row.phone_hash) t.accounts
        then (err (conflict "a user with this phone already exists"), t)
        else (if any
              (λ a. elim row.enrolment_token_hash [ none ↦ false | some hash ↦ enrols a hash ])
              t.accounts
            then (err (database duplicate_key), t)
            else (if not (is_known row.lga_id t.lgas && is_known row.ward_id t.wards)
                then (err (database foreign_key), t)
                else (ok row, record t { accounts = t.accounts ++ (row ∷ []) }))))

-- The phone, and then the transaction of `create`.
unfoldable pub create_in : Primitives → Draw → CreateArgs → Body AccountTables Account
create_in prims draw args t = elim (normalise_phone args.phone) [
  | none ↦ (err (failure "phone is not in E.164 or Nigerian national form"), t)
  | some phone ↦ insert_account (new_account prims draw args phone) t
]

abbrev pub or_raw : Option String → String → String
or_raw none raw = raw
or_raw (some phone) raw = phone

-- The view of `create`, with the token and the time at which it expires.
abbrev pub created_view : Primitives → CreateArgs → Account → UserView × String × Timestamp
created_view prims args row = (
  materialise_view prims (or_raw (normalise_phone args.phone) args.phone) (normal_email prims args)
      row,
  args.token,
  args.clock + enrolment_ttl_ms,
)

abbrev pub id_or_null : (Uuid → String) → Option Uuid → Json
id_or_null uuid_text none = null
id_or_null uuid_text (some id) = str (uuid_text id)

-- `create`
unfoldable pub create :
    Primitives
    → (Uuid → String)
    → Draw
    → RlsContext
    → CreateArgs
    → Handler AccountTables (UserView × String × Timestamp)
create prims uuid_text draw actor args = as_director actor (
    audited
      (λ row.
        event_by draw actor "users.created" "users" row.id
          (("role", str (role_name row.role))
            ∷ ("lga_id", id_or_null uuid_text row.lga_id)
            ∷ ("ward_id", id_or_null uuid_text row.ward_id)
            ∷ [])
          args.request_id)
      (created_view prims args) (transact (create_in prims draw args)))

abbrev pub is_account : Uuid → Account → Bool
is_account id a = a.id == id && is_present a

abbrev pub account_of : Uuid → AccountTables → Option Account
account_of id t = find (is_account id) t.accounts

-- `UPDATE users SET … WHERE id = … AND deleted_at IS NULL RETURNING …`, with the trigger on
-- `updated_at`: the row as it is after the update, or `NotFoundException`.
unfoldable pub update_account : Draw → Uuid → (Account → Account) → Body AccountTables Account
update_account draw id set t =
    let stamp : Account → Account = λ a. record (set a) { updated_at = draw.now } in
    elim (account_of id t) [
      | none ↦ (err (not_found "user not found"), t)
      | some a ↦
          (ok (stamp a), record t { accounts = update_where (is_account id) stamp t.accounts })
    ]

-- An absent field is `none`, and the value `null` is `some none`.
pub record Assignment : Type 0 where
  pub lga_id : Option (Option Uuid)
  pub ward_id : Option (Option Uuid)

abbrev pub or_kept : Option (Option Uuid) → Option Uuid → Option Uuid
or_kept none kept = kept
or_kept (some id) kept = id

abbrev pub assigns_nothing : Assignment → Bool
assigns_nothing p = elim p.lga_id [
  | some _ ↦ false
  | none ↦ elim p.ward_id [ some _ ↦ false | none ↦ true ]
]

abbrev pub assign : Assignment → Account → Account
assign p a = record a { lga_id = or_kept p.lga_id a.lga_id; ward_id = or_kept p.ward_id a.ward_id }

-- The transaction of `updateAssignment`, with the foreign keys.
unfoldable pub assign_in : Draw → Uuid → Assignment → Body AccountTables Account
assign_in draw id p t =
    if assigns_nothing p
    then (err (conflict "no changes specified"), t)
    else elim (account_of id t) [
      | none ↦ (err (not_found "user not found"), t)
      | some a ↦
          if is_known (or_kept p.lga_id none) t.lgas && is_known (or_kept p.ward_id none) t.wards
          then update_account draw id (assign p) t
          else (err (database foreign_key), t)
    ]

-- `updateAssignment`
unfoldable pub update_assignment :
    Primitives
    → (Uuid → String)
    → Draw
    → RlsContext
    → Uuid
    → Assignment
    → Option Uuid
    → Handler AccountTables UserView
update_assignment prims uuid_text draw actor id patch request_id = as_director actor (
    audited
      (λ row.
        event_by draw actor "users.assignment_changed" "users" row.id
          (("lga_id", id_or_null uuid_text row.lga_id)
            ∷ ("ward_id", id_or_null uuid_text row.ward_id)
            ∷ [])
          request_id)
      (view_from_row prims) (transact (assign_in draw id patch)))

-- The status that `setStatus` sets: suspended or active.
abbrev pub new_status : Bool → UserStatus
new_status true = suspended
new_status false = active

abbrev pub status_event : Bool → String
status_event true = "users.suspended"
status_event false = "users.reactivated"

abbrev pub status_text : Bool → String
status_text true = "suspended"
status_text false = "active"

-- `setStatus`
unfoldable pub set_status :
    Primitives → Draw → RlsContext → Uuid → Bool → Option Uuid → Handler AccountTables UserView
set_status prims draw actor id is_suspended request_id = as_director actor (
    audited
      (λ row.
        event_by draw actor (status_event is_suspended) "users" row.id
          (("status", str (status_text is_suspended)) ∷ []) request_id)
      (view_from_row prims)
      (transact (update_account draw id (λ a. record a { status = new_status is_suspended }))))

-- `softDelete`
unfoldable pub soft_delete :
    Draw → RlsContext → Uuid → Option Uuid → Handler AccountTables (Unit {0})
soft_delete draw actor id request_id = as_director actor (
    audited (λ row. event_by draw actor "users.deleted" "users" id [] request_id) (λ _. tt)
      (transact
        (update_account draw id (λ a. record a { status = deleted; deleted_at = some draw.now }))))

abbrev viewed : Primitives → {T : Type 0} → Option Account → T → Result UserView × T
viewed prims none t = (err (not_found "user not found"), t)
viewed prims (some a) t = (ok (view_from_row prims a), t)

-- `getById`: a row that the policy hides is not found.
unfoldable pub get_by_id : Primitives → RlsContext → Uuid → Handler AccountTables UserView
get_by_id prims actor id =
    transact
      (λ t. viewed prims (find (λ a. is_account id a && account_visible actor a) t.accounts) t)
