-- ===== src/Auth/SignIn.antt =====
-- Sign-in, enrolment and sign-out (src/modules/auth/auth.service.ts). The look-ups run under the
-- system role, which every policy admits. The time of `Date.now()` is an argument.
pub mod Laws
use wdc_backend.Prelude.{
  ℕ, Uuid, Timestamp, String, Bool, true, false, not, ◌&&◌, ◌||◌, Option, none, some, List, [], ◌∷◌,
  ◌++◌, map, find, update_where, leb, ◌==◌, str_eq, is_empty, if◌then◌else◌,
}
use wdc_backend.Rls.{Role, director, system, same_role}
use wdc_backend.Report.Json.{Json, str, num, Object}
use wdc_backend.Database.{
  Result, ok, err, Error, unauthorized, bad_request, failure, AuditEventInput,
}
use wdc_backend.Handler.{Logged, World, Body, Handler, transact, audited}
use wdc_backend.Auth.Tokens.{
  UserStatus, active, suspended, deleted, UserRow, AuthStore, TokenPair, TokenConfig, Draws,
  IssueArgs, issue_pair, revoke_all_for_device,
}
use wdc_backend.Users.{Account, AccountTables, Primitives, is_present}
use wdc_backend.Users.Service.{same_text, enrols}

-- What the token service reads of the tables.
abbrev pub token_user : Account → UserRow
token_user a = record {
  id = a.id;
  role = a.role;
  lga_id = a.lga_id;
  ward_id = a.ward_id;
  status = a.status;
  deleted_at = a.deleted_at;
}

abbrev pub auth_store : AccountTables → AuthStore
auth_store t = record { users = map token_user t.accounts; refresh_tokens = t.refresh_tokens }

-- A call of the token service, on the tables of the accounts.
abbrev pub with_tokens :
    {A : Type 0} → World AccountTables → A × AuthStore → A × World AccountTables
with_tokens w (r, s) =
    (r, record w { tables = record w.tables { refresh_tokens = s.refresh_tokens } })

abbrev pub event_of : Timestamp → Option Uuid → Role → String → Object → Option Uuid → Logged
event_of logged_at user role kind payload request_id = record {
  occurred_at = logged_at;
  event = record {
    actor_user_id = user;
    actor_role = role;
    event_kind = kind;
    target_table = some "users";
    target_id = user;
    payload = payload;
    request_id = request_id;
  };
}

abbrev pub log : Logged → World AccountTables → World AccountTables
log e w = record w { audit = w.audit ++ (e ∷ []) }

-- `lookupOne`
abbrev pub lookup_one : (Account → Bool) → AccountTables → Option Account
lookup_one test t = find (λ a. test a && is_present a) t.accounts

abbrev pub id_of_user : Option Account → Option Uuid
id_of_user none = none
id_of_user (some a) = some a.id

abbrev pub is_active : UserStatus → Bool
is_active active = true
is_active _ = false

-- The hash that is verified for a user who is not there or has no hash.
abbrev pub decoy_hash : String
decoy_hash = "$argon2id$v=19$m=65536,t=3,p=1$ZGVjb3lzYWx0ZGVjb3k$decoy"

abbrev pub or_decoy : Option String → String
or_decoy none = decoy_hash
or_decoy (some hash) = hash

-- What a call reads and draws: its time, the time of its event, and the draws of the token.
pub record SignInDraw : Type 0 where
  pub now : Timestamp
  pub logged_at : Timestamp
  pub draws : Draws

abbrev pub then_log :
    (TokenPair → Logged)
    → Result TokenPair × World AccountTables
    → Result TokenPair × World AccountTables
then_log event (ok pair, w) = (ok pair, log (event pair) w)
then_log event (err e, w) = (err e, w)

-- The end of both flows for a user who is admitted: `issuePair` and the event.
unfoldable pub admit :
    TokenConfig
    → SignInDraw
    → String
    → Account
    → String
    → Option Uuid
    → Handler AccountTables TokenPair
admit config d kind user device_id request_id w =
    then_log
      (λ pair.
        event_of d.logged_at (some user.id) user.role kind (("device_id", str device_id) ∷ [])
          request_id)
      (with_tokens w (
        issue_pair config d.now d.draws
          (record {
            user_id = user.id;
            role = user.role;
            lga_id = user.lga_id;
            ward_id = user.ward_id;
            device_id = device_id;
          })
          (auth_store w.tables)))

-- The end of both flows for anyone else: the event with the reason, and one message for all.
unfoldable pub refuse :
    SignInDraw → String → Option Account → String → Option Uuid → Handler AccountTables TokenPair
refuse d kind user reason request_id w = (
  err (unauthorized "invalid credentials"),
  log (event_of d.logged_at (id_of_user user) system kind (("reason", str reason) ∷ []) request_id)
      w,
)

pub record MobileArgs : Type 0 where
  pub phone : String
  pub pin : String
  pub device_id : String
  pub request_id : Option Uuid

abbrev pub pin_matches : Primitives → Account → String → Bool
pin_matches prims user pin = prims.argon_verify (or_decoy user.pin_hash) pin

-- `signInMobile`
unfoldable pub sign_in_mobile :
    Primitives → TokenConfig → SignInDraw → MobileArgs → Handler AccountTables TokenPair
sign_in_mobile prims config d args w =
    let failed : String = "auth.sign_in.mobile.failed" in
    elim (lookup_one (λ a. str_eq a.phone_hash (prims.sha256 args.phone)) w.tables) [
      | none ↦ refuse d failed none "no_user" args.request_id w
      | some user ↦
          if not (pin_matches prims user args.pin)
          then refuse d failed (some user) "bad_pin" args.request_id w
          else (if not (is_active user.status)
              then refuse d failed (some user) "inactive" args.request_id w
              else admit config d "auth.sign_in.mobile.ok" user args.device_id args.request_id w)
    ]

pub record ConsoleArgs : Type 0 where
  pub email : String
  pub password : String
  pub totp : String
  pub device_id : String
  pub request_id : Option Uuid

-- Whether the one-time password fits the user's secret; the error when it cannot be decrypted.
unfoldable pub totp_matches : Primitives → Account → String → Result Bool
totp_matches prims user token = elim user.totp_secret_ciphertext [
  | none ↦ ok false
  | some ciphertext ↦ elim (prims.decrypt_totp ciphertext) [
    | none ↦ err (failure "unrecognized configuration parameter \"app.totp_dek\"")
    | some secret ↦ ok (prims.totp_verify secret token)
  ]
]

-- The reason for which a user is refused, if there is one.
abbrev pub console_reason : Primitives → Account → String → Bool → Option String
console_reason prims user password totp_ok =
    if not (prims.argon_verify (or_decoy user.password_hash) password)
    then some "bad_password"
    else (if not totp_ok
        then some "bad_totp"
        else (if not (same_role user.role director)
            then some "wrong_role"
            else (if is_active user.status then none else some "inactive")))

-- `signInConsole`
unfoldable pub sign_in_console :
    Primitives → TokenConfig → SignInDraw → ConsoleArgs → Handler AccountTables TokenPair
sign_in_console prims config d args w =
    let failed : String = "auth.sign_in.console.failed" in
    let email_hash = prims.sha256 (prims.lower_case args.email) in
    elim (lookup_one (λ a. same_text a.email_hash email_hash) w.tables) [
      | none ↦ refuse d failed none "no_user" args.request_id w
      | some user ↦ elim (totp_matches prims user args.totp) [
        | err e ↦ (err e, w)
        | ok totp_ok ↦ elim (console_reason prims user args.password totp_ok) [
          | some reason ↦ refuse d failed (some user) reason args.request_id w
          | none ↦ admit config d "auth.sign_in.console.ok" user args.device_id args.request_id w
        ]
      ]
    ]

-- `signOut`, with the number of rows as a text in the payload.
unfoldable pub sign_out :
    (ℕ → String) → SignInDraw → Uuid → Role → String → Option Uuid → Handler AccountTables ℕ
sign_out text_of d user_id role device_id request_id w =
    let (revoked, w') =
      with_tokens w (revoke_all_for_device d.now user_id device_id (auth_store w.tables)) in
    (
      ok revoked,
      log
          (event_of d.logged_at (some user_id) role "auth.sign_out"
            (("device_id", str device_id) ∷ ("revoked", num (text_of revoked)) ∷ []) request_id)
          w',
    )
