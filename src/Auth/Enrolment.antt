-- ===== src/Auth/Enrolment.antt =====
-- `setCredentials`, the redemption of an enrolment token (src/modules/auth/auth.service.ts).
use wdc_backend.Prelude.{
  Uuid, Timestamp, String, not, ◌&&◌, Option, none, some, [], ◌∷◌, find, update_where, leb, ◌==◌,
  is_empty, if◌then◌else◌,
}
use wdc_backend.Rls.{Role, director, same_role}
use wdc_backend.Report.Json.{str}
use wdc_backend.Database.{Result, ok, err, unauthorized, bad_request, failure}
use wdc_backend.Handler.{Draw, Body, Handler, transact, audited}
use wdc_backend.Users.{Account, AccountTables, Primitives, is_present}
use wdc_backend.Users.Service.{enrols}
use wdc_backend.Auth.SignIn.{event_of}

-- `clock` is the time of `Date.now()`, in milliseconds.
pub record CredentialArgs : Type 0 where
  pub enrolment_token : String
  pub pin : Option String
  pub password : Option String
  pub totp_secret : Option String
  pub totp : Option String
  pub request_id : Option Uuid
  pub clock : Timestamp

-- A field that is absent or the empty text is missing.
abbrev pub filled : Option String → Option String
filled none = none
filled (some s) = if is_empty s then none else some s

-- `UPDATE users SET … WHERE id = …`, which clears the token; a trigger sets `updated_at`.
unfoldable pub store_credentials : Draw → Uuid → (Account → Account) → AccountTables → AccountTables
store_credentials draw id set t = record t {
  accounts =
      update_where (λ a. a.id == id)
        (λ a. record (set a) {
          enrolment_token_hash = none;
          enrolment_expires_at = none;
          updated_at = draw.now;
        })
        t.accounts;
}

abbrev pub set_console : Primitives → Draw → String → String → Account → Account
set_console prims draw password secret a = record a {
  password_hash = some (prims.argon_hash draw.id password);
  totp_secret_ciphertext = some (prims.encrypt draw.id secret);
  pin_hash = none;
}

abbrev pub set_pin : Primitives → Draw → String → Account → Account
set_pin prims draw pin a = record a { pin_hash = some (prims.argon_hash draw.id pin) }

-- A director: password, secret, and the proof of the secret.
unfoldable pub enrol_director :
    Primitives → Draw → CredentialArgs → Account → Body AccountTables Account
enrol_director prims draw args user t =
    let missing : Result Account × AccountTables =
      (err (bad_request "password, totpSecret and totp are required for director enrolment"), t) in
    elim (filled args.password) [
      | none ↦ missing
      | some password ↦ elim (filled args.totp_secret) [
        | none ↦ missing
        | some secret ↦ elim (filled args.totp) [
          | none ↦ missing
          | some totp ↦
              if not (prims.totp_verify secret totp)
              then (err (bad_request "totp proof did not validate against the secret"), t)
              else (
                ok user,
                store_credentials draw user.id (set_console prims draw password secret) t,
              )
        ]
      ]
    ]

-- Anyone else: a pin.
unfoldable pub enrol_mobile :
    Primitives → Draw → CredentialArgs → Account → Body AccountTables Account
enrol_mobile prims draw args user t = elim (filled args.pin) [
  | none ↦ (err (bad_request "pin is required for mobile enrolment"), t)
  | some pin ↦ (ok user, store_credentials draw user.id (set_pin prims draw pin) t)
]

abbrev pub enrolled_by : Primitives → String → AccountTables → Option Account
enrolled_by prims token t = find (λ a. enrols a (prims.sha256 token) && is_present a) t.accounts

-- The transaction. A row with a token and no time of expiry is an error of its own.
unfoldable pub redeem : Primitives → Draw → CredentialArgs → Body AccountTables Account
redeem prims draw args t = elim (enrolled_by prims args.enrolment_token t) [
  | none ↦ (err (unauthorized "enrolment token not recognised"), t)
  | some user ↦ elim user.enrolment_expires_at [
    | none ↦ (err (failure "Cannot read properties of null"), t)
    | some expires ↦
        if leb expires args.clock
        then (err (unauthorized "enrolment token expired"), t)
        else (if same_role user.role director
            then enrol_director prims draw args user t
            else enrol_mobile prims draw args user t)
  ]
]

abbrev pub method : Role → String
method director = "console"
method _ = "mobile"

-- `setCredentials`
unfoldable pub set_credentials :
    Primitives → Draw → CredentialArgs → Handler AccountTables (Unit {0})
set_credentials prims draw args =
    audited
      (λ user. record {
        logged =
            event_of draw.logged_at (some user.id) user.role "auth.enrolment.completed"
              (("method", str (method user.role)) ∷ []) args.request_id;
        fails = draw.append_fails;
      })
      (λ _. tt) (transact (redeem prims draw args))
