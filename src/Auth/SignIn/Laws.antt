-- ===== src/Auth/SignIn/Laws.antt =====
-- Who signs in.
use wdc_backend.Prelude.{
  Uuid, String, ◌≡◌, ◌≢◌, refl, Bool, true, false, ◌&&◌, Option, none, some, str_eq, arith,
  Bool-cases, Option-cases, inl, inr, find-true,
}
use wdc_backend.Database.{ok}
use wdc_backend.Handler.{World}
use wdc_backend.Auth.Tokens.{UserStatus, active, TokenPair, TokenConfig}
use wdc_backend.Users.{Account, AccountTables, Primitives, is_present}
use wdc_backend.Auth.SignIn.{
  SignInDraw, MobileArgs, lookup_one, is_active, decoy_hash, or_decoy, pin_matches, refuse,
  sign_in_mobile,
}

-- The decoy is no hash that Argon2 made: nothing verifies against it.
abbrev pub IsDecoy : Primitives → Type 0
IsDecoy prims = (secret : String) → prims.argon_verify decoy_hash secret ≡ false

-- An account that may sign in: the first that is present and passes the test, and it is active.
abbrev MaySignIn : (Account → Bool) → World AccountTables → Account → Type 0
MaySignIn test w a =
    (lookup_one test w.tables ≡ some a)
    × (test a ≡ true)
    × (is_present a ≡ true)
    × (a.status ≡ active)

-- Who a mobile sign-in admits.
abbrev pub MobileDone : Primitives → MobileArgs → World AccountTables → Type 0
MobileDone prims args w =
    (a : Account) × MaySignIn (λ x. str_eq x.phone_hash (prims.sha256 args.phone)) w a
    × ((hash : String) × (a.pin_hash ≡ some hash) × (prims.argon_verify hash args.pin ≡ true))

active_status : (s : UserStatus) → is_active s ≡ true → s ≡ active
active_status s h = ground arith

may_sign_in :
    (test : Account → Bool) (w : World AccountTables) (a : Account)
    → lookup_one test w.tables ≡ some a
    → is_active a.status ≡ true
    → MaySignIn test w a
may_sign_in test w a h on =
    let both : (test a && is_present a) ≡ true =
      find-true (λ x. test x && is_present x) w.tables.accounts h in
    (h, ground arith, ground arith, active_status a.status on)

real_hash :
    (prims : Primitives) (stored : Option String) (secret : String)
    → IsDecoy prims
    → prims.argon_verify (or_decoy stored) secret ≡ true
    → (hash : String) × (stored ≡ some hash) × (prims.argon_verify hash secret ≡ true)
real_hash prims none secret decoy h = absurd (ground (arith, decoy secret))
real_hash prims (some hash) secret decoy h = (hash, refl, h)

refuse-err :
    (d : SignInDraw) (kind : String) (user : Option Account) (reason : String)
    (request_id : Option Uuid) (w w' : World AccountTables) (pair : TokenPair)
    → refuse d kind user reason request_id w ≢ (ok pair, w')
unfolding refuse
refuse-err d kind user reason request_id w w' pair h = ground arith

-- A mobile sign-in that returns tokens was made with the phone of a user who is present and active,
-- who has a pin, and with that pin; nothing being verified against the decoy.
pub sign_in_mobile-ok :
    (prims : Primitives) (config : TokenConfig) (d : SignInDraw) (args : MobileArgs)
    (w w' : World AccountTables) (pair : TokenPair)
    → IsDecoy prims
    → sign_in_mobile prims config d args w ≡ (ok pair, w')
    → MobileDone prims args w
unfolding sign_in_mobile
sign_in_mobile-ok prims config d args w w' pair decoy h =
    let test : Account → Bool = λ x. str_eq x.phone_hash (prims.sha256 args.phone) in
    let failed : String = "auth.sign_in.mobile.failed" in
    elim (Option-cases (lookup_one test w.tables)) [
      | inl nobody ↦
          absurd (ground (arith, refuse-err d failed none "no_user" args.request_id w w' pair))
      | inr (a, there) ↦ elim (Bool-cases (pin_matches prims a args.pin)) [
        | inr wrong ↦
            absurd
              (ground (arith, refuse-err d failed (some a) "bad_pin" args.request_id w w' pair))
        | inl right ↦ elim (Bool-cases (is_active a.status)) [
          | inr off ↦
              absurd
                (ground (arith, refuse-err d failed (some a) "inactive" args.request_id w w' pair))
          | inl on ↦
              (a, may_sign_in test w a there on, real_hash prims a.pin_hash args.pin decoy right)
        ]
      ]
    ]
