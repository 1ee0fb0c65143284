-- ===== src/Users/Tests.antt =====
-- Concrete accounts, on which the theorems about users, enrolment and sign-in are applied.
use wdc_backend.Prelude.{
  String, ◌≡◌, refl, true, false, not, ◌&&◌, none, some, List, [], ◌∷◌, str_eq,
}
use wdc_backend.Rls.{RlsContext, director, secretary}
use wdc_backend.Database.{ok, err, unauthorized}
use wdc_backend.Handler.{Draw, World, transact, audited}
use wdc_backend.Auth.Tokens.{
  active, deleted, issue_pair, insert_refresh_token, new_token, token_pair,
}
use wdc_backend.Auth.Tests.{a_config, first_draws, the_pair}
use wdc_backend.Auth.SignIn.{SignInDraw, MobileArgs, decoy_hash, sign_in_mobile, admit}
use wdc_backend.Auth.SignIn.Laws.{MobileDone, sign_in_mobile-ok}
use wdc_backend.Auth.Enrolment.{
  CredentialArgs, set_credentials, redeem, enrol_mobile, store_credentials,
}
use wdc_backend.Users.{Account, AccountTables, Primitives}
use wdc_backend.Users.Phone.{normalise_phone, is_e164, strip, is_space, normalise_phone_idem}
use wdc_backend.Users.Sound.{IsSound}
use wdc_backend.Users.Sound.Runs.{
  AccountCall, status_call, redeem_call, run_account_calls, run_account_calls-IsSound,
}
use wdc_backend.Users.Sound.Once.{set_credentials-once}
use wdc_backend.Users.Sound.Locked.{sign_in_mobile-locked}

abbrev plain : Primitives
plain = record {
  sha256 = λ s. s;
  encrypt = λ nonce s. s;
  decrypt = λ s. s;
  argon_hash = λ salt s. s;
  argon_verify = λ encoded s. not (str_eq encoded decoy_hash) && str_eq encoded s;
  totp_verify = λ secret token. str_eq secret token;
  decrypt_totp = λ s. none;
  trim = λ s. s;
  lower_case = λ s. s;
}

abbrev pub enrolled : Account
enrolled = record {
  id = 7;
  role = secretary;
  lga_id = some 9;
  ward_id = some 1;
  full_name_ciphertext = "Amina";
  phone_hash = "+2348012345678";
  phone_ciphertext = "+2348012345678";
  email_hash = none;
  email_ciphertext = none;
  pin_hash = some "4821";
  password_hash = none;
  totp_secret_ciphertext = none;
  status = active;
  enrolment_token_hash = none;
  enrolment_expires_at = none;
  deleted_at = none;
  created_at = 1000;
  updated_at = 1000;
}

abbrev pub invited : Account
invited = record enrolled {
  id = 8;
  phone_hash = "+2348087654321";
  phone_ciphertext = "+2348087654321";
  pin_hash = none;
  enrolment_token_hash = some "token";
  enrolment_expires_at = some 90000;
}

abbrev pub gone : Account
gone = record enrolled { status = deleted; deleted_at = some 5000 }

abbrev with_accounts : List Account → World AccountTables
with_accounts accounts = record {
  tables = record { lgas = 9 ∷ []; wards = 1 ∷ []; accounts = accounts; refresh_tokens = [] };
  audit = [];
}

normalise_phone_run : normalise_phone "0801 234-5678" ≡ some "+2348012345678"
unfolding normalise_phone strip is_space is_e164
normalise_phone_run = refl

normalise_phone_idem_example :
    (is_e164 "+2348012345678" ≡ true) × (normalise_phone "+2348012345678" ≡ some "+2348012345678")
normalise_phone_idem_example =
    normalise_phone_idem "0801 234-5678" "+2348012345678" normalise_phone_run

abbrev sign_in_draw : SignInDraw
sign_in_draw = record { now = 1000; logged_at = 1001; draws = first_draws }

abbrev mobile_args : MobileArgs
mobile_args = record {
  phone = "+2348012345678";
  pin = "4821";
  device_id = "phone";
  request_id = none;
}

sign_in_mobile_run :
    (sign_in_mobile plain a_config sign_in_draw mobile_args
      (with_accounts (enrolled ∷ invited ∷ [])))
    ≡ (
      ok the_pair,
      (sign_in_mobile plain a_config sign_in_draw mobile_args
          (with_accounts (enrolled ∷ invited ∷ []))).1,
    )
unfolding sign_in_mobile admit issue_pair insert_refresh_token new_token token_pair
sign_in_mobile_run = refl

sign_in_mobile-ok_example : MobileDone plain mobile_args (with_accounts (enrolled ∷ invited ∷ []))
sign_in_mobile-ok_example =
    sign_in_mobile-ok plain a_config sign_in_draw mobile_args
      (with_accounts (enrolled ∷ invited ∷ [])) _ the_pair (λ secret. refl) sign_in_mobile_run

two_accounts-IsSound : IsSound (with_accounts (enrolled ∷ invited ∷ [])).tables
two_accounts-IsSound = record {
  ids = (refl, (refl, tt));
  phones = (refl, (refl, tt));
  tokens = (refl, (refl, tt));
  marked = (refl, (refl, tt));
}

gone-IsSound : IsSound (with_accounts (gone ∷ invited ∷ [])).tables
gone-IsSound = record {
  ids = (refl, (refl, tt));
  phones = (refl, (refl, tt));
  tokens = (refl, (refl, tt));
  marked = (refl, (refl, tt));
}

abbrev pub a_director : RlsContext
a_director = record { user_id = some 5; role = director; lga_id = none; ward_id = none }

abbrev credentials : String → CredentialArgs
credentials pin = record {
  enrolment_token = "token";
  pin = some pin;
  password = none;
  totp_secret = none;
  totp = none;
  request_id = none;
  clock = 3;
}

abbrev a_draw : Draw
a_draw = record { id = 30; now = 7000; logged_at = 7001; append_fails = none }

abbrev account_calls : List (Draw × AccountCall)
account_calls =
    (a_draw, status_call a_director 7 false none) ∷ (a_draw, redeem_call (credentials "9999")) ∷ []

run_account_calls-IsSound_example :
    IsSound
      (run_account_calls plain
        (λ n. "id")
        account_calls
        (with_accounts (enrolled ∷ invited ∷ []))).tables
run_account_calls-IsSound_example =
    run_account_calls-IsSound plain (λ n. "id") account_calls
      (with_accounts (enrolled ∷ invited ∷ [])) two_accounts-IsSound

abbrev after_redemption : World AccountTables
after_redemption =
    (set_credentials plain a_draw (credentials "1234") (with_accounts (enrolled ∷ invited ∷ []))).1

set_credentials_run :
    set_credentials plain a_draw (credentials "1234") (with_accounts (enrolled ∷ invited ∷ []))
    ≡ (ok tt, after_redemption)
unfolding set_credentials transact audited redeem enrol_mobile store_credentials
set_credentials_run = refl

set_credentials-once_example :
    set_credentials plain a_draw (credentials "5678") after_redemption
    ≡ (err (unauthorized "enrolment token not recognised"), after_redemption)
set_credentials-once_example =
    set_credentials-once plain a_draw a_draw (credentials "1234") (credentials "5678")
      (with_accounts (enrolled ∷ invited ∷ [])) after_redemption two_accounts-IsSound
      set_credentials_run refl

sign_in_mobile-locked_example :
    (sign_in_mobile plain a_config sign_in_draw mobile_args
      (run_account_calls plain (λ n. "id") account_calls (with_accounts (gone ∷ invited ∷ [])))).0
    ≡ err (unauthorized "invalid credentials")
sign_in_mobile-locked_example =
    sign_in_mobile-locked plain (λ n. "id") account_calls a_config sign_in_draw mobile_args
      (with_accounts (gone ∷ invited ∷ [])) gone-IsSound refl
