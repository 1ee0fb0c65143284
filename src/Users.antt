-- ===== src/Users.antt =====
-- The accounts of users (src/modules/users/users.service.ts, src/common/crypto, and the table
-- `users` of src/infra/postgres/schema/users.ts with its constraints in drizzle/0001_init.sql and
-- drizzle/0004_enrolment_tokens.sql).
pub mod Phone
pub mod Service
pub mod Pages
pub mod Sound
pub mod Tests
use wdc_backend.Prelude.{
  ℕ, ◌/◌, Uuid, Timestamp, String, Bool, true, false, ◌&&◌, Option, none, some, List, ◌==◌,
}
use wdc_backend.Rls.{Role, secretary, coordinator, director, system, RlsContext, is_current}
use wdc_backend.Auth.Tokens.{UserStatus, RefreshTokenRow}

-- Digests, ciphertexts and encoded hashes are texts. Times of columns are in microseconds, but the
-- time at which an enrolment expires is in milliseconds, as the code sets it.
pub record Account : Type 0 where
  pub id : Uuid
  pub role : Role
  pub lga_id : Option Uuid
  pub ward_id : Option Uuid
  pub full_name_ciphertext : String
  pub phone_hash : String
  pub phone_ciphertext : String
  pub email_hash : Option String
  pub email_ciphertext : Option String
  pub pin_hash : Option String
  pub password_hash : Option String
  pub totp_secret_ciphertext : Option String
  pub status : UserStatus
  pub enrolment_token_hash : Option String
  pub enrolment_expires_at : Option Timestamp
  pub deleted_at : Option Timestamp
  pub created_at : Timestamp
  pub updated_at : Timestamp

-- `lgas` and `wards` hold the ids that the foreign keys refer to.
pub record AccountTables : Type 0 where
  pub lgas : List Uuid
  pub wards : List Uuid
  pub accounts : List Account
  pub refresh_tokens : List RefreshTokenRow

-- Node's SHA-256, pgcrypto and Argon2 with the nonce or salt that a call draws, one-time passwords,
-- and the methods `trim` and `toLowerCase`. The secret of a one-time password is decrypted under a
-- setting of its own, which may be missing.
pub record Primitives : Type 0 where
  pub sha256 : String → String
  pub encrypt : ℕ → String → String
  pub decrypt : String → String
  pub argon_hash : ℕ → String → String
  pub argon_verify : String → String → Bool
  pub totp_verify : String → String → Bool
  pub decrypt_totp : String → Option String
  pub trim : String → String
  pub lower_case : String → String

pub record UserView : Type 0 where
  pub id : Uuid
  pub role : Role
  pub full_name : String
  pub phone : String
  pub email : Option String
  pub lga_id : Option Uuid
  pub ward_id : Option Uuid
  pub status : UserStatus
  pub created_at : Timestamp
  pub updated_at : Timestamp

-- `viewFromRow`
unfoldable pub view_from_row : Primitives → Account → UserView
view_from_row prims row = record {
  id = row.id;
  role = row.role;
  full_name = prims.decrypt row.full_name_ciphertext;
  phone = prims.decrypt row.phone_ciphertext;
  email = elim row.email_ciphertext [ none ↦ none | some ct ↦ some (prims.decrypt ct) ];
  lga_id = row.lga_id;
  ward_id = row.ward_id;
  status = row.status;
  created_at = row.created_at / 1000;
  updated_at = row.updated_at / 1000;
}

-- `materialiseView`
unfoldable pub materialise_view : Primitives → String → Option String → Account → UserView
unfolding view_from_row
materialise_view prims phone_e164 email row = record (view_from_row prims row) {
  phone = phone_e164;
  email = email;
}

abbrev pub is_present : Account → Bool
is_present a = elim a.deleted_at [ none ↦ true | some _ ↦ false ]

abbrev pub equals_option : Option Uuid → Option Uuid → Bool
equals_option none current = false
equals_option (some id) current = is_current id current

-- The policy `users_select`.
unfoldable pub account_visible : RlsContext → Account → Bool
account_visible ctx a = elim ctx.role [
  | system ↦ true
  | director ↦ true
  | coordinator ↦ equals_option a.lga_id ctx.lga_id
  | secretary ↦ is_current a.id ctx.user_id
]
