-- ===== src/Auth/Tokens.antt =====
-- Refresh tokens (src/modules/auth/token.service.ts; the tables `users` and `refresh_tokens` of
-- src/infra/postgres/schema/users.ts). All of it runs under the system role, which every policy
-- admits. The hash and the signature are parameters.
pub mod Rotation
pub mod Revocation
use wdc_backend.Prelude.{
  ℕ, Uuid, Timestamp, String, Bool, true, false, not, ◌&&◌, ◌+◌, ◌/◌, ◌⊎◌, inl, inr, Option, none,
  some, List, [], ◌∷◌, ◌++◌, find, any, select, length, update_where, ◌==◌, str_eq, leb,
  if◌then◌else◌,
}
use wdc_backend.Rls.{Role, JwtPayload}
use wdc_backend.Database.{
  Result, ok, err, Error, unauthorized, database, duplicate_key, foreign_key,
}

pub data UserStatus : Type 0 where
  active suspended deleted : UserStatus

pub record UserRow : Type 0 where
  pub id : Uuid
  pub role : Role
  pub lga_id : Option Uuid
  pub ward_id : Option Uuid
  pub status : UserStatus
  pub deleted_at : Option Timestamp

pub record RefreshTokenRow : Type 0 where
  pub id : Uuid
  pub user_id : Uuid
  pub device_id : String
  pub token_hash : String
  pub expires_at : Timestamp
  pub revoked_at : Option Timestamp
  pub rotated_from_id : Option Uuid

pub record AuthStore : Type 0 where
  pub users : List UserRow
  pub refresh_tokens : List RefreshTokenRow

pub record TokenPair : Type 0 where
  pub access_token : String
  pub access_expires_in : ℕ
  pub refresh_token : String
  pub refresh_expires_at : Timestamp

-- The random values that one call draws: the new token, its row's id, and the id of the claims.
pub record Draws : Type 0 where
  pub token : String
  pub id : Uuid
  pub jti : Uuid

-- The collaborators: `sha256` in hexadecimal, the signature of claims, and the two lifetimes in
-- milliseconds, parsed from the configuration.
pub record TokenConfig : Type 0 where
  pub hash_refresh : String → String
  pub sign_access : JwtPayload → String
  pub access_ttl_ms : ℕ
  pub refresh_ttl_ms : ℕ

abbrev pub is_live : RefreshTokenRow → Bool
is_live t = elim t.revoked_at [ none ↦ true | some _ ↦ false ]

-- `INSERT INTO refresh_tokens`, with its reference to a user and its unique keys.
unfoldable pub insert_refresh_token : RefreshTokenRow → AuthStore → Result (Unit {0}) × AuthStore
insert_refresh_token row s =
    if not (any (λ u. u.id == row.user_id) s.users)
    then (err (database foreign_key), s)
    else (if any (λ t. str_eq t.token_hash row.token_hash) s.refresh_tokens
        then (err (database duplicate_key), s)
        else (if any (λ t. t.id == row.id) s.refresh_tokens
            then (err (database duplicate_key), s)
            else (ok tt, record s { refresh_tokens = s.refresh_tokens ++ (row ∷ []) })))

pub record IssueArgs : Type 0 where
  pub user_id : Uuid
  pub role : Role
  pub lga_id : Option Uuid
  pub ward_id : Option Uuid
  pub device_id : String

unfoldable pub token_pair : TokenConfig → Timestamp → Draws → JwtPayload → TokenPair
token_pair config now draws claims = record {
  access_token = config.sign_access claims;
  access_expires_in = config.access_ttl_ms / 1000;
  refresh_token = draws.token;
  refresh_expires_at = now + config.refresh_ttl_ms;
}

unfoldable pub new_token :
    TokenConfig → Timestamp → Draws → Uuid → String → Option Uuid → RefreshTokenRow
new_token config now draws user_id device_id from = record {
  id = draws.id;
  user_id = user_id;
  device_id = device_id;
  token_hash = config.hash_refresh draws.token;
  expires_at = now + config.refresh_ttl_ms;
  revoked_at = none;
  rotated_from_id = from;
}

-- `issuePair`
unfoldable pub issue_pair :
    TokenConfig → Timestamp → Draws → IssueArgs → AuthStore → Result TokenPair × AuthStore
issue_pair config now draws args s =
    let (r, s') =
      insert_refresh_token (new_token config now draws args.user_id args.device_id none) s in
    elim r [
      | err e ↦ (err e, s)
      | ok _ ↦ (
        ok (
            token_pair config now draws (record {
              sub = args.user_id;
              role = args.role;
              lga = args.lga_id;
              ward = args.ward_id;
              jti = draws.jti;
            })),
        s',
      )
    ]

pub record RotateArgs : Type 0 where
  pub presented_token : String
  pub device_id : String

-- A row of the device's chain that is still live.
abbrev pub in_chain : Uuid → String → RefreshTokenRow → Bool
in_chain user_id device_id t = (t.user_id == user_id && str_eq t.device_id device_id) && is_live t

abbrev pub revoke : Timestamp → RefreshTokenRow → RefreshTokenRow
revoke now t = record t { revoked_at = some now }

-- `revokeAllForDevice`, with the number of rows.
unfoldable pub revoke_all_for_device : Timestamp → Uuid → String → AuthStore → ℕ × AuthStore
revoke_all_for_device now user_id device_id s = (
  length (select (in_chain user_id device_id) s.refresh_tokens),
  record s {
    refresh_tokens = update_where (in_chain user_id device_id) (revoke now) s.refresh_tokens;
  },
)

abbrev pub token_of : TokenConfig → String → AuthStore → Option RefreshTokenRow
token_of config presented s =
    find (λ t. str_eq t.token_hash (config.hash_refresh presented)) s.refresh_tokens

-- The rest of the transaction of `rotate`, for a token that is known, of this device, and neither
-- expired nor revoked.
unfoldable pub rotate_live :
    TokenConfig → Timestamp → Draws → RefreshTokenRow → AuthStore → Result TokenPair × AuthStore
rotate_live config now draws tok s = elim (find (λ u. u.id == tok.user_id) s.users) [
  | none ↦ (err (unauthorized "user no longer exists"), s)
  | some user ↦
      let revoked = record s {
        refresh_tokens = update_where (λ t. t.id == tok.id) (revoke now) s.refresh_tokens;
      } in
      let (r, s') =
        insert_refresh_token (new_token config now draws tok.user_id tok.device_id (some tok.id))
          revoked in
      elim r [
        | err e ↦ (err e, s)
        | ok _ ↦ (
          ok (
              token_pair config now draws (record {
                sub = tok.user_id;
                role = user.role;
                lga = user.lga_id;
                ward = user.ward_id;
                jti = draws.jti;
              })),
          s',
        )
      ]
]

-- `rotate`: the transaction, and after a revoked token the one that revokes the device's chain.
unfoldable pub rotate :
    TokenConfig → Timestamp → Draws → RotateArgs → AuthStore → Result TokenPair × AuthStore
rotate config now draws args s = elim (token_of config args.presented_token s) [
  | none ↦ (err (unauthorized "refresh token not recognised"), s)
  | some tok ↦
      if not (str_eq tok.device_id args.device_id)
      then (err (unauthorized "refresh token / device mismatch"), s)
      else (if leb tok.expires_at now
          then (err (unauthorized "refresh token expired"), s)
          else (if not (is_live tok)
              then (
                err (unauthorized "refresh token reused — chain revoked"),
                (revoke_all_for_device now tok.user_id tok.device_id s).1,
              )
              else rotate_live config now draws tok s))
]
