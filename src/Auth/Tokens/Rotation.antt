-- ===== src/Auth/Tokens/Rotation.antt =====
-- What a rotation does, and what the second use of one token does.
use wdc_backend.Prelude.{
  Uuid, Timestamp, String, ◌≡◌, ◌<◌, refl, Bool, true, false, some, List, [], ◌∷◌, ◌++◌, find, any,
  update_where, ◌==◌, str_eq, arith, eq_iff, Option-cases, inl, inr,
}
use wdc_backend.Rls.{JwtPayload}
use wdc_backend.Database.{ok, err, unauthorized}
use wdc_backend.Auth.Tokens.{
  UserRow, RefreshTokenRow, AuthStore, TokenPair, Draws, TokenConfig, is_live, insert_refresh_token,
  new_token, token_pair, RotateArgs, in_chain, revoke, revoke_all_for_device, token_of, rotate_live,
  rotate,
}

-- The claims of a rotated token: the user's role and scope as they are now.
abbrev pub claims_of : Draws → RefreshTokenRow → UserRow → JwtPayload
claims_of draws tok user = record {
  sub = tok.user_id;
  role = user.role;
  lga = user.lga_id;
  ward = user.ward_id;
  jti = draws.jti;
}

-- What a rotation has found and left.
abbrev pub RotationDone :
    TokenConfig → Timestamp → Draws → RotateArgs → AuthStore → TokenPair → AuthStore → Type 0
RotationDone config now draws args s p s' =
    (tok : RefreshTokenRow) × (user : UserRow) × (token_of config args.presented_token s ≡ some tok)
    × (tok.device_id ≡ args.device_id)
    × (now < tok.expires_at)
    × (is_live tok ≡ true)
    × (find (λ u. u.id == tok.user_id) s.users ≡ some user)
    × (p ≡ token_pair config now draws (claims_of draws tok user))
    × (any (λ t. str_eq t.token_hash (config.hash_refresh draws.token)) s.refresh_tokens ≡ false)
    × (s' ≡ record s {
      refresh_tokens =
          update_where (λ t. t.id == tok.id) (revoke now) s.refresh_tokens
          ++ (new_token config now draws tok.user_id tok.device_id (some tok.id) ∷ []);
    })

any-update_where :
    (hash : String) (test : RefreshTokenRow → Bool) (now : Timestamp) (ts : List RefreshTokenRow)
    → any (λ t. str_eq t.token_hash hash) (update_where test (revoke now) ts)
      ≡ any (λ t. str_eq t.token_hash hash) ts
any-update_where hash test now [] = refl
any-update_where hash test now (t ∷ ts) = ground (arith, any-update_where hash test now ts)

-- A rotation that returns was given a known, live, unexpired token of this device, and has left
-- the tables with its row revoked and one new row, whose hash was not there; the claims are of the
-- user's present role and scope.
pub rotate-ok :
    (config : TokenConfig) (now : Timestamp) (draws : Draws) (args : RotateArgs) (s s' : AuthStore)
    (p : TokenPair)
    → rotate config now draws args s ≡ (ok p, s')
    → RotationDone config now draws args s p s'
unfolding rotate rotate_live insert_refresh_token new_token
rotate-ok config now draws args s s' p h =
    elim (Option-cases (token_of config args.presented_token s)) [
      | inl unknown ↦ ground arith
      | inr (tok, found) ↦ elim (Option-cases (find (λ u. u.id == tok.user_id) s.users)) [
        | inl nobody ↦ ground arith
        | inr (user, known) ↦
            let same_hashes =
              any-update_where (config.hash_refresh draws.token) (λ t. t.id == tok.id) now
                s.refresh_tokens in
            (
              tok,
              user,
              found,
              ground (arith, eq_iff tok.device_id args.device_id),
              ground arith,
              ground arith,
              known,
              ground arith,
              ground (arith, same_hashes),
              ground arith,
            )
      ]
    ]

find-revoked :
    (hash : String) (now : Timestamp) (ts more : List RefreshTokenRow) {tok : RefreshTokenRow}
    → find (λ t. str_eq t.token_hash hash) ts ≡ some tok
    → find
        (λ t. str_eq t.token_hash hash)
        (update_where (λ t. t.id == tok.id) (revoke now) ts ++ more)
      ≡ some (revoke now tok)
find-revoked hash now [] more h = cc
find-revoked hash now (t ∷ ts) more {tok} h =
    ground (arith, find-revoked hash now ts more {tok = tok})

revoke_all-none_live :
    (now : Timestamp) (user_id : Uuid) (device_id : String) (ts : List RefreshTokenRow)
    → any (in_chain user_id device_id) (update_where (in_chain user_id device_id) (revoke now) ts)
      ≡ false
revoke_all-none_live now user_id device_id [] = refl
revoke_all-none_live now user_id device_id (t ∷ ts) =
    ground (arith, revoke_all-none_live now user_id device_id ts)

-- The token of a rotation that returned, presented again by the device before it expires, is
-- refused, and then no token of its user and device is live, the rotated one included.
pub rotate-reused :
    (config : TokenConfig) (now now' : Timestamp) (draws draws' : Draws) (args : RotateArgs)
    (s s' : AuthStore) (p : TokenPair) (tok : RefreshTokenRow)
    → rotate config now draws args s ≡ (ok p, s')
    → token_of config args.presented_token s ≡ some tok
    → now' < tok.expires_at
    → ((rotate config now' draws' args s').0
        ≡ err (unauthorized "refresh token reused — chain revoked"))
      × (any
            (in_chain tok.user_id tok.device_id)
            (rotate config now' draws' args s').1.refresh_tokens
          ≡ false)
unfolding rotate revoke_all_for_device
rotate-reused config now now' draws draws' args s s' p tok h known early =
    let (first, user, found, device, _, _, _, _, _, left) =
      rotate-ok config now draws args s s' p h in
    let same : first ≡ tok = cc in
    let again : token_of config args.presented_token s' ≡ some (revoke now tok) =
      rw (left, same)
        (find-revoked (config.hash_refresh args.presented_token) now s.refresh_tokens _ known) in
    let this_device : str_eq tok.device_id args.device_id ≡ true =
      (eq_iff tok.device_id args.device_id).1 (rw same at device) in
    (
      ground arith,
      ground (arith, revoke_all-none_live now' tok.user_id tok.device_id s'.refresh_tokens),
    )
