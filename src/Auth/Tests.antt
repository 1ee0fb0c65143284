-- ===== src/Auth/Tests.antt =====
-- Concrete tokens, on which the theorems about tokens are applied.
use Prim.Native.String
use wdc_backend.Prelude.{◌≡◌, refl, false, none, some, List, [], ◌∷◌, any, arith}
use wdc_backend.Rls.{secretary}
use wdc_backend.Database.{ok, err, unauthorized}
use wdc_backend.Auth.Tokens.{
  UserStatus, AuthStore, RefreshTokenRow, TokenConfig, Draws, RotateArgs, TokenPair, in_chain,
  insert_refresh_token, new_token, token_pair, rotate_live, rotate, revoke,
}
use wdc_backend.Auth.Tokens.Revocation.{
  AuthCall, rotate_call, revoke_call, is_ok, run_auth, run_auth-refused,
}
use wdc_backend.Auth.Tokens.Rotation.{RotationDone, rotate-ok, rotate-reused}

abbrev pub a_config : TokenConfig
a_config = record {
  hash_refresh = λ token. String.◌++◌ "h:" token;
  sign_access = λ claims. "signed";
  access_ttl_ms = 900000;
  refresh_ttl_ms = 2592000000;
}

abbrev the_token : RefreshTokenRow
the_token = record {
  id = 1;
  user_id = 7;
  device_id = "phone";
  token_hash = "h:one";
  expires_at = 5000;
  revoked_at = none;
  rotated_from_id = none;
}

abbrev with_token : AuthStore
with_token = record {
  users =
      record {
        id = 7;
        role = secretary;
        lga_id = some 9;
        ward_id = some 1;
        status = UserStatus.active;
        deleted_at = none;
      }
      ∷ [];
  refresh_tokens = the_token ∷ [];
}

abbrev revoked_token : AuthStore
revoked_token = record with_token { refresh_tokens = revoke 900 the_token ∷ [] }

abbrev presented : RotateArgs
presented = record { presented_token = "one"; device_id = "phone" }

abbrev pub first_draws : Draws
first_draws = record { token = "two"; id = 2; jti = 31 }

abbrev second_draws : Draws
second_draws = record { token = "three"; id = 3; jti = 32 }

abbrev pub the_pair : TokenPair
the_pair = record {
  access_token = "signed";
  access_expires_in = 900;
  refresh_token = "two";
  refresh_expires_at = 2592001000;
}

abbrev after_rotation : AuthStore
after_rotation = record with_token {
  refresh_tokens =
      revoke 1000 the_token
      ∷ record {
        id = 2;
        user_id = 7;
        device_id = "phone";
        token_hash = "h:two";
        expires_at = 2592001000;
        revoked_at = none;
        rotated_from_id = some 1;
      }
      ∷ [];
}

rotate_run : rotate a_config 1000 first_draws presented with_token ≡ (ok the_pair, after_rotation)
unfolding rotate rotate_live insert_refresh_token new_token token_pair
rotate_run = refl

rotate-ok_example :
    RotationDone a_config 1000 first_draws presented with_token the_pair after_rotation
rotate-ok_example =
    rotate-ok a_config 1000 first_draws presented with_token after_rotation the_pair rotate_run

rotate-reused_example :
    ((rotate a_config 1100 second_draws presented after_rotation).0
      ≡ err (unauthorized "refresh token reused — chain revoked"))
    × (any
          (in_chain 7 "phone")
          (rotate a_config 1100 second_draws presented after_rotation).1.refresh_tokens
        ≡ false)
rotate-reused_example =
    rotate-reused a_config 1000 1100 first_draws second_draws presented with_token after_rotation
      the_pair the_token rotate_run refl (omega arith)

abbrev later_calls : List AuthCall
later_calls = revoke_call 1000 7 "phone" ∷ rotate_call 1001 first_draws presented ∷ []

run_auth-refused_example :
    is_ok
      (rotate a_config 2000 second_draws presented (run_auth a_config later_calls revoked_token)).0
    ≡ false
run_auth-refused_example =
    run_auth-refused a_config later_calls 2000 second_draws presented revoked_token refl
