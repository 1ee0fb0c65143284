-- ===== src/Auth/Tokens/Revocation.antt =====
-- A revoked token stays revoked, whatever calls follow.
use wdc_backend.Prelude.{
  Uuid, Timestamp, String, ◌≡◌, Bool, true, false, not, none, some, List, [], ◌∷◌, ◌++◌, find,
  update_where, ◌==◌, str_eq, if◌then◌else◌, arith, Option-cases, inl, inr,
}
use wdc_backend.Database.{Result, ok, err}
use wdc_backend.Auth.Tokens.{
  RefreshTokenRow, AuthStore, Draws, TokenConfig, is_live, insert_refresh_token, IssueArgs,
  new_token, issue_pair, RotateArgs, in_chain, revoke, revoke_all_for_device, token_of, rotate_live,
  rotate,
}

-- The first row with this hash is there and revoked.
abbrev pub is_revoked : String → List RefreshTokenRow → Bool
is_revoked hash [] = false
is_revoked hash (t ∷ ts) = if str_eq t.token_hash hash then not (is_live t) else is_revoked hash ts

is_revoked-append :
    (hash : String) (ts more : List RefreshTokenRow)
    → is_revoked hash ts ≡ true
    → is_revoked hash (ts ++ more) ≡ true
is_revoked-append hash [] more h = cc
is_revoked-append hash (t ∷ ts) more h = ground (arith, is_revoked-append hash ts more)

is_revoked-update_where :
    (hash : String) (test : RefreshTokenRow → Bool) (now : Timestamp) (ts : List RefreshTokenRow)
    → is_revoked hash ts ≡ true
    → is_revoked hash (update_where test (revoke now) ts) ≡ true
is_revoked-update_where hash test now [] h = cc
is_revoked-update_where hash test now (t ∷ ts) h =
    ground (arith, is_revoked-update_where hash test now ts)

is_revoked-insert :
    (hash : String) (row : RefreshTokenRow) (s : AuthStore)
    → is_revoked hash s.refresh_tokens ≡ true
    → is_revoked hash (insert_refresh_token row s).1.refresh_tokens ≡ true
unfolding insert_refresh_token
is_revoked-insert hash row s h =
    ground (arith, is_revoked-append hash s.refresh_tokens (row ∷ []) h)

pub is_revoked_of_find :
    (hash : String) (ts : List RefreshTokenRow) {t : RefreshTokenRow}
    → find (λ x. str_eq x.token_hash hash) ts ≡ some t
    → is_revoked hash ts ≡ not (is_live t)
is_revoked_of_find hash [] h = cc
is_revoked_of_find hash (x ∷ ts) {t} h = ground (arith, is_revoked_of_find hash ts {t = t})

pub data AuthCall : Type 0 where
  issue_call : Timestamp → Draws → IssueArgs → AuthCall
  rotate_call : Timestamp → Draws → RotateArgs → AuthCall
  revoke_call : Timestamp → Uuid → String → AuthCall

unfoldable pub run_auth : TokenConfig → List AuthCall → AuthStore → AuthStore
run_auth config [] s = s
run_auth config (issue_call now draws args ∷ cs) s =
    run_auth config cs (issue_pair config now draws args s).1
run_auth config (rotate_call now draws args ∷ cs) s =
    run_auth config cs (rotate config now draws args s).1
run_auth config (revoke_call now user_id device_id ∷ cs) s =
    run_auth config cs (revoke_all_for_device now user_id device_id s).1

module _ (config : TokenConfig) (hash : String) where
  issue_pair-revoked :
      (now : Timestamp) (draws : Draws) (args : IssueArgs) (s : AuthStore)
      → is_revoked hash s.refresh_tokens ≡ true
      → is_revoked hash (issue_pair config now draws args s).1.refresh_tokens ≡ true
  unfolding issue_pair
  issue_pair-revoked now draws args s h = ground (
    arith,
    is_revoked-insert hash (new_token config now draws args.user_id args.device_id none) s h,
  )

  rotate_live-revoked :
      (now : Timestamp) (draws : Draws) (tok : RefreshTokenRow) (s : AuthStore)
      → is_revoked hash s.refresh_tokens ≡ true
      → is_revoked hash (rotate_live config now draws tok s).1.refresh_tokens ≡ true
  unfolding rotate_live
  rotate_live-revoked now draws tok s h =
      let s' : AuthStore = record s {
        refresh_tokens = update_where (λ t. t.id == tok.id) (revoke now) s.refresh_tokens;
      } in
      ground (
        arith,
        is_revoked-insert hash (new_token config now draws tok.user_id tok.device_id (some tok.id))
            s' (is_revoked-update_where hash (λ t. t.id == tok.id) now s.refresh_tokens h),
      )

  revoke_all-revoked :
      (now : Timestamp) (user_id : Uuid) (device_id : String) (s : AuthStore)
      → is_revoked hash s.refresh_tokens ≡ true
      → is_revoked hash (revoke_all_for_device now user_id device_id s).1.refresh_tokens ≡ true
  unfolding revoke_all_for_device
  revoke_all-revoked now user_id device_id s h =
      is_revoked-update_where hash (in_chain user_id device_id) now s.refresh_tokens h

  rotate-revoked :
      (now : Timestamp) (draws : Draws) (args : RotateArgs) (s : AuthStore)
      → is_revoked hash s.refresh_tokens ≡ true
      → is_revoked hash (rotate config now draws args s).1.refresh_tokens ≡ true
  unfolding rotate
  rotate-revoked now draws args s h = elim (Option-cases (token_of config args.presented_token s)) [
    | inl unknown ↦ ground arith
    | inr (tok, found) ↦ ground (
      arith,
      rotate_live-revoked now draws tok s h,
      revoke_all-revoked now tok.user_id tok.device_id s h,
    )
  ]

  run_auth-revoked :
      (calls : List AuthCall) (s : AuthStore)
      → is_revoked hash s.refresh_tokens ≡ true
      → is_revoked hash (run_auth config calls s).refresh_tokens ≡ true
  unfolding run_auth
  run_auth-revoked [] s h = h
  run_auth-revoked (issue_call now draws args ∷ cs) s h =
      run_auth-revoked cs _ (issue_pair-revoked now draws args s h)
  run_auth-revoked (rotate_call now draws args ∷ cs) s h =
      run_auth-revoked cs _ (rotate-revoked now draws args s h)
  run_auth-revoked (revoke_call now user_id device_id ∷ cs) s h =
      run_auth-revoked cs _ (revoke_all-revoked now user_id device_id s h)

abbrev pub is_ok : {A : Type 0} → Result A → Bool
is_ok (ok _) = true
is_ok (err _) = false

-- A presented token whose row is revoked is refused.
pub rotate-refused :
    (config : TokenConfig) (now : Timestamp) (draws : Draws) (args : RotateArgs) (s : AuthStore)
    → is_revoked (config.hash_refresh args.presented_token) s.refresh_tokens ≡ true
    → is_ok (rotate config now draws args s).0 ≡ false
unfolding rotate
rotate-refused config now draws args s h =
    elim (Option-cases (token_of config args.presented_token s)) [
      | inl unknown ↦ ground arith
      | inr (tok, found) ↦ ground (
        arith,
        is_revoked_of_find (config.hash_refresh args.presented_token) s.refresh_tokens {t = tok},
      )
    ]

-- A token that is revoked at some point is refused after every sequence of calls that issue,
-- rotate and revoke tokens.
pub run_auth-refused :
    (config : TokenConfig) (calls : List AuthCall) (now : Timestamp) (draws : Draws)
    (args : RotateArgs) (s : AuthStore)
    → is_revoked (config.hash_refresh args.presented_token) s.refresh_tokens ≡ true
    → is_ok (rotate config now draws args (run_auth config calls s)).0 ≡ false
run_auth-refused config calls now draws args s h =
    rotate-refused config now draws args (run_auth config calls s)
      (run_auth-revoked config (config.hash_refresh args.presented_token) calls s h)
