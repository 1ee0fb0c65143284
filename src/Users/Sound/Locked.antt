-- ===== src/Users/Sound/Locked.antt =====
-- The phone of a deleted account stays taken, and nobody signs in with it.
use wdc_backend.Prelude.{
  Uuid, String, ◌≡◌, refl, Bool, true, false, not, ◌&&◌, none, some, List, [], ◌∷◌, find, any,
  update_where, ◌==◌, str_eq, arith, Option-cases, Bool-cases, inl, inr, IsUnique, eq_iff, any-snoc,
  any-update_mono,
}
use wdc_backend.Database.{err, unauthorized}
use wdc_backend.Handler.{Draw, World}
use wdc_backend.Auth.Tokens.{deleted, TokenConfig}
use wdc_backend.Auth.SignIn.{SignInDraw, MobileArgs, sign_in_mobile, refuse, lookup_one}
use wdc_backend.Auth.Enrolment.{
  CredentialArgs, store_credentials, set_console, set_pin, enrol_director, enrol_mobile, redeem,
  enrolled_by,
}
use wdc_backend.Users.{Account, AccountTables, Primitives, is_present}
use wdc_backend.Users.Service.{
  CreateArgs, Assignment, insert_account, create_in, is_account, update_account, assign, assign_in,
  new_status,
}
use wdc_backend.Users.Sound.{IsSound, same_phone}
use wdc_backend.Users.Sound.Runs.{
  AccountCall, run_account_calls, run_account_calls-keeps, run_account_calls-IsSound,
}

-- A deleted account with this digest of a phone.
abbrev is_locked : String → Account → Bool
is_locked phone a = str_eq a.phone_hash phone && not (is_present a)

abbrev pub IsLocked : String → AccountTables → Type 0
IsLocked phone t = any (is_locked phone) t.accounts ≡ true

module _ (phone : String) where
  update_accounts-IsLocked :
      (test : Account → Bool) (set : Account → Account) (t : AccountTables)
      → ((a : Account) → is_locked phone a ≡ true → is_locked phone (set a) ≡ true)
      → IsLocked phone t
      → IsLocked phone (record t { accounts = update_where test set t.accounts })
  update_accounts-IsLocked test set t k h =
      any-update_mono (is_locked phone) test set t.accounts k h

  update_account-IsLocked :
      (draw : Draw) (id : Uuid) (set : Account → Account) (t : AccountTables)
      → ((a : Account) → is_locked phone a ≡ true → is_locked phone (set a) ≡ true)
      → IsLocked phone t
      → IsLocked phone (update_account draw id set t).1
  unfolding update_account
  update_account-IsLocked draw id set t k h =
      let after =
        update_accounts-IsLocked (is_account id) (λ a. record (set a) { updated_at = draw.now }) t k
          h in
      ground (arith, after)

  create_in-IsLocked :
      (prims : Primitives) (draw : Draw) (args : CreateArgs) (t : AccountTables)
      → IsLocked phone t
      → IsLocked phone (create_in prims draw args t).1
  unfolding create_in insert_account
  create_in-IsLocked prims draw args t h = grind (arith, any-snoc)

  assign_in-IsLocked :
      (draw : Draw) (id : Uuid) (patch : Assignment) (t : AccountTables)
      → IsLocked phone t
      → IsLocked phone (assign_in draw id patch t).1
  unfolding assign_in
  assign_in-IsLocked draw id patch t h =
      let after = update_account-IsLocked draw id (assign patch) t (λ a p. p) h in
      ground (arith, after)

  store_credentials-IsLocked :
      (draw : Draw) (id : Uuid) (set : Account → Account) (t : AccountTables)
      → ((a : Account) → is_locked phone a ≡ true → is_locked phone (set a) ≡ true)
      → IsLocked phone t
      → IsLocked phone (store_credentials draw id set t)
  unfolding store_credentials
  store_credentials-IsLocked draw id set t k h =
      update_accounts-IsLocked (λ a. a.id == id)
        (λ a. record (set a) {
          enrolment_token_hash = none;
          enrolment_expires_at = none;
          updated_at = draw.now;
        })
        t k h

  redeem-IsLocked :
      (prims : Primitives) (draw : Draw) (args : CredentialArgs) (t : AccountTables)
      → IsLocked phone t
      → IsLocked phone (redeem prims draw args t).1
  unfolding redeem enrol_director enrol_mobile
  redeem-IsLocked prims draw args t h =
      elim (Option-cases (enrolled_by prims args.enrolment_token t)) [
        | inl unknown ↦ ground arith
        | inr (a, there) ↦
            let console : (password secret : String)
                → IsLocked phone
                    (store_credentials draw a.id (set_console prims draw password secret) t) =
              λ password secret.
                store_credentials-IsLocked draw a.id (set_console prims draw password secret) t
                  (λ b p. p) h in
            let mobile : (pin : String)
                → IsLocked phone (store_credentials draw a.id (set_pin prims draw pin) t) =
              λ pin. store_credentials-IsLocked draw a.id (set_pin prims draw pin) t (λ b p. p) h in
            grind (arith, console, mobile)
      ]

  run_account_calls-IsLocked :
      (prims : Primitives) (uuid_text : Uuid → String) (calls : List (Draw × AccountCall))
      (w : World AccountTables)
      → IsLocked phone w.tables
      → IsLocked phone (run_account_calls prims uuid_text calls w).tables
  run_account_calls-IsLocked prims uuid_text calls w h =
      run_account_calls-keeps prims (IsLocked phone)
        (record {
          created = create_in-IsLocked prims;
          assigned = assign_in-IsLocked;
          updated = λ draw id is_suspended t.
              update_account-IsLocked draw id (λ a. record a { status = new_status is_suspended }) t
                (λ a p. p);
          removed = λ draw id t.
              update_account-IsLocked draw id
                (λ a. record a { status = deleted; deleted_at = some draw.now }) t
                (λ a p. ground arith);
          redeemed = redeem-IsLocked prims;
        })
        uuid_text calls w h

  -- Of the accounts with one phone there is one, so none that is present.
  nobody_else :
      (a : Account) (accounts : List Account)
      → str_eq a.phone_hash phone ≡ true
      → any (same_phone a) accounts ≡ false
      → find (λ b. str_eq b.phone_hash phone && is_present b) accounts ≡ none
  nobody_else a [] e h = refl
  nobody_else a (b ∷ rest) e h = ground (
    arith,
    nobody_else a rest e,
    eq_iff a.phone_hash phone,
    eq_iff b.phone_hash phone,
    eq_iff a.phone_hash b.phone_hash,
  )

  locked_out :
      (accounts : List Account)
      → IsUnique same_phone accounts
      → any (is_locked phone) accounts ≡ true
      → find (λ b. str_eq b.phone_hash phone && is_present b) accounts ≡ none
  locked_out [] u h = refl
  locked_out (b ∷ rest) (fresh, u) h = elim (Bool-cases (str_eq b.phone_hash phone)) [
    | inl here ↦
        let others = nobody_else b rest here fresh in
        elim (Bool-cases (is_present b)) [
          | inr gone ↦ ground (arith, others)
          | inl present ↦ absurd (ground (arith, unlocked b rest here fresh))
        ]
    | inr other ↦ ground (arith, locked_out rest u)
  ]
    where
      unlocked :
          (a : Account) (xs : List Account)
          → str_eq a.phone_hash phone ≡ true
          → any (same_phone a) xs ≡ false
          → any (is_locked phone) xs ≡ false
      unlocked a [] e k = refl
      unlocked a (x ∷ xs) e k = ground (
        arith,
        unlocked a xs e,
        eq_iff a.phone_hash phone,
        eq_iff x.phone_hash phone,
        eq_iff a.phone_hash x.phone_hash,
      )

-- Once an account is deleted, from sound tables and whatever calls of the users service and
-- redemptions follow, a mobile sign-in with its phone is refused, with the message that all other
-- refusals have.
pub sign_in_mobile-locked :
    (prims : Primitives) (uuid_text : Uuid → String) (calls : List (Draw × AccountCall))
    (config : TokenConfig) (d : SignInDraw) (args : MobileArgs) (w : World AccountTables)
    → IsSound w.tables
    → IsLocked (prims.sha256 args.phone) w.tables
    → (sign_in_mobile prims config d args (run_account_calls prims uuid_text calls w)).0
      ≡ err (unauthorized "invalid credentials")
unfolding sign_in_mobile refuse
sign_in_mobile-locked prims uuid_text calls config d args w sound locked =
    let after = run_account_calls prims uuid_text calls w in
    let phone = prims.sha256 args.phone in
    let nobody : lookup_one (λ a. str_eq a.phone_hash phone) after.tables ≡ none =
      locked_out phone after.tables.accounts
        (run_account_calls-IsSound prims uuid_text calls w sound).phones
        (run_account_calls-IsLocked phone prims uuid_text calls w locked) in
    ground (arith, nobody)
