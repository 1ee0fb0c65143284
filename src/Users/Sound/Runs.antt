-- ===== src/Users/Sound/Runs.antt =====
-- Sequences of calls on accounts, and what they keep.
use wdc_backend.Prelude.{
  Uuid, String, ◌≡◌, refl, Bool, Option, none, some, List, [], ◌∷◌, ◌==◌, arith, Option-cases, inl,
  inr,
}
use wdc_backend.Rls.{RlsContext, system_context}
use wdc_backend.Handler.{Draw, World, Handler}
use wdc_backend.Handler.Laws.{audited-keeps, forget, forget-keeps, logged-keeps}
use wdc_backend.Auth.Tokens.{deleted}
use wdc_backend.Auth.Enrolment.{
  CredentialArgs, store_credentials, set_console, set_pin, enrol_director, enrol_mobile, redeem,
  enrolled_by, set_credentials,
}
use wdc_backend.Users.{Account, AccountTables, Primitives}
use wdc_backend.Users.Service.{
  CreateArgs, Assignment, create_in, create, update_account, assign, assign_in, update_assignment,
  new_status, set_status, soft_delete, account_of,
}
use wdc_backend.Users.Sound.{
  IsSound, IsMarked, KeepsKeys, create_in-IsSound, update_account-IsSound, update_accounts-IsSound,
}

pub data AccountCall : Type 0 where
  create_call : RlsContext → CreateArgs → AccountCall
  assign_call : RlsContext → Uuid → Assignment → Option Uuid → AccountCall
  status_call : RlsContext → Uuid → Bool → Option Uuid → AccountCall
  delete_call : RlsContext → Uuid → Option Uuid → AccountCall
  redeem_call : CredentialArgs → AccountCall

unfoldable pub run_account_call :
    Primitives → (Uuid → String) → Draw → AccountCall → Handler AccountTables (Unit {0})
run_account_call prims uuid_text draw (create_call actor args) w =
    forget (create prims uuid_text draw actor args w)
run_account_call prims uuid_text draw (assign_call actor id patch request_id) w =
    forget (update_assignment prims uuid_text draw actor id patch request_id w)
run_account_call prims uuid_text draw (status_call actor id is_suspended request_id) w =
    forget (set_status prims draw actor id is_suspended request_id w)
run_account_call prims uuid_text draw (delete_call actor id request_id) w =
    soft_delete draw actor id request_id w
run_account_call prims uuid_text draw (redeem_call args) w = set_credentials prims draw args w

unfoldable pub run_account_calls :
    Primitives
    → (Uuid → String)
    → List (Draw × AccountCall)
    → World AccountTables
    → World AccountTables
run_account_calls prims uuid_text [] w = w
run_account_calls prims uuid_text ((draw, call) ∷ calls) w =
    run_account_calls prims uuid_text calls (run_account_call prims uuid_text draw call w).1

-- What the body of every transaction keeps.
pub record IsKept (prims : Primitives) (P : AccountTables → Type 0) : Type 0 where
  pub created :
      (draw : Draw) (args : CreateArgs) (t : AccountTables)
      → P t
      → P (create_in prims draw args t).1
  pub assigned :
      (draw : Draw) (id : Uuid) (patch : Assignment) (t : AccountTables)
      → P t
      → P (assign_in draw id patch t).1
  pub updated :
      (draw : Draw) (id : Uuid) (is_suspended : Bool) (t : AccountTables)
      → P t
      → P (update_account draw id (λ a. record a { status = new_status is_suspended }) t).1
  pub removed :
      (draw : Draw) (id : Uuid) (t : AccountTables)
      → P t
      → P
          (update_account draw id
            (λ a. record a { status = deleted; deleted_at = some draw.now })
            t).1
  pub redeemed :
      (draw : Draw) (args : CredentialArgs) (t : AccountTables)
      → P t
      → P (redeem prims draw args t).1

module _ (prims : Primitives) (P : AccountTables → Type 0) (k : IsKept prims P)
    (uuid_text : Uuid → String) where
  run_account_call-keeps :
      (draw : Draw) (call : AccountCall) (w : World AccountTables)
      → P w.tables
      → P (run_account_call prims uuid_text draw call w).1.tables
  unfolding run_account_call create update_assignment set_status soft_delete set_credentials
  run_account_call-keeps draw (create_call actor args) w h =
      forget-keeps P _ (audited-keeps P actor _ _ _ w (k.created draw args w.tables) h)
  run_account_call-keeps draw (assign_call actor id patch request_id) w h =
      forget-keeps P _ (audited-keeps P actor _ _ _ w (k.assigned draw id patch w.tables) h)
  run_account_call-keeps draw (status_call actor id is_suspended request_id) w h =
      forget-keeps P _ (audited-keeps P actor _ _ _ w (k.updated draw id is_suspended w.tables) h)
  run_account_call-keeps draw (delete_call actor id request_id) w h =
      audited-keeps P actor _ _ _ w (k.removed draw id w.tables) h
  run_account_call-keeps draw (redeem_call args) w h =
      logged-keeps P system_context _ _ (redeem prims draw args) w (k.redeemed draw args w.tables) h

  pub run_account_calls-keeps :
      (calls : List (Draw × AccountCall)) (w : World AccountTables)
      → P w.tables
      → P (run_account_calls prims uuid_text calls w).tables
  unfolding run_account_calls
  run_account_calls-keeps [] w h = h
  run_account_calls-keeps ((draw, call) ∷ calls) w h =
      run_account_calls-keeps calls _ (run_account_call-keeps draw call w h)

abbrev kept_keys : KeepsKeys (λ a. a)
kept_keys = record { id = λ a. refl; phone = λ a. refl; token = λ a hash e. e }

pub assign_in-IsSound :
    (draw : Draw) (id : Uuid) (patch : Assignment) (t : AccountTables)
    → IsSound t
    → IsSound (assign_in draw id patch t).1
unfolding assign_in
assign_in-IsSound draw id patch t h =
    let keeps : KeepsKeys (assign patch) = record {
      id = λ a. refl;
      phone = λ a. refl;
      token = λ a hash e. e;
    } in
    let after = update_account-IsSound draw id (assign patch) t keeps (λ a m p. m) h in
    elim (Option-cases (account_of id t)) [
      | inl missing ↦ ground arith
      | inr (a, there) ↦ ground (arith, after)
    ]

set_status-IsSound :
    (draw : Draw) (id : Uuid) (is_suspended : Bool) (t : AccountTables)
    → IsSound t
    → IsSound (update_account draw id (λ a. record a { status = new_status is_suspended }) t).1
set_status-IsSound draw id is_suspended t h =
    update_account-IsSound draw id (λ a. record a { status = new_status is_suspended }) t
      (record { id = λ a. refl; phone = λ a. refl; token = λ a hash e. e }) (λ a m p. ground arith)
      h

soft_delete-IsSound :
    (draw : Draw) (id : Uuid) (t : AccountTables)
    → IsSound t
    → IsSound
        (update_account draw id
          (λ a. record a { status = deleted; deleted_at = some draw.now })
          t).1
soft_delete-IsSound draw id t h =
    update_account-IsSound draw id (λ a. record a { status = deleted; deleted_at = some draw.now })
      t (record { id = λ a. refl; phone = λ a. refl; token = λ a hash e. e }) (λ a m p. refl) h

store_credentials-IsSound :
    (draw : Draw) (id : Uuid) (set : Account → Account) (t : AccountTables)
    → ((a : Account)
        → (((set a).id ≡ a.id)
            × ((set a).phone_hash ≡ a.phone_hash)
            × (IsMarked a → IsMarked (set a))))
    → IsSound t
    → IsSound (store_credentials draw id set t)
unfolding store_credentials
store_credentials-IsSound draw id set t keeps h =
    update_accounts-IsSound (λ a. a.id == id)
      (λ a. record (set a) {
        enrolment_token_hash = none;
        enrolment_expires_at = none;
        updated_at = draw.now;
      })
      t
      (record {
        id = λ a. (keeps a).0;
        phone = λ a. (keeps a).1;
        token = λ a hash e. absurd (ground arith);
      })
      (λ a m p. (keeps a).2 m) h

enrol_director-IsSound :
    (prims : Primitives) (draw : Draw) (args : CredentialArgs) (a : Account) (t : AccountTables)
    → IsSound t
    → IsSound (enrol_director prims draw args a t).1
unfolding enrol_director
enrol_director-IsSound prims draw args a t h =
    let stored : (password secret : String)
        → IsSound (store_credentials draw a.id (set_console prims draw password secret) t) =
      λ password secret.
        store_credentials-IsSound draw a.id (set_console prims draw password secret) t
          (λ b. (refl, refl, λ m. m)) h in
    grind (arith, stored)

enrol_mobile-IsSound :
    (prims : Primitives) (draw : Draw) (args : CredentialArgs) (a : Account) (t : AccountTables)
    → IsSound t
    → IsSound (enrol_mobile prims draw args a t).1
unfolding enrol_mobile
enrol_mobile-IsSound prims draw args a t h =
    let stored : (pin : String) → IsSound (store_credentials draw a.id (set_pin prims draw pin) t) =
      λ pin.
        store_credentials-IsSound draw a.id (set_pin prims draw pin) t (λ b. (refl, refl, λ m. m))
          h in
    grind (arith, stored)

pub redeem-IsSound :
    (prims : Primitives) (draw : Draw) (args : CredentialArgs) (t : AccountTables)
    → IsSound t
    → IsSound (redeem prims draw args t).1
unfolding redeem
redeem-IsSound prims draw args t h =
    elim (Option-cases (enrolled_by prims args.enrolment_token t)) [
      | inl unknown ↦ ground arith
      | inr (a, there) ↦ ground (
        arith,
        enrol_director-IsSound prims draw args a t h,
        enrol_mobile-IsSound prims draw args a t h,
      )
    ]

-- Whatever calls of the users service and redemptions of tokens are made, by any actors and in any
-- order, from sound tables: ids, phones and open enrolment tokens stay unique, and an account is
-- marked as deleted exactly when it has a time of deletion.
pub run_account_calls-IsSound :
    (prims : Primitives) (uuid_text : Uuid → String) (calls : List (Draw × AccountCall))
    (w : World AccountTables)
    → IsSound w.tables
    → IsSound (run_account_calls prims uuid_text calls w).tables
run_account_calls-IsSound prims uuid_text calls w h =
    run_account_calls-keeps prims IsSound
      (record {
        created = create_in-IsSound prims;
        assigned = assign_in-IsSound;
        updated = set_status-IsSound;
        removed = soft_delete-IsSound;
        redeemed = redeem-IsSound prims;
      })
      uuid_text calls w h
