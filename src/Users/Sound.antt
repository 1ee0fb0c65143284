-- ===== src/Users/Sound.antt =====
-- What stays true of the accounts, whatever calls are made: of the users service, and redemptions
-- of enrolment tokens.
pub mod Runs
pub mod Once
pub mod Locked
use wdc_backend.Prelude.{
  ℕ, Uuid, Timestamp, String, ◌≡◌, refl, ap, ◌∙◌, Bool, true, false, not, ◌&&◌, ◌||◌, Option, none,
  some, List, [], ◌∷◌, ◌++◌, find, any, update_where, ◌==◌, str_eq, if◌then◌else◌, arith, All,
  All-append, All-update_where, Option-cases, Bool-cases, inl, inr, IsUnique, IsUnique-snoc,
  IsUnique-update_where, IsUnique-update_less, eq_iff,
}
use wdc_backend.Rls.{RlsContext, Role}
use wdc_backend.Database.{Result, ok, err}
use wdc_backend.Handler.{Draw, World, Handler}
use wdc_backend.Handler.Laws.{
  IsAudited, audited-IsAudited, audited-keeps, forget, forget-IsAudited, forget-keeps,
}
use wdc_backend.Auth.Tokens.{UserStatus, active, suspended, deleted}
use wdc_backend.Users.{Account, AccountTables, Primitives, is_present}
use wdc_backend.Users.Service.{
  CreateArgs, Assignment, same_text, enrols, new_account, insert_account, create_in, create,
  is_account, account_of, update_account, assign, assign_in, update_assignment, new_status,
  set_status, soft_delete,
}

abbrev pub same_id : Account → Account → Bool
same_id a b = a.id == b.id

abbrev pub same_phone : Account → Account → Bool
same_phone a b = str_eq a.phone_hash b.phone_hash

abbrev pub same_token : Account → Account → Bool
same_token a b = elim b.enrolment_token_hash [ none ↦ false | some hash ↦ enrols a hash ]

-- It is marked as deleted exactly when it has a time of deletion.
abbrev pub is_marked : Account → Bool
is_marked a = elim a.status [ deleted ↦ not (is_present a) | _ ↦ is_present a ]

abbrev pub IsMarked : Account → Type 0
IsMarked a = is_marked a ≡ true

pub record IsSound (t : AccountTables) : Type 0 where
  pub ids : IsUnique same_id t.accounts
  pub phones : IsUnique same_phone t.accounts
  pub tokens : IsUnique same_token t.accounts
  pub marked : All IsMarked t.accounts

add_account-IsSound :
    (row : Account) (t : AccountTables)
    → any (λ a. same_id a row) t.accounts ≡ false
    → any (λ a. same_phone a row) t.accounts ≡ false
    → any (λ a. same_token a row) t.accounts ≡ false
    → IsMarked row
    → IsSound t
    → IsSound (record t { accounts = t.accounts ++ (row ∷ []) })
add_account-IsSound row t i p k m h = record {
  ids = IsUnique-snoc same_id t.accounts row i h.ids;
  phones = IsUnique-snoc same_phone t.accounts row p h.phones;
  tokens = IsUnique-snoc same_token t.accounts row k h.tokens;
  marked = All-append IsMarked t.accounts (row ∷ []) h.marked (m, tt);
}

insert_account-IsSound :
    (row : Account) (t : AccountTables)
    → IsMarked row
    → IsSound t
    → IsSound (insert_account row t).1
unfolding insert_account
insert_account-IsSound row t m h = ground (arith, add_account-IsSound row t)

pub create_in-IsSound :
    (prims : Primitives) (draw : Draw) (args : CreateArgs) (t : AccountTables)
    → IsSound t
    → IsSound (create_in prims draw args t).1
unfolding create_in new_account
create_in-IsSound prims draw args t h = grind (arith, insert_account-IsSound)

-- An assignment that leaves id and phone, and at most clears the token.
pub record KeepsKeys (set : Account → Account) : Type 0 where
  pub id : (a : Account) → (set a).id ≡ a.id
  pub phone : (a : Account) → (set a).phone_hash ≡ a.phone_hash
  pub token :
      (a : Account) (hash : String)
      → (set a).enrolment_token_hash ≡ some hash
      → a.enrolment_token_hash ≡ some hash

same_token-left :
    (set : Account → Account) (keeps : KeepsKeys set) (a b : Account)
    → same_token (set a) b ≡ true
    → same_token a b ≡ true
same_token-left set keeps a b h = elim (Option-cases (set a).enrolment_token_hash) [
  | inl cleared ↦ absurd (ground arith)
  | inr (hash, e) ↦ ground (arith, keeps.token a hash e)
]

same_token-right :
    (set : Account → Account) (keeps : KeepsKeys set) (a b : Account)
    → same_token a (set b) ≡ true
    → same_token a b ≡ true
same_token-right set keeps a b h = elim (Option-cases (set b).enrolment_token_hash) [
  | inl cleared ↦ absurd (ground arith)
  | inr (hash, e) ↦ ground (arith, keeps.token b hash e)
]

pub update_accounts-IsSound :
    (test : Account → Bool) (set : Account → Account) (t : AccountTables)
    → KeepsKeys set
    → ((a : Account) → IsMarked a → test a ≡ true → IsMarked (set a))
    → IsSound t
    → IsSound (record t { accounts = update_where test set t.accounts })
update_accounts-IsSound test set t keeps marks h = record {
  ids =
      IsUnique-update_where same_id test set t.accounts (λ a b. ap (λ x. x == b.id) (keeps.id a))
        (λ a b. ap (λ x. a.id == x) (keeps.id b)) h.ids;
  phones =
      IsUnique-update_where same_phone test set t.accounts
        (λ a b. ap (λ x. str_eq x b.phone_hash) (keeps.phone a))
        (λ a b. ap (λ x. str_eq a.phone_hash x) (keeps.phone b)) h.phones;
  tokens =
      IsUnique-update_less same_token test set t.accounts (same_token-left set keeps)
        (same_token-right set keeps) h.tokens;
  marked = All-update_where IsMarked test set t.accounts marks h.marked;
}

pub update_account-IsSound :
    (draw : Draw) (id : Uuid) (set : Account → Account) (t : AccountTables)
    → KeepsKeys set
    → ((a : Account) → IsMarked a → is_present a ≡ true → IsMarked (set a))
    → IsSound t
    → IsSound (update_account draw id set t).1
unfolding update_account
update_account-IsSound draw id set t keeps marks h =
    let stamp : Account → Account = λ a. record (set a) { updated_at = draw.now } in
    let after =
      update_accounts-IsSound (is_account id) stamp t
        (record { id = keeps.id; phone = keeps.phone; token = keeps.token })
        (λ a m p. marks a m (ground arith)) h in
    ground (arith, after)
