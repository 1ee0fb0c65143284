-- ===== src/Users/Sound/Once.antt =====
-- An enrolment token is redeemed once.
use wdc_backend.Prelude.{
  Uuid, String, ◌≡◌, refl, ap, sym, ◌∙◌, Bool, true, false, ◌&&◌, none, some, List, [], ◌∷◌, find,
  any, update_where, ◌==◌, arith, Option-cases, Bool-cases, inl, inr, IsUnique, eq_iff,
}
use wdc_backend.Database.{Result, ok, err, unauthorized}
use wdc_backend.Handler.Laws.{append_event-tables}
use wdc_backend.Handler.{Draw, Append, World, transact, audited, commit, log_and_view}
use wdc_backend.Users.{Account, AccountTables, Primitives, is_present}
use wdc_backend.Users.Service.{enrols}
use wdc_backend.Auth.Enrolment.{
  CredentialArgs, store_credentials, enrol_director, enrol_mobile, redeem, enrolled_by,
  set_credentials,
}
use wdc_backend.Users.Sound.{IsSound, same_token}

abbrev holds_token : String → Account → Bool
holds_token hash a = enrols a hash && is_present a

-- Nobody else's token is this one.
others :
    (hash : String) (a : Account) (rest : List Account)
    → enrols a hash ≡ true
    → any (same_token a) rest ≡ false
    → any (λ b. enrols b hash) rest ≡ false
others hash a [] e h = refl
others hash a (b ∷ rest) e h = elim (Option-cases b.enrolment_token_hash) [
  | inl cleared ↦ ground (arith, others hash a rest e)
  | inr (other, there) ↦ elim (Option-cases a.enrolment_token_hash) [
    | inl nothing ↦ absurd (ground arith)
    | inr (own, here) ↦
        ground (arith, others hash a rest e, eq_iff own hash, eq_iff other hash, eq_iff own other)
  ]
]

none_after :
    (hash : String) (id : Uuid) (f : Account → Account) (rest : List Account)
    → ((a : Account) → (f a).enrolment_token_hash ≡ none)
    → any (λ b. enrols b hash) rest ≡ false
    → any (holds_token hash) (update_where (λ a. a.id == id) f rest) ≡ false
none_after hash id f [] k h = refl
none_after hash id f (b ∷ rest) k h = ground (arith, none_after hash id f rest k, k b)

token_gone :
    (hash : String) (f : Account → Account) (accounts : List Account) {a : Account}
    → ((b : Account) → (f b).enrolment_token_hash ≡ none)
    → IsUnique same_token accounts
    → find (holds_token hash) accounts ≡ some a
    → any (holds_token hash) (update_where (λ b. b.id == a.id) f accounts) ≡ false
token_gone hash f [] k u h = cc
token_gone hash f (b ∷ rest) {a} k (fresh, u) h = elim (Bool-cases (holds_token hash b)) [
  | inl here ↦
      let same : b ≡ a = ground arith in
      let own : (b.id == a.id) ≡ true = ground arith in
      let after = none_after hash a.id f rest k (others hash b rest (ground arith) fresh) in
      ground (arith, after, k b, own)
  | inr later ↦ ground (arith, token_gone hash f rest {a = a} k u, k b)
]

find_of_any :
    (test : Account → Bool) (accounts : List Account)
    → any test accounts ≡ false
    → find test accounts ≡ none
find_of_any test [] h = refl
find_of_any test (b ∷ rest) h = ground (arith, find_of_any test rest)

-- What a redemption leaves behind.
abbrev Left : Primitives → String → Result Account × AccountTables → Type 0
Left prims token (ok a, t) = enrolled_by prims token t ≡ none
Left prims token (err e, t) = Unit

stored-Left :
    (prims : Primitives) (draw : Draw) (token : String) (set : Account → Account) (a : Account)
    (t : AccountTables)
    → IsSound t
    → enrolled_by prims token t ≡ some a
    → enrolled_by prims token (store_credentials draw a.id set t) ≡ none
unfolding store_credentials
stored-Left prims draw token set a t h there =
    let f : Account → Account = λ b. record (set b) {
      enrolment_token_hash = none;
      enrolment_expires_at = none;
      updated_at = draw.now;
    } in
    find_of_any (holds_token (prims.sha256 token)) (update_where (λ b. b.id == a.id) f t.accounts)
      (token_gone (prims.sha256 token) f t.accounts (λ b. refl) h.tokens there)

redeem-Left :
    (prims : Primitives) (draw : Draw) (args : CredentialArgs) (t : AccountTables)
    → IsSound t
    → Left prims args.enrolment_token (redeem prims draw args t)
unfolding redeem enrol_director enrol_mobile
redeem-Left prims draw args t h = elim (Option-cases (enrolled_by prims args.enrolment_token t)) [
  | inl unknown ↦ ground arith
  | inr (a, there) ↦
      let stored : (set : Account → Account)
          → enrolled_by prims args.enrolment_token (store_credentials draw a.id set t) ≡ none =
        λ set. stored-Left prims draw args.enrolment_token set a t h there in
      grind (arith, stored)
]

tables-Left :
    (prims : Primitives) (args : CredentialArgs) (w w' : World AccountTables)
    (event : Account → Append) (p : Result Account × AccountTables)
    → Left prims args.enrolment_token p
    → log_and_view event (λ _. tt) (commit w p) ≡ (ok tt, w')
    → enrolled_by prims args.enrolment_token w'.tables ≡ none
tables-Left prims args w w' event (ok a, t) left h =
    ap (λ q. enrolled_by prims args.enrolment_token q.1.tables) (sym h)
    ∙ ap (enrolled_by prims args.enrolment_token)
        (append_event-tables (event a) tt (record w { tables = t }))
    ∙ left
tables-Left prims args w w' event (err e, t) left h = cc

-- After a redemption that returned, from sound tables, the same token is refused as not recognised,
-- whatever credentials are given with it.
pub set_credentials-once :
    (prims : Primitives) (draw later : Draw) (args again : CredentialArgs)
    (w w' : World AccountTables)
    → IsSound w.tables
    → set_credentials prims draw args w ≡ (ok tt, w')
    → again.enrolment_token ≡ args.enrolment_token
    → set_credentials prims later again w'
      ≡ (err (unauthorized "enrolment token not recognised"), w')
unfolding set_credentials transact audited redeem
set_credentials-once prims draw later args again w w' h returned same =
    let gone =
      tables-Left prims args w w' _ (redeem prims draw args w.tables)
        (redeem-Left prims draw args w.tables h) returned in
    let gone_again : enrolled_by prims again.enrolment_token w'.tables ≡ none =
      ap (λ token. enrolled_by prims token w'.tables) same ∙ gone in
    ground (arith, gone_again)
