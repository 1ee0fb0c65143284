-- ===== src/Handler/Laws.antt =====
-- What every handler of this shape does, whatever its statements are.
use wdc_backend.Prelude.{
  ◌≡◌, refl, sym, subst, ◌∙◌, ◌⊎◌, true, Option, none, some, Option-cases, [], ◌∷◌, ◌++◌, arith,
  Bool-cases, inl, inr,
}
use wdc_backend.Rls.{director, RlsContext}
use wdc_backend.Database.{Result, ok, err, Error}
use wdc_backend.Handler.{
  Logged, Append, World, Body, append_event, is_director, as_director, transact, audited, commit,
  log_and_view,
}

pub is_director→≡ : (actor : RlsContext) → is_director actor ≡ true → actor.role ≡ director
is_director→≡ actor h = ground arith

-- A result is given to a director only, and leaves exactly one more audit event, which names the
-- actor. An error leaves everything as it was, or is what the append of the event raised: then the
-- actor is a director and the audit log is as it was.
abbrev pub IsAudited :
    {A T : Type 0} → Option Error → RlsContext → World T → Result A × World T → Type 0
IsAudited fails actor w (ok a, w') =
    (fails ≡ none)
    × (actor.role ≡ director)
    × ((e : Logged) × (w'.audit ≡ w.audit ++ (e ∷ []))
        × (e.event.actor_user_id ≡ actor.user_id)
        × (e.event.actor_role ≡ director))
IsAudited fails actor w (err e, w') =
    (w' ≡ w) ⊎ ((fails ≡ some e) × (actor.role ≡ director) × (w'.audit ≡ w.audit))

-- The event names the actor and the role, and its append fails as given.
abbrev Names : {A : Type 0} → Option Error → RlsContext → (A → Append) → Type 0
Names {A} fails actor event =
    (a : A)
    → (((event a).fails ≡ fails)
        × ((event a).logged.event.actor_user_id ≡ actor.user_id)
        × ((event a).logged.event.actor_role ≡ actor.role))

module _ {T A B : Type 0} (fails : Option Error) (actor : RlsContext) (event : A → Append)
    (view : A → B) where
  append_event-IsAudited :
      (entry : Append) (b : B) (w : World T) (t : T)
      → entry.fails ≡ fails
      → entry.logged.event.actor_user_id ≡ actor.user_id
      → entry.logged.event.actor_role ≡ actor.role
      → actor.role ≡ director
      → IsAudited fails actor w (append_event entry b (record w { tables = t }))
  append_event-IsAudited entry b w t same user role granted = elim (Option-cases entry.fails) [
    | inl returns ↦
        rw returns (sym same ∙ returns, granted, (entry.logged, refl, user, role ∙ granted))
    | inr (e, raises) ↦ rw raises (inr (sym same ∙ raises, granted, refl))
  ]

  commit-IsAudited :
      Names fails actor event
      → actor.role ≡ director
      → (w : World T) (p : Result A × T)
      → IsAudited fails actor w (log_and_view event view (commit w p))
  commit-IsAudited names role w (ok a, t) =
      let (same, user, named) = names a in
      append_event-IsAudited (event a) (view a) w t same user named role
  commit-IsAudited names role w (err e, t) = inl refl

  pub audited-IsAudited :
      Names fails actor event
      → (body : Body T A) (w : World T)
      → IsAudited fails actor w (as_director actor (audited event view (transact body)) w)
  unfolding as_director audited transact
  audited-IsAudited names body w = elim (Bool-cases (is_director actor)) [
    | inl granted ↦
        rw granted (commit-IsAudited names (is_director→≡ actor granted) w (body w.tables))
    | inr other ↦ rw other (inl refl)
  ]

-- The append of an event, or its exception, leaves the tables as they are.
pub append_event-tables :
    {T B : Type 0} (entry : Append) (b : B) (w : World T)
    → (append_event entry b w).1.tables ≡ w.tables
append_event-tables entry b w = elim (Option-cases entry.fails) [
  | inl returns ↦ rw returns refl
  | inr (e, raises) ↦ rw raises refl
]

-- What a call writes does not depend on whether the append of its event raises.
module _ {T A B C : Type 0} (actor : RlsContext) (event event' : A → Append) (view : A → B)
    (view' : A → C) where
  log_and_view-tables :
      (p : Result A × World T)
      → (log_and_view event view p).1.tables ≡ (log_and_view event' view' p).1.tables
  log_and_view-tables (ok a, w) =
      append_event-tables (event a) (view a) w ∙ sym (append_event-tables (event' a) (view' a) w)
  log_and_view-tables (err e, w) = refl

  pub audited-tables :
      (body : Body T A) (w : World T)
      → (as_director actor (audited event view (transact body)) w).1.tables
        ≡ (as_director actor (audited event' view' (transact body)) w).1.tables
  unfolding as_director audited transact
  audited-tables body w = elim (Bool-cases (is_director actor)) [
    | inl granted ↦ rw granted (log_and_view-tables (commit w (body w.tables)))
    | inr other ↦ rw other refl
  ]

module _ {T A B : Type 0} (P : T → Type 0) (actor : RlsContext) (event : A → Append)
    (view : A → B) where
  pub commit-keeps :
      (w : World T) (p : Result A × T)
      → P w.tables
      → P p.1
      → P (log_and_view event view (commit w p)).1.tables
  commit-keeps w (ok a, t) before after =
      subst P (sym (append_event-tables (event a) (view a) (record w { tables = t }))) after
  commit-keeps w (err e, t) before after = before

  pub logged-keeps :
      (body : Body T A) (w : World T)
      → (P w.tables → P (body w.tables).1)
      → P w.tables
      → P (audited event view (transact body) w).1.tables
  unfolding audited transact
  logged-keeps body w keeps h = commit-keeps w (body w.tables) h (keeps h)

  -- What the statements keep of the tables, the handler keeps.
  pub audited-keeps :
      (body : Body T A) (w : World T)
      → (P w.tables → P (body w.tables).1)
      → P w.tables
      → P (as_director actor (audited event view (transact body)) w).1.tables
  unfolding as_director audited transact
  audited-keeps body w keeps h = elim (Bool-cases (is_director actor)) [
    | inl granted ↦ rw granted (commit-keeps w (body w.tables) h (keeps h))
    | inr other ↦ rw other h
  ]

-- The result of a call without its value.
abbrev pub forget : {A T : Type 0} → Result A × World T → Result (Unit {0}) × World T
forget (ok a, w) = (ok tt, w)
forget (err e, w) = (err e, w)

pub forget-IsAudited :
    {A T : Type 0} (fails : Option Error) (actor : RlsContext) (w : World T)
    (p : Result A × World T)
    → IsAudited fails actor w p
    → IsAudited fails actor w (forget p)
forget-IsAudited fails actor w (ok a, w') h = h
forget-IsAudited fails actor w (err e, w') h = h

pub forget-keeps :
    {A T : Type 0} (P : T → Type 0) (p : Result A × World T) → P p.1.tables → P (forget p).1.tables
forget-keeps P (ok a, w) h = h
forget-keeps P (err e, w) h = h

pub forget-tables : {A T : Type 0} (p : Result A × World T) → (forget p).1.tables ≡ p.1.tables
forget-tables (ok a, w) = refl
forget-tables (err e, w) = refl
