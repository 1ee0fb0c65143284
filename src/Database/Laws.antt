-- ===== src/Database/Laws.antt =====
-- Inversion of sequences of statements, and what a rolled-back call leaves.
use wdc_backend.Prelude.{
  Bool, true, false, ◌≡◌, refl, arith, Option, none, some, ◌⊎◌, inl, inr, if◌then◌else◌, Bool-cases,
}
use wdc_backend.Database.{
  Store, Session, DbError, Result, ok, err, Error, Tx, ◌>>=◌, query, execute, or_throw, guard,
  with_rls_transaction, roll_back,
}

pub execute-ok :
    {A : Type 0} (g : Store → (DbError ⊎ A) × Store) (t : Session) {a : A} {u : Session}
    → execute g t ≡ (ok a, u)
    → (t.aborted ≡ false)
      × ((g t.store).0 ≡ inr a)
      × (u ≡ record { store = (g t.store).1; aborted = false })
unfolding execute
execute-ok g t h = ground arith

module _ {A B : Type 0} where
  pub >>=-ok :
      (m : Tx A) (f : A → Tx B) (t : Session) {b : B} {t' : Session}
      → (m >>= f) t ≡ (ok b, t')
      → (a : A) × (u : Session) × (m t ≡ (ok a, u)) × (f a u ≡ (ok b, t'))
  unfolding ◌>>=◌
  >>=-ok m f t {b} {t'} h = go (m t) refl h
    where
      go :
          (p : Result A × Session)
          → m t ≡ p
          → (let (r, t'') = p in
              let q : Result B × Session = elim r [ ok a ↦ f a t'' | err e ↦ (err e, t'') ] in q)
            ≡ (ok b, t')
          → (a : A) × (u : Session) × (m t ≡ (ok a, u)) × (f a u ≡ (ok b, t'))
      go (ok a, u) e k = (a, u, e, k)
      go (err x, u) e k = cc

  pub query-bind :
      (g : Store → A) (f : A → Tx B) (t : Session) {b : B} {t' : Session}
      → (query g >>= f) t ≡ (ok b, t')
      → (t.aborted ≡ false) × (f (g t.store) t ≡ (ok b, t'))
  unfolding query ◌>>=◌
  query-bind g f t h = elim (Bool-cases t.aborted) [
    | inl failed ↦ ground arith
    | inr live ↦ (live, ground arith)
  ]

  pub or_throw-bind :
      (o : Option A) (e : Error) (f : A → Tx B) (t : Session) {b : B} {t' : Session}
      → (or_throw o e >>= f) t ≡ (ok b, t')
      → (a : A) × (o ≡ some a) × (f a t ≡ (ok b, t'))
  unfolding ◌>>=◌
  or_throw-bind none e f t h = cc
  or_throw-bind (some a) e f t h = (a, refl, h)

  -- A statement that writes has done so when the sequence succeeds.
  pub execute-bind :
      (g : Store → (DbError ⊎ A) × Store) (f : A → Tx B) (t : Session) {b : B} {t' : Session}
      → (execute g >>= f) t ≡ (ok b, t')
      → (t.aborted ≡ false)
        × (a : A) × ((g t.store).0 ≡ inr a)
        × (f a (record { store = (g t.store).1; aborted = false }) ≡ (ok b, t'))
  execute-bind g f t h =
      let (a, u, e, k) = >>=-ok (execute g) f t h in
      let (live, wrote, same) = execute-ok g t e in (live, a, wrote, rw same at k)

pub guard-bind :
    {B : Type 0} (c : Bool) (e : Error) (f : Unit {0} → Tx B) (t : Session) {b : B} {t' : Session}
    → (guard c e >>= f) t ≡ (ok b, t')
    → (c ≡ true) × (f tt t ≡ (ok b, t'))
unfolding ◌>>=◌
guard-bind true e f t h = (refl, h)
guard-bind false e f t h = cc

-- A call that raises leaves the tables as they were.
pub with_rls_transaction-err :
    {A : Type 0} (fn : Tx A) (s : Store) {e : Error}
    → (with_rls_transaction fn s).0 ≡ err e
    → let s' = (with_rls_transaction fn s).1 in
      (s'.reports ≡ s.reports)
      × (s'.op_log ≡ s.op_log)
      × (s'.form_versions ≡ s.form_versions)
      × (s'.wards ≡ s.wards)
unfolding with_rls_transaction
with_rls_transaction-err fn s h = ground arith

-- A call that returns has committed, or its transaction was aborted and the tables are as before.
pub with_rls_transaction-ok :
    {A : Type 0} (fn : Tx A) (s : Store) {a : A} {s' : Store}
    → with_rls_transaction fn s ≡ (ok a, s')
    → (t : Session) × (fn (record { store = s; aborted = false }) ≡ (ok a, t))
      × (s' ≡ (if t.aborted then roll_back s t.store else t.store))
unfolding with_rls_transaction
with_rls_transaction-ok fn s h =
    ((fn (record { store = s; aborted = false })).1, ground arith, ground arith)

-- A call returned, or it raised.
pub outcome :
    {A : Type 0} (q : Result A × Store)
    → ((a : A) × (s : Store) × (q ≡ (ok a, s))) ⊎ ((e : Error) × (q.0 ≡ err e))
outcome (ok a, s) = inl (a, s, refl)
outcome (err e, s) = inr (e, refl)
