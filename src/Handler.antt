-- ===== src/Handler.antt =====
-- The shape that the handlers of the services share (src/common/rls/rls-context.ts for the
-- transaction, `requireDirector` of the investigations, forms and users services, and
-- src/modules/audit/audit.service.ts for the event after it).
pub mod Laws
use wdc_backend.Prelude.{
  Uuid, Timestamp, String, Bool, Option, none, some, List, [], ◌∷◌, ◌++◌, if◌then◌else◌,
}
use wdc_backend.Rls.{RlsContext, director, same_role}
use wdc_backend.Report.Json.{Object}
use wdc_backend.Database.{Result, ok, err, Error, forbidden, AuditEventInput}

-- An audit event with the time that `append` gives it.
pub record Logged : Type 0 where
  pub occurred_at : Timestamp
  pub event : AuditEventInput

-- The tables of a service, and the audit log, which is written on connections of its own.
pub record World {ℓ} (T : Type ℓ) : Type ℓ where
  pub tables : T
  pub audit : List Logged

-- What a call draws and reads: the id of the row it inserts, the time `now()` of its transaction,
-- the time of its audit event, and what `audit.append` raises, if it does.
pub record Draw : Type 0 where
  pub id : Uuid
  pub now : Timestamp
  pub logged_at : Timestamp
  pub append_fails : Option Error

-- A call of `audit.append`: the event, or the exception of its own transaction.
pub record Append : Type 0 where
  pub logged : Logged
  pub fails : Option Error

-- The body of a transaction: statements on the tables, and an error when one of them or the code
-- throws.
abbrev pub Body : Type 0 → Type 0 → Type 0
Body T A = T → Result A × T

abbrev pub Handler : Type 0 → Type 0 → Type 0
Handler T A = World T → Result A × World T

abbrev pub is_director : RlsContext → Bool
is_director actor = same_role actor.role director

module _ {T : Type 0} where
  -- `requireDirector`
  unfoldable pub as_director : {A : Type 0} → RlsContext → Handler T A → Handler T A
  as_director actor handle w =
      if is_director actor
      then handle w
      else (err (forbidden "director role required for this action"), w)

  abbrev pub commit : {A : Type 0} → World T → Result A × T → Result A × World T
  commit w (ok a, t) = (ok a, record w { tables = t })
  commit w (err e, t) = (err e, w)

  -- `withRlsTransaction`: an error rolls the tables back.
  unfoldable pub transact : {A : Type 0} → Body T A → Handler T A
  transact body w = commit w (body w.tables)

  abbrev pub append_event : {B : Type 0} → Append → B → World T → Result B × World T
  append_event entry b w = elim entry.fails [
    | some e ↦ (err e, w)
    | none ↦ (ok b, record w { audit = w.audit ++ (entry.logged ∷ []) })
  ]

  abbrev pub log_and_view :
      {A B : Type 0} → (A → Append) → (A → B) → Result A × World T → Result B × World T
  log_and_view event view (ok a, w) = append_event (event a) (view a) w
  log_and_view event view (err e, w) = (err e, w)

  -- `audit.append` after the transaction, and the value that the call returns. When the append
  -- raises, the call raises, and what the transaction wrote stays.
  unfoldable pub audited : {A B : Type 0} → (A → Append) → (A → B) → Handler T A → Handler T B
  audited event view handle w = log_and_view event view (handle w)

-- The event of a call, with the fields that all of them have.
abbrev pub event_by : Draw → RlsContext → String → String → Uuid → Object → Option Uuid → Append
event_by draw actor kind table id payload request_id = record {
  logged = record {
    occurred_at = draw.logged_at;
    event = record {
      actor_user_id = actor.user_id;
      actor_role = actor.role;
      event_kind = kind;
      target_table = some table;
      target_id = some id;
      payload = payload;
      request_id = request_id;
    };
  };
  fails = draw.append_fails;
}
