-- ===== src/Investigations/Cases.antt =====
-- The investigations themselves: `create`, `update`, `close` and `reopen`
-- (src/modules/investigations/investigations.service.ts).
use wdc_backend.Prelude.{
  Uuid, String, Bool, true, false, not, Option, none, some, [], ◌∷◌, ◌++◌, find, any, update_where,
  ◌==◌, if◌then◌else◌,
}
use wdc_backend.Rls.{RlsContext}
use wdc_backend.Report.Json.{str}
use wdc_backend.Database.{ok, err, not_found, database, duplicate_key, foreign_key, not_null}
use wdc_backend.Handler.{Draw, Body, Handler, as_director, transact, audited, event_by}
use wdc_backend.Investigations.{
  Status, opened, closed, Priority, normal, InvestigationRow, Tables, InvestigationView,
  to_investigation_view, priority_text, status_text,
}

pub record CreateArgs : Type 0 where
  pub title : String
  pub summary : Option String
  pub priority : Option Priority
  pub request_id : Option Uuid

abbrev pub or_normal : Option Priority → Priority
or_normal none = normal
or_normal (some p) = p

-- `INSERT INTO investigations`, with the defaults of the columns.
unfoldable pub insert_investigation : Draw → RlsContext → CreateArgs → Body Tables InvestigationRow
insert_investigation draw actor args t = elim actor.user_id [
  | none ↦ (err (database not_null), t)
  | some user ↦
      if any (λ i. i.id == draw.id) t.investigations
      then (err (database duplicate_key), t)
      else (if not (any (λ u. u == user) t.users)
          then (err (database foreign_key), t)
          else (let row : InvestigationRow = record {
            id = draw.id;
            title = args.title;
            summary = args.summary;
            status = opened;
            priority = or_normal args.priority;
            opened_by = user;
            closed_at = none;
            created_at = draw.now;
            updated_at = draw.now;
          } in
              (ok row, record t { investigations = t.investigations ++ (row ∷ []) })))
]

-- `create`
unfoldable pub create : Draw → RlsContext → CreateArgs → Handler Tables InvestigationView
create draw actor args = as_director actor (
    audited
      (λ row.
        event_by draw actor "investigations.created" "investigations" row.id
          (("title", str row.title) ∷ ("priority", str (priority_text row.priority)) ∷ [])
          args.request_id)
      to_investigation_view (transact (insert_investigation draw actor args)))

abbrev pub row_of : Uuid → Tables → Option InvestigationRow
row_of id t = find (λ i. i.id == id) t.investigations

-- The first row of the result, or `NotFoundException`.
abbrev pub found : Uuid → Body Tables InvestigationRow
found id t = elim (row_of id t) [
  | none ↦ (err (not_found "investigation not found"), t)
  | some row ↦ (ok row, t)
]

-- `UPDATE investigations SET … WHERE id = …  RETURNING …`; a trigger sets `updated_at`.
unfoldable pub update_investigation :
    Draw → Uuid → (InvestigationRow → InvestigationRow) → Body Tables InvestigationRow
update_investigation draw id set t = found id (record t {
  investigations =
      update_where (λ i. i.id == id) (λ i. record (set i) { updated_at = draw.now })
        t.investigations;
})

pub record Patch : Type 0 where
  pub title : Option String
  pub summary : Option String
  pub status : Option Status
  pub priority : Option Priority

abbrev pub is_empty_patch : Patch → Bool
is_empty_patch p = elim p.title [
  | some _ ↦ false
  | none ↦ elim p.summary [
    | some _ ↦ false
    | none ↦ elim p.status [
      | some _ ↦ false
      | none ↦ elim p.priority [ some _ ↦ false | none ↦ true ]
    ]
  ]
]

-- The assignments of the columns that the patch has.
unfoldable pub set_columns : Patch → InvestigationRow → InvestigationRow
set_columns p i = record i {
  title = elim p.title [ none ↦ i.title | some title ↦ title ];
  summary = elim p.summary [ none ↦ i.summary | some summary ↦ some summary ];
  status = elim p.status [ none ↦ i.status | some status ↦ status ];
  priority = elim p.priority [ none ↦ i.priority | some priority ↦ priority ];
}

-- `update`: with an empty patch, a `SELECT`.
unfoldable pub update :
    Draw → RlsContext → Uuid → Patch → Option Uuid → Handler Tables InvestigationView
update draw actor id patch request_id = as_director actor (
    audited
      (λ row.
        event_by draw actor "investigations.updated" "investigations" row.id
          (("status", str (status_text row.status))
            ∷ ("priority", str (priority_text row.priority))
            ∷ [])
          request_id)
      to_investigation_view
      (transact (
        if is_empty_patch patch
        then found id
        else update_investigation draw id (set_columns patch))))

-- `close`
unfoldable pub close : Draw → RlsContext → Uuid → Option Uuid → Handler Tables InvestigationView
close draw actor id request_id = as_director actor (
    audited
      (λ row.
        event_by draw actor "investigations.closed" "investigations" row.id
          (("title", str row.title) ∷ []) request_id)
      to_investigation_view
      (transact (
        update_investigation draw id
          (λ i. record i { status = closed; closed_at = some draw.now }))))

-- `reopen`
unfoldable pub reopen : Draw → RlsContext → Uuid → Option Uuid → Handler Tables InvestigationView
reopen draw actor id request_id = as_director actor (
    audited
      (λ row.
        event_by draw actor "investigations.reopened" "investigations" row.id
          (("title", str row.title) ∷ []) request_id)
      to_investigation_view
      (transact
        (update_investigation draw id (λ i. record i { status = opened; closed_at = none }))))
