-- ===== src/Forms/Catalog.antt =====
-- `create`, `update`, `archive`, `list` and `getById` of forms (src/modules/forms/forms.service.ts).
use wdc_backend.Prelude.{
  Uuid, String, Bool, true, false, not, ◌&&◌, Option, none, some, List, [], ◌∷◌, ◌++◌, find, any,
  map, sort_by, leb, update_where, ◌==◌, str_eq, if◌then◌else◌,
}
use wdc_backend.Rls.{RlsContext}
use wdc_backend.Report.Json.{Json, str}
use wdc_backend.Database.{
  Result, ok, err, bad_request, not_found, conflict, database, duplicate_key, foreign_key, not_null,
}
use wdc_backend.Handler.{Draw, Body, Handler, as_director, transact, audited, event_by}
use wdc_backend.Forms.{
  draft, archived, ScopeKind, FormRow, FormTables, to_form_view, scope_text, validate_scope,
}

pub record CreateArgs : Type 0 where
  pub slug : String
  pub title : String
  pub title_ha : String
  pub scope_kind : ScopeKind
  pub scope_ids : Option (List String)
  pub request_id : Option Uuid

abbrev pub or_nobody : Option (List String) → List String
or_nobody none = []
or_nobody (some ids) = ids

-- `INSERT INTO forms`; the key on the slug is the one that is caught.
unfoldable pub insert_form : Draw → RlsContext → CreateArgs → Body FormTables FormRow
insert_form draw actor args t = elim actor.user_id [
  | none ↦ (err (database not_null), t)
  | some user ↦
      if any (λ f. f.id == draw.id) t.forms
      then (err (database duplicate_key), t)
      else (if any (λ f. str_eq f.slug args.slug) t.forms
          then (err (conflict "a form with this slug already exists"), t)
          else (if not (any (λ u. u == user) t.users)
              then (err (database foreign_key), t)
              else (let row : FormRow = record {
                id = draw.id;
                slug = args.slug;
                title = args.title;
                title_ha = args.title_ha;
                scope_kind = args.scope_kind;
                scope_ids = or_nobody args.scope_ids;
                status = draft;
                current_version_id = none;
                created_by = user;
                created_at = draw.now;
                updated_at = draw.now;
              } in
                  (ok row, record t { forms = t.forms ++ (row ∷ []) }))))
]

-- The check of the scope, and then the transaction's `INSERT`.
unfoldable pub create_in : Draw → RlsContext → CreateArgs → Body FormTables FormRow
create_in draw actor args t = elim (validate_scope args.scope_kind args.scope_ids) [
  | err e ↦ (err e, t)
  | ok _ ↦ insert_form draw actor args t
]

-- `create`
unfoldable pub create : Draw → RlsContext → CreateArgs → Handler FormTables FormRow
create draw actor args = as_director actor (
    audited
      (λ row.
        event_by draw actor "forms.created" "forms" row.id
          (("slug", str row.slug) ∷ ("scope_kind", str (scope_text row.scope_kind)) ∷ [])
          args.request_id)
      to_form_view (transact (create_in draw actor args)))

abbrev pub form_of : Uuid → FormTables → Option FormRow
form_of id t = find (λ f. f.id == id) t.forms

abbrev pub found_form : Uuid → Body FormTables FormRow
found_form id t = elim (form_of id t) [
  | none ↦ (err (not_found "form not found"), t)
  | some row ↦ (ok row, t)
]

-- `UPDATE forms SET … WHERE id = …  RETURNING …`; a trigger sets `updated_at`.
unfoldable pub update_form : Draw → Uuid → (FormRow → FormRow) → Body FormTables FormRow
update_form draw id set t = found_form id (record t {
  forms = update_where (λ f. f.id == id) (λ f. record (set f) { updated_at = draw.now }) t.forms;
})

-- `fields` holds `Object.keys(patch)`.
pub record FormPatch : Type 0 where
  pub title : Option String
  pub title_ha : Option String
  pub scope_kind : Option ScopeKind
  pub scope_ids : Option (List String)
  pub fields : Json

abbrev pub is_given : {A : Type 0} → Option A → Bool
is_given none = false
is_given (some _) = true

abbrev pub or_else : {A : Type 0} → Option A → A → A
or_else none a = a
or_else (some b) a = b

abbrev pub touches_scope : FormPatch → Bool
touches_scope p = elim p.scope_kind [ some _ ↦ true | none ↦ is_given p.scope_ids ]

abbrev pub touches_nothing : FormPatch → Bool
touches_nothing p = (not (is_given p.title) && not (is_given p.title_ha)) && not (touches_scope p)

unfoldable pub set_form : FormPatch → FormRow → FormRow
set_form p f = record f {
  title = or_else p.title f.title;
  title_ha = or_else p.title_ha f.title_ha;
  scope_kind = or_else p.scope_kind f.scope_kind;
  scope_ids = or_else p.scope_ids f.scope_ids;
}

-- The `UPDATE`, after the check of the pair that would result.
unfoldable pub rescope : Draw → Uuid → FormPatch → Body FormTables FormRow
rescope draw id p t = elim (form_of id t) [
  | none ↦ (err (not_found "form not found"), t)
  | some f ↦
      elim (validate_scope (or_else p.scope_kind f.scope_kind)
        (some (or_else p.scope_ids f.scope_ids))) [
          | err e ↦ (err e, t)
          | ok _ ↦ update_form draw id (set_form p) t
        ]
]

-- The transaction of `update`.
unfoldable pub update_in : Draw → Uuid → FormPatch → Body FormTables FormRow
update_in draw id p t =
    if touches_scope p
    then rescope draw id p t
    else (if touches_nothing p
        then (err (bad_request "no changes specified"), t)
        else update_form draw id (set_form p) t)

-- `update`
unfoldable pub update :
    Draw → RlsContext → Uuid → FormPatch → Option Uuid → Handler FormTables FormRow
update draw actor id patch request_id = as_director actor (
    audited
      (λ row.
        event_by draw actor "forms.updated" "forms" row.id (("fields", patch.fields) ∷ [])
          request_id)
      to_form_view (transact (update_in draw id patch)))

-- `archive`
unfoldable pub archive : Draw → RlsContext → Uuid → Option Uuid → Handler FormTables FormRow
archive draw actor id request_id = as_director actor (
    audited (λ row. event_by draw actor "forms.archived" "forms" row.id [] request_id) to_form_view
      (transact (update_form draw id (λ f. record f { status = archived }))))

-- `list`
unfoldable pub list : RlsContext → Handler FormTables (List FormRow)
list actor =
    transact
      (λ t. (ok (map to_form_view (sort_by (λ f g. leb g.created_at f.created_at) t.forms)), t))

abbrev viewed_form : Result FormRow × FormTables → Result FormRow × FormTables
viewed_form (ok row, t) = (ok (to_form_view row), t)
viewed_form (err e, t) = (err e, t)

-- `getById`
unfoldable pub get_by_id : RlsContext → Uuid → Handler FormTables FormRow
get_by_id actor id = transact (λ t. viewed_form (found_form id t))
