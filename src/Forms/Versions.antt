-- ===== src/Forms/Versions.antt =====
-- The versions of a form: `createVersion`, `deploy`, `listVersions` and `getVersion`
-- (src/modules/forms/forms.service.ts), with the trigger on deployed versions of
-- drizzle/0001_init.sql.
use wdc_backend.Prelude.{
  ℕ, suc, max, Uuid, String, Bool, true, not, ◌&&◌, Option, none, some, List, [], ◌∷◌, ◌++◌, find,
  any, map, select, sort_by, leb, update_where, ◌==◌, if◌then◌else◌,
}
use wdc_backend.Rls.{RlsContext}
use wdc_backend.Report.Json.{Json, str, num, null}
use wdc_backend.Database.{
  Result, ok, err, bad_request, not_found, conflict, database, duplicate_key, foreign_key,
  restrict_violation,
}
use wdc_backend.Handler.{Draw, Body, Handler, as_director, transact, audited, event_by}
use wdc_backend.Forms.{deployed, FormRow, VersionRow, FormTables, to_form_view, to_version_view}
use wdc_backend.Forms.Schema.{FormSchema, parse_form_schema}
use wdc_backend.Forms.Catalog.{form_of, update_form, is_given}

abbrev pub versions_of : Uuid → FormTables → List VersionRow
versions_of form_id t = select (λ v. v.form_id == form_id) t.versions

-- `COALESCE(MAX(version_number), 0)`
abbrev pub max_number : List VersionRow → ℕ
max_number [] = 0
max_number (v ∷ vs) = max v.version_number (max_number vs)

-- `INSERT INTO form_versions`, with its two unique keys. The form is there.
unfoldable pub insert_version : Draw → Uuid → ℕ → FormSchema → Body FormTables VersionRow
insert_version draw form_id number schema t =
    if any (λ v. v.id == draw.id) t.versions
    then (err (database duplicate_key), t)
    else (if any (λ v. v.form_id == form_id && v.version_number == number) t.versions
        then (err (database duplicate_key), t)
        else (let row : VersionRow = record {
          id = draw.id;
          form_id = form_id;
          version_number = number;
          schema = schema;
          deployed_at = none;
          deployed_by = none;
          created_at = draw.now;
        } in
            (ok row, record t { versions = t.versions ++ (row ∷ []) })))

-- The parsed schema, and then the transaction of `createVersion`.
unfoldable pub version_in : Draw → Uuid → FormSchema → Body FormTables VersionRow
version_in draw form_id schema t = elim (parse_form_schema schema) [
  | err e ↦ (err e, t)
  | ok parsed ↦ elim (form_of form_id t) [
    | none ↦ (err (not_found "form not found"), t)
    | some _ ↦ insert_version draw form_id (suc (max_number (versions_of form_id t))) parsed t
  ]
]

-- `createVersion`. Ids and numbers in the payload are given as texts.
unfoldable pub create_version :
    (ℕ → String)
    → Draw
    → RlsContext
    → Uuid
    → FormSchema
    → Option Uuid
    → Handler FormTables VersionRow
create_version text_of draw actor form_id schema request_id = as_director actor (
    audited
      (λ row.
        event_by draw actor "forms.versioned" "form_versions" row.id
          (("form_id", str (text_of row.form_id))
            ∷ ("version_number", num (text_of row.version_number))
            ∷ [])
          request_id)
      to_version_view (transact (version_in draw form_id schema)))

abbrev pub first_version : List VersionRow → Option VersionRow
first_version [] = none
first_version (v ∷ vs) = some v

abbrev pub latest_first : VersionRow → VersionRow → Bool
latest_first v w = leb w.version_number v.version_number

-- `ORDER BY version_number DESC LIMIT 1`
abbrev pub latest_version : Uuid → FormTables → Option VersionRow
latest_version form_id t = first_version (sort_by latest_first (versions_of form_id t))

abbrev pub is_deployed_version : Uuid → VersionRow → Bool
is_deployed_version id v = v.id == id && is_given v.deployed_at

abbrev known_or_null : Option Uuid → FormTables → Bool
known_or_null none t = true
known_or_null (some user) t = any (λ u. u == user) t.users

-- `UPDATE form_versions SET deployed_at = now(), deployed_by = …`: the trigger refuses a deployed
-- row.
unfoldable pub stamp_version : Draw → RlsContext → Uuid → Body FormTables (Unit {0})
stamp_version draw actor id t =
    if any (is_deployed_version id) t.versions
    then (err (database restrict_violation), t)
    else (if not (known_or_null actor.user_id t) then (err (database foreign_key), t) else (
      ok tt,
      record t {
        versions =
            update_where (λ v. v.id == id)
              (λ v. record v { deployed_at = some draw.now; deployed_by = actor.user_id })
              t.versions;
      },
    ))

abbrev pub set_current : Uuid → FormRow → FormRow
set_current id f = record f { current_version_id = some id; status = deployed }

abbrev pub then_set_current :
    Draw → Uuid → Uuid → Result (Unit {0}) × FormTables → Result FormRow × FormTables
then_set_current draw form_id id (ok _, t) = update_form draw form_id (set_current id) t
then_set_current draw form_id id (err e, t) = (err e, t)

-- The transaction of `deploy`.
unfoldable pub deploy_in : Draw → RlsContext → Uuid → Body FormTables FormRow
deploy_in draw actor form_id t = elim (latest_version form_id t) [
  | none ↦ (err (bad_request "form has no versions to deploy"), t)
  | some v ↦
      if is_given v.deployed_at
      then (err (conflict "latest version is already deployed"), t)
      else then_set_current draw form_id v.id (stamp_version draw actor v.id t)
]

abbrev pub current_json : (Uuid → String) → FormRow → Json
current_json text_of f = elim f.current_version_id [ none ↦ null | some id ↦ str (text_of id) ]

-- `deploy`
unfoldable pub deploy :
    (ℕ → String) → Draw → RlsContext → Uuid → Option Uuid → Handler FormTables FormRow
deploy text_of draw actor form_id request_id = as_director actor (
    audited
      (λ row.
        event_by draw actor "forms.deployed" "forms" row.id
          (("current_version_id", current_json text_of row) ∷ []) request_id)
      to_form_view (transact (deploy_in draw actor form_id)))

-- `listVersions`
unfoldable pub list_versions : RlsContext → Uuid → Handler FormTables (List VersionRow)
list_versions actor form_id =
    transact (λ t. (ok (map to_version_view (sort_by latest_first (versions_of form_id t))), t))

-- `getVersion`
unfoldable pub get_version : RlsContext → Uuid → ℕ → Handler FormTables VersionRow
get_version actor form_id number = transact (λ t.
    elim (find (λ v. v.form_id == form_id && v.version_number == number) t.versions) [
      | none ↦ (err (not_found "form version not found"), t)
      | some v ↦ (ok (to_version_view v), t)
    ])
