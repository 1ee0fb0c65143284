-- ===== src/Forms.antt =====
-- Forms and their versions (src/modules/forms/forms.service.ts, with the tables of
-- src/infra/postgres/schema/forms.ts): the rows, the views and the check of a scope. The policies
-- admit all of a director's statements and let everyone read.
pub mod Schema
pub mod Catalog
pub mod Versions
pub mod Visible
pub mod Calls
pub mod Sound
pub mod Deployed
pub mod Tests
use wdc_backend.Prelude.{
  ℕ, Uuid, Timestamp, ◌/◌, String, Bool, true, false, Option, none, some, List, [], ◌∷◌,
}
use wdc_backend.Database.{Result, ok, err, Error, bad_request}
use wdc_backend.Forms.Schema.{FormSchema}

pub data FormStatus : Type 0 where
  draft deployed archived : FormStatus

pub data ScopeKind : Type 0 where
  state lga ward : ScopeKind

-- The ids of a scope are texts in a JSON array. Times of columns are in microseconds.
pub record FormRow : Type 0 where
  pub id : Uuid
  pub slug : String
  pub title : String
  pub title_ha : String
  pub scope_kind : ScopeKind
  pub scope_ids : List String
  pub status : FormStatus
  pub current_version_id : Option Uuid
  pub created_by : Uuid
  pub created_at : Timestamp
  pub updated_at : Timestamp

pub record VersionRow : Type 0 where
  pub id : Uuid
  pub form_id : Uuid
  pub version_number : ℕ
  pub schema : FormSchema
  pub deployed_at : Option Timestamp
  pub deployed_by : Option Uuid
  pub created_at : Timestamp

-- `users` holds the ids that the foreign keys refer to.
pub record FormTables : Type 0 where
  pub users : List Uuid
  pub forms : List FormRow
  pub versions : List VersionRow

-- The views hold ISO texts of dates, which are kept as their milliseconds.
abbrev pub to_date : Timestamp → Timestamp
to_date t = t / 1000

-- A view has the fields of its row.
unfoldable pub to_form_view : FormRow → FormRow
to_form_view row = record row {
  created_at = to_date row.created_at;
  updated_at = to_date row.updated_at;
}

unfoldable pub to_version_view : VersionRow → VersionRow
to_version_view row = record row {
  deployed_at = elim row.deployed_at [ none ↦ none | some t ↦ some (to_date t) ];
  created_at = to_date row.created_at;
}

abbrev pub scope_text : ScopeKind → String
scope_text state = "state"
scope_text lga = "lga"
scope_text ward = "ward"

abbrev scope_required : ScopeKind → Error
scope_required lga = bad_request "scopeIds is required and non-empty for scope=lga"
scope_required _ = bad_request "scopeIds is required and non-empty for scope=ward"

-- `validateScope`, where no ids are given as `none`.
unfoldable pub validate_scope : ScopeKind → Option (List String) → Result (Unit {0})
validate_scope state none = ok tt
validate_scope state (some []) = ok tt
validate_scope state (some (_ ∷ _)) =
    err (bad_request "scopeIds must be empty for state-wide forms")
validate_scope kind none = err (scope_required kind)
validate_scope kind (some []) = err (scope_required kind)
validate_scope kind (some (_ ∷ _)) = ok tt
