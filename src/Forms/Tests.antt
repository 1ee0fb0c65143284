-- ===== src/Forms/Tests.antt =====
-- Concrete forms, on which the theorems about them are applied.
use wdc_backend.Prelude.{
  String, ◌≡◌, refl, true, false, ◌&&◌, none, some, List, [], ◌∷◌, if◌then◌else◌,
}
use wdc_backend.Rls.{RlsContext, director}
use wdc_backend.Database.{ok, err, bad_request}
use wdc_backend.Handler.{Draw, World}
use wdc_backend.Forms.{VersionRow, FormTables, deployed, state, validate_scope}
use wdc_backend.Forms.Schema.{
  FormSchema, FormSection, FormField, checkbox, is_within_limits, parse_form_schema,
}
use wdc_backend.Forms.Schema.Distinct.{
  has_distinct_keys, distinct_fields, parse_form_schema-distinct,
}
use wdc_backend.Forms.Visible.{list_visible}
use wdc_backend.Forms.Calls.{FormCall, version_call, deploy_call, archive_call, run_form_calls}
use wdc_backend.Forms.Deployed.{IsVersion, run_form_calls-IsVersion}
use wdc_backend.Forms.Sound.{IsSound}
use wdc_backend.Forms.Sound.Runs.{AllFillable, run_form_calls-IsSound, list_visible-AllFillable}

abbrev a_field : String → FormField
a_field key = record {
  key = key;
  required = false;
  label_en = "Open?";
  label_ha = "A bude?";
  help_en = none;
  help_ha = none;
  kind = checkbox;
}

abbrev a_schema : String → FormSchema
a_schema second = record {
  version = 1;
  sections =
      record {
        key = "clinic";
        label_en = "Clinic";
        label_ha = "Asibiti";
        fields = a_field "is_open" ∷ a_field second ∷ [];
      }
      ∷ [];
}

parse_form_schema-distinct_example : parse_form_schema (a_schema "is_open") ≡ (
    if is_within_limits (a_schema "is_open")
      && (has_distinct_keys FormSection.key (a_schema "is_open").sections
          && distinct_fields (a_schema "is_open").sections)
    then ok (a_schema "is_open")
    else err (bad_request "invalid form schema"))
parse_form_schema-distinct_example = parse_form_schema-distinct (a_schema "is_open")

abbrev the_director : RlsContext
the_director = record { user_id = some 5; role = director; lga_id = none; ward_id = none }

abbrev the_version : VersionRow
the_version = record {
  id = 20;
  form_id = 10;
  version_number = 1;
  schema = a_schema "is_staffed";
  deployed_at = some 4000;
  deployed_by = some 5;
  created_at = 3000;
}

abbrev one_form : World FormTables
one_form = record {
  tables = record {
    users = 5 ∷ [];
    forms =
        record {
          id = 10;
          slug = "monthly";
          title = "Monthly report";
          title_ha = "Rahoton wata";
          scope_kind = state;
          scope_ids = [];
          status = deployed;
          current_version_id = some 20;
          created_by = 5;
          created_at = 2000;
          updated_at = 4000;
        }
        ∷ [];
    versions = the_version ∷ [];
  };
  audit = [];
}

abbrev next_draw : Draw
next_draw = record { id = 21; now = 9000; logged_at = 9500; append_fails = none }

abbrev new_version_calls : List (Draw × RlsContext × FormCall)
new_version_calls =
    (next_draw, the_director, version_call 10 (a_schema "has_power") none)
    ∷ (next_draw, the_director, deploy_call 10 none)
    ∷ (next_draw, the_director, archive_call 10 none)
    ∷ []

one_form-IsSound : IsSound one_form.tables
unfolding validate_scope
one_form-IsSound = record {
  ids = (refl, tt);
  slugs = (refl, tt);
  version_ids = (refl, tt);
  numbers = (refl, tt);
  owned = (refl, tt);
  proper = ((refl, refl), tt);
}

run_form_calls-IsSound_example :
    IsSound (run_form_calls (λ n. "id") new_version_calls one_form).tables
run_form_calls-IsSound_example =
    run_form_calls-IsSound (λ n. "id") new_version_calls one_form one_form-IsSound

run_form_calls-IsVersion_example :
    IsVersion 20 the_version (run_form_calls (λ n. "id") new_version_calls one_form).tables
run_form_calls-IsVersion_example =
    run_form_calls-IsVersion (λ n. "id") new_version_calls 20 the_version one_form refl refl

list_visible-AllFillable_example :
    AllFillable
      (λ n. "id")
      the_director
      (run_form_calls (λ n. "id") [] one_form).tables.versions
      (list_visible (λ n. "id") (λ a b. true) the_director (run_form_calls (λ n. "id") [] one_form))
list_visible-AllFillable_example =
    list_visible-AllFillable (λ n. "id") (λ n. "id") (λ a b. true) the_director [] one_form
      one_form-IsSound
