-- ===== src/Forms/Sound.antt =====
-- The invariant of forms and versions: keys are unique, every version has its form, every scope
-- passes `validateScope`, and the current version of a form is a deployed version of it.
pub mod Catalog
pub mod Versions
pub mod Runs
use wdc_backend.Prelude.{
  ℕ, Uuid, String, ◌≡◌, refl, sym, ap, ◌∙◌, Bool, true, false, not, ◌&&◌, Option, none, some, List,
  [], ◌∷◌, ◌++◌, find, any, update_where, ◌==◌, str_eq, if◌then◌else◌, arith, All, All-append,
  All-mono, All-find, All-update_found, Option-cases, inl, inr, IsUnique, IsUnique-update_where,
  any-update_where, update_where_none, find_of_none, subst,
}
use wdc_backend.Database.{Result, ok, err}
use wdc_backend.Handler.{Draw}
use wdc_backend.Forms.{FormRow, VersionRow, FormTables, validate_scope}
use wdc_backend.Forms.Catalog.{form_of, update_form, found_form, is_given}
use wdc_backend.Forms.Visible.{is_deployed}

abbrev pub same_form : FormRow → FormRow → Bool
same_form f g = f.id == g.id

abbrev pub same_slug : FormRow → FormRow → Bool
same_slug f g = str_eq f.slug g.slug

abbrev pub same_version : VersionRow → VersionRow → Bool
same_version v w = v.id == w.id

abbrev pub same_number : VersionRow → VersionRow → Bool
same_number v w = v.form_id == w.form_id && v.version_number == w.version_number

abbrev pub HasForm : List FormRow → VersionRow → Type 0
HasForm forms v = any (λ f. f.id == v.form_id) forms ≡ true

-- A version of this form that is deployed, under this id.
abbrev pub is_live_version : Uuid → Uuid → VersionRow → Bool
is_live_version id form_id v = (v.id == id && v.form_id == form_id) && is_given v.deployed_at

-- A form without a current version is not deployed.
abbrev pub has_current : List VersionRow → FormRow → Bool
has_current versions f = elim f.current_version_id [
  | none ↦ not (is_deployed f.status)
  | some id ↦ any (is_live_version id f.id) versions
]

-- What holds of every form.
abbrev pub IsProper : List VersionRow → FormRow → Type 0
IsProper versions f =
    (validate_scope f.scope_kind (some f.scope_ids) ≡ ok tt) × (has_current versions f ≡ true)

pub record IsSound (t : FormTables) : Type 0 where
  pub ids : IsUnique same_form t.forms
  pub slugs : IsUnique same_slug t.forms
  pub version_ids : IsUnique same_version t.versions
  pub numbers : IsUnique same_number t.versions
  pub owned : All (HasForm t.forms) t.versions
  pub proper : All (IsProper t.versions) t.forms

found_form-state : (id : Uuid) (t : FormTables) → (found_form id t).1 ≡ t
found_form-state id t = ground arith

-- An update of a form keeps the tables sound, if what it makes of the row of the form is proper.
pub update_form-IsSound :
    (draw : Draw) (id : Uuid) (set : FormRow → FormRow) (t : FormTables)
    → ((f : FormRow) → (((set f).id ≡ f.id) × ((set f).slug ≡ f.slug)))
    → ((f : FormRow)
        → form_of id t ≡ some f
        → IsProper t.versions f
        → IsProper t.versions (record (set f) { updated_at = draw.now }))
    → IsSound t
    → IsSound (update_form draw id set t).1
unfolding update_form
update_form-IsSound draw id set t same proper h =
    let g : FormRow → FormRow = λ f. record (set f) { updated_at = draw.now } in
    let after : IsSound (record t { forms = update_where (λ f. f.id == id) g t.forms }) = record {
      ids =
          IsUnique-update_where same_form (λ f. f.id == id) g t.forms
            (λ f k. ap (λ x. x == k.id) (same f).0) (λ f k. ap (λ x. f.id == x) (same k).0) h.ids;
      slugs =
          IsUnique-update_where same_slug (λ f. f.id == id) g t.forms
            (λ f k. ap (λ x. str_eq x k.slug) (same f).1)
            (λ f k. ap (λ x. str_eq f.slug x) (same k).1) h.slugs;
      version_ids = h.version_ids;
      numbers = h.numbers;
      owned =
          All-mono _ _ t.versions
            (λ v p.
              any-update_where (λ f. f.id == v.form_id) (λ f. f.id == id) g t.forms
                (λ f. ap (λ x. x == v.form_id) (same f).0)
              ∙ p)
            h.owned;
      proper = elim (Option-cases (form_of id t)) [
        | inl missing ↦
            subst (All (IsProper t.versions))
              (sym (
                update_where_none (λ f. f.id == id) g t.forms
                  (find_of_none (λ f. f.id == id) t.forms missing)))
              h.proper
        | inr (f, there) ↦
            All-update_found (IsProper t.versions) FormRow.id id g t.forms h.ids there
              (proper f there
                (All-find (IsProper t.versions) (λ x. x.id == id) t.forms there h.proper))
              h.proper
      ];
    } in
    subst IsSound (sym (found_form-state id _)) after
