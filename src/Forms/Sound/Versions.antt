-- ===== src/Forms/Sound/Versions.antt =====
-- `createVersion` and `deploy` keep the tables of forms sound.
use wdc_backend.Prelude.{
  ℕ, Uuid, ◌≡◌, refl, sym, ◌∙◌, Bool, true, false, ◌&&◌, some, List, [], ◌∷◌, ◌++◌, any,
  update_where, ◌==◌, arith, All-append, All-mono, All-update_where, Option-cases, inl, inr,
  any_of_find, find-true, IsUnique-snoc, IsUnique-update_where, any-snoc, any-sort_by,
  any-select_both, any-update_mono,
}
use wdc_backend.Rls.{RlsContext}
use wdc_backend.Handler.{Draw}
use wdc_backend.Forms.{FormRow, VersionRow, FormTables}
use wdc_backend.Forms.Schema.{FormSchema}
use wdc_backend.Forms.Catalog.{form_of}
use wdc_backend.Forms.Versions.{
  insert_version, version_in, stamp_version, deploy_in, latest_version, latest_first, first_version,
  versions_of, then_set_current, set_current,
}
use wdc_backend.Forms.Sound.{
  IsSound, IsProper, HasForm, is_live_version, same_version, same_number, update_form-IsSound,
}

-- More versions are no harm to the current one.
has_current-more :
    (versions : List VersionRow) (row : VersionRow) (f : FormRow)
    → IsProper versions f
    → IsProper (versions ++ (row ∷ [])) f
has_current-more versions row f (valid, current) = elim (Option-cases f.current_version_id) [
  | inl nothing ↦ (valid, ground arith)
  | inr (id, there) ↦ (valid, ground (arith, any-snoc (is_live_version id f.id) versions row))
]

add_version-IsSound :
    (row : VersionRow) (t : FormTables)
    → any (λ v. v.id == row.id) t.versions ≡ false
    → any (λ v. v.form_id == row.form_id && v.version_number == row.version_number) t.versions
      ≡ false
    → HasForm t.forms row
    → IsSound t
    → IsSound (record t { versions = t.versions ++ (row ∷ []) })
add_version-IsSound row t fresh new_number owner h = record {
  ids = h.ids;
  slugs = h.slugs;
  version_ids = IsUnique-snoc same_version t.versions row fresh h.version_ids;
  numbers = IsUnique-snoc same_number t.versions row new_number h.numbers;
  owned = All-append (HasForm t.forms) t.versions (row ∷ []) h.owned (owner, tt);
  proper = All-mono _ _ t.forms (has_current-more t.versions row) h.proper;
}

insert_version-IsSound :
    (draw : Draw) (form_id : Uuid) (number : ℕ) (schema : FormSchema) (t : FormTables)
    → any (λ f. f.id == form_id) t.forms ≡ true
    → IsSound t
    → IsSound (insert_version draw form_id number schema t).1
unfolding insert_version
insert_version-IsSound draw form_id number schema t owner h = grind (arith, add_version-IsSound)

pub version_in-IsSound :
    (draw : Draw) (form_id : Uuid) (schema : FormSchema) (t : FormTables)
    → IsSound t
    → IsSound (version_in draw form_id schema t).1
unfolding version_in
version_in-IsSound draw form_id schema t h = elim (Option-cases (form_of form_id t)) [
  | inl missing ↦ ground arith
  | inr (f, there) ↦
      let kept : (number : ℕ) (parsed : FormSchema)
          → IsSound (insert_version draw form_id number parsed t).1 =
        λ number parsed.
          insert_version-IsSound draw form_id number parsed t (any_of_find _ t.forms there) h in
      grind (arith, kept)
]

-- Stamping the versions of an id keeps what was live, and makes that id live.
stamped : Draw → RlsContext → Uuid → List VersionRow → List VersionRow
stamped draw actor id versions =
    update_where (λ v. v.id == id)
      (λ v. record v { deployed_at = some draw.now; deployed_by = actor.user_id }) versions

live_after_stamp :
    (draw : Draw) (actor : RlsContext) (id form_id : Uuid) (versions : List VersionRow)
    → any (λ v. v.id == id && v.form_id == form_id) versions ≡ true
    → any (is_live_version id form_id) (stamped draw actor id versions) ≡ true
unfolding stamped
live_after_stamp draw actor id form_id [] h = cc
live_after_stamp draw actor id form_id (v ∷ versions) h =
    ground (arith, live_after_stamp draw actor id form_id versions)

IsProper-stamped :
    (draw : Draw) (actor : RlsContext) (id : Uuid) (versions : List VersionRow) (f : FormRow)
    → IsProper versions f
    → IsProper (stamped draw actor id versions) f
unfolding stamped
IsProper-stamped draw actor id versions f (valid, current) =
    elim (Option-cases f.current_version_id) [
      | inl nothing ↦ (valid, ground arith)
      | inr (other, there) ↦ (
        valid,
        ground (
          arith,
          any-update_mono (is_live_version other f.id) (λ v. v.id == id)
              (λ v. record v { deployed_at = some draw.now; deployed_by = actor.user_id }) versions
              (λ v p. ground arith),
        ),
      )
    ]

stamped-IsSound :
    (draw : Draw) (actor : RlsContext) (id : Uuid) (t : FormTables)
    → IsSound t
    → IsSound (record t { versions = stamped draw actor id t.versions })
unfolding stamped
stamped-IsSound draw actor id t h =
    let g : VersionRow → VersionRow =
      λ v. record v { deployed_at = some draw.now; deployed_by = actor.user_id } in
    record {
      ids = h.ids;
      slugs = h.slugs;
      version_ids =
          IsUnique-update_where same_version (λ v. v.id == id) g t.versions (λ v w. refl)
            (λ v w. refl) h.version_ids;
      numbers =
          IsUnique-update_where same_number (λ v. v.id == id) g t.versions (λ v w. refl)
            (λ v w. refl) h.numbers;
      owned =
          All-update_where (HasForm t.forms) (λ v. v.id == id) g t.versions (λ v p _. p) h.owned;
      proper = All-mono _ _ t.forms (IsProper-stamped draw actor id t.versions) h.proper;
    }

any_of_first :
    (test : VersionRow → Bool) (vs : List VersionRow) {v : VersionRow}
    → first_version vs ≡ some v
    → test v ≡ true
    → any test vs ≡ true
any_of_first test [] h p = cc
any_of_first test (w ∷ vs) h p = ground arith

-- The latest version of a form is in the table.
latest_there :
    (form_id : Uuid) (t : FormTables) {v : VersionRow}
    → latest_version form_id t ≡ some v
    → any (λ w. w.id == v.id && w.form_id == form_id) t.versions ≡ true
latest_there form_id t {v} h =
    sym (any-select_both (λ w. w.id == v.id) (λ w. w.form_id == form_id) t.versions)
    ∙ sym (any-sort_by (λ w. w.id == v.id) latest_first (versions_of form_id t))
    ∙ any_of_first (λ w. w.id == v.id) _ h (ground arith)

deployed-IsSound :
    (draw : Draw) (actor : RlsContext) (form_id id : Uuid) (t : FormTables)
    → any (λ w. w.id == id && w.form_id == form_id) t.versions ≡ true
    → IsSound t
    → IsSound (then_set_current draw form_id id (stamp_version draw actor id t)).1
unfolding stamp_version stamped
deployed-IsSound draw actor form_id id t there h =
    let after = stamped-IsSound draw actor id t h in
    let kept =
      update_form-IsSound draw form_id (set_current id)
        (record t { versions = stamped draw actor id t.versions }) (λ f. (refl, refl))
        (λ f found (valid, current). (
          valid,
          ground (
            arith,
            live_after_stamp draw actor id form_id t.versions there,
            find-true (λ x. x.id == form_id) t.forms found,
          ),
        ))
        after in
    ground (arith, kept)

pub deploy_in-IsSound :
    (draw : Draw) (actor : RlsContext) (form_id : Uuid) (t : FormTables)
    → IsSound t
    → IsSound (deploy_in draw actor form_id t).1
unfolding deploy_in
deploy_in-IsSound draw actor form_id t h = elim (Option-cases (latest_version form_id t)) [
  | inl missing ↦ ground arith
  | inr (v, there) ↦
      ground (arith, deployed-IsSound draw actor form_id v.id t (latest_there form_id t there) h)
]
