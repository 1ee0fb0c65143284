-- ===== src/Forms/Sound/Catalog.antt =====
-- `create`, `update` and `archive` keep the tables of forms sound.
use wdc_backend.Prelude.{
  Uuid, String, ◌≡◌, refl, false, Option, none, some, List, [], ◌∷◌, ◌++◌, any, ◌==◌, str_eq, arith,
  All-append, All-mono, Option-cases, Bool-cases, inl, inr, ◌⊎◌, IsUnique-snoc, any-snoc,
}
use wdc_backend.Rls.{RlsContext}
use wdc_backend.Database.{Result, ok, err, Error}
use wdc_backend.Handler.{Draw}
use wdc_backend.Forms.{
  FormRow, VersionRow, FormTables, archived, ScopeKind, state, lga, ward, validate_scope,
}
use wdc_backend.Forms.Catalog.{
  CreateArgs, FormPatch, insert_form, create_in, update_form, rescope, update_in, form_of, set_form,
  or_nobody, or_else, touches_scope,
}
use wdc_backend.Forms.Sound.{
  IsSound, IsProper, has_current, same_form, same_slug, update_form-IsSound,
}

add_form-IsSound :
    (row : FormRow) (t : FormTables)
    → any (λ f. f.id == row.id) t.forms ≡ false
    → any (λ f. str_eq f.slug row.slug) t.forms ≡ false
    → IsProper t.versions row
    → IsSound t
    → IsSound (record t { forms = t.forms ++ (row ∷ []) })
add_form-IsSound row t fresh new_slug proper h = record {
  ids = IsUnique-snoc same_form t.forms row fresh h.ids;
  slugs = IsUnique-snoc same_slug t.forms row new_slug h.slugs;
  version_ids = h.version_ids;
  numbers = h.numbers;
  owned =
      All-mono _ _ t.versions (λ v p. ground (arith, any-snoc (λ f. f.id == v.form_id) t.forms row))
        h.owned;
  proper = All-append (IsProper t.versions) t.forms (row ∷ []) h.proper (proper, tt);
}

-- A scope that passed the check as it was given passes it as it is stored.
stored_scope :
    (kind : ScopeKind) (ids : Option (List String))
    → validate_scope kind ids ≡ ok tt
    → validate_scope kind (some (or_nobody ids)) ≡ ok tt
unfolding validate_scope
stored_scope state none h = refl
stored_scope state (some ids) h = h
stored_scope lga none h = h
stored_scope lga (some ids) h = h
stored_scope ward none h = h
stored_scope ward (some ids) h = h

insert_form-IsSound :
    (draw : Draw) (actor : RlsContext) (args : CreateArgs) (t : FormTables)
    → validate_scope args.scope_kind args.scope_ids ≡ ok tt
    → IsSound t
    → IsSound (insert_form draw actor args t).1
unfolding insert_form
insert_form-IsSound draw actor args t scope h =
    let stored = stored_scope args.scope_kind args.scope_ids scope in
    grind (arith, add_form-IsSound)

Result-cases : (r : Result (Unit {0})) → (r ≡ ok tt) ⊎ ((e : Error) × (r ≡ err e))
Result-cases (ok tt) = inl refl
Result-cases (err e) = inr (e, refl)

pub create_in-IsSound :
    (draw : Draw) (actor : RlsContext) (args : CreateArgs) (t : FormTables)
    → IsSound t
    → IsSound (create_in draw actor args t).1
unfolding create_in
create_in-IsSound draw actor args t h =
    elim (Result-cases (validate_scope args.scope_kind args.scope_ids)) [
      | inl valid ↦ ground (arith, insert_form-IsSound draw actor args t valid h)
      | inr (e, refused) ↦ ground arith
    ]

has_current-same :
    (versions : List VersionRow) (f g : FormRow)
    → g.id ≡ f.id
    → g.status ≡ f.status
    → g.current_version_id ≡ f.current_version_id
    → has_current versions g ≡ has_current versions f
has_current-same versions f g i s c = ground arith

set_form-IsSound :
    (draw : Draw) (id : Uuid) (p : FormPatch) (t : FormTables)
    → ((f : FormRow)
        → form_of id t ≡ some f
        → validate_scope f.scope_kind (some f.scope_ids) ≡ ok tt
        → validate_scope
            (or_else p.scope_kind f.scope_kind)
            (some (or_else p.scope_ids f.scope_ids))
          ≡ ok tt)
    → IsSound t
    → IsSound (update_form draw id (set_form p) t).1
unfolding set_form
set_form-IsSound draw id p t scope h =
    update_form-IsSound draw id (set_form p) t (λ f. (refl, refl))
      (λ f there (valid, current). (scope f there valid, current)) h

rescope-IsSound :
    (draw : Draw) (id : Uuid) (p : FormPatch) (t : FormTables)
    → IsSound t
    → IsSound (rescope draw id p t).1
unfolding rescope
rescope-IsSound draw id p t h = elim (Option-cases (form_of id t)) [
  | inl missing ↦ ground arith
  | inr (f, there) ↦
      elim (Result-cases (
        validate_scope (or_else p.scope_kind f.scope_kind)
          (some (or_else p.scope_ids f.scope_ids)))) [
            | inl valid ↦ ground (arith, set_form-IsSound draw id p t (λ g same _. ground arith) h)
            | inr (e, refused) ↦ ground arith
          ]
]

pub update_in-IsSound :
    (draw : Draw) (id : Uuid) (p : FormPatch) (t : FormTables)
    → IsSound t
    → IsSound (update_in draw id p t).1
unfolding update_in
update_in-IsSound draw id p t h = elim (Bool-cases (touches_scope p)) [
  | inl touched ↦ rw touched (rescope-IsSound draw id p t h)
  | inr untouched ↦
      let kept = set_form-IsSound draw id p t (λ f there valid. ground arith) h in
      ground (arith, kept)
]

pub archive-IsSound :
    (draw : Draw) (id : Uuid) (t : FormTables)
    → IsSound t
    → IsSound (update_form draw id (λ f. record f { status = archived }) t).1
archive-IsSound draw id t h =
    update_form-IsSound draw id (λ f. record f { status = archived }) t (λ f. (refl, refl))
      (λ f there (valid, current). (valid, ground arith)) h
