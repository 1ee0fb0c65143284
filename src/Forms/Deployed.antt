-- ===== src/Forms/Deployed.antt =====
-- A deployed version never changes.
use wdc_backend.Prelude.{
  ℕ, Uuid, String, ◌≡◌, refl, true, false, some, List, [], ◌∷◌, ◌++◌, find, any, update_where, ◌==◌,
  arith, Option-cases, inl, inr,
}
use wdc_backend.Rls.{RlsContext}
use wdc_backend.Database.{Result, ok, err}
use wdc_backend.Handler.{Draw, World}
use wdc_backend.Forms.{FormRow, VersionRow, FormTables, archived}
use wdc_backend.Forms.Schema.{FormSchema}
use wdc_backend.Forms.Catalog.{
  CreateArgs, FormPatch, insert_form, create_in, update_form, rescope, update_in, is_given,
  set_form,
}
use wdc_backend.Forms.Versions.{
  insert_version, version_in, stamp_version, deploy_in, latest_version, then_set_current,
  is_deployed_version, set_current,
}
use wdc_backend.Forms.Calls.{FormCall, run_form_calls, run_form_calls-keeps}

-- The version of this id is this row.
abbrev pub IsVersion : Uuid → VersionRow → FormTables → Type 0
IsVersion id row t = find (λ v. v.id == id) t.versions ≡ some row

find-snoc :
    (id : Uuid) (row new : VersionRow) (vs : List VersionRow)
    → find (λ v. v.id == id) vs ≡ some row
    → find (λ v. v.id == id) (vs ++ (new ∷ [])) ≡ some row
find-snoc id row new [] h = cc
find-snoc id row new (v ∷ vs) h = ground (arith, find-snoc id row new vs)

-- An update of the rows of an id, none of which is deployed, leaves a deployed row.
find-stamped :
    (id other : Uuid) (row : VersionRow) (f : VersionRow → VersionRow) (vs : List VersionRow)
    → is_given row.deployed_at ≡ true
    → ((v : VersionRow) → (f v).id ≡ v.id)
    → any (is_deployed_version other) vs ≡ false
    → find (λ v. v.id == id) vs ≡ some row
    → find (λ v. v.id == id) (update_where (λ v. v.id == other) f vs) ≡ some row
find-stamped id other row f [] d same fresh h = cc
find-stamped id other row f (v ∷ vs) d same fresh h =
    ground (arith, find-stamped id other row f vs d same, same v)

module _ (id : Uuid) (row : VersionRow) (d : is_given row.deployed_at ≡ true) where
  update_form-IsVersion :
      (draw : Draw) (form_id : Uuid) (set : FormRow → FormRow) (t : FormTables)
      → IsVersion id row t
      → IsVersion id row (update_form draw form_id set t).1
  unfolding update_form
  update_form-IsVersion draw form_id set t h = ground arith

  create_in-IsVersion :
      (draw : Draw) (actor : RlsContext) (args : CreateArgs) (t : FormTables)
      → IsVersion id row t
      → IsVersion id row (create_in draw actor args t).1
  unfolding create_in insert_form
  create_in-IsVersion draw actor args t h = ground arith

  update_in-IsVersion :
      (draw : Draw) (form_id : Uuid) (patch : FormPatch) (t : FormTables)
      → IsVersion id row t
      → IsVersion id row (update_in draw form_id patch t).1
  unfolding update_in rescope
  update_in-IsVersion draw form_id patch t h =
      ground (arith, update_form-IsVersion draw form_id (set_form patch) t h)

  version_in-IsVersion :
      (draw : Draw) (form_id : Uuid) (schema : FormSchema) (t : FormTables)
      → IsVersion id row t
      → IsVersion id row (version_in draw form_id schema t).1
  unfolding version_in insert_version
  version_in-IsVersion draw form_id schema t h = grind (arith, find-snoc)

  stamp_version-IsVersion :
      (draw : Draw) (actor : RlsContext) (other : Uuid) (t : FormTables)
      → IsVersion id row t
      → IsVersion id row (stamp_version draw actor other t).1
  unfolding stamp_version
  stamp_version-IsVersion draw actor other t h = ground (
    arith,
    find-stamped id other row
        (λ v. record v { deployed_at = some draw.now; deployed_by = actor.user_id }) t.versions d
        (λ v. refl),
  )

  then_set_current-IsVersion :
      (draw : Draw) (form_id other : Uuid) (p : Result (Unit {0}) × FormTables)
      → IsVersion id row p.1
      → IsVersion id row (then_set_current draw form_id other p).1
  then_set_current-IsVersion draw form_id other (ok _, t) h =
      update_form-IsVersion draw form_id (set_current other) t h
  then_set_current-IsVersion draw form_id other (err e, t) h = h

  deploy_in-IsVersion :
      (draw : Draw) (actor : RlsContext) (form_id : Uuid) (t : FormTables)
      → IsVersion id row t
      → IsVersion id row (deploy_in draw actor form_id t).1
  unfolding deploy_in
  deploy_in-IsVersion draw actor form_id t h = elim (Option-cases (latest_version form_id t)) [
    | inl missing ↦ ground arith
    | inr (v, there) ↦ ground (
      arith,
      then_set_current-IsVersion draw form_id v.id (stamp_version draw actor v.id t)
          (stamp_version-IsVersion draw actor v.id t h),
    )
  ]

-- A version that is deployed stays exactly as it is, its schema included, whatever calls are made.
pub run_form_calls-IsVersion :
    (text_of : ℕ → String) (calls : List (Draw × RlsContext × FormCall)) (id : Uuid)
    (row : VersionRow) (w : World FormTables)
    → is_given row.deployed_at ≡ true
    → IsVersion id row w.tables
    → IsVersion id row (run_form_calls text_of calls w).tables
run_form_calls-IsVersion text_of calls id row w d h =
    run_form_calls-keeps (IsVersion id row)
      (record {
        created = create_in-IsVersion id row d;
        updated = update_in-IsVersion id row d;
        versioned = version_in-IsVersion id row d;
        deploying = deploy_in-IsVersion id row d;
        archiving = λ draw form_id t.
            update_form-IsVersion id row d draw form_id (λ f. record f { status = archived }) t;
      })
      text_of calls w h
