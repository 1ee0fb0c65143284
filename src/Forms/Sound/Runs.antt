-- ===== src/Forms/Sound/Runs.antt =====
-- The invariant after any calls, and what it says of the forms that a caller is shown.

use wdc_backend.Prelude.{
  ℕ, Uuid, String, ◌≡◌, Bool, true, some, List, [], ◌∷◌, any, select, arith, All, All-map,
  All-sort_by, Bool-cases, Option-cases, inl, inr,
}
use wdc_backend.Rls.{RlsContext}
use wdc_backend.Database.{Result, ok, err}
use wdc_backend.Handler.{Draw, World, transact}
use wdc_backend.Forms.{FormStatus, deployed, FormRow, VersionRow, FormTables, to_form_view}
use wdc_backend.Forms.Visible.{is_deployed, is_in_scope, is_visible, list_visible}
use wdc_backend.Forms.Calls.{FormCall, run_form_calls, run_form_calls-keeps}
use wdc_backend.Forms.Sound.{IsSound, IsProper, is_live_version}
use wdc_backend.Forms.Sound.Catalog.{create_in-IsSound, update_in-IsSound, archive-IsSound}
use wdc_backend.Forms.Sound.Versions.{version_in-IsSound, deploy_in-IsSound}

-- Whatever calls are made, by any actors and in any order, from sound tables: the ids and the slugs
-- of forms, the ids of versions and the numbers of a form's versions stay unique, every version has
-- its form, every scope passes the check, and the current version of a form, which every deployed
-- form has, is a deployed version of that form.
pub run_form_calls-IsSound :
    (text_of : ℕ → String) (calls : List (Draw × RlsContext × FormCall)) (w : World FormTables)
    → IsSound w.tables
    → IsSound (run_form_calls text_of calls w).tables
run_form_calls-IsSound text_of calls w h =
    run_form_calls-keeps IsSound
      (record {
        created = create_in-IsSound;
        updated = update_in-IsSound;
        versioned = version_in-IsSound;
        deploying = deploy_in-IsSound;
        archiving = archive-IsSound;
      })
      text_of calls w h

-- A form that may be filled by this caller: it is deployed, in the caller's scope, and its current
-- version is a deployed version of it.
abbrev pub IsFillable : (Uuid → String) → RlsContext → List VersionRow → FormRow → Type 0
IsFillable uuid_text actor versions f =
    (f.status ≡ deployed)
    × (is_in_scope uuid_text actor f ≡ true)
    × ((id : Uuid) × (f.current_version_id ≡ some id)
        × (any (is_live_version id f.id) versions ≡ true))

deployed_status : (s : FormStatus) → is_deployed s ≡ true → s ≡ deployed
deployed_status s h = ground arith

visible-IsFillable :
    (uuid_text : Uuid → String) (actor : RlsContext) (versions : List VersionRow) (f : FormRow)
    → is_visible uuid_text actor f ≡ true
    → IsProper versions f
    → IsFillable uuid_text actor versions (to_form_view f)
unfolding to_form_view is_in_scope
visible-IsFillable uuid_text actor versions f seen (valid, current) =
    elim (Option-cases f.current_version_id) [
      | inl nothing ↦ absurd (ground arith)
      | inr (id, there) ↦
          (deployed_status f.status (ground arith), ground arith, (id, there, ground arith))
    ]

shown :
    (uuid_text : Uuid → String) (actor : RlsContext) (versions : List VersionRow)
    (fs : List FormRow)
    → All (IsProper versions) fs
    → All
        (λ f. IsFillable uuid_text actor versions (to_form_view f))
        (select (is_visible uuid_text actor) fs)
shown uuid_text actor versions [] h = tt
shown uuid_text actor versions (f ∷ fs) (p, h) = elim (Bool-cases (is_visible uuid_text actor f)) [
  | inl seen ↦
      rw seen
        (visible-IsFillable uuid_text actor versions f seen p, shown uuid_text actor versions fs h)
  | inr hidden ↦ rw hidden (shown uuid_text actor versions fs h)
]

abbrev pub AllFillable :
    {W : Type 0}
    → (Uuid → String)
    → RlsContext
    → List VersionRow
    → Result (List FormRow) × W
    → Type 0
AllFillable uuid_text actor versions (ok fs, w) = All (IsFillable uuid_text actor versions) fs
AllFillable uuid_text actor versions (err e, w) = ⊥

-- After any calls from sound tables, `listVisible` returns, and every form that it shows is
-- deployed, in the caller's scope, and has a current version that is a deployed version of it.
pub list_visible-AllFillable :
    (uuid_text : Uuid → String) (text_of : ℕ → String) (collate : String → String → Bool)
    (actor : RlsContext) (calls : List (Draw × RlsContext × FormCall)) (w : World FormTables)
    → IsSound w.tables
    → let after = run_form_calls text_of calls w in
      AllFillable uuid_text actor after.tables.versions (list_visible uuid_text collate actor after)
unfolding list_visible transact
list_visible-AllFillable uuid_text text_of collate actor calls w h =
    let after = run_form_calls text_of calls w in
    All-map (IsFillable uuid_text actor after.tables.versions) to_form_view _ (
      All-sort_by (λ f. IsFillable uuid_text actor after.tables.versions (to_form_view f))
        (λ f g. collate f.title g.title) _
        (shown uuid_text actor after.tables.versions after.tables.forms
          (run_form_calls-IsSound text_of calls w h).proper))
