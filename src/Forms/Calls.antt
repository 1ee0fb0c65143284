-- ===== src/Forms/Calls.antt =====
-- All of the calls that write forms and versions, and what holds after any of them.
use wdc_backend.Prelude.{ℕ, Uuid, String, refl, Option, List, [], ◌∷◌}
use wdc_backend.Rls.{RlsContext}
use wdc_backend.Handler.{Draw, World, Handler}
use wdc_backend.Handler.Laws.{
  IsAudited, audited-IsAudited, audited-keeps, forget, forget-IsAudited, forget-keeps,
}
use wdc_backend.Forms.{FormTables, archived}
use wdc_backend.Forms.Schema.{FormSchema}
use wdc_backend.Forms.Catalog.{
  CreateArgs, FormPatch, create_in, create, update_in, update, update_form, archive,
}
use wdc_backend.Forms.Versions.{version_in, create_version, deploy_in, deploy}

pub data FormCall : Type 0 where
  create_call : CreateArgs → FormCall
  update_call : Uuid → FormPatch → Option Uuid → FormCall
  version_call : Uuid → FormSchema → Option Uuid → FormCall
  deploy_call archive_call : Uuid → Option Uuid → FormCall

unfoldable pub run_form_call :
    (ℕ → String) → Draw → RlsContext → FormCall → Handler FormTables (Unit {0})
run_form_call text_of draw actor (create_call args) w = forget (create draw actor args w)
run_form_call text_of draw actor (update_call id patch request_id) w =
    forget (update draw actor id patch request_id w)
run_form_call text_of draw actor (version_call id schema request_id) w =
    forget (create_version text_of draw actor id schema request_id w)
run_form_call text_of draw actor (deploy_call id request_id) w =
    forget (deploy text_of draw actor id request_id w)
run_form_call text_of draw actor (archive_call id request_id) w =
    forget (archive draw actor id request_id w)

unfoldable pub run_form_calls :
    (ℕ → String) → List (Draw × RlsContext × FormCall) → World FormTables → World FormTables
run_form_calls text_of [] w = w
run_form_calls text_of ((draw, actor, call) ∷ calls) w =
    run_form_calls text_of calls (run_form_call text_of draw actor call w).1

-- A call on forms that returns was made by a director, and leaves exactly one more audit event,
-- which names the director. One that raises an error leaves the tables and the audit log as they
-- were, unless it is the append of the event that raised: then a director made the call, and the
-- audit log is as it was.
pub run_form_call-IsAudited :
    (text_of : ℕ → String) (draw : Draw) (actor : RlsContext) (call : FormCall)
    (w : World FormTables)
    → IsAudited draw.append_fails actor w (run_form_call text_of draw actor call w)
unfolding run_form_call create update create_version deploy archive
run_form_call-IsAudited text_of draw actor (create_call args) w =
    forget-IsAudited draw.append_fails actor w _
      (audited-IsAudited draw.append_fails actor _ _ (λ a. (refl, refl, refl)) _ w)
run_form_call-IsAudited text_of draw actor (update_call id patch request_id) w =
    forget-IsAudited draw.append_fails actor w _
      (audited-IsAudited draw.append_fails actor _ _ (λ a. (refl, refl, refl)) _ w)
run_form_call-IsAudited text_of draw actor (version_call id schema request_id) w =
    forget-IsAudited draw.append_fails actor w _
      (audited-IsAudited draw.append_fails actor _ _ (λ a. (refl, refl, refl)) _ w)
run_form_call-IsAudited text_of draw actor (deploy_call id request_id) w =
    forget-IsAudited draw.append_fails actor w _
      (audited-IsAudited draw.append_fails actor _ _ (λ a. (refl, refl, refl)) _ w)
run_form_call-IsAudited text_of draw actor (archive_call id request_id) w =
    forget-IsAudited draw.append_fails actor w _
      (audited-IsAudited draw.append_fails actor _ _ (λ a. (refl, refl, refl)) _ w)

-- A property of the tables that the body of every transaction keeps.
pub record IsKept (P : FormTables → Type 0) : Type 0 where
  pub created :
      (draw : Draw) (actor : RlsContext) (args : CreateArgs) (t : FormTables)
      → P t
      → P (create_in draw actor args t).1
  pub updated :
      (draw : Draw) (id : Uuid) (patch : FormPatch) (t : FormTables)
      → P t
      → P (update_in draw id patch t).1
  pub versioned :
      (draw : Draw) (id : Uuid) (schema : FormSchema) (t : FormTables)
      → P t
      → P (version_in draw id schema t).1
  pub deploying :
      (draw : Draw) (actor : RlsContext) (id : Uuid) (t : FormTables)
      → P t
      → P (deploy_in draw actor id t).1
  pub archiving :
      (draw : Draw) (id : Uuid) (t : FormTables)
      → P t
      → P (update_form draw id (λ f. record f { status = archived }) t).1

module _ (P : FormTables → Type 0) (k : IsKept P) (text_of : ℕ → String) where
  run_form_call-keeps :
      (draw : Draw) (actor : RlsContext) (call : FormCall) (w : World FormTables)
      → P w.tables
      → P (run_form_call text_of draw actor call w).1.tables
  unfolding run_form_call create update create_version deploy archive
  run_form_call-keeps draw actor (create_call args) w h =
      forget-keeps P _ (audited-keeps P actor _ _ _ w (k.created draw actor args w.tables) h)
  run_form_call-keeps draw actor (update_call id patch request_id) w h =
      forget-keeps P _ (audited-keeps P actor _ _ _ w (k.updated draw id patch w.tables) h)
  run_form_call-keeps draw actor (version_call id schema request_id) w h =
      forget-keeps P _ (audited-keeps P actor _ _ _ w (k.versioned draw id schema w.tables) h)
  run_form_call-keeps draw actor (deploy_call id request_id) w h =
      forget-keeps P _ (audited-keeps P actor _ _ _ w (k.deploying draw actor id w.tables) h)
  run_form_call-keeps draw actor (archive_call id request_id) w h =
      forget-keeps P _ (audited-keeps P actor _ _ _ w (k.archiving draw id w.tables) h)

  pub run_form_calls-keeps :
      (calls : List (Draw × RlsContext × FormCall)) (w : World FormTables)
      → P w.tables
      → P (run_form_calls text_of calls w).tables
  unfolding run_form_calls
  run_form_calls-keeps [] w h = h
  run_form_calls-keeps ((draw, actor, call) ∷ calls) w h =
      run_form_calls-keeps calls _ (run_form_call-keeps draw actor call w h)
