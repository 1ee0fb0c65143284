-- ===== src/Investigations/Kept.antt =====
-- A property of the tables that every statement keeps is kept by every sequence of calls.
use wdc_backend.Prelude.{
  Uuid, String, none, some, List, [], ◌∷◌, All, arith, Bool-cases, inl, inr, if◌then◌else◌,
}
use wdc_backend.Rls.{RlsContext}
use wdc_backend.Handler.{Draw, World}
use wdc_backend.Handler.Laws.{audited-keeps, forget-keeps}
use wdc_backend.Investigations.{InvestigationRow, Tables, opened, closed}
use wdc_backend.Investigations.Cases.{
  CreateArgs, Patch, is_empty_patch, insert_investigation, update_investigation, found, set_columns,
  create, update, close, reopen,
}
use wdc_backend.Investigations.Evidence.{
  EvidenceArgs, add_in, delete_evidence, add_evidence, remove_evidence,
}
use wdc_backend.Investigations.Calls.{
  Operation, create_case, update_case, close_case, reopen_case, add, remove, run_call, run_calls,
}

-- What the statements keep, of the assignments that `Allowed` admits; `close` and `reopen` are
-- admitted.
pub record IsKept (P : Tables → Type 0) (Allowed : (InvestigationRow → InvestigationRow) → Type 0)
    : Type 0 where
  pub inserted :
      (draw : Draw) (actor : RlsContext) (args : CreateArgs) (t : Tables)
      → P t
      → P (insert_investigation draw actor args t).1
  pub updated :
      (draw : Draw) (id : Uuid) (set : InvestigationRow → InvestigationRow) (t : Tables)
      → Allowed set
      → P t
      → P (update_investigation draw id set t).1
  pub added :
      (draw : Draw) (actor : RlsContext) (id : Uuid) (args : EvidenceArgs) (t : Tables)
      → P t
      → P (add_in draw actor id args t).1
  pub removed : (id case_id : Uuid) (t : Tables) → P t → P (delete_evidence id case_id t).1
  pub closing :
      (draw : Draw) → Allowed (λ i. record i { status = closed; closed_at = some draw.now })
  pub reopening : Allowed (λ i. record i { status = opened; closed_at = none })

module _ (P : Tables → Type 0) (Allowed : (InvestigationRow → InvestigationRow) → Type 0) where
  abbrev pub Admits : Operation → Type 0
  Admits (update_case id patch request_id) = Allowed (set_columns patch)
  Admits _ = Unit

  found-keeps : (id : Uuid) (t : Tables) → P t → P (found id t).1
  found-keeps id t h = ground arith

  patch-keeps :
      IsKept P Allowed
      → (draw : Draw) (id : Uuid) (patch : Patch) (t : Tables) → Allowed (set_columns patch)
      → P t
      → P
          ((if is_empty_patch patch
              then found id
              else update_investigation draw id (set_columns patch))
            t).1
  patch-keeps k draw id patch t a h = elim (Bool-cases (is_empty_patch patch)) [
    | inl is_empty ↦ rw is_empty (found-keeps id t h)
    | inr changes ↦ rw changes (k.updated draw id (set_columns patch) t a h)
  ]

  run_call-keeps :
      IsKept P Allowed
      → (uuid_text : Uuid → String) (draw : Draw) (actor : RlsContext) (op : Operation)
        (w : World Tables)
      → Admits op
      → P w.tables
      → P (run_call uuid_text draw actor op w).1.tables
  unfolding run_call create update close reopen add_evidence remove_evidence
  run_call-keeps k uuid_text draw actor (create_case args) w a h =
      forget-keeps P _ (audited-keeps P actor _ _ _ w (k.inserted draw actor args w.tables) h)
  run_call-keeps k uuid_text draw actor (update_case id patch request_id) w a h =
      forget-keeps P _ (audited-keeps P actor _ _ _ w (patch-keeps k draw id patch w.tables a) h)
  run_call-keeps k uuid_text draw actor (close_case id request_id) w a h =
      forget-keeps P _
        (audited-keeps P actor _ _ _ w (k.updated draw id _ w.tables (k.closing draw)) h)
  run_call-keeps k uuid_text draw actor (reopen_case id request_id) w a h =
      forget-keeps P _ (audited-keeps P actor _ _ _ w (k.updated draw id _ w.tables k.reopening) h)
  run_call-keeps k uuid_text draw actor (add id args) w a h =
      forget-keeps P _ (audited-keeps P actor _ _ _ w (k.added draw actor id args w.tables) h)
  run_call-keeps k uuid_text draw actor (remove id evidence_id request_id) w a h =
      audited-keeps P actor _ _ _ w (k.removed evidence_id id w.tables) h

  pub run_calls-keeps :
      IsKept P Allowed
      → (uuid_text : Uuid → String) (calls : List (Draw × RlsContext × Operation))
        (w : World Tables)
      → All (λ c. Admits c.2) calls
      → P w.tables
      → P (run_calls uuid_text calls w).tables
  unfolding run_calls
  run_calls-keeps k uuid_text [] w a h = h
  run_calls-keeps k uuid_text ((draw, actor, op) ∷ calls) w (a, rest) h =
      run_calls-keeps k uuid_text calls _ rest (run_call-keeps k uuid_text draw actor op w a h)
