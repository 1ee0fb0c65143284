-- ===== src/Investigations/Stays.antt =====
-- An investigation is never lost, nor is it said to be another's or of another time.
use wdc_backend.Prelude.{
  Uuid, Timestamp, String, ◌≡◌, refl, ◌∙◌, true, ◌&&◌, List, any, ◌==◌, arith, any-snoc,
  any-update_where,
}
use wdc_backend.Rls.{RlsContext}
use wdc_backend.Handler.{Draw, World}
use wdc_backend.Investigations.{InvestigationRow, Tables}
use wdc_backend.Investigations.Cases.{CreateArgs, insert_investigation, update_investigation}
use wdc_backend.Investigations.Evidence.{EvidenceArgs, insert_evidence, add_in, delete_evidence}
use wdc_backend.Investigations.Kept.{run_calls-keeps}
use wdc_backend.Investigations.Calls.{Operation, run_calls}
use wdc_backend.Investigations.Intact.{KeepsIdentity, each_admitted}

-- There is an investigation with this id, opened by this user at this time.
abbrev pub Stays : Uuid → Uuid → Timestamp → Tables → Type 0
Stays id opener created t =
    any (λ i. (i.id == id && i.opened_by == opener) && i.created_at == created) t.investigations
    ≡ true

module _ (id opener : Uuid) (created : Timestamp) where
  insert_investigation-Stays :
      (draw : Draw) (actor : RlsContext) (args : CreateArgs) (t : Tables)
      → Stays id opener created t
      → Stays id opener created (insert_investigation draw actor args t).1
  unfolding insert_investigation
  insert_investigation-Stays draw actor args t h = grind (arith, any-snoc)

  update_investigation-Stays :
      (draw : Draw) (case_id : Uuid) (set : InvestigationRow → InvestigationRow) (t : Tables)
      → KeepsIdentity set
      → Stays id opener created t
      → Stays id opener created (update_investigation draw case_id set t).1
  unfolding update_investigation
  update_investigation-Stays draw case_id set t same h =
      let stays =
        any-update_where (λ i. (i.id == id && i.opened_by == opener) && i.created_at == created)
          (λ i. i.id == case_id) (λ i. record (set i) { updated_at = draw.now }) t.investigations
          (λ i. ground (arith, (same i).0, (same i).1, (same i).2))
        ∙ h in
      ground (arith, stays)

  add_in-Stays :
      (draw : Draw) (actor : RlsContext) (case_id : Uuid) (args : EvidenceArgs) (t : Tables)
      → Stays id opener created t
      → Stays id opener created (add_in draw actor case_id args t).1
  unfolding add_in insert_evidence
  add_in-Stays draw actor case_id args t h = ground arith

  delete_evidence-Stays :
      (piece case_id : Uuid) (t : Tables)
      → Stays id opener created t
      → Stays id opener created (delete_evidence piece case_id t).1
  unfolding delete_evidence
  delete_evidence-Stays piece case_id t h = ground arith

  -- An investigation that is there stays, with its opener and its time of creation, whatever calls
  -- are made.
  pub run_calls-Stays :
      (uuid_text : Uuid → String) (calls : List (Draw × RlsContext × Operation)) (w : World Tables)
      → Stays id opener created w.tables
      → Stays id opener created (run_calls uuid_text calls w).tables
  run_calls-Stays uuid_text calls w h =
      run_calls-keeps (Stays id opener created) KeepsIdentity
        (record {
          inserted = insert_investigation-Stays;
          updated = update_investigation-Stays;
          added = add_in-Stays;
          removed = delete_evidence-Stays;
          closing = λ draw i. (refl, refl, refl);
          reopening = λ i. (refl, refl, refl);
        })
        uuid_text calls w (each_admitted (Stays id opener created) calls) h
