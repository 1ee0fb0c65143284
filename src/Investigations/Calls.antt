-- ===== src/Investigations/Calls.antt =====
-- All of the calls that write investigations and evidence, and what holds after any of them.
use wdc_backend.Prelude.{Uuid, String, ◌≡◌, refl, sym, ◌∙◌, Option, none, List, [], ◌∷◌}
use wdc_backend.Rls.{RlsContext}
use wdc_backend.Database.{Error}
use wdc_backend.Handler.{Draw, World, Handler}
use wdc_backend.Handler.Laws.{
  IsAudited, audited-IsAudited, audited-tables, forget, forget-tables, forget-IsAudited,
}
use wdc_backend.Investigations.{Tables}
use wdc_backend.Investigations.Cases.{
  CreateArgs, Patch, insert_investigation, update_investigation, create, update, close, reopen,
}
use wdc_backend.Investigations.Evidence.{
  EvidenceArgs, insert_evidence, add_in, add_evidence, remove_evidence,
}

pub data Operation : Type 0 where
  create_case : CreateArgs → Operation
  update_case : Uuid → Patch → Option Uuid → Operation
  close_case : Uuid → Option Uuid → Operation
  reopen_case : Uuid → Option Uuid → Operation
  add : Uuid → EvidenceArgs → Operation
  remove : Uuid → Uuid → Option Uuid → Operation

unfoldable pub run_call :
    (Uuid → String) → Draw → RlsContext → Operation → Handler Tables (Unit {0})
run_call uuid_text draw actor (create_case args) w = forget (create draw actor args w)
run_call uuid_text draw actor (update_case id patch request_id) w =
    forget (update draw actor id patch request_id w)
run_call uuid_text draw actor (close_case id request_id) w =
    forget (close draw actor id request_id w)
run_call uuid_text draw actor (reopen_case id request_id) w =
    forget (reopen draw actor id request_id w)
run_call uuid_text draw actor (add id args) w = forget (add_evidence uuid_text draw actor id args w)
run_call uuid_text draw actor (remove id evidence_id request_id) w =
    remove_evidence uuid_text draw actor id evidence_id request_id w

unfoldable pub run_calls :
    (Uuid → String) → List (Draw × RlsContext × Operation) → World Tables → World Tables
run_calls uuid_text [] w = w
run_calls uuid_text ((draw, actor, op) ∷ calls) w =
    run_calls uuid_text calls (run_call uuid_text draw actor op w).1

call-IsAudited :
    (uuid_text : Uuid → String) (draw : Draw) (actor : RlsContext) (op : Operation)
    (w : World Tables)
    → IsAudited draw.append_fails actor w (run_call uuid_text draw actor op w)
unfolding run_call create update close reopen add_evidence remove_evidence
call-IsAudited uuid_text draw actor (create_case args) w =
    forget-IsAudited draw.append_fails actor w _
      (audited-IsAudited draw.append_fails actor _ _ (λ a. (refl, refl, refl)) _ w)
call-IsAudited uuid_text draw actor (update_case id patch request_id) w =
    forget-IsAudited draw.append_fails actor w _
      (audited-IsAudited draw.append_fails actor _ _ (λ a. (refl, refl, refl)) _ w)
call-IsAudited uuid_text draw actor (close_case id request_id) w =
    forget-IsAudited draw.append_fails actor w _
      (audited-IsAudited draw.append_fails actor _ _ (λ a. (refl, refl, refl)) _ w)
call-IsAudited uuid_text draw actor (reopen_case id request_id) w =
    forget-IsAudited draw.append_fails actor w _
      (audited-IsAudited draw.append_fails actor _ _ (λ a. (refl, refl, refl)) _ w)
call-IsAudited uuid_text draw actor (add id args) w =
    forget-IsAudited draw.append_fails actor w _
      (audited-IsAudited draw.append_fails actor _ _ (λ a. (refl, refl, refl)) _ w)
call-IsAudited uuid_text draw actor (remove id evidence_id request_id) w =
    audited-IsAudited draw.append_fails actor _ _ (λ a. (refl, refl, refl)) _ w

-- The tables after a call are the same whether the append of its event raises or not.
call-tables :
    (uuid_text : Uuid → String) (draw : Draw) (actor : RlsContext) (op : Operation)
    (w : World Tables) (fails : Option Error)
    → (run_call uuid_text draw actor op w).1.tables
      ≡ (run_call uuid_text (record draw { append_fails = fails }) actor op w).1.tables
unfolding run_call create update close reopen add_evidence remove_evidence insert_investigation
    update_investigation add_in insert_evidence
call-tables uuid_text draw actor (create_case args) w fails =
    forget-tables (create draw actor args w)
    ∙ audited-tables actor _ _ _ _ _ w
    ∙ sym (forget-tables (create (record draw { append_fails = fails }) actor args w))
call-tables uuid_text draw actor (update_case id patch request_id) w fails =
    forget-tables (update draw actor id patch request_id w)
    ∙ audited-tables actor _ _ _ _ _ w
    ∙ sym
        (forget-tables (update (record draw { append_fails = fails }) actor id patch request_id w))
call-tables uuid_text draw actor (close_case id request_id) w fails =
    forget-tables (close draw actor id request_id w)
    ∙ audited-tables actor _ _ _ _ _ w
    ∙ sym (forget-tables (close (record draw { append_fails = fails }) actor id request_id w))
call-tables uuid_text draw actor (reopen_case id request_id) w fails =
    forget-tables (reopen draw actor id request_id w)
    ∙ audited-tables actor _ _ _ _ _ w
    ∙ sym (forget-tables (reopen (record draw { append_fails = fails }) actor id request_id w))
call-tables uuid_text draw actor (add id args) w fails =
    forget-tables (add_evidence uuid_text draw actor id args w)
    ∙ audited-tables actor _ _ _ _ _ w
    ∙ sym (
        forget-tables
          (add_evidence uuid_text (record draw { append_fails = fails }) actor id args w))
call-tables uuid_text draw actor (remove id evidence_id request_id) w fails =
    audited-tables actor _ _ _ _ _ w

-- A call that returns was made by a director, and leaves exactly one more audit event, which names
-- the director. A call that raises an error leaves the tables and the audit log as they were, unless
-- it is the append of the event that raised, after the commit: then a director made the call and
-- the audit log is as it was. Either way the call leaves the tables as it would leave them if the
-- append did not raise.
pub run_call-IsAudited :
    (uuid_text : Uuid → String) (draw : Draw) (actor : RlsContext) (op : Operation)
    (w : World Tables)
    → IsAudited draw.append_fails actor w (run_call uuid_text draw actor op w)
      × ((run_call uuid_text draw actor op w).1.tables
          ≡ (run_call uuid_text (record draw { append_fails = none }) actor op w).1.tables)
run_call-IsAudited uuid_text draw actor op w =
    (call-IsAudited uuid_text draw actor op w, call-tables uuid_text draw actor op w none)
