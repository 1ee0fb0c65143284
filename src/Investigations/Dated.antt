-- ===== src/Investigations/Dated.antt =====
-- The status of an investigation and the time at which it was closed.
use wdc_backend.Prelude.{
  Uuid, String, ◌≡◌, refl, Bool, true, false, none, some, List, ◌==◌, arith, All, All-append,
  All-mono, All-update_where,
}
use wdc_backend.Rls.{RlsContext}
use wdc_backend.Handler.{Draw, World}
use wdc_backend.Investigations.{InvestigationRow, Tables, closed}
use wdc_backend.Investigations.Cases.{
  CreateArgs, insert_investigation, update_investigation, set_columns,
}
use wdc_backend.Investigations.Evidence.{EvidenceArgs, insert_evidence, add_in, delete_evidence}
use wdc_backend.Investigations.Kept.{Admits, run_calls-keeps}
use wdc_backend.Investigations.Calls.{
  Operation, create_case, update_case, close_case, reopen_case, add, remove, run_calls,
}

-- It has a time of closing exactly when it is closed.
unfoldable pub is_dated : InvestigationRow → Bool
is_dated i = elim i.status [
  | closed ↦ elim i.closed_at [ none ↦ false | some _ ↦ true ]
  | _ ↦ elim i.closed_at [ none ↦ true | some _ ↦ false ]
]

abbrev pub AllDated : Tables → Type 0
AllDated t = All (λ i. is_dated i ≡ true) t.investigations

abbrev KeepsDated : (InvestigationRow → InvestigationRow) → Type 0
KeepsDated set = (i : InvestigationRow) → is_dated i ≡ true → is_dated (set i) ≡ true

-- A call that is no update of the status.
abbrev pub IsStatusFree : Operation → Type 0
IsStatusFree (update_case id patch request_id) = patch.status ≡ none
IsStatusFree _ = Unit

admitted : (op : Operation) → IsStatusFree op → Admits AllDated KeepsDated op
unfolding set_columns is_dated
admitted (create_case args) h = tt
admitted (update_case id patch request_id) h = λ i d. ground arith
admitted (close_case id request_id) h = tt
admitted (reopen_case id request_id) h = tt
admitted (add id args) h = tt
admitted (remove id evidence_id request_id) h = tt

insert_investigation-AllDated :
    (draw : Draw) (actor : RlsContext) (args : CreateArgs) (t : Tables)
    → AllDated t
    → AllDated (insert_investigation draw actor args t).1
unfolding insert_investigation is_dated
insert_investigation-AllDated draw actor args t h =
    grind (arith, All-append (λ i. is_dated i ≡ true))

update_investigation-AllDated :
    (draw : Draw) (id : Uuid) (set : InvestigationRow → InvestigationRow) (t : Tables)
    → KeepsDated set
    → AllDated t
    → AllDated (update_investigation draw id set t).1
unfolding update_investigation is_dated
update_investigation-AllDated draw id set t keeps h =
    let after =
      All-update_where (λ i. is_dated i ≡ true) (λ i. i.id == id)
        (λ i. record (set i) { updated_at = draw.now }) t.investigations (λ i d _. keeps i d) h in
    ground (arith, after)

add_in-AllDated :
    (draw : Draw) (actor : RlsContext) (id : Uuid) (args : EvidenceArgs) (t : Tables)
    → AllDated t
    → AllDated (add_in draw actor id args t).1
unfolding add_in insert_evidence
add_in-AllDated draw actor id args t h = ground arith

delete_evidence-AllDated :
    (piece id : Uuid) (t : Tables) → AllDated t → AllDated (delete_evidence piece id t).1
unfolding delete_evidence
delete_evidence-AllDated piece id t h = ground arith

-- As long as no call sets the status by `update`, an investigation has a time of closing exactly
-- when it is closed, whatever calls are made.
pub run_calls-AllDated :
    (uuid_text : Uuid → String) (calls : List (Draw × RlsContext × Operation)) (w : World Tables)
    → All (λ c. IsStatusFree c.2) calls
    → AllDated w.tables
    → AllDated (run_calls uuid_text calls w).tables
unfolding is_dated
run_calls-AllDated uuid_text calls w free h =
    run_calls-keeps AllDated KeepsDated
      (record {
        inserted = insert_investigation-AllDated;
        updated = update_investigation-AllDated;
        added = add_in-AllDated;
        removed = delete_evidence-AllDated;
        closing = λ draw i d. refl;
        reopening = λ i d. refl;
      })
      uuid_text calls w (All-mono _ _ calls (λ c. admitted c.2) free) h
