-- ===== src/Investigations/Intact.antt =====
-- What stays true of the tables of investigations, whatever calls are made.
use wdc_backend.Prelude.{
  Uuid, String, ◌≡◌, refl, ap, ◌∙◌, Bool, true, false, not, List, [], ◌∷◌, ◌++◌, any, select,
  update_where, ◌==◌, arith, All, All-append, All-mono, Option-cases, inl, inr, IsUnique,
  IsUnique-snoc, IsUnique-select, IsUnique-update_where, any_of_find, All-select_of, any-snoc,
  any-update_where,
}
use wdc_backend.Rls.{RlsContext}
use wdc_backend.Handler.{Draw, World}
use wdc_backend.Investigations.{InvestigationRow, EvidenceRow, Tables}
use wdc_backend.Investigations.Cases.{
  CreateArgs, insert_investigation, update_investigation, found, set_columns, row_of,
}
use wdc_backend.Investigations.Evidence.{
  EvidenceArgs, insert_evidence, add_in, delete_evidence, is_evidence,
}
use wdc_backend.Investigations.Kept.{Admits, run_calls-keeps}
use wdc_backend.Investigations.Calls.{
  Operation, create_case, update_case, close_case, reopen_case, add, remove, run_calls,
}

abbrev same_case : InvestigationRow → InvestigationRow → Bool
same_case i j = i.id == j.id

abbrev same_evidence : EvidenceRow → EvidenceRow → Bool
same_evidence e f = e.id == f.id

abbrev has_case : List InvestigationRow → EvidenceRow → Bool
has_case cases e = any (λ i. i.id == e.investigation_id) cases

abbrev HasCase : List InvestigationRow → EvidenceRow → Type 0
HasCase cases e = has_case cases e ≡ true

-- Ids are unique, and every piece of evidence belongs to an investigation that is there.
pub record IsIntact (t : Tables) : Type 0 where
  pub cases : IsUnique same_case t.investigations
  pub pieces : IsUnique same_evidence t.evidence
  pub owned : All (HasCase t.investigations) t.evidence

add_case-IsIntact :
    (row : InvestigationRow) (t : Tables)
    → any (λ i. i.id == row.id) t.investigations ≡ false
    → IsIntact t
    → IsIntact (record t { investigations = t.investigations ++ (row ∷ []) })
add_case-IsIntact row t fresh h = record {
  cases = IsUnique-snoc same_case t.investigations row fresh h.cases;
  pieces = h.pieces;
  owned =
      All-mono _ _ t.evidence
        (λ e p. ground (arith, any-snoc (λ i. i.id == e.investigation_id) t.investigations row))
        h.owned;
}

add_piece-IsIntact :
    (row : EvidenceRow) (t : Tables)
    → any (λ e. e.id == row.id) t.evidence ≡ false
    → has_case t.investigations row ≡ true
    → IsIntact t
    → IsIntact (record t { evidence = t.evidence ++ (row ∷ []) })
add_piece-IsIntact row t fresh owner h = record {
  cases = h.cases;
  pieces = IsUnique-snoc same_evidence t.evidence row fresh h.pieces;
  owned = All-append (HasCase t.investigations) t.evidence (row ∷ []) h.owned (owner, tt);
}

update_cases-IsIntact :
    (test : InvestigationRow → Bool) (f : InvestigationRow → InvestigationRow) (t : Tables)
    → ((i : InvestigationRow) → (f i).id ≡ i.id)
    → IsIntact t
    → IsIntact (record t { investigations = update_where test f t.investigations })
update_cases-IsIntact test f t same h = record {
  cases =
      IsUnique-update_where same_case test f t.investigations (λ i j. ap (λ x. x == j.id) (same i))
        (λ i j. ap (λ x. i.id == x) (same j)) h.cases;
  pieces = h.pieces;
  owned =
      All-mono _ _ t.evidence
        (λ e p.
          any-update_where (λ i. i.id == e.investigation_id) test f t.investigations
            (λ i. ap (λ x. x == e.investigation_id) (same i))
          ∙ p)
        h.owned;
}

insert_investigation-IsIntact :
    (draw : Draw) (actor : RlsContext) (args : CreateArgs) (t : Tables)
    → IsIntact t
    → IsIntact (insert_investigation draw actor args t).1
unfolding insert_investigation
insert_investigation-IsIntact draw actor args t h = grind (arith, add_case-IsIntact)

insert_evidence-IsIntact :
    (draw : Draw) (actor : RlsContext) (id : Uuid) (args : EvidenceArgs) (t : Tables)
    → any (λ i. i.id == id) t.investigations ≡ true
    → IsIntact t
    → IsIntact (insert_evidence draw actor id args t).1
unfolding insert_evidence
insert_evidence-IsIntact draw actor id args t owner h = grind (arith, add_piece-IsIntact)

add_in-IsIntact :
    (draw : Draw) (actor : RlsContext) (id : Uuid) (args : EvidenceArgs) (t : Tables)
    → IsIntact t
    → IsIntact (add_in draw actor id args t).1
unfolding add_in
add_in-IsIntact draw actor id args t h = elim (Option-cases (row_of id t)) [
  | inl missing ↦ ground arith
  | inr (i, there) ↦ ground (
    arith,
    insert_evidence-IsIntact draw actor id args t (any_of_find _ t.investigations there) h,
  )
]

found-IsIntact : (id : Uuid) (t : Tables) → IsIntact t → IsIntact (found id t).1
found-IsIntact id t h = ground arith

update_investigation-IsIntact :
    (draw : Draw) (id : Uuid) (set : InvestigationRow → InvestigationRow) (t : Tables)
    → ((i : InvestigationRow) → (set i).id ≡ i.id)
    → IsIntact t
    → IsIntact (update_investigation draw id set t).1
unfolding update_investigation
update_investigation-IsIntact draw id set t same h = found-IsIntact id _ (
    update_cases-IsIntact (λ i. i.id == id) (λ i. record (set i) { updated_at = draw.now }) t same
      h)

delete_evidence-IsIntact :
    (id case_id : Uuid) (t : Tables) → IsIntact t → IsIntact (delete_evidence id case_id t).1
unfolding delete_evidence
delete_evidence-IsIntact id case_id t h =
    let gone : EvidenceRow → Bool = λ e. not (is_evidence id case_id e) in
    let after : IsIntact (record t { evidence = select gone t.evidence }) = record {
      cases = h.cases;
      pieces = IsUnique-select same_evidence gone t.evidence h.pieces;
      owned = All-select_of (HasCase t.investigations) gone t.evidence h.owned;
    } in
    ground arith

-- An assignment that leaves the identity of the row.
abbrev pub KeepsIdentity : (InvestigationRow → InvestigationRow) → Type 0
KeepsIdentity set =
    (i : InvestigationRow)
    → (((set i).id ≡ i.id)
        × ((set i).opened_by ≡ i.opened_by)
        × ((set i).created_at ≡ i.created_at))

pub each_admitted :
    (P : Tables → Type 0) (calls : List (Draw × RlsContext × Operation))
    → All (λ c. Admits P KeepsIdentity c.2) calls
unfolding set_columns
each_admitted P [] = tt
each_admitted P ((draw, actor, create_case args) ∷ calls) = (tt, each_admitted P calls)
each_admitted P ((draw, actor, update_case id patch request_id) ∷ calls) =
    ((λ i. (refl, refl, refl)), each_admitted P calls)
each_admitted P ((draw, actor, close_case id request_id) ∷ calls) = (tt, each_admitted P calls)
each_admitted P ((draw, actor, reopen_case id request_id) ∷ calls) = (tt, each_admitted P calls)
each_admitted P ((draw, actor, add id args) ∷ calls) = (tt, each_admitted P calls)
each_admitted P ((draw, actor, remove id evidence_id request_id) ∷ calls) =
    (tt, each_admitted P calls)

-- Whatever calls are made, by any actors and in any order, from intact tables: ids stay unique and
-- every piece of evidence belongs to an investigation that is there.
pub run_calls-IsIntact :
    (uuid_text : Uuid → String) (calls : List (Draw × RlsContext × Operation)) (w : World Tables)
    → IsIntact w.tables
    → IsIntact (run_calls uuid_text calls w).tables
run_calls-IsIntact uuid_text calls w h =
    run_calls-keeps IsIntact KeepsIdentity
      (record {
        inserted = insert_investigation-IsIntact;
        updated = λ draw id set t a. update_investigation-IsIntact draw id set t (λ i. (a i).0);
        added = add_in-IsIntact;
        removed = delete_evidence-IsIntact;
        closing = λ draw i. (refl, refl, refl);
        reopening = λ i. (refl, refl, refl);
      })
      uuid_text calls w (each_admitted IsIntact calls) h
