-- ===== src/Investigations/Evidence.antt =====
-- The evidence of an investigation: `addEvidence`, `removeEvidence` and `getById`
-- (src/modules/investigations/investigations.service.ts).
use wdc_backend.Prelude.{
  Uuid, String, Bool, not, ◌&&◌, Option, none, some, List, [], ◌∷◌, ◌++◌, map, any, select, sort_by,
  leb, ◌==◌, if◌then◌else◌,
}
use wdc_backend.Rls.{RlsContext}
use wdc_backend.Report.Json.{str}
use wdc_backend.Database.{ok, err, not_found, database, duplicate_key, foreign_key, not_null}
use wdc_backend.Handler.{Draw, Body, Handler, as_director, transact, audited, event_by}
use wdc_backend.Investigations.{
  EvidenceKind, EvidenceRow, Tables, EvidenceView, InvestigationView, to_evidence_view,
  to_investigation_view, kind_text,
}
use wdc_backend.Investigations.Cases.{row_of}

pub record EvidenceArgs : Type 0 where
  pub kind : EvidenceKind
  pub ref_table : Option String
  pub ref_id : Option String
  pub note : Option String
  pub request_id : Option Uuid

-- `INSERT INTO investigation_evidence`, after the investigation was found.
unfoldable pub insert_evidence : Draw → RlsContext → Uuid → EvidenceArgs → Body Tables EvidenceRow
insert_evidence draw actor investigation_id args t = elim actor.user_id [
  | none ↦ (err (database not_null), t)
  | some user ↦
      if any (λ e. e.id == draw.id) t.evidence
      then (err (database duplicate_key), t)
      else (if not (any (λ u. u == user) t.users)
          then (err (database foreign_key), t)
          else (let row : EvidenceRow = record {
            id = draw.id;
            investigation_id = investigation_id;
            kind = args.kind;
            ref_table = args.ref_table;
            ref_id = args.ref_id;
            note = args.note;
            added_by = user;
            created_at = draw.now;
          } in
              (ok row, record t { evidence = t.evidence ++ (row ∷ []) })))
]

-- The transaction of `addEvidence`.
unfoldable pub add_in : Draw → RlsContext → Uuid → EvidenceArgs → Body Tables EvidenceRow
add_in draw actor investigation_id args t = elim (row_of investigation_id t) [
  | none ↦ (err (not_found "investigation not found"), t)
  | some _ ↦ insert_evidence draw actor investigation_id args t
]

-- `addEvidence`
unfoldable pub add_evidence :
    (Uuid → String) → Draw → RlsContext → Uuid → EvidenceArgs → Handler Tables EvidenceView
add_evidence uuid_text draw actor investigation_id args = as_director actor (
    audited
      (λ row.
        event_by draw actor "investigations.evidence_added" "investigation_evidence" row.id
          (("investigation_id", str (uuid_text investigation_id))
            ∷ ("kind", str (kind_text row.kind))
            ∷ [])
          args.request_id)
      to_evidence_view (transact (add_in draw actor investigation_id args)))

abbrev pub is_evidence : Uuid → Uuid → EvidenceRow → Bool
is_evidence evidence_id investigation_id e =
    e.id == evidence_id && e.investigation_id == investigation_id

-- `DELETE … RETURNING id`, and the exception when no row was there.
unfoldable pub delete_evidence : Uuid → Uuid → Body Tables (Unit {0})
delete_evidence evidence_id investigation_id t =
    let kept = record t {
      evidence = select (λ e. not (is_evidence evidence_id investigation_id e)) t.evidence;
    } in
    if any (is_evidence evidence_id investigation_id) t.evidence
    then (ok tt, kept)
    else (err (not_found "evidence not found"), kept)

-- `removeEvidence`
unfoldable pub remove_evidence :
    (Uuid → String) → Draw → RlsContext → Uuid → Uuid → Option Uuid → Handler Tables (Unit {0})
remove_evidence uuid_text draw actor investigation_id evidence_id request_id = as_director actor (
    audited
      (λ _.
        event_by draw actor "investigations.evidence_removed" "investigation_evidence" evidence_id
          (("investigation_id", str (uuid_text investigation_id)) ∷ []) request_id)
      (λ _. tt) (transact (delete_evidence evidence_id investigation_id)))

-- The evidence of an investigation, the oldest first.
abbrev pub evidence_of : Uuid → Tables → List EvidenceRow
evidence_of investigation_id t =
    sort_by (λ a b. leb a.created_at b.created_at)
      (select (λ e. e.investigation_id == investigation_id) t.evidence)

-- `getById`
unfoldable pub get_by_id :
    RlsContext → Uuid → Handler Tables (InvestigationView × List EvidenceView)
get_by_id actor id = as_director actor (
    transact (λ t. elim (row_of id t) [
      | none ↦ (err (not_found "investigation not found"), t)
      | some row ↦ (ok (to_investigation_view row, map to_evidence_view (evidence_of id t)), t)
    ]))
