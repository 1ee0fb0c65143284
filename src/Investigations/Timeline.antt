-- ===== src/Investigations/Timeline.antt =====
-- `timeline` (src/modules/investigations/investigations.service.ts).
use mathlib.Core.List
use mathlib.Core.List.{Perm}
use wdc_backend.Prelude.{
  ◌+++◌, Uuid, Timestamp, String, ◌≡◌, Bool, false, ◌&&◌, Option, none, some, List, [], ◌∷◌, ◌++◌,
  map, select, sort_by, leb, ◌==◌, str_eq, arith, by_key, IsSortedBy, sort_by-IsSortedBy,
  sort_by-perm, Option-cases, inl, inr,
}
use wdc_backend.Rls.{RlsContext, Role, director}
use wdc_backend.Report.Json.{Json, Object, str, null}
use wdc_backend.Database.{ok, err, not_found}
use wdc_backend.Handler.{Logged, World, Handler, as_director}
use wdc_backend.Investigations.{EvidenceRow, Tables, date, kind_text}
use wdc_backend.Investigations.Cases.{row_of}
use wdc_backend.Investigations.Evidence.{evidence_of}

-- The ISO text of the time is kept as its milliseconds, in whose order such texts compare.
pub record Entry : Type 0 where
  pub occurred_at : Timestamp
  pub actor_role : Role
  pub actor_user_id : Option Uuid
  pub event_kind : String
  pub payload : Object

abbrev pub or_null : Option String → Json
or_null none = null
or_null (some s) = str s

-- The event that an evidence row stands for.
abbrev pub added_entry : EvidenceRow → Entry
added_entry e = record {
  occurred_at = date e.created_at;
  actor_role = director;
  actor_user_id = some e.added_by;
  event_kind = "investigations.evidence_added_" +++ kind_text e.kind;
  payload =
      ("note", or_null e.note)
      ∷ ("ref_table", or_null e.ref_table)
      ∷ ("ref_id", or_null e.ref_id)
      ∷ [];
}

abbrev pub logged_entry : Logged → Entry
logged_entry l = record {
  occurred_at = date l.occurred_at;
  actor_role = l.event.actor_role;
  actor_user_id = l.event.actor_user_id;
  event_kind = l.event.event_kind;
  payload = l.event.payload;
}

-- `target_table = 'investigations' AND target_id = $1`
abbrev pub targets : Uuid → Logged → Bool
targets id l =
    elim l.event.target_table [ none ↦ false | some table ↦ str_eq table "investigations" ]
    && elim l.event.target_id [ none ↦ false | some target ↦ target == id ]

abbrev pub events_of : Uuid → World Tables → List Logged
events_of id w = sort_by (λ a b. leb a.occurred_at b.occurred_at) (select (targets id) w.audit)

-- The evidence and then the events, before they are sorted.
abbrev pub merged : Uuid → World Tables → List Entry
merged id w = map added_entry (evidence_of id w.tables) ++ map logged_entry (events_of id w)

-- `timeline`
unfoldable pub timeline : RlsContext → Uuid → Handler Tables (List Entry)
timeline actor id = as_director actor (λ w. elim (row_of id w.tables) [
  | none ↦ (err (not_found "investigation not found"), w)
  | some _ ↦ (ok (sort_by (by_key Entry.occurred_at) (merged id w)), w)
])

abbrev all_entries : Uuid → World Tables → List Entry
all_entries id w =
    map added_entry (select (λ e. e.investigation_id == id) w.tables.evidence)
    ++ map logged_entry (select (targets id) w.audit)

-- What a timeline shows.
abbrev pub Shows : Uuid → World Tables → List Entry → Type 0
Shows id w entries = IsSortedBy Entry.occurred_at entries × Perm entries (all_entries id w)

timeline-eq :
    (actor : RlsContext) (id : Uuid) (w w' : World Tables) (entries : List Entry)
    → timeline actor id w ≡ (ok entries, w')
    → entries ≡ sort_by (by_key Entry.occurred_at) (merged id w)
unfolding timeline as_director
timeline-eq actor id w w' entries h = elim (Option-cases (row_of id w.tables)) [
  | inl missing ↦ ground arith
  | inr (row, there) ↦ ground arith
]

-- A timeline that returns is in ascending order of time, and shows each piece of evidence and each
-- audit event of the investigation exactly once, and nothing else.
pub timeline-Shows :
    (actor : RlsContext) (id : Uuid) (w w' : World Tables) (entries : List Entry)
    → timeline actor id w ≡ (ok entries, w')
    → Shows id w entries
timeline-Shows actor id w w' entries h = rw (timeline-eq actor id w w' entries h) (
  sort_by-IsSortedBy Entry.occurred_at (merged id w),
  List.Perm.trans (sort_by-perm (by_key Entry.occurred_at) (merged id w)) (
      List.Perm.append
        (List.Perm.map added_entry (sort_by-perm (λ a b. leb a.created_at b.created_at) _))
        (List.Perm.map logged_entry (sort_by-perm (λ a b. leb a.occurred_at b.occurred_at) _))),
)
