-- ===== src/Investigations.antt =====
-- Investigations (src/modules/investigations/investigations.service.ts, with the two tables of
-- src/infra/postgres/schema/investigations.ts): the rows and the views.
-- The policies admit all of a director's statements, so `requireDirector` is the only check.
pub mod Cases
pub mod Evidence
pub mod Timeline
pub mod Cursor
pub mod Pages
pub mod Newest
pub mod Walk
pub mod Calls
pub mod Kept
pub mod Intact
pub mod Stays
pub mod Dated
pub mod Tests
use wdc_backend.Prelude.{Uuid, Timestamp, ◌/◌, String, Option, none, some, List}

pub data Status : Type 0 where
  opened in_progress resolved closed : Status

pub data Priority : Type 0 where
  low normal high urgent : Priority

pub data EvidenceKind : Type 0 where
  report_ref attachment_ref note external_link : EvidenceKind

-- Times of columns are in microseconds.
pub record InvestigationRow : Type 0 where
  pub id : Uuid
  pub title : String
  pub summary : Option String
  pub status : Status
  pub priority : Priority
  pub opened_by : Uuid
  pub closed_at : Option Timestamp
  pub created_at : Timestamp
  pub updated_at : Timestamp

pub record EvidenceRow : Type 0 where
  pub id : Uuid
  pub investigation_id : Uuid
  pub kind : EvidenceKind
  pub ref_table : Option String
  pub ref_id : Option String
  pub note : Option String
  pub added_by : Uuid
  pub created_at : Timestamp

-- `users` holds the ids that the foreign keys refer to.
pub record Tables : Type 0 where
  pub users : List Uuid
  pub investigations : List InvestigationRow
  pub evidence : List EvidenceRow

-- The `Date` that the driver makes of a column, in milliseconds; its ISO text, which the views
-- hold, is kept as this number.
abbrev pub date : Timestamp → Timestamp
date t = t / 1000

pub record InvestigationView : Type 0 where
  pub id : Uuid
  pub title : String
  pub summary : Option String
  pub status : Status
  pub priority : Priority
  pub opened_by : Uuid
  pub closed_at : Option Timestamp
  pub created_at : Timestamp
  pub updated_at : Timestamp

pub record EvidenceView : Type 0 where
  pub id : Uuid
  pub kind : EvidenceKind
  pub ref_table : Option String
  pub ref_id : Option String
  pub note : Option String
  pub added_by : Uuid
  pub created_at : Timestamp

unfoldable pub to_investigation_view : InvestigationRow → InvestigationView
to_investigation_view row = record {
  id = row.id;
  title = row.title;
  summary = row.summary;
  status = row.status;
  priority = row.priority;
  opened_by = row.opened_by;
  closed_at = elim row.closed_at [ none ↦ none | some t ↦ some (date t) ];
  created_at = date row.created_at;
  updated_at = date row.updated_at;
}

unfoldable pub to_evidence_view : EvidenceRow → EvidenceView
to_evidence_view row = record {
  id = row.id;
  kind = row.kind;
  ref_table = row.ref_table;
  ref_id = row.ref_id;
  note = row.note;
  added_by = row.added_by;
  created_at = date row.created_at;
}

abbrev pub priority_text : Priority → String
priority_text low = "low"
priority_text normal = "normal"
priority_text high = "high"
priority_text urgent = "urgent"

abbrev pub status_text : Status → String
status_text opened = "open"
status_text in_progress = "in_progress"
status_text resolved = "resolved"
status_text closed = "closed"

abbrev pub kind_text : EvidenceKind → String
kind_text report_ref = "report_ref"
kind_text attachment_ref = "attachment_ref"
kind_text note = "note"
kind_text external_link = "external_link"
