-- ===== src/Attachments/Process.antt =====
-- The workers of the two queues (src/modules/attachments/processors): each job writes the text of a
-- stub into the row and adds an op to the report. The column processing_meta, which nothing reads,
-- is left out.

use wdc_backend.Prelude.{
  ℕ, Uuid, Timestamp, String, ◌+++◌, ◌⊎◌, inl, inr, Option, none, some, [], ◌∷◌, ◌==◌, find, ◌&&◌,
  Bool, update_where,
}
use wdc_backend.Rls.{system_context}
use wdc_backend.Report.Json.{Object, num, str}
use wdc_backend.Report.Projection.{field_set}
use wdc_backend.Report.Service.Statements.{insert_op_row}
use wdc_backend.Database.{
  Result, ok, err, database, DbError, Store, OpRow, parent_visible, roll_back,
}
use wdc_backend.Attachments.{kind_text, AttachmentRow, AttachmentState, ProcessJob, done}

-- What the two workers differ in; the confidence is in thousandths and as a text.
pub record Processor : Type 0 where
  pub device_id : String
  pub key_prefix : String
  pub source : String
  pub text_before : String
  pub confidence : ℕ
  pub confidence_text : String

abbrev pub ocr_processor : Processor
ocr_processor = record {
  device_id = "ocr-worker";
  key_prefix = "ocr_";
  source = "scanned";
  text_before = "OCR_STUB: extracted text from ";
  confidence = 850;
  confidence_text = "0.85";
}

abbrev pub asr_processor : Processor
asr_processor = record {
  device_id = "asr-worker";
  key_prefix = "asr_";
  source = "voiced";
  text_before = "ASR_STUB: Hausa transcription from ";
  confidence = 720;
  confidence_text = "0.72";
}

abbrev pub payload_of : Processor → (Uuid → String) → ProcessJob → Object
payload_of p uuid_text job =
    ("key", str (p.key_prefix +++ kind_text job.kind +++ "_" +++ uuid_text job.attachment_id))
    ∷ ("value", str (p.text_before +++ job.storage_key))
    ∷ ("source", str p.source)
    ∷ ("confidence", num p.confidence_text)
    ∷ []

-- The row of the `INSERT`, whose id is the attachment's.
abbrev pub processed_op :
    Processor → (Uuid → String) → Timestamp → ProcessJob → AttachmentRow → ℕ → OpRow
processed_op p uuid_text now job a seq = record {
  report_id = a.report_id;
  op_id = job.attachment_id;
  server_seq = seq;
  device_id = p.device_id;
  actor_user_id = a.uploaded_by;
  op_kind = field_set;
  payload = payload_of p uuid_text job;
  wall_clock_ts = now;
}

abbrev pub is_target : AttachmentState → ProcessJob → AttachmentRow → Bool
is_target s job a = a.id == job.attachment_id && parent_visible system_context s.store a.report_id

-- The row after the `UPDATE`.
abbrev pub processed : Processor → ProcessJob → AttachmentRow → AttachmentRow
processed p job a = record a {
  processing_state = done;
  transcript = some (p.text_before +++ job.storage_key);
  confidence = some p.confidence;
}

abbrev pub settle_job :
    Processor
    → ProcessJob
    → AttachmentState
    → (DbError ⊎ Unit {0}) × Store
    → Result (Unit {0}) × AttachmentState
settle_job p job s (inl e, store) = (err (database e), record s { store = roll_back s.store store })
settle_job p job s (inr u, store) = (
  ok tt,
  record s {
    store = store;
    attachments = update_where (is_target s job) (processed p job) s.attachments;
  },
)

-- The transaction, with the row that the job is about; without one it touches nothing.
unfoldable pub process_row :
    Option AttachmentRow
    → Processor
    → (Uuid → String)
    → Timestamp
    → ProcessJob
    → AttachmentState
    → Result (Unit {0}) × AttachmentState
process_row none p uuid_text now job s = (ok tt, s)
process_row (some a) p uuid_text now job s =
    settle_job p job s (insert_op_row system_context (processed_op p uuid_text now job a) s.store)

-- A job of the queue.
abbrev pub process_job :
    Processor
    → (Uuid → String)
    → Timestamp
    → ProcessJob
    → AttachmentState
    → Result (Unit {0}) × AttachmentState
process_job p uuid_text now job s =
    process_row (find (is_target s job) s.attachments) p uuid_text now job s
