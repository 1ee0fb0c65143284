-- ===== src/Attachments.antt =====
-- Attachments of reports (src/modules/attachments/attachments.service.ts). The storage and the
-- queues are outside the database: what they hold is a part of the state, and a call of them may
-- fail. The policy on attachments follows the report (drizzle/0002_rls.sql). A user id refers to a
-- user, since users are never removed.
pub mod Process
pub mod Sound
pub mod Runs
pub mod Tests
use Prim.Native.Char.{code}
use Prim.Native.String.{String as Text}
use wdc_backend.Prelude.{
  ℕ, ◌*◌, ◌/◌, Uuid, Timestamp, String, ◌+++◌, Bool, true, false, ◌&&◌, Option, none, some, List,
  [], ◌∷◌, map, any, select, sort_by, ltb, leb, ◌==◌, if◌then◌else◌,
}
use wdc_backend.Rls.{RlsContext}
use wdc_backend.Report.Lifecycle.{same_state, sealed}
use wdc_backend.Database.{
  Result, ok, err, Error, bad_request, not_found, database, not_null, duplicate_key, Store,
  ReportRow, report_visible, parent_visible,
}

pub data Kind : Type 0 where
  audio image document : Kind

pub data ProcessingState : Type 0 where
  pending processing done failed : ProcessingState

-- The confidence is in thousandths; `created_at` is in microseconds.
pub record AttachmentRow : Type 0 where
  pub id : Uuid
  pub report_id : Uuid
  pub kind : Kind
  pub storage_key : String
  pub bytes : ℕ
  pub mime_type : String
  pub transcript : Option String
  pub confidence : Option ℕ
  pub processing_state : ProcessingState
  pub uploaded_by : Uuid
  pub created_at : Timestamp

-- A job of the queue of the kind: `ocr` for images, `asr` for audio.
pub record ProcessJob : Type 0 where
  pub attachment_id : Uuid
  pub storage_key : String
  pub kind : Kind

-- The tables that the service works on, the rows last inserted first, the keys in the storage and
-- the jobs that were queued.
pub record AttachmentState : Type 0 where
  pub store : Store
  pub attachments : List AttachmentRow
  pub blobs : List String
  pub jobs : List ProcessJob

pub record UploadArgs : Type 0 where
  pub report_id : Uuid
  pub kind : Kind
  pub size : ℕ
  pub mimetype : String

-- The id that a call draws, the time of its transaction, and the failures of the storage and of
-- the queue, if any.
pub record UploadDraw : Type 0 where
  pub id : Uuid
  pub now : Timestamp
  pub upload_fails : Option Error
  pub queue_fails : Option Error

-- `AttachmentResponseDto`
pub record AttachmentResponse : Type 0 where
  pub row : AttachmentRow
  pub signed_url : Option String

abbrev pub max_size : ℕ
max_size = 50 * 1024 * 1024

-- `mime.startsWith(prefix)`
abbrev pub starts_with : String → String → Bool
starts_with Text.[] s = true
starts_with (Text.◌∷◌ c p) Text.[] = false
starts_with (Text.◌∷◌ c p) (Text.◌∷◌ d s) = code c == code d && starts_with p s

-- `inferKind`
unfoldable pub infer_kind : String → Kind
infer_kind mime =
    if starts_with "image/" mime
    then image
    else if starts_with "audio/" mime
    then audio
    else document

abbrev pub same_kind : Kind → Kind → Bool
same_kind audio audio = true
same_kind image image = true
same_kind document document = true
same_kind _ _ = false

abbrev pub kind_text : Kind → String
kind_text audio = "audio"
kind_text image = "image"
kind_text document = "document"

abbrev wrong_kind : UploadArgs → Error
wrong_kind args = bad_request (
    "file mimetype " +++ args.mimetype +++ " does not match declared kind " +++ kind_text args.kind)

abbrev pub storage_key_of : (Uuid → String) → Uuid → Uuid → String
storage_key_of uuid_text report_id id =
    "attachments/" +++ uuid_text report_id +++ "/" +++ uuid_text id

unfoldable pub find_visible : RlsContext → Store → Uuid → List ReportRow → Option ReportRow
find_visible actor s id [] = none
find_visible actor s id (r ∷ rs) =
    let rest = find_visible actor s id rs in
    if r.id == id && report_visible actor s.wards r then some r else rest

abbrev pub new_row : UploadDraw → UploadArgs → String → Uuid → AttachmentRow
new_row draw args key user = record {
  id = draw.id;
  report_id = args.report_id;
  kind = args.kind;
  storage_key = key;
  bytes = args.size;
  mime_type = args.mimetype;
  transcript = none;
  confidence = none;
  processing_state = pending;
  uploaded_by = user;
  created_at = draw.now;
}

-- The `INSERT`. The report was selected by the same transaction, so the policy admits the row.
unfoldable pub insert_attachment :
    UploadDraw
    → UploadArgs
    → String
    → Option Uuid
    → AttachmentState
    → Result AttachmentRow × AttachmentState
insert_attachment draw args key none s = (err (database not_null), s)
insert_attachment draw args key (some user) s =
    if any (λ a. a.id == draw.id) s.attachments then (err (database duplicate_key), s) else (
      ok (new_row draw args key user),
      record s { attachments = new_row draw args key user ∷ s.attachments },
    )

-- The body of the transaction of `upload`, with the row of the report if it is visible.
unfoldable pub attach_to :
    Option ReportRow
    → RlsContext
    → UploadDraw
    → UploadArgs
    → String
    → AttachmentState
    → Result AttachmentRow × AttachmentState
attach_to none actor draw args key s = (err (not_found "report not found"), s)
attach_to (some r) actor draw args key s =
    if same_state r.state sealed
    then (err (bad_request "cannot attach to sealed report"), s)
    else insert_attachment draw args key actor.user_id s

abbrev pub attach :
    RlsContext
    → UploadDraw
    → UploadArgs
    → String
    → AttachmentState
    → Result AttachmentRow × AttachmentState
attach actor draw args key s =
    attach_to (find_visible actor s.store args.report_id s.store.reports) actor draw args key s

abbrev pub is_processed : Kind → Bool
is_processed document = false
is_processed _ = true

-- The job, and the response.
abbrev pub add_job :
    UploadDraw → AttachmentRow → AttachmentState → Result AttachmentResponse × AttachmentState
add_job draw row s = elim draw.queue_fails [
  | some e ↦ (err e, s)
  | none ↦ (
    ok (record { row = record row { created_at = row.created_at / 1000 }; signed_url = none }),
    record s {
      jobs =
          record { attachment_id = row.id; storage_key = row.storage_key; kind = row.kind }
          ∷ s.jobs;
    },
  )
]

abbrev pub then_queue :
    UploadDraw
    → Result AttachmentRow × AttachmentState
    → Result AttachmentResponse × AttachmentState
then_queue draw (err e, s) = (err e, s)
then_queue draw (ok row, s) =
    let queued = add_job draw row s in
    if is_processed row.kind then queued else (
      ok (record { row = record row { created_at = row.created_at / 1000 }; signed_url = none }),
      s,
    )

abbrev pub put_blob : String → AttachmentState → AttachmentState
put_blob key s = record s { blobs = key ∷ s.blobs }

-- `upload`: the file goes to the storage before the report is looked at.
unfoldable pub upload :
    (Uuid → String)
    → UploadDraw
    → RlsContext
    → UploadArgs
    → AttachmentState
    → Result AttachmentResponse × AttachmentState
upload uuid_text draw actor args s =
    let key = storage_key_of uuid_text args.report_id draw.id in
    if ltb max_size args.size
    then (err (bad_request "file exceeds 50MB limit"), s)
    else if same_kind (infer_kind args.mimetype) args.kind
    then elim draw.upload_fails [
      | some e ↦ (err e, s)
      | none ↦ then_queue draw (attach actor draw args key (put_blob key s))
    ]
    else (err (wrong_kind args), s)

abbrev respond : (String → String) → AttachmentRow → AttachmentResponse
respond sign row = record {
  row = record row { created_at = row.created_at / 1000 };
  signed_url = some (sign row.storage_key);
}

abbrev attachments_of : RlsContext → AttachmentState → List AttachmentRow
attachments_of actor s = select (λ a. parent_visible actor s.store a.report_id) s.attachments

-- `listByReport`, the newest first; rows of the same time as they stand in the table.
unfoldable pub list_by_report :
    (String → String) → RlsContext → Uuid → AttachmentState → List AttachmentResponse
list_by_report sign actor report_id s = map (respond sign) (
    sort_by (λ a b. leb b.created_at a.created_at)
      (select (λ a. a.report_id == report_id) (attachments_of actor s)))

abbrev respond_first : (String → String) → List AttachmentRow → Option AttachmentResponse
respond_first sign [] = none
respond_first sign (row ∷ rows) = some (respond sign row)

-- `getById`
unfoldable pub get_by_id :
    (String → String) → RlsContext → Uuid → AttachmentState → Option AttachmentResponse
get_by_id sign actor id s = respond_first sign (select (λ a. a.id == id) (attachments_of actor s))
