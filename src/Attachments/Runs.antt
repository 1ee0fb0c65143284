-- ===== src/Attachments/Runs.antt =====
-- Sequences of uploads and of jobs, and what they keep.
use wdc_backend.Prelude.{
  Uuid, Timestamp, String, ◌∙◌, refl, inl, inr, ◌⊎◌, Option, none, some, List, [], ◌∷◌, ◌&&◌, ◌==◌,
  any-update_where, All-mono, All-update_where, IsUnique-update_where,
}
use wdc_backend.Rls.{RlsContext, system_context}
use wdc_backend.Database.{DbError, Store}
use wdc_backend.Report.Service.Statements.{insert_op_row}
use wdc_backend.Attachments.{
  AttachmentRow, AttachmentState, ProcessJob, UploadArgs, UploadDraw, upload, is_processed,
}
use wdc_backend.Attachments.Process.{
  Processor, is_target, processed, processed_op, settle_job, process_row, process_job,
}
use wdc_backend.Attachments.Sound.{IsStored, HasRow, IsSound, upload-IsSound}

settle_job-IsSound :
    (p : Processor) (job : ProcessJob) (s : AttachmentState) (r : (DbError ⊎ Unit {0}) × Store)
    → IsSound s
    → IsSound (settle_job p job s r).1
unfolding IsSound IsStored HasRow
settle_job-IsSound p job s (inl e, store) h = h
settle_job-IsSound p job s (inr u, store) (unique, stored, jobs) = (
  IsUnique-update_where _ (is_target s job) (processed p job) s.attachments (λ x y. refl)
      (λ x y. refl) unique,
  All-update_where _ (is_target s job) (processed p job) s.attachments (λ a h t. h) stored,
  All-mono _ _ s.jobs
      (λ j h.
        any-update_where (λ a. a.id == j.attachment_id && is_processed a.kind) (is_target s job)
          (processed p job) s.attachments (λ a. refl)
        ∙ h)
      jobs,
)

process_row-IsSound :
    (found : Option AttachmentRow) (p : Processor) (uuid_text : Uuid → String) (now : Timestamp)
    (job : ProcessJob) (s : AttachmentState)
    → IsSound s
    → IsSound (process_row found p uuid_text now job s).1
unfolding process_row
process_row-IsSound none p uuid_text now job s h = h
process_row-IsSound (some a) p uuid_text now job s h =
    settle_job-IsSound p job s
      (insert_op_row system_context (processed_op p uuid_text now job a) s.store) h

pub data AttachmentCall : Type 0 where
  upload_call : UploadDraw → RlsContext → UploadArgs → AttachmentCall
  job_call : Processor → Timestamp → ProcessJob → AttachmentCall

unfoldable pub run_attachment_call :
    (Uuid → String) → AttachmentCall → AttachmentState → AttachmentState
run_attachment_call uuid_text (upload_call draw actor args) s =
    (upload uuid_text draw actor args s).1
run_attachment_call uuid_text (job_call p now job) s = (process_job p uuid_text now job s).1

unfoldable pub run_attachment_calls :
    (Uuid → String) → List AttachmentCall → AttachmentState → AttachmentState
run_attachment_calls uuid_text [] s = s
run_attachment_calls uuid_text (c ∷ cs) s =
    run_attachment_calls uuid_text cs (run_attachment_call uuid_text c s)

run_attachment_call-IsSound :
    (uuid_text : Uuid → String) (c : AttachmentCall) (s : AttachmentState)
    → IsSound s
    → IsSound (run_attachment_call uuid_text c s)
unfolding run_attachment_call
run_attachment_call-IsSound uuid_text (upload_call draw actor args) s h =
    upload-IsSound uuid_text draw actor args s h
run_attachment_call-IsSound uuid_text (job_call p now job) s h =
    process_row-IsSound _ p uuid_text now job s h

-- Whatever uploads are made and jobs are run, by any actors, in any order and whichever of them the
-- storage, the database or the queue fails, from sound tables: ids stay unique, each row is within
-- the limit, of the kind of its file and has its file in the storage, and each job has the row it
-- is about.
pub run_attachment_calls-IsSound :
    (uuid_text : Uuid → String) (cs : List AttachmentCall) (s : AttachmentState)
    → IsSound s
    → IsSound (run_attachment_calls uuid_text cs s)
unfolding run_attachment_calls
run_attachment_calls-IsSound uuid_text [] s h = h
run_attachment_calls-IsSound uuid_text (c ∷ cs) s h =
    run_attachment_calls-IsSound uuid_text cs _ (run_attachment_call-IsSound uuid_text c s h)
