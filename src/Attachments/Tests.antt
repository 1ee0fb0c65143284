-- ===== src/Attachments/Tests.antt =====
-- A photograph that is uploaded and processed, and an upload that the queue loses.
use wdc_backend.Prelude.{map, Uuid, String, none, some, List, [], ◌∷◌, ◌≡◌, refl}
use wdc_backend.Database.{failure, report_visible, parent_visible}
use wdc_backend.Report.Service.Statements.{insert_op_row, has_op}
use wdc_backend.Report.Tests.{one_report, the_secretary}
use wdc_backend.Attachments.{
  AttachmentState, UploadArgs, image, pending, done, upload, find_visible, attach_to,
  insert_attachment, infer_kind,
}
use wdc_backend.Attachments.Process.{ocr_processor, process_row}
use wdc_backend.Attachments.Sound.{IsSound}
use wdc_backend.Attachments.Runs.{
  AttachmentCall, upload_call, job_call, run_attachment_call, run_attachment_calls,
  run_attachment_calls-IsSound,
}

abbrev no_attachments : AttachmentState
no_attachments = record { store = one_report; attachments = []; blobs = []; jobs = [] }

abbrev a_text : Uuid → String
a_text id = "id"

abbrev a_photo : UploadArgs
a_photo = record { report_id = 100; kind = image; size = 1000; mimetype = "image/png" }

-- Two uploads and the job of the first.
abbrev a_run : List AttachmentCall
a_run =
    upload_call (record { id = 1; now = 5000; upload_fails = none; queue_fails = none })
      the_secretary a_photo
    ∷ upload_call
        (record {
          id = 2;
          now = 6000;
          upload_fails = none;
          queue_fails = some (failure "connection lost");
        })
        the_secretary a_photo
    ∷ job_call ocr_processor 7000
        (record { attachment_id = 1; storage_key = "attachments/id/id"; kind = image })
    ∷ []

no_attachments-IsSound : IsSound no_attachments
unfolding IsSound
no_attachments-IsSound = (tt, tt, tt)

run_attachment_calls-IsSound_example : IsSound (run_attachment_calls a_text a_run no_attachments)
run_attachment_calls-IsSound_example =
    run_attachment_calls-IsSound a_text a_run no_attachments no_attachments-IsSound

-- The row of the second upload stays, without a job; the first row was processed.
run_attachment_calls_run :
    (map (λ j. j.attachment_id) (run_attachment_calls a_text a_run no_attachments).jobs ≡ 1 ∷ [])
    × (map (λ a. a.processing_state) (run_attachment_calls a_text a_run no_attachments).attachments
        ≡ pending ∷ done ∷ [])
unfolding run_attachment_calls run_attachment_call upload find_visible attach_to insert_attachment
    infer_kind report_visible process_row insert_op_row parent_visible has_op
run_attachment_calls_run = (refl, refl)
