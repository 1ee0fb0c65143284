-- ===== src/Attachments/Sound.antt =====
-- What uploads keep, in whatever order they come and whichever of them fail.
use wdc_backend.Prelude.{
  ◌≤◌, ◌≡◌, refl, String, Bool, true, ◌&&◌, Option, none, some, List, ◌∷◌, any, ltb, ◌==◌, ==_refl,
  eq_iff, Uuid, str_eq, arith, Bool-cases, Option-cases, inl, inr, All, All-mono, IsUnique,
}
use wdc_backend.Rls.{RlsContext}
use wdc_backend.Database.{ReportRow, Result, ok, err}
use wdc_backend.Report.Lifecycle.{same_state, sealed}
use wdc_backend.Attachments.{
  AttachmentRow, AttachmentState, ProcessJob, UploadArgs, UploadDraw, max_size, infer_kind,
  same_kind, is_processed, new_row, insert_attachment, attach_to, put_blob, then_queue,
  storage_key_of, upload,
}

-- A row that is within the limit, of the kind of its file, and whose file is in the storage.
unfoldable pub IsStored : List String → AttachmentRow → Type 0
IsStored blobs a =
    (a.bytes ≤ max_size)
    × (same_kind (infer_kind a.mime_type) a.kind ≡ true)
    × (any (str_eq a.storage_key) blobs ≡ true)

unfoldable pub HasRow : List AttachmentRow → ProcessJob → Type 0
HasRow rows j = any (λ a. a.id == j.attachment_id && is_processed a.kind) rows ≡ true

abbrev same_attachment : AttachmentRow → AttachmentRow → Bool
same_attachment a b = b.id == a.id

unfoldable pub IsSound : AttachmentState → Type 0
IsSound s =
    IsUnique same_attachment s.attachments
    × All (IsStored s.blobs) s.attachments
    × All (HasRow s.attachments) s.jobs

IsStored-cons :
    (key : String) (blobs : List String) (a : AttachmentRow)
    → IsStored blobs a
    → IsStored (key ∷ blobs) a
unfolding IsStored
IsStored-cons key blobs a (within, kind, there) = (within, kind, ground (arith, there))

HasRow-cons :
    (a : AttachmentRow) (rows : List AttachmentRow) (j : ProcessJob)
    → HasRow rows j
    → HasRow (a ∷ rows) j
unfolding HasRow
HasRow-cons a rows j h = ground (arith, h)

str_eq_self : (s : String) → str_eq s s ≡ true
str_eq_self s = (eq_iff s s).1 refl

put_blob-IsSound : (key : String) (s : AttachmentState) → IsSound s → IsSound (put_blob key s)
unfolding IsSound
put_blob-IsSound key s (unique, stored, jobs) =
    (unique, All-mono _ _ s.attachments (λ a h. IsStored-cons key s.blobs a h) stored, jobs)

-- What a transaction hands on: sound tables, and a row that is in them.
unfoldable Ready : Result AttachmentRow × AttachmentState → Type 0
Ready (err e, s) = IsSound s
Ready (ok row, s) =
    IsSound s
    × (is_processed row.kind ≡ true
        → any (λ a. a.id == row.id && is_processed a.kind) s.attachments ≡ true)

insert_attachment-Ready :
    (draw : UploadDraw) (args : UploadArgs) (key : String) (user : Option Uuid)
    (s : AttachmentState)
    → args.size ≤ max_size
    → same_kind (infer_kind args.mimetype) args.kind ≡ true
    → any (str_eq key) s.blobs ≡ true
    → IsSound s
    → Ready (insert_attachment draw args key user s)
unfolding insert_attachment Ready IsSound IsStored
insert_attachment-Ready draw args key none s within kind there h = h
insert_attachment-Ready draw args key (some user) s within kind there (unique, stored, jobs) =
    elim (Bool-cases (any (λ a. a.id == draw.id) s.attachments)) [
      | inl taken ↦ rw taken (unique, stored, jobs)
      | inr fresh ↦ rw fresh (
        (
          (fresh, unique),
          ((within, kind, there), stored),
          All-mono _ _ s.jobs (λ j q. HasRow-cons (new_row draw args key user) s.attachments j q)
              jobs,
        ),
        λ processed. rw (==_refl draw.id) (ground (arith, processed)),
      )
    ]

attach_to-Ready :
    (found : Option ReportRow) (actor : RlsContext) (draw : UploadDraw) (args : UploadArgs)
    (key : String) (s : AttachmentState)
    → args.size ≤ max_size
    → same_kind (infer_kind args.mimetype) args.kind ≡ true
    → any (str_eq key) s.blobs ≡ true
    → IsSound s
    → Ready (attach_to found actor draw args key s)
unfolding attach_to Ready
attach_to-Ready none actor draw args key s within kind there h = h
attach_to-Ready (some r) actor draw args key s within kind there h =
    elim (Bool-cases (same_state r.state sealed)) [
      | inl refused ↦ rw refused h
      | inr allowed ↦
          rw allowed (insert_attachment-Ready draw args key actor.user_id s within kind there h)
    ]

then_queue-IsSound :
    (draw : UploadDraw) (r : Result AttachmentRow × AttachmentState)
    → Ready r
    → IsSound (then_queue draw r).1
unfolding Ready IsSound HasRow
then_queue-IsSound draw (err e, s) h = h
then_queue-IsSound draw (ok row, s) ((unique, stored, jobs), there) =
    elim (Bool-cases (is_processed row.kind)) [
      | inr plain ↦ rw plain (unique, stored, jobs)
      | inl processed ↦ rw processed (elim (Option-cases draw.queue_fails) [
        | inl queued ↦ rw queued (unique, stored, (there processed, jobs))
        | inr (e, fails) ↦ rw fails (unique, stored, jobs)
      ])
    ]

pub upload-IsSound :
    (uuid_text : Uuid → String) (draw : UploadDraw) (actor : RlsContext) (args : UploadArgs)
    (s : AttachmentState)
    → IsSound s
    → IsSound (upload uuid_text draw actor args s).1
unfolding upload
upload-IsSound uuid_text draw actor args s h = elim (Bool-cases (ltb max_size args.size)) [
  | inl large ↦ rw large h
  | inr within ↦ rw within (elim (Bool-cases (same_kind (infer_kind args.mimetype) args.kind)) [
    | inr other ↦ rw other h
    | inl kind ↦ rw kind (elim (Option-cases draw.upload_fails) [
      | inr (e, fails) ↦ rw fails h
      | inl stored ↦ rw stored (
          let key = storage_key_of uuid_text args.report_id draw.id in
          then_queue-IsSound draw _ (
            attach_to-Ready _ actor draw args key (put_blob key s) (ground (arith, within)) kind
              (rw (str_eq_self key) refl) (put_blob-IsSound key s h)))
    ])
  ])
]
