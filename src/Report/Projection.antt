-- ===== src/Report/Projection.antt =====
-- The op log and its canonical projection (src/modules/reports/report-projection.ts).
pub mod Order
pub mod Fields
use Prim.Native.Nat.{Ordering}
use wdc_backend.Prelude.{
  Uuid, Timestamp, Bool, true, false, not, String, Option, none, some, List, [], ◌∷◌, ◌++◌, ltb,
  ◌==◌, str_eq, if◌then◌else◌, any,
}
use wdc_backend.Report.Json.{Json, str, Object, get_property, property_key, same_value}

pub data OpKind : Type 0 where
  field_set attachment_add submit open_review approve return seal : OpKind

pub record ReportOp : Type 0 where
  pub op_id : Uuid
  pub op_kind : OpKind
  pub payload : Object
  pub wall_clock_ts : Timestamp

pub record CanonicalField : Type 0 where
  pub value : Json
  pub source : Json
  pub confidence : Json
  pub set_by : Uuid

pub record CanonicalReport : Type 0 where
  pub fields : List (String × CanonicalField)
  pub attachments : List Json
  pub notes : List String

abbrev pub empty_report : CanonicalReport
empty_report = record { fields = []; attachments = []; notes = [] }

-- Negative, zero and positive results are `lt`, `eq` and `gt`.
unfoldable pub compare_ops : ReportOp → ReportOp → Ordering
compare_ops a b =
    if not (a.wall_clock_ts == b.wall_clock_ts)
    then (if ltb a.wall_clock_ts b.wall_clock_ts then Ordering.lt else Ordering.gt)
    else (if not (a.op_id == b.op_id)
        then (if ltb a.op_id b.op_id then Ordering.lt else Ordering.gt)
        else Ordering.eq)

-- One insertion of a stable sort: `op` stood before all of the list.
unfoldable pub insert_sorted : ReportOp → List ReportOp → List ReportOp
insert_sorted op [] = op ∷ []
insert_sorted op (x ∷ xs) = elim (compare_ops op x) [
  | Ordering.gt ↦ x ∷ insert_sorted op xs
  | _ ↦ op ∷ x ∷ xs
]

-- `[...ops].sort(compareOps)`, the stable sort of the language.
unfoldable pub sort_ops : List ReportOp → List ReportOp
sort_ops [] = []
sort_ops (op ∷ ops) = insert_sorted op (sort_ops ops)

-- `fields[key] = f` on an object: a property keeps its place, and `__proto__` names no property.
unfoldable pub put :
    String → CanonicalField → List (String × CanonicalField) → List (String × CanonicalField)
put k f [] = (k, f) ∷ []
put k f ((j, g) ∷ fields) = if str_eq j k then (j, f) ∷ fields else (j, g) ∷ put k f fields

unfoldable pub assign :
    String → CanonicalField → List (String × CanonicalField) → List (String × CanonicalField)
assign k f fields = if str_eq k "__proto__" then fields else put k f fields

unfoldable pub field_of : ReportOp → CanonicalField
field_of op = record {
  value = get_property "value" op.payload;
  source = get_property "source" op.payload;
  confidence = get_property "confidence" op.payload;
  set_by = op.op_id;
}

-- The property that a `field_set` op writes.
unfoldable pub key_of : ReportOp → String
key_of op = property_key (get_property "key" op.payload)

-- `if (!attachments.includes(id)) attachments.push(id)`
unfoldable pub push_new : Json → List Json → List Json
push_new a xs = if any (same_value a) xs then xs else xs ++ (a ∷ [])

-- A note is kept if it is a text and not empty.
unfoldable pub push_note : Json → List String → List String
push_note (str s) notes = if str_eq s "" then notes else notes ++ (s ∷ [])
push_note _ notes = notes

unfoldable pub apply_kind : OpKind → ReportOp → CanonicalReport → CanonicalReport
apply_kind OpKind.field_set op out = record out {
  fields = assign (key_of op) (field_of op) out.fields;
}
apply_kind OpKind.attachment_add op out = record out {
  attachments = push_new (get_property "attachment_id" op.payload) out.attachments;
}
apply_kind OpKind.return op out = record out {
  notes = push_note (get_property "notes" op.payload) out.notes;
}
apply_kind _ op out = out

-- The loop of `projectCanonical` over the sorted ops.
unfoldable pub replay : CanonicalReport → List ReportOp → CanonicalReport
replay out [] = out
replay out (op ∷ ops) = replay (apply_kind op.op_kind op out) ops

unfoldable pub project_canonical : List ReportOp → CanonicalReport
project_canonical ops = replay empty_report (sort_ops ops)
