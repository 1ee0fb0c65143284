-- ===== src/Audit/Export.antt =====
-- The sealed CSV export (src/modules/audit/audit.controller.ts). The policy admits a director to all
-- rows; the route is open to directors and the system only.
pub mod RoundTrip
pub mod Rows
use Prim.Native.Char.{Char, code}
use Prim.Native.String
use Prim.Native.String.{String as Text}
use wdc_backend.Prelude.{
  ℕ, ◌+++◌, String, Bool, true, false, ◌||◌, Option, none, some, List, [], ◌∷◌, select, sort_by,
  leb, ◌==◌, has_char, if◌then◌else◌,
}
use wdc_backend.Audit.Log.{AuditRow, AuditAnchor, AuditLog, Crypto, verify_anchor}

-- `s.replace(/"/g, '""')`
unfoldable pub double_quotes : String → String
double_quotes Text.[] = Text.[]
double_quotes (Text.◌∷◌ c s) =
    let rest = Text.◌∷◌ c (double_quotes s) in if code c == b'"' then Text.◌∷◌ "\"" rest else rest

-- `/[",\n]/`
abbrev pub needs_quotes : String → Bool
needs_quotes s = (has_char b'"' s || has_char b',' s) || has_char b'\n' s

-- `csv`
unfoldable pub csv : String → String
csv s = if needs_quotes s then Text.◌∷◌ "\"" (double_quotes s +++ Text.◌∷◌ "\"" "") else s

-- `join(',') + '\n'`
unfoldable pub join_fields : List String → String
join_fields [] = "\n"
join_fields (f ∷ []) = f +++ Text.◌∷◌ "\n" ""
join_fields (f ∷ g ∷ fs) = f +++ Text.◌∷◌ "," (join_fields (g ∷ fs))

abbrev pub or_blank : Option String → String
or_blank none = ""
or_blank (some s) = s

-- The fields of a row as they are written; `text_of` writes the id.
unfoldable pub row_fields : (ℕ → String) → AuditRow → List String
row_fields text_of row =
    text_of row.id
    ∷ row.occurred_at
    ∷ or_blank row.event.actor_user_id
    ∷ csv row.event.actor_role
    ∷ csv row.event.event_kind
    ∷ csv (or_blank row.event.target_table)
    ∷ csv (or_blank row.event.target_id)
    ∷ row.prev_hash
    ∷ row.hash
    ∷ []

unfoldable pub write_rows : (ℕ → String) → List AuditRow → String
write_rows text_of [] = ""
write_rows text_of (row ∷ rows) = join_fields (row_fields text_of row) +++ write_rows text_of rows

abbrev pub columns : String
columns =
    "id,occurred_at,actor_user_id,actor_role,event_kind,target_table,target_id,prev_hash,hash\n"

abbrev verdict : Bool → String
verdict true = "true"
verdict false = "false"

-- The preamble of an anchor. Its own id and time are given as texts.
unfoldable pub preamble : Crypto → (ℕ → String) → String → String → AuditAnchor → String
preamble crypto text_of anchor_id anchored_at a =
    "# anchor.id: "
    +++ anchor_id
    +++ "\n# anchor.anchored_at: "
    +++ anchored_at
    +++ "\n# anchor.latest_event_id: "
    +++ text_of a.latest_event_id
    +++ "\n# anchor.latest_hash: "
    +++ a.latest_hash
    +++ "\n# anchor.signature_alg: "
    +++ a.signature_alg
    +++ "\n# anchor.signing_key_id: "
    +++ a.signing_key_id
    +++ "\n# anchor.signature: "
    +++ a.signature
    +++ "\n# anchor.verified_now: "
    +++ verdict (verify_anchor crypto a)
    +++ "\n"

-- The rows up to the anchor, the oldest first.
abbrev pub rows_until : ℕ → List AuditRow → List AuditRow
rows_until latest rows = sort_by (λ r s. leb r.id s.id) (select (λ r. leb r.id latest) rows)

abbrev newest_anchor : List AuditAnchor → Option AuditAnchor
newest_anchor [] = none
newest_anchor (a ∷ rest) = some a

-- `export`: the body of the response.
unfoldable pub export_csv : Crypto → (ℕ → String) → String → String → AuditLog → String
export_csv crypto text_of anchor_id anchored_at log = elim (newest_anchor log.anchors) [
  | none ↦ "# anchor: NONE — audit log is empty\n" +++ columns
  | some a ↦
      preamble crypto text_of anchor_id anchored_at a
      +++ columns
      +++ write_rows text_of (rows_until a.latest_event_id log.events)
]
