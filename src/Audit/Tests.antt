-- ===== src/Audit/Tests.antt =====
-- A concrete log, on which the theorems about the audit log are applied.
use Prim.Native.String
use wdc_backend.Prelude.{false, ℕ, String, All, arith, ◌≡◌, refl, none, some, [], ◌∷◌, map, str_eq}
use wdc_backend.Audit.Canonical.{
  canonical_json, canonical_members, join_commas, literal, object, no_member, member,
}
use wdc_backend.Audit.Log.{AuditEvent, AuditRow, AuditLog, Crypto, genesis_hash}
use wdc_backend.Audit.Export.{write_rows}
use wdc_backend.Audit.Export.Rows.{IsPlain, said, read_rows, read_rows-write_rows}
use wdc_backend.Audit.Chain.{IsChained, sealed_text, append_all, append_all-IsChained}

-- A digest of one width, and a signature that is the text.
abbrev a_crypto : Crypto
a_crypto = record {
  sha256_hex = λ text. "digest";
  stringify = λ text. String.◌++◌ "'" (String.◌++◌ text "'");
  sign = λ text. text;
  verify = λ text signature. str_eq text signature;
}

abbrev an_event : AuditEvent
an_event = record {
  actor_user_id = none;
  actor_role = "system";
  event_kind = "reports.seal";
  target_table = some "reports";
  target_id = some "100";
  payload = object (member "to" (literal "1") (member "from" (literal "0") no_member));
  request_id = none;
}

abbrev no_events : AuditLog
no_events = record { events = []; anchors = []; next_id = 1 }

append_all-IsChained_example :
    IsChained a_crypto
      (append_all a_crypto (("2026", an_event) ∷ ("2027", an_event) ∷ []) no_events).events
append_all-IsChained_example =
    append_all-IsChained a_crypto (("2026", an_event) ∷ ("2027", an_event) ∷ []) no_events tt

abbrev a_row : AuditRow
a_row = record {
  id = 1;
  occurred_at = "2026";
  event = an_event;
  prev_hash = genesis_hash;
  hash = "digest";
}

abbrev one_event : AuditLog
one_event = record { events = a_row ∷ []; anchors = []; next_id = 2 }

-- The same row under another id, which is not hashed.
abbrev a_copy : AuditRow
a_copy = record a_row { id = 9 }

-- Two rows with different payloads have different texts.
sealed_text_payload :
    str_eq
      (sealed_text a_crypto a_row)
      (sealed_text a_crypto (record a_row { event = record an_event { payload = literal "1" } }))
    ≡ false
unfolding sealed_text canonical_json canonical_members join_commas
sealed_text_payload = refl

-- A role with a comma and a quote in it.
abbrev an_odd_row : AuditRow
an_odd_row = record a_row { id = 2; event = record an_event { actor_role = "a \"b\", c" } }

abbrev text_of_id : ℕ → String
text_of_id n = "7"

odd_rows-IsPlain : All (IsPlain text_of_id) (an_odd_row ∷ a_row ∷ [])
unfolding IsPlain
odd_rows-IsPlain = ((refl, refl, refl, refl, refl), ((refl, refl, refl, refl, refl), tt))

read_rows-write_rows_example :
    read_rows 2 (write_rows text_of_id (an_odd_row ∷ a_row ∷ []))
    ≡ map (said text_of_id) (an_odd_row ∷ a_row ∷ [])
read_rows-write_rows_example =
    read_rows-write_rows text_of_id (an_odd_row ∷ a_row ∷ []) 2 (ground arith) odd_rows-IsPlain
