-- ===== src/Audit/Log.antt =====
-- The append to the hash chain, and the anchors over it.
use wdc_backend.Prelude.{
  ◌+++◌, ℕ, ◌+◌, String, Bool, ◌&&◌, Option, none, some, List, [], ◌∷◌, any, str_eq, if◌then◌else◌,
}
use wdc_backend.Database.{Result, ok, err, database, duplicate_key}
use wdc_backend.Audit.Canonical.{
  JsonValue, literal, text, object, no_member, member, canonical_json,
}

-- An event, its identifiers as texts.
pub record AuditEvent : Type 0 where
  pub actor_user_id : Option String
  pub actor_role : String
  pub event_kind : String
  pub target_table : Option String
  pub target_id : Option String
  pub payload : JsonValue
  pub request_id : Option String

pub record AuditRow : Type 0 where
  pub id : ℕ
  pub occurred_at : String
  pub event : AuditEvent
  pub prev_hash : String
  pub hash : String

pub record AuditAnchor : Type 0 where
  pub latest_event_id : ℕ
  pub latest_hash : String
  pub signature_alg : String
  pub signing_key_id : String
  pub signature : String

-- The newest row first.
pub record AuditLog : Type 0 where
  pub events : List AuditRow
  pub anchors : List AuditAnchor
  pub next_id : ℕ

-- Node's SHA-256 in hexadecimal and RSA signatures, and `JSON.stringify` on texts.
pub record Crypto : Type 0 where
  pub sha256_hex : String → String
  pub stringify : String → String
  pub sign : String → String
  pub verify : String → String → Bool

abbrev pub genesis_hash : String
genesis_hash = "0000000000000000000000000000000000000000000000000000000000000000"

abbrev pub text_or_null : Option String → JsonValue
text_or_null none = literal "null"
text_or_null (some s) = text s

-- The text that is hashed after the previous hash.
unfoldable pub canonical_event : Crypto → String → AuditEvent → String
canonical_event crypto occurred_at evt = canonical_json crypto.stringify (
    object (
      member "occurred_at" (text occurred_at) (
        member "actor_user_id" (text_or_null evt.actor_user_id) (
          member "actor_role" (text evt.actor_role) (
            member "event_kind" (text evt.event_kind) (
              member "target_table" (text_or_null evt.target_table) (
                member "target_id" (text_or_null evt.target_id) (
                  member "payload" evt.payload
                    (member "request_id" (text_or_null evt.request_id) no_member)))))))))

-- The hash of the newest row, or the genesis.
abbrev pub latest_hash : List AuditRow → String
latest_hash [] = genesis_hash
latest_hash (r ∷ rs) = r.hash

unfoldable pub next_row : Crypto → String → AuditEvent → AuditLog → AuditRow
next_row crypto occurred_at evt log =
    let prev = latest_hash log.events in
    record {
      id = log.next_id;
      occurred_at = occurred_at;
      event = evt;
      prev_hash = prev;
      hash = crypto.sha256_hex (prev +++ canonical_event crypto occurred_at evt);
    }

-- `append`. The hash is a unique key, and a failed insert has drawn its id.
unfoldable pub append : Crypto → String → AuditEvent → AuditLog → Result AuditRow × AuditLog
append crypto occurred_at evt log =
    let row = next_row crypto occurred_at evt log in
    let drawn = record log { next_id = log.next_id + 1 } in
    if any (λ r. str_eq r.hash row.hash) log.events
    then (err (database duplicate_key), drawn)
    else (ok row, record drawn { events = row ∷ log.events })

abbrev pub signature_alg_value : String
signature_alg_value = "rsa-sha256"

abbrev pub anchor_of : Crypto → AuditRow → AuditAnchor
anchor_of crypto row = record {
  latest_event_id = row.id;
  latest_hash = row.hash;
  signature_alg = signature_alg_value;
  signing_key_id = "jwt-dev";
  signature = crypto.sign row.hash;
}

-- `createAnchor`
unfoldable pub create_anchor : Crypto → AuditLog → Option AuditAnchor × AuditLog
create_anchor crypto log = elim log.events [
  | [] ↦ (none, log)
  | row ∷ rest ↦
      (some (anchor_of crypto row), record log { anchors = anchor_of crypto row ∷ log.anchors })
]

-- `verify` of an anchor.
unfoldable pub verify_anchor : Crypto → AuditAnchor → Bool
verify_anchor crypto a =
    str_eq a.signature_alg signature_alg_value && crypto.verify a.latest_hash a.signature
