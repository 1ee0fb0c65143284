-- ===== src/Audit/Chain.antt =====
-- What the hash chain and its anchors promise.
use wdc_backend.Prelude.{
  ◌+++◌, String, ◌≡◌, ◌≢◌, refl, subst, ◌⊎◌, inl, inr, true, Option, none, some, List, [], ◌∷◌, any,
  str_eq, Bool-cases, arith,
}
use wdc_backend.Audit.Canonical.{canonical_json}
use wdc_backend.Audit.Log.{
  AuditEvent, AuditRow, AuditAnchor, AuditLog, Crypto, latest_hash, canonical_event, next_row,
  append, create_anchor, verify_anchor, anchor_of,
}

-- What is hashed for a row.
abbrev pub hashed : Crypto → AuditRow → String
hashed crypto r = r.prev_hash +++ canonical_event crypto r.occurred_at r.event

-- Every row names the hash of the row before it, and carries the hash of its own text.
abbrev pub IsChained : Crypto → List AuditRow → Type 0
IsChained crypto [] = Unit
IsChained crypto (r ∷ rs) =
    (r.prev_hash ≡ latest_hash rs)
    × (r.hash ≡ crypto.sha256_hex (hashed crypto r))
    × IsChained crypto rs

unfoldable pub append_all : Crypto → List (String × AuditEvent) → AuditLog → AuditLog
append_all crypto [] log = log
append_all crypto ((occurred_at, evt) ∷ evts) log =
    append_all crypto evts (append crypto occurred_at evt log).1

append-IsChained :
    (crypto : Crypto) (occurred_at : String) (evt : AuditEvent) (log : AuditLog)
    → IsChained crypto log.events
    → IsChained crypto (append crypto occurred_at evt log).1.events
unfolding append next_row
append-IsChained crypto occurred_at evt log c =
    let row = next_row crypto occurred_at evt log in
    elim (Bool-cases (any (λ r. str_eq r.hash row.hash) log.events)) [
      | inl taken ↦ rw taken c
      | inr new ↦ rw new (refl, refl, c)
    ]

-- Appends, the refused ones included, keep a log chained.
pub append_all-IsChained :
    (crypto : Crypto) (evts : List (String × AuditEvent)) (log : AuditLog)
    → IsChained crypto log.events
    → IsChained crypto (append_all crypto evts log).events
unfolding append_all
append_all-IsChained crypto [] log c = c
append_all-IsChained crypto ((occurred_at, evt) ∷ evts) log c =
    append_all-IsChained crypto evts _ (append-IsChained crypto occurred_at evt log c)

-- The anchor of a log names its newest row and verifies, where a signature verifies against the
-- text that was signed.
pub create_anchor-verifies :
    (crypto : Crypto) (log : AuditLog) (a : AuditAnchor)
    → ((text : String) → crypto.verify text (crypto.sign text) ≡ true)
    → (create_anchor crypto log).0 ≡ some a
    → (verify_anchor crypto a ≡ true) × (a.latest_hash ≡ latest_hash log.events)
unfolding create_anchor verify_anchor
create_anchor-verifies crypto log a signed made = by_rows log.events refl
  where
    by_rows :
        (rows : List AuditRow)
        → log.events ≡ rows
        → (verify_anchor crypto a ≡ true) × (a.latest_hash ≡ latest_hash log.events)
    by_rows [] e = ground arith
    by_rows (row ∷ rows) e =
        let it : anchor_of crypto row ≡ a = ground arith in
        (
          subst (λ x. verify_anchor crypto x ≡ true) it (ground (arith, signed row.hash)),
          subst (λ x. x.latest_hash ≡ latest_hash log.events) it (rw e refl),
        )

abbrev pub text_or_bare_null : Crypto → Option String → String
text_or_bare_null crypto none = "null"
text_or_bare_null crypto (some s) = crypto.stringify s

-- The text that is hashed for a row, written out: the hash before it and every field of the event,
-- under its key, with the keys in the order of their texts.
unfoldable pub sealed_text : Crypto → AuditRow → String
sealed_text crypto r =
    let key : String → String → String = λ k v. crypto.stringify k +++ ":" +++ v in
    r.prev_hash
    +++ "{"
    +++ (key "actor_role" (crypto.stringify r.event.actor_role)
        +++ ","
        +++ key "actor_user_id" (text_or_bare_null crypto r.event.actor_user_id)
        +++ ","
        +++ key "event_kind" (crypto.stringify r.event.event_kind)
        +++ ","
        +++ key "occurred_at" (crypto.stringify r.occurred_at)
        +++ ","
        +++ key "payload" (canonical_json crypto.stringify r.event.payload)
        +++ ","
        +++ key "request_id" (text_or_bare_null crypto r.event.request_id)
        +++ ","
        +++ key "target_id" (text_or_bare_null crypto r.event.target_id)
        +++ ","
        +++ key "target_table" (text_or_bare_null crypto r.event.target_table))
    +++ "}"

-- Two rows at one place of the logs with one hash and different texts.
abbrev pub Clash : Crypto → List AuditRow → List AuditRow → Type 0
Clash crypto [] ys = ⊥
Clash crypto (x ∷ xs) [] = ⊥
Clash crypto (x ∷ xs) (y ∷ ys) =
    ((sealed_text crypto x ≢ sealed_text crypto y) × (x.hash ≡ y.hash)) ⊎ Clash crypto xs ys

abbrev pub Width : Crypto → Type 0
Width crypto =
    (a b c d : String)
    → (crypto.sha256_hex a +++ c) ≡ (crypto.sha256_hex b +++ d)
    → crypto.sha256_hex a ≡ crypto.sha256_hex b
