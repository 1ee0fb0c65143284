-- ===== src/Audit/Export/Rows.antt =====
-- The rows of the export, written and read back.

use Prim.Native.String.{String as Text}
use Prim.Native.String.append
use wdc_backend.Prelude.{
  ℕ, zero, suc, ◌+++◌, ◌≤◌, arith, ◌≡◌, refl, ap, sym, ◌∙◌, String, false, List, [], ◌∷◌,
  if◌then◌else◌, is_empty, map, All, length,
}
use wdc_backend.Audit.Log.{AuditRow}
use wdc_backend.Audit.Export.{needs_quotes, csv, join_fields, or_blank, row_fields, write_rows}
use wdc_backend.Audit.Export.RoundTrip.{read_field, read_field-csv, text_assoc}

abbrev behind : String → String
behind Text.[] = Text.[]
behind (Text.◌∷◌ c s) = s

-- A number of fields, each with the comma or the end of the line behind it.
unfoldable pub read_row : ℕ → String → List String × String
read_row zero s = ([], s)
read_row (suc n) s =
    let field = read_field s in let rest = read_row n (behind field.1) in (field.0 ∷ rest.0, rest.1)

-- The rows of a text, as many as the fuel allows.
unfoldable pub read_rows : ℕ → String → List (List String)
read_rows zero s = []
read_rows (suc fuel) s =
    let row = read_row 9 s in
    let rest = read_rows fuel row.1 in if is_empty s then [] else row.0 ∷ rest

-- What a row of the export says, before it is written.
abbrev pub said : (ℕ → String) → AuditRow → List String
said text_of row =
    text_of row.id
    ∷ row.occurred_at
    ∷ or_blank row.event.actor_user_id
    ∷ row.event.actor_role
    ∷ row.event.event_kind
    ∷ or_blank row.event.target_table
    ∷ or_blank row.event.target_id
    ∷ row.prev_hash
    ∷ row.hash
    ∷ []

-- The fields that are written without a look at their characters have none to quote.
unfoldable pub IsPlain : (ℕ → String) → AuditRow → Type 0
IsPlain text_of row =
    (needs_quotes (text_of row.id) ≡ false)
    × (needs_quotes row.occurred_at ≡ false)
    × (needs_quotes (or_blank row.event.actor_user_id) ≡ false)
    × (needs_quotes row.prev_hash ≡ false)
    × (needs_quotes row.hash ≡ false)

read_behind :
    (f : String) (k : ℕ) (t : String)
    → read_field (csv f +++ t) ≡ (f, t)
    → read_row (suc k) (csv f +++ t) ≡ (f ∷ (read_row k (behind t)).0, (read_row k (behind t)).1)
unfolding read_row
read_behind f k t h = ap (λ p. (p.0 ∷ (read_row k (behind p.1)).0, (read_row k (behind p.1)).1)) h

read_row-join_fields :
    (f : String) (fs : List String) (rest : String)
    → read_row (length (f ∷ fs)) (join_fields (map csv (f ∷ fs)) +++ rest) ≡ (f ∷ fs, rest)
unfolding read_row join_fields
read_row-join_fields f [] rest =
    ap (read_row 1) (
      text_assoc (csv f) (Text.◌∷◌ "\n" "") rest
      ∙ ap (λ t. csv f +++ t)
          (append.cons "\n" "" rest ∙ ap (λ t. Text.◌∷◌ "\n" t) (append.nil rest)))
    ∙ read_behind f 0 (Text.◌∷◌ "\n" rest) (read_field-csv f (Text.◌∷◌ "\n" rest) refl)
read_row-join_fields f (g ∷ fs) rest =
    let others = join_fields (map csv (g ∷ fs)) in
    ap (read_row (length (f ∷ g ∷ fs))) (
      text_assoc (csv f) (Text.◌∷◌ "," others) rest
      ∙ ap (λ t. csv f +++ t) (append.cons "," others rest))
    ∙ read_behind f (length (g ∷ fs)) (Text.◌∷◌ "," (others +++ rest))
        (read_field-csv f (Text.◌∷◌ "," (others +++ rest)) refl)
    ∙ ap (λ p. (f ∷ p.0, p.1)) (read_row-join_fields g fs rest)

csv-plain : (s : String) → needs_quotes s ≡ false → csv s ≡ s
unfolding csv
csv-plain s h = rw h refl

row_fields-csv :
    (text_of : ℕ → String) (row : AuditRow)
    → IsPlain text_of row
    → map csv (said text_of row) ≡ row_fields text_of row
unfolding IsPlain row_fields
row_fields-csv text_of row (a, b, c, d, e) = rw (csv-plain (text_of row.id) a) (
    rw (csv-plain row.occurred_at b) (
      rw (csv-plain (or_blank row.event.actor_user_id) c)
        (rw (csv-plain row.prev_hash d) (rw (csv-plain row.hash e) refl))))

joined-not_empty :
    (s : String) (t u : String) → is_empty t ≡ false → is_empty ((s +++ t) +++ u) ≡ false
joined-not_empty Text.[] Text.[] u h = ground arith
joined-not_empty Text.[] (Text.◌∷◌ c t) u h =
    ap is_empty (ap (λ x. x +++ u) (append.nil (Text.◌∷◌ c t)) ∙ append.cons c t u)
joined-not_empty (Text.◌∷◌ c s) t u h =
    ap is_empty (ap (λ x. x +++ u) (append.cons c s t) ∙ append.cons c (s +++ t) u)

join_fields-not_empty :
    (f : String) (fs : List String) (u : String) → is_empty (join_fields (f ∷ fs) +++ u) ≡ false
unfolding join_fields
join_fields-not_empty f [] u = joined-not_empty f (Text.◌∷◌ "\n" "") u refl
join_fields-not_empty f (g ∷ fs) u = joined-not_empty f (Text.◌∷◌ "," (join_fields (g ∷ fs))) u refl

read_rows-step :
    (fuel : ℕ) (s t : String) (fs : List String)
    → is_empty s ≡ false
    → read_row 9 s ≡ (fs, t)
    → read_rows (suc fuel) s ≡ fs ∷ read_rows fuel t
unfolding read_rows
read_rows-step fuel s t fs h e = rw h (ap (λ p. p.0 ∷ read_rows fuel p.1) e)

read_rows-empty : (fuel : ℕ) → read_rows fuel "" ≡ []
unfolding read_rows
read_rows-empty zero = refl
read_rows-empty (suc fuel) = refl

-- The rows that the export writes are read back, whatever the texts of their roles, kinds and
-- targets hold, where the fields that are written without
-- quoting need none and the fuel is at least the number of rows.
pub read_rows-write_rows :
    (text_of : ℕ → String) (rows : List AuditRow) (fuel : ℕ)
    → length rows ≤ fuel
    → All (IsPlain text_of) rows
    → read_rows fuel (write_rows text_of rows) ≡ map (said text_of) rows
unfolding write_rows row_fields
read_rows-write_rows text_of [] fuel enough plain = read_rows-empty fuel
read_rows-write_rows text_of (row ∷ rows) zero enough (p, plain) = ground (arith, enough)
read_rows-write_rows text_of (row ∷ rows) (suc fuel) enough (p, plain) =
    let others = write_rows text_of rows in
    read_rows-step fuel (join_fields (row_fields text_of row) +++ others) others (said text_of row)
      (join_fields-not_empty (text_of row.id) _ others)
      (ap (λ fs. read_row 9 (join_fields fs +++ others)) (sym (row_fields-csv text_of row p))
        ∙ read_row-join_fields (text_of row.id) _ others)
    ∙ ap (λ rs. said text_of row ∷ rs)
        (read_rows-write_rows text_of rows fuel (omega (arith, enough)) plain)
