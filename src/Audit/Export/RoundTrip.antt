-- ===== src/Audit/Export/RoundTrip.antt =====
-- A reader of the rows of the export, as RFC 4180 has it: it gives back what was written.
use Prim.Native.Char.{Char, code}
use Prim.Native.String.{String as Text}
use Prim.Native.String.append
use wdc_backend.Prelude.{
  ◌+++◌, ◌≡◌, refl, ap, sym, ◌∙◌, String, Bool, true, false, ◌||◌, ◌==◌, has_char, if◌then◌else◌,
  arith, Bool-cases, inl, inr,
}
use wdc_backend.Audit.Export.{double_quotes, needs_quotes, csv}

-- A quoted field, behind its first quote; `closing` says that the character before was a quote.
unfoldable pub read_quoted : Bool → String → String × String
read_quoted closing Text.[] = ("", "")
read_quoted false (Text.◌∷◌ c s) =
    let skip = read_quoted true s in
    let rest = read_quoted false s in if code c == b'"' then skip else (Text.◌∷◌ c rest.0, rest.1)
read_quoted true (Text.◌∷◌ c s) =
    let rest = read_quoted false s in
    if code c == b'"' then (Text.◌∷◌ c rest.0, rest.1) else ("", Text.◌∷◌ c s)

-- A field without quotes, up to a comma or the end of the line.
unfoldable pub read_plain : String → String × String
read_plain Text.[] = ("", "")
read_plain (Text.◌∷◌ c s) =
    let rest = read_plain s in
    if code c == b',' || code c == b'\n' then ("", Text.◌∷◌ c s) else (Text.◌∷◌ c rest.0, rest.1)

unfoldable pub read_field : String → String × String
read_field Text.[] = ("", "")
read_field (Text.◌∷◌ c s) =
    if code c == b'"' then read_quoted false s else read_plain (Text.◌∷◌ c s)

-- A text that begins with a comma or the end of a line.
abbrev pub is_stop : String → Bool
is_stop Text.[] = false
is_stop (Text.◌∷◌ c s) = code c == b',' || code c == b'\n'

read_closing : (rest : String) → is_stop rest ≡ true → read_quoted true rest ≡ ("", rest)
unfolding read_quoted
read_closing Text.[] h = cc
read_closing (Text.◌∷◌ c s) h = ground arith

quote_code : code "\"" ≡ b'"'
quote_code = refl

reread-other :
    (c : Char) (t s rest : String)
    → (code c == b'"') ≡ false
    → read_quoted false t ≡ (s, rest)
    → read_quoted false (Text.◌∷◌ c t) ≡ (Text.◌∷◌ c s, rest)
unfolding read_quoted
reread-other c t s rest other h = rw other (ap (λ p. (Text.◌∷◌ c (p.0), p.1)) h)

reread-quote :
    (c : Char) (t s rest : String)
    → (code c == b'"') ≡ true
    → read_quoted false t ≡ (s, rest)
    → read_quoted false (Text.◌∷◌ "\"" (Text.◌∷◌ c t)) ≡ (Text.◌∷◌ c s, rest)
unfolding read_quoted
reread-quote c t s rest quote h = rw quote (ap (λ p. (Text.◌∷◌ c (p.0), p.1)) h)

read_quoted-double_quotes :
    (s rest : String)
    → is_stop rest ≡ true
    → read_quoted false (double_quotes s +++ Text.◌∷◌ "\"" rest) ≡ (s, rest)
unfolding read_quoted double_quotes
read_quoted-double_quotes Text.[] rest h =
    ap (read_quoted false) (append.nil (Text.◌∷◌ "\"" rest)) ∙ read_closing rest h
read_quoted-double_quotes (Text.◌∷◌ c s) rest h = elim (Bool-cases (code c == b'"')) [
  | inl quote ↦ rw quote (
      ap (read_quoted false) (append.cons "\"" (Text.◌∷◌ c (double_quotes s)) (Text.◌∷◌ "\"" rest))
      ∙ ap (λ t. read_quoted false (Text.◌∷◌ "\"" t))
          (append.cons c (double_quotes s) (Text.◌∷◌ "\"" rest))
      ∙ reread-quote c (double_quotes s +++ Text.◌∷◌ "\"" rest) s rest quote
          (read_quoted-double_quotes s rest h))
  | inr other ↦ rw other (
      ap (read_quoted false) (append.cons c (double_quotes s) (Text.◌∷◌ "\"" rest))
      ∙ reread-other c (double_quotes s +++ Text.◌∷◌ "\"" rest) s rest other
          (read_quoted-double_quotes s rest h))
]

reread-plain :
    (c : Char) (t s rest : String)
    → (code c == b',' || code c == b'\n') ≡ false
    → read_plain t ≡ (s, rest)
    → read_plain (Text.◌∷◌ c t) ≡ (Text.◌∷◌ c s, rest)
unfolding read_plain
reread-plain c t s rest other h = rw other (ap (λ p. (Text.◌∷◌ c (p.0), p.1)) h)

read_plain-append :
    (s rest : String)
    → has_char b',' s ≡ false
    → has_char b'\n' s ≡ false
    → is_stop rest ≡ true
    → read_plain (s +++ rest) ≡ (s, rest)
unfolding read_plain
read_plain-append Text.[] Text.[] h k l = cc
read_plain-append Text.[] (Text.◌∷◌ c t) h k l =
    ap read_plain (append.nil (Text.◌∷◌ c t)) ∙ rw l refl
read_plain-append (Text.◌∷◌ c s) rest h k l =
    ap read_plain (append.cons c s rest)
    ∙ reread-plain c (s +++ rest) s rest (ground (arith, h, k))
        (read_plain-append s rest (ground (arith, h)) (ground (arith, k)) l)

pub text_assoc : (s t u : String) → (s +++ t) +++ u ≡ s +++ (t +++ u)
text_assoc Text.[] t u = ap (λ x. x +++ u) (append.nil t) ∙ sym (append.nil (t +++ u))
text_assoc (Text.◌∷◌ c s) t u =
    ap (λ x. x +++ u) (append.cons c s t)
    ∙ append.cons c (s +++ t) u
    ∙ ap (λ x. Text.◌∷◌ c x) (text_assoc s t u)
    ∙ sym (append.cons c s (t +++ u))

stop-is_no_quote :
    (c : Char) → (code c == b',' || code c == b'\n') ≡ true → (code c == b'"') ≡ false
stop-is_no_quote c h = ground (arith, h)

stops :
    (c : Char) (t : String)
    → (code c == b',' || code c == b'\n') ≡ true
    → read_plain (Text.◌∷◌ c t) ≡ ("", Text.◌∷◌ c t)
unfolding read_plain
stops c t h = rw h refl

read_field-quoted :
    (s rest : String)
    → is_stop rest ≡ true
    → read_field (Text.◌∷◌ "\"" (double_quotes s +++ Text.◌∷◌ "\"" "") +++ rest) ≡ (s, rest)
unfolding read_field
read_field-quoted s rest l =
    ap read_field (append.cons "\"" (double_quotes s +++ Text.◌∷◌ "\"" "") rest)
    ∙ ap (read_quoted false) (
        text_assoc (double_quotes s) (Text.◌∷◌ "\"" "") rest
        ∙ ap (λ t. double_quotes s +++ t) (append.cons "\"" "" rest)
        ∙ ap (λ t. double_quotes s +++ Text.◌∷◌ "\"" t) (append.nil rest))
    ∙ read_quoted-double_quotes s rest l

read_field-plain :
    (s rest : String)
    → needs_quotes s ≡ false
    → is_stop rest ≡ true
    → read_field (s +++ rest) ≡ (s, rest)
unfolding read_field
read_field-plain Text.[] Text.[] h l = cc
read_field-plain Text.[] (Text.◌∷◌ c t) h l =
    ap read_field (append.nil (Text.◌∷◌ c t)) ∙ rw (stop-is_no_quote c l) (stops c t l)
read_field-plain (Text.◌∷◌ c s) rest h l =
    let head : (code c == b'"') ≡ false = ground (arith, h) in
    ap read_field (append.cons c s rest)
    ∙ rw head (
        sym (ap read_plain (append.cons c s rest))
        ∙ read_plain-append (Text.◌∷◌ c s) rest (ground (arith, h)) (ground (arith, h)) l)

-- A written field is read back, whatever it holds.
pub read_field-csv :
    (s rest : String) → is_stop rest ≡ true → read_field (csv s +++ rest) ≡ (s, rest)
unfolding csv
read_field-csv s rest l = elim (Bool-cases (needs_quotes s)) [
  | inl quoted ↦ rw quoted (read_field-quoted s rest l)
  | inr plain ↦ rw plain (read_field-plain s rest plain l)
]
