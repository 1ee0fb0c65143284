-- ===== src/Users/Phone.antt =====
-- `normalisePhone` (src/common/crypto/phone.ts).
use Prim.Native.Char.{code}
use Prim.Native.String.{String as Text}
use wdc_backend.Prelude.{
  ℕ, suc, ◌≡◌, refl, ap, ◌∙◌, String, Bool, true, false, ◌&&◌, ◌||◌, Option, none, some, leb, ◌==◌,
  if◌then◌else◌, arith,
}

abbrev in_range : ℕ → ℕ → ℕ → Bool
in_range low high c = leb low c && leb c high

-- `\s`
unfoldable pub is_space : ℕ → Bool
is_space c =
    ((in_range 9 13 c || c == 32) || ((c == 160 || c == 5760) || in_range 8192 8202 c))
    || (((c == 8232 || c == 8233) || (c == 8239 || c == 8287)) || (c == 12288 || c == 65279))

-- `[\s\-()]`
abbrev pub is_filler : ℕ → Bool
is_filler c = (is_space c || c == b'-') || (c == b'(' || c == b')')

-- `replace(/[\s\-()]/g, '')`
unfoldable pub strip : String → String
strip Text.[] = Text.[]
strip (Text.◌∷◌ c s) = let rest = strip s in if is_filler (code c) then rest else Text.◌∷◌ c rest

abbrev pub is_digit : ℕ → Bool
is_digit c = in_range b'0' b'9' c

abbrev pub all_digits : String → Bool
all_digits Text.[] = true
all_digits (Text.◌∷◌ c s) = is_digit (code c) && all_digits s

abbrev pub chars : String → ℕ
chars Text.[] = 0
chars (Text.◌∷◌ c s) = suc (chars s)

abbrev first_significant : String → Bool
first_significant Text.[] = false
first_significant (Text.◌∷◌ c s) =
    in_range b'1' b'9' (code c) && (all_digits s && in_range 9 14 (chars s))

-- `^\+[1-9]\d{9,14}$`
unfoldable pub is_e164 : String → Bool
is_e164 Text.[] = false
is_e164 (Text.◌∷◌ c s) = code c == b'+' && first_significant s

-- `^0\d{10}$`, and the text after its first character.
abbrev pub is_national : String → Bool
is_national Text.[] = false
is_national (Text.◌∷◌ c s) = code c == b'0' && (all_digits s && chars s == 10)

abbrev pub tail : String → String
tail Text.[] = Text.[]
tail (Text.◌∷◌ c s) = s

-- The number with the code of the country before it.
abbrev with_country : String → String
with_country s = Text.◌∷◌ "+" (Text.◌∷◌ "2" (Text.◌∷◌ "3" (Text.◌∷◌ "4" s)))

abbrev pub read_phone : String → Option String
read_phone trimmed =
    if is_e164 trimmed
    then some trimmed
    else (if is_national trimmed then some (with_country (tail trimmed)) else none)

-- `normalisePhone`, where `none` is the error.
unfoldable pub normalise_phone : String → Option String
normalise_phone input = read_phone (strip input)

strip-digits : (s : String) → all_digits s ≡ true → strip s ≡ s
unfolding strip is_space
strip-digits Text.[] h = refl
strip-digits (Text.◌∷◌ c s) h = ground (arith, strip-digits s)

strip-significant : (s : String) → first_significant s ≡ true → strip s ≡ s
unfolding strip is_space
strip-significant Text.[] h = cc
strip-significant (Text.◌∷◌ c s) h = ground (arith, strip-digits s)

strip-e164 : (s : String) → is_e164 s ≡ true → strip s ≡ s
unfolding strip is_space is_e164
strip-e164 Text.[] h = cc
strip-e164 (Text.◌∷◌ c s) h = ground (arith, strip-significant s)

with_country-e164 : (s : String) → is_national s ≡ true → is_e164 (with_country (tail s)) ≡ true
unfolding is_e164
with_country-e164 Text.[] h = cc
with_country-e164 (Text.◌∷◌ c s) h = ground arith

read_phone-e164 : (s q : String) → read_phone s ≡ some q → is_e164 q ≡ true
read_phone-e164 s q h = ground (arith, with_country-e164 s)

-- A number that is accepted is given back in E.164, and giving that in again changes nothing.
pub normalise_phone_idem :
    (input number : String)
    → normalise_phone input ≡ some number
    → (is_e164 number ≡ true) × (normalise_phone number ≡ some number)
unfolding normalise_phone
normalise_phone_idem input number h =
    let e164 = read_phone-e164 (strip input) number h in
    (e164, ap read_phone (strip-e164 number e164) ∙ ground arith)
