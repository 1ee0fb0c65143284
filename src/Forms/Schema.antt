-- ===== src/Forms/Schema.antt =====
-- The schema of a form version (src/modules/forms/form-schema.ts). The library zod reads the JSON
-- into these types and puts in the defaults; the limits and `superRefine` are the code's.
pub mod Distinct
use Prim.Native.Char.{code}
use Prim.Native.String.{String as Text}
use wdc_backend.Prelude.{
  ℕ, ◌+◌, ◌≡◌, ◌↔◌, refl, String, Bool, true, false, not, ◌&&◌, ◌||◌, Option, none, some, List, [],
  ◌∷◌, ◌++◌, any, length, ltb, leb, ◌==◌, str_eq, if◌then◌else◌, arith, Bool-cases, inl, inr,
}
use wdc_backend.Database.{Result, ok, err, bad_request}

-- `min` and `max` of a number are any JSON numbers, kept as texts.
pub data FieldKind : Type 0 where
  text : Bool → Option ℕ → FieldKind
  number : Option String → Option String → ℕ → FieldKind
  date checkbox : FieldKind
  choice : Bool → List (String × String × String) → FieldKind
  photo audio : ℕ → FieldKind

pub record FormField : Type 0 where
  pub key : String
  pub required : Bool
  pub label_en : String
  pub label_ha : String
  pub help_en : Option String
  pub help_ha : Option String
  pub kind : FieldKind

pub record FormSection : Type 0 where
  pub key : String
  pub label_en : String
  pub label_ha : String
  pub fields : List FormField

pub record FormSchema : Type 0 where
  pub version : ℕ
  pub sections : List FormSection

-- The length of a JavaScript text: UTF-16 units.
abbrev pub units : String → ℕ
units Text.[] = 0
units (Text.◌∷◌ c s) = (if ltb (code c) 65536 then 1 else 2) + units s

abbrev pub between : ℕ → ℕ → ℕ → Bool
between low high n = leb low n && leb n high

abbrev is_lower : ℕ → Bool
is_lower c = between b'a' b'z' c

abbrev is_key_char : ℕ → Bool
is_key_char c = (is_lower c || between b'0' b'9' c) || c == b'_'

abbrev all_key_chars : String → Bool
all_key_chars Text.[] = true
all_key_chars (Text.◌∷◌ c s) = is_key_char (code c) && all_key_chars s

abbrev matches_key : String → Bool
matches_key Text.[] = false
matches_key (Text.◌∷◌ c s) = is_lower (code c) && all_key_chars s

-- `FieldKey`
unfoldable pub is_field_key : String → Bool
is_field_key key = between 1 64 (units key) && matches_key key

abbrev pub is_label : String → Bool
is_label label = between 1 200 (units label)

abbrev is_help : Option String → Bool
is_help none = true
is_help (some help) = leb (units help) 500

abbrev all_options : List (String × String × String) → Bool
all_options [] = true
all_options ((value, label_en, label_ha) ∷ options) =
    ((between 1 64 (units value) && is_label label_en) && is_label label_ha) && all_options options

-- The limits of each kind of field.
unfoldable pub is_field_kind : FieldKind → Bool
is_field_kind (text multiline none) = true
is_field_kind (text multiline (some n)) = between 1 10000 n
is_field_kind (number low high decimals) = leb decimals 6
is_field_kind date = true
is_field_kind checkbox = true
is_field_kind (choice multiple options) = between 1 100 (length options) && all_options options
is_field_kind (photo n) = between 1 20 n
is_field_kind (audio n) = between 5 600 n

abbrev pub is_field : FormField → Bool
is_field f =
    ((is_field_key f.key && (is_label f.label_en && is_label f.label_ha))
      && (is_help f.help_en && is_help f.help_ha))
    && is_field_kind f.kind

abbrev all_fields : List FormField → Bool
all_fields [] = true
all_fields (f ∷ fs) = is_field f && all_fields fs

abbrev pub is_section : FormSection → Bool
is_section s =
    ((is_field_key s.key && (is_label s.label_en && is_label s.label_ha))
      && between 1 50 (length s.fields))
    && all_fields s.fields

abbrev all_sections : List FormSection → Bool
all_sections [] = true
all_sections (s ∷ ss) = is_section s && all_sections ss

-- What the object checks before `superRefine`.
unfoldable pub is_within_limits : FormSchema → Bool
is_within_limits s = (s.version == 1 && between 1 20 (length s.sections)) && all_sections s.sections

pub data Issue : Type 0 where
  duplicate_section : String → Issue
  duplicate_field : String → String → Issue

abbrev pub seen_key : String → List String → Bool
seen_key key seen = any (λ k. str_eq k key) seen

-- The loop over the fields of a section, with the keys it has seen.
unfoldable pub field_issues : String → List String → List FormField → List Issue
field_issues section seen [] = []
field_issues section seen (f ∷ fs) =
    let rest = field_issues section (f.key ∷ seen) fs in
    if seen_key f.key seen then duplicate_field section f.key ∷ rest else rest

-- The loop over the sections.
unfoldable pub section_issues : List String → List FormSection → List Issue
section_issues seen [] = []
section_issues seen (s ∷ ss) =
    let rest = field_issues s.key [] s.fields ++ section_issues (s.key ∷ seen) ss in
    if seen_key s.key seen then duplicate_section s.key ∷ rest else rest

abbrev pub no_issue : List Issue → Bool
no_issue [] = true
no_issue (_ ∷ _) = false

-- `parseFormSchema`
unfoldable pub parse_form_schema : FormSchema → Result FormSchema
parse_form_schema s =
    if is_within_limits s && no_issue (section_issues [] s.sections)
    then ok s
    else err (bad_request "invalid form schema")
