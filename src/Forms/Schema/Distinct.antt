-- ===== src/Forms/Schema/Distinct.antt =====
-- The loops of `superRefine`, which collect the keys they have seen, against the plain condition.
use wdc_backend.Prelude.{
  ◌≡◌, refl, String, Bool, true, not, ◌&&◌, List, [], ◌∷◌, ◌++◌, any, str_eq, if◌then◌else◌, arith,
}
use wdc_backend.Database.{ok, err, bad_request}
use wdc_backend.Forms.Schema.{
  FormField, FormSection, FormSchema, Issue, seen_key, no_issue, field_issues, section_issues,
  is_within_limits, parse_form_schema,
}

-- No two of the items have one key.
module _ {A : Type 0} (key : A → String) where
  abbrev pub has_distinct_keys : List A → Bool
  has_distinct_keys [] = true
  has_distinct_keys (x ∷ xs) = not (any (λ y. str_eq (key x) (key y)) xs) && has_distinct_keys xs

  abbrev unseen : List String → List A → Bool
  unseen seen [] = true
  unseen seen (x ∷ xs) = not (seen_key (key x) seen) && unseen seen xs

  unseen_nothing : (xs : List A) → unseen [] xs ≡ true
  unseen_nothing [] = refl
  unseen_nothing (x ∷ xs) = unseen_nothing xs

  unseen-cons :
      (k : String) (seen : List String) (xs : List A)
      → unseen (k ∷ seen) xs ≡ not (any (λ y. str_eq k (key y)) xs) && unseen seen xs
  unseen-cons k seen [] = ground arith
  unseen-cons k seen (x ∷ xs) = ground (arith, unseen-cons k seen xs)

abbrev pub distinct_fields : List FormSection → Bool
distinct_fields [] = true
distinct_fields (s ∷ ss) = has_distinct_keys FormField.key s.fields && distinct_fields ss

no_issue-append : (xs ys : List Issue) → no_issue (xs ++ ys) ≡ no_issue xs && no_issue ys
no_issue-append [] ys = ground arith
no_issue-append (x ∷ xs) ys = refl

no_issue-field_issues :
    (section : String) (seen : List String) (fs : List FormField)
    → no_issue (field_issues section seen fs)
      ≡ unseen FormField.key seen fs && has_distinct_keys FormField.key fs
unfolding field_issues
no_issue-field_issues section seen [] = ground arith
no_issue-field_issues section seen (f ∷ fs) = ground (
  arith,
  no_issue-field_issues section (f.key ∷ seen) fs,
  unseen-cons FormField.key f.key seen fs,
)

no_issue-section_issues :
    (seen : List String) (ss : List FormSection)
    → no_issue (section_issues seen ss)
      ≡ (unseen FormSection.key seen ss && has_distinct_keys FormSection.key ss)
        && distinct_fields ss
unfolding section_issues
no_issue-section_issues seen [] = ground arith
no_issue-section_issues seen (s ∷ ss) = ground (
  arith,
  no_issue-append (field_issues s.key [] s.fields) (section_issues (s.key ∷ seen) ss),
  no_issue-field_issues s.key [] s.fields,
  unseen_nothing FormField.key s.fields,
  no_issue-section_issues (s.key ∷ seen) ss,
  unseen-cons FormSection.key s.key seen ss,
)

-- A schema within the limits is accepted, and given back as it is, exactly when no two sections
-- have one key and no two fields of a section have one key; any other is refused.
pub parse_form_schema-distinct :
    (s : FormSchema)
    → parse_form_schema s ≡ (
        if is_within_limits s
          && (has_distinct_keys FormSection.key s.sections && distinct_fields s.sections)
        then ok s
        else err (bad_request "invalid form schema"))
unfolding parse_form_schema
parse_form_schema-distinct s =
    ground (arith, no_issue-section_issues [] s.sections, unseen_nothing FormSection.key s.sections)
