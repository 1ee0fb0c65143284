-- ===== src/Audit/Canonical.antt =====
-- `canonicalJson` of src/modules/audit/audit.service.ts.
use Prim.Native.Nat.{Ordering}
use Prim.Native.String
use wdc_backend.Prelude.{String, ◌+++◌, Bool, true, false, List, [], ◌∷◌, map, sort_by}

-- Parsed JSON. A number, a Boolean or `null` is the text that `JSON.stringify` makes of it.
mutual
  pub data JsonValue : Type 0 where
    object : Members → JsonValue
    array : Elements → JsonValue
    text literal : String → JsonValue

  pub data Members : Type 0 where
    no_member : Members
    member : String → JsonValue → Members → Members

  pub data Elements : Type 0 where
    no_element : Elements
    element : JsonValue → Elements → Elements

-- `join(',')`
unfoldable pub join_commas : List String → String
join_commas [] = ""
join_commas (s ∷ []) = s
join_commas (s ∷ t ∷ rest) = s +++ "," +++ join_commas (t ∷ rest)

-- The order of `sort()` on keys.
abbrev pub key_before : String × String → String × String → Bool
key_before (j, a) (k, b) = elim (String.compare j k) [ Ordering.gt ↦ false | _ ↦ true ]

abbrev pub entry : (String → String) → String × String → String
entry stringify (k, value) = stringify k +++ ":" +++ value

-- `stringify` is `JSON.stringify` on texts.
unfoldable mutual
  pub canonical_json : (String → String) → JsonValue → String
  canonical_json stringify (object members) =
      "{"
      +++ join_commas
          (map (entry stringify) (sort_by key_before (canonical_members stringify members)))
      +++ "}"
  canonical_json stringify (array elements) =
      "[" +++ join_commas (canonical_elements stringify elements) +++ "]"
  canonical_json stringify (text s) = stringify s
  canonical_json stringify (literal s) = s

  pub canonical_members : (String → String) → Members → List (String × String)
  canonical_members stringify no_member = []
  canonical_members stringify (member key value rest) =
      (key, canonical_json stringify value) ∷ canonical_members stringify rest

  pub canonical_elements : (String → String) → Elements → List String
  canonical_elements stringify no_element = []
  canonical_elements stringify (element value rest) =
      canonical_json stringify value ∷ canonical_elements stringify rest
