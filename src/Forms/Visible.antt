-- ===== src/Forms/Visible.antt =====
-- `listVisible`, the forms that a caller can fill (src/modules/forms/forms.service.ts).
use wdc_backend.Prelude.{
  Uuid, String, Bool, true, false, ◌&&◌, Option, none, some, List, map, any, select, sort_by,
  str_eq,
}
use wdc_backend.Rls.{RlsContext}
use wdc_backend.Database.{ok}
use wdc_backend.Handler.{Handler, transact}
use wdc_backend.Forms.{FormStatus, deployed, state, lga, ward, FormRow, FormTables, to_form_view}

abbrev pub is_deployed : FormStatus → Bool
is_deployed deployed = true
is_deployed _ = false

-- `actor.lgaId ?? ''`
abbrev pub text_or_empty : (Uuid → String) → Option Uuid → String
text_or_empty uuid_text none = ""
text_or_empty uuid_text (some id) = uuid_text id

-- `scope_ids ? text`
abbrev pub lists : List String → String → Bool
lists ids id = any (λ i. str_eq i id) ids

unfoldable pub is_in_scope : (Uuid → String) → RlsContext → FormRow → Bool
is_in_scope uuid_text actor f = elim f.scope_kind [
  | state ↦ true
  | lga ↦ lists f.scope_ids (text_or_empty uuid_text actor.lga_id)
  | ward ↦ lists f.scope_ids (text_or_empty uuid_text actor.ward_id)
]

abbrev pub is_visible : (Uuid → String) → RlsContext → FormRow → Bool
is_visible uuid_text actor f = is_deployed f.status && is_in_scope uuid_text actor f

-- `listVisible`. `collate a b` says that the title `a` may stand before `b`.
unfoldable pub list_visible :
    (Uuid → String) → (String → String → Bool) → RlsContext → Handler FormTables (List FormRow)
list_visible uuid_text collate actor = transact (λ t. (
  ok (
      map to_form_view
        (sort_by (λ f g. collate f.title g.title) (select (is_visible uuid_text actor) t.forms))),
  t,
))
