-- ===== src/Investigations/Walk.antt =====
-- Walking through the pages of the list, each with the cursor of the one before.
use wdc_backend.Prelude.{
  ℕ, zero, suc, ◌≤◌, ◌<◌, String, ◌+++◌, append-filled, ◌≡◌, refl, sym, ap, ◌∙◌, subst, true,
  Option, none, some, List, [], ◌∷◌, ◌++◌, map, take, length, sort_by, ltb, arith, Bool-cases, inl,
  inr,
}
use wdc_backend.Rls.{RlsContext, director}
use wdc_backend.Database.{Result, ok, err}
use wdc_backend.Handler.{World, as_director, transact, is_director}
use wdc_backend.Investigations.{
  InvestigationRow, Tables, InvestigationView, to_investigation_view, date,
}
use wdc_backend.Investigations.Cursor.{
  Codec, IsCodec, bar, encode_cursor, decode_cursor-encode_cursor,
}
use wdc_backend.Investigations.Pages.{
  Page, newest_first, given, select_page, cursor_of, page_of, page_size, list,
}
use wdc_backend.Investigations.Newest.{
  AllApart, IsNewest, sort_by-IsNewest, select-behind, Cut, cut, last_row-append, take-take,
  length-take_more, take-short, map-append, append_last, append_assoc, length-sort_by,
}

abbrev join :
    List InvestigationView → Option (List InvestigationView) → Option (List InvestigationView)
join items none = none
join items (some later) = some (items ++ later)

-- The items of a page, and of the later ones where it has a cursor.
abbrev after_page :
    Result Page → (String → Option (List InvestigationView)) → Option (List InvestigationView)
after_page (err e) later = none
after_page (ok page) later = elim page.next_cursor [
  | none ↦ some page.items
  | some next ↦ join page.items (later next)
]

-- The items of all pages from this cursor on, on fuel.
unfoldable pub walk :
    Codec
    → RlsContext
    → Option ℕ
    → ℕ
    → Option String
    → World Tables
    → Option (List InvestigationView)
walk codec actor limit zero cursor w = none
walk codec actor limit (suc fuel) cursor w =
    after_page (list codec actor (record { cursor = cursor; limit = limit }) w).0
      (λ next. walk codec actor limit fuel (some next) w)

module _ (codec : Codec) (laws : IsCodec codec) where
  -- The pages from this cursor on hold these rows.
  Resumes : Option String → List InvestigationRow → Tables → Type 0
  Resumes cursor is t =
      (count : ℕ) → select_page codec (given cursor) count t ≡ (ok (take count is), t)

  given-cursor_of :
      (i : InvestigationRow) → given (some (cursor_of codec i)) ≡ some (cursor_of codec i)
  unfolding encode_cursor
  given-cursor_of i = ground (
    arith,
    laws.base64_filled (codec.to_iso (date i.created_at) +++ (bar +++ codec.uuid_text i.id)) (
        append-filled (codec.to_iso (date i.created_at)) _ (laws.dates_filled (date i.created_at))),
  )

  resume_behind :
      (before : List InvestigationRow) (i : InvestigationRow) (after : List InvestigationRow)
      (t : Tables)
      → sort_by newest_first t.investigations ≡ before ++ (i ∷ after)
      → IsNewest (before ++ (i ∷ after))
      → Resumes (some (cursor_of codec i)) after t
  unfolding Resumes select_page
  resume_behind before i after t rows newest count = ground (
    arith,
    given-cursor_of i,
    decode_cursor-encode_cursor codec (date i.created_at) i.id laws,
    laws.uuids i.id,
    select-behind before i after newest,
  )

  page_of-short :
      (limit : ℕ) (is : List InvestigationRow)
      → length is ≤ limit
      → page_of codec limit (take (suc limit) is)
        ≡ record { items = map to_investigation_view is; next_cursor = none }
  unfolding page_of
  page_of-short limit is h = rw (take-short limit is h) (ground arith)

  page_of-long :
      (limit : ℕ) (is : List InvestigationRow) (c : Cut limit is)
      → limit < length is
      → page_of codec limit (take (suc limit) is) ≡ record {
        items = map to_investigation_view (c.front ++ (c.last ∷ []));
        next_cursor = some (cursor_of codec c.last);
      }
  unfolding page_of
  page_of-long limit is c h =
      let more : ltb limit (length (take (suc limit) is)) ≡ true =
        ground (arith, length-take_more limit is h) in
      let slice = take-take limit is ∙ c.page in
      rw more (rw slice (rw (last_row-append c.front c.last) refl))

  list-resumed :
      (actor : RlsContext) (limit : Option ℕ) (cursor : Option String) (is : List InvestigationRow)
      (w : World Tables)
      → is_director actor ≡ true
      → Resumes cursor is w.tables
      → (list codec actor (record { cursor = cursor; limit = limit }) w).0
        ≡ ok (page_of codec (page_size limit) (take (suc (page_size limit)) is))
  unfolding list as_director transact Resumes
  list-resumed actor limit cursor is w granted resumes =
      rw granted (rw (resumes (suc (page_size limit))) refl)

  walk-resumed :
      (actor : RlsContext) (limit : Option ℕ) (fuel : ℕ) (cursor : Option String)
      (before is : List InvestigationRow) (w : World Tables)
      → is_director actor ≡ true
      → 0 < page_size limit
      → sort_by newest_first w.tables.investigations ≡ before ++ is
      → IsNewest (before ++ is)
      → Resumes cursor is w.tables
      → length is < fuel
      → walk codec actor limit fuel cursor w ≡ some (map to_investigation_view is)
  unfolding walk
  walk-resumed actor limit zero cursor before is w g p rows newest resumes enough =
      absurd (omega arith)
  walk-resumed actor limit (suc fuel) cursor before is w g p rows newest resumes enough =
      let first = list-resumed actor limit cursor is w g resumes in
      let later : String → Option (List InvestigationView) =
        λ next. walk codec actor limit fuel (some next) w in
      elim (Bool-cases (ltb (page_size limit) (length is))) [
        | inl longer ↦
            let long : page_size limit < length is = ground arith in
            let c = cut (page_size limit) is p long in
            let front = before ++ c.front in
            let rows_split =
              rows ∙ ap (λ xs. before ++ xs) c.whole ∙ sym (append_assoc before c.front _) in
            let newest_split : IsNewest (front ++ (c.last ∷ c.rest)) =
              subst IsNewest (ap (λ xs. before ++ xs) c.whole ∙ sym (append_assoc before c.front _))
                newest in
            let regroup = append_last front c.last c.rest in
            let rest =
              walk-resumed actor limit fuel (some (cursor_of codec c.last)) (front ++ (c.last ∷ []))
                c.rest w g p (rows_split ∙ sym regroup) (subst IsNewest (sym regroup) newest_split)
                (resume_behind front c.last c.rest w.tables rows_split newest_split)
                (omega (arith, c.shorter)) in
            ap (λ r. after_page r later) (first ∙ ap ok (page_of-long (page_size limit) is c long))
            ∙ ap (join (map to_investigation_view (c.front ++ (c.last ∷ [])))) rest
            ∙ ap some (
                map-append (c.front ++ (c.last ∷ [])) c.rest
                ∙ ap (map to_investigation_view) (append_last c.front c.last c.rest ∙ sym c.whole))
        | inr shorter ↦
            let short : length is ≤ page_size limit = ground arith in
            ap (λ r. after_page r later) (first ∙ ap ok (page_of-short (page_size limit) is short))
      ]

-- A director who walks through the pages, of any size but zero and each with the cursor of the one
-- before, comes to an end and is shown every investigation exactly once, the newest first, where no
-- two were created within one millisecond.
pub walk-all :
    (codec : Codec) (actor : RlsContext) (limit : Option ℕ) (fuel : ℕ) (w : World Tables)
    → IsCodec codec
    → actor.role ≡ director
    → 0 < page_size limit
    → AllApart w.tables.investigations
    → length w.tables.investigations < fuel
    → walk codec actor limit fuel none w
      ≡ some (map to_investigation_view (sort_by newest_first w.tables.investigations))
unfolding select_page Resumes
walk-all codec actor limit fuel w laws role p apart enough =
    let rows = w.tables.investigations in
    walk-resumed codec laws actor limit fuel none [] (sort_by newest_first rows) w (ground arith) p
      refl (sort_by-IsNewest rows apart) (λ count. refl) (omega (arith, length-sort_by rows))
