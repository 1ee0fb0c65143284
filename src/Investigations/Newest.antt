-- ===== src/Investigations/Newest.antt =====
-- The order of the list of investigations, and where a page cuts it.
use wdc_backend.Prelude.{
  ℕ, zero, suc, ◌≤◌, ◌<◌, ◌≡◌, refl, ap, ◌∙◌, ◌≢◌, Bool, true, false, some, List, [], ◌∷◌, ◌++◌,
  map, take, length, select, insert_by, sort_by, arith, All, All-insert_by, All-sort_by, All-mono,
  Bool-cases, inl, inr,
}
use wdc_backend.Investigations.{InvestigationRow, to_investigation_view, date}
use wdc_backend.Investigations.Pages.{newest_first, is_older, last_row}

-- No two were created within one millisecond.
abbrev pub AllApart : List InvestigationRow → Type 0
AllApart [] = Unit
AllApart (i ∷ is) = All (λ j. date j.created_at ≢ date i.created_at) is × AllApart is

-- In descending order of the milliseconds.
abbrev pub IsNewest : List InvestigationRow → Type 0
IsNewest [] = Unit
IsNewest (i ∷ is) = All (λ j. date j.created_at < date i.created_at) is × IsNewest is

pub insert_by-IsNewest :
    (i : InvestigationRow) (is : List InvestigationRow)
    → All (λ j. date j.created_at ≢ date i.created_at) is
    → IsNewest is
    → IsNewest (insert_by newest_first i is)
insert_by-IsNewest i [] a h = (tt, tt)
insert_by-IsNewest i (j ∷ is) (a, rest) (p, h) = elim (Bool-cases (newest_first i j)) [
  | inl here ↦
      let first : date j.created_at < date i.created_at = ground arith in
      rw here ((first, All-mono _ _ is (λ k q. omega (arith, first, q)) p), (p, h))
  | inr later ↦
      rw later (All-insert_by _ newest_first i is (ground arith) p, insert_by-IsNewest i is rest h)
]

pub sort_by-IsNewest :
    (is : List InvestigationRow) → AllApart is → IsNewest (sort_by newest_first is)
sort_by-IsNewest [] a = tt
sort_by-IsNewest (i ∷ is) (a, rest) =
    insert_by-IsNewest i (sort_by newest_first is) (All-sort_by _ newest_first is a)
      (sort_by-IsNewest is rest)

select_everything :
    (test : InvestigationRow → Bool) (is : List InvestigationRow)
    → All (λ i. test i ≡ true) is
    → select test is ≡ is
select_everything test [] h = refl
select_everything test (i ∷ is) (p, h) = rw p (ap (λ xs. i ∷ xs) (select_everything test is h))

All-at :
    (P : InvestigationRow → Type 0) (before : List InvestigationRow) (i : InvestigationRow)
    (after : List InvestigationRow)
    → All P (before ++ (i ∷ after))
    → P i
All-at P [] i after (p, h) = p
All-at P (j ∷ before) i after (p, h) = All-at P before i after h

-- The rows that are older than a row of the list are the ones behind it.
pub select-behind :
    (before : List InvestigationRow) (i : InvestigationRow) (after : List InvestigationRow)
    → IsNewest (before ++ (i ∷ after))
    → select (is_older (date i.created_at) i.id) (before ++ (i ∷ after)) ≡ after
select-behind [] i after (p, h) =
    let self : is_older (date i.created_at) i.id i ≡ false = ground arith in
    rw self (
      select_everything (is_older (date i.created_at) i.id) after
        (All-mono _ _ after (λ j q. ground (arith, q)) p))
select-behind (j ∷ before) i after (p, h) =
    let nearer : date i.created_at < date j.created_at = All-at _ before i after p in
    let newer : is_older (date i.created_at) i.id j ≡ false = ground (arith, nearer) in
    rw newer (select-behind before i after h)

-- A list that is longer than the page, cut behind the page.
pub record Cut (limit : ℕ) (is : List InvestigationRow) : Type 0 where
  pub front : List InvestigationRow
  pub last : InvestigationRow
  pub rest : List InvestigationRow
  pub whole : is ≡ front ++ (last ∷ rest)
  pub page : take limit is ≡ front ++ (last ∷ [])
  pub shorter : length rest < length is

pub cut : (limit : ℕ) (is : List InvestigationRow) → 0 < limit → limit < length is → Cut limit is
cut zero is p h = absurd (omega arith)
cut (suc limit) [] p h = absurd (omega arith)
cut (suc zero) (i ∷ is) p h = record {
  front = [];
  last = i;
  rest = is;
  whole = refl;
  page = refl;
  shorter = omega arith;
}
cut (suc (suc limit)) (i ∷ is) p h =
    let c = cut (suc limit) is (omega arith) (omega arith) in
    record {
      front = i ∷ c.front;
      last = c.last;
      rest = c.rest;
      whole = ap (λ xs. i ∷ xs) c.whole;
      page = ap (λ xs. i ∷ xs) c.page;
      shorter = omega (arith, c.shorter);
    }

pub last_row-append :
    (is : List InvestigationRow) (i : InvestigationRow) → last_row (is ++ (i ∷ [])) ≡ some i
last_row-append [] i = refl
last_row-append (j ∷ []) i = refl
last_row-append (j ∷ k ∷ is) i = last_row-append (k ∷ is) i

pub take-take :
    (limit : ℕ) (is : List InvestigationRow) → take limit (take (suc limit) is) ≡ take limit is
take-take zero is = refl
take-take (suc limit) [] = refl
take-take (suc limit) (i ∷ is) = ap (λ xs. i ∷ xs) (take-take limit is)

pub length-take_more :
    (limit : ℕ) (is : List InvestigationRow)
    → limit < length is
    → length (take (suc limit) is) ≡ suc limit
length-take_more limit [] h = absurd (omega arith)
length-take_more zero (i ∷ is) h = omega arith
length-take_more (suc limit) (i ∷ is) h = omega (arith, length-take_more limit is)

pub take-short :
    (limit : ℕ) (is : List InvestigationRow) → length is ≤ limit → take (suc limit) is ≡ is
take-short limit [] h = ground arith
take-short zero (i ∷ is) h = absurd (omega arith)
take-short (suc limit) (i ∷ is) h = ap (λ xs. i ∷ xs) (take-short limit is (omega arith))

pub map-append :
    (is js : List InvestigationRow)
    → map to_investigation_view is ++ map to_investigation_view js
      ≡ map to_investigation_view (is ++ js)
map-append [] js = refl
map-append (i ∷ is) js = ap (λ xs. to_investigation_view i ∷ xs) (map-append is js)

pub append_last :
    (front : List InvestigationRow) (i : InvestigationRow) (rest : List InvestigationRow)
    → (front ++ (i ∷ [])) ++ rest ≡ front ++ (i ∷ rest)
append_last [] i rest = refl
append_last (j ∷ front) i rest = ap (λ xs. j ∷ xs) (append_last front i rest)

pub append_assoc : (xs ys zs : List InvestigationRow) → (xs ++ ys) ++ zs ≡ xs ++ (ys ++ zs)
append_assoc [] ys zs = refl
append_assoc (x ∷ xs) ys zs = ap (λ l. x ∷ l) (append_assoc xs ys zs)

length-insert_by :
    (i : InvestigationRow) (is : List InvestigationRow)
    → length (insert_by newest_first i is) ≡ suc (length is)
length-insert_by i [] = refl
length-insert_by i (j ∷ is) = ground (arith, length-insert_by i is)

pub length-sort_by : (is : List InvestigationRow) → length (sort_by newest_first is) ≡ length is
length-sort_by [] = refl
length-sort_by (i ∷ is) = length-insert_by i (sort_by newest_first is) ∙ ap suc (length-sort_by is)
