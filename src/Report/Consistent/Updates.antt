-- ===== src/Report/Consistent/Updates.antt =====
-- Updates of one report keep the invariant, and storing its projection restores it.
use wdc_backend.Prelude.{
  Uuid, ◌≡◌, refl, sym, ap, ◌∙◌, ◌≢◌, inl, inr, Bool, true, false, ◌&&◌, none, some, List, [], ◌∷◌,
  map, ◌==◌, ==_iff, find, update_where, All, arith, Bool-cases, if◌then◌else◌,
}
use wdc_backend.Report.Projection.{project_canonical}
use wdc_backend.Database.{ReportRow, OpRow}
use wdc_backend.Report.Service.Statements.{to_report_op}
use wdc_backend.Report.Consistent.{
  ops_in, IsCached, has_report, HasDistinctIds, IsConsistent, IsConsistentBut,
}
use wdc_backend.Report.Consistent.Steps.{owned_mono}

-- `WHERE id = $1` under a policy.
abbrev pub is_row : Uuid → (ReportRow → Bool) → ReportRow → Bool
is_row id visible r = r.id == id && visible r

-- Every row of the report is visible.
abbrev pub IsVisible : Uuid → (ReportRow → Bool) → List ReportRow → Type 0
IsVisible id visible rs = All (λ r. r.id ≡ id → visible r ≡ true) rs

IsVisible-absent :
    (id : Uuid) (visible : ReportRow → Bool) (rs : List ReportRow)
    → has_report id rs ≡ false
    → IsVisible id visible rs
IsVisible-absent id visible [] h = tt
IsVisible-absent id visible (r ∷ rs) h =
    (λ e. ground arith, IsVisible-absent id visible rs (ground arith))

find_absent :
    (id : Uuid) (visible : ReportRow → Bool) (rs : List ReportRow)
    → has_report id rs ≡ false
    → find (is_row id visible) rs ≡ none
find_absent id visible [] h = refl
find_absent id visible (r ∷ rs) h = ground (arith, find_absent id visible rs)

-- The row that a query finds is the only one with its id.
pub IsVisible-of_find :
    (id : Uuid) (visible : ReportRow → Bool) (rs : List ReportRow) {r : ReportRow}
    → find (is_row id visible) rs ≡ some r
    → HasDistinctIds rs
    → IsVisible id visible rs
IsVisible-of_find id visible [] e d = tt
IsVisible-of_find id visible (x ∷ rs) {r} e (p, d) = elim (Bool-cases (is_row id visible x)) [
  | inl here ↦
      let same : x.id ≡ id = ground arith in
      (λ _. ground arith, IsVisible-absent id visible rs (sym (ap (λ i. has_report i rs) same) ∙ p))
  | inr later ↦
      let rest : find (is_row id visible) rs ≡ some r = ground arith in
      (
        λ same.
            let gone = find_absent id visible rs (sym (ap (λ i. has_report i rs) same) ∙ p) in cc,
        IsVisible-of_find id visible rs rest d,
      )
]

module _ (id : Uuid) (visible : ReportRow → Bool) (f : ReportRow → ReportRow)
    (keeps : (r : ReportRow) → (f r).id ≡ r.id) where
  abbrev updated : List ReportRow → List ReportRow
  updated = update_where (is_row id visible) f

  has_report-updated :
      (j : Uuid) (rs : List ReportRow) → has_report j (updated rs) ≡ has_report j rs
  has_report-updated j [] = refl
  has_report-updated j (r ∷ rs) = ground (arith, has_report-updated j rs, keeps r)

  HasDistinctIds-updated : (rs : List ReportRow) → HasDistinctIds rs → HasDistinctIds (updated rs)
  HasDistinctIds-updated [] d = tt
  HasDistinctIds-updated (r ∷ rs) (p, d) =
      (ground (arith, keeps r, has_report-updated r.id rs), HasDistinctIds-updated rs d)

  IsCached-row :
      (log : List OpRow) (r : ReportRow)
      → (r.id ≢ id → IsCached log r)
      → let r' = if is_row id visible r then f r else r in r'.id ≢ id → IsCached log r'
  IsCached-row log r p = elim (Bool-cases (is_row id visible r)) [
    | inl here ↦ let same : r.id ≡ id = ground arith in rw here (λ ne. absurd (ne (keeps r ∙ same)))
    | inr other ↦ rw other p
  ]

  IsCached-updated :
      (rs : List ReportRow) (log : List OpRow)
      → All (λ r. r.id ≢ id → IsCached log r) rs
      → All (λ r. r.id ≢ id → IsCached log r) (updated rs)
  IsCached-updated [] log a = tt
  IsCached-updated (r ∷ rs) log (p, a) = (IsCached-row log r p, IsCached-updated rs log a)

  visible_row :
      (r : ReportRow)
      → visible (f r) ≡ visible r
      → (r.id ≡ id → visible r ≡ true)
      → let r' = if is_row id visible r then f r else r in r'.id ≡ id → visible r' ≡ true
  visible_row r same p = elim (Bool-cases (is_row id visible r)) [
    | inl here ↦ let shown : visible r ≡ true = ground arith in rw here (λ _. same ∙ shown)
    | inr other ↦ rw other p
  ]

  pub IsVisible-updated :
      (rs : List ReportRow)
      → ((r : ReportRow) → visible (f r) ≡ visible r)
      → IsVisible id visible rs
      → IsVisible id visible (updated rs)
  IsVisible-updated [] same a = tt
  IsVisible-updated (r ∷ rs) same (p, a) = (visible_row r (same r) p, IsVisible-updated rs same a)

  -- An update that keeps ids.
  pub update-IsConsistentBut :
      (rs : List ReportRow) (log : List OpRow)
      → IsConsistentBut id rs log
      → IsConsistentBut id (updated rs) log
  update-IsConsistentBut rs log c = record {
    distinct = HasDistinctIds-updated rs c.distinct;
    keyed = c.keyed;
    owned = owned_mono rs (updated rs) log (λ j h. has_report-updated j rs ∙ h) c.owned;
    cached = IsCached-updated rs log c.cached;
  }

  IsCached-stored :
      (rs : List ReportRow) (log : List OpRow)
      → ((r : ReportRow)
          → (f r).canonical ≡ some (project_canonical (map to_report_op (ops_in id log))))
      → IsVisible id visible rs
      → All (λ r. r.id ≢ id → IsCached log r) rs
      → All (IsCached log) (updated rs)
  IsCached-stored [] log stores v a = tt
  IsCached-stored (r ∷ rs) log stores (w, v) (p, a) = (
    elim (Bool-cases (is_row id visible r)) [
      | inl here ↦
          let same : (f r).id ≡ id = keeps r ∙ (==_iff _ _).0 (ground arith) in
          rw here (inr (rw same (stores r)))
      | inr other ↦ rw other (p (λ e. let shown = w e in ground arith))
    ],
    IsCached-stored rs log stores v a,
  )

  -- Storing the projection of the visible report restores the invariant.
  pub store-IsConsistent :
      (rs : List ReportRow) (log : List OpRow)
      → ((r : ReportRow)
          → (f r).canonical ≡ some (project_canonical (map to_report_op (ops_in id log))))
      → IsVisible id visible rs
      → IsConsistentBut id rs log
      → IsConsistent (updated rs) log
  store-IsConsistent rs log stores v c = record {
    distinct = HasDistinctIds-updated rs c.distinct;
    keyed = c.keyed;
    owned = owned_mono rs (updated rs) log (λ j h. has_report-updated j rs ∙ h) c.owned;
    cached = IsCached-stored rs log stores v c.cached;
  }
