-- ===== src/Report/Projection/Order.antt =====
-- The projection does not depend on the order in which the op log is read.
use mathlib.Core.Logic.{∥∥₁_elim}
use mathlib.Core.List.{Perm}
use mathlib.Core.List.{Permᴰ}
use text.Mathlib.TextEquality.{IsScalar-prop}
use wdc_backend.Prelude.{◌≡◌, refl, sym, ◌≢◌, ap, ◌∙◌, List, [], ◌∷◌, All, arith, subst}
use wdc_backend.Report.Projection.{
  ReportOp, CanonicalReport, compare_ops, insert_sorted, sort_ops, project_canonical, empty_report,
  replay,
}

-- No two ops carry one id: within a report this is the primary key of the op log.
abbrev pub IsKeyed : List ReportOp → Type 0
IsKeyed [] = Unit
IsKeyed (op ∷ ops) = All (λ x. op.op_id ≢ x.op_id) ops × IsKeyed ops

insert_sorted_comm :
    (a b : ReportOp) (l : List ReportOp)
    → a.op_id ≢ b.op_id
    → insert_sorted a (insert_sorted b l) ≡ insert_sorted b (insert_sorted a l)
unfolding insert_sorted compare_ops
insert_sorted_comm a b [] h = ground arith
insert_sorted_comm a b (x ∷ l) h = ground (arith, insert_sorted_comm a b l h)

pub All-perm {ℓ κ} :
    {A : Type ℓ} (P : A → Type κ) {xs ys : List A} → Permᴰ xs ys → All P xs → All P ys
All-perm P Permᴰ.nil h = h
All-perm P (Permᴰ.cons e d) (p, h) = (subst P e p, All-perm P d h)
All-perm P (Permᴰ.swap e₁ e₂) (p, (q, h)) = (subst P e₂ q, (subst P e₁ p, h))
All-perm P (Permᴰ.trans d₁ d₂) h = All-perm P d₂ (All-perm P d₁ h)

IsKeyed-perm : {xs ys : List ReportOp} → Permᴰ xs ys → IsKeyed xs → IsKeyed ys
IsKeyed-perm Permᴰ.nil h = h
IsKeyed-perm (Permᴰ.cons {l₂} e d) (p, h) =
    (subst (λ y. All (λ x. y.op_id ≢ x.op_id) l₂) e (All-perm _ d p), IsKeyed-perm d h)
IsKeyed-perm (Permᴰ.swap {a} {b} {a'} {b'} {l} e₁ e₂) ((p, ps), (qs, h)) = (
  (
    λ e. p (ap (λ x. x.op_id) e₁ ∙ sym e ∙ ap (λ x. x.op_id) (sym e₂)),
    subst (λ y. All (λ x. y.op_id ≢ x.op_id) l) e₂ qs,
  ),
  (subst (λ y. All (λ x. y.op_id ≢ x.op_id) l) e₁ ps, h),
)
IsKeyed-perm (Permᴰ.trans d₁ d₂) h = IsKeyed-perm d₂ (IsKeyed-perm d₁ h)

sort_ops-perm : {xs ys : List ReportOp} → Permᴰ xs ys → IsKeyed xs → sort_ops xs ≡ sort_ops ys
unfolding sort_ops
sort_ops-perm Permᴰ.nil h = refl
sort_ops-perm (Permᴰ.cons e d) (p, h) = cc (sort_ops-perm d h)
sort_ops-perm (Permᴰ.swap {a} {b} {l} e₁ e₂) ((p, ps), (qs, h)) =
    cc (insert_sorted_comm a b (sort_ops l) p)
sort_ops-perm (Permᴰ.trans d₁ d₂) h = sort_ops-perm d₁ h ∙ sort_ops-perm d₂ (IsKeyed-perm d₁ h)

CanonicalReport-set : IsSet CanonicalReport
CanonicalReport-set = hlevel IsScalar-prop

-- Two readings of one op log, in any order, project to the same canonical report, where no two
-- ops have one id.
pub project_canonical-perm :
    (xs ys : List ReportOp) → IsKeyed xs → Perm xs ys → project_canonical xs ≡ project_canonical ys
unfolding project_canonical
project_canonical-perm xs ys h p =
    ∥∥₁_elim p (CanonicalReport-set _ _) (λ d. ap (replay empty_report) (sort_ops-perm d h))
