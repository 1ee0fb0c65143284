-- ===== src/Report/Lifecycle/Laws.antt =====
-- What the table of transitions allows.
use wdc_backend.Prelude.{true, ◌≡◌, refl, arith}
use wdc_backend.Report.Lifecycle.{ReportState, draft, same_state}

pub same_state→eq : (a b : ReportState) → same_state a b ≡ true → a ≡ b
same_state→eq a b h = ground arith

pub same_state_refl : (a : ReportState) → same_state a a ≡ true
same_state_refl draft = refl
same_state_refl _ = refl
