-- ===== src/Report/Lifecycle.antt =====
-- The state machine of a report (src/modules/reports/report-projection.ts, lines 110 to 155).
pub mod Laws
use wdc_backend.Prelude.{Bool, true, false, ◌||◌, List, [], ◌∷◌}
use wdc_backend.Rls.{Role, secretary, coordinator, director, system}

pub data ReportState : Type 0 where
  draft submitted in_review approved returned sealed : ReportState

pub data Transition : Type 0 where
  submit open_review approve return edit_returned seal : Transition

pub record Edge : Type 0 where
  pub from : ReportState
  pub to : ReportState

-- The table `TRANSITIONS`.
unfoldable pub transitions : Transition → Edge
transitions submit = record { from = draft; to = submitted }
transitions open_review = record { from = submitted; to = in_review }
transitions approve = record { from = in_review; to = approved }
transitions return = record { from = in_review; to = returned }
transitions edit_returned = record { from = returned; to = draft }
transitions seal = record { from = approved; to = sealed }

unfoldable pub next_state : Transition → ReportState
unfolding transitions
next_state t = (transitions t).to

unfoldable pub expected_from_state : Transition → ReportState
unfolding transitions
expected_from_state t = (transitions t).from

unfoldable pub roles_for_transition : Transition → List Role
roles_for_transition submit = secretary ∷ director ∷ []
roles_for_transition edit_returned = secretary ∷ director ∷ []
roles_for_transition open_review = coordinator ∷ director ∷ []
roles_for_transition approve = coordinator ∷ director ∷ []
roles_for_transition return = coordinator ∷ director ∷ []
roles_for_transition seal = system ∷ []

-- `===` on states.
abbrev pub same_state : ReportState → ReportState → Bool
same_state draft draft = true
same_state submitted submitted = true
same_state in_review in_review = true
same_state approved approved = true
same_state returned returned = true
same_state sealed sealed = true
same_state _ _ = false

unfoldable pub is_editable : ReportState → Bool
is_editable state = same_state state draft || same_state state returned
