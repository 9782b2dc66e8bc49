-- ===== src/Engagement/Nodes/DraftRisk.antt =====
-- backend/ai_copilot/application/smart_engagement/nodes/draft_risk.py.
use insta.Prelude.{String, str_eq, ◌||◌, Option, none, some, if◌then◌else◌}
use insta.Jobs.Record.{Text}
use insta.Engagement.Goal.{StructuredGoal, expected_outcome}
use insta.Engagement.State.{
  Content, draft, Target, AccountHealth, ProposedAction, RiskAssessment, risk_missing,
  risk_too_high, risk_error, State, World, Ports,
}
use insta.Engagement.Nodes.{note}

abbrev goal_action_type : Option StructuredGoal → String
goal_action_type none = "follow"
goal_action_type (some g) = g.action_type

abbrev goal_intent : Option StructuredGoal → Text → Text
goal_intent none goal = goal
goal_intent (some g) goal = g.intent

unfoldable pub draft_content : String → Text → Option Content
draft_content action_type intent =
    if str_eq action_type "comment" || str_eq action_type "dm"
    then some (draft action_type intent)
    else none

unfoldable pub proposal : Option StructuredGoal → Text → Target → ProposedAction
unfolding draft_content expected_outcome
proposal g goal target = record {
  action_type = goal_action_type g;
  target_id = target.target_id;
  content = draft_content (goal_action_type g) (goal_intent g goal);
  expected_outcome = expected_outcome (goal_action_type g);
}

unfoldable pub drafted : Option Target → State → World → State × World
unfolding proposal
drafted none s w = (record s { proposed_action = none }, w)
drafted (some target) s w =
    note "action_drafted" "draft_action"
      (record s { proposed_action = some (proposal s.structured_goal s.goal target) }) w

unfoldable pub draft_action_node : State → World → State × World
unfolding drafted
draft_action_node s w = drafted s.selected_target s w

abbrev pub high_risk_threshold : String
high_risk_threshold = "high"

unfoldable pub scored : Option RiskAssessment → State → World → State × World
scored none s w =
    note "node_error" "score_risk"
      (record s {
        risk_assessment = none;
        outcome_reason = some risk_error;
        stop_reason = some "error";
      })
      w
scored (some risk) s w =
    if str_eq risk.risk_level high_risk_threshold
    then note "scored" "score_risk"
        (record s {
          risk_assessment = some risk;
          outcome_reason = some risk_too_high;
          stop_reason = some "risk_threshold_exceeded";
        })
        w
    else note "scored" "score_risk" (record s { risk_assessment = some risk }) w

unfoldable pub score_with :
    Ports
    → Option ProposedAction
    → Option Target
    → Option AccountHealth
    → State
    → World
    → State × World
unfolding scored
score_with p (some action) (some target) (some health) s w =
    scored (p.assess_risk action target health) s w
score_with p action target health s w = (
  record s {
    risk_assessment = none;
    outcome_reason = some risk_missing;
    stop_reason = some "missing_data";
  },
  w,
)

unfoldable pub score_risk_node : Ports → State → World → State × World
unfolding score_with
score_risk_node p s w = score_with p s.proposed_action s.selected_target s.account_health s w
