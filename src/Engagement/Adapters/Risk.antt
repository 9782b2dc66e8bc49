-- ===== src/Engagement/Adapters/Risk.antt =====
-- backend/ai_copilot/adapters/risk_scoring_adapter.py. The rules read keys that are always there, so
-- none raises; the reasoning text is not modelled.
use insta.Prelude.{ltb, String, str_eq, Bool, not, ◌||◌, List, [], ◌∷◌, ◌++◌, if◌then◌else◌}
use insta.Engagement.State.{ProposedAction, Target, AccountHealth, RiskAssessment}
use insta.Engagement.Nodes.Context.{is_none}

pub record Rule : Type 0 where
  pub name : String
  pub triggers : ProposedAction → Target → AccountHealth → Bool
  pub impact_level : String

unfoldable pub is_write : String → Bool
is_write action_type =
    str_eq action_type "follow"
    || str_eq action_type "dm"
    || str_eq action_type "comment"
    || str_eq action_type "like"

-- `_initialize_rules`
unfoldable pub rules : List Rule
unfolding is_write
rules =
    record {
      name = "account_in_cooldown";
      triggers = λ action target health. not (is_none health.cooldown_until);
      impact_level = "high";
    }
    ∷ record {
      name = "account_not_logged_in";
      triggers = λ action target health. not (str_eq health.login_state "logged_in");
      impact_level = "high";
    }
    ∷ record {
      name = "too_many_actions_today";
      triggers = λ action target health. ltb 10 health.recent_actions;
      impact_level = "high";
    }
    ∷ record {
      name = "write_action_requires_approval";
      triggers = λ action target health. is_write action.action_type;
      impact_level = "medium";
    }
    ∷ []

-- The level so far, after a rule of an impact.
unfoldable pub raise_level : String → String → String
raise_level level impact =
    if str_eq impact "high"
    then "high"
    else if str_eq impact "medium"
    then (if str_eq level "high" then level else "medium")
    else level

unfoldable pub check_rules :
    List Rule
    → ProposedAction
    → Target
    → AccountHealth
    → List String
    → String
    → List String × String
unfolding raise_level
check_rules [] action target health hits level = (hits, level)
check_rules (rule ∷ rest) action target health hits level =
    let hit = rule.triggers action target health in
    check_rules rest action target health (if hit then hits ++ (rule.name ∷ []) else hits)
      (if hit then raise_level level rule.impact_level else level)

unfoldable pub assess_risk : ProposedAction → Target → AccountHealth → RiskAssessment
unfolding rules check_rules
assess_risk action target health =
    let checked = check_rules rules action target health [] "low" in
    record {
      risk_level = checked.1;
      rule_hits = checked.0;
      requires_approval = str_eq checked.1 "high" || is_write action.action_type;
    }
