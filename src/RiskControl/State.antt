-- ===== src/RiskControl/State.antt =====
-- The state of a risk control run (state.py), its calls, and its ports (ports.py). `none` is an
-- exception. An event is its type, an audit event too; a risk factor is the text before its colon.
-- `time` is the clock at a step.
use insta.Prelude.{ℕ, String, Bool, Option, none, List, []}

-- The parts of an account's status that the nodes read; `is_challenged` is the challenge flag.
pub record Status : Type 0 where
  pub status : Option String
  pub login_state : Option String
  pub cooldown_until : Option ℕ
  pub is_challenged : Bool

-- The operator's response.
pub record Override : Type 0 where
  pub decision : String
  pub override_policy : Option String
  pub cooldown_duration : Option ℕ
  pub proxy : Option String

pub data Reason : Type 0 where
  unreadable not_found aborted failed no_action : Reason
  applied : String → Option String → Reason
  ended : String → Reason

pub record State : Type 0 where
  pub account_id : String
  pub recent_events : List String
  pub account_status : Option Status
  pub risk_level : Option String
  pub risk_factors : List String
  pub policy_decision : Option String
  pub cooldown_until : Option ℕ
  pub proxy_candidate : Option String
  pub proxy_rotation_result : Option Bool
  pub recheck_status : Option Status
  pub recheck_risk_level : Option String
  pub operator_override : Option Override
  pub final_policy : Option String
  pub outcome_reason : Option Reason
  pub stop_reason : Option String
  pub step_count : ℕ
  pub audit_trail : List String

unfoldable pub make_initial_state : String → State
make_initial_state account_id = record {
  account_id = account_id;
  recent_events = [];
  account_status = none;
  risk_level = none;
  risk_factors = [];
  policy_decision = none;
  cooldown_until = none;
  proxy_candidate = none;
  proxy_rotation_result = none;
  recheck_status = none;
  recheck_risk_level = none;
  operator_override = none;
  final_policy = none;
  outcome_reason = none;
  stop_reason = none;
  step_count = 0;
  audit_trail = [];
}

-- A call that changes the account.
pub data Call : Type 0 where
  apply_cooldown : ℕ → Call
  apply_proxy : String → Call

-- A status that is not there is an inner `none`.
pub record Ports : Type 0 where
  pub time : ℕ → ℕ
  pub get_account_status : List Call → String → Option (Option Status)
  pub get_recent_events : String → Option (List String)
  pub evaluate : String → Option String → List String → List String → Option String
  pub cooldown_end : String → ℕ → Option ℕ
  pub get_candidate_proxy : String → Option (Option String)
  pub proxy_applied : String → String → Option Bool
