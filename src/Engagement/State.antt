-- ===== src/Engagement/State.antt =====
-- The state of a smart engagement run (backend/ai_copilot/application/smart_engagement/state.py), what
-- happens outside it, and the ports of ports.py, which answer as they like. An audit event is its
-- type and node; the audit log does not raise. Scores are floating-point numbers in the code: a
-- port gives their order.
use insta.Prelude.{ℕ, String, Bool, false, Option, none, List, []}
use insta.Copilot.Values.{Value}
use insta.Jobs.Record.{Text}
use insta.Engagement.Goal.{StructuredGoal}

pub record Target : Type 0 where
  pub target_id : String
  pub target_type : String
  pub metadata : Value

pub record AccountHealth : Type 0 where
  pub status : String
  pub cooldown_until : Option ℕ
  pub proxy : Option String
  pub login_state : String
  pub recent_actions : ℕ

-- The drafted text of an action type for an intent, or what the operator put in its place.
pub data Content : Type 0 where
  draft : String → Text → Content
  edited : Value → Content

pub record ProposedAction : Type 0 where
  pub action_type : String
  pub target_id : String
  pub content : Option Content
  pub expected_outcome : String

pub record RiskAssessment : Type 0 where
  pub risk_level : String
  pub rule_hits : List String
  pub requires_approval : Bool

-- The decision as stored: `approved` or `rejected`, and the edited content.
pub record ApprovalResult : Type 0 where
  pub decision : String
  pub edited_content : Option Value

pub record ExecutionResult : Type 0 where
  pub success : Bool
  pub action_id : Option String
  pub reason : Text
  pub reason_code : Text

-- What an outcome reason says.
pub data Reason : Type 0 where
  not_logged_in cooldown inactive not_ready context_error : Reason
  discovery_repeated nothing_found discovery_error : Reason
  risk_missing risk_too_high risk_error : Reason
  recommended approval_repeated approval_missing approval_rejected : Reason
  action_done action_failed recommendation_made : Reason
  ended : Option String → Reason

pub record AuditEvent : Type 0 where
  pub event_type : String
  pub node_name : String

pub record State : Type 0 where
  pub thread_id : String
  pub mode : String
  pub goal : Text
  pub structured_goal : Option StructuredGoal
  pub account_id : String
  pub account_health : Option AccountHealth
  pub candidate_targets : List Target
  pub selected_target : Option Target
  pub proposed_action : Option ProposedAction
  pub risk_assessment : Option RiskAssessment
  -- whether `approval_request` is set
  pub approval_requested : Bool
  pub approval_result : Option ApprovalResult
  pub execution_result : Option ExecutionResult
  pub audit_trail : List AuditEvent
  pub discovery_attempted : Bool
  pub approval_attempted : Bool
  pub outcome_reason : Option Reason
  pub stop_reason : Option String
  pub step_count : ℕ
  pub max_targets : ℕ

-- `SmartEngagementUseCase._build_initial_state`
unfoldable pub build_initial_state : String → String → Text → String → ℕ → State
build_initial_state thread_id execution_mode goal account_id max_targets = record {
  thread_id = thread_id;
  mode = execution_mode;
  goal = goal;
  structured_goal = none;
  account_id = account_id;
  account_health = none;
  candidate_targets = [];
  selected_target = none;
  proposed_action = none;
  risk_assessment = none;
  approval_requested = false;
  approval_result = none;
  execution_result = none;
  audit_trail = [];
  discovery_attempted = false;
  approval_attempted = false;
  outcome_reason = none;
  stop_reason = none;
  step_count = 0;
  max_targets = max_targets;
}

-- A call of the executor port.
pub data Call : Type 0 where
  follow like : String → String → Call
  dm comment : String → String → Option Content → Call

-- What the executor answers, any of its keys missing.
pub record RawResult : Type 0 where
  pub success : Bool
  pub action_id : Option String
  pub reason : Option Text
  pub reason_code : Option Text

pub record Memory : Type 0 where
  pub account_id : String
  pub target_id : String
  pub action_type : String
  pub outcome : String

-- What a run has done outside its state, oldest first.
pub record World : Type 0 where
  pub executed : List Call
  pub submitted : List ProposedAction
  pub logged : List AuditEvent
  pub remembered : List Memory

abbrev pub fresh_world : World
fresh_world = record { executed = []; submitted = []; logged = []; remembered = [] }

-- `none` is an exception. `get_account_context` is told whether a refresh went before.
pub record Ports : Type 0 where
  pub get_account_context : Bool → String → Option AccountHealth
  pub try_refresh_session : String → Option Bool
  pub discover_candidates : String → Text → ℕ → Option (List Target)
  pub has_memory : Bool
  pub recall_recent_engagements : String → Option (List String)
  pub recall_rejected_targets : String → Option (List String)
  pub store_engagement_outcome : Memory → Bool
  pub score_candidate : Target → Option StructuredGoal → ℕ
  pub assess_risk : ProposedAction → Target → AccountHealth → Option RiskAssessment
  pub submit_for_approval : ProposedAction → Bool
  pub execute : Call → Option (Option RawResult)
