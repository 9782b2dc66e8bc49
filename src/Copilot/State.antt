-- ===== src/Copilot/State.antt =====
-- The state of an operator copilot run (`OperatorCopilotState` of
-- backend/ai_copilot/application/state.py, the fields that the graph's nodes read or write), what
-- happens outside it, and the ports that the nodes call.
-- The ports are parameters: the language model, the tool registry behind the executor, the operator
-- and `json` answer as they like. An answer may depend on the whole state, from which its prompt is
-- built, and a tool's answer on what was executed before.
use insta.Prelude.{ℕ, String, Bool, false, Option, none, List, []}
use insta.Prelude.Dict.{Dict}
use insta.Copilot.Values.{Value, RawCall, ToolCall}
use insta.Copilot.Policy.{ToolPolicy}
use insta.Copilot.Guards.{Schema}

pub data RiskLevel : Type 0 where
  low medium high : RiskLevel

-- A risk reason, as the data that its message formats.
pub data RiskReason : Type 0 where
  blocked_tools_stripped write_sensitive_tools : List String → RiskReason
  intent_blocked : String → RiskReason

pub record RiskAssessment : Type 0 where
  pub level : RiskLevel
  pub reasons : List RiskReason
  pub blocking : Bool

pub record PlanStep : Type 0 where
  pub tool : String
  pub reason : String

pub record Findings : Type 0 where
  pub matched_intent : Bool
  pub warnings : List String
  pub recommendation : String

pub record State : Type 0 where
  pub operator_request : String
  pub step_count : ℕ
  pub normalized_goal : Option String
  pub mentions : List String
  pub stop_reason : Option String
  pub final_response : Option String
  pub risk_assessment : Option RiskAssessment
  pub execution_plan : List PlanStep
  pub proposed_tool_calls : List ToolCall
  pub approved_tool_calls : List ToolCall
  pub tool_policy_flags : Dict ToolPolicy
  pub approval_attempted : Bool
  pub approval_result : Option String
  pub tool_results : Dict Value
  pub review_findings : Option Findings

-- `make_initial_state`
unfoldable pub make_initial_state : String → State
make_initial_state operator_request = record {
  operator_request = operator_request;
  step_count = 0;
  normalized_goal = none;
  mentions = [];
  stop_reason = none;
  final_response = none;
  risk_assessment = none;
  execution_plan = [];
  proposed_tool_calls = [];
  approved_tool_calls = [];
  tool_policy_flags = [];
  approval_attempted = false;
  approval_result = none;
  tool_results = [];
  review_findings = none;
}

-- The audit events that the nodes log, with the part of their payload that says what was done.
pub data AuditEvent : Type 0 where
  operator_request : ℕ → AuditEvent
  classify_decision plan_decision : AuditEvent
  policy_gate : List String → ℕ → AuditEvent
  approval_submitted : AuditEvent
  approval_result : String → AuditEvent
  tool_execution : String → String → AuditEvent
  execution_failure : String → String → AuditEvent
  review_finding : Bool → AuditEvent
  stop_reason : String → AuditEvent
  node_error : String → AuditEvent

pub record Interaction : Type 0 where
  pub goal : String
  pub tools_used : List String
  pub outcome : String
  pub stop_reason : String

-- What a run leaves outside its state: the calls that reached the executor, the operator's
-- interrupts, the audit log and the copilot memory.
pub record World : Type 0 where
  pub executed : List (String × Value)
  pub interrupts : ℕ
  pub audit : List AuditEvent
  pub memory : List Interaction

abbrev pub fresh_world : World
fresh_world = record { executed = []; interrupts = 0; audit = []; memory = [] }

-- A completion: the call raised, the content is no JSON, or the object that it decodes to; `broken` is
-- an exception that no `try` of the node takes: of `json.dumps` on the request, such as tool results
-- that it refuses, or of the node on JSON that is no object or has a value of another type.
pub data Reply (A : Type 0) : Type 0 where
  raised unreadable broken : Reply A
  decoded : A → Reply A

-- The object of the classify prompt; a missing key is `none`.
pub record Classification : Type 0 where
  pub normalized_goal : Option String
  pub is_blocked : Bool
  pub block_reason : Option String
  pub conversational : Bool
  pub direct_response : Option String
  pub mentions : List String

pub record Plan : Type 0 where
  pub execution_plan : List PlanStep
  pub proposed_tool_calls : List RawCall

-- The value that `interrupt` returns: a dict, whose keys may be missing, or anything else as `str`
-- shows it.
pub data Decision : Type 0 where
  decision : Option String → List RawCall → Decision
  other : String → Decision

pub record Ports : Type 0 where
  pub classify_llm : State → Reply Classification
  pub plan_llm : State → Reply Plan
  pub review_llm : State → Reply Findings
  -- the outer `none`: `json.dumps` raised before the call; the inner: the call raised
  pub summarize_llm : State → Option (Option String)
  pub schemas : List Schema
  pub decide : State → Decision
  -- `none`: the executor raised
  pub execute : List (String × Value) → String → Value → Option Value
  pub json_loads : String → Option Value
  -- the bytes of `json.dumps(tool_results)`; `none`: it raised
  pub payload_bytes : Dict Value → Option ℕ
  pub has_memory : Bool
  pub memory_stores : Bool
