-- ===== src/Copilot/Nodes.antt =====
-- The nodes of the operator copilot graph but `execute_tools`
-- (backend/ai_copilot/application/graphs/operator_copilot/nodes_plan_policy.py and
-- nodes_approval_execution.py). A node returns the merged state and the new world; `none` is an
-- exception that leaves the node. Prompts, the planner's context and the recall of memory shape only
-- what the model is asked, and are inside the ports.
use Prim.Native.String.{◌++◌ as append}
use insta.Prelude.{
  ◌+◌, String, str_eq, Bool, true, false, not, ◌&&◌, ◌||◌, Option, none, some, List, [], ◌∷◌, ◌++◌,
  map, keep, length, if◌then◌else◌,
}
use insta.Prelude.Dict
use insta.Prelude.Dict.{Dict}
use insta.Copilot.Values.{RawCall, ToolCall}
use insta.Copilot.Policy.{
  ToolPolicy, is_blocked, is_write_sensitive, policy_of, classify_calls, filter_executable,
}
use insta.Copilot.Guards.{sanitize_proposed_tool_calls, is_nil}
use insta.Copilot.State.{
  State, World, Ports, raised, unreadable, broken, decoded, Classification, Plan, Findings,
  RiskAssessment, blocked_tools_stripped, write_sensitive_tools, intent_blocked, low, medium, high,
  Decision, decision, other, AuditEvent, Interaction,
}

abbrev pub Outcome : Type 0
Outcome = Option (State × World)

abbrev pub log : AuditEvent → World → World
log event w = record w { audit = w.audit ++ event ∷ [] }

-- `x or y` on texts
abbrev pub or_else : Option String → String → String
or_else none d = d
or_else (some s) d = if str_eq s "" then d else s

-- `d.get(key, default)`
abbrev pub get_default : Option String → String → String
get_default none d = d
get_default (some s) d = s

abbrev pub is_truthy : Option String → Bool
is_truthy none = false
is_truthy (some s) = not (str_eq s "")

-- `stop_reason == s`
abbrev pub is_text : Option String → String → Bool
is_text none t = false
is_text (some s) t = str_eq s t

unfoldable pub ingest_request_node : State → World → Outcome
ingest_request_node s w =
    let step_count = s.step_count + 1 in
    some (
      record s {
        step_count = step_count;
        proposed_tool_calls = [];
        approved_tool_calls = [];
        tool_policy_flags = [];
        approval_attempted = false;
      },
      log (AuditEvent.operator_request step_count) w,
    )

-- What `classify_goal_node` does with the classification.
unfoldable pub apply_classification : Classification → State → World → Outcome
apply_classification c s w =
    let t = record s {
      normalized_goal = some (get_default c.normalized_goal s.operator_request);
      mentions = c.mentions;
    } in
    let w' = log AuditEvent.classify_decision w in
    if c.is_blocked
    then some (
      record t {
        stop_reason = some "blocked";
        final_response =
            some (
              append "I cannot process this request: "
                (or_else c.block_reason "policy violation."));
        risk_assessment = some (record {
          level = high;
          reasons = intent_blocked (or_else c.block_reason "intent blocked by policy") ∷ [];
          blocking = true;
        });
      },
      w',
    )
    else if c.conversational
    then some (
      record t {
        stop_reason = some "responded";
        final_response =
            some (
              or_else c.direct_response
                "Hello! How can I help you manage your Instagram accounts?");
      },
      w',
    )
    else some (t, w')

abbrev fallback_classification : Classification
fallback_classification = record {
  normalized_goal = none;
  is_blocked = false;
  block_reason = none;
  conversational = false;
  direct_response = none;
  mentions = [];
}

unfoldable pub classify_goal_node : Ports → State → World → Outcome
unfolding apply_classification
classify_goal_node p s w = elim (p.classify_llm s) [
  | raised ↦
      some (
        record s { stop_reason = some "llm_failed" },
        log (AuditEvent.node_error "classify_goal") w,
      )
  | unreadable ↦ apply_classification fallback_classification s w
  | broken ↦ none
  | decoded c ↦ apply_classification c s w
]

-- What `plan_actions_node` does with the plan.
unfoldable pub apply_plan : Ports → Plan → State → World → Outcome
apply_plan p plan s w =
    let accepted = (sanitize_proposed_tool_calls plan.proposed_tool_calls p.schemas).0 in
    some (
      record s { execution_plan = plan.execution_plan; proposed_tool_calls = accepted },
      log AuditEvent.plan_decision w,
    )

unfoldable pub plan_actions_node : Ports → State → World → Outcome
unfolding apply_plan
plan_actions_node p s w = elim (p.plan_llm s) [
  | raised ↦
      some
        (record s { stop_reason = some "llm_failed" }, log (AuditEvent.node_error "plan_actions") w)
  | unreadable ↦ apply_plan p (record { execution_plan = []; proposed_tool_calls = [] }) s w
  | broken ↦ none
  | decoded plan ↦ apply_plan p plan s w
]

abbrev names_of : List ToolCall → List String
names_of = map (λ call. call.name)

abbrev is_flagged_write : Dict ToolPolicy → ToolCall → Bool
is_flagged_write flags call = elim call.id [
  | none ↦ false
  | some id ↦ elim (Dict.get flags id) [ none ↦ false | some policy ↦ is_write_sensitive policy ]
]

-- The risk of the calls, from the names that were stripped and those that need approval.
unfoldable pub assess : List String → List String → Bool → RiskAssessment
assess blocked_names write_sensitive none_left = record {
  level =
      if not (is_nil blocked_names)
      then high
      else if not (is_nil write_sensitive)
      then medium
      else low;
  reasons =
      (if is_nil blocked_names then [] else blocked_tools_stripped blocked_names ∷ [])
      ++ (if is_nil write_sensitive then [] else write_sensitive_tools write_sensitive ∷ []);
  blocking = not (is_nil blocked_names) && none_left;
}

unfoldable pub review_tool_policy_node : State → World → Outcome
unfolding assess
review_tool_policy_node s w =
    let executable = filter_executable s.proposed_tool_calls in
    let blocked_names =
      names_of (keep (λ call. is_blocked (policy_of call)) s.proposed_tool_calls) in
    elim (classify_calls executable) [
      | none ↦ none
      | some flags ↦
          let write_sensitive = names_of (keep (is_flagged_write flags) executable) in
          some (
            record s {
              proposed_tool_calls = executable;
              approved_tool_calls = executable;
              tool_policy_flags = flags;
              risk_assessment = some (assess blocked_names write_sensitive (is_nil executable));
            },
            log (AuditEvent.policy_gate blocked_names (length executable)) w,
          )
    ]

-- `tool_reasons`, which reads `call["id"]`
unfoldable pub has_all_ids : List ToolCall → Bool
has_all_ids [] = true
has_all_ids (call ∷ rest) = elim call.id [ none ↦ false | some id ↦ has_all_ids rest ]

abbrev decision_result : Decision → String
decision_result (decision result edited_calls) = get_default result "rejected"
decision_result (other s) = s

abbrev decision_calls : Decision → List RawCall
decision_calls (decision result edited_calls) = edited_calls
decision_calls (other s) = []

-- The part of the approval node after the interrupt returned.
unfoldable pub apply_decision : Ports → Decision → State → World → Outcome
apply_decision p d s w =
    let result = decision_result d in
    let t = record s { approval_result = some result; approval_attempted = true } in
    let w' = log (AuditEvent.approval_result result) w in
    if str_eq result "approved"
    then some (t, w')
    else if str_eq result "edited" && not (is_nil (decision_calls d))
    then some (
      record t {
        proposed_tool_calls = (sanitize_proposed_tool_calls (decision_calls d) p.schemas).0;
        approved_tool_calls = [];
      },
      w',
    )
    else if str_eq result "edited"
    then some (t, w')
    else if str_eq result "rejected" || str_eq result "timeout"
    then some (
      record t {
        stop_reason = some "rejected";
        approved_tool_calls = [];
        final_response = some "Action cancelled by operator.";
      },
      w',
    )
    else some (t, w')

-- The node runs again from its start when the operator resumes, so the submission is logged twice.
unfoldable pub request_approval_node : Ports → State → World → Outcome
unfolding apply_decision has_all_ids
request_approval_node p s w =
    if s.approval_attempted
    then some (
      record s {
        stop_reason = some "rejected";
        final_response =
            some
              "Cannot process: approval already attempted this run. Rejection is final. Please start a new session.";
      },
      log (AuditEvent.stop_reason "approval_limit_reached") w,
    )
    else if has_all_ids s.proposed_tool_calls
    then apply_decision p (p.decide s) s
        (record (log AuditEvent.approval_submitted (log AuditEvent.approval_submitted w)) {
          interrupts = w.interrupts + 1;
        })
    else none

abbrev pass_through : Findings
pass_through = record {
  matched_intent = true;
  warnings = [];
  recommendation = "proceed_to_summary";
}

abbrev keep_findings : Findings → Bool → State → World → Outcome
keep_findings f failed s w =
    some (record s { review_findings = some f }, log (AuditEvent.review_finding failed) w)

unfoldable pub review_results_node : Ports → State → World → Outcome
review_results_node p s w = elim (p.review_llm s) [
  | raised ↦ keep_findings pass_through true s (log (AuditEvent.node_error "review_results") w)
  | unreadable ↦ keep_findings pass_through true s w
  | broken ↦ none
  | decoded f ↦ keep_findings f false s w
]

unfoldable pub summarize_result_node : Ports → State → World → Outcome
summarize_result_node p s w =
    if is_truthy s.final_response
      && (is_text s.stop_reason "blocked"
          || is_text s.stop_reason "rejected"
          || is_text s.stop_reason "responded")
    then some (s, w)
    else elim (p.summarize_llm s) [
      | none ↦ none
      | some (some content) ↦ some (record s { final_response = some content }, w)
      | some none ↦ some (
        record s { final_response = some "Summary unavailable due to provider error." },
        log (AuditEvent.node_error "summarize_result") w,
      )
    ]

-- `final_stop`
unfoldable pub final_stop : State → String
final_stop s =
    let stop_reason = or_else s.stop_reason "done" in
    if str_eq stop_reason "responded" then "done" else stop_reason

unfoldable pub interaction : State → Interaction
unfolding final_stop
interaction s =
    let tools_used = names_of s.approved_tool_calls in
    record {
      goal = or_else s.normalized_goal s.operator_request;
      tools_used = tools_used;
      outcome =
          if str_eq (final_stop s) "done" && not (is_nil tools_used)
          then "success"
          else final_stop s;
      stop_reason = final_stop s;
    }

unfoldable pub finish_node : Ports → State → World → Outcome
unfolding final_stop interaction
finish_node p s w =
    let w' = log (AuditEvent.stop_reason (final_stop s)) w in
    some (
      record s { stop_reason = some (final_stop s) },
      if p.has_memory && p.memory_stores
          then record w' { memory = w'.memory ++ interaction s ∷ [] }
          else w',
    )
