-- ===== src/Engagement/Nodes/Approval.antt =====
-- backend/ai_copilot/application/smart_engagement/nodes/approval.py. The graph library runs a node that
-- was interrupted again from its start when the run is resumed, and `interrupt` then returns the
-- decision.
use insta.Prelude.{String, str_eq, true, ◌||◌, Option, none, some, [], ◌∷◌, ◌++◌, if◌then◌else◌}
use insta.Prelude.Text.{codes, strip, lower, same_text}
use insta.Copilot.Values.{Value, text, object}
use insta.Copilot.Guards.{get_field}
use insta.Copilot.Graph.{is_true}
use insta.Jobs.Record.{Text}
use insta.Engagement.State.{
  edited, ProposedAction, RiskAssessment, ApprovalResult, recommended, approval_repeated,
  approval_missing, approval_rejected, State, World, Ports,
}
use insta.Engagement.Nodes.{event, emit, append_audit_events}

unfoldable pub gate_by_mode_node : State → World → State × World
gate_by_mode_node s w =
    if str_eq s.mode "recommendation"
    then (
      record s { outcome_reason = some recommended; stop_reason = some "recommendation_only" },
      w,
    )
    else (s, w)

-- `_DECISION_ALIASES`, on the stripped and lower-cased text
unfoldable pub decision_alias : Text → String
unfolding same_text
decision_alias t =
    if same_text t (codes "approve") || same_text t (codes "approved")
    then "approved"
    else if same_text t (codes "reject") || same_text t (codes "rejected")
    then "rejected"
    else if same_text t (codes "edit") || same_text t (codes "edited")
    then "edited"
    else if same_text t (codes "timeout")
    then "timeout"
    else "invalid"

unfoldable pub normalize_resume_decision : Value → String
unfolding decision_alias strip lower
normalize_resume_decision (text s) = decision_alias (lower (strip (codes s)))
normalize_resume_decision v = "timeout"

-- `decision_dict.get("decision", decision)`
unfoldable pub raw_decision : Value → Value
raw_decision (object fs) = elim (get_field fs "decision") [ none ↦ object fs | some d ↦ d ]
raw_decision v = v

-- The content of an edit.
unfoldable pub edit_of : Value → Option Value
edit_of (object fs) = get_field fs "content"
edit_of v = none

-- Whatever is not an approval or an edit is a rejection.
unfoldable pub concluded : String → Value → ApprovalResult
unfolding edit_of
concluded value decision =
    if str_eq value "edited"
    then record { decision = "approved"; edited_content = edit_of decision }
    else if str_eq value "approved"
    then record { decision = "approved"; edited_content = none }
    else record { decision = "rejected"; edited_content = none }

unfoldable pub approval_result_of : Value → ApprovalResult
unfolding concluded raw_decision normalize_resume_decision is_true
approval_result_of decision =
    if is_true decision
    then concluded (normalize_resume_decision (raw_decision decision)) decision
    else concluded "timeout" decision

abbrev pub with_edit : Option Value → ProposedAction → ProposedAction
with_edit none action = action
with_edit (some content) action =
    if is_true content then record action { content = some (edited content) } else action

-- What the node returns once it is resumed.
unfoldable pub apply_result : ApprovalResult → ProposedAction → State → State
apply_result r action s =
    let decided =
      append_audit_events
        (event "approval_requested" "request_approval"
          ∷ event "approval_decided" "request_approval"
          ∷ [])
        (record s {
          approval_requested = true;
          approval_result = some r;
          approval_attempted = true;
          proposed_action = some (with_edit r.edited_content action);
        }) in
    if str_eq r.decision "rejected"
    then record decided {
      outcome_reason = some approval_rejected;
      stop_reason = some "approval_rejected";
    }
    else decided

-- The node's work before the interrupt; `none` where the submission raises.
unfoldable pub submit_request : Ports → ProposedAction → World → Option World
submit_request p action w =
    let asked = emit (event "approval_requested" "request_approval") w in
    if p.submit_for_approval action
    then some (record asked { submitted = asked.submitted ++ (action ∷ []) })
    else none

-- What a pass of the node comes to.
pub data Pass : Type 0 where
  returned : State → World → Pass
  interrupted : World → Pass
  raised : Pass

abbrev pub answered : Option Value → Option World → ProposedAction → State → Pass
answered decision none action s = raised
answered none (some w) action s = interrupted w
answered (some decision) (some w) action s =
    returned (apply_result (approval_result_of decision) action s)
      (emit (event "approval_decided" "request_approval") w)

unfoldable pub request_with :
    Ports → Option Value → Option ProposedAction → Option RiskAssessment → State → World → Pass
unfolding submit_request apply_result approval_result_of
request_with p decision (some action) (some risk) s w =
    answered decision (submit_request p action w) action s
request_with p decision action risk s w =
    returned
      (record s {
        approval_attempted = true;
        outcome_reason = some approval_missing;
        stop_reason = some "missing_data";
      })
      w

-- The decision is the resume value, if the run is resumed here.
unfoldable pub request_approval_node : Ports → Option Value → State → World → Pass
unfolding request_with
request_approval_node p decision s w =
    if s.approval_attempted
    then returned
        (record s {
          outcome_reason = some approval_repeated;
          stop_reason = some "approval_limit_reached";
        })
        w
    else request_with p decision s.proposed_action s.risk_assessment s w
