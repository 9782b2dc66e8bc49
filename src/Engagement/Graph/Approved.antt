-- ===== src/Engagement/Graph/Approved.antt =====
-- What a resumed run does with the decision.
use insta.Prelude.{
  String, str_eq, true, false, Option, none, some, List, [], ◌∷◌, ◌++◌, ◌≡◌, refl, arith,
  if◌then◌else◌,
}
use insta.Copilot.Values.{Value}
use insta.Copilot.Graph.{is_true}
use insta.Engagement.State.{
  Content, edited, ProposedAction, RiskAssessment, ApprovalResult, State, World, Ports, Call,
  follow, like, dm, comment,
}
use insta.Engagement.Nodes.{event, emit, append_audit_events}
use insta.Engagement.Nodes.Approval.{
  returned, interrupted, request_approval_node, request_with, submit_request, apply_result,
  approval_result_of, with_edit,
}

abbrev asked : ProposedAction → World → World
asked action w =
    let logged = emit (event "approval_requested" "request_approval") w in
    record logged { submitted = logged.submitted ++ (action ∷ []) }

module _ (p : Ports) (d : Value) (s : State) (w : World) (action : ProposedAction)
    (risk : RiskAssessment) where
  -- The approval node of a run that is suspended and resumed submits the request twice: once before
  -- the interrupt, and once more when the node runs again with the decision.
  pub submits_twice :
      s.approval_attempted ≡ false
      → s.proposed_action ≡ some action
      → s.risk_assessment ≡ some risk
      → p.submit_for_approval action ≡ true
      → (w1 : World) × (s2 : State) × (w2 : World) × (request_approval_node p none s w
          ≡ interrupted w1)
        × (request_approval_node p (some d) s w1 ≡ returned s2 w2)
        × (w2.submitted ≡ (w.submitted ++ (action ∷ [])) ++ (action ∷ []))
  unfolding request_approval_node request_with submit_request
  submits_twice a e r k = (
    asked action w,
    apply_result (approval_result_of d) action s,
    emit (event "approval_decided" "request_approval") (asked action (asked action w)),
    ground arith,
    ground arith,
    refl,
  )

abbrev pub with_call : List Call → Option Call → List Call
with_call calls none = calls
with_call calls (some call) = calls ++ (call ∷ [])

abbrev accepted : ApprovalResult → ProposedAction → State → State
accepted r action s =
    append_audit_events
      (event "approval_requested" "request_approval"
        ∷ event "approval_decided" "request_approval"
        ∷ [])
      (record s {
        approval_requested = true;
        approval_result = some r;
        approval_attempted = true;
        proposed_action = some (with_edit r.edited_content action);
      })

-- The content to send: the operator's, where it is given and true, else that of the action.
abbrev pub final_content : Option Value → Option Content → Option Content
final_content none drafted = drafted
final_content (some v) drafted = if is_true v then some (edited v) else drafted

-- The calls due for an action type: one for each of the four known ones, none for any other.
abbrev pub due_calls : String → String → String → Option Content → List Call
due_calls action_type target_id account_id content =
    if str_eq action_type "follow"
    then follow target_id account_id ∷ []
    else if str_eq action_type "dm"
    then dm target_id account_id content ∷ []
    else if str_eq action_type "comment"
    then comment target_id account_id content ∷ []
    else if str_eq action_type "like"
    then like target_id account_id ∷ []
    else []
