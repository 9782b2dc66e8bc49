-- ===== src/Engagement/Graph/Invariant.antt =====
-- What holds when a node of the graph is entered, and the number of nodes left to run.
use insta.Prelude.{
  ℕ, ◌<◌, String, str_eq, Bool, true, false, ◌&&◌, Option, none, some, List, [], ◌∷◌, ◌≡◌, ◌≢◌,
  refl, subst, arith, if◌then◌else◌,
}
use insta.Copilot.Values.{Value}
use insta.Engagement.State.{
  approval_repeated, approval_missing, Call, State, World, Ports, ProposedAction, RiskAssessment,
}
use insta.Engagement.Nodes.Context.{ingest_goal_node}
use insta.Engagement.Nodes.Approval.{
  Pass, returned, interrupted, raised, gate_by_mode_node, request_approval_node, request_with,
  submit_request, apply_result, answered,
}
use insta.Engagement.Nodes.Decisions.{approves_answer, approved_iff}
use insta.Engagement.Nodes.Outcome.{
  is_approved, execute_action_node, execute_proposed, perform, executed_with, store_outcome,
  log_outcome_node, finish_node,
}
use insta.Engagement.Graph.{
  Node, ingest_goal, load_account_context, discover_candidates, rank_candidates, draft_action,
  score_risk, gate_by_mode, request_approval, execute_action, log_outcome, finish, done,
  is_acceptable, route_after_account_context, route_after_discovery, route_after_risk,
  route_by_mode, route_after_approval, next_node, run_node,
}
use insta.Engagement.Graph.Keeps.{load-Keeps, discover-Keeps, rank-Keeps, draft-Keeps, score-Keeps}

-- The nodes left to run.
abbrev pub rank : Node → ℕ
rank ingest_goal = 11
rank load_account_context = 10
rank discover_candidates = 9
rank rank_candidates = 8
rank draft_action = 7
rank score_risk = 6
rank gate_by_mode = 5
rank request_approval = 4
rank execute_action = 3
rank log_outcome = 2
rank finish = 1
rank done = 0

pub rank-next : (n : Node) (s : State) → n ≢ done → rank (next_node n s) < rank n
unfolding next_node route_after_account_context route_after_discovery route_after_risk route_by_mode
    route_after_approval
rank-next ingest_goal s h = omega arith
rank-next load_account_context s h = ground arith
rank-next discover_candidates s h = ground arith
rank-next rank_candidates s h = omega arith
rank-next draft_action s h = omega arith
rank-next score_risk s h = ground arith
rank-next gate_by_mode s h = ground arith
rank-next request_approval s h = ground arith
rank-next execute_action s h = omega arith
rank-next log_outcome s h = omega arith
rank-next finish s h = omega arith
rank-next done s h = absurd (h refl)

-- Whether a run with this decision may execute: in execute mode, with a risk that was assessed and is
-- not high, and approved.
abbrev pub approves : Option Value → Bool
approves none = false
approves (some d) = approves_answer d

abbrev pub may_execute : Option Value → State → Bool
may_execute d s = str_eq s.mode "execute" && is_acceptable s.risk_assessment && approves d

abbrev pub executed_safely : List Call → Bool → Bool
executed_safely [] may = true
executed_safely (c ∷ []) may = may
executed_safely (c ∷ _ ∷ _) may = false

abbrev pub IsSafe : Option Value → State → World → Type 0
IsSafe d s w = executed_safely w.executed (may_execute d s) ≡ true

-- What holds when a node is entered.
abbrev pub Inv : Option Value → Node → State → World → Type 0
Inv d gate_by_mode s w = (w.executed ≡ []) × (is_acceptable s.risk_assessment ≡ true)
Inv d request_approval s w = (w.executed ≡ []) × (is_acceptable s.risk_assessment ≡ true)
Inv d execute_action s w =
    (w.executed ≡ [])
    × (is_acceptable s.risk_assessment ≡ true)
    × (is_approved s.approval_result ≡ approves d)
Inv d log_outcome s w = IsSafe d s w
Inv d finish s w = IsSafe d s w
Inv d done s w = IsSafe d s w
Inv d _ s w = w.executed ≡ []

pub nothing-IsSafe : (d : Option Value) (s : State) (w : World) → w.executed ≡ [] → IsSafe d s w
nothing-IsSafe d s w e = ground arith

gate-Inv :
    (d : Option Value) (s : State) (w : World)
    → Inv d gate_by_mode s w
    → Inv d
        (route_by_mode (gate_by_mode_node s w).0)
        (gate_by_mode_node s w).0
        (gate_by_mode_node s w).1
unfolding gate_by_mode_node route_by_mode
gate-Inv d s w h = ground arith

score-Inv :
    (d : Option Value) (s : State) (w : World) → w.executed ≡ [] → Inv d (route_after_risk s) s w
unfolding route_after_risk
score-Inv d s w h = ground arith

-- Where a pass of the approval node leads.
abbrev Leads : Option Value → Pass → Type 0
Leads d (returned s w) = Inv d (route_after_approval s) s w
Leads d (interrupted w) = Unit
Leads d raised = Unit

stopped-Leads :
    (d : Option Value) (s : State) (w : World) (r : String)
    → s.stop_reason ≡ some r
    → str_eq r "" ≡ false
    → w.executed ≡ []
    → Leads d (returned s w)
unfolding route_after_approval
stopped-Leads d s w r e n h = ground arith

answered-Leads :
    (p : Ports) (d : Option Value) (action : ProposedAction) (s : State) (w : World)
    → Inv d request_approval s w
    → Leads d (answered d (submit_request p action w) action s)
unfolding submit_request apply_result route_after_approval
answered-Leads p none action s w h = ground arith
answered-Leads p (some v) action s w h = ground (arith, approved_iff v)

Leads-if :
    (d : Option Value) (b : Bool) (x y : Pass)
    → Leads d x
    → Leads d y
    → Leads d (if b then x else y)
Leads-if d true x y hx hy = hx
Leads-if d false x y hx hy = hy

request-Leads :
    (p : Ports) (d : Option Value) (s : State) (w : World)
    → Inv d request_approval s w
    → Leads d (request_approval_node p d s w)
unfolding request_approval_node request_with route_after_approval
request-Leads p d s w h =
    Leads-if d s.approval_attempted (returned repeated w)
      (request_with p d s.proposed_action s.risk_assessment s w)
      (stopped-Leads d repeated w "approval_limit_reached" refl refl h.0)
      (go s.proposed_action s.risk_assessment)
  where
    repeated : State
    repeated = record s {
      outcome_reason = some approval_repeated;
      stop_reason = some "approval_limit_reached";
    }

    missing : State
    missing = record s {
      approval_attempted = true;
      outcome_reason = some approval_missing;
      stop_reason = some "missing_data";
    }

    go :
        (action : Option ProposedAction) (risk : Option RiskAssessment)
        → Leads d (request_with p d action risk s w)
    go (some action) (some risk) = answered-Leads p d action s w h
    go none risk = stopped-Leads d missing w "missing_data" refl refl h.0
    go (some action) none = stopped-Leads d missing w "missing_data" refl refl h.0

approval-Inv :
    (p : Ports) (d : Option Value) (s : State) (w : World) {s' : State} {w' : World}
    → request_approval_node p d s w ≡ returned s' w'
    → Inv d request_approval s w
    → Inv d (route_after_approval s') s' w'
approval-Inv p d s w e h = subst (Leads d) e (request-Leads p d s w h)

execute-IsSafe :
    (p : Ports) (d : Option Value) (s : State) (w : World)
    → Inv d execute_action s w
    → IsSafe d (execute_action_node p s w).0 (execute_action_node p s w).1
unfolding execute_action_node execute_proposed perform executed_with
execute-IsSafe p d s w h = ground arith

log-IsSafe :
    (p : Ports) (d : Option Value) (s : State) (w : World)
    → IsSafe d s w
    → IsSafe d (log_outcome_node p s w).0 (log_outcome_node p s w).1
unfolding log_outcome_node store_outcome
log-IsSafe p d s w h = ground arith

-- One node and the edge after it keep the invariant.
pub step-Inv :
    (p : Ports) (d : Option Value) (n : Node) (s : State) (w : World) {s' : State} {w' : World}
    → run_node p d n s w ≡ returned s' w'
    → Inv d n s w
    → Inv d (next_node n s') s' w'
unfolding run_node next_node
step-Inv p d ingest_goal s w e h = unfold ingest_goal_node in ground arith
step-Inv p d load_account_context s w e h =
    unfold route_after_account_context in ground (arith, load-Keeps p s w)
step-Inv p d discover_candidates s w e h =
    unfold route_after_discovery in ground (arith, discover-Keeps p s w)
step-Inv p d rank_candidates s w e h = ground (arith, rank-Keeps p s w)
step-Inv p d draft_action s w e h = ground (arith, draft-Keeps s w)
step-Inv p d score_risk s w {s'} {w'} e h = score-Inv d s' w' (ground (arith, score-Keeps p s w))
step-Inv p d gate_by_mode s w e h = ground (arith, gate-Inv d s w)
step-Inv p d request_approval s w e h = approval-Inv p d s w e h
step-Inv p d execute_action s w e h = ground (arith, execute-IsSafe p d s w)
step-Inv p d log_outcome s w e h = ground (arith, log-IsSafe p d s w)
step-Inv p d finish s w e h = unfold finish_node in ground arith
step-Inv p d done s w e h = ground arith

-- Only the approval is interrupted, and it leaves the executor alone.
pub step-interrupted :
    (p : Ports) (d : Option Value) (n : Node) (s : State) (w : World) {w' : World}
    → run_node p d n s w ≡ interrupted w'
    → (n ≡ request_approval) × (d ≡ none) × (w'.executed ≡ w.executed)
unfolding run_node
step-interrupted p d request_approval s w e =
    unfold request_approval_node request_with submit_request in ground arith
step-interrupted p d ingest_goal s w e = ground arith
step-interrupted p d load_account_context s w e = ground arith
step-interrupted p d discover_candidates s w e = ground arith
step-interrupted p d rank_candidates s w e = ground arith
step-interrupted p d draft_action s w e = ground arith
step-interrupted p d score_risk s w e = ground arith
step-interrupted p d gate_by_mode s w e = ground arith
step-interrupted p d execute_action s w e = ground arith
step-interrupted p d log_outcome s w e = ground arith
step-interrupted p d finish s w e = ground arith
step-interrupted p d done s w e = ground arith
