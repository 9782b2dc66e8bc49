-- ===== src/RiskControl/Graph/Leads.antt =====
-- Where the nodes of a risk control run lead, and which of them may act on the account.
use insta.Prelude.{
  ℕ, ◌≤◌, ◌<◌, String, str_eq, true, false, Option, none, some, List, [], length, ◌≡◌, refl, sym,
  subst, Bool-cases, inl, inr, arith, if◌then◌else◌,
}
use insta.RiskControl.State.{Override, State, Call, Ports}
use insta.RiskControl.Nodes.{
  counted, event, proxy_calls, override_proxy, is_text, cooldown_action_node,
  rotate_proxy_action_node, rotate_with, escalate_to_operator_node, effective_policy, policy_calls,
  apply_operator_override_node,
}
use insta.RiskControl.Graph.{
  Node, load_account_signal, evaluate_risk, choose_policy, cooldown_action, rotate_proxy_action,
  escalate_to_operator, apply_operator_override, recheck_signal, finish, done, route_after_load,
  route_after_risk, route_after_policy, route_after_escalation, next_node, escalated, run_node,
  is_done,
}

-- How many calls a run may make with this response: one, but none if the operator did not override.
abbrev pub allowance : Option Override → ℕ
allowance none = 1
allowance (some o) = if str_eq o.decision "override_policy" then 1 else 0

-- No policy that acts on its own was decided.
abbrev pub IsUndecided : State → Type 0
IsUndecided s =
    (is_text "cooldown" s.policy_decision ≡ false)
    × (is_text "rotate_proxy" s.policy_decision ≡ false)

abbrev pub Inv : Option Override → Node → State → List Call → Type 0
Inv d escalate_to_operator s calls = (calls ≡ []) × IsUndecided s
Inv d apply_operator_override s calls =
    (calls ≡ [])
    × (length (policy_calls (effective_policy s.operator_override s.policy_decision) s)
        ≤ allowance d)
Inv d recheck_signal s calls = length calls ≤ allowance d
Inv d finish s calls = length calls ≤ allowance d
Inv d done s calls = length calls ≤ allowance d
Inv d n s calls = (calls ≡ []) × (d ≡ none)

abbrev pub rank : Node → ℕ
rank load_account_signal = 7
rank evaluate_risk = 6
rank choose_policy = 5
rank escalate_to_operator = 4
rank cooldown_action = 3
rank rotate_proxy_action = 3
rank apply_operator_override = 3
rank recheck_signal = 2
rank finish = 1
rank done = 0

-- Where a pass of a node leads.
abbrev pub Leads : Option Override → Node → State → List Call → Option (State × List Call) → Type 0
Leads d n before calls none = (calls ≡ []) × (d ≡ none) × IsUndecided before
Leads d n before calls (some (s, calls')) =
    Inv d (next_node n s) s calls' × (rank (next_node n s) < rank n)

proxy_calls-le : (proxy : Option String) → length (proxy_calls proxy) ≤ 1
proxy_calls-le none = omega arith
proxy_calls-le (some proxy) = ground arith

policy_calls-le : (policy : Option String) (s : State) → length (policy_calls policy s) ≤ 1
unfolding policy_calls
policy_calls-le policy s =
    ground (arith, proxy_calls-le (override_proxy s.operator_override s.proxy_candidate))

undecided_calls :
    (s : State) (o : Override)
    → IsUndecided s
    → length (policy_calls (effective_policy (some o) s.policy_decision) s) ≤ allowance (some o)
unfolding effective_policy
undecided_calls s o h = elim (Bool-cases (str_eq o.decision "override_policy")) [
  | inl e ↦ ground (arith, e, policy_calls-le (effective_policy (some o) s.policy_decision) s)
  | inr e ↦ unfold policy_calls in ground (arith, e)
]

-- The state after a response that does not abort.
abbrev heard : Override → State → State
heard o s = counted (event "escalation_decided" (record s { operator_override = some o }))

heard-Leads :
    (o : Override) (s : State)
    → IsUndecided s
    → Inv (some o) (route_after_escalation (heard o s)) (heard o s) []
      × (rank (route_after_escalation (heard o s)) < 4)
unfolding route_after_escalation
heard-Leads o s h = elim (Bool-cases (is_text "aborted" s.stop_reason)) [
  | inl e ↦ ground (arith, e)
  | inr e ↦ rw e ((refl, undecided_calls (heard o s) o h), omega arith)
]

escalate_lem :
    (o : Override) (s : State)
    → str_eq o.decision "abort" ≡ false
    → escalate_to_operator_node o s ≡ heard o s
unfolding escalate_to_operator_node
escalate_lem o s e = ground (arith, e)

aborted-Leads :
    (o : Override) (s : State)
    → str_eq o.decision "abort" ≡ true
    → is_text "aborted" (escalate_to_operator_node o s).stop_reason ≡ true
unfolding escalate_to_operator_node
aborted-Leads o s e = ground (arith, e)

escalate-Leads :
    (d : Option Override) (s : State) (calls : List Call)
    → Inv d escalate_to_operator s calls
    → Leads d escalate_to_operator s calls (escalated d s calls)
unfolding next_node
escalate-Leads none s calls h = (h.0, refl, h.1)
escalate-Leads (some o) s calls h = elim (Bool-cases (str_eq o.decision "abort")) [
  | inl e ↦ unfold route_after_escalation in ground (arith, aborted-Leads o s e, h.0)
  | inr e ↦
      subst (λ t. Leads (some o) escalate_to_operator s calls (some (t, calls)))
        (sym (escalate_lem o s e))
        (subst
          (λ c.
            Inv (some o) (route_after_escalation (heard o s)) (heard o s) c
            × (rank (route_after_escalation (heard o s)) < 4))
          (sym h.0) (heard-Leads o s h.1))
]

rotate-Leads :
    (d : Option Override) (p : Ports) (proxy : Option String) (s : State) (calls : List Call)
    → Inv d rotate_proxy_action s calls
    → Leads d rotate_proxy_action s calls (some (rotate_with p proxy s calls))
unfolding rotate_with next_node
rotate-Leads d p none s calls h = ground arith
rotate-Leads d p (some proxy) s calls h = ground arith

pub node-Leads :
    (p : Ports) (d : Option Override) (n : Node) (s : State) (calls : List Call)
    → is_done n ≡ false
    → Inv d n s calls
    → Leads d n s calls (run_node p d n s calls)
unfolding run_node next_node
node-Leads p d load_account_signal s calls e h = unfold route_after_load in ground arith
node-Leads p d evaluate_risk s calls e h = unfold route_after_risk in ground arith
node-Leads p d choose_policy s calls e h = unfold route_after_policy in ground arith
node-Leads p d cooldown_action s calls e h = unfold cooldown_action_node in ground arith
node-Leads p d rotate_proxy_action s calls e h =
    unfold rotate_proxy_action_node in rotate-Leads d p s.proxy_candidate s calls h
node-Leads p d escalate_to_operator s calls e h = escalate-Leads d s calls h
node-Leads p d apply_operator_override s calls e h =
    unfold apply_operator_override_node in ground arith
node-Leads p d recheck_signal s calls e h = ground arith
node-Leads p d finish s calls e h = ground arith
node-Leads p d done s calls e h = absurd (cc e)
