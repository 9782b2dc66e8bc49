-- ===== src/Copilot/Graph/Termination.antt =====
-- The measure by which every run of the copilot graph ends, within ten nodes.
use insta.Prelude.{
  ℕ, zero, suc, ◌≤◌, ◌<◌, ◌≡◌, ◌≢◌, refl, true, false, none, some, arith, if◌then◌else◌,
}
use insta.Copilot.State.{State, World, Ports}
use insta.Copilot.Nodes.{review_tool_policy_node, request_approval_node}
use insta.Copilot.Graph.{
  Node, ingest_request, classify_goal, plan_actions, review_tool_policy, request_approval_if_needed,
  execute_tools, review_results, summarize_result, finish, done, finished, failed, run_node,
  next_node, run, is_done, route_after_classify, route_after_plan, route_after_policy,
  route_after_approval, route_after_execute_tools,
}

-- The nodes left to run, at most.
unfoldable pub rank : Node → State → ℕ
rank done s = 0
rank finish s = 1
rank summarize_result s = 2
rank review_results s = 3
rank execute_tools s = 4
rank review_tool_policy s = if s.approval_attempted then 5 else 7
rank request_approval_if_needed s = 6
rank plan_actions s = 8
rank classify_goal s = 9
rank ingest_request s = 10

approval_sets_attempted :
    (p : Ports) (s : State) (w : World) {s' : State} {w' : World}
    → request_approval_node p s w ≡ some (s', w')
    → s'.approval_attempted ≡ true
unfolding request_approval_node
approval_sets_attempted p s w h = ground arith

policy_keeps_attempted :
    (s : State) (w : World) {s' : State} {w' : World}
    → review_tool_policy_node s w ≡ some (s', w')
    → s'.approval_attempted ≡ s.approval_attempted
unfolding review_tool_policy_node
policy_keeps_attempted s w h = ground arith

rank-next-execute : (p : Ports) (s : State) → rank (route_after_execute_tools p s) s ≤ 3
unfolding route_after_execute_tools rank
rank-next-execute p s = ground arith

pub rank-next :
    (p : Ports) (n : Node) (s : State) (w : World) {s' : State} {w' : World}
    → n ≢ done
    → run_node p n s w ≡ some (s', w')
    → rank (next_node p n s') s' < rank n s
unfolding run_node next_node rank
rank-next p ingest_request s w m h = omega arith
rank-next p classify_goal s w m h = unfold route_after_classify in ground arith
rank-next p plan_actions s w m h = unfold route_after_plan in ground arith
rank-next p review_tool_policy s w m h =
    unfold route_after_policy in ground (arith, policy_keeps_attempted s w h)
rank-next p request_approval_if_needed s w m h =
    unfold route_after_approval in ground (arith, approval_sets_attempted p s w h)
rank-next p execute_tools s w {s' = s'} m h = omega (arith, rank-next-execute p s')
rank-next p review_results s w m h = omega arith
rank-next p summarize_result s w m h = omega arith
rank-next p finish s w m h = omega arith
rank-next p done s w m h = absurd (m refl)

pub rank-pos : (n : Node) (s : State) → is_done n ≡ false → 0 < rank n s
unfolding rank
rank-pos done s h = cc
rank-pos review_tool_policy s h = ground arith
rank-pos _ s h = omega arith

-- The run, one node at a time.
pub run_at_done :
    (p : Ports) (fuel : ℕ) (n : Node) (s : State) (w : World)
    → is_done n ≡ true
    → run p fuel n s w ≡ finished s w
unfolding run
run_at_done p zero n s w d = ground arith
run_at_done p (suc fuel) n s w d = ground arith

module _ (p : Ports) (fuel : ℕ) (n : Node) (s : State) (w : World) where
  pub run_raised :
      is_done n ≡ false → run_node p n s w ≡ none → run p (suc fuel) n s w ≡ failed n s w
  unfolding run
  run_raised d e = ground arith

  pub run_next :
      {s' : State} {w' : World}
      → is_done n ≡ false
      → run_node p n s w ≡ some (s', w')
      → run p (suc fuel) n s w ≡ run p fuel (next_node p n s') s' w'
  unfolding run
  run_next d e = ground arith
