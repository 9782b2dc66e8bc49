-- ===== src/Copilot/Graph/Safety.antt =====
-- What a run may execute: an invariant of the copilot graph, node by node.
use insta.Prelude.{◌≤◌, String, ◌≡◌, ◌⊎◌, Bool, true, false, some, []}
use insta.Copilot.Policy.{is_read_only, classify, all_read_only}
use insta.Copilot.State.{State, World}
use insta.Copilot.Execute.Laws.{allowed, all_executed}
use insta.Copilot.Graph.{
  Node, ingest_request, classify_goal, plan_actions, review_tool_policy, request_approval_if_needed,
  execute_tools, Result, finished, failed, out_of_fuel,
}

abbrev pub reads : String → Bool
reads name = is_read_only (classify name).policy

-- The operator was asked, in this run, and answered "approved" or "edited".
pub record IsGranted (s : State) (w : World) : Type 0 where
  pub asked : w.interrupts ≡ 1
  pub answer : (s.approval_result ≡ some "approved") ⊎ (s.approval_result ≡ some "edited")

-- What holds when a run is over.
pub record IsSafe (s : State) (w : World) : Type 0 where
  pub asked_once : w.interrupts ≤ 1
  pub none_blocked : all_executed allowed w ≡ true
  pub authorized :
      (w.executed ≡ []) ⊎ ((w.interrupts ≡ 0) × (all_executed reads w ≡ true) ⊎ IsGranted s w)

-- Before the execute node: nothing was executed, and the operator was asked if it is so marked.
record IsWaiting (s : State) (w : World) : Type 0 where
  nothing : w.executed ≡ []
  asked : s.approval_attempted ≡ true → w.interrupts ≡ 1
  not_asked : s.approval_attempted ≡ false → w.interrupts ≡ 0

abbrev Inv : Node → State → World → Type 0
Inv ingest_request s w = (w.executed ≡ []) × (w.interrupts ≡ 0)
Inv classify_goal s w = IsWaiting s w × (s.approval_attempted ≡ false)
Inv plan_actions s w = IsWaiting s w × (s.approval_attempted ≡ false)
Inv review_tool_policy s w =
    IsWaiting s w × (s.approval_attempted ≡ true → s.approval_result ≡ some "edited")
Inv request_approval_if_needed s w = IsWaiting s w × (s.approval_attempted ≡ false)
Inv execute_tools s w =
    IsWaiting s w
    × ((w.interrupts ≡ 0) × (all_read_only s.approved_tool_calls ≡ true) ⊎ IsGranted s w)
Inv _ s w = IsSafe s w

-- What a returned run promises; a run that did not return promises nothing good.
abbrev pub EndsSafely : Result → Type 0
EndsSafely (finished s w) = IsSafe s w
EndsSafely (failed n s w) = IsSafe s w
EndsSafely out_of_fuel = ⊥
