-- ===== src/Copilot/Graph/Edited.antt =====
-- An operator who answers "edited" without edited calls lets the proposed calls run as they were.
use insta.Prelude.{
  ℕ, suc, ◌≡◌, ◌∙◌, ◌⊎◌, refl, ap, sym, subst, Bool, true, false, not, none, some, Option-cases,
  List, [], ◌∷◌, keep, all-keep, keep_of_all, arith, inl, inr,
}
use insta.Prelude.Dict
use insta.Prelude.Dict.{Dict}
use insta.Copilot.Values.{ToolCall}
use insta.Copilot.Policy.{
  ToolPolicy, is_blocked, policy_of, classify_calls, classify_calls_from, filter_executable,
  all_read_only,
}
use insta.Copilot.Guards.{is_nil}
use insta.Copilot.State.{State, World, Ports, decision}
use insta.Copilot.Nodes.{request_approval_node, review_tool_policy_node, has_all_ids}
use insta.Copilot.Graph.{
  request_approval_if_needed, review_tool_policy, execute_tools, run_node, next_node, run,
  route_after_approval, route_after_policy,
}
use insta.Copilot.Graph.Termination.{run_next}

filter_executable_idem :
    (calls : List ToolCall) → filter_executable (filter_executable calls) ≡ filter_executable calls
unfolding filter_executable
filter_executable_idem calls = keep_of_all allows (keep allows calls) (all-keep allows calls)
  where
    allows : ToolCall → Bool
    allows call = not (is_blocked (policy_of call))

ids_of_flags :
    (d : Dict ToolPolicy) (calls : List ToolCall) {flags : Dict ToolPolicy}
    → classify_calls_from d calls ≡ some flags
    → has_all_ids calls ≡ true
unfolding classify_calls_from has_all_ids
ids_of_flags d [] h = refl
ids_of_flags d (call ∷ rest) {flags = flags} h = elim (Option-cases call.id) [
  | inl e ↦ absurd (ground (arith, e, h))
  | inr (i, e) ↦
      ground (arith, e, h, ids_of_flags (Dict.put d i (policy_of call)) rest {flags = flags})
]

-- What the policy node leaves.
policy_leaves :
    (s0 : State) (w0 : World) {s : State} {w : World}
    → review_tool_policy_node s0 w0 ≡ some (s, w)
    → (s.proposed_tool_calls ≡ filter_executable s0.proposed_tool_calls)
      × (s.approved_tool_calls ≡ filter_executable s0.proposed_tool_calls)
      × (s.approval_attempted ≡ s0.approval_attempted)
      × (classify_calls (filter_executable s0.proposed_tool_calls) ≡ some s.tool_policy_flags)
unfolding review_tool_policy_node
policy_leaves s0 w0 h = ground arith

-- The approval node, on the answer "edited" with no calls.
edited_leaves :
    (p : Ports) (s : State) (w : World)
    → s.approval_attempted ≡ false
    → has_all_ids s.proposed_tool_calls ≡ true
    → p.decide s ≡ decision (some "edited") []
    → (s' : State) × (w' : World) × (request_approval_node p s w ≡ some (s', w'))
      × (s'.approval_result ≡ some "edited")
      × (s'.approval_attempted ≡ true)
      × (s'.proposed_tool_calls ≡ s.proposed_tool_calls)
edited_leaves p s w a i d = elim (Option-cases (request_approval_node p s w)) [
  | inl e ↦ absurd (unfold request_approval_node in ground arith)
  | inr ((s', w'), e) ↦ (
    s',
    w',
    e,
    unfold request_approval_node in ground arith,
    unfold request_approval_node in ground arith,
    unfold request_approval_node in ground arith,
  )
]

policy_again :
    (s : State) (w : World)
    → classify_calls (filter_executable s.proposed_tool_calls) ≡ none
      ⊎ ((s' : State) × (w' : World) × (review_tool_policy_node s w ≡ some (s', w'))
          × (s'.approved_tool_calls ≡ filter_executable s.proposed_tool_calls)
          × (s'.proposed_tool_calls ≡ filter_executable s.proposed_tool_calls)
          × (s'.approval_attempted ≡ s.approval_attempted))
policy_again s w = elim (Option-cases (review_tool_policy_node s w)) [
  | inl e ↦ inl (unfold review_tool_policy_node in ground arith)
  | inr ((s', w'), e) ↦
      let facts = policy_leaves s w e in inr (s', w', e, facts.1, facts.0, facts.2)
]

asked_facts :
    (s : State)
    → route_after_policy s ≡ request_approval_if_needed
    → (s.approval_attempted ≡ false)
      × (all_read_only s.proposed_tool_calls ≡ false)
      × (is_nil s.proposed_tool_calls ≡ false)
unfolding route_after_policy
asked_facts s h = ground arith

at_approval :
    (p : Ports) (s : State) (w : World)
    → run_node p request_approval_if_needed s w ≡ request_approval_node p s w
unfolding run_node
at_approval p s w = refl

at_policy :
    (p : Ports) (s : State) (w : World)
    → run_node p review_tool_policy s w ≡ review_tool_policy_node s w
unfolding run_node
at_policy p s w = refl

run_edited :
    (p : Ports) (s : State) (w : World)
    → s.approval_result ≡ some "edited"
    → next_node p request_approval_if_needed s ≡ review_tool_policy
unfolding next_node route_after_approval
run_edited p s w h = rw h

run_again :
    (p : Ports) (s : State)
    → s.approval_attempted ≡ true
    → is_nil s.proposed_tool_calls ≡ false
    → next_node p review_tool_policy s ≡ execute_tools
unfolding next_node route_after_policy
run_again p s a n = ground arith

-- When the policy node sent the run to the operator, so that a proposed call is not read-only, and
-- the operator answers "edited" with no edited calls, the run goes on to the execute node with
-- exactly the proposed calls.
pub edited_without_calls_executes :
    (p : Ports) (fuel : ℕ) (s0 s : State) (w0 w : World)
    → review_tool_policy_node s0 w0 ≡ some (s, w)
    → route_after_policy s ≡ request_approval_if_needed
    → p.decide s ≡ decision (some "edited") []
    → (s' : State) × (w' : World) × (run p (suc (suc fuel)) request_approval_if_needed s w
        ≡ run p fuel execute_tools s' w')
      × (s'.approved_tool_calls ≡ s.proposed_tool_calls)
      × (all_read_only s'.approved_tool_calls ≡ false)
edited_without_calls_executes p fuel s0 s w0 w came asked answer =
    let (proposed, approved, attempted, flags) = policy_leaves s0 w0 came in
    let (first, writes, any_call) = asked_facts s asked in
    let same : filter_executable s.proposed_tool_calls ≡ s.proposed_tool_calls =
      subst (λ l. filter_executable l ≡ l) (sym proposed)
        (filter_executable_idem s0.proposed_tool_calls) in
    let flagged : classify_calls s.proposed_tool_calls ≡ some s.tool_policy_flags =
      ap classify_calls proposed ∙ flags in
    let (s1, w1, e1, r1, a1, p1) =
      edited_leaves p s w first
        (ids_of_flags [] s.proposed_tool_calls {flags = s.tool_policy_flags}
          (unfold classify_calls in flagged))
        answer in
    let kept : filter_executable s1.proposed_tool_calls ≡ s.proposed_tool_calls =
      ap filter_executable p1 ∙ same in
    elim (policy_again s1 w1) [
      | inl e ↦ absurd (cc (flagged, ap classify_calls kept, e))
      | inr (s2, w2, e2, ap2, pr2, at2) ↦ (
        s2,
        w2,
        run_next p (suc fuel) request_approval_if_needed s w refl (at_approval p s w ∙ e1)
            ∙ ap (λ n. run p (suc fuel) n s1 w1) (run_edited p s1 w1 r1)
            ∙ run_next p fuel review_tool_policy s1 w1 refl (at_policy p s1 w1 ∙ e2)
            ∙ ap (λ n. run p fuel n s2 w2)
                (run_again p s2 (at2 ∙ a1) (ap is_nil (pr2 ∙ kept) ∙ any_call)),
        ap2 ∙ kept,
        ap all_read_only (ap2 ∙ kept) ∙ writes,
      )
    ]
