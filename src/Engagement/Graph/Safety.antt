-- ===== src/Engagement/Graph/Safety.antt =====
-- What a run may do: the fuel it needs, and what reaches the executor.
use insta.Prelude.{
  ℕ, zero, suc, ◌≤◌, ◌<◌, String, true, false, Option, none, some, [], ◌≡◌, ◌≢◌, refl, subst, ◌∙◌,
  Bool-cases, inl, inr, arith,
}
use insta.Copilot.Values.{Value}
use insta.Jobs.Record.{Text}
use insta.Engagement.State.{State, World, Ports, build_initial_state, fresh_world}
use insta.Engagement.Nodes.Approval.{Pass, returned, interrupted, raised}
use insta.Engagement.Graph.{
  Node, ingest_goal, request_approval, done, is_acceptable, next_node, run_node, Result, finished,
  suspended, failed, out_of_fuel, is_done, run, start, resume,
}
use insta.Engagement.Graph.Invariant.{
  rank, rank-next, Inv, IsSafe, nothing-IsSafe, step-Inv, step-interrupted,
}

-- What a run promises when it is over: a suspended one stands before the approval.
abbrev pub EndsSafely : Option Value → Result → Type 0
EndsSafely d (finished s w) = IsSafe d s w
EndsSafely d (failed s w) = IsSafe d s w
EndsSafely d (suspended s w) =
    (d ≡ none) × (w.executed ≡ []) × (is_acceptable s.risk_assessment ≡ true)
EndsSafely d out_of_fuel = ⊥

Inv-IsSafe :
    (p : Ports) (d : Option Value) (n : Node) (s : State) (w : World)
    → run_node p d n s w ≡ raised
    → Inv d n s w
    → IsSafe d s w
unfolding run_node
Inv-IsSafe p d request_approval s w e h = nothing-IsSafe d s w h.0
Inv-IsSafe p d n s w e h = ground arith

done-IsSafe :
    (d : Option Value) (n : Node) (s : State) (w : World)
    → is_done n ≡ true
    → Inv d n s w
    → IsSafe d s w
done-IsSafe d done s w e h = h
done-IsSafe d _ s w e h = absurd (ground arith)

rank-pos : (n : Node) → is_done n ≡ false → (0 < rank n) × (n ≢ done)
rank-pos done h = absurd (cc h)
rank-pos n h = (omega arith, λ e. cc e)

module _ (p : Ports) (d : Option Value) where
  pub run_at_done :
      (fuel : ℕ) (n : Node) (s : State) (w : World)
      → is_done n ≡ true
      → run p d fuel n s w ≡ finished s w
  unfolding run
  run_at_done zero n s w e = ground arith
  run_at_done (suc fuel) n s w e = ground arith

  module _ (fuel : ℕ) (n : Node) (s : State) (w : World) where
    pub run_raised :
        is_done n ≡ false → run_node p d n s w ≡ raised → run p d (suc fuel) n s w ≡ failed s w
    unfolding run
    run_raised h e = ground arith

    pub run_interrupted :
        {w' : World}
        → is_done n ≡ false
        → run_node p d n s w ≡ interrupted w'
        → run p d (suc fuel) n s w ≡ suspended s w'
    unfolding run
    run_interrupted h e = ground arith

    pub run_next :
        {s' : State} {w' : World}
        → is_done n ≡ false
        → run_node p d n s w ≡ returned s' w'
        → run p d (suc fuel) n s w ≡ run p d fuel (next_node n s') s' w'
    unfolding run
    run_next h e = ground arith

  interrupted-EndsSafely :
      (n : Node) (s : State) (w w' : World)
      → run_node p d n s w ≡ interrupted w'
      → Inv d n s w
      → EndsSafely d (suspended s w')
  interrupted-EndsSafely request_approval s w w' e h =
      let (here, none_given, same) = step-interrupted p d request_approval s w e in
      (none_given, same ∙ h.0, h.1)
  interrupted-EndsSafely n s w w' e h = absurd (cc ((step-interrupted p d n s w e).0))

  from-EndsSafely :
      (fuel : ℕ) (n : Node) (s : State) (w : World)
      → rank n ≤ fuel
      → Inv d n s w
      → EndsSafely d (run p d fuel n s w)
  from-EndsSafely zero n s w k h = elim (Bool-cases (is_done n)) [
    | inl e ↦ rw (run_at_done zero n s w e) (done-IsSafe d n s w e h)
    | inr e ↦ absurd (omega (arith, (rank-pos n e).0))
  ]
  from-EndsSafely (suc m) n s w k h = elim (Bool-cases (is_done n)) [
    | inl e ↦ rw (run_at_done (suc m) n s w e) (done-IsSafe d n s w e h)
    | inr e ↦ go e (from-EndsSafely m) (run_node p d n s w) refl
  ]
    where
      go :
          is_done n ≡ false
          → ((n' : Node) (s' : State) (w' : World)
              → rank n' ≤ m
              → Inv d n' s' w'
              → EndsSafely d (run p d m n' s' w'))
          → (r : Pass) → run_node p d n s w ≡ r
          → EndsSafely d (run p d (suc m) n s w)
      go e ih raised q = rw (run_raised m n s w e q) (Inv-IsSafe p d n s w q h)
      go e ih (interrupted w') q =
          rw (run_interrupted m n s w e q) (interrupted-EndsSafely n s w w' q h)
      go e ih (returned s' w') q = rw (run_next m n s w e q) (
          ih (next_node n s') s' w' (omega (arith, rank-next n s' (rank-pos n e).1))
            (step-Inv p d n s w q h))

-- Every new run returns, finished, failed or suspended, and has executed nothing. Suspended, it waits
-- for a decision on an action whose risk was assessed and is not high.
pub new_run-EndsSafely :
    (p : Ports) (thread_id mode : String) (goal : Text) (account_id : String) (max_targets : ℕ)
    → EndsSafely none (start p thread_id mode goal account_id max_targets)
unfolding start build_initial_state
new_run-EndsSafely p thread_id mode goal account_id max_targets =
    from-EndsSafely p none 11 ingest_goal
      (build_initial_state thread_id mode goal account_id max_targets) fresh_world (omega arith)
      refl

-- A suspended run that is resumed with a decision returns, and it has executed at most one call, and
-- that only in execute mode, with a risk that is not high, and if the decision approves.
pub resumed_run-EndsSafely :
    (p : Ports) (thread_id mode : String) (goal : Text) (account_id : String) (max_targets : ℕ)
    (d : Value) (s : State) (w : World)
    → start p thread_id mode goal account_id max_targets ≡ suspended s w
    → EndsSafely (some d) (resume p d (suspended s w))
unfolding resume
resumed_run-EndsSafely p thread_id mode goal account_id max_targets d s w e =
    let stood : EndsSafely none (suspended s w) =
      subst (EndsSafely none) e (new_run-EndsSafely p thread_id mode goal account_id max_targets) in
    from-EndsSafely p (some d) 4 request_approval s w (omega arith) (stood.1, stood.2)
