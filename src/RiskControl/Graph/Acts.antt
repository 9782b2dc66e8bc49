-- ===== src/RiskControl/Graph/Acts.antt =====
-- What a risk control run does to an account.
use insta.Prelude.{
  ℕ, zero, suc, ◌≤◌, ◌<◌, String, true, false, Option, none, some, List, [], length, ◌≡◌, refl, sym,
  subst, Bool-cases, inl, inr, arith,
}
use insta.RiskControl.State.{Override, State, Call, Ports, make_initial_state}
use insta.RiskControl.Graph.{
  Node, load_account_signal, escalate_to_operator, done, next_node, run_node, Result, finished,
  suspended, out_of_fuel, is_done, run, start, resume,
}
use insta.RiskControl.Graph.Leads.{allowance, IsUndecided, Inv, rank, Leads, node-Leads}

-- How a run ends: with at most the calls that are allowed, or waiting for the operator, before any call.
abbrev pub EndsActed : Option Override → Result → Type 0
EndsActed d (finished s calls) = length calls ≤ allowance d
EndsActed d (suspended s calls) = (calls ≡ []) × (d ≡ none) × IsUndecided s
EndsActed d out_of_fuel = ⊥

module _ (p : Ports) (d : Option Override) where
  done-EndsActed :
      (n : Node) (s : State) (calls : List Call)
      → is_done n ≡ true
      → Inv d n s calls
      → EndsActed d (finished s calls)
  done-EndsActed done s calls e h = h
  done-EndsActed _ s calls e h = absurd (ground arith)

  rank-pos : (n : Node) → is_done n ≡ false → 0 < rank n
  rank-pos done h = absurd (cc h)
  rank-pos n h = omega arith

  run_at_done :
      (fuel : ℕ) (n : Node) (s : State) (calls : List Call)
      → is_done n ≡ true
      → run p d fuel n s calls ≡ finished s calls
  unfolding run
  run_at_done zero n s calls e = ground arith
  run_at_done (suc fuel) n s calls e = ground arith

  abbrev after : ℕ → Node → State → List Call → Option (State × List Call) → Result
  after fuel n s calls none = suspended s calls
  after fuel n s calls (some (s', calls')) = run p d fuel (next_node n s') s' calls'

  run_next :
      (fuel : ℕ) (n : Node) (s : State) (calls : List Call)
      → is_done n ≡ false
      → run p d (suc fuel) n s calls ≡ after fuel n s calls (run_node p d n s calls)
  unfolding run
  run_next fuel n s calls e = go (run_node p d n s calls) refl
    where
      go :
          (x : Option (State × List Call))
          → run_node p d n s calls ≡ x
          → run p d (suc fuel) n s calls ≡ after fuel n s calls x
      go none q = ground (arith, e, q)
      go (some (s', calls')) q = ground (arith, e, q)

  run-EndsActed :
      (fuel : ℕ) (n : Node) (s : State) (calls : List Call)
      → rank n ≤ fuel
      → Inv d n s calls
      → EndsActed d (run p d fuel n s calls)
  run-EndsActed zero n s calls k h = elim (Bool-cases (is_done n)) [
    | inl e ↦ rw (run_at_done zero n s calls e) (done-EndsActed n s calls e h)
    | inr e ↦ absurd (omega (arith, rank-pos n e))
  ]
  run-EndsActed (suc fuel) n s calls k h = elim (Bool-cases (is_done n)) [
    | inl e ↦ rw (run_at_done (suc fuel) n s calls e) (done-EndsActed n s calls e h)
    | inr e ↦
        subst (EndsActed d) (sym (run_next fuel n s calls e))
          (go (run-EndsActed fuel) (run_node p d n s calls) (node-Leads p d n s calls e h))
  ]
    where
      go :
          ((n' : Node) (s' : State) (calls' : List Call)
            → rank n' ≤ fuel
            → Inv d n' s' calls'
            → EndsActed d (run p d fuel n' s' calls'))
          → (x : Option (State × List Call)) → Leads d n s calls x
          → EndsActed d (after fuel n s calls x)
      go ih none inv = inv
      go ih (some (s', calls')) (inv, below) = ih (next_node n s') s' calls' (omega arith) inv

-- A new run ends with at most one call, or waits for the operator before it made any.
pub assessment-EndsActed : (p : Ports) (account_id : String) → EndsActed none (start p account_id)
unfolding start make_initial_state
assessment-EndsActed p account_id =
    run-EndsActed p none 8 load_account_signal (make_initial_state account_id) [] (omega arith)
      (refl, refl)

-- A run that waits and is resumed ends, and it makes at most one call, and none unless the operator
-- overrides the policy: a response that approves the policy is followed by no call at all.
pub response-EndsActed :
    (p : Ports) (account_id : String) (response : Override) (s : State) (calls : List Call)
    → start p account_id ≡ suspended s calls
    → EndsActed (some response) (resume p response (suspended s calls))
unfolding resume
response-EndsActed p account_id response s calls e =
    let (untouched, first, undecided) =
      subst (EndsActed none) e (assessment-EndsActed p account_id) in
    run-EndsActed p (some response) 8 escalate_to_operator s calls (omega arith)
      (untouched, undecided)
