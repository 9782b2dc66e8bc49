-- ===== src/Recovery/Graph/Safety.antt =====
-- What a recovery may do: it ends or waits for the operator, keeps its limit of attempts, and swaps a
-- proxy only as often as the operator approved one.
use insta.Prelude.{
  ℕ, zero, suc, ◌+◌, ◌*◌, ◌≤◌, ◌<◌, String, str_eq, true, false, Option, none, some, List, [], ◌∷◌,
  ◌++◌, ◌≡◌, refl, sym, subst, Bool-cases, inl, inr, arith, if◌then◌else◌,
}
use native.Mathlib.Nat.{add-zero, add_assoc}
use insta.Recovery.State.{
  Payload, LoginResult, aborted_2fa, State, Call, relogin, Ports, make_initial_state,
}
use insta.Recovery.Nodes.{
  Pass, returned, interrupted, raised, decided, attempt_relogin, attempt_recovery_node,
  finish_unrecoverable_node, finish_node,
}
use insta.Recovery.Graph.{
  Node, detect_issue, classify_issue, choose_recovery_path, attempt_recovery, verify_account_health,
  finish_unrecoverable, finish, done, next_node, run_node, Result, finished, suspended, failed,
  out_of_fuel, is_done, run, start, resume, resume_all,
}
use insta.Recovery.Graph.Bounded.{
  swaps, approval, approvals, pending, Inv, rank, Leads, bonus, detect-Leads, classify-Leads,
  choose-Leads, verify-Leads, attempt-Leads,
}

Inv-le :
    (a b m : ℕ) (n : Node) (s : State) (calls : List Call)
    → a ≤ b
    → Inv a m n s calls
    → Inv b m n s calls
Inv-le a b m n s calls h (same_limit, fits, counted, room) = (same_limit, fits, omega arith, room)

Leads-le :
    (a b m r t : ℕ) (n : Node) (s : State) (x : Pass)
    → a ≤ b
    → r ≤ t
    → Leads a m r n s x
    → Leads b m t n s x
Leads-le a b m r t n s (returned s' calls) h k (inv, below) =
    (Inv-le a b m (next_node n s') s' calls h inv, omega arith)
Leads-le a b m r t n s (interrupted calls) h k inv = Inv-le a b m attempt_recovery s calls h inv
Leads-le a b m r t n s (raised calls) h k inv = Inv-le a b m attempt_recovery s calls h inv

node-Leads :
    (a m : ℕ) (p : Ports) (d : Option Payload) (n : Node) (s : State) (calls : List Call)
    → is_done n ≡ false
    → Inv a m n s calls
    → Leads (a + approval d) m (rank m n s + bonus m d) n s (run_node p d n s calls)
unfolding run_node
node-Leads a m p d detect_issue s calls e h =
    Leads-le a (a + approval d) m (rank m detect_issue s) _ detect_issue s _ (omega arith)
      (omega arith) (detect-Leads a m p s calls h)
node-Leads a m p d classify_issue s calls e h =
    Leads-le a (a + approval d) m (rank m classify_issue s) _ classify_issue s _ (omega arith)
      (omega arith) (classify-Leads a m p s calls h)
node-Leads a m p d choose_recovery_path s calls e h =
    Leads-le a (a + approval d) m (rank m choose_recovery_path s) _ choose_recovery_path s _
      (omega arith) (omega arith) (choose-Leads a m p s calls h)
node-Leads a m p d verify_account_health s calls e h =
    Leads-le a (a + approval d) m (rank m verify_account_health s) _ verify_account_health s _
      (omega arith) (omega arith) (verify-Leads a m p s calls h)
node-Leads a m p d attempt_recovery s calls e h = attempt-Leads a m p d s calls h
node-Leads a m p d finish_unrecoverable s calls e h =
    unfold finish_unrecoverable_node in unfold next_node in ground arith
node-Leads a m p d finish s calls e h = unfold finish_node in unfold next_node in ground arith
node-Leads a m p d done s calls e h = absurd (cc e)

-- What a run, or its resumptions, promise. A suspended and a failed one stand before an attempt.
abbrev pub EndsWell : ℕ → ℕ → Result → Type 0
EndsWell a m (finished s calls) = (s.recovery_attempts ≤ m) × (swaps calls ≤ a)
EndsWell a m (suspended s calls) =
    (s.max_recovery_attempts ≡ m) × (s.recovery_attempts < m) × (swaps calls + pending s ≤ a)
EndsWell a m (failed s calls) =
    (s.max_recovery_attempts ≡ m) × (s.recovery_attempts < m) × (swaps calls + pending s ≤ a)
EndsWell a m out_of_fuel = ⊥

module _ (m : ℕ) (p : Ports) where
  done-EndsWell :
      (a : ℕ) (n : Node) (s : State) (calls : List Call)
      → is_done n ≡ true
      → Inv a m n s calls
      → EndsWell a m (finished s calls)
  done-EndsWell a n s calls e (same_limit, fits, counted, room) = (fits, omega arith)

  rank-pos :
      (a : ℕ) (n : Node) (s : State) (calls : List Call)
      → is_done n ≡ false
      → Inv a m n s calls
      → 0 < rank m n s
  rank-pos a done s calls e h = absurd (cc e)
  rank-pos a attempt_recovery s calls e (same_limit, fits, counted, room) = omega arith
  rank-pos a n s calls e h = omega arith

  run_at_done :
      (d : Option Payload) (fuel : ℕ) (n : Node) (s : State) (calls : List Call)
      → is_done n ≡ true
      → run p d fuel n s calls ≡ finished s calls
  unfolding run
  run_at_done d zero n s calls e = ground arith
  run_at_done d (suc fuel) n s calls e = ground arith

  -- What a run does after a pass of its first node.
  abbrev after : ℕ → Node → State → Pass → Result
  after fuel n s (raised calls) = failed s calls
  after fuel n s (interrupted calls) = suspended s calls
  after fuel n s (returned s' calls) = run p none fuel (next_node n s') s' calls

  run_next :
      (d : Option Payload) (fuel : ℕ) (n : Node) (s : State) (calls : List Call)
      → is_done n ≡ false
      → run p d (suc fuel) n s calls ≡ after fuel n s (run_node p d n s calls)
  unfolding run
  run_next d fuel n s calls e = go (run_node p d n s calls) refl
    where
      go : (x : Pass) → run_node p d n s calls ≡ x → run p d (suc fuel) n s calls ≡ after fuel n s x
      go (raised calls') q = ground (arith, e, q)
      go (interrupted calls') q = ground (arith, e, q)
      go (returned s' calls') q = ground (arith, e, q)

  run-EndsWell :
      (fuel a : ℕ) (d : Option Payload) (n : Node) (s : State) (calls : List Call)
      → rank m n s + bonus m d ≤ fuel
      → Inv a m n s calls
      → EndsWell (a + approval d) m (run p d fuel n s calls)
  run-EndsWell zero a d n s calls k h = elim (Bool-cases (is_done n)) [
    | inl e ↦ rw (run_at_done d zero n s calls e) (
        done-EndsWell (a + approval d) n s calls e
          (Inv-le a (a + approval d) m n s calls (omega arith) h))
    | inr e ↦ absurd (omega (arith, rank-pos a n s calls e h))
  ]
  run-EndsWell (suc fuel) a d n s calls k h = elim (Bool-cases (is_done n)) [
    | inl e ↦ rw (run_at_done d (suc fuel) n s calls e) (
        done-EndsWell (a + approval d) n s calls e
          (Inv-le a (a + approval d) m n s calls (omega arith) h))
    | inr e ↦
        subst (EndsWell (a + approval d) m) (sym (run_next d fuel n s calls e))
          (go (run-EndsWell fuel) (run_node p d n s calls) (node-Leads a m p d n s calls e h))
  ]
    where
      go :
          ((b : ℕ) (d' : Option Payload) (n' : Node) (s' : State) (calls' : List Call)
            → rank m n' s' + bonus m d' ≤ fuel
            → Inv b m n' s' calls'
            → EndsWell (b + approval d') m (run p d' fuel n' s' calls'))
          → (x : Pass) → Leads (a + approval d) m (rank m n s + bonus m d) n s x
          → EndsWell (a + approval d) m (after fuel n s x)
      go ih (raised calls') (same_limit, fits, counted, room) = (same_limit, room, counted)
      go ih (interrupted calls') (same_limit, fits, counted, room) = (same_limit, room, counted)
      go ih (returned s' calls') (inv, below) =
          subst (λ c. EndsWell c m (run p none fuel (next_node n s') s' calls'))
            (add-zero (a + approval d))
            (ih (a + approval d) none (next_node n s') s' calls' (omega arith) inv)

start-EndsWell :
    (p : Ports) (account_id username : String) (max_attempts : ℕ)
    → EndsWell 0 max_attempts (start p account_id username max_attempts)
unfolding start make_initial_state
start-EndsWell p account_id username max_attempts =
    run-EndsWell max_attempts p (4 * max_attempts + 6) 0 none detect_issue
      (make_initial_state account_id username max_attempts) [] (omega arith)
      (refl, omega arith, omega arith, tt)

resume-EndsWell :
    (p : Ports) (a m : ℕ) (d : Payload) (r : Result)
    → EndsWell a m r
    → EndsWell (a + approval (some d)) m (resume p d r)
unfolding resume
resume-EndsWell p a m d (finished s calls) (fits, counted) = (fits, omega arith)
resume-EndsWell p a m d (suspended s calls) (same_limit, room, counted) =
    run-EndsWell m p (8 * s.max_recovery_attempts + 6) a (some d) attempt_recovery s calls
      (ground arith) (same_limit, omega arith, counted, room)
resume-EndsWell p a m d (failed s calls) (same_limit, room, counted) =
    run-EndsWell m p (8 * s.max_recovery_attempts + 6) a (some d) attempt_recovery s calls
      (ground arith) (same_limit, omega arith, counted, room)
resume-EndsWell p a m d out_of_fuel counted = elim counted [ ]

resume_all-EndsWell :
    (p : Ports) (a m : ℕ) (ds : List Payload) (r : Result)
    → EndsWell a m r
    → EndsWell (a + approvals ds) m (resume_all p ds r)
unfolding resume_all
resume_all-EndsWell p a m [] r h = subst (λ b. EndsWell b m r) (sym (add-zero a)) h
resume_all-EndsWell p a m (d ∷ rest) r h =
    subst (λ b. EndsWell b m (resume_all p rest (resume p d r)))
      (add_assoc a (approval (some d)) (approvals rest))
      (resume_all-EndsWell p (a + approval (some d)) m rest (resume p d r)
        (resume-EndsWell p a m d r h))

zero_plus : (n : ℕ) → 0 + n ≡ n
zero_plus n = omega arith

-- Whatever the ports answer and the operator decides, a recovery that is resumed with any list of
-- payloads finishes, waits for the operator, or fails in an attempt, after each; a failed one is
-- resumed with that attempt. It never makes more attempts than its limit, and the swaps of the
-- account's proxy that returned are at most one for each payload that approves a swap.
pub session-EndsWell :
    (p : Ports) (account_id username : String) (max_attempts : ℕ) (payloads : List Payload)
    → EndsWell
        (approvals payloads)
        max_attempts
        (resume_all p payloads (start p account_id username max_attempts))
session-EndsWell p account_id username max_attempts payloads =
    subst
      (λ a.
        EndsWell a max_attempts (resume_all p payloads (start p account_id username max_attempts)))
      (zero_plus (approvals payloads))
      (resume_all-EndsWell p 0 max_attempts payloads (start p account_id username max_attempts)
        (start-EndsWell p account_id username max_attempts))

-- An attempt that asks for a two-factor code logs in without one twice: before the interrupt, and once
-- more when the node is run again with the operator's payload, which only the next attempt reads.
pub login_repeats :
    (p : Ports) (s : State) (calls : List Call) (d : Payload) (first second : LoginResult)
    → s.recovery_path ≡ some "relogin"
    → s.operator_decision ≡ none
    → p.relogin_account calls s.account_id none ≡ some first
    → first.requires_2fa ≡ true
    → p.relogin_account (calls ++ (relogin none ∷ [])) s.account_id none ≡ some second
    → second.requires_2fa ≡ true
    → (s' : State) × (attempt_recovery_node p none s calls
        ≡ interrupted (calls ++ (relogin none ∷ [])))
      × (attempt_recovery_node p (some d) s (calls ++ (relogin none ∷ []))
          ≡ returned s' ((calls ++ (relogin none ∷ [])) ++ (relogin none ∷ [])))
      × (s'.operator_payload ≡ some d)
unfolding attempt_recovery_node attempt_relogin decided
login_repeats p s calls d first second path asked e1 r1 e2 r2 =
    let after = decided "2fa_decision" aborted_2fa d s in
    (
      if str_eq d.decision "abort" then after else record after { requires_2fa = true },
      ground (arith, path, asked, e1, r1),
      ground (arith, path, asked, e2, r2),
      ground arith,
    )
