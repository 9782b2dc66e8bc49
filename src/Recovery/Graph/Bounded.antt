-- ===== src/Recovery/Graph/Bounded.antt =====
-- What holds when a node of the recovery graph is entered, and where each node leads.
use insta.Prelude.{
  ℕ, suc, ◌+◌, ◌-◌, ◌*◌, ◌≤◌, ◌<◌, String, str_eq, Bool, true, false, not, ◌&&◌, Option, none, some,
  List, [], ◌∷◌, ◌++◌, ◌≡◌, refl, sym, subst, Bool-cases, inl, inr, arith, if◌then◌else◌,
}
use insta.Recovery.State.{
  Payload, ErrorState, LoginResult, Reason, aborted, State, Call, relogin, swap, raised_swap, Ports,
}
use insta.Recovery.Nodes.{
  ask_code, event, Pass, returned, interrupted, raised, is_text, given, detected, detect_issue_node,
  classified, classify_issue_node, chosen, choose_recovery_path_node, decided, proxy_for, ask_swap,
  swap_with, swapped, attempt_swap, code_of, relogged, attempt_relogin, attempt_recovery_node,
  checked, verify_account_health_node,
}
use insta.Recovery.Graph.{
  Node, detect_issue, classify_issue, choose_recovery_path, attempt_recovery, verify_account_health,
  finish_unrecoverable, finish, done, route_after_detect, route_after_classify, route_after_choose,
  route_after_attempt, route_after_health, next_node,
}

-- The swaps that returned.
abbrev pub swaps : List Call → ℕ
swaps [] = 0
swaps (swap proxy ∷ rest) = suc (swaps rest)
swaps (raised_swap proxy ∷ rest) = swaps rest
swaps (relogin code ∷ rest) = swaps rest

-- How often the operator approved a swap.
abbrev pub approval : Option Payload → ℕ
approval none = 0
approval (some d) = if str_eq d.decision "approve_proxy_swap" then 1 else 0

abbrev pub approvals : List Payload → ℕ
approvals [] = 0
approvals (d ∷ rest) = approval (some d) + approvals rest

-- An approval that was not acted on yet.
abbrev pub pending : State → ℕ
pending s = if is_text "approve_proxy_swap" s.operator_decision then 1 else 0

abbrev pub Room : Node → State → ℕ → Type 0
Room attempt_recovery s m = s.recovery_attempts < m
Room n s m = Unit

abbrev pub Inv : ℕ → ℕ → Node → State → List Call → Type 0
Inv a m n s calls =
    (s.max_recovery_attempts ≡ m)
    × (s.recovery_attempts ≤ m)
    × (swaps calls + pending s ≤ a)
    × Room n s m

-- The nodes left to run before the operator is asked.
abbrev pub rank : ℕ → Node → State → ℕ
rank m detect_issue s = 4 * m + 5
rank m classify_issue s = 4 * (m - s.recovery_attempts) + 4
rank m verify_account_health s = 4 * (m - s.recovery_attempts) + 3
rank m choose_recovery_path s = 4 * (m - s.recovery_attempts) + 2
rank m attempt_recovery s =
    4 * (m - s.recovery_attempts) + (if is_text "swap_proxy" s.recovery_path then 1 else 0)
rank m finish_unrecoverable s = 2
rank m finish s = 1
rank m done s = 0

-- Where a pass of a node leads: on, below a rank; or to the operator or a failure, before an attempt.
abbrev pub Leads : ℕ → ℕ → ℕ → Node → State → Pass → Type 0
Leads a m r n before (returned s calls) =
    Inv a m (next_node n s) s calls × (rank m (next_node n s) s < r)
Leads a m r n before (interrupted calls) = Inv a m attempt_recovery before calls
Leads a m r n before (raised calls) = Inv a m attempt_recovery before calls

swaps-append :
    (calls : List Call) (c : Call) → swaps (calls ++ (c ∷ [])) ≡ swaps calls + swaps (c ∷ [])
swaps-append [] (swap proxy) = omega arith
swaps-append [] (raised_swap proxy) = omega arith
swaps-append [] (relogin code) = omega arith
swaps-append (swap proxy ∷ rest) c = omega (arith, swaps-append rest c)
swaps-append (raised_swap proxy ∷ rest) c = swaps-append rest c
swaps-append (relogin code ∷ rest) c = swaps-append rest c

module _ (a m : ℕ) (p : Ports) (s : State) (calls : List Call) where
  pub detect-Leads :
      Inv a m detect_issue s calls
      → Leads a m (rank m detect_issue s) detect_issue s (detect_issue_node p s calls)
  unfolding detect_issue_node detected next_node route_after_detect
  detect-Leads h = go (p.read_error_state calls s.account_id)
    where
      go :
          (o : Option ErrorState)
          → Leads a m (rank m detect_issue s) detect_issue s (returned (detected o s) calls)
      go none = ground arith
      go (some e) = ground arith

  pub classify-Leads :
      Inv a m classify_issue s calls
      → Leads a m (rank m classify_issue s) classify_issue s (classify_issue_node p s calls)
  unfolding classify_issue_node classified next_node route_after_classify
  classify-Leads h = ground arith

  pub choose-Leads :
      Inv a m choose_recovery_path s calls
      → Leads a m
          (rank m choose_recovery_path s)
          choose_recovery_path
          s
          (choose_recovery_path_node s calls)
  unfolding choose_recovery_path_node chosen next_node route_after_choose
  choose-Leads h = ground arith

  pub verify-Leads :
      Inv a m verify_account_health s calls
      → Leads a m
          (rank m verify_account_health s)
          verify_account_health
          s
          (verify_account_health_node p s calls)
  unfolding verify_account_health_node checked next_node route_after_health
  verify-Leads h = ground arith

abbrev pub bonus : ℕ → Option Payload → ℕ
bonus m none = 0
bonus m (some d) = 4 * m + 4

module _ (a m : ℕ) (p : Ports) (d : Option Payload) (s : State) (calls : List Call) where
  abbrev pub AttemptLeads : Pass → Type 0
  AttemptLeads = Leads (a + approval d) m (rank m attempt_recovery s + bonus m d) attempt_recovery s

  swapped-Leads :
      (o : Option Bool) (proxy : String)
      → Inv a m attempt_recovery s calls
      → is_text "approve_proxy_swap" s.operator_decision ≡ true
      → AttemptLeads (swapped o proxy s calls)
  unfolding next_node route_after_attempt
  swapped-Leads none proxy h e = ground (arith, swaps-append calls (raised_swap proxy), e)
  swapped-Leads (some success) proxy h e = ground (arith, swaps-append calls (swap proxy), e)

  fallback-Leads :
      Inv a m attempt_recovery s calls
      → is_text "swap_proxy" s.recovery_path ≡ true
      → is_text "approve_proxy_swap" s.operator_decision ≡ true
      → AttemptLeads
          (returned (event "no_proxy" (record s { recovery_path = some "relogin" })) calls)
  unfolding next_node route_after_attempt
  fallback-Leads h path e = ground (arith, path, e)

  swap_with-Leads :
      (o : Option (Option String))
      → Inv a m attempt_recovery s calls
      → is_text "swap_proxy" s.recovery_path ≡ true
      → is_text "approve_proxy_swap" s.operator_decision ≡ true
      → AttemptLeads (swap_with p o s calls)
  unfolding swap_with
  swap_with-Leads none h path e = ground arith
  swap_with-Leads (some none) h path e = fallback-Leads h path e
  swap_with-Leads (some (some proxy)) h path e = elim (Bool-cases (str_eq proxy "")) [
    | inl b ↦ ground (arith, b, fallback-Leads h path e)
    | inr b ↦ rw b (swapped-Leads (p.swap_proxy calls s.account_id proxy) proxy h e)
  ]

decided-Leads :
    (a m : ℕ) (event_type : String) (reason : Reason) (d : Payload) (s : State) (calls : List Call)
    → Inv a m attempt_recovery s calls
    → Leads
        (a + approval (some d))
        m
        (rank m attempt_recovery s + (4 * m + 4))
        attempt_recovery
        s
        (returned (decided event_type reason d s) calls)
unfolding decided next_node route_after_attempt
decided-Leads a m event_type reason d s calls h = ground arith

module _ (a m : ℕ) (p : Ports) (d : Option Payload) (s : State) (calls : List Call) where
  ask_swap-Leads :
      (d : Option Payload) (o : Option (Option String))
      → Inv a m attempt_recovery s calls
      → AttemptLeads a m p d s calls (ask_swap d o s calls)
  ask_swap-Leads none none h = ground arith
  ask_swap-Leads (some d) none h = ground arith
  ask_swap-Leads none (some candidate) h = ground arith
  ask_swap-Leads (some d) (some candidate) h =
      decided-Leads a m "approval_received" aborted d s calls h

  attempt_swap-Leads :
      Inv a m attempt_recovery s calls
      → is_text "swap_proxy" s.recovery_path ≡ true
      → AttemptLeads a m p d s calls (attempt_swap p d s calls)
  unfolding attempt_swap
  attempt_swap-Leads h path = elim (Bool-cases (is_text "approve_proxy_swap" s.operator_decision)) [
    | inl e ↦ rw e (swap_with-Leads a m p d s calls (proxy_for p s calls) h path e)
    | inr e ↦ rw e (ask_swap-Leads d (p.get_available_proxy calls s.account_id) h)
  ]

  ask_code-Leads :
      (d : Option Payload)
      → Inv a m attempt_recovery s calls
      → AttemptLeads a m p d s calls (ask_code d s calls)
  unfolding decided next_node route_after_attempt
  ask_code-Leads none h = ground arith
  ask_code-Leads (some d) h = ground arith

  relogged-Leads :
      (o : Option LoginResult)
      → Inv a m attempt_recovery s calls
      → AttemptLeads a m p d s calls (relogged d o s calls)
  unfolding next_node route_after_attempt
  relogged-Leads none h = ground arith
  relogged-Leads (some r) h = elim (Bool-cases (r.requires_2fa && not (given (code_of s)))) [
    | inl e ↦ rw e (ask_code-Leads d h)
    | inr e ↦ rw e (ground arith)
  ]

relogin-Inv :
    (a m : ℕ) (n : Node) (s : State) (calls : List Call) (code : Option String)
    → Inv a m n s calls
    → Inv a m n s (calls ++ (relogin code ∷ []))
relogin-Inv a m n s calls code (same_limit, fits, counted, room) =
    (same_limit, fits, omega (arith, swaps-append calls (relogin code), counted), room)

attempt_lem :
    (p : Ports) (d : Option Payload) (s : State) (calls : List Call)
    → attempt_recovery_node p d s calls ≡ (
        if is_text "swap_proxy" s.recovery_path
        then attempt_swap p d s calls
        else attempt_relogin p d s calls)
unfolding attempt_recovery_node
attempt_lem p d s calls = refl

attempt_relogin-Leads :
    (a m : ℕ) (p : Ports) (d : Option Payload) (s : State) (calls : List Call)
    → Inv a m attempt_recovery s calls
    → AttemptLeads a m p d s calls (attempt_relogin p d s calls)
unfolding attempt_relogin
attempt_relogin-Leads a m p d s calls h =
    let code = code_of s in
    relogged-Leads a m p d s (calls ++ (relogin code ∷ []))
      (p.relogin_account calls s.account_id code) (relogin-Inv a m attempt_recovery s calls code h)

pub attempt-Leads :
    (a m : ℕ) (p : Ports) (d : Option Payload) (s : State) (calls : List Call)
    → Inv a m attempt_recovery s calls
    → AttemptLeads a m p d s calls (attempt_recovery_node p d s calls)
attempt-Leads a m p d s calls h =
    subst (AttemptLeads a m p d s calls) (sym (attempt_lem p d s calls))
      (go (is_text "swap_proxy" s.recovery_path) refl)
  where
    go :
        (b : Bool)
        → is_text "swap_proxy" s.recovery_path ≡ b
        → AttemptLeads a m p d s calls
            (if b then attempt_swap p d s calls else attempt_relogin p d s calls)
    go true e = attempt_swap-Leads a m p d s calls h e
    go false e = attempt_relogin-Leads a m p d s calls h
