-- ===== src/Copilot/Execute/Laws.antt =====
-- Which calls reach the tool registry when the execute node runs its loop.
use insta.Prelude.{
  String, ◌≡◌, ◌∙◌, refl, Bool, true, not, Option, none, some, List, [], ◌∷◌, all, all-append,
  arith,
}
use insta.Prelude.Dict.{Dict}
use insta.Copilot.Values.{Value, ToolCall}
use insta.Copilot.Policy.{is_blocked, classify}
use insta.Copilot.State.{World, Ports}
use insta.Copilot.Execute.{
  parse_arguments, execute_tool, settle, perform, execute_call, execute_calls,
}

abbrev pub allowed : String → Bool
allowed name = not (is_blocked (classify name).policy)

abbrev pub all_executed : (String → Bool) → World → Bool
all_executed q w = all (λ e. q e.0) w.executed

settle-executed :
    (call : ToolCall) (o : Option Value) (w : World) → (settle call (o, w)).1.executed ≡ w.executed
unfolding settle
settle-executed call none w = refl
settle-executed call (some v) w = ground arith

settle-interrupts :
    (call : ToolCall) (o : Option Value) (w : World)
    → (settle call (o, w)).1.interrupts ≡ w.interrupts
unfolding settle
settle-interrupts call none w = refl
settle-interrupts call (some v) w = ground arith

module _ (p : Ports) where
  execute_tool-interrupts :
      (name : String) (args : Value) (w : World)
      → (execute_tool p name args w).1.interrupts ≡ w.interrupts
  unfolding execute_tool
  execute_tool-interrupts name args w = ground arith

  perform-interrupts :
      (call : ToolCall) (o : Option Value) (w : World)
      → (perform p call o w).1.interrupts ≡ w.interrupts
  unfolding perform
  perform-interrupts call none w = refl
  perform-interrupts call (some args) w =
      settle-interrupts call (execute_tool p call.name args w).0 (execute_tool p call.name args w).1
      ∙ execute_tool-interrupts call.name args w

  execute_tool-allowed :
      (name : String) (args : Value) (w : World)
      → all_executed allowed w ≡ true
      → all_executed allowed (execute_tool p name args w).1 ≡ true
  unfolding execute_tool
  execute_tool-allowed name args w h =
      ground (arith, all-append (λ e. allowed e.0) w.executed ((name, args) ∷ []))

  execute_tool-keeps :
      (q : String → Bool) (name : String) (args : Value) (w : World)
      → q name ≡ true
      → all_executed q w ≡ true
      → all_executed q (execute_tool p name args w).1 ≡ true
  unfolding execute_tool
  execute_tool-keeps q name args w k h =
      ground (arith, all-append (λ e. q e.0) w.executed ((name, args) ∷ []))

  perform-executed :
      (call : ToolCall) (args : Value) (w : World)
      → (perform p call (some args) w).1.executed ≡ (execute_tool p call.name args w).1.executed
  unfolding perform
  perform-executed call args w =
      settle-executed call (execute_tool p call.name args w).0 (execute_tool p call.name args w).1

  perform-allowed :
      (call : ToolCall) (o : Option Value) (w : World)
      → all_executed allowed w ≡ true
      → all_executed allowed (perform p call o w).1 ≡ true
  perform-allowed call none w h = unfold perform in h
  perform-allowed call (some args) w h =
      rw (perform-executed call args w) (execute_tool-allowed call.name args w h)

  perform-keeps :
      (q : String → Bool) (call : ToolCall) (o : Option Value) (w : World)
      → q call.name ≡ true
      → all_executed q w ≡ true
      → all_executed q (perform p call o w).1 ≡ true
  perform-keeps q call none w k h = unfold perform in h
  perform-keeps q call (some args) w k h =
      rw (perform-executed call args w) (execute_tool-keeps q call.name args w k h)

  -- The second guard: where no blocked tool had reached the registry before, none does, whatever calls
  -- the loop is given.
  pub execute_calls-allowed :
      (calls : List ToolCall) (results : Dict Value) (w : World)
      → all_executed allowed w ≡ true
      → all_executed allowed (execute_calls p calls results w).1 ≡ true
  unfolding execute_calls
  execute_calls-allowed [] results w h = h
  execute_calls-allowed (call ∷ rest) results w h =
      execute_calls-allowed rest _ (execute_call p call w).1
        (unfold execute_call in perform-allowed call (parse_arguments p call.arguments) w h)

  -- What holds of the name of every given call holds of every call that reaches the registry.
  pub execute_calls-keeps :
      (q : String → Bool) (calls : List ToolCall) (results : Dict Value) (w : World)
      → all (λ c. q c.name) calls ≡ true
      → all_executed q w ≡ true
      → all_executed q (execute_calls p calls results w).1 ≡ true
  unfolding execute_calls
  execute_calls-keeps q [] results w k h = h
  execute_calls-keeps q (call ∷ rest) results w k h =
      execute_calls-keeps q rest _ (execute_call p call w).1 (ground arith) (
        unfold execute_call in
        perform-keeps q call (parse_arguments p call.arguments) w (ground arith) h)

  pub execute_calls-interrupts :
      (calls : List ToolCall) (results : Dict Value) (w : World)
      → (execute_calls p calls results w).1.interrupts ≡ w.interrupts
  unfolding execute_calls
  execute_calls-interrupts [] results w = refl
  execute_calls-interrupts (call ∷ rest) results w =
      execute_calls-interrupts rest _ (execute_call p call w).1
      ∙ unfold execute_call in perform-interrupts call (parse_arguments p call.arguments) w
