-- ===== src/Lib.antt =====
-- The core of the account console's back end (backend/): what may run on an Instagram account, when,
-- and with what outcome.
--
-- The operator copilot (backend/ai_copilot/) turns an operator's request into tool calls. A language
-- model classifies the request and plans calls; guards sanitize them; a policy table says which
-- tools are read-only, which need the operator's approval and which are blocked; the operator
-- approves, edits or rejects; an executor that asks the policy once more passes the calls to the
-- tool registry; the results are reviewed and summed up. A circuit breaker stands before the
-- language model. Post jobs (backend/app/application/use_cases/post_job.py) are created, retried and
-- listed by use cases and run by an upload engine with one worker for each account
-- (backend/instagram_runtime/post_job_executor.py), which shares a job store (backend/state.py) with
-- the readers and asks a breaker of its own. A guard keeps accounts that Instagram has limited out
-- of use for a while, and a sliding window limits the requests of each HTTP client. The smart
-- engagement workflow finds a target for a goal, drafts an action, assesses its risk, is interrupted
-- for the operator's decision and executes what is approved. The account recovery workflow logs an
-- account in again or swaps its proxy, in a loop with a limit of attempts; the risk control workflow
-- rates an account and cools it down, changes its proxy or asks the operator.
--
-- Files, and what they model:
--   Copilot/Policy      ai_copilot/application/operator_copilot_policy.py: `classify`, `filter_executable`
--                       and the other queries; Policy/Table holds the table, Policy/Parity the
--                       parity report
--   Copilot/Guards      .../graphs/operator_copilot/planning_guards.py: `sanitize_proposed_tool_calls`
--   Copilot/State       ai_copilot/application/state.py: the fields that nodes read or write; `World` is
--                       what a run leaves outside it, `Ports` what answers it
--   Copilot/Nodes       .../nodes_plan_policy.py and .../nodes_approval_execution.py: a function for each
--                       node, from the state and the world to both, or `none` where it raises
--   Copilot/Execute     the execute node, and ai_copilot/adapters/policy_aware_tool_executor.py
--   Copilot/Graph       .../routing.py and .../builder.py: `next_node` for the edges, `run` for a run
--   Breaker/Calls       ai_copilot/adapters/circuit_breaker.py: a call is `begin`, then `settle_guarded` or
--                       `settle_probe` when it ends, so that other calls come between
--   Breaker/Upload      instagram_runtime/circuit_breaker.py
--   RateGuard           app/adapters/instagram/rate_limit_guard.py
--   Jobs/Record         app/application/ports/persistence_models.py: `JobRecord`
--   Jobs/Store          state.py: `ThreadSafeJobStore`; Runtime has the runtime metadata, Laws the steps of
--                       stops, pauses and resumes (`Command`, `operate`)
--   Jobs/UseCases       app/application/use_cases/post_job.py; Listing has the two listings
--   Jobs/Executor       instagram_runtime/post_job_executor.py: `start`, `expire` and `finish` for `run`,
--                       Worker for `_upload_one`, one step for each operation on shared state;
--                       Together runs all workers in any order of their steps, Starts is about `start`
--   Jobs/Queue          app/adapters/scheduler/job_queue.py; Handle has the workers' `_handle`, which
--                       hands jobs to Jobs/Executor, also where the state cannot be read, Places follows
--                       jobs through queue and timers
--   RateWindow          app/adapters/http/rate_limit.py: `hit`, and `middleware` over it
--   Engagement/Goal     ai_copilot/application/smart_engagement/goal_parser.py
--   Engagement/State    .../smart_engagement/state.py, the ports of ports.py as a record, and the initial
--                       state of use_cases/run_smart_engagement.py
--   Engagement/Nodes    .../smart_engagement/nodes: a module for each file, a function for each node;
--                       Choice is about the target that a run acts on
--   Engagement/Graph    ai_copilot/application/graphs/smart_engagement.py: `next_node`, `run`, and `start`
--                       and `resume` for the use case's `run` and `resume`
--   Engagement/Adapters ai_copilot/adapters: risk_scoring_adapter.py, account_context_adapter.py,
--                       approval_adapter.py and engagement_executor_adapter.py
--   Recovery            ai_copilot/application/account_recovery and graphs/account_recovery.py: State, Nodes
--                       and Graph as above; ports may answer by the calls made before
--   RiskControl         ai_copilot/application/risk_control and graphs/risk_control.py: State,
--                       Nodes and Graph as above; Levels is about the rules of `evaluate_risk`
--   Prelude             dictionaries in insertion order, text as code points, lists, tests on numbers
--   Tests               runs at concrete inputs, and the theorems at inputs that meet their hypotheses
-- (`...` is backend/ai_copilot/application/graphs/operator_copilot, or .../application with a
-- folder of its own, the other paths are under backend/.)
--
-- State is passed explicitly; the clock is an argument, in ticks. A lock that covers a whole method
-- makes it one step; `request_stop` and `request_resume` are two, since they set the event after the
-- lock is released. `run` of the graph has fuel for ten nodes, the longest path (an approval that
-- is edited goes through the policy and the execute node once more); a rank that falls at every edge
-- proves it enough. The engagement graph has no cycle: fuel 11 from its first node and 4 from the
-- approval, by a rank too. A run that is interrupted there keeps the state from before the node, and
-- the graph library runs the node again from its start when it is resumed, with the decision as the
-- value of the interrupt. The recovery loops: four nodes for each attempt that is left and six more
-- are enough from the start, and twice that for a resumed run. A run whose attempt raised is resumed with
-- that attempt, as the graph library does; so is an engagement run whose approval node raised. The risk graph has no cycle and a
-- path of seven nodes. Every loop of the other parts is over a list.
--
-- Language model, operator, tool registry, JSON, repositories, the Instagram client and
-- `datetime.fromisoformat` are parameters that answer as they like. Texts are the code points that
-- Python sees where they are searched or cut, else strings. Job and row statuses are compared as
-- they are: the code that lower-cases them first only ever writes lower case. Prompts, messages,
-- logging, pushes to listeners, HTTP routers, persistence and the adapters of the Instagram areas
-- are not modelled, nor are the other workflows of ai_copilot and account authentication. Of the
-- smart engagement workflow the checkpoints, the streaming and the responses are not modelled, and
-- its floating-point scores are a port that gives their order.
pub mod Prelude
pub mod Copilot
pub mod Breaker
pub mod RateGuard
pub mod RateWindow
pub mod Jobs
pub mod Engagement
pub mod Recovery
pub mod RiskControl
pub mod Tests
