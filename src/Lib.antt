-- ===== src/Lib.antt =====
-- The ae_cwap workflow platform: the contracts of packages/cwap_contracts, the guarded writes,
-- authorisation, queues and log bus of packages/cwap_common, the planner and worker of
-- services/orchestrator, and the memory, skills and agents of services/memory, services/skills and
-- services/agents.
--
-- A user draws a workflow graph. The contract's validators decide which graphs may run. A run keeps
-- a snapshot of its graph; the producer wrapper validates and authorises one job for each step and
-- puts it on the work queue; a worker takes a job through the consumer wrapper, executes its node,
-- commits the output, plans the next steps from the graph and the committed outputs, and publishes
-- their jobs. Joins wait until every path into them has finished or is closed by a decision, and a
-- claim in the ledger lets one worker dispatch them. An agent runs a loop in which a model decides
-- and skills act; it reads the memory of its scope before and writes what it learned after.
--
-- - Prelude: lists, options, results, dicts and texts that all files share. Value: JSON values.
-- - Contracts/Graph (v4/graph.py, with v2 and v1): `WorkflowGraph` and its lookups. Kahn is
--   `_reject_cycles`, with the degrees as a dict in insertion order and the loop on fuel, one unit
--   for each node. Validation is `_type_specific_requirements`, `_validate_structure` and
--   `_validate_branches`; Structure is about walks in accepted graphs.
-- - Contracts/Job (v2/job.py, v1/identity.py): states, services, legal transitions, the job and its
--   validators.
-- - Common/Tables, Common/Ledger (idempotency.py, models.py): a table is the list of its rows, an
--   SQL statement the function that the source writes it for; `commit_step_output`,
--   `claim_dispatch`, `append_log` and the gate's `pre_check`, `commit` and `abandon`. Gate and Calls
--   take `pre_check` as one step, Statements as an INSERT, a read and an UPDATE.
-- - Common/Authz (authz.py): `_scopes_for` and `authorize`; Allowed says which jobs are allowed.
--   `str.upper` is a parameter.
-- - Common/Gateway (contract_gateway.py, broker.py): the in-memory queues, `publish`, `accept`,
--   `next`, `park`. The JSON of a contract is the parameter `Codec`; what a theorem needs of it is
--   a hypothesis, that it reads back the job it wrote.
-- - Orchestrator/Variables (variables.py): `RunContext`, `resolve`, `resolve_bindings`.
-- - Orchestrator/Branch (executors.py): `COMPARATORS` and `evaluate_branch`. Floating-point numbers
--   and text conversions are the parameter `Python`.
-- - Orchestrator/StateMachine (state_machine.py): `initial_step`, `plan_next`, `_follow` with its 16
--   decisions as a counter, `build_payload`. `uuid4` is the parameter `fresh` with a counter.
-- - Orchestrator/Joins (runner.py): `_is_closed`, `_join_ready`, `_work_remains`, `_run_state` and
--   `_joined_bindings`. `_is_closed` has fuel for one more call than the graph has nodes: along an
--   inbound edge of an accepted graph the level goes down, and levels are at most the nodes.
-- - Orchestrator/Runner (runner.py): `Worker._process`, `_dispatch_next`, `_dispatch`, `_succeed`,
--   `_fail`, `poll` and `drain` as functions on one state, the tables, the queues and the events.
--   What is raised past the worker is a value beside the state that was reached. The executors are
--   the parameter `execute`.
-- - Orchestrator/Review (review.py): the loop of critique and revision. The agents are parameters.
-- - Orchestrator/Egress (executors.py): `execute_http` and `_assert_host_allowed` on the ledger and
--   the list of requests sent; URLs, templates and the client are the parameter `Web`.
-- - Common/Logbus (logbus.py): `LogBus` of one process on the shared table of lines: `emit`,
--   `transient`, `publish`, `deliver`, `subscribe`, `unsubscribe`, `history`, `forget`, `_scrub`. An
--   event that the contract refuses has used up its number; `strip` is a parameter.
--   Sequence and Numbering are about the numbers, Replay about `history`, Buffers about watchers.
-- - Memory (memory/service.py, v2/memory.py): the table of memories; `remember`, `recall`,
--   `reinforce`, `_prune_if_needed`, `list_memories`, `forget`, `forget_entry`; Recall is `recall`,
--   and `is_writable` is the contract of a write.
--   Floats, the embedder and text methods are the parameter `Outside`; that floats are a total order
--   and that adding a constant does not lower them are hypotheses of the theorems that need them.
-- - Skills (v3/skills.py, skills/registry.py, skills/execution.py): definitions, lookups and counts;
--   Execution and Calling are `execute` and what it dispatches to, with composites on a depth that
--   goes down with each nested call and stands for Python's recursion limit; the model, corpora and
--   tool servers are the parameter `Outer`.
-- - ToolServers (mcp_connect/policy.py): which commands and hosts a tool server may be connected by;
--   the operating system is the parameter `Machine`.
-- - Agents (agents/runtime.py, v2/agents.py, v4/agents.py): `run_agent`, with the iterations left as
--   the number that goes down, `_invoke`, `_final_answer`, and the contracts' checks of calls, results
--   and turns; what the model or a skill raises and nothing catches is an error of the run. Learning
--   is `_recall` and `_reflect` on the table of Memory. The model and the execution of a skill are the
--   parameter `World`.
--
-- Each handler is one step, and so is each operation of the ledger's gate, except in
-- Common/Ledger/Statements, where the statements of checks, `commit` and `abandon` of several workers
-- come in between each other. Not modelled are times, durations, streaming and the daemon loop; what
-- models and tool servers do; the executors of inputs, outputs, retrieval and models; and workflow
-- design, knowledge, the API gateway and the Redis transport, which are mostly input/output.
pub mod Prelude
pub mod Common
pub mod Contracts
pub mod Memory
pub mod Skills
pub mod ToolServers
pub mod Agents
pub mod Orchestrator
pub mod Tests
pub mod Value
