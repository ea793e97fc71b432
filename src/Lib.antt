-- ===== src/Lib.antt =====
-- agentManager: an orchestration control plane for AI agents.
--
-- A task of a workflow is a node of a DAG, has a state in the state machine, is started by a scheduler
-- when the tasks it depends on are completed, and holds resources while it runs. The parts keep their
-- own state and meet through task identifiers; each is modelled by itself, and the coordinator of a
-- workflow calls them as the code does.
--
-- Parts, files and code:
-- - StateManager: agentManager/engine/state_manager.py. `StateMachine` is the object, with the
-- repository in it; `initialize`, `transition`, `get_state`, `get_history`, `is_terminal` and
-- `is_failed` are its methods, each a function from the object to what the call returns or raises and
-- the object after it. The repository (agentManager/storage/postgres.py) is the interface
-- `Repository`, whose documented behaviour is `Durable.IsFaithful`. Its methods return: what the machine keeps when one
-- of them raises is not modelled.
-- - Dag: agentManager/engine/dag.py. `Search` is the closure of `_detect_cycle_path`, `Engine` the
-- class `DAGEngine`, `Links` its invariant. networkx's graph is the interface `Digraph`. The recursion of `dfs` is on fuel,
-- as much as there are nodes, which is enough because each nested call is for another node that is being
-- visited. The other loops run along a list that they do not extend.
-- - SchedulerEngine: agentManager/engine/scheduler.py. `Queue` is its heap, as the list of its entries
-- in the order in which they are popped; `Engine` has the class's methods. `clock` gives the times that
-- `utc_now` returns.
-- - Resources: scheduler/resource_manager.py (`Manager`) and
-- agentManager/scheduler/resource_allocator.py (`Allocator`). The amounts of the
-- model are whole numbers that floats add without rounding (below 2 ^ 53); fractions that floats round, and
-- the negative amounts that the first accepts, are outside of it.
-- - WorkerGuard: agentManager/sandbox/worker_guard.py. `Windows` has the repetition tests,
-- `Similarity` the comparison of texts by their words, `Guard` the class. A ratio is a quotient of
-- natural numbers.
-- - TaskQueue: agentManager/scheduler/priority_queue.py (`Queue`, the heap as the list of its entries
-- in order) and agentManager/scheduler/task_scheduler.py (`Scheduler`, and `Listing` for
-- `get_scheduled_tasks`), which holds the allocator of Resources. The executor is a parameter.
-- - EventBus: agentManager/engine/event_bus/in_memory.py. `Bus` is the class; a publication returns the
-- callbacks that it calls, in order.
-- - TaskPlan: agentManager/domain/task_plan.py, the validations of a plan.
-- - Runtime: agentManager/runtime/task_executor.py, execution_context.py and `EventType` of
-- agentManager/domain/models.py. `Executor.run_task` is the method of that name with
-- `_run_task_impl`; the state machine of StateManager is in the object. The sandbox and the checkpoint
-- manager are the interfaces that the file declares. A bus is the list of what was published.
-- - Recovery: agentManager/recovery. `Failures` has recovery_context.py and error_classifier.py, `Steps`,
-- `Moves`, `Repairs` and `Engine` recovery_engine.py, over the executor of Runtime. The repair pipeline is a
-- parameter that can change the executor.
-- - Coordinator: agentManager/runtime/workflow_coordinator.py. `State` has the object, which holds the
-- DAG engine of Dag, the scheduler of SchedulerEngine and the executor of Runtime with its state
-- machine; `Tasks` executes one task, with Recovery after a failure, `Outcomes` says when its three
-- records agree, `Stages` has the steps of a round, `Workflow` the loop, on `max_iterations` as in
-- the code, and the resumption. `World` is what an execution of a task meets.
-- - DefectRepair: agentManager/defect_repair. `Pipeline` is the class of repair_pipeline.py, with the
-- classifier and the strategies as interfaces; `for_recovery` gives it the form that Recovery takes.
-- `Classifier` is classifier.py, and its `for_pipeline` fills the first interface; `Templates` (L2),
-- `Consensus` (L3) and `Strategies` (L1, L4 and the factory) are repair_strategies.py, and
-- `all_strategies` fills the second. The retries are counted down from MAX_RETRIES; the sandbox may
-- answer differently on each. The classes \w and \s of regular expressions are parameters,
-- and the expression of a registered pattern is a choice of literal texts or any search function.
-- - Checkpoints: agentManager/engine/checkpoint.py. The manager over an object store, which fills the
-- interface of Runtime, and the check of an archive. InMemoryCheckpointManager keeps the context object
-- itself, which later changes show in, and is left out: a context here is a value. The object store, json and the resolution of paths are
-- parameters.
-- - Agents: agentManager/agents/registry.py, `AgentRegistry` after its construction, with the fields of a
-- profile and of a template that it reads.
-- - Memory: agentManager/memory/memory_system.py. `Entries` has the layers, an entry and the operator
-- LIKE, `Store` and `Search` the methods; the table is a list of rows in the order of insertion, and
-- the vector backend an interface, whose exceptions are dropped as in the code. Tags and
-- metadata are values that JSON gives back as they were. `VectorIndex` is
-- the in-memory backend of memory/vector_backend.py, which fills it.
-- Prelude has what they share: Python's dictionaries and sets with string keys, integers, slices, and
-- the result of a call that can raise.
--
-- Not modelled: log lines, tracing spans and audit output, which return nothing; locks, since a
-- method of the scheduler runs under its lock from beginning to end; the metadata of a node, which the
-- methods only keep; the other packages of agentManager, among them the HTTP
-- interface, the Redis event bus and the storage.
pub mod Agents
pub mod Checkpoints
pub mod Coordinator
pub mod Dag
pub mod DefectRepair
pub mod EventBus
pub mod Memory
pub mod Prelude
pub mod Recovery
pub mod Resources
pub mod Runtime
pub mod SchedulerEngine
pub mod StateManager
pub mod TaskPlan
pub mod TaskQueue
pub mod WorkerGuard
