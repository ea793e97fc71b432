-- ===== src/Coordinator/State.antt =====
-- runtime/workflow_coordinator.py, the class `WorkflowCoordinator` and how it calls its parts. The
-- executor and the coordinator have one state machine, which is in the executor, and one bus, which is
-- the executor's list of events.
use Prim.Native.String
use agent_manager.Prelude.Dict.{Dict}
use agent_manager.Prelude.{ℕ, String, Bool, Result, ok, err, Exec, Option, List}
use agent_manager.StateManager.Transitions.{TaskState, pending}
use agent_manager.StateManager.Machine.{Repository, get_state, initialize, transition}
use agent_manager.Dag.Engine.{
  DagEngine, DagError, node_exists, node_not_found, nodes_not_found, creates_cycle, contains_cycle,
  missing_key, no_fuel,
}
use agent_manager.SchedulerEngine.Engine.{
  Scheduler, SchedulerError, already_scheduled, task_not_found,
}
use agent_manager.Runtime.Errors.{PyError, value_error, from_machine}
use agent_manager.Runtime.Context.{Fields}
use agent_manager.Runtime.Executor.{Executor, WorkerSandbox}
use agent_manager.Recovery.Steps.{Event, Attempt}

-- A record that the memory backend was asked to keep.
pub record MemoryRecord : Type 0 where
  pub namespace : String
  pub key : String
  pub value : Fields

-- `recovery` is the history of the recovery engine, if there is one; `executed` counts the tasks
-- that were executed, and is the model's own.
pub record Coordinator (R M G : Type 0) : Type 0 where
  pub dag : DagEngine G
  pub scheduler : Scheduler
  pub executor : Executor R M
  pub recovery : Option (Dict (List Attempt))
  pub memory : Option (List MemoryRecord)
  pub allow_defect_repair : Bool
  pub executed : ℕ

-- What an execution of a task meets: the sandbox and the times of the run and of a run in the
-- recovery, the bus's answer to the recovery, and the time of the other steps.
pub record World : Type 0 where
  pub sandbox : WorkerSandbox
  pub clock : ℕ → ℕ
  pub recovery_sandbox : WorkerSandbox
  pub recovery_clock : ℕ → ℕ
  pub events : Result PyError (List Event)
  pub now : ℕ

-- The `ValueError`s of engine/scheduler.py.
unfoldable pub scheduler_raised : SchedulerError → PyError
scheduler_raised (already_scheduled task_id) =
    value_error (String.◌++◌ "Task " (String.◌++◌ task_id " already scheduled"))
scheduler_raised (task_not_found task_id) =
    value_error (String.◌++◌ "Task " (String.◌++◌ task_id " not found"))

-- The errors of engine/dag.py that the coordinator can meet; the message of a `KeyError` is its key.
unfoldable pub dag_raised : DagError → PyError
dag_raised (node_exists node_id) =
    value_error (String.◌++◌ "Node " (String.◌++◌ node_id " already exists"))
dag_raised (node_not_found node_id) =
    value_error (String.◌++◌ "Node " (String.◌++◌ node_id " not found"))
dag_raised nodes_not_found = value_error "One or both nodes not found"
dag_raised (creates_cycle a b path) = value_error "cycle"
dag_raised contains_cycle = value_error "Cannot sort: DAG contains cycle"
dag_raised missing_key = record { type_name = "KeyError"; message = "" }
dag_raised no_fuel = value_error "no fuel"

module _ {R M G : Type 0} where
  -- A call of the scheduler, and one of the DAG engine.
  unfoldable pub scheduler_after :
      Coordinator R M G
      → Result SchedulerError Scheduler
      → Result PyError (Unit {0}) × Coordinator R M G
  scheduler_after c (ok s) = (ok tt, record c { scheduler = s })
  scheduler_after c (err e) = (err (scheduler_raised e), c)

  unfoldable pub in_scheduler :
      (Scheduler → Result SchedulerError Scheduler) → Exec (Coordinator R M G) PyError (Unit {0})
  in_scheduler f c = scheduler_after c (f c.scheduler)

  unfoldable pub dag_after :
      Coordinator R M G
      → Result DagError (DagEngine G)
      → Result PyError (Unit {0}) × Coordinator R M G
  dag_after c (ok d) = (ok tt, record c { dag = d })
  dag_after c (err e) = (err (dag_raised e), c)

  unfoldable pub in_dag :
      (DagEngine G → Result DagError (DagEngine G)) → Exec (Coordinator R M G) PyError (Unit {0})
  in_dag f c = dag_after c (f c.dag)

module _ {R M G : Type 0} (ops : Repository R) where
  -- Calls of the state machine.
  unfoldable pub current_state : String → Coordinator R M G → Option TaskState × Coordinator R M G
  current_state task_id c =
      let (s, m) = get_state ops task_id c.executor.state_machine in
      (s, record c { executor = record c.executor { state_machine = m } })

  unfoldable pub begin_state : String → Exec (Coordinator R M G) PyError (Unit {0})
  begin_state task_id c =
      let (a, m) = initialize ops task_id pending c.executor.state_machine in
      (from_machine a, record c { executor = record c.executor { state_machine = m } })

  unfoldable pub shift_state :
      String → TaskState → String → (now : ℕ) → Exec (Coordinator R M G) PyError (Unit {0})
  shift_state task_id new reason now c =
      let (a, m) = transition ops task_id new reason now c.executor.state_machine in
      (from_machine a, record c { executor = record c.executor { state_machine = m } })
