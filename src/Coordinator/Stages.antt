-- ===== src/Coordinator/Stages.antt =====
-- runtime/workflow_coordinator.py, the steps of a round of a workflow: the tasks are registered, made
-- ready, and marked as failed where the scheduler gave up. `priority_of` is the integer that `int` makes
-- of the priority in the metadata of a node.
use agent_manager.Prelude.Actions.{◌>>◌, pure}
use agent_manager.Prelude.Dict
use agent_manager.Prelude.Dict.{Dict}
use agent_manager.Prelude.Int.{ℤ}
use agent_manager.Prelude.{
  ℕ, String, Bool, true, ◌&&◌, ◌||◌, Result, ok, err, Exec, Option, none, some, List, [], ◌∷◌,
  if◌then◌else◌,
}
use agent_manager.StateManager.Transitions.{TaskState, pending, ready}
use agent_manager.StateManager.Machine.{Repository}
use agent_manager.Dag.Digraph.{Digraph}
use agent_manager.Dag.Engine
use agent_manager.Dag.Engine.{
  DagEngine, DagNode, TaskStatus, missing_key, get_ready_nodes, get_node, same_status,
}
use agent_manager.SchedulerEngine.Engine.{
  ScheduledTask, Status, is_pending, is_completed, is_failed, add_task,
}
use agent_manager.Runtime.Errors.{PyError}
use agent_manager.Runtime.Context.{Fields}
use agent_manager.Runtime.Executor.{CheckpointManager}
use agent_manager.Recovery.Repairs.{Pipeline}
use agent_manager.Coordinator.State.{
  Coordinator, dag_raised, in_scheduler, current_state, begin_state, shift_state,
}
use agent_manager.Coordinator.Tasks.{set_failed_state, set_node}

-- The tasks whose status passes a test, in the order of the dictionary.
unfoldable pub with_status : (Status → Bool) → Dict ScheduledTask → List String
with_status test [] = []
with_status test ((k, t) ∷ tasks) =
    let rest = with_status test tasks in if test t.status then k ∷ rest else rest

unfoldable pub all_terminal : Dict ScheduledTask → Bool
all_terminal [] = true
all_terminal ((k, t) ∷ tasks) = (is_completed t.status || is_failed t.status) && all_terminal tasks

-- The body of the loop in `_clear_backoff_for_ready_tasks`.
unfoldable pub clear_backoff : List String → Dict ScheduledTask → Dict ScheduledTask
clear_backoff [] tasks = tasks
clear_backoff (id ∷ ids) tasks = clear_backoff ids (elim (Dict.get tasks id) [
  | none ↦ tasks
  | some t ↦
      if is_pending t.status
      then Dict.put tasks id (record t { next_retry_at = none; retry_attempts = 0 })
      else tasks
])

-- A status that the DAG is not to change for a failure.
unfoldable pub closed : TaskStatus → Bool
closed s = same_status s Engine.completed || same_status s Engine.failed

module _ {R M G : Type 0} where
  -- A loop over a list.
  unfoldable pub for_each :
      {A : Type 0}
      → List A
      → (A → Exec (Coordinator R M G) PyError (Unit {0}))
      → Exec (Coordinator R M G) PyError (Unit {0})
  for_each [] f = pure tt
  for_each (x ∷ xs) f = do f x; for_each xs f

module _ {R M G : Type 0} (ops : Repository R) (graph : Digraph G) (manager : CheckpointManager M)
    (pipeline : Option (Pipeline R M)) (metadata : String → Fields) (priority_of : Fields → ℤ) where
  -- `if self.state_machine.get_state(id) is None: initialize(id, PENDING)`
  unfoldable pub begun_from :
      String → Option TaskState × Coordinator R M G → Result PyError (Unit {0}) × Coordinator R M G
  begun_from task_id (none, c) = begin_state ops task_id c
  begun_from task_id (some s, c) = (ok tt, c)

  unfoldable pub register_missing_task :
      String × DagNode → Exec (Coordinator R M G) PyError (Unit {0})
  register_missing_task (node_id, node) = do
    (λ c.
        if Dict.contains c.scheduler.tasks node_id
        then (ok tt, c)
        else in_scheduler (add_task node_id (priority_of (metadata node_id)) node.dependencies 3) c)
    (λ c. begun_from node_id (current_state ops node_id c))

  unfoldable pub register_missing_tasks : Exec (Coordinator R M G) PyError (Unit {0})
  register_missing_tasks c = for_each c.dag.nodes register_missing_task c

  -- `_mark_ready` of one task, by its state
  unfoldable pub mark_ready_if :
      String
      → (now : ℕ) → Option TaskState × Coordinator R M G
      → Result PyError (Unit {0}) × Coordinator R M G
  mark_ready_if task_id now (none, c) =
      (begin_state ops task_id >> shift_state ops task_id ready "Dependencies satisfied" now) c
  mark_ready_if task_id now (some pending, c) =
      shift_state ops task_id ready "Dependencies satisfied" now c
  mark_ready_if task_id now (some s, c) = (ok tt, c)

  unfoldable pub mark_ready : (now : ℕ) → List String → Exec (Coordinator R M G) PyError (Unit {0})
  mark_ready now ids =
      for_each ids (λ task_id c. mark_ready_if task_id now (current_state ops task_id c))

  -- `_sync_scheduler_failures` for one task
  unfoldable pub sync_node : String → Exec (Coordinator R M G) PyError (Unit {0})
  sync_node task_id c = elim (Dict.get c.dag.nodes task_id) [
    | none ↦ (ok tt, c)
    | some node ↦
        if closed node.status
        then (ok tt, c)
        else set_node ops graph manager pipeline metadata task_id Engine.failed c
  ]

  unfoldable pub sync_scheduler_failures : (now : ℕ) → Exec (Coordinator R M G) PyError (Unit {0})
  sync_scheduler_failures now c =
      for_each (with_status is_failed c.scheduler.tasks)
        (λ task_id. do
          sync_node task_id
          set_failed_state ops graph manager pipeline metadata task_id
              "Scheduler marked task as failed" now)
        c

  unfoldable pub find_ready : Exec (Coordinator R M G) PyError (List String)
  find_ready c = elim (get_ready_nodes graph c.dag) [
    | none ↦ (err (dag_raised missing_key), c)
    | some ids ↦ (ok ids, c)
  ]
