-- ===== src/Coordinator/Endings.antt =====
-- runtime/workflow_coordinator.py: the ends of an execution of a task, and what they do to its status in
-- the scheduler, its status in the DAG and its state.
use agent_manager.Prelude.Actions.{bind-ok, ◌>>◌}
use agent_manager.Prelude.Dict
use agent_manager.Prelude.Dict.{Dict, get-put}
use agent_manager.Prelude.StrSet.{add, discard}
use agent_manager.Prelude.{
  ℕ, String, ◌≡◌, refl, ◌∙◌, ap, true, Result, ok, Option, none, some, eq_refl,
}
use agent_manager.StateManager.Transitions.{
  TaskState, permitted, pending, ready, implementing, verifying, completed, failed, blocked_repair,
  blocked_hitl,
}
use agent_manager.StateManager.Machine.{Repository, StateMachine, get_state, initialize, transition}
use agent_manager.StateManager.Progress.{get_state-memory, initialize-new, transition-permitted}
use agent_manager.Dag.Digraph.{Digraph}
use agent_manager.Dag.Engine
use agent_manager.Dag.Engine.{DagNode, TaskStatus, update_node_status}
use agent_manager.SchedulerEngine.Engine.{
  Scheduler, ScheduledTask, pending as queued_status, completed as done_status,
  failed as lost_status, mark_completed, mark_failed,
}
use agent_manager.Runtime.Errors.{PyError, from_machine}
use agent_manager.Runtime.Context.{Fields}
use agent_manager.Runtime.Executor.{CheckpointManager}
use agent_manager.Recovery.Repairs.{Pipeline}
use agent_manager.Coordinator.State.{
  Coordinator, World, in_scheduler, scheduler_after, in_dag, dag_after, current_state, begin_state,
  shift_state,
}
use agent_manager.Coordinator.Tasks.{
  set_node, then_do, fail_from, set_failed_state, give_up, mark_scheduler_pending,
}
use agent_manager.Coordinator.Outcomes.{
  StateIs, IsSilent, ended_state, Agreement, agreed_completed, agreed_pending, agreed_failed,
}

module _ {R M G : Type 0} (ops : Repository R) (graph : Digraph G) (manager : CheckpointManager M)
    (pipeline : Option (Pipeline R M)) (metadata : String → Fields) (task_id : String) where
  -- An action that returns, for a coordinator that then has a property.
  abbrev pub Returns :
      (Coordinator R M G → Type 0) → Result PyError (Unit {0}) × Coordinator R M G → Type 0
  Returns P p = (c : Coordinator R M G) × (p ≡ (ok tt, c)) × P c

  module _ (c : Coordinator R M G) (t : ScheduledTask) (n : DagNode)
      (scheduled : Dict.get c.scheduler.tasks task_id ≡ some t)
      (there : Dict.get c.dag.nodes task_id ≡ some n) where
    -- The calls that change the two statuses, for a task and a node that are there.
    mark_completed-Returns :
        (s : Scheduler) × (in_scheduler (mark_completed task_id) c
          ≡ (ok tt, record c { scheduler = s }))
        × (Dict.get s.tasks task_id ≡ some (record t { status = done_status }))
    unfolding in_scheduler scheduler_after mark_completed
    mark_completed-Returns = (
      record c.scheduler {
        tasks = Dict.put c.scheduler.tasks task_id (record t { status = done_status });
        running_tasks = discard c.scheduler.running_tasks task_id;
        completed_tasks = add c.scheduler.completed_tasks task_id;
      },
      rw (mark_completed, scheduled) refl,
      get-put c.scheduler.tasks task_id task_id _ ∙ rw (eq_refl task_id) refl,
    )

    mark_failed-Returns :
        (s : Scheduler) × (in_scheduler (mark_failed task_id) c
          ≡ (ok tt, record c { scheduler = s }))
        × (Dict.get s.tasks task_id ≡ some (record t { status = lost_status }))
    unfolding in_scheduler scheduler_after mark_failed
    mark_failed-Returns = (
      record c.scheduler {
        tasks = Dict.put c.scheduler.tasks task_id (record t { status = lost_status });
        running_tasks = discard c.scheduler.running_tasks task_id;
      },
      rw (mark_failed, scheduled) refl,
      get-put c.scheduler.tasks task_id task_id _ ∙ rw (eq_refl task_id) refl,
    )

    pub set_node-Returns :
        (st : TaskStatus)
        → (d : Engine.DagEngine G) × (set_node ops graph manager pipeline metadata task_id st c
            ≡ (ok tt, record c { dag = d }))
          × (Dict.get d.nodes task_id ≡ some (record n { status = st }))
    unfolding set_node in_dag dag_after update_node_status
    set_node-Returns st = (
      record c.dag { nodes = Dict.put c.dag.nodes task_id (record n { status = st }) },
      rw (update_node_status, there) refl,
      get-put c.dag.nodes task_id task_id _ ∙ rw (eq_refl task_id) refl,
    )

  -- A change of the state machine alone.
  abbrev pub with_machine : Coordinator R M G → StateMachine R → Coordinator R M G
  with_machine c m = record c { executor = record c.executor { state_machine = m } }

  -- `_set_failed_state` returns, and the task is in a state that has ended.
  abbrev Fails : Coordinator R M G → Result PyError (Unit {0}) × Coordinator R M G → Type 0
  Fails c p =
      (m : StateMachine R) × (p ≡ (ok tt, with_machine c m))
      × (s : TaskState) × (Dict.get m.states task_id ≡ some s)
      × (ended_state s ≡ true)

  shift-Fails :
      (reason : String) (now : ℕ) (c : Coordinator R M G) (s : TaskState)
      → StateIs task_id s c
      → permitted s failed ≡ true
      → Fails c (shift_state ops task_id failed reason now c)
  unfolding shift_state from_machine ended_state
  shift-Fails reason now c s at p =
      let (answer, state) =
        transition-permitted ops task_id c.executor.state_machine failed reason now at p in
      let m = (transition ops task_id failed reason now c.executor.state_machine).1 in
      (m, ap (λ r. (from_machine r, with_machine c m)) answer, failed, state, refl)

  begin-Fails :
      (reason : String) (now : ℕ) (c : Coordinator R M G)
      → Dict.get c.executor.state_machine.states task_id ≡ none
      → Fails c ((begin_state ops task_id >> shift_state ops task_id failed reason now) c)
  unfolding begin_state from_machine permitted
  begin-Fails reason now c absent =
      let (answer, state) = initialize-new ops task_id c.executor.state_machine pending absent in
      let m = (initialize ops task_id pending c.executor.state_machine).1 in
      let (m', equal, s, at, ended) =
        shift-Fails reason now (with_machine c m) pending state refl in
      (
        m',
        bind-ok (begin_state ops task_id) _ c (ap (λ r. (from_machine r, with_machine c m)) answer)
            ∙ equal,
        s,
        at,
        ended,
      )

  fail_from-Fails :
      (reason : String) (now : ℕ) (g : Option TaskState) (c : Coordinator R M G)
      → Dict.get c.executor.state_machine.states task_id ≡ g
      → Fails c (fail_from ops graph manager pipeline metadata task_id reason now (g, c))
  unfolding fail_from ended_state permitted
  fail_from-Fails reason now none c at = begin-Fails reason now c at
  fail_from-Fails reason now (some completed) c at =
      (c.executor.state_machine, refl, completed, at, refl)
  fail_from-Fails reason now (some blocked_hitl) c at =
      (c.executor.state_machine, refl, blocked_hitl, at, refl)
  fail_from-Fails reason now (some failed) c at = (c.executor.state_machine, refl, failed, at, refl)
  fail_from-Fails reason now (some pending) c at = shift-Fails reason now c pending at refl
  fail_from-Fails reason now (some ready) c at = shift-Fails reason now c ready at refl
  fail_from-Fails reason now (some implementing) c at =
      shift-Fails reason now c implementing at refl
  fail_from-Fails reason now (some verifying) c at = shift-Fails reason now c verifying at refl
  fail_from-Fails reason now (some blocked_repair) c at =
      shift-Fails reason now c blocked_repair at refl

  set_failed_state-Fails :
      (reason : String) (now : ℕ) (c : Coordinator R M G)
      → Fails c (set_failed_state ops graph manager pipeline metadata task_id reason now c)
  unfolding set_failed_state current_state
  set_failed_state-Fails reason now c =
      let g = get_state ops task_id c.executor.state_machine in
      fail_from-Fails reason now g.0 (with_machine c g.1)
        (get_state-memory ops task_id c.executor.state_machine)

  mark_scheduler_pending_lem :
      (s : Scheduler) (t : ScheduledTask)
      → Dict.get s.tasks task_id ≡ some t
      → Dict.get (mark_scheduler_pending task_id s).tasks task_id
        ≡ some (record t { status = queued_status; next_retry_at = none; retry_attempts = 0 })
  unfolding mark_scheduler_pending
  mark_scheduler_pending_lem s t h =
      rw (mark_scheduler_pending, h, get-put s.tasks task_id task_id, eq_refl task_id) refl

  -- The three ways in which an execution ends.
  module _ (w : World) (c : Coordinator R M G) (t : ScheduledTask) (n : DagNode)
      (scheduled : Dict.get c.scheduler.tasks task_id ≡ some t)
      (there : Dict.get c.dag.nodes task_id ≡ some n) where
    pub give_up-Returns :
        Returns (Agreement task_id) (give_up ops graph manager pipeline metadata w task_id c)
    unfolding give_up
    give_up-Returns =
        let (s, marked, in_queue) = mark_failed-Returns c t n scheduled there in
        let c1 = record c { scheduler = s } in
        let (d, set, in_dag_now) =
          set_node-Returns c1 (record t { status = lost_status }) n in_queue there Engine.failed in
        let c2 = record c1 { dag = d } in
        let (m, failing, st, at, ended) = set_failed_state-Fails "Task execution failed" w.now c2 in
        (
          with_machine c2 m,
          bind-ok (in_scheduler (mark_failed task_id)) _ c marked
              ∙ bind-ok (set_node ops graph manager pipeline metadata task_id Engine.failed) _ c1
                  set
              ∙ failing,
          agreed_failed (_, in_queue, refl) (_, in_dag_now, refl) st at ended,
        )

    pub completed-Returns :
        (f : Coordinator R M G → Coordinator R M G)
        → IsSilent f
        → StateIs task_id completed c
        → Returns (Agreement task_id) (
            (do
              in_scheduler (mark_completed task_id)
              set_node ops graph manager pipeline metadata task_id Engine.completed
              then_do ops graph manager pipeline metadata f)
              c)
    unfolding then_do
    completed-Returns f silent at =
        let (s, marked, in_queue) = mark_completed-Returns c t n scheduled there in
        let c1 = record c { scheduler = s } in
        let (d, set, in_dag_now) =
          set_node-Returns c1 (record t { status = done_status }) n in_queue there
            Engine.completed in
        let c2 = record c1 { dag = d } in
        let quiet = silent c2 in
        (
          f c2,
          bind-ok (in_scheduler (mark_completed task_id)) _ c marked
              ∙ bind-ok (set_node ops graph manager pipeline metadata task_id Engine.completed) _ c1
                  set,
          agreed_completed (record t { status = done_status }, rw quiet.scheduler in_queue, refl)
              (record n { status = Engine.completed }, rw quiet.dag in_dag_now, refl)
              (rw quiet.executor at),
        )

    pub pending-Returns :
        (f : Coordinator R M G → Coordinator R M G)
        → IsSilent f
        → StateIs task_id ready c
        → Returns (Agreement task_id) (
            (do
              then_do ops graph manager pipeline metadata
                  (λ x. record x { scheduler = mark_scheduler_pending task_id x.scheduler })
              set_node ops graph manager pipeline metadata task_id Engine.pending
              then_do ops graph manager pipeline metadata f)
              c)
    unfolding then_do
    pending-Returns f silent at =
        let c1 = record c { scheduler = mark_scheduler_pending task_id c.scheduler } in
        let in_queue = mark_scheduler_pending_lem c.scheduler t scheduled in
        let (d, set, in_dag_now) =
          set_node-Returns c1
            (record t { status = queued_status; next_retry_at = none; retry_attempts = 0 }) n
            in_queue there Engine.pending in
        let c2 = record c1 { dag = d } in
        let quiet = silent c2 in
        (
          f c2,
          bind-ok (set_node ops graph manager pipeline metadata task_id Engine.pending) _ c1 set,
          agreed_pending
              (
                record t { status = queued_status; next_retry_at = none; retry_attempts = 0 },
                rw quiet.scheduler in_queue,
                refl,
              )
              (record n { status = Engine.pending }, rw quiet.dag in_dag_now, refl)
              (rw quiet.executor at),
        )
