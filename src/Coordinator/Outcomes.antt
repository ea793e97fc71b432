-- ===== src/Coordinator/Outcomes.antt =====
-- runtime/workflow_coordinator.py: a task's status in the scheduler, its status in the DAG and its state,
-- and when the three agree.
use agent_manager.Prelude.Dict
use agent_manager.Prelude.Dict.{Dict, get-put}
use agent_manager.Prelude.{String, ◌≡◌, Bool, true, false, some}
use agent_manager.StateManager.Transitions.{TaskState, ready, completed, failed, blocked_hitl}
use agent_manager.Dag.Engine
use agent_manager.Dag.Engine.{DagNode, TaskStatus, update_node_status}
use agent_manager.SchedulerEngine.Engine.{
  ScheduledTask, Status, pending as queued_status, completed as done_status, failed as lost_status,
}
use agent_manager.Coordinator.State.{Coordinator}

module _ {R M G : Type 0} where
  abbrev pub StateIs : String → TaskState → Coordinator R M G → Type 0
  StateIs task_id s c = Dict.get c.executor.state_machine.states task_id ≡ some s

  -- The task is in the scheduler, and in the DAG, with this status.
  abbrev pub SchedulerIs : String → Status → Coordinator R M G → Type 0
  SchedulerIs task_id st c =
      (t : ScheduledTask) × (Dict.get c.scheduler.tasks task_id ≡ some t) × (t.status ≡ st)

  abbrev pub DagIs : String → TaskStatus → Coordinator R M G → Type 0
  DagIs task_id st c = (n : DagNode) × (Dict.get c.dag.nodes task_id ≡ some n) × (n.status ≡ st)

-- A step that keeps the parts of the coordinator.
pub record IsKept {R M G : Type 0} (c c' : Coordinator R M G) : Type 0 where
  pub scheduler : c'.scheduler ≡ c.scheduler
  pub dag : c'.dag ≡ c.dag
  pub executor : c'.executor ≡ c.executor

abbrev pub IsSilent : {R M G : Type 0} → (Coordinator R M G → Coordinator R M G) → Type 0
IsSilent {R} {M} {G} f = (c : Coordinator R M G) → IsKept c (f c)

-- The states that a task that failed for the workflow can be in.
unfoldable pub ended_state : TaskState → Bool
ended_state completed = true
ended_state failed = true
ended_state blocked_hitl = true
ended_state _ = false

pub data Agreement {R M G : Type 0} (task_id : String) (c : Coordinator R M G) : Type 0 where
  agreed_completed :
      SchedulerIs task_id done_status c
      → DagIs task_id Engine.completed c
      → StateIs task_id completed c
      → Agreement task_id c
  agreed_pending :
      SchedulerIs task_id queued_status c
      → DagIs task_id Engine.pending c
      → StateIs task_id ready c
      → Agreement task_id c
  agreed_failed :
      SchedulerIs task_id lost_status c
      → DagIs task_id Engine.failed c
      → (s : TaskState) → StateIs task_id s c
      → ended_state s ≡ true
      → Agreement task_id c
