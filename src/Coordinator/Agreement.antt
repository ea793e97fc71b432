-- ===== src/Coordinator/Agreement.antt =====
-- runtime/workflow_coordinator.py: after the execution of a task its status in the scheduler, its
-- status in the DAG and its state agree.
use agent_manager.Prelude.Actions.{bind-ok, bind-err}
use agent_manager.Prelude.Dict
use agent_manager.Prelude.Dict.{Dict}
use agent_manager.Prelude.{
  String, ◌≡◌, refl, ◌∙◌, sym, ap, subst, Bool, true, false, Result, ok, err, Result-cases, Option,
  some, Option-cases, inl, inr, ◌⊎◌, List, [],
}
use agent_manager.StateManager.Transitions.{TaskState, ready, completed}
use agent_manager.StateManager.Machine.{Repository, get_state}
use agent_manager.StateManager.Progress.{get_state-memory}
use agent_manager.Dag.Digraph.{Digraph}
use agent_manager.Dag.Engine
use agent_manager.Dag.Engine.{DagNode}
use agent_manager.SchedulerEngine.Engine.{ScheduledTask}
use agent_manager.Runtime.Errors.{PyError}
use agent_manager.Runtime.Context.{Fields}
use agent_manager.Runtime.Executor.{CheckpointManager, run_task}
use agent_manager.Runtime.Returns.{run_task-completed}
use agent_manager.Recovery.Failures.{RecoveryContext, ContextError, required}
use agent_manager.Recovery.Steps.{Attempt}
use agent_manager.Recovery.Repairs.{Pipeline}
use agent_manager.Coordinator.State.{Coordinator, World, current_state}
use agent_manager.Coordinator.Memory.{
  write_record_to_memory, write_task_result_to_memory, write_recovery_result_to_memory,
}
use agent_manager.Coordinator.Tasks.{
  context_raised, set_node, answered, call_executor, task_of, attempt_task, resume_by_state,
  after_recovery, recovered, call_recovery, recover_failed_task, settled_by, run_node,
  execute_scheduled_task,
}
use agent_manager.Coordinator.Outcomes.{IsSilent, Agreement}
use agent_manager.Coordinator.Endings.{
  Returns, with_machine, set_node-Returns, give_up-Returns, completed-Returns, pending-Returns,
}

module _ {R M G : Type 0} where
  write_record-IsSilent :
      (task_id : String) (metadata : Fields) (record_type outcome key_prefix : String)
      (extra : Fields)
      → IsSilent {R = R} {M = M} {G = G}
          (write_record_to_memory task_id metadata record_type outcome key_prefix extra)
  unfolding write_record_to_memory
  write_record-IsSilent task_id metadata record_type outcome key_prefix extra c =
      elim (Option-cases c.memory) [
        | inl h ↦
            rw (write_record_to_memory, h)
              (record { scheduler = refl; dag = refl; executor = refl })
        | inr (kept, h) ↦
            rw (write_record_to_memory, h)
              (record { scheduler = refl; dag = refl; executor = refl })
      ]

module _ {R M G : Type 0} (ops : Repository R) (graph : Digraph G) (manager : CheckpointManager M)
    (pipeline : Option (Pipeline R M)) (metadata : String → Fields) (task_id : String)
    (w : World) where
  -- The execution returns and the three agree, or the recovery context is refused for an empty field.
  abbrev pub Outcome : Result PyError (Unit {0}) × Coordinator R M G → Type 0
  Outcome p =
      Returns ops graph manager pipeline metadata task_id (Agreement task_id) p
      ⊎ ((field : String) × (p.0 ≡ err (context_raised (required field))))

  module _ (n : DagNode) (t : ScheduledTask) where
    resume_by_state-Returns :
        (node : DagNode) (g : Option TaskState) (c : Coordinator R M G)
        → Dict.get c.scheduler.tasks task_id ≡ some t
        → Dict.get c.dag.nodes task_id ≡ some n
        → Dict.get c.executor.state_machine.states task_id ≡ g
        → Returns ops graph manager pipeline metadata task_id
            (Agreement task_id)
            (resume_by_state ops graph manager pipeline metadata w task_id node (g, c))
    unfolding resume_by_state write_recovery_result_to_memory
    resume_by_state-Returns node (some completed) c scheduled there at =
        completed-Returns ops graph manager pipeline metadata task_id w c t n scheduled there
          (write_recovery_result_to_memory task_id (metadata node.node_id) "recovered_completed")
          (write_record-IsSilent task_id (metadata node.node_id) "task_recovery"
            "recovered_completed" "recovery" [])
          at
    resume_by_state-Returns node (some ready) c scheduled there at =
        pending-Returns ops graph manager pipeline metadata task_id w c t n scheduled there
          (write_recovery_result_to_memory task_id (metadata node.node_id) "recovered_retry")
          (write_record-IsSilent task_id (metadata node.node_id) "task_recovery" "recovered_retry"
            "recovery" [])
          at
    resume_by_state-Returns node g c scheduled there at =
        give_up-Returns ops graph manager pipeline metadata task_id w c t n scheduled there

    after_recovery-Outcome :
        (node : DagNode) (b : Bool) (c : Coordinator R M G)
        → Dict.get c.scheduler.tasks task_id ≡ some t
        → Dict.get c.dag.nodes task_id ≡ some n
        → Outcome (after_recovery ops graph manager pipeline metadata w task_id node (ok b, c))
    unfolding after_recovery current_state
    after_recovery-Outcome node true c scheduled there =
        let g = get_state ops task_id c.executor.state_machine in
        inl (
          resume_by_state-Returns node g.0
            (with_machine ops graph manager pipeline metadata task_id c g.1) scheduled there
            (get_state-memory ops task_id c.executor.state_machine))
    after_recovery-Outcome node false c scheduled there =
        inl (give_up-Returns ops graph manager pipeline metadata task_id w c t n scheduled there)

    recovery-Outcome :
        (node : DagNode) (history : Dict (List Attempt)) (c : Coordinator R M G)
        (x : Result ContextError RecoveryContext)
        → Dict.get c.scheduler.tasks task_id ≡ some t
        → Dict.get c.dag.nodes task_id ≡ some n
        → Outcome (
            after_recovery ops graph manager pipeline metadata w task_id node
              (call_recovery ops graph manager pipeline metadata w history c x))
    unfolding call_recovery recovered after_recovery
    recovery-Outcome node history c (ok ctx) scheduled there =
        after_recovery-Outcome node _ _ scheduled there
    recovery-Outcome node history c (err (required field)) scheduled there = inr (field, refl)

    failed-Outcome :
        (node : DagNode) (e : PyError) (c : Coordinator R M G)
        → Dict.get c.scheduler.tasks task_id ≡ some t
        → Dict.get c.dag.nodes task_id ≡ some n
        → Outcome (settled_by ops graph manager pipeline metadata w task_id node (err e, c))
    unfolding settled_by recover_failed_task
    failed-Outcome node e c scheduled there = elim (Option-cases c.recovery) [
      | inl h ↦ rw (recover_failed_task, h) (after_recovery-Outcome node false c scheduled there)
      | inr (history, h) ↦
          rw (recover_failed_task, h) (recovery-Outcome node history c _ scheduled there)
    ]

    attempt-Outcome :
        (node : DagNode) (c : Coordinator R M G)
        → node.node_id ≡ task_id
        → Dict.get c.scheduler.tasks task_id ≡ some t
        → Dict.get c.dag.nodes task_id ≡ some n
        → Outcome (
            settled_by ops graph manager pipeline metadata w task_id node
              (attempt_task ops graph manager pipeline metadata w task_id node c))
    unfolding attempt_task call_executor answered settled_by task_of write_task_result_to_memory
    attempt-Outcome node c named scheduled there =
        let run =
          run_task ops manager w.sandbox w.clock (task_of ops graph manager pipeline metadata node)
            c.executor in
        let c1 = record c { executor = run.1 } in
        elim (Result-cases run.0) [
          | inl (context, h) ↦
              let (c2, done, agreed) =
                completed-Returns ops graph manager pipeline metadata task_id w c1 t n scheduled
                  there
                  (write_task_result_to_memory w.now task_id (metadata node.node_id) "completed")
                  (λ x.
                    write_record-IsSilent task_id (metadata node.node_id) "task_execution"
                      "completed" "task" _ x)
                  (subst (λ k. Dict.get run.1.state_machine.states k ≡ some completed) named
                    (run_task-completed ops manager w.sandbox w.clock _ c.executor run.1 context
                      (ap (λ r. (r, run.1)) h))) in
              inl (
                c2,
                ap (settled_by ops graph manager pipeline metadata w task_id node) (
                    bind-ok (call_executor ops graph manager pipeline metadata w node) _ c
                      (ap (λ r. answered ops graph manager pipeline metadata c (r, run.1)) h)
                    ∙ done),
                agreed,
              )
          | inr (e, h) ↦
              subst (λ p. Outcome (settled_by ops graph manager pipeline metadata w task_id node p))
                (sym (
                  bind-err (call_executor ops graph manager pipeline metadata w node) _ c
                    (ap (λ r. answered ops graph manager pipeline metadata c (r, run.1)) h)))
                (failed-Outcome node e c1 scheduled there)
        ]

  -- The execution of a task that is in the DAG under its id and in the scheduler returns with its
  -- status in the scheduler, its status in the DAG and its state in agreement: "completed" in all
  -- three, or "pending" in the first two and "ready" as the state, or "failed" in the first two and a
  -- state that is "completed", "failed" or "blocked_hitl". It raises only the error of a recovery
  -- context with an empty field. What the sandbox, the checkpoints, the recovery and the repair
  -- pipeline answer does not matter.
  pub execute_scheduled_task-Outcome :
      (c : Coordinator R M G) (t : ScheduledTask) (node : DagNode)
      → Dict.get c.scheduler.tasks task_id ≡ some t
      → Dict.get c.dag.nodes task_id ≡ some node
      → node.node_id ≡ task_id
      → Outcome (execute_scheduled_task ops graph manager pipeline metadata w task_id c)
  unfolding execute_scheduled_task run_node
  execute_scheduled_task-Outcome c t node scheduled there named =
      let (d, set, running) =
        set_node-Returns ops graph manager pipeline metadata task_id c t node scheduled there
          Engine.running in
      rw (execute_scheduled_task, there)
        (subst Outcome
          (sym
            (bind-ok (set_node ops graph manager pipeline metadata task_id Engine.running) _ c set))
          (attempt-Outcome (record node { status = Engine.running }) t node (record c { dag = d })
            named scheduled running))
