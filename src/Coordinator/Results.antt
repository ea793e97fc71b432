-- ===== src/Coordinator/Results.antt =====
-- runtime/workflow_coordinator.py: what the result of a workflow says of its tasks.
use agent_manager.Prelude.Dict.{Dict}
use agent_manager.Prelude.{
  ℕ, ◌≤◌, String, ◌≡◌, refl, ◌∙◌, ap, Bool, true, false, ◌&&◌, Result, Option, [], ◌∷◌, length,
  ◌==◌, arith,
}
use agent_manager.StateManager.Machine.{Repository}
use agent_manager.Dag.Digraph.{Digraph}
use agent_manager.SchedulerEngine.Engine.{
  ScheduledTask, Status, pending, running, completed, failed, is_completed, is_failed, is_empty,
}
use agent_manager.Prelude.Int.{ℤ}
use agent_manager.Runtime.Errors.{PyError}
use agent_manager.Runtime.Context.{Fields}
use agent_manager.Runtime.Executor.{CheckpointManager}
use agent_manager.Recovery.Repairs.{Pipeline}
use agent_manager.Coordinator.State.{Coordinator, World}
use agent_manager.Coordinator.Stages.{with_status}
use agent_manager.Coordinator.Workflow.{summary}

-- Every task has the status "completed".
unfoldable pub all_completed : Dict ScheduledTask → Bool
all_completed [] = true
all_completed ((k, t) ∷ tasks) = is_completed t.status && all_completed tasks

length-with_status :
    (test : Status → Bool) (tasks : Dict ScheduledTask)
    → length (with_status test tasks) ≤ length tasks
unfolding with_status
length-with_status test [] = omega arith
length-with_status test ((k, t) ∷ tasks) = ground (arith, length-with_status test tasks)

counted_all :
    (tasks : Dict ScheduledTask)
    → (length (with_status is_completed tasks) == length tasks) ≡ all_completed tasks
unfolding with_status all_completed
counted_all [] = ground arith
counted_all ((k, t) ∷ tasks) =
    ground (arith, counted_all tasks, length-with_status is_completed tasks)

not_both : (s : Status) → is_completed s ≡ true → is_failed s ≡ false
unfolding is_completed is_failed
not_both pending h = refl
not_both running h = refl
not_both completed h = refl
not_both failed h = absurd (ground (arith, h))

none_failed :
    (tasks : Dict ScheduledTask)
    → all_completed tasks ≡ true
    → is_empty (with_status is_failed tasks) ≡ true
unfolding with_status all_completed is_empty is_failed is_completed
none_failed [] h = refl
none_failed ((k, t) ∷ tasks) h = ground (arith, h, none_failed tasks, not_both t.status)

and_lem : (a b : Bool) → (b ≡ true → a ≡ true) → (a && b) ≡ b
and_lem true b h = refl
and_lem false true h = h refl
and_lem false false h = refl

module _ {R M G : Type 0} (ops : Repository R) (graph : Digraph G) (manager : CheckpointManager M)
    (pipeline : Option (Pipeline R M)) (metadata : String → Fields) (priority_of : Fields → ℤ)
    (hooks : Option (String → Fields → Result PyError (Unit {0}))) (worlds : ℕ → World)
    (times : ℕ → ℕ → ℕ) where
  -- The result of a workflow says success exactly if every task of the scheduler is completed.
  pub success-summary :
      (workflow_id : String) (c : Coordinator R M G)
      → (summary ops graph manager pipeline metadata priority_of hooks worlds times workflow_id
          c).success
        ≡ all_completed c.scheduler.tasks
  unfolding summary
  success-summary workflow_id c =
      ap (λ b. is_empty (with_status is_failed c.scheduler.tasks) && b)
        (counted_all c.scheduler.tasks)
      ∙ and_lem _ _ (none_failed c.scheduler.tasks)
