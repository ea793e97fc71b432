-- ===== src/StateManager/Tests.antt =====
-- engine/state_manager.py on small inputs: a repository that keeps the states in a dictionary.
use agent_manager.Prelude.Dict
use agent_manager.Prelude.Dict.{Dict, get-put}
use agent_manager.Prelude.{◌≡◌, refl, true, some, List, [], ◌∷◌, ◌++◌}
use agent_manager.StateManager.Transitions.{
  TaskState, pending, ready, implementing, verifying, completed, failed, terminal, permitted,
}
use agent_manager.StateManager.Machine.{
  Repository, StateMachine, StateTransition, new_machine, initialize, get_state, get_history,
  transition,
}
use agent_manager.StateManager.Calls.{Call, initialize_task, transition_task, run, call, Leads}
use agent_manager.StateManager.Progress.{run-Leads, run-terminal}
use agent_manager.StateManager.Durable.{IsFaithful, restart-get_state}

abbrev in_dict : Repository (Dict TaskState × List StateTransition)
in_dict = record {
  save_task_state = λ k s r. (Dict.put r.0 k s, r.1);
  append_audit_record = λ a r. r;
  save_transition = λ t r. (r.0, r.1 ++ t ∷ []);
  load_task_state = λ k r. Dict.get r.0 k;
  load_transitions = λ k r. r.1;
}

in_dict-IsFaithful : IsFaithful in_dict
in_dict-IsFaithful = record {
  load-save = λ t u s r. get-put r.0 t u s;
  load-audit = λ u a r. refl;
  load-transition = λ u t r. refl;
}

abbrev delivery : List Call
delivery =
    initialize_task "t" pending
    ∷ transition_task "t" implementing "" 1
    ∷ transition_task "t" verifying "" 2
    ∷ transition_task "t" completed "" 3
    ∷ []

abbrev delivered : StateMachine (Dict TaskState × List StateTransition)
delivered = run in_dict delivery (new_machine (some ([], [])))

program : Unit {0}
unfolding run call initialize get_state get_history transition Dict.get Dict.put Dict.contains
    permitted terminal
program = tt

state-delivered : Dict.get delivered.states "t" ≡ some completed
unfolding program
state-delivered = refl

run-Leads_example :
    (u : TaskState) × (Dict.get
        (run in_dict (transition_task "t" ready "" 4 ∷ []) delivered).states
        "t"
      ≡ some u)
    × Leads completed u
run-Leads_example =
    run-Leads in_dict "t" (transition_task "t" ready "" 4 ∷ []) delivered state-delivered

run-terminal_example :
    Dict.get (run in_dict (transition_task "t" failed "" 4 ∷ []) delivered).states "t"
    ≡ some completed
run-terminal_example =
    run-terminal in_dict "t" (transition_task "t" failed "" 4 ∷ []) delivered completed
      state-delivered completed-terminal
  where
    completed-terminal : terminal completed ≡ true
    completed-terminal = unfold terminal in refl

restart-get_state_example :
    (get_state in_dict "t" delivered).0
    ≡ (get_state in_dict "t" (new_machine delivered.repository)).0
restart-get_state_example = restart-get_state in_dict in_dict-IsFaithful delivery ([], []) "t"
