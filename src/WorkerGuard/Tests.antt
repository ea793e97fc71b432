-- ===== src/WorkerGuard/Tests.antt =====
-- sandbox/worker_guard.py on small inputs, with the default settings; the parameters of an action are
-- texts.
use agent_manager.Prelude.Fractions.{Fraction, at_least}
use agent_manager.Prelude.StrSet.{add, member}
use agent_manager.Prelude.{
  String, ◌≡◌, ◌↔◌, ◌≤◌, ◌<◌, ◌*◌, refl, true, false, List, [], ◌∷◌, Any, arith, str_eq, eq_refl,
  length,
}
use agent_manager.WorkerGuard.Windows.{recent, count, is_repeated, push, best_count, repeat_ratio}
use agent_manager.WorkerGuard.Similarity.{split_set, is_nil, split_from, to_set, is_space, ended}
use agent_manager.WorkerGuard.Guard.{Settings, Guard, new_guard, track_action, track_token_usage}
use agent_manager.WorkerGuard.Repetition.{is_repeated-Iff}
use agent_manager.WorkerGuard.Timestamps.{IsRising}
use agent_manager.WorkerGuard.Runs.{
  Call, action, tokens, run, Holds, all_actions, all_outputs, all_errors, run-Holds,
}

abbrev one : Fraction
one = record { numerator = 1; denominator = 1 }

abbrev defaults : Settings
defaults = record {
  action_window_size = 3;
  action_repeat_threshold = one;
  error_window_size = 2;
  error_repeat_threshold = one;
  output_window_size = 50;
  output_similarity_threshold = record { numerator = 9; denominator = 10 };
}

abbrev loop : List (Call String)
loop =
    action "run" "make" 1
    ∷ tokens 40000
    ∷ action "run" "make" 2
    ∷ tokens 10
    ∷ action "run" "make" 3
    ∷ []

abbrev looped : Guard String
looped = run loop (new_guard defaults)

abbrev words : List String
words = "a" ∷ "b" ∷ "b" ∷ []

program : Unit {0}
unfolding run track_action track_token_usage IsRising is_repeated recent count best_count
    repeat_ratio at_least push
program = tt

words-repeated : is_repeated str_eq 2 one words ≡ true
unfolding program
words-repeated = refl

is_repeated-Iff_example : (is_repeated str_eq 2 one words ≡ true) ↔ (
    (2 ≤ 2)
    × (2 ≤ length words)
    × Any
        (λ y. one.numerator * 2 ≤ count str_eq y (recent 2 words) * one.denominator)
        (recent 2 words))
is_repeated-Iff_example = is_repeated-Iff str_eq one 2 words eq_refl

looped-IsRising : IsRising (λ a. a.timestamp) looped.actions
unfolding program
looped-IsRising = ((omega arith, (omega arith, tt)), ((omega arith, tt), (tt, tt)))

above_half :
    looped.settings.action_repeat_threshold.denominator
    < looped.settings.action_repeat_threshold.numerator * 2
unfolding program
above_half = omega arith

done_has_words : is_nil (split_set "all done") ≡ false
unfolding is_nil split_set split_from to_set is_space ended add member
done_has_words = refl

run-Holds_example : Holds defaults (all_actions loop) (all_outputs loop) (all_errors loop) looped
run-Holds_example = run-Holds defaults loop
