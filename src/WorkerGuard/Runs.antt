-- ===== src/WorkerGuard/Runs.antt =====
-- sandbox/worker_guard.py: what calls of `WorkerGuard` lead to.
use mathlib.Core.List.{append-nil, append_assoc}
use agent_manager.Prelude.{
  ℕ, ◌-◌, ◌≤◌, String, ◌≡◌, refl, Bool, true, false, List, [], ◌∷◌, ◌++◌, length, length-drop,
  arith, leb, ltb, max, drop, subst, zero, suc, ◌+◌, ap, ◌∙◌, length-append, if◌then◌else◌,
}
use agent_manager.WorkerGuard.Windows.{recent, push}
use agent_manager.WorkerGuard.Guard.{
  Action, Output, ErrorRecord, Settings, Guard, new_guard, track_action, track_token_usage,
  track_output, track_error, token_limit, token_warning_threshold,
}

pub data Call (P : Type 0) : Type 0 where
  action : String → P → ℕ → Call P
  tokens : ℕ → Call P
  output : String → ℕ → Call P
  error : String → String → Call P

zero_add : (j : ℕ) → j ≡ zero + j
zero_add j = omega arith

suc_add : (k j : ℕ) → suc (k + j) ≡ suc k + j
suc_add k j = omega arith

-- What a deque holds after an item more is among the last items of all.
drop-append :
    {A : Type 0} (j k : ℕ) (xs ys : List A)
    → k ≤ length xs
    → drop j (drop k xs ++ ys) ≡ drop (k + j) (xs ++ ys)
drop-append j zero xs ys h = ap (λ n. drop n (xs ++ ys)) (zero_add j)
drop-append j (suc k) [] ys h = absurd (omega arith)
drop-append j (suc k) (x ∷ xs) ys h =
    drop-append j k xs ys (omega arith) ∙ ap (λ n. drop n (x ∷ xs ++ ys)) (suc_add k j)

-- The last `n` items, in order.
abbrev pub last_items : {A : Type 0} → ℕ → List A → List A
last_items n xs = drop (length xs - n) xs

drop-nil : {A : Type 0} (k : ℕ) → [] ≡ drop {A = A} k []
drop-nil zero = refl
drop-nil (suc k) = refl

recent-nil : {A : Type 0} (n : ℕ) → [] ≡ last_items {A = A} n []
recent-nil n = drop-nil (0 - n)

-- A deque that holds the last `n` of the items so far does so after one more.
push-recent :
    {A : Type 0} (n : ℕ) (x : A) (items : List A)
    → push n x (last_items n items) ≡ last_items n (items ++ x ∷ [])
unfolding push recent
push-recent n x items =
    drop-append _ (length items - n) items (x ∷ []) (omega arith)
    ∙ ap (λ k. drop k (items ++ x ∷ []))
        (omega (
          arith,
          length-append (drop (length items - n) items) (x ∷ []),
          length-drop (length items - n) items,
          length-append items (x ∷ []),
        ))

module _ {P : Type 0} where
  unfoldable pub run : List (Call P) → Guard P → Guard P
  run [] g = g
  run (action kind params now ∷ cs) g = run cs (track_action kind params now g)
  run (tokens n ∷ cs) g = run cs (track_token_usage n g).1
  run (output text now ∷ cs) g = run cs (track_output text now g).1
  run (error kind msg ∷ cs) g = run cs (track_error kind msg g).1

  -- Some count of tokens that was reported reaches the warning threshold.
  abbrev pub warns : List (Call P) → Bool
  warns [] = false
  warns (action kind params now ∷ cs) = warns cs
  warns (tokens n ∷ cs) = if leb token_warning_threshold n then true else warns cs
  warns (output text now ∷ cs) = warns cs
  warns (error kind msg ∷ cs) = warns cs

  -- The count of tokens that was reported last.
  abbrev pub last_count : ℕ → List (Call P) → ℕ
  last_count n [] = n
  last_count n (action kind params now ∷ cs) = last_count n cs
  last_count n (tokens m ∷ cs) = last_count m cs
  last_count n (output text now ∷ cs) = last_count n cs
  last_count n (error kind msg ∷ cs) = last_count n cs

  -- All that was tracked, in the order of the calls.
  abbrev pub all_actions : List (Call P) → List (Action P)
  all_actions [] = []
  all_actions (action kind params now ∷ cs) =
      record { action_type = kind; action_params = params; timestamp = now } ∷ all_actions cs
  all_actions (tokens n ∷ cs) = all_actions cs
  all_actions (output text now ∷ cs) = all_actions cs
  all_actions (error kind msg ∷ cs) = all_actions cs

  abbrev pub all_outputs : List (Call P) → List Output
  all_outputs [] = []
  all_outputs (action kind params now ∷ cs) = all_outputs cs
  all_outputs (tokens n ∷ cs) = all_outputs cs
  all_outputs (output text now ∷ cs) = record { text = text; made_at = now } ∷ all_outputs cs
  all_outputs (error kind msg ∷ cs) = all_outputs cs

  abbrev pub all_errors : List (Call P) → List ErrorRecord
  all_errors [] = []
  all_errors (action kind params now ∷ cs) = all_errors cs
  all_errors (tokens n ∷ cs) = all_errors cs
  all_errors (output text now ∷ cs) = all_errors cs
  all_errors (error kind msg ∷ cs) = record { error_type = kind; error_msg = msg } ∷ all_errors cs

  -- The deques hold the last of the items that are given, in order: as many as 100, 50 and 50, or as the
  -- window of each if it is larger.
  pub record Holds (settings : Settings) (actions : List (Action P)) (outputs : List Output)
      (errors : List ErrorRecord) (g : Guard P) : Type 0 where
    pub kept : g.settings ≡ settings
    pub actions_held : g.actions ≡ last_items (max 100 settings.action_window_size) actions
    pub outputs_held : g.outputs ≡ last_items (max 50 settings.output_window_size) outputs
    pub errors_held : g.errors ≡ last_items (max 50 settings.error_window_size) errors

  run_from-Holds :
      (settings : Settings) (actions : List (Action P)) (outputs : List Output)
      (errors : List ErrorRecord) (calls : List (Call P)) (g : Guard P)
      → Holds settings actions outputs errors g
      → Holds settings
          (actions ++ all_actions calls)
          (outputs ++ all_outputs calls)
          (errors ++ all_errors calls)
          (run calls g)
  unfolding run track_action track_token_usage track_output track_error
  run_from-Holds settings actions outputs errors [] g b =
      rw (append-nil actions, append-nil outputs, append-nil errors) b
  run_from-Holds settings actions outputs errors (action kind params now ∷ cs) g b =
      let item : Action P = record {
        action_type = kind;
        action_params = params;
        timestamp = now;
      } in
      subst
        (λ xs.
          Holds settings xs (outputs ++ all_outputs cs) (errors ++ all_errors cs)
            (run cs (track_action kind params now g)))
        (append_assoc actions (item ∷ []) (all_actions cs))
        (run_from-Holds settings (actions ++ item ∷ []) outputs errors cs
          (track_action kind params now g)
          (record {
            kept = b.kept;
            actions_held = rw (b.kept, b.actions_held) (push-recent _ item actions);
            outputs_held = b.outputs_held;
            errors_held = b.errors_held;
          }))
  run_from-Holds settings actions outputs errors (tokens n ∷ cs) g b =
      run_from-Holds settings actions outputs errors cs (track_token_usage n g).1 (record {
        kept = b.kept;
        actions_held = b.actions_held;
        outputs_held = b.outputs_held;
        errors_held = b.errors_held;
      })
  run_from-Holds settings actions outputs errors (output text now ∷ cs) g b =
      let item : Output = record { text = text; made_at = now } in
      subst
        (λ xs.
          Holds settings (actions ++ all_actions cs) xs (errors ++ all_errors cs)
            (run cs ((track_output text now g).1)))
        (append_assoc outputs (item ∷ []) (all_outputs cs))
        (run_from-Holds settings actions (outputs ++ item ∷ []) errors cs
          ((track_output text now g).1)
          (record {
            kept = b.kept;
            actions_held = b.actions_held;
            outputs_held = rw (b.kept, b.outputs_held) (push-recent _ item outputs);
            errors_held = b.errors_held;
          }))
  run_from-Holds settings actions outputs errors (error kind msg ∷ cs) g b =
      let item : ErrorRecord = record { error_type = kind; error_msg = msg } in
      subst
        (λ xs.
          Holds settings (actions ++ all_actions cs) (outputs ++ all_outputs cs) xs
            (run cs ((track_error kind msg g).1)))
        (append_assoc errors (item ∷ []) (all_errors cs))
        (run_from-Holds settings actions outputs (errors ++ item ∷ []) cs
          ((track_error kind msg g).1)
          (record {
            kept = b.kept;
            actions_held = b.actions_held;
            outputs_held = b.outputs_held;
            errors_held = rw (b.kept, b.errors_held) (push-recent _ item errors);
          }))

  -- Whatever is tracked by a new guard, it holds the last actions, outputs and errors of all that were
  -- tracked, in order, and its settings do not change: the last 100, 50 and 50, or as many as the
  -- window of each asks for if that is more.
  pub run-Holds :
      (settings : Settings) (calls : List (Call P))
      → Holds settings
          (all_actions calls)
          (all_outputs calls)
          (all_errors calls)
          (run calls (new_guard settings))
  run-Holds settings calls = run_from-Holds settings [] [] [] calls (new_guard settings) (record {
    kept = refl;
    actions_held = recent-nil _;
    outputs_held = recent-nil _;
    errors_held = recent-nil _;
  })

  run-Counted :
      (calls : List (Call P)) (g : Guard P)
      → ((run calls g).total_tokens ≡ last_count g.total_tokens calls)
        × ((run calls g).warned_tokens ≡ (if g.warned_tokens then true else warns calls))
  unfolding run track_action track_token_usage track_output track_error
  run-Counted [] g = (refl, ground arith)
  run-Counted (action kind params now ∷ cs) g = run-Counted cs (track_action kind params now g)
  run-Counted (tokens n ∷ cs) g =
      let rest = run-Counted cs (track_token_usage n g).1 in (rest.0, ground (arith, rest.1))
  run-Counted (output text now ∷ cs) g = run-Counted cs (track_output text now g).1
  run-Counted (error kind msg ∷ cs) g = run-Counted cs (track_error kind msg g).1

  -- After any calls on a new guard, its total is the count of tokens that was reported last (0 if none
  -- was), the warning is on exactly if some reported count reached its threshold, and a further count
  -- is answered with True exactly if it is below the limit.
  pub run-Watched :
      (settings : Settings) (calls : List (Call P)) (n : ℕ)
      → ((run calls (new_guard settings)).total_tokens ≡ last_count 0 calls)
        × ((run calls (new_guard settings)).warned_tokens ≡ warns calls)
        × ((track_token_usage n (run calls (new_guard settings))).0 ≡ ltb n token_limit)
  unfolding track_token_usage
  run-Watched settings calls n = (
    (run-Counted calls (new_guard settings)).0,
    (run-Counted calls (new_guard settings)).1,
    ground arith,
  )
