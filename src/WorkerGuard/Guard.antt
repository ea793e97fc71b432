-- ===== src/WorkerGuard/Guard.antt =====
-- sandbox/worker_guard.py, the class `WorkerGuard`. The parameters of an action are of a type `P` with
-- an equality; `now` is what `datetime.now()` returns. A window size is not negative.
use agent_manager.Prelude.Fractions.{Fraction, at_least}
use agent_manager.Prelude.{
  ℕ, String, Bool, true, false, ◌&&◌, not, List, [], ◌∷◌, length, max, leb, ◌==◌, if◌then◌else◌,
  str_eq,
}
use agent_manager.WorkerGuard.Windows.{recent, push, is_repeated}
use agent_manager.WorkerGuard.Similarity.{similarity}

pub record Action (P : Type 0) : Type 0 where
  pub action_type : String
  pub action_params : P
  pub timestamp : ℕ

pub record Output : Type 0 where
  pub text : String
  pub made_at : ℕ

pub record ErrorRecord : Type 0 where
  pub error_type : String
  pub error_msg : String

pub record Settings : Type 0 where
  pub action_window_size : ℕ
  pub action_repeat_threshold : Fraction
  pub error_window_size : ℕ
  pub error_repeat_threshold : Fraction
  pub output_window_size : ℕ
  pub output_similarity_threshold : Fraction

pub record Guard (P : Type 0) : Type 0 where
  pub settings : Settings
  pub actions : List (Action P)
  pub outputs : List Output
  pub errors : List ErrorRecord
  pub total_tokens : ℕ
  pub warned_tokens : Bool

abbrev pub token_limit : ℕ
token_limit = 100000

abbrev pub token_warning_threshold : ℕ
token_warning_threshold = 32000

-- The `maxlen` of the three deques.
abbrev pub max_actions : Settings → ℕ
max_actions settings = max 100 settings.action_window_size

abbrev pub max_outputs : Settings → ℕ
max_outputs settings = max 50 settings.output_window_size

abbrev pub max_errors : Settings → ℕ
max_errors settings = max 50 settings.error_window_size

-- `==` on the dictionaries of two errors
unfoldable pub same_error : ErrorRecord → ErrorRecord → Bool
same_error a b = str_eq a.error_type b.error_type && str_eq a.error_msg b.error_msg

-- The loop of `track_output`: an output that is similar enough.
unfoldable pub any_similar : Fraction → String → List Output → Bool
unfolding similarity at_least
any_similar threshold output [] = false
any_similar threshold output (prev ∷ outputs) =
    if at_least (similarity output prev.text) threshold
    then true
    else any_similar threshold output outputs

module _ {P : Type 0} where
  abbrev pub new_guard : Settings → Guard P
  new_guard settings = record {
    settings = settings;
    actions = [];
    outputs = [];
    errors = [];
    total_tokens = 0;
    warned_tokens = false;
  }

  unfoldable pub track_action : String → P → ℕ → Guard P → Guard P
  unfolding push
  track_action action_type action_params timestamp g = record g {
    actions =
        push (max_actions g.settings)
          (record {
            action_type = action_type;
            action_params = action_params;
            timestamp = timestamp;
          })
          g.actions;
  }

  unfoldable pub track_token_usage : ℕ → Guard P → Bool × Guard P
  track_token_usage tokens g =
      let warned = if leb token_warning_threshold tokens then true else g.warned_tokens in
      (
        if leb token_limit tokens then false else true,
        record g { total_tokens = tokens; warned_tokens = warned },
      )

  unfoldable pub track_output : String → ℕ → Guard P → Bool × Guard P
  unfolding any_similar recent push
  track_output output now g = (
    not (
        any_similar g.settings.output_similarity_threshold output
          (recent (max 1 g.settings.output_window_size) g.outputs)),
    record g {
      outputs = push (max_outputs g.settings) (record { text = output; made_at = now }) g.outputs;
    },
  )

  unfoldable pub repeated_errors : Guard P → Bool
  unfolding is_repeated same_error
  repeated_errors g =
      is_repeated same_error g.settings.error_window_size g.settings.error_repeat_threshold g.errors

  unfoldable pub track_error : String → String → Guard P → Bool × Guard P
  unfolding repeated_errors push
  track_error error_type error_msg g =
      let g' = record g {
        errors =
            push (max_errors g.settings) (record { error_type = error_type; error_msg = error_msg })
              g.errors;
      } in
      (not (repeated_errors g'), g')

module _ {P : Type 0} (same_params : P → P → Bool) where
  -- `==` on the dictionaries of two actions
  unfoldable pub same_action : Action P → Action P → Bool
  same_action a b =
      str_eq a.action_type b.action_type
      && same_params a.action_params b.action_params
      && (a.timestamp == b.timestamp)

  unfoldable pub check_repeated_actions : Guard P → Bool
  unfolding is_repeated same_action
  check_repeated_actions g =
      is_repeated same_action g.settings.action_window_size g.settings.action_repeat_threshold
        g.actions

  pub record GuardStatus : Type 0 where
    pub tokens : ℕ
    pub token_warned : Bool
    pub actions_tracked : ℕ
    pub outputs_tracked : ℕ
    pub errors_tracked : ℕ
    pub repeated_action : Bool
    pub repeated_error : Bool

  -- Without the constants and the time.
  unfoldable pub get_guard_status : Guard P → GuardStatus
  get_guard_status g = record {
    tokens = g.total_tokens;
    token_warned = g.warned_tokens;
    actions_tracked = length g.actions;
    outputs_tracked = length g.outputs;
    errors_tracked = length g.errors;
    repeated_action = check_repeated_actions g;
    repeated_error = repeated_errors g;
  }
