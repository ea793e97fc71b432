-- ===== src/Recovery/Choice.antt =====
-- recovery/error_classifier.py and recovery/recovery_engine.py: each has a table of strategies.
use agent_manager.Prelude.{◌≡◌, refl, Bool, true, false}
use agent_manager.Runtime.Errors.{PyError}
use agent_manager.Recovery.Failures.{
  RecoveryStrategy, hitl, escalate, FailureType, timeout, network, syntax, runtime, unknown,
  recommendation, classify,
}
use agent_manager.Recovery.Steps.{select_recovery_strategy}

-- The strategies that hand the task to a person.
unfoldable pub asks : RecoveryStrategy → Bool
asks hitl = true
asks escalate = true
asks _ = false

pub recommendation-select : (f : FailureType) → recommendation f ≡ select_recovery_strategy f
unfolding recommendation select_recovery_strategy
recommendation-select timeout = refl
recommendation-select network = refl
recommendation-select syntax = refl
recommendation-select runtime = refl
recommendation-select unknown = refl

-- The strategy that the classifier gives with its failure type is the one that the engine chooses for
-- a context with that failure type and no strategy, for every exception.
pub classify-select :
    (error : PyError) → (classify error).1 ≡ select_recovery_strategy (classify error).0
unfolding classify
classify-select error = recommendation-select (classify error).0
