-- ===== src/Checkpoints/Tests.antt =====
-- engine/checkpoint.py on small inputs.
use agent_manager.Prelude.{◌≡◌, refl, true, ok, none, some, List, [], ◌∷◌}
use agent_manager.Recovery.Failures.{includes}
use agent_manager.Checkpoints.{
  Member, is_absolute, safe_extract, checkpoint_member, read_member, load_checkpoint_with_recovery,
  key_for_task, all_allowed,
}
use agent_manager.Checkpoints.Safe.{AllSafe, load_checkpoint_with_recovery-AllSafe}

abbrev archive : List Member
archive =
    record { name = "checkpoint.json"; content = some "{}" }
    ∷ record { name = "logs/run.txt"; content = none }
    ∷ []

key_of_t : key_for_task "checkpoints" "t-1" ≡ ok "checkpoints/t-1.json"
unfolding key_for_task all_allowed
key_of_t = refl

archive_loaded :
    load_checkpoint_with_recovery (λ name. true) "/tmp" (λ bytes. ok bytes) (some (ok archive))
    ≡ ok (some "{}")
unfolding load_checkpoint_with_recovery safe_extract checkpoint_member read_member is_absolute
    includes
archive_loaded = refl

load_checkpoint_with_recovery-AllSafe_example : AllSafe (λ name. true) "/tmp" archive
load_checkpoint_with_recovery-AllSafe_example =
    load_checkpoint_with_recovery-AllSafe (λ name. true) "/tmp" (λ bytes. ok bytes) archive "{}"
      archive_loaded
