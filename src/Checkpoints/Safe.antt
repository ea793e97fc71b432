-- ===== src/Checkpoints/Safe.antt =====
-- engine/checkpoint.py: what is known of an archive whose data was loaded.
use agent_manager.Prelude.{
  String, ◌≡◌, Bool, true, false, Result, ok, Result-cases, some, inl, inr, List, [], ◌∷◌, arith,
}
use agent_manager.Runtime.Errors.{PyError}
use agent_manager.Recovery.Failures.{includes}
use agent_manager.Checkpoints.{Member, is_absolute, safe_extract, load_checkpoint_with_recovery}

module _ (resolves_inside : String → Bool) (target_path : String) where
  -- A member with a relative name, without "..", that stays in the target directory.
  pub record IsSafe (member : Member) : Type 0 where
    pub relative : is_absolute member.name ≡ false
    pub no_parent : includes member.name ".." ≡ false
    pub inside : resolves_inside member.name ≡ true

  pub data AllSafe : List Member → Type 0 where
    no_member : AllSafe []
    next_member : (m : Member) (ms : List Member) → IsSafe m → AllSafe ms → AllSafe (m ∷ ms)

  safe_extract-AllSafe :
      (members : List Member)
      → safe_extract resolves_inside target_path members ≡ ok tt
      → AllSafe members
  unfolding safe_extract
  safe_extract-AllSafe [] h = no_member
  safe_extract-AllSafe (m ∷ ms) h =
      next_member m ms
        (record {
          relative = ground (arith, h);
          no_parent = ground (arith, h);
          inside = ground (arith, h);
        })
        (safe_extract-AllSafe ms (ground (arith, h)))

  -- If data was loaded from an archive, every member of the archive has a relative name without "..",
  -- and its path stays in the target directory.
  pub load_checkpoint_with_recovery-AllSafe :
      {A : Type 0} (load : String → Result PyError A) (members : List Member) (a : A)
      → load_checkpoint_with_recovery resolves_inside target_path load (some (ok members))
        ≡ ok (some a)
      → AllSafe members
  unfolding load_checkpoint_with_recovery
  load_checkpoint_with_recovery-AllSafe load members a h =
      elim (Result-cases (safe_extract resolves_inside target_path members)) [
        | inl (checked, e) ↦ safe_extract-AllSafe members e
        | inr (e', e) ↦ absurd (ground (arith, h, e))
      ]
