-- ===== src/Checkpoints.antt =====
-- engine/checkpoint.py. The object store, json and the resolution of paths by the file system are
-- parameters; an archive is the list of its members, each with what can be read of it.
use Prim.Native.Char.{Char, code}
use Prim.Native.String
use Prim.Native.String.{[], ◌∷◌}
use agent_manager.Prelude.Dict
use agent_manager.Prelude.Dict.{Dict}
use agent_manager.Prelude.{
  ℕ, ◌+◌, String, Bool, true, false, not, ◌&&◌, ◌||◌, Result, ok, err, Exec, Option, none, some,
  List, [], ◌∷◌, leb, ◌==◌, if◌then◌else◌, str_eq,
}
use agent_manager.Runtime.Errors.{PyError, value_error}
use agent_manager.Runtime.Context.{ExecutionContext}
use agent_manager.Runtime.Executor.{CheckpointManager}
use agent_manager.Recovery.Failures.{includes}
pub mod Safe
mod Tests

-- `[A-Za-z0-9_.:-]`
unfoldable pub allowed_char : Char → Bool
allowed_char c =
    let n = code c in
    (leb 65 n && leb n 90)
    || (leb 97 n && leb n 122)
    || (leb 48 n && leb n 57)
    || n == 95
    || n == 46
    || n == 58
    || n == 45

unfoldable pub all_allowed : String → Bool
unfolding allowed_char
all_allowed [] = true
all_allowed (c ∷ text) = allowed_char c && all_allowed text

abbrev str : String → String → String
str = String.◌++◌

unfoldable pub key_for_task : (prefix task_id : String) → Result PyError String
unfolding all_allowed
key_for_task prefix task_id =
    if str_eq task_id "" || not (all_allowed task_id)
    then err (value_error (str "Invalid task_id for checkpoint object key: " task_id))
    else if str_eq prefix ""
    then ok (str task_id ".json")
    else ok (str prefix (str "/" (str task_id ".json")))

-- The object store, whose own state is `O`, and json's texts of a context.
pub record ObjectStore (O : Type 0) : Type 0 where
  pub put_bytes : (key bytes : String) → O → O
  pub get_bytes : String → O → Option String
  pub delete : String → O → O

pub record Json : Type 0 where
  pub dumps : ExecutionContext → Result PyError String
  pub loads : String → Result PyError ExecutionContext

abbrev loaded : Result PyError ExecutionContext → Result PyError (Option ExecutionContext)
loaded (ok c) = ok (some c)
loaded (err e) = err e

-- `ObjectStoreCheckpointManager`, with its prefix stripped of slashes.
module _ {O : Type 0} (store : ObjectStore O) (json : Json) (prefix : String) where
  unfoldable pub save_object : String → ExecutionContext → Exec O PyError (Unit {0})
  save_object task_id context o = elim (key_for_task prefix task_id) [
    | err e ↦ (err e, o)
    | ok key ↦ elim (json.dumps context) [
      | err e ↦ (err e, o)
      | ok bytes ↦ (ok tt, store.put_bytes key bytes o)
    ]
  ]

  unfoldable pub load_object : String → O → Result PyError (Option ExecutionContext)
  load_object task_id o = elim (key_for_task prefix task_id) [
    | err e ↦ err e
    | ok key ↦ elim (store.get_bytes key o) [
      | none ↦ ok none
      | some bytes ↦ loaded (json.loads bytes)
    ]
  ]

  unfoldable pub delete_object : String → Exec O PyError (Unit {0})
  delete_object task_id o = elim (key_for_task prefix task_id) [
    | err e ↦ (err e, o)
    | ok key ↦ (ok tt, store.delete key o)
  ]

  abbrev pub object_store : CheckpointManager O
  object_store = record {
    save_checkpoint = save_object;
    load_checkpoint = load_object;
    delete_checkpoint = delete_object;
  }

pub record Member : Type 0 where
  pub name : String
  pub content : Option String

-- `name.startswith("/")`
unfoldable pub is_absolute : String → Bool
is_absolute [] = false
is_absolute (c ∷ text) = code c == 47

-- `resolves_inside` tells whether the target directory, joined with the name and resolved, is in the
-- target directory.
module _ (resolves_inside : String → Bool) (target_path : String) where
  abbrev escapes : String → PyError
  escapes name = value_error (
      str "Path traversal detected: "
        (str name (str " attempts to escape target directory " target_path)))

  unfoldable pub safe_extract : List Member → Result PyError (Unit {0})
  unfolding is_absolute includes
  safe_extract [] = ok tt
  safe_extract (member ∷ members) =
      let rest = safe_extract members in
      if is_absolute member.name
      then err (value_error (str "Absolute path detected in archive: " member.name))
      else if includes member.name ".."
      then err (escapes member.name)
      else if not (resolves_inside member.name)
      then err (escapes member.name)
      else rest

  unfoldable pub checkpoint_member : List Member → Option Member
  checkpoint_member [] = none
  checkpoint_member (member ∷ members) =
      let rest = checkpoint_member members in
      if str_eq member.name "checkpoint.json" then some member else rest

  unfoldable pub read_member :
      {A : Type 0} → (String → Result PyError A) → Option Member → Result PyError (Option A)
  read_member load none = ok none
  read_member load (some member) = elim member.content [
    | none ↦ ok none
    | some bytes ↦ elim (load bytes) [ ok a ↦ ok (some a) | err e ↦ err e ]
  ]

  -- The archive is `none` if the file does not exist, and the error of `tarfile.open` if it cannot be
  -- read.
  unfoldable pub load_checkpoint_with_recovery :
      {A : Type 0}
      → (String → Result PyError A)
      → Option (Result PyError (List Member))
      → Result PyError (Option A)
  load_checkpoint_with_recovery load none = ok none
  load_checkpoint_with_recovery load (some (err e)) = err e
  load_checkpoint_with_recovery load (some (ok members)) = elim (safe_extract members) [
    | err e ↦ err e
    | ok checked ↦ read_member load (checkpoint_member members)
  ]
