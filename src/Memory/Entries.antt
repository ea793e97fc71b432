-- ===== src/Memory/Entries.antt =====
-- memory/memory_system.py: `MemoryLayer`, `MemoryEntry`, and the operator LIKE of SQLite. Times are
-- natural numbers of seconds, which the columns of the table have as they are. A layer is stored by its
-- name and read back by `layer_named`. Tags and metadata are stored as JSON: metadata is limited to
-- values that `json.loads` gives back as `json.dumps` took them, so the table has these as they are,
-- too. Values that `json.dumps` refuses, for which the code raises, are left out.
use Prim.Native.Char.{Char, code}
use Prim.Native.String.{[], ◌∷◌}
use agent_manager.Prelude.{
  ℕ, ◌+◌, String, Bool, true, false, ◌&&◌, ◌||◌, Option, none, some, ◌≡◌, refl, str_eq, List, ltb,
  leb, ◌==◌, if◌then◌else◌,
}
use agent_manager.Prelude.Dict.{Dict}

pub data MemoryLayer : Type 0 where
  short_term medium_term long_term : MemoryLayer

unfoldable pub layer_name : MemoryLayer → String
layer_name short_term = "SHORT_TERM"
layer_name medium_term = "MEDIUM_TERM"
layer_name long_term = "LONG_TERM"

-- `layer.value[0]` and `layer.value[1]`
unfoldable pub layer_ttl : MemoryLayer → Option ℕ
layer_ttl short_term = some 3600
layer_ttl medium_term = some 604800
layer_ttl long_term = none

unfoldable pub layer_description : MemoryLayer → String
layer_description short_term = "当前会话"
layer_description medium_term = "任务历史"
layer_description long_term = "知识库"

unfoldable pub same_layer : MemoryLayer → MemoryLayer → Bool
same_layer short_term short_term = true
same_layer medium_term medium_term = true
same_layer long_term long_term = true
same_layer _ _ = false

-- `MemoryLayer[name]`
unfoldable pub layer_named : String → Option MemoryLayer
layer_named name =
    if str_eq name "SHORT_TERM"
    then some short_term
    else if str_eq name "MEDIUM_TERM"
    then some medium_term
    else if str_eq name "LONG_TERM"
    then some long_term
    else none

-- What is stored by its name is read back.
layer_named-layer_name : (layer : MemoryLayer) → layer_named (layer_name layer) ≡ some layer
unfolding layer_named layer_name
layer_named-layer_name short_term = refl
layer_named-layer_name medium_term = refl
layer_named-layer_name long_term = refl

mutual
  pub data Json : Type 0 where
    json_null : Json
    json_text : String → Json
    json_number : ℕ → Json
    json_flag : Bool → Json
    json_array : JsonItems → Json
    json_object : JsonMembers → Json

  pub data JsonItems : Type 0 where
    no_items : JsonItems
    item : Json → JsonItems → JsonItems

  pub data JsonMembers : Type 0 where
    no_members : JsonMembers
    entry : String → Json → JsonMembers → JsonMembers

pub record MemoryEntry : Type 0 where
  pub content : String
  pub layer : MemoryLayer
  pub tags : List String
  pub metadata : Dict Json
  pub entry_id : String
  pub timestamp : ℕ
  pub ttl_seconds : Option ℕ

unfoldable pub ttl_or_default : Option ℕ → MemoryLayer → Option ℕ
unfolding layer_ttl
ttl_or_default none layer = layer_ttl layer
ttl_or_default (some n) layer = some n

-- `__post_init__`, which an entry that is read from the table runs too
unfoldable pub post_init : MemoryEntry → MemoryEntry
unfolding ttl_or_default
post_init e = record e { ttl_seconds = ttl_or_default e.ttl_seconds e.layer }

unfoldable pub past : (now timestamp : ℕ) → Option ℕ → Bool
past now timestamp none = false
past now timestamp (some n) = ltb (timestamp + n) now

unfoldable pub is_expired : (now : ℕ) → MemoryEntry → Bool
unfolding past
is_expired now e = past now e.timestamp e.ttl_seconds

-- Two characters are alike for LIKE: equal, but for the case of a letter of ASCII.
unfoldable lower_code : ℕ → ℕ
lower_code n = if leb 65 n && leb n 90 then n + 32 else n

abbrev alike : Char → Char → Bool
alike c d = lower_code (code c) == lower_code (code d)

unfoldable any_suffix : (String → Bool) → String → Bool
any_suffix accepts [] = accepts []
any_suffix accepts (c ∷ text) = accepts (c ∷ text) || any_suffix accepts text

unfoldable after_char : (Char → Bool) → (String → Bool) → String → Bool
after_char fits accepts [] = false
after_char fits accepts (c ∷ text) = fits c && accepts text

-- `text LIKE pattern`: "%" stands for any text, "_" for any character.
unfoldable pub like : (pattern text : String) → Bool
unfolding lower_code any_suffix after_char
like [] [] = true
like [] (c ∷ text) = false
like (p ∷ pattern) text = elim (code p == 37) [
  | true ↦ any_suffix (like pattern) text
  | false ↦ elim (code p == 95) [
    | true ↦ after_char (λ c. true) (like pattern) text
    | false ↦ after_char (alike p) (like pattern) text
  ]
]
