-- ===== src/Memory/Rows.antt =====
-- memory/memory_system.py: the table under its three statements.
use agent_manager.Prelude.{
  String, ◌≡◌, refl, ◌∙◌, ap, Bool, true, false, Bool-cases, Option, none, some, inl, inr, List, [],
  ◌∷◌, ◌++◌, str_eq, eq_iff, if◌then◌else◌, arith,
}
use agent_manager.Memory.Entries.{MemoryEntry}
use agent_manager.Memory.Store.{delete_row, insert_row, select_row}

pub select_row-delete_row :
    (j k : String) (rows : List MemoryEntry)
    → select_row (delete_row j rows) k ≡ (if str_eq j k then none else select_row rows k)
unfolding select_row delete_row
select_row-delete_row j k [] = ground arith
select_row-delete_row j k (row ∷ rows) = ground (
  arith,
  eq_iff j k,
  eq_iff row.entry_id j,
  eq_iff row.entry_id k,
  select_row-delete_row j k rows,
)

-- The first answer that there is.
abbrev pub or_next : Option MemoryEntry → Option MemoryEntry → Option MemoryEntry
or_next none b = b
or_next (some a) b = some a

pub select_row-append :
    (rows : List MemoryEntry) (e : MemoryEntry) (k : String)
    → select_row (rows ++ e ∷ []) k
      ≡ or_next (select_row rows k) (if str_eq e.entry_id k then some e else none)
unfolding select_row
select_row-append [] e k = refl
select_row-append (row ∷ rows) e k = elim (Bool-cases (str_eq row.entry_id k)) [
  | inl h ↦ rw (select_row, h) refl
  | inr h ↦ rw (select_row, h) (select_row-append rows e k)
]

pub select_row-insert_row :
    (e : MemoryEntry) (rows : List MemoryEntry) (k : String)
    → select_row (insert_row e rows) k ≡ (if str_eq e.entry_id k then some e else select_row rows k)
unfolding insert_row
select_row-insert_row e rows k =
    select_row-append (delete_row e.entry_id rows) e k
    ∙ ap (λ o. or_next o (if str_eq e.entry_id k then some e else none))
        (select_row-delete_row e.entry_id k rows)
    ∙ chosen_row e (str_eq e.entry_id k) (select_row rows k)
  where
    chosen_row :
        (e : MemoryEntry) (b : Bool) (o : Option MemoryEntry)
        → or_next (if b then none else o) (if b then some e else none) ≡ (if b then some e else o)
    chosen_row e true o = refl
    chosen_row e false none = refl
    chosen_row e false (some a) = refl
