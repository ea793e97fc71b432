-- ===== src/Resources/Allocator.antt =====
-- agentManager/scheduler/resource_allocator.py, `ResourceRequest` and `ResourceAllocator`. The
-- model is of amounts that are whole numbers and that floats add without rounding (below 2 ^ 53); that
-- they are not negative is what the constructors check.
use agent_manager.Prelude.Dict
use agent_manager.Prelude.Dict.{Dict}
use agent_manager.Prelude.Int.{ℤ, pos, negsuc, difference, leb_ℤ}
use agent_manager.Prelude.{
  ℕ, String, Bool, true, false, ◌&&◌, ◌||◌, not, Result, ok, err, [], if◌then◌else◌,
}
use agent_manager.Resources.Totals.{total}

-- The texts "cpu", "memory" and "gpu".
pub data Part : Type 0 where
  cpu memory gpu : Part

pub record ResourceRequest : Type 0 where
  pub cpu_part : ℕ
  pub memory_part : ℕ
  pub gpu_part : ℕ

unfoldable pub part : Part → ResourceRequest → ℕ
part cpu r = r.cpu_part
part memory r = r.memory_part
part gpu r = r.gpu_part

pub data AmountError : Type 0 where
  negative : Part → AmountError

-- The loop of `__post_init__`, in `ResourceRequest` and in `ResourceAllocator`.
unfoldable pub non_negative : (cpu memory gpu : ℤ) → Result AmountError ResourceRequest
non_negative (negsuc c) m g = err (negative cpu)
non_negative (pos c) (negsuc m) g = err (negative memory)
non_negative (pos c) (pos m) (negsuc g) = err (negative gpu)
non_negative (pos c) (pos m) (pos g) = ok (record { cpu_part = c; memory_part = m; gpu_part = g })

pub record ResourceAllocator : Type 0 where
  pub capacity : ResourceRequest
  pub allocations : Dict ResourceRequest

unfoldable pub new_allocator :
    (total_cpu total_memory total_gpu : ℤ) → Result AmountError ResourceAllocator
unfolding non_negative
new_allocator total_cpu total_memory total_gpu =
    elim (non_negative total_cpu total_memory total_gpu) [
      | err e ↦ err e
      | ok capacity ↦ ok (record { capacity = capacity; allocations = [] })
    ]

unfoldable pub get_allocated : Part → ResourceAllocator → ℕ
get_allocated p a = total (part p) a.allocations

unfoldable pub available : Part → ResourceAllocator → ℤ
unfolding get_allocated
available p a = difference (part p a.capacity) (get_allocated p a)

unfoldable pub covers : Part → ResourceRequest → ResourceAllocator → Bool
unfolding available
covers p r a = leb_ℤ (pos (part p r)) (available p a)

unfoldable pub can_allocate : ResourceRequest → ResourceAllocator → Bool
unfolding covers
can_allocate r a = covers cpu r a && covers memory r a && covers gpu r a

unfoldable pub allocate : String → ResourceRequest → ResourceAllocator → Bool × ResourceAllocator
allocate task_id r a =
    if Dict.contains a.allocations task_id || not (can_allocate r a)
    then (false, a)
    else (true, record a { allocations = Dict.put a.allocations task_id r })

unfoldable pub release : String → ResourceAllocator → ResourceAllocator
release task_id a = record a { allocations = Dict.remove a.allocations task_id }
