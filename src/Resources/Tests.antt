-- ===== src/Resources/Tests.antt =====
-- The resource managers on small inputs.
use agent_manager.Prelude.Dict
use agent_manager.Prelude.Int.{pos, leb_ℤ, difference}
use agent_manager.Prelude.{◌≡◌, ◌↔◌, refl, true, false, ok, List, [], ◌∷◌}
use agent_manager.Resources.Totals.{total}
use agent_manager.Resources.Manager.{Amounts, ResourceManager, new_manager, allocate_resources}
use agent_manager.Resources.ManagerRuns
use agent_manager.Resources.ManagerRuns.{Call, allocate, release, Fits}
use agent_manager.Resources.Allocator
use agent_manager.Resources.Allocator.{
  ResourceRequest, ResourceAllocator, new_allocator, non_negative, can_allocate, covers,
  get_allocated, part,
}
use agent_manager.Resources.AllocatorRuns
use agent_manager.Resources.AllocatorRuns.{take, give}

abbrev machine : Amounts
machine = record { cpu_amount = 8; memory_amount = 32; gpu_amount = 1; network_amount = 100 }

abbrev job : Amounts
job = record { cpu_amount = 6; memory_amount = 8; gpu_amount = 0; network_amount = 0 }

abbrev calls : List Call
calls = allocate "a" job ∷ allocate "b" job ∷ release "a" ∷ allocate "b" job ∷ []

abbrev after : ResourceManager
after = ManagerRuns.run calls (new_manager machine)

run-IsBalanced_example : ManagerRuns.IsBalanced after
run-IsBalanced_example = ManagerRuns.run-IsBalanced machine calls

new_manager-IsBalanced : ManagerRuns.IsBalanced (new_manager machine)
unfolding ManagerRuns.run
new_manager-IsBalanced = ManagerRuns.run-IsBalanced machine []

allocate_resources-Fits_example :
    ((allocate_resources "b" job (new_manager machine)).0 ≡ true)
    ↔ ((Dict.contains {V = Amounts} [] "b" ≡ false) × Fits job (new_manager machine))
allocate_resources-Fits_example =
    ManagerRuns.allocate_resources-Fits job (new_manager machine) new_manager-IsBalanced "b"

abbrev small : ResourceRequest
small = record { cpu_part = 2; memory_part = 4; gpu_part = 0 }

abbrev of_four : ResourceAllocator
of_four = record {
  capacity = record { cpu_part = 4; memory_part = 16; gpu_part = 0 };
  allocations = [];
}

of_four-made : new_allocator (pos 4) (pos 16) (pos 0) ≡ ok of_four
unfolding new_allocator non_negative
of_four-made = refl

run-IsWithin_example :
    AllocatorRuns.IsWithin
      (AllocatorRuns.run (take "a" small ∷ take "b" small ∷ take "c" small ∷ give "a" ∷ []) of_four)
run-IsWithin_example =
    AllocatorRuns.run-IsWithin (pos 4) (pos 16) (pos 0) of_four
      (take "a" small ∷ take "b" small ∷ take "c" small ∷ give "a" ∷ []) of_four-made

small-taken : (Allocator.allocate "a" small of_four).0 ≡ true
unfolding Allocator.allocate can_allocate covers Allocator.available get_allocated part total
    Dict.contains leb_ℤ difference
small-taken = refl
