-- ===== src/Resources/AllocatorRuns.antt =====
-- agentManager/scheduler/resource_allocator.py: what calls of `ResourceAllocator` lead to.
use agent_manager.Prelude.Dict
use agent_manager.Prelude.Int.{ℤ, pos, negsuc, leb_ℤ-difference}
use agent_manager.Prelude.{
  ◌+◌, ◌≤◌, String, ◌≡◌, refl, true, false, ok, List, [], ◌∷◌, arith, leb, inl, inr, subst, Result,
  Bool-cases,
}
use agent_manager.Resources.Totals.{
  total, IsDistinct, total-put, total-remove, remove-put, IsDistinct-put, IsDistinct-remove,
}
use agent_manager.Resources.Allocator.{
  AmountError, Part, cpu, memory, gpu, ResourceRequest, part, ResourceAllocator, new_allocator,
  non_negative, get_allocated, covers, available, can_allocate, allocate, release,
}

-- No more of a part is allocated than there is, to distinct tasks.
pub record IsWithin (a : ResourceAllocator) : Type 0 where
  pub distinct : IsDistinct a.allocations
  pub within : (p : Part) → total (part p) a.allocations ≤ part p a.capacity

pub data Call : Type 0 where
  take : String → ResourceRequest → Call
  give : String → Call

unfoldable pub run : List Call → ResourceAllocator → ResourceAllocator
run [] a = a
run (take k r ∷ cs) a = run cs (allocate k r a).1
run (give k ∷ cs) a = run cs (release k a)

module _ (r : ResourceRequest) (a : ResourceAllocator) where
  covers_lem :
      (p : Part) → covers p r a ≡ leb (total (part p) a.allocations + part p r) (part p a.capacity)
  unfolding covers available get_allocated
  covers_lem p = leb_ℤ-difference (part p r) (part p a.capacity) (total (part p) a.allocations)

  can_allocate_lem :
      can_allocate r a ≡ true
      → (p : Part) → total (part p) a.allocations + part p r ≤ part p a.capacity
  unfolding can_allocate
  can_allocate_lem h cpu = ground (arith, covers_lem cpu)
  can_allocate_lem h memory = ground (arith, covers_lem cpu, covers_lem memory)
  can_allocate_lem h gpu = ground (arith, covers_lem cpu, covers_lem memory, covers_lem gpu)

  allocate-granted :
      (k : String)
      → (allocate k r a).0 ≡ true
      → (allocate k r a ≡ (true, record a { allocations = Dict.put a.allocations k r }))
        × (Dict.contains a.allocations k ≡ false)
        × (can_allocate r a ≡ true)
  unfolding allocate
  allocate-granted k h = (ground arith, ground arith, ground arith)

  allocate-refused : (k : String) → (allocate k r a).0 ≡ false → allocate k r a ≡ (false, a)
  unfolding allocate
  allocate-refused k h = ground arith

  -- An allocation that is released at once leaves the allocator as it was.
  pub release-allocate : (k : String) → (allocate k r a).0 ≡ true → release k (allocate k r a).1 ≡ a
  unfolding release
  release-allocate k h =
      let (e, fresh, fits) = allocate-granted k h in rw (e, remove-put a.allocations k r fresh) refl

  allocate-IsWithin : (k : String) → IsWithin a → IsWithin (allocate k r a).1
  allocate-IsWithin k i = elim (Bool-cases (allocate k r a).0) [
    | inl h ↦
        let (e, fresh, fits) = allocate-granted k h in
        rw e (record {
          distinct = IsDistinct-put a.allocations k r i.distinct;
          within = λ p.
              omega (arith, total-put (part p) a.allocations k r fresh, can_allocate_lem fits p);
        })
    | inr h ↦ rw (allocate-refused k h) i
  ]

release-IsWithin : (k : String) (a : ResourceAllocator) → IsWithin a → IsWithin (release k a)
unfolding release
release-IsWithin k a i = record {
  distinct = IsDistinct-remove a.allocations k i.distinct;
  within = λ p. omega (arith, total-remove (part p) a.allocations k, i.within p);
}

run_from-IsWithin :
    (calls : List Call) (a : ResourceAllocator) → IsWithin a → IsWithin (run calls a)
unfolding run
run_from-IsWithin [] a i = i
run_from-IsWithin (take k r ∷ cs) a i =
    run_from-IsWithin cs (allocate k r a).1 (allocate-IsWithin r a k i)
run_from-IsWithin (give k ∷ cs) a i = run_from-IsWithin cs (release k a) (release-IsWithin k a i)

same_made :
    (a b : ResourceAllocator) → Path (Result AmountError ResourceAllocator) (ok a) (ok b) → a ≡ b
same_made a b e = cc

new_allocator-IsWithin :
    (c m g : ℤ) (a : ResourceAllocator) → new_allocator c m g ≡ ok a → IsWithin a
unfolding new_allocator non_negative total IsDistinct
new_allocator-IsWithin (negsuc c) m g a made = cc
new_allocator-IsWithin (pos c) (negsuc m) g a made = cc
new_allocator-IsWithin (pos c) (pos m) (negsuc g) a made = cc
new_allocator-IsWithin (pos c) (pos m) (pos g) a made =
    subst IsWithin (same_made _ _ made) (record { distinct = tt; within = λ p. omega arith })

-- For amounts that are whole numbers, added without rounding: if an allocator can be made with the
-- given totals, then after any calls on it the allocations are to distinct tasks and add up to no more than the total, for each of CPU, memory and GPU.
pub run-IsWithin :
    (c m g : ℤ) (a : ResourceAllocator) (calls : List Call)
    → new_allocator c m g ≡ ok a
    → IsWithin (run calls a)
run-IsWithin c m g a calls made = run_from-IsWithin calls a (new_allocator-IsWithin c m g a made)
