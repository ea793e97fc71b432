-- ===== src/Resources/ManagerRuns.antt =====
-- scheduler/resource_manager.py: what calls of `ResourceManager` lead to.
use agent_manager.Prelude.Dict
use agent_manager.Prelude.Dict.{Dict}
use agent_manager.Prelude.Int.{pos, leb_ℤ, difference, leb_ℤ-difference}
use agent_manager.Prelude.{
  ◌+◌, ◌≤◌, String, ◌≡◌, ◌↔◌, refl, true, false, Result, ok, err, List, [], ◌∷◌, length, arith, leb,
  inl, inr, Bool-cases, ap, sym, subst,
}
use agent_manager.Resources.Totals.{
  total, IsDistinct, total-put, total-remove, length-put, length-remove, IsDistinct-put,
  IsDistinct-remove,
}
use agent_manager.Resources.Manager.{
  Kind, cpu, memory, gpu, network, other, Amounts, amount, ResourceManager, new_manager,
  get_total_allocated, get_available, suffices, check_resource_availability, allocate_resources,
  release_resources, ManagerError,
}

-- No more of a kind is granted than there is, and the three records of the grants agree.
pub record IsBalanced (m : ResourceManager) : Type 0 where
  pub same : m.pool.allocated ≡ m.task_allocations
  pub distinct : IsDistinct m.task_allocations
  pub counted : m.active_tasks ≡ length m.task_allocations
  pub within : (kind : Kind) → total (amount kind) m.task_allocations ≤ amount kind m.pool.totals

pub data Call : Type 0 where
  allocate : String → Amounts → Call
  release : String → Call

or_unchanged : ResourceManager → Result ManagerError ResourceManager → ResourceManager
or_unchanged m (ok m') = m'
or_unchanged m (err e) = m

unfoldable pub run : List Call → ResourceManager → ResourceManager
unfolding or_unchanged
run [] m = m
run (allocate k r ∷ cs) m = run cs (allocate_resources k r m).1
run (release k ∷ cs) m = run cs (or_unchanged m (release_resources k m))

-- The request fits beside what is granted.
pub Fits : Amounts → ResourceManager → Type 0
Fits r m =
    (kind : Kind)
    → total (amount kind) m.task_allocations + amount kind r ≤ amount kind m.pool.totals

total-other : (d : Dict Amounts) → total (amount other) d ≡ 0
unfolding total amount
total-other [] = refl
total-other ((k, a) ∷ d) = omega (arith, total-other d)

module _ (r : Amounts) (m : ResourceManager) (i : IsBalanced m) where
  suffices_lem :
      (kind : Kind)
      → get_available kind m.pool
        ≡ difference (amount kind m.pool.totals) (total (amount kind) m.pool.allocated)
      → suffices kind r m.pool
        ≡ leb (total (amount kind) m.task_allocations + amount kind r) (amount kind m.pool.totals)
  unfolding suffices
  suffices_lem kind e = rw e (
      subst
        (λ d.
          leb_ℤ (pos (amount kind r))
            (difference (amount kind m.pool.totals) (total (amount kind) d))
          ≡ leb (total (amount kind) m.task_allocations + amount kind r)
              (amount kind m.pool.totals))
        (sym i.same)
        (leb_ℤ-difference (amount kind r) (amount kind m.pool.totals)
          (total (amount kind) m.task_allocations)))

  check_resource_availability_lem : (check_resource_availability r m ≡ true) ↔ Fits r m
  unfolding check_resource_availability Fits get_available get_total_allocated amount
  check_resource_availability_lem = (
    λ h kind.
        elim kind
          as (λ k. total (amount k) m.task_allocations + amount k r ≤ amount k m.pool.totals) [
            | cpu ↦ ground (arith, cpu_fits)
            | memory ↦ ground (arith, cpu_fits, memory_fits)
            | gpu ↦ ground (arith, cpu_fits, memory_fits, gpu_fits)
            | network ↦ ground (arith, cpu_fits, memory_fits, gpu_fits, network_fits)
            | other ↦ omega (arith, total-other m.task_allocations)
          ],
    λ fits. ground (
      arith,
      cpu_fits,
      memory_fits,
      gpu_fits,
      network_fits,
      fits cpu,
      fits memory,
      fits gpu,
      fits network,
    ),
  )
    where
      cpu_fits :
          suffices cpu r m.pool
          ≡ leb (total (amount cpu) m.task_allocations + amount cpu r) (amount cpu m.pool.totals)
      cpu_fits = suffices_lem cpu refl

      memory_fits :
          suffices memory r m.pool
          ≡ leb
              (total (amount memory) m.task_allocations + amount memory r)
              (amount memory m.pool.totals)
      memory_fits = suffices_lem memory refl

      gpu_fits :
          suffices gpu r m.pool
          ≡ leb (total (amount gpu) m.task_allocations + amount gpu r) (amount gpu m.pool.totals)
      gpu_fits = suffices_lem gpu refl

      network_fits :
          suffices network r m.pool
          ≡ leb
              (total (amount network) m.task_allocations + amount network r)
              (amount network m.pool.totals)
      network_fits = suffices_lem network refl

  -- For amounts that are natural numbers, added without rounding, and a manager whose records agree
  -- (`IsBalanced`): `allocate_resources` answers True exactly if the task holds no grant and, for each
  -- kind of resource, the request fits beside what is granted.
  pub allocate_resources-Fits :
      (k : String)
      → ((allocate_resources k r m).0 ≡ true)
        ↔ ((Dict.contains m.task_allocations k ≡ false) × Fits r m)
  unfolding allocate_resources
  allocate_resources-Fits k = (
    λ h. (ground arith, check_resource_availability_lem.0 (ground arith)),
    λ (fresh, fits). ground (arith, check_resource_availability_lem.1 fits),
  )

  abbrev granted : String → ResourceManager
  granted k = record m {
    task_allocations = Dict.put m.task_allocations k r;
    pool = record { totals = m.pool.totals; allocated = Dict.put m.pool.allocated k r };
    active_tasks = m.active_tasks + 1;
  }

  allocate_resources-granted :
      (k : String)
      → (allocate_resources k r m).0 ≡ true
      → allocate_resources k r m ≡ (true, granted k)
  unfolding allocate_resources
  allocate_resources-granted k h = ground arith

  -- A refusal leaves the manager as it was.
  pub allocate_resources-refused :
      (k : String) → (allocate_resources k r m).0 ≡ false → allocate_resources k r m ≡ (false, m)
  unfolding allocate_resources
  allocate_resources-refused k h = ground arith

  allocate_resources-IsBalanced : (k : String) → IsBalanced (allocate_resources k r m).1
  unfolding Fits
  allocate_resources-IsBalanced k = elim (Bool-cases (allocate_resources k r m).0) [
    | inl h ↦
        let (fresh, fits) = (allocate_resources-Fits k).0 h in
        rw (allocate_resources-granted k h) (record {
          same = ap (λ d. Dict.put d k r) i.same;
          distinct = IsDistinct-put m.task_allocations k r i.distinct;
          counted = omega (arith, i.counted, length-put m.task_allocations k r fresh);
          within = λ kind.
              omega (arith, total-put (amount kind) m.task_allocations k r fresh, fits kind);
        })
    | inr h ↦ rw (allocate_resources-refused k h) i
  ]

release_resources-IsBalanced :
    (k : String) (m : ResourceManager)
    → IsBalanced m
    → IsBalanced (or_unchanged m (release_resources k m))
unfolding release_resources or_unchanged
release_resources-IsBalanced k m i = elim (Bool-cases (Dict.contains m.task_allocations k)) [
  | inr absent ↦ rw absent i
  | inl present ↦
      rw (present, subst (λ d. Dict.contains d k ≡ true) (sym i.same) present)
        (record {
          same = ap (λ d. Dict.remove d k) i.same;
          distinct = IsDistinct-remove m.task_allocations k i.distinct;
          counted = omega (arith, i.counted, length-remove m.task_allocations k i.distinct present);
          within =
              λ kind. omega (arith, total-remove (amount kind) m.task_allocations k, i.within kind);
        })
]

new_manager-IsBalanced : (totals : Amounts) → IsBalanced (new_manager totals)
unfolding total IsDistinct
new_manager-IsBalanced totals = record {
  same = refl;
  distinct = tt;
  counted = refl;
  within = λ kind. omega arith;
}

run_from-IsBalanced :
    (calls : List Call) (m : ResourceManager) → IsBalanced m → IsBalanced (run calls m)
unfolding run
run_from-IsBalanced [] m i = i
run_from-IsBalanced (allocate k r ∷ cs) m i =
    run_from-IsBalanced cs (allocate_resources k r m).1 (allocate_resources-IsBalanced r m i k)
run_from-IsBalanced (release k ∷ cs) m i =
    run_from-IsBalanced cs (or_unchanged m (release_resources k m))
      (release_resources-IsBalanced k m i)

-- For amounts that are natural numbers, added without rounding, after any calls on a new manager:
-- the pool and the manager record the same grants, to distinct tasks, their number is the count of active tasks, and the grants of each kind add up to no more
-- than its total.
pub run-IsBalanced :
    (totals : Amounts) (calls : List Call) → IsBalanced (run calls (new_manager totals))
run-IsBalanced totals calls =
    run_from-IsBalanced calls (new_manager totals) (new_manager-IsBalanced totals)
