-- ===== src/Resources/Manager.antt =====
-- scheduler/resource_manager.py, `ResourcePool` and `ResourceManager`: the grants of resources to
-- tasks. The model is of amounts that are natural numbers and that floats add without rounding (below
-- 2 ^ 53); the code takes any float, and has no test of its sign.
use agent_manager.Prelude.Dict
use agent_manager.Prelude.Dict.{Dict}
use agent_manager.Prelude.Fractions.{Fraction}
use agent_manager.Prelude.Int.{ℤ, pos, difference, leb_ℤ}
use agent_manager.Prelude.{
  ℕ, ◌+◌, ◌-◌, ◌*◌, String, Bool, true, false, ◌&&◌, Result, ok, err, List, [], ◌∷◌, map, ltb,
  if◌then◌else◌,
}
use agent_manager.Resources.Totals.{total}

-- A `resource_type`; `other` stands for each text that names none of the four.
pub data Kind : Type 0 where
  cpu memory gpu network other : Kind

-- The dictionary that `allocate_resources` builds.
pub record Amounts : Type 0 where
  pub cpu_amount : ℕ
  pub memory_amount : ℕ
  pub gpu_amount : ℕ
  pub network_amount : ℕ

-- `task_resources.get(resource_type, 0.0)`
unfoldable pub amount : Kind → Amounts → ℕ
amount cpu a = a.cpu_amount
amount memory a = a.memory_amount
amount gpu a = a.gpu_amount
amount network a = a.network_amount
amount other a = 0

pub record ResourcePool : Type 0 where
  pub totals : Amounts
  pub allocated : Dict Amounts

pub record ResourceManager : Type 0 where
  pub pool : ResourcePool
  pub task_allocations : Dict Amounts
  pub active_tasks : ℕ

unfoldable pub get_total_allocated : Kind → ResourcePool → ℕ
get_total_allocated kind p = total (amount kind) p.allocated

unfoldable pub get_available : Kind → ResourcePool → ℤ
get_available other p = pos 0
get_available kind p = difference (amount kind p.totals) (get_total_allocated kind p)

abbrev pub new_manager : Amounts → ResourceManager
new_manager totals = record {
  pool = record { totals = totals; allocated = [] };
  task_allocations = [];
  active_tasks = 0;
}

-- `available[kind] >= request`
unfoldable pub suffices : Kind → Amounts → ResourcePool → Bool
suffices kind request p = leb_ℤ (pos (amount kind request)) (get_available kind p)

unfoldable pub check_resource_availability : Amounts → ResourceManager → Bool
check_resource_availability request m =
    suffices cpu request m.pool
    && suffices memory request m.pool
    && suffices gpu request m.pool
    && suffices network request m.pool

unfoldable pub allocate_resources : String → Amounts → ResourceManager → Bool × ResourceManager
allocate_resources task_id request m =
    if Dict.contains m.task_allocations task_id
    then (false, m)
    else if check_resource_availability request m
    then (
      true,
      record m {
        task_allocations = Dict.put m.task_allocations task_id request;
        pool = record {
          totals = m.pool.totals;
          allocated = Dict.put m.pool.allocated task_id request;
        };
        active_tasks = m.active_tasks + 1;
      },
    )
    else (false, m)

-- `del self.pool.allocated[task_id]` would raise if the two dictionaries had different keys.
pub data ManagerError : Type 0 where
  key_error : String → ManagerError

unfoldable pub release_resources : String → ResourceManager → Result ManagerError ResourceManager
release_resources task_id m =
    if Dict.contains m.task_allocations task_id
    then if Dict.contains m.pool.allocated task_id
      then ok (record m {
        task_allocations = Dict.remove m.task_allocations task_id;
        pool = record { totals = m.pool.totals; allocated = Dict.remove m.pool.allocated task_id };
        active_tasks = m.active_tasks - 1;
      })
      else err (key_error task_id)
    else ok m

-- `x > n`
unfoldable pub exceeds : Fraction → ℕ → Bool
exceeds x n = ltb (n * x.denominator) x.numerator

-- `allocated / total * 100 if total > 0 else 0.0`
unfoldable pub percent : Kind → ResourcePool → Fraction
percent kind p =
    if ltb 0 (amount kind p.totals)
    then record { numerator = get_total_allocated kind p * 100; denominator = amount kind p.totals }
    else record { numerator = 0; denominator = 1 }

-- `min(usage, 100.0)`
unfoldable pub capped : Fraction → Fraction
capped x = if exceeds x 100 then record { numerator = 100; denominator = 1 } else x

pub record ResourceMetrics : Type 0 where
  pub cpu_usage : Fraction
  pub memory_usage : Fraction
  pub gpu_usage : Fraction
  pub network_usage : Fraction
  pub tasks : ℕ

pub data MetricsError : Type 0 where
  out_of_range : Kind → MetricsError

-- `ResourceMetrics.__post_init__`, on numbers that are not negative.
unfoldable pub checked : ResourceMetrics → Result MetricsError ResourceMetrics
checked x =
    if exceeds x.cpu_usage 100
    then err (out_of_range cpu)
    else if exceeds x.memory_usage 100
    then err (out_of_range memory)
    else if exceeds x.gpu_usage 100
    then err (out_of_range gpu)
    else if exceeds x.network_usage 100
    then err (out_of_range network)
    else ok x

unfoldable pub get_resource_metrics : ResourceManager → Result MetricsError ResourceMetrics
get_resource_metrics m = checked (record {
  cpu_usage = capped (percent cpu m.pool);
  memory_usage = capped (percent memory m.pool);
  gpu_usage = capped (percent gpu m.pool);
  network_usage = capped (percent network m.pool);
  tasks = m.active_tasks;
})

pub record Utilization : Type 0 where
  pub in_all : ℕ
  pub in_use : ℕ
  pub available : ℤ
  pub utilization_percent : Fraction

-- The entries that `get_resource_utilization` makes, in the order of its loop.
unfoldable pub get_resource_utilization : ResourceManager → List (Kind × Utilization)
get_resource_utilization m =
    map
      (λ kind. (
        kind,
        record {
          in_all = amount kind m.pool.totals;
          in_use = get_total_allocated kind m.pool;
          available = get_available kind m.pool;
          utilization_percent = percent kind m.pool;
        },
      ))
      (cpu ∷ memory ∷ gpu ∷ network ∷ [])
