-- ===== src/DefectRepair/Priorities.antt =====
-- defect_repair/classifier.py, `get_repair_priority`: its range, and its order by severity.
use agent_manager.Prelude.{ℕ, ◌+◌, ◌*◌, ◌/◌, ◌≤◌, ◌<◌, arith}
use agent_manager.DefectRepair.Pipeline.{
  RepairLevel, l1_syntax, l2_logic, l3_performance, l4_architecture,
}
use agent_manager.DefectRepair.Classifier.{
  SeverityLevel, trivial, low, medium, high, critical, level_of, level_priority, severity_tenths,
  clamp, get_repair_priority,
}

-- The multiplier is close to linear in the number of the severity.
severity_tenths-level_of :
    (s : SeverityLevel)
    → (3 * level_of s ≤ severity_tenths s) × (severity_tenths s ≤ 3 * level_of s + 2)
unfolding severity_tenths level_of
severity_tenths-level_of trivial = (omega arith, omega arith)
severity_tenths-level_of low = (omega arith, omega arith)
severity_tenths-level_of medium = (omega arith, omega arith)
severity_tenths-level_of high = (omega arith, omega arith)
severity_tenths-level_of critical = (omega arith, omega arith)

severity_tenths-le :
    (s t : SeverityLevel) → level_of s < level_of t → severity_tenths s ≤ severity_tenths t
severity_tenths-le s t h =
    let (_, above) = severity_tenths-level_of s in
    let (below, _) = severity_tenths-level_of t in omega arith

product-le :
    (level : RepairLevel) (m n : ℕ)
    → m ≤ n
    → level_priority level * m / 10 ≤ level_priority level * n / 10
unfolding level_priority
product-le l1_syntax m n h = omega arith
product-le l2_logic m n h = omega arith
product-le l3_performance m n h = omega arith
product-le l4_architecture m n h = omega arith

clamp-le : (m n : ℕ) → m ≤ n → clamp m ≤ clamp n
unfolding clamp
clamp-le m n h = ground arith

clamp-range : (n : ℕ) → (1 ≤ clamp n) × (clamp n ≤ 100)
unfolding clamp
clamp-range n = (ground arith, ground arith)

-- The priority of a repair is from 1 to 100, and at one level of repair a defect that is more severe has
-- no lower priority.
pub get_repair_priority-range :
    (level : RepairLevel) (s t : SeverityLevel)
    → (1 ≤ get_repair_priority level s)
      × (get_repair_priority level s ≤ 100)
      × (level_of s < level_of t → get_repair_priority level s ≤ get_repair_priority level t)
unfolding get_repair_priority
get_repair_priority-range level s t =
    let (least, most) = clamp-range (level_priority level * severity_tenths s / 10) in
    (least, most, λ h. clamp-le _ _ (product-le level _ _ (severity_tenths-le s t h)))
