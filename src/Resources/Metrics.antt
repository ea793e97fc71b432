-- ===== src/Resources/Metrics.antt =====
-- scheduler/resource_manager.py, `get_resource_metrics`: the percentages of a manager in use.
use agent_manager.Prelude.{◌≤◌, ◌≡◌, refl, false, ok, arith, sym, subst}
use agent_manager.Resources.Totals.{total}
use agent_manager.Resources.Manager.{
  Kind, cpu, memory, gpu, network, amount, ResourceManager, get_total_allocated, exceeds, percent,
  capped, get_resource_metrics, checked,
}
use agent_manager.Resources.ManagerRuns.{IsBalanced}

within_pool :
    (m : ResourceManager) (kind : Kind)
    → IsBalanced m
    → total (amount kind) m.pool.allocated ≤ amount kind m.pool.totals
within_pool m kind i =
    subst (λ d. total (amount kind) d ≤ amount kind m.pool.totals) (sym i.same) (i.within kind)

percent-exceeds :
    (m : ResourceManager) (kind : Kind) → IsBalanced m → exceeds (percent kind m.pool) 100 ≡ false
unfolding exceeds percent get_total_allocated
percent-exceeds m kind i = ground (arith, within_pool m kind i)

percent-capped :
    (m : ResourceManager) (kind : Kind)
    → IsBalanced m
    → capped (percent kind m.pool) ≡ percent kind m.pool
unfolding capped
percent-capped m kind i = rw (percent-exceeds m kind i) refl

-- For a manager in which every kind's grants are within its total, the metrics are accepted, and
-- they are the shares in use of the four kinds, none of them capped.
pub get_resource_metrics_lem :
    (m : ResourceManager)
    → IsBalanced m
    → get_resource_metrics m
      ≡ ok (record {
        cpu_usage = percent cpu m.pool;
        memory_usage = percent memory m.pool;
        gpu_usage = percent gpu m.pool;
        network_usage = percent network m.pool;
        tasks = m.active_tasks;
      })
unfolding get_resource_metrics checked
get_resource_metrics_lem m i =
    rw
      (
        percent-capped m cpu i,
        percent-capped m memory i,
        percent-capped m gpu i,
        percent-capped m network i,
        percent-exceeds m cpu i,
        percent-exceeds m memory i,
        percent-exceeds m gpu i,
        percent-exceeds m network i,
      )
      refl
