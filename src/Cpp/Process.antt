-- ===== src/Cpp/Process.antt =====
-- The free functions runtime_init, runtime_has_avx2, allocation_metrics and
-- reset_allocation_counters, which are about the whole process.
use libdense.Common.{Bool, if◌then◌else◌}
use libdense.DenseSim.{is_ok, Library, ProcessLibrary}
use libdense.Cpp.State.{Outcome, returned, thrown}
use libdense.Cpp.Steps.{failure}
use libdense.Cpp.Types.{AllocationMetrics, allocation_metrics_from_c}

module _ {Memory : Type 0} (lib : Library Memory) (process : ProcessLibrary Memory) where
  unfoldable pub runtime_init : Memory → Outcome (Unit {0}) × Memory
  runtime_init m =
      let (r, m') = process.runtime_init m in
      (if is_ok r then returned tt else thrown (failure lib r "ds_runtime_init"), m')

  unfoldable pub runtime_has_avx2 : Memory → Bool
  runtime_has_avx2 m = process.runtime_has_avx2 m

  unfoldable pub allocation_metrics : Memory → AllocationMetrics
  unfolding allocation_metrics_from_c
  allocation_metrics m = allocation_metrics_from_c (process.get_allocation_metrics m)

  unfoldable pub reset_allocation_counters : Memory → Memory
  reset_allocation_counters m = process.reset_allocation_counters m
