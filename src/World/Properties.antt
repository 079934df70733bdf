-- ===== src/World/Properties.antt =====
-- The read-only properties of a World.
use libdense.Common.{[], ◌∷◌}
use libdense.Common.Int.{pos}
use libdense.DenseSim.{MotionMetrics, Library}
use libdense.Python.{integer, Value, dict}
use libdense.World.State.{
  Method, pure, ◌>>=◌, ◌>>◌, self_world, reading, check, require_open, py_long, py_bool,
}

abbrev metrics_value : MotionMetrics → Value
metrics_value metrics = dict (
    ("scheduled_events", integer (pos metrics.scheduled_events))
    ∷ ("processed_events", integer (pos metrics.processed_events))
    ∷ ("stale_events", integer (pos metrics.stale_events))
    ∷ ("cell_crossings", integer (pos metrics.cell_crossings))
    ∷ ("expiries", integer (pos metrics.expiries))
    ∷ ("plan_replacements", integer (pos metrics.plan_replacements))
    ∷ ("sampled_demotions", integer (pos metrics.sampled_demotions))
    ∷ ("correction_steps", integer (pos metrics.correction_steps))
    ∷ [])

module _ {Memory : Type 0} (lib : Library Memory) where
  -- DenseWorld_get_tick_is_open
  unfoldable pub tick_is_open : Method Memory Value
  unfolding ◌>>=◌
  tick_is_open = do
    require_open
    w ← self_world
    is_open ← reading (lib.world_tick_is_open w)
    py_bool is_open

  -- DenseWorld_get_current_tick
  unfoldable pub current_tick : Method Memory Value
  unfolding ◌>>=◌
  current_tick = do
    require_open
    w ← self_world
    tick ← reading (lib.world_current_tick w)
    py_long tick

  -- DenseWorld_get_entity_count
  unfoldable pub entity_count : Method Memory Value
  unfolding ◌>>=◌
  entity_count = do
    require_open
    w ← self_world
    count ← reading (lib.world_entity_count w)
    py_long count

  -- DenseWorld_get_entity_capacity
  unfoldable pub entity_capacity : Method Memory Value
  unfolding ◌>>=◌
  entity_capacity = do
    require_open
    w ← self_world
    capacity ← reading (lib.world_entity_capacity w)
    py_long capacity

  -- DenseWorld_get_observer_count
  unfoldable pub observer_count : Method Memory Value
  unfolding ◌>>=◌
  observer_count = do
    require_open
    w ← self_world
    count ← reading (lib.world_observer_count w)
    py_long count

  -- DenseWorld_get_motion_metrics
  unfoldable pub motion_metrics : Method Memory Value
  unfolding ◌>>=◌
  motion_metrics = do
    require_open
    w ← self_world
    (result, metrics) ← reading (lib.world_get_motion_metrics w)
    check lib result "motion_metrics failed"
    pure (metrics_value metrics)
