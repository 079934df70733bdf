-- ===== src/Cpp/Observers.antt =====
-- The methods of dense::World on observers.
use libdense.Common.{Bool}
use libdense.Common.Int.{ℤ}
use libdense.DenseSim
use libdense.DenseSim.{
  EntityId, ObserverId, ChannelMask, TypeMask, Tick, Pointer, DsResult, is_ok, FanoutSpan, Library,
}
use libdense.Cpp.State.{Method}
use libdense.Cpp.Steps.{pure, self_world, reading, calling, require_open, check, ◌>>=◌, ◌>>◌}
use libdense.Cpp.Types.{ObserverConfig, Observer, observer_config_to_c, observer_from_c}

module _ {Memory : Type 0} (lib : Library Memory) where
  -- ds_observer_create with its out-parameter.
  abbrev pub observer_created :
      Pointer → DenseSim.ObserverConfig → Memory → (DsResult × ObserverId) × Memory
  observer_created w config m = let (r, id, m') = lib.observer_create w config m in ((r, id), m')

  unfoldable pub create_observer : ObserverConfig → Method Memory ObserverId
  unfolding ◌>>=◌ observer_config_to_c
  create_observer config = do
    require_open
    w ← self_world
    (result, value) ← calling (observer_created w (observer_config_to_c config))
    check lib result "ds_observer_create"
    pure value

  unfoldable pub destroy_observer : ObserverId → Method Memory (Unit {0})
  unfolding ◌>>=◌
  destroy_observer observer_id = do
    require_open
    w ← self_world
    result ← calling (lib.observer_destroy w observer_id)
    check lib result "ds_observer_destroy"

  unfoldable pub anchor_observer : ObserverId → EntityId → Method Memory (Unit {0})
  unfolding ◌>>=◌
  anchor_observer observer_id entity_id = do
    require_open
    w ← self_world
    result ← calling (lib.observer_anchor_entity w observer_id entity_id)
    check lib result "ds_observer_anchor_entity"

  unfoldable pub set_observer_position : ObserverId → ℤ → ℤ → Method Memory (Unit {0})
  unfolding ◌>>=◌
  set_observer_position observer_id spatial_x spatial_y = do
    require_open
    w ← self_world
    result ← calling (lib.observer_set_position w observer_id spatial_x spatial_y)
    check lib result "ds_observer_set_position"

  unfoldable pub set_observer_radius : ObserverId → ℤ → Method Memory (Unit {0})
  unfolding ◌>>=◌
  set_observer_radius observer_id radius = do
    require_open
    w ← self_world
    result ← calling (lib.observer_set_radius w observer_id radius)
    check lib result "ds_observer_set_radius"

  unfoldable pub observer_exists : ObserverId → Method Memory Bool
  unfolding ◌>>=◌
  observer_exists observer_id = do
    require_open
    w ← self_world
    value ← reading (lib.observer_exists w observer_id)
    pure value

  unfoldable pub observer : ObserverId → Method Memory Observer
  unfolding ◌>>=◌ observer_from_c
  observer observer_id = do
    require_open
    w ← self_world
    (result, value) ← reading (lib.observer_get w observer_id)
    check lib result "ds_observer_get"
    pure (observer_from_c value)
