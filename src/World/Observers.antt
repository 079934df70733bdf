-- ===== src/World/Observers.antt =====
-- The methods of a World on its observers.
use libdense.Common.{[], ◌∷◌}
use libdense.Common.Int.{ℤ, pos}
use libdense.DenseSim.{EntityId, ObserverId, TypeMask, DsResult, ObserverDesc, Library}
use libdense.Python.{ok, Parsed, integer, boolean, Value, py_none, dict}
use libdense.World.State.{
  Method, pure, ◌>>=◌, ◌>>◌, parse, self_world, reading, calling, check, require_open, py_long,
  py_bool,
}

abbrev observer_value : ObserverDesc → Value
observer_value observer = dict (
    ("id", integer (pos observer.id))
    ∷ ("spatial_x", integer observer.spatial_x)
    ∷ ("spatial_y", integer observer.spatial_y)
    ∷ ("radius", integer observer.radius)
    ∷ ("type_mask", integer (pos observer.type_mask))
    ∷ ("anchor_entity_id", integer (pos observer.anchor_entity_id))
    ∷ ("positioned", boolean observer.positioned)
    ∷ ("anchored", boolean observer.anchored)
    ∷ [])

module _ {Memory : Type 0} (lib : Library Memory) where
  unfoldable pub creating :
      (Memory → DsResult × ObserverId × Memory) → Method Memory (DsResult × ObserverId)
  creating f s = let (r, id, m) = f s.native in (ok (r, id), record s { native = m })

  -- DenseWorld_create_observer
  unfoldable pub create_observer : Parsed (ℤ × TypeMask) → Method Memory Value
  unfolding creating ◌>>=◌
  create_observer args = do
    (radius, type_mask) ← parse args
    require_open
    w ← self_world
    (result, observer_id) ←
        creating (lib.observer_create w (record { radius = radius; type_mask = type_mask }))
    check lib result "create_observer failed"
    py_long observer_id

  -- DenseWorld_destroy_observer
  unfoldable pub destroy_observer : Parsed ObserverId → Method Memory Value
  unfolding ◌>>=◌
  destroy_observer args = do
    observer_id ← parse args
    require_open
    w ← self_world
    result ← calling (lib.observer_destroy w observer_id)
    check lib result "destroy_observer failed"
    pure py_none

  -- DenseWorld_anchor_observer
  unfoldable pub anchor_observer : Parsed (ObserverId × EntityId) → Method Memory Value
  unfolding ◌>>=◌
  anchor_observer args = do
    (observer_id, entity_id) ← parse args
    require_open
    w ← self_world
    result ← calling (lib.observer_anchor_entity w observer_id entity_id)
    check lib result "anchor_observer failed"
    pure py_none

  -- DenseWorld_set_observer_position
  unfoldable pub set_observer_position : Parsed (ObserverId × ℤ × ℤ) → Method Memory Value
  unfolding ◌>>=◌
  set_observer_position args = do
    (observer_id, spatial_x, spatial_y) ← parse args
    require_open
    w ← self_world
    result ← calling (lib.observer_set_position w observer_id spatial_x spatial_y)
    check lib result "set_observer_position failed"
    pure py_none

  -- DenseWorld_set_observer_radius
  unfoldable pub set_observer_radius : Parsed (ObserverId × ℤ) → Method Memory Value
  unfolding ◌>>=◌
  set_observer_radius args = do
    (observer_id, radius) ← parse args
    require_open
    w ← self_world
    result ← calling (lib.observer_set_radius w observer_id radius)
    check lib result "set_observer_radius failed"
    pure py_none

  -- DenseWorld_observer_exists
  unfoldable pub observer_exists : Parsed ObserverId → Method Memory Value
  unfolding ◌>>=◌
  observer_exists args = do
    observer_id ← parse args
    require_open
    w ← self_world
    found ← reading (lib.observer_exists w observer_id)
    py_bool found

  -- DenseWorld_observer
  unfoldable pub observer : Parsed ObserverId → Method Memory Value
  unfolding ◌>>=◌
  observer args = do
    observer_id ← parse args
    require_open
    w ← self_world
    (result, desc) ← reading (lib.observer_get w observer_id)
    check lib result "observer failed"
    pure (observer_value desc)
