-- ===== src/World/Entities.antt =====
-- The methods of a World on one entity: spawn, move, remove, mark_dirty, the motion plans, and
-- the queries entity_exists and entity.
use libdense.Common.{ℕ, [], ◌∷◌}
use libdense.Common.Int.{ℤ, pos}
use libdense.DenseSim.{
  EntityId, ChannelMask, TypeMask, Tick, MotionMode, MotionPlan, EntityDesc, Library,
}
use libdense.Python.{Parsed, integer, Value, py_none, dict}
use libdense.World.State.{
  Method, pure, ◌>>=◌, ◌>>◌, parse, self_world, reading, calling, check, require_open, py_long,
  py_bool,
}

-- `(long)mode`
abbrev mode_number : MotionMode → ℕ
mode_number MotionMode.sampled = 0
mode_number MotionMode.kinetic = 1

abbrev entity_value : EntityDesc → Value
entity_value entity = dict (
    ("id", integer (pos entity.id))
    ∷ ("spatial_x", integer entity.spatial_x)
    ∷ ("spatial_y", integer entity.spatial_y)
    ∷ ("type_mask", integer (pos entity.type_mask))
    ∷ [])

module _ {Memory : Type 0} (lib : Library Memory) where
  -- DenseWorld_spawn
  unfoldable pub spawn : Parsed (EntityId × ℤ × ℤ × TypeMask) → Method Memory Value
  unfolding ◌>>=◌
  spawn args = do
    (entity_id, spatial_x, spatial_y, type_mask) ← parse args
    require_open
    w ← self_world
    result ← calling (lib.entity_spawn w entity_id spatial_x spatial_y type_mask)
    check lib result "spawn failed"
    pure py_none

  -- DenseWorld_move
  unfoldable pub move : Parsed (EntityId × ℤ × ℤ) → Method Memory Value
  unfolding ◌>>=◌
  move args = do
    (entity_id, spatial_x, spatial_y) ← parse args
    require_open
    w ← self_world
    result ← calling (lib.entity_move w entity_id spatial_x spatial_y)
    check lib result "move failed"
    pure py_none

  -- DenseWorld_set_motion_plan
  unfoldable pub set_motion_plan :
      Parsed (EntityId × Tick × Tick × ℕ × ℕ × ℕ × ℕ) → Method Memory Value
  unfolding ◌>>=◌
  set_motion_plan args = do
    (entity_id, start_tick, until_tick, x, y, vx, vy) ← parse args
    require_open
    let plan : MotionPlan = record {
      start_tick = start_tick;
      until_tick = until_tick;
      x = x;
      y = y;
      vx = vx;
      vy = vy;
    }
    w ← self_world
    result ← calling (lib.entity_set_motion_plan w entity_id plan)
    check lib result "set_motion_plan failed"
    pure py_none

  -- DenseWorld_clear_motion_plan
  unfoldable pub clear_motion_plan : Parsed EntityId → Method Memory Value
  unfolding ◌>>=◌
  clear_motion_plan args = do
    entity_id ← parse args
    require_open
    w ← self_world
    result ← calling (lib.entity_clear_motion_plan w entity_id)
    check lib result "clear_motion_plan failed"
    pure py_none

  -- DenseWorld_motion_mode
  unfoldable pub motion_mode : Parsed EntityId → Method Memory Value
  unfolding ◌>>=◌
  motion_mode args = do
    entity_id ← parse args
    require_open
    w ← self_world
    (result, mode) ← reading (lib.entity_motion_mode w entity_id)
    check lib result "motion_mode failed"
    py_long (mode_number mode)

  -- DenseWorld_remove
  unfoldable pub remove : Parsed EntityId → Method Memory Value
  unfolding ◌>>=◌
  remove args = do
    entity_id ← parse args
    require_open
    w ← self_world
    result ← calling (lib.entity_remove w entity_id)
    check lib result "remove failed"
    pure py_none

  -- DenseWorld_mark_dirty
  unfoldable pub mark_dirty : Parsed (EntityId × ChannelMask) → Method Memory Value
  unfolding ◌>>=◌
  mark_dirty args = do
    (entity_id, channel_mask) ← parse args
    require_open
    w ← self_world
    result ← calling (lib.entity_mark_dirty w entity_id channel_mask)
    check lib result "mark_dirty failed"
    pure py_none

  -- DenseWorld_entity_exists
  unfoldable pub entity_exists : Parsed EntityId → Method Memory Value
  unfolding ◌>>=◌
  entity_exists args = do
    entity_id ← parse args
    require_open
    w ← self_world
    found ← reading (lib.entity_exists w entity_id)
    py_bool found

  -- DenseWorld_entity
  unfoldable pub entity : Parsed EntityId → Method Memory Value
  unfolding ◌>>=◌
  entity args = do
    entity_id ← parse args
    require_open
    w ← self_world
    (result, desc) ← reading (lib.entity_get w entity_id)
    check lib result "entity failed"
    pure (entity_value desc)
