-- ===== src/Cpp/Entities.antt =====
-- The methods of dense::World on entities.
use libdense.Common.{Bool}
use libdense.Common.Int.{ℤ}
use libdense.DenseSim.{EntityId, ChannelMask, TypeMask, Library}
use libdense.Cpp.State.{Method}
use libdense.Cpp.Steps.{pure, self_world, reading, calling, require_open, check, ◌>>=◌, ◌>>◌}
use libdense.Cpp.Types.{
  Entity, MotionMode, MotionPlan, motion_plan_to_c, entity_from_c, motion_mode_cast,
}

module _ {Memory : Type 0} (lib : Library Memory) where
  unfoldable pub spawn : EntityId → ℤ → ℤ → TypeMask → Method Memory (Unit {0})
  unfolding ◌>>=◌
  spawn entity_id spatial_x spatial_y type_mask = do
    require_open
    w ← self_world
    result ← calling (lib.entity_spawn w entity_id spatial_x spatial_y type_mask)
    check lib result "ds_entity_spawn"

  unfoldable pub move : EntityId → ℤ → ℤ → Method Memory (Unit {0})
  unfolding ◌>>=◌
  move entity_id spatial_x spatial_y = do
    require_open
    w ← self_world
    result ← calling (lib.entity_move w entity_id spatial_x spatial_y)
    check lib result "ds_entity_move"

  unfoldable pub remove : EntityId → Method Memory (Unit {0})
  unfolding ◌>>=◌
  remove entity_id = do
    require_open
    w ← self_world
    result ← calling (lib.entity_remove w entity_id)
    check lib result "ds_entity_remove"

  unfoldable pub mark_dirty : EntityId → ChannelMask → Method Memory (Unit {0})
  unfolding ◌>>=◌
  mark_dirty entity_id channel_mask = do
    require_open
    w ← self_world
    result ← calling (lib.entity_mark_dirty w entity_id channel_mask)
    check lib result "ds_entity_mark_dirty"

  unfoldable pub set_motion_plan : EntityId → MotionPlan → Method Memory (Unit {0})
  unfolding ◌>>=◌ motion_plan_to_c
  set_motion_plan entity_id plan = do
    require_open
    w ← self_world
    result ← calling (lib.entity_set_motion_plan w entity_id (motion_plan_to_c plan))
    check lib result "ds_entity_set_motion_plan"

  unfoldable pub clear_motion_plan : EntityId → Method Memory (Unit {0})
  unfolding ◌>>=◌
  clear_motion_plan entity_id = do
    require_open
    w ← self_world
    result ← calling (lib.entity_clear_motion_plan w entity_id)
    check lib result "ds_entity_clear_motion_plan"

  unfoldable pub motion_mode : EntityId → Method Memory MotionMode
  unfolding ◌>>=◌ motion_mode_cast
  motion_mode entity_id = do
    require_open
    w ← self_world
    (result, value) ← reading (lib.entity_motion_mode w entity_id)
    check lib result "ds_entity_motion_mode"
    pure (motion_mode_cast value)

  unfoldable pub entity_exists : EntityId → Method Memory Bool
  unfolding ◌>>=◌
  entity_exists entity_id = do
    require_open
    w ← self_world
    value ← reading (lib.entity_exists w entity_id)
    pure value

  unfoldable pub entity : EntityId → Method Memory Entity
  unfolding ◌>>=◌ entity_from_c
  entity entity_id = do
    require_open
    w ← self_world
    (result, value) ← reading (lib.entity_get w entity_id)
    check lib result "ds_entity_get"
    pure (entity_from_c value)
