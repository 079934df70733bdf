-- ===== src/World/Calls.antt =====
-- The tables DenseWorld_methods and DenseWorld_getset: every method and property that Python code
-- can use on a World, with its arguments as CPython has converted them.
use libdense.Common.{ℕ, Bool, Option}
use libdense.Common.Int.{ℤ}
use libdense.DenseSim.{EntityId, ObserverId, ChannelMask, TypeMask, Tick, Pointer, Library}
use libdense.Python.{Parsed, Value}
use libdense.Buffer.Bytes.{Platform}
use libdense.Buffer.Format.{PyBuffer}
use libdense.World.State.{Method, pure, ◌>>=◌}
use libdense.World.Lifecycle
use libdense.World.Lifecycle.{DenseFanoutView}
use libdense.World.Entities
use libdense.World.Observers
use libdense.World.Properties
use libdense.World.Batches
use libdense.World.Batches.{MasksObject}

pub data Call : Type 0 where
  close : Call
  begin_tick : Parsed Tick → Call
  end_tick : Call
  -- with the address of the World, and whether PyObject_New has memory
  fanout_view : Pointer → Bool → Call
  spawn : Parsed (EntityId × ℤ × ℤ × TypeMask) → Call
  move : Parsed (EntityId × ℤ × ℤ) → Call
  move_many : Parsed (Option PyBuffer × Option PyBuffer × Option PyBuffer) → Call
  set_motion_plan : Parsed (EntityId × Tick × Tick × ℕ × ℕ × ℕ × ℕ) → Call
  clear_motion_plan : Parsed EntityId → Call
  motion_mode : Parsed EntityId → Call
  remove : Parsed EntityId → Call
  mark_dirty : Parsed (EntityId × ChannelMask) → Call
  mark_dirty_many : Parsed (Option PyBuffer × MasksObject) → Call
  entity_exists : Parsed EntityId → Call
  entity : Parsed EntityId → Call
  create_observer : Parsed (ℤ × TypeMask) → Call
  destroy_observer : Parsed ObserverId → Call
  anchor_observer : Parsed (ObserverId × EntityId) → Call
  set_observer_position : Parsed (ObserverId × ℤ × ℤ) → Call
  set_observer_radius : Parsed (ObserverId × ℤ) → Call
  observer_exists : Parsed ObserverId → Call
  observer : Parsed ObserverId → Call
  tick_is_open : Call
  current_tick : Call
  entity_count : Call
  entity_capacity : Call
  observer_count : Call
  motion_metrics : Call

-- What a call returns: a plain object, or a new fanout view.
pub data Reply : Type 0 where
  value : Value → Reply
  view : DenseFanoutView → Reply

module _ {Memory : Type 0} where
  unfoldable pub as_value : Method Memory Value → Method Memory Reply
  unfolding ◌>>=◌
  as_value m = do v ← m; pure (value v)

  unfoldable pub as_view : Method Memory DenseFanoutView → Method Memory Reply
  unfolding ◌>>=◌
  as_view m = do v ← m; pure (view v)

module _ {Memory : Type 0} (lib : Library Memory) (p : Platform) where
  unfoldable pub dispatch : Call → Method Memory Reply
  unfolding as_value as_view
  dispatch Call.close = as_value (Lifecycle.close lib)
  dispatch (Call.begin_tick args) = as_value (Lifecycle.begin_tick lib args)
  dispatch Call.end_tick = as_value (Lifecycle.end_tick lib)
  dispatch (Call.fanout_view object found) = as_view (Lifecycle.fanout_view lib object found)
  dispatch (Call.spawn args) = as_value (Entities.spawn lib args)
  dispatch (Call.move args) = as_value (Entities.move lib args)
  dispatch (Call.move_many args) = as_value (Batches.move_many lib p args)
  dispatch (Call.set_motion_plan args) = as_value (Entities.set_motion_plan lib args)
  dispatch (Call.clear_motion_plan args) = as_value (Entities.clear_motion_plan lib args)
  dispatch (Call.motion_mode args) = as_value (Entities.motion_mode lib args)
  dispatch (Call.remove args) = as_value (Entities.remove lib args)
  dispatch (Call.mark_dirty args) = as_value (Entities.mark_dirty lib args)
  dispatch (Call.mark_dirty_many args) = as_value (Batches.mark_dirty_many lib p args)
  dispatch (Call.entity_exists args) = as_value (Entities.entity_exists lib args)
  dispatch (Call.entity args) = as_value (Entities.entity lib args)
  dispatch (Call.create_observer args) = as_value (Observers.create_observer lib args)
  dispatch (Call.destroy_observer args) = as_value (Observers.destroy_observer lib args)
  dispatch (Call.anchor_observer args) = as_value (Observers.anchor_observer lib args)
  dispatch (Call.set_observer_position args) = as_value (Observers.set_observer_position lib args)
  dispatch (Call.set_observer_radius args) = as_value (Observers.set_observer_radius lib args)
  dispatch (Call.observer_exists args) = as_value (Observers.observer_exists lib args)
  dispatch (Call.observer args) = as_value (Observers.observer lib args)
  dispatch Call.tick_is_open = as_value (Properties.tick_is_open lib)
  dispatch Call.current_tick = as_value (Properties.current_tick lib)
  dispatch Call.entity_count = as_value (Properties.entity_count lib)
  dispatch Call.entity_capacity = as_value (Properties.entity_capacity lib)
  dispatch Call.observer_count = as_value (Properties.observer_count lib)
  dispatch Call.motion_metrics = as_value (Properties.motion_metrics lib)
