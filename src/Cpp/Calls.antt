-- ===== src/Cpp/Calls.antt =====
-- The member functions of dense::World as one type of calls.
use libdense.Common.{ℕ, Bool}
use libdense.Common.Int.{ℤ}
use libdense.DenseSim.{EntityId, ObserverId, ChannelMask, TypeMask, Tick, Library}
use libdense.Cpp.State.{returned, Method}
use libdense.Cpp.Steps.{pure, ◌>>=◌}
use libdense.Cpp.Types.{
  ObserverConfig, Entity, Observer, MotionMode, MotionPlan, MotionMetrics, WorldMemoryStats,
}
use libdense.Cpp.FanoutView.{FanoutView}
use libdense.Cpp.Lifecycle
use libdense.Cpp.Entities
use libdense.Cpp.Observers

pub data Call : Type 0 where
  is_open : Call
  close : Call
  begin_tick : Tick → Call
  end_tick : Call
  fanout : Call
  tick_is_open : Call
  current_tick : Call
  entity_count : Call
  entity_capacity : Call
  observer_count : Call
  motion_metrics : Call
  memory_stats : Call
  spawn : EntityId → ℤ → ℤ → TypeMask → Call
  move : EntityId → ℤ → ℤ → Call
  remove : EntityId → Call
  mark_dirty : EntityId → ChannelMask → Call
  set_motion_plan : EntityId → MotionPlan → Call
  clear_motion_plan : EntityId → Call
  motion_mode : EntityId → Call
  entity_exists : EntityId → Call
  entity : EntityId → Call
  create_observer : ObserverConfig → Call
  destroy_observer : ObserverId → Call
  anchor_observer : ObserverId → EntityId → Call
  set_observer_position : ObserverId → ℤ → ℤ → Call
  set_observer_radius : ObserverId → ℤ → Call
  observer_exists : ObserverId → Call
  observer : ObserverId → Call

-- What a call returns.
pub data Reply : Type 0 where
  done : Reply
  flag : Bool → Reply
  number : ℕ → Reply
  mode : MotionMode → Reply
  entity : Entity → Reply
  observer : Observer → Reply
  metrics : MotionMetrics → Reply
  memory : WorldMemoryStats → Reply
  view : FanoutView → Reply

module _ {Memory : Type 0} where
  -- What a member function returns, as a reply.
  unfoldable pub replying : {A : Type 0} → (A → Reply) → Method Memory A → Method Memory Reply
  unfolding ◌>>=◌
  replying f m = m >>= λ a. pure (f a)

module _ {Memory : Type 0} (lib : Library Memory) where
  unfoldable pub dispatch : Call → Method Memory Reply
  unfolding replying
  dispatch Call.is_open = λ s. (returned (Reply.flag (Lifecycle.is_open s.self)), s)
  dispatch Call.close = replying (λ u. Reply.done) (Lifecycle.close lib)
  dispatch (Call.begin_tick a) = replying (λ u. Reply.done) (Lifecycle.begin_tick lib a)
  dispatch Call.end_tick = replying (λ u. Reply.done) (Lifecycle.end_tick lib)
  dispatch Call.fanout = replying Reply.view (Lifecycle.fanout lib)
  dispatch Call.tick_is_open = replying Reply.flag (Lifecycle.tick_is_open lib)
  dispatch Call.current_tick = replying Reply.number (Lifecycle.current_tick lib)
  dispatch Call.entity_count = replying Reply.number (Lifecycle.entity_count lib)
  dispatch Call.entity_capacity = replying Reply.number (Lifecycle.entity_capacity lib)
  dispatch Call.observer_count = replying Reply.number (Lifecycle.observer_count lib)
  dispatch Call.motion_metrics = replying Reply.metrics (Lifecycle.motion_metrics lib)
  dispatch Call.memory_stats = replying Reply.memory (Lifecycle.memory_stats lib)
  dispatch (Call.spawn a b c d) = replying (λ u. Reply.done) (Entities.spawn lib a b c d)
  dispatch (Call.move a b c) = replying (λ u. Reply.done) (Entities.move lib a b c)
  dispatch (Call.remove a) = replying (λ u. Reply.done) (Entities.remove lib a)
  dispatch (Call.mark_dirty a b) = replying (λ u. Reply.done) (Entities.mark_dirty lib a b)
  dispatch (Call.set_motion_plan a b) =
      replying (λ u. Reply.done) (Entities.set_motion_plan lib a b)
  dispatch (Call.clear_motion_plan a) =
      replying (λ u. Reply.done) (Entities.clear_motion_plan lib a)
  dispatch (Call.motion_mode a) = replying Reply.mode (Entities.motion_mode lib a)
  dispatch (Call.entity_exists a) = replying Reply.flag (Entities.entity_exists lib a)
  dispatch (Call.entity a) = replying Reply.entity (Entities.entity lib a)
  dispatch (Call.create_observer a) = replying Reply.number (Observers.create_observer lib a)
  dispatch (Call.destroy_observer a) = replying (λ u. Reply.done) (Observers.destroy_observer lib a)
  dispatch (Call.anchor_observer a b) =
      replying (λ u. Reply.done) (Observers.anchor_observer lib a b)
  dispatch (Call.set_observer_position a b c) =
      replying (λ u. Reply.done) (Observers.set_observer_position lib a b c)
  dispatch (Call.set_observer_radius a b) =
      replying (λ u. Reply.done) (Observers.set_observer_radius lib a b)
  dispatch (Call.observer_exists a) = replying Reply.flag (Observers.observer_exists lib a)
  dispatch (Call.observer a) = replying Reply.observer (Observers.observer lib a)
