-- ===== src/Cpp/Types.antt =====
-- The structs of bindings/cpp/include/dense/dense_sim.hpp with their default values, its enumerations,
-- and the conversions to_c and from_c between them and the C structs.
use libdense.Common.{ℕ, Bool}
use libdense.Common.Int.{ℤ, pos}
use libdense.DenseSim
use libdense.DenseSim.{EntityId, ObserverId, ChannelMask, TypeMask, Tick}

pub record WorldConfig : Type 0 where
  pub cell_size : ℤ
  pub chunk_size : ℤ
  pub initial_entity_capacity : ℕ
  pub initial_observer_capacity : ℕ

-- `WorldConfig{}`
abbrev pub default_world_config : WorldConfig
default_world_config = record {
  cell_size = pos 8;
  chunk_size = pos 16;
  initial_entity_capacity = 1024;
  initial_observer_capacity = 64;
}

pub record ObserverConfig : Type 0 where
  pub radius : ℤ
  pub type_mask : TypeMask

abbrev pub default_observer_config : ObserverConfig
default_observer_config = record { radius = pos 40; type_mask = 0 }

pub record Entity : Type 0 where
  pub id : EntityId
  pub spatial_x : ℤ
  pub spatial_y : ℤ
  pub type_mask : TypeMask

pub record Observer : Type 0 where
  pub id : ObserverId
  pub spatial_x : ℤ
  pub spatial_y : ℤ
  pub radius : ℤ
  pub type_mask : TypeMask
  pub anchor_entity_id : EntityId
  pub positioned : Bool
  pub anchored : Bool

pub data MotionMode : Type 0 where
  sampled : MotionMode
  kinetic : MotionMode

pub record MotionPlan : Type 0 where
  pub start_tick : Tick
  pub until_tick : Tick
  pub x : ℕ
  pub y : ℕ
  pub vx : ℕ
  pub vy : ℕ

-- The counters of the kinetic motion.
pub record MotionMetrics : Type 0 where
  pub scheduled_events : ℕ
  pub processed_events : ℕ
  pub stale_events : ℕ
  pub cell_crossings : ℕ
  pub expiries : ℕ
  pub plan_replacements : ℕ
  pub sampled_demotions : ℕ
  pub correction_steps : ℕ

-- The capacities of a world.
pub record WorldMemoryStats : Type 0 where
  pub entity_capacity : ℕ
  pub entity_map_capacity : ℕ
  pub cell_bucket_capacity : ℕ
  pub chunk_bucket_capacity : ℕ
  pub observer_capacity : ℕ
  pub observer_map_capacity : ℕ
  pub subscription_capacity : ℕ
  pub membership_capacity : ℕ
  pub crossing_capacity : ℕ
  pub dirty_capacity : ℕ
  pub observer_dirty_capacity : ℕ
  pub fanout_chunk_capacity : ℕ
  pub fanout_entry_capacity : ℕ
  pub fanout_subscriber_capacity : ℕ
  pub kinetic_event_capacity : ℕ
  pub kinetic_bucket_capacity : ℕ

-- What the library has allocated.
pub record AllocationMetrics : Type 0 where
  pub current_retained_bytes : ℕ
  pub peak_retained_bytes : ℕ
  pub growth_operations : ℕ
  pub live_object_count : ℕ
  pub allocation_failures : ℕ
  pub steady_state_allocations : ℕ

-- An enumeration with a fixed underlying type can hold every int; `unlisted` is any other.
pub data DeltaOp : Type 0 where
  update : DeltaOp
  enter : DeltaOp
  leave : DeltaOp
  spawn : DeltaOp
  remove : DeltaOp
  unlisted : ℕ → DeltaOp

pub record DeltaEntry : Type 0 where
  pub entity_id : EntityId
  pub channel_mask : ChannelMask
  pub operation : DeltaOp

-- The conversions of the namespace detail, named for the struct that they take.
unfoldable pub world_config_to_c : WorldConfig → DenseSim.WorldConfig
world_config_to_c config = record {
  cell_size = config.cell_size;
  chunk_size = config.chunk_size;
  initial_entity_capacity = config.initial_entity_capacity;
  initial_observer_capacity = config.initial_observer_capacity;
}

unfoldable pub observer_config_to_c : ObserverConfig → DenseSim.ObserverConfig
observer_config_to_c config = record { radius = config.radius; type_mask = config.type_mask }

unfoldable pub motion_plan_to_c : MotionPlan → DenseSim.MotionPlan
motion_plan_to_c plan = record {
  start_tick = plan.start_tick;
  until_tick = plan.until_tick;
  x = plan.x;
  y = plan.y;
  vx = plan.vx;
  vy = plan.vy;
}

unfoldable pub entity_from_c : DenseSim.EntityDesc → Entity
entity_from_c entity = record {
  id = entity.id;
  spatial_x = entity.spatial_x;
  spatial_y = entity.spatial_y;
  type_mask = entity.type_mask;
}

unfoldable pub observer_from_c : DenseSim.ObserverDesc → Observer
observer_from_c observer = record {
  id = observer.id;
  spatial_x = observer.spatial_x;
  spatial_y = observer.spatial_y;
  radius = observer.radius;
  type_mask = observer.type_mask;
  anchor_entity_id = observer.anchor_entity_id;
  positioned = observer.positioned;
  anchored = observer.anchored;
}

unfoldable pub motion_metrics_from_c : DenseSim.MotionMetrics → MotionMetrics
motion_metrics_from_c metrics = record {
  scheduled_events = metrics.scheduled_events;
  processed_events = metrics.processed_events;
  stale_events = metrics.stale_events;
  cell_crossings = metrics.cell_crossings;
  expiries = metrics.expiries;
  plan_replacements = metrics.plan_replacements;
  sampled_demotions = metrics.sampled_demotions;
  correction_steps = metrics.correction_steps;
}

-- `static_cast<MotionMode>(mode)`
unfoldable pub motion_mode_cast : DenseSim.MotionMode → MotionMode
motion_mode_cast DenseSim.sampled = sampled
motion_mode_cast DenseSim.kinetic = kinetic

-- `static_cast<DeltaOp>(entry.operation)`
unfoldable pub delta_op_cast : DenseSim.DeltaOp → DeltaOp
delta_op_cast DenseSim.update = update
delta_op_cast DenseSim.enter = enter
delta_op_cast DenseSim.leave = leave
delta_op_cast DenseSim.spawn = spawn
delta_op_cast DenseSim.remove = remove
delta_op_cast (DenseSim.unlisted n) = unlisted n

unfoldable pub delta_entry_from_c : DenseSim.DeltaEntry → DeltaEntry
unfolding delta_op_cast
delta_entry_from_c entry = record {
  entity_id = entry.entity_id;
  channel_mask = entry.channel_mask;
  operation = delta_op_cast entry.operation;
}

-- The struct that World::memory_stats builds, and the one of allocation_metrics.
unfoldable pub memory_stats_from_c : DenseSim.WorldMemoryStats → WorldMemoryStats
memory_stats_from_c stats = record {
  entity_capacity = stats.entity_capacity;
  entity_map_capacity = stats.entity_map_capacity;
  cell_bucket_capacity = stats.cell_bucket_capacity;
  chunk_bucket_capacity = stats.chunk_bucket_capacity;
  observer_capacity = stats.observer_capacity;
  observer_map_capacity = stats.observer_map_capacity;
  subscription_capacity = stats.subscription_capacity;
  membership_capacity = stats.membership_capacity;
  crossing_capacity = stats.crossing_capacity;
  dirty_capacity = stats.dirty_capacity;
  observer_dirty_capacity = stats.observer_dirty_capacity;
  fanout_chunk_capacity = stats.fanout_chunk_capacity;
  fanout_entry_capacity = stats.fanout_entry_capacity;
  fanout_subscriber_capacity = stats.fanout_subscriber_capacity;
  kinetic_event_capacity = stats.kinetic_event_capacity;
  kinetic_bucket_capacity = stats.kinetic_bucket_capacity;
}

unfoldable pub allocation_metrics_from_c : DenseSim.AllocationMetrics → AllocationMetrics
allocation_metrics_from_c metrics = record {
  current_retained_bytes = metrics.current_retained_bytes;
  peak_retained_bytes = metrics.peak_retained_bytes;
  growth_operations = metrics.growth_operations;
  live_object_count = metrics.live_object_count;
  allocation_failures = metrics.allocation_failures;
  steady_state_allocations = metrics.steady_state_allocations;
}
