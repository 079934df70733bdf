-- ===== src/DenseSim/Functions.antt =====
-- The functions of libdense_sim that the bindings call. The library is built from sources
-- of its own and comes as a binary, so it is a record over the type of its memory: a function
-- that may write takes the memory and returns it, one with a `const` world only reads it. The
-- content of an out-parameter is returned beside the ds_result, also where the call fails.
use libdense.Common.{ℕ, Bool, Option, String}
use libdense.Common.Int.{ℤ}
use libdense.DenseSim.Types.{
  EntityId, ObserverId, ChannelMask, TypeMask, Tick, DsResult, WorldConfig, ObserverConfig,
  ObserverDesc, EntityDesc, MotionMode, MotionPlan, MotionMetrics, DeltaEntry, Pointer, ChunkDelta,
  FanoutSpan, WorldMemoryStats, AllocationMetrics, RecipientWorksetConfig, RecipientWorksetEntry,
  RecipientWorksetSpan, RecipientWorksetStats,
}

pub record Library (Memory : Type 0) : Type 0 where
  pub result_string : DsResult → String
  pub world_create : WorldConfig → Memory → DsResult × Pointer × Memory
  pub world_destroy : Pointer → Memory → Memory
  pub world_begin_tick : Pointer → Tick → Memory → DsResult × Memory
  pub world_end_tick : Pointer → Memory → DsResult × Memory
  pub world_tick_is_open : Pointer → Memory → Bool
  pub world_current_tick : Pointer → Memory → Tick
  pub world_entity_count : Pointer → Memory → ℕ
  pub world_entity_capacity : Pointer → Memory → ℕ
  pub world_observer_count : Pointer → Memory → ℕ
  pub world_get_motion_metrics : Pointer → Memory → DsResult × MotionMetrics
  pub world_get_memory_stats : Pointer → Memory → DsResult × WorldMemoryStats
  pub world_get_fanout_view : Pointer → Memory → DsResult × FanoutSpan
  pub entity_spawn : Pointer → EntityId → ℤ → ℤ → TypeMask → Memory → DsResult × Memory
  pub entity_move : Pointer → EntityId → ℤ → ℤ → Memory → DsResult × Memory
  pub entity_remove : Pointer → EntityId → Memory → DsResult × Memory
  pub entity_mark_dirty : Pointer → EntityId → ChannelMask → Memory → DsResult × Memory
  pub entity_set_motion_plan : Pointer → EntityId → MotionPlan → Memory → DsResult × Memory
  pub entity_clear_motion_plan : Pointer → EntityId → Memory → DsResult × Memory
  pub entity_motion_mode : Pointer → EntityId → Memory → DsResult × MotionMode
  pub entity_exists : Pointer → EntityId → Memory → Bool
  pub entity_get : Pointer → EntityId → Memory → DsResult × EntityDesc
  pub observer_create : Pointer → ObserverConfig → Memory → DsResult × ObserverId × Memory
  pub observer_destroy : Pointer → ObserverId → Memory → DsResult × Memory
  pub observer_anchor_entity : Pointer → ObserverId → EntityId → Memory → DsResult × Memory
  pub observer_set_position : Pointer → ObserverId → ℤ → ℤ → Memory → DsResult × Memory
  pub observer_set_radius : Pointer → ObserverId → ℤ → Memory → DsResult × Memory
  pub observer_exists : Pointer → ObserverId → Memory → Bool
  pub observer_get : Pointer → ObserverId → Memory → DsResult × ObserverDesc
  -- `none`: the address does not lie in memory that the library keeps readable.
  pub read_chunk : Pointer → ℕ → Memory → Option ChunkDelta
  pub read_entry : Pointer → ℕ → Memory → Option DeltaEntry
  pub read_subscriber : Pointer → ℕ → Memory → Option ObserverId

-- The functions that are not about one world.
pub record ProcessLibrary (Memory : Type 0) : Type 0 where
  pub runtime_init : Memory → DsResult × Memory
  pub runtime_has_avx2 : Memory → Bool
  pub get_allocation_metrics : Memory → AllocationMetrics
  pub reset_allocation_counters : Memory → Memory

-- The recipient worksets. The first pointer is the workset's, the second the world's.
pub record WorksetLibrary (Memory : Type 0) : Type 0 where
  pub config_defaults : RecipientWorksetConfig
  pub create : RecipientWorksetConfig → Memory → DsResult × Pointer × Memory
  pub destroy : Pointer → Memory → Memory
  pub sync : Pointer → Pointer → Memory → DsResult × Memory
  pub enqueue_source : Pointer → Pointer → EntityId → ChannelMask → Memory → DsResult × Memory
  pub get_view : Pointer → ObserverId → Memory → DsResult × RecipientWorksetSpan
  pub acknowledge :
      Pointer → ObserverId → ℕ → ℕ → EntityId → ChannelMask → Memory → DsResult × Memory
  pub clear : Pointer → ObserverId → ℕ → ℕ → Memory → DsResult × Memory
  pub get_stats : Pointer → Memory → DsResult × RecipientWorksetStats
  pub read_entry : Pointer → ℕ → Memory → Option RecipientWorksetEntry
