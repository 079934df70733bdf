-- ===== src/DenseSim/Types.antt =====
-- The types of include/dense/dense_sim.h. A uint64_t or size_t is a number below 2 ^ 64, an
-- int32_t an integer, a double its bit pattern; a pointer is `none` for NULL or an address.
use libdense.Common.{ℕ, ◌^◌, ◌≡◌, Bool, true, false, Option, refl}
use libdense.Common.Int.{ℤ}

abbrev pub EntityId : Type 0
EntityId = ℕ

abbrev pub ObserverId : Type 0
ObserverId = ℕ

abbrev pub ChannelMask : Type 0
ChannelMask = ℕ

abbrev pub TypeMask : Type 0
TypeMask = ℕ

abbrev pub Tick : Type 0
Tick = ℕ

abbrev pub channel_position : ChannelMask
channel_position = 2 ^ 0

abbrev pub channel_vitals : ChannelMask
channel_vitals = 2 ^ 1

abbrev pub channel_animation : ChannelMask
channel_animation = 2 ^ 2

abbrev pub channel_appearance : ChannelMask
channel_appearance = 2 ^ 3

abbrev pub channel_custom_0 : ChannelMask
channel_custom_0 = 2 ^ 16

-- ds_result
pub data DsResult : Type 0 where
  ds_ok : DsResult
  invalid_argument : DsResult
  out_of_memory : DsResult
  capacity : DsResult
  entity_exists : DsResult
  entity_not_found : DsResult
  observer_not_found : DsResult
  tick_already_open : DsResult
  tick_not_open : DsResult
  tick_order : DsResult
  tick_not_finalized : DsResult
  motion_conflict : DsResult
  stale_view : DsResult

-- The test `result != DS_OK`, negated.
abbrev pub is_ok : DsResult → Bool
is_ok DsResult.ds_ok = true
is_ok _ = false

pub is_ok-eq_ds_ok : (r : DsResult) → is_ok r ≡ true → r ≡ DsResult.ds_ok
is_ok-eq_ds_ok DsResult.ds_ok h = refl
is_ok-eq_ds_ok _ h = cc

-- ds_world_config
pub record WorldConfig : Type 0 where
  pub cell_size : ℤ
  pub chunk_size : ℤ
  pub initial_entity_capacity : ℕ
  pub initial_observer_capacity : ℕ

-- ds_observer_config
pub record ObserverConfig : Type 0 where
  pub radius : ℤ
  pub type_mask : TypeMask

-- ds_observer_desc
pub record ObserverDesc : Type 0 where
  pub id : ObserverId
  pub spatial_x : ℤ
  pub spatial_y : ℤ
  pub radius : ℤ
  pub type_mask : TypeMask
  pub anchor_entity_id : EntityId
  pub positioned : Bool
  pub anchored : Bool

-- ds_entity_desc
pub record EntityDesc : Type 0 where
  pub id : EntityId
  pub spatial_x : ℤ
  pub spatial_y : ℤ
  pub type_mask : TypeMask

-- ds_motion_mode
pub data MotionMode : Type 0 where
  sampled : MotionMode
  kinetic : MotionMode

-- ds_motion_plan
pub record MotionPlan : Type 0 where
  pub start_tick : Tick
  pub until_tick : Tick
  pub x : ℕ
  pub y : ℕ
  pub vx : ℕ
  pub vy : ℕ

-- ds_motion_metrics
pub record MotionMetrics : Type 0 where
  pub scheduled_events : ℕ
  pub processed_events : ℕ
  pub stale_events : ℕ
  pub cell_crossings : ℕ
  pub expiries : ℕ
  pub plan_replacements : ℕ
  pub sampled_demotions : ℕ
  pub correction_steps : ℕ

-- ds_delta_op; a C enum can also hold another number.
pub data DeltaOp : Type 0 where
  update : DeltaOp
  enter : DeltaOp
  leave : DeltaOp
  spawn : DeltaOp
  remove : DeltaOp
  unlisted : ℕ → DeltaOp

-- ds_delta_entry
pub record DeltaEntry : Type 0 where
  pub entity_id : EntityId
  pub channel_mask : ChannelMask
  pub operation : DeltaOp

abbrev pub Pointer : Type 0
Pointer = Option ℕ

-- ds_chunk_delta; the spans stay in the library's memory.
pub record ChunkDelta : Type 0 where
  pub chunk_x : ℤ
  pub chunk_y : ℤ
  pub entries : Pointer
  pub entry_count : ℕ
  pub subscribers : Pointer
  pub subscriber_count : ℕ

-- ds_fanout_view
pub record FanoutSpan : Type 0 where
  pub tick : Tick
  pub chunks : Pointer
  pub chunk_count : ℕ
  pub delta_count : ℕ
  pub subscriber_count : ℕ

-- ds_world_memory_stats
pub record WorldMemoryStats : Type 0 where
  pub entity_capacity : ℕ
  pub entity_map_capacity : ℕ
  pub cell_bucket_capacity : ℕ
  pub chunk_bucket_capacity : ℕ
  pub observer_capacity : ℕ
  pub observer_map_capacity : ℕ
  pub subscription_capacity : ℕ
  pub membership_capacity : ℕ
  pub crossing_capacity : ℕ
  pub dirty_capacity : ℕ
  pub observer_dirty_capacity : ℕ
  pub fanout_chunk_capacity : ℕ
  pub fanout_entry_capacity : ℕ
  pub fanout_subscriber_capacity : ℕ
  pub kinetic_event_capacity : ℕ
  pub kinetic_bucket_capacity : ℕ

-- ds_allocation_metrics
pub record AllocationMetrics : Type 0 where
  pub current_retained_bytes : ℕ
  pub peak_retained_bytes : ℕ
  pub growth_operations : ℕ
  pub live_object_count : ℕ
  pub allocation_failures : ℕ
  pub steady_state_allocations : ℕ

-- ds_recipient_workset_config
pub record RecipientWorksetConfig : Type 0 where
  pub initial_recipient_capacity : ℕ
  pub initial_visible_capacity_per_recipient : ℕ

-- ds_recipient_workset_entry
pub record RecipientWorksetEntry : Type 0 where
  pub entity_id : EntityId
  pub channel_mask : ChannelMask

-- ds_recipient_workset_view; the entries stay in the library's memory.
pub record RecipientWorksetSpan : Type 0 where
  pub tick : Tick
  pub observer_id : ObserverId
  pub visible_set_generation : ℕ
  pub visible_set_fingerprint : ℕ
  pub entries : Pointer
  pub visible_count : ℕ
  pub dirty_count : ℕ

-- ds_recipient_workset_stats
pub record RecipientWorksetStats : Type 0 where
  pub recipient_count : ℕ
  pub recipient_capacity : ℕ
  pub visible_count : ℕ
  pub visible_capacity : ℕ
  pub dirty_count : ℕ
  pub retained_bytes : ℕ
  pub syncs : ℕ
  pub incremental_syncs : ℕ
  pub full_rebuilds : ℕ
  pub stable_recipient_reuses : ℕ
  pub membership_changes : ℕ
  pub source_enqueues : ℕ
  pub inverse_edge_visits : ℕ
  pub dirty_enqueues : ℕ
  pub dirty_deduplications : ℕ
  pub dirty_acknowledgements : ℕ
  pub stale_view_rejections : ℕ
  pub growth_operations : ℕ
