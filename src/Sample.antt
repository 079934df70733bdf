-- ===== src/Sample.antt =====
-- A library of one's own, small but with real lifetimes, at which the theorems are applied: each
-- world owns one array of chunks, which a successful begin_tick replaces and destruction frees.
pub mod Laws
pub mod Tests
pub mod Start
pub mod Rows
pub mod Marks
pub mod Calls
pub mod CppProgram
pub mod CppTests
pub mod Worksets
pub mod WorksetTests
pub mod BindingsTests
use libdense.Common.{ℕ, ◌+◌, Bool, true, false, Option, none, some, ◌==◌, if◌then◌else◌}
use libdense.Buffer.Bytes.{Platform}
use libdense.Common.Int.{ℤ, pos}
use libdense.DenseSim.{
  DsResult, ds_ok, WorldConfig, ObserverDesc, EntityDesc, MotionMode, MotionMetrics,
  WorldMemoryStats, DeltaOp, DeltaEntry, Pointer, ChunkDelta, FanoutSpan, Library,
}

abbrev pub platform : Platform
platform = record { little_endian = true; sizeof_int = 4; sizeof_long = 8; sizeof_long_long = 8 }

-- The next address; the array of each world that lives; the world that each array was made for.
pub record Heap : Type 0 where
  pub next : ℕ
  pub array : ℕ → Option ℕ
  pub owner : ℕ → Option ℕ

abbrev pub set : (ℕ → Option ℕ) → ℕ → Option ℕ → ℕ → Option ℕ
set f a o b = if b == a then o else f b

abbrev pub empty_heap : Heap
empty_heap = record { next = 0; array = λ p. none; owner = λ a. none }

abbrev pub span : ℕ → FanoutSpan
span a = record {
  tick = 0;
  chunks = some a;
  chunk_count = 1;
  delta_count = 1;
  subscriber_count = 1;
}

abbrev pub null_span : FanoutSpan
null_span = record {
  tick = 0;
  chunks = none;
  chunk_count = 0;
  delta_count = 0;
  subscriber_count = 0;
}

-- The value at index 0 of an array that its world still has.
abbrev pub held_at : {A : Type 0} → Pointer → ℕ → A → Heap → Option A
held_at none i value m = none
held_at (some a) i value m = elim (m.owner a) [
  | none ↦ none
  | some p ↦ elim (m.array p) [
    | none ↦ none
    | some b ↦ if b == a then (if i == 0 then some value else none) else none
  ]
]

-- The world `p` gets a new array.
abbrev pub renew : ℕ → Heap → Heap
renew p m = record {
  next = m.next + 1;
  array = set m.array p (some m.next);
  owner = set m.owner m.next (some p);
}

abbrev pub no_memory_stats : WorldMemoryStats
no_memory_stats = record {
  entity_capacity = 0;
  entity_map_capacity = 0;
  cell_bucket_capacity = 0;
  chunk_bucket_capacity = 0;
  observer_capacity = 0;
  observer_map_capacity = 0;
  subscription_capacity = 0;
  membership_capacity = 0;
  crossing_capacity = 0;
  dirty_capacity = 0;
  observer_dirty_capacity = 0;
  fanout_chunk_capacity = 0;
  fanout_entry_capacity = 0;
  fanout_subscriber_capacity = 0;
  kinetic_event_capacity = 0;
  kinetic_bucket_capacity = 0;
}

abbrev pub begin : Pointer → Heap → DsResult × Heap
begin none m = (DsResult.invalid_argument, m)
begin (some p) m = elim (m.array p) [
  | none ↦ (DsResult.invalid_argument, m)
  | some a ↦ (ds_ok, renew p m)
]

abbrev pub view_of : Pointer → Heap → DsResult × FanoutSpan
view_of none m = (DsResult.invalid_argument, null_span)
view_of (some p) m = elim (m.array p) [
  | none ↦ (DsResult.invalid_argument, null_span)
  | some a ↦ (ds_ok, span a)
]

abbrev pub free : Pointer → Heap → Heap
free none m = m
free (some p) m = record m { array = set m.array p none }

abbrev pub no_metrics : MotionMetrics
no_metrics = record {
  scheduled_events = 0;
  processed_events = 0;
  stale_events = 0;
  cell_crossings = 0;
  expiries = 0;
  plan_replacements = 0;
  sampled_demotions = 0;
  correction_steps = 0;
}

abbrev pub chunk : Pointer → ChunkDelta
chunk a = record {
  chunk_x = pos 0;
  chunk_y = pos 0;
  entries = a;
  entry_count = 1;
  subscribers = a;
  subscriber_count = 1;
}

abbrev pub entry : DeltaEntry
entry = record { entity_id = 3; channel_mask = 1; operation = DeltaOp.update }

-- Entity 7 cannot be moved, and every other entity can.
abbrev pub sample : Library Heap
sample = record {
  result_string = λ r. "result";
  world_create = λ config m. (ds_ok, some m.next, renew m.next m);
  world_destroy = free;
  world_begin_tick = λ w t m. begin w m;
  world_end_tick = λ w m. (ds_ok, m);
  world_tick_is_open = λ w m. true;
  world_current_tick = λ w m. 0;
  world_entity_count = λ w m. 0;
  world_entity_capacity = λ w m. 0;
  world_observer_count = λ w m. 0;
  world_get_motion_metrics = λ w m. (ds_ok, no_metrics);
  world_get_memory_stats = λ w m. (ds_ok, no_memory_stats);
  world_get_fanout_view = view_of;
  entity_spawn = λ w id x y mask m. (ds_ok, m);
  entity_move = λ w id x y m. (if id == 7 then DsResult.entity_not_found else ds_ok, m);
  entity_remove = λ w id m. (ds_ok, m);
  entity_mark_dirty = λ w id mask m. (ds_ok, m);
  entity_set_motion_plan = λ w id plan m. (ds_ok, m);
  entity_clear_motion_plan = λ w id m. (ds_ok, m);
  entity_motion_mode = λ w id m. (ds_ok, MotionMode.sampled);
  entity_exists = λ w id m. false;
  entity_get =
      λ w id m. (ds_ok, record { id = id; spatial_x = pos 0; spatial_y = pos 0; type_mask = 0 });
  observer_create = λ w config m. (ds_ok, 0, m);
  observer_destroy = λ w id m. (ds_ok, m);
  observer_anchor_entity = λ w id e m. (ds_ok, m);
  observer_set_position = λ w id x y m. (ds_ok, m);
  observer_set_radius = λ w id r m. (ds_ok, m);
  observer_exists = λ w id m. false;
  observer_get = λ w id m. (
    ds_ok,
    record {
      id = id;
      spatial_x = pos 0;
      spatial_y = pos 0;
      radius = pos 1;
      type_mask = 0;
      anchor_entity_id = 0;
      positioned = false;
      anchored = false;
    },
  );
  read_chunk = λ w i m. held_at w i (chunk w) m;
  read_entry = λ w i m. held_at w i entry m;
  read_subscriber = λ w i m. held_at w i 5 m;
}
