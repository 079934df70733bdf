-- ===== src/Cpp/Lifecycle.antt =====
-- The life of a dense::World, its ticks, its counters and its fanout view.
use libdense.Common.{ℕ, Bool, true, false, none, some, if◌then◌else◌}
use libdense.DenseSim.{Tick, Pointer, is_ok, Library}
use libdense.Cpp.State.{Outcome, returned, thrown, WorldState, World, moved_from, Method, state_at}
use libdense.Cpp.Steps.{
  pure, reads, self_world, self_state, reading, calling, forget_world, update_state, advance,
  require_open, check, failure, ◌>>=◌, ◌>>◌,
}
use libdense.Cpp.Types.{
  WorldConfig, MotionMetrics, WorldMemoryStats, world_config_to_c, motion_metrics_from_c,
  memory_stats_from_c,
}
use libdense.View.State.{Runtime}
use libdense.Leases.Change.{put}
use libdense.Cpp.FanoutView.{FanoutView}

-- World::is_open
abbrev pub is_open : World → Bool
is_open w = elim w.world_ [ none ↦ false | some p ↦ true ]

-- World(World &&) and operator=(World &&), between different objects: the object that takes, and the
-- other one afterwards. What the state that is given up goes through is not in them.
abbrev pub move_construct : World → World × World
move_construct other = (record { state_ = other.state_; world_ = other.world_ }, moved_from)

abbrev pub move_assign : World → World → World × World
move_assign self other = (record { state_ = other.state_; world_ = other.world_ }, moved_from)

module _ {Memory : Type 0} (lib : Library Memory) where
  -- ~WorldState, and the release of its memory.
  unfoldable pub destroy_state : ℕ → WorldState → Runtime Memory → Runtime Memory
  destroy_state a st h = record {
    native = elim st.world [ none ↦ h.native | some w ↦ lib.world_destroy (some w) h.native ];
    worlds = put h.worlds a none;
  }

  -- The constructor of World, where make_shared has found memory at the address `a`; where it throws,
  -- the shared pointer is destroyed, and with it the state.
  unfoldable pub construct : ℕ → WorldConfig → Runtime Memory → Outcome World × Runtime Memory
  unfolding world_config_to_c destroy_state
  construct a config h =
      let (result, world, m) = lib.world_create (world_config_to_c config) h.native in
      let st : WorldState = record { world = world; view_generation = 0 } in
      let made : Runtime Memory = record { native = m; worlds = put h.worlds a (some st) } in
      if is_ok result
      then (returned (record { state_ = some a; world_ = world }), made)
      else (thrown (failure lib result "ds_world_create"), destroy_state a st made)

  unfoldable pub destroy : Pointer → Method Memory (Unit {0})
  destroy w s = (
    returned tt,
    record s {
      heap = record { native = lib.world_destroy w s.heap.native; worlds = s.heap.worlds };
    },
  )

  -- World::close, by what `world_` is.
  unfoldable pub close_world : Pointer → Method Memory (Unit {0})
  unfolding destroy
  close_world none = pure tt
  close_world (some w) = do
    destroy (some w)
    forget_world
    update_state (λ st. record { world = none; view_generation = st.view_generation })
    update_state advance

  unfoldable pub close : Method Memory (Unit {0})
  unfolding close_world ◌>>=◌
  close = do w ← self_world; close_world w

  unfoldable pub begin_tick : Tick → Method Memory (Unit {0})
  unfolding ◌>>=◌
  begin_tick tick = do
    require_open
    w ← self_world
    result ← calling (lib.world_begin_tick w tick)
    check lib result "ds_world_begin_tick"
    update_state advance

  unfoldable pub fanout : Method Memory FanoutView
  unfolding ◌>>=◌
  fanout = do
    require_open
    w ← self_world
    (result, view) ← reading (lib.world_get_fanout_view w)
    check lib result "ds_world_get_fanout_view"
    a ← self_state
    st ← reads (state_at a)
    pure (record { state_ = a; generation_ = st.view_generation; view_ = view })

  unfoldable pub end_tick : Method Memory (Unit {0})
  unfolding ◌>>=◌
  end_tick = do
    require_open
    w ← self_world
    result ← calling (lib.world_end_tick w)
    check lib result "ds_world_end_tick"

  unfoldable pub tick_is_open : Method Memory Bool
  unfolding ◌>>=◌
  tick_is_open = do
    require_open
    w ← self_world
    value ← reading (lib.world_tick_is_open w)
    pure value

  unfoldable pub current_tick : Method Memory Tick
  unfolding ◌>>=◌
  current_tick = do
    require_open
    w ← self_world
    value ← reading (lib.world_current_tick w)
    pure value

  unfoldable pub entity_count : Method Memory ℕ
  unfolding ◌>>=◌
  entity_count = do
    require_open
    w ← self_world
    value ← reading (lib.world_entity_count w)
    pure value

  unfoldable pub entity_capacity : Method Memory ℕ
  unfolding ◌>>=◌
  entity_capacity = do
    require_open
    w ← self_world
    value ← reading (lib.world_entity_capacity w)
    pure value

  unfoldable pub observer_count : Method Memory ℕ
  unfolding ◌>>=◌
  observer_count = do
    require_open
    w ← self_world
    value ← reading (lib.world_observer_count w)
    pure value

  unfoldable pub motion_metrics : Method Memory MotionMetrics
  unfolding ◌>>=◌ motion_metrics_from_c
  motion_metrics = do
    require_open
    w ← self_world
    (result, value) ← reading (lib.world_get_motion_metrics w)
    check lib result "ds_world_get_motion_metrics"
    pure (motion_metrics_from_c value)

  unfoldable pub memory_stats : Method Memory WorldMemoryStats
  unfolding ◌>>=◌ memory_stats_from_c
  memory_stats = do
    require_open
    w ← self_world
    (result, value) ← reading (lib.world_get_memory_stats w)
    check lib result "ds_world_get_memory_stats"
    pure (memory_stats_from_c value)
