-- ===== src/World/Lifecycle.antt =====
-- Creation and destruction of a World, its ticks, and the creation of fanout views: tp_new,
-- tp_init, tp_dealloc, close, begin_tick, end_tick and fanout_view.
use libdense.Common.{ℕ, Bool, not, ◌||◌, Option, none, some, [], ◌∷◌, if◌then◌else◌}
use libdense.Common.Int.{ℤ, pos, pos_part, ltb_ℤ}
use libdense.DenseSim.{Pointer, Tick, WorldConfig, FanoutSpan, DsResult, Library}
use libdense.Python.{ExcType, text, Exc, ok, Parsed, Value, py_none}
use libdense.World.State.{
  DenseWorld, next_generation, Method, pure, raise, ◌>>=◌, ◌>>◌, parse, self_world, reading,
  calling, check, require_open,
}

-- The struct DenseFanoutView: `world` is the address of the World object.
pub record DenseFanoutView : Type 0 where
  pub world : Pointer
  pub view : FanoutSpan
  pub generation : ℕ

-- DenseWorld_new, once tp_alloc has found memory.
unfoldable pub new_world : DenseWorld
new_world = record { world = none; view_generation = 1 }

abbrev pub given : Option ℤ → ℤ → ℤ
given none d = d
given (some v) d = v

abbrev pub negative : ℤ → Bool
negative n = ltb_ℤ n (pos 0)

abbrev pub world_config : Option ℤ → Option ℤ → ℤ → ℤ → WorldConfig
world_config cell chunk entity_capacity observer_capacity = record {
  cell_size = given cell (pos 8);
  chunk_size = given chunk (pos 16);
  initial_entity_capacity = pos_part entity_capacity;
  initial_observer_capacity = pos_part observer_capacity;
}

abbrev pub capacity_error : Exc
capacity_error = record {
  class = ExcType.value_error;
  message = text "initial capacities must be non-negative" ∷ [];
}

abbrev pub memory_error : Exc
memory_error = record { class = ExcType.memory_error; message = [] }

module _ {Memory : Type 0} where
  -- `self->world = ...`
  unfoldable pub set_world : Pointer → Method Memory (Unit {0})
  set_world w s = (ok tt, record s { self = record s.self { world = w } })

  -- `self->view_generation++`
  unfoldable pub bump_generation : Method Memory (Unit {0})
  bump_generation s = (
    ok tt,
    record s { self = record s.self { view_generation = next_generation s.self.view_generation } },
  )

module _ {Memory : Type 0} (lib : Library Memory) where
  unfoldable pub destroy : Pointer → Method Memory (Unit {0})
  destroy w s = (ok tt, record s { native = lib.world_destroy w s.native })

  unfoldable pub create : WorldConfig → Method Memory (DsResult × Pointer)
  create config s =
      let (r, w, m) = lib.world_create config s.native in (ok (r, w), record s { native = m })

  -- `if (self->world != NULL) { ds_world_destroy(self->world); self->view_generation++; }`
  unfoldable pub destroy_open : Pointer → Method Memory (Unit {0})
  unfolding destroy bump_generation
  destroy_open none = pure tt
  destroy_open (some w) = destroy (some w) >> bump_generation

  -- DenseWorld_init; the arguments are cell_size, chunk_size, initial_entity_capacity and
  -- initial_observer_capacity, each `none` where the caller left it out.
  unfoldable pub init :
      Parsed (Option ℤ × Option ℤ × Option ℤ × Option ℤ) → Method Memory (Unit {0})
  unfolding create destroy_open set_world ◌>>=◌
  init args = do
    (cell, chunk, entities, observers) ← parse args
    let entity_capacity = given entities (pos 1024)
    let observer_capacity = given observers (pos 64)
    if negative entity_capacity || negative observer_capacity then raise capacity_error else do
      (result, world) ← create (world_config cell chunk entity_capacity observer_capacity)
      check lib result "World creation failed"
      old ← self_world
      destroy_open old
      set_world world

  -- DenseWorld_dealloc; the object itself goes with tp_free.
  unfoldable pub dealloc : Method Memory (Unit {0})
  unfolding destroy set_world ◌>>=◌
  dealloc = do w ← self_world; destroy w; set_world none

  -- DenseWorld_close, by what `self->world` is.
  unfoldable pub close_world : Pointer → Method Memory (Unit {0})
  unfolding destroy set_world bump_generation
  close_world none = pure tt
  close_world (some w) = destroy (some w) >> set_world none >> bump_generation

  unfoldable pub close : Method Memory Value
  unfolding close_world ◌>>=◌
  close = do w ← self_world; close_world w; pure py_none

  -- DenseWorld_begin_tick
  unfoldable pub begin_tick : Parsed Tick → Method Memory Value
  unfolding bump_generation ◌>>=◌
  begin_tick args = do
    tick ← parse args
    require_open
    w ← self_world
    result ← calling (lib.world_begin_tick w tick)
    check lib result "begin_tick failed"
    bump_generation
    pure py_none

  -- DenseWorld_end_tick
  unfoldable pub end_tick : Method Memory Value
  unfolding ◌>>=◌
  end_tick = do
    require_open
    w ← self_world
    result ← calling (lib.world_end_tick w)
    check lib result "end_tick failed"
    pure py_none

  unfoldable pub self_generation : Method Memory ℕ
  self_generation s = (ok s.self.view_generation, s)

  -- dense_fanout_view_create; `object` is the World, `found` whether PyObject_New has memory.
  unfoldable pub fanout_view_create : Pointer → Bool → Method Memory DenseFanoutView
  unfolding self_generation ◌>>=◌
  fanout_view_create object found = do
    w ← self_world
    (result, native_view) ← reading (lib.world_get_fanout_view w)
    check lib result "fanout_view failed"
    if not found then raise memory_error else do
      generation ← self_generation
      pure (record { world = object; view = native_view; generation = generation })

  -- DenseWorld_fanout_view
  unfoldable pub fanout_view : Pointer → Bool → Method Memory DenseFanoutView
  unfolding fanout_view_create
  fanout_view object found = require_open >> fanout_view_create object found
