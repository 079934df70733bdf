-- ===== src/Cpp/Frame.antt =====
-- What a call on an open World changes.
use mathlib.Core.Path.{fun_ext}
use libdense.Common.{ℕ, ◌≡◌, false, Option, none, some, arith}
use libdense.DenseSim.{ds_ok, is_ok, Pointer, Library}
use libdense.World.State.{next_generation}
use libdense.Leases.Change.{put}
use libdense.Cpp.State.{returned, WorldState, Env}
use libdense.Cpp.Steps.{advance}
use libdense.Cpp.Types.{motion_plan_to_c, observer_config_to_c}
use libdense.Cpp.Lifecycle.{
  close, begin_tick, end_tick, fanout, tick_is_open, current_tick, entity_count, entity_capacity,
  observer_count, motion_metrics, memory_stats,
}
use libdense.Cpp.Entities.{
  spawn, move, remove, mark_dirty, set_motion_plan, clear_motion_plan, motion_mode, entity_exists,
  entity,
}
use libdense.Cpp.Observers.{
  create_observer, destroy_observer, anchor_observer, set_observer_position, set_observer_radius,
  observer_exists, observer,
}
use libdense.Cpp.Calls.{Call, Reply, dispatch}

module _ {Memory : Type 0} (lib : Library Memory) where
  -- The library's memory after a call, with the native world `w`.
  abbrev pub native_after : Call → Pointer → Memory → Memory
  native_after Call.close w m = lib.world_destroy w m
  native_after (Call.begin_tick t) w m = (lib.world_begin_tick w t m).1
  native_after Call.end_tick w m = (lib.world_end_tick w m).1
  native_after (Call.spawn id x y mask) w m = (lib.entity_spawn w id x y mask m).1
  native_after (Call.move id x y) w m = (lib.entity_move w id x y m).1
  native_after (Call.remove id) w m = (lib.entity_remove w id m).1
  native_after (Call.mark_dirty id mask) w m = (lib.entity_mark_dirty w id mask m).1
  native_after (Call.set_motion_plan id plan) w m =
      (lib.entity_set_motion_plan w id (motion_plan_to_c plan) m).1
  native_after (Call.clear_motion_plan id) w m = (lib.entity_clear_motion_plan w id m).1
  native_after (Call.create_observer config) w m =
      (lib.observer_create w (observer_config_to_c config) m).2
  native_after (Call.destroy_observer id) w m = (lib.observer_destroy w id m).1
  native_after (Call.anchor_observer id e) w m = (lib.observer_anchor_entity w id e m).1
  native_after (Call.set_observer_position id x y) w m = (lib.observer_set_position w id x y m).1
  native_after (Call.set_observer_radius id r) w m = (lib.observer_set_radius w id r m).1
  native_after _ w m = m

-- Every member function but close and begin_tick.
abbrev pub IsQuiet : Call → Type 0
IsQuiet Call.close = ⊥
IsQuiet (Call.begin_tick t) = ⊥
IsQuiet c = Unit

put-put :
    (f : ℕ → Option WorldState) (a : ℕ) (o o' : Option WorldState)
    → put (put f a o) a o' ≡ put f a o'
put-put f a o o' = fun_ext (λ b. ground arith)

module _ {Memory : Type 0} (lib : Library Memory) (s : Env Memory) (p : ℕ)
    (open_at : s.self.world_ ≡ some p) where
  -- A quiet call changes the library's memory by one function at most, and nothing else.
  pub dispatch-quiet :
      (c : Call)
      → IsQuiet c
      → (dispatch lib c s).1 ≡ record s {
        heap = record {
          native = native_after lib c (some p) s.heap.native;
          worlds = s.heap.worlds;
        };
      }
  unfolding dispatch close begin_tick end_tick fanout tick_is_open current_tick entity_count
      entity_capacity observer_count motion_metrics memory_stats spawn move remove mark_dirty
      set_motion_plan clear_motion_plan motion_mode entity_exists entity create_observer
      destroy_observer anchor_observer set_observer_position set_observer_radius observer_exists
      observer
  dispatch-quiet Call.close q = absurd q
  dispatch-quiet (Call.begin_tick t) q = absurd q
  dispatch-quiet _ q = ground (arith, open_at)

  module _ (a : ℕ) (st : WorldState) (shared : s.self.state_ ≡ some a)
      (at : s.heap.worlds a ≡ some st) where
    pub dispatch-close : dispatch lib Call.close s ≡ (
      returned Reply.done,
      record {
        self = record { state_ = some a; world_ = none };
        heap = record {
          native = lib.world_destroy (some p) s.heap.native;
          worlds = put s.heap.worlds a (
              some (record { world = none; view_generation = next_generation st.view_generation }));
        };
      },
    )
    unfolding dispatch close
    dispatch-close =
        let emptied : WorldState = record { world = none; view_generation = st.view_generation } in
        ground (
          arith,
          open_at,
          shared,
          at,
          put-put s.heap.worlds a (some emptied) (some (advance emptied)),
        )

    pub dispatch-begin_tick :
        (t : ℕ)
        → (lib.world_begin_tick (some p) t s.heap.native).0 ≡ ds_ok
        → dispatch lib (Call.begin_tick t) s ≡ (
          returned Reply.done,
          record s {
            heap = record {
              native = (lib.world_begin_tick (some p) t s.heap.native).1;
              worlds = put s.heap.worlds a (some (advance st));
            };
          },
        )
    unfolding dispatch begin_tick
    dispatch-begin_tick t good = ground (arith, open_at, shared, at, good)

  pub dispatch-begin_tick_refused :
      (t : ℕ)
      → is_ok (lib.world_begin_tick (some p) t s.heap.native).0 ≡ false
      → (dispatch lib (Call.begin_tick t) s).1 ≡ record s {
        heap = record {
          native = (lib.world_begin_tick (some p) t s.heap.native).1;
          worlds = s.heap.worlds;
        };
      }
  unfolding dispatch begin_tick
  dispatch-begin_tick_refused t bad = ground (arith, open_at, bad)
