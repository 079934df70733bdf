-- ===== src/World/Frame.antt =====
-- What a call may change of the binding's own state.
use libdense.Common.{◌≡◌, none, some, arith}
use libdense.DenseSim.{Library}
use libdense.Python.{Result, ok}
use libdense.Buffer.Bytes.{Platform}
use libdense.World.State.{DenseWorld, next_generation, Env, ◌>>=◌}
use libdense.World.Lifecycle.{close, begin_tick, end_tick, fanout_view}
use libdense.World.Entities.{
  spawn, move, set_motion_plan, clear_motion_plan, motion_mode, remove, mark_dirty, entity_exists,
  entity,
}
use libdense.World.Observers.{
  create_observer, destroy_observer, anchor_observer, set_observer_position, set_observer_radius,
  observer_exists, observer,
}
use libdense.World.Properties.{
  tick_is_open, current_tick, entity_count, entity_capacity, observer_count, motion_metrics,
}
use libdense.World.Balance.{move_many-IsRestored, mark_dirty_many-IsRestored}
use libdense.World.Calls.{Call, Reply, dispatch}

-- The World's fields after a call that ended in `r`: a `close` of an open World empties it, and it
-- and a successful `begin_tick` advance the generation.
unfoldable pub after : Call → Result Reply → DenseWorld → DenseWorld
after Call.close r w = elim w.world [
  | none ↦ w
  | some p ↦ record { world = none; view_generation = next_generation w.view_generation }
]
after (Call.begin_tick args) (ok v) w = record w {
  view_generation = next_generation w.view_generation;
}
after _ r w = w

module _ {Memory : Type 0} (lib : Library Memory) (p : Platform) where
  -- Every method and property of a World, with any arguments and in any state, leaves the World's
  -- fields as `after` says: `close` on an open World empties it and advances the generation, a
  -- `begin_tick` that returns advances the generation, and every other call leaves both fields.
  -- The number of buffer exports held is as before.
  pub dispatch-after :
      (c : Call) (s : Env Memory)
      → ((dispatch lib p c s).1.self ≡ after c (dispatch lib p c s).0 s.self)
        × ((dispatch lib p c s).1.held ≡ s.held)
  unfolding dispatch after close begin_tick end_tick fanout_view spawn move set_motion_plan
      clear_motion_plan motion_mode remove mark_dirty entity_exists entity create_observer
      destroy_observer anchor_observer set_observer_position set_observer_radius observer_exists
      observer tick_is_open current_tick entity_count entity_capacity observer_count motion_metrics
      ◌>>=◌
  dispatch-after Call.close s = ground arith
  dispatch-after (Call.move_many args) s = ground (arith, move_many-IsRestored lib p args s)
  dispatch-after (Call.mark_dirty_many args) s =
      ground (arith, mark_dirty_many-IsRestored lib p args s)
  dispatch-after _ s = ground arith
