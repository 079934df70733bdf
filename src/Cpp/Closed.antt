-- ===== src/Cpp/Closed.antt =====
-- Calls on a World that is closed or has been moved from.
use libdense.Common.{◌≡◌, false, none, arith}
use libdense.DenseSim.{Library}
use libdense.Cpp.State.{Outcome, returned, thrown, Env, closed_error}
use libdense.Cpp.Lifecycle.{
  close, begin_tick, end_tick, fanout, tick_is_open, current_tick, entity_count, entity_capacity,
  observer_count, motion_metrics, memory_stats,
}
use libdense.Cpp.Entities.{
  spawn, move, remove, mark_dirty, set_motion_plan, clear_motion_plan, motion_mode, entity_exists,
  entity,
}
use libdense.Cpp.Observers.{
  create_observer, destroy_observer, anchor_observer, set_observer_position, set_observer_radius,
  observer_exists, observer,
}
use libdense.Cpp.Calls.{Call, Reply, dispatch}

abbrev pub refusal : Call → Outcome Reply
refusal Call.close = returned Reply.done
refusal Call.is_open = returned (Reply.flag false)
refusal c = thrown closed_error

module _ {Memory : Type 0} (lib : Library Memory) where
  -- On a World without a world, closed or moved from, `close` does nothing and returns, `is_open`
  -- returns false, and every other member function throws "dense::World is closed"; neither the World, nor any shared state,
  -- nor the library's memory changes.
  pub dispatch-refusal :
      (c : Call) (s : Env Memory) → s.self.world_ ≡ none → dispatch lib c s ≡ (refusal c, s)
  unfolding dispatch close begin_tick end_tick fanout tick_is_open current_tick entity_count
      entity_capacity observer_count motion_metrics memory_stats spawn move remove mark_dirty
      set_motion_plan clear_motion_plan motion_mode entity_exists entity create_observer
      destroy_observer anchor_observer set_observer_position set_observer_radius observer_exists
      observer
  dispatch-refusal Call.close s h = ground arith
  dispatch-refusal Call.is_open s h = ground arith
  dispatch-refusal _ s h = ground arith
