-- ===== src/World/Closed.antt =====
-- Calls on a World that is closed.
use libdense.Common.{◌≡◌, none, arith}
use libdense.DenseSim.{Library}
use libdense.Python.{Result, ok, err, Parsed, parsed, rejected, py_none}
use libdense.Buffer.Bytes.{Platform}
use libdense.World.State.{Env, closed_error}
use libdense.World.Lifecycle.{close, begin_tick, end_tick, fanout_view}
use libdense.World.Entities.{
  spawn, move, set_motion_plan, clear_motion_plan, motion_mode, remove, mark_dirty, entity_exists,
  entity,
}
use libdense.World.Observers.{
  create_observer, destroy_observer, anchor_observer, set_observer_position, set_observer_radius,
  observer_exists, observer,
}
use libdense.World.Properties.{
  tick_is_open, current_tick, entity_count, entity_capacity, observer_count, motion_metrics,
}
use libdense.World.Batches.{move_many, mark_dirty_many}
use libdense.World.Calls.{Call, Reply, dispatch}

abbrev refusal : {A : Type 0} → Parsed A → Result Reply
refusal (parsed a) = err closed_error
refusal (rejected e) = err e

-- The outcome on a closed World: `close` succeeds, every other call is refused, by CPython where
-- the arguments do not convert and as closed where they do.
pub closed_reply : Call → Result Reply
closed_reply Call.close = ok (Reply.value py_none)
closed_reply (Call.begin_tick args) = refusal args
closed_reply (Call.spawn args) = refusal args
closed_reply (Call.move args) = refusal args
closed_reply (Call.move_many args) = refusal args
closed_reply (Call.set_motion_plan args) = refusal args
closed_reply (Call.clear_motion_plan args) = refusal args
closed_reply (Call.motion_mode args) = refusal args
closed_reply (Call.remove args) = refusal args
closed_reply (Call.mark_dirty args) = refusal args
closed_reply (Call.mark_dirty_many args) = refusal args
closed_reply (Call.entity_exists args) = refusal args
closed_reply (Call.entity args) = refusal args
closed_reply (Call.create_observer args) = refusal args
closed_reply (Call.destroy_observer args) = refusal args
closed_reply (Call.anchor_observer args) = refusal args
closed_reply (Call.set_observer_position args) = refusal args
closed_reply (Call.set_observer_radius args) = refusal args
closed_reply (Call.observer_exists args) = refusal args
closed_reply (Call.observer args) = refusal args
closed_reply _ = err closed_error

module _ {Memory : Type 0} (lib : Library Memory) (p : Platform) where
  -- On a closed World every call ends in `closed_reply` and changes nothing: neither the World nor
  -- the library's memory. `close` returns None, and every other call raises: the conversion's
  -- exception where the arguments do not convert, and "world is closed" else.
  pub dispatch-closed :
      (c : Call) (s : Env Memory) → s.self.world ≡ none → dispatch lib p c s ≡ (closed_reply c, s)
  unfolding dispatch closed_reply close begin_tick end_tick fanout_view spawn move set_motion_plan
      clear_motion_plan motion_mode remove mark_dirty entity_exists entity create_observer
      destroy_observer anchor_observer set_observer_position set_observer_radius observer_exists
      observer tick_is_open current_tick entity_count entity_capacity observer_count motion_metrics
      move_many mark_dirty_many
  dispatch-closed Call.close s h = ground arith
  dispatch-closed _ s h = ground arith
