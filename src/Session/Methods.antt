-- ===== src/Session/Methods.antt =====
-- No method but `close` and `begin_tick` invalidates a view.
use libdense.Common.{ℕ, refl, Bool, true, false, if◌then◌else◌}
use libdense.Common.Int.{ℤ}
use libdense.DenseSim.{DsResult, Library, Pointer}
use libdense.DenseSim.Lifetimes.{Lifetimes, WritersKeep, Keeps}
use libdense.Python.{Parsed}
use libdense.World.State.{Method}
use libdense.Buffer.Bytes.{Platform}
use libdense.World.Lifecycle.{end_tick, fanout_view, self_generation}
use libdense.World.Entities.{
  spawn, move, set_motion_plan, clear_motion_plan, motion_mode, remove, mark_dirty, entity_exists,
  entity,
}
use libdense.World.Observers.{
  create_observer, destroy_observer, creating, anchor_observer, set_observer_position,
  set_observer_radius, observer_exists, observer,
}
use libdense.World.Properties.{
  tick_is_open, current_tick, entity_count, entity_capacity, observer_count, motion_metrics,
}
use libdense.World.Calls.{Call, dispatch}
use libdense.Session.Batches.{move_many-Stays, mark_dirty_many-Stays}
use libdense.Session.Stays.{
  Stays, Keeps-refl, Stays-pure, Stays-raise, Stays-parse, Stays-reading, Stays-self_world-bind,
  Stays-require_open, Stays-check, Stays-calling, Stays-bind, Stays-py_long, Stays-py_bool,
}

-- The calls other than `close` and `begin_tick`.
abbrev pub IsQuiet : Call → Type 0
IsQuiet Call.close = ⊥
IsQuiet (Call.begin_tick args) = ⊥
IsQuiet _ = Unit

ruleset stays_rules = (
  Stays-pure, Stays-raise, Stays-parse, Stays-reading, Stays-self_world-bind, Stays-require_open,
  Stays-check, Stays-calling, Stays-bind, Stays-py_long, Stays-py_bool,
)

module _ {Memory : Type 0} (lib : Library Memory) (laws : Lifetimes lib)
    (keep : WritersKeep lib laws) (p : ℕ) where
  open laws use {IsLive}

  Stays-creating :
      (f : Memory → DsResult × ℕ × Memory)
      → ((m : Memory) → IsLive p m → Keeps lib laws m (f m).2)
      → Stays lib laws p (creating lib f)
  unfolding creating
  Stays-creating f keeps = record { at = λ s h l. (keeps s.native l, refl) }

  create_observer-Stays : (args : Parsed (ℤ × ℕ)) → Stays lib laws p (create_observer lib args)
  unfolding create_observer
  create_observer-Stays args = search (stays_rules, Stays-creating, keep.create_observer) depth 14

  Stays-if :
      {A : Type 0} (c : Bool) (m n : Method Memory A)
      → Stays lib laws p m
      → Stays lib laws p n
      → Stays lib laws p (if c then m else n)
  Stays-if true m n h k = h
  Stays-if false m n h k = k

  Stays-self_generation : Stays lib laws p (self_generation lib)
  unfolding self_generation
  Stays-self_generation = record { at = λ s h l. (Keeps-refl lib laws s.native, refl) }

  Stays-fanout_view :
      (object : Pointer) (found : Bool) → Stays lib laws p (fanout_view lib object found)
  unfolding fanout_view
  Stays-fanout_view object found = search (stays_rules, Stays-if, Stays-self_generation) depth 14

  pub dispatch-Stays : (pf : Platform) (c : Call) → IsQuiet c → Stays lib laws p (dispatch lib pf c)
  unfolding dispatch end_tick spawn move set_motion_plan clear_motion_plan motion_mode remove
      mark_dirty entity_exists entity destroy_observer anchor_observer set_observer_position
      set_observer_radius observer_exists observer tick_is_open current_tick entity_count
      entity_capacity observer_count motion_metrics
  dispatch-Stays pf Call.close q = absurd q
  dispatch-Stays pf (Call.begin_tick args) q = absurd q
  dispatch-Stays pf (Call.move_many args) q =
      search (stays_rules, move_many-Stays lib laws keep pf p args)
  dispatch-Stays pf (Call.mark_dirty_many args) q =
      search (stays_rules, mark_dirty_many-Stays lib laws keep pf p args)
  dispatch-Stays pf (Call.create_observer args) q =
      search (stays_rules, create_observer-Stays) depth 14
  dispatch-Stays pf (Call.fanout_view object found) q = search (stays_rules, Stays-fanout_view)
  dispatch-Stays pf Call.end_tick q = search (stays_rules, keep.end_tick) depth 14
  dispatch-Stays pf (Call.spawn args) q = search (stays_rules, keep.spawn) depth 14
  dispatch-Stays pf (Call.move args) q = search (stays_rules, keep.move) depth 14
  dispatch-Stays pf (Call.remove args) q = search (stays_rules, keep.remove) depth 14
  dispatch-Stays pf (Call.mark_dirty args) q = search (stays_rules, keep.mark_dirty) depth 14
  dispatch-Stays pf (Call.set_motion_plan args) q =
      search (stays_rules, keep.set_motion_plan) depth 14
  dispatch-Stays pf (Call.clear_motion_plan args) q =
      search (stays_rules, keep.clear_motion_plan) depth 14
  dispatch-Stays pf (Call.destroy_observer args) q =
      search (stays_rules, keep.destroy_observer) depth 14
  dispatch-Stays pf (Call.anchor_observer args) q =
      search (stays_rules, keep.anchor_entity) depth 14
  dispatch-Stays pf (Call.set_observer_position args) q =
      search (stays_rules, keep.set_position) depth 14
  dispatch-Stays pf (Call.set_observer_radius args) q =
      search (stays_rules, keep.set_radius) depth 14
  dispatch-Stays pf _ q = search stays_rules depth 14
