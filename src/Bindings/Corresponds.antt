-- ===== src/Bindings/Corresponds.antt =====
-- Which method of a Python World and which member function of dense::World are the same operation.
use libdense.Common.{ℕ, true, String, Option, none, some, List, [], ◌∷◌}
use libdense.Common.Int.{ℤ}
use libdense.DenseSim.{Pointer}
use libdense.Python.{Result, ok, err, fault, parsed, Part, text}
use libdense.World
use libdense.Cpp.State.{Outcome, returned, thrown, error}
use libdense.Cpp

-- Life and ticks.
pub data OnTicks : World.Calls.Call → Cpp.Calls.Call → Type 0 where
  close : OnTicks World.Calls.Call.close Cpp.Calls.Call.close
  begin_tick :
      (t : ℕ) → OnTicks (World.Calls.Call.begin_tick (parsed t)) (Cpp.Calls.Call.begin_tick t)
  end_tick : OnTicks World.Calls.Call.end_tick Cpp.Calls.Call.end_tick
  fanout :
      (object : Pointer) → OnTicks (World.Calls.Call.fanout_view object true) Cpp.Calls.Call.fanout

-- Entities.
pub data OnEntities : World.Calls.Call → Cpp.Calls.Call → Type 0 where
  spawn :
      (id : ℕ) (x y : ℤ) (mask : ℕ)
      → OnEntities
          (World.Calls.Call.spawn (parsed (id, x, y, mask)))
          (Cpp.Calls.Call.spawn id x y mask)
  move :
      (id : ℕ) (x y : ℤ)
      → OnEntities (World.Calls.Call.move (parsed (id, x, y))) (Cpp.Calls.Call.move id x y)
  remove : (id : ℕ) → OnEntities (World.Calls.Call.remove (parsed id)) (Cpp.Calls.Call.remove id)
  mark_dirty :
      (id mask : ℕ)
      → OnEntities
          (World.Calls.Call.mark_dirty (parsed (id, mask)))
          (Cpp.Calls.Call.mark_dirty id mask)

-- Motion plans, and what is known of an entity.
pub data OnMotion : World.Calls.Call → Cpp.Calls.Call → Type 0 where
  set_motion_plan :
      (id a b x y vx vy : ℕ)
      → OnMotion (World.Calls.Call.set_motion_plan (parsed (id, a, b, x, y, vx, vy))) (
          Cpp.Calls.Call.set_motion_plan id
            (record { start_tick = a; until_tick = b; x = x; y = y; vx = vx; vy = vy }))
  clear_motion_plan :
      (id : ℕ)
      → OnMotion
          (World.Calls.Call.clear_motion_plan (parsed id))
          (Cpp.Calls.Call.clear_motion_plan id)
  motion_mode :
      (id : ℕ) → OnMotion (World.Calls.Call.motion_mode (parsed id)) (Cpp.Calls.Call.motion_mode id)
  entity_exists :
      (id : ℕ)
      → OnMotion (World.Calls.Call.entity_exists (parsed id)) (Cpp.Calls.Call.entity_exists id)
  entity : (id : ℕ) → OnMotion (World.Calls.Call.entity (parsed id)) (Cpp.Calls.Call.entity id)

-- Observers.
pub data OnObservers : World.Calls.Call → Cpp.Calls.Call → Type 0 where
  create_observer :
      (radius : ℤ) (mask : ℕ)
      → OnObservers
          (World.Calls.Call.create_observer (parsed (radius, mask)))
          (Cpp.Calls.Call.create_observer (record { radius = radius; type_mask = mask }))
  destroy_observer :
      (id : ℕ)
      → OnObservers
          (World.Calls.Call.destroy_observer (parsed id))
          (Cpp.Calls.Call.destroy_observer id)
  anchor_observer :
      (id e : ℕ)
      → OnObservers
          (World.Calls.Call.anchor_observer (parsed (id, e)))
          (Cpp.Calls.Call.anchor_observer id e)
  set_observer_position :
      (id : ℕ) (x y : ℤ)
      → OnObservers
          (World.Calls.Call.set_observer_position (parsed (id, x, y)))
          (Cpp.Calls.Call.set_observer_position id x y)
  set_observer_radius :
      (id : ℕ) (radius : ℤ)
      → OnObservers
          (World.Calls.Call.set_observer_radius (parsed (id, radius)))
          (Cpp.Calls.Call.set_observer_radius id radius)
  observer_exists :
      (id : ℕ)
      → OnObservers
          (World.Calls.Call.observer_exists (parsed id))
          (Cpp.Calls.Call.observer_exists id)
  observer :
      (id : ℕ) → OnObservers (World.Calls.Call.observer (parsed id)) (Cpp.Calls.Call.observer id)

-- Properties of a Python World, which are member functions in C++.
pub data OnCounters : World.Calls.Call → Cpp.Calls.Call → Type 0 where
  tick_is_open : OnCounters World.Calls.Call.tick_is_open Cpp.Calls.Call.tick_is_open
  current_tick : OnCounters World.Calls.Call.current_tick Cpp.Calls.Call.current_tick
  entity_count : OnCounters World.Calls.Call.entity_count Cpp.Calls.Call.entity_count
  entity_capacity : OnCounters World.Calls.Call.entity_capacity Cpp.Calls.Call.entity_capacity
  observer_count : OnCounters World.Calls.Call.observer_count Cpp.Calls.Call.observer_count
  motion_metrics : OnCounters World.Calls.Call.motion_metrics Cpp.Calls.Call.motion_metrics

-- Python has no memory_stats, and C++ has no batches.
pub data Corresponds (f : World.Calls.Call) (g : Cpp.Calls.Call) : Type 0 where
  on_ticks : OnTicks f g → Corresponds f g
  on_entities : OnEntities f g → Corresponds f g
  on_motion : OnMotion f g → Corresponds f g
  on_observers : OnObservers f g → Corresponds f g
  on_counters : OnCounters f g → Corresponds f g

-- How a call ends: it returns, it fails with the description of a ds_result or with another
-- message, or it reads memory that is not there.
pub data Ending : Type 0 where
  done : Ending
  failed : Option String → Ending
  lost : Ending

-- The text of an exception of dense_raise_result ends in the description of the ds_result.
abbrev pub reason_of : List Part → Option String
reason_of (text context ∷ text colon ∷ text reason ∷ []) = some reason
reason_of _ = none

abbrev pub raises : {A : Type 0} → Result A → Ending
raises (ok a) = done
raises (err e) = failed (reason_of e.message)
raises fault = lost

abbrev pub throws : {A : Type 0} → Outcome A → Ending
throws (returned a) = done
throws (thrown (error r context reason)) = failed (some reason)
throws (thrown e) = failed none
throws Outcome.fault = lost
