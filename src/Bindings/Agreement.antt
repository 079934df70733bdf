-- ===== src/Bindings/Agreement.antt =====
-- The two bindings do the same with the library and with the generation.
use libdense.Common.{ℕ, ◌+◌, ◌%◌, ◌^◌, ◌≡◌, some, arith}
use libdense.DenseSim.{Library}
use libdense.Python.{Result}
use libdense.Buffer.Bytes.{Platform}
use libdense.World
use libdense.World.State
use libdense.World.State.{DenseWorld, next_generation}
use libdense.World.Lifecycle
use libdense.World.Entities
use libdense.World.Observers
use libdense.World.Properties
use libdense.Cpp
use libdense.Cpp.State.{Outcome, returned, thrown}
use libdense.Bindings.Corresponds.{
  Corresponds, on_ticks, on_entities, on_motion, on_observers, on_counters, OnTicks, OnEntities,
  OnMotion, OnObservers, OnCounters, raises, throws,
}

abbrev pub shifted : ℕ → DenseWorld → DenseWorld
shifted e w = record { world = w.world; view_generation = (w.view_generation + e) % 2 ^ 64 }

-- Two generations that differ by `e` still do so once both have advanced.
next_generation-shifted :
    (e g : ℕ) → next_generation ((g + e) % 2 ^ 64) ≡ (next_generation g + e) % 2 ^ 64
next_generation-shifted e g = omega arith

module _ {Memory : Type 0} where
  -- A Python World and a C++ World, with its state at `a`, that have the same native world and the
  -- same library memory. The generation of the C++ World is that of the Python World and `e`, modulo
  -- 2 ^ 64: a Python World starts with 1 and a C++ World with 0, and then `e` is 2 ^ 64 - 1.
  pub record IsAlike (e a : ℕ) (s : World.State.Env Memory) (c : Cpp.State.Env Memory)
      : Type 0 where
    pub native : c.heap.native ≡ s.native
    pub shared : c.self.state_ ≡ some a
    pub world : c.self.world_ ≡ s.self.world
    pub state : c.heap.worlds a ≡ some (shifted e s.self)

-- The same, as equations, with how both calls have ended.
abbrev Agree :
    {Memory : Type 0}
    → ℕ
    → ℕ
    → Result World.Calls.Reply × World.State.Env Memory
    → Outcome Cpp.Calls.Reply × Cpp.State.Env Memory
    → Type 0
Agree e a (r, s) (o, c) =
    (c.heap.native ≡ s.native)
    × (c.self.state_ ≡ some a)
    × (c.self.world_ ≡ s.self.world)
    × (c.heap.worlds a ≡ some (shifted e s.self))
    × (throws o ≡ raises r)

module _ {Memory : Type 0} (lib : Library Memory) (pf : Platform) (e a : ℕ)
    (s : World.State.Env Memory) (c : Cpp.State.Env Memory) (native : c.heap.native ≡ s.native)
    (shared : c.self.state_ ≡ some a) (world : c.self.world_ ≡ s.self.world)
    (state : c.heap.worlds a ≡ some (shifted e s.self)) where
  ticks-Agree :
      (f : World.Calls.Call) (g : Cpp.Calls.Call)
      → OnTicks f g
      → Agree e a (World.Calls.dispatch lib pf f s) (Cpp.Calls.dispatch lib g c)
  unfolding World.Calls.dispatch Cpp.Calls.dispatch World.Lifecycle.close World.Lifecycle.begin_tick
      World.Lifecycle.end_tick World.Lifecycle.fanout_view Cpp.Lifecycle.close
      Cpp.Lifecycle.begin_tick Cpp.Lifecycle.end_tick Cpp.Lifecycle.fanout
  ticks-Agree _ _ OnTicks.close = ground (arith, next_generation-shifted e s.self.view_generation)
  ticks-Agree _ _ _ = ground (arith, next_generation-shifted e s.self.view_generation)

  entities-Agree :
      (f : World.Calls.Call) (g : Cpp.Calls.Call)
      → OnEntities f g
      → Agree e a (World.Calls.dispatch lib pf f s) (Cpp.Calls.dispatch lib g c)
  unfolding World.Calls.dispatch Cpp.Calls.dispatch World.Entities.spawn World.Entities.move
      World.Entities.remove World.Entities.mark_dirty Cpp.Entities.spawn Cpp.Entities.move
      Cpp.Entities.remove Cpp.Entities.mark_dirty
  entities-Agree _ _ (OnEntities.spawn id x y m) = ground arith
  entities-Agree _ _ _ = ground arith

  motion-Agree :
      (f : World.Calls.Call) (g : Cpp.Calls.Call)
      → OnMotion f g
      → Agree e a (World.Calls.dispatch lib pf f s) (Cpp.Calls.dispatch lib g c)
  unfolding World.Calls.dispatch Cpp.Calls.dispatch World.Entities.set_motion_plan
      World.Entities.clear_motion_plan World.Entities.motion_mode World.Entities.entity_exists
      World.Entities.entity Cpp.Entities.set_motion_plan Cpp.Entities.clear_motion_plan
      Cpp.Entities.motion_mode Cpp.Entities.entity_exists Cpp.Entities.entity
  motion-Agree _ _ (OnMotion.clear_motion_plan id) = ground arith
  motion-Agree _ _ _ = ground arith

  observers-Agree :
      (f : World.Calls.Call) (g : Cpp.Calls.Call)
      → OnObservers f g
      → Agree e a (World.Calls.dispatch lib pf f s) (Cpp.Calls.dispatch lib g c)
  unfolding World.Calls.dispatch Cpp.Calls.dispatch World.Observers.create_observer
      World.Observers.destroy_observer World.Observers.anchor_observer
      World.Observers.set_observer_position World.Observers.set_observer_radius
      World.Observers.observer_exists World.Observers.observer Cpp.Observers.create_observer
      Cpp.Observers.destroy_observer Cpp.Observers.anchor_observer
      Cpp.Observers.set_observer_position Cpp.Observers.set_observer_radius
      Cpp.Observers.observer_exists Cpp.Observers.observer
  observers-Agree _ _ (OnObservers.create_observer r m) = ground arith
  observers-Agree _ _ _ = ground arith

  counters-Agree :
      (f : World.Calls.Call) (g : Cpp.Calls.Call)
      → OnCounters f g
      → Agree e a (World.Calls.dispatch lib pf f s) (Cpp.Calls.dispatch lib g c)
  unfolding World.Calls.dispatch Cpp.Calls.dispatch World.Properties.tick_is_open
      World.Properties.current_tick World.Properties.entity_count World.Properties.entity_capacity
      World.Properties.observer_count World.Properties.motion_metrics Cpp.Lifecycle.tick_is_open
      Cpp.Lifecycle.current_tick Cpp.Lifecycle.entity_count Cpp.Lifecycle.entity_capacity
      Cpp.Lifecycle.observer_count Cpp.Lifecycle.motion_metrics
  counters-Agree _ _ OnCounters.tick_is_open = ground arith
  counters-Agree _ _ _ = ground arith

  Corresponds-Agree :
      (f : World.Calls.Call) (g : Cpp.Calls.Call)
      → Corresponds f g
      → Agree e a (World.Calls.dispatch lib pf f s) (Cpp.Calls.dispatch lib g c)
  Corresponds-Agree f g (on_ticks k) = ticks-Agree f g k
  Corresponds-Agree f g (on_entities k) = entities-Agree f g k
  Corresponds-Agree f g (on_motion k) = motion-Agree f g k
  Corresponds-Agree f g (on_observers k) = observers-Agree f g k
  Corresponds-Agree f g (on_counters k) = counters-Agree f g k

module _ {Memory : Type 0} (lib : Library Memory) (pf : Platform) where
  -- Let a Python World and a C++ World have the same native world, the same library memory, and
  -- generations that differ by `e`. Then the same operation of both, with the arguments converted
  -- and memory for the view object, makes the same changes, so that they are alike afterwards too;
  -- and the C++ function throws if and only if the Python method raises, both with the same
  -- description of a ds_result, or both without one, as on a closed World. The values that they
  -- return are not compared.
  pub dispatch-IsAlike :
      (f : World.Calls.Call) (g : Cpp.Calls.Call) (e a : ℕ) (s : World.State.Env Memory)
      (c : Cpp.State.Env Memory)
      → Corresponds f g
      → IsAlike e a s c
      → IsAlike e a (World.Calls.dispatch lib pf f s).1 (Cpp.Calls.dispatch lib g c).1
        × (throws (Cpp.Calls.dispatch lib g c).0 ≡ raises (World.Calls.dispatch lib pf f s).0)
  dispatch-IsAlike f g e a s c k h =
      let (native, shared, world, state, ends) =
        Corresponds-Agree lib pf e a s c h.native h.shared h.world h.state f g k in
      (record { native = native; shared = shared; world = world; state = state }, ends)
