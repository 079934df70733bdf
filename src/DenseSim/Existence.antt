-- ===== src/DenseSim/Existence.antt =====
-- Which functions of include/dense/dense_sim.h bring a world into being or end one, as laws that a
-- client takes as a parameter: ds_world_create makes one where it succeeds, ds_world_destroy ends
-- the one that it is given, and the other functions do neither.
use libdense.Common.{ℕ, ◌≡◌, ◌≢◌, ◌⊎◌, some}
use libdense.Common.Int.{ℤ}
use libdense.DenseSim.Types.{ds_ok, WorldConfig, ObserverConfig, MotionPlan}
use libdense.DenseSim.Functions.{Library}
use libdense.DenseSim.Lifetimes.{Lifetimes}

module _ {Memory : Type 0} (lib : Library Memory) (laws : Lifetimes lib) where
  open laws use {IsLive}

  -- Every world of the second memory lies in the first one.
  abbrev pub AddsNone : Memory → Memory → Type 0
  AddsNone m m' = (q : ℕ) → IsLive q m' → IsLive q m

  pub record Existence : Type 0 where
    pub create :
        (config : WorldConfig) (m : Memory) (q : ℕ)
        → IsLive q (lib.world_create config m).2
        → IsLive q m
          ⊎ (((lib.world_create config m).0 ≡ ds_ok) × ((lib.world_create config m).1 ≡ some q))
    pub destroy :
        (p q : ℕ) (m : Memory)
        → IsLive p m
        → IsLive q (lib.world_destroy (some p) m)
        → (p ≢ q) × IsLive q m
    pub begin_tick :
        (p t : ℕ) (m : Memory) → IsLive p m → AddsNone m (lib.world_begin_tick (some p) t m).1
    pub end_tick : (p : ℕ) (m : Memory) → IsLive p m → AddsNone m (lib.world_end_tick (some p) m).1
    pub spawn :
        (p id : ℕ) (x y : ℤ) (mask : ℕ) (m : Memory)
        → IsLive p m
        → AddsNone m (lib.entity_spawn (some p) id x y mask m).1
    pub move :
        (p id : ℕ) (x y : ℤ) (m : Memory)
        → IsLive p m
        → AddsNone m (lib.entity_move (some p) id x y m).1
    pub remove :
        (p id : ℕ) (m : Memory) → IsLive p m → AddsNone m (lib.entity_remove (some p) id m).1
    pub mark_dirty :
        (p id mask : ℕ) (m : Memory)
        → IsLive p m
        → AddsNone m (lib.entity_mark_dirty (some p) id mask m).1
    pub set_motion_plan :
        (p id : ℕ) (plan : MotionPlan) (m : Memory)
        → IsLive p m
        → AddsNone m (lib.entity_set_motion_plan (some p) id plan m).1
    pub clear_motion_plan :
        (p id : ℕ) (m : Memory)
        → IsLive p m
        → AddsNone m (lib.entity_clear_motion_plan (some p) id m).1
    pub create_observer :
        (p : ℕ) (config : ObserverConfig) (m : Memory)
        → IsLive p m
        → AddsNone m (lib.observer_create (some p) config m).2
    pub destroy_observer :
        (p id : ℕ) (m : Memory) → IsLive p m → AddsNone m (lib.observer_destroy (some p) id m).1
    pub anchor_entity :
        (p id e : ℕ) (m : Memory)
        → IsLive p m
        → AddsNone m (lib.observer_anchor_entity (some p) id e m).1
    pub set_position :
        (p id : ℕ) (x y : ℤ) (m : Memory)
        → IsLive p m
        → AddsNone m (lib.observer_set_position (some p) id x y m).1
    pub set_radius :
        (p id : ℕ) (r : ℤ) (m : Memory)
        → IsLive p m
        → AddsNone m (lib.observer_set_radius (some p) id r m).1
