-- ===== src/Session/Calls.antt =====
-- What a call does to the library's memory and to the World, as far as views depend on it.
use libdense.Common.{ℕ, ◌≡◌, ◌≢◌, refl, none, some, arith, Option-cases, inl, inr}
use libdense.DenseSim.{ds_ok, is_ok-eq_ds_ok, Library}
use libdense.DenseSim.Lifetimes.{Lifetimes, WritersKeep, Keeps}
use libdense.Python.{ok}
use libdense.Buffer.Bytes.{Platform}
use libdense.World.State.{Env, ◌>>=◌}
use libdense.World.Lifecycle.{DenseFanoutView, close, begin_tick, end_tick, fanout_view}
use libdense.World.Entities.{
  spawn, move, set_motion_plan, clear_motion_plan, motion_mode, remove, mark_dirty, entity_exists,
  entity,
}
use libdense.World.Observers.{
  create_observer, destroy_observer, anchor_observer, set_observer_position, set_observer_radius,
  observer_exists, observer,
}
use libdense.World.Properties.{
  tick_is_open, current_tick, entity_count, entity_capacity, observer_count, motion_metrics,
}
use libdense.World.Calls.{Call, Reply, dispatch}
use libdense.World.Closed.{dispatch-closed}
use libdense.Session.State.{IsAddressed}
use libdense.Session.Stays.{Keeps-refl}
use libdense.Session.Methods.{IsQuiet, dispatch-Stays}

module _ {Memory : Type 0} (lib : Library Memory) (pf : Platform) where
  -- A call that returns a view has taken it from its own open World.
  pub reply-view :
      (a : ℕ) (c : Call) (e : Env Memory) (v : DenseFanoutView)
      → IsAddressed a c
      → (dispatch lib pf c e).0 ≡ ok (Reply.view v)
      → (v.world ≡ some a)
        × (v.generation ≡ e.self.view_generation)
        × (lib.world_get_fanout_view e.self.world e.native ≡ (ds_ok, v.view))
        × (e.self.world ≢ none)
        × ((dispatch lib pf c e).1 ≡ e)
  unfolding dispatch close begin_tick end_tick fanout_view spawn move set_motion_plan
      clear_motion_plan motion_mode remove mark_dirty entity_exists entity create_observer
      destroy_observer anchor_observer set_observer_position set_observer_radius observer_exists
      observer tick_is_open current_tick entity_count entity_capacity observer_count motion_metrics
      ◌>>=◌
  reply-view a Call.close e v h q = ground arith
  reply-view a (Call.fanout_view object found) e v h q =
      let r = lib.world_get_fanout_view e.self.world e.native in ground (arith, is_ok-eq_ds_ok r.0)
  reply-view a _ e v h q = ground arith

  module _ (laws : Lifetimes lib) (keep : WritersKeep lib laws) where
    open laws use {IsLive}

    -- A quiet call, on an open World that lives or on a closed one.
    pub quiet-Keeps :
        (c : Call) (e : Env Memory)
        → IsQuiet c
        → ((p : ℕ) → e.self.world ≡ some p → IsLive p e.native)
        → Keeps lib laws e.native (dispatch lib pf c e).1.native
          × ((dispatch lib pf c e).1.self ≡ e.self)
    quiet-Keeps c e q live = elim (Option-cases e.self.world) [
      | inl shut ↦ rw (dispatch-closed lib pf c e shut) (Keeps-refl lib laws e.native, refl)
      | inr (p, at) ↦ (dispatch-Stays lib laws keep p pf c q).at e at (live p at)
    ]
