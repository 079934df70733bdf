-- ===== src/Cpp/Program/Faults.antt =====
-- No operation of a C++ program faults, and a handle that passes its test is borrowed.
use mathlib.Core.Path.{subst}
use libdense.Common.{ℕ, ◌<◌, ◌^◌, ◌≡◌, ◌≢◌, inl, inr, Option-cases, none, some, arith}
use libdense.DenseSim.{Library}
use libdense.DenseSim.Lifetimes.{Lifetimes, WritersKeep, RefusedCreate}
use libdense.Cpp.State.{returned, fault, WorldState, World, Env, ensure_view}
use libdense.Cpp.Lifecycle.{
  close, begin_tick, end_tick, fanout, tick_is_open, current_tick, entity_count, entity_capacity,
  observer_count, motion_metrics, memory_stats,
}
use libdense.Cpp.Entities.{
  spawn, move, remove, mark_dirty, set_motion_plan, clear_motion_plan, motion_mode, entity_exists,
  entity,
}
use libdense.Cpp.Observers.{
  create_observer, destroy_observer, anchor_observer, set_observer_position, set_observer_radius,
  observer_exists, observer,
}
use libdense.Cpp.Calls.{Call, dispatch}
use libdense.Cpp.Reads
use libdense.Cpp.Reads.{Read, IsInRange, run}
use libdense.Cpp.DeltaEntryRange
use libdense.Cpp.SubscriberRange
use libdense.Cpp.Variables.{Program, Handle, lease, state_of, entered, no_variables}
use libdense.Cpp.Program.{Reach}
use libdense.Cpp.Program.Reachable.{Reach-IsSound}
use libdense.Cpp.Program.Safety.{
  ensure_view-ne-fault, ensure_view-IsBorrowed, ensure_view-IsReadable,
}
use libdense.Cpp.Program.Reading.{IsThere, run-ne-fault}

module _ {Memory : Type 0} (lib : Library Memory) where
  -- A call on a World whose state is there, or that has no world.
  dispatch-ne-fault :
      (c : Call) (s : Env Memory)
      → ((q : ℕ)
          → s.self.world_ ≡ some q
          → (a : ℕ) × (st : WorldState) × (s.self.state_ ≡ some a) × (s.heap.worlds a ≡ some st))
      → (dispatch lib c s).0 ≢ fault
  unfolding dispatch close begin_tick end_tick fanout tick_is_open current_tick entity_count
      entity_capacity observer_count motion_metrics memory_stats spawn move remove mark_dirty
      set_motion_plan clear_motion_plan motion_mode entity_exists entity create_observer
      destroy_observer anchor_observer set_observer_position set_observer_radius observer_exists
      observer
  dispatch-ne-fault c s there = elim (Option-cases s.self.world_) [
    | inl shut ↦ shut_case c shut
    | inr (q, open_at) ↦
        let (a, st, shared, at) = there q open_at in open_case q a st open_at shared at c
  ]
    where
      shut_case : (c : Call) → s.self.world_ ≡ none → (dispatch lib c s).0 ≢ fault
      shut_case Call.close shut = ground arith
      shut_case _ shut = ground arith

      open_case :
          (q a : ℕ) (st : WorldState)
          → s.self.world_ ≡ some q
          → s.self.state_ ≡ some a
          → s.heap.worlds a ≡ some st
          → (c : Call) → (dispatch lib c s).0 ≢ fault
      open_case q a st open_at shared at Call.close = ground (arith, open_at, shared, at)
      open_case q a st open_at shared at _ = ground (arith, open_at, shared, at)

module _ {Memory : Type 0} (lib : Library Memory) (laws : Lifetimes lib)
    (keep : WritersKeep lib laws) (refused : RefusedCreate lib) {m : Memory} {k : ℕ}
    {p : Program Memory} (reach : Reach lib (no_variables m) k p) where
  open laws use {IsBorrowed}

  -- In every state that a C++ program reaches, over a library that keeps the lifetimes that its header
  -- documents and leaves the out-parameter null where it creates no world, no call of a member
  -- function of a World goes through a pointer that is null or has no state behind it.
  pub Reach-dispatch-ne-fault :
      (x : ℕ) (w : World) (c : Call)
      → p.objects x ≡ some w
      → (dispatch lib c (entered p w)).0 ≢ fault
  Reach-dispatch-ne-fault x w c at =
      let h = Reach-IsSound lib laws keep refused reach in
      dispatch-ne-fault lib c (entered p w) λ q open_at. elim (Option-cases w.state_) [
        | inl empty ↦ cc (h.linked.moved x w at empty, open_at)
        | inr (a, shared) ↦
            let (st, there) = h.linked.existing x a w at shared in (a, st, shared, there)
      ]

  -- An element of a range that the program holds is there, once the iterator has passed its test.
  IsInRange-IsThere :
      {h : Handle} (r : Read h)
      → k < 2 ^ 64
      → IsInRange p r
      → (u : Unit {0}) → ensure_view (state_of h) (lease h).generation p.heap ≡ returned u
      → IsThere lib p.heap r
  IsInRange-IsThere (Reads.entry_dereference i) small (z, r, j, at, made, lt) u e =
      let sound = Reach-IsSound lib laws keep refused reach in
      rw made (
        ensure_view-IsReadable lib laws k p sound small z (Handle.entry_range r) at u
          (subst
            (λ (o : DeltaEntryRange.Iterator).
              ensure_view o.state_ o.generation_ p.heap ≡ returned u)
            made e)
          j lt)
  IsInRange-IsThere (Reads.subscriber_dereference i) small (z, r, j, at, made, lt) u e =
      let sound = Reach-IsSound lib laws keep refused reach in
      rw made (
        ensure_view-IsReadable lib laws k p sound small z (Handle.subscriber_range r) at u
          (subst
            (λ (o : SubscriberRange.Iterator).
              ensure_view o.state_ o.generation_ p.heap ≡ returned u)
            made e)
          j lt)
  IsInRange-IsThere _ small within u e = tt

  -- In every state that a C++ program reaches in fewer than 2 ^ 64 steps, over a library that keeps
  -- the lifetimes that its header documents and leaves the out-parameter null where it creates no
  -- world, no operation of a view, a group, a range or an iterator, with any index, reads memory
  -- that was given up or that lies outside an array, except that nothing is said of operator* of an
  -- iterator over entries or subscribers outside the elements of a range that the program still
  -- holds, and that the program takes no group from an iterator over a view that is at its end.
  pub Reach-run-ne-fault :
      (y : ℕ) (h : Handle) (r : Read h)
      → k < 2 ^ 64
      → p.handles y ≡ some h
      → IsInRange p r
      → run lib r p.heap ≢ fault
  Reach-run-ne-fault y h r small at within =
      let sound = Reach-IsSound lib laws keep refused reach in
      run-ne-fault lib p.heap h r (ensure_view-ne-fault lib laws k p sound small y h at)
        (ensure_view-IsReadable lib laws k p sound small y h at) (IsInRange-IsThere r small within)

  -- In every state that a C++ program reaches in fewer than 2 ^ 64 steps, over a library that keeps
  -- the lifetimes that its header documents and leaves the out-parameter null where it creates no
  -- world, a handle that detail::ensure_view accepts refers to a shared state that owns a world,
  -- and the array of its lease is borrowed from that world: for a view and its iterators all
  -- groups, for a group the groups up to it, for a range all its elements. An iterator over a range
  -- has a lease of no elements, so that for it the statement is about the world only.
  pub Reach-ensure_view-IsBorrowed :
      (y : ℕ) (h : Handle) (u : Unit {0})
      → k < 2 ^ 64
      → p.handles y ≡ some h
      → ensure_view (state_of h) (lease h).generation p.heap ≡ returned u
      → (a : ℕ) × (st : WorldState) × (w : ℕ) × (state_of h ≡ some a)
        × (p.heap.worlds a ≡ some st)
        × (st.world ≡ some w)
        × IsBorrowed w (lease h).span p.heap.native
  Reach-ensure_view-IsBorrowed y h u small at =
      ensure_view-IsBorrowed lib laws k p (Reach-IsSound lib laws keep refused reach) small y h at u
