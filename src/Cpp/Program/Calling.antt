-- ===== src/Cpp/Program/Calling.antt =====
-- The step that calls a member function of a World.
use mathlib.Core.Path.{subst, fun_ext}
use libdense.Common.{
  ℕ, ◌+◌, ◌≡◌, ◌≢◌, refl, ap, ◌∙◌, inl, inr, Bool-cases, Option-cases, Option, none, some, arith,
}
use libdense.DenseSim.{Library, ds_ok, is_ok, is_ok-eq_ds_ok}
use libdense.DenseSim.Lifetimes.{Lifetimes, WritersKeep}
use libdense.Leases.Change.{put}
use libdense.Leases.Invariant.{IsTracked}
use libdense.Leases.Local.{kept-IsConsistent}
use libdense.Leases.Ticks.{ticked-IsConsistent, refused-IsConsistent, closed-IsConsistent}
use libdense.Cpp.State.{Outcome, returned, WorldState, World, Env}
use libdense.Cpp.FanoutView.{FanoutView}
use libdense.Cpp.Lifecycle.{
  close, begin_tick, end_tick, fanout, tick_is_open, current_tick, entity_count, entity_capacity,
  observer_count, motion_metrics, memory_stats,
}
use libdense.Cpp.Entities.{
  spawn, move, remove, mark_dirty, set_motion_plan, clear_motion_plan, motion_mode, entity_exists,
  entity,
}
use libdense.Cpp.Observers.{
  create_observer, destroy_observer, anchor_observer, set_observer_position, set_observer_radius,
  observer_exists, observer,
}
use libdense.Cpp.Calls.{Call, Reply, dispatch}
use libdense.Cpp.Closed.{dispatch-refusal}
use libdense.Cpp.Frame.{
  native_after, IsQuiet, dispatch-quiet, dispatch-close, dispatch-begin_tick,
  dispatch-begin_tick_refused,
}
use libdense.Cpp.Variables.{Program, Handle, lease, entered, left, replied}
use libdense.Cpp.Program.Invariant.{Holds, IsSound}
use libdense.Cpp.Program.Joining.{added-IsSound}
use libdense.Cpp.Program.Passing.{assigned-IsSound}
use libdense.Cpp.Program.Effects.{native_after-Keeps, affected, affected-IsSound}

module _ {Memory : Type 0} (lib : Library Memory) where
  -- A call that returns a view has taken it from the open World's state.
  reply-view :
      (c : Call) (e : Env Memory) (a : ℕ) (st : WorldState) (v : FanoutView)
      → e.self.state_ ≡ some a
      → e.heap.worlds a ≡ some st
      → (dispatch lib c e).0 ≡ returned (Reply.view v)
      → (v.state_ ≡ some a)
        × (v.generation_ ≡ st.view_generation)
        × (lib.world_get_fanout_view e.self.world_ e.heap.native ≡ (ds_ok, v.view_))
        × ((dispatch lib c e).1 ≡ e)
  unfolding dispatch close begin_tick end_tick fanout tick_is_open current_tick entity_count
      entity_capacity observer_count motion_metrics memory_stats spawn move remove mark_dirty
      set_motion_plan clear_motion_plan motion_mode entity_exists entity create_observer
      destroy_observer anchor_observer set_observer_position set_observer_radius observer_exists
      observer
  reply-view Call.close e a st v shared at q = ground arith
  reply-view Call.fanout e a st v shared at q =
      let r = lib.world_get_fanout_view e.self.world_ e.heap.native in
      ground (arith, shared, at, is_ok-eq_ds_ok r.0)
  reply-view _ e a st v shared at q = ground arith

put_same :
    (f : ℕ → Option WorldState) (a : ℕ) (st : WorldState) → f a ≡ some st → put f a (some st) ≡ f
put_same f a st at = fun_ext (λ b. ground (arith, at))

module _ {Memory : Type 0} (lib : Library Memory) (laws : Lifetimes lib)
    (keep : WritersKeep lib laws) (n : ℕ) (p : Program Memory) (h : IsSound lib laws n p) (x : ℕ)
    (w : World) (object : p.objects x ≡ some w) where
  -- The program in which a call ends.
  unfoldable pub ended : Call → Program Memory
  ended c = left p x (dispatch lib c (entered p w)).1

  closed_view :
      (c : Call) (v : FanoutView)
      → w.world_ ≡ none
      → (dispatch lib c (entered p w)).0 ≢ returned (Reply.view v)
  closed_view Call.close v shut e =
      cc (ap (λ (r : _). r.0) (dispatch-refusal lib Call.close (entered p w) shut), e)
  closed_view c v shut e = cc (ap (λ (r : _). r.0) (dispatch-refusal lib c (entered p w) shut), e)

  shut-IsSound : (c : Call) → w.world_ ≡ none → IsSound lib laws (n + 1) (ended c)
  unfolding ended
  shut-IsSound c shut =
      rw (dispatch-refusal lib c (entered p w) shut) (assigned-IsSound lib laws n p h x w object)

  module _ (a q : ℕ) (st : WorldState) (shared : w.state_ ≡ some a) (at : p.heap.worlds a ≡ some st)
      (open_at : w.world_ ≡ some q) where
    state_open : st.world ≡ some q
    state_open = h.linked.agree x a w st object shared at ∙ open_at

    -- Only the library's memory changes.
    native-IsSound :
        (m : Memory)
        → IsSound lib laws (n + 1) (affected lib laws n p h x a w st object shared w st m)
        → IsSound lib laws
            (n + 1)
            (left p x (record { self = w; heap = record { native = m; worlds = p.heap.worlds } }))
    native-IsSound m =
        subst
          (λ ws.
            IsSound lib laws (n + 1)
              (left p x (record { self = w; heap = record { native = m; worlds = ws } })))
          (put_same p.heap.worlds a st at)

    quiet-IsSound : (c : Call) → IsQuiet c → IsSound lib laws (n + 1) (ended c)
    unfolding ended
    quiet-IsSound c quiet =
        let m = native_after lib c (some q) p.heap.native in
        let live = h.consistent.live a st q at state_open in
        rw (dispatch-quiet lib (entered p w) q open_at c quiet) (
          native-IsSound m (
            affected-IsSound lib laws n p h x a w st object shared w st m shared
              (h.linked.agree x a w st object shared at)
              (kept-IsConsistent lib laws 0 (Holds p) n p.heap a st h.consistent at m
                (native_after-Keeps lib laws keep c q p.heap.native quiet live))))

    close-IsSound : IsSound lib laws (n + 1) (ended Call.close)
    unfolding ended
    close-IsSound = rw (dispatch-close lib (entered p w) q open_at a st shared at) (
        affected-IsSound lib laws n p h x a w st object shared _ _ _ refl refl
          (closed-IsConsistent lib laws 0 (Holds p) n p.heap a st h.consistent at q state_open))

    begin_tick-IsSound : (t : ℕ) → IsSound lib laws (n + 1) (ended (Call.begin_tick t))
    unfolding ended
    begin_tick-IsSound t =
        let r = lib.world_begin_tick (some q) t p.heap.native in
        elim (Bool-cases (is_ok r.0)) [
          | inl good ↦
              rw
                (dispatch-begin_tick lib (entered p w) q open_at a st shared at t
                  (is_ok-eq_ds_ok r.0 good))
                (affected-IsSound lib laws n p h x a w st object shared w _ _ shared
                  (h.linked.agree x a w st object shared at)
                  (ticked-IsConsistent lib laws 0 (Holds p) n p.heap a st h.consistent at q t
                    state_open))
          | inr bad ↦ rw (dispatch-begin_tick_refused lib (entered p w) q open_at t bad) (
              native-IsSound r.1 (
                affected-IsSound lib laws n p h x a w st object shared w st r.1 shared
                  (h.linked.agree x a w st object shared at)
                  (refused-IsConsistent lib laws 0 (Holds p) n p.heap a st h.consistent at q t
                    state_open (λ e. cc))))
        ]

    open-IsSound : (c : Call) → IsSound lib laws (n + 1) (ended c)
    open-IsSound Call.close = close-IsSound
    open-IsSound (Call.begin_tick t) = begin_tick-IsSound t
    open-IsSound c = quiet-IsSound c tt

    -- A view that the call returned.
    view-IsTracked :
        (c : Call) (v : FanoutView)
        → (dispatch lib c (entered p w)).0 ≡ returned (Reply.view v)
        → (k : IsSound lib laws (n + 1) (ended c))
        → IsTracked lib laws 0 k.consistent.count (ended c).heap (lease (Handle.view v))
    unfolding ended
    view-IsTracked c v e k =
        let (refers, gen, got, same) = reply-view lib c (entered p w) a st v shared at e in
        let exists : (ended c).heap.worlds a ≡ some st = ground (arith, same, at) in
        let live = h.consistent.live a st q at state_open in
        let borrowed = laws.view_borrowed q v.view_ p.heap.native live (rw open_at at got) in
        record {
          address = a;
          refers = refers;
          world = st;
          exists = exists;
          taken = k.consistent.count a;
          taken_le = omega arith;
          generation = gen ∙ k.consistent.counted a st exists;
          current = λ _. (q, state_open, rw same borrowed);
        }

    -- A view that the call returned joins the handles of the program.
    replied-IsSound :
        (c : Call) (y : ℕ) (r : Outcome Reply)
        → p.handles y ≡ none
        → (dispatch lib c (entered p w)).0 ≡ r
        → IsSound lib laws (n + 1) (replied y r (ended c))
    unfolding ended
    replied-IsSound c y (returned (Reply.view v)) free e =
        let k = open-IsSound c in
        added-IsSound lib laws (n + 1) (ended c) k y (Handle.view v) free
          (λ b same. view-IsTracked c v e k)
    replied-IsSound c y _ free e = open-IsSound c

  refused-IsSound :
      (c : Call) (y : ℕ) (r : Outcome Reply)
      → w.world_ ≡ none
      → (dispatch lib c (entered p w)).0 ≡ r
      → IsSound lib laws (n + 1) (replied y r (ended c))
  refused-IsSound c y (returned (Reply.view v)) shut e = absurd (closed_view c v shut e)
  refused-IsSound c y _ shut e = shut-IsSound c shut

  -- Every call keeps the invariant.
  pub call-IsSound :
      (c : Call) (y : ℕ)
      → p.handles y ≡ none
      → IsSound lib laws (n + 1) (replied y (dispatch lib c (entered p w)).0 (ended c))
  call-IsSound c y free = elim (Option-cases w.world_) [
    | inl shut ↦ refused-IsSound c y _ shut refl
    | inr (q, open_at) ↦ elim (Option-cases w.state_) [
      | inl empty ↦ cc (h.linked.moved x w object empty, open_at)
      | inr (a, shared) ↦
          let (st, at) = h.linked.existing x a w object shared in
          replied-IsSound a q st shared at open_at c y _ free refl
    ]
  ]
