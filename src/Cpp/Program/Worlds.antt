-- ===== src/Cpp/Program/Worlds.antt =====
-- Which native worlds exist while a C++ program runs: each is the world of a shared state.
use mathlib.Core.Path.{subst}
use libdense.Common.{
  ℕ, ◌≡◌, refl, sym, ap, ◌∙◌, inl, inr, Bool-cases, Option-cases, Option, none, some, arith,
}
use libdense.DenseSim.{Pointer, Library, is_ok, is_ok-eq_ds_ok}
use libdense.DenseSim.Lifetimes.{Lifetimes, RefusedCreate}
use libdense.DenseSim.Existence.{Existence, AddsNone}
use libdense.View.State.{Runtime}
use libdense.Leases.Change.{put_self, put_ne, eq-cases, replaced}
use libdense.Cpp.State.{WorldState, Env}
use libdense.Cpp.Types
use libdense.Cpp.Types.{world_config_to_c}
use libdense.Cpp.Lifecycle.{destroy_state, construct}
use libdense.Cpp.Calls.{Call, dispatch}
use libdense.Cpp.Closed.{dispatch-refusal}
use libdense.Cpp.Frame.{
  native_after, IsQuiet, dispatch-quiet, dispatch-close, dispatch-begin_tick,
  dispatch-begin_tick_refused,
}
use libdense.Cpp.Variables.{Program}
use libdense.Cpp.Program.{Settles}

module _ {Memory : Type 0} (lib : Library Memory) (laws : Lifetimes lib)
    (exact : Existence lib laws) where
  open laws use {IsLive}

  -- Every world that exists is owned by a state.
  abbrev pub IsCovered : Runtime Memory → Type 0
  IsCovered s =
      (q : ℕ)
      → IsLive q s.native
      → (a : ℕ) × (st : WorldState) × (s.worlds a ≡ some st) × (st.world ≡ some q)

  -- The worlds that the states own exist.
  abbrev pub IsLiving : Runtime Memory → Type 0
  IsLiving s =
      (a : ℕ) (st : WorldState) (w : ℕ)
      → s.worlds a ≡ some st
      → st.world ≡ some w
      → IsLive w s.native

  module _ (s : Runtime Memory) (covered : IsCovered s) where
    -- The state at `a` keeps its world.
    updated-IsCovered :
        (a : ℕ) (st st' : WorldState) (m : Memory)
        → s.worlds a ≡ some st
        → st'.world ≡ st.world
        → AddsNone lib laws s.native m
        → IsCovered (replaced s a (some st') m)
    updated-IsCovered a st st' m at same none_new q l =
        let (b, sb, there, owns) = covered q (none_new q l) in
        elim (eq-cases a b) [
          | inl here ↦
              let one : st ≡ sb = cc (ap s.worlds here, at, there) in
              (
                a,
                st',
                put_self s.worlds a (some st'),
                same ∙ ap (λ (x : WorldState). x.world) one ∙ owns,
              )
          | inr ne ↦ (b, sb, put_ne s.worlds a b (some st') ne ∙ there, owns)
        ]

    -- The world of the state at `a` is destroyed, whatever lies at `a` then.
    destroyed-IsCovered :
        (a w : ℕ) (st : WorldState) (o : Option WorldState)
        → s.worlds a ≡ some st
        → st.world ≡ some w
        → IsLive w s.native
        → IsCovered (replaced s a o (lib.world_destroy (some w) s.native))
    destroyed-IsCovered a w st o at open_at live q l =
        let (other, before) = exact.destroy w q s.native live l in
        let (b, sb, there, owns) = covered q before in
        elim (eq-cases a b) [
          | inl here ↦
              let one : st ≡ sb = cc (ap s.worlds here, at, there) in
              absurd (other (cc (ap (λ (x : WorldState). x.world) one, open_at, owns)))
          | inr ne ↦ (b, sb, put_ne s.worlds a b o ne ∙ there, owns)
        ]

    -- A state without a world is destroyed, or one is made where none lay.
    unowned-IsCovered :
        (a : ℕ) (o : Option WorldState) (m : Memory)
        → ((st : WorldState) → s.worlds a ≡ some st → st.world ≡ none)
        → AddsNone lib laws s.native m
        → IsCovered (replaced s a o m)
    unowned-IsCovered a o m shut none_new q l =
        let (b, sb, there, owns) = covered q (none_new q l) in
        elim (eq-cases a b) [
          | inl here ↦ cc (shut sb (ap s.worlds (sym here) ∙ there), owns)
          | inr ne ↦ (b, sb, put_ne s.worlds a b o ne ∙ there, owns)
        ]

  pub Settles-IsCovered :
      (p q : Program Memory) (o : Pointer)
      → IsLiving p.heap
      → IsCovered p.heap
      → Settles lib p o q
      → IsCovered q.heap
  unfolding destroy_state
  Settles-IsCovered p _ _ living covered Settles.empty = covered
  Settles-IsCovered p _ _ living covered (Settles.shared a held) = covered
  Settles-IsCovered p _ _ living covered (Settles.last a st at unused) =
      elim (Option-cases st.world) [
        | inl shut ↦ rw shut (
            unowned-IsCovered p.heap covered a none p.heap.native
              (λ sb there.
                let one : st ≡ sb = cc (at, there) in
                ap (λ (x : WorldState). x.world) (sym one) ∙ shut)
              (λ q l. l))
        | inr (w, open_at) ↦
            rw open_at
              (destroyed-IsCovered p.heap covered a w st none at open_at (living a st w at open_at))
      ]

  -- What a call of a member function does to the worlds, with the state of the World where it has one.
  module _ (s : Env Memory) (covered : IsCovered s.heap) where
    quiet-AddsNone :
        (c : Call) (p : ℕ)
        → IsQuiet c
        → IsLive p s.heap.native
        → AddsNone lib laws s.heap.native (native_after lib c (some p) s.heap.native)
    quiet-AddsNone Call.close p q l = absurd q
    quiet-AddsNone (Call.begin_tick t) p q l = absurd q
    quiet-AddsNone Call.end_tick p q l = exact.end_tick p _ l
    quiet-AddsNone (Call.spawn id x y mask) p q l = exact.spawn p id x y mask _ l
    quiet-AddsNone (Call.move id x y) p q l = exact.move p id x y _ l
    quiet-AddsNone (Call.remove id) p q l = exact.remove p id _ l
    quiet-AddsNone (Call.mark_dirty id mask) p q l = exact.mark_dirty p id mask _ l
    quiet-AddsNone (Call.set_motion_plan id plan) p q l = exact.set_motion_plan p id _ _ l
    quiet-AddsNone (Call.clear_motion_plan id) p q l = exact.clear_motion_plan p id _ l
    quiet-AddsNone (Call.create_observer config) p q l = exact.create_observer p _ _ l
    quiet-AddsNone (Call.destroy_observer id) p q l = exact.destroy_observer p id _ l
    quiet-AddsNone (Call.anchor_observer id e) p q l = exact.anchor_entity p id e _ l
    quiet-AddsNone (Call.set_observer_position id x y) p q l = exact.set_position p id x y _ l
    quiet-AddsNone (Call.set_observer_radius id r) p q l = exact.set_radius p id r _ l
    quiet-AddsNone _ p q l = λ b e. e

    module _ (p a : ℕ) (st : WorldState) (open_at : s.self.world_ ≡ some p)
        (shared : s.self.state_ ≡ some a) (at : s.heap.worlds a ≡ some st)
        (agree : st.world ≡ some p) (live : IsLive p s.heap.native) where
      -- The states stay as they are.
      native-IsCovered :
          (m : Memory)
          → AddsNone lib laws s.heap.native m
          → IsCovered (record { native = m; worlds = s.heap.worlds })
      native-IsCovered m none_new q l = covered q (none_new q l)

      begin_tick-IsCovered : (t : ℕ) → IsCovered (dispatch lib (Call.begin_tick t) s).1.heap
      begin_tick-IsCovered t =
          let r = lib.world_begin_tick (some p) t s.heap.native in
          elim (Bool-cases (is_ok r.0)) [
            | inl good ↦
                rw (dispatch-begin_tick lib s p open_at a st shared at t (is_ok-eq_ds_ok r.0 good))
                  (updated-IsCovered s.heap covered a st _ r.1 at refl
                    (exact.begin_tick p t s.heap.native live))
            | inr bad ↦
                rw (dispatch-begin_tick_refused lib s p open_at t bad)
                  (native-IsCovered r.1 (exact.begin_tick p t s.heap.native live))
          ]

      open-IsCovered : (c : Call) → IsCovered (dispatch lib c s).1.heap
      open-IsCovered Call.close =
          rw (dispatch-close lib s p open_at a st shared at)
            (destroyed-IsCovered s.heap covered a p st _ at agree live)
      open-IsCovered (Call.begin_tick t) = begin_tick-IsCovered t
      open-IsCovered c =
          rw (dispatch-quiet lib s p open_at c tt) (native-IsCovered _ (quiet-AddsNone c p tt live))

    pub dispatch-IsCovered :
        (c : Call)
        → ((p : ℕ)
            → s.self.world_ ≡ some p
            → (a : ℕ) × (st : WorldState) × (s.self.state_ ≡ some a)
              × (s.heap.worlds a ≡ some st)
              × (st.world ≡ some p)
              × IsLive p s.heap.native)
        → IsCovered (dispatch lib c s).1.heap
    dispatch-IsCovered c there = elim (Option-cases s.self.world_) [
      | inl shut ↦ rw (dispatch-refusal lib c s shut) covered
      | inr (p, open_at) ↦
          let (a, st, shared, at, agree, live) = there p open_at in
          open-IsCovered p a st open_at shared at agree live c
    ]

  -- The constructor of a World, with the state at a free address.
  module _ (refused : RefusedCreate lib) (a : ℕ) (config : Types.WorldConfig) (s : Runtime Memory)
      (covered : IsCovered s) (free : s.worlds a ≡ none) where
    pub construct-IsCovered : IsCovered (construct lib a config s).1
    unfolding construct destroy_state
    construct-IsCovered q l =
        let c = world_config_to_c config in
        let r = lib.world_create c s.native in
        elim (Bool-cases (is_ok r.0)) [
          | inl good ↦
              let st : WorldState = record { world = r.1; view_generation = 0 } in
              let same : (construct lib a config s).1 ≡ replaced s a (some st) r.2 =
                ground (arith, good) in
              elim (exact.create c s.native q
                (subst (λ (h : Runtime Memory). IsLive q h.native) same l)) [
                  | inl old ↦
                      let (b, sb, there, owns) = covered q old in
                      (b, sb, ground (arith, good, free, there), owns)
                  | inr (ok, made) ↦ (a, st, ground (arith, good), made)
                ]
          | inr bad ↦
              let null = refused.null c s.native (λ e. cc (bad, e)) in
              let same : (construct lib a config s).1.native ≡ r.2 = ground (arith, bad, null) in
              elim (exact.create c s.native q (subst (IsLive q) same l)) [
                | inl old ↦
                    let (b, sb, there, owns) = covered q old in
                    (b, sb, ground (arith, bad, null, free, there), owns)
                | inr (ok, made) ↦ cc
              ]
        ]
