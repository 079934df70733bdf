-- ===== src/Cpp/Program/Making.antt =====
-- A World that is constructed, or whose constructor throws.
use mathlib.Core.Path.{subst, fun_ext}
use libdense.Common.{
  ℕ, ◌+◌, ◌≡◌, ◌≢◌, sym, ap, ◌∙◌, ◌⊎◌, inl, inr, Bool-cases, false, Option, none, some, arith,
}
use libdense.DenseSim.{Pointer, Library, ds_ok, is_ok, is_ok-eq_ds_ok}
use libdense.DenseSim.Lifetimes.{Lifetimes, RefusedCreate}
use libdense.Leases.{Lease}
use libdense.Leases.Change.{
  put, put_self, put_ne, eq-cases, at_self, at_ne, replaced, replaced-IsConsistent,
}
use libdense.Leases.Invariant.{IsConsistent}
use libdense.Cpp.State.{WorldState, World}
use libdense.Cpp.Types
use libdense.Cpp.Types.{world_config_to_c}
use libdense.DenseSim
use libdense.Cpp.Lifecycle.{destroy_state, construct}
use libdense.Cpp.Variables.{Program, Refers, constructed}
use libdense.Cpp.Program.Invariant.{Holds, IsLinked, IsSound}

put_back :
    (f : ℕ → Option WorldState) (a : ℕ) (o : Option WorldState)
    → f a ≡ none
    → put (put f a o) a none ≡ f
put_back f a o free = fun_ext (λ b. ground arith)

abbrev made_state : ℕ → WorldState
made_state w = record { world = some w; view_generation = 0 }

abbrev made_world : ℕ → ℕ → World
made_world a w = record { state_ = some a; world_ = some w }

module _ {Memory : Type 0} (lib : Library Memory) (laws : Lifetimes lib) (n a : ℕ)
    (p : Program Memory) (config : DenseSim.WorldConfig) (h : IsSound lib laws n p)
    (free : p.heap.worlds a ≡ none) where
  open laws use {IsLive, IsBorrowed}

  unleased : (l : Lease) → Holds p l → l.world ≢ some a
  unleased l k e =
      let t = h.consistent.tracked l k in
      let same : t.address ≡ a = cc (t.refers, e) in cc (ap p.heap.worlds same, t.exists, free)

  unshared : (x b : ℕ) (w : World) → p.objects x ≡ some w → w.state_ ≡ some b → b ≢ a
  unshared x b w e s q =
      let (st, at) = h.linked.existing x b w e s in cc (ap p.heap.worlds q, at, free)

  -- A state at the free address, or none, and the memory after ds_world_create.
  created-IsConsistent :
      (o : Option WorldState)
      → ((st : WorldState) → o ≡ some st → st.view_generation ≡ 0)
      → ((st : WorldState) (w : ℕ)
          → o ≡ some st
          → st.world ≡ some w
          → IsLive w (lib.world_create config p.heap.native).2 × ¬ (IsLive w p.heap.native))
      → IsConsistent lib laws 0
          (Holds p)
          (n + 1)
          (replaced p.heap a o (lib.world_create config p.heap.native).2)
  created-IsConsistent o first made =
      replaced-IsConsistent lib laws 0 (Holds p) n p.heap a o _ 0 h.consistent
        (record {
          counted = λ st e. first st e;
          live = λ st w e f. (made st w e f).0;
          distinct = λ st x w b e f ne g same. (made st w e f).1 (h.consistent.live b x w g same);
          others_live = λ b x q ne e f l. laws.create_live config p.heap.native q l;
          others_borrowed = λ b x q v ne e f l. laws.create_borrowed config p.heap.native q v l;
          own = λ v k e. absurd (unleased v k e);
        })
        (omega arith)

  -- The World and its state are there.
  module _ (x w : ℕ) (unused : p.objects x ≡ none) where
    abbrev objects_after : ℕ → Option World
    objects_after = put p.objects x (some (made_world a w))

    abbrev worlds_after : ℕ → Option WorldState
    worlds_after = put p.heap.worlds a (some (made_state w))

    -- An object is the new one, or it was there before and has another state.
    objects-cases :
        (y : ℕ) (v : World)
        → objects_after y ≡ some v
        → ((y ≡ x) × (v ≡ (made_world a w))) ⊎ ((y ≢ x) × (p.objects y ≡ some v))
    objects-cases y v e = elim (eq-cases x y) [
      | inl here ↦
          inl (here, ground (arith, at_self p.objects x y (some (made_world a w)) v here e))
      | inr ne ↦ inr (ne, at_ne p.objects x y (some (made_world a w)) v ne e)
    ]

    made-IsLinked : IsLinked objects_after worlds_after
    made-IsLinked = record {
      existing = λ y b v e s. elim (objects-cases y v e) [
        | inl (here, new) ↦ (made_state w, ground (arith, new, s))
        | inr (ne, old) ↦
            let (st, at) = h.linked.existing y b v old s in
            (st, put_ne p.heap.worlds a b (some (made_state w)) (unshared y b v old s) ∙ at)
      ];
      agree = λ y b v st e s at. elim (objects-cases y v e) [
        | inl (here, new) ↦ ground (arith, new, s, at)
        | inr (ne, old) ↦
            h.linked.agree y b v st old s
              (at_ne p.heap.worlds a b (some (made_state w)) st (unshared y b v old s) at)
      ];
      moved = λ y v e s. elim (objects-cases y v e) [
        | inl (here, new) ↦ cc
        | inr (ne, old) ↦ h.linked.moved y v old s
      ];
      sole = λ y z b v u ne e f s t. elim (objects-cases y v e) [
        | inl (here, new) ↦ elim (objects-cases z u f) [
          | inl (here', new') ↦ absurd (ne (here ∙ sym here'))
          | inr (ne', old') ↦ absurd (unshared z b u old' t (cc (new, s)))
        ]
        | inr (there, old) ↦ elim (objects-cases z u f) [
          | inl (here', new') ↦ absurd (unshared y b v old s (cc (new', t)))
          | inr (ne', old') ↦ h.linked.sole y z b v u ne old old' s t
        ]
      ];
    }

    made-owned :
        (m : Memory) (b : ℕ) (st : WorldState)
        → worlds_after b ≡ some st
        → Refers
            (record {
              heap = record { native = m; worlds = worlds_after };
              objects = objects_after;
              handles = p.handles;
            })
            b
    made-owned m b st e = elim (eq-cases a b) [
      | inl here ↦
          inl
            (x, (made_world a w), put_self p.objects x (some (made_world a w)), ap some (sym here))
      | inr ne ↦ elim (h.owned b st (at_ne p.heap.worlds a b (some (made_state w)) st ne e)) [
        | inl (y, v, at, s) ↦
            let other : y ≢ x = λ q. cc (ap p.objects q, at, unused) in
            inl (y, v, put_ne p.objects x y (some (made_world a w)) other ∙ at, s)
        | inr (y, k, at, s) ↦ inr (y, k, at, s)
      ]
    ]

module _ {Memory : Type 0} (lib : Library Memory) (laws : Lifetimes lib)
    (refused : RefusedCreate lib) (n x a : ℕ) (p : Program Memory) (config : Types.WorldConfig)
    (h : IsSound lib laws n p) (unused : p.objects x ≡ none) (free : p.heap.worlds a ≡ none) where
  abbrev after_construct : Program Memory
  after_construct =
      let (r, heap) = construct lib a config p.heap in constructed x r (record p { heap = heap })

  made-IsSound :
      (lib.world_create (world_config_to_c config) p.heap.native).0 ≡ ds_ok
      → IsSound lib laws (n + 1) after_construct
  unfolding construct
  made-IsSound good =
      let c = world_config_to_c config in
      let m = p.heap.native in
      let (w, got, live, new) = laws.create_result c m good in
      let same : after_construct ≡ record {
        heap = replaced p.heap a (some (made_state w)) (lib.world_create c m).2;
        objects = put p.objects x (some (made_world a w));
        handles = p.handles;
      } =
        ground (arith, good, got) in
      rw same (record {
        consistent =
            created-IsConsistent lib laws n a p c h free _ (λ st e. cc)
              λ st v e f. let one : w ≡ v = cc (e, f) in rw (← one) (live, new);
        linked = made-IsLinked lib laws n a p c h free x w unused;
        owned = made-owned lib laws n a p c h free x w unused (lib.world_create c m).2;
      })

  thrown-IsSound :
      is_ok (lib.world_create (world_config_to_c config) p.heap.native).0 ≡ false
      → IsSound lib laws (n + 1) after_construct
  unfolding construct destroy_state
  thrown-IsSound bad =
      let c = world_config_to_c config in
      let m = p.heap.native in
      let null = refused.null c m (λ q. cc (bad, q)) in
      let kept : after_construct ≡ record p {
        heap = record { native = (lib.world_create c m).2; worlds = p.heap.worlds };
      } =
        ground (arith, bad, null, put_back p.heap.worlds a) in
      let same : put p.heap.worlds a none ≡ p.heap.worlds = fun_ext (λ b. ground (arith, free)) in
      rw kept (record {
        consistent =
            subst
              (λ ws.
                IsConsistent lib laws 0 (Holds p) (n + 1)
                  (record { native = (lib.world_create c m).2; worlds = ws }))
              same
              (created-IsConsistent lib laws n a p c h free none (λ st e. cc) (λ st v e f. cc));
        linked = h.linked;
        owned = h.owned;
      })

  -- The constructor makes a World with a state of its own, or leaves nothing behind.
  pub construct-IsSound : IsSound lib laws (n + 1) after_construct
  construct-IsSound =
      elim (Bool-cases (is_ok (lib.world_create (world_config_to_c config) p.heap.native).0)) [
        | inl good ↦ made-IsSound (is_ok-eq_ds_ok _ good)
        | inr bad ↦ thrown-IsSound bad
      ]
