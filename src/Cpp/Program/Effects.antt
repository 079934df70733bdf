-- ===== src/Cpp/Program/Effects.antt =====
-- What a call that changes its World, its state and the library's memory does to the program.
use libdense.Common.{ℕ, ◌+◌, ◌≡◌, ◌≢◌, sym, ap, ◌∙◌, ◌⊎◌, inl, inr, Option, some, arith}
use libdense.DenseSim.{Library}
use libdense.DenseSim.Lifetimes.{Lifetimes, Keeps, WritersKeep}
use libdense.Leases.Change.{put, put_self, put_ne, eq-cases, at_self, at_ne, replaced}
use libdense.Leases.Invariant.{IsConsistent}
use libdense.Cpp.State.{WorldState, World}
use libdense.Cpp.Calls.{Call}
use libdense.Cpp.Frame.{native_after, IsQuiet}
use libdense.Cpp.Variables.{Program, Refers}
use libdense.Cpp.Program.Invariant.{Holds, IsLinked, IsSound}

module _ {Memory : Type 0} (lib : Library Memory) (laws : Lifetimes lib)
    (keep : WritersKeep lib laws) where
  open laws use {IsLive}

  -- A quiet call on a world that lives invalidates nothing.
  pub native_after-Keeps :
      (c : Call) (p : ℕ) (m : Memory)
      → IsQuiet c
      → IsLive p m
      → Keeps lib laws m (native_after lib c (some p) m)
  native_after-Keeps Call.close p m q l = absurd q
  native_after-Keeps (Call.begin_tick t) p m q l = absurd q
  native_after-Keeps Call.end_tick p m q l = keep.end_tick p m l
  native_after-Keeps (Call.spawn id x y mask) p m q l = keep.spawn p id x y mask m l
  native_after-Keeps (Call.move id x y) p m q l = keep.move p id x y m l
  native_after-Keeps (Call.remove id) p m q l = keep.remove p id m l
  native_after-Keeps (Call.mark_dirty id mask) p m q l = keep.mark_dirty p id mask m l
  native_after-Keeps (Call.set_motion_plan id plan) p m q l = keep.set_motion_plan p id _ m l
  native_after-Keeps (Call.clear_motion_plan id) p m q l = keep.clear_motion_plan p id m l
  native_after-Keeps (Call.create_observer config) p m q l = keep.create_observer p _ m l
  native_after-Keeps (Call.destroy_observer id) p m q l = keep.destroy_observer p id m l
  native_after-Keeps (Call.anchor_observer id e) p m q l = keep.anchor_entity p id e m l
  native_after-Keeps (Call.set_observer_position id x y) p m q l = keep.set_position p id x y m l
  native_after-Keeps (Call.set_observer_radius id r) p m q l = keep.set_radius p id r m l
  native_after-Keeps _ p m q l = record { live = λ q h. h; borrowed = λ q v h. h }

-- An object that is as it was, but for its world, and its state.
module _ (objects : ℕ → Option World) (worlds : ℕ → Option WorldState) (x a : ℕ) (w w' : World)
    (st' : WorldState) (at : objects x ≡ some w) (shared : w.state_ ≡ some a)
    (shared' : w'.state_ ≡ some a) (agree' : st'.world ≡ w'.world_)
    (k : IsLinked objects worlds) where
  assigned-cases :
      (y : ℕ) (v : World)
      → put objects x (some w') y ≡ some v
      → ((y ≡ x) × (v ≡ w')) ⊎ ((x ≢ y) × (objects y ≡ some v))
  assigned-cases y v e = elim (eq-cases x y) [
    | inl here ↦ inl (here, cc (at_self objects x y (some w') v here e))
    | inr ne ↦ inr (λ q. ne (sym q), at_ne objects x y (some w') v ne e)
  ]

  elsewhere : (y b : ℕ) (v : World) → x ≢ y → objects y ≡ some v → v.state_ ≡ some b → b ≢ a
  elsewhere y b v ne e s q = k.sole x y a w v ne at e shared (s ∙ ap some q)

  pub assigned-IsLinked : IsLinked (put objects x (some w')) (put worlds a (some st'))
  assigned-IsLinked = record {
    existing = λ y b v e s. elim (assigned-cases y v e) [
      | inl (here, new) ↦ (st', ground (arith, new, s, shared'))
      | inr (ne, old) ↦
          let (st, there) = k.existing y b v old s in
          (st, put_ne worlds a b (some st') (elsewhere y b v ne old s) ∙ there)
    ];
    agree = λ y b v st e s there. elim (assigned-cases y v e) [
      | inl (here, new) ↦
          let same : b ≡ a = cc (new, s, shared') in
          let one : st' ≡ st = cc (at_self worlds a b (some st') st same there) in
          cc (one, new, agree')
      | inr (ne, old) ↦
          k.agree y b v st old s (at_ne worlds a b (some st') st (elsewhere y b v ne old s) there)
    ];
    moved = λ y v e s. elim (assigned-cases y v e) [
      | inl (here, new) ↦ cc (new, s, shared')
      | inr (ne, old) ↦ k.moved y v old s
    ];
    sole = λ y z b v u ne e f s t. elim (assigned-cases y v e) [
      | inl (here, new) ↦ elim (assigned-cases z u f) [
        | inl (here', new') ↦ absurd (ne (here ∙ sym here'))
        | inr (ne', old') ↦ absurd (elsewhere z b u ne' old' t (cc (new, s, shared')))
      ]
      | inr (ne'', old) ↦ elim (assigned-cases z u f) [
        | inl (here', new') ↦ absurd (elsewhere y b v ne'' old s (cc (new', t, shared')))
        | inr (ne', old') ↦ k.sole y z b v u ne old old' s t
      ]
    ];
  }

module _ {Memory : Type 0} (lib : Library Memory) (laws : Lifetimes lib) (n : ℕ)
    (p : Program Memory) (h : IsSound lib laws n p) (x a : ℕ) (w : World) (st : WorldState)
    (at : p.objects x ≡ some w) (shared : w.state_ ≡ some a) where
  -- The program where the object, its state and the memory have changed.
  abbrev pub affected : World → WorldState → Memory → Program Memory
  affected w' st' m = record {
    heap = replaced p.heap a (some st') m;
    objects = put p.objects x (some w');
    handles = p.handles;
  }

  module _ (w' : World) (st' : WorldState) (m : Memory) (shared' : w'.state_ ≡ some a) where
    Refers-affected : (b : ℕ) → Refers p b → Refers (affected w' st' m) b
    Refers-affected b (inl (y, v, e, s)) = elim (eq-cases x y) [
      | inl here ↦
          let one : w ≡ v = cc (ap p.objects here, at, e) in
          let same : a ≡ b = cc (shared, one, s) in
          inl (x, w', put_self p.objects x (some w'), shared' ∙ ap some same)
      | inr ne ↦ inl (y, v, put_ne p.objects x y (some w') ne ∙ e, s)
    ]
    Refers-affected b (inr (y, g, e, s)) = inr (y, g, e, s)

    pub affected-IsSound :
        st'.world ≡ w'.world_
        → IsConsistent lib laws 0 (Holds p) (n + 1) (replaced p.heap a (some st') m)
        → IsSound lib laws (n + 1) (affected w' st' m)
    affected-IsSound agree' consistent = record {
      consistent = consistent;
      linked =
          assigned-IsLinked p.objects p.heap.worlds x a w w' st' at shared shared' agree' h.linked;
      owned = λ b u e. elim (eq-cases a b) [
        | inl here ↦ inl (x, w', put_self p.objects x (some w'), shared' ∙ ap some (sym here))
        | inr ne ↦ Refers-affected b (h.owned b u (at_ne p.heap.worlds a b (some st') u ne e))
      ];
    }
