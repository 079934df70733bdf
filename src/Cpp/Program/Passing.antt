-- ===== src/Cpp/Program/Passing.antt =====
-- The steps that move World objects, and those that end an object's lifetime.
use libdense.Common.{ℕ, ◌+◌, ◌≡◌, ◌≢◌, sym, ap, ◌∙◌, ◌⊎◌, inl, inr, Option, none, some, arith}
use libdense.DenseSim.{Pointer, Library}
use libdense.DenseSim.Lifetimes.{Lifetimes}
use libdense.Leases.Change.{put, put_self, put_ne, eq-cases, at_self, at_ne}
use libdense.Leases.Holdings.{reheld-IsConsistent}
use libdense.Cpp.State.{World, moved_from}
use libdense.Cpp.Lifecycle.{move_construct, move_assign}
use libdense.Cpp.Variables.{Program, Handle, state_of, Refers}
use libdense.Cpp.Program.{Settles, empty}
use libdense.Cpp.Program.Invariant.{Holds, IsReady, IsSound}
use libdense.Cpp.Program.Joining.{with_handle, with_objects}
use libdense.Cpp.Program.Objects.{
  IsRenamed, renamed-IsLinked, removed-IsRenamed, moved-IsRenamed, same-IsRenamed,
}
use libdense.Cpp.Program.Settling.{Settles-IsSound}

module _ {Memory : Type 0} (p : Program Memory) where
  -- Or the handle that is gone has held it.
  Refers-dropped :
      (y a : ℕ) (h : Handle)
      → p.handles y ≡ some h
      → Refers p a
      → (state_of h ≡ some a) ⊎ Refers (with_handle p y none) a
  Refers-dropped y a h at (inl (x, w, e, s)) = inr (inl (x, w, e, s))
  Refers-dropped y a h at (inr (z, k, e, s)) = elim (eq-cases y z) [
    | inl same ↦ let one : h ≡ k = cc (ap p.handles same, at, e) in inl (ap state_of one ∙ s)
    | inr ne ↦ inr (inr (z, k, put_ne p.handles y z none ne ∙ e, s))
  ]

  -- Where the objects change, a state that some object has is still there, or it is the one given up.
  pub Refers-moved :
      (objects : ℕ → Option World) (given_up : Pointer)
      → ((x a : ℕ) (w : World)
          → p.objects x ≡ some w
          → w.state_ ≡ some a
          → (given_up ≡ some a) ⊎ ((z : ℕ) × (objects z ≡ some w)))
      → (a : ℕ) → Refers p a
      → (given_up ≡ some a) ⊎ Refers (with_objects p objects) a
  Refers-moved objects given_up now a (inl (x, w, e, s)) = elim (now x a w e s) [
    | inl up ↦ inl up
    | inr (z, at) ↦ inr (inl (z, w, at, s))
  ]
  Refers-moved objects given_up now a (inr (z, k, e, s)) = inr (inr (z, k, e, s))

module _ {Memory : Type 0} (lib : Library Memory) (laws : Lifetimes lib) where
  module _ (n : ℕ) (p : Program Memory) (h : IsSound lib laws n p) where
    dropped-IsReady :
        (y : ℕ) (k : Handle)
        → p.handles y ≡ some k
        → IsReady lib laws n (state_of k) (with_handle p y none)
    dropped-IsReady y k at = record {
      consistent =
          reheld-IsConsistent lib laws 0 (Holds p) (Holds (with_handle p y none)) n p.heap
            h.consistent
            (λ l (z, g, a, e, same, world). elim (eq-cases y z) [
              | inl here ↦ absurd (ground (arith, at_self p.handles y z none g here e))
              | inr ne ↦
                  h.consistent.tracked l (z, g, a, at_ne p.handles y z none g ne e, same, world)
            ]);
      linked = h.linked;
      owned = λ a st e. Refers-dropped p y a k at (h.owned a st e);
    }

    -- The objects change places.
    moved-IsReady :
        (objects : ℕ → Option World) (given_up : Pointer)
        → IsRenamed p.objects objects
        → ((x a : ℕ) (w : World)
            → p.objects x ≡ some w
            → w.state_ ≡ some a
            → (given_up ≡ some a) ⊎ ((z : ℕ) × (objects z ≡ some w)))
        → IsReady lib laws n given_up (with_objects p objects)
    moved-IsReady objects given_up r now = record {
      consistent = h.consistent;
      linked = renamed-IsLinked p.objects objects p.heap.worlds r h.linked;
      owned = λ a st at. Refers-moved p objects given_up now a (h.owned a st at);
    }

    destroyed-IsReady :
        (x : ℕ) (w : World)
        → p.objects x ≡ some w
        → IsReady lib laws n w.state_ (with_objects p (put p.objects x none))
    destroyed-IsReady x w at =
        moved-IsReady (put p.objects x none) w.state_ (removed-IsRenamed p.objects x) λ z a v e s.
          elim (eq-cases x z) [
            | inl here ↦
                let one : w ≡ v = cc (ap p.objects here, at, e) in
                inl (ap (λ (u : World). u.state_) one ∙ s)
            | inr ne ↦ inr (z, put_ne p.objects x z none ne ∙ e)
          ]

    taken-IsReady :
        (x y : ℕ) (w : World) (given_up : Pointer)
        → x ≢ y
        → p.objects y ≡ some w
        → ((a : ℕ) (v : World) → p.objects x ≡ some v → v.state_ ≡ some a → given_up ≡ some a)
        → IsReady lib laws n given_up
            (with_objects p (put (put p.objects y (some moved_from)) x (some w)))
    taken-IsReady x y w given_up ne at before =
        moved-IsReady (put (put p.objects y (some moved_from)) x (some w)) given_up
          (moved-IsRenamed p.objects x y w ne at)
          λ z a v e s. elim (eq-cases x z) [
            | inl here ↦ inl (before a v (ap p.objects (sym here) ∙ e) s)
            | inr there ↦ elim (eq-cases y z) [
              | inl taken ↦
                  let one : w ≡ v = cc (ap p.objects taken, at, e) in
                  inr (x, put_self (put p.objects y (some moved_from)) x (some w) ∙ ap some one)
              | inr kept ↦ inr (
                z,
                put_ne (put p.objects y (some moved_from)) x z (some w) there
                    ∙ put_ne p.objects y z (some moved_from) kept
                    ∙ e,
              )
            ]
          ]

    pub drop-IsSound :
        (y : ℕ) (k : Handle) (q : Program Memory)
        → p.handles y ≡ some k
        → Settles lib (with_handle p y none) (state_of k) q
        → IsSound lib laws (n + 1) q
    drop-IsSound y k q at = Settles-IsSound lib laws n _ _ q (dropped-IsReady y k at)

    pub destroy-IsSound :
        (x : ℕ) (w : World) (q : Program Memory)
        → p.objects x ≡ some w
        → Settles lib (with_objects p (put p.objects x none)) w.state_ q
        → IsSound lib laws (n + 1) q
    destroy-IsSound x w q at = Settles-IsSound lib laws n _ _ q (destroyed-IsReady x w at)

    pub move_construct-IsSound :
        (x y : ℕ) (w : World)
        → p.objects x ≡ none
        → p.objects y ≡ some w
        → IsSound lib laws (n + 1) (
            with_objects p
              (put (put p.objects y (some (move_construct w).1)) x (some (move_construct w).0)))
    move_construct-IsSound x y w free at =
        Settles-IsSound lib laws n none _ _
          (taken-IsReady x y w none (λ q. cc (ap p.objects q, free, at)) at (λ a v e s. cc)) empty

    pub move_assign-IsSound :
        (x y : ℕ) (v w : World) (q : Program Memory)
        → x ≢ y
        → p.objects x ≡ some v
        → p.objects y ≡ some w
        → Settles lib
            (with_objects p
              (put (put p.objects y (some (move_assign v w).1)) x (some (move_assign v w).0)))
            v.state_
            q
        → IsSound lib laws (n + 1) q
    move_assign-IsSound x y v w q ne before at = Settles-IsSound lib laws n v.state_ _ q (
        taken-IsReady x y w v.state_ ne at
          λ a u e s. let one : u ≡ v = cc (e, before) in ap (λ (t : World). t.state_) (sym one) ∙ s)

    pub assigned-IsSound :
        (x : ℕ) (w : World)
        → p.objects x ≡ some w
        → IsSound lib laws (n + 1) (with_objects p (put p.objects x (some w)))
    assigned-IsSound x w at =
        Settles-IsSound lib laws n none _ _
          (moved-IsReady (put p.objects x (some w)) none (same-IsRenamed p.objects x w at)
            λ z a v e s. inr (z, ground (arith, at, e)))
          empty
