-- ===== src/Cpp/Program/Joining.antt =====
-- A handle that joins a program.
use libdense.Common.{ℕ, ◌+◌, ◌≡◌, refl, sym, ap, ◌∙◌, inl, inr, Option, none, some, arith}
use mathlib.Core.Path.{subst}
use libdense.DenseSim.{Library}
use libdense.DenseSim.Lifetimes.{Lifetimes}
use libdense.View.State.{Runtime}
use libdense.Leases.{Lease}
use libdense.Leases.Change.{put, put_ne, eq-cases, at_self, at_ne}
use libdense.Leases.Invariant.{IsTracked}
use libdense.Leases.Holdings.{reheld-IsConsistent, later-IsConsistent}
use libdense.Cpp.State.{World}
use libdense.Cpp.Variables.{Program, Handle, lease, state_of, Refers}
use libdense.Cpp.Program.{Derived}
use libdense.Cpp.Program.Invariant.{Holds, IsSound}
use libdense.Cpp.Program.Handles.{IsFound, Derived-IsFound}

module _ {Memory : Type 0} (p : Program Memory) where
  -- The program with another handle `y`.
  abbrev pub with_handle : ℕ → Option Handle → Program Memory
  with_handle y o = record p { handles = put p.handles y o }

  abbrev pub with_objects : (ℕ → Option World) → Program Memory
  with_objects objects = record p { objects = objects }

  -- What held a state holds it still where a free variable is taken.
  pub Refers-added :
      (y a : ℕ) (o : Option Handle) → p.handles y ≡ none → Refers p a → Refers (with_handle y o) a
  Refers-added y a o free (inl (x, w, e, s)) = inl (x, w, e, s)
  Refers-added y a o free (inr (z, h, e, s)) = elim (eq-cases y z) [
    | inl same ↦ cc (ap p.handles same)
    | inr ne ↦ inr (z, h, put_ne p.handles y z o ne ∙ e, s)
  ]

module _ {Memory : Type 0} (lib : Library Memory) (laws : Lifetimes lib) where
  -- What is found through a tracked handle is tracked.
  IsFound-IsTracked :
      (count : ℕ → ℕ) (s : Runtime Memory) (l l' : Lease)
      → IsFound lib laws s l l'
      → IsTracked lib laws 0 count s l
      → IsTracked lib laws 0 count s l'
  IsFound-IsTracked count s l l' f t = record {
    address = t.address;
    refers = f.world ∙ t.refers;
    world = t.world;
    exists = t.exists;
    taken = t.taken;
    taken_le = t.taken_le;
    generation = f.generation ∙ t.generation;
    current = λ e. let (w, open_at, borrowed) = t.current e in (w, open_at, f.borrowed w borrowed);
  }

  module _ (n : ℕ) (p : Program Memory) (h : IsSound lib laws n p) where
    -- A handle joins the program, where what it shares is tracked.
    pub added-IsSound :
        (y : ℕ) (k : Handle)
        → p.handles y ≡ none
        → ((a : ℕ) → state_of k ≡ some a → IsTracked lib laws 0 h.consistent.count p.heap (lease k))
        → IsSound lib laws n (with_handle p y (some k))
    added-IsSound y k free tracked = record {
      consistent =
          reheld-IsConsistent lib laws 0 (Holds p) (Holds (with_handle p y (some k))) n p.heap
            h.consistent
            (λ l (z, g, a, at, same, world). elim (eq-cases y z) [
              | inl here ↦
                  let one : k ≡ g = ground (arith, at_self p.handles y z (some k) g here at) in
                  let leased : lease k ≡ l = ap lease one ∙ same in
                  subst (IsTracked lib laws 0 h.consistent.count p.heap) leased
                    (tracked a (ap (λ (m : Lease). m.world) leased ∙ world))
              | inr ne ↦
                  h.consistent.tracked l
                    (z, g, a, at_ne p.handles y z (some k) g ne at, same, world)
            ]);
      linked = h.linked;
      owned = λ a st at. Refers-added p y a (some k) free (h.owned a st at);
    }

    pub later-IsSound : IsSound lib laws (n + 1) p
    later-IsSound = record {
      consistent = later-IsConsistent lib laws 0 (Holds p) n p.heap h.consistent;
      linked = h.linked;
      owned = h.owned;
    }

    pub derive-IsSound :
        (y z : ℕ) (k k' : Handle)
        → p.handles z ≡ some k
        → p.handles y ≡ none
        → Derived lib p.heap k k'
        → IsSound lib laws n (with_handle p y (some k'))
    derive-IsSound y z k k' at free d =
        let found = Derived-IsFound lib laws p.heap k k' d in
        added-IsSound y k' free λ a shared.
          IsFound-IsTracked h.consistent.count p.heap (lease k) (lease k') found
            (h.consistent.tracked (lease k) (z, k, a, at, refl, sym found.world ∙ shared))

    pub default-IsSound :
        (y : ℕ) (k : Handle)
        → p.handles y ≡ none
        → state_of k ≡ none
        → IsSound lib laws n (with_handle p y (some k))
    default-IsSound y k free empty = added-IsSound y k free (λ a shared. cc)
