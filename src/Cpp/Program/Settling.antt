-- ===== src/Cpp/Program/Settling.antt =====
-- The end of a shared pointer: a state that nothing holds is destroyed, and the others stay.
use libdense.Common.{ℕ, ◌+◌, ◌≡◌, ◌≢◌, ap, ◌∙◌, inl, inr, Option-cases, none, some, arith}
use libdense.DenseSim.{Pointer, Library}
use libdense.DenseSim.Lifetimes.{Lifetimes}
use libdense.Leases.{Lease}
use libdense.Leases.Change.{put, put_ne, eq-cases, at_self, at_ne}
use libdense.Leases.Invariant.{IsConsistent}
use libdense.Leases.Local.{gone-IsConsistent}
use libdense.Leases.Ticks.{apart}
use libdense.Leases.Holdings.{later-IsConsistent}
use libdense.Cpp.State.{WorldState, World}
use libdense.Cpp.Lifecycle.{destroy_state}
use libdense.Cpp.Variables.{Program, Refers}
use libdense.Cpp.Program.{Settles, empty, shared, last}
use libdense.Cpp.Program.Invariant.{Holds, IsLinked, IsReady, IsSound}

module _ {Memory : Type 0} (p : Program Memory) (a : ℕ) (unused : ¬ (Refers p a)) where
  unheld : (l : Lease) → Holds p l → l.world ≢ some a
  unheld l (y, h, b, at, same, world) e =
      unused (inr (y, h, at, ap (λ (k : Lease). k.world) same ∙ e))

  -- The objects that remain do not know of the state.
  unlinked : IsLinked p.objects p.heap.worlds → IsLinked p.objects (put p.heap.worlds a none)
  unlinked k =
      let other : (x b : ℕ) (w : World) → p.objects x ≡ some w → w.state_ ≡ some b → b ≢ a =
        λ x b w e s q. unused (inl (x, w, e, s ∙ ap some q)) in
      record {
        existing = λ x b w e s.
            let (st, at) = k.existing x b w e s in
            (st, put_ne p.heap.worlds a b none (other x b w e s) ∙ at);
        agree = λ x b w st e s at.
            k.agree x b w st e s (at_ne p.heap.worlds a b none st (other x b w e s) at);
        moved = k.moved;
        sole = k.sole;
      }

module _ {Memory : Type 0} (lib : Library Memory) (laws : Lifetimes lib) where
  gone :
      (n a : ℕ) (p : Program Memory) (st : WorldState)
      → IsConsistent lib laws 0 (Holds p) n p.heap
      → p.heap.worlds a ≡ some st
      → ¬ (Refers p a)
      → IsConsistent lib laws 0 (Holds p) (n + 1) (destroy_state lib a st p.heap)
  unfolding destroy_state
  gone n a p st h at unused = elim (Option-cases st.world) [
    | inl shut ↦ rw shut (
        gone-IsConsistent lib laws 0 (Holds p) n p.heap a st h at p.heap.native (unheld p a unused)
          (record { live = λ b x q ne e f l. l; borrowed = λ b x q v ne e f l. l }))
    | inr (w, open_at) ↦
        let m = p.heap.native in
        let live_at = h.live a st w at open_at in
        let ne_from = apart lib laws 0 (Holds p) n p.heap a st h at w open_at in
        rw open_at (
          gone-IsConsistent lib laws 0 (Holds p) n p.heap a st h at (lib.world_destroy (some w) m)
            (unheld p a unused)
            (record {
              live = λ b x q ne e f l. laws.destroy_live w q m (ne_from b x q ne e f) live_at l;
              borrowed = λ b x q v ne e f l.
                  laws.destroy_borrowed w q v m (ne_from b x q ne e f) live_at l;
            }))
  ]

  pub Settles-IsSound :
      (n : ℕ) (o : Pointer) (p q : Program Memory)
      → IsReady lib laws n o p
      → Settles lib p o q
      → IsSound lib laws (n + 1) q
  unfolding destroy_state
  Settles-IsSound n _ p _ h empty = record {
    consistent = later-IsConsistent lib laws 0 (Holds p) n p.heap h.consistent;
    linked = h.linked;
    owned = λ b st at. elim (h.owned b st at) [ inl impossible ↦ cc | inr held ↦ held ];
  }
  Settles-IsSound n _ p _ h (shared a held) = record {
    consistent = later-IsConsistent lib laws 0 (Holds p) n p.heap h.consistent;
    linked = h.linked;
    owned = λ b st at. elim (h.owned b st at) [
      | inl here ↦ let same : a ≡ b = cc (here) in rw (← same) held
      | inr other ↦ other
    ];
  }
  Settles-IsSound n _ p _ h (last a st at unused) = record {
    consistent = gone n a p st h.consistent at unused;
    linked = unlinked p a unused h.linked;
    owned = λ b x e. elim (eq-cases a b) [
      | inl same ↦ absurd (ground (arith, at_self p.heap.worlds a b none x same e))
      | inr ne ↦ elim (h.owned b x (at_ne p.heap.worlds a b none x ne e)) [
        | inl here ↦ absurd (ne (cc (here)))
        | inr other ↦ other
      ]
    ];
  }
