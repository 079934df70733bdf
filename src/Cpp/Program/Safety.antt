-- ===== src/Cpp/Program/Safety.antt =====
-- No operation of a C++ program uses a pointer that has nothing behind it.
use libdense.Common.{
  ℕ, ◌+◌, ◌%◌, ◌<◌, ◌^◌, ◌≡◌, ◌≢◌, refl, sym, ap, ◌∙◌, inl, inr, Option-cases, Option, none, some,
  arith,
}
use libdense.DenseSim.{Library}
use libdense.DenseSim.Lifetimes.{Lifetimes, IsReadable}
use libdense.View.State.{Runtime}
use libdense.Leases.Current.{generation-injective}
use libdense.Cpp.State.{returned, fault, WorldState, ensure_view}
use libdense.Cpp.Variables.{Program, Handle, lease, state_of}
use libdense.Cpp.Program.Invariant.{IsSound}

module _ {Memory : Type 0} where
  -- What the test of a view found, where it returned.
  ensure_view-returned :
      (o : Option ℕ) (g : ℕ) (s : Runtime Memory) (u : Unit {0})
      → ensure_view o g s ≡ returned u
      → (a : ℕ) × (st : WorldState) × (o ≡ some a)
        × (s.worlds a ≡ some st)
        × (st.view_generation ≡ g)
  unfolding ensure_view
  ensure_view-returned none g s u e = cc
  ensure_view-returned (some a) g s u e = elim (Option-cases (s.worlds a)) [
    | inl lost ↦ ground (arith, e, lost)
    | inr (st, at) ↦ (a, st, refl, at, ground (arith, e, at))
  ]

  ensure_view-at :
      (a g : ℕ) (s : Runtime Memory) (st : WorldState)
      → s.worlds a ≡ some st
      → ensure_view (some a) g s ≢ fault
  unfolding ensure_view
  ensure_view-at a g s st at = ground (arith, at)

module _ {Memory : Type 0} (lib : Library Memory) (laws : Lifetimes lib) where
  open laws use {IsBorrowed}

  module _ (n : ℕ) (p : Program Memory) (h : IsSound lib laws n p) (small : n < 2 ^ 64) (y : ℕ)
      (k : Handle) (handle : p.handles y ≡ some k) where
    -- The test of a handle of the program.
    pub ensure_view-ne-fault : ensure_view (state_of k) (lease k).generation p.heap ≢ fault
    unfolding ensure_view
    ensure_view-ne-fault = elim (Option-cases (state_of k)) [
      | inl empty ↦ ground (arith, empty)
      | inr (a, shared) ↦
          let t = h.consistent.tracked (lease k) (y, k, a, handle, refl, shared) in
          let same : state_of k ≡ some t.address = t.refers in
          rw same (ensure_view-at t.address (lease k).generation p.heap t.world t.exists)
    ]

    pub ensure_view-IsBorrowed :
        (u : Unit {0})
        → ensure_view (state_of k) (lease k).generation p.heap ≡ returned u
        → (a : ℕ) × (st : WorldState) × (w : ℕ) × (state_of k ≡ some a)
          × (p.heap.worlds a ≡ some st)
          × (st.world ≡ some w)
          × IsBorrowed w (lease k).span p.heap.native
    ensure_view-IsBorrowed u e =
        let (a, st, shared, at, now) =
          ensure_view-returned (state_of k) (lease k).generation p.heap u e in
        let t = h.consistent.tracked (lease k) (y, k, a, handle, refl, shared) in
        let same : t.address ≡ a = cc (t.refers, shared) in
        let one : t.world ≡ st = cc (ap p.heap.worlds same, t.exists, at) in
        let counted = h.consistent.counted a st at in
        let taken : t.taken ≡ h.consistent.count t.address =
          generation-injective 0 t.taken (h.consistent.count t.address) n t.taken_le
            (h.consistent.bounded t.address) small
            (sym t.generation
              ∙ sym now
              ∙ counted
              ∙ ap (λ b. (0 + h.consistent.count b) % 2 ^ 64) (sym same)) in
        let (w, open_at, borrowed) = t.current taken in
        (a, st, w, shared, at, ap (λ (x : WorldState). x.world) (sym one) ∙ open_at, borrowed)

    -- The array of a handle that passes its test can be read.
    pub ensure_view-IsReadable :
        (u : Unit {0})
        → ensure_view (state_of k) (lease k).generation p.heap ≡ returned u
        → IsReadable lib (lease k).span p.heap.native
    ensure_view-IsReadable u e =
        let (a, st, w, shared, at, open_at, borrowed) = ensure_view-IsBorrowed u e in
        laws.borrowed_readable w (lease k).span p.heap.native borrowed
