-- ===== src/Session/Worlds.antt =====
-- What becomes of the invariant where a World is initialised.
use libdense.Common.{ℕ, ◌+◌, ◌≡◌, Option, some}
use libdense.Common.Int.{ℤ}
use libdense.DenseSim.{Library}
use libdense.DenseSim.Lifetimes.{Lifetimes}
use libdense.Python.{Parsed}
use libdense.World.State.{DenseWorld}
use libdense.World.Lifecycle.{init}
use libdense.World.Init.{untouched, refused, first, again, init-InitOutcome}
use libdense.Leases.Local.{kept-IsConsistent}
use libdense.Leases.Ticks.{init_first-IsConsistent, init_again-IsConsistent}
use libdense.Session.State.{Session, entered, left}
use libdense.Session.Stays.{Keeps-refl}
use libdense.Session.Invariant.{Holds, IsConsistent}

module _ {Memory : Type 0} (lib : Library Memory) (laws : Lifetimes lib) where
  module _ (n : ℕ) (s : Session Memory) (a : ℕ) (w : DenseWorld) (h : IsConsistent lib laws n s)
      (at : s.runtime.worlds a ≡ some w) where
    pub init-IsConsistent :
        (args : Parsed (Option ℤ × Option ℤ × Option ℤ × Option ℤ))
        → IsConsistent lib laws (n + 1) (left s a (init lib args (entered s w)).1)
    init-IsConsistent args = elim (init-InitOutcome lib args (entered s w)) [
      | untouched same r ↦
          rw same
            (kept-IsConsistent lib laws 1 (Holds s) n s.runtime a w h at _ (Keeps-refl lib laws _))
      | refused config bad e ↦ rw e (
          kept-IsConsistent lib laws 1 (Holds s) n s.runtime a w h at _ (record {
            live = λ q l. laws.create_live config s.runtime.native q l;
            borrowed = λ q v l. laws.create_borrowed config s.runtime.native q v l;
          }))
      | first config good shut e ↦
          rw e (init_first-IsConsistent lib laws 1 (Holds s) n s.runtime a w h at config good shut)
      | again config p good open_at e ↦
          rw e (
            init_again-IsConsistent lib laws 1 (Holds s) n s.runtime a w h at config good p open_at)
    ]
