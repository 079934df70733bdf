-- ===== src/Session/Invariant.antt =====
-- The invariant of Leases for the fanout views of a Python program.
use libdense.Common.{ℕ, ◌≡◌, refl}
use mathlib.Core.Path.{subst}
use libdense.DenseSim.{Library}
use libdense.DenseSim.Lifetimes.{Lifetimes, chunk_span}
use libdense.World.Lifecycle.{DenseFanoutView}
use libdense.Leases.{Lease}
use libdense.Leases.Invariant
use libdense.Session.State.{Session, In}

abbrev pub lease : DenseFanoutView → Lease
lease v = record { world = v.world; generation = v.generation; span = chunk_span v.view }

-- The arrays of the views that are alive.
abbrev pub Holds : {Memory : Type 0} → Session Memory → Lease → Type 0
Holds s l = (v : DenseFanoutView) × In v s.views × (lease v ≡ l)

pub held :
    {Memory : Type 0} (s : Session Memory) (v : DenseFanoutView) → In v s.views → Holds s (lease v)
held s v i = (v, i, refl)

pub Holds-elim :
    {Memory : Type 0} (s : Session Memory) (P : Lease → Type 0)
    → ((v : DenseFanoutView) → In v s.views → P (lease v))
    → (l : Lease) → Holds s l
    → P l
Holds-elim s P h l (v, i, e) = subst P e (h v i)

-- A new World has the generation 1.
abbrev pub IsConsistent :
    {Memory : Type 0} (lib : Library Memory) → Lifetimes lib → ℕ → Session Memory → Type 0
IsConsistent lib laws n s = Invariant.IsConsistent lib laws 1 (Holds s) n s.runtime
