-- ===== src/Cpp/Steps.antt =====
-- The statements that the methods of dense::World are made of.
use libdense.Common.{String, none, some, if◌then◌else◌}
use libdense.DenseSim.{Pointer, DsResult, is_ok, Library}
use libdense.World.State.{next_generation}
use libdense.Leases.Change.{put}
use libdense.Cpp.State.{
  Exception, error, returned, thrown, fault, WorldState, Reader, Method, and_run, closed_error,
}

module _ {Memory : Type 0} where
  unfoldable pub pure : {A : Type 0} → A → Method Memory A
  pure a s = (returned a, s)

  unfoldable pub raise : {A : Type 0} → Exception → Method Memory A
  raise e s = (thrown e, s)

  -- A read of the heap.
  unfoldable pub reads : {A : Type 0} → Reader Memory A → Method Memory A
  reads m s = (m s.heap, s)

  unfoldable pub self_world : Method Memory Pointer
  self_world s = (returned s.self.world_, s)

  unfoldable pub self_state : Method Memory Pointer
  self_state s = (returned s.self.state_, s)

  -- A call of a library function that only reads, and of one that may write.
  unfoldable pub reading : {A : Type 0} → (Memory → A) → Method Memory A
  reading f s = (returned (f s.heap.native), s)

  unfoldable pub calling : {A : Type 0} → (Memory → A × Memory) → Method Memory A
  calling f s =
      let (r, m) = f s.heap.native in
      (returned r, record s { heap = record { native = m; worlds = s.heap.worlds } })

  unfoldable pub forget_world : Method Memory (Unit {0})
  forget_world s =
      (returned tt, record s { self = record { state_ = s.self.state_; world_ = none } })

  -- An assignment through `state_`.
  abbrev pub update_at : Pointer → (WorldState → WorldState) → Method Memory (Unit {0})
  update_at none f s = (fault, s)
  update_at (some a) f s = elim (s.heap.worlds a) [
    | none ↦ (fault, s)
    | some st ↦ (
      returned tt,
      record s {
        heap = record { native = s.heap.native; worlds = put s.heap.worlds a (some (f st)) };
      },
    )
  ]

  unfoldable pub update_state : (WorldState → WorldState) → Method Memory (Unit {0})
  update_state f s = update_at s.self.state_ f s

  -- World::require_open
  unfoldable pub require_open : Method Memory (Unit {0})
  unfolding pure raise
  require_open s = elim s.self.world_ [ none ↦ raise closed_error s | some w ↦ pure tt s ]

abbrev pub advance : WorldState → WorldState
advance st = record st { view_generation = next_generation st.view_generation }

module _ {Memory : Type 0} (lib : Library Memory) where
  abbrev pub failure : DsResult → String → Exception
  failure r context = error r context (lib.result_string r)

  -- dense::check
  unfoldable pub check : DsResult → String → Method Memory (Unit {0})
  unfolding pure raise
  check r context = if is_ok r then pure tt else raise (failure r context)

module _ {Memory : Type 0} where
  infixl 5 ◌>>=◌ ◌>>◌
  -- Unfolding this opens the basic steps too.
  unfoldable pub ◌>>=◌ : {A B : Type 0} → Method Memory A → (A → Method Memory B) → Method Memory B
  unfolding pure raise reads self_world self_state reading calling forget_world update_state check
      require_open
  ◌>>=◌ m k s = let (r, s') = m s in and_run r k s'

  abbrev pub ◌>>◌ : {A B : Type 0} → Method Memory A → Method Memory B → Method Memory B
  m >> k = m >>= λ _. k
