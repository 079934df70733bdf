-- ===== src/Cpp/State.antt =====
-- Errors of the C++ binding, the shared state detail::WorldState, and what its methods work on.
use libdense.Common.{
  ◌≡◌, ◌≢◌, refl, ℕ, Bool, true, false, ◌==◌, String, Option, none, some, if◌then◌else◌,
}
use libdense.DenseSim.{Pointer, DsResult}
use libdense.World.State.{DenseWorld}
use libdense.View.State.{Runtime}

-- The exceptions that the binding throws: `error` is dense::Error, whose text is the context, a colon
-- and the description of the ds_result; the others are those of the standard library.
pub data Exception : Type 0 where
  error : DsResult → (context reason : String) → Exception
  logic_error : String → Exception
  out_of_range : String → Exception
  bad_alloc : Exception

-- How a function ends; `fault` is the use of a pointer that is null or has nothing behind it.
pub data Outcome (A : Type 0) : Type 0 where
  returned : A → Outcome A
  thrown : Exception → Outcome A
  fault : Outcome A

-- detail::WorldState. It has the fields that the Python binding's struct DenseWorld has.
abbrev pub WorldState : Type 0
WorldState = DenseWorld

-- `std::make_shared<detail::WorldState>()`
abbrev pub new_state : WorldState
new_state = record { world = none; view_generation = 0 }

-- The class World: `state_` is the address of the state that the shared pointer owns.
pub record World : Type 0 where
  pub state_ : Pointer
  pub world_ : Pointer

-- A World that has been moved from.
abbrev pub moved_from : World
moved_from = record { state_ = none; world_ = none }

-- The memory of the library, the states by address, and the World whose method runs.
pub record Env (Memory : Type 0) : Type 0 where
  pub self : World
  pub heap : Runtime Memory

abbrev pub closed_error : Exception
closed_error = logic_error "dense::World is closed"

abbrev pub stale_error : Exception
stale_error = logic_error "borrowed fanout view is no longer valid"

-- A method that reads: of a view, or a `const` one.
abbrev pub Reader : Type 0 → Type 0 → Type 0
Reader Memory A = Runtime Memory → Outcome A

abbrev pub Method : Type 0 → Type 0 → Type 0
Method Memory A = Env Memory → Outcome A × Env Memory

module _ {Memory : Type 0} where
  abbrev pub give : {A : Type 0} → A → Reader Memory A
  give a s = returned a

  abbrev pub throw : {A : Type 0} → Exception → Reader Memory A
  throw e s = thrown e

  module _ {A B : Type 0} where
    abbrev pub and_read : Outcome A → (A → Reader Memory B) → Reader Memory B
    and_read (returned a) k s = k a s
    and_read (thrown e) k s = thrown e
    and_read fault k s = fault

    abbrev pub and_run : Outcome A → (A → Method Memory B) → Method Memory B
    and_run (returned a) k s = k a s
    and_run (thrown e) k s = (thrown e, s)
    and_run fault k s = (fault, s)

  infixl 5 ◌>>=◌ ◌>>◌
  abbrev pub ◌>>=◌ : {A B : Type 0} → Reader Memory A → (A → Reader Memory B) → Reader Memory B
  ◌>>=◌ m k s = and_read (m s) k s

  abbrev pub ◌>>◌ : {A B : Type 0} → Reader Memory A → Reader Memory B → Reader Memory B
  m >> k = m >>= λ _. k

  -- A read through a pointer of the library.
  abbrev pub load : {A : Type 0} → (Memory → Option A) → Reader Memory A
  load f s = elim (f s.native) [ none ↦ fault | some a ↦ returned a ]

  -- `*state`
  abbrev pub state_at : Pointer → Reader Memory WorldState
  state_at none s = fault
  state_at (some a) s = elim (s.worlds a) [ none ↦ fault | some st ↦ returned st ]

  abbrev pub state_open : WorldState → Reader Memory WorldState
  state_open st = elim st.world [ none ↦ throw closed_error | some w ↦ give st ]

  -- detail::ensure_open
  unfoldable pub ensure_open : Pointer → Reader Memory WorldState
  ensure_open none = throw closed_error
  ensure_open (some a) = state_at (some a) >>= state_open

module _ {Memory : Type 0} where
  -- What `==` on two generations decides.
  abbrev pub generation_test : WorldState → ℕ → Reader Memory (Unit {0})
  generation_test st generation =
      if st.view_generation == generation then give tt else throw stale_error

  -- detail::ensure_view
  unfoldable pub ensure_view : Pointer → ℕ → Reader Memory (Unit {0})
  unfolding ensure_open
  ensure_view state generation = do st ← ensure_open state; generation_test st generation

-- `==` on two pointers.
abbrev pub same_pointer : Pointer → Pointer → Bool
same_pointer none none = true
same_pointer (some a) (some b) = a == b
same_pointer none (some b) = false
same_pointer (some a) none = false

-- Inversion of a read that returned.
pub and_read-returned :
    {Memory A B : Type 0} (o : Outcome A) (k : A → Reader Memory B) (s : Runtime Memory) {b : B}
    → and_read o k s ≡ returned b
    → (a : A) × (o ≡ returned a) × (k a s ≡ returned b)
and_read-returned (returned a) k s h = (a, refl, h)
and_read-returned (thrown e) k s h = cc
and_read-returned fault k s h = cc

-- A read faults where its first part does, or the rest after it.
pub and_read-ne-fault :
    {Memory A B : Type 0} (o : Outcome A) (k : A → Reader Memory B) (s : Runtime Memory)
    → o ≢ fault
    → ((a : A) → o ≡ returned a → k a s ≢ fault)
    → and_read o k s ≢ fault
and_read-ne-fault (returned a) k s h rest = rest a refl
and_read-ne-fault (thrown e) k s h rest = λ q. cc
and_read-ne-fault fault k s h rest = absurd (h refl)
