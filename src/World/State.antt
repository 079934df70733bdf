-- ===== src/World/State.antt =====
-- The struct DenseWorld, the state that a method of it works on, and the helpers that every
-- method calls: dense_raise_result and dense_world_require_open.
use libdense.Common.{ℕ, ◌+◌, ◌%◌, ◌^◌, Bool, String, [], ◌∷◌, none, some, if◌then◌else◌}
use libdense.Common.Int.{pos}
use libdense.DenseSim.{Pointer, DsResult, is_ok, Library}
use libdense.Python.{
  ExcType, text, Exc, Result, ok, err, fault, Parsed, parsed, rejected, Value, scalar, integer,
  boolean,
}

pub record DenseWorld : Type 0 where
  pub world : Pointer
  pub view_generation : ℕ

-- `view_generation++` on a uint64_t.
abbrev pub next_generation : ℕ → ℕ
next_generation g = (g + 1) % 2 ^ 64

-- `held` counts the buffer exports that the binding has acquired and not released.
pub record Env (Memory : Type 0) : Type 0 where
  pub self : DenseWorld
  pub native : Memory
  pub held : ℕ

abbrev pub Method : Type 0 → Type 0 → Type 0
Method Memory A = Env Memory → Result A × Env Memory

module _ {Memory : Type 0} where
  unfoldable pub pure : {A : Type 0} → A → Method Memory A
  pure a s = (ok a, s)

  unfoldable pub raise : {A : Type 0} → Exc → Method Memory A
  raise e s = (err e, s)

  unfoldable pub parse : {A : Type 0} → Parsed A → Method Memory A
  unfolding pure raise
  parse (parsed a) = pure a
  parse (rejected e) = raise e

  -- `self->world`
  unfoldable pub self_world : Method Memory Pointer
  self_world s = (ok s.self.world, s)

  -- A call of a library function that only reads.
  unfoldable pub reading : {A : Type 0} → (Memory → A) → Method Memory A
  reading f s = (ok (f s.native), s)

  -- A call of a library function that may write.
  unfoldable pub calling : (Memory → DsResult × Memory) → Method Memory DsResult
  calling f s = let (r, m) = f s.native in (ok r, record s { native = m })

abbrev pub closed_error : Exc
closed_error = record { class = ExcType.dense_sim_error; message = text "world is closed" ∷ [] }

module _ {Memory : Type 0} (lib : Library Memory) where
  abbrev pub result_error : DsResult → String → Exc
  result_error r context = record {
    class = ExcType.dense_sim_error;
    message = text context ∷ text ": " ∷ text (lib.result_string r) ∷ [];
  }

  -- dense_raise_result
  unfoldable pub raise_result : {A : Type 0} → DsResult → String → Method Memory A
  unfolding raise
  raise_result r context = raise (result_error r context)

  -- `if (result != DS_OK) { dense_raise_result(...); return NULL; }`
  unfoldable pub check : DsResult → String → Method Memory (Unit {0})
  unfolding pure raise_result
  check r context = if is_ok r then pure tt else raise_result r context

module _ {Memory : Type 0} where
  -- dense_world_require_open
  unfoldable pub require_open : Method Memory (Unit {0})
  unfolding pure raise
  require_open s = elim s.self.world [ none ↦ raise closed_error s | some w ↦ pure tt s ]

  -- PyLong_FromUnsignedLongLong and PyLong_FromSize_t, PyLong_FromLong, PyBool_FromLong
  unfoldable pub py_long : ℕ → Method Memory Value
  unfolding pure
  py_long n = pure (scalar (integer (pos n)))

  unfoldable pub py_bool : Bool → Method Memory Value
  unfolding pure
  py_bool b = pure (scalar (boolean b))

  module _ {A B : Type 0} where
    abbrev pub continue : Result A → (A → Method Memory B) → Method Memory B
    continue (ok a) k s = k a s
    continue (err e) k s = (err e, s)
    continue fault k s = (fault, s)

  infixl 5 ◌>>=◌ ◌>>◌
  -- Unfolding this opens the basic steps too.
  unfoldable pub ◌>>=◌ : {A B : Type 0} → Method Memory A → (A → Method Memory B) → Method Memory B
  unfolding pure raise parse self_world reading calling raise_result check require_open py_long
      py_bool
  ◌>>=◌ m k s = let (r, s') = m s in continue r k s'

  abbrev pub ◌>>◌ : {A B : Type 0} → Method Memory A → Method Memory B → Method Memory B
  m >> k = m >>= λ _. k
