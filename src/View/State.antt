-- ===== src/View/State.antt =====
-- The objects that a view reads, and the helpers that every view calls:
-- dense_fanout_require_valid, dense_normalize_index and dense_chunk_at.
use libdense.Common.{
  ℕ, ◌-◌, ◌^◌, not, ◌||◌, String, Option, none, some, [], ◌∷◌, ltb, ◌==◌, if◌then◌else◌,
}
use libdense.Common.Int.{ℤ, pos, pos_part, ◌+ℤ◌, ltb_ℤ}
use libdense.DenseSim.{ChunkDelta, Library}
use libdense.Python.{ExcType, text, Exc, Result, ok, err, fault}
use libdense.World.State.{DenseWorld}
use libdense.World.Lifecycle.{DenseFanoutView}

-- The library's memory and the World objects, by address; `none` is an address where none lies.
pub record Runtime (Memory : Type 0) : Type 0 where
  pub native : Memory
  pub worlds : ℕ → Option DenseWorld

-- A function of a view reads the runtime, and changes nothing.
abbrev pub Reader : Type 0 → Type 0 → Type 0
Reader Memory A = Runtime Memory → Result A

module _ {Memory : Type 0} where
  abbrev pub pure : {A : Type 0} → A → Reader Memory A
  pure a s = ok a

  abbrev pub raise : {A : Type 0} → Exc → Reader Memory A
  raise e s = err e

  abbrev pub continue : {A B : Type 0} → Result A → (A → Reader Memory B) → Reader Memory B
  continue (ok a) k s = k a s
  continue (err e) k s = err e
  continue fault k s = fault

  infixl 5 ◌>>=◌ ◌>>◌
  abbrev pub ◌>>=◌ : {A B : Type 0} → Reader Memory A → (A → Reader Memory B) → Reader Memory B
  ◌>>=◌ m k s = continue (m s) k s

  abbrev pub ◌>>◌ : {A B : Type 0} → Reader Memory A → Reader Memory B → Reader Memory B
  m >> k = m >>= λ _. k

  -- `if (... == NULL) { PyErr_Clear(); return ...; }`
  abbrev pub cleared :
      {A B : Type 0} → Reader Memory A → Reader Memory B → (A → Reader Memory B) → Reader Memory B
  cleared m failed k s = elim (m s) [ ok a ↦ k a s | err e ↦ failed s | fault ↦ fault ]

  -- A read through a pointer of the library.
  abbrev pub load : {A : Type 0} → (Memory → Option A) → Reader Memory A
  load f s = elim (f s.native) [ none ↦ fault | some a ↦ ok a ]

abbrev pub error : ExcType → String → Exc
error class message = record { class = class; message = text message ∷ [] }

abbrev pub invalidated_error : Exc
invalidated_error =
    error ExcType.runtime_error
      "fanout view was invalidated by the next successful begin_tick() or world close"

abbrev pub index_error : Exc
index_error = error ExcType.index_error "dense_sim view index out of range"

abbrev pub group_count_error : Exc
group_count_error = error ExcType.overflow_error "fanout group count exceeds Python sequence limits"

-- PY_SSIZE_T_MAX
abbrev pub ssize_max : ℕ
ssize_max = 2 ^ 63 - 1

-- dense_normalize_index, which returns the index that it stores.
unfoldable pub normalize_index : ℤ → ℤ → Result ℤ
unfolding ◌+ℤ◌
normalize_index index₀ length =
    let index = if ltb_ℤ index₀ (pos 0) then index₀ +ℤ length else index₀ in
    if ltb_ℤ index (pos 0) || not (ltb_ℤ index length) then err index_error else ok index

-- The test of dense_fanout_require_valid on the World that the view refers to.
abbrev pub world_valid : DenseWorld → ℕ → Result (Unit {0})
world_valid w generation = elim w.world [
  | none ↦ err invalidated_error
  | some _ ↦ if w.view_generation == generation then ok tt else err invalidated_error
]

abbrev pub valid_at : Option DenseWorld → ℕ → Result (Unit {0})
valid_at none generation = fault
valid_at (some w) generation = world_valid w generation

module _ {Memory : Type 0} where
  -- dense_fanout_require_valid
  unfoldable pub fanout_require_valid : DenseFanoutView → Reader Memory (Unit {0})
  fanout_require_valid self s = elim self.world [
    | none ↦ err invalidated_error
    | some address ↦ valid_at (s.worlds address) self.generation
  ]

  -- `if (... > (size_t)PY_SSIZE_T_MAX) { PyErr_SetString(...); ... }`
  abbrev pub check_count : ℕ → Exc → Reader Memory (Unit {0})
  check_count n e = if ltb ssize_max n then raise e else pure tt

  abbrev pub normalized : ℤ → ℕ → Reader Memory ℤ
  normalized index length s = normalize_index index (pos length)

  -- dense_chunk_at: the pointer to the chunk, as its index in `view.chunks`.
  unfoldable pub chunk_at : DenseFanoutView → ℤ → Reader Memory ℕ
  chunk_at fanout index = do
    fanout_require_valid fanout
    check_count fanout.view.chunk_count group_count_error
    i ← normalized index fanout.view.chunk_count
    pure (pos_part i)

  -- `*chunk`
  abbrev pub load_chunk : Library Memory → DenseFanoutView → ℕ → Reader Memory ChunkDelta
  load_chunk lib fanout i = load (lib.read_chunk fanout.view.chunks i)
