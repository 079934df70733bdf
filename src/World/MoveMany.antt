-- ===== src/World/MoveMany.antt =====
-- move_many runs entity_move on its rows in order, and does what the scalar `move` would do.
use mathlib.Core.Path.{subst}
use libdense.Common.{
  ℕ, zero, suc, ◌+◌, ◌≡◌, refl, ap, true, List, [], ◌∷◌, some, arith, length, get_elem?,
  if◌then◌else◌,
}
use libdense.Common.Int.{ℤ, pos}
use libdense.DenseSim.{EntityId, Pointer, DsResult, is_ok, Library}
use libdense.Python.{Result, ok, err, parsed, Value, scalar, integer}
use libdense.Buffer.Bytes.{Platform}
use libdense.Buffer.Format.{PyBuffer}
use libdense.Buffer.Acquire.{DenseBuffer, zeroed, read_u64, read_i32, signed32}
use libdense.Buffer.Arrays.{
  IsU64Array, IsI32Array, read_u64-IsArray, read_i32-IsArray, checked-IsU64Array,
  checked-IsI32Array,
}
use libdense.World.State.{Env, ◌>>=◌}
use libdense.World.Batches.{MoveBuffers, move_loop, move_body, move_many, batch_error, finish}
use libdense.World.Sequential.{Sequential, run_batch, run_batch-Sequential}

abbrev pub Move : Type 0
Move = EntityId × ℤ × ℤ

-- The rows of the three arrays.
abbrev pub rows : List ℕ → List ℕ → List ℕ → List Move
rows (i ∷ ids) (x ∷ xs) (y ∷ ys) = (i, signed32 x, signed32 y) ∷ rows ids xs ys
rows _ _ _ = []

module _ {Memory : Type 0} (lib : Library Memory) where
  abbrev pub move_op : Pointer → Move → Memory → DsResult × Memory
  move_op w (id, x, y) = lib.entity_move w id x y

module _ {Memory : Type 0} (lib : Library Memory) (p : Platform) where
  -- What move_many returns for a batch that ended with `r` after `n` moves.
  abbrev pub move_many_reply : DsResult → ℕ → Result Value
  move_many_reply r n =
      if is_ok r
      then ok (scalar (integer (pos n)))
      else err (batch_error lib p "move_many" " successful moves: " r n)

module _ {Memory : Type 0} (lib : Library Memory) (p : Platform) (w : Pointer)
    (b : MoveBuffers) where
  -- The reads of round `k` give the row `v`.
  abbrev Reads : ℕ → Move → Type 0
  Reads k (id, x, y) =
      (read_u64 p b.ids k ≡ some id) × (read_i32 p b.xs k ≡ some x) × (read_i32 p b.ys k ≡ some y)

  move_loop-run_batch :
      (batch : List Move) (k : ℕ) (m : Memory)
      → ((j : ℕ) (v : Move) → get_elem? batch j ≡ some v → Reads (k + j) v)
      → move_loop lib p w b (length batch) k m
        ≡ (let (r, m') = run_batch (move_op lib w) batch k m in (ok r, m'))
  unfolding move_loop run_batch
  move_loop-run_batch [] k m reads = refl
  move_loop-run_batch (v ∷ batch) k m reads =
      let here : Reads k v = subst (λ (n : ℕ). Reads n v) (omega arith) (reads 0 v refl) in
      let (r, m') = move_op lib w v m in
      let later =
        move_loop-run_batch batch (k + 1) m'
          λ j u e. subst (λ (n : ℕ). Reads n u) (omega arith) (reads (suc j) u e) in
      ground (arith, later)

rows-get :
    (ids xs ys : List ℕ) (j : ℕ) (v : Move)
    → get_elem? (rows ids xs ys) j ≡ some v
    → (i x y : ℕ) × (get_elem? ids j ≡ some i)
      × (get_elem? xs j ≡ some x)
      × (get_elem? ys j ≡ some y)
      × (v ≡ (i, signed32 x, signed32 y))
rows-get (i ∷ ids) (x ∷ xs) (y ∷ ys) zero v h = (i, x, y, refl, refl, refl, cc)
rows-get (i ∷ ids) (x ∷ xs) (y ∷ ys) (suc j) v h = rows-get ids xs ys j v h
rows-get [] xs ys j v h = cc
rows-get (i ∷ ids) [] ys j v h = cc
rows-get (i ∷ ids) (x ∷ xs) [] j v h = cc

length-rows :
    (ids xs ys : List ℕ)
    → length ids ≡ length xs
    → length ids ≡ length ys
    → length (rows ids xs ys) ≡ length ids
length-rows (i ∷ ids) (x ∷ xs) (y ∷ ys) h k =
    ap suc (length-rows ids xs ys (omega arith) (omega arith))
length-rows [] xs ys h k = refl
length-rows (i ∷ ids) [] ys h k = absurd (omega arith)
length-rows (i ∷ ids) (x ∷ xs) [] h k = absurd (omega arith)

abbrev pub acquired_as : PyBuffer → List ℕ → DenseBuffer
acquired_as view vs = record { view = view; count = length vs; acquired = true }

-- Three arrays of one length.
pub record AreColumns (p : Platform) (iv xv yv : PyBuffer) (ids xs ys : List ℕ) : Type 0 where
  pub ids_array : IsU64Array p iv ids
  pub xs_array : IsI32Array p xv xs
  pub ys_array : IsI32Array p yv ys
  pub xs_length : length ids ≡ length xs
  pub ys_length : length ids ≡ length ys

module _ {Memory : Type 0} (lib : Library Memory) (p : Platform) (iv xv yv : PyBuffer)
    (ids xs ys : List ℕ) (columns : AreColumns p iv xv yv ids xs ys) where
  open columns use {ids_array, xs_array, ys_array, xs_length, ys_length}

  abbrev buffers : MoveBuffers
  buffers = record { ids = acquired_as iv ids; xs = acquired_as xv xs; ys = acquired_as yv ys }

  rows-Reads :
      (w : Pointer) (j : ℕ) (v : Move)
      → get_elem? (rows ids xs ys) j ≡ some v
      → Reads lib p w buffers (0 + j) v
  rows-Reads w j v h =
      let (i, x, y, ei, ex, ey, e) = rows-get ids xs ys j v h in
      let start : 0 + j ≡ j = omega arith in
      rw (start, e)
        (
          read_u64-IsArray p (acquired_as iv ids) ids j i ids_array ei,
          read_i32-IsArray p (acquired_as xv xs) xs j x xs_array ex,
          read_i32-IsArray p (acquired_as yv ys) ys j y ys_array ey,
        )

  move_loop-rows :
      (w : Pointer) (m : Memory)
      → move_loop lib p w buffers (length ids) 0 m
        ≡ (let (r, m') = run_batch (move_op lib w) (rows ids xs ys) 0 m in (ok r, m'))
  move_loop-rows w m =
      subst
        (λ (n : ℕ).
          move_loop lib p w buffers n 0 m
          ≡ (let (r, m') = run_batch (move_op lib w) (rows ids xs ys) 0 m in (ok r, m')))
        (length-rows ids xs ys xs_length ys_length)
        (move_loop-run_batch lib p w buffers (rows ids xs ys) 0 m (rows-Reads w))

  move_body-rows :
      (s : Env Memory)
      → move_body lib p
          (some iv)
          (some xv)
          (some yv)
          (record { ids = zeroed; xs = zeroed; ys = zeroed })
          s
        ≡ (let (r, m) = run_batch (move_op lib s.self.world) (rows ids xs ys) 0 s.native in
            (ok r, buffers, record s { native = m; held = s.held + 1 + 1 + 1 }))
  unfolding move_body
  move_body-rows s =
      rw
        (
          checked-IsU64Array p "entity_ids" iv ids ids_array,
          checked-IsI32Array p "xs" xv xs xs_array,
          checked-IsI32Array p "ys" yv ys ys_array,
        )
        (rw move_loop-rows (ground arith))

  -- On an open World, with three one-dimensional arrays of one length, of native uint64 and twice
  -- int32 elements, move_many moves the entities of their rows one after the other up to the first
  -- that ds_entity_move refuses. It returns how many moves succeeded, or raises that refusal with
  -- the number; the moves in front of it stay done, and the World's fields are as before.
  pub move_many-Sequential :
      {w : ℕ} (s : Env Memory)
      → s.self.world ≡ some w
      → (r : DsResult) × (n : ℕ) × (m : Memory) × Sequential
          (move_op lib s.self.world)
          (rows ids xs ys)
          s.native
          r
          n
          m
        × (move_many lib p (parsed (some iv, some xv, some yv)) s
            ≡ (move_many_reply lib p r n, record s { native = m }))
  unfolding move_many ◌>>=◌ finish
  move_many-Sequential s h =
      let (r, n, m, run, e) =
        run_batch-Sequential (move_op lib s.self.world) (rows ids xs ys) 0 s.native in
      (r, n, m, run, ground (arith, h, e, move_body-rows s))
