-- ===== src/World/Scalar.antt =====
-- move_many against the calls of `move` that it stands for.
use libdense.Common.{ℕ, ◌≡◌, refl, List, [], ◌∷◌, some, arith, if◌then◌else◌}
use libdense.DenseSim.{Pointer, DsResult, is_ok, Library}
use libdense.Python.{Result, ok, err, parsed}
use libdense.Buffer.Bytes.{Platform}
use libdense.Buffer.Format.{PyBuffer}
use libdense.World.State.{Env, Method, pure, result_error, ◌>>=◌, ◌>>◌}
use libdense.World.Entities.{move}
use libdense.World.Batches.{move_many}
use libdense.World.Sequential.{Sequential, finished, applied, stopped}
use libdense.World.MoveMany.{Move, rows, move_op, AreColumns, move_many-Sequential, move_many_reply}

module _ {Memory : Type 0} (lib : Library Memory) where
  -- `for id, x, y in batch: world.move(id, x, y)`
  unfoldable pub move_each : List Move → Method Memory (Unit {0})
  unfolding ◌>>=◌
  move_each [] = pure tt
  move_each (v ∷ batch) = move lib (parsed v) >> move_each batch

  abbrev pub move_each_reply : DsResult → Result (Unit {0})
  move_each_reply r = if is_ok r then ok tt else err (result_error lib r "move failed")

  move_each-Sequential :
      {w : ℕ} {q : Pointer} {batch : List Move} {r : DsResult} {n : ℕ} {m m' : Memory}
      (s : Env Memory)
      → q ≡ some w
      → s.self.world ≡ q
      → s.native ≡ m
      → Sequential (move_op lib q) batch m r n m'
      → move_each batch s ≡ (move_each_reply r, record s { native = m' })
  unfolding move_each move ◌>>=◌
  move_each-Sequential s o h e finished = ground (arith, e)
  move_each-Sequential s o h e (applied {m₁} step run) =
      let later = move_each-Sequential (record s { native = m₁ }) o h refl run in
      ground (arith, o, h, e, step, later)
  move_each-Sequential s o h e (stopped step bad) = ground (arith, o, h, e, step, bad)

module _ {Memory : Type 0} (lib : Library Memory) (p : Platform) (iv xv yv : PyBuffer)
    (ids xs ys : List ℕ) (columns : AreColumns p iv xv yv ids xs ys) where
  -- On an open World, with three arrays of one length, move_many and a loop that calls `move` on
  -- each row until one raises end with one and the same World, memory and number of exports held,
  -- and the one raises where the other does, for the same ds_result.
  pub move_many-move_each :
      {w : ℕ} (s : Env Memory)
      → s.self.world ≡ some w
      → (r : DsResult) × (n : ℕ) × (s' : Env Memory) × (move_many lib p
            (parsed (some iv, some xv, some yv))
            s
          ≡ (move_many_reply lib p r n, s'))
        × (move_each lib (rows ids xs ys) s ≡ (move_each_reply lib r, s'))
  move_many-move_each s h =
      let (r, n, m, run, e) = move_many-Sequential lib p iv xv yv ids xs ys columns s h in
      (r, n, record s { native = m }, e, move_each-Sequential lib s h refl refl run)
