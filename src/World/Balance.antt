-- ===== src/World/Balance.antt =====
-- The buffers of a batch: whatever happens, every export that was acquired is released once.
use libdense.Common.{ℕ, ◌≡◌, refl, none, some, Option, String, arith}
use libdense.DenseSim.{DsResult, Library}
use libdense.Python.{Result, ok, err, fault, Parsed, parsed, rejected}
use libdense.Buffer.Bytes.{Platform}
use libdense.Buffer.Format.{PyBuffer}
use libdense.Buffer.Acquire.{release}
use libdense.World.State.{Env, ◌>>=◌}
use libdense.World.Batches.{
  finish, move_body, release_moves, move_many, no_moves, no_marks, MasksObject, an_int, other,
  mark_body, release_marks, mark_dirty_many,
}

-- The World's fields and the count of exports are as before.
abbrev pub IsRestored : {Memory : Type 0} → Env Memory → Env Memory → Type 0
IsRestored s s' = (s'.self ≡ s.self) × (s'.held ≡ s.held)

module _ {Memory : Type 0} (lib : Library Memory) (p : Platform) where
  pub finish-state :
      (name noun : String) (r : Result (DsResult × ℕ)) (s : Env Memory)
      → (finish lib p name noun r s).1 ≡ s
  unfolding finish ◌>>=◌
  finish-state name noun (ok (r, n)) s = ground arith
  finish-state name noun (err e) s = refl
  finish-state name noun fault s = refl

  move_body-IsRestored :
      (ids xs ys : Option PyBuffer) (s : Env Memory)
      → let (r, b, s') = move_body lib p ids xs ys no_moves s in IsRestored s (release_moves b s')
  unfolding move_body release
  move_body-IsRestored none xs ys s = ground arith
  move_body-IsRestored (some ids) none ys s = ground arith
  move_body-IsRestored (some ids) (some xs) none s = ground arith
  move_body-IsRestored (some ids) (some xs) (some ys) s = ground arith

  mark_body-IsRestored :
      (ids : Option PyBuffer) (masks : MasksObject) (s : Env Memory)
      → let (r, b, s') = mark_body lib p ids masks no_marks s in IsRestored s (release_marks b s')
  unfolding mark_body release
  mark_body-IsRestored none masks s = ground arith
  mark_body-IsRestored (some ids) (an_int (parsed m)) s = ground arith
  mark_body-IsRestored (some ids) (an_int (rejected e)) s = ground arith
  mark_body-IsRestored (some ids) (other none) s = ground arith
  mark_body-IsRestored (some ids) (other (some masks)) s = ground arith

  -- However move_many ends, it leaves the World's fields and the number of buffer exports held as
  -- they were: each buffer that was acquired is released once.
  pub move_many-IsRestored :
      (args : Parsed (Option PyBuffer × Option PyBuffer × Option PyBuffer)) (s : Env Memory)
      → IsRestored s (move_many lib p args s).1
  unfolding ◌>>=◌ move_many
  move_many-IsRestored (rejected e) s = ground arith
  move_many-IsRestored (parsed (ids, xs, ys)) s =
      let (r, b, s') = move_body lib p ids xs ys no_moves s in
      ground (
        arith,
        finish-state "move_many" " successful moves: " r (release_moves b s'),
        move_body-IsRestored ids xs ys s,
      )

  -- However mark_dirty_many ends, with a single mask or with an array of them, it leaves the
  -- World's fields and the number of buffer exports held as they were.
  pub mark_dirty_many-IsRestored :
      (args : Parsed (Option PyBuffer × MasksObject)) (s : Env Memory)
      → IsRestored s (mark_dirty_many lib p args s).1
  unfolding ◌>>=◌ mark_dirty_many
  mark_dirty_many-IsRestored (rejected e) s = ground arith
  mark_dirty_many-IsRestored (parsed (ids, masks)) s =
      let (r, b, s') = mark_body lib p ids masks no_marks s in
      ground (
        arith,
        finish-state "mark_dirty_many" " successful marks: " r (release_marks b s'),
        mark_body-IsRestored ids masks s,
      )
