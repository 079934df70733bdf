-- ===== src/Session/Batches.antt =====
-- The batches invalidate no view either.
use mathlib.Core.Path.{subst}
use libdense.Common.{
  ℕ, zero, suc, ◌+◌, ◌≡◌, sym, ◌⊎◌, inl, inr, Bool, true, false, Option, some, none, arith,
  Option-cases, if◌then◌else◌,
}
use libdense.DenseSim.{Library}
use libdense.DenseSim.Lifetimes.{Lifetimes, WritersKeep, Keeps}
use libdense.Python.{Parsed, parsed, rejected}
use libdense.Buffer.Bytes.{Platform}
use libdense.Buffer.Format.{PyBuffer}
use libdense.Buffer.Acquire.{read_u64, read_i32}
use libdense.World.State.{Env, ◌>>=◌}
use libdense.World.Batches.{
  no_moves, no_marks, MoveBuffers, move_loop, move_body, move_many, MarkBuffers, MasksObject,
  an_int, other, mark_loop, mark_body, mark_dirty_many, release_moves, release_marks, current_mask,
}
use libdense.World.Balance.{finish-state, move_many-IsRestored, mark_dirty_many-IsRestored}
use libdense.Session.Stays.{Stays, Keeps-refl, Keeps-trans}

module _ {Memory : Type 0} (lib : Library Memory) (laws : Lifetimes lib)
    (keep : WritersKeep lib laws) (pf : Platform) (p : ℕ) where
  open laws use {IsLive}

  if-Keeps :
      {A : Type 0} (m : Memory) (c : Bool) (a b : A × Memory)
      → Keeps lib laws m a.1
      → Keeps lib laws m b.1
      → Keeps lib laws m (if c then a else b).1
  if-Keeps m true a b k l = k
  if-Keeps m false a b k l = l

  move_loop-Keeps :
      (b : MoveBuffers) (left k : ℕ) (m : Memory)
      → IsLive p m
      → Keeps lib laws m (move_loop lib pf (some p) b left k m).1
  unfolding move_loop
  move_loop-Keeps b zero k m l = Keeps-refl lib laws m
  move_loop-Keeps b (suc left) k m l = elim (Option-cases (read_u64 pf b.ids k)) [
    | inl e ↦ rw (e, move_loop) (Keeps-refl lib laws m)
    | inr (id, e) ↦
        rw (e, move_loop)
          (elim (Option-cases (read_i32 pf b.xs k)) [
            | inl e ↦ rw (e, move_loop) (Keeps-refl lib laws m)
            | inr (x, e) ↦
                rw (e, move_loop)
                  (elim (Option-cases (read_i32 pf b.ys k)) [
                    | inl e ↦ rw (e, move_loop) (Keeps-refl lib laws m)
                    | inr (y, e) ↦
                        rw (e, move_loop)
                          (let moved = keep.move p id x y m l in
                            if-Keeps m _ _ _
                              (Keeps-trans lib laws moved
                                (move_loop-Keeps b left (k + 1) _ (moved.live p l)))
                              moved)
                  ])
          ])
  ]

  mark_loop-Keeps :
      (scalar : Option ℕ) (b : MarkBuffers) (left k : ℕ) (m : Memory)
      → IsLive p m
      → Keeps lib laws m (mark_loop lib pf (some p) scalar b left k m).1
  unfolding mark_loop
  mark_loop-Keeps scalar b zero k m l = Keeps-refl lib laws m
  mark_loop-Keeps scalar b (suc left) k m l =
      elim (Option-cases (current_mask lib pf scalar b.masks k)) [
        | inl e ↦ rw (e, mark_loop) (Keeps-refl lib laws m)
        | inr (mask, e) ↦
            rw (e, mark_loop)
              (elim (Option-cases (read_u64 pf b.ids k)) [
                | inl e ↦ rw (e, mark_loop) (Keeps-refl lib laws m)
                | inr (id, e) ↦
                    rw (e, mark_loop)
                      (let marked = keep.mark_dirty p id mask m l in
                        if-Keeps m _ _ _
                          (Keeps-trans lib laws marked
                            (mark_loop-Keeps scalar b left (k + 1) _ (marked.live p l)))
                          marked)
              ])
      ]

  -- The memory after a batch is the one before its loop, or after it.
  move_body-native :
      (ids xs ys : Option PyBuffer) (s : Env Memory)
      → let (r, b, s') = move_body lib pf ids xs ys no_moves s in
        (s'.native ≡ s.native)
        ⊎ (s'.native ≡ (move_loop lib pf s.self.world b b.ids.count 0 s.native).1)
  unfolding move_body
  move_body-native none xs ys s = ground arith
  move_body-native (some ids) none ys s = ground arith
  move_body-native (some ids) (some xs) none s = ground arith
  move_body-native (some ids) (some xs) (some ys) s = ground arith

  -- The mask that the loop uses: the int, if there is one.
  abbrev scalar_of : MasksObject → Option ℕ
  scalar_of (an_int (parsed mask)) = some mask
  scalar_of _ = none

  mark_body-native :
      (ids : Option PyBuffer) (masks : MasksObject) (s : Env Memory)
      → let (r, b, s') = mark_body lib pf ids masks no_marks s in
        (s'.native ≡ s.native)
        ⊎ (s'.native ≡ (mark_loop lib pf s.self.world (scalar_of masks) b b.ids.count 0 s.native).1)
  unfolding mark_body
  mark_body-native none masks s = ground arith
  mark_body-native (some ids) (an_int (parsed m)) s = ground arith
  mark_body-native (some ids) (an_int (rejected e)) s = ground arith
  mark_body-native (some ids) (other none) s = ground arith
  mark_body-native (some ids) (other (some masks)) s = ground arith

  module _ (s : Env Memory) (h : s.self.world ≡ some p) (l : IsLive p s.native) where
    move_body-Keeps :
        (ids xs ys : Option PyBuffer)
        → Keeps lib laws s.native (move_body lib pf ids xs ys no_moves s).2.native
    move_body-Keeps ids xs ys = elim (move_body-native ids xs ys s) [
      | inl e ↦ rw e (Keeps-refl lib laws s.native)
      | inr e ↦ rw e (rw h (move_loop-Keeps _ _ 0 s.native l))
    ]

    mark_body-Keeps :
        (ids : Option PyBuffer) (masks : MasksObject)
        → Keeps lib laws s.native (mark_body lib pf ids masks no_marks s).2.native
    mark_body-Keeps ids masks = elim (mark_body-native ids masks s) [
      | inl e ↦ rw e (Keeps-refl lib laws s.native)
      | inr e ↦ rw e (rw h (mark_loop-Keeps _ _ _ 0 s.native l))
    ]

    move_many-native :
        (ids xs ys : Option PyBuffer)
        → (move_many lib pf (parsed (ids, xs, ys)) s).1.native
          ≡ (move_body lib pf ids xs ys no_moves s).2.native
    unfolding move_many ◌>>=◌
    move_many-native ids xs ys =
        let (r, b, s') = move_body lib pf ids xs ys no_moves s in
        ground
          (arith, h, finish-state lib pf "move_many" " successful moves: " r (release_moves b s'))

    mark_dirty_many-native :
        (ids : Option PyBuffer) (masks : MasksObject)
        → (mark_dirty_many lib pf (parsed (ids, masks)) s).1.native
          ≡ (mark_body lib pf ids masks no_marks s).2.native
    unfolding mark_dirty_many ◌>>=◌
    mark_dirty_many-native ids masks =
        let (r, b, s') = mark_body lib pf ids masks no_marks s in
        ground (
          arith,
          h,
          finish-state lib pf "mark_dirty_many" " successful marks: " r (release_marks b s'),
        )

    move_many-Keeps :
        (args : Parsed (Option PyBuffer × Option PyBuffer × Option PyBuffer))
        → Keeps lib laws s.native (move_many lib pf args s).1.native
    unfolding move_many ◌>>=◌
    move_many-Keeps (rejected e) = Keeps-refl lib laws s.native
    move_many-Keeps (parsed (ids, xs, ys)) =
        subst (Keeps lib laws s.native) (sym (move_many-native ids xs ys))
          (move_body-Keeps ids xs ys)

    mark_dirty_many-Keeps :
        (args : Parsed (Option PyBuffer × MasksObject))
        → Keeps lib laws s.native (mark_dirty_many lib pf args s).1.native
    unfolding mark_dirty_many ◌>>=◌
    mark_dirty_many-Keeps (rejected e) = Keeps-refl lib laws s.native
    mark_dirty_many-Keeps (parsed (ids, masks)) =
        subst (Keeps lib laws s.native) (sym (mark_dirty_many-native ids masks))
          (mark_body-Keeps ids masks)

  pub move_many-Stays :
      (args : Parsed (Option PyBuffer × Option PyBuffer × Option PyBuffer))
      → Stays lib laws p (move_many lib pf args)
  move_many-Stays args = record {
    at = λ s h l. (move_many-Keeps s h l args, (move_many-IsRestored lib pf args s).0);
  }

  pub mark_dirty_many-Stays :
      (args : Parsed (Option PyBuffer × MasksObject))
      → Stays lib laws p (mark_dirty_many lib pf args)
  mark_dirty_many-Stays args = record {
    at = λ s h l. (mark_dirty_many-Keeps s h l args, (mark_dirty_many-IsRestored lib pf args s).0);
  }
