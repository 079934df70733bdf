-- ===== src/World/MarkMany.antt =====
-- mark_dirty_many runs ds_entity_mark_dirty on its rows in order, with one mask or with one each.
use mathlib.Core.Path.{subst}
use libdense.Common.{
  ℕ, zero, suc, ◌+◌, ◌≡◌, refl, ap, List, [], ◌∷◌, Option, none, some, arith, length, get_elem?,
  if◌then◌else◌,
}
use libdense.Common.Int.{pos}
use libdense.DenseSim.{EntityId, ChannelMask, Pointer, DsResult, is_ok, Library}
use libdense.Python.{Result, ok, err, parsed, Value, scalar, integer}
use libdense.Buffer.Bytes.{Platform}
use libdense.Buffer.Format.{PyBuffer}
use libdense.Buffer.Acquire.{zeroed, read_u64}
use libdense.Buffer.Arrays.{IsU64Array, read_u64-IsArray, checked-IsU64Array}
use libdense.World.State.{Env, ◌>>=◌}
use libdense.World.Batches.{
  MarkBuffers, an_int, other, no_marks, current_mask, mark_loop, mark_body, mark_dirty_many,
  batch_error, finish,
}
use libdense.World.Sequential.{Sequential, run_batch, run_batch-Sequential}
use libdense.World.MoveMany.{acquired_as}

abbrev pub Mark : Type 0
Mark = EntityId × ChannelMask

-- The rows of two arrays, and of an array with one mask for all.
abbrev pub pairs : List ℕ → List ℕ → List Mark
pairs (i ∷ ids) (m ∷ masks) = (i, m) ∷ pairs ids masks
pairs _ _ = []

abbrev pub with_mask : ChannelMask → List ℕ → List Mark
with_mask mask [] = []
with_mask mask (i ∷ ids) = (i, mask) ∷ with_mask mask ids

pairs-get :
    (ids masks : List ℕ) (j : ℕ) (v : Mark)
    → get_elem? (pairs ids masks) j ≡ some v
    → (get_elem? ids j ≡ some v.0) × (get_elem? masks j ≡ some v.1)
pairs-get (i ∷ ids) (m ∷ masks) zero v h = (cc, cc)
pairs-get (i ∷ ids) (m ∷ masks) (suc j) v h = pairs-get ids masks j v h
pairs-get [] masks j v h = cc
pairs-get (i ∷ ids) [] j v h = cc

with_mask-get :
    (mask : ChannelMask) (ids : List ℕ) (j : ℕ) (v : Mark)
    → get_elem? (with_mask mask ids) j ≡ some v
    → (get_elem? ids j ≡ some v.0) × (mask ≡ v.1)
with_mask-get mask (i ∷ ids) zero v h = (cc, cc)
with_mask-get mask (i ∷ ids) (suc j) v h = with_mask-get mask ids j v h
with_mask-get mask [] j v h = cc

length-pairs :
    (ids masks : List ℕ) → length ids ≡ length masks → length (pairs ids masks) ≡ length ids
length-pairs (i ∷ ids) (m ∷ masks) h = ap suc (length-pairs ids masks (omega arith))
length-pairs [] masks h = refl
length-pairs (i ∷ ids) [] h = absurd (omega arith)

length-with_mask : (mask : ChannelMask) (ids : List ℕ) → length (with_mask mask ids) ≡ length ids
length-with_mask mask [] = refl
length-with_mask mask (i ∷ ids) = ap suc (length-with_mask mask ids)

module _ {Memory : Type 0} (lib : Library Memory) where
  abbrev pub mark_op : Pointer → Mark → Memory → DsResult × Memory
  mark_op w (id, mask) = lib.entity_mark_dirty w id mask

module _ {Memory : Type 0} (lib : Library Memory) (p : Platform) where
  -- What mark_dirty_many returns for a batch that ended with `r` after `n` marks.
  abbrev pub mark_many_reply : DsResult → ℕ → Result Value
  mark_many_reply r n =
      if is_ok r
      then ok (scalar (integer (pos n)))
      else err (batch_error lib p "mark_dirty_many" " successful marks: " r n)

  module _ (w : Pointer) (single : Option ChannelMask) (b : MarkBuffers) where
    -- The reads of round `k` give the row `v`.
    abbrev Reads : ℕ → Mark → Type 0
    Reads k v = (read_u64 p b.ids k ≡ some v.0) × (current_mask lib p single b.masks k ≡ some v.1)

    mark_loop-run_batch :
        (batch : List Mark) (k : ℕ) (m : Memory)
        → ((j : ℕ) (v : Mark) → get_elem? batch j ≡ some v → Reads (k + j) v)
        → mark_loop lib p w single b (length batch) k m
          ≡ (let (r, m') = run_batch (mark_op lib w) batch k m in (ok r, m'))
    unfolding mark_loop run_batch
    mark_loop-run_batch [] k m reads = refl
    mark_loop-run_batch (v ∷ batch) k m reads =
        let here : Reads k v = subst (λ (n : ℕ). Reads n v) (omega arith) (reads 0 v refl) in
        let (r, m') = mark_op lib w v m in
        let later =
          mark_loop-run_batch batch (k + 1) m'
            λ j u e. subst (λ (n : ℕ). Reads n u) (omega arith) (reads (suc j) u e) in
        ground (arith, later)

  -- The state in which a batch over `n` rounds leaves the loop, by the list that it reads.
  loop-length :
      (w : Pointer) (single : Option ChannelMask) (b : MarkBuffers) (batch : List Mark) (n : ℕ)
      (m : Memory)
      → length batch ≡ n
      → ((j : ℕ) (v : Mark) → get_elem? batch j ≡ some v → Reads w single b j v)
      → mark_loop lib p w single b n 0 m
        ≡ (let (r, m') = run_batch (mark_op lib w) batch 0 m in (ok r, m'))
  loop-length w single b batch n m long reads =
      subst
        (λ (n : ℕ).
          mark_loop lib p w single b n 0 m
          ≡ (let (r, m') = run_batch (mark_op lib w) batch 0 m in (ok r, m')))
        long
        (mark_loop-run_batch w single b batch 0 m
          λ j v e. subst (λ (k : ℕ). Reads w single b k v) (omega arith) (reads j v e))

  module _ (iv : PyBuffer) (ids : List ℕ) (ids_array : IsU64Array p iv ids) (s : Env Memory) where
    mark_body-with_mask :
        (mask : ChannelMask)
        → mark_body lib p (some iv) (an_int (parsed mask)) no_marks s ≡ (
            let (r, m) = run_batch (mark_op lib s.self.world) (with_mask mask ids) 0 s.native in
            (
              ok r,
              record { ids = acquired_as iv ids; masks = zeroed },
              record s { native = m; held = s.held + 1 },
            ))
    unfolding mark_body
    mark_body-with_mask mask =
        let b : MarkBuffers = record { ids = acquired_as iv ids; masks = zeroed } in
        rw (checked-IsU64Array p "entity_ids" iv ids ids_array) (
          rw
            (loop-length s.self.world (some mask) b (with_mask mask ids) (length ids) s.native
              (length-with_mask mask ids)
              λ j v e.
                let (id, same) = with_mask-get mask ids j v e in
                (read_u64-IsArray p (acquired_as iv ids) ids j v.0 ids_array id, cc))
            (ground arith))

    mark_body-pairs :
        (mv : PyBuffer) (masks : List ℕ)
        → IsU64Array p mv masks
        → length ids ≡ length masks
        → mark_body lib p (some iv) (other (some mv)) no_marks s ≡ (
            let (r, m) = run_batch (mark_op lib s.self.world) (pairs ids masks) 0 s.native in
            (
              ok r,
              record { ids = acquired_as iv ids; masks = acquired_as mv masks },
              record s { native = m; held = s.held + 1 + 1 },
            ))
    unfolding mark_body
    mark_body-pairs mv masks masks_array long =
        let b : MarkBuffers = record { ids = acquired_as iv ids; masks = acquired_as mv masks } in
        rw
          (
            checked-IsU64Array p "entity_ids" iv ids ids_array,
            checked-IsU64Array p "channel_masks" mv masks masks_array,
          )
          (rw
            (loop-length s.self.world none b (pairs ids masks) (length ids) s.native
              (length-pairs ids masks long)
              λ j v e.
                let (id, mask) = pairs-get ids masks j v e in
                (
                  read_u64-IsArray p (acquired_as iv ids) ids j v.0 ids_array id,
                  read_u64-IsArray p (acquired_as mv masks) masks j v.1 masks_array mask,
                ))
            (ground arith))

    -- On an open World, with an array of native uint64 entities and an int that converts, the call
    -- marks the entities with that mask one after the other up to the first that
    -- ds_entity_mark_dirty refuses. It returns how many marks succeeded, or raises that refusal
    -- with the number; the World's fields and the number of exports held are as before.
    pub mark_dirty_many-with_mask :
        {w : ℕ} (mask : ChannelMask)
        → s.self.world ≡ some w
        → (r : DsResult) × (n : ℕ) × (m : Memory) × Sequential
            (mark_op lib s.self.world)
            (with_mask mask ids)
            s.native
            r
            n
            m
          × (mark_dirty_many lib p (parsed (some iv, an_int (parsed mask))) s
              ≡ (mark_many_reply r n, record s { native = m }))
    unfolding mark_dirty_many ◌>>=◌ finish
    mark_dirty_many-with_mask mask h =
        let (r, n, m, run, e) =
          run_batch-Sequential (mark_op lib s.self.world) (with_mask mask ids) 0 s.native in
        (r, n, m, run, ground (arith, h, e, mark_body-with_mask mask))

    -- On an open World, with two arrays of native uint64 elements of one length, the call marks
    -- each entity with the mask of its row, one after the other up to the first that
    -- ds_entity_mark_dirty refuses. It returns how many marks succeeded, or raises that refusal
    -- with the number; the World's fields and the number of exports held are as before.
    pub mark_dirty_many-Sequential :
        {w : ℕ} (mv : PyBuffer) (masks : List ℕ)
        → IsU64Array p mv masks
        → length ids ≡ length masks
        → s.self.world ≡ some w
        → (r : DsResult) × (n : ℕ) × (m : Memory) × Sequential
            (mark_op lib s.self.world)
            (pairs ids masks)
            s.native
            r
            n
            m
          × (mark_dirty_many lib p (parsed (some iv, other (some mv))) s
              ≡ (mark_many_reply r n, record s { native = m }))
    unfolding mark_dirty_many ◌>>=◌ finish
    mark_dirty_many-Sequential mv masks masks_array long h =
        let (r, n, m, run, e) =
          run_batch-Sequential (mark_op lib s.self.world) (pairs ids masks) 0 s.native in
        (r, n, m, run, ground (arith, h, e, mark_body-pairs mv masks masks_array long))
