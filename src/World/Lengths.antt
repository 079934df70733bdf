-- ===== src/World/Lengths.antt =====
-- The batches on arrays of different lengths.
use libdense.Common.{ℕ, ◌≡◌, ◌≢◌, ◌⊎◌, inl, inr, List, some, arith, length, ◌==◌, true, not, ◌||◌}
use libdense.DenseSim.{Library}
use libdense.Python.{err, parsed}
use libdense.Buffer.Bytes.{Platform}
use libdense.Buffer.Format.{PyBuffer}
use libdense.Buffer.Acquire.{release}
use libdense.Buffer.Arrays.{IsU64Array, IsI32Array, checked-IsU64Array, checked-IsI32Array}
use libdense.World.State.{Env, ◌>>=◌}
use libdense.World.Batches.{
  other, move_body, move_many, mark_body, mark_dirty_many, length_error, finish,
}

-- Three numbers that are not all equal to the first.
abbrev Differ : ℕ → ℕ → ℕ → Type 0
Differ a b c = (a ≢ b) ⊎ (a ≢ c)

Differ-test : (a b c : ℕ) → Differ a b c → (not (a == b) || not (a == c)) ≡ true
Differ-test a b c (inl h) = ground arith
Differ-test a b c (inr h) = ground arith

module _ {Memory : Type 0} (lib : Library Memory) (p : Platform) {w : ℕ} (s : Env Memory)
    (open_at : s.self.world ≡ some w) (iv : PyBuffer) (ids : List ℕ)
    (ids_array : IsU64Array p iv ids) where
  -- On an open World, with arrays of native uint64 and twice int32 elements that are not all of
  -- one length, move_many raises ValueError; no entity is moved, and every export is released.
  pub move_many-length_error :
      (xv yv : PyBuffer) (xs ys : List ℕ)
      → IsI32Array p xv xs
      → IsI32Array p yv ys
      → (length ids ≢ length xs) ⊎ (length ids ≢ length ys)
      → move_many lib p (parsed (some iv, some xv, some yv)) s
        ≡ (err (length_error "entity_ids, xs, and ys"), s)
  unfolding move_many move_body ◌>>=◌ finish release
  move_many-length_error xv yv xs ys xs_array ys_array differ = ground (
    arith,
    open_at,
    checked-IsU64Array p "entity_ids" iv ids ids_array,
    checked-IsI32Array p "xs" xv xs xs_array,
    checked-IsI32Array p "ys" yv ys ys_array,
    Differ-test (length ids) (length xs) (length ys) differ,
  )

  -- On an open World, with two arrays of native uint64 elements of different lengths,
  -- mark_dirty_many raises ValueError; no entity is marked, and every export is released.
  pub mark_dirty_many-length_error :
      (mv : PyBuffer) (masks : List ℕ)
      → IsU64Array p mv masks
      → length ids ≢ length masks
      → mark_dirty_many lib p (parsed (some iv, other (some mv))) s
        ≡ (err (length_error "entity_ids and channel_masks"), s)
  unfolding mark_dirty_many mark_body ◌>>=◌ finish release
  mark_dirty_many-length_error mv masks masks_array differ = ground (
    arith,
    open_at,
    checked-IsU64Array p "entity_ids" iv ids ids_array,
    checked-IsU64Array p "channel_masks" mv masks masks_array,
  )
