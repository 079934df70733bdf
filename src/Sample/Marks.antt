-- ===== src/Sample/Marks.antt =====
-- The theorems on mark_dirty_many, on refused lengths and on the scalar calls, applied to the
-- arrays of Sample/Rows.
use libdense.Common.{ℕ, zero, suc, ◌<◌, ◌^◌, ◌≡◌, refl, some, arith, List, [], ◌∷◌, get_elem?, inl}
use libdense.Common.Int.{pos}
use libdense.DenseSim.{DsResult}
use libdense.Python.{parsed, err}
use libdense.Buffer.Format.{PyBuffer, format_is_u64}
use libdense.Buffer.Arrays.{encode_all, IsU64Array}
use libdense.World.State.{Env}
use libdense.World.Batches.{an_int, other, move_many, mark_dirty_many, length_error}
use libdense.World.Sequential.{Sequential}
use libdense.World.MoveMany.{rows, move_many_reply}
use libdense.World.MarkMany.{
  pairs, with_mask, mark_op, mark_many_reply, mark_dirty_many-with_mask, mark_dirty_many-Sequential,
}
use libdense.World.Lengths.{move_many-length_error, mark_dirty_many-length_error}
use libdense.World.Scalar.{move_each, move_each_reply, move_many-move_each}
use libdense.Sample.{platform, Heap, sample}
use libdense.Sample.Rows.{
  entity_ids, coordinates, ids_view, coordinates_view, open_env, ids_view-IsU64Array,
  coordinates_view-IsI32Array, columns,
}

-- One element.
abbrev short : List ℕ
short = 9 ∷ []

abbrev short_view : PyBuffer
short_view = record {
  buf = encode_all platform 8 short;
  len = pos 8;
  itemsize = pos 8;
  ndim = 1;
  format = some (b'Q' ∷ []);
}

short-fit : (i v : ℕ) → get_elem? short i ≡ some v → v < 256 ^ 8
short-fit zero v h = ground (arith, h)
short-fit (suc i) v h = cc

short_view-IsU64Array : IsU64Array platform short_view short
unfolding format_is_u64
short_view-IsU64Array = record {
  stored = refl;
  fits = short-fit;
  flat = refl;
  typed = refl;
  sized = refl;
  long = refl;
}

mark_dirty_many-with_mask_example :
    (r : DsResult) × (n : ℕ) × (m : Heap) × Sequential
      (mark_op sample (some 0))
      (with_mask 5 entity_ids)
      open_env.native
      r
      n
      m
    × (mark_dirty_many sample platform (parsed (some ids_view, an_int (parsed 5))) open_env
        ≡ (mark_many_reply sample platform r n, record open_env { native = m }))
mark_dirty_many-with_mask_example =
    mark_dirty_many-with_mask sample platform ids_view entity_ids ids_view-IsU64Array open_env 5
      refl

mark_dirty_many-Sequential_example :
    (r : DsResult) × (n : ℕ) × (m : Heap) × Sequential
      (mark_op sample (some 0))
      (pairs entity_ids entity_ids)
      open_env.native
      r
      n
      m
    × (mark_dirty_many sample platform (parsed (some ids_view, other (some ids_view))) open_env
        ≡ (mark_many_reply sample platform r n, record open_env { native = m }))
mark_dirty_many-Sequential_example =
    mark_dirty_many-Sequential sample platform ids_view entity_ids ids_view-IsU64Array open_env
      ids_view entity_ids ids_view-IsU64Array refl refl

mark_dirty_many-length_error_example :
    mark_dirty_many sample platform (parsed (some ids_view, other (some short_view))) open_env
    ≡ (err (length_error "entity_ids and channel_masks"), open_env)
mark_dirty_many-length_error_example =
    mark_dirty_many-length_error sample platform open_env refl ids_view entity_ids
      ids_view-IsU64Array short_view short short_view-IsU64Array (omega arith)

move_many-length_error_example :
    move_many sample platform
      (parsed (some short_view, some coordinates_view, some coordinates_view))
      open_env
    ≡ (err (length_error "entity_ids, xs, and ys"), open_env)
move_many-length_error_example =
    move_many-length_error sample platform open_env refl short_view short short_view-IsU64Array
      coordinates_view coordinates_view coordinates coordinates coordinates_view-IsI32Array
      coordinates_view-IsI32Array (inl (omega arith))

move_many-move_each_example :
    (r : DsResult) × (n : ℕ) × (s' : Env Heap) × (move_many sample platform
        (parsed (some ids_view, some coordinates_view, some coordinates_view))
        open_env
      ≡ (move_many_reply sample platform r n, s'))
    × (move_each sample (rows entity_ids coordinates coordinates) open_env
        ≡ (move_each_reply sample r, s'))
move_many-move_each_example =
    move_many-move_each sample platform ids_view coordinates_view coordinates_view entity_ids
      coordinates coordinates columns open_env refl
