-- ===== src/Sample/Rows.antt =====
-- The theorems on buffers and batches applied to three arrays of two elements; the second
-- entity cannot be moved, so that the batch stops at index 1.
use libdense.Common.{
  ℕ, zero, suc, ◌<◌, ◌-◌, ◌^◌, ◌≡◌, refl, none, some, arith, true, List, [], ◌∷◌, get_elem?,
}
use libdense.Common.Int.{pos}
use libdense.DenseSim.{DsResult}
use libdense.Python.{parsed}
use libdense.Buffer.Format.{PyBuffer, format_is_u64, format_is_i32}
use libdense.Buffer.Acquire.{DenseBuffer, read_u64, read_i32, signed32}
use libdense.Buffer.Arrays.{encode_all, IsU64Array, IsI32Array, read_u64-IsArray, read_i32-IsArray}
use libdense.World.State.{Env}
use libdense.World.Batches.{an_int, move_many, mark_dirty_many}
use libdense.World.Sequential.{Sequential}
use libdense.World.MoveMany.{rows, move_op, AreColumns, move_many_reply, move_many-Sequential}
use libdense.World.Balance.{IsRestored, move_many-IsRestored, mark_dirty_many-IsRestored}
use libdense.Sample.{platform, Heap, empty_heap, sample, renew}

abbrev pub entity_ids : List ℕ
entity_ids = 3 ∷ 7 ∷ []

abbrev pub coordinates : List ℕ
coordinates = 5 ∷ (2 ^ 32 - 1) ∷ []

abbrev pub ids_view : PyBuffer
ids_view = record {
  buf = encode_all platform 8 entity_ids;
  len = pos 16;
  itemsize = pos 8;
  ndim = 1;
  format = some (b'Q' ∷ []);
}

abbrev pub coordinates_view : PyBuffer
coordinates_view = record {
  buf = encode_all platform 4 coordinates;
  len = pos 8;
  itemsize = pos 4;
  ndim = 1;
  format = some (b'i' ∷ []);
}

abbrev pub open_env : Env Heap
open_env = record {
  self = record { world = some 0; view_generation = 1 };
  native = renew 0 empty_heap;
  held = 0;
}

entity_ids-fit : (i v : ℕ) → get_elem? entity_ids i ≡ some v → v < 256 ^ 8
entity_ids-fit zero v h = ground (arith, h)
entity_ids-fit (suc zero) v h = ground (arith, h)
entity_ids-fit (suc (suc i)) v h = cc

coordinates-fit : (i v : ℕ) → get_elem? coordinates i ≡ some v → v < 256 ^ 4
coordinates-fit zero v h = ground (arith, h)
coordinates-fit (suc zero) v h = ground (arith, h)
coordinates-fit (suc (suc i)) v h = cc

pub ids_view-IsU64Array : IsU64Array platform ids_view entity_ids
unfolding format_is_u64
ids_view-IsU64Array = record {
  stored = refl;
  fits = entity_ids-fit;
  flat = refl;
  typed = refl;
  sized = refl;
  long = refl;
}

pub coordinates_view-IsI32Array : IsI32Array platform coordinates_view coordinates
unfolding format_is_i32
coordinates_view-IsI32Array = record {
  stored = refl;
  fits = coordinates-fit;
  flat = refl;
  typed = refl;
  sized = refl;
  long = refl;
}

pub columns :
    AreColumns platform ids_view coordinates_view coordinates_view entity_ids coordinates
      coordinates
columns = record {
  ids_array = ids_view-IsU64Array;
  xs_array = coordinates_view-IsI32Array;
  ys_array = coordinates_view-IsI32Array;
  xs_length = refl;
  ys_length = refl;
}

abbrev ids_buffer : DenseBuffer
ids_buffer = record { view = ids_view; count = 2; acquired = true }

abbrev coordinates_buffer : DenseBuffer
coordinates_buffer = record { view = coordinates_view; count = 2; acquired = true }

read_u64-IsArray_example : read_u64 platform ids_buffer 1 ≡ some 7
read_u64-IsArray_example =
    read_u64-IsArray platform ids_buffer entity_ids 1 7 ids_view-IsU64Array refl

read_i32-IsArray_example : read_i32 platform coordinates_buffer 1 ≡ some (signed32 (2 ^ 32 - 1))
read_i32-IsArray_example =
    read_i32-IsArray platform coordinates_buffer coordinates 1 (2 ^ 32 - 1)
      coordinates_view-IsI32Array refl

move_many-Sequential_example :
    (r : DsResult) × (n : ℕ) × (m : Heap) × Sequential
      (move_op sample (some 0))
      (rows entity_ids coordinates coordinates)
      open_env.native
      r
      n
      m
    × (move_many sample platform
          (parsed (some ids_view, some coordinates_view, some coordinates_view))
          open_env
        ≡ (move_many_reply sample platform r n, record open_env { native = m }))
move_many-Sequential_example =
    move_many-Sequential sample platform ids_view coordinates_view coordinates_view entity_ids
      coordinates coordinates columns open_env refl

move_many-IsRestored_example :
    IsRestored open_env
      (move_many sample platform (parsed (some ids_view, some coordinates_view, none)) open_env).1
move_many-IsRestored_example =
    move_many-IsRestored sample platform (parsed (some ids_view, some coordinates_view, none))
      open_env

mark_dirty_many-IsRestored_example :
    IsRestored open_env
      (mark_dirty_many sample platform (parsed (some ids_view, an_int (parsed 1))) open_env).1
mark_dirty_many-IsRestored_example =
    mark_dirty_many-IsRestored sample platform (parsed (some ids_view, an_int (parsed 1))) open_env
