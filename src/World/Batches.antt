-- ===== src/World/Batches.antt =====
-- move_many and mark_dirty_many: sequential batches over native buffers.
use libdense.Common.{
  ℕ, zero, suc, ◌+◌, true, false, not, ◌||◌, String, Option, none, some, [], ◌∷◌, ◌==◌,
  if◌then◌else◌,
}
use libdense.DenseSim.{Pointer, ChannelMask, DsResult, ds_ok, is_ok, Library}
use libdense.Python.{ExcType, text, unsigned, Exc, Result, ok, err, fault, Parsed, parsed, Value}
use libdense.Buffer.Bytes.{Platform}
use libdense.Buffer.Format.{PyBuffer}
use libdense.Buffer.Acquire.{DenseBuffer, zeroed, acquire, release, read_u64, read_i32}
use libdense.World.State.{Env, Method, raise, ◌>>=◌, ◌>>◌, parse, require_open, py_long}

abbrev pub length_error : String → Exc
length_error names = record {
  class = ExcType.value_error;
  message = text names ∷ text " must contain the same number of elements" ∷ [];
}

abbrev pub not_rolled_back : String
not_rolled_back = "; batch operations are sequential and are not rolled back"

module _ {Memory : Type 0} where
  -- `if (dense_buffer_acquire(...) < 0) { goto error; }`, the buffer being one of a struct of them.
  abbrev pub and_then :
      {A B : Type 0}
      → Result A × B × Env Memory
      → (B → Env Memory → Result (DsResult × ℕ) × B × Env Memory)
      → Result (DsResult × ℕ) × B × Env Memory
  and_then (ok a, bufs, s) k = k bufs s
  and_then (err e, bufs, s) k = (err e, bufs, s)
  and_then (fault, bufs, s) k = (fault, bufs, s)

-- The local buffers of DenseWorld_move_many.
pub record MoveBuffers : Type 0 where
  pub ids : DenseBuffer
  pub xs : DenseBuffer
  pub ys : DenseBuffer

-- The local buffers of DenseWorld_mark_dirty_many.
pub record MarkBuffers : Type 0 where
  pub ids : DenseBuffer
  pub masks : DenseBuffer

abbrev pub no_moves : MoveBuffers
no_moves = record { ids = zeroed; xs = zeroed; ys = zeroed }

abbrev pub no_marks : MarkBuffers
no_marks = record { ids = zeroed; masks = zeroed }

module _ {Memory : Type 0} where
  -- The releases at the end of move_many and of mark_dirty_many, on every path.
  abbrev pub release_moves : MoveBuffers → Env Memory → Env Memory
  release_moves b s = (release b.ids (release b.xs (release b.ys s).1).1).1

  abbrev pub release_marks : MarkBuffers → Env Memory → Env Memory
  release_marks b s = (release b.ids (release b.masks s).1).1

-- `masks_object`: an int, converted by PyLong_AsUnsignedLongLong, or an object that is asked for
-- a buffer.
pub data MasksObject : Type 0 where
  an_int : Parsed ChannelMask → MasksObject
  other : Option PyBuffer → MasksObject

module _ {Memory : Type 0} (lib : Library Memory) (p : Platform) where
  -- The message that ends a batch which stopped at `processed`.
  abbrev pub batch_error : String → String → DsResult → ℕ → Exc
  batch_error name noun r processed = record {
    class = ExcType.dense_sim_error;
    message =
        text name
        ∷ text " failed at index "
        ∷ unsigned processed
        ∷ text " after "
        ∷ unsigned processed
        ∷ text noun
        ∷ text (lib.result_string r)
        ∷ text not_rolled_back
        ∷ [];
  }

  -- What follows the releases: `result` and `processed` as the loop left them, or the exception
  -- with which the code went to `error`.
  unfoldable pub finish : String → String → Result (DsResult × ℕ) → Method Memory Value
  finish name noun (ok (r, processed)) =
      if is_ok r then py_long processed else raise (batch_error name noun r processed)
  finish name noun (err e) = raise e
  finish name noun fault = λ s. (fault, s)

  -- The loop of move_many, with the rounds that are left.
  unfoldable pub move_loop :
      Pointer → MoveBuffers → ℕ → (processed : ℕ) → Memory → Result (DsResult × ℕ) × Memory
  move_loop w b zero processed m = (ok (ds_ok, processed), m)
  move_loop w b (suc left) processed m = elim (read_u64 p b.ids processed) [
    | none ↦ (fault, m)
    | some id ↦ elim (read_i32 p b.xs processed) [
      | none ↦ (fault, m)
      | some x ↦ elim (read_i32 p b.ys processed) [
        | none ↦ (fault, m)
        | some y ↦
            let (r, m') = lib.entity_move w id x y m in
            let rest = move_loop w b left (processed + 1) m' in
            if is_ok r then rest else (ok (r, processed), m')
      ]
    ]
  ]

  -- DenseWorld_move_many up to the label `error` or the releases in front of the result's test.
  unfoldable pub move_body :
      Option PyBuffer
      → Option PyBuffer
      → Option PyBuffer
      → MoveBuffers
      → Env Memory
      → Result (DsResult × ℕ) × MoveBuffers × Env Memory
  unfolding acquire move_loop
  move_body ids_object xs_object ys_object b₀ s₀ =
      let (r₁, ids, s₁) = acquire p ids_object true "entity_ids" s₀ in
      and_then (r₁, record b₀ { ids = ids }, s₁)
        λ b s.
          let (r₂, xs, s₂) = acquire p xs_object false "xs" s in
          and_then (r₂, record b { xs = xs }, s₂)
            λ b s.
              let (r₃, ys, s₃) = acquire p ys_object false "ys" s in
              and_then (r₃, record b { ys = ys }, s₃)
                λ b s.
                  if not (b.ids.count == b.xs.count) || not (b.ids.count == b.ys.count)
                  then (err (length_error "entity_ids, xs, and ys"), b, s)
                  else let (r, m) = move_loop s.self.world b b.ids.count 0 s.native in
                    (r, b, record s { native = m })

  -- DenseWorld_move_many
  unfoldable pub move_many :
      Parsed (Option PyBuffer × Option PyBuffer × Option PyBuffer) → Method Memory Value
  unfolding release ◌>>=◌
  move_many args = do
    (ids_object, xs_object, ys_object) ← parse args
    require_open
    λ s.
        let (r, b, s') = move_body ids_object xs_object ys_object no_moves s in
        finish "move_many" " successful moves: " r (release_moves b s')

  -- `scalar_mask ? channel_mask : dense_buffer_read_u64(&masks, processed)`, where `scalar` is
  -- the parsed mask if there is one.
  abbrev pub current_mask : Option ChannelMask → DenseBuffer → ℕ → Option ChannelMask
  current_mask none masks processed = read_u64 p masks processed
  current_mask (some mask) masks processed = some mask

  -- The loop of mark_dirty_many, with the rounds that are left.
  unfoldable pub mark_loop :
      Pointer
      → Option ChannelMask
      → MarkBuffers
      → ℕ
      → (processed : ℕ) → Memory
      → Result (DsResult × ℕ) × Memory
  mark_loop w scalar b zero processed m = (ok (ds_ok, processed), m)
  mark_loop w scalar b (suc left) processed m = elim (current_mask scalar b.masks processed) [
    | none ↦ (fault, m)
    | some mask ↦ elim (read_u64 p b.ids processed) [
      | none ↦ (fault, m)
      | some id ↦
          let (r, m') = lib.entity_mark_dirty w id mask m in
          let rest = mark_loop w scalar b left (processed + 1) m' in
          if is_ok r then rest else (ok (r, processed), m')
    ]
  ]

  abbrev run_marks :
      Option ChannelMask
      → MarkBuffers
      → Env Memory
      → Result (DsResult × ℕ) × MarkBuffers × Env Memory
  run_marks scalar b s =
      let (r, m) = mark_loop s.self.world scalar b b.ids.count 0 s.native in
      (r, b, record s { native = m })

  abbrev with_masks :
      MasksObject → MarkBuffers → Env Memory → Result (DsResult × ℕ) × MarkBuffers × Env Memory
  with_masks (an_int (parsed mask)) b s = run_marks (some mask) b s
  with_masks (an_int (Parsed.rejected e)) b s = (err e, b, s)
  with_masks (other object) b₁ s₁ =
      let (r₂, masks, s₂) = acquire p object true "channel_masks" s₁ in
      and_then (r₂, record b₁ { masks = masks }, s₂)
        λ b s.
          if not (b.ids.count == b.masks.count)
          then (err (length_error "entity_ids and channel_masks"), b, s)
          else run_marks none b s

  -- DenseWorld_mark_dirty_many up to the label `error` or the releases.
  unfoldable pub mark_body :
      Option PyBuffer
      → MasksObject
      → MarkBuffers
      → Env Memory
      → Result (DsResult × ℕ) × MarkBuffers × Env Memory
  unfolding acquire mark_loop
  mark_body ids_object masks_object b₀ s₀ =
      let (r₁, ids, s₁) = acquire p ids_object true "entity_ids" s₀ in
      and_then (r₁, record b₀ { ids = ids }, s₁) λ b s. with_masks masks_object b s

  -- DenseWorld_mark_dirty_many
  unfoldable pub mark_dirty_many : Parsed (Option PyBuffer × MasksObject) → Method Memory Value
  unfolding release ◌>>=◌
  mark_dirty_many args = do
    (ids_object, masks_object) ← parse args
    require_open
    λ s.
        let (r, b, s') = mark_body ids_object masks_object no_marks s in
        finish "mark_dirty_many" " successful marks: " r (release_marks b s')
