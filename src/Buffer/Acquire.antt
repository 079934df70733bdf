-- ===== src/Buffer/Acquire.antt =====
-- The struct DenseBuffer: dense_buffer_acquire, dense_buffer_release and the element reads.
use libdense.Common.{
  ℕ, ◌+◌, ◌-◌, ◌*◌, ◌/◌, ◌%◌, ◌^◌, Bool, true, false, not, ◌||◌, String, Option, none, some, List,
  [], ◌∷◌, ltb, leb, ◌==◌, if◌then◌else◌, length, take, drop,
}
use libdense.Common.Int.{ℤ, pos, pos_part, ltb_ℤ, sub_ℕ}
use libdense.Buffer.Bytes.{Platform, decode}
use libdense.Buffer.Format.{PyBuffer, format_is_u64, format_is_i32}
use libdense.Python.{ExcType, Part, text, bytes, signed, Exc, Result, ok, err, fault}
use libdense.World.State.{Env}

pub record DenseBuffer : Type 0 where
  pub view : PyBuffer
  pub count : ℕ
  pub acquired : Bool

-- `memset(buffer, 0, sizeof(*buffer))`
abbrev pub zeroed : DenseBuffer
zeroed = record {
  view = record { buf = []; len = pos 0; itemsize = pos 0; ndim = 0; format = none };
  count = 0;
  acquired = false;
}

abbrev pub named_error : ExcType → String → String → Exc
named_error class name rest = record { class = class; message = text name ∷ text rest ∷ [] }

abbrev pub not_positive : ℤ → Bool
not_positive n = ltb_ℤ n (pos 1)

abbrev pub is_negative : ℤ → Bool
is_negative n = ltb_ℤ n (pos 0)

abbrev pub format_text : Option (List ℕ) → Part
format_text none = text "<none>"
format_text (some cs) = bytes cs

-- The checks of dense_buffer_acquire on the view that it has got, in their order.
unfoldable pub checked : Platform → Bool → String → PyBuffer → Result ℕ
checked p expect_u64 name view =
    if not (view.ndim == 1)
    then err (named_error ExcType.value_error name " must be one-dimensional")
    else if (if expect_u64 then not (format_is_u64 p view) else not (format_is_i32 p view))
    then err (record {
      class = ExcType.type_error;
      message =
          text name
          ∷ text " must use native "
          ∷ text (if expect_u64 then "uint64" else "int32")
          ∷ text " elements; got format "
          ∷ format_text view.format
          ∷ text " with itemsize "
          ∷ signed view.itemsize
          ∷ [];
    })
    else if not_positive view.itemsize || is_negative view.len
    then err (named_error ExcType.value_error name " has an invalid buffer length")
    else if not (pos_part view.len % pos_part view.itemsize == 0)
    then err (named_error ExcType.value_error name " has a partial trailing element")
    else ok (pos_part view.len / pos_part view.itemsize)

abbrev status : Result ℕ → Result (Unit {0})
status (ok n) = ok tt
status (err e) = err e
status fault = fault

abbrev count_of : Result ℕ → ℕ
count_of (ok n) = n
count_of _ = 0

module _ {Memory : Type 0} where
  -- dense_buffer_acquire: `object` is the view that PyObject_GetBuffer gives, `none` where it
  -- fails. The buffer is returned on every path, as the caller releases it on every path.
  unfoldable pub acquire :
      Platform
      → Option PyBuffer
      → Bool
      → String
      → Env Memory
      → Result (Unit {0}) × DenseBuffer × Env Memory
  acquire p none expect_u64 name s = (
    err (named_error ExcType.type_error name " must expose a contiguous one-dimensional buffer"),
    zeroed,
    s,
  )
  acquire p (some view) expect_u64 name s =
      let r = checked p expect_u64 name view in
      (
        status r,
        record { view = view; count = count_of r; acquired = true },
        record s { held = s.held + 1 },
      )

  -- dense_buffer_release
  unfoldable pub release : DenseBuffer → Env Memory → DenseBuffer × Env Memory
  release buffer s =
      if buffer.acquired
      then (record buffer { acquired = false }, record s { held = s.held - 1 })
      else (buffer, s)

-- The element's bytes, or `none` where it does not lie within the exported memory.
abbrev pub element : ℕ → DenseBuffer → ℕ → Option (List ℕ)
element size buffer index =
    if leb (index * size + size) (length buffer.view.buf)
    then some (take size (drop (index * size) buffer.view.buf))
    else none

-- dense_buffer_read_u64
unfoldable pub read_u64 : Platform → DenseBuffer → ℕ → Option ℕ
read_u64 p buffer index = elim (element 8 buffer index) [
  | none ↦ none
  | some bs ↦ some (decode p bs)
]

-- The int32_t with the bit pattern `w`.
abbrev pub signed32 : ℕ → ℤ
signed32 w = if ltb w (2 ^ 31) then pos w else sub_ℕ w (2 ^ 32)

-- dense_buffer_read_i32
unfoldable pub read_i32 : Platform → DenseBuffer → ℕ → Option ℤ
read_i32 p buffer index = elim (element 4 buffer index) [
  | none ↦ none
  | some bs ↦ some (signed32 (decode p bs))
]
