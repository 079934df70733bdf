-- ===== src/Buffer/Format.antt =====
-- dense_buffer_format_code, dense_format_is_u64 and dense_format_is_i32.
use libdense.Common.{
  ℕ, Bool, true, false, not, ◌||◌, Option, none, some, List, [], ◌∷◌, ◌==◌, if◌then◌else◌,
}
use libdense.Common.Int.{ℤ, pos, negsuc}
use libdense.Buffer.Bytes.{Platform, is_little_endian}

-- The fields of Py_buffer that the code reads; `format` is `none` for NULL, else the bytes in
-- front of the terminator, and `buf` the bytes of the exported memory.
pub record PyBuffer : Type 0 where
  pub buf : List ℕ
  pub len : ℤ
  pub itemsize : ℤ
  pub ndim : ℕ
  pub format : Option (List ℕ)

-- `code` is the text behind the prefix: one character, and nothing else, is a code.
abbrev single : List ℕ → Option ℕ
single [] = none
single (c ∷ []) = some c
single (c ∷ d ∷ cs) = none

-- dense_buffer_format_code: the code, and what it stores in `*native_endian`.
unfoldable pub buffer_format_code : Platform → Option (List ℕ) → Option ℕ × Bool
unfolding is_little_endian
buffer_format_code p none = (none, true)
buffer_format_code p (some []) = (none, true)
buffer_format_code p (some (c ∷ code)) =
    if (c == b'@') || (c == b'=')
    then (single code, true)
    else if c == b'<'
    then (single code, is_little_endian p)
    else if (c == b'>') || (c == b'!')
    then (single code, not (is_little_endian p))
    else (single (c ∷ code), true)

abbrev is_size : ℕ → ℤ → Bool
is_size n (pos m) = m == n
is_size n (negsuc m) = false

abbrev u64_code : Platform → Option ℕ × Bool → Bool
u64_code p (none, native_endian) = false
u64_code p (some c, native_endian) =
    if not native_endian
    then false
    else if c == b'Q'
    then p.sizeof_long_long == 8
    else if c == b'L'
    then p.sizeof_long == 8
    else false

-- dense_format_is_u64
unfoldable pub format_is_u64 : Platform → PyBuffer → Bool
unfolding buffer_format_code
format_is_u64 p view =
    if not (is_size 8 view.itemsize) then false else u64_code p (buffer_format_code p view.format)

abbrev i32_code : Platform → Option ℕ × Bool → Bool
i32_code p (none, native_endian) = false
i32_code p (some c, native_endian) =
    if not native_endian
    then false
    else if c == b'i'
    then p.sizeof_int == 4
    else if c == b'l'
    then p.sizeof_long == 4
    else false

-- dense_format_is_i32
unfoldable pub format_is_i32 : Platform → PyBuffer → Bool
unfolding buffer_format_code
format_is_i32 p view =
    if not (is_size 4 view.itemsize) then false else i32_code p (buffer_format_code p view.format)
