-- ===== src/Buffer/Bytes.antt =====
-- Unsigned integers as the bytes that the platform stores, and dense_is_little_endian.
use libdense.Common.{
  ℕ, zero, suc, ◌+◌, ◌*◌, ◌/◌, ◌%◌, Bool, false, List, [], ◌∷◌, ◌==◌, if◌then◌else◌,
}
use mathlib.Core.List.{reverse}

-- What the code asks of the C implementation.
pub record Platform : Type 0 where
  pub little_endian : Bool
  pub sizeof_int : ℕ
  pub sizeof_long : ℕ
  pub sizeof_long_long : ℕ

-- The bytes of an integer, least significant first.
unfoldable pub encode_le : ℕ → ℕ → List ℕ
encode_le zero v = []
encode_le (suc n) v = (v % 256) ∷ encode_le n (v / 256)

unfoldable pub decode_le : List ℕ → ℕ
decode_le [] = 0
decode_le (b ∷ bs) = b + 256 * decode_le bs

-- The bytes in memory order, and the integer that memcpy makes of them.
unfoldable pub encode : Platform → ℕ → ℕ → List ℕ
unfolding encode_le
encode p n v = if p.little_endian then encode_le n v else reverse (encode_le n v)

unfoldable pub decode : Platform → List ℕ → ℕ
unfolding decode_le
decode p bs = if p.little_endian then decode_le bs else decode_le (reverse bs)

abbrev first_is : ℕ → List ℕ → Bool
first_is v [] = false
first_is v (b ∷ bs) = b == v

-- dense_is_little_endian: whether the first byte of the uint16_t 1 is 1.
unfoldable pub is_little_endian : Platform → Bool
unfolding encode
is_little_endian p = first_is 1 (encode p 2 1)
