-- ===== src/Buffer/Arrays.antt =====
-- Arrays of native integers, as `array.array("Q", ...)` and `array.array("i", ...)` export them,
-- and what the element reads make of them.
use mathlib.Core.List.{reverse, reverse_aux, reverse-reverse}
use native.Mathlib.Nat.{pow-suc, zero-add, suc-add}
use mathlib.Core.Path.{subst}
use libdense.Common.{
  ℕ, zero, suc, ◌+◌, ◌*◌, ◌/◌, ◌^◌, ◌<◌, ◌≤◌, ◌≡◌, refl, ap, ◌∙◌, Bool, true, false, String, some,
  List, [], ◌∷◌, ◌++◌, arith, length, get_elem?, take, drop, length-append,
}
use libdense.Common.Int.{pos}
use libdense.Buffer.Bytes.{Platform, encode_le, decode_le, encode, decode}
use libdense.Python.{ok}
use libdense.Buffer.Format.{PyBuffer, format_is_u64, format_is_i32}
use libdense.Buffer.Acquire.{checked, DenseBuffer, read_u64, read_i32, signed32, element}

-- The memory of an array whose elements have `n` bytes.
abbrev pub encode_all : Platform → ℕ → List ℕ → List ℕ
encode_all p n [] = []
encode_all p n (v ∷ vs) = encode p n v ++ encode_all p n vs

length-reverse_aux : (xs ys : List ℕ) → length (reverse_aux xs ys) ≡ length xs + length ys
length-reverse_aux [] ys = omega arith
length-reverse_aux (x ∷ xs) ys = omega (arith, length-reverse_aux xs (x ∷ ys))

length-reverse : (xs : List ℕ) → length (reverse xs) ≡ length xs
length-reverse xs = omega (arith, length-reverse_aux xs [])

length-encode_le : (n v : ℕ) → length (encode_le n v) ≡ n
unfolding encode_le
length-encode_le zero v = refl
length-encode_le (suc n) v = ap suc (length-encode_le n (v / 256))

pub length-encode : (p : Platform) (n v : ℕ) → length (encode p n v) ≡ n
unfolding encode
length-encode p n v = ground (arith, length-encode_le n v, length-reverse (encode_le n v))

decode_le-encode_le : (n v : ℕ) → v < 256 ^ n → decode_le (encode_le n v) ≡ v
unfolding encode_le decode_le
decode_le-encode_le zero v h = omega arith
decode_le-encode_le (suc n) v h =
    omega (arith, decode_le-encode_le n (v / 256) (omega (arith, pow-suc 256 n)))

-- memcpy reads back the integer whose bytes are stored, in either byte order.
pub decode-encode : (p : Platform) (n v : ℕ) → v < 256 ^ n → decode p (encode p n v) ≡ v
unfolding encode decode
decode-encode p n v h = ground (arith, decode_le-encode_le n v h, reverse-reverse (encode_le n v))

take-append : (xs ys : List ℕ) → take (length xs) (xs ++ ys) ≡ xs
take-append [] ys = refl
take-append (x ∷ xs) ys = ap (λ l. x ∷ l) (take-append xs ys)

lt-length : (vs : List ℕ) (i v : ℕ) → get_elem? vs i ≡ some v → i < length vs
lt-length [] i v h = cc
lt-length (x ∷ vs) zero v h = omega arith
lt-length (x ∷ vs) (suc i) v h = omega (arith, lt-length vs i v h)

rows-le : (i n k : ℕ) → i < k → i * n + n ≤ k * n
rows-le i n k h = grind arith

-- Element `i` of the list that stands at the front of `bs` is the `i`-th slice of `bs`.
module _ (p : Platform) (n : ℕ) where
  drop-append : (k : ℕ) (xs ys : List ℕ) → drop (length xs + k) (xs ++ ys) ≡ drop k ys
  drop-append k [] ys = rw zero-add
  drop-append k (x ∷ xs) ys = rw suc-add (drop-append k xs ys)

  drop-encode_all :
      (v : ℕ) (vs : List ℕ) (k : ℕ)
      → drop (n + k) (encode_all p n (v ∷ vs)) ≡ drop k (encode_all p n vs)
  drop-encode_all v vs k =
      subst (λ (l : ℕ). drop (l + k) (encode_all p n (v ∷ vs)) ≡ drop k (encode_all p n vs))
        (length-encode p n v) (drop-append k (encode p n v) (encode_all p n vs))

  take-encode_all : (v : ℕ) (vs : List ℕ) → take n (encode_all p n (v ∷ vs)) ≡ encode p n v
  take-encode_all v vs =
      subst (λ (l : ℕ). take l (encode_all p n (v ∷ vs)) ≡ encode p n v) (length-encode p n v)
        (take-append (encode p n v) (encode_all p n vs))

  pub length-encode_all : (vs : List ℕ) → length (encode_all p n vs) ≡ length vs * n
  length-encode_all [] = omega arith
  length-encode_all (v ∷ vs) = omega (
    arith,
    length-append (encode p n v) (encode_all p n vs),
    length-encode p n v,
    length-encode_all vs,
  )

  slice-encode_all :
      (vs : List ℕ) (i v : ℕ)
      → get_elem? vs i ≡ some v
      → take n (drop (i * n) (encode_all p n vs)) ≡ encode p n v
  slice-encode_all [] i v h = cc
  slice-encode_all (x ∷ vs) zero v h =
      let start : 0 * n ≡ 0 = omega arith in rw start (take-encode_all x vs ∙ ap (encode p n) (cc))
  slice-encode_all (x ∷ vs) (suc i) v h =
      let start : suc i * n ≡ n + i * n = omega arith in
      rw start (rw (drop-encode_all x vs (i * n)) (slice-encode_all vs i v h))

  pub element-encode_all :
      (vs : List ℕ) (i v : ℕ) (b : DenseBuffer)
      → b.view.buf ≡ encode_all p n vs
      → get_elem? vs i ≡ some v
      → element n b i ≡ some (encode p n v)
  element-encode_all vs i v b e h =
      let fits : i * n + n ≤ length b.view.buf =
        rw e (rw (length-encode_all vs) (rows-le i n (length vs) (lt-length vs i v h))) in
      ground (arith, fits, slice-encode_all vs i v h, ap (λ l. take n (drop (i * n) l)) e)

-- The view of a contiguous one-dimensional array with elements of `n` bytes, of the type that
-- `accepts` tests for.
pub record IsArray (p : Platform) (n : ℕ) (accepts : Platform → PyBuffer → Bool) (view : PyBuffer)
    (vs : List ℕ) : Type 0 where
  pub stored : view.buf ≡ encode_all p n vs
  pub fits : (i v : ℕ) → get_elem? vs i ≡ some v → v < 256 ^ n
  pub flat : view.ndim ≡ 1
  pub typed : accepts p view ≡ true
  pub sized : view.itemsize ≡ pos n
  pub long : view.len ≡ pos (length vs * n)

abbrev pub IsU64Array : Platform → PyBuffer → List ℕ → Type 0
IsU64Array p = IsArray p 8 format_is_u64

abbrev pub IsI32Array : Platform → PyBuffer → List ℕ → Type 0
IsI32Array p = IsArray p 4 format_is_i32

module _ (p : Platform) (b : DenseBuffer) (vs : List ℕ) where
  -- Within the array, the 64-bit read gives the element.
  pub read_u64-IsArray :
      (i v : ℕ) → IsU64Array p b.view vs → get_elem? vs i ≡ some v → read_u64 p b i ≡ some v
  unfolding read_u64
  read_u64-IsArray i v a h =
      ground (arith, element-encode_all p 8 vs i v b a.stored h, decode-encode p 8 v (a.fits i v h))

  -- Within the array, the 32-bit read gives the integer that the element's bits stand for.
  pub read_i32-IsArray :
      (i v : ℕ)
      → IsI32Array p b.view vs
      → get_elem? vs i ≡ some v
      → read_i32 p b i ≡ some (signed32 v)
  unfolding read_i32
  read_i32-IsArray i v a h =
      ground (arith, element-encode_all p 4 vs i v b a.stored h, decode-encode p 4 v (a.fits i v h))

module _ (p : Platform) (name : String) (view : PyBuffer) (vs : List ℕ) where
  -- dense_buffer_acquire accepts such a view, and counts its elements.
  pub checked-IsU64Array : IsU64Array p view vs → checked p true name view ≡ ok (length vs)
  unfolding checked
  checked-IsU64Array a =
      let itemsize = a.sized in
      let ndim = a.flat in let typed = a.typed in let len = a.long in ground arith

  pub checked-IsI32Array : IsI32Array p view vs → checked p false name view ≡ ok (length vs)
  unfolding checked
  checked-IsI32Array a =
      let itemsize = a.sized in
      let ndim = a.flat in let typed = a.typed in let len = a.long in ground arith
