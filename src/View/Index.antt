-- ===== src/View/Index.antt =====
-- What dense_normalize_index and dense_chunk_at return.
use libdense.Common.{ℕ, suc, ◌⊎◌, ◌+◌, ◌*◌, ◌≤◌, ◌<◌, ◌≡◌, ◌≢◌, refl, arith, inl, inr}
use libdense.Common.Int.{ℤ, pos, negsuc, pos_part, neg_part, ◌+ℤ◌, ◌≤ℤ◌}
use libdense.Python.{Exc, Result, ok, err, fault}
use libdense.World.Lifecycle.{DenseFanoutView}
use libdense.View.State.{Runtime, normalize_index, fanout_require_valid, chunk_at, index_error}

-- An index from the front stands for itself, one from the back is counted from the end, and any
-- other is refused.
pub normalize_index-front : (i n : ℕ) → i < n → normalize_index (pos i) (pos n) ≡ ok (pos i)
unfolding normalize_index
normalize_index-front i n h = ground arith

pub normalize_index-back :
    (j k n : ℕ) → suc k + j ≡ n → normalize_index (negsuc k) (pos n) ≡ ok (pos j)
unfolding normalize_index
normalize_index-back j k n h = ground arith

pub normalize_index_refuses :
    (i : ℤ) (n : ℕ)
    → (pos n ≤ℤ i) ⊎ (pos_part i + n < neg_part i)
    → normalize_index i (pos n) ≡ err index_error
unfolding normalize_index
normalize_index_refuses (pos i) n h = ground arith
normalize_index_refuses (negsuc i) n h = ground arith

-- An index that dense_normalize_index accepts for a length `n` is one from 0 up to n - 1.
pub normalize_index-lt :
    (i j : ℤ) (n : ℕ) → normalize_index i (pos n) ≡ ok j → (j ≡ pos (pos_part j)) × (pos_part j < n)
unfolding normalize_index
normalize_index-lt (pos i) (pos j) n h = ground arith
normalize_index-lt (pos i) (negsuc j) n h = ground arith
normalize_index-lt (negsuc i) (pos j) n h = ground arith
normalize_index-lt (negsuc i) (negsuc j) n h = ground arith

pub normalize_index-ne-fault : (i : ℤ) (n : ℕ) → normalize_index i (pos n) ≢ fault
unfolding normalize_index
normalize_index-ne-fault i n = ground arith

-- Where CPython adds the length to a negative index before it calls the item function, as it
-- documents for a sequence that has a length, an index from -2n up to -n - 1 of a sequence of `n`
-- items is not refused: it is taken for the item 2n places on.
pub get_item-normalize_index :
    (get_item : (ℤ → Result ℤ) → ℕ → ℤ → Result ℤ)
    → ((item : ℤ → Result ℤ) (n k : ℕ) → get_item item n (negsuc k) ≡ item (negsuc k +ℤ pos n))
    → (n k j : ℕ) → n ≤ k
    → suc k + j ≡ 2 * n
    → get_item (λ i. normalize_index i (pos n)) n (negsuc k) ≡ ok (pos j)
unfolding normalize_index ◌+ℤ◌
get_item-normalize_index get_item adds n k j h e =
    ground (arith, adds (λ i. normalize_index i (pos n)) n k)

-- To split on what a helper returned.
pub Result-cases :
    {A : Type 0} (r : Result A) → ((a : A) × (r ≡ ok a)) ⊎ (((e : Exc) × (r ≡ err e)) ⊎ (r ≡ fault))
Result-cases (ok a) = inl (a, refl)
Result-cases (err e) = inr (inl (e, refl))
Result-cases fault = inr (inr refl)

module _ {Memory : Type 0} (v : DenseFanoutView) (i : ℤ) (s : Runtime Memory) where
  -- Where dense_chunk_at returns a pointer, the view is valid, and the pointer is to one of its
  -- `chunk_count` chunks.
  pub chunk_at-lt :
      {k : ℕ}
      → chunk_at v i s ≡ ok k
      → (fanout_require_valid v s ≡ ok tt) × (k < v.view.chunk_count)
  unfolding chunk_at
  chunk_at-lt {k} h = elim (Result-cases (normalize_index i (pos v.view.chunk_count))) [
    | inl (x, e) ↦ ground (arith, normalize_index-lt i x v.view.chunk_count e)
    | inr (inl (x, e)) ↦ ground (arith, e)
    | inr (inr e) ↦ ground (arith, e)
  ]

  pub chunk_at-ne-fault : fanout_require_valid v s ≢ fault → chunk_at v i s ≢ fault
  unfolding chunk_at
  chunk_at-ne-fault h q = ground (arith, normalize_index-ne-fault i v.view.chunk_count)
