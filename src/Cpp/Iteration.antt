-- ===== src/Cpp/Iteration.antt =====
-- The range-based `for` statement over the iterators of the binding.
pub mod Ranges
pub mod Entries
pub mod Subscribers
pub mod Groups
use libdense.Common.{
  ℕ, zero, suc, ◌+◌, ◌≤◌, ◌<◌, ◌≡◌, refl, sym, ap, ◌∙◌, Bool, true, false, not, Option, none, some,
  List, [], ◌∷◌, arith, ◌==◌, inl, inr, Bool-cases, length, get_elem?,
}
use libdense.View.State.{Runtime}
use libdense.Cpp.State.{Outcome, returned, Reader, give, and_read, ◌>>=◌}

module _ {Memory I A : Type 0} (not_equal : I → I → Bool) (increment : I → Reader Memory I)
    (dereference : I → Reader Memory A) where
  abbrev consed : A → Option (List A) → Option (List A)
  consed a none = none
  consed a (some xs) = some (a ∷ xs)

  -- `for (auto x : range)` from the iterator `it` up to `last`, with the elements that it visits; none
  -- where the fuel runs out.
  unfoldable pub traverse : ℕ → I → I → Reader Memory (Option (List A))
  traverse zero it last = give none
  traverse (suc fuel) it last = elim (not_equal it last) [
    | false ↦ give (some [])
    | true ↦ do
      a ← dereference it
      next ← increment it
      rest ← traverse fuel next last
      give (consed a rest)
  ]

  traverse_round :
      (fuel : ℕ) (it next last : I) (a : A) (xs : List A) (s : Runtime Memory)
      → not_equal it last ≡ true
      → dereference it s ≡ returned a
      → increment it s ≡ returned next
      → traverse fuel next last s ≡ returned (some xs)
      → traverse (suc fuel) it last s ≡ returned (some (a ∷ xs))
  unfolding traverse
  traverse_round fuel it next last a xs s more got moved rest =
      ground (arith, more, got, moved, rest)

  module _ (at : ℕ → I) (n : ℕ) (s : Runtime Memory) where
    -- The elements from the index `i` on, one for each index.
    pub record IsTraversed (i : ℕ) (r : Outcome (Option (List A))) : Type 0 where
      pub visited : List A
      pub result : r ≡ returned (some visited)
      pub count : i + length visited ≡ n
      pub each :
          (j : ℕ) (a : A) → get_elem? visited j ≡ some a → dereference (at (i + j)) s ≡ returned a

    each_after :
        (i : ℕ) (a : A) (xs : List A)
        → dereference (at i) s ≡ returned a
        → ((j : ℕ) (b : A) → get_elem? xs j ≡ some b → dereference (at (i + 1 + j)) s ≡ returned b)
        → (j : ℕ) (b : A) → get_elem? (a ∷ xs) j ≡ some b
        → dereference (at (i + j)) s ≡ returned b
    each_after i a xs got rest zero b e =
        let same : i + 0 ≡ i = omega arith in rw same (got ∙ ap returned (cc (e)))
    each_after i a xs got rest (suc j) b e =
        let same : i + suc j ≡ i + 1 + j = omega arith in rw same (rest j b e)

    module _ (differ : (i j : ℕ) → not_equal (at i) (at j) ≡ not (i == j))
        (advances : (i : ℕ) → i < n → increment (at i) s ≡ returned (at (i + 1)))
        (there : (i : ℕ) → i < n → (a : A) × (dereference (at i) s ≡ returned a)) where
      -- The statement ends with fuel for one round more than there are elements.
      pub traverse-IsTraversed :
          (left i : ℕ) → i + left ≡ n → IsTraversed i (traverse (suc left) (at i) (at n) s)
      unfolding traverse
      traverse-IsTraversed zero i e = record {
        visited = [];
        result = ground (arith, differ i n, e);
        count = e;
        each = λ j a f. cc;
      }
      traverse-IsTraversed (suc left) i e =
          let lt : i < n = omega (arith, e) in
          let (a, got) = there i lt in
          let rest = traverse-IsTraversed left (i + 1) (omega (arith, e)) in
          record {
            visited = a ∷ rest.visited;
            result =
                traverse_round (suc left) (at i) (at (i + 1)) (at n) a rest.visited s
                  (ground (arith, differ i n, e)) got (advances i lt) rest.result;
            count = omega (arith, rest.count);
            each = each_after i a rest.visited got rest.each;
          }
