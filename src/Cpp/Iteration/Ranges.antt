-- ===== src/Cpp/Iteration/Ranges.antt =====
-- What a range-based `for` statement is to visit.
use libdense.Common.{
  ℕ, zero, suc, ◌+◌, ◌<◌, ◌≡◌, refl, ap, ◌∙◌, sym, Bool, true, Option, none, some, List, [], ◌∷◌,
  arith, length, get_elem?,
}
use libdense.DenseSim.{Pointer}
use libdense.View.State.{Runtime}
use libdense.Cpp.State.{Outcome, returned, Reader, same_pointer}
use libdense.Cpp.Iteration.{IsTraversed}

pub same_pointer_refl : (p : Pointer) → same_pointer p p ≡ true
same_pointer_refl none = refl
same_pointer_refl (some a) = ground arith

get_elem?-lt : {A : Type 0} (xs : List A) (i : ℕ) (x : A) → get_elem? xs i ≡ some x → i < length xs
get_elem?-lt [] i x e = cc
get_elem?-lt (y ∷ xs) zero x e = omega arith
get_elem?-lt (y ∷ xs) (suc i) x e = omega (arith, get_elem?-lt xs i x e)

zero_add : (i : ℕ) → 0 + i ≡ i
zero_add i = omega arith

-- What a `for` statement over a range of `n` elements has visited: as many elements, each the one that
-- `at` gives for its index.
pub record IsVisited {Memory A : Type 0} (n : ℕ) (at : ℕ → Reader Memory A) (s : Runtime Memory)
    (r : Outcome (Option (List A))) : Type 0 where
  pub visited : List A
  pub result : r ≡ returned (some visited)
  pub count : length visited ≡ n
  pub each : (i : ℕ) (a : A) → get_elem? visited i ≡ some a → at i s ≡ returned a

pub traversed-IsVisited :
    {Memory I A : Type 0} {not_equal : I → I → Bool} {increment : I → Reader Memory I}
    {dereference : I → Reader Memory A} {iterator : ℕ → I} {n : ℕ} {s : Runtime Memory}
    (at : ℕ → Reader Memory A) {r : Outcome (Option (List A))}
    → ((i : ℕ) → i < n → dereference (iterator i) s ≡ at i s)
    → IsTraversed not_equal increment dereference iterator n s 0 r
    → IsVisited n at s r
traversed-IsVisited {dereference = d} {iterator = f} {s = s} at same t = record {
  visited = t.visited;
  result = t.result;
  count = omega (arith, t.count);
  each = λ i a e.
      let lt = get_elem?-lt t.visited i a e in
      sym (same i (omega (arith, t.count, lt)))
      ∙ ap (λ j. d (f j) s) (sym (zero_add i))
      ∙ t.each i a e;
}
