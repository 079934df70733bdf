-- ===== src/Leases/Change.antt =====
-- A step that replaces one World and the library's memory keeps the invariant under local facts.
use libdense.Common.{
  ℕ, ◌+◌, ◌%◌, ◌^◌, ◌≤◌, ◌≡◌, ◌≢◌, sym, ap, ◌∙◌, ◌⊎◌, inl, inr, Option, some, arith, ◌==◌,
  if◌then◌else◌, Bool-cases,
}
use libdense.DenseSim.{Library}
use libdense.DenseSim.Lifetimes.{Lifetimes, Span}
use libdense.World.State.{DenseWorld}
use libdense.View.State.{Runtime}
use libdense.Leases.{Lease}
use libdense.Leases.Invariant.{IsTracked, IsConsistent}

abbrev pub put : {A : Type 0} → (ℕ → Option A) → ℕ → Option A → ℕ → Option A
put f a o b = if b == a then o else f b

-- The runtime with another memory, and `o` at the address `a`.
abbrev pub replaced :
    {Memory : Type 0} → Runtime Memory → ℕ → Option DenseWorld → Memory → Runtime Memory
replaced s a o m = record { native = m; worlds = put s.worlds a o }

-- The counts with another one for `a`.
abbrev pub recount : (ℕ → ℕ) → ℕ → ℕ → ℕ → ℕ
recount count a c b = if b == a then c else count b

pub put_self : {A : Type 0} (f : ℕ → Option A) (a : ℕ) (o : Option A) → put f a o a ≡ o
put_self f a o = ground arith

pub put_ne : {A : Type 0} (f : ℕ → Option A) (a b : ℕ) (o : Option A) → b ≢ a → put f a o b ≡ f b
put_ne f a b o h = ground arith

pub recount_self : (count : ℕ → ℕ) (a c : ℕ) → recount count a c a ≡ c
recount_self count a c = ground arith

recount_ne : (count : ℕ → ℕ) (a c b : ℕ) → b ≢ a → recount count a c b ≡ count b
recount_ne count a c b h = ground arith

pub eq-cases : (a b : ℕ) → (b ≡ a) ⊎ (b ≢ a)
eq-cases a b = elim (Bool-cases (b == a)) [
  | inl e ↦ inl (ground arith)
  | inr e ↦ inr (ground arith)
]

pub at_self :
    {A : Type 0} (f : ℕ → Option A) (a b : ℕ) (o : Option A) (w : A)
    → b ≡ a
    → put f a o b ≡ some w
    → o ≡ some w
at_self f a b o w h e = ground arith

pub at_ne :
    {A : Type 0} (f : ℕ → Option A) (a b : ℕ) (o : Option A) (w : A)
    → b ≢ a
    → put f a o b ≡ some w
    → f b ≡ some w
at_ne f a b o w h e = ground arith

-- A place that was put is new or as it was.
pub put-cases :
    {A : Type 0} (f : ℕ → Option A) (a b : ℕ) (o : Option A) (w : A)
    → put f a o b ≡ some w
    → ((b ≡ a) × (o ≡ some w)) ⊎ ((b ≢ a) × (f b ≡ some w))
put-cases f a b o w e = elim (eq-cases a b) [
  | inl same ↦ inl (same, at_self f a b o w same e)
  | inr ne ↦ inr (ne, at_ne f a b o w ne e)
]

module _ {Memory : Type 0} (lib : Library Memory) (laws : Lifetimes lib) (base : ℕ)
    (holds : Lease → Type 0) where
  open laws use {IsLive, IsBorrowed}

  module _ (count : ℕ → ℕ) (s : Runtime Memory) (a : ℕ) (o : Option DenseWorld) (m : Memory)
      (c : ℕ) where
    -- What the step at `a` has to show of itself and of the others.
    pub record IsLocal : Type 0 where
      pub counted : (w : DenseWorld) → o ≡ some w → w.view_generation ≡ (base + c) % 2 ^ 64
      pub live : (w : DenseWorld) (p : ℕ) → o ≡ some w → w.world ≡ some p → IsLive p m
      pub distinct :
          (w x : DenseWorld) (p b : ℕ)
          → o ≡ some w
          → w.world ≡ some p
          → b ≢ a
          → s.worlds b ≡ some x
          → x.world ≢ some p
      pub others_live :
          (b : ℕ) (x : DenseWorld) (q : ℕ)
          → b ≢ a
          → s.worlds b ≡ some x
          → x.world ≡ some q
          → IsLive q s.native
          → IsLive q m
      pub others_borrowed :
          (b : ℕ) (x : DenseWorld) (q : ℕ) (v : Span)
          → b ≢ a
          → s.worlds b ≡ some x
          → x.world ≡ some q
          → IsBorrowed q v s.native
          → IsBorrowed q v m
      pub own :
          (v : Lease)
          → holds v
          → v.world ≡ some a
          → IsTracked lib laws base (recount count a c) (replaced s a o m) v

    -- A view of another World is still tracked.
    IsTracked-other :
        (v : Lease)
        → IsLocal
        → (t : IsTracked lib laws base count s v) → t.address ≢ a
        → IsTracked lib laws base (recount count a c) (replaced s a o m) v
    IsTracked-other v l t ne = record {
      address = t.address;
      refers = t.refers;
      world = t.world;
      exists = put_ne s.worlds a t.address o ne ∙ t.exists;
      taken = t.taken;
      taken_le = rw (recount_ne count a c t.address ne) t.taken_le;
      generation = t.generation;
      current = λ e.
          let (p, open_at, borrowed) = t.current (e ∙ recount_ne count a c t.address ne) in
          (p, open_at, l.others_borrowed t.address t.world p v.span ne t.exists open_at borrowed);
    }

  module _ (n : ℕ) (s : Runtime Memory) (a : ℕ) (o : Option DenseWorld) (m : Memory) (c : ℕ)
      (h : IsConsistent lib laws base holds n s) (l : IsLocal h.count s a o m c) where
    counted_after :
        (b : ℕ) (w : DenseWorld)
        → put s.worlds a o b ≡ some w
        → w.view_generation ≡ (base + recount h.count a c b) % 2 ^ 64
    counted_after b w e = elim (eq-cases a b) [
      | inl same ↦ ground (arith, l.counted w (at_self s.worlds a b o w same e))
      | inr ne ↦ ground (arith, h.counted b w (at_ne s.worlds a b o w ne e))
    ]

    live_after :
        (b : ℕ) (w : DenseWorld) (p : ℕ)
        → put s.worlds a o b ≡ some w
        → w.world ≡ some p
        → IsLive p m
    live_after b w p e f = elim (eq-cases a b) [
      | inl same ↦ l.live w p (at_self s.worlds a b o w same e) f
      | inr ne ↦
          let at = at_ne s.worlds a b o w ne e in l.others_live b w p ne at f (h.live b w p at f)
    ]

    distinct_after :
        (b d : ℕ) (w x : DenseWorld) (p : ℕ)
        → b ≢ d
        → put s.worlds a o b ≡ some w
        → put s.worlds a o d ≡ some x
        → w.world ≡ some p
        → x.world ≢ some p
    distinct_after b d w x p ne e f g k = elim (eq-cases a b) [
      | inl here ↦
          let apart : d ≢ a = λ q. ne (here ∙ sym q) in
          l.distinct w x p d (at_self s.worlds a b o w here e) g apart
            (at_ne s.worlds a d o x apart f) k
      | inr elsewhere ↦ elim (eq-cases a d) [
        | inl here ↦
            l.distinct x w p b (at_self s.worlds a d o x here f) k elsewhere
              (at_ne s.worlds a b o w elsewhere e) g
        | inr apart ↦
            h.distinct b d w x p ne (at_ne s.worlds a b o w elsewhere e)
              (at_ne s.worlds a d o x apart f) g k
      ]
    ]

    pub replaced-IsConsistent :
        c ≤ n + 1 → IsConsistent lib laws base holds (n + 1) (replaced s a o m)
    replaced-IsConsistent le = record {
      count = recount h.count a c;
      bounded = λ b. ground (arith, h.bounded b);
      counted = counted_after;
      live = live_after;
      distinct = distinct_after;
      tracked = λ v i.
          let t = h.tracked v i in
          elim (eq-cases a t.address) [
            | inl same ↦ l.own v i (t.refers ∙ ap some same)
            | inr ne ↦ IsTracked-other h.count s a o m c v l t ne
          ];
    }
