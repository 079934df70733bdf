-- ===== src/Sample/Laws.antt =====
-- The sample library keeps the lifetimes that include/dense/dense_sim.h documents.
use mathlib.Core.Path.{subst}
use libdense.Common.{
  ℕ, ◌<◌, ◌≤◌, ◌≡◌, ◌≢◌, none, some, arith, refl, Bool-cases, inl, inr, ◌==◌, sym,
}
use libdense.DenseSim.{DsResult, ChunkDelta, FanoutSpan, Pointer, ds_ok}
use libdense.DenseSim.Existence.{Existence}
use libdense.Leases.Change.{eq-cases}
use libdense.DenseSim.Lifetimes.{
  Span, size, part, chunks, entries, subscribers, IsReadable, Lifetimes, WritersKeep,
}
use libdense.Session.Stays.{Keeps-refl}
use libdense.Sample.{
  Heap, empty_heap, span, renew, sample, held_at, chunk, entry, begin, view_of, free,
}

pub record Lives (p : ℕ) (m : Heap) : Type 0 where
  pub array : ℕ
  pub older : p ≤ array
  pub array_below : array < m.next
  pub has : m.array p ≡ some array
  pub owned : m.owner array ≡ some p

-- The arrays that lie at the address `a`, or a part of one.
abbrev IsPart : ℕ → Span → Type 0
IsPart a (chunks q n) = (q ≡ some a) × (n ≤ 1)
IsPart a (entries q n) = (q ≡ some a) × (n ≤ 1)
IsPart a (subscribers q n) = (q ≡ some a) × (n ≤ 1)

pub record Borrows (p : ℕ) (v : Span) (m : Heap) : Type 0 where
  pub lives : Lives p m
  pub part : IsPart lives.array v

held_at-live :
    {A : Type 0} (p : ℕ) (m : Heap) (l : Lives p m) (i : ℕ) (x : A)
    → i < 1
    → held_at (some l.array) i x m ≡ some x
held_at-live p m l i x lt = ground (arith, l.has, l.owned)

held_at-only :
    {A : Type 0} (w : Pointer) (i : ℕ) (x y : A) (m : Heap) → held_at w i x m ≡ some y → y ≡ x
held_at-only none i x y m e = cc
held_at-only (some a) i x y m e = ground (arith, e)

live_at :
    {A : Type 0} (p : ℕ) (m : Heap) (l : Lives p m) (q : Pointer) (n i : ℕ) (x : A)
    → (q ≡ some l.array) × (n ≤ 1)
    → i < n
    → held_at q i x m ≡ some x
live_at p m l q n i x (e, short) lt = rw e (held_at-live p m l i x (omega arith))

Borrows-IsReadable : (p : ℕ) (v : Span) (m : Heap) → Borrows p v m → IsReadable sample v m
Borrows-IsReadable p (chunks q n) m b =
    λ i lt. (chunk q, live_at p m b.lives q n i (chunk q) b.part lt)
Borrows-IsReadable p (entries q n) m b = λ i lt. (entry, live_at p m b.lives q n i entry b.part lt)
Borrows-IsReadable p (subscribers q n) m b = λ i lt. (5, live_at p m b.lives q n i 5 b.part lt)

Borrows-part :
    (p : ℕ) (v : Span) (k : ℕ) (m : Heap) → k ≤ size v → Borrows p v m → Borrows p (part k v) m
Borrows-part p (chunks q n) k m le b = record {
  lives = b.lives;
  part = (b.part.0, omega (arith, b.part.1));
}
Borrows-part p (entries q n) k m le b = record {
  lives = b.lives;
  part = (b.part.0, omega (arith, b.part.1));
}
Borrows-part p (subscribers q n) k m le b = record {
  lives = b.lives;
  part = (b.part.0, omega (arith, b.part.1));
}

Borrows-nested :
    (p : ℕ) (a : Pointer) (n i : ℕ) (c : ChunkDelta) (m : Heap)
    → Borrows p (chunks a n) m
    → sample.read_chunk a i m ≡ some c
    → Borrows p (entries c.entries c.entry_count) m
      × Borrows p (subscribers c.subscribers c.subscriber_count) m
Borrows-nested p a n i c m b e =
    let same = held_at-only a i (chunk a) c m e in
    rw same (
      record { lives = b.lives; part = (b.part.0, omega arith) },
      record { lives = b.lives; part = (b.part.0, omega arith) },
    )

renew-Lives : (p q : ℕ) (m : Heap) → p ≢ q → Lives q m → Lives q (renew p m)
renew-Lives p q m ne l = record {
  array = l.array;
  older = l.older;
  array_below = omega (arith, l.array_below);
  has = ground (arith, l.has);
  owned = ground (arith, l.owned, l.array_below);
}

renewed-Lives : (p : ℕ) (m : Heap) → p ≤ m.next → Lives p (renew p m)
renewed-Lives p m lt = record {
  array = m.next;
  older = lt;
  array_below = omega arith;
  has = ground arith;
  owned = ground arith;
}

free-Lives : (p q : ℕ) (m : Heap) → p ≢ q → Lives q m → Lives q (free (some p) m)
free-Lives p q m ne l = record {
  array = l.array;
  older = l.older;
  array_below = l.array_below;
  has = ground (arith, l.has);
  owned = l.owned;
}

begin-renew : (p : ℕ) (m : Heap) → Lives p m → begin (some p) m ≡ (ds_ok, renew p m)
begin-renew p m l = ground (arith, l.has)

begin-Lives : (p q : ℕ) (m : Heap) → Lives p m → Lives q m → Lives q (begin (some p) m).1
begin-Lives p q m l k = elim (Bool-cases (p == q)) [
  | inl same ↦
      let e : p ≡ q = ground arith in
      rw (begin-renew p m l, ← e) (renewed-Lives p m (omega (arith, l.older, l.array_below)))
  | inr other ↦ rw (begin-renew p m l) (renew-Lives p q m (ground arith) k)
]

renew-Borrows : (p q : ℕ) (v : Span) (m : Heap) → p ≢ q → Borrows q v m → Borrows q v (renew p m)
unfolding renew-Lives
renew-Borrows p q v m ne b = record { lives = renew-Lives p q m ne b.lives; part = b.part }

free-Borrows :
    (p q : ℕ) (v : Span) (m : Heap) → p ≢ q → Borrows q v m → Borrows q v (free (some p) m)
unfolding free-Lives
free-Borrows p q v m ne b = record { lives = free-Lives p q m ne b.lives; part = b.part }

begin-Borrows :
    (p q : ℕ) (v : Span) (m : Heap)
    → p ≢ q
    → Lives p m
    → Borrows q v m
    → Borrows q v (begin (some p) m).1
begin-Borrows p q v m ne l b = rw (begin-renew p m l) (renew-Borrows p q v m ne b)

begin-eq_ds_ok : (p : ℕ) (m : Heap) → Lives p m → (begin (some p) m).0 ≡ ds_ok
begin-eq_ds_ok p m l = rw (begin-renew p m l) refl

view_of-span :
    (p : ℕ) (v : FanoutSpan) (m : Heap) (l : Lives p m)
    → view_of (some p) m ≡ (ds_ok, v)
    → v ≡ span l.array
view_of-span p v m l e = ground (arith, l.has, e)

pub lifetimes : Lifetimes sample
lifetimes = record {
  IsLive = Lives;
  IsBorrowed = Borrows;
  borrowed_readable = Borrows-IsReadable;
  nested_borrowed = λ p a n i c m b lt e. Borrows-nested p a n i c m b e;
  part_borrowed = λ p v k m le b. Borrows-part p v k m le b;
  view_borrowed =
      λ p v m l e. rw (view_of-span p v m l e) (record { lives = l; part = (refl, omega arith) });
  create_result = λ config m e. (
    m.next,
    refl,
    renewed-Lives m.next m (omega arith),
    λ l. omega (arith, l.older, l.array_below),
  );
  create_live = λ config m p l. renew-Lives m.next p m (omega (arith, l.older, l.array_below)) l;
  create_borrowed = λ config m p v b.
      renew-Borrows m.next p v m (omega (arith, b.lives.older, b.lives.array_below)) b;
  destroy_null = λ m. refl;
  destroy_live = λ p q m ne l k. free-Lives p q m ne k;
  destroy_borrowed = λ p q v m ne l b. free-Borrows p q v m ne b;
  begin_tick_live = λ p t q m l k. begin-Lives p q m l k;
  begin_tick_borrowed = λ p t q v m ne l b. begin-Borrows p q v m ne l b;
  begin_tick_refused = λ p t q v m l e b. absurd (e (begin-eq_ds_ok p m l));
}

pub writers : WritersKeep sample lifetimes
writers = record {
  end_tick = λ p m l. Keeps-refl sample lifetimes m;
  spawn = λ p id x y mask m l. Keeps-refl sample lifetimes m;
  move = λ p id x y m l. Keeps-refl sample lifetimes m;
  remove = λ p id m l. Keeps-refl sample lifetimes m;
  mark_dirty = λ p id mask m l. Keeps-refl sample lifetimes m;
  set_motion_plan = λ p id plan m l. Keeps-refl sample lifetimes m;
  clear_motion_plan = λ p id m l. Keeps-refl sample lifetimes m;
  create_observer = λ p config m l. Keeps-refl sample lifetimes m;
  destroy_observer = λ p id m l. Keeps-refl sample lifetimes m;
  anchor_entity = λ p id e m l. Keeps-refl sample lifetimes m;
  set_position = λ p id x y m l. Keeps-refl sample lifetimes m;
  set_radius = λ p id r m l. Keeps-refl sample lifetimes m;
}

-- A world other than the one that has got a new array was there before.
renewed-only : (p q : ℕ) (m : Heap) → p ≢ q → Lives q (renew p m) → Lives q m
renewed-only p q m ne l = record {
  array = l.array;
  older = l.older;
  array_below = ground (arith, l.array_below, l.owned, ne);
  has = ground (arith, l.has, ne);
  owned = ground (arith, l.owned, ne);
}

free-ne : (p q : ℕ) (m : Heap) → Lives q (free (some p) m) → p ≢ q
free-ne p q m l same = ground (arith, l.has, same)

freed-only : (p q : ℕ) (m : Heap) → p ≢ q → Lives q (free (some p) m) → Lives q m
freed-only p q m ne l = record {
  array = l.array;
  older = l.older;
  array_below = l.array_below;
  has = ground (arith, l.has, ne);
  owned = l.owned;
}

begin-only : (p q : ℕ) (m : Heap) → Lives p m → Lives q (begin (some p) m).1 → Lives q m
begin-only p q m l k = elim (eq-cases p q) [
  | inl same ↦ rw same l
  | inr ne ↦
      renewed-only p q m (λ e. ne (sym e))
        (subst (λ (r : DsResult × Heap). Lives q r.1) (begin-renew p m l) k)
]

pub existence : Existence sample lifetimes
unfolding lifetimes
existence = record {
  create = λ config m q l. elim (eq-cases m.next q) [
    | inl same ↦ inr (refl, ground (arith, same))
    | inr ne ↦ inl (renewed-only m.next q m (λ e. ne (sym e)) l)
  ];
  destroy = λ p q m l k. (free-ne p q m k, freed-only p q m (free-ne p q m k) k);
  begin_tick = λ p t m l q k. begin-only p q m l k;
  end_tick = λ p m l q k. k;
  spawn = λ p id x y mask m l q k. k;
  move = λ p id x y m l q k. k;
  remove = λ p id m l q k. k;
  mark_dirty = λ p id mask m l q k. k;
  set_motion_plan = λ p id plan m l q k. k;
  clear_motion_plan = λ p id m l q k. k;
  create_observer = λ p config m l q k. k;
  destroy_observer = λ p id m l q k. k;
  anchor_entity = λ p id e m l q k. k;
  set_position = λ p id x y m l q k. k;
  set_radius = λ p id r m l q k. k;
}

pub no_worlds : (q : ℕ) → ¬ (lifetimes.IsLive q empty_heap)
unfolding lifetimes
no_worlds q l = omega (arith, l.array_below)
