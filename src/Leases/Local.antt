-- ===== src/Leases/Local.antt =====
-- The ways in which a method changes its World, as local facts of the step.
use libdense.Common.{ℕ, ◌+◌, ◌≤◌, ◌≡◌, ◌≢◌, sym, ap, ◌∙◌, none, some, arith}
use libdense.DenseSim.{Library}
use libdense.DenseSim.Lifetimes.{Lifetimes, Keeps, Span}
use libdense.World.State.{DenseWorld, next_generation}
use libdense.View.State.{Runtime}
use libdense.Leases.{Lease}
use libdense.Leases.Invariant.{IsTracked, IsConsistent}
use libdense.Leases.Change.{replaced, recount, put_self, recount_self, replaced-IsConsistent}

module _ {Memory : Type 0} (lib : Library Memory) (laws : Lifetimes lib) (base : ℕ)
    (holds : Lease → Type 0) (n : ℕ) (s : Runtime Memory) (a : ℕ) (w : DenseWorld)
    (h : IsConsistent lib laws base holds n s) (at : s.worlds a ≡ some w) where
  open laws use {IsLive, IsBorrowed}

  -- The views of the World itself, where those that are current stay borrowed.
  own-IsTracked :
      (w' : DenseWorld) (m : Memory) (c : ℕ)
      → h.count a ≤ c
      → ((v : Span) (p : ℕ)
          → c ≡ h.count a
          → w.world ≡ some p
          → IsBorrowed p v s.native
          → (w'.world ≡ some p) × IsBorrowed p v m)
      → (v : Lease) → holds v
      → v.world ≡ some a
      → IsTracked lib laws base (recount h.count a c) (replaced s a (some w') m) v
  own-IsTracked w' m c le current v i e =
      let t = h.tracked v i in
      let same : t.address ≡ a = cc (t.refers) in
      let exists : s.worlds a ≡ some t.world = ap s.worlds (sym same) ∙ t.exists in
      let world : t.world ≡ w = cc (exists) in
      let taken_le : t.taken ≤ h.count a = ground (arith, t.taken_le, ap h.count same) in
      record {
        address = a;
        refers = e;
        world = w';
        exists = put_self s.worlds a (some w');
        taken = t.taken;
        taken_le = rw (recount_self h.count a c) (omega arith);
        generation = t.generation;
        current = λ q.
            let now : t.taken ≡ c = q ∙ recount_self h.count a c in
            let (p, open_at, borrowed) = t.current (ground (arith, ap h.count same)) in
            let (open_at', borrowed') =
              current v.span p (omega arith)
                (ap (λ (x : DenseWorld). x.world) (sym world) ∙ open_at) borrowed in
            (p, open_at', borrowed');
      }

  -- The memory changes, and no view is invalidated.
  pub kept-IsConsistent :
      (m : Memory)
      → Keeps lib laws s.native m
      → IsConsistent lib laws base holds (n + 1) (replaced s a (some w) m)
  kept-IsConsistent m k =
      replaced-IsConsistent lib laws base holds n s a (some w) m (h.count a) h
        (record {
          counted = λ x e. ground (arith, h.counted a w at);
          live = λ x p e f. k.live p (h.live a x p (at ∙ e) f);
          distinct = λ x y p b e f ne g. h.distinct a b x y p (λ q. ne (sym q)) (at ∙ e) g f;
          others_live = λ b x q ne e f l. k.live q l;
          others_borrowed = λ b x q v ne e f l. k.borrowed q v l;
          own = own-IsTracked w m (h.count a) (omega arith) λ v p q e l. (e, k.borrowed p v l);
        })
        (omega (arith, h.bounded a))

  -- What the other Worlds need of a change of the memory.
  pub record SparesOthers (m : Memory) : Type 0 where
    pub live :
        (b : ℕ) (x : DenseWorld) (q : ℕ)
        → b ≢ a
        → s.worlds b ≡ some x
        → x.world ≡ some q
        → IsLive q s.native
        → IsLive q m
    pub borrowed :
        (b : ℕ) (x : DenseWorld) (q : ℕ) (v : Span)
        → b ≢ a
        → s.worlds b ≡ some x
        → x.world ≡ some q
        → IsBorrowed q v s.native
        → IsBorrowed q v m

  -- What a World needs to refer to.
  pub record IsPlaced (w' : DenseWorld) (m : Memory) : Type 0 where
    pub live : (p : ℕ) → w'.world ≡ some p → IsLive p m
    pub distinct :
        (x : DenseWorld) (p b : ℕ)
        → w'.world ≡ some p
        → b ≢ a
        → s.worlds b ≡ some x
        → x.world ≢ some p

  -- The World's generation advances: all of its views are stale, the others are kept.
  pub advanced-IsConsistent :
      (w' : DenseWorld) (m : Memory)
      → w'.view_generation ≡ next_generation w.view_generation
      → IsPlaced w' m
      → SparesOthers m
      → IsConsistent lib laws base holds (n + 1) (replaced s a (some w') m)
  advanced-IsConsistent w' m gen placed spares =
      replaced-IsConsistent lib laws base holds n s a (some w') m (h.count a + 1) h
        (record {
          counted = λ x e. ground (arith, h.counted a w at, gen);
          live = λ x p e f. placed.live p (ground arith);
          distinct = λ x y p b e f ne g. placed.distinct y p b (ground arith) ne g;
          others_live = spares.live;
          others_borrowed = spares.borrowed;
          own = own-IsTracked w' m (h.count a + 1) (omega arith) λ v p q e l. absurd (omega arith);
        })
        (omega (arith, h.bounded a))

  -- A closed World takes a new world, with its generation as it is: it has no current view.
  pub first-IsConsistent :
      (w' : DenseWorld) (m : Memory)
      → w.world ≡ none
      → w'.view_generation ≡ w.view_generation
      → IsPlaced w' m
      → SparesOthers m
      → IsConsistent lib laws base holds (n + 1) (replaced s a (some w') m)
  first-IsConsistent w' m shut gen placed spares =
      replaced-IsConsistent lib laws base holds n s a (some w') m (h.count a) h
        (record {
          counted = λ x e. ground (arith, h.counted a w at, gen);
          live = λ x p e f. placed.live p (ground arith);
          distinct = λ x y p b e f ne g. placed.distinct y p b (ground arith) ne g;
          others_live = spares.live;
          others_borrowed = spares.borrowed;
          own = own-IsTracked w' m (h.count a) (omega arith) λ v p q e l. cc;
        })
        (omega (arith, h.bounded a))

  -- A World to which no view refers is gone.
  pub gone-IsConsistent :
      (m : Memory)
      → ((v : Lease) → holds v → v.world ≢ some a)
      → SparesOthers m
      → IsConsistent lib laws base holds (n + 1) (replaced s a none m)
  gone-IsConsistent m unused spares =
      replaced-IsConsistent lib laws base holds n s a none m 0 h
        (record {
          counted = λ x e. cc;
          live = λ x p e f. cc;
          distinct = λ x y p b e f ne g. cc;
          others_live = spares.live;
          others_borrowed = spares.borrowed;
          own = λ v i e. absurd (unused v i e);
        })
        (omega arith)
