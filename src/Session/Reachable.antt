-- ===== src/Session/Reachable.antt =====
-- Every state that a program reaches is consistent.
use native.Mathlib.Numerals.{add-one}
use libdense.Common.{
  ℕ, ◌+◌, ◌≡◌, ◌≢◌, refl, ap, none, some, arith, List, ◌∷◌, ◌++◌, inl, inr, Option-cases,
}
use libdense.DenseSim.{Library}
use libdense.DenseSim.Lifetimes.{Lifetimes, WritersKeep}
use libdense.Buffer.Bytes.{Platform}
use libdense.World.State.{DenseWorld}
use libdense.World.Lifecycle.{DenseFanoutView, new_world, dealloc}
use libdense.Session.State.{
  Session, entered, In, In-nil, In-insert, Step, make, initialise, call, drop_view, drop_world,
  Reach, start, next, no_objects,
}
use libdense.Session.Invariant.{Holds, held, Holds-elim, lease, IsConsistent}
use libdense.Leases.{Lease}
use libdense.Leases.Invariant.{IsTracked}
use libdense.Leases.Change.{replaced, replaced-IsConsistent}
use libdense.Leases.Local.{gone-IsConsistent}
use libdense.Leases.Ticks.{apart}
use libdense.Session.Worlds.{init-IsConsistent}
use libdense.Session.Preserve.{ended, with_reply-IsConsistent}

unheld :
    {Memory : Type 0} (s : Session Memory) (a : ℕ)
    → ((v : DenseFanoutView) → In v s.views → v.world ≢ some a)
    → (l : Lease) → Holds s l
    → l.world ≢ some a
unheld s a unused = Holds-elim s (λ l. l.world ≢ some a) unused

module _ {Memory : Type 0} (lib : Library Memory) (laws : Lifetimes lib)
    (keep : WritersKeep lib laws) (pf : Platform) where
  open laws use {IsLive, IsBorrowed}

  module _ (n : ℕ) (s : Session Memory) (h : IsConsistent lib laws n s) where
    make-IsConsistent :
        (a : ℕ)
        → s.runtime.worlds a ≡ none
        → IsConsistent lib laws
            (n + 1)
            (record s { runtime = replaced s.runtime a (some new_world) s.runtime.native })
    unfolding new_world
    make-IsConsistent a free =
        replaced-IsConsistent lib laws 1 (Holds s) n s.runtime a (some new_world) s.runtime.native 0
          h
          (record {
            counted = λ w e. ground arith;
            live = λ w p e f. cc;
            distinct = λ w x p b e f ne g. cc;
            others_live = λ b x q ne e f l. l;
            others_borrowed = λ b x q v ne e f l. l;
            own = λ v i e.
                let t = h.tracked v i in
                let same : t.address ≡ a = cc (t.refers) in cc (ap s.runtime.worlds same, t.exists);
          })
          (omega arith)

    dropped-IsConsistent :
        (before after : List DenseFanoutView) (v : DenseFanoutView)
        → s.views ≡ before ++ (v ∷ after)
        → IsConsistent lib laws (n + 1) (record s { views = before ++ after })
    dropped-IsConsistent before after v e = record {
      count = h.count;
      bounded = λ a. ground (arith, h.bounded a);
      counted = h.counted;
      live = h.live;
      distinct = h.distinct;
      tracked =
          Holds-elim (record s { views = before ++ after }) (IsTracked lib laws 1 h.count s.runtime)
            λ u i. h.tracked (lease u) (held s u (rw e (In-insert before after v i)));
    }

    gone :
        (a : ℕ) (w : DenseWorld)
        → s.runtime.worlds a ≡ some w
        → ((v : DenseFanoutView) → In v s.views → v.world ≢ some a)
        → IsConsistent lib laws
            (n + 1)
            (record s { runtime = replaced s.runtime a none (dealloc lib (entered s w)).1.native })
    unfolding dealloc
    gone a w at unused = elim (Option-cases w.world) [
      | inl shut ↦
          rw (shut, laws.destroy_null s.runtime.native)
            (gone-IsConsistent lib laws 1 (Holds s) n s.runtime a w h at s.runtime.native
              (unheld s a unused)
              (record { live = λ b x q ne e f l. l; borrowed = λ b x q v ne e f l. l }))
      | inr (p, open_at) ↦
          let m = s.runtime.native in
          let live_at = h.live a w p at open_at in
          rw open_at (
            gone-IsConsistent lib laws 1 (Holds s) n s.runtime a w h at
              (lib.world_destroy (some p) m) (unheld s a unused)
              (record {
                live = λ b x q ne e f l.
                    laws.destroy_live p q m
                      (apart lib laws 1 (Holds s) n s.runtime a w h at p open_at b x q ne e f)
                      live_at l;
                borrowed = λ b x q v ne e f l.
                    laws.destroy_borrowed p q v m
                      (apart lib laws 1 (Holds s) n s.runtime a w h at p open_at b x q ne e f)
                      live_at l;
              }))
    ]

    Step-IsConsistent : {u : Session Memory} → Step lib pf s u → IsConsistent lib laws (n + 1) u
    unfolding ended
    Step-IsConsistent (make a free) = make-IsConsistent a free
    Step-IsConsistent (initialise a w args at) = init-IsConsistent lib laws n s a w h at args
    Step-IsConsistent (call a w c at addressed) =
        with_reply-IsConsistent lib laws n s a w h at pf keep c _ addressed refl
    Step-IsConsistent (drop_view before after v e) = dropped-IsConsistent before after v e
    Step-IsConsistent (drop_world a w at unused) = gone a w at unused

  no_objects-IsConsistent : (m : Memory) → IsConsistent lib laws 0 (no_objects m)
  no_objects-IsConsistent m = record {
    count = λ a. 0;
    bounded = λ a. omega arith;
    counted = λ a w e. cc;
    live = λ a w p e f. cc;
    distinct = λ a b w x p ne e f g. cc;
    tracked = Holds-elim (no_objects m) _ (λ v i. In-nil i);
  }

  -- Every state that a program reaches from none in `k` steps, over a library that keeps the
  -- lifetimes that its header documents, is consistent: open Worlds hold worlds that live and are
  -- distinct, each generation counts the invalidations of its World, which are at most `k`, and a
  -- view taken since the last of them is borrowed from the world of an open World.
  pub Reach-IsConsistent :
      {m : Memory} {k : ℕ} {s : Session Memory}
      → Reach lib pf (no_objects m) k s
      → IsConsistent lib laws k s
  Reach-IsConsistent start = no_objects-IsConsistent _
  Reach-IsConsistent (next {k} {t} r st) =
      rw (← add-one k) (Step-IsConsistent k t (Reach-IsConsistent r) st)
