-- ===== src/Session/Preserve.antt =====
-- Every call keeps the invariant.
use libdense.Common.{ℕ, ◌+◌, ◌≡◌, ◌∙◌, Bool-cases, none, some, arith, inl, inr, Option-cases}
use libdense.DenseSim.{is_ok, Library}
use libdense.DenseSim.Lifetimes.{Lifetimes, WritersKeep}
use libdense.Python.{Result, ok, err, fault, Parsed, parsed, rejected}
use libdense.Buffer.Bytes.{Platform}
use libdense.World.State.{DenseWorld, Env, next_generation}
use libdense.World.Lifecycle.{DenseFanoutView, close, begin_tick}
use libdense.World.Calls.{Call, Reply, dispatch}
use libdense.Session.State.{Session, entered, left, with_reply, IsAddressed, In-cons}
use libdense.Session.Stays.{Keeps-refl}
use libdense.Session.Methods.{IsQuiet}
use libdense.Session.Calls.{reply-view, quiet-Keeps}
use libdense.Session.Invariant.{Holds, held, Holds-elim, lease, IsConsistent}
use libdense.Leases.Invariant.{IsTracked}
use libdense.Leases.Local.{kept-IsConsistent}
use libdense.Leases.Ticks.{ticked-IsConsistent, refused-IsConsistent, closed-IsConsistent}

module _ {Memory : Type 0} (lib : Library Memory) (laws : Lifetimes lib) where
  open laws use {IsLive, IsBorrowed}

  module _ (n : ℕ) (s : Session Memory) (a : ℕ) (w : DenseWorld) (h : IsConsistent lib laws n s)
      (at : s.runtime.worlds a ≡ some w) where
    module _ (pf : Platform) where
      -- The state in which a call of the World ends.
      unfoldable pub ended : Call → Env Memory
      ended c = (dispatch lib pf c (entered s w)).1

      close-IsConsistent : IsConsistent lib laws (n + 1) (left s a (ended Call.close))
      unfolding ended dispatch close
      close-IsConsistent = elim (Option-cases w.world) [
        | inl shut ↦
            let same : ended Call.close ≡ entered s w = ground arith in
            rw same (
              kept-IsConsistent lib laws 1 (Holds s) n s.runtime a w h at _ (Keeps-refl lib laws _))
        | inr (p, open_at) ↦
            let same : ended Call.close ≡ record {
              self = record { world = none; view_generation = next_generation w.view_generation };
              native = lib.world_destroy (some p) s.runtime.native;
              held = 0;
            } =
              ground arith in
            rw same (closed-IsConsistent lib laws 1 (Holds s) n s.runtime a w h at p open_at)
      ]

      begin_tick-IsConsistent :
          (args : Parsed ℕ)
          → IsConsistent lib laws (n + 1) (left s a (ended (Call.begin_tick args)))
      unfolding ended dispatch begin_tick
      begin_tick-IsConsistent (rejected e) =
          (kept-IsConsistent lib laws 1 (Holds s) n s.runtime a w h at _ (Keeps-refl lib laws _))
      begin_tick-IsConsistent (parsed t) = elim (Option-cases w.world) [
        | inl shut ↦
            let same : ended (Call.begin_tick (parsed t)) ≡ entered s w = ground arith in
            rw same (
              kept-IsConsistent lib laws 1 (Holds s) n s.runtime a w h at _ (Keeps-refl lib laws _))
        | inr (p, open_at) ↦
            let r = lib.world_begin_tick (some p) t s.runtime.native in
            elim (Bool-cases (is_ok r.0)) [
              | inl good ↦
                  let same : ended (Call.begin_tick (parsed t)) ≡ record {
                    self = record w { view_generation = next_generation w.view_generation };
                    native = r.1;
                    held = 0;
                  } =
                    ground arith in
                  rw same
                    (ticked-IsConsistent lib laws 1 (Holds s) n s.runtime a w h at p t open_at)
              | inr bad ↦
                  let same : ended (Call.begin_tick (parsed t))
                      ≡ record { self = w; native = r.1; held = 0 } =
                    ground arith in
                  rw same (
                    refused-IsConsistent lib laws 1 (Holds s) n s.runtime a w h at p t open_at
                      (λ e. cc))
            ]
      ]

      module _ (keep : WritersKeep lib laws) where
        quiet-IsConsistent :
            (c : Call) → IsQuiet c → IsConsistent lib laws (n + 1) (left s a (ended c))
        unfolding ended
        quiet-IsConsistent c q =
            let (k, same) =
              quiet-Keeps lib pf laws keep c (entered s w) q (λ p e. h.live a w p at e) in
            rw same (kept-IsConsistent lib laws 1 (Holds s) n s.runtime a w h at _ k)

        ended-IsConsistent : (c : Call) → IsConsistent lib laws (n + 1) (left s a (ended c))
        ended-IsConsistent Call.close = close-IsConsistent
        ended-IsConsistent (Call.begin_tick args) = begin_tick-IsConsistent args
        ended-IsConsistent c = quiet-IsConsistent c tt

        -- A view that the call returned is tracked, in the session after the call.
        reply-IsTracked :
            (c : Call) (v : DenseFanoutView)
            → IsAddressed a c
            → (dispatch lib pf c (entered s w)).0 ≡ ok (Reply.view v)
            → (k : IsConsistent lib laws (n + 1) (left s a (ended c)))
            → IsTracked lib laws 1 k.count (left s a (ended c)).runtime (lease v)
        unfolding ended
        reply-IsTracked c v addressed q k =
            let (refers, gen, got, nonempty, same) =
              reply-view lib pf a c (entered s w) v addressed q in
            elim (Option-cases w.world) [
              | inl shut ↦ absurd (nonempty shut)
              | inr (p, open_at) ↦
                  let exists : (left s a (ended c)).runtime.worlds a ≡ some w =
                    ground (arith, same) in
                  let borrowed =
                    laws.view_borrowed p v.view s.runtime.native (h.live a w p at open_at)
                      (rw open_at at got) in
                  record {
                    address = a;
                    refers = refers;
                    world = w;
                    exists = exists;
                    taken = k.count a;
                    taken_le = omega arith;
                    generation = gen ∙ k.counted a w exists;
                    current = λ _. (p, open_at, rw same borrowed);
                  }
            ]

        -- The view of a reply joins the views that are alive.
        pub with_reply-IsConsistent :
            (c : Call) (r : Result Reply)
            → IsAddressed a c
            → (dispatch lib pf c (entered s w)).0 ≡ r
            → IsConsistent lib laws (n + 1) (with_reply r (left s a (ended c)))
        with_reply-IsConsistent c (ok (Reply.view v)) addressed q =
            let k = ended-IsConsistent c in
            record {
              count = k.count;
              bounded = k.bounded;
              counted = k.counted;
              live = k.live;
              distinct = k.distinct;
              tracked =
                  let now = left s a (ended c) in
                  let P =
                    λ (u : DenseFanoutView). IsTracked lib laws 1 k.count now.runtime (lease u) in
                  Holds-elim (with_reply (ok (Reply.view v)) now)
                    (IsTracked lib laws 1 k.count now.runtime)
                    λ u i.
                      In-cons P i (reply-IsTracked c v addressed q k)
                        (λ j. k.tracked (lease u) (held now u j));
            }
        with_reply-IsConsistent c (ok (Reply.value x)) addressed q = ended-IsConsistent c
        with_reply-IsConsistent c (err e) addressed q = ended-IsConsistent c
        with_reply-IsConsistent c fault addressed q = ended-IsConsistent c
