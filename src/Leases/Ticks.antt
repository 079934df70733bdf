-- ===== src/Leases/Ticks.antt =====
-- What becomes of the invariant where a World ticks, closes, or takes a world.
use libdense.Common.{ℕ, ◌+◌, ◌≡◌, ◌≢◌, refl, sym, ap, ◌∙◌, none, some}
use libdense.DenseSim.{ds_ok, Library, WorldConfig}
use libdense.DenseSim.Lifetimes.{Lifetimes}
use libdense.World.State.{DenseWorld, next_generation}
use libdense.View.State.{Runtime}
use libdense.Leases.{Lease}
use libdense.Leases.Invariant.{IsConsistent}
use libdense.Leases.Change.{replaced}
use libdense.Leases.Local.{kept-IsConsistent, advanced-IsConsistent, first-IsConsistent}

module _ {Memory : Type 0} (lib : Library Memory) (laws : Lifetimes lib) (base : ℕ)
    (holds : Lease → Type 0) where
  open laws use {IsLive, IsBorrowed}

  module _ (n : ℕ) (s : Runtime Memory) (a : ℕ) (w : DenseWorld)
      (h : IsConsistent lib laws base holds n s) (at : s.worlds a ≡ some w) where
    -- Another World's world is not the one at `p`.
    pub apart :
        (p : ℕ)
        → w.world ≡ some p
        → (b : ℕ) (x : DenseWorld) (q : ℕ) → b ≢ a
        → s.worlds b ≡ some x
        → x.world ≡ some q
        → p ≢ q
    apart p open_at b x q ne e f same =
        h.distinct a b w x p (λ r. ne (sym r)) at e open_at (f ∙ ap some (sym same))

    -- A successful begin_tick.
    pub ticked-IsConsistent :
        (p t : ℕ)
        → w.world ≡ some p
        → IsConsistent lib laws base holds (n + 1) (
            replaced s a
              (some (record w { view_generation = next_generation w.view_generation }))
              (lib.world_begin_tick (some p) t s.native).1)
    ticked-IsConsistent p t open_at =
        let live_at = h.live a w p at open_at in
        advanced-IsConsistent lib laws base holds n s a w h at _ _ refl
          (record {
            live = λ q f. laws.begin_tick_live p t q s.native live_at (h.live a w q at f);
            distinct = λ x q b f ne e g. h.distinct a b w x q (λ r. ne (sym r)) at e f g;
          })
          (record {
            live = λ b x q ne e f l. laws.begin_tick_live p t q s.native live_at l;
            borrowed = λ b x q v ne e f l.
                laws.begin_tick_borrowed p t q v s.native (apart p open_at b x q ne e f) live_at l;
          })

    -- A begin_tick that is refused.
    pub refused-IsConsistent :
        (p t : ℕ)
        → w.world ≡ some p
        → (lib.world_begin_tick (some p) t s.native).0 ≢ ds_ok
        → IsConsistent lib laws base holds
            (n + 1)
            (replaced s a (some w) (lib.world_begin_tick (some p) t s.native).1)
    refused-IsConsistent p t open_at bad =
        let live_at = h.live a w p at open_at in
        kept-IsConsistent lib laws base holds n s a w h at _ (record {
          live = λ q l. laws.begin_tick_live p t q s.native live_at l;
          borrowed = λ q v l. laws.begin_tick_refused p t q v s.native live_at bad l;
        })

    pub closed-IsConsistent :
        (p : ℕ)
        → w.world ≡ some p
        → IsConsistent lib laws base holds (n + 1) (
            replaced s a
              (some (record { world = none; view_generation = next_generation w.view_generation }))
              (lib.world_destroy (some p) s.native))
    closed-IsConsistent p open_at =
        let live_at = h.live a w p at open_at in
        advanced-IsConsistent lib laws base holds n s a w h at _ _ refl
          (record { live = λ q f. cc; distinct = λ x q b f ne e g. cc })
          (record {
            live = λ b x q ne e f l.
                laws.destroy_live p q s.native (apart p open_at b x q ne e f) live_at l;
            borrowed = λ b x q v ne e f l.
                laws.destroy_borrowed p q v s.native (apart p open_at b x q ne e f) live_at l;
          })

    module _ (config : WorldConfig) (good : (lib.world_create config s.native).0 ≡ ds_ok) where
      -- The world that was created is none of those that were there.
      pub fresh :
          (p b : ℕ) (x : DenseWorld)
          → (lib.world_create config s.native).1 ≡ some p
          → s.worlds b ≡ some x
          → x.world ≢ some p
      fresh p b x e f g =
          let (q, made, live_after, new) = laws.create_result config s.native good in
          let same : p ≡ q = cc (made, e) in new (rw (← same) (h.live b x p f g))

      pub created_live :
          (p : ℕ)
          → (lib.world_create config s.native).1 ≡ some p
          → IsLive p (lib.world_create config s.native).2
      created_live p e =
          let (q, made, live_after, new) = laws.create_result config s.native good in
          let same : p ≡ q = cc (made, e) in rw same live_after

      pub init_first-IsConsistent :
          w.world ≡ none
          → IsConsistent lib laws base holds (n + 1) (
              replaced s a
                (some (record w { world = (lib.world_create config s.native).1 }))
                (lib.world_create config s.native).2)
      init_first-IsConsistent shut =
          first-IsConsistent lib laws base holds n s a w h at _ _ shut refl
            (record { live = created_live; distinct = λ x p b e ne f g. fresh p b x e f g })
            (record {
              live = λ b x q ne e f l. laws.create_live config s.native q l;
              borrowed = λ b x q v ne e f l. laws.create_borrowed config s.native q v l;
            })

      pub init_again-IsConsistent :
          (p : ℕ)
          → w.world ≡ some p
          → IsConsistent lib laws base holds (n + 1) (
              replaced s a
                (some (record {
                  world = (lib.world_create config s.native).1;
                  view_generation = next_generation w.view_generation;
                }))
                (lib.world_destroy (some p) (lib.world_create config s.native).2))
      init_again-IsConsistent p open_at =
          let m = (lib.world_create config s.native).2 in
          let live_at = laws.create_live config s.native p (h.live a w p at open_at) in
          advanced-IsConsistent lib laws base holds n s a w h at _ _ refl
            (record {
              live = λ q e.
                  laws.destroy_live p q m (λ r. fresh q a w e at (open_at ∙ ap some r)) live_at
                    (created_live q e);
              distinct = λ x q b e ne f g. fresh q b x e f g;
            })
            (record {
              live = λ b x q ne e f l.
                  laws.destroy_live p q m (apart p open_at b x q ne e f) live_at
                    (laws.create_live config s.native q l);
              borrowed = λ b x q v ne e f l.
                  laws.destroy_borrowed p q v m (apart p open_at b x q ne e f) live_at
                    (laws.create_borrowed config s.native q v l);
            })
