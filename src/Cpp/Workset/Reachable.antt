-- ===== src/Cpp/Workset/Reachable.antt =====
-- Every native workset has one owner, in every state that a program reaches.
use mathlib.Core.Path.{subst, fun_ext}
use libdense.Common.{
  ℕ, ◌≡◌, ◌≢◌, sym, ap, ◌∙◌, inl, inr, Bool-cases, Option-cases, Option, none, some, arith,
}
use libdense.DenseSim
use libdense.DenseSim.{Pointer, ds_ok, is_ok, is_ok-eq_ds_ok, Library, WorksetLibrary}
use libdense.Leases.Change.{put, put_self, put_ne}
use libdense.Cpp.Workset
use libdense.Cpp.Workset.{RecipientWorkset, construct, move_construct, move_assign, destroy}
use libdense.Cpp.Workset.Types.{RecipientWorksetConfig}
use libdense.Cpp.Workset.Owners.{
  WorksetLifetimes, IsAlike, IsUsable, UsersKeep, Call, sync, enqueue_source, view, acknowledge,
  clear, stats, Program, constructed, no_worksets, used, Step, make, move_make, assign, end, use_it,
  Reach, start, next,
}
use libdense.Cpp.Workset.Preserve.{
  IsOwned, alike-IsOwned, released-IsOwned, moved-IsOwned, made-IsOwned,
}

put_thrice :
    (f : ℕ → Option RecipientWorkset) (x y : ℕ) (o o' b : Option RecipientWorkset)
    → put (put (put f x o) y b) x o' ≡ put (put f y b) x o'
put_thrice f x y o o' b = fun_ext (λ z. ground arith)

module _ {Memory : Type 0} (lib : Library Memory) (wl : WorksetLibrary Memory)
    (laws : WorksetLifetimes wl) (keep : UsersKeep wl laws) where
  open laws use {IsLive}

  Alike-refl : (m : Memory) → IsAlike wl laws m m
  Alike-refl m = record { onward = λ q l. l; back = λ q l. l }

  -- A call on an object that owns a workset that exists, or none.
  used-IsAlike :
      (c : Call) (w : RecipientWorkset) (m : Memory)
      → IsUsable wl laws w.workset_ m
      → IsAlike wl laws m (used lib wl c w m)
  unfolding used Workset.sync Workset.enqueue_source Workset.acknowledge Workset.clear
  used-IsAlike (sync world) w m h = elim (Option-cases world.world_) [
    | inl shut ↦
        let same : used lib wl (sync world) w m ≡ m = ground (arith, shut) in rw same (Alike-refl m)
    | inr (q, open_at) ↦
        let same : used lib wl (sync world) w m ≡ (wl.sync w.workset_ (some q) m).1 =
          ground (arith, open_at) in
        rw same (keep.sync w.workset_ (some q) m h)
  ]
  used-IsAlike (enqueue_source world id mask) w m h = elim (Option-cases world.world_) [
    | inl shut ↦
        let same : used lib wl (enqueue_source world id mask) w m ≡ m = ground (arith, shut) in
        rw same (Alike-refl m)
    | inr (q, open_at) ↦
        let same : used lib wl (enqueue_source world id mask) w m
            ≡ (wl.enqueue_source w.workset_ (some q) id mask m).1 =
          ground (arith, open_at) in
        rw same (keep.enqueue_source w.workset_ (some q) id mask m h)
  ]
  used-IsAlike (view observer_id) w m h = Alike-refl m
  used-IsAlike (acknowledge v id mask) w m h =
      let same : used lib wl (acknowledge v id mask) w m
          ≡ (wl.acknowledge w.workset_ v.observer_id v.visible_set_generation
              v.visible_set_fingerprint id mask m).1 =
        ground arith in
      rw same (keep.acknowledge w.workset_ _ _ _ id mask m h)
  used-IsAlike (clear v) w m h =
      let same : used lib wl (clear v) w m
          ≡ (wl.clear w.workset_ v.observer_id v.visible_set_generation v.visible_set_fingerprint
              m).1 =
        ground arith in
      rw same (keep.clear w.workset_ _ _ _ m h)
  used-IsAlike stats w m h = Alike-refl m

  module _ (p : Program Memory) (h : IsOwned wl laws p.objects p.native) where
    construct-IsOwned :
        (x : ℕ) (config : RecipientWorksetConfig)
        → p.objects x ≡ none
        → let (r, m) = construct lib wl config p.native in
          let q = constructed x r (record p { native = m }) in IsOwned wl laws q.objects q.native
    unfolding construct
    construct-IsOwned x config free =
        let c : DenseSim.RecipientWorksetConfig = record wl.config_defaults {
          initial_recipient_capacity = config.initial_recipient_capacity;
          initial_visible_capacity_per_recipient = config.initial_visible_capacity_per_recipient;
        } in
        let r = wl.create c p.native in
        elim (Bool-cases (is_ok r.0)) [
          | inl good ↦
              let (q, got, born, new) = laws.create_result c p.native (is_ok-eq_ds_ok r.0 good) in
              rw (good, got) (made-IsOwned wl laws p.objects p.native h x c q free got born new)
          | inr bad ↦ rw bad (
              alike-IsOwned wl laws p.objects p.native r.2
                (record {
                  onward = λ q l. laws.create_keeps c p.native q l;
                  back = λ q l. elim (laws.create_only c p.native q l) [
                    | inl before ↦ before
                    | inr (good, this) ↦ cc (bad, good)
                  ];
                })
                h)
        ]

    assign-IsOwned :
        (x y : ℕ) (v w : RecipientWorkset)
        → x ≢ y
        → p.objects x ≡ some v
        → p.objects y ≡ some w
        → IsOwned wl laws
            (put (put p.objects y (some (record { workset_ = none }))) x (some w))
            (wl.destroy v.workset_ p.native)
    assign-IsOwned x y v w ne at other =
        let vacant : Option RecipientWorkset = some (record { workset_ = none }) in
        let released = released-IsOwned wl laws p.objects p.native h x v vacant at (λ u e. cc) in
        subst (λ f. IsOwned wl laws f (wl.destroy v.workset_ p.native))
          (put_thrice p.objects x y vacant (some w) vacant)
          (moved-IsOwned wl laws (put p.objects x vacant) (wl.destroy v.workset_ p.native) released
            x y w ne (λ u e. ground (arith, put_self p.objects x vacant, e))
            (put_ne p.objects x y vacant (λ q. ne (sym q)) ∙ other))

    Step-IsOwned : {q : Program Memory} → Step lib wl p q → IsOwned wl laws q.objects q.native
    unfolding move_assign destroy
    Step-IsOwned (make x config free) = construct-IsOwned x config free
    Step-IsOwned (move_make x y w free at) =
        moved-IsOwned wl laws p.objects p.native h x y w (λ q. cc (ap p.objects q, free, at))
          (λ v e. cc) at
    Step-IsOwned (assign x y v w ne at other) = assign-IsOwned x y v w ne at other
    Step-IsOwned (end x w at) =
        released-IsOwned wl laws p.objects p.native h x w none at (λ v e. cc)
    Step-IsOwned (use_it x w c at) =
        alike-IsOwned wl laws p.objects p.native (used lib wl c w p.native)
          (used-IsAlike c w p.native (λ q s. h.live x q w at s)) h

  -- In every state that a C++ program reaches from none of its objects and no workset, each object
  -- that has not been moved from owns a native workset that exists, no two of them the same one, and
  -- every workset that exists has an owner, provided the library's functions make and destroy
  -- worksets as their names say. So none is used or destroyed after its end, and none is leaked.
  pub Reach-IsOwned :
      {m : Memory} {p : Program Memory}
      → ((q : ℕ) → ¬ (IsLive q m))
      → Reach lib wl (no_worksets m) p
      → IsOwned wl laws p.objects p.native
  Reach-IsOwned empty start = record {
    live = λ x q w at s. cc;
    sole = λ x y q v w ne at other s t. cc;
    owned = λ q l. absurd (empty q l);
  }
  Reach-IsOwned empty (next {q} {r} reach step) = Step-IsOwned q (Reach-IsOwned empty reach) step
