-- ===== src/Cpp/Workset/Preserve.antt =====
-- Every native workset has one owner: what objects that change hands keep of it.
use mathlib.Core.Path.{subst}
use libdense.Common.{ℕ, ◌≡◌, ◌≢◌, sym, ap, ◌∙◌, ◌⊎◌, inl, inr, Option-cases, Option, none, some}
use libdense.DenseSim
use libdense.DenseSim.{Pointer, ds_ok, is_ok, is_ok-eq_ds_ok, Library, WorksetLibrary}
use libdense.Leases.Change.{put, put_self, put_ne, eq-cases, put-cases}
use libdense.Cpp.Workset.{RecipientWorkset}
use libdense.Cpp.Workset.Owners.{WorksetLifetimes, IsAlike}

module _ {Memory : Type 0} (wl : WorksetLibrary Memory) (laws : WorksetLifetimes wl) where
  open laws use {IsLive}

  -- The objects own the worksets that exist, each of them one.
  pub record IsOwned (objects : ℕ → Option RecipientWorkset) (m : Memory) : Type 0 where
    pub live :
        (x q : ℕ) (w : RecipientWorkset) → objects x ≡ some w → w.workset_ ≡ some q → IsLive q m
    pub sole :
        (x y q : ℕ) (v w : RecipientWorkset)
        → x ≢ y
        → objects x ≡ some v
        → objects y ≡ some w
        → v.workset_ ≡ some q
        → w.workset_ ≢ some q
    pub owned :
        (q : ℕ)
        → IsLive q m
        → (x : ℕ) × (w : RecipientWorkset) × (objects x ≡ some w) × (w.workset_ ≡ some q)

  pub alike-IsOwned :
      (objects : ℕ → Option RecipientWorkset) (m m' : Memory)
      → IsAlike wl laws m m'
      → IsOwned objects m
      → IsOwned objects m'
  alike-IsOwned objects m m' a h = record {
    live = λ x q w at s. a.onward q (h.live x q w at s);
    sole = h.sole;
    owned = λ q l. h.owned q (a.back q l);
  }

  module _ (f : ℕ → Option RecipientWorkset) (m : Memory) (h : IsOwned f m) (x : ℕ) where
    -- The object at `x` comes to own nothing, or goes, where it has owned nothing.
    emptied-IsOwned :
        (w : RecipientWorkset) (o : Option RecipientWorkset)
        → f x ≡ some w
        → w.workset_ ≡ none
        → ((v : RecipientWorkset) → o ≡ some v → v.workset_ ≡ none)
        → IsOwned (put f x o) m
    emptied-IsOwned w o at empty vacant = record {
      live = λ y q v e s. elim (put-cases f x y o v e) [
        | inl (here, new) ↦ cc (vacant v new, s)
        | inr (ne, old) ↦ h.live y q v old s
      ];
      sole = λ y z q v u ne e g s t. elim (put-cases f x y o v e) [
        | inl (here, new) ↦ cc (vacant v new, s)
        | inr (ny, old) ↦ elim (put-cases f x z o u g) [
          | inl (here, new) ↦ cc (vacant u new, t)
          | inr (nz, old') ↦ h.sole y z q v u ne old old' s t
        ]
      ];
      owned = λ q l.
          let (y, v, e, s) = h.owned q l in
          let other : y ≢ x = λ r. cc (ap f r, e, at, s, empty) in
          (y, v, put_ne f x y o other ∙ e, s);
    }

    -- Its workset is destroyed.
    pub released-IsOwned :
        (w : RecipientWorkset) (o : Option RecipientWorkset)
        → f x ≡ some w
        → ((v : RecipientWorkset) → o ≡ some v → v.workset_ ≡ none)
        → IsOwned (put f x o) (wl.destroy w.workset_ m)
    released-IsOwned w o at vacant = elim (Option-cases w.workset_) [
      | inl empty ↦ rw (empty, laws.destroy_null m) (emptied-IsOwned w o at empty vacant)
      | inr (p, has) ↦
          let live_at = h.live x p w at has in
          rw has (record {
            live = λ y q v e s. elim (put-cases f x y o v e) [
              | inl (here, new) ↦ cc (vacant v new, s)
              | inr (ne, old) ↦
                  laws.destroy_keeps p q m
                    (λ r. h.sole x y p w v (λ k. ne (sym k)) at old has (s ∙ ap some (sym r)))
                    live_at (h.live y q v old s)
            ];
            sole = λ y z q v u ne e g s t. elim (put-cases f x y o v e) [
              | inl (here, new) ↦ cc (vacant v new, s)
              | inr (ny, old) ↦ elim (put-cases f x z o u g) [
                | inl (here, new) ↦ cc (vacant u new, t)
                | inr (nz, old') ↦ h.sole y z q v u ne old old' s t
              ]
            ];
            owned = λ q l.
                let (ne, before) = laws.destroy_only p q m live_at l in
                let (y, v, e, s) = h.owned q before in
                let other : y ≢ x = λ r. ne (cc (ap f r, e, at, s, has)) in
                (y, v, put_ne f x y o other ∙ e, s);
          })
    ]

    -- It takes the workset of another object, where it owns none.
    module _ (y : ℕ) (w : RecipientWorkset) (apart : x ≢ y)
        (vacant : (v : RecipientWorkset) → f x ≡ some v → v.workset_ ≡ none)
        (at : f y ≡ some w) where
      abbrev taken : ℕ → Option RecipientWorkset
      taken = put (put f y (some (record { workset_ = none }))) x (some w)

      taken-cases :
          (z q : ℕ) (v : RecipientWorkset)
          → taken z ≡ some v
          → v.workset_ ≡ some q
          → ((z ≡ x) × (v ≡ w)) ⊎ ((y ≢ z) × (f z ≡ some v))
      taken-cases z q v e s =
          elim (put-cases (put f y (some (record { workset_ = none }))) x z (some w) v e) [
            | inl (here, new) ↦ inl (here, cc (new))
            | inr (nx, there) ↦ elim (put-cases f y z (some (record { workset_ = none })) v there) [
              | inl (moved, gone) ↦ cc (gone, s)
              | inr (ny, old) ↦ inr (λ k. ny (sym k), old)
            ]
          ]

      pub moved-IsOwned : IsOwned taken m
      moved-IsOwned = record {
        live = λ z q v e s. elim (taken-cases z q v e s) [
          | inl (here, new) ↦ h.live y q v (at ∙ ap some (sym new)) s
          | inr (ny, old) ↦ h.live z q v old s
        ];
        sole = λ z z' q v u ne e g s t. elim (taken-cases z q v e s) [
          | inl (here, new) ↦ elim (taken-cases z' q u g t) [
            | inl (here', new') ↦ absurd (ne (here ∙ sym here'))
            | inr (ny, old) ↦ h.sole y z' q v u ny (at ∙ ap some (sym new)) old s t
          ]
          | inr (ny, old) ↦ elim (taken-cases z' q u g t) [
            | inl (here', new') ↦ h.sole y z q u v ny (at ∙ ap some (sym new')) old t s
            | inr (ny', old') ↦ h.sole z z' q v u ne old old' s t
          ]
        ];
        owned = λ q l.
            let (z, v, e, s) = h.owned q l in
            elim (eq-cases x z) [
              | inl here ↦ cc (vacant v (ap f (sym here) ∙ e), s)
              | inr nx ↦ elim (eq-cases y z) [
                | inl source ↦
                    let one : w ≡ v = cc (ap f source, at, e) in
                    (
                      x,
                      w,
                      put_self (put f y (some (record { workset_ = none }))) x (some w),
                      ap (λ (k : RecipientWorkset). k.workset_) one ∙ s,
                    )
                | inr ny ↦ (
                  z,
                  v,
                  put_ne (put f y (some (record { workset_ = none }))) x z (some w) nx
                      ∙ put_ne f y z (some (record { workset_ = none })) ny
                      ∙ e,
                  s,
                )
              ]
            ];
      }

    -- A new object owns a new workset.
    pub made-IsOwned :
        (config : DenseSim.RecipientWorksetConfig) (p : ℕ)
        → f x ≡ none
        → (wl.create config m).1 ≡ some p
        → IsLive p (wl.create config m).2
        → ¬ (IsLive p m)
        → IsOwned (put f x (some (record { workset_ = some p }))) (wl.create config m).2
    made-IsOwned config p free got born new = record {
      live = λ y q v e s. elim (put-cases f x y _ v e) [
        | inl (here, one) ↦
            let same : p ≡ q = cc (one, s) in subst (λ k. IsLive k (wl.create config m).2) same born
        | inr (ne, old) ↦ laws.create_keeps config m q (h.live y q v old s)
      ];
      sole = λ y z q v u ne e g s t. elim (put-cases f x y _ v e) [
        | inl (here, one) ↦ elim (put-cases f x z _ u g) [
          | inl (here', one') ↦ absurd (ne (here ∙ sym here'))
          | inr (nz, old) ↦
              let same : q ≡ p = cc (one, s) in new (h.live z p u old (t ∙ ap some same))
        ]
        | inr (ny, old) ↦ elim (put-cases f x z _ u g) [
          | inl (here', one') ↦
              let same : q ≡ p = cc (one', t) in absurd (new (h.live y p v old (s ∙ ap some same)))
          | inr (nz, old') ↦ h.sole y z q v u ne old old' s t
        ]
      ];
      owned = λ q l. elim (laws.create_only config m q l) [
        | inl before ↦
            let (y, v, e, s) = h.owned q before in
            let other : y ≢ x = λ r. cc (ap f r, e, free) in
            (y, v, put_ne f x y (some (record { workset_ = some p })) other ∙ e, s)
        | inr (good, this) ↦ (
          x,
          record { workset_ = some p },
          put_self f x (some (record { workset_ = some p })),
          sym got ∙ this,
        )
      ];
    }
