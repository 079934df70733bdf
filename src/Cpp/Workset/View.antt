-- ===== src/Cpp/Workset/View.antt =====
-- What RecipientWorkset::view gives.
use libdense.Common.{
  ℕ, zero, suc, ◌+◌, ◌<◌, ◌≡◌, refl, sym, ap, ◌∙◌, some, List, [], ◌∷◌, ◌++◌, arith, length,
  get_elem?, length-append, inl, inr,
}
use libdense.DenseSim
use libdense.DenseSim.{Library, WorksetLibrary, ds_ok, ObserverId, Pointer}
use libdense.Leases.Change.{eq-cases}
use libdense.Cpp.State.{returned}
use libdense.Cpp.Workset.{RecipientWorkset, copy_loop, view}
use libdense.Cpp.Workset.Types.{RecipientWorksetEntry, RecipientWorksetView, entry_from_c}

get_elem?-front :
    {A : Type 0} (xs : List A) (a : A) (i : ℕ)
    → i < length xs
    → get_elem? (xs ++ (a ∷ [])) i ≡ get_elem? xs i
get_elem?-front [] a i lt = absurd (omega (arith, lt))
get_elem?-front (x ∷ xs) a zero lt = refl
get_elem?-front (x ∷ xs) a (suc i) lt = get_elem?-front xs a i (omega (arith, lt))

get_elem?-last :
    {A : Type 0} (xs : List A) (a : A) → get_elem? (xs ++ (a ∷ [])) (length xs) ≡ some a
get_elem?-last [] a = refl
get_elem?-last (x ∷ xs) a = get_elem?-last xs a

module _ {Memory : Type 0} (lib : Library Memory) (wl : WorksetLibrary Memory) (m : Memory) where
  -- The list has the first `n` entries of the array at `a`.
  pub record IsCopied (a : Pointer) (n : ℕ) (xs : List RecipientWorksetEntry) : Type 0 where
    pub count : length xs ≡ n
    pub each :
        (i : ℕ)
        → i < n
        → (x : DenseSim.RecipientWorksetEntry) × (wl.read_entry a i m ≡ some x)
          × (get_elem? xs i ≡ some (entry_from_c x))

  pushed-IsCopied :
      (a : Pointer) (n : ℕ) (xs : List RecipientWorksetEntry) (x : DenseSim.RecipientWorksetEntry)
      → wl.read_entry a n m ≡ some x
      → IsCopied a n xs
      → IsCopied a (n + 1) (xs ++ (entry_from_c x ∷ []))
  pushed-IsCopied a n xs x got c = record {
    count = omega (arith, c.count, length-append xs (entry_from_c x ∷ []));
    each = λ i lt. elim (eq-cases n i) [
      | inl here ↦
          let last : get_elem? (xs ++ (entry_from_c x ∷ [])) n ≡ some (entry_from_c x) =
            ap (get_elem? (xs ++ (entry_from_c x ∷ []))) (sym c.count)
            ∙ get_elem?-last xs (entry_from_c x) in
          rw here (x, got, last)
      | inr ne ↦
          let (y, at, kept) = c.each i (omega (arith, lt, ne)) in
          (y, at, get_elem?-front xs (entry_from_c x) i (omega (arith, lt, ne, c.count)) ∙ kept)
    ];
  }

  module _ (a : Pointer) (n : ℕ)
      (readable : (i : ℕ)
        → i < n
        → (x : DenseSim.RecipientWorksetEntry) × (wl.read_entry a i m ≡ some x)) where
    copy_loop-IsCopied :
        (left index : ℕ) (xs : List RecipientWorksetEntry)
        → index + left ≡ n
        → IsCopied a index xs
        → (ys : List RecipientWorksetEntry) × (copy_loop lib wl a left index xs m ≡ returned ys)
          × IsCopied a n ys
    unfolding copy_loop
    copy_loop-IsCopied zero index xs e c =
        let same : index ≡ n = omega (arith, e) in (xs, refl, rw (← same) c)
    copy_loop-IsCopied (suc left) index xs e c =
        let (x, got) = readable index (omega (arith, e)) in
        let (ys, rest, copied) =
          copy_loop-IsCopied left (index + 1) (xs ++ (entry_from_c x ∷ [])) (omega (arith, e))
            (pushed-IsCopied a index xs x got c) in
        (ys, rw (got, copy_loop) rest, copied)

  -- Where ds_recipient_workset_get_view succeeds and the entries that it lends can be read, `view`
  -- ends and returns their copy: as many entries as are visible, in order, with the tick, the
  -- observer, the certificate and the count of pending entries of the borrowed view.
  pub view-IsCopied :
      (self : RecipientWorkset) (observer_id : ObserverId) (v : DenseSim.RecipientWorksetSpan)
      → wl.get_view self.workset_ observer_id m ≡ (ds_ok, v)
      → ((i : ℕ)
          → i < v.visible_count
          → (x : DenseSim.RecipientWorksetEntry) × (wl.read_entry v.entries i m ≡ some x))
      → (r : RecipientWorksetView) × (view lib wl self observer_id m ≡ returned r)
        × IsCopied v.entries v.visible_count r.entries
        × (r.tick ≡ v.tick)
        × (r.observer_id ≡ v.observer_id)
        × (r.visible_set_generation ≡ v.visible_set_generation)
        × (r.visible_set_fingerprint ≡ v.visible_set_fingerprint)
        × (r.dirty_count ≡ v.dirty_count)
  unfolding view
  view-IsCopied self observer_id v got readable =
      let (ys, copied, c) =
        copy_loop-IsCopied v.entries v.visible_count readable v.visible_count 0 [] (omega arith)
          (record { count = refl; each = λ i lt. absurd (omega (arith, lt)) }) in
      (
        record {
          tick = v.tick;
          observer_id = v.observer_id;
          visible_set_generation = v.visible_set_generation;
          visible_set_fingerprint = v.visible_set_fingerprint;
          entries = ys;
          dirty_count = v.dirty_count;
        },
        rw (got, copied) refl,
        c,
        refl,
        refl,
        refl,
        refl,
        refl,
      )
