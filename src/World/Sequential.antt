-- ===== src/World/Sequential.antt =====
-- What a batch promises: its operations run one after the other, and the first that fails ends it.
use libdense.Common.{
  ℕ, suc, ◌+◌, ◌≤◌, ◌≡◌, refl, ap, false, List, [], ◌∷◌, arith, length, if◌then◌else◌, Bool-cases,
  inl, inr,
}
use libdense.DenseSim.{DsResult, ds_ok, is_ok, is_ok-eq_ds_ok}

module _ {A Memory : Type 0} (op : A → Memory → DsResult × Memory) where
  -- From the memory `m` the batch ends with result `r` in the memory `m'`, after `n`
  -- operations that succeeded.
  pub data Sequential : List A → Memory → DsResult → ℕ → Memory → Type 0 where
    finished : {m : Memory} → Sequential [] m ds_ok 0 m
    applied :
        {a : A} {rest : List A} {m m₁ m' : Memory} {r : DsResult} {n : ℕ}
        → op a m ≡ (ds_ok, m₁)
        → Sequential rest m₁ r n m'
        → Sequential (a ∷ rest) m r (suc n) m'
    stopped :
        {a : A} {rest : List A} {m m' : Memory} {r : DsResult}
        → op a m ≡ (r, m')
        → is_ok r ≡ false
        → Sequential (a ∷ rest) m r 0 m'

  -- A loop over the batch; `processed` counts on from `k`.
  unfoldable pub run_batch : List A → (k : ℕ) → Memory → (DsResult × ℕ) × Memory
  run_batch [] k m = ((ds_ok, k), m)
  run_batch (a ∷ rest) k m =
      let (r, m') = op a m in
      let later = run_batch rest (k + 1) m' in if is_ok r then later else ((r, k), m')

  -- The loop does what the batch promises.
  pub run_batch-Sequential :
      (batch : List A) (k : ℕ) (m : Memory)
      → (r : DsResult) × (n : ℕ) × (m' : Memory) × Sequential batch m r n m'
        × (run_batch batch k m ≡ ((r, k + n), m'))
  unfolding run_batch
  run_batch-Sequential [] k m = (ds_ok, 0, m, finished, ground arith)
  run_batch-Sequential (a ∷ rest) k m =
      let (r₁, m₁) = op a m in
      elim (Bool-cases (is_ok r₁)) [
        | inl good ↦
            let (r, n, m', run, e) = run_batch-Sequential rest (k + 1) m₁ in
            (r, suc n, m', applied (ground (arith, is_ok-eq_ds_ok r₁ good)) run, ground (arith, e))
        | inr bad ↦ (r₁, 0, m₁, stopped refl bad, ground arith)
      ]

  -- A batch that ends well has run every operation.
  pub Sequential-all :
      {batch : List A} {m m' : Memory} {n : ℕ} → Sequential batch m ds_ok n m' → n ≡ length batch
  Sequential-all finished = refl
  Sequential-all (applied e run) = ap suc (Sequential-all run)
  Sequential-all (stopped e bad) = cc

  -- No more operations succeed than there are.
  pub Sequential-le :
      {batch : List A} {m m' : Memory} {r : DsResult} {n : ℕ}
      → Sequential batch m r n m'
      → n ≤ length batch
  Sequential-le finished = omega arith
  Sequential-le (applied e run) = omega (arith, Sequential-le run)
  Sequential-le (stopped e bad) = omega arith
