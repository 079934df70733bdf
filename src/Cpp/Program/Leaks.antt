-- ===== src/Cpp/Program/Leaks.antt =====
-- A C++ program leaves no world and no state behind.
use libdense.Common.{ℕ, ◌≡◌, refl, ◌∙◌, inl, inr, Option-cases, none}
use libdense.DenseSim.{Library}
use libdense.DenseSim.Lifetimes.{Lifetimes, WritersKeep, RefusedCreate}
use libdense.DenseSim.Existence.{Existence}
use libdense.Cpp.State.{Outcome, returned, World}
use libdense.Cpp.Calls.{Reply}
use libdense.Cpp.Variables.{Program, no_variables, entered, constructed, replied}
use libdense.Cpp.Program.{
  Step, construct_world, move_construct_world, move_assign_world, destroy_world, call, derive,
  default, drop, Reach, start, next,
}
use libdense.Cpp.Program.Invariant.{IsSound}
use libdense.Cpp.Program.Reachable.{Reach-IsSound}
use libdense.Cpp.Program.Worlds.{
  IsCovered, Settles-IsCovered, dispatch-IsCovered, construct-IsCovered,
}

module _ {Memory : Type 0} where
  -- The result of a call goes to a variable, and the heap stays as it is.
  replied-heap : (y : ℕ) (o : Outcome Reply) (p : Program Memory) → (replied y o p).heap ≡ p.heap
  replied-heap y (returned (Reply.view v)) p = refl
  replied-heap y _ p = refl

  constructed-heap :
      (x : ℕ) (o : Outcome World) (p : Program Memory) → (constructed x o p).heap ≡ p.heap
  constructed-heap x (returned w) p = refl
  constructed-heap x _ p = refl

module _ {Memory : Type 0} (lib : Library Memory) (laws : Lifetimes lib)
    (keep : WritersKeep lib laws) (refused : RefusedCreate lib) (exact : Existence lib laws) where
  open laws use {IsLive}

  Step-IsCovered :
      (n : ℕ) (p q : Program Memory)
      → IsSound lib laws n p
      → IsCovered lib laws exact p.heap
      → Step lib p q
      → IsCovered lib laws exact q.heap
  Step-IsCovered n p _ h covered (construct_world x a config unused free) =
      rw (constructed-heap x _ _)
        (construct-IsCovered lib laws exact refused a config p.heap covered free)
  Step-IsCovered n p _ h covered (move_construct_world x y w unused at) = covered
  Step-IsCovered n p _ h covered (move_assign_world x y v w q ne before at settles) =
      Settles-IsCovered lib laws exact _ q v.state_ (λ a st w e f. h.consistent.live a st w e f)
        covered settles
  Step-IsCovered n p _ h covered (destroy_world x w q at settles) =
      Settles-IsCovered lib laws exact _ q w.state_ (λ a st w e f. h.consistent.live a st w e f)
        covered settles
  Step-IsCovered n p _ h covered (call x y w c at free) = rw (replied-heap y _ _) (
      dispatch-IsCovered lib laws exact (entered p w) covered c λ q open_at.
        elim (Option-cases w.state_) [
          | inl empty ↦ cc (h.linked.moved x w at empty, open_at)
          | inr (a, shared) ↦
              let (st, there) = h.linked.existing x a w at shared in
              let agree = h.linked.agree x a w st at shared there ∙ open_at in
              (a, st, shared, there, agree, h.consistent.live a st q there agree)
        ])
  Step-IsCovered n p _ h covered (derive y z k k' at free d) = covered
  Step-IsCovered n p _ h covered (default y k free empty) = covered
  Step-IsCovered n p _ h covered (drop y k q at settles) =
      Settles-IsCovered lib laws exact _ q _ (λ a st w e f. h.consistent.live a st w e f) covered
        settles

  Reach-IsCovered :
      {m : Memory} {k : ℕ} {p : Program Memory}
      → ((q : ℕ) → ¬ (IsLive q m))
      → Reach lib (no_variables m) k p
      → IsCovered lib laws exact p.heap
  Reach-IsCovered bare start = λ q l. absurd (bare q l)
  Reach-IsCovered bare (next {k} {q} {r} reach step) =
      Step-IsCovered k q r (Reach-IsSound lib laws keep refused reach) (Reach-IsCovered bare reach)
        step

  -- A C++ program that starts where no native world exists, and has ended the lifetimes of all its
  -- objects and handles, leaves no native world and no shared state behind: every world that
  -- ds_world_create has made has gone through ds_world_destroy, also where a constructor threw, an
  -- object was moved from or assigned to, or a view outlived its World. It is shown over a library
  -- that keeps the lifetimes that its header documents, makes worlds in ds_world_create only, and
  -- leaves the out-parameter null where that function fails.
  pub Reach-none_left :
      {m : Memory} {k : ℕ} {p : Program Memory}
      → ((q : ℕ) → ¬ (IsLive q m))
      → Reach lib (no_variables m) k p
      → ((x : ℕ) → p.objects x ≡ none)
      → ((y : ℕ) → p.handles y ≡ none)
      → ((q : ℕ) → ¬ (IsLive q p.heap.native)) × ((a : ℕ) → p.heap.worlds a ≡ none)
  Reach-none_left {p = p} bare reach no_objects no_handles =
      let gone : (a : ℕ) → p.heap.worlds a ≡ none = λ a. elim (Option-cases (p.heap.worlds a)) [
        | inl gone ↦ gone
        | inr (st, at) ↦ elim ((Reach-IsSound lib laws keep refused reach).owned a st at) [
          | inl (x, w, object, shared) ↦ cc (no_objects x)
          | inr (y, h, handle, shared) ↦ cc (no_handles y)
        ]
      ] in
      ((λ q l. let (a, st, at, owns) = Reach-IsCovered bare reach q l in cc (gone a, at)), gone)
