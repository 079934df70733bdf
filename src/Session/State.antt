-- ===== src/Session/State.antt =====
-- The objects that a Python program holds, and the steps by which it changes them.
use libdense.Common.{ℕ, suc, ◌≡◌, ◌≢◌, Option, none, some, List, [], ◌∷◌, ◌++◌}
use libdense.Common.Int.{ℤ}
use libdense.DenseSim.{Library}
use libdense.Python.{Result, ok, Parsed}
use libdense.Buffer.Bytes.{Platform}
use libdense.World.State.{DenseWorld, Env}
use libdense.World.Lifecycle.{DenseFanoutView, new_world, init, dealloc}
use libdense.World.Calls.{Call, Reply, dispatch}
use libdense.View.State.{Runtime}
use libdense.Leases.Change.{put}

-- The library's memory and the Worlds, and the fanout views that are alive.
pub record Session (Memory : Type 0) : Type 0 where
  pub runtime : Runtime Memory
  pub views : List DenseFanoutView

module _ {Memory : Type 0} where
  -- The state in which a method of the World `w` starts.
  abbrev pub entered : Session Memory → DenseWorld → Env Memory
  entered s w = record { self = w; native = s.runtime.native; held = 0 }

  -- The session after the method of the World at `a` has left the state `e`.
  abbrev pub left : Session Memory → ℕ → Env Memory → Session Memory
  left s a e = record s {
    runtime = record { native = e.native; worlds = put s.runtime.worlds a (some e.self) };
  }

  -- The view that a call returned is alive too.
  abbrev pub with_reply : Result Reply → Session Memory → Session Memory
  with_reply (ok (Reply.view v)) s = record s { views = v ∷ s.views }
  with_reply _ s = s

-- Only `fanout_view` takes the World's own address.
abbrev pub IsAddressed : ℕ → Call → Type 0
IsAddressed a (Call.fanout_view object found) = object ≡ some a
IsAddressed a _ = Unit

pub data In {A : Type 0} (x : A) : List A → Type 0 where
  here : {xs : List A} → In x (x ∷ xs)
  there : {y : A} {xs : List A} → In x xs → In x (y ∷ xs)

pub In-nil : {A P : Type 0} {u : A} → In u [] → P
In-nil i = elim i [ ]

pub In-cons :
    {A : Type 0} (P : A → Type 0) {u v : A} {vs : List A}
    → In u (v ∷ vs)
    → P v
    → (In u vs → P u)
    → P u
In-cons P here now later = now
In-cons P (there i) now later = later i

pub In-insert :
    {A : Type 0} {u : A} (before after : List A) (v : A)
    → In u (before ++ after)
    → In u (before ++ (v ∷ after))
In-insert [] after v i = there i
In-insert (x ∷ before) after v here = here
In-insert (x ∷ before) after v (there i) = there (In-insert before after v i)

module _ {Memory : Type 0} (lib : Library Memory) (p : Platform) where
  pub data Step (s : Session Memory) : Session Memory → Type 0 where
    -- World.__new__ at an address where nothing lies.
    make :
        (a : ℕ)
        → s.runtime.worlds a ≡ none
        → Step s (record s {
          runtime = record s.runtime { worlds = put s.runtime.worlds a (some new_world) };
        })
    -- World.__init__, which Python code may also call again.
    initialise :
        (a : ℕ) (w : DenseWorld) (args : Parsed (Option ℤ × Option ℤ × Option ℤ × Option ℤ))
        → s.runtime.worlds a ≡ some w
        → Step s (left s a (init lib args (entered s w)).1)
    -- A method or a property.
    call :
        (a : ℕ) (w : DenseWorld) (c : Call)
        → s.runtime.worlds a ≡ some w
        → IsAddressed a c
        → Step s (let (r, e) = dispatch lib p c (entered s w) in with_reply r (left s a e))
    -- A view is deallocated.
    drop_view :
        (before after : List DenseFanoutView) (v : DenseFanoutView)
        → s.views ≡ before ++ (v ∷ after)
        → Step s (record s { views = before ++ after })
    -- A World is deallocated, which no view that is alive refers to: each holds a reference.
    drop_world :
        (a : ℕ) (w : DenseWorld)
        → s.runtime.worlds a ≡ some w
        → ((v : DenseFanoutView) → In v s.views → v.world ≢ some a)
        → Step s (record s {
          runtime = record {
            native = (dealloc lib (entered s w)).1.native;
            worlds = put s.runtime.worlds a none;
          };
        })

  -- A program of so many steps.
  pub data Reach (s : Session Memory) : ℕ → Session Memory → Type 0 where
    start : Reach s 0 s
    next : {k : ℕ} {t u : Session Memory} → Reach s k t → Step t u → Reach s (suc k) u

-- No object yet.
abbrev pub no_objects : {Memory : Type 0} → Memory → Session Memory
no_objects m = record { runtime = record { native = m; worlds = λ a. none }; views = [] }
