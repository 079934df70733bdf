-- ===== src/Session/Stays.antt =====
-- Methods that invalidate no view: rules for each way in which the code builds a method.
use mathlib.Core.Path.{subst}
use libdense.Common.{ℕ, ◌≡◌, refl, ◌∙◌, sym, Bool, some, String, arith}
use libdense.DenseSim.{Pointer, DsResult, Library}
use libdense.DenseSim.Lifetimes.{Lifetimes, Keeps}
use libdense.Python.{Exc, Result, ok, err, fault, Parsed, parsed, rejected}
use libdense.World.State.{
  Env, Method, pure, raise, parse, self_world, reading, calling, check, require_open, py_long,
  py_bool, continue, ◌>>=◌,
}

module _ {Memory : Type 0} (lib : Library Memory) (laws : Lifetimes lib) where
  open laws use {IsLive, IsBorrowed}

  pub Keeps-refl : (m : Memory) → Keeps lib laws m m
  Keeps-refl m = record { live = λ p h. h; borrowed = λ p v h. h }

  pub Keeps-trans : {a b c : Memory} → Keeps lib laws a b → Keeps lib laws b c → Keeps lib laws a c
  Keeps-trans f g = record {
    live = λ p h. g.live p (f.live p h);
    borrowed = λ p v h. g.borrowed p v (f.borrowed p v h);
  }

  module _ (p : ℕ) where
    -- On the open world `p` the method keeps what is live and borrowed, and the World's fields.
    pub record Stays {A : Type 0} (m : Method Memory A) : Type 0 where
      pub at :
          (s : Env Memory)
          → s.self.world ≡ some p
          → IsLive p s.native
          → Keeps lib laws s.native (m s).1.native × ((m s).1.self ≡ s.self)

    Stays-idle : {A : Type 0} (m : Method Memory A) → ((s : Env Memory) → (m s).1 ≡ s) → Stays m
    Stays-idle m same = record { at = λ s h l. rw (same s) (Keeps-refl s.native, refl) }

    pub Stays-pure : {A : Type 0} (a : A) → Stays (pure a)
    unfolding pure
    Stays-pure a = Stays-idle (pure a) (λ s. refl)

    pub Stays-raise : {A : Type 0} (e : Exc) → Stays (raise {A = A} e)
    unfolding raise
    Stays-raise e = Stays-idle (raise e) (λ s. refl)

    pub Stays-parse : {A : Type 0} (args : Parsed A) → Stays (parse args)
    unfolding parse
    Stays-parse (parsed a) = Stays-pure a
    Stays-parse (rejected e) = Stays-raise e

    pub Stays-reading : {A : Type 0} (f : Memory → A) → Stays (reading f)
    unfolding reading
    Stays-reading f = Stays-idle (reading f) (λ s. refl)

    pub Stays-self_world : Stays self_world
    unfolding self_world
    Stays-self_world = Stays-idle self_world (λ s. refl)

    pub Stays-require_open : Stays require_open
    unfolding require_open
    Stays-require_open = Stays-idle require_open (λ s. ground arith)

    pub Stays-py_long : (n : ℕ) → Stays (py_long n)
    unfolding py_long
    Stays-py_long n = Stays-idle (py_long n) (λ s. refl)

    pub Stays-py_bool : (b : Bool) → Stays (py_bool b)
    unfolding py_bool
    Stays-py_bool b = Stays-idle (py_bool b) (λ s. refl)

    pub Stays-check : (r : DsResult) (context : String) → Stays (check lib r context)
    unfolding check
    Stays-check r context = Stays-idle (check lib r context) (λ s. ground arith)

    pub Stays-calling :
        (f : Memory → DsResult × Memory)
        → ((m : Memory) → IsLive p m → Keeps lib laws m (f m).1)
        → Stays (calling f)
    unfolding calling
    Stays-calling f keeps = record { at = λ s h l. (keeps s.native l, refl) }

  module _ (p : ℕ) {A B : Type 0} where
    continue-keeps :
        (r : Result A) (k : A → Method Memory B)
        → ((a : A) → r ≡ ok a → Stays p (k a))
        → Stays p (continue r k)
    continue-keeps (ok a) k stays = stays a refl
    continue-keeps (err e) k stays = Stays-idle p (continue (err e) k) (λ s. refl)
    continue-keeps fault k stays = Stays-idle p (continue fault k) (λ s. refl)

    pub Stays-bind :
        (m : Method Memory A) (k : A → Method Memory B)
        → Stays p m
        → ((a : A) → Stays p (k a))
        → Stays p (m >>= k)
    unfolding ◌>>=◌
    Stays-bind m k first rest = record {
      at = λ s h l.
          let (r, s') = m s in
          let (keeps, same) = first.at s h l in
          let (keeps', same') =
            (continue-keeps r k (λ a e. rest a)).at s' (rw same h) (keeps.live p l) in
          (Keeps-trans keeps keeps', same' ∙ same);
    }

  -- `self->world` is the world.
  pub Stays-self_world-bind :
      (p : ℕ) {B : Type 0} (k : Pointer → Method Memory B)
      → Stays p (k (some p))
      → Stays p (self_world >>= k)
  unfolding ◌>>=◌
  Stays-self_world-bind p k rest = record {
    at = λ s h l.
        subst
          (λ (w : Pointer). Keeps lib laws s.native (k w s).1.native × ((k w s).1.self ≡ s.self))
          (sym h) (rest.at s h l);
  }
