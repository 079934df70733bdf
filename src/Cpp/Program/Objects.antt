-- ===== src/Cpp/Program/Objects.antt =====
-- World objects that change their places: moves and ends of lifetimes.
use libdense.Common.{ℕ, ◌≡◌, ◌≢◌, ◌⊎◌, inl, inr, Option, none, some, arith, ◌==◌, if◌then◌else◌}
use libdense.Leases.Change.{put, eq-cases, at_self, at_ne}
use libdense.Cpp.State.{WorldState, World, moved_from}
use libdense.Cpp.Program.Invariant.{IsLinked}

-- Each object was there before, at another place perhaps, or has been moved from.
pub record IsRenamed (objects objects' : ℕ → Option World) : Type 0 where
  pub rename : ℕ → ℕ
  pub apart : (x y : ℕ) → x ≢ y → rename x ≢ rename y
  pub origin :
      (x : ℕ) (w : World) → objects' x ≡ some w → (w ≡ moved_from) ⊎ (objects (rename x) ≡ some w)

module _ (objects objects' : ℕ → Option World) (worlds : ℕ → Option WorldState)
    (r : IsRenamed objects objects') where
  -- Where an object that shares a state was.
  there :
      (x a : ℕ) (w : World)
      → objects' x ≡ some w
      → w.state_ ≡ some a
      → objects (r.rename x) ≡ some w
  there x a w e s = elim (r.origin x w e) [ inl moved ↦ cc | inr before ↦ before ]

  pub renamed-IsLinked : IsLinked objects worlds → IsLinked objects' worlds
  renamed-IsLinked k = record {
    existing = λ x a w e s. k.existing (r.rename x) a w (there x a w e s) s;
    agree = λ x a w st e s at. k.agree (r.rename x) a w st (there x a w e s) s at;
    moved = λ x w e s. elim (r.origin x w e) [
      | inl moved ↦ cc
      | inr before ↦ k.moved (r.rename x) w before s
    ];
    sole = λ x y a v w ne e f s t.
        k.sole (r.rename x) (r.rename y) a v w (r.apart x y ne) (there x a v e s) (there y a w f t)
          s t;
  }

swap : ℕ → ℕ → ℕ → ℕ
swap x y z = if z == x then y else if z == y then x else z

swap-apart : (x y a b : ℕ) → a ≢ b → swap x y a ≢ swap x y b
unfolding swap
swap-apart x y a b ne = ground arith

module _ (objects : ℕ → Option World) (x : ℕ) where
  pub removed-IsRenamed : IsRenamed objects (put objects x none)
  removed-IsRenamed = record {
    rename = λ z. z;
    apart = λ y z ne. ne;
    origin = λ z w e. elim (eq-cases x z) [
      | inl same ↦ absurd (ground (arith, at_self objects x z none w same e))
      | inr ne ↦ inr (at_ne objects x z none w ne e)
    ];
  }

  -- An assignment that changes nothing.
  pub same-IsRenamed : (w : World) → objects x ≡ some w → IsRenamed objects (put objects x (some w))
  same-IsRenamed w at = record {
    rename = λ z. z;
    apart = λ y z ne. ne;
    origin = λ z v e. inr (ground arith);
  }

  pub moved-IsRenamed :
      (y : ℕ) (w : World)
      → x ≢ y
      → objects y ≡ some w
      → IsRenamed objects (put (put objects y (some moved_from)) x (some w))
  unfolding swap
  moved-IsRenamed y w ne at = record {
    rename = swap x y;
    apart = swap-apart x y;
    origin = λ z v e. ground arith;
  }
