-- ===== src/Cpp/Workset/Owners.antt =====
-- The worksets of a C++ program: who owns them, and the steps that make, move, use and destroy them.
use libdense.Common.{ℕ, ◌≡◌, ◌≢◌, ◌⊎◌, Option, none, some}
use libdense.DenseSim
use libdense.DenseSim.{EntityId, ObserverId, ChannelMask, Pointer, ds_ok, Library, WorksetLibrary}
use libdense.Leases.Change.{put}
use libdense.Cpp.State.{Outcome, returned, World}
use libdense.Cpp.Workset
use libdense.Cpp.Workset.{RecipientWorkset, construct, move_construct, move_assign, destroy}
use libdense.Cpp.Workset.Types.{RecipientWorksetConfig, RecipientWorksetView}

module _ {Memory : Type 0} (wl : WorksetLibrary Memory) where
  -- What the library's functions do to the worksets that exist: `IsLive q m` says that one lies at
  -- `q`. They are called with null or a workset that exists.
  pub record WorksetLifetimes : Type 1 where
    pub IsLive : ℕ → Memory → Type 0
    pub create_result :
        (config : DenseSim.RecipientWorksetConfig) (m : Memory)
        → (wl.create config m).0 ≡ ds_ok
        → (q : ℕ) × ((wl.create config m).1 ≡ some q)
          × IsLive q (wl.create config m).2
          × ¬ (IsLive q m)
    pub create_keeps :
        (config : DenseSim.RecipientWorksetConfig) (m : Memory) (q : ℕ)
        → IsLive q m
        → IsLive q (wl.create config m).2
    pub create_only :
        (config : DenseSim.RecipientWorksetConfig) (m : Memory) (q : ℕ)
        → IsLive q (wl.create config m).2
        → IsLive q m ⊎ (((wl.create config m).0 ≡ ds_ok) × ((wl.create config m).1 ≡ some q))
    pub destroy_null : (m : Memory) → wl.destroy none m ≡ m
    pub destroy_keeps :
        (p q : ℕ) (m : Memory) → p ≢ q → IsLive p m → IsLive q m → IsLive q (wl.destroy (some p) m)
    pub destroy_only :
        (p q : ℕ) (m : Memory)
        → IsLive p m
        → IsLive q (wl.destroy (some p) m)
        → (p ≢ q) × IsLive q m

  module _ (laws : WorksetLifetimes) where
    open laws use {IsLive}

    -- The same worksets exist.
    pub record IsAlike (m m' : Memory) : Type 0 where
      pub onward : (q : ℕ) → IsLive q m → IsLive q m'
      pub back : (q : ℕ) → IsLive q m' → IsLive q m

    abbrev pub IsUsable : Pointer → Memory → Type 0
    IsUsable p m = (q : ℕ) → p ≡ some q → IsLive q m

    -- The other functions make and destroy none.
    pub record UsersKeep : Type 0 where
      pub sync : (p w : Pointer) (m : Memory) → IsUsable p m → IsAlike m (wl.sync p w m).1
      pub enqueue_source :
          (p w : Pointer) (id mask : ℕ) (m : Memory)
          → IsUsable p m
          → IsAlike m (wl.enqueue_source p w id mask m).1
      pub acknowledge :
          (p : Pointer) (o g f id mask : ℕ) (m : Memory)
          → IsUsable p m
          → IsAlike m (wl.acknowledge p o g f id mask m).1
      pub clear :
          (p : Pointer) (o g f : ℕ) (m : Memory) → IsUsable p m → IsAlike m (wl.clear p o g f m).1

-- The member functions that use a workset.
pub data Call : Type 0 where
  sync : World → Call
  enqueue_source : World → EntityId → ChannelMask → Call
  view : ObserverId → Call
  acknowledge : RecipientWorksetView → EntityId → ChannelMask → Call
  clear : RecipientWorksetView → Call
  stats : Call

pub record Program (Memory : Type 0) : Type 0 where
  pub native : Memory
  pub objects : ℕ → Option RecipientWorkset

module _ {Memory : Type 0} where
  abbrev pub constructed : ℕ → Outcome RecipientWorkset → Program Memory → Program Memory
  constructed x (returned w) p = record p { objects = put p.objects x (some w) }
  constructed x _ p = p

  abbrev pub no_worksets : Memory → Program Memory
  no_worksets m = record { native = m; objects = λ x. none }

module _ {Memory : Type 0} (lib : Library Memory) (wl : WorksetLibrary Memory) where
  -- The library's memory after a call.
  unfoldable pub used : Call → RecipientWorkset → Memory → Memory
  unfolding Workset.sync Workset.enqueue_source Workset.acknowledge Workset.clear
  used (sync world) w m = (Workset.sync lib wl w world m).1
  used (enqueue_source world id mask) w m = (Workset.enqueue_source lib wl w world id mask m).1
  used (view observer_id) w m = m
  used (acknowledge v id mask) w m = (Workset.acknowledge lib wl w v id mask m).1
  used (clear v) w m = (Workset.clear lib wl w v m).1
  used stats w m = m

  pub data Step (p : Program Memory) : Program Memory → Type 0 where
    make :
        (x : ℕ) (config : RecipientWorksetConfig)
        → p.objects x ≡ none
        → Step p (
            let (r, m) = construct lib wl config p.native in
            constructed x r (record p { native = m }))
    move_make :
        (x y : ℕ) (w : RecipientWorkset)
        → p.objects x ≡ none
        → p.objects y ≡ some w
        → Step p (record p {
          objects = put (put p.objects y (some (move_construct w).1)) x (some (move_construct w).0);
        })
    assign :
        (x y : ℕ) (v w : RecipientWorkset)
        → x ≢ y
        → p.objects x ≡ some v
        → p.objects y ≡ some w
        → Step p (
            let (v', w', m) = move_assign lib wl v w p.native in
            record { native = m; objects = put (put p.objects y (some w')) x (some v') })
    end :
        (x : ℕ) (w : RecipientWorkset)
        → p.objects x ≡ some w
        → Step p (record { native = destroy lib wl w p.native; objects = put p.objects x none })
    use_it :
        (x : ℕ) (w : RecipientWorkset) (c : Call)
        → p.objects x ≡ some w
        → Step p (record p { native = used c w p.native })

  pub data Reach (p : Program Memory) : Program Memory → Type 0 where
    start : Reach p p
    next : {q r : Program Memory} → Reach p q → Step q r → Reach p r
