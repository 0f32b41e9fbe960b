-- ===== src/Memory/Pool/IdleSound.antt =====
-- FreeIdleMemsByEagerFree, changes of the statistics or the device, and the invariant of the pool with the device.
use ccbase.Base.{ℕ, ◌≡◌, ◌∙◌, refl, All, List, [], ◌∷◌, arith, add64}
use ccbase.Memory.Stat.{MemStat}
use ccbase.Memory.Allocator.Release.{free_idle_mems_by_eager_free}
use ccbase.Memory.Allocator.EagerAdvance.{free_idle_mems-Advances}
use ccbase.Memory.Pool.State.{AllocatorRef, tiny, stream, Pool, set_allocator, set_stat}
use ccbase.Memory.Pool.Device.{Device, hooks_of}
use ccbase.Memory.Pool.Free.{free_idle_each, free_idle_mems}
use ccbase.Memory.Pool.Alloc.{has_key}
use ccbase.Memory.Pool.Accounts.{same_ref_refl}
use ccbase.Memory.Pool.Laws.{DeviceLaws, hooks_of-HookLaws}
use ccbase.Memory.Pool.Sound.{PoolSound, Unmade, advanced-PoolSound}
use ccbase.Memory.Pool.Tracked.{advanced-Tracked}
use ccbase.Memory.Pool.EventSound.{Keeps}

-- The allocator is in the map of allocators, or is the tiny one.
abbrev pub Made : AllocatorRef → List AllocatorRef → Type 0
Made r ks = Unmade r ks → ⊥

Made-cons :
    (x : AllocatorRef) (ks rs : List AllocatorRef)
    → All (λ r. Made r ks) rs
    → All (λ r. Made r (x ∷ ks)) rs
unfolding has_key
Made-cons x ks [] made = tt
Made-cons x ks (tiny ∷ rs) made = ((λ n. n), Made-cons x ks rs made.1)
Made-cons x ks (stream k s ∷ rs) made =
    ((λ n. made.0 (ground (arith, n))), Made-cons x ks rs made.1)

Made-head : (x : AllocatorRef) (ks : List AllocatorRef) → Made x (x ∷ ks)
unfolding has_key
Made-head tiny ks n = n
Made-head (stream k s) ks n = ground (arith, n, same_ref_refl (stream k s))

Made-keys : (ks : List AllocatorRef) → All (λ r. Made r ks) ks
Made-keys [] = tt
Made-keys (x ∷ ks) = (Made-head x ks, Made-cons x ks ks (Made-keys ks))

module _ {D : Type 0} (taken : D → ℕ → Type 0) where
  stat-PoolSound :
      (p : Pool D) (s : MemStat)
      → s.used_size ≡ p.env.stat.used_size
      → PoolSound taken p
      → PoolSound taken (set_stat p s)
  stat-PoolSound p s same v = record {
    valid = v.valid;
    quiet = v.quiet;
    owned = v.owned;
    parted = v.parted;
    unmade = v.unmade;
    mapped = v.mapped;
    counted = same ∙ v.counted;
  }

  count-PoolSound :
      (p : Pool D) (n : ℕ) → PoolSound taken p → PoolSound taken (record p { eager_free_count = n })
  count-PoolSound p n v = record {
    valid = v.valid;
    quiet = v.quiet;
    owned = v.owned;
    parted = v.parted;
    unmade = v.unmade;
    mapped = v.mapped;
    counted = v.counted;
  }

  pub device-PoolSound :
      (p : Pool D) (d : D)
      → ((x : ℕ) → taken p.env.dev x → taken d x)
      → PoolSound taken p
      → PoolSound taken (record p { env = record (p.env) { dev = d } })
  device-PoolSound p d keeps v = record {
    valid = v.valid;
    quiet = v.quiet;
    owned = λ r x c. keeps x (v.owned r x c);
    parted = v.parted;
    unmade = v.unmade;
    mapped = v.mapped;
    counted = v.counted;
  }

  module _ (dev : Device D) (laws : DeviceLaws taken dev) where
    free_idle_each-Keeps :
        (rs : List AllocatorRef) (eager real : ℕ) (p : Pool D)
        → All (λ r. Made r p.stream_keys) rs
        → PoolSound taken p
        → Keeps taken p (free_idle_each dev rs eager real p).1
    unfolding free_idle_each
    free_idle_each-Keeps [] eager real p made v = (v, refl, λ k. k)
    free_idle_each-Keeps (r ∷ rs) eager real p made v =
        let x = free_idle_mems_by_eager_free (hooks_of dev p r) (p.allocators r) p.env in
        let w =
          free_idle_mems-Advances taken (hooks_of dev p r) (hooks_of-HookLaws taken dev laws p r)
            (p.allocators r) p.env (v.valid r) (v.quiet r) in
        let v' = advanced-PoolSound taken p v r x.1 x.2 (λ n q. absurd (made.0 n)) w in
        let u =
          free_idle_each-Keeps rs (add64 eager x.0.0) (add64 real x.0.1)
            (record (set_allocator p r x.1) { env = x.2 }) made.1 v' in
        (u.0, u.1, λ k. u.2 (advanced-Tracked taken p v r x.1 x.2 (λ n q. absurd (made.0 n)) w k))

    pub free_idle_mems-Keeps :
        (p : Pool D) → PoolSound taken p → Keeps taken p (free_idle_mems dev p).1
    unfolding free_idle_mems
    free_idle_mems-Keeps p v =
        let p₁ : Pool D = record p { eager_free_count = add64 p.eager_free_count 1 } in
        let w =
          free_idle_each-Keeps p.stream_keys 0 0 p₁ (Made-keys p.stream_keys)
            (count-PoolSound p (add64 p.eager_free_count 1) v) in
        (stat-PoolSound (free_idle_each dev p.stream_keys 0 0 p₁).1 _ refl w.0, w.1, w.2)
