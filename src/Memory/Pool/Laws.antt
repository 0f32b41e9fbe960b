-- ===== src/Memory/Pool/Laws.antt =====
-- What the pool relies on of the device, and what its callbacks keep then.
use ccbase.Base.{
  ℕ, ◌*◌, ◌+◌, ◌≤◌, ◌<◌, ◌≡◌, ◌≢◌, inl, inr, refl, subst, Bool, ◌||◌, Option, none, some, arith,
  Bool-cases, Option-cases, ◌==◌, max, size_max,
}
use mathlib.Core.Option.{some-injective}
use ccbase.Memory.Stat.{MemBlock}
use ccbase.Memory.Allocator.{Env}
use ccbase.Memory.Allocator.Advance.{Steady, Steady-refl, Grants, HookLaws}
use ccbase.Memory.Pool.BlockSize.{cal_mem_block_alloc_size}
use ccbase.Memory.Pool.State.{AllocatorRef, tiny, stream, Pool}
use ccbase.Memory.Pool.Device.{
  Device, expand_plain, expand_eager, mem_mapper, mem_eager_freer, mem_alloc_unit_size,
  mem_block_expander, hooks_of,
}

module _ {D : Type 0} (taken : D → ℕ → Type 0) where
  -- What the device answers to a request: the size and the address of memory that was not taken,
  -- and is from then on. The size 0 says that there is none.
  pub record Hands (d : D) (r : (ℕ × ℕ) × D) : Type 0 where
    pub fits : r.0.0 ≢ 0 → r.0.1 + r.0.0 < size_max
    pub new_bytes : (x : ℕ) → r.0.1 ≤ x → x < r.0.1 + r.0.0 → taken d x → ⊥
    pub now_taken : (x : ℕ) → r.0.1 ≤ x → x < r.0.1 + r.0.0 → taken r.1 x
    pub keeps : (x : ℕ) → taken d x → taken r.1 x

  -- The device hands no byte out twice, and mapping, unmapping and waiting take nothing back.
  pub record DeviceLaws (dev : Device D) : Type 0 where
    pub plain : (n : ℕ) (d : D) → Hands d (dev.alloc_device_mem n d)
    pub eager : (n : ℕ) (d : D) → Hands d (dev.alloc_device_mem_by_eager_free n d)
    pub mmap_keeps : (n a : ℕ) (d : D) (x : ℕ) → taken d x → taken (dev.mmap_device_mem n a d).1 x
    pub unmap_keeps :
        (a n : ℕ) (d : D) (x : ℕ) → taken d x → taken (dev.free_device_mem_by_eager_free a n d).1 x
    pub sync_keeps : (d : D) (x : ℕ) → taken d x → taken (dev.sync_all_streams d).1 x

  module _ (dev : Device D) (laws : DeviceLaws dev) where
    expand_plain-Grants :
        (n s : ℕ) (e : Env D) (b : MemBlock)
        → (expand_plain dev n s e).0 ≡ some b
        → Grants taken e (expand_plain dev n s e).1 b
    unfolding expand_plain
    expand_plain-Grants n s e b got =
        let h = laws.plain n e.dev in
        elim (Bool-cases ((dev.alloc_device_mem n e.dev).0.0 == 0)) [
          | inl nothing ↦ cc (rw nothing at got)
          | inr some_size ↦
              let is = some-injective _ _ (rw some_size at got) in
              rw some_size (
                subst (Grants taken e _) is (record {
                  sized = ground arith;
                  fits = h.fits (ground arith);
                  new_bytes = λ x i. h.new_bytes x i.0 i.1;
                  now_taken = λ x i. h.now_taken x i.0 i.1;
                }))
        ]

    expand_plain-Steady : (n s : ℕ) (e : Env D) → Steady taken e (expand_plain dev n s e).1
    unfolding expand_plain
    expand_plain-Steady n s e =
        let h = laws.plain n e.dev in
        elim (Bool-cases ((dev.alloc_device_mem n e.dev).0.0 == 0)) [
          | inl nothing ↦ rw nothing (record { keeps = h.keeps; same_used = refl })
          | inr some_size ↦ rw some_size (record { keeps = h.keeps; same_used = refl })
        ]

    expand_eager-Grants :
        (n s : ℕ) (e : Env D) (b : MemBlock)
        → (expand_eager dev n s e).0 ≡ some b
        → Grants taken e (expand_eager dev n s e).1 b
    unfolding expand_eager
    expand_eager-Grants n s e b got =
        let m = max n (dev.total_mem_size e.dev) in
        let h = laws.eager m e.dev in
        elim (Bool-cases ((dev.alloc_device_mem_by_eager_free m e.dev).0.0 == 0)) [
          | inl nothing ↦ cc (rw nothing at got)
          | inr some_size ↦
              let is = some-injective _ _ (rw some_size at got) in
              rw some_size (
                subst (Grants taken e _) is (record {
                  sized = ground arith;
                  fits = h.fits (ground arith);
                  new_bytes = λ x i. h.new_bytes x i.0 i.1;
                  now_taken = λ x i. h.now_taken x i.0 i.1;
                }))
        ]

    expand_eager-Steady : (n s : ℕ) (e : Env D) → Steady taken e (expand_eager dev n s e).1
    unfolding expand_eager
    expand_eager-Steady n s e =
        let m = max n (dev.total_mem_size e.dev) in
        let h = laws.eager m e.dev in
        elim (Bool-cases ((dev.alloc_device_mem_by_eager_free m e.dev).0.0 == 0)) [
          | inl nothing ↦ rw nothing (record { keeps = h.keeps; same_used = refl })
          | inr some_size ↦ rw some_size (record { keeps = h.keeps; same_used = refl })
        ]

    -- Each branch of the expander of a stream's allocator.
    mem_block_expander-either :
        (p : Pool D) (k : Bool) (s n : ℕ) (e : Env D) (P : Option MemBlock × Env D → Type 0)
        → P (none, e)
        → ((m : ℕ) → P (expand_plain dev m s e))
        → ((m : ℕ) → P (expand_eager dev m s e))
        → P (mem_block_expander dev p k s n e)
    unfolding mem_block_expander
    mem_block_expander-either p k s n e P nothing plain eager =
        elim (Option-cases
          (cal_mem_block_alloc_size (dev.free_mem_size e.dev) (mem_alloc_unit_size dev k p) n)) [
            | inl no_size ↦ rw (no_size, mem_block_expander) nothing
            | inr (m, size) ↦
                rw (size, mem_block_expander)
                  (elim (Bool-cases (m == 0)) [
                    | inl none_free ↦ rw none_free nothing
                    | inr some_free ↦
                        rw some_free (elim (Bool-cases (dev.is_enable_eager_free || p.enable_vmm)) [
                          | inl virtual ↦ rw virtual (eager m)
                          | inr real ↦ rw real (plain m)
                        ])
                  ])
          ]

    -- The callbacks of each allocator keep to the laws.
    pub hooks_of-HookLaws : (p : Pool D) (r : AllocatorRef) → HookLaws taken (hooks_of dev p r)
    unfolding hooks_of mem_mapper mem_eager_freer
    hooks_of-HookLaws p tiny = record {
      grants = λ n e b got. expand_plain-Grants (1024 * 1024) 0 e b got;
      expander = λ n e. expand_plain-Steady (1024 * 1024) 0 e;
      mapper = λ n a e. record { keeps = laws.mmap_keeps n a e.dev; same_used = refl };
      freer = λ a n e. record { keeps = laws.unmap_keeps a n e.dev; same_used = refl };
    }
    hooks_of-HookLaws p (stream k s) = record {
      grants = λ n e b.
          mem_block_expander-either p k s n e (λ r. r.0 ≡ some b → Grants taken e r.1 b)
            (λ got. cc got) (λ m. expand_plain-Grants m s e b) (λ m. expand_eager-Grants m s e b);
      expander = λ n e.
          mem_block_expander-either p k s n e (λ r. Steady taken e r.1) (Steady-refl taken e)
            (λ m. expand_plain-Steady m s e) (λ m. expand_eager-Steady m s e);
      mapper = λ n a e. record { keeps = laws.mmap_keeps n a e.dev; same_used = refl };
      freer = λ a n e. record { keeps = laws.unmap_keeps a n e.dev; same_used = refl };
    }
