-- ===== src/Memory/Pool/AllocSound.antt =====
-- AllocTensorMem with all its retries, and the invariant of the pool with the device.
use ccbase.Base.{ℕ, ◌<◌, ◌≡◌, inl, inr, refl, ◌||◌, Option, none, some, arith, Bool-cases}
use ccbase.Memory.Stat.{MemBlock}
use ccbase.Memory.Heap.{Ptr}
use ccbase.Memory.Allocator.{MemBufAllocator, Env, malloc, malloc_expand_block}
use ccbase.Memory.Allocator.Frame.{InUse}
use ccbase.Memory.Allocator.Malloc.{Serves}
use ccbase.Memory.Allocator.Expand.{Granted, malloc-Valid, malloc_expand_block-Valid}
use ccbase.Memory.Allocator.Fresh.{malloc-new, malloc_expand_block-new}
use ccbase.Memory.Allocator.Advance.{HookLaws, Advances}
use ccbase.Memory.Allocator.MallocAdvance.{granted, malloc-Advances, malloc_expand_block-Advances}
use ccbase.Memory.Pool.State.{AllocatorRef, BufRef, Pool, set_allocator}
use ccbase.Memory.Pool.Device.{Device, hooks_of}
use ccbase.Memory.Pool.Free.{free_idle_mems}
use ccbase.Memory.Pool.Events.{do_sync_all_events}
use ccbase.Memory.Pool.Alloc.{
  malloc_in, expand_in, count_used, alloc_after_sync, alloc_by_expand, alloc_by_eager_free,
}
use ccbase.Memory.Pool.Accounts.{heap_of, same_ref_refl}
use ccbase.Memory.Pool.Laws.{DeviceLaws, hooks_of-HookLaws}
use ccbase.Memory.Pool.Sound.{PoolSound, advanced-PoolSound}
use ccbase.Memory.Pool.Enter.{Lacks, unused-Lacks}
use ccbase.Memory.Pool.IdleSound.{Made, device-PoolSound, free_idle_mems-Keeps}
use ccbase.Memory.Pool.Tracked.{Tracked, advanced-Tracked}
use ccbase.Memory.Pool.EventSound.{Keeps, do_sync_all_events-Keeps}

-- What an attempt to get a buffer of the allocator `r` gives: none, or one in use that no entry has.
abbrev pub Got :
    {D : Type 0} → (D → ℕ → Type 0) → AllocatorRef → Pool D → Option Ptr → Pool D → Type 0
Got taken r p none q = Keeps taken p q
Got taken r p (some b) q =
    Keeps taken p q × InUse b (heap_of q.allocators r) × Lacks (r, b) q.addr_mem_buf_allocators

module _ {D : Type 0} (taken : D → ℕ → Type 0) where
  module _ (p : Pool D) (v : PoolSound taken p) (r : AllocatorRef) (made : Made r p.stream_keys)
      (size : ℕ) (a : MemBufAllocator) (e : Env D)
      (w : Advances taken (p.allocators r) a p.env e) where
    advance-Got :
        (o : Option Ptr)
        → Serves size a o
        → ((b : Ptr) → o ≡ some b → InUse b (heap_of p.allocators r) → ⊥)
        → Got taken r p o (record (set_allocator p r a) { env = e })
    advance-Got none serves unused = (
      advanced-PoolSound taken p v r a e (λ n q. absurd (made n)) w,
      refl,
      advanced-Tracked taken p v r a e (λ n q. absurd (made n)) w,
    )
    advance-Got (some b) serves unused = (
      (
        advanced-PoolSound taken p v r a e (λ n q. absurd (made n)) w,
        refl,
        advanced-Tracked taken p v r a e (λ n q. absurd (made n)) w,
      ),
      rw (same_ref_refl r, heap_of) (ground arith),
      unused-Lacks p.allocators (r, b) p.addr_mem_buf_allocators v.mapped (unused b refl),
    )

  module _ (dev : Device D) (laws : DeviceLaws taken dev) where
    module _ (r : AllocatorRef) (size : ℕ) (pos : 0 < size) (p : Pool D) (v : PoolSound taken p)
        (made : Made r p.stream_keys) where
      abbrev hook_laws : HookLaws taken (hooks_of dev p r)
      hook_laws = hooks_of-HookLaws taken dev laws p r

      abbrev grants :
          (b : MemBlock)
          → ((hooks_of dev p r).mem_block_expander size p.env).0 ≡ some b
          → Granted (p.allocators r).heap b
      grants =
          granted taken (hooks_of dev p r) hook_laws size (p.allocators r) (v.valid r) (v.quiet r)
            pos p.env (v.owned r)

      pub malloc_in-Got : Got taken r p (malloc_in dev r size p).0 (malloc_in dev r size p).1
      unfolding malloc_in
      malloc_in-Got =
          let x = malloc (hooks_of dev p r) size (p.allocators r) p.env in
          advance-Got p v r made size x.1 x.2
            (malloc-Advances taken (hooks_of dev p r) hook_laws size (p.allocators r) (v.valid r)
              (v.quiet r) pos p.env (v.owned r))
            x.0
            (malloc-Valid (hooks_of dev p r) (p.allocators r) (v.valid r) size pos p.env grants).1
            (λ b is. malloc-new (hooks_of dev p r) size (p.allocators r) (v.valid r) p.env b is)

      expand_in-Got : Got taken r p (expand_in dev r size p).0 (expand_in dev r size p).1
      unfolding expand_in
      expand_in-Got =
          let x = malloc_expand_block (hooks_of dev p r) size (p.allocators r) p.env in
          advance-Got p v r made size x.1 x.2
            (malloc_expand_block-Advances taken (hooks_of dev p r) hook_laws size (p.allocators r)
              (v.valid r) (v.quiet r) pos p.env (v.owned r))
            x.0
            (malloc_expand_block-Valid (hooks_of dev p r) (p.allocators r) (v.valid r) size pos
              p.env grants).1
            (λ b is.
              malloc_expand_block-new (hooks_of dev p r) size (p.allocators r) (v.valid r) p.env b
                is)

    -- What AllocMemBuf gives: a sound pool where no deleted buffer is tracked, or such a pool in
    -- which a new buffer was counted.
    abbrev pub Outcome : Option BufRef × Pool D → Type 0
    Outcome (none, q) = PoolSound taken q × Tracked q
    Outcome (some c, q) =
        (p : Pool D) × PoolSound taken p
        × Tracked p
        × InUse c.1 (heap_of p.allocators c.0)
        × Lacks c p.addr_mem_buf_allocators
        × (q ≡ (count_used dev c p).1)

    -- The buffer is counted, or the next attempt follows.
    abbrev pub or_next :
        AllocatorRef → Option Ptr → Option BufRef × Pool D → Pool D → Option BufRef × Pool D
    or_next r o next q = elim o [ none ↦ next | some b ↦ count_used dev (r, b) q ]

    pub or_next-Outcome :
        (r : AllocatorRef) (p : Pool D) (o : Option Ptr) (next : Option BufRef × Pool D)
        (q : Pool D)
        → Tracked p
        → Got taken r p o q
        → (Keeps taken p q → Outcome next)
        → Outcome (or_next r o next q)
    unfolding count_used
    or_next-Outcome r p none next q held got rest = rest got
    or_next-Outcome r p (some b) next q held got rest =
        (q, got.0.0, got.0.2 held, got.1, got.2, refl)

    module _ (size : ℕ) (pos : 0 < size) where
      alloc_after_sync-Outcome :
          (r : AllocatorRef) (p : Pool D)
          → PoolSound taken p
          → Tracked p
          → Made r p.stream_keys
          → Outcome (alloc_after_sync dev r size p)
      unfolding alloc_after_sync
      alloc_after_sync-Outcome r p v held made =
          let w = do_sync_all_events-Keeps taken p v in
          let p₁ = (do_sync_all_events p).1 in
          let m = malloc_in dev r size p₁ in
          or_next-Outcome r p₁ m.0 (none, m.1) m.1 (w.2 held)
            (malloc_in-Got r size pos p₁ w.0 (rw w.1 made)) (λ k. (k.0, k.2 (w.2 held)))

      alloc_by_expand-Outcome :
          (r : AllocatorRef) (p : Pool D)
          → PoolSound taken p
          → Tracked p
          → Made r p.stream_keys
          → Outcome (alloc_by_expand dev r size p)
      unfolding alloc_by_expand
      alloc_by_expand-Outcome r p v held made =
          let m = expand_in dev r size p in
          or_next-Outcome r p m.0 (alloc_after_sync dev r size m.1) m.1 held
            (expand_in-Got r size pos p v made)
            (λ k. alloc_after_sync-Outcome r m.1 k.0 (k.2 held) (rw k.1 made))

      pub alloc_by_eager_free-Outcome :
          (r : AllocatorRef) (p : Pool D)
          → PoolSound taken p
          → Tracked p
          → Made r p.stream_keys
          → Outcome (alloc_by_eager_free dev r size p)
      unfolding alloc_by_eager_free
      alloc_by_eager_free-Outcome r p v held made =
          elim (Bool-cases (dev.is_enable_eager_free || p.enable_vmm)) [
            | inr plain ↦ rw plain (alloc_by_expand-Outcome r p v held made)
            | inl eager ↦
                let d = (dev.sync_all_streams p.env.dev).1 in
                let p₁ : Pool D = record p { env = record (p.env) { dev = d } } in
                let v₁ = device-PoolSound taken p d (laws.sync_keeps p.env.dev) v in
                elim (Bool-cases (dev.sync_all_streams p.env.dev).0) [
                  | inr failed ↦ rw (eager, failed) (v₁, held)
                  | inl synced ↦
                      let w = free_idle_mems-Keeps taken dev laws p₁ v₁ in
                      let p₂ = (free_idle_mems dev p₁).1 in
                      let m = malloc_in dev r size p₂ in
                      rw (eager, synced)
                        (or_next-Outcome r p₂ m.0 (alloc_by_expand dev r size m.1) m.1 (w.2 held)
                          (malloc_in-Got r size pos p₂ w.0 (rw w.1 made))
                          (λ k.
                            alloc_by_expand-Outcome r m.1 k.0 (k.2 (w.2 held))
                              (rw (k.1, w.1) made)))
                ]
          ]
