-- ===== src/Memory/Pool/TensorSound.antt =====
-- AllocTensorMem and the invariant of the pool with the device.
use ccbase.Base.{
  ℕ, ◌<◌, ◌≡◌, ◌≢◌, inl, inr, sym, subst, Bool, true, false, not, ◌&&◌, Option, none, some,
  Bool-cases,
}
use ccbase.Memory.Types.{align_memory_size}
use ccbase.Memory.Pool.State.{AllocatorRef, BufRef, Pool, buf_of, find_addr, emplace_addr}
use ccbase.Memory.Pool.Device.{Device}
use ccbase.Memory.Pool.Alloc.{
  get_mem_buf_allocator, malloc_in, count_used, alloc_by_eager_free, alloc_from_another,
  alloc_mem_buf, alloc_tensor_mem,
}
use ccbase.Memory.Pool.Laws.{DeviceLaws}
use ccbase.Memory.Pool.Sound.{PoolSound}
use ccbase.Memory.Pool.Tracked.{Tracked}
use ccbase.Memory.Pool.Bound.{at_byte, known-apart}
use ccbase.Memory.Pool.Enter.{entered-PoolSound}
use ccbase.Memory.Pool.IdleSound.{Made}
use ccbase.Memory.Pool.AllocSound.{
  malloc_in-Got, Outcome, or_next-Outcome, alloc_by_eager_free-Outcome,
}
use ccbase.Memory.Pool.GetSound.{get_mem_buf_allocator-PoolSound}

module _ {D : Type 0} (taken : D → ℕ → Type 0) (dev : Device D) (laws : DeviceLaws taken dev) where
  -- The address of a buffer that was got is entered into the map.
  abbrev enter : Option BufRef → Pool D → Option ℕ × Pool D
  enter o q = elim o [
    | none ↦ (none, q)
    | some c ↦ (
      some (buf_of q c).addr,
      record q {
        addr_mem_buf_allocators = emplace_addr (buf_of q c).addr c q.addr_mem_buf_allocators;
      },
    )
  ]

  enter-PoolSound :
      (o : Option BufRef) (q : Pool D)
      → Outcome taken dev laws (o, q)
      → PoolSound taken (enter o q).1 × Tracked (enter o q).1
  unfolding count_used
  enter-PoolSound none q v = v
  enter-PoolSound (some c) q (p, v, held, u, lacks, same) =
      subst (λ z. PoolSound taken (enter (some c) z).1 × Tracked (enter (some c) z).1) (sym same)
        (entered-PoolSound taken p v c u lacks dev, held)

  module _ (size : ℕ) (pos : 0 < size) where
    alloc_from_another-Outcome :
        (r : AllocatorRef) (k : Bool) (s : ℕ) (p : Pool D)
        → PoolSound taken p
        → Tracked p
        → Made r p.stream_keys
        → Outcome taken dev laws (alloc_from_another dev r size k s p)
    unfolding alloc_from_another
    alloc_from_another-Outcome r k s p v held made = elim (Bool-cases (not p.enable_vmm && k)) [
      | inr alone ↦ rw alone (alloc_by_eager_free-Outcome taken dev laws size pos r p v held made)
      | inl other ↦
          let x = get_mem_buf_allocator dev size false s p in
          let w = get_mem_buf_allocator-PoolSound taken dev size false s p v in
          let m = malloc_in dev x.0 size x.1 in
          rw other (
            or_next-Outcome taken dev laws x.0 x.1 m.0 (alloc_by_eager_free dev x.0 size m.1) m.1
              (w.2 held) (malloc_in-Got taken dev laws x.0 size pos x.1 w.0 w.1)
              (λ g.
                alloc_by_eager_free-Outcome taken dev laws size pos x.0 m.1 g.0 (g.2 (w.2 held))
                  (rw g.1 w.1)))
    ]

    alloc_mem_buf-Outcome :
        (k : Bool) (s : ℕ) (p : Pool D)
        → PoolSound taken p
        → Tracked p
        → Outcome taken dev laws (alloc_mem_buf dev size k s p)
    unfolding alloc_mem_buf
    alloc_mem_buf-Outcome k s p v held =
        let x = get_mem_buf_allocator dev size k s p in
        let w = get_mem_buf_allocator-PoolSound taken dev size k s p v in
        let m = malloc_in dev x.0 size x.1 in
        or_next-Outcome taken dev laws x.0 x.1 m.0 (alloc_from_another dev x.0 size k s m.1) m.1
          (w.2 held) (malloc_in-Got taken dev laws x.0 size pos x.1 w.0 w.1)
          (λ g. alloc_from_another-Outcome x.0 k s m.1 g.0 (g.2 (w.2 held)) (rw g.1 w.1))

  module _ (size : ℕ) (k : Bool) (s : ℕ) (p : Pool D) (pos : 0 < align_memory_size size)
      (v : PoolSound taken p) (held : Tracked p) where
    -- On a device that hands no byte out twice, in a sound pool where all buffers of all pairs of
    -- streams are in use, `AllocTensorMem` for a size whose aligned size is above 0 keeps the pool
    -- so, whichever of its retries are made and whether it succeeds: it accesses no deleted buffer,
    -- every allocator is valid, no two allocators share a byte, the address map holds buffers in use,
    -- and the used size is the sum of their sizes.
    pub alloc_tensor_mem-PoolSound :
        let q = (alloc_tensor_mem dev size k s p).1 in PoolSound taken q × Tracked q
    unfolding alloc_tensor_mem
    alloc_tensor_mem-PoolSound =
        let x = alloc_mem_buf dev (align_memory_size size) k s p in
        enter-PoolSound x.0 x.1 (alloc_mem_buf-Outcome (align_memory_size size) pos k s p v held)

    -- On a device that hands no byte out twice, in a sound pool where all buffers of all pairs of
    -- streams are in use, and for a size whose aligned size is above 0: any two different addresses
    -- that the pool knows after `AllocTensorMem` stand for buffers that have no byte in common.
    pub alloc_tensor_mem-apart :
        let q = (alloc_tensor_mem dev size k s p).1 in
        (i j : ℕ) (c d : BufRef) (x : ℕ)
        → i ≢ j
        → find_addr i q.addr_mem_buf_allocators ≡ some c
        → find_addr j q.addr_mem_buf_allocators ≡ some d
        → at_byte q.allocators c x ≡ true
        → at_byte q.allocators d x ≡ false
    alloc_tensor_mem-apart =
        known-apart taken (alloc_tensor_mem dev size k s p).1 alloc_tensor_mem-PoolSound.0
