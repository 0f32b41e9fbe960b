-- ===== src/Memory/Allocator/Release.antt =====
-- FreeIdleMemsByEagerFree, ReleaseDeviceRes and ActualPeakSize of MemBufAllocator.
use ccbase.Base.{ℕ, List, [], ◌∷◌, add64}
use ccbase.Memory.Types.{eager_free}
use ccbase.Memory.Stat.{MemBlock, actual_peak_size}
use ccbase.Memory.Heap.{Ptr, Heap, delete}
use ccbase.Memory.Allocator.{Env, Hooks, MemBufAllocator, free}

unfoldable pub delete_all : List Ptr → Heap → Heap
delete_all [] h = h
delete_all (p ∷ ps) h = delete_all ps (delete h p)

-- Every buffer of the idle set is freed once more, to the status `eager_free`.
unfoldable pub free_each : List Ptr → (eager_free_size : ℕ) → MemBufAllocator → ℕ × MemBufAllocator
unfolding free
free_each [] n a = (n, a)
free_each (p ∷ ps) n a = free_each ps (add64 n (a.heap.buf p).size) (free p eager_free a).1

module _ {D : Type 0} (hooks : Hooks D) where
  unfoldable pub eager_free_each : Heap → List Ptr → (real_free_size : ℕ) → Env D → ℕ × Env D
  eager_free_each h [] n e = (n, e)
  eager_free_each h (p ∷ ps) n e =
      let (freed, e') = hooks.mem_eager_freer (h.buf p).addr (h.buf p).size e in
      eager_free_each h ps (add64 n freed) e'

  -- The result is the size of the idle buffers and the size that the device took back.
  unfoldable pub free_idle_mems_by_eager_free :
      MemBufAllocator → Env D → (ℕ × ℕ) × MemBufAllocator × Env D
  unfolding free_each eager_free_each
  free_idle_mems_by_eager_free a e =
      let (eager_free_size, a₁) = free_each a.free_mem_bufs 0 a in
      let a₂ : MemBufAllocator = record a₁ { free_mem_bufs = [] } in
      let (real_free_size, e') = eager_free_each a₂.heap a₂.eager_free_mem_bufs 0 e in
      ((eager_free_size, real_free_size), a₂, e')

  unfoldable pub clean_blocks : List MemBlock → Env D → Env D
  clean_blocks [] e = e
  clean_blocks (b ∷ bs) e = clean_blocks bs (hooks.mem_block_cleaner b e).1

  unfoldable pub release_device_res : MemBufAllocator → Env D → MemBufAllocator × Env D
  unfolding clean_blocks
  release_device_res a e = (
    record a {
      heap = delete_all a.eager_free_mem_bufs (delete_all a.free_mem_bufs a.heap);
      mem_blocks = [];
      free_mem_bufs = [];
      eager_free_mem_bufs = [];
    },
    clean_blocks a.mem_blocks e,
  )

-- The sum over the blocks of the span between the borders of what was ever in use.
unfoldable pub allocator_actual_peak_size : List MemBlock → ℕ
allocator_actual_peak_size [] = 0
allocator_actual_peak_size (b ∷ bs) = add64 (actual_peak_size b) (allocator_actual_peak_size bs)
