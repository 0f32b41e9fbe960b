-- ===== src/Memory/Allocator/Frame.antt =====
-- About Malloc, Free and the other buffers in use.
use ccbase.Base.{ℕ, ◌<◌, ◌≡◌, ◌≢◌, inl, inr, refl, true, false, arith, Option-cases, List-cases}
use ccbase.Memory.Types.{DynamicMemBufStatus, idle, eager_free, is_status}
use ccbase.Memory.Stat.{MemBlock}
use ccbase.Memory.Heap.{Ptr, Heap, split, set_status, absorb_prev, absorb_next}
use ccbase.Memory.BufSet.{lower_bound, erase_at}
use ccbase.Memory.BufSet.Members.{lower_bound-best}
use ccbase.Memory.Allocator.{
  MemBufAllocator, Hooks, Env, map_and_split_mem_buf, place_block, malloc_expand_block,
  malloc_candidate, malloc, merge_prev, merge_next, free,
}
use ccbase.Memory.Allocator.Valid.{IsValid}
use ccbase.Memory.Allocator.Merge.{IsTarget}

-- The buffer is still there, with its place, size and status.
abbrev pub Untouched : Ptr → Heap → Heap → Type 0
Untouched q h g =
    (g.live q ≡ true)
    × ((g.buf q).addr ≡ (h.buf q).addr)
    × ((g.buf q).size ≡ (h.buf q).size)
    × ((g.buf q).status ≡ (h.buf q).status)

-- A live buffer that is not in one of the sets.
abbrev pub InUse : Ptr → Heap → Type 0
InUse q h =
    (h.live q ≡ true)
    × (is_status (h.buf q).status idle ≡ false)
    × (is_status (h.buf q).status eager_free ≡ false)

module _ {D : Type 0} (hooks : Hooks D) (size : ℕ) (q : Ptr) where
  map_and_split-Untouched :
      (a : MemBufAllocator) (c : Ptr) (e : Env D)
      → q < a.heap.fresh
      → a.heap.live q ≡ true
      → q ≢ c
      → Untouched q a.heap (map_and_split_mem_buf hooks c size a e).1.heap
  unfolding map_and_split_mem_buf split
  map_and_split-Untouched a c e old l n = ground arith

  place_block-Untouched :
      (a : MemBufAllocator) (b : MemBlock) (e : Env D)
      → q < a.heap.fresh
      → a.heap.live q ≡ true
      → Untouched q a.heap (place_block hooks b size a e).1.heap
  unfolding place_block split
  place_block-Untouched a b e old l = ground arith

  module _ (a : MemBufAllocator) (v : IsValid a) (e : Env D) (u : InUse q a.heap) where
    pub malloc_candidate-Untouched : Untouched q a.heap (malloc_candidate hooks size a e).1.heap
    unfolding malloc_candidate
    malloc_candidate-Untouched = elim (Option-cases (lower_bound a.heap size a.free_mem_bufs)) [
      | inr (c, hit) ↦
          rw (hit, malloc_candidate)
            (map_and_split-Untouched (record a { free_mem_bufs = erase_at c a.free_mem_bufs }) c e
              (v.linked.below q u.0) u.0
              (ground (
                arith,
                (lower_bound-best a.heap size a.free_mem_bufs c v.free_sorted hit).0,
                v.frees c,
              )))
      | inl miss ↦
          rw (miss, malloc_candidate)
            (elim (Option-cases (lower_bound a.heap size a.eager_free_mem_bufs)) [
              | inl nothing ↦ rw (nothing, malloc_candidate) (u.0, refl, refl, refl)
              | inr (c, hit) ↦
                  rw (hit, malloc_candidate)
                    (map_and_split-Untouched
                      (record a { eager_free_mem_bufs = erase_at c a.eager_free_mem_bufs }) c e
                      (v.linked.below q u.0) u.0
                      (ground (
                        arith,
                        (lower_bound-best a.heap size a.eager_free_mem_bufs c v.eager_sorted hit).0,
                        v.eagers c,
                      )))
            ])
    ]

    pub malloc_expand_block-Untouched :
        Untouched q a.heap (malloc_expand_block hooks size a e).1.heap
    unfolding malloc_expand_block
    malloc_expand_block-Untouched = elim (Option-cases (hooks.mem_block_expander size e).0) [
      | inl nothing ↦ rw (nothing, malloc_expand_block) (u.0, refl, refl, refl)
      | inr (b, got) ↦
          rw (got, malloc_expand_block) (place_block-Untouched a b _ (v.linked.below q u.0) u.0)
    ]

    -- In a valid allocator, `Malloc` leaves a buffer in use allocated, at its address, with its
    -- size and status.
    pub malloc-Untouched : Untouched q a.heap (malloc hooks size a e).1.heap
    unfolding malloc
    malloc-Untouched = elim (List-cases a.mem_blocks) [
      | inl empty ↦ rw (empty, malloc) malloc_expand_block-Untouched
      | inr (b, bs, full) ↦ rw (full, malloc) malloc_candidate-Untouched
    ]

module _ (t : DynamicMemBufStatus) (target : IsTarget t) (b q : Ptr) (ne : q ≢ b) where
  merge_prev-Untouched :
      (a : MemBufAllocator) → InUse q a.heap → Untouched q a.heap (merge_prev t b a).heap
  unfolding merge_prev absorb_prev
  merge_prev-Untouched a u = ground arith

  merge_next-Untouched :
      (a : MemBufAllocator) → InUse q a.heap → Untouched q a.heap (merge_next t b a).heap
  unfolding merge_next absorb_next
  merge_next-Untouched a u = ground arith

  -- Freeing a buffer to idle or eagerly leaves every other buffer in use allocated, at its
  -- address, with its size and status.
  pub free-Untouched :
      (a : MemBufAllocator) → InUse q a.heap → Untouched q a.heap (free b t a).1.heap
  unfolding free
  free-Untouched a u =
      let a₁ : MemBufAllocator = record a { heap = set_status a.heap b t } in
      ground (arith, merge_prev-Untouched a₁, merge_next-Untouched (merge_prev t b a₁))
