-- ===== src/Memory/Allocator/Fit.antt =====
-- About the choice of the candidate in Malloc.
use ccbase.Base.{
  ℕ, ◌≤◌, ◌≡◌, ◌≢◌, inl, inr, true, false, some, List, [], arith, Option-cases, List-cases,
}
use ccbase.Memory.Types.{idle, eager_free, is_status}
use ccbase.Memory.Heap.{Ptr}
use ccbase.Memory.BufSet.{lower_bound, erase_at}
use ccbase.Memory.BufSet.Members.{lower_bound-best, lower_bound-none}
use ccbase.Memory.Allocator.{
  MemBufAllocator, Hooks, Env, map_candidate, map_and_split_mem_buf, malloc_candidate, malloc,
}
use ccbase.Memory.Allocator.Valid.{IsValid}

module _ {D : Type 0} (hooks : Hooks D) (a : MemBufAllocator) (v : IsValid a) (size : ℕ)
    (e : Env D) where
  -- An idle candidate needs no mapping.
  map_and_split-idle :
      (c : Ptr) (xs : List Ptr)
      → is_status (a.heap.buf c).status idle ≡ true
      → (map_and_split_mem_buf hooks c size (record a { free_mem_bufs = xs }) e).0 ≡ some c
  unfolding map_and_split_mem_buf map_candidate
  map_and_split-idle c xs i =
      let n : is_status (a.heap.buf c).status eager_free ≡ false = ground arith in rw n

  -- In a valid allocator that has a block and an idle buffer that is large enough, `Malloc`
  -- succeeds and hands out an idle buffer of the least size that is large enough.
  pub malloc-best_fit :
      (q : Ptr)
      → a.mem_blocks ≢ []
      → a.heap.live q ≡ true
      → is_status (a.heap.buf q).status idle ≡ true
      → size ≤ (a.heap.buf q).size
      → (p : Ptr) × ((malloc hooks size a e).0 ≡ some p)
        × (a.heap.live p ≡ true)
        × (is_status (a.heap.buf p).status idle ≡ true)
        × (size ≤ (a.heap.buf p).size)
        × ((r : Ptr)
            → a.heap.live r ≡ true
            → is_status (a.heap.buf r).status idle ≡ true
            → size ≤ (a.heap.buf r).size
            → (a.heap.buf p).size ≤ (a.heap.buf r).size)
  unfolding malloc malloc_candidate
  malloc-best_fit q blocks l i fits = elim (List-cases a.mem_blocks) [
    | inl empty ↦ absurd (blocks empty)
    | inr (b, bs, full) ↦ elim (Option-cases (lower_bound a.heap size a.free_mem_bufs)) [
      | inl miss ↦ absurd (
          ground (
            arith,
            lower_bound-none a.heap size a.free_mem_bufs q miss,
            v.frees q,
            v.linked.null_dead,
          ))
      | inr (c, hit) ↦
          let best = lower_bound-best a.heap size a.free_mem_bufs c v.free_sorted hit in
          let idle_c : is_status (a.heap.buf c).status idle ≡ true = ground (arith, v.frees c) in
          (
            c,
            rw (full, malloc, hit, malloc_candidate)
                (map_and_split-idle c (erase_at c a.free_mem_bufs) idle_c),
            ground (arith, v.frees c),
            idle_c,
            best.1,
            λ r m j k. best.2 r (ground (arith, v.frees r, v.linked.null_dead)) k,
          )
    ]
  ]
