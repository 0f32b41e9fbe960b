-- ===== src/Memory/Allocator/Malloc.antt =====
-- Malloc and MallocExpandBlock: the invariant is kept, and the buffer handed out serves the request.
use ccbase.Base.{
  ℕ, ◌+◌, ◌≤◌, ◌<◌, ◌≡◌, inl, inr, true, Option, none, some, List, arith, Bool-cases, Option-cases,
  sub64, sub64_exact,
}
use ccbase.Memory.Types.{used, is_status, dynamic_mem_align_size}
use ccbase.Memory.Stat.{MemBlock, update_border_addr}
use ccbase.Memory.Heap.{Ptr}
use ccbase.Memory.BufSet.{erase_at, lower_bound}
use ccbase.Memory.BufSet.Members.{lower_bound-best}
use ccbase.Memory.Allocator.{
  MemBufAllocator, use_candidate, modify_block, map_candidate, map_and_split_mem_buf, Hooks, Env,
  malloc_candidate,
}
use ccbase.Memory.Allocator.Valid.{IsSpare, IsValidBut, IsValid}
use ccbase.Memory.Allocator.Moves.{
  emplace_eager-IsValid, set_status-IsValidBut, drop-IsValid, take_free-IsValidBut,
  take_eager-IsValidBut,
}
use ccbase.Memory.Allocator.Splits.{split_candidate-IsValidBut, split_candidate-buf}

blocks-IsValidBut :
    (x : Ptr) (a : MemBufAllocator) (bs : List MemBlock)
    → IsValidBut x a
    → IsValidBut x (record a { mem_blocks = bs })
blocks-IsValidBut x a bs v = record {
  linked = v.linked;
  frees = v.frees;
  eagers = v.eagers;
  free_sorted = v.free_sorted;
  eager_sorted = v.eager_sorted;
}

use_candidate-IsValid :
    (a : MemBufAllocator) (c : Ptr) → IsValidBut c a → IsValid (use_candidate c a)
unfolding use_candidate
use_candidate-IsValid a c v =
    let b = a.heap.buf c in
    let a' : MemBufAllocator = record a {
      mem_blocks = modify_block (update_border_addr b.addr b.size) b.mem_block a.mem_blocks;
    } in
    drop-IsValid (use_candidate c a) c (ground arith) (ground arith)
      (set_status-IsValidBut a' c used (blocks-IsValidBut c a _ v))

-- The buffer is allocated, in use, large enough, and by less than 512 bytes too large.
abbrev pub Serves : (size : ℕ) → MemBufAllocator → Option Ptr → Type 0
Serves size a none = Unit {0}
Serves size a (some p) =
    (a.heap.live p ≡ true)
    × (is_status (a.heap.buf p).status used ≡ true)
    × (size ≤ (a.heap.buf p).size)
    × ((a.heap.buf p).size < size + dynamic_mem_align_size)

module _ {D : Type 0} (hooks : Hooks D) (a : MemBufAllocator) (c : Ptr) (v : IsValidBut c a)
    (alive : a.heap.live c ≡ true) (size : ℕ) (pos : 0 < size) (fits : size ≤ (a.heap.buf c).size)
    (spare : IsSpare a c) where
  pub map_and_split-Valid :
      (e : Env D)
      → IsValid (map_and_split_mem_buf hooks c size a e).1
        × Serves size
            (map_and_split_mem_buf hooks c size a e).1
            (map_and_split_mem_buf hooks c size a e).0
  unfolding map_and_split_mem_buf map_candidate use_candidate
  map_and_split-Valid e =
      let r = sub64 (a.heap.buf c).size size in
      let parts : size + r ≡ (a.heap.buf c).size =
        omega (arith, sub64_exact (a.heap.buf c).size size, v.linked.fits c alive) in
      elim (Bool-cases (map_candidate hooks c size r a e).0) [
        | inl mapped ↦ rw mapped (
          use_candidate-IsValid _ c (split_candidate-IsValidBut a c v alive size r pos parts spare),
          ground (arith, split_candidate-buf a c v alive size r pos parts),
        )
        | inr refused ↦ rw refused (emplace_eager-IsValid a c v alive (ground arith), tt)
      ]

module _ {D : Type 0} (hooks : Hooks D) (a : MemBufAllocator) (v : IsValid a) (size : ℕ)
    (pos : 0 < size) where
  free-Valid :
      (c : Ptr) (e : Env D)
      → lower_bound a.heap size a.free_mem_bufs ≡ some c
      → let r =
          map_and_split_mem_buf hooks c size
            (record a { free_mem_bufs = erase_at c a.free_mem_bufs })
            e in
        IsValid r.1 × Serves size r.1 r.0
  free-Valid c e hit =
      let best = lower_bound-best a.heap size a.free_mem_bufs c v.free_sorted hit in
      map_and_split-Valid hooks _ c (take_free-IsValidBut a c v best.0) (ground (arith, v.frees c))
        size pos best.1 (inl (ground (arith, v.frees c))) e

  eager-Valid :
      (c : Ptr) (e : Env D)
      → lower_bound a.heap size a.eager_free_mem_bufs ≡ some c
      → let r =
          map_and_split_mem_buf hooks c size
            (record a { eager_free_mem_bufs = erase_at c a.eager_free_mem_bufs })
            e in
        IsValid r.1 × Serves size r.1 r.0
  eager-Valid c e hit =
      let best = lower_bound-best a.heap size a.eager_free_mem_bufs c v.eager_sorted hit in
      map_and_split-Valid hooks _ c (take_eager-IsValidBut a c v best.0)
        (ground (arith, v.eagers c)) size pos best.1 (inr (ground (arith, v.eagers c))) e

  pub malloc_candidate-Valid :
      (e : Env D)
      → IsValid (malloc_candidate hooks size a e).1
        × Serves size (malloc_candidate hooks size a e).1 (malloc_candidate hooks size a e).0
  unfolding malloc_candidate
  malloc_candidate-Valid e = elim (Option-cases (lower_bound a.heap size a.free_mem_bufs)) [
    | inr (c, hit) ↦ rw (hit, malloc_candidate) (free-Valid c e hit)
    | inl miss ↦
        rw (miss, malloc_candidate)
          (elim (Option-cases (lower_bound a.heap size a.eager_free_mem_bufs)) [
            | inr (c, hit) ↦ rw (hit, malloc_candidate) (eager-Valid c e hit)
            | inl none_left ↦ rw (none_left, malloc_candidate) (v, tt)
          ])
  ]
