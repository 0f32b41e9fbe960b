-- ===== src/Memory/Allocator.antt =====
-- MemBufAllocator of memory/abstract_dynamic_memory_pool.cc: the best-fit allocator of one stream.
pub mod Release
pub mod Valid
pub mod Moves
pub mod Splits
pub mod Malloc
pub mod Expand
pub mod Merge
pub mod Free
pub mod Fit
pub mod Frame
pub mod Bytes
pub mod Eager
pub mod Coalesced
pub mod Spread
pub mod Tests
mod MergeTests
mod BytesTests
pub mod Advance
pub mod MallocAdvance
pub mod EagerAdvance
pub mod Fresh
use ccbase.Base.{
  ℕ, zero, suc, ◌+◌, ◌-◌, Bool, true, false, not, ◌&&◌, Option, none, some, List, [], ◌∷◌, ◌++◌,
  ◌==◌, ltb, leb, if◌then◌else◌, length, sub64, add64,
}
use ccbase.Memory.Types.{
  DynamicMemBufStatus, idle, used, eager_free, used_by_event, is_status, dynamic_mem_align_size,
}
use ccbase.Memory.Stat.{MemStat, MemBlock, update_border_addr, actual_peak_size}
use ccbase.Memory.Event.{is_event_not_used}
use ccbase.Memory.Heap.{
  Ptr, null, MemBuf, mem_buf, Heap, set_status, new, delete, split, relink_prev, relink_next,
}
use ccbase.Memory.BufSet.{emplace, erase, erase_at, lower_bound}

-- What the callbacks of an allocator share with the pool: its statistics and the device.
pub record Env (D : Type 0) : Type 0 where
  pub stat : MemStat
  pub dev : D

-- The callbacks that the pool hands to an allocator.
pub record Hooks (D : Type 0) : Type 0 where
  pub mem_block_expander : (size : ℕ) → Env D → Option MemBlock × Env D
  pub mem_block_cleaner : MemBlock → Env D → Bool × Env D
  pub mem_mapper : (size addr : ℕ) → Env D → ℕ × Env D
  pub mem_eager_freer : (addr size : ℕ) → Env D → ℕ × Env D

pub record MemBufAllocator : Type 0 where
  pub heap : Heap
  pub mem_blocks : List MemBlock
  pub free_mem_bufs : List Ptr
  pub eager_free_mem_bufs : List Ptr
  pub enable_eager_free : Bool
  pub stream_id : ℕ
  pub is_persistent : Bool

abbrev pub status_of : MemBufAllocator → Ptr → DynamicMemBufStatus
status_of a p = (a.heap.buf p).status

-- A buffer that is not in use goes to one of the two sets, by its status.
unfoldable pub put_by_status : Ptr → MemBufAllocator → MemBufAllocator
put_by_status p a =
    if is_status (status_of a p) idle
    then record a { free_mem_bufs = emplace a.heap p a.free_mem_bufs }
    else record a { eager_free_mem_bufs = emplace a.heap p a.eager_free_mem_bufs }

-- Memory that was given back eagerly is mapped again before it is used.
unfoldable pub map_candidate :
    {D : Type 0}
    → Hooks D
    → Ptr
    → (size remaining_size : ℕ) → MemBufAllocator
    → Env D
    → Bool × Env D
map_candidate hooks c size remaining_size a e =
    let b = a.heap.buf c in
    let map_size = if leb dynamic_mem_align_size remaining_size then size else b.size in
    if is_status b.status eager_free
    then (let (mapped, e') = hooks.mem_mapper map_size b.addr e in (mapped == map_size, e'))
    else (true, e)

-- Split off what is more than `size`, if that is worth a buffer of its own.
unfoldable pub split_candidate : Ptr → (size remaining_size : ℕ) → MemBufAllocator → MemBufAllocator
unfolding put_by_status
split_candidate c size remaining_size a =
    if leb dynamic_mem_align_size remaining_size
    then put_by_status a.heap.fresh (record a { heap = split a.heap c size remaining_size })
    else a

abbrev pub modify_block : (MemBlock → MemBlock) → ℕ → List MemBlock → List MemBlock
modify_block f i [] = []
modify_block f zero (b ∷ bs) = f b ∷ bs
modify_block f (suc i) (b ∷ bs) = b ∷ modify_block f i bs

-- The candidate is in use now, and its block's borders are widened.
unfoldable pub use_candidate : Ptr → MemBufAllocator → MemBufAllocator
use_candidate c a =
    let b = a.heap.buf c in
    record a {
      heap = set_status a.heap c used;
      mem_blocks = modify_block (update_border_addr b.addr b.size) b.mem_block a.mem_blocks;
    }

module _ {D : Type 0} (hooks : Hooks D) where
  unfoldable pub map_and_split_mem_buf :
      (candidate : Ptr) (size : ℕ) → MemBufAllocator → Env D → Option Ptr × MemBufAllocator × Env D
  unfolding map_candidate split_candidate use_candidate
  map_and_split_mem_buf c size a e =
      let remaining_size = sub64 (a.heap.buf c).size size in
      let (mapped, e') = map_candidate hooks c size remaining_size a e in
      if mapped
      then (some c, use_candidate c (split_candidate c size remaining_size a), e')
      else (none, record a { eager_free_mem_bufs = emplace a.heap c a.eager_free_mem_bufs }, e')

  -- The new block becomes one buffer, which is used if it is large enough.
  unfoldable pub place_block :
      MemBlock → (size : ℕ) → MemBufAllocator → Env D → Option Ptr × MemBufAllocator × Env D
  unfolding map_and_split_mem_buf put_by_status
  place_block b size a e =
      let status = if a.enable_eager_free then eager_free else idle in
      let candidate = mem_buf b.size b.addr b.stream_id (length a.mem_blocks) status in
      let c = a.heap.fresh in
      let a' : MemBufAllocator = record a {
        heap = new a.heap candidate;
        mem_blocks = a.mem_blocks ++ b ∷ [];
      } in
      if ltb b.size size then (none, put_by_status c a', e) else map_and_split_mem_buf c size a' e

  unfoldable pub malloc_expand_block :
      (size : ℕ) → MemBufAllocator → Env D → Option Ptr × MemBufAllocator × Env D
  unfolding place_block
  malloc_expand_block size a e =
      let (block, e') = hooks.mem_block_expander size e in
      elim block [ none ↦ (none, a, e') | some b ↦ place_block b size a e' ]

  -- The best fit among the idle buffers, else among those that were freed eagerly.
  unfoldable pub malloc_candidate :
      (size : ℕ) → MemBufAllocator → Env D → Option Ptr × MemBufAllocator × Env D
  unfolding map_and_split_mem_buf
  malloc_candidate size a e = elim (lower_bound a.heap size a.free_mem_bufs) [
    | some c ↦
        map_and_split_mem_buf c size (record a { free_mem_bufs = erase_at c a.free_mem_bufs }) e
    | none ↦ elim (lower_bound a.heap size a.eager_free_mem_bufs) [
      | some c ↦
          map_and_split_mem_buf c size
            (record a { eager_free_mem_bufs = erase_at c a.eager_free_mem_bufs }) e
      | none ↦ (none, a, e)
    ]
  ]

  unfoldable pub malloc :
      (size : ℕ) → MemBufAllocator → Env D → Option Ptr × MemBufAllocator × Env D
  unfolding malloc_expand_block malloc_candidate
  malloc size a e = elim a.mem_blocks [
    | [] ↦ malloc_expand_block size a e
    | _ ∷ _ ↦ malloc_candidate size a e
  ]

-- The neighbour `v` of a freed buffer leaves the set of the target status; `h` is the heap then.
unfoldable pub erase_neighbour :
    DynamicMemBufStatus → Heap → Ptr → MemBufAllocator → MemBufAllocator
erase_neighbour target h v a =
    if is_status target idle
    then record a { heap = delete h v; free_mem_bufs = erase h v a.free_mem_bufs }
    else if is_status target eager_free
    then record a { heap = delete h v; eager_free_mem_bufs = erase h v a.eager_free_mem_bufs }
    else record a { heap = delete h v }

unfoldable pub merge_prev : DynamicMemBufStatus → Ptr → MemBufAllocator → MemBufAllocator
unfolding erase_neighbour
merge_prev target p a =
    let v = (a.heap.buf p).prev in
    if not (v == null) && is_status (status_of a v) target
    then erase_neighbour target (relink_prev a.heap p) v a
    else a

unfoldable pub merge_next : DynamicMemBufStatus → Ptr → MemBufAllocator → MemBufAllocator
unfolding erase_neighbour
merge_next target p a =
    let v = (a.heap.buf p).next in
    if not (v == null) && is_status (status_of a v) target
    then erase_neighbour target (relink_next a.heap p) v a
    else a

unfoldable pub put_by_target : DynamicMemBufStatus → Ptr → MemBufAllocator → MemBufAllocator
put_by_target target p a =
    if is_status target idle
    then record a { free_mem_bufs = emplace a.heap p a.free_mem_bufs }
    else if is_status target eager_free
    then record a { eager_free_mem_bufs = emplace a.heap p a.eager_free_mem_bufs }
    else a

-- Set the status, merge with both neighbours, and enter the result into its set.
unfoldable pub release_buf : DynamicMemBufStatus → Ptr → MemBufAllocator → MemBufAllocator
unfolding merge_prev merge_next put_by_target
release_buf target p a =
    let a₁ : MemBufAllocator = record a { heap = set_status a.heap p target } in
    let a₂ = merge_prev target p a₁ in put_by_target target p (merge_next target p a₂)

-- A buffer that events still refer to is kept until they are done.
unfoldable pub free : Ptr → DynamicMemBufStatus → MemBufAllocator → Bool × MemBufAllocator
unfolding release_buf
free p target a =
    if not (is_event_not_used (a.heap.buf p).event_base)
    then (false, record a { heap = set_status a.heap p used_by_event })
    else (true, release_buf target p a)
