-- ===== src/Memory/Allocator/Spread.antt =====
-- About Malloc and idle buffers that are neighbours.
use ccbase.Base.{
  ℕ, ◌<◌, ◌≡◌, ◌≢◌, inl, inr, sym, subst, true, false, some, arith, ◌==◌, Bool-cases, Option-cases,
  List-cases, sub64,
}
use ccbase.Memory.Types.{used}
use ccbase.Memory.Stat.{MemBlock}
use ccbase.Memory.Heap.{Ptr, null, Heap, split, set_status}
use ccbase.Memory.Heap.Linked.{IsLinked}
use ccbase.Memory.BufSet.{lower_bound, erase_at}
use ccbase.Memory.BufSet.Members.{lower_bound-best}
use ccbase.Memory.Allocator.{
  MemBufAllocator, Hooks, Env, put_by_status, map_and_split_mem_buf, place_block,
  malloc_expand_block, malloc_candidate, malloc,
}
use ccbase.Memory.Allocator.Valid.{IsValid}
use ccbase.Memory.Allocator.Expand.{Granted, expanded, expanded-IsValidBut}
use ccbase.Memory.Allocator.Coalesced.{is_idle, IsCoalesced}

module _ (h : Heap) (v : IsLinked h) (c : Ptr) (alive : h.live c ≡ true) (col : IsCoalesced h) where
  -- The new buffer has what was behind the candidate behind it; every other buffer keeps its next one.
  rest-after :
      (size r : ℕ)
      → let g = set_status (split h c size r) c used in
        is_idle g h.fresh ≡ true
        → (g.buf h.fresh).next ≢ null
        → is_idle g (g.buf h.fresh).next ≡ false
  unfolding split
  rest-after size r i n = ground (arith, col c, v.below c, v.next_live c, v.below (h.buf c).next)

  others-after :
      (size r : ℕ) (p : Ptr)
      → p ≢ c
      → p ≢ h.fresh
      → let g = set_status (split h c size r) c used in
        g.live p ≡ true
        → is_idle g p ≡ true
        → (g.buf p).next ≢ null
        → is_idle g (g.buf p).next ≡ false
  unfolding split
  others-after size r p m k l i n = ground (arith, col p, v.next_live p, v.below (h.buf p).next)

  split-IsCoalesced : (size r : ℕ) → IsCoalesced (set_status (split h c size r) c used)
  split-IsCoalesced size r p l i n = elim (Bool-cases (p == c)) [
    | inl here ↦ absurd (ground arith)
    | inr m ↦ elim (Bool-cases (p == h.fresh)) [
      | inr k ↦ others-after size r p (ground arith) (ground arith) l i n
      | inl rest ↦
          let g = set_status (split h c size r) c used in
          let e : p ≡ h.fresh = ground arith in
          subst (λ x. is_idle g x ≡ true → (g.buf x).next ≢ null → is_idle g (g.buf x).next ≡ false)
            (sym e) (rest-after size r) i n
    ]
  ]

  whole-IsCoalesced : IsCoalesced (set_status h c used)
  whole-IsCoalesced p l i n = ground (arith, col p)

module _ {D : Type 0} (hooks : Hooks D) (size : ℕ) where
  map_and_split-IsCoalesced :
      (a : MemBufAllocator) (c : Ptr) (e : Env D)
      → IsLinked a.heap
      → a.heap.live c ≡ true
      → IsCoalesced a.heap
      → IsCoalesced (map_and_split_mem_buf hooks c size a e).1.heap
  unfolding map_and_split_mem_buf
  map_and_split-IsCoalesced a c e v l col p m i n =
      let r = sub64 (a.heap.buf c).size size in
      ground (
        arith,
        col p,
        split-IsCoalesced a.heap v c l col size r p,
        whole-IsCoalesced a.heap v c l col p,
      )

module _ {D : Type 0} (hooks : Hooks D) (a : MemBufAllocator) (v : IsValid a) (size : ℕ)
    (pos : 0 < size) (col : IsCoalesced a.heap) where
  -- A new block has no neighbours.
  expanded-IsCoalesced : (b : MemBlock) → IsCoalesced (expanded hooks a v size pos b).heap
  expanded-IsCoalesced b p l i n =
      ground (arith, col p, v.linked.next_live p, v.linked.below (a.heap.buf p).next)

  place_block-IsCoalesced :
      (b : MemBlock) (e : Env D)
      → Granted a.heap b
      → IsCoalesced (place_block hooks b size a e).1.heap
  unfolding place_block put_by_status
  place_block-IsCoalesced b e grant p = ground (
    arith,
    expanded-IsCoalesced b p,
    map_and_split-IsCoalesced hooks size (expanded hooks a v size pos b) a.heap.fresh e
        (expanded-IsValidBut hooks a v size pos b grant).linked (ground arith)
        (expanded-IsCoalesced b) p,
  )

  candidate-IsCoalesced : (e : Env D) → IsCoalesced (malloc_candidate hooks size a e).1.heap
  unfolding malloc_candidate
  candidate-IsCoalesced e = elim (Option-cases (lower_bound a.heap size a.free_mem_bufs)) [
    | inr (c, hit) ↦
        let best = lower_bound-best a.heap size a.free_mem_bufs c v.free_sorted hit in
        rw (hit, malloc_candidate)
          (map_and_split-IsCoalesced hooks size
            (record a { free_mem_bufs = erase_at c a.free_mem_bufs }) c e v.linked
            (ground (arith, v.frees c)) col)
    | inl miss ↦
        rw (miss, malloc_candidate)
          (elim (Option-cases (lower_bound a.heap size a.eager_free_mem_bufs)) [
            | inl nothing ↦ rw (nothing, malloc_candidate) col
            | inr (c, hit) ↦
                let best =
                  lower_bound-best a.heap size a.eager_free_mem_bufs c v.eager_sorted hit in
                rw (hit, malloc_candidate)
                  (map_and_split-IsCoalesced hooks size
                    (record a { eager_free_mem_bufs = erase_at c a.eager_free_mem_bufs }) c e
                    v.linked (ground (arith, v.eagers c)) col)
          ])
  ]

  -- In a valid allocator where no two idle buffers are neighbours, the latter still holds after
  -- `Malloc` of a positive size, whether it succeeds, fails, or expands by a sound block.
  pub malloc-IsCoalesced :
      (e : Env D)
      → ((b : MemBlock) → (hooks.mem_block_expander size e).0 ≡ some b → Granted a.heap b)
      → IsCoalesced (malloc hooks size a e).1.heap
  unfolding malloc malloc_expand_block
  malloc-IsCoalesced e grants = elim (List-cases a.mem_blocks) [
    | inr (b, bs, full) ↦ rw (full, malloc) (candidate-IsCoalesced e)
    | inl empty ↦
        rw (empty, malloc)
          (elim (Option-cases (hooks.mem_block_expander size e).0) [
            | inl nothing ↦ rw (nothing, malloc_expand_block) col
            | inr (b, got) ↦
                rw (got, malloc_expand_block) (place_block-IsCoalesced b _ (grants b got))
          ])
  ]
