-- ===== src/Memory/Allocator/Bytes.antt =====
-- About the bytes that an allocator's buffers cover.
use ccbase.Base.{
  ℕ, ◌+◌, ◌≤◌, ◌<◌, ◌≡◌, ◌≢◌, ◌↔◌, ◌⊎◌, inl, inr, refl, sym, subst, true, false, not, ◌&&◌, some,
  [], arith, ◌==◌, ltb, leb, Bool-cases, Option-cases, List-cases, sub64, sub64_exact, length,
}
use mathlib.Core.Option.{some-injective}
use ccbase.Memory.Types.{
  DynamicMemBufStatus, idle, used, eager_free, used_by_event, is_status, dynamic_mem_align_size,
}
use ccbase.Memory.Stat.{MemBlock}
use ccbase.Memory.Event.{is_event_not_used}
use ccbase.Memory.Heap.{Ptr, Heap, delete, null, mem_buf, set_status, absorb_prev, absorb_next}
use ccbase.Memory.Heap.Linked.{IsLinked}
use ccbase.Memory.Heap.Bytes.{
  Covers, SameBytes, SameBytes-trans, SameBytes-refl, set_status-SameBytes, new-Covers,
  split-SameBytes, absorb_prev-SameBytes, absorb_next-SameBytes,
}
use ccbase.Memory.BufSet.{lower_bound, erase_at}
use ccbase.Memory.BufSet.Members.{lower_bound-best}
use ccbase.Memory.Allocator.{
  MemBufAllocator, Hooks, Env, status_of, erase_neighbour, merge_prev, merge_next, put_by_target,
  release_buf, free, put_by_status, split_candidate, use_candidate, map_candidate,
  map_and_split_mem_buf, place_block, malloc_expand_block, malloc_candidate, malloc,
}
use ccbase.Memory.Allocator.Valid.{IsValidBut, IsValid}
use ccbase.Memory.Allocator.Moves.{set_status-IsValidBut, hand-IsValidBut}
use ccbase.Memory.Allocator.Merge.{IsTarget, merge_prev-IsValidBut, merge_prev-keeps}
use ccbase.Memory.Allocator.Expand.{Granted, block_status, expanded, expanded-IsValidBut}

put_by_target-heap :
    (t : DynamicMemBufStatus) (b : Ptr) (a : MemBufAllocator) → (put_by_target t b a).heap ≡ a.heap
unfolding put_by_target
put_by_target-heap t b a = ground arith

pub put_by_status-heap : (b : Ptr) (a : MemBufAllocator) → (put_by_status b a).heap ≡ a.heap
unfolding put_by_status
put_by_status-heap b a = ground arith

erase_neighbour-heap :
    (t : DynamicMemBufStatus) (h : Heap) (p : Ptr) (a : MemBufAllocator)
    → (erase_neighbour t h p a).heap ≡ delete h p
unfolding erase_neighbour
erase_neighbour-heap idle h p a = refl
erase_neighbour-heap eager_free h p a = refl
erase_neighbour-heap used h p a = refl
erase_neighbour-heap used_by_event h p a = refl

module _ (t : DynamicMemBufStatus) (b : Ptr) (a : MemBufAllocator) (v : IsLinked a.heap)
    (alive : a.heap.live b ≡ true) where
  merge_prev-SameBytes : SameBytes a.heap (merge_prev t b a).heap
  unfolding merge_prev absorb_prev
  merge_prev-SameBytes =
      let p = (a.heap.buf b).prev in
      elim (Bool-cases (not (p == null) && is_status (status_of a p) t)) [
        | inr stays ↦ rw stays (SameBytes-refl a.heap)
        | inl merges ↦
            let ne : p ≢ null = ground arith in
            let same : (merge_prev t b a).heap ≡ absorb_prev a.heap b =
              rw merges (erase_neighbour-heap t _ p a) in
            subst (SameBytes a.heap) (sym same) (absorb_prev-SameBytes a.heap v b alive ne)
      ]

  merge_next-SameBytes : SameBytes a.heap (merge_next t b a).heap
  unfolding merge_next absorb_next
  merge_next-SameBytes =
      let p = (a.heap.buf b).next in
      elim (Bool-cases (not (p == null) && is_status (status_of a p) t)) [
        | inr stays ↦ rw stays (SameBytes-refl a.heap)
        | inl merges ↦
            let ne : p ≢ null = ground arith in
            let same : (merge_next t b a).heap ≡ absorb_next a.heap b =
              rw merges (erase_neighbour-heap t _ p a) in
            subst (SameBytes a.heap) (sym same) (absorb_next-SameBytes a.heap v b alive ne)
      ]

module _ (t : DynamicMemBufStatus) (b : Ptr) (a : MemBufAllocator) (target : IsTarget t) where
  pub release_buf-SameBytes :
      IsValidBut b a → a.heap.live b ≡ true → SameBytes a.heap (release_buf t b a).heap
  unfolding release_buf
  release_buf-SameBytes v alive =
      let a₁ : MemBufAllocator = record a { heap = set_status a.heap b t } in
      let v₁ : IsValidBut b a₁ = set_status-IsValidBut a b t v in
      let k₁ = merge_prev-keeps a₁ b v₁ alive t target in
      let v₂ = merge_prev-IsValidBut a₁ b v₁ alive t target in
      let a₂ = merge_prev t b a₁ in
      rw (put_by_target-heap t b (merge_next t b a₂)) (
        SameBytes-trans a.heap a₁.heap (merge_next t b a₂).heap (set_status-SameBytes a.heap b t) (
          SameBytes-trans a₁.heap a₂.heap (merge_next t b a₂).heap
            (merge_prev-SameBytes t b a₁ v₁.linked alive)
            (merge_next-SameBytes t b a₂ v₂.linked k₁.0)))

  -- In a valid allocator, freeing a live buffer that is neither idle nor eagerly freed, to idle or
  -- eagerly, loses no byte and makes none up: the buffers cover the same bytes before and after,
  -- whichever neighbours are merged, and also when events hold the buffer back.
  pub free-SameBytes :
      IsValid a
      → a.heap.live b ≡ true
      → is_status (a.heap.buf b).status idle ≡ false
      → is_status (a.heap.buf b).status eager_free ≡ false
      → SameBytes a.heap (free b t a).1.heap
  unfolding free
  free-SameBytes v alive i e = elim (Bool-cases (is_event_not_used (a.heap.buf b).event_base)) [
    | inl done ↦ rw done (release_buf-SameBytes (hand-IsValidBut a b i e v) alive)
    | inr waits ↦ rw waits (set_status-SameBytes a.heap b used_by_event)
  ]

module _ {D : Type 0} (hooks : Hooks D) (a : MemBufAllocator) (c : Ptr) (size : ℕ) where
  split_candidate-SameBytes :
      (r : ℕ)
      → IsLinked a.heap
      → a.heap.live c ≡ true
      → size + r ≡ (a.heap.buf c).size
      → SameBytes a.heap (split_candidate c size r a).heap
  unfolding split_candidate
  split_candidate-SameBytes r v alive parts = elim (Bool-cases (leb dynamic_mem_align_size r)) [
    | inr small ↦ rw small (SameBytes-refl a.heap)
    | inl large ↦ rw (large, put_by_status-heap) (split-SameBytes a.heap v c alive size r parts)
  ]

  pub map_and_split-SameBytes :
      (e : Env D)
      → IsLinked a.heap
      → a.heap.live c ≡ true
      → size ≤ (a.heap.buf c).size
      → SameBytes a.heap (map_and_split_mem_buf hooks c size a e).1.heap
  unfolding map_and_split_mem_buf use_candidate
  map_and_split-SameBytes e v alive fits =
      let r = sub64 (a.heap.buf c).size size in
      let parts : size + r ≡ (a.heap.buf c).size =
        omega (arith, sub64_exact (a.heap.buf c).size size, v.fits c alive) in
      elim (Bool-cases (map_candidate hooks c size r a e).0) [
        | inr refused ↦ rw refused (SameBytes-refl a.heap)
        | inl mapped ↦ rw mapped (
            SameBytes-trans a.heap (split_candidate c size r a).heap
              (set_status (split_candidate c size r a).heap c used)
              (split_candidate-SameBytes r v alive parts)
              (set_status-SameBytes (split_candidate c size r a).heap c used))
      ]

-- The byte lies in the block.
abbrev pub InBlock : MemBlock → ℕ → Type 0
InBlock b x = (b.addr ≤ x) × (x < b.addr + b.size)

module _ {D : Type 0} (hooks : Hooks D) (a : MemBufAllocator) (v : IsValid a) (size : ℕ)
    (pos : 0 < size) (e : Env D) where
  pub place_block-Covers :
      (b : MemBlock) (x : ℕ)
      → Granted a.heap b
      → Covers (place_block hooks b size a e).1.heap x ↔ (Covers a.heap x ⊎ InBlock b x)
  unfolding place_block
  place_block-Covers b x grant =
      let a' : MemBufAllocator = expanded hooks a v size pos b in
      let buf =
        mem_buf b.size b.addr b.stream_id (length a.mem_blocks) (block_status hooks a v size pos) in
      let first = new-Covers a.heap v.linked buf x in
      elim (Bool-cases (ltb b.size size)) [
        | inl small ↦ rw (small, put_by_status-heap) first
        | inr large ↦
            let rest =
              map_and_split-SameBytes hooks a' a.heap.fresh size e
                (expanded-IsValidBut hooks a v size pos b grant).linked (ground arith)
                (ground arith) x in
            rw large (λ k. first.0 (rest.1 k), λ k. rest.0 (first.1 k))
      ]

  pub malloc_candidate-SameBytes : SameBytes a.heap (malloc_candidate hooks size a e).1.heap
  unfolding malloc_candidate
  malloc_candidate-SameBytes = elim (Option-cases (lower_bound a.heap size a.free_mem_bufs)) [
    | inr (c, hit) ↦
        let best = lower_bound-best a.heap size a.free_mem_bufs c v.free_sorted hit in
        rw (hit, malloc_candidate)
          (map_and_split-SameBytes hooks (record a { free_mem_bufs = erase_at c a.free_mem_bufs }) c
            size e v.linked (ground (arith, v.frees c, best.0)) best.1)
    | inl miss ↦
        rw (miss, malloc_candidate)
          (elim (Option-cases (lower_bound a.heap size a.eager_free_mem_bufs)) [
            | inl nothing ↦ rw (nothing, malloc_candidate) (SameBytes-refl a.heap)
            | inr (c, hit) ↦
                let best =
                  lower_bound-best a.heap size a.eager_free_mem_bufs c v.eager_sorted hit in
                rw (hit, malloc_candidate)
                  (map_and_split-SameBytes hooks
                    (record a { eager_free_mem_bufs = erase_at c a.eager_free_mem_bufs }) c size e
                    v.linked (ground (arith, v.eagers c, best.0)) best.1)
          ])
  ]

-- The byte lies in a block that the device grants now.
abbrev pub Comes : {D : Type 0} → Hooks D → (size : ℕ) → Env D → ℕ → Type 0
Comes hooks size e x = (b : MemBlock) × ((hooks.mem_block_expander size e).0 ≡ some b) × InBlock b x

module _ {D : Type 0} (hooks : Hooks D) (a : MemBufAllocator) (v : IsValid a) (size : ℕ)
    (pos : 0 < size) (e : Env D)
    (grants : (b : MemBlock) → (hooks.mem_block_expander size e).0 ≡ some b → Granted a.heap b)
    (x : ℕ) where
  -- For a valid allocator, a positive size, and a device that grants only blocks that are not
  -- empty, fit the address space and overlap no buffer: after `MallocExpandBlock` the buffers
  -- cover what they covered, and the block that the device grants, if it grants one.
  pub malloc_expand_block-Covers :
      Covers (malloc_expand_block hooks size a e).1.heap x
      ↔ (Covers a.heap x ⊎ Comes hooks size e x)
  unfolding malloc_expand_block
  malloc_expand_block-Covers = elim (Option-cases (hooks.mem_block_expander size e).0) [
    | inl nothing ↦
        rw (nothing, malloc_expand_block)
          (λ k. inl k, λ k. elim k [ inl k' ↦ k' | inr (b, some_b, i) ↦ absurd (cc some_b) ])
    | inr (b, got) ↦
        let w =
          place_block-Covers hooks a v size pos (hooks.mem_block_expander size e).1 b x
            (grants b got) in
        rw (got, malloc_expand_block)
          (
            λ k. elim (w.0 k) [ inl old ↦ inl old | inr i ↦ inr (b, refl, i) ],
            λ k. elim k [
              | inl old ↦ w.1 (inl old)
              | inr (c, is, i) ↦
                  w.1 (inr (subst (λ y. InBlock y x) (sym (some-injective _ _ is)) i))
            ],
          )
  ]

  -- In a valid allocator, for a size above 0, and if a block that the device grants is sound (in no
  -- place a buffer covers, with a size above 0 and an end in the address space), after `Malloc` the
  -- buffers cover what they covered, and, where the allocator had no block yet, the granted block: a byte is neither lost nor
  -- made up, however the buffer is chosen, mapped and split.
  pub malloc-Covers :
      Covers (malloc hooks size a e).1.heap x
      ↔ (Covers a.heap x ⊎ ((a.mem_blocks ≡ []) × Comes hooks size e x))
  unfolding malloc
  malloc-Covers = elim (List-cases a.mem_blocks) [
    | inl bare ↦
        let w = malloc_expand_block-Covers in
        rw (bare, malloc)
          (
            λ k. elim (w.0 k) [ inl old ↦ inl old | inr new ↦ inr (refl, new) ],
            λ k. elim k [ inl old ↦ w.1 (inl old) | inr new ↦ w.1 (inr new.1) ],
          )
    | inr (b, bs, full) ↦
        let w = malloc_candidate-SameBytes hooks a v size pos e x in
        rw (full, malloc)
          (
            λ k. inl (w.1 k),
            λ k. elim k [ inl old ↦ w.0 old | inr none_yet ↦ absurd (cc none_yet.0) ],
          )
  ]
