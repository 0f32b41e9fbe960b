-- ===== src/Memory/Allocator/Fresh.antt =====
-- The buffer that Malloc returns was not in use before.
use ccbase.Base.{
  ℕ, ◌≡◌, Bool-cases, Option-cases, List-cases, inl, inr, some, [], ◌∷◌, arith, sub64, ltb, length,
  ◌++◌, if◌then◌else◌,
}
use mathlib.Core.Option.{some-injective}
use ccbase.Memory.Types.{idle, eager_free}
use ccbase.Memory.Stat.{MemBlock}
use ccbase.Memory.Heap.{Ptr, new, mem_buf}
use ccbase.Memory.BufSet.{lower_bound, erase_at}
use ccbase.Memory.BufSet.Members.{lower_bound-best}
use ccbase.Memory.Allocator.{
  MemBufAllocator, Hooks, Env, map_candidate, map_and_split_mem_buf, place_block,
  malloc_expand_block, malloc_candidate, malloc,
}
use ccbase.Memory.Allocator.Valid.{IsValid}
use ccbase.Memory.Allocator.Frame.{InUse}

-- The allocator with the buffer of a new block.
abbrev pub with_block : MemBlock → MemBufAllocator → MemBufAllocator
with_block b a = record a {
  heap = new a.heap (
      mem_buf b.size b.addr b.stream_id (length a.mem_blocks)
        (if a.enable_eager_free then eager_free else idle));
  mem_blocks = a.mem_blocks ++ b ∷ [];
}

module _ {D : Type 0} (hooks : Hooks D) (size : ℕ) where
  map_and_split-answer :
      (c b : Ptr) (a : MemBufAllocator) (e : Env D)
      → (map_and_split_mem_buf hooks c size a e).0 ≡ some b
      → c ≡ b
  unfolding map_and_split_mem_buf
  map_and_split-answer c b a e is =
      elim (Bool-cases (map_candidate hooks c size (sub64 (a.heap.buf c).size size) a e).0) [
        | inl mapped ↦ some-injective _ _ (rw mapped at is)
        | inr refused ↦ cc (rw refused at is)
      ]

  module _ (a : MemBufAllocator) (v : IsValid a) (e : Env D) (b : Ptr) where
    -- The buffer that is returned from a new block is new itself.
    pub malloc_expand_block-new :
        (malloc_expand_block hooks size a e).0 ≡ some b → InUse b a.heap → ⊥
    unfolding malloc_expand_block place_block
    malloc_expand_block-new is u = elim (Option-cases (hooks.mem_block_expander size e).0) [
      | inl nothing ↦ cc (rw (nothing, malloc_expand_block) at is)
      | inr (x, got) ↦
          let placed = rw (got, malloc_expand_block) at is in
          elim (Bool-cases (ltb x.size size)) [
            | inl small ↦ cc (rw (small, place_block) at placed)
            | inr large ↦
                let same : a.heap.fresh ≡ b =
                  map_and_split-answer a.heap.fresh b (with_block x a)
                    (hooks.mem_block_expander size e).1 (rw (large, place_block) at placed) in
                ground (arith, same, u.0, v.linked.below b)
          ]
    ]

    malloc_candidate-new : (malloc_candidate hooks size a e).0 ≡ some b → InUse b a.heap → ⊥
    unfolding malloc_candidate
    malloc_candidate-new is u = elim (Option-cases (lower_bound a.heap size a.free_mem_bufs)) [
      | inr (c, hit) ↦
          let same : c ≡ b =
            map_and_split-answer c b (record a { free_mem_bufs = erase_at c a.free_mem_bufs }) e
              (rw (hit, malloc_candidate) at is) in
          ground (
            arith,
            same,
            u,
            v.frees c,
            (lower_bound-best a.heap size a.free_mem_bufs c v.free_sorted hit).0,
          )
      | inl miss ↦ elim (Option-cases (lower_bound a.heap size a.eager_free_mem_bufs)) [
        | inl nothing ↦ cc (rw (miss, malloc_candidate, nothing) at is)
        | inr (c, hit) ↦
            let same : c ≡ b =
              map_and_split-answer c b
                (record a { eager_free_mem_bufs = erase_at c a.eager_free_mem_bufs }) e
                (rw (miss, malloc_candidate, hit) at is) in
            ground (
              arith,
              same,
              u,
              v.eagers c,
              (lower_bound-best a.heap size a.eager_free_mem_bufs c v.eager_sorted hit).0,
            )
      ]
    ]

    -- In a valid allocator, the buffer that `Malloc` returns was not in use before.
    pub malloc-new : (malloc hooks size a e).0 ≡ some b → InUse b a.heap → ⊥
    unfolding malloc
    malloc-new is u = elim (List-cases a.mem_blocks) [
      | inl bare ↦ malloc_expand_block-new (rw (bare, malloc) at is) u
      | inr (x, xs, full) ↦ malloc_candidate-new (rw (full, malloc) at is) u
    ]
