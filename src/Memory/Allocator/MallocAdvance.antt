-- ===== src/Memory/Allocator/MallocAdvance.antt =====
-- Malloc and MallocExpandBlock as operations that advance their allocator.
use ccbase.Base.{
  ℕ, ◌+◌, ◌≤◌, ◌<◌, ◌≡◌, ◌⊎◌, inl, inr, sym, subst, true, Bool-cases, Option-cases, List-cases,
  some, arith, sub64, ltb, leb,
}
use ccbase.Memory.Types.{is_status, eager_free}
use ccbase.Memory.Stat.{MemBlock}
use ccbase.Memory.Heap.{Ptr, split, new}
use ccbase.Memory.Heap.Bytes.{Covers}
use ccbase.Memory.BufSet.{lower_bound, erase_at}
use ccbase.Memory.Allocator.{
  MemBufAllocator, Hooks, Env, map_candidate, map_and_split_mem_buf, place_block,
  malloc_expand_block, malloc_candidate, malloc,
}
use ccbase.Memory.Allocator.Valid.{IsValid}
use ccbase.Memory.Allocator.Frame.{malloc_expand_block-Untouched, malloc_candidate-Untouched}
use ccbase.Memory.Allocator.Eager.{IdleQuiet}
use ccbase.Memory.Allocator.Expand.{Granted, malloc_expand_block-Valid}
use ccbase.Memory.Allocator.Malloc.{malloc_candidate-Valid}
use ccbase.Memory.Allocator.Fresh.{with_block}
use ccbase.Memory.Allocator.Bytes.{
  InBlock, Comes, put_by_status-heap, malloc_expand_block-Covers, malloc_candidate-SameBytes,
}
use ccbase.Memory.Allocator.Advance.{
  Untouched-Kept, Steady, Steady-refl, Steady-trans, HookLaws, Advances,
}

module _ {D : Type 0} (taken : D → ℕ → Type 0) where
  module _ (hooks : Hooks D) (laws : HookLaws taken hooks) (size : ℕ) where
    map_candidate-Steady :
        (c : Ptr) (r : ℕ) (a : MemBufAllocator) (e : Env D)
        → Steady taken e (map_candidate hooks c size r a e).1
    unfolding map_candidate
    map_candidate-Steady c r a e = elim (Bool-cases (is_status (a.heap.buf c).status eager_free)) [
      | inl gone ↦ rw gone (laws.mapper _ (a.heap.buf c).addr e)
      | inr here ↦ rw here (Steady-refl taken e)
    ]

    map_and_split-Steady :
        (c : Ptr) (a : MemBufAllocator) (e : Env D)
        → Steady taken e (map_and_split_mem_buf hooks c size a e).2
    unfolding map_and_split_mem_buf
    map_and_split-Steady c a e =
        let r = sub64 (a.heap.buf c).size size in
        elim (Bool-cases (map_candidate hooks c size r a e).0) [
          | inl mapped ↦ rw mapped (map_candidate-Steady c r a e)
          | inr refused ↦ rw refused (map_candidate-Steady c r a e)
        ]

    map_and_split-IdleQuiet :
        (c : Ptr) (a : MemBufAllocator) (e : Env D)
        → IdleQuiet a
        → IdleQuiet (map_and_split_mem_buf hooks c size a e).1
    unfolding map_and_split_mem_buf split
    map_and_split-IdleQuiet c a e quiet p l i = ground (arith, quiet p)

    place_block-Steady :
        (b : MemBlock) (a : MemBufAllocator) (e : Env D)
        → Steady taken e (place_block hooks b size a e).2
    unfolding place_block
    place_block-Steady b a e = elim (Bool-cases (ltb b.size size)) [
      | inl small ↦ rw small (Steady-refl taken e)
      | inr large ↦ rw large (map_and_split-Steady a.heap.fresh (with_block b a) e)
    ]

    place_block-IdleQuiet :
        (b : MemBlock) (a : MemBufAllocator) (e : Env D)
        → IdleQuiet a
        → IdleQuiet (place_block hooks b size a e).1
    unfolding place_block
    place_block-IdleQuiet b a e quiet =
        let quiet' : IdleQuiet (with_block b a) = λ p l i. ground (arith, quiet p) in
        elim (Bool-cases (ltb b.size size)) [
          | inl small ↦ rw (small, put_by_status-heap) quiet'
          | inr large ↦ rw large (map_and_split-IdleQuiet a.heap.fresh (with_block b a) e quiet')
        ]

    module _ (a : MemBufAllocator) (v : IsValid a) (quiet : IdleQuiet a) (pos : 0 < size)
        (e : Env D) (apart : (x : ℕ) → Covers a.heap x → taken e.dev x) where
      clear :
          (b : MemBlock)
          → ((x : ℕ) → InBlock b x → Covers a.heap x → ⊥)
          → 0 < b.size
          → (p : Ptr) → a.heap.live p ≡ true
          → ((a.heap.buf p).addr + (a.heap.buf p).size ≤ b.addr)
            ⊎ (b.addr + b.size ≤ (a.heap.buf p).addr)
      clear b none_shared sized p l =
          let q = a.heap.buf p in
          let s = v.linked.sized p l in
          elim (Bool-cases (leb (q.addr + q.size) b.addr)) [
            | inl before ↦ inl (ground arith)
            | inr over ↦ elim (Bool-cases (leb (b.addr + b.size) q.addr)) [
              | inl behind ↦ inr (ground arith)
              | inr both ↦ elim (Bool-cases (leb q.addr b.addr)) [
                | inl first ↦
                    absurd (none_shared b.addr (ground arith) (p, (l, ground arith, ground arith)))
                | inr second ↦
                    absurd (none_shared q.addr (ground arith) (p, (l, ground arith, ground arith)))
              ]
            ]
          ]

      -- A block that the device grants overlaps no buffer, since its bytes were not taken.
      pub granted : (b : MemBlock) → (hooks.mem_block_expander size e).0 ≡ some b → Granted a.heap b
      granted b got =
          let g = laws.grants size e b got in
          record {
            sized = g.sized;
            fits = g.fits;
            clear = λ p l. clear b (λ x i k. g.new_bytes x i (apart x k)) g.sized p l;
          }

      malloc_expand_block-Steady : Steady taken e (malloc_expand_block hooks size a e).2
      unfolding malloc_expand_block
      malloc_expand_block-Steady =
          let first = laws.expander size e in
          elim (Option-cases (hooks.mem_block_expander size e).0) [
            | inl nothing ↦ rw (nothing, malloc_expand_block) first
            | inr (b, got) ↦
                rw (got, malloc_expand_block)
                  (Steady-trans taken e (hooks.mem_block_expander size e).1
                    (place_block hooks b size a (hooks.mem_block_expander size e).1).2 first
                    (place_block-Steady b a (hooks.mem_block_expander size e).1))
          ]

      -- The bytes of a granted block stay taken to the end.
      granted-taken :
          (x : ℕ)
          → Comes hooks size e x
          → (taken e.dev x → ⊥) × taken (malloc_expand_block hooks size a e).2.dev x
      unfolding malloc_expand_block
      granted-taken x (b, got, i) =
          let g = laws.grants size e b got in
          (
            g.new_bytes x i,
            rw (got, malloc_expand_block)
                ((place_block-Steady b a (hooks.mem_block_expander size e).1).keeps x
                  (g.now_taken x i)),
          )

      malloc_expand_block-IdleQuiet : IdleQuiet (malloc_expand_block hooks size a e).1
      unfolding malloc_expand_block
      malloc_expand_block-IdleQuiet = elim (Option-cases (hooks.mem_block_expander size e).0) [
        | inl nothing ↦ rw (nothing, malloc_expand_block) quiet
        | inr (b, got) ↦
            rw (got, malloc_expand_block)
              (place_block-IdleQuiet b a (hooks.mem_block_expander size e).1 quiet)
      ]

      pub malloc_expand_block-Advances :
          Advances taken a
            (malloc_expand_block hooks size a e).1
            e
            (malloc_expand_block hooks size a e).2
      malloc_expand_block-Advances = record {
        valid = (malloc_expand_block-Valid hooks a v size pos e granted).0;
        quiet = malloc_expand_block-IdleQuiet;
        kept = λ q u.
            Untouched-Kept q a.heap (malloc_expand_block hooks size a e).1.heap u
              (malloc_expand_block-Untouched hooks size q a v e u);
        owned = λ x k. elim ((malloc_expand_block-Covers hooks a v size pos e granted x).0 k) [
          | inl old ↦ inl old
          | inr new ↦ inr (granted-taken x new)
        ];
        steady = malloc_expand_block-Steady;
      }

      malloc_candidate-Steady : Steady taken e (malloc_candidate hooks size a e).2
      unfolding malloc_candidate
      malloc_candidate-Steady = elim (Option-cases (lower_bound a.heap size a.free_mem_bufs)) [
        | inr (c, hit) ↦
            rw (hit, malloc_candidate)
              (map_and_split-Steady c (record a { free_mem_bufs = erase_at c a.free_mem_bufs }) e)
        | inl miss ↦
            rw (miss, malloc_candidate)
              (elim (Option-cases (lower_bound a.heap size a.eager_free_mem_bufs)) [
                | inl nothing ↦ rw (nothing, malloc_candidate) (Steady-refl taken e)
                | inr (c, hit) ↦
                    rw (hit, malloc_candidate)
                      (map_and_split-Steady c
                        (record a { eager_free_mem_bufs = erase_at c a.eager_free_mem_bufs }) e)
              ])
      ]

      malloc_candidate-IdleQuiet : IdleQuiet (malloc_candidate hooks size a e).1
      unfolding malloc_candidate
      malloc_candidate-IdleQuiet = elim (Option-cases (lower_bound a.heap size a.free_mem_bufs)) [
        | inr (c, hit) ↦
            rw (hit, malloc_candidate)
              (map_and_split-IdleQuiet c (record a { free_mem_bufs = erase_at c a.free_mem_bufs }) e
                quiet)
        | inl miss ↦
            rw (miss, malloc_candidate)
              (elim (Option-cases (lower_bound a.heap size a.eager_free_mem_bufs)) [
                | inl nothing ↦ rw (nothing, malloc_candidate) quiet
                | inr (c, hit) ↦
                    rw (hit, malloc_candidate)
                      (map_and_split-IdleQuiet c
                        (record a { eager_free_mem_bufs = erase_at c a.eager_free_mem_bufs }) e
                        quiet)
              ])
      ]

      malloc_candidate-Advances :
          Advances taken a (malloc_candidate hooks size a e).1 e (malloc_candidate hooks size a e).2
      malloc_candidate-Advances = record {
        valid = (malloc_candidate-Valid hooks a v size pos e).0;
        quiet = malloc_candidate-IdleQuiet;
        kept = λ q u.
            Untouched-Kept q a.heap (malloc_candidate hooks size a e).1.heap u
              (malloc_candidate-Untouched hooks size q a v e u);
        owned = λ x k. inl ((malloc_candidate-SameBytes hooks a v size pos e x).1 k);
        steady = malloc_candidate-Steady;
      }

      -- `Malloc` advances a valid allocator whose bytes the device has taken.
      pub malloc-Advances : Advances taken a (malloc hooks size a e).1 e (malloc hooks size a e).2
      unfolding malloc
      malloc-Advances = elim (List-cases a.mem_blocks) [
        | inl bare ↦
            let same : malloc hooks size a e ≡ malloc_expand_block hooks size a e =
              simp (bare, malloc) in
            subst (λ r. Advances taken a r.1 e r.2) (sym same) malloc_expand_block-Advances
        | inr (b, bs, full) ↦
            let same : malloc hooks size a e ≡ malloc_candidate hooks size a e =
              simp (full, malloc) in
            subst (λ r. Advances taken a r.1 e r.2) (sym same) malloc_candidate-Advances
      ]
