-- ===== src/Memory/Pool/FreeSound.antt =====
-- DoFreeTensorMem and the invariant of the pool with the device.
use ccbase.Base.{
  ℕ, ◌≡◌, ◌⊎◌, inl, inr, refl, sym, subst, true, false, arith, Bool-cases, Option-cases,
}
use ccbase.Memory.Types.{idle, is_status}
use ccbase.Memory.Event.{is_event_not_used}
use ccbase.Memory.Heap.{Ptr, set_status}
use ccbase.Memory.Heap.Bytes.{Covers}
use ccbase.Memory.Allocator.{MemBufAllocator, merge_prev, release_buf, free}
use ccbase.Memory.Allocator.Bytes.{free-SameBytes}
use ccbase.Memory.Allocator.Eager.{IdleQuiet, merge_prev-Keeps, merge_next-Keeps}
use ccbase.Memory.Allocator.Frame.{InUse}
use ccbase.Memory.Pool.State.{AllocatorRef, Pool, same_ref, find_addr}
use ccbase.Memory.Pool.Free.{free_found, do_free_tensor_mem}
use ccbase.Memory.Pool.Accounts.{heap_of, same_ref-eq, find_addr-Mapped}
use ccbase.Memory.Pool.FreeAccounts.{
  PoolValid, with_allocator, freed, free-without, free-waiting, do_free_tensor_mem-PoolValid,
}
use ccbase.Memory.Pool.Sound.{PoolSound}
use ccbase.Memory.Pool.Bound.{mapped_size-bounded}

module _ (b q : Ptr) (a : MemBufAllocator) where
  abbrev marked : MemBufAllocator
  marked = record a { heap = set_status a.heap b idle }

  release_buf-quiet :
      is_event_not_used (a.heap.buf b).event_base ≡ true
      → IdleQuiet a
      → (release_buf idle b a).heap.live q ≡ true
      → is_status ((release_buf idle b a).heap.buf q).status idle ≡ true
      → is_event_not_used ((release_buf idle b a).heap.buf q).event_base ≡ true
  unfolding release_buf
  release_buf-quiet done quiet l i = ground (
    arith,
    quiet q,
    done,
    merge_prev-Keeps idle b q marked,
    merge_next-Keeps idle b q (merge_prev idle b marked),
  )

  release_buf-live : (release_buf idle b a).heap.live q ≡ true → a.heap.live q ≡ true
  unfolding release_buf
  release_buf-live l = ground (
    arith,
    merge_prev-Keeps idle b q marked,
    merge_next-Keeps idle b q (merge_prev idle b marked),
  )

  -- Freeing makes no buffer, and makes one idle only if no event holds it.
  free-live : (free b idle a).1.heap.live q ≡ true → a.heap.live q ≡ true
  unfolding free
  free-live = elim (Bool-cases (is_event_not_used (a.heap.buf b).event_base)) [
    | inl done ↦ rw done release_buf-live
    | inr waits ↦ rw waits (λ l. l)
  ]

  free-quiet_at :
      IdleQuiet a
      → (free b idle a).1.heap.live q ≡ true
      → is_status ((free b idle a).1.heap.buf q).status idle ≡ true
      → is_event_not_used ((free b idle a).1.heap.buf q).event_base ≡ true
  unfolding free
  free-quiet_at quiet = elim (Bool-cases (is_event_not_used (a.heap.buf b).event_base)) [
    | inl done ↦ rw done (release_buf-quiet done quiet)
    | inr waits ↦ rw waits (λ l i. ground (arith, quiet q))
  ]

module _ {D : Type 0} (taken : D → ℕ → Type 0) (p : Pool D) (v : PoolSound taken p) where
  pub sound-PoolValid : PoolValid p
  sound-PoolValid = record {
    allocators_valid = v.valid;
    mapped = v.mapped;
    counted = v.counted;
    bounded = mapped_size-bounded taken p v;
  }

  module _ (addr : ℕ) where
    pub free-frame :
        ((do_free_tensor_mem addr p).1.env.dev ≡ p.env.dev)
        × ((do_free_tensor_mem addr p).1.stream_keys ≡ p.stream_keys)
    unfolding do_free_tensor_mem free_found
    free-frame = ground arith

    -- Each allocator is as it was, or a buffer in use was freed in it.
    abbrev Freed : (AllocatorRef → MemBufAllocator) → AllocatorRef → Type 0
    Freed s t =
        (s t ≡ p.allocators t)
        ⊎ ((b : Ptr) × InUse b (heap_of p.allocators t) × (s t ≡ (free b idle (p.allocators t)).1))

    found-Freed :
        (r : AllocatorRef) (b : Ptr)
        → InUse b (heap_of p.allocators r)
        → (t : AllocatorRef) → Freed (with_allocator p.allocators r (freed p.allocators r b)) t
    found-Freed r b u t = elim (Bool-cases (same_ref t r)) [
      | inr other ↦ inl (rw other refl)
      | inl one ↦
          let same : r ≡ t = sym (same_ref-eq t r one) in
          inr (b, subst (λ y. InUse b (heap_of p.allocators y)) same u, rw one (rw same refl))
    ]

    free-Freed : (t : AllocatorRef) → Freed (do_free_tensor_mem addr p).1.allocators t
    unfolding do_free_tensor_mem
    free-Freed t = elim (Option-cases (find_addr addr p.addr_mem_buf_allocators)) [
      | inl unknown ↦ inl (rw (unknown, do_free_tensor_mem) refl)
      | inr ((r, b), e) ↦
          let w = find_addr-Mapped p.allocators addr (r, b) p.addr_mem_buf_allocators v.mapped e in
          elim (Bool-cases (is_event_not_used ((heap_of p.allocators r).buf b).event_base)) [
            | inl done ↦ rw (free-without p sound-PoolValid addr r b e done) (found-Freed r b w.0 t)
            | inr waits ↦
                rw (free-waiting p sound-PoolValid addr r b e waits) (found-Freed r b w.0 t)
          ]
    ]

    module _ (t : AllocatorRef) where
      free-bytes :
          (x : ℕ)
          → Covers ((do_free_tensor_mem addr p).1.allocators t).heap x
          → Covers (heap_of p.allocators t) x
      free-bytes x = elim (free-Freed t) [
        | inl same ↦ rw same (λ c. c)
        | inr (b, u, same) ↦
            rw same
              ((free-SameBytes idle b (p.allocators t) (inl refl) (v.valid t) u.0 u.1 u.2 x).1)
      ]

      free-IdleQuiet : IdleQuiet ((do_free_tensor_mem addr p).1.allocators t)
      free-IdleQuiet = elim (free-Freed t) [
        | inl same ↦ rw same (v.quiet t)
        | inr (b, u, same) ↦ rw same (λ q. free-quiet_at b q (p.allocators t) (v.quiet t))
      ]

      free-dead :
          (q : Ptr)
          → (heap_of p.allocators t).live q ≡ false
          → ((do_free_tensor_mem addr p).1.allocators t).heap.live q ≡ false
      free-dead q dead =
          elim (Bool-cases (((do_free_tensor_mem addr p).1.allocators t).heap.live q)) [
            | inr gone ↦ gone
            | inl alive ↦ elim (free-Freed t) [
              | inl same ↦ rw same dead
              | inr (b, u, same) ↦ cc (dead, free-live b q (p.allocators t) (rw same at alive))
            ]
          ]

    -- In a sound pool, freeing an address, known, unknown or waited for, keeps the pool sound: besides
    -- what holds of each allocator and of the map, the device has taken the bytes of all buffers,
    -- and no two allocators share one.
    pub do_free_tensor_mem-PoolSound : PoolSound taken (do_free_tensor_mem addr p).1
    do_free_tensor_mem-PoolSound =
        let w = do_free_tensor_mem-PoolValid p addr sound-PoolValid in
        record {
          valid = w.allocators_valid;
          quiet = λ t. free-IdleQuiet t;
          owned = λ t x c. rw free-frame.0 (v.owned t x (free-bytes t x c));
          parted = λ s t x apart c d. v.parted s t x apart (free-bytes s x c) (free-bytes t x d);
          unmade = λ t q none_made. free-dead t q (v.unmade t q (rw free-frame.1 at none_made));
          mapped = w.mapped;
          counted = w.counted;
        }
