-- ===== src/Memory/Pool/Alloc.antt =====
-- AllocTensorMem and its retries.
use ccbase.Base.{
  ℕ, ◌*◌, Bool, true, false, not, ◌&&◌, ◌||◌, Option, none, some, List, [], ◌∷◌, leb, ltb,
  if◌then◌else◌, add64,
}
use ccbase.Memory.Types.{align_memory_size}
use ccbase.Memory.Stat.{update_peak_size}
use ccbase.Memory.Heap.{Ptr}
use ccbase.Memory.Allocator.{malloc, malloc_expand_block}
use ccbase.Memory.Pool.State.{
  AllocatorRef, tiny, stream, BufRef, Pool, emplace_addr, same_bool, same_ref, buf_of,
  set_allocator, set_stat,
}
use ccbase.Memory.Pool.Device.{Device, hooks_of, generate_allocator}
use ccbase.Memory.Pool.Free.{free_idle_mems}
use ccbase.Memory.Pool.Events.{do_sync_all_events}

-- The keys of `stream_id_allocators_` in the order of `std::map`.
abbrev pub key_less : AllocatorRef → AllocatorRef → Bool
key_less tiny tiny = false
key_less tiny (stream k s) = true
key_less (stream k s) tiny = false
key_less (stream k s) (stream l t) = if same_bool k l then ltb s t else not k

unfoldable pub insert_key : AllocatorRef → List AllocatorRef → List AllocatorRef
insert_key r [] = r ∷ []
insert_key r (s ∷ ss) = if key_less s r then s ∷ insert_key r ss else r ∷ s ∷ ss

unfoldable pub has_key : AllocatorRef → List AllocatorRef → Bool
has_key r [] = false
has_key r (s ∷ ss) = same_ref s r || has_key r ss

module _ {D : Type 0} (dev : Device D) where
  -- GetMemBufAllocator: small sizes may go to the tiny allocator; a missing allocator is made.
  unfoldable pub get_mem_buf_allocator :
      (size : ℕ) (from_persistent_mem : Bool) (stream_id : ℕ) → Pool D → AllocatorRef × Pool D
  unfolding insert_key has_key generate_allocator
  get_mem_buf_allocator size k s p =
      let r = stream k s in
      if p.has_tiny && leb size (1024 * 1024)
      then (tiny, p)
      else if has_key r p.stream_keys
      then (r, p)
      else (
        r,
        record (set_allocator p r (generate_allocator dev p k s)) {
          stream_keys = insert_key r p.stream_keys;
        },
      )

  -- `allocator->Malloc(size)`
  unfoldable pub malloc_in : AllocatorRef → (size : ℕ) → Pool D → Option Ptr × Pool D
  unfolding malloc
  malloc_in r size p =
      let (b, a, e) = malloc (hooks_of dev p r) size (p.allocators r) p.env in
      (b, record (set_allocator p r a) { env = e })

  -- `allocator->MallocExpandBlock(size)`
  unfoldable pub expand_in : AllocatorRef → (size : ℕ) → Pool D → Option Ptr × Pool D
  unfolding malloc_expand_block
  expand_in r size p =
      let (b, a, e) = malloc_expand_block (hooks_of dev p r) size (p.allocators r) p.env in
      (b, record (set_allocator p r a) { env = e })

  -- The statistics of a successful allocation.
  unfoldable pub count_used : BufRef → Pool D → Option BufRef × Pool D
  unfolding update_peak_size
  count_used b p =
      let s = p.env.stat in
      (
        some b,
        set_stat p
            (update_peak_size (record s { used_size = add64 s.used_size (buf_of p b).size })),
      )

  -- Sync the events and try for the last time.
  unfoldable pub alloc_after_sync : AllocatorRef → (size : ℕ) → Pool D → Option BufRef × Pool D
  unfolding malloc_in count_used do_sync_all_events
  alloc_after_sync r size p =
      let (_, p₁) = do_sync_all_events p in
      let (b, p₂) = malloc_in r size p₁ in
      elim b [ none ↦ (none, p₂) | some b' ↦ count_used (r, b') p₂ ]

  unfoldable pub alloc_by_expand : AllocatorRef → (size : ℕ) → Pool D → Option BufRef × Pool D
  unfolding expand_in alloc_after_sync
  alloc_by_expand r size p =
      let (b, p₁) = expand_in r size p in
      elim b [ none ↦ alloc_after_sync r size p₁ | some b' ↦ count_used (r, b') p₁ ]

  -- With eager free: sync the streams, free all idle buffers eagerly, and try again.
  unfoldable pub alloc_by_eager_free : AllocatorRef → (size : ℕ) → Pool D → Option BufRef × Pool D
  unfolding alloc_by_expand malloc_in
  alloc_by_eager_free r size p =
      if dev.is_enable_eager_free || p.enable_vmm
      then (let (synced, d) = dev.sync_all_streams p.env.dev in
          let p₁ : Pool D = record p { env = record (p.env) { dev = d } } in
          let (_, p₂) = free_idle_mems dev p₁ in
          let (b, p₃) = malloc_in r size p₂ in
          if not synced
          then (none, p₁)
          else elim b [ none ↦ alloc_by_expand r size p₃ | some b' ↦ count_used (r, b') p₃ ])
      else alloc_by_expand r size p

  -- Persistent memory may come from the common allocator, unless virtual memory is used.
  unfoldable pub alloc_from_another :
      AllocatorRef
      → (size : ℕ) (from_persistent_mem : Bool) (stream_id : ℕ) → Pool D
      → Option BufRef × Pool D
  unfolding get_mem_buf_allocator malloc_in alloc_by_eager_free
  alloc_from_another r size k s p =
      if not p.enable_vmm && k
      then (let (r', p₁) = get_mem_buf_allocator size false s p in
          let (b, p₂) = malloc_in r' size p₁ in
          elim b [ none ↦ alloc_by_eager_free r' size p₂ | some b' ↦ count_used (r', b') p₂ ])
      else alloc_by_eager_free r size p

  unfoldable pub alloc_mem_buf :
      (align_size : ℕ) (from_persistent_mem : Bool) (stream_id : ℕ)
      → Pool D
      → Option BufRef × Pool D
  unfolding alloc_from_another get_mem_buf_allocator malloc_in count_used
  alloc_mem_buf size k s p =
      let (r, p₁) = get_mem_buf_allocator size k s p in
      let (b, p₂) = malloc_in r size p₁ in
      elim b [ none ↦ alloc_from_another r size k s p₂ | some b' ↦ count_used (r, b') p₂ ]

  -- The address of the new buffer, which is entered into the map, or null.
  unfoldable pub alloc_tensor_mem :
      (size : ℕ) (from_persistent_mem : Bool) (stream_id : ℕ) → Pool D → Option ℕ × Pool D
  unfolding alloc_mem_buf emplace_addr align_memory_size
  alloc_tensor_mem size k s p =
      let (b, p₁) = alloc_mem_buf (align_memory_size size) k s p in
      elim b [
        | none ↦ (none, p₁)
        | some b' ↦ (
          some (buf_of p₁ b').addr,
          record p₁ {
            addr_mem_buf_allocators =
                emplace_addr (buf_of p₁ b').addr b' p₁.addr_mem_buf_allocators;
          },
        )
      ]
