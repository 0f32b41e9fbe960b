-- ===== src/Memory/Pool/SoundTests.antt =====
-- A pool on a device that hands out memory from the bottom up.
use ccbase.Base.{
  All, ℕ, ◌+◌, ◌<◌, ◌≡◌, refl, true, false, some, none, [], ◌∷◌, arith, size_max, sub64, add64, ltb,
  if◌then◌else◌, Bool-cases, inl, inr,
}
use ccbase.Memory.Types.{align_memory_size}
use ccbase.Memory.Stat.{reset}
use ccbase.Memory.Heap.{empty, split, relink_prev, relink_next}
use ccbase.Memory.BufSet.{lower_bound, emplace}
use ccbase.Memory.Allocator.Tests.{start, start-IsValid}
use ccbase.Memory.Pool.State.{stream, Pool, find_addr}
use ccbase.Memory.Pool.Device.{Device, hooks_of}
use ccbase.Memory.Pool.BlockSize.{cal_mem_block_alloc_size}
use ccbase.Memory.Pool.Alloc.{alloc_tensor_mem}
use ccbase.Memory.Pool.Free.{do_free_tensor_mem}
use ccbase.Memory.Pool.Laws.{Hands, DeviceLaws}
use ccbase.Memory.Pool.Sound.{PoolSound}
use ccbase.Memory.Pool.Tracked.{Tracked}
use ccbase.Memory.Pool.Bound.{at_byte}
use ccbase.Memory.Pool.Events.{record_event_all, pool_wait_event, do_sync_all_events}
use ccbase.Memory.Allocator.{free}
use ccbase.Memory.Pool.RecordSound.{HasEvents, record_event_all-PoolSound}
use ccbase.Memory.Pool.FreeSound.{do_free_tensor_mem-PoolSound}
use ccbase.Memory.Pool.TensorSound.{alloc_tensor_mem-PoolSound, alloc_tensor_mem-apart}

-- The state of the device is the first address that was not handed out.
abbrev Below : ℕ → ℕ → Type 0
Below d x = x < d

abbrev take : ℕ → ℕ → (ℕ × ℕ) × ℕ
take n d = if ltb (d + n) size_max then ((n, d), d + n) else ((0, 0), d)

abbrev bottom_up : Device ℕ
bottom_up = record {
  alloc_device_mem = take;
  free_device_mem = λ a d. (true, d);
  alloc_device_mem_by_eager_free = take;
  free_device_mem_by_eager_free = λ a n d. (n, d);
  mmap_device_mem = λ n a d. (n, d);
  free_mem_size = λ d. 1073741824;
  total_mem_size = λ d. 1073741824;
  get_vmm_used_mem_size = λ d. 0;
  sync_all_streams = λ d. (true, d);
  is_enable_eager_free = false;
}

-- The arithmetic of `take`, with the top of the address space as a variable.
take-Hands : (n d : ℕ) → Hands Below d (take n d)
take-Hands n d = elim (Bool-cases (ltb (d + n) size_max)) [
  | inl room ↦ rw room (record {
    fits = λ _. ground (arith, room);
    new_bytes = λ x l m t. omega (arith, l, t);
    now_taken = λ x l m. omega (arith, m);
    keeps = λ x t. omega (arith, t);
  })
  | inr full ↦ rw full (record {
    fits = λ ne. absurd (ne refl);
    new_bytes = λ x l m t. omega (arith, m);
    now_taken = λ x l m. omega (arith, m);
    keeps = λ x t. t;
  })
]

bottom_up-DeviceLaws : DeviceLaws Below bottom_up
bottom_up-DeviceLaws = record {
  plain = take-Hands;
  eager = take-Hands;
  mmap_keeps = λ n a d x t. t;
  unmap_keeps = λ a n d x t. t;
  sync_keeps = λ d x t. t;
}

abbrev new_pool : Pool ℕ
new_pool = record {
  env = record { stat = reset; dev = 4096 };
  has_tiny = false;
  allocators = λ r. start;
  stream_keys = [];
  addr_mem_buf_allocators = [];
  stream_pair_mem_bufs = [];
  enable_vmm = false;
  common_unit_size = 1048576;
  persist_unit_size = 1048576;
  eager_free_count = 0;
  last_eager_free_count = 0;
  faulted = false;
}

new_pool-PoolSound : PoolSound Below new_pool
unfolding empty
new_pool-PoolSound = record {
  valid = λ r. start-IsValid;
  quiet = λ r p l i. cc;
  owned = λ r x (p, i). cc (i.0);
  parted = λ r t x apart (p, i) d. cc (i.0);
  unmade = λ r q n. refl;
  mapped = tt;
  counted = refl;
}

aligned : 0 < align_memory_size 1000
unfolding align_memory_size sub64 add64
aligned = omega arith

abbrev with_tensor : Pool ℕ
with_tensor = (alloc_tensor_mem bottom_up 1000 false 3 new_pool).1

with_tensor-PoolSound : PoolSound Below with_tensor × Tracked with_tensor
with_tensor-PoolSound =
    alloc_tensor_mem-PoolSound Below bottom_up bottom_up-DeviceLaws 1000 false 3 new_pool aligned
      new_pool-PoolSound (refl, tt)

do_free_tensor_mem-PoolSound_example : PoolSound Below (do_free_tensor_mem 4096 with_tensor).1
do_free_tensor_mem-PoolSound_example =
    do_free_tensor_mem-PoolSound Below with_tensor with_tensor-PoolSound.0 4096

-- The tensor is used on stream 1 until event 70.
abbrev recorded : Pool ℕ
recorded = (record_event_all 5 1 ((3, 4096) ∷ []) 70 with_tensor).1

recorded-PoolSound :
    PoolSound Below recorded × Tracked recorded × All (HasEvents recorded) ((3, 4096) ∷ [])
recorded-PoolSound =
    record_event_all-PoolSound Below 5 1 ((3, 4096) ∷ []) 70 with_tensor with_tensor-PoolSound.0
      with_tensor-PoolSound.1

large : 0 < align_memory_size 4294967296
unfolding align_memory_size sub64 add64
large = omega arith

-- The device has no more memory, and so all events are waited for.
alloc_tensor_mem-PoolSound_example :
    let q = (alloc_tensor_mem bottom_up 4294967296 false 3 recorded).1 in
    PoolSound Below q × Tracked q
alloc_tensor_mem-PoolSound_example =
    alloc_tensor_mem-PoolSound Below bottom_up bottom_up-DeviceLaws 4294967296 false 3 recorded
      large recorded-PoolSound.0 recorded-PoolSound.1

-- The pair of streams is recorded, and gone after the failed allocation.
all_synced :
    let q = alloc_tensor_mem bottom_up 4294967296 false 3 recorded in
    (recorded.stream_pair_mem_bufs ≡ ((1, 3), (stream false 3, 1) ∷ []) ∷ [])
    × (q.0 ≡ none)
    × (q.1.stream_pair_mem_bufs ≡ [])
unfolding alloc_tensor_mem record_event_all do_sync_all_events hooks_of cal_mem_block_alloc_size
    sub64 add64 split lower_bound emplace find_addr
all_synced = (refl, refl, refl)

abbrev two_tensors : Pool ℕ
two_tensors = (alloc_tensor_mem bottom_up 1000 false 3 with_tensor).1

both_known :
    (find_addr 4096 two_tensors.addr_mem_buf_allocators ≡ some (stream false 3, 1))
    × (find_addr 5120 two_tensors.addr_mem_buf_allocators ≡ some (stream false 3, 2))
    × (at_byte two_tensors.allocators (stream false 3, 1) 5000 ≡ true)
unfolding alloc_tensor_mem find_addr hooks_of cal_mem_block_alloc_size sub64 add64 split lower_bound
    emplace
both_known = (refl, refl, refl)

alloc_tensor_mem-apart_example : at_byte two_tensors.allocators (stream false 3, 2) 5000 ≡ false
alloc_tensor_mem-apart_example =
    alloc_tensor_mem-apart Below bottom_up bottom_up-DeviceLaws 1000 false 3 with_tensor aligned
      with_tensor-PoolSound.0 with_tensor-PoolSound.1 4096 5120 (stream false 3, 1)
      (stream false 3, 2) 5000 (omega arith) both_known.0 both_known.1 both_known.2

-- The second tensor is used on streams 1 and 2, both are waited for, and then both tensors are
-- freed. The pair of stream 1 keeps the second buffer, which is deleted then.
abbrev left_behind : Pool ℕ
left_behind =
    let p₁ = (record_event_all 5 1 ((3, 5120) ∷ []) 70 two_tensors).1 in
    let p₂ = (record_event_all 5 2 ((3, 5120) ∷ []) 71 p₁).1 in
    let p₃ = (pool_wait_event 5 1 3 p₂).1 in
    let p₄ = (pool_wait_event 5 2 3 p₃).1 in
    (do_free_tensor_mem 4096 (do_free_tensor_mem 5120 p₄).1).1

-- The next synchronisation accesses it.
use_after_free : (left_behind.faulted ≡ false) × ((do_sync_all_events left_behind).1.faulted ≡ true)
unfolding alloc_tensor_mem record_event_all pool_wait_event do_sync_all_events do_free_tensor_mem
    free hooks_of cal_mem_block_alloc_size sub64 add64 split lower_bound emplace find_addr
    relink_next relink_prev
use_after_free = (refl, refl)
