-- ===== src/Memory/Pool/Tests.antt =====
-- Runs of the pool with one buffer of 1024 bytes in use.
use ccbase.Base.{
  ℕ, ◌+◌, ◌≤◌, ◌<◌, ◌≡◌, refl, inl, inr, Bool, true, false, none, some, [], ◌∷◌, arith, map, add64,
  sub64, if◌then◌else◌, Bool-cases,
}
use ccbase.Memory.Stat.{reset}
use ccbase.Memory.Heap.{empty, split}
use ccbase.Memory.BufSet.{emplace}
use ccbase.Memory.Event.{is_event_not_used}
use ccbase.Memory.Allocator.{malloc, free}
use ccbase.Memory.Allocator.Valid.{IsValid}
use ccbase.Memory.Allocator.Tests.{start, after_first, start-IsValid, after_first-IsValid}
use ccbase.Memory.Pool.State.{AllocatorRef, stream, BufRef, Pool, find_addr, same_ref}
use ccbase.Memory.Pool.Free.{do_free_tensor_mem}
use ccbase.Memory.Pool.Part.{do_free_part_tensor_mems}
use ccbase.Memory.Pool.FreeErrors.{do_free_tensor_mem-refuses}
use ccbase.Memory.Pool.BlockSize.{cal_mem_block_alloc_size}
use ccbase.Memory.Pool.BlockSizeLaws.{cal_mem_block_alloc_size-holds}
use ccbase.Memory.Pool.Accounts.{Mapped, mapped_size}
use ccbase.Memory.Pool.FreeAccounts.{
  PoolValid, do_free_tensor_mem-PoolValid, do_free_tensor_mem-frees,
}

abbrev one_buffer : Pool Bool
one_buffer = record {
  env = record { stat = record reset { used_size = 1024; alloc_size = 4096 }; dev = true };
  has_tiny = false;
  allocators = λ r. if same_ref r (stream false 0) then after_first else start;
  stream_keys = stream false 0 ∷ [];
  addr_mem_buf_allocators = (65536, (stream false 0, 1)) ∷ [];
  stream_pair_mem_bufs = [];
  enable_vmm = false;
  common_unit_size = 4096;
  persist_unit_size = 4096;
  eager_free_count = 0;
  last_eager_free_count = 0;
  faulted = false;
}

one_buffer-Mapped : Mapped one_buffer.allocators one_buffer.addr_mem_buf_allocators
unfolding malloc empty sub64 split emplace
one_buffer-Mapped = ((refl, refl, refl), refl, tt, tt)

one_buffer-size : mapped_size one_buffer.allocators one_buffer.addr_mem_buf_allocators ≡ 1024
unfolding malloc empty sub64 split emplace
one_buffer-size = refl

one_buffer-IsValid : (r : AllocatorRef) → IsValid (one_buffer.allocators r)
one_buffer-IsValid r = elim (Bool-cases (same_ref r (stream false 0))) [
  | inl here ↦ rw here after_first-IsValid
  | inr there ↦ rw there start-IsValid
]

one_buffer-PoolValid : PoolValid one_buffer
one_buffer-PoolValid = record {
  allocators_valid = one_buffer-IsValid;
  mapped = one_buffer-Mapped;
  counted = rw one_buffer-size refl;
  bounded = rw one_buffer-size (omega arith);
}

do_free_tensor_mem-PoolValid_example : PoolValid (do_free_tensor_mem 65536 one_buffer).1
do_free_tensor_mem-PoolValid_example =
    do_free_tensor_mem-PoolValid one_buffer 65536 one_buffer-PoolValid

first_quiet :
    (find_addr 65536 one_buffer.addr_mem_buf_allocators ≡ some (stream false 0, 1))
    × (is_event_not_used (after_first.heap.buf 1).event_base ≡ true)
    × ((after_first.heap.buf 1).size ≡ 1024)
unfolding malloc empty sub64 split emplace find_addr
first_quiet = (refl, refl, refl)

do_free_tensor_mem-frees_example :
    let q = do_free_tensor_mem 65536 one_buffer in
    (q.0 ≡ true)
    × (find_addr 65536 q.1.addr_mem_buf_allocators ≡ none)
    × (q.1.env.stat.used_size + (after_first.heap.buf 1).size ≡ 1024)
do_free_tensor_mem-frees_example =
    do_free_tensor_mem-frees one_buffer 65536 (stream false 0) 1 one_buffer-PoolValid first_quiet.0
      first_quiet.1

cal_mem_block_alloc_size-holds_example :
    (r : ℕ) × (cal_mem_block_alloc_size 100000 4096 9000 ≡ some r)
    × (100000 < 9000 → r ≡ 0)
    × (9000 ≤ 100000 → (9000 ≤ r) × (r ≤ 100000))
cal_mem_block_alloc_size-holds_example =
    cal_mem_block_alloc_size-holds 100000 4096 9000 (omega arith) (omega arith)

-- The middle of the buffer is kept: its head and its tail are freed.
abbrev kept_middle : Pool Bool
kept_middle = (do_free_part_tensor_mems (65536 ∷ []) ((65792, 256) ∷ []) one_buffer).1

kept_address :
    (map (λ (x : ℕ × BufRef). x.0) kept_middle.addr_mem_buf_allocators ≡ 65792 ∷ [])
    × (kept_middle.env.stat.used_size ≡ 256)
unfolding do_free_part_tensor_mems add64 malloc empty sub64 split free
kept_address = (refl, refl)

unknown_address : (do_free_tensor_mem 1 one_buffer).0 ≡ false
unfolding do_free_tensor_mem
unknown_address = refl

do_free_tensor_mem-refuses_example :
    let q = (do_free_tensor_mem 1 one_buffer).1 in
    (q.addr_mem_buf_allocators ≡ one_buffer.addr_mem_buf_allocators)
    × (q.stream_pair_mem_bufs ≡ one_buffer.stream_pair_mem_bufs)
    × (q.env ≡ one_buffer.env)
do_free_tensor_mem-refuses_example = do_free_tensor_mem-refuses one_buffer 1 unknown_address
