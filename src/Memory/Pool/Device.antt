-- ===== src/Memory/Pool/Device.antt =====
-- What the pool asks of the device, and the callbacks that it hands to an allocator.
use ccbase.Base.{ℕ, ◌*◌, Bool, ◌||◌, Option, none, some, [], ◌==◌, if◌then◌else◌, max, add64, sub64}
use ccbase.Memory.Stat.{MemBlock}
use ccbase.Memory.Allocator.{MemBufAllocator, Env, Hooks}
use ccbase.Memory.Heap.{empty}
use ccbase.Memory.Pool.BlockSize.{cal_mem_block_alloc_size}
use ccbase.Memory.Pool.State.{AllocatorRef, tiny, stream, Pool}

-- The virtual functions of the device class: each reads and changes the state of the device.
pub record Device (D : Type 0) : Type 0 where
  pub alloc_device_mem : (size : ℕ) → D → (ℕ × ℕ) × D
  pub free_device_mem : (addr : ℕ) → D → Bool × D
  pub alloc_device_mem_by_eager_free : (size : ℕ) → D → (ℕ × ℕ) × D
  pub free_device_mem_by_eager_free : (addr size : ℕ) → D → ℕ × D
  pub mmap_device_mem : (size addr : ℕ) → D → ℕ × D
  pub free_mem_size : D → ℕ
  pub total_mem_size : D → ℕ
  pub get_vmm_used_mem_size : D → ℕ
  pub sync_all_streams : D → Bool × D
  pub is_enable_eager_free : Bool

module _ {D : Type 0} (dev : Device D) where
  -- The end of the expander: nothing came, or a block of the size that came.
  abbrev take_block : (alloc_size addr stream_id : ℕ) → Env D → Option MemBlock × Env D
  take_block alloc_size addr stream_id e = if alloc_size == 0 then (none, e) else (
    some (record {
      size = alloc_size;
      addr = addr;
      stream_id = stream_id;
      min_addr = 0;
      max_addr = 0;
    }),
    record e { stat = record (e.stat) { alloc_size = add64 e.stat.alloc_size alloc_size } },
  )

  unfoldable pub expand_plain : (block_size stream_id : ℕ) → Env D → Option MemBlock × Env D
  expand_plain block_size stream_id e =
      let ((alloc_size, addr), d) = dev.alloc_device_mem block_size e.dev in
      take_block alloc_size addr stream_id (record e { dev = d })

  -- The address space is not limited: all of the device's memory is reserved at once.
  unfoldable pub expand_eager : (block_size stream_id : ℕ) → Env D → Option MemBlock × Env D
  expand_eager block_size stream_id e =
      let ((alloc_size, addr), d) =
        dev.alloc_device_mem_by_eager_free (max block_size (dev.total_mem_size e.dev)) e.dev in
      let s = record (e.stat) { eager_free_size = add64 e.stat.eager_free_size alloc_size } in
      take_block alloc_size addr stream_id (record { stat = s; dev = d })

  unfoldable pub mem_block_cleaner : MemBlock → Env D → Bool × Env D
  mem_block_cleaner b e =
      let s = record (e.stat) { alloc_size = sub64 e.stat.alloc_size b.size } in
      let (done, d) = dev.free_device_mem b.addr e.dev in (done, record { stat = s; dev = d })

  unfoldable pub mem_mapper : (size addr : ℕ) → Env D → ℕ × Env D
  mem_mapper size addr e =
      let s = record (e.stat) { eager_free_size = sub64 e.stat.eager_free_size size } in
      let (mapped, d) = dev.mmap_device_mem size addr e.dev in
      (mapped, record { stat = s; dev = d })

  unfoldable pub mem_eager_freer : (addr size : ℕ) → Env D → ℕ × Env D
  mem_eager_freer addr size e =
      let (freed, d) = dev.free_device_mem_by_eager_free addr size e.dev in
      (freed, record e { dev = d })

  abbrev pub mem_alloc_unit_size : (from_persistent_mem : Bool) → Pool D → ℕ
  mem_alloc_unit_size from_persistent_mem p =
      if from_persistent_mem then p.persist_unit_size else p.common_unit_size

  -- The expander of a stream's allocator. A size loop that does not end gives no block.
  unfoldable pub mem_block_expander :
      Pool D → (is_persistent : Bool) → (stream_id size : ℕ) → Env D → Option MemBlock × Env D
  unfolding expand_plain expand_eager
  mem_block_expander p is_persistent stream_id size e =
      elim (cal_mem_block_alloc_size (dev.free_mem_size e.dev) (mem_alloc_unit_size is_persistent p)
        size) [
          | none ↦ (none, e)
          | some block_size ↦
              if block_size == 0
              then (none, e)
              else if dev.is_enable_eager_free || p.enable_vmm
              then expand_eager block_size stream_id e
              else expand_plain block_size stream_id e
        ]

  -- The callbacks by allocator: the tiny one expands by a mebibyte for stream 0.
  unfoldable pub hooks_of : Pool D → AllocatorRef → Hooks D
  unfolding mem_block_expander expand_plain mem_block_cleaner mem_mapper mem_eager_freer
  hooks_of p tiny = record {
    mem_block_expander = λ size e. expand_plain (1024 * 1024) 0 e;
    mem_block_cleaner = mem_block_cleaner;
    mem_mapper = mem_mapper;
    mem_eager_freer = mem_eager_freer;
  }
  hooks_of p (stream is_persistent stream_id) = record {
    mem_block_expander = mem_block_expander p is_persistent stream_id;
    mem_block_cleaner = mem_block_cleaner;
    mem_mapper = mem_mapper;
    mem_eager_freer = mem_eager_freer;
  }

  unfoldable pub generate_allocator :
      Pool D → (is_persistent : Bool) → (stream_id : ℕ) → MemBufAllocator
  unfolding empty
  generate_allocator p is_persistent stream_id = record {
    heap = empty;
    mem_blocks = [];
    free_mem_bufs = [];
    eager_free_mem_bufs = [];
    enable_eager_free = dev.is_enable_eager_free || p.enable_vmm;
    stream_id = stream_id;
    is_persistent = is_persistent;
  }
