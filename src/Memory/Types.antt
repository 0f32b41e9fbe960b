-- ===== src/Memory/Types.antt =====
-- The enumerations and constants of memory/dynamic_memory_pool.h.
use ccbase.Base.{ℕ, ◌*◌, ◌/◌, Bool, true, false, ◌==◌, if◌then◌else◌, add64, sub64}

-- The status of a memory buffer.
pub data DynamicMemBufStatus : Type 0 where
  idle used eager_free used_by_event : DynamicMemBufStatus

abbrev pub is_status : DynamicMemBufStatus → DynamicMemBufStatus → Bool
is_status idle idle = true
is_status used used = true
is_status eager_free eager_free = true
is_status used_by_event used_by_event = true
is_status _ _ = false

abbrev pub dynamic_mem_align_size : ℕ
dynamic_mem_align_size = 512

abbrev pub dynamic_mem_alloc_unit_size : ℕ
dynamic_mem_alloc_unit_size = 1024 * 1048576

-- The real size of an allocation, a positive multiple of the alignment.
unfoldable pub align_memory_size : ℕ → ℕ
align_memory_size size =
    if size == 0
    then dynamic_mem_align_size
    else sub64 (add64 size dynamic_mem_align_size) 1
      / dynamic_mem_align_size
      * dynamic_mem_align_size
