-- ===== src/Memory/Pool/BlockSize.antt =====
-- CalMemBlockAllocSize: how much memory a new block takes.
use ccbase.Base.{ℕ, zero, suc, ◌*◌, ◌%◌, Option, none, some, ltb, if◌then◌else◌, min, size_max}

-- `while (alloc_mem_size < size) alloc_mem_size = alloc_mem_size * 2`, on fuel.
unfoldable pub grow_twice : (fuel size alloc_mem_size : ℕ) → Option ℕ
grow_twice zero size n = none
grow_twice (suc fuel) size n =
    let rest = grow_twice fuel size (n * 2 % size_max) in if ltb n size then rest else some n

-- Sixty-four rounds are enough for every unit size; `none` is a loop that does not end.
unfoldable pub cal_mem_block_alloc_size : (device_free_mem_size unit_size size : ℕ) → Option ℕ
unfolding grow_twice
cal_mem_block_alloc_size device_free unit size =
    if ltb device_free size
    then some 0
    else elim (grow_twice 65 size unit) [ none ↦ none | some n ↦ some (min n device_free) ]
