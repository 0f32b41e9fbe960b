-- ===== src/Memory/Pool/Statistics.antt =====
-- The statistics that the pool reports and resets, and the release of all device memory.
use ccbase.Base.{
  ℕ, ◌+◌, ◌==◌, Bool, true, false, List, [], ◌∷◌, if◌then◌else◌, length, add64, sub64,
}
use ccbase.Memory.Stat.{MemStat, MemBlock, reset, idle_size}
use ccbase.Memory.Heap.{delete}
use ccbase.Memory.Allocator.Release.{release_device_res, allocator_actual_peak_size}
use ccbase.Memory.Pool.State.{
  AllocatorRef, tiny, stream, same_bool, AddrMap, Pool, set_allocator, set_stat,
}
use ccbase.Memory.Pool.Device.{Device, hooks_of}

-- The size and the stream of each block by its address: a later block of an address replaces an
-- earlier one.
unfoldable pub put_block_info : MemBlock → List (ℕ × (ℕ × ℕ)) → List (ℕ × (ℕ × ℕ))
put_block_info b [] = (b.addr, (b.size, b.stream_id)) ∷ []
put_block_info b ((k, i) ∷ m) =
    let rest = put_block_info b m in
    if k == b.addr then (k, (b.size, b.stream_id)) ∷ m else (k, i) ∷ rest

unfoldable pub put_block_infos : List MemBlock → List (ℕ × (ℕ × ℕ)) → List (ℕ × (ℕ × ℕ))
unfolding put_block_info
put_block_infos [] m = m
put_block_infos (b ∷ bs) m = put_block_infos bs (put_block_info b m)

module _ {D : Type 0} where
  abbrev pub stat_of : Pool D → MemStat
  stat_of p = p.env.stat

  unfoldable pub total_mem_statistics : Pool D → ℕ
  total_mem_statistics p = (stat_of p).alloc_size

  unfoldable pub total_used_mem_statistics : Pool D → ℕ
  total_used_mem_statistics p = (stat_of p).used_size

  unfoldable pub total_used_by_event_mem_statistics : Pool D → ℕ
  total_used_by_event_mem_statistics p = (stat_of p).used_by_event_size

  unfoldable pub total_idle_mem_statistics : Pool D → ℕ
  unfolding idle_size
  total_idle_mem_statistics p = idle_size (stat_of p)

  unfoldable pub total_eager_free_mem_statistics : Pool D → ℕ
  total_eager_free_mem_statistics p = (stat_of p).eager_free_size

  unfoldable pub used_mem_peak_statistics : Pool D → ℕ
  used_mem_peak_statistics p = (stat_of p).peak_size

  unfoldable pub max_mem_allocated_statistics : Pool D → ℕ
  max_mem_allocated_statistics p = (stat_of p).temp_peak_size

  unfoldable pub max_mem_reserved_statistics : Pool D → ℕ
  max_mem_reserved_statistics p = sub64 (stat_of p).alloc_size (stat_of p).temp_alloc_size

  unfoldable pub actual_peak_each : Pool D → List AllocatorRef → ℕ
  unfolding allocator_actual_peak_size
  actual_peak_each p [] = 0
  actual_peak_each p (r ∷ rs) =
      add64 (allocator_actual_peak_size (p.allocators r).mem_blocks) (actual_peak_each p rs)

  -- The number of blocks of the persistent and of the common allocators.
  unfoldable pub block_counts_statistics : Pool D → List AllocatorRef → ℕ × ℕ
  block_counts_statistics p [] = (0, 0)
  block_counts_statistics p (tiny ∷ rs) = block_counts_statistics p rs
  block_counts_statistics p (stream k s ∷ rs) =
      let n = length (p.allocators (stream k s)).mem_blocks in
      let (persistent, common) = block_counts_statistics p rs in
      if k then (n + persistent, common) else (persistent, n + common)

  -- The unit sizes of the persistent and of the common allocators.
  unfoldable pub block_unit_size_statistics : Pool D → ℕ × ℕ
  block_unit_size_statistics p = (p.persist_unit_size, p.common_unit_size)

  -- Over the allocators in the order of their keys, those of the one kind only.
  unfoldable pub mem_blocks_info_each :
      (is_persistent : Bool) → Pool D → List AllocatorRef → List (ℕ × (ℕ × ℕ)) → List (ℕ × (ℕ × ℕ))
  unfolding put_block_infos
  mem_blocks_info_each k p [] m = m
  mem_blocks_info_each k p (tiny ∷ rs) m = mem_blocks_info_each k p rs m
  mem_blocks_info_each k p (stream l s ∷ rs) m =
      mem_blocks_info_each k p rs
        (if same_bool k l then put_block_infos (p.allocators (stream l s)).mem_blocks m else m)

  unfoldable pub common_mem_blocks_info_statistics : Pool D → List (ℕ × (ℕ × ℕ))
  unfolding mem_blocks_info_each
  common_mem_blocks_info_statistics p = mem_blocks_info_each false p p.stream_keys []

  unfoldable pub persistent_mem_blocks_info_statistics : Pool D → List (ℕ × (ℕ × ℕ))
  unfolding mem_blocks_info_each
  persistent_mem_blocks_info_statistics p = mem_blocks_info_each true p p.stream_keys []

  unfoldable pub reset_max_mem_reserved : Pool D → Pool D
  reset_max_mem_reserved p =
      set_stat p (record (stat_of p) { temp_alloc_size = (stat_of p).alloc_size })

  unfoldable pub reset_max_mem_allocated : Pool D → Pool D
  reset_max_mem_allocated p = set_stat p (record (stat_of p) {
    temp_used_size = (stat_of p).used_size;
    temp_used_by_event_size = (stat_of p).used_by_event_size;
    temp_peak_size = 0;
  })

  -- The buffers that the address map knows are deleted.
  unfoldable pub delete_mapped : AddrMap → Pool D → Pool D
  delete_mapped [] p = p
  delete_mapped ((_, (r, b)) ∷ m) p =
      let a = p.allocators r in
      delete_mapped m (set_allocator p r (record a { heap = delete a.heap b }))

module _ {D : Type 0} (dev : Device D) where
  -- With virtual memory, the device answers.
  unfoldable pub actual_peak_statistics : Pool D → ℕ
  unfolding actual_peak_each
  actual_peak_statistics p =
      if p.enable_vmm then dev.get_vmm_used_mem_size p.env.dev else actual_peak_each p p.stream_keys

  unfoldable pub release_each : List AllocatorRef → Pool D → Pool D
  unfolding release_device_res
  release_each [] p = p
  release_each (r ∷ rs) p =
      let (a, e) = release_device_res (hooks_of dev p r) (p.allocators r) p.env in
      release_each rs (record (set_allocator p r a) { env = e })

  -- ReleaseDeviceRes; the tiny allocator is not among the streams' allocators.
  unfoldable pub pool_release_device_res : Pool D → Pool D
  unfolding delete_mapped release_each
  pool_release_device_res p =
      let p₁ = release_each p.stream_keys (delete_mapped p.addr_mem_buf_allocators p) in
      record (set_stat p₁ reset) {
        addr_mem_buf_allocators = [];
        stream_keys = [];
        stream_pair_mem_bufs = [];
      }
