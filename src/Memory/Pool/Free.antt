-- ===== src/Memory/Pool/Free.antt =====
-- DoFreeTensorMem, and the eager free of all idle buffers of the pool.
use ccbase.Base.{
  ℕ, Bool, true, false, not, none, some, List, [], ◌∷◌, ◌==◌, if◌then◌else◌, add64, sub64,
}
use ccbase.Memory.Types.{idle}
use ccbase.Memory.Allocator.{free}
use ccbase.Memory.Allocator.Release.{free_idle_mems_by_eager_free}
use ccbase.Memory.Pool.State.{
  AllocatorRef, BufRef, Pool, find_addr, erase_addr, buf_of, set_allocator, set_stat,
}
use ccbase.Memory.Pool.Device.{Device, hooks_of}

module _ {D : Type 0} where
  -- A buffer that was freed leaves the statistics and the map; one that waits for events stays.
  unfoldable pub free_found : ℕ → BufRef → Pool D → Bool × Pool D
  free_found addr (r, b) p =
      let free_size = (buf_of p (r, b)).size in
      let (done, a) = free b idle (p.allocators r) in
      let p' = set_allocator p r a in
      if done
      then (
        true,
        record (set_stat p'
            (record (p.env.stat) { used_size = sub64 p.env.stat.used_size free_size })) {
              addr_mem_buf_allocators = erase_addr addr p.addr_mem_buf_allocators;
            },
      )
      else (false, p')

  unfoldable pub do_free_tensor_mem : (device_addr : ℕ) → Pool D → Bool × Pool D
  unfolding free_found find_addr erase_addr
  do_free_tensor_mem addr p = elim (find_addr addr p.addr_mem_buf_allocators) [
    | none ↦ (false, p)
    | some b ↦ free_found addr b p
  ]

module _ {D : Type 0} (dev : Device D) where
  unfoldable pub free_idle_each : List AllocatorRef → (eager real : ℕ) → Pool D → (ℕ × ℕ) × Pool D
  free_idle_each [] eager real p = ((eager, real), p)
  free_idle_each (r ∷ rs) eager real p =
      let ((m, n), a, e) = free_idle_mems_by_eager_free (hooks_of dev p r) (p.allocators r) p.env in
      free_idle_each rs (add64 eager m) (add64 real n) (record (set_allocator p r a) { env = e })

  -- The counter, each stream's allocator in turn, and the statistics.
  unfoldable pub free_idle_mems : Pool D → (ℕ × ℕ) × Pool D
  unfolding free_idle_each
  free_idle_mems p =
      let ((eager, real), p') =
        free_idle_each p.stream_keys 0 0
          (record p { eager_free_count = add64 p.eager_free_count 1 }) in
      let s = p'.env.stat in
      ((eager, real), set_stat p' (record s { eager_free_size = add64 s.eager_free_size eager }))

  -- DefragMemory: only with virtual memory, and only if memory was freed eagerly since the last time.
  unfoldable pub defrag_memory : Pool D → Pool D
  unfolding free_idle_mems
  defrag_memory p =
      if not p.enable_vmm
      then p
      else if p.eager_free_count == 0
      then p
      else if p.last_eager_free_count == p.eager_free_count
      then p
      else (let (synced, d) = dev.sync_all_streams p.env.dev in
          let p₁ : Pool D = record p { env = record (p.env) { dev = d } } in
          if not synced
          then p₁
          else (let (_, p₂) = free_idle_mems p₁ in
              record p₂ { last_eager_free_count = p₂.eager_free_count }))
