-- ===== src/Memory/Stat.antt =====
-- MemStat and MemBlock of memory/abstract_dynamic_memory_pool.h.
use ccbase.Base.{ℕ, ◌+◌, ◌-◌, max, min, ◌||◌, ◌==◌, ltb, if◌then◌else◌, sub64}

pub record MemStat : Type 0 where
  pub used_size : ℕ
  pub peak_size : ℕ
  pub alloc_size : ℕ
  pub used_by_event_size : ℕ
  pub eager_free_size : ℕ
  pub temp_used_size : ℕ
  pub temp_used_by_event_size : ℕ
  pub temp_peak_size : ℕ
  pub temp_alloc_size : ℕ

abbrev pub reset : MemStat
reset = record {
  used_size = 0;
  peak_size = 0;
  alloc_size = 0;
  used_by_event_size = 0;
  eager_free_size = 0;
  temp_used_size = 0;
  temp_used_by_event_size = 0;
  temp_peak_size = 0;
  temp_alloc_size = 0;
}

unfoldable pub idle_size : MemStat → ℕ
idle_size s = sub64 s.alloc_size s.used_size

unfoldable pub update_peak_size : MemStat → MemStat
update_peak_size s = record s {
  peak_size = max s.peak_size s.used_size;
  temp_peak_size =
      if ltb s.temp_used_size s.used_size
      then max s.temp_peak_size (s.used_size - s.temp_used_size)
      else s.temp_peak_size;
}

-- A block of device memory; a null border address is 0.
pub record MemBlock : Type 0 where
  pub size : ℕ
  pub addr : ℕ
  pub stream_id : ℕ
  pub min_addr : ℕ
  pub max_addr : ℕ

unfoldable pub update_border_addr : (addr size : ℕ) → MemBlock → MemBlock
update_border_addr addr size b = record b {
  min_addr = if b.min_addr == 0 then addr else min b.min_addr addr;
  max_addr = max b.max_addr (addr + size);
}

unfoldable pub actual_peak_size : MemBlock → ℕ
actual_peak_size b = if b.min_addr == 0 || b.max_addr == 0 then 0 else sub64 b.max_addr b.min_addr
