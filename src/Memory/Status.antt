-- ===== src/Memory/Status.antt =====
-- DynamicMemBlock, DeviceState and MemStatusManager of memory/dynamic_memory_pool.{h,cc}.
pub mod Blocks
pub mod Bufs
pub mod Dump
mod Tests
use ccbase.Base.{
  ℕ, ◌-◌, Bool, true, false, ◌&&◌, ◌||◌, Option, none, some, List, [], ◌∷◌, ◌++◌, map, ◌==◌, ltb,
  max, min, if◌then◌else◌, add64, sub64,
}
use ccbase.Memory.Types.{
  DynamicMemBufStatus, idle, used, eager_free, used_by_event, is_status,
  dynamic_mem_alloc_unit_size,
}
use ccbase.Memory.Event.{EventBase}

-- A `DynamicMemBufPtr` and a `DynamicMemBlockPtr` are numbers of objects in the store.
abbrev pub BufPtr : Type 0
BufPtr = ℕ

abbrev pub BlockPtr : Type 0
BlockPtr = ℕ

pub record DynamicMemBuf : Type 0 where
  pub device_addr : ℕ
  pub status : DynamicMemBufStatus
  pub size : ℕ
  pub stream_id : ℕ
  pub event_base : EventBase

-- `block_all_mem_buf_map` is a map by device address; a null border is 0.
pub record DynamicMemBlock : Type 0 where
  pub block_all_mem_buf_map : List (ℕ × BufPtr)
  pub device_addr_base : ℕ
  pub max_addr : ℕ
  pub min_addr : ℕ
  pub mem_block_size : ℕ
  pub stream_id : ℕ

-- The objects that the shared pointers refer to.
pub record Store : Type 0 where
  pub block : BlockPtr → DynamicMemBlock
  pub buf : BufPtr → DynamicMemBuf

unfoldable pub widen_borders : (left_addr right_addr : ℕ) → DynamicMemBlock → DynamicMemBlock
widen_borders left_addr right_addr b = record b {
  min_addr = if b.min_addr == 0 then left_addr else min b.min_addr left_addr;
  max_addr = if b.max_addr == 0 then right_addr else max b.max_addr right_addr;
}

unfoldable pub get_actual_peak : DynamicMemBlock → ℕ
get_actual_peak b = if b.min_addr == 0 || b.max_addr == 0 then 0 else sub64 b.max_addr b.min_addr

pub record DeviceState : Type 0 where
  pub total_mem_size : ℕ
  pub total_used_mem_size : ℕ
  pub total_used_by_event_mem_size : ℕ
  pub total_idle_mem_size : ℕ
  pub total_eager_free_mem_size : ℕ
  pub used_mem_peak_size : ℕ
  pub temp_total_used_mem_size : ℕ
  pub temp_total_used_by_event_mem_size : ℕ
  pub temp_used_mem_peak_size : ℕ
  pub temp_total_mem_size : ℕ

abbrev pub no_state : DeviceState
no_state = record {
  total_mem_size = 0;
  total_used_mem_size = 0;
  total_used_by_event_mem_size = 0;
  total_idle_mem_size = 0;
  total_eager_free_mem_size = 0;
  used_mem_peak_size = 0;
  temp_total_used_mem_size = 0;
  temp_total_used_by_event_mem_size = 0;
  temp_used_mem_peak_size = 0;
  temp_total_mem_size = 0;
}

-- `DeviceState::UpdatePeakSize`
unfoldable pub update_device_peak : DeviceState → DeviceState
update_device_peak s =
    let total_used_size = add64 s.total_used_mem_size s.total_used_by_event_mem_size in
    let temp_used_size = add64 s.temp_total_used_mem_size s.temp_total_used_by_event_mem_size in
    record s {
      used_mem_peak_size = max s.used_mem_peak_size total_used_size;
      temp_used_mem_peak_size =
          if ltb temp_used_size total_used_size
          then max s.temp_used_mem_peak_size (total_used_size - temp_used_size)
          else s.temp_used_mem_peak_size;
    }

-- The key of `mem_bufs_`, and its multimaps from sizes to buffers.
abbrev pub BufKey : Type 0
BufKey = ℕ × DynamicMemBufStatus

abbrev pub SizeMapMemBuf : Type 0
SizeMapMemBuf = List (ℕ × BufPtr)

pub record MemStatusManager : Type 0 where
  pub unit_size : ℕ
  pub mps : DeviceState
  pub mem_block_list : List BlockPtr
  pub mem_block_insertion_order : List BlockPtr
  pub total_block_size : ℕ
  pub mem_blocks : List (ℕ × List BlockPtr)
  pub mem_bufs : List (BufKey × SizeMapMemBuf)

-- A manager as it is constructed.
abbrev pub new_manager : MemStatusManager
new_manager = record {
  unit_size = dynamic_mem_alloc_unit_size;
  mps = no_state;
  mem_block_list = [];
  mem_block_insertion_order = [];
  total_block_size = 0;
  mem_blocks = [];
  mem_bufs = [];
}

-- `DoAddMemBlock`: the block is inserted before the first one with a larger address.
unfoldable pub do_add_mem_block : Store → BlockPtr → List BlockPtr → List BlockPtr
do_add_mem_block s b [] = b ∷ []
do_add_mem_block s b (x ∷ xs) =
    let rest = do_add_mem_block s b xs in
    if ltb (s.block b).device_addr_base (s.block x).device_addr_base then b ∷ x ∷ xs else x ∷ rest

unfoldable pub add_to_stream :
    Store → BlockPtr → (stream_id : ℕ) → List (ℕ × List BlockPtr) → List (ℕ × List BlockPtr)
unfolding do_add_mem_block
add_to_stream s b stream_id [] = (stream_id, b ∷ []) ∷ []
add_to_stream s b stream_id ((k, l) ∷ m) =
    let rest = add_to_stream s b stream_id m in
    if k == stream_id then (k, do_add_mem_block s b l) ∷ m else (k, l) ∷ rest

unfoldable pub add_mem_block :
    Store → BlockPtr → (stream_id : ℕ) → MemStatusManager → MemStatusManager
unfolding do_add_mem_block add_to_stream
add_mem_block s b stream_id m = record m {
  mem_blocks = add_to_stream s b stream_id m.mem_blocks;
  mem_block_list = do_add_mem_block s b m.mem_block_list;
  mem_block_insertion_order = m.mem_block_insertion_order ++ b ∷ [];
  total_block_size = add64 m.total_block_size (s.block b).mem_block_size;
}

unfoldable pub last_of : List BlockPtr → Option BlockPtr
last_of [] = none
last_of (x ∷ xs) = elim (last_of xs) [ none ↦ some x | some y ↦ some y ]

-- All blocks count whole but the newest, which counts by its borders.
unfoldable pub cal_actual_peak : Store → MemStatusManager → ℕ
unfolding get_actual_peak last_of
cal_actual_peak s m = elim (last_of m.mem_block_insertion_order) [
  | none ↦ 0
  | some b ↦
      add64 (sub64 m.total_block_size (s.block b).mem_block_size) (get_actual_peak (s.block b))
]

abbrev pub same_key : BufKey → BufKey → Bool
same_key (s, t) (u, v) = (s == u) && is_status t v

-- `multimap::emplace`: behind the elements of the same key.
unfoldable pub emplace_size : (size : ℕ) → BufPtr → SizeMapMemBuf → SizeMapMemBuf
emplace_size n p [] = (n, p) ∷ []
emplace_size n p ((k, q) ∷ m) =
    let rest = emplace_size n p m in if ltb n k then (n, p) ∷ (k, q) ∷ m else (k, q) ∷ rest

-- In the equal range of the size, the first buffer of the address goes.
unfoldable pub erase_size : Store → (size addr : ℕ) → SizeMapMemBuf → SizeMapMemBuf
erase_size s n a [] = []
erase_size s n a ((k, q) ∷ m) =
    let rest = erase_size s n a m in
    if (k == n) && ((s.buf q).device_addr == a) then m else (k, q) ∷ rest

-- `mem_bufs_[key]`, read or changed: a missing key is created.
unfoldable pub modify_key :
    (SizeMapMemBuf → SizeMapMemBuf)
    → BufKey
    → List (BufKey × SizeMapMemBuf)
    → List (BufKey × SizeMapMemBuf)
modify_key f k [] = (k, f []) ∷ []
modify_key f k ((j, l) ∷ m) =
    let rest = modify_key f k m in if same_key j k then (j, f l) ∷ m else (j, l) ∷ rest

abbrev pub key_of : Store → BufPtr → BufKey
key_of s p = ((s.buf p).stream_id, (s.buf p).status)

unfoldable pub add_mem_buf : Store → BufPtr → MemStatusManager → MemStatusManager
unfolding modify_key emplace_size
add_mem_buf s p m = record m {
  mem_bufs = modify_key (emplace_size (s.buf p).size p) (key_of s p) m.mem_bufs;
}

unfoldable pub remove_mem_buf : Store → BufPtr → MemStatusManager → MemStatusManager
unfolding modify_key erase_size
remove_mem_buf s p m = record m {
  mem_bufs = modify_key (erase_size s (s.buf p).size (s.buf p).device_addr) (key_of s p) m.mem_bufs;
}

-- `Clear` leaves the insertion order and the total size as they are.
unfoldable pub clear : MemStatusManager → MemStatusManager
clear m = record m { mem_blocks = []; mem_block_list = []; mem_bufs = [] }

abbrev pub get_stream_ids : MemStatusManager → List ℕ
get_stream_ids m = map (λ (x : ℕ × List BlockPtr). x.0) m.mem_blocks

-- One buffer of `DumpMemBlockDebugInfo`.
unfoldable pub count_buf : DynamicMemBuf → DeviceState → DeviceState
count_buf b d = elim b.status [
  | idle ↦ record d { total_idle_mem_size = add64 d.total_idle_mem_size b.size }
  | used ↦ record d { total_used_mem_size = add64 d.total_used_mem_size b.size }
  | eager_free ↦ record d { total_eager_free_mem_size = add64 d.total_eager_free_mem_size b.size }
  | used_by_event ↦ record d {
    total_used_by_event_mem_size = add64 d.total_used_by_event_mem_size b.size;
  }
]

unfoldable pub count_bufs : Store → List (ℕ × BufPtr) → DeviceState → DeviceState
unfolding count_buf
count_bufs s [] d = d
count_bufs s ((a, p) ∷ m) d = count_bufs s m (count_buf (s.buf p) d)

unfoldable pub count_blocks : Store → List BlockPtr → DeviceState → DeviceState
unfolding count_bufs
count_blocks s [] d = d
count_blocks s (b ∷ bs) d =
    let d' = record d { total_mem_size = add64 d.total_mem_size (s.block b).mem_block_size } in
    count_blocks s bs (count_bufs s (s.block b).block_all_mem_buf_map d')

unfoldable pub dump_mem_block_debug_info : Store → MemStatusManager → DeviceState
unfolding count_blocks
dump_mem_block_debug_info s m = count_blocks s m.mem_block_list no_state
