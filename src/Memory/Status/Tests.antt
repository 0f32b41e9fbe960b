-- ===== src/Memory/Status/Tests.antt =====
-- Runs of the manager on two blocks with one buffer each.
use ccbase.Base.{◌+◌, ◌%◌, ◌<◌, ◌≡◌, refl, [], ◌∷◌, arith, add64, sub64, size_max}
use ccbase.Memory.Types.{idle, used, eager_free, used_by_event}
use ccbase.Memory.Event.{no_events}
use ccbase.Memory.Status.{
  Store, MemStatusManager, new_manager, add_mem_block, cal_actual_peak, add_mem_buf, remove_mem_buf,
  dump_mem_block_debug_info,
}
use ccbase.Memory.Status.Blocks.{IsManaged, sizes, add_mem_block-IsManaged}
use ccbase.Memory.Status.Bufs.{bufs_at, remove_mem_buf-add_mem_buf}
use ccbase.Memory.Status.Dump.{all_buf_sizes, dump_mem_block_debug_info-total}

-- The block and the buffer of a number lie behind those of a smaller number.
abbrev store : Store
store = record {
  block = λ b. record {
    block_all_mem_buf_map = (b + 1, b) ∷ [];
    device_addr_base = b + 1;
    max_addr = b + 9;
    min_addr = b + 1;
    mem_block_size = 16;
    stream_id = 0;
  };
  buf = λ p. record {
    device_addr = p + 1;
    status = used;
    size = 8;
    stream_id = 0;
    event_base = no_events;
  };
}

new_manager-IsManaged : IsManaged store new_manager
new_manager-IsManaged = record {
  ordered = tt;
  streams_ordered = tt;
  listed = λ q. refl;
  in_streams = λ q. refl;
  summed = refl;
}

abbrev one_block : MemStatusManager
one_block = add_mem_block store 64 0 new_manager

add_mem_block-IsManaged_example : IsManaged store one_block
add_mem_block-IsManaged_example =
    add_mem_block-IsManaged store 64 0 new_manager new_manager-IsManaged

one_block-IsManaged : IsManaged store one_block
one_block-IsManaged = add_mem_block-IsManaged store 64 0 new_manager new_manager-IsManaged

small : sizes store one_block.mem_block_insertion_order + 16 < size_max
unfolding add_mem_block
small = omega arith

peak_of_two : cal_actual_peak store (add_mem_block store 32 0 one_block) ≡ 24
unfolding cal_actual_peak add_mem_block add64 sub64
peak_of_two = refl

two_in_order : (add_mem_block store 32 0 one_block).mem_block_list ≡ 32 ∷ 64 ∷ []
unfolding add_mem_block
two_in_order = refl

remove_mem_buf-add_mem_buf_example :
    bufs_at (0, used) (remove_mem_buf store 5 (add_mem_buf store 5 one_block)).mem_bufs
    ≡ bufs_at (0, used) one_block.mem_bufs
unfolding add_mem_block
remove_mem_buf-add_mem_buf_example = remove_mem_buf-add_mem_buf store 5 one_block (0, used) tt

dump_mem_block_debug_info-total_example :
    let d = dump_mem_block_debug_info store one_block in
    let bs = one_block.mem_block_list in
    (d.total_idle_mem_size % size_max ≡ all_buf_sizes idle store bs % size_max)
    × (d.total_used_mem_size % size_max ≡ all_buf_sizes used store bs % size_max)
    × (d.total_eager_free_mem_size % size_max ≡ all_buf_sizes eager_free store bs % size_max)
    × (d.total_used_by_event_mem_size % size_max ≡ all_buf_sizes used_by_event store bs % size_max)
    × (d.total_mem_size % size_max ≡ sizes store bs % size_max)
dump_mem_block_debug_info-total_example = dump_mem_block_debug_info-total store one_block
