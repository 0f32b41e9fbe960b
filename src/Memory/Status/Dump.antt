-- ===== src/Memory/Status/Dump.antt =====
-- About DumpMemBlockDebugInfo.
use ccbase.Base.{ℕ, ◌+◌, ◌%◌, ◌≡◌, ◌∙◌, refl, List, [], ◌∷◌, arith, add64, size_max, if◌then◌else◌}
use ccbase.Memory.Types.{DynamicMemBufStatus, idle, used, eager_free, used_by_event, is_status}
use ccbase.Memory.Status.{
  BufPtr, BlockPtr, DynamicMemBuf, Store, DeviceState, no_state, MemStatusManager, count_buf,
  count_bufs, count_blocks, dump_mem_block_debug_info,
}
use ccbase.Memory.Status.Blocks.{sizes}

-- The sizes of the buffers of one status.
abbrev pub size_with : DynamicMemBufStatus → DynamicMemBuf → ℕ
size_with t b = if is_status b.status t then b.size else 0

abbrev pub buf_sizes : DynamicMemBufStatus → Store → List (ℕ × BufPtr) → ℕ
buf_sizes t s [] = 0
buf_sizes t s ((a, p) ∷ m) = size_with t (s.buf p) + buf_sizes t s m

abbrev pub all_buf_sizes : DynamicMemBufStatus → Store → List BlockPtr → ℕ
all_buf_sizes t s [] = 0
all_buf_sizes t s (b ∷ bs) = buf_sizes t s (s.block b).block_all_mem_buf_map + all_buf_sizes t s bs

-- The field that counts the buffers of one status.
abbrev field_of : DynamicMemBufStatus → DeviceState → ℕ
field_of idle d = d.total_idle_mem_size
field_of used d = d.total_used_mem_size
field_of eager_free d = d.total_eager_free_mem_size
field_of used_by_event d = d.total_used_by_event_mem_size

count_buf-field :
    (t : DynamicMemBufStatus) (b : DynamicMemBuf) (d : DeviceState)
    → (field_of t (count_buf b d) % size_max ≡ (field_of t d + size_with t b) % size_max)
      × ((count_buf b d).total_mem_size ≡ d.total_mem_size)
unfolding count_buf add64
count_buf-field idle b d = grind arith
count_buf-field used b d = grind arith
count_buf-field eager_free b d = grind arith
count_buf-field used_by_event b d = grind arith

field_of-none : (t : DynamicMemBufStatus) → field_of t no_state ≡ 0
field_of-none idle = refl
field_of-none used = refl
field_of-none eager_free = refl
field_of-none used_by_event = refl

field_of-same :
    (t : DynamicMemBufStatus) (n : ℕ) (d : DeviceState)
    → field_of t (record d { total_mem_size = n }) ≡ field_of t d
field_of-same idle n d = refl
field_of-same used n d = refl
field_of-same eager_free n d = refl
field_of-same used_by_event n d = refl

module _ (t : DynamicMemBufStatus) (s : Store) where
  count_bufs-field :
      (m : List (ℕ × BufPtr)) (d : DeviceState)
      → (field_of t (count_bufs s m d) % size_max ≡ (field_of t d + buf_sizes t s m) % size_max)
        × ((count_bufs s m d).total_mem_size ≡ d.total_mem_size)
  unfolding count_bufs
  count_bufs-field [] d = (omega arith, refl)
  count_bufs-field ((a, p) ∷ m) d =
      let one = count_buf-field t (s.buf p) d in
      let rest = count_bufs-field m (count_buf (s.buf p) d) in
      (omega (arith, rest.0, one.0), rest.1 ∙ one.1)

  count_blocks-field :
      (bs : List BlockPtr) (d : DeviceState)
      → (field_of t (count_blocks s bs d) % size_max
          ≡ (field_of t d + all_buf_sizes t s bs) % size_max)
        × ((count_blocks s bs d).total_mem_size % size_max
            ≡ (d.total_mem_size + sizes s bs) % size_max)
  unfolding count_blocks add64
  count_blocks-field [] d = (omega arith, omega arith)
  count_blocks-field (b ∷ bs) d =
      let n = (d.total_mem_size + (s.block b).mem_block_size) % size_max in
      let d' : DeviceState = record d { total_mem_size = n } in
      let own = count_bufs-field (s.block b).block_all_mem_buf_map d' in
      let rest = count_blocks-field bs (count_bufs s (s.block b).block_all_mem_buf_map d') in
      (omega (arith, rest.0, own.0, field_of-same t n d), omega (arith, rest.1, own.1))

field_total :
    (t : DynamicMemBufStatus) (s : Store) (m : MemStatusManager)
    → field_of t (dump_mem_block_debug_info s m) % size_max
      ≡ all_buf_sizes t s m.mem_block_list % size_max
unfolding dump_mem_block_debug_info
field_total t s m =
    let none_yet = field_of-none t in
    omega (arith, (count_blocks-field t s m.mem_block_list no_state).0, none_yet)

-- The idle, used, eagerly freed and used-by-event sizes are, up to wrap-around, each the sum of the
-- sizes of the buffers with that status in all listed blocks, and the total size is the sum of the
-- blocks' sizes.
pub dump_mem_block_debug_info-total :
    (s : Store) (m : MemStatusManager)
    → let d = dump_mem_block_debug_info s m in
      let bs = m.mem_block_list in
      (d.total_idle_mem_size % size_max ≡ all_buf_sizes idle s bs % size_max)
      × (d.total_used_mem_size % size_max ≡ all_buf_sizes used s bs % size_max)
      × (d.total_eager_free_mem_size % size_max ≡ all_buf_sizes eager_free s bs % size_max)
      × (d.total_used_by_event_mem_size % size_max ≡ all_buf_sizes used_by_event s bs % size_max)
      × (d.total_mem_size % size_max ≡ sizes s bs % size_max)
unfolding dump_mem_block_debug_info
dump_mem_block_debug_info-total s m = (
  field_total idle s m,
  field_total used s m,
  field_total eager_free s m,
  field_total used_by_event s m,
  omega (arith, (count_blocks-field idle s m.mem_block_list no_state).1),
)
