-- ===== src/Memory/Allocator/BytesTests.antt =====
-- The bytes of the allocator of Tests.
use ccbase.Base.{◌≡◌, refl, ◌↔◌, ◌⊎◌, inl, [], arith}
use ccbase.Memory.Types.{idle}
use ccbase.Memory.Heap.Bytes.{Covers, SameBytes}
use ccbase.Memory.Allocator.{malloc, free}
use ccbase.Memory.Allocator.Bytes.{Comes, malloc-Covers, free-SameBytes}
use ccbase.Memory.Allocator.Tests.{
  hooks, env, start, start-IsValid, granted, after_first, after_first-IsValid, first-InUse,
}

malloc-Covers_example :
    Covers (malloc hooks 1024 start env).1.heap 66000
    ↔ (Covers start.heap 66000 ⊎ ((start.mem_blocks ≡ []) × Comes hooks 1024 env 66000))
malloc-Covers_example = malloc-Covers hooks start start-IsValid 1024 (omega arith) env granted 66000

free-SameBytes_example : SameBytes after_first.heap (free 1 idle after_first).1.heap
free-SameBytes_example =
    free-SameBytes idle 1 after_first (inl refl) after_first-IsValid first-InUse.0 first-InUse.1
      first-InUse.2
