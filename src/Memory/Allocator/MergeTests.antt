-- ===== src/Memory/Allocator/MergeTests.antt =====
-- Runs that show when idle buffers are neighbours.
use ccbase.Base.{arith}
use ccbase.Memory.Types.{idle}
use ccbase.Memory.Heap.{empty}
use ccbase.Memory.Allocator.{malloc, free}
use ccbase.Memory.Allocator.Coalesced.{IsCoalesced, free-IsCoalesced}
use ccbase.Memory.Allocator.Spread.{malloc-IsCoalesced}
use ccbase.Memory.Allocator.Tests.{
  hooks, env, start, start-IsValid, granted, after_first, after_first-IsValid, first-InUse,
}

start-IsCoalesced : IsCoalesced start.heap
unfolding empty
start-IsCoalesced p l i n = cc

malloc-IsCoalesced_example : IsCoalesced (malloc hooks 1024 start env).1.heap
malloc-IsCoalesced_example =
    malloc-IsCoalesced hooks start start-IsValid 1024 (omega arith) start-IsCoalesced env granted

first-IsCoalesced : IsCoalesced after_first.heap
first-IsCoalesced =
    malloc-IsCoalesced hooks start start-IsValid 1024 (omega arith) start-IsCoalesced env granted

free-IsCoalesced_example : IsCoalesced (free 1 idle after_first).1.heap
free-IsCoalesced_example =
    free-IsCoalesced after_first 1 after_first-IsValid first-InUse.0 first-InUse.1 first-InUse.2
      first-IsCoalesced
