-- ===== src/Memory/Allocator/Tests.antt =====
-- Runs of an allocator on a device that hands out blocks of 4096 bytes.
use ccbase.Base.{
  ◌+◌, ◌≤◌, ◌≡◌, ◌≢◌, refl, ap, inl, Bool, true, false, some, [], ◌∷◌, arith, sub64, length,
}
use mathlib.Core.Option.{some-injective}
use ccbase.Memory.Types.{idle, is_status}
use ccbase.Memory.Stat.{MemBlock, reset}
use ccbase.Memory.Heap.{Ptr, empty, split, relink_next}
use ccbase.Memory.BufSet.{lower_bound, emplace, erase}
use ccbase.Memory.Allocator.{MemBufAllocator, Hooks, Env, malloc, malloc_expand_block, free}
use ccbase.Memory.Allocator.Release.{free_idle_mems_by_eager_free}
use ccbase.Memory.Allocator.Valid.{IsValid}
use ccbase.Memory.Allocator.Malloc.{Serves}
use ccbase.Memory.Allocator.Expand.{Granted, malloc_expand_block-Valid, malloc-Valid}
use ccbase.Memory.Allocator.Free.{free-IsValid}
use ccbase.Memory.Allocator.Fit.{malloc-best_fit}
use ccbase.Memory.Allocator.Frame.{Untouched, InUse, malloc-Untouched, free-Untouched}
use ccbase.Memory.Allocator.Eager.{free_idle_mems-IsValid, IdleQuiet}

abbrev pub a_block : MemBlock
a_block = record { size = 4096; addr = 65536; stream_id = 0; min_addr = 0; max_addr = 0 }

abbrev pub hooks : Hooks Bool
hooks = record {
  mem_block_expander = λ size e. (some a_block, e);
  mem_block_cleaner = λ b e. (true, e);
  mem_mapper = λ size addr e. (size, e);
  mem_eager_freer = λ addr size e. (size, e);
}

abbrev pub env : Env Bool
env = record { stat = reset; dev = true }

abbrev pub start : MemBufAllocator
start = record {
  heap = empty;
  mem_blocks = [];
  free_mem_bufs = [];
  eager_free_mem_bufs = [];
  enable_eager_free = false;
  stream_id = 0;
  is_persistent = false;
}

pub start-IsValid : IsValid start
unfolding empty
start-IsValid = record {
  linked = record {
    null_dead = refl;
    fresh_pos = omega arith;
    below = λ p l. cc;
    sized = λ p l. cc;
    fits = λ p l. cc;
    next_live = λ p l n. cc;
    prev_live = λ p l n. cc;
    next_prev = λ p l n. cc;
    prev_next = λ p l n. cc;
    touch = λ p l n. cc;
    apart = λ p q l m n. cc;
  };
  frees = λ p. refl;
  eagers = λ p. refl;
  free_sorted = tt;
  eager_sorted = tt;
}

pub granted : (b : MemBlock) → (hooks.mem_block_expander 1024 env).0 ≡ some b → Granted start.heap b
unfolding empty
granted b e = record {
  sized = ground (arith, some-injective _ _ e);
  fits = ground (arith, some-injective _ _ e);
  clear = λ p l. cc;
}

abbrev pub after_first : MemBufAllocator
after_first = (malloc hooks 1024 start env).1

abbrev pub after_second : MemBufAllocator
after_second = (malloc hooks 512 after_first env).1

malloc-Valid_example : IsValid after_first × Serves 1024 after_first (malloc hooks 1024 start env).0
malloc-Valid_example = malloc-Valid hooks start start-IsValid 1024 (omega arith) env granted

malloc_expand_block-Valid_example :
    IsValid (malloc_expand_block hooks 1024 start env).1
    × Serves 1024
        (malloc_expand_block hooks 1024 start env).1
        (malloc_expand_block hooks 1024 start env).0
malloc_expand_block-Valid_example =
    malloc_expand_block-Valid hooks start start-IsValid 1024 (omega arith) env granted

first_answer : (malloc hooks 1024 start env).0 ≡ some 1
unfolding malloc empty sub64 split emplace
first_answer = refl

second_answer : (malloc hooks 512 after_first env).0 ≡ some 2
unfolding malloc lower_bound empty sub64 split emplace
second_answer = refl

first_sets : after_first.free_mem_bufs ≡ 2 ∷ []
unfolding malloc empty sub64 split emplace
first_sets = refl

pub after_first-IsValid : IsValid after_first
after_first-IsValid = malloc-Valid_lem.0
  where
    malloc-Valid_lem : IsValid after_first × Serves 1024 after_first (malloc hooks 1024 start env).0
    malloc-Valid_lem = malloc-Valid hooks start start-IsValid 1024 (omega arith) env granted

pub first-InUse : InUse 1 after_first.heap
unfolding malloc empty sub64 split emplace
first-InUse = (refl, refl, refl)

malloc-Untouched_example : Untouched 1 after_first.heap (malloc hooks 512 after_first env).1.heap
malloc-Untouched_example =
    malloc-Untouched hooks 512 1 after_first after_first-IsValid env first-InUse

free-IsValid_example : IsValid (free 1 idle after_first).1
free-IsValid_example =
    free-IsValid idle 1 after_first (inl refl) after_first-IsValid first-InUse.0 first-InUse.1
      first-InUse.2

-- The freed buffer joins the idle one behind it again.
free_joins : (free 1 idle after_first).1.free_mem_bufs ≡ 1 ∷ []
unfolding free malloc empty sub64 split emplace erase relink_next
free_joins = refl

joined_size : ((free 1 idle after_first).1.heap.buf 1).size ≡ 4096
unfolding free malloc empty sub64 split emplace erase relink_next
joined_size = refl

second-InUse : InUse 1 after_second.heap × InUse 2 after_second.heap
unfolding malloc lower_bound empty sub64 split emplace
second-InUse = ((refl, refl, refl), (refl, refl, refl))

free-Untouched_example : Untouched 1 after_second.heap (free 2 idle after_second).1.heap
free-Untouched_example = free-Untouched idle (inl refl) 2 1 (λ e. cc) after_second second-InUse.0

first_rest :
    (after_first.heap.live 2 ≡ true)
    × (is_status (after_first.heap.buf 2).status idle ≡ true)
    × (512 ≤ (after_first.heap.buf 2).size)
unfolding malloc empty sub64 split emplace
first_rest = (refl, refl, omega arith)

one_block : length after_first.mem_blocks ≡ 1
unfolding malloc empty sub64 split emplace
one_block = refl

first_blocks : after_first.mem_blocks ≢ []
first_blocks e =
    let none_left : length after_first.mem_blocks ≡ 0 = ap length e in
    absurd (omega (arith, one_block))

malloc-best_fit_example :
    (p : Ptr) × ((malloc hooks 512 after_first env).0 ≡ some p)
    × (after_first.heap.live p ≡ true)
    × (is_status (after_first.heap.buf p).status idle ≡ true)
    × (512 ≤ (after_first.heap.buf p).size)
    × ((r : Ptr)
        → after_first.heap.live r ≡ true
        → is_status (after_first.heap.buf r).status idle ≡ true
        → 512 ≤ (after_first.heap.buf r).size
        → (after_first.heap.buf p).size ≤ (after_first.heap.buf r).size)
malloc-best_fit_example =
    malloc-best_fit hooks after_first after_first-IsValid 512 env 2 first_blocks first_rest.0
      first_rest.1 first_rest.2

first_quiet : IdleQuiet after_first
unfolding malloc empty sub64 split emplace
first_quiet p l i = ground arith

abbrev after_eager : MemBufAllocator
after_eager = (free_idle_mems_by_eager_free hooks after_first env).1

free_idle_mems-IsValid_example :
    IsValid after_eager
    × ((p : Ptr)
        → after_eager.heap.live p ≡ true
        → is_status (after_eager.heap.buf p).status idle ≡ false)
free_idle_mems-IsValid_example =
    free_idle_mems-IsValid hooks after_first env first_quiet after_first-IsValid

first_parts :
    (after_first.heap.live 2 ≡ true)
    × (1024 + 2048 ≡ (after_first.heap.buf 2).size)
    × ((after_first.heap.buf 2).prev ≡ 1)
    × ((after_first.heap.buf 1).next ≡ 2)
unfolding malloc empty sub64 split emplace
first_parts = (refl, refl, refl, refl)

found_best : lower_bound after_first.heap 600 (2 ∷ []) ≡ some 2
unfolding lower_bound malloc empty sub64 split
found_best = refl
