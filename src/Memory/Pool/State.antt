-- ===== src/Memory/Pool/State.antt =====
-- The state of the pool and its maps.
use ccbase.Base.{
  ℕ, Bool, true, false, not, ◌&&◌, Option, none, some, List, [], ◌∷◌, ◌==◌, if◌then◌else◌,
}
use ccbase.Memory.Stat.{MemStat}
use ccbase.Memory.Heap.{Ptr, MemBuf}
use ccbase.Memory.Allocator.{MemBufAllocator, Env}

-- Which allocator: the one for small sizes, or that of a key of `stream_id_allocators_`.
pub data AllocatorRef : Type 0 where
  tiny : AllocatorRef
  stream : (is_persistent : Bool) (stream_id : ℕ) → AllocatorRef

abbrev pub same_bool : Bool → Bool → Bool
same_bool true b = b
same_bool false b = not b

abbrev pub same_ref : AllocatorRef → AllocatorRef → Bool
same_ref tiny tiny = true
same_ref tiny (stream k s) = false
same_ref (stream k s) tiny = false
same_ref (stream k s) (stream l t) = same_bool k l && (s == t)

-- A `MemBuf *` of the pool: the allocator in whose heap it stands, and its number there.
abbrev pub BufRef : Type 0
BufRef = AllocatorRef × Ptr

abbrev pub same_buf : BufRef → BufRef → Bool
same_buf (r, p) (s, q) = same_ref r s && (p == q)

abbrev pub AddrMap : Type 0
AddrMap = List (ℕ × BufRef)

-- The key is the user stream and the memory stream.
abbrev pub PairMap : Type 0
PairMap = List ((ℕ × ℕ) × List BufRef)

pub record Pool (D : Type 0) : Type 0 where
  pub env : Env D
  pub has_tiny : Bool
  -- the map `stream_id_allocators_`, with the tiny allocator: contents and keys in order
  pub allocators : AllocatorRef → MemBufAllocator
  pub stream_keys : List AllocatorRef
  pub addr_mem_buf_allocators : AddrMap
  pub stream_pair_mem_bufs : PairMap
  pub enable_vmm : Bool
  pub common_unit_size : ℕ
  pub persist_unit_size : ℕ
  pub eager_free_count : ℕ
  pub last_eager_free_count : ℕ
  -- a deleted buffer was accessed, which is undefined: the rest of the state says nothing then
  pub faulted : Bool

unfoldable pub find_addr : ℕ → AddrMap → Option BufRef
find_addr a [] = none
find_addr a ((k, b) ∷ m) = if k == a then some b else find_addr a m

-- `unordered_map::emplace` keeps what is there already.
unfoldable pub emplace_addr : ℕ → BufRef → AddrMap → AddrMap
emplace_addr a b [] = (a, b) ∷ []
emplace_addr a b ((k, c) ∷ m) = if k == a then (k, c) ∷ m else (k, c) ∷ emplace_addr a b m

unfoldable pub erase_addr : ℕ → AddrMap → AddrMap
erase_addr a [] = []
erase_addr a ((k, c) ∷ m) = if k == a then m else (k, c) ∷ erase_addr a m

unfoldable pub insert_buf : BufRef → List BufRef → List BufRef
insert_buf b [] = b ∷ []
insert_buf b (c ∷ cs) = if same_buf b c then c ∷ cs else c ∷ insert_buf b cs

unfoldable pub erase_buf : BufRef → List BufRef → List BufRef
erase_buf b [] = []
erase_buf b (c ∷ cs) = if same_buf b c then cs else c ∷ erase_buf b cs

abbrev pub same_pair : ℕ × ℕ → ℕ × ℕ → Bool
same_pair (u, m) (v, n) = (u == v) && (m == n)

unfoldable pub find_pair : ℕ × ℕ → PairMap → Option (List BufRef)
find_pair k [] = none
find_pair k ((j, bs) ∷ m) = if same_pair j k then some bs else find_pair k m

-- `stream_pair_mem_bufs_[key].emplace(b)`
unfoldable pub emplace_pair : ℕ × ℕ → BufRef → PairMap → PairMap
unfolding insert_buf
emplace_pair k b [] = (k, b ∷ []) ∷ []
emplace_pair k b ((j, bs) ∷ m) =
    if same_pair j k then (j, insert_buf b bs) ∷ m else (j, bs) ∷ emplace_pair k b m

-- `it->second.erase(b)`, for the iterator at a key.
unfoldable pub erase_in_pair : ℕ × ℕ → BufRef → PairMap → PairMap
unfolding erase_buf
erase_in_pair k b [] = []
erase_in_pair k b ((j, bs) ∷ m) =
    if same_pair j k then (j, erase_buf b bs) ∷ m else (j, bs) ∷ erase_in_pair k b m

-- The buffer is erased under every key.
unfoldable pub erase_in_all : BufRef → PairMap → PairMap
unfolding erase_buf
erase_in_all b [] = []
erase_in_all b ((j, bs) ∷ m) = (j, erase_buf b bs) ∷ erase_in_all b m

module _ {D : Type 0} where
  abbrev pub buf_of : Pool D → BufRef → MemBuf
  buf_of p (r, b) = (p.allocators r).heap.buf b

  abbrev pub set_allocator : Pool D → AllocatorRef → MemBufAllocator → Pool D
  set_allocator p r a = record p { allocators = λ s. if same_ref s r then a else p.allocators s }

  abbrev pub set_stat : Pool D → MemStat → Pool D
  set_stat p s = record p { env = record (p.env) { stat = s } }
