-- ===== src/Memory/Pool/Tracked.antt =====
-- The buffers of `stream_pair_mem_bufs_`: whether they all still exist.
use ccbase.Base.{ℕ, ◌≡◌, ◌∙◌, inl, inr, false, All, List, [], ◌∷◌, Bool-cases}
use ccbase.Memory.Heap.{Ptr}
use ccbase.Memory.Allocator.{MemBufAllocator, Env}
use ccbase.Memory.Allocator.Frame.{InUse}
use ccbase.Memory.Allocator.Advance.{Advances}
use ccbase.Memory.Pool.State.{AllocatorRef, BufRef, PairMap, Pool, same_buf, insert_buf}
use ccbase.Memory.Pool.Events.{insert_all, carry_event_mem_bufs}
use ccbase.Memory.Pool.Accounts.{Allocators, heap_of, same_buf_symm}
use ccbase.Memory.Pool.Sound.{PoolSound, Unmade, advanced, Kept-all}

abbrev pub BufInUse : Allocators → BufRef → Type 0
BufInUse s (r, b) = InUse b (heap_of s r)

abbrev pub PairsInUse : Allocators → PairMap → Type 0
PairsInUse s [] = Unit {0}
PairsInUse s ((k, bs) ∷ m) = All (BufInUse s) bs × PairsInUse s m

-- No deleted buffer was accessed, and every buffer of every pair of streams is in use.
abbrev pub Tracked : {D : Type 0} → Pool D → Type 0
Tracked p = (p.faulted ≡ false) × PairsInUse p.allocators p.stream_pair_mem_bufs

-- Every buffer of the list stands in it once.
abbrev pub Once : List BufRef → Type 0
Once [] = Unit {0}
Once (c ∷ cs) = All (λ d. same_buf c d ≡ false) cs × Once cs

module _ (s t : Allocators)
    (kept : (r : AllocatorRef) (q : Ptr) → InUse q (heap_of s r) → InUse q (heap_of t r)) where
  bufs-kept : (bs : List BufRef) → All (BufInUse s) bs → All (BufInUse t) bs
  bufs-kept [] a = tt
  bufs-kept ((r, b) ∷ bs) a = (kept r b a.0, bufs-kept bs a.1)

  pairs-kept : (m : PairMap) → PairsInUse s m → PairsInUse t m
  pairs-kept [] a = tt
  pairs-kept ((k, bs) ∷ m) a = (bufs-kept bs a.0, pairs-kept m a.1)

module _ {D : Type 0} (taken : D → ℕ → Type 0) (p : Pool D) (v : PoolSound taken p)
    (r : AllocatorRef) (a : MemBufAllocator) (e : Env D)
    (bare : Unmade r p.stream_keys → (q : Ptr) → a.heap.live q ≡ false)
    (w : Advances taken (p.allocators r) a p.env e) where
  -- An operation of one allocator that advances it deletes no buffer of a pair.
  pub advanced-Tracked : Tracked p → Tracked (advanced taken p v r a e bare w)
  advanced-Tracked (ok, held) = (
    ok,
    pairs-kept p.allocators (advanced taken p v r a e bare w).allocators
        (λ t q u. (Kept-all taken p v r a e bare w t q u).0) p.stream_pair_mem_bufs held,
  )

module _ (P : BufRef → Type 0) where
  pub insert_buf-All : (b : BufRef) (cs : List BufRef) → P b → All P cs → All P (insert_buf b cs)
  unfolding insert_buf
  insert_buf-All b [] x a = (x, tt)
  insert_buf-All b (c ∷ cs) x a = elim (Bool-cases (same_buf b c)) [
    | inl here ↦ rw here a
    | inr there ↦ rw there (a.0, insert_buf-All b cs x a.1)
  ]

  insert_all-All : (bs cs : List BufRef) → All P bs → All P cs → All P (insert_all bs cs)
  insert_all-All [] cs x a = a
  insert_all-All (b ∷ bs) cs x a =
      insert_all-All bs (insert_buf b cs) x.1 (insert_buf-All b cs x.0 a)

insert_buf-Once : (b : BufRef) (cs : List BufRef) → Once cs → Once (insert_buf b cs)
unfolding insert_buf
insert_buf-Once b [] o = (tt, tt)
insert_buf-Once b (c ∷ cs) o = elim (Bool-cases (same_buf b c)) [
  | inl here ↦ rw here o
  | inr there ↦ rw there (
    insert_buf-All (λ d. same_buf c d ≡ false) b cs (same_buf_symm c b ∙ there) o.0,
    insert_buf-Once b cs o.1,
  )
]

insert_all-Once : (bs cs : List BufRef) → Once cs → Once (insert_all bs cs)
insert_all-Once [] cs o = o
insert_all-Once (b ∷ bs) cs o = insert_all-Once bs (insert_buf b cs) (insert_buf-Once b cs o)

pub carry_event_mem_bufs-Once : (m : PairMap) → Once (carry_event_mem_bufs m)
unfolding carry_event_mem_bufs
carry_event_mem_bufs-Once [] = tt
carry_event_mem_bufs-Once ((k, bs) ∷ m) =
    insert_all-Once bs (carry_event_mem_bufs m) (carry_event_mem_bufs-Once m)

pub carry_event_mem_bufs-All :
    (s : Allocators) (m : PairMap) → PairsInUse s m → All (BufInUse s) (carry_event_mem_bufs m)
unfolding carry_event_mem_bufs
carry_event_mem_bufs-All s [] a = tt
carry_event_mem_bufs-All s ((k, bs) ∷ m) a =
    insert_all-All (BufInUse s) bs (carry_event_mem_bufs m) a.0 (carry_event_mem_bufs-All s m a.1)
