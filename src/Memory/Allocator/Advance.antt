-- ===== src/Memory/Allocator/Advance.antt =====
-- What an allocator's operations may do to the buffers, the device and the used size.
use ccbase.Base.{ℕ, ◌+◌, ◌<◌, ◌≡◌, ◌⊎◌, refl, some, arith, size_max}
use ccbase.Memory.Stat.{MemBlock}
use ccbase.Memory.Heap.{Ptr, Heap}
use ccbase.Memory.Heap.Bytes.{Covers}
use ccbase.Memory.Allocator.{MemBufAllocator, Hooks, Env}
use ccbase.Memory.Allocator.Valid.{IsValid}
use ccbase.Memory.Allocator.Frame.{InUse, Untouched}
use ccbase.Memory.Allocator.Eager.{IdleQuiet}
use ccbase.Memory.Allocator.Bytes.{InBlock}

-- Still in use, at the same address and with the same size.
abbrev pub Kept : Ptr → Heap → Heap → Type 0
Kept q h g = InUse q g × ((g.buf q).addr ≡ (h.buf q).addr) × ((g.buf q).size ≡ (h.buf q).size)

pub Untouched-Kept : (q : Ptr) (h g : Heap) → InUse q h → Untouched q h g → Kept q h g
Untouched-Kept q h g u w = ((w.0, rw (w.3) u.1, rw (w.3) u.2), w.1, w.2)

module _ {D : Type 0} (taken : D → ℕ → Type 0) where
  -- The device and the statistics: bytes that are taken stay so, and the used size is as before.
  pub record Steady (e e' : Env D) : Type 0 where
    pub keeps : (x : ℕ) → taken e.dev x → taken e'.dev x
    pub same_used : e'.stat.used_size ≡ e.stat.used_size

  -- A block that is granted is not empty, fits the address space, and consists of bytes that were
  -- not taken before and are from then on.
  pub record Grants (e e' : Env D) (b : MemBlock) : Type 0 where
    pub sized : 0 < b.size
    pub fits : b.addr + b.size < size_max
    pub new_bytes : (x : ℕ) → InBlock b x → taken e.dev x → ⊥
    pub now_taken : (x : ℕ) → InBlock b x → taken e'.dev x

  -- What the callbacks of an allocator keep.
  pub record HookLaws (hooks : Hooks D) : Type 0 where
    pub grants :
        (size : ℕ) (e : Env D) (b : MemBlock)
        → (hooks.mem_block_expander size e).0 ≡ some b
        → Grants e (hooks.mem_block_expander size e).1 b
    pub expander : (size : ℕ) (e : Env D) → Steady e (hooks.mem_block_expander size e).1
    pub mapper : (size addr : ℕ) (e : Env D) → Steady e (hooks.mem_mapper size addr e).1
    pub freer : (addr size : ℕ) (e : Env D) → Steady e (hooks.mem_eager_freer addr size e).1

  -- An operation of an allocator keeps the invariants, leaves the buffers in use alone, and covers
  -- new bytes only if it takes them from the device.
  pub record Advances (a a' : MemBufAllocator) (e e' : Env D) : Type 0 where
    pub valid : IsValid a'
    pub quiet : IdleQuiet a'
    pub kept : (q : Ptr) → InUse q a.heap → Kept q a.heap a'.heap
    pub owned :
        (x : ℕ) → Covers a'.heap x → Covers a.heap x ⊎ ((taken e.dev x → ⊥) × taken e'.dev x)
    pub steady : Steady e e'

  pub Steady-refl : (e : Env D) → Steady e e
  Steady-refl e = record { keeps = λ x t. t; same_used = refl }

  pub Steady-trans : (e f g : Env D) → Steady e f → Steady f g → Steady e g
  Steady-trans e f g s t = record {
    keeps = λ x k. t.keeps x (s.keeps x k);
    same_used = omega (arith, s.same_used, t.same_used);
  }
