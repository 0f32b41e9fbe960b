-- ===== src/Memory/Pool/Sound.antt =====
-- The invariant of the pool with the device, and the operations of one allocator in it.
use ccbase.Base.{ℕ, ◌≡◌, ◌⊎◌, inl, inr, refl, sym, ◌∙◌, subst, true, false, List, Bool-cases}
use ccbase.Memory.Heap.{Ptr}
use ccbase.Memory.Heap.Bytes.{Covers}
use ccbase.Memory.Allocator.{MemBufAllocator, Env}
use ccbase.Memory.Allocator.Valid.{IsValid}
use ccbase.Memory.Allocator.Frame.{InUse}
use ccbase.Memory.Allocator.Eager.{IdleQuiet}
use ccbase.Memory.Allocator.Advance.{Kept, Advances}
use ccbase.Memory.Pool.State.{AllocatorRef, tiny, stream, Pool, same_ref, set_allocator}
use ccbase.Memory.Pool.Alloc.{has_key}
use ccbase.Memory.Pool.Accounts.{
  heap_of, Mapped, mapped_size, same_ref-eq, same_ref_refl, Mapped-kept,
}

-- An allocator that is not in the map of allocators.
abbrev pub Unmade : AllocatorRef → List AllocatorRef → Type 0
Unmade tiny ks = ⊥
Unmade (stream k s) ks = has_key (stream k s) ks ≡ false

module _ {D : Type 0} (taken : D → ℕ → Type 0) where
  -- Every allocator is valid and no idle buffer is waited for; the device has taken the bytes of
  -- all buffers, and no two allocators share one; an allocator that is not made has no buffer; the
  -- map holds buffers in use, and `used_size` is the sum of their sizes.
  pub record PoolSound (p : Pool D) : Type 0 where
    pub valid : (r : AllocatorRef) → IsValid (p.allocators r)
    pub quiet : (r : AllocatorRef) → IdleQuiet (p.allocators r)
    pub owned : (r : AllocatorRef) (x : ℕ) → Covers (heap_of p.allocators r) x → taken p.env.dev x
    pub parted :
        (r t : AllocatorRef) (x : ℕ)
        → same_ref r t ≡ false
        → Covers (heap_of p.allocators r) x
        → Covers (heap_of p.allocators t) x
        → ⊥
    pub unmade :
        (r : AllocatorRef) (q : Ptr)
        → Unmade r p.stream_keys
        → (heap_of p.allocators r).live q ≡ false
    pub mapped : Mapped p.allocators p.addr_mem_buf_allocators
    pub counted : p.env.stat.used_size ≡ mapped_size p.allocators p.addr_mem_buf_allocators

  same_ref_symm : (r t : AllocatorRef) → same_ref r t ≡ same_ref t r
  same_ref_symm r t = elim (Bool-cases (same_ref r t)) [
    | inl one ↦ let e = same_ref-eq r t one in subst (λ x. same_ref r x ≡ same_ref x r) e refl
    | inr two ↦ elim (Bool-cases (same_ref t r)) [
      | inr same ↦ two ∙ sym same
      | inl one ↦ let e = same_ref-eq t r one in subst (λ x. same_ref x t ≡ same_ref t x) e refl
    ]
  ]

  module _ (p : Pool D) (v : PoolSound p) (r : AllocatorRef) (a : MemBufAllocator) (e : Env D)
      (bare : Unmade r p.stream_keys → (q : Ptr) → a.heap.live q ≡ false)
      (w : Advances taken (p.allocators r) a p.env e) where
    abbrev pub advanced : Pool D
    advanced = record (set_allocator p r a) { env = e }

    -- A statement on the allocators holds after the step if it holds of the new one, and held of
    -- the others.
    at_each :
        (P : AllocatorRef → MemBufAllocator → Type 0)
        → P r a
        → ((t : AllocatorRef) → same_ref t r ≡ false → P t (p.allocators t))
        → (t : AllocatorRef) → P t (advanced.allocators t)
    at_each P here others t = elim (Bool-cases (same_ref t r)) [
      | inl one ↦
          let same : r ≡ t = sym (same_ref-eq t r one) in rw one (subst (λ x. P x a) same here)
      | inr other ↦ rw other (others t other)
    ]

    pub Kept-all :
        (t : AllocatorRef) (q : Ptr)
        → InUse q (heap_of p.allocators t)
        → Kept q (heap_of p.allocators t) (heap_of advanced.allocators t)
    Kept-all =
        at_each
          (λ t b.
            (q : Ptr) → InUse q (heap_of p.allocators t) → Kept q (heap_of p.allocators t) b.heap)
          w.kept (λ t other q u. (u, refl, refl))

    -- The bytes of an allocator after the step: it had them before, or nobody had.
    came :
        (t : AllocatorRef) (x : ℕ)
        → Covers (heap_of advanced.allocators t) x
        → Covers (heap_of p.allocators t) x
          ⊎ ((same_ref t r ≡ true) × (taken p.env.dev x → ⊥) × taken e.dev x)
    came =
        at_each
          (λ t b.
            (x : ℕ)
            → Covers b.heap x
            → Covers (heap_of p.allocators t) x
              ⊎ ((same_ref t r ≡ true) × (taken p.env.dev x → ⊥) × taken e.dev x))
          (λ x c. elim (w.owned x c) [
            | inl old ↦ inl old
            | inr new ↦ inr (same_ref_refl r, new.0, new.1)
          ])
          (λ t other x c. inl c)

    -- An operation of one allocator that advances it keeps the pool sound.
    pub advanced-PoolSound : PoolSound advanced
    advanced-PoolSound =
        let m =
          Mapped-kept p.allocators advanced.allocators Kept-all p.addr_mem_buf_allocators
            v.mapped in
        record {
          valid = at_each (λ t b. IsValid b) w.valid (λ t other. v.valid t);
          quiet = at_each (λ t b. IdleQuiet b) w.quiet (λ t other. v.quiet t);
          owned = λ t x c. elim (came t x c) [
            | inl old ↦ w.steady.keeps x (v.owned t x old)
            | inr new ↦ new.2
          ];
          parted = λ s t x apart c d. elim (came s x c) [
            | inl old ↦ elim (came t x d) [
              | inl old₂ ↦ v.parted s t x apart old old₂
              | inr new₂ ↦ new₂.1 (v.owned s x old)
            ]
            | inr new ↦ elim (came t x d) [
              | inl old₂ ↦ new.1 (v.owned t x old₂)
              | inr new₂ ↦
                  cc (apart, same_ref-eq s r new.0, same_ref-eq t r new₂.0, same_ref_refl r)
            ]
          ];
          unmade = λ t q none_made.
              at_each (λ u b. Unmade u p.stream_keys → b.heap.live q ≡ false) (λ n. bare n q)
                (λ u other n. v.unmade u q n) t none_made;
          mapped = m.0;
          counted = w.steady.same_used ∙ v.counted ∙ sym m.1;
        }
