-- ===== src/Memory/Pool/Enter.antt =====
-- A new buffer is counted and entered into the address map.
use ccbase.Base.{
  ℕ, ◌+◌, ◌<◌, ◌≡◌, ◌≢◌, inl, inr, refl, sym, ◌∙◌, subst, true, false, [], ◌∷◌, arith, Bool-cases,
  size_max, add64, add64_exact, ap, ◌==◌,
}
use ccbase.Memory.Stat.{update_peak_size}
use ccbase.Memory.Allocator.Frame.{InUse}
use ccbase.Memory.Pool.State.{BufRef, AddrMap, Pool, same_buf, buf_of, set_stat, emplace_addr}
use ccbase.Memory.Pool.Device.{Device}
use ccbase.Memory.Pool.Alloc.{count_used}
use ccbase.Memory.Pool.Accounts.{
  Allocators, heap_of, size_at, Absent, Mapped, mapped_size, same_ref-eq, same_buf_symm,
}
use ccbase.Memory.Pool.Sound.{PoolSound}
use ccbase.Memory.Pool.Bound.{at_byte, share_none, mapped_size-bounded}

-- The buffer is in no entry of the map.
abbrev pub Lacks : BufRef → AddrMap → Type 0
Lacks c [] = Unit {0}
Lacks c ((j, d) ∷ m) = (same_buf c d ≡ false) × Lacks c m

-- A buffer that was not in use is in no entry.
pub unused-Lacks :
    (s : Allocators) (c : BufRef) (m : AddrMap)
    → Mapped s m
    → (InUse c.1 (heap_of s c.0) → ⊥)
    → Lacks c m
unused-Lacks s c [] mapped unused = tt
unused-Lacks s (r, b) ((j, (t, q)) ∷ m) mapped unused = (
  (elim (Bool-cases (same_buf (r, b) (t, q))) [
    | inr other ↦ other
    | inl one ↦
        let same_t : r ≡ t = same_ref-eq r t (ground arith) in
        let same_q : b ≡ q = ground arith in absurd (unused (rw (same_t, same_q) mapped.0))
  ]),
  unused-Lacks s (r, b) m mapped.3 unused,
)

Absent-emplace :
    (j k : ℕ) (d c : BufRef) (m : AddrMap)
    → j ≢ k
    → same_buf d c ≡ false
    → Absent j d m
    → Absent j d (emplace_addr k c m)
unfolding emplace_addr
Absent-emplace j k d c [] ne other absent = (ne, other, tt)
Absent-emplace j k d c ((i, b) ∷ m) ne other absent = elim (Bool-cases (i == k)) [
  | inl here ↦ rw here absent
  | inr there ↦ rw there (absent.0, absent.1, Absent-emplace j k d c m ne other absent.2)
]

Mapped-emplace :
    (s : Allocators) (k : ℕ) (c : BufRef) (m : AddrMap)
    → Absent k c m
    → Mapped s m
    → InUse c.1 (heap_of s c.0)
    → ((heap_of s c.0).buf c.1).addr ≡ k
    → Mapped s (emplace_addr k c m)
      × (mapped_size s (emplace_addr k c m) ≡ mapped_size s m + size_at s c)
unfolding emplace_addr
Mapped-emplace s k c [] absent mapped u at = ((u, at, tt, tt), omega arith)
Mapped-emplace s k c ((j, d) ∷ m) absent mapped u at =
    let there : (j == k) ≡ false = ground (arith, absent.0) in
    let ih = Mapped-emplace s k c m absent.2 mapped.3 u at in
    rw there (
      (
        mapped.0,
        mapped.1,
        Absent-emplace j k d c m (λ e. absent.0 (sym e)) (same_buf_symm d c ∙ absent.1) mapped.2,
        ih.0,
      ),
      omega (arith, ih.1),
    )

module _ {D : Type 0} (taken : D → ℕ → Type 0) (p : Pool D) (v : PoolSound taken p) (c : BufRef)
    (u : InUse c.1 (heap_of p.allocators c.0)) where
  abbrev k : ℕ
  k = (buf_of p c).addr

  -- Another buffer in use is not at the address of this one.
  pub other_address :
      (d : BufRef)
      → same_buf c d ≡ false
      → InUse d.1 (heap_of p.allocators d.0)
      → ((heap_of p.allocators d.0).buf d.1).addr ≢ k
  other_address (t, q) apart i e =
      let here : at_byte p.allocators c k ≡ true =
        ground (arith, (v.valid c.0).linked.sized c.1 u.0) in
      let there : at_byte p.allocators (t, q) k ≡ true =
        ground (arith, (v.valid t).linked.sized q i.0, e) in
      cc (there, share_none taken p v c (t, q) k apart u i here)

  -- No entry has the address of a buffer in use that is not in the map.
  Lacks-Absent : (m : AddrMap) → Lacks c m → Mapped p.allocators m → Absent k c m
  Lacks-Absent [] lacks mapped = tt
  Lacks-Absent ((j, d) ∷ m) lacks mapped = (
    (λ e. other_address d lacks.0 mapped.0 (mapped.1 ∙ sym e)),
    lacks.0,
    Lacks-Absent m lacks.1 mapped.3,
  )

  module _ (lacks : Lacks c p.addr_mem_buf_allocators) where
    abbrev more : AddrMap
    more = emplace_addr k c p.addr_mem_buf_allocators

    grown :
        Mapped p.allocators more
        × (mapped_size p.allocators more
            ≡ mapped_size p.allocators p.addr_mem_buf_allocators + size_at p.allocators c)
    grown =
        Mapped-emplace p.allocators k c p.addr_mem_buf_allocators
          (Lacks-Absent p.addr_mem_buf_allocators lacks v.mapped) v.mapped u refl

    abbrev with_used : ℕ → Pool D
    with_used n = record (set_stat p (record (p.env.stat) { used_size = n })) {
      addr_mem_buf_allocators = more;
    }

    with_used-PoolSound : PoolSound taken (with_used (mapped_size p.allocators more))
    with_used-PoolSound = record {
      valid = v.valid;
      quiet = v.quiet;
      owned = v.owned;
      parted = v.parted;
      unmade = v.unmade;
      mapped = grown.0;
      counted = refl;
    }

    grown-bounded : mapped_size p.allocators more < size_max
    grown-bounded =
        mapped_size-bounded taken (with_used (mapped_size p.allocators more)) with_used-PoolSound

    count_is : add64 p.env.stat.used_size (buf_of p c).size ≡ mapped_size p.allocators more
    count_is =
        let sum = ap (λ z. z + (buf_of p c).size) v.counted ∙ sym grown.1 in
        add64_exact p.env.stat.used_size (buf_of p c).size
          (subst (λ z. z < size_max) (sym sum) grown-bounded)
        ∙ sum

    -- The pool with the buffer counted and entered is sound.
    pub entered-PoolSound :
        (dev : Device D)
        → let q = (count_used dev c p).1 in
          PoolSound taken
            (record q { addr_mem_buf_allocators = emplace_addr k c q.addr_mem_buf_allocators })
    unfolding count_used update_peak_size
    entered-PoolSound dev = record {
      valid = v.valid;
      quiet = v.quiet;
      owned = v.owned;
      parted = v.parted;
      unmade = v.unmade;
      mapped = grown.0;
      counted = count_is;
    }
