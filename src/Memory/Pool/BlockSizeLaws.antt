-- ===== src/Memory/Pool/BlockSizeLaws.antt =====
-- About CalMemBlockAllocSize and its doubling loop.
use ccbase.Base.{
  ℕ, zero, suc, ◌*◌, ◌%◌, ◌^◌, ◌≤◌, ◌<◌, ◌≡◌, refl, inl, inr, some, false, arith, ltb, min,
  size_max, Bool-cases,
}
use native.Mathlib.Nat.{pow-suc}
use ccbase.Memory.Pool.BlockSize.{grow_twice, cal_mem_block_alloc_size}

double_pow : (n f : ℕ) → n * 2 * 2 ^ f ≡ n * 2 ^ suc f
double_pow n f = rw (pow-suc 2 f) (grind arith)

-- Doubling ends within the fuel, at a size that is enough.
grow_twice-total :
    (fuel size n : ℕ)
    → size ≤ 2 ^ 63
    → size < n * 2 ^ fuel
    → (r : ℕ) × (grow_twice (suc fuel) size n ≡ some r) × (size ≤ r)
unfolding grow_twice
grow_twice-total zero size n small enough =
    let done : ltb n size ≡ false = ground arith in (n, rw done, omega arith)
grow_twice-total (suc fuel) size n small enough = elim (Bool-cases (ltb n size)) [
  | inr done ↦ (n, rw done, ground arith)
  | inl more ↦
      let below : n < size = ground arith in
      let exact : n * 2 % size_max ≡ n * 2 = omega arith in
      let ih =
        grow_twice-total fuel size (n * 2 % size_max) small
          (rw exact (omega (arith, double_pow n fuel))) in
      (ih.0, rw more ih.1, ih.2)
]

-- For a positive unit size and a request of at most 2^63 bytes the loop ends. The block size is 0
-- where the device has less free memory than the request, and otherwise it holds the request and
-- is at most what is free.
pub cal_mem_block_alloc_size-holds :
    (device_free unit size : ℕ)
    → 0 < unit
    → size ≤ 2 ^ 63
    → (r : ℕ) × (cal_mem_block_alloc_size device_free unit size ≡ some r)
      × (device_free < size → r ≡ 0)
      × (size ≤ device_free → (size ≤ r) × (r ≤ device_free))
unfolding cal_mem_block_alloc_size
cal_mem_block_alloc_size-holds device_free unit size pos small =
    elim (Bool-cases (ltb device_free size)) [
      | inl short ↦ (0, rw short, λ h. refl, λ h. absurd (ground arith))
      | inr enough ↦
          let g = grow_twice-total 64 size unit small (omega arith) in
          (
            min g.0 device_free,
            rw (enough, g.1),
            λ h. absurd (ground arith),
            λ h. (omega arith, omega arith),
          )
    ]
