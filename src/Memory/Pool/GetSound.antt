-- ===== src/Memory/Pool/GetSound.antt =====
-- GetMemBufAllocator and the invariant of the pool with the device.
use ccbase.Base.{
  ℕ, ◌*◌, ◌≡◌, inl, inr, refl, Bool, ◌&&◌, ◌||◌, List, [], ◌∷◌, arith, Bool-cases, leb,
}
use ccbase.Memory.Heap.{empty}
use ccbase.Memory.Allocator.Valid.{IsValid}
use ccbase.Memory.Allocator.Advance.{Advances, Steady-refl}
use ccbase.Memory.Pool.State.{AllocatorRef, tiny, stream, Pool, same_ref, set_allocator}
use ccbase.Memory.Pool.Device.{Device, generate_allocator}
use ccbase.Memory.Pool.Alloc.{key_less, insert_key, has_key, get_mem_buf_allocator}
use ccbase.Memory.Pool.Accounts.{same_ref_refl}
use ccbase.Memory.Pool.Sound.{PoolSound, Unmade, advanced-PoolSound}
use ccbase.Memory.Pool.Tracked.{Tracked, advanced-Tracked}
use ccbase.Memory.Pool.IdleSound.{Made}

has_key-insert_key :
    (t r : AllocatorRef) (ks : List AllocatorRef)
    → has_key t (insert_key r ks) ≡ (same_ref r t || has_key t ks)
unfolding has_key insert_key
has_key-insert_key t r [] = refl
has_key-insert_key t r (s ∷ ks) = elim (Bool-cases (key_less s r)) [
  | inl before ↦ rw before (ground (arith, has_key-insert_key t r ks))
  | inr here ↦ rw here refl
]

-- What is not made after an allocator was added was not made before.
Unmade-insert_key :
    (t r : AllocatorRef) (ks : List AllocatorRef) → Unmade t (insert_key r ks) → Unmade t ks
Unmade-insert_key tiny r ks n = n
Unmade-insert_key (stream k s) r ks n = ground (arith, n, has_key-insert_key (stream k s) r ks)

Made-insert_key : (r : AllocatorRef) (ks : List AllocatorRef) → Made r (insert_key r ks)
Made-insert_key tiny ks n = n
Made-insert_key (stream k s) ks n =
    ground (arith, n, has_key-insert_key (stream k s) (stream k s) ks, same_ref_refl (stream k s))

module _ {D : Type 0} (taken : D → ℕ → Type 0) (dev : Device D) where
  generate-IsValid : (p : Pool D) (k : Bool) (s : ℕ) → IsValid (generate_allocator dev p k s)
  unfolding generate_allocator empty
  generate-IsValid p k s = record {
    linked = record {
      null_dead = refl;
      fresh_pos = omega arith;
      below = λ p l. cc;
      sized = λ p l. cc;
      fits = λ p l. cc;
      next_live = λ p l n. cc;
      prev_live = λ p l n. cc;
      next_prev = λ p l n. cc;
      prev_next = λ p l n. cc;
      touch = λ p l n. cc;
      apart = λ p q l m n. cc;
    };
    frees = λ p. refl;
    eagers = λ p. refl;
    free_sorted = tt;
    eager_sorted = tt;
  }

  module _ (p : Pool D) (v : PoolSound taken p) where
    generate-Advances :
        (k : Bool) (s : ℕ)
        → Unmade (stream k s) p.stream_keys
        → Advances taken (p.allocators (stream k s)) (generate_allocator dev p k s) p.env p.env
    unfolding generate_allocator empty
    generate-Advances k s unmade = record {
      valid = generate-IsValid p k s;
      quiet = λ q l i. cc;
      kept = λ q u. cc (u.0, v.unmade (stream k s) q unmade);
      owned = λ x (q, i). cc (i.0);
      steady = Steady-refl taken p.env;
    }

    keys-PoolSound :
        (ks : List AllocatorRef)
        → ((t : AllocatorRef) → Unmade t ks → Unmade t p.stream_keys)
        → PoolSound taken (record p { stream_keys = ks })
    keys-PoolSound ks more = record {
      valid = v.valid;
      quiet = v.quiet;
      owned = v.owned;
      parted = v.parted;
      unmade = λ r q n. v.unmade r q (more r n);
      mapped = v.mapped;
      counted = v.counted;
    }

  -- The allocator that is found or made is one of the pool's, and the pool is sound.
  pub get_mem_buf_allocator-PoolSound :
      (size : ℕ) (k : Bool) (s : ℕ) (p : Pool D)
      → PoolSound taken p
      → let x = get_mem_buf_allocator dev size k s p in
        PoolSound taken x.1 × Made x.0 x.1.stream_keys × (Tracked p → Tracked x.1)
  unfolding get_mem_buf_allocator generate_allocator empty
  get_mem_buf_allocator-PoolSound size k s p v =
      elim (Bool-cases (p.has_tiny && leb size (1024 * 1024))) [
        | inl small ↦ rw small (v, (λ n. n), λ k. k)
        | inr large ↦ elim (Bool-cases (has_key (stream k s) p.stream_keys)) [
          | inl there ↦ rw (large, there) (v, (λ n. cc (n, there)), λ k. k)
          | inr missing ↦
              let a = generate_allocator dev p k s in
              let v' =
                advanced-PoolSound taken p v (stream k s) a p.env (λ n q. refl)
                  (generate-Advances p v k s missing) in
              rw (large, missing)
                (
                  keys-PoolSound (set_allocator p (stream k s) a) v'
                      (insert_key (stream k s) p.stream_keys)
                      (λ t. Unmade-insert_key t (stream k s) p.stream_keys),
                  Made-insert_key (stream k s) p.stream_keys,
                  advanced-Tracked taken p v (stream k s) a p.env (λ n q. refl)
                      (generate-Advances p v k s missing),
                )
        ]
      ]
