-- ===== src/Memory/BufSet/Members.antt =====
-- The members of the set after each operation, and what the best fit is.
use ccbase.Base.{
  ℕ, ◌≤◌, ◌<◌, ◌≡◌, ◌≢◌, refl, true, not, ◌&&◌, ◌||◌, none, some, List, [], ◌∷◌, arith, has, ◌==◌,
}
use ccbase.Memory.Heap.{Ptr, Heap}
use ccbase.Memory.BufSet.{emplace, erase, erase_at, lower_bound}
use ccbase.Memory.BufSet.Order.{Sorted, Above-has}

-- No other element has the address of `p`.
abbrev pub Unique : Heap → Ptr → List Ptr → Type 0
Unique h p xs = (x : Ptr) → has x xs ≡ true → x ≢ p → (h.buf x).addr ≢ (h.buf p).addr

module _ (h : Heap) where
  pub has-emplace :
      (p : Ptr) (xs : List Ptr)
      → Unique h p xs
      → (q : Ptr) → has q (emplace h p xs) ≡ ((q == p) || has q xs)
  unfolding emplace
  has-emplace p [] u q = refl
  has-emplace p (x ∷ xs) u q = ground (arith, has-emplace p xs (λ y m. u y (ground arith)) q, u x)

  pub has-erase :
      (p : Ptr) (xs : List Ptr)
      → Unique h p xs
      → Sorted h xs
      → (q : Ptr) → has q (erase h p xs) ≡ (has q xs && not (q == p))
  unfolding erase
  has-erase p [] u s q = refl
  has-erase p (x ∷ xs) u s q =
      ground
        (arith, has-erase p xs (λ y m. u y (ground arith)) s.1 q, u x, Above-has h (h.buf x) xs p)

  pub has-erase_at :
      (p : Ptr) (xs : List Ptr)
      → Sorted h xs
      → (q : Ptr) → has q (erase_at p xs) ≡ (has q xs && not (q == p))
  unfolding erase_at
  has-erase_at p [] s q = refl
  has-erase_at p (x ∷ xs) s q = ground (arith, has-erase_at p xs s.1 q, Above-has h (h.buf x) xs p)

  lower_bound-has :
      (n : ℕ) (xs : List Ptr) (p : Ptr) → lower_bound h n xs ≡ some p → has p xs ≡ true
  unfolding lower_bound
  lower_bound-has n [] p e = cc
  lower_bound-has n (x ∷ xs) p e = ground (arith, lower_bound-has n xs p)

  lower_bound-le :
      (n : ℕ) (xs : List Ptr) (p : Ptr) → lower_bound h n xs ≡ some p → n ≤ (h.buf p).size
  unfolding lower_bound
  lower_bound-le n [] p e = cc
  lower_bound-le n (x ∷ xs) p e = ground (arith, lower_bound-le n xs p)

  lower_bound-least :
      (n : ℕ) (xs : List Ptr) (p q : Ptr)
      → Sorted h xs
      → lower_bound h n xs ≡ some p
      → has q xs ≡ true
      → n ≤ (h.buf q).size
      → (h.buf p).size ≤ (h.buf q).size
  unfolding lower_bound
  lower_bound-least n [] p q s e m k = cc
  lower_bound-least n (x ∷ xs) p q s e m k =
      ground (arith, lower_bound-least n xs p q s.1, Above-has h (h.buf x) xs q)

  -- What is found in a set in order is a member, is large enough, and no member that is large
  -- enough is smaller.
  pub lower_bound-best :
      (n : ℕ) (xs : List Ptr) (p : Ptr)
      → Sorted h xs
      → lower_bound h n xs ≡ some p
      → (has p xs ≡ true)
        × (n ≤ (h.buf p).size)
        × ((q : Ptr) → has q xs ≡ true → n ≤ (h.buf q).size → (h.buf p).size ≤ (h.buf q).size)
  lower_bound-best n xs p s e =
      (lower_bound-has n xs p e, lower_bound-le n xs p e, λ q. lower_bound-least n xs p q s e)

  -- Where none is found, every buffer of the set is too small.
  pub lower_bound-none :
      (n : ℕ) (xs : List Ptr) (q : Ptr)
      → lower_bound h n xs ≡ none
      → has q xs ≡ true
      → (h.buf q).size < n
  unfolding lower_bound
  lower_bound-none n [] q e m = cc
  lower_bound-none n (x ∷ xs) q e m = ground (arith, lower_bound-none n xs q)
