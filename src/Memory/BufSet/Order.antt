-- ===== src/Memory/BufSet/Order.antt =====
-- The order of the set is kept by its operations.
use ccbase.Base.{◌≡◌, true, List, [], ◌∷◌, arith, has}
use ccbase.Memory.Heap.{Ptr, MemBuf, Heap}
use ccbase.Memory.BufSet.{less, emplace, erase, erase_at}

-- Every element comes behind `b`.
abbrev pub Above : Heap → MemBuf → List Ptr → Type 0
Above h b [] = Unit {0}
Above h b (x ∷ xs) = (less b (h.buf x) ≡ true) × Above h b xs

abbrev pub Sorted : Heap → List Ptr → Type 0
Sorted h [] = Unit {0}
Sorted h (x ∷ xs) = Above h (h.buf x) xs × Sorted h xs

-- The two heaps give the elements the same keys.
abbrev pub SameKeys : Heap → Heap → List Ptr → Type 0
SameKeys h g xs =
    (x : Ptr)
    → has x xs ≡ true
    → ((g.buf x).size ≡ (h.buf x).size) × ((g.buf x).addr ≡ (h.buf x).addr)

less_trans : (a b c : MemBuf) → less a b ≡ true → less b c ≡ true → less a c ≡ true
less_trans a b c p q = ground arith

module _ (h : Heap) where
  pub Above-mono : (a b : MemBuf) (xs : List Ptr) → less a b ≡ true → Above h b xs → Above h a xs
  Above-mono a b [] l u = tt
  Above-mono a b (x ∷ xs) l u = (less_trans a b (h.buf x) l u.0, Above-mono a b xs l u.1)

  pub Above-has :
      (b : MemBuf) (xs : List Ptr) (q : Ptr)
      → Above h b xs
      → has q xs ≡ true
      → less b (h.buf q) ≡ true
  Above-has b [] q u m = cc
  Above-has b (x ∷ xs) q u m = ground (arith, Above-has b xs q)

  Above-emplace :
      (b : MemBuf) (p : Ptr) (xs : List Ptr)
      → less b (h.buf p) ≡ true
      → Above h b xs
      → Above h b (emplace h p xs)
  unfolding emplace
  Above-emplace b p [] l u = (l, tt)
  Above-emplace b p (x ∷ xs) l u = ground (arith, Above-emplace b p xs)

  Above-erase : (b : MemBuf) (p : Ptr) (xs : List Ptr) → Above h b xs → Above h b (erase h p xs)
  unfolding erase
  Above-erase b p [] u = tt
  Above-erase b p (x ∷ xs) u = ground (arith, Above-erase b p xs)

  Above-erase_at : (b : MemBuf) (p : Ptr) (xs : List Ptr) → Above h b xs → Above h b (erase_at p xs)
  unfolding erase_at
  Above-erase_at b p [] u = tt
  Above-erase_at b p (x ∷ xs) u = ground (arith, Above-erase_at b p xs)

  pub emplace-Sorted : (p : Ptr) (xs : List Ptr) → Sorted h xs → Sorted h (emplace h p xs)
  unfolding emplace
  emplace-Sorted p [] s = (tt, tt)
  emplace-Sorted p (x ∷ xs) s =
      ground (
        arith,
        emplace-Sorted p xs,
        Above-emplace (h.buf x) p xs,
        Above-mono (h.buf p) (h.buf x) xs,
      )

  pub erase-Sorted : (p : Ptr) (xs : List Ptr) → Sorted h xs → Sorted h (erase h p xs)
  unfolding erase
  erase-Sorted p [] s = tt
  erase-Sorted p (x ∷ xs) s = ground (arith, erase-Sorted p xs, Above-erase (h.buf x) p xs)

  pub erase_at-Sorted : (p : Ptr) (xs : List Ptr) → Sorted h xs → Sorted h (erase_at p xs)
  unfolding erase_at
  erase_at-Sorted p [] s = tt
  erase_at-Sorted p (x ∷ xs) s = ground (arith, erase_at-Sorted p xs, Above-erase_at (h.buf x) p xs)

  Above-congr :
      (g : Heap) (b c : MemBuf) (xs : List Ptr)
      → SameKeys h g xs
      → c.size ≡ b.size
      → c.addr ≡ b.addr
      → Above h b xs
      → Above g c xs
  Above-congr g b c [] same e f u = tt
  Above-congr g b c (x ∷ xs) same e f u =
      (ground (arith, same x), Above-congr g b c xs (λ y m. same y (ground arith)) e f u.1)

  -- The order rests on the keys of the elements alone.
  pub Sorted-congr : (g : Heap) (xs : List Ptr) → SameKeys h g xs → Sorted h xs → Sorted g xs
  Sorted-congr g [] same s = tt
  Sorted-congr g (x ∷ xs) same s =
      let k = same x (ground arith) in
      let tail : SameKeys h g xs = λ y m. same y (ground arith) in
      (Above-congr g (h.buf x) (g.buf x) xs tail k.0 k.1 s.0, Sorted-congr g xs tail s.1)
