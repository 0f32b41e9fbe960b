-- ===== src/Memory/Status/Blocks.antt =====
-- The lists of blocks that MemStatusManager keeps.
use ccbase.Base.{
  ℕ, ◌+◌, ◌%◌, ◌≤◌, ◌<◌, ◌≡◌, refl, inl, inr, some, List, [], ◌∷◌, ◌++◌, arith, ◌==◌, ltb,
  if◌then◌else◌, add64, sub64, size_max, Bool-cases,
}
use ccbase.Memory.Status.{
  BlockPtr, Store, MemStatusManager, do_add_mem_block, add_to_stream, add_mem_block, last_of,
  cal_actual_peak, get_actual_peak,
}

abbrev pub addr_of : Store → BlockPtr → ℕ
addr_of s b = (s.block b).device_addr_base

-- Every block of the list is at the address or behind it.
abbrev pub From : Store → ℕ → List BlockPtr → Type 0
From s a [] = Unit {0}
From s a (x ∷ xs) = (a ≤ addr_of s x) × From s a xs

abbrev pub InOrder : Store → List BlockPtr → Type 0
InOrder s [] = Unit {0}
InOrder s (x ∷ xs) = From s (addr_of s x) xs × InOrder s xs

-- How often a block stands in a list, and in the lists of all streams.
abbrev pub occurs : BlockPtr → List BlockPtr → ℕ
occurs q [] = 0
occurs q (x ∷ xs) = (if x == q then 1 else 0) + occurs q xs

abbrev pub occurs_all : BlockPtr → List (ℕ × List BlockPtr) → ℕ
occurs_all q [] = 0
occurs_all q ((k, l) ∷ m) = occurs q l + occurs_all q m

abbrev pub AllInOrder : Store → List (ℕ × List BlockPtr) → Type 0
AllInOrder s [] = Unit {0}
AllInOrder s ((k, l) ∷ m) = InOrder s l × AllInOrder s m

abbrev pub sizes : Store → List BlockPtr → ℕ
sizes s [] = 0
sizes s (x ∷ xs) = (s.block x).mem_block_size + sizes s xs

-- The lists hold the same blocks, those by address are in order, and the total is their sum.
pub record IsManaged (s : Store) (m : MemStatusManager) : Type 0 where
  pub ordered : InOrder s m.mem_block_list
  pub streams_ordered : AllInOrder s m.mem_blocks
  pub listed : (q : BlockPtr) → occurs q m.mem_block_list ≡ occurs q m.mem_block_insertion_order
  pub in_streams : (q : BlockPtr) → occurs_all q m.mem_blocks ≡ occurs q m.mem_block_insertion_order
  pub summed : m.total_block_size ≡ sizes s m.mem_block_insertion_order % size_max

total-adds : (t n k : ℕ) → t ≡ n % size_max → add64 t k ≡ (k + n) % size_max
unfolding add64
total-adds t n k e = omega arith

module _ (s : Store) (b : BlockPtr) where
  From-le : (a c : ℕ) (xs : List BlockPtr) → a ≤ c → From s c xs → From s a xs
  From-le a c [] l f = tt
  From-le a c (x ∷ xs) l f = (omega (arith, f.0), From-le a c xs l f.1)

  From-add :
      (a : ℕ) (xs : List BlockPtr)
      → a ≤ addr_of s b
      → From s a xs
      → From s a (do_add_mem_block s b xs)
  unfolding do_add_mem_block
  From-add a [] l f = (l, tt)
  From-add a (x ∷ xs) l f = elim (Bool-cases (ltb (addr_of s b) (addr_of s x))) [
    | inl e ↦ rw e (l, f)
    | inr e ↦ rw e (f.0, From-add a xs l f.1)
  ]

  do_add_mem_block-InOrder :
      (xs : List BlockPtr) → InOrder s xs → InOrder s (do_add_mem_block s b xs)
  unfolding do_add_mem_block
  do_add_mem_block-InOrder [] o = (tt, tt)
  do_add_mem_block-InOrder (x ∷ xs) o = elim (Bool-cases (ltb (addr_of s b) (addr_of s x))) [
    | inl e ↦
        let le : addr_of s b ≤ addr_of s x = ground arith in rw e ((le, From-le _ _ xs le o.0), o)
    | inr e ↦ rw e (From-add _ xs (ground arith) o.0, do_add_mem_block-InOrder xs o.1)
  ]

  do_add_mem_block-occurs :
      (q : BlockPtr) (xs : List BlockPtr) → occurs q (do_add_mem_block s b xs) ≡ occurs q (b ∷ xs)
  unfolding do_add_mem_block
  do_add_mem_block-occurs q [] = refl
  do_add_mem_block-occurs q (x ∷ xs) = elim (Bool-cases (ltb (addr_of s b) (addr_of s x))) [
    | inl e ↦ rw e refl
    | inr e ↦ rw e (omega (arith, do_add_mem_block-occurs q xs))
  ]

  add_to_stream-InOrder :
      (i : ℕ) (m : List (ℕ × List BlockPtr)) → AllInOrder s m → AllInOrder s (add_to_stream s b i m)
  unfolding add_to_stream
  add_to_stream-InOrder i [] o = ((tt, tt), tt)
  add_to_stream-InOrder i ((k, l) ∷ m) o = elim (Bool-cases (k == i)) [
    | inl e ↦ rw e (do_add_mem_block-InOrder l o.0, o.1)
    | inr e ↦ rw e (o.0, add_to_stream-InOrder i m o.1)
  ]

  add_to_stream-occurs :
      (q i : ℕ) (m : List (ℕ × List BlockPtr))
      → occurs_all q (add_to_stream s b i m) ≡ (if b == q then 1 else 0) + occurs_all q m
  unfolding add_to_stream
  add_to_stream-occurs q i [] = omega arith
  add_to_stream-occurs q i ((k, l) ∷ m) = elim (Bool-cases (k == i)) [
    | inl e ↦ rw e (omega (arith, do_add_mem_block-occurs q l))
    | inr e ↦ rw e (omega (arith, add_to_stream-occurs q i m))
  ]

  occurs-append : (q : BlockPtr) (xs : List BlockPtr) → occurs q (xs ++ b ∷ []) ≡ occurs q (b ∷ xs)
  occurs-append q [] = refl
  occurs-append q (x ∷ xs) = omega (arith, occurs-append q xs)

  sizes-append : (xs : List BlockPtr) → sizes s (xs ++ b ∷ []) ≡ sizes s (b ∷ xs)
  sizes-append [] = refl
  sizes-append (x ∷ xs) = omega (arith, sizes-append xs)

  last_of-append : (xs : List BlockPtr) → last_of (xs ++ b ∷ []) ≡ some b
  unfolding last_of
  last_of-append [] = refl
  last_of-append (x ∷ xs) = rw (last_of-append xs) refl

  module _ (i : ℕ) (m : MemStatusManager) (v : IsManaged s m) where
    -- Where every list is in the order of addresses, the lists hold the blocks that were added,
    -- and the total size is their sum up to wrap-around, all this still holds after a block of
    -- any address and stream was added.
    pub add_mem_block-IsManaged : IsManaged s (add_mem_block s b i m)
    unfolding add_mem_block
    add_mem_block-IsManaged = record {
      ordered = do_add_mem_block-InOrder _ v.ordered;
      streams_ordered = add_to_stream-InOrder i _ v.streams_ordered;
      listed = λ q. omega (
        arith,
        v.listed q,
        do_add_mem_block-occurs q m.mem_block_list,
        occurs-append q m.mem_block_insertion_order,
      );
      in_streams = λ q. omega (
        arith,
        v.in_streams q,
        add_to_stream-occurs q i m.mem_blocks,
        occurs-append q m.mem_block_insertion_order,
      );
      summed = rw (sizes-append m.mem_block_insertion_order) (total-adds _ _ _ v.summed);
    }

    -- In such a manager, where all sizes together fit a word, the actual peak after a block was
    -- added is the size of all older blocks plus the span between the borders of the new one.
    pub cal_actual_peak-add :
        sizes s m.mem_block_insertion_order + (s.block b).mem_block_size < size_max
        → cal_actual_peak s (add_mem_block s b i m)
          ≡ add64 (sizes s m.mem_block_insertion_order) (get_actual_peak (s.block b))
    unfolding cal_actual_peak add_mem_block add64 sub64
    cal_actual_peak-add small =
        let exact : m.total_block_size ≡ sizes s m.mem_block_insertion_order =
          omega (arith, v.summed) in
        rw (last_of-append m.mem_block_insertion_order, cal_actual_peak, exact) (omega arith)
