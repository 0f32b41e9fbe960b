-- ===== src/Application/SkipList/Walks.antt =====
-- About the search of application/src/skiplist.h, level by level.
use ccbase.Base.{
  ℕ, zero, suc, ◌≤◌, ◌<◌, ◌≡◌, refl, sym, ap, ◌∙◌, subst, true, false, Option, some, List, [], ◌∷◌,
  ◌++◌, ◌==◌, leb, All, length, Bool-cases, inl, inr, arith, length-append,
}
use mathlib.Core.List.{append_assoc}
use ccbase.Application.SkipList.{KeyOps, SkipNode, at_index, walk, descend, search_down}
use ccbase.Application.SkipList.Towers.{
  Tower, Stands, Leads, at_level, last_at, at_level-append, at_level-Lower, All-at_level,
  Leads-behind, length-at_level, last_at-append, All-append, at_level-zero,
}

module _ {K V : Type 0} (o : KeyOps K) where
  -- The list begins with no key below `k`.
  abbrev pub Stops : K → List (Tower K V) → Type 0
  Stops k [] = Unit {0}
  Stops k (t ∷ ts) = o.less t.key k ≡ false

  pub walk-Stops :
      (fuel : ℕ) (ns : ℕ → Option (SkipNode K V)) (i : ℕ) (k : K) (c : ℕ) (xs ys : List (Tower K V))
      → length xs < fuel
      → Leads ns i c (xs ++ ys)
      → All (Stands ns) xs
      → All (Stands ns) ys
      → All (λ t. o.less t.key k ≡ true) xs
      → Stops k ys
      → walk o fuel ns i k c ≡ some (last_at c xs)
  unfolding walk
  walk-Stops zero ns i k c xs ys le l sx sy a st = absurd (omega arith)
  walk-Stops (suc fuel) ns i k c [] [] le l sx sy a st = rw l refl
  walk-Stops (suc fuel) ns i k c [] (t ∷ ys) le (l, rest) sx ((n, e, f, g, g'), sy) a st =
      rw (l, e, f, st) refl
  walk-Stops (suc fuel) ns i k c (t ∷ xs) ys le (l, rest) ((n, e, f, g, g'), sx) sy (b, a) st =
      rw (l, e, f, b) (walk-Stops fuel ns i k t.at xs ys (omega arith) rest sx sy a st)

  pub Stops-All :
      (i : ℕ) (k : K) (ts : List (Tower K V))
      → All (λ t. o.less t.key k ≡ false) ts
      → Stops k (at_level i ts)
  Stops-All i k [] a = tt
  Stops-All i k (t ∷ ts) (p, a) = elim (Bool-cases (leb i t.height)) [
    | inl e ↦ rw e p
    | inr e ↦ rw e (Stops-All i k ts a)
  ]

  -- The nodes `bs` with the keys below `k` and the others, behind the header `h`.
  pub record Parted (fuel : ℕ) (ns : ℕ → Option (SkipNode K V)) (h top : ℕ) (k : K)
      (bs cs : List (Tower K V)) : Type 0 where
    pub enough : length bs < fuel
    pub leads : (i : ℕ) → i ≤ top → Leads ns i h (at_level i (bs ++ cs))
    pub stand : All (Stands ns) bs × All (Stands ns) cs
    pub below : All (λ t. o.less t.key k ≡ true) bs
    pub above : All (λ t. o.less t.key k ≡ false) cs

module _ {K V : Type 0} (o : KeyOps K) {fuel : ℕ} {ns : ℕ → Option (SkipNode K V)} {h top : ℕ}
    {k : K} {bs cs : List (Tower K V)} (q : Parted o fuel ns h top k bs cs) where
  walk_level :
      (i : ℕ) (xs ys : List (Tower K V))
      → i ≤ top
      → at_level i bs ≡ xs ++ ys
      → walk o fuel ns i k (last_at h xs) ≡ some (last_at h (at_level i bs))
  walk_level i xs ys le e =
      let l : Leads ns i h (xs ++ (ys ++ at_level i cs)) =
        subst (Leads ns i h)
          (at_level-append i bs cs ∙ ap (λ z. z ++ at_level i cs) e ∙ append_assoc xs ys _)
          (q.leads i le) in
      let s = subst (All (Stands ns)) e (All-at_level (Stands ns) i bs q.stand.0) in
      let a = subst (All (λ t. o.less t.key k ≡ true)) e (All-at_level _ i bs q.below) in
      let f : length ys < fuel =
        omega (arith, ap length e, length-append xs ys, length-at_level i bs, q.enough) in
      walk-Stops o fuel ns i k (last_at h xs) ys (at_level i cs) f
        (Leads-behind ns i h xs (ys ++ at_level i cs) l) (All-append _ xs ys s).1
        (All-at_level _ i cs q.stand.1) (All-append _ xs ys a).1 (Stops-All o i k cs q.above)
      ∙ ap some (sym (last_at-append h xs ys) ∙ ap (last_at h) (sym e))

  -- The search ends at the last node with a key below `k`, and `update` has the last one of each
  -- level.
  abbrev pub Found : ℕ → ℕ → (ℕ → Option ℕ) → Type 0
  Found i c u =
      (u' : ℕ → Option ℕ) × (descend o fuel ns i k c u ≡ some (last_at h bs, u'))
      × ((j : ℕ) → j ≤ i → u' j ≡ some (last_at h (at_level j bs)))
      × ((j : ℕ) → i < j → u' j ≡ u j)

  pub descend-Found :
      (i c : ℕ) (xs ys : List (Tower K V)) (u : ℕ → Option ℕ)
      → i ≤ top
      → at_level i bs ≡ xs ++ ys
      → c ≡ last_at h xs
      → Found i c u
  unfolding descend
  descend-Found zero c xs ys u le e d =
      let b : at_level 0 bs ≡ bs = at_level-zero bs in
      (
        at_index u 0 (some (last_at h bs)),
        rw (d, walk_level 0 xs ys le e, b) refl,
        λ j le'.
            let j_zero : 0 ≡ j = omega arith in
            subst (λ z. at_index u 0 (some (last_at h bs)) z ≡ some (last_at h (at_level z bs)))
              j_zero (ap (λ z. some (last_at h z)) (sym b)),
        λ j lt. ground arith,
      )
  descend-Found (suc i) c xs ys u le e d =
      let (xs', ys', e', f) = at_level-Lower i bs in
      let c' = last_at h (at_level (suc i) bs) in
      let v = at_index u (suc i) (some c') in
      let (u', g, y, z) = descend-Found i c' xs' ys' v (omega arith) e' (f h) in
      let top_one : v (suc i) ≡ some c' = ground arith in
      (
        u',
        rw (d, walk_level (suc i) xs ys le e) g,
        λ j le'. elim (Bool-cases (j == suc i)) [
          | inl b ↦
              let j_top : suc i ≡ j = ground arith in
              subst (λ w. u' w ≡ some (last_at h (at_level w bs))) j_top
                (z (suc i) (omega arith) ∙ top_one)
          | inr b ↦ y j (ground arith)
        ],
        λ j lt. z j (omega arith) ∙ ground arith,
      )

  pub search_down_finds :
      (i c : ℕ) (xs ys : List (Tower K V))
      → i ≤ top
      → at_level i bs ≡ xs ++ ys
      → c ≡ last_at h xs
      → search_down o fuel ns i k c ≡ some (last_at h bs)
  unfolding search_down
  search_down_finds zero c xs ys le e d = rw (d, walk_level 0 xs ys le e, at_level-zero bs) refl
  search_down_finds (suc i) c xs ys le e d =
      let (xs', ys', e', f) = at_level-Lower i bs in
      rw (d, walk_level (suc i) xs ys le e)
        (search_down_finds i (last_at h (at_level (suc i) bs)) xs' ys' (omega arith) e' (f h))
