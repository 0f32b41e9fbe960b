-- ===== src/Application/SkipList/Removal.antt =====
-- About the lists of a skip list (application/src/skiplist.h) without one of the nodes.
use ccbase.Base.{
  ℕ, zero, suc, ◌≤◌, ◌≡◌, refl, sym, ap, ◌∙◌, true, false, Option, none, some, List, [], ◌∷◌, ◌++◌,
  ◌==◌, leb, has, All, Distinct, Bool-cases, Option-cases, inl, inr, arith,
}
use ccbase.Application.SkipList.{KeyOps, SkipNode, bind_some}
use ccbase.Application.SkipList.Change.{lower_level}
use ccbase.Application.SkipList.Towers.{
  Tower, Leads, at_level, first_at, places_of, Leads-first, All-append,
}
use ccbase.Application.SkipList.Splices.{places_of-append, neither, nor}
use ccbase.Application.SkipList.Order.{
  KeyOrder, Sorted, others, lookup, All-above, less-same, lookup_above, lookup-others, others-All,
  Sorted-others,
}
use ccbase.Application.SkipList.Entries.{entries, drop_entry, All-join}

module _ {K V : Type 0} where
  empty_level :
      (l : ℕ) (ts : List (Tower K V))
      → All (λ t. t.height ≤ suc l) ts
      → first_at (at_level (suc l) ts) ≡ none
      → All (λ t. t.height ≤ l) ts
  empty_level l [] a e = tt
  empty_level l (t ∷ ts) (p, a) e = elim (Bool-cases (leb (suc l) t.height)) [
    | inl y ↦ absurd (ground arith)
    | inr y ↦ (ground arith, empty_level l ts a (ground arith))
  ]

  -- No node is higher than the level that is left.
  pub lower_level-low :
      (ns : ℕ → Option (SkipNode K V)) (h max l : ℕ) (ts : List (Tower K V))
      → l ≤ max
      → ((i : ℕ) → i ≤ max → Leads ns i h (at_level i ts))
      → All (λ t. t.height ≤ l) ts
      → (l' : ℕ) × (lower_level ns h l ≡ some l') × (l' ≤ l) × All (λ t. t.height ≤ l') ts
  unfolding lower_level
  lower_level-low ns h max zero ts le f a = (0, refl, omega arith, a)
  lower_level-low ns h max (suc l) ts le f a =
      elim (Option-cases (first_at (at_level (suc l) ts))) [
        | inl e ↦
            let (l', g, b, c) =
              lower_level-low ns h max l ts (omega arith) f (empty_level l ts a e) in
            (
              l',
              bind_some _ (Leads-first ns (suc l) h _ (f (suc l) le) ∙ ap some e) g,
              omega arith,
              c,
            )
        | inr (x, e) ↦ (
          suc l,
          bind_some _ (Leads-first ns (suc l) h _ (f (suc l) le) ∙ ap some e) refl,
          omega arith,
          a,
        )
      ]

  pub Distinct-without :
      (h : ℕ) (bs cs : List (Tower K V)) (t : Tower K V)
      → Distinct (h ∷ places_of (bs ++ t ∷ cs))
      → Distinct (h ∷ places_of (bs ++ cs)) × (has t.at (h ∷ places_of (bs ++ cs)) ≡ false)
  Distinct-without h [] cs t (e, (f, d)) =
      let (y, z) = neither (h == t.at) (has h (places_of cs)) e in
      ((z, d), nor (t.at == h) (has t.at (places_of cs)) (ground arith) f)
  Distinct-without h (x ∷ bs) cs t (e, d) =
      let (f, g) = Distinct-without x.at bs cs t d in
      (
        (ground (arith, places_of-append h bs cs, places_of-append h bs (t ∷ cs)), f),
        ground (arith, places_of-append h bs (t ∷ cs)),
      )

module _ {K V : Type 0} (o : KeyOps K) (w : KeyOrder o) where
  pub Sorted-without :
      (bs cs : List (Tower K V)) (t : Tower K V) → Sorted o (bs ++ t ∷ cs) → Sorted o (bs ++ cs)
  Sorted-without [] cs t (p, s) = s
  Sorted-without (x ∷ bs) cs t (p, s) =
      let (a, (b, c)) = All-append (λ u. o.less x.key u.key ≡ true) bs (t ∷ cs) p in
      (All-join o _ bs cs a c, Sorted-without bs cs t s)

  pub entries-without :
      (k : K) (bs cs : List (Tower K V)) (t : Tower K V)
      → All (λ u. o.less u.key k ≡ true) bs
      → o.same t.key k ≡ true
      → entries (bs ++ cs) ≡ drop_entry o k (entries (bs ++ t ∷ cs))
  entries-without k [] cs t a y = rw y refl
  entries-without k (x ∷ bs) cs t (p, a) y =
      rw (less-same o w x.key k p) (ap (λ l. (x.key, x.value) ∷ l) (entries-without k bs cs t a y))

  -- A key that is not there is not taken out.
  pub drop-missing :
      (k : K) (ts : List (Tower K V))
      → lookup o k ts ≡ none
      → drop_entry o k (entries ts) ≡ entries ts
  drop-missing k [] e = refl
  drop-missing k (t ∷ ts) e = elim (Bool-cases (o.same t.key k)) [
    | inl y ↦ absurd (ground arith)
    | inr y ↦ rw y (ap (λ l. (t.key, t.value) ∷ l) (drop-missing k ts (ground arith)))
  ]

  -- The node with the key is the first that is not below it.
  pub lookup-cons :
      (k : K) (b : ℕ) (ts : List (Tower K V))
      → Sorted o ts
      → lookup o k ts ≡ some b
      → (t : Tower K V) × (cs : List (Tower K V)) × (others o k ts ≡ t ∷ cs)
        × (t.at ≡ b)
        × (o.same t.key k ≡ true)
  lookup-cons k b ts s e =
      first_hit (others o k ts) refl (Sorted-others o k ts s) (others-All o w k ts s)
        (sym (lookup-others o w k ts) ∙ e)
    where
      first_hit :
          (us : List (Tower K V))
          → others o k ts ≡ us
          → Sorted o us
          → All (λ u. o.less u.key k ≡ false) us
          → lookup o k us ≡ some b
          → (t : Tower K V) × (cs : List (Tower K V)) × (others o k ts ≡ t ∷ cs)
            × (t.at ≡ b)
            × (o.same t.key k ≡ true)
      first_hit [] f so a g = absurd (ground arith)
      first_hit (t ∷ cs) f (p, so) (z, a) g = elim (Bool-cases (o.same t.key k)) [
        | inl y ↦ (t, cs, f, ground arith, y)
        | inr y ↦
            let lt = w.total t.key k z y in
            let no_other = lookup_above o w k cs (All-above o w k t cs lt p) in
            absurd (ground arith)
      ]
