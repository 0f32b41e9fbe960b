-- ===== src/Application/SkipList/Drops.antt =====
-- About what delete_element of application/src/skiplist.h takes out of a list.
use ccbase.Base.{
  ℕ, ◌≤◌, ◌<◌, ◌≡◌, ◌⊎◌, refl, sym, ap, subst, ◌∙◌, Bool, true, false, Option, none, some, List, [],
  ◌∷◌, ◌++◌, ◌||◌, All, length, Bool-cases, Option-cases, List-cases, inl, inr, arith,
}
use ccbase.Application.SkipList.{KeyOps, SkipList, bind_some}
use ccbase.Application.SkipList.Change.{delete_element, delete_found}
use ccbase.Application.SkipList.Towers.{Tower, at_level, last_at}
use ccbase.Application.SkipList.Walks.{descend-Found}
use ccbase.Application.SkipList.Order.{
  KeyOrder, Sorted, smaller, others, lookup, smaller-others, smaller-All, lookup-others,
  Sorted-others,
}
use ccbase.Application.SkipList.Search.{IsSkipList, parted, reads_next, hits-Sorted}
use ccbase.Application.SkipList.Entries.{entries, drop_entry}
use ccbase.Application.SkipList.Delete.{delete_found-drops, delete_found-crashes}
use ccbase.Application.SkipList.Removal.{entries-without, drop-missing, lookup-cons}

-- Is there a key above `k`?
module _ {K V : Type 0} where
  abbrev pub any_above : KeyOps K → K → List (K × V) → Bool
  any_above o k [] = false
  any_above o k ((a, b) ∷ es) = o.less k a || any_above o k es

module _ {K V : Type 0} {o : KeyOps K} (w : KeyOrder o) where
  not_above :
      (k : K) (bs : List (Tower K V)) (es : List (K × V))
      → All (λ x. o.less x.key k ≡ true) bs
      → any_above o k (entries bs ++ es) ≡ any_above o k es
  not_above k [] es a = refl
  not_above k (x ∷ bs) es (p, a) = elim (Bool-cases (o.less k x.key)) [
    | inl y ↦ let f = w.trans k x.key k y p in let g = w.irrefl k in absurd (ground arith)
    | inr y ↦ rw y (not_above k bs es a)
  ]

  entries-append : (xs ys : List (Tower K V)) → entries (xs ++ ys) ≡ entries xs ++ entries ys
  entries-append [] ys = refl
  entries-append (x ∷ xs) ys = ap (λ l. (x.key, x.value) ∷ l) (entries-append xs ys)

  -- The node with the key is the last one if no key is above it, and only then.
  last_one :
      (k : K) (t : Tower K V) (bs cs : List (Tower K V))
      → All (λ x. o.less x.key k ≡ true) bs
      → o.same t.key k ≡ true
      → any_above o k (entries (bs ++ t ∷ cs)) ≡ any_above o k (entries cs)
  last_one k t bs cs a y =
      let f = w.irrefl k in
      let g : o.less k t.key ≡ false =
        subst (λ z. o.less k z ≡ false) (sym (w.same-eq t.key k y)) f in
      ap (any_above o k) (entries-append bs (t ∷ cs)) ∙ not_above k bs _ a ∙ rw g refl

  above_one :
      (k : K) (t c : Tower K V) (cs : List (Tower K V))
      → o.same t.key k ≡ true
      → Sorted o (t ∷ c ∷ cs)
      → any_above o k (entries (c ∷ cs)) ≡ true
  above_one k t c cs y ((p, a), s) =
      let f : o.less k c.key ≡ true = subst (λ z. o.less z c.key ≡ true) (w.same-eq t.key k y) p in
      rw f refl

module _ {K V : Type 0} {o : KeyOps K} (w : KeyOrder o) {m : SkipList K V} {ts : List (Tower K V)}
    (s : IsSkipList o m ts) (fuel : ℕ) (k : K) (le : length ts < fuel) where
  -- delete_element comes to its last part with the node that the search found.
  delete_reaches :
      (u : ℕ → Option ℕ) × ((i : ℕ)
        → i ≤ m.skip_list_level
        → u i ≡ some (last_at m.header (at_level i (smaller o k ts))))
      × (delete_element o fuel m k ≡ delete_found m u (lookup o k ts))
  unfolding delete_element
  delete_reaches =
      let q = parted w s fuel k le in
      let (u, e, f, g) =
        descend-Found o q m.skip_list_level m.header [] _ (λ i. none) s.levels refl refl in
      let hit =
        hits-Sorted w m.tower k (others o k ts) q.stand.1 q.above (Sorted-others o k ts s.sorted)
        ∙ ap some (sym (lookup-others o w k ts)) in
      (u, f, bind_some _ e (bind_some _ (reads_next w s k) (bind_some _ hit refl)))

  -- Behind the node with the key there is another one.
  drops_found :
      (b : ℕ) (t : Tower K V) (cs : List (Tower K V))
      → lookup o k ts ≡ some b
      → smaller o k ts ++ t ∷ cs ≡ ts
      → t.at ≡ b
      → o.same t.key k ≡ true
      → any_above o k (entries ts) ≡ true
      → (m' : SkipList K V) × (ts' : List (Tower K V)) × (delete_element o fuel m k ≡ some m')
        × IsSkipList o m' ts'
        × (entries ts' ≡ drop_entry o k (entries ts))
  drops_found b t [] e whole at y above =
      let f = last_one w k t (smaller o k ts) [] (smaller-All o k ts) y in
      let g = subst (λ z. any_above o k (entries z) ≡ true) (sym whole) above in
      absurd (ground arith)
  drops_found b t (c ∷ cs) e whole at y above =
      let (u, f, g) = delete_reaches in
      let (m', d, s') =
        delete_found-drops w (smaller o k ts) cs t c (subst (IsSkipList o m) (sym whole) s) u f in
      (
        m',
        smaller o k ts ++ c ∷ cs,
        g ∙ ap (delete_found m u) (e ∙ ap some (sym at)) ∙ d,
        s',
        entries-without o w k (smaller o k ts) (c ∷ cs) t (smaller-All o k ts) y
            ∙ ap (λ z. drop_entry o k (entries z)) whole,
      )

-- In a well-formed list, with more rounds than there are nodes, and for a key that is missing or
-- has a greater one behind it, delete_element succeeds. The list is well-formed again, and its keys
-- and values are those of before without the key.
pub delete_element-drops :
    {K V : Type 0} {o : KeyOps K} (w : KeyOrder o) {m : SkipList K V} {ts : List (Tower K V)}
    → IsSkipList o m ts
    → (fuel : ℕ) (k : K) → length ts < fuel
    → (lookup o k ts ≡ none) ⊎ (any_above o k (entries ts) ≡ true)
    → (m' : SkipList K V) × (ts' : List (Tower K V)) × (delete_element o fuel m k ≡ some m')
      × IsSkipList o m' ts'
      × (entries ts' ≡ drop_entry o k (entries ts))
delete_element-drops {o} w {m} {ts} s fuel k le (inl e) =
    let (u, f, g) = delete_reaches w s fuel k le in
    (m, ts, g ∙ ap (delete_found m u) e, s, sym (drop-missing o w k ts e))
delete_element-drops {o} w {m} {ts} s fuel k le (inr above) = elim (Option-cases (lookup o k ts)) [
  | inl e ↦
      let (u, f, g) = delete_reaches w s fuel k le in
      (m, ts, g ∙ ap (delete_found m u) e, s, sym (drop-missing o w k ts e))
  | inr (b, e) ↦
      let (t, cs, f, at, y) = lookup-cons o w k b ts s.sorted e in
      drops_found w s fuel k le b t cs e
        (sym (ap (λ z. smaller o k ts ++ z) f) ∙ smaller-others o k ts) at y above
]

-- The bug: for the greatest key of a well-formed list, delete_element writes through NULL.
pub delete_element-crashes :
    {K V : Type 0} {o : KeyOps K} (w : KeyOrder o) {m : SkipList K V} {ts : List (Tower K V)}
    → IsSkipList o m ts
    → (fuel : ℕ) (k : K) (b : ℕ) → length ts < fuel
    → lookup o k ts ≡ some b
    → any_above o k (entries ts) ≡ false
    → delete_element o fuel m k ≡ none
delete_element-crashes {o} w {m} {ts} s fuel k b le e above =
    let (t, cs, f, at, y) = lookup-cons o w k b ts s.sorted e in
    let whole = sym (ap (λ z. smaller o k ts ++ z) f) ∙ smaller-others o k ts in
    let (u, g, h) = delete_reaches w s fuel k le in
    elim (List-cases cs) [
      | inl last ↦
          h
          ∙ ap (delete_found m u) (e ∙ ap some (sym at))
          ∙ delete_found-crashes (smaller o k ts) t
              (subst (IsSkipList o m) (sym whole ∙ ap (λ z. smaller o k ts ++ t ∷ z) last) s) u g
      | inr (c, cs', more) ↦
          let so = subst (Sorted o) (f ∙ ap (λ z. t ∷ z) more) (Sorted-others o k ts s.sorted) in
          let yes_above = above_one w k t c cs' y so in
          let same_above =
            ap (λ z. any_above o k (entries z)) (sym whole)
            ∙ last_one w k t (smaller o k ts) cs (smaller-All o k ts) y
            ∙ ap (λ z. any_above o k (entries z)) more in
          absurd (ground arith)
    ]
