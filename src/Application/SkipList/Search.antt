-- ===== src/Application/SkipList/Search.antt =====
-- About search_element of application/src/skiplist.h and the well-formed lists.
use ccbase.Base.{
  ==_refl, ℕ, ◌≤◌, ◌<◌, ◌≡◌, refl, sym, ap, subst, ◌∙◌, true, false, Option, some, List, [], ◌∷◌,
  All, Distinct, length, leb, Bool-cases, inl, inr, arith,
}
use ccbase.Application.SkipList.{
  KeyOps, SkipNode, SkipList, read_forward, hits, search_element, new_list, new_node,
}
use ccbase.Application.SkipList.Towers.{
  Tower, Stands, Leads, at_level, last_at, first_at, places_of, Leads-first, Leads-behind,
  at_level-zero, All-append,
}
use ccbase.Application.SkipList.Walks.{Parted, search_down_finds}
use ccbase.Application.SkipList.Order.{
  KeyOrder, Sorted, smaller, others, lookup, smaller-others, length-smaller, smaller-All,
  others-All, lookup-others, Sorted-others, lookup_above, All-above,
}

module _ {K V : Type 0} (o : KeyOps K) where
  -- The nodes behind the header are `ts`, by rising keys, and each level links those that are high
  -- enough.
  pub record IsSkipList (m : SkipList K V) (ts : List (Tower K V)) : Type 0 where
    pub levels : m.skip_list_level ≤ m.max_level
    pub top : (n : SkipNode K V) × (m.tower m.header ≡ some n) × (n.node_level ≡ m.max_level)
    pub leads : (i : ℕ) → i ≤ m.max_level → Leads m.tower i m.header (at_level i ts)
    pub stand : All (Stands m.tower) ts
    pub low : All (λ t. t.height ≤ m.skip_list_level) ts
    pub distinct : Distinct (m.header ∷ places_of ts)
    pub sorted : Sorted o ts
    pub counted : m.element_count ≡ length ts

  -- A list that was constructed.
  new_list-IsSkipList : (max header : ℕ) (k : K) (v : V) → IsSkipList (new_list max header k v) []
  unfolding read_forward
  new_list-IsSkipList max header k v = record {
    levels = omega arith;
    top = (new_node k v max, rw (==_refl header) refl, refl);
    leads = λ i b. let e : leb i max ≡ true = ground arith in rw (==_refl header, e) refl;
    stand = tt;
    low = tt;
    distinct = (refl, tt);
    sorted = tt;
    counted = refl;
  }

module _ {K V : Type 0} {o : KeyOps K} (w : KeyOrder o) {m : SkipList K V} {ts : List (Tower K V)}
    (s : IsSkipList o m ts) where
  pub parted :
      (fuel : ℕ) (k : K)
      → length ts < fuel
      → Parted o fuel m.tower m.header m.max_level k (smaller o k ts) (others o k ts)
  parted fuel k le =
      let e = smaller-others o k ts in
      record {
        enough = omega (arith, length-smaller o k ts);
        leads = λ i b. subst (λ z. Leads m.tower i m.header (at_level i z)) (sym e) (s.leads i b);
        stand =
            All-append (Stands m.tower) (smaller o k ts) (others o k ts)
              (subst (All (Stands m.tower)) (sym e) s.stand);
        below = smaller-All o k ts;
        above = others-All o w k ts s.sorted;
      }

  -- Behind the last node with a key below `k` is the first of the others.
  pub reads_next :
      (k : K)
      → read_forward m.tower (last_at m.header (smaller o k ts)) 0 ≡ some (first_at (others o k ts))
  reads_next k = Leads-first m.tower 0 (last_at m.header (smaller o k ts)) (others o k ts) (
      Leads-behind m.tower 0 m.header (smaller o k ts) (others o k ts) (
        subst (Leads m.tower 0 m.header) (at_level-zero ts ∙ sym (smaller-others o k ts))
          (s.leads 0 (omega arith))))

module _ {K V : Type 0} {o : KeyOps K} (w : KeyOrder o) (ns : ℕ → Option (SkipNode K V)) where
  pub hits-Sorted :
      (k : K) (ts : List (Tower K V))
      → All (Stands ns) ts
      → All (λ t. o.less t.key k ≡ false) ts
      → Sorted o ts
      → hits o ns k (first_at ts) ≡ some (lookup o k ts)
  unfolding hits
  hits-Sorted k [] st a so = refl
  hits-Sorted k (t ∷ ts) ((n, e, f, g, g'), st) (a, rest) (p, so) =
      elim (Bool-cases (o.same t.key k)) [
        | inl y ↦ rw (e, f, y) refl
        | inr y ↦
            rw (e, f, y)
              (ap some (sym (lookup_above o w k ts (All-above o w k t ts (w.total t.key k a y) p))))
      ]

-- In a well-formed list, and with more rounds than there are nodes, search_element finds the node
-- that a search of all nodes in their order finds, or none where that finds none.
pub search_element-lookup :
    {K V : Type 0} {o : KeyOps K} (w : KeyOrder o) {m : SkipList K V} {ts : List (Tower K V)}
    → IsSkipList o m ts
    → (fuel : ℕ) (k : K) → length ts < fuel
    → search_element o fuel m k ≡ some (lookup o k ts)
unfolding search_element
search_element-lookup {o} w {m} {ts} s fuel k le =
    let q = parted w s fuel k le in
    let hit =
      hits-Sorted w m.tower k (others o k ts) q.stand.1 q.above (Sorted-others o k ts s.sorted) in
    rw (search_down_finds o q m.skip_list_level m.header [] _ s.levels refl refl, reads_next w s k)
      (hit ∙ ap some (sym (lookup-others o w k ts)))
