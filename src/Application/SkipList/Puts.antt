-- ===== src/Application/SkipList/Puts.antt =====
-- About what insert_element of application/src/skiplist.h puts into a list.
use ccbase.Base.{
  ℕ, ◌<◌, ◌≡◌, refl, sym, ap, ◌∙◌, Option, none, some, List, [], ◌∷◌, ◌++◌, length, Option-cases,
  inl, inr,
}
use ccbase.Application.SkipList.{KeyOps, SkipList, bind_some}
use ccbase.Application.SkipList.Change.{random_level, insert_element}
use ccbase.Application.SkipList.Towers.{Tower}
use ccbase.Application.SkipList.Walks.{descend-Found}
use ccbase.Application.SkipList.Order.{
  KeyOrder, smaller, others, lookup, lookup-others, Sorted-others,
}
use ccbase.Application.SkipList.Search.{IsSkipList, parted, reads_next, hits-Sorted}
use ccbase.Application.SkipList.Entries.{entries, put_entry, entries-insert, put-present}
use ccbase.Application.SkipList.Insert.{random_level-le, insert_new-inserts}

-- What insert_element returns: 1 for a key that is there, 0 for one that was put in.
abbrev pub told : Option ℕ → ℕ
told none = 0
told (some b) = 1

-- In a well-formed list, with memory that is not in use for the new node and more rounds than there
-- are nodes, insert_element succeeds with any results of rand. The list is well-formed again, and
-- its keys and values are those of before with the new ones in their place; a key that was there
-- keeps its value, and the result tells which.
pub insert_element-puts :
    {K V : Type 0} {o : KeyOps K} (w : KeyOrder o) {m : SkipList K V} {ts : List (Tower K V)}
    → IsSkipList o m ts
    → (fuel : ℕ) (k : K) (v : V) (n : ℕ) (rands : List ℕ) → length ts < fuel
    → m.tower n ≡ none
    → (m' : SkipList K V) × (ts' : List (Tower K V)) × (insert_element o fuel m k v n rands
        ≡ some (m', told (lookup o k ts)))
      × IsSkipList o m' ts'
      × (entries ts' ≡ put_entry o k v (entries ts))
unfolding insert_element
insert_element-puts {o} w {m} {ts} s fuel k v n rands le free =
    let q = parted w s fuel k le in
    let (u, e, f, g) =
      descend-Found o q m.skip_list_level m.header [] _ (λ i. none) s.levels refl refl in
    let hit =
      hits-Sorted w m.tower k (others o k ts) q.stand.1 q.above (Sorted-others o k ts s.sorted)
      ∙ ap some (sym (lookup-others o w k ts)) in
    elim (Option-cases (lookup o k ts)) [
      | inl y ↦
          let t : Tower _ _ = record {
            at = n;
            key = k;
            value = v;
            height = random_level m.max_level rands;
          } in
          let (m', e', s') =
            insert_new-inserts w s t free y (random_level-le m.max_level rands) u f in
          (
            m',
            smaller o k ts ++ t ∷ others o k ts,
            rw y (
                bind_some _ e (
                  bind_some _ (reads_next w s k)
                    (bind_some _ (hit ∙ ap some y) (bind_some _ e' refl)))),
            s',
            entries-insert o w t ts y,
          )
      | inr (b, y) ↦ (
        m,
        ts,
        rw y (bind_some _ e (bind_some _ (reads_next w s k) (bind_some _ (hit ∙ ap some y) refl))),
        s,
        sym (put-present o w k v b ts s.sorted y),
      )
    ]
