-- ===== src/Application/SkipList/Change.antt =====
-- insert_element and delete_element of application/src/skiplist.h.
use ccbase.Base.{
  ℕ, zero, suc, ◌+◌, ◌-◌, ◌%◌, Option, none, some, List, [], ◌∷◌, ◌==◌, leb, ltb, if◌then◌else◌,
  ◌&&◌,
}
use ccbase.Application.SkipList.{
  ◌>>=◌, KeyOps, SkipNode, SkipList, at_index, new_node, read_forward, write_forward, write_prev,
  descend, hits,
}

-- One more than the odd numbers that `rand` gives before an even one.
abbrev pub count_odd : List ℕ → ℕ
count_odd [] = 1
count_odd (r ∷ rs) = let rest = count_odd rs in if r % 2 == 0 then 1 else suc rest

-- get_random_level, with the results of the calls of `rand`.
abbrev pub random_level : ℕ → List ℕ → ℕ
random_level max rands = let k = count_odd rands in if ltb k max then k else max

module _ {K V : Type 0} where
  -- `update[i] = _header` for the levels above that of the list.
  abbrev pub raise_update : SkipList K V → ℕ → (ℕ → Option ℕ) → ℕ → Option ℕ
  raise_update m r update i = if ltb m.skip_list_level i && leb i r then some m.header else update i

  -- `inserted->forward[i] = update[i]->forward[i]; update[i]->forward[i] = inserted`
  unfoldable pub link_level :
      (ℕ → Option (SkipNode K V)) → ℕ → (ℕ → Option ℕ) → ℕ → Option (ℕ → Option (SkipNode K V))
  link_level ns n update i = update i >>= λ x.
      read_forward ns x i >>= λ p. write_forward ns n i p >>= λ ns'. write_forward ns' x i (some n)

  -- `if (update[0]->forward[0] != NULL) update[0]->prev = inserted`
  abbrev pub set_prev_of :
      (ℕ → Option (SkipNode K V)) → ℕ → ℕ → Option ℕ → Option (ℕ → Option (SkipNode K V))
  set_prev_of ns n x none = some ns
  set_prev_of ns n x (some b) = write_prev ns x (some n)

  -- Level 0, with `prev`.
  unfoldable pub link_bottom :
      (ℕ → Option (SkipNode K V)) → ℕ → (ℕ → Option ℕ) → Option (ℕ → Option (SkipNode K V))
  link_bottom ns n update = update 0 >>= λ x. read_forward ns x 0 >>= λ p.
      write_forward ns n 0 p >>= λ ns₁. set_prev_of ns₁ n x p >>= λ ns₂.
      write_forward ns₂ x 0 (some n) >>= λ ns₃. write_prev ns₃ n (some x)

  -- Levels 0 to `r`, from below.
  unfoldable pub link_levels :
      (ℕ → Option (SkipNode K V)) → ℕ → (ℕ → Option ℕ) → ℕ → Option (ℕ → Option (SkipNode K V))
  link_levels ns n update zero = link_bottom ns n update
  link_levels ns n update (suc r) =
      link_levels ns n update r >>= λ ns'. link_level ns' n update (suc r)

  -- The part of insert_element for a key that is not in the list; `n` is what `new` gave.
  unfoldable pub insert_new : SkipList K V → K → V → ℕ → ℕ → (ℕ → Option ℕ) → Option (SkipList K V)
  insert_new m k v n r update =
      link_levels (at_index m.tower n (some (new_node k v r))) n (raise_update m r update) r
      >>= λ ns. some (record m {
        skip_list_level = if ltb m.skip_list_level r then r else m.skip_list_level;
        tower = ns;
        element_count = m.element_count + 1;
      })

  abbrev pub insert_missing :
      SkipList K V → K → V → ℕ → List ℕ → (ℕ → Option ℕ) → Option ℕ → Option (SkipList K V × ℕ)
  insert_missing m k v n rands update (some b) = some (m, 1)
  insert_missing m k v n rands update none =
      insert_new m k v n (random_level m.max_level rands) update >>= λ m'. some (m', 0)

  -- `update[i]->forward[i] = current->forward[i]` from level `i` on, for `count` levels, up to the
  -- first that does not lead to `current`.
  unfoldable pub unlink :
      ℕ → (ℕ → Option (SkipNode K V)) → ℕ → (ℕ → Option ℕ) → ℕ → Option (ℕ → Option (SkipNode K V))
  unlink zero ns b update i = some ns
  unlink (suc count) ns b update i = update i >>= λ x. read_forward ns x i >>= λ p. elim p [
    | none ↦ some ns
    | some y ↦
        if y == b
        then (read_forward ns b i >>= λ q.
            write_forward ns x i q >>= λ ns'. unlink count ns' b update (suc i))
        else some ns
  ]

  -- The levels without elements are removed.
  unfoldable pub lower_level : (ℕ → Option (SkipNode K V)) → ℕ → ℕ → Option ℕ
  lower_level ns header zero = some 0
  lower_level ns header (suc level) = read_forward ns header (suc level) >>= λ p. elim p [
    | none ↦ lower_level ns header level
    | some b ↦ some (suc level)
  ]

  -- `if (next != _header) next->prev = current->prev`
  unfoldable pub mend_prev :
      (ℕ → Option (SkipNode K V)) → ℕ → ℕ → Option ℕ → Option (ℕ → Option (SkipNode K V))
  mend_prev ns header b none = none
  mend_prev ns header b (some next) =
      if next == header then some ns else (ns b >>= λ n. write_prev ns next n.prev)

  abbrev pub delete_found : SkipList K V → (ℕ → Option ℕ) → Option ℕ → Option (SkipList K V)
  delete_found m update none = some m
  delete_found m update (some b) = unlink (suc m.skip_list_level) m.tower b update 0 >>= λ ns.
      lower_level ns m.header m.skip_list_level >>= λ level. read_forward ns b 0 >>= λ next.
      mend_prev ns m.header b next >>= λ ns'. some (record m {
        skip_list_level = level;
        tower = at_index ns' b none;
        element_count = m.element_count - 1;
      })

  module _ (o : KeyOps K) where
    -- The result 1 is for a key that was there, 0 for one that was put in.
    unfoldable pub insert_element :
        ℕ → SkipList K V → K → V → ℕ → List ℕ → Option (SkipList K V × ℕ)
    insert_element fuel m k v n rands =
        descend o fuel m.tower m.skip_list_level k m.header (λ i. none) >>= λ r.
        read_forward m.tower r.0 0 >>= λ p.
        hits o m.tower k p >>= λ found. insert_missing m k v n rands r.1 found

    unfoldable pub delete_element : ℕ → SkipList K V → K → Option (SkipList K V)
    delete_element fuel m k =
        descend o fuel m.tower m.skip_list_level k m.header (λ i. none) >>= λ r.
        read_forward m.tower r.0 0 >>= λ p. hits o m.tower k p >>= λ found. delete_found m r.1 found
