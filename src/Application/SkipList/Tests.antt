-- ===== src/Application/SkipList/Tests.antt =====
-- The skip list of application/src/skiplist.h on small lists with numbers as keys.
use ccbase.Base.{
  ℕ, zero, suc, ◌≤◌, ◌≡◌, inr, refl, Option, none, some, List, [], ◌∷◌, ◌==◌, ltb, has,
  if◌then◌else◌, arith,
}
use ccbase.Application.SkipList.{
  KeyOps, SkipNode, SkipList, ◌>>=◌, new_list, read_forward, write_forward, write_prev, walk,
  descend, search_down, hits, search_element,
}
use ccbase.Application.SkipList.Change.{
  insert_element, insert_new, link_levels, link_level, link_bottom, delete_element,
}
use ccbase.Application.SkipList.Towers.{Tower, Leads, at_level, places_of}
use ccbase.Application.SkipList.Order.{KeyOrder, lookup}
use ccbase.Application.SkipList.Search.{IsSkipList, search_element-lookup}
use ccbase.Application.SkipList.Entries.{entries, put_entry, drop_entry}
use ccbase.Application.SkipList.Puts.{told, insert_element-puts}
use ccbase.Application.SkipList.Whole.{dump_file, destruct, dump_file-entries, destruct-frees}
use ccbase.Application.SkipList.Drops.{delete_element-drops, delete_element-crashes}

abbrev numbers : KeyOps ℕ
numbers = record { less = ltb; same = ◌==◌ }

numbers-KeyOrder : KeyOrder numbers
numbers-KeyOrder = record {
  irrefl = λ a. ground arith;
  trans = λ a b c e f. ground arith;
  total = λ a b e f. ground arith;
  same-eq = λ a b e. ground arith;
  same-refl = λ a. ground arith;
}

abbrev insert_into : Option (SkipList ℕ ℕ × ℕ) → ℕ → ℕ → ℕ → List ℕ → Option (SkipList ℕ ℕ × ℕ)
unfolding insert_element
insert_into r k v n rands = r >>= λ p. insert_element numbers 9 p.0 k v n rands

-- 5, then 3 two levels high, then 5 again
abbrev run_two : Option (SkipList ℕ ℕ × ℕ)
run_two =
    insert_into
      (insert_into (insert_into (some (new_list 2 100 0 0, 0)) 5 50 7 (0 ∷ [])) 3 30 8 (1 ∷ 0 ∷ []))
      5 99 9 []

run_two_search : (run_two >>= λ p. search_element numbers 9 p.0 5) ≡ some (some 7)
unfolding insert_element search_element insert_new link_levels link_level link_bottom walk descend
    search_down hits read_forward write_forward write_prev
run_two_search = refl

abbrev forward_to : Option ℕ → Option ℕ → Option ℕ → ℕ → Option ℕ
forward_to a b c zero = a
forward_to a b c (suc zero) = b
forward_to a b c (suc (suc i)) = c

abbrev two_nodes : ℕ → Option (SkipNode ℕ ℕ)
two_nodes zero = some (record {
  key = 0;
  value = 0;
  node_level = 2;
  forward = forward_to (some 1) (some 1) (some 1);
  prev = none;
})
two_nodes (suc zero) = some (record {
  key = 3;
  value = 30;
  node_level = 2;
  forward = forward_to (some 2) (some 2) none;
  prev = some 0;
})
two_nodes (suc (suc zero)) = some (record {
  key = 5;
  value = 50;
  node_level = 1;
  forward = forward_to none none none;
  prev = some 0;
})
two_nodes (suc (suc (suc a))) = none

abbrev two_keys : SkipList ℕ ℕ
two_keys = record {
  max_level = 2;
  skip_list_level = 2;
  header = 0;
  tower = two_nodes;
  element_count = 2;
}

abbrev two_towers : List (Tower ℕ ℕ)
two_towers =
    record { at = 1; key = 3; value = 30; height = 2 }
    ∷ record { at = 2; key = 5; value = 50; height = 1 }
    ∷ []

two_leads : (i : ℕ) → i ≤ 2 → Leads two_nodes i 0 (at_level i two_towers)
unfolding read_forward
two_leads zero b = (refl, (refl, refl))
two_leads (suc zero) b = (refl, (refl, refl))
two_leads (suc (suc zero)) b = (refl, refl)
two_leads (suc (suc (suc i))) b = absurd (omega arith)

two_keys-IsSkipList : IsSkipList numbers two_keys two_towers
two_keys-IsSkipList = record {
  levels = omega arith;
  top = (_, refl, refl);
  leads = two_leads;
  stand = ((_, refl, refl, refl, refl), ((_, refl, refl, refl, refl), tt));
  low = (omega arith, (omega arith, tt));
  distinct = (refl, (refl, (refl, tt)));
  sorted = ((refl, tt), (tt, tt));
  counted = refl;
}

search_element-lookup_example :
    search_element numbers 9 two_keys 5 ≡ some (lookup numbers 5 two_towers)
search_element-lookup_example =
    search_element-lookup numbers-KeyOrder two_keys-IsSkipList 9 5 (omega arith)

insert_element-puts_example :
    (m' : SkipList ℕ ℕ) × (ts' : List (Tower ℕ ℕ)) × (insert_element numbers 9 two_keys 4 40 7
        (1 ∷ 0 ∷ [])
      ≡ some (m', told (lookup numbers 4 two_towers)))
    × IsSkipList numbers m' ts'
    × (entries ts' ≡ put_entry numbers 4 40 (entries two_towers))
insert_element-puts_example =
    insert_element-puts numbers-KeyOrder two_keys-IsSkipList 9 4 40 7 (1 ∷ 0 ∷ []) (omega arith)
      refl

delete_element-drops_example :
    (m' : SkipList ℕ ℕ) × (ts' : List (Tower ℕ ℕ)) × (delete_element numbers 9 two_keys 3 ≡ some m')
    × IsSkipList numbers m' ts'
    × (entries ts' ≡ drop_entry numbers 3 (entries two_towers))
delete_element-drops_example =
    delete_element-drops numbers-KeyOrder two_keys-IsSkipList 9 3 (omega arith) (inr refl)

delete_element-crashes_example : delete_element numbers 9 two_keys 5 ≡ none
delete_element-crashes_example =
    delete_element-crashes numbers-KeyOrder two_keys-IsSkipList 9 5 2 (omega arith) refl refl

dump_file-entries_example : dump_file 2 two_keys ≡ some (entries two_towers)
dump_file-entries_example = dump_file-entries two_keys-IsSkipList 2 (omega arith)

destruct-frees_example :
    (ns : ℕ → Option (SkipNode ℕ ℕ)) × (destruct 2 two_keys ≡ some ns)
    × ((a : ℕ) → ns a ≡ (if has a (0 ∷ places_of two_towers) then none else two_nodes a))
destruct-frees_example = destruct-frees two_keys-IsSkipList 2 (omega arith)
