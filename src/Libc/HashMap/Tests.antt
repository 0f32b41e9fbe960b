-- ===== src/Libc/HashMap/Tests.antt =====
-- Runs of the map with numbers as keys that are their own hashes.
use ccbase.Base.{ℕ, ◌≤◌, ◌≡◌, ◌⊎◌, refl, Option, none, some, List, [], ◌∷◌, arith}
use native.Mathlib.Decide.{ℕ_discrete}
use ccbase.Libc.HashMap.{RobinHoodHashMap, empty_table, new_map, find, erase_key, insert}
use ccbase.Libc.HashMap.Slots.{IsValid}
use ccbase.Libc.HashMap.Find.{At, Absent, find-At}
use ccbase.Libc.HashMap.Insert.{Inserts}
use ccbase.Libc.HashMap.Resize.{empty-IsValid, insert-Inserts}
use ccbase.Libc.HashMap.Refine.{get, insert_each, assign_all, insert_each-get}

abbrev own : ℕ → ℕ
own k = k

abbrev three_keys : List (ℕ × ℕ)
three_keys = (1, 11) ∷ (0, 10) ∷ (8, 18) ∷ []

insert_each-get_example :
    (m : RobinHoodHashMap ℕ ℕ) × (new_map 8 ≡ some (empty_table {K = ℕ} {V = ℕ} 8))
    × (insert_each own ℕ_discrete three_keys (empty_table 8) ≡ some m)
    × ((q : ℕ) → get own ℕ_discrete q m ≡ some (assign_all ℕ_discrete three_keys (λ _. none) q))
insert_each-get_example = insert_each-get own ℕ_discrete 8 three_keys (omega arith)

abbrev none_yet : RobinHoodHashMap ℕ ℕ
none_yet = empty_table 8

none_yet-IsValid : IsValid own ℕ_discrete none_yet
none_yet-IsValid = empty-IsValid own ℕ_discrete 8 (omega arith)

insert-Inserts_example :
    (m : RobinHoodHashMap ℕ ℕ) × (insert own ℕ_discrete 9 90 none_yet ≡ some m)
    × (8 ≤ m.capacity)
    × Inserts own ℕ_discrete none_yet 9 90 m
insert-Inserts_example = insert-Inserts own ℕ_discrete none_yet none_yet-IsValid 9 90 (omega arith)

find-At_example :
    ((i : ℕ) × (find own ℕ_discrete 9 none_yet ≡ some (some i)) × At own ℕ_discrete none_yet 9 i)
    ⊎ ((find own ℕ_discrete 9 none_yet ≡ some none) × Absent own ℕ_discrete none_yet 9)
find-At_example = find-At own ℕ_discrete none_yet 9 none_yet-IsValid

-- The map with the key 9.
abbrev one_key : RobinHoodHashMap ℕ ℕ
one_key = (insert-Inserts own ℕ_discrete none_yet none_yet-IsValid 9 90 (omega arith)).0

one_key-IsValid : IsValid own ℕ_discrete one_key
one_key-IsValid =
    (insert-Inserts own ℕ_discrete none_yet none_yet-IsValid 9 90 (omega arith)).3.valid

one_key-large : 4 ≤ one_key.capacity
one_key-large =
    let w = insert-Inserts own ℕ_discrete none_yet none_yet-IsValid 9 90 (omega arith) in
    omega (arith, w.2)

-- The keys 9 and 1, which have the same home: the entry of 1 stands behind that of 9.
abbrev two_keys : RobinHoodHashMap ℕ ℕ
two_keys = (insert-Inserts own ℕ_discrete one_key one_key-IsValid 1 11 one_key-large).0

-- The answers of the three keys after the keys of the list are erased in turn.
abbrev after_erasing : List ℕ → Option (RobinHoodHashMap ℕ ℕ) → Option (RobinHoodHashMap ℕ ℕ)
after_erasing [] m = m
after_erasing (k ∷ ks) m = elim m [
  | none ↦ none
  | some m' ↦ elim (erase_key own ℕ_discrete k m') [
    | none ↦ none
    | some (_, m'') ↦ after_erasing ks (some m'')
  ]
]

abbrev reads : ℕ → Option (RobinHoodHashMap ℕ ℕ) → Option (Option ℕ)
reads k m = elim m [ none ↦ none | some m' ↦ get own ℕ_discrete k m' ]

one_is_there : reads 1 (insert_each own ℕ_discrete three_keys none_yet) ≡ some (some 11)
unfolding get insert_each ℕ_discrete
one_is_there = refl

still_there :
    reads 1 (after_erasing (0 ∷ []) (insert_each own ℕ_discrete three_keys none_yet))
    ≡ some (some 11)
unfolding get insert_each erase_key ℕ_discrete
still_there = refl

-- The second erasure moves the entry of key 1 before its home, and `find` misses it.
lost :
    reads 1 (after_erasing (0 ∷ 8 ∷ []) (insert_each own ℕ_discrete three_keys none_yet))
    ≡ some none
unfolding get insert_each erase_key ℕ_discrete
lost = refl
