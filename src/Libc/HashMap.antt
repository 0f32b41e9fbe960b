-- ===== src/Libc/HashMap.antt =====
-- RobinHoodHashMap of libc/map.h: open addressing with probe distances.
pub mod Ring
pub mod Slots
pub mod Find
pub mod Place
pub mod Loop
pub mod Update
pub mod Insert
pub mod Resize
pub mod Refine
pub mod Shift
pub mod Erase
mod Tests
use ccbase.Base.{
  ℕ, zero, suc, ◌+◌, ◌-◌, ◌*◌, ◌%◌, ◌≡◌, Bool, true, false, Option, none, some, ◌==◌, ltb, leb,
  if◌then◌else◌, sub64,
}
use mathlib.Core.Logic.{ite}

-- An occupied `Entry`. What an entry holds that is not occupied is never read.
pub record Entry {ℓ} (K V : Type ℓ) : Type ℓ where
  pub key : K
  pub value : V
  pub probe_distance : ℕ

-- `table` is read at the indices below `capacity`; `none` is an entry that is not occupied.
pub record RobinHoodHashMap {ℓ} (K V : Type ℓ) : Type ℓ where
  pub table : ℕ → Option (Entry K V)
  pub capacity : ℕ
  pub size : ℕ

abbrev pub set_entry {ℓ} : {A : Type ℓ} → (ℕ → A) → ℕ → A → ℕ → A
set_entry t i v = λ j. if j == i then v else t j

-- The index behind `idx` in the ring.
unfoldable pub next_index : (capacity idx : ℕ) → ℕ
next_index capacity idx = (idx + 1) % capacity

-- `load_factor() >= max_load_factor_`, that is size / capacity ≥ 3 / 4.
abbrev pub is_loaded {ℓ} : {K V : Type ℓ} → RobinHoodHashMap K V → Bool
is_loaded m = leb (3 * m.capacity) (4 * m.size)

module _ {ℓ} {K V : Type ℓ} where
  abbrev pub new_entry : K → V → Entry K V
  new_entry k v = record { key = k; value = v; probe_distance = 0 }

  abbrev pub empty_table : (capacity : ℕ) → RobinHoodHashMap K V
  empty_table n = record { table = λ _. none; capacity = n; size = 0 }

  -- Each occupied entry of the old table from `i` on goes into the new one.
  unfoldable pub move_entries :
      (K → V → RobinHoodHashMap K V → Option (RobinHoodHashMap K V))
      → (ℕ → Option (Entry K V))
      → (count i : ℕ) → RobinHoodHashMap K V
      → Option (RobinHoodHashMap K V)
  move_entries ins old zero i m = some m
  move_entries ins old (suc n) i m = elim (old i) [
    | none ↦ move_entries ins old n (i + 1) m
    | some e ↦ elim (ins e.key e.value m) [
      | none ↦ none
      | some m' ↦ move_entries ins old n (i + 1) m'
    ]
  ]

  -- The constructor; a capacity of 0 is an exception.
  unfoldable pub new_map : (initial_capacity : ℕ) → Option (RobinHoodHashMap K V)
  new_map n = if n == 0 then none else some (empty_table n)

  -- `resize_table`, with the `insert` that it calls.
  unfoldable pub resize_table :
      (K → V → RobinHoodHashMap K V → Option (RobinHoodHashMap K V))
      → (new_capacity : ℕ) → RobinHoodHashMap K V
      → Option (RobinHoodHashMap K V)
  unfolding move_entries
  resize_table ins n m =
      if leb n m.capacity then some m else move_entries ins m.table m.capacity 0 (empty_table n)

  -- The entries behind an erased one move back.
  unfoldable pub shift_back : (fuel idx : ℕ) → RobinHoodHashMap K V → Option (RobinHoodHashMap K V)
  unfolding next_index
  shift_back zero idx m = none
  shift_back (suc f) idx m =
      let i = next_index m.capacity idx in
      elim (m.table i) [
        | none ↦ some m
        | some y ↦
            let moved =
              set_entry m.table idx (some (record y { probe_distance = y.probe_distance - 1 })) in
            let rest = shift_back f i (record m { table = set_entry moved i none }) in
            if ltb 0 y.probe_distance then rest else some m
      ]

-- `hasher` is `std::hash` of the key type, and `same` its `==`.
module _ {ℓ} {K V : Type ℓ} (hasher : K → ℕ) (same : Discrete K) where
  abbrev pub hash : RobinHoodHashMap K V → K → ℕ
  hash m k = hasher k % m.capacity

  -- The loop of `insert`: `x` is `new_entry`, and the two swaps are written out. `none` is a loop
  -- that has not ended within the fuel.
  unfoldable pub place :
      (fuel : ℕ)
      → K
      → V
      → (x : Entry K V) (idx current_probe : ℕ) → RobinHoodHashMap K V
      → Option (RobinHoodHashMap K V)
  unfolding next_index
  place zero k v x idx c m = none
  place (suc f) k v x idx c m = elim (m.table idx) [
    | none ↦ some (record m { table = set_entry m.table idx (some x); size = m.size + 1 })
    | some y ↦
        let i = next_index m.capacity idx in
        let swapped =
          place f k v (record y { probe_distance = x.probe_distance + 1 }) i (x.probe_distance + 1)
            (record m { table = set_entry m.table idx (some (record x { probe_distance = c })) }) in
        let kept = place f k v (record x { probe_distance = c + 1 }) i (c + 1) m in
        ite (same y.key k)
          (some (record m { table = set_entry m.table idx (some (record y { value = v })) }))
          (if ltb y.probe_distance c then swapped else kept)
  ]

  -- `insert` when the table is not resized; the loop passes each index once.
  unfoldable pub insert_here : K → V → RobinHoodHashMap K V → Option (RobinHoodHashMap K V)
  unfolding place
  insert_here k v m = place m.capacity k v (new_entry k v) (hash m k) 0 m

  -- `insert` and `resize_table` call one another; `depth` bounds how often.
  unfoldable pub insert_at :
      (depth : ℕ) → K → V → RobinHoodHashMap K V → Option (RobinHoodHashMap K V)
  unfolding insert_here resize_table
  insert_at zero k v m = none
  insert_at (suc d) k v m =
      let grown = resize_table (insert_at d) (m.capacity * 2) m in
      if is_loaded m
      then elim grown [ none ↦ none | some m' ↦ insert_here k v m' ]
      else insert_here k v m

  unfoldable pub insert : K → V → RobinHoodHashMap K V → Option (RobinHoodHashMap K V)
  unfolding insert_at
  insert = insert_at 2

  -- The loop of `find`; the outer `none` is a loop that has not ended within the fuel.
  unfoldable pub probe :
      (fuel : ℕ) → K → (idx current_probe : ℕ) → RobinHoodHashMap K V → Option (Option ℕ)
  unfolding next_index
  probe zero k idx c m = none
  probe (suc f) k idx c m = elim (m.table idx) [
    | none ↦ some none
    | some y ↦
        let rest = probe f k (next_index m.capacity idx) (c + 1) m in
        ite (same y.key k) (some (some idx)) (if ltb y.probe_distance c then some none else rest)
  ]

  -- The pointer that `find` returns, as the index whose value it points to.
  unfoldable pub find : K → RobinHoodHashMap K V → Option (Option ℕ)
  unfolding probe
  find k m = probe (m.capacity + 1) k (hash m k) 0 m

  unfoldable pub erase_key : K → RobinHoodHashMap K V → Option (Bool × RobinHoodHashMap K V)
  unfolding find shift_back
  erase_key k m = elim (find k m) [
    | none ↦ none
    | some none ↦ some (false, m)
    | some (some i) ↦
        elim (shift_back m.capacity i
          (record m { table = set_entry m.table i none; size = sub64 m.size 1 })) [
            | none ↦ none
            | some m' ↦ some (true, m')
          ]
  ]
