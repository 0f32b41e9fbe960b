-- ===== src/Libc/HashMap/Erase.antt =====
-- About `erase`: which entries are left.
use ccbase.Base.{ℕ, ◌<◌, ◌≡◌, ◌≢◌, ◌↔◌, none, some, sub64}
use ccbase.Libc.HashMap.{Entry, RobinHoodHashMap, set_entry}
use ccbase.Libc.HashMap.Slots.{Has, IsValid}
use ccbase.Libc.HashMap.Shift.{Shifted}

module _ {K V : Type 0} (hasher : K → ℕ) (same : Discrete K) where
  -- The two maps hold the same keys with the same values.
  abbrev pub SameContents : RobinHoodHashMap K V → RobinHoodHashMap K V → Type 0
  SameContents m m' = (q : K) (u : V) → Has hasher same m q u ↔ Has hasher same m' q u

  module _ (m : RobinHoodHashMap K V) (idx i : ℕ) (y : Entry K V) (pd : ℕ)
      (hole : m.table idx ≡ none) (full : m.table i ≡ some y) (in_range : idx < m.capacity)
      (i_lt : i < m.capacity) where
    abbrev pub moved : RobinHoodHashMap K V
    moved = record m {
      table = set_entry (set_entry m.table idx (some (record y { probe_distance = pd }))) i none;
    }

  -- What the erasure of a key leaves: no entry with that key, an entry for every other key with its
  -- value, the size one less, and each index as the entries' moves leave it.
  pub record Erases (m : RobinHoodHashMap K V) (k : K) (m' : RobinHoodHashMap K V) : Type 0 where
    pub fewer : m'.size ≡ sub64 m.size 1
    pub gone : (u : V) → Has hasher same m' k u → ⊥
    pub others : (q : K) (u : V) → k ≢ q → Has hasher same m q u ↔ Has hasher same m' q u
    pub shifted :
        (hole : ℕ) × (e : Entry K V) × (m.table hole ≡ some e)
        × (e.key ≡ k)
        × ((j : ℕ) → j < m.capacity → Shifted m hole m' j)

  module _ (m : RobinHoodHashMap K V) (k : K) (valid : IsValid hasher same m) where
    module _ (i : ℕ) (e : Entry K V) (b : i < m.capacity) (full : m.table i ≡ some e)
        (hit : e.key ≡ k) where
      abbrev unset : RobinHoodHashMap K V
      unset = record m { table = set_entry m.table i none; size = sub64 m.size 1 }
