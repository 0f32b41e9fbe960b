-- ===== src/Libc/HashMap/Slots.antt =====
-- The invariant of the table.
use ccbase.Base.{
  ℕ, zero, suc, ◌+◌, ◌≤◌, ◌<◌, ◌≡◌, ◌≢◌, inl, inr, refl, sym, ◌∙◌, ap, Option, none, some, arith,
  ◌==◌, leb, if◌then◌else◌, Bool-cases, Option-cases,
}
use ccbase.Libc.HashMap.{Entry, RobinHoodHashMap, set_entry, hash}
use ccbase.Libc.HashMap.Ring.{dist, dist-inj}

module _ {K V : Type 0} where
  -- The number of occupied entries below an index.
  abbrev pub occupied : (ℕ → Option (Entry K V)) → ℕ → ℕ
  occupied t zero = 0
  occupied t (suc n) = (elim (t n) [ none ↦ 0 | some e ↦ 1 ]) + occupied t n

  pub occupied-set_entry_new :
      (t : ℕ → Option (Entry K V)) (i n : ℕ) (e : Entry K V)
      → t i ≡ none
      → occupied (set_entry t i (some e)) n ≡ occupied t n + (if leb (suc i) n then 1 else 0)
  occupied-set_entry_new t i zero e free = ground arith
  occupied-set_entry_new t i (suc n) e free = elim (Bool-cases (n == i)) [
    | inl here ↦
        let same : n ≡ i = ground arith in
        let gone : t n ≡ none = ap t same ∙ free in
        rw (here, gone) (ground (arith, occupied-set_entry_new t i n e free))
    | inr other ↦ rw other (ground (arith, occupied-set_entry_new t i n e free))
  ]

  pub occupied-set_entry :
      (t : ℕ → Option (Entry K V)) (i n : ℕ) (y e : Entry K V)
      → t i ≡ some y
      → occupied (set_entry t i (some e)) n ≡ occupied t n
  occupied-set_entry t i zero y e full = refl
  occupied-set_entry t i (suc n) y e full = elim (Bool-cases (n == i)) [
    | inl here ↦
        let same : n ≡ i = ground arith in
        let there : t n ≡ some y = ap t same ∙ full in
        rw (here, there) (ground (arith, occupied-set_entry t i n y e full))
    | inr other ↦ rw other (ground (arith, occupied-set_entry t i n y e full))
  ]

  -- Where fewer than all entries are occupied, one is not.
  pub free_slot :
      (t : ℕ → Option (Entry K V)) (n : ℕ) → occupied t n < n → (i : ℕ) × (i < n) × (t i ≡ none)
  free_slot t zero l = absurd (omega arith)
  free_slot t (suc n) l = elim (Option-cases (t n)) [
    | inl free ↦ (n, omega arith, free)
    | inr (e, full) ↦
        let less : occupied t n < n = ground arith in
        let (i, b, free) = free_slot t n less in (i, omega arith, free)
  ]

  -- An entry that the search for `k` passes, `d` steps from the key's home.
  abbrev pub Passed : K → (d : ℕ) → Option (Entry K V) → Type 0
  Passed k d none = ⊥
  Passed k d (some e) = (e.key ≢ k) × (d ≤ e.probe_distance)

  -- Every index from the home `h` of `k` up to `i` is passed.
  abbrev pub Passage : (t : ℕ → Option (Entry K V)) (n h : ℕ) → K → (i : ℕ) → Type 0
  Passage t n h k i = (j : ℕ) → j < n → dist n h j < dist n h i → Passed k (dist n h j) (t j)

module _ {K V : Type 0} (hasher : K → ℕ) (same : Discrete K) where
  abbrev pub home : RobinHoodHashMap K V → K → ℕ
  home m k = hash hasher same m k

  -- Each entry is on the way from its home, at most its probe distance away.
  pub record IsPlaced (m : RobinHoodHashMap K V) : Type 0 where
    pub near :
        (i : ℕ) (e : Entry K V)
        → i < m.capacity
        → m.table i ≡ some e
        → dist m.capacity (home m e.key) i ≤ e.probe_distance
    pub way :
        (i : ℕ) (e : Entry K V)
        → i < m.capacity
        → m.table i ≡ some e
        → Passage m.table m.capacity (home m e.key) e.key i
    pub home_lt : (k : K) → home m k < m.capacity

  -- The map is well-formed: `size` counts the entries, and one at least is free.
  pub record IsValid (m : RobinHoodHashMap K V) : Type 0 where
    pub placed : IsPlaced m
    pub counted : m.size ≡ occupied m.table m.capacity
    pub sparse : m.size < m.capacity

  -- The key has the value.
  abbrev pub Has : RobinHoodHashMap K V → K → V → Type 0
  Has m k v =
      (i : ℕ) × (e : Entry K V) × (i < m.capacity)
      × (m.table i ≡ some e)
      × (e.key ≡ k)
      × (e.value ≡ v)

  -- A key stands at one index only.
  pub IsPlaced-unique :
      (m : RobinHoodHashMap K V) (i j : ℕ) (e d : Entry K V)
      → IsPlaced m
      → i < m.capacity
      → j < m.capacity
      → m.table i ≡ some e
      → m.table j ≡ some d
      → e.key ≡ d.key
      → i ≡ j
  IsPlaced-unique m i j e d p a b s r k =
      let n = m.capacity in
      let h = home m e.key in
      let same_home : home m d.key ≡ h = ap (home m) (sym k) in
      let after : dist n h i < dist n h j → ⊥ = λ l.
        let w : Passed d.key (dist n (home m d.key) i) (m.table i) =
          p.way j d b r i a (rw same_home l) in
        let w' : Passed d.key (dist n (home m d.key) i) (some e) = rw s at w in w'.0 k in
      let before : dist n h j < dist n h i → ⊥ = λ l.
        let w : Passed e.key (dist n h j) (m.table j) = p.way i e a s j b l in
        let w' : Passed e.key (dist n h j) (some d) = rw r at w in w'.0 (sym k) in
      dist-inj n h i j (p.home_lt e.key) a b (ground arith)
