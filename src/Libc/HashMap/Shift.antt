-- ===== src/Libc/HashMap/Shift.antt =====
-- About the loop of `erase` that moves entries back: what stands at each index afterwards.
use ccbase.Base.{
  ℕ, zero, suc, ◌+◌, ◌-◌, ◌≤◌, ◌<◌, ◌≡◌, ◌≢◌, ◌⊎◌, inl, inr, refl, sym, ◌∙◌, ap, subst, false, none,
  some, arith, ◌==◌, ltb, Bool-cases, Option-cases, Option,
}
use mathlib.Core.Option.{some-injective}
use ccbase.Libc.HashMap.{Entry, RobinHoodHashMap, set_entry, next_index, shift_back}
use ccbase.Libc.HashMap.Ring.{dist, next_index-lt, dist-towards}

module _ {K V : Type 0} where
  -- A place from which nothing is moved: an empty one, or an entry at its home.
  abbrev pub Stays : Option (Entry K V) → Type 0
  Stays s = (s ≡ none) ⊎ ((y : Entry K V) × (s ≡ some y) × (y.probe_distance ≡ 0))

  -- An entry that is not at its home.
  abbrev pub Displaced : Option (Entry K V) → Type 0
  Displaced s = (y : Entry K V) × (s ≡ some y) × 0 < y.probe_distance

  -- The index holds the entry of the next index, which was not at its home and is one nearer now; or
  -- it is empty, the next index has no entry to move, and it was the hole or gave its entry away.
  abbrev pub Filled : RobinHoodHashMap K V → (hole : ℕ) → RobinHoodHashMap K V → ℕ → Type 0
  Filled m hole m' j =
      ((y : Entry K V) × (m.table (next_index m.capacity j) ≡ some y)
        × 0 < y.probe_distance
        × (m'.table j ≡ some (record y { probe_distance = y.probe_distance - 1 })))
      ⊎ ((m'.table j ≡ none)
          × Stays (m.table (next_index m.capacity j))
          × ((j ≡ hole) ⊎ Displaced (m.table j)))

  -- An index other than the hole that holds what it held, or one that is filled.
  abbrev pub Shifted : RobinHoodHashMap K V → (hole : ℕ) → RobinHoodHashMap K V → ℕ → Type 0
  Shifted m hole m' j = ((j ≢ hole) × (m'.table j ≡ m.table j)) ⊎ Filled m hole m' j

  -- The filled indices lie between the hole and an index that was empty.
  abbrev Between : (e0 : ℕ) → RobinHoodHashMap K V → (hole : ℕ) → RobinHoodHashMap K V → ℕ → Type 0
  Between e0 m hole m' j =
      ((j ≢ hole) × (m'.table j ≡ m.table j))
      ⊎ ((j ≢ e0) × dist m.capacity j e0 ≤ dist m.capacity hole e0 × Filled m hole m' j)

  none-some : {y : Entry K V} → none ≡ some y → ⊥
  none-some e = cc

  ends-Between :
      (e0 idx : ℕ) (m : RobinHoodHashMap K V)
      → m.table idx ≡ none
      → idx ≢ e0
      → Stays (m.table (next_index m.capacity idx))
      → (j : ℕ) → Between e0 m idx m j
  ends-Between e0 idx m hole ne stays j = elim (Bool-cases (j == idx)) [
    | inr other ↦ inl ((λ e. ground (arith, e)), refl)
    | inl here ↦
        let at : idx ≡ j = ground arith in
        subst (λ z. Between e0 m idx m z) at (inr (ne, omega arith, inr (hole, stays, inl refl)))
  ]

  -- After one entry was moved back from `i` to `idx`, the rest goes on from `i`.
  module _ (e0 idx : ℕ) (m m' : RobinHoodHashMap K V) (y : Entry K V) (a : idx < m.capacity)
      (b : e0 < m.capacity) (hole : m.table idx ≡ none) (ne : idx ≢ e0)
      (full : m.table (next_index m.capacity idx) ≡ some y) (on : 0 < y.probe_distance) where
    abbrev i : ℕ
    i = next_index m.capacity idx

    abbrev pub back : RobinHoodHashMap K V
    back = record m {
      table =
          set_entry
            (set_entry m.table idx (some (record y { probe_distance = y.probe_distance - 1 }))) i
            none;
    }

    nearer : dist m.capacity i e0 + 1 ≡ dist m.capacity idx e0
    nearer = dist-towards m.capacity e0 idx b a ne

    -- An index that is filled is not the one before `idx` or `i`.
    not_before :
        (j : ℕ)
        → j < m.capacity
        → j ≢ e0
        → dist m.capacity j e0 ≤ dist m.capacity i e0
        → ((j == idx) ≡ false)
          × ((next_index m.capacity j == idx) ≡ false)
          × ((next_index m.capacity j == i) ≡ false)
    not_before j j_lt off le = (
      (elim (Bool-cases (j == idx)) [
        | inr other ↦ other
        | inl here ↦
            let at : j ≡ idx = ground arith in
            let d = ap (λ z. dist m.capacity z e0) at in absurd (omega (arith, nearer, le, d))
      ]),
      (elim (Bool-cases (next_index m.capacity j == idx)) [
        | inr other ↦ other
        | inl here ↦
            let at : next_index m.capacity j ≡ idx = ground arith in
            let d = ap (λ z. dist m.capacity z e0) at in
            absurd (omega (arith, nearer, le, d, dist-towards m.capacity e0 j b j_lt off))
      ]),
      elim (Bool-cases (next_index m.capacity j == i)) [
        | inr other ↦ other
        | inl here ↦
            let at : next_index m.capacity j ≡ i = ground arith in
            let d = ap (λ z. dist m.capacity z e0) at in
            absurd (omega (arith, le, d, dist-towards m.capacity e0 j b j_lt off))
      ],
    )

    back-Between : (j : ℕ) → j < m.capacity → Between e0 back i m' j → Between e0 m idx m' j
    back-Between j j_lt (inl (off, same)) =
        let off_i : (j == i) ≡ false = ground (arith, off) in
        elim (Bool-cases (j == idx)) [
          | inr other ↦ inl ((λ e. ground (arith, e)), rw (off_i, other) at same)
          | inl here ↦
              let at : j ≡ idx = ground arith in
              let d = ap (λ z. dist m.capacity z e0) at in
              inr (
                (λ e. ne (sym at ∙ e)),
                omega (arith, d),
                inl (
                  y,
                  ap (λ z. m.table (next_index m.capacity z)) at ∙ full,
                  on,
                  rw (off_i, here) at same,
                ),
              )
        ]
    back-Between j j_lt (inr (off, le, inl (z, at, pos, now))) =
        let (n1, n2, n3) = not_before j j_lt off le in
        inr (off, omega (arith, le, nearer), inl (z, rw (n2, n3) at at, pos, now))
    back-Between j j_lt (inr (off, le, inr (gone, stays, was))) =
        let (n1, n2, n3) = not_before j j_lt off le in
        inr (
          off,
          omega (arith, le, nearer),
          inr (
            gone,
            rw (n2, n3) at stays,
            inr (elim was [
              | inl e ↦ (y, ap m.table e ∙ full, on)
              | inr (z, s, pos) ↦ elim (Bool-cases (j == i)) [
                | inl here ↦ absurd (none-some (rw here at s))
                | inr there ↦ (z, rw (there, n1) at s, pos)
              ]
            ]),
          ),
        )

  shift_back-Between :
      (f idx e0 : ℕ) (m m' : RobinHoodHashMap K V)
      → idx < m.capacity
      → e0 < m.capacity
      → m.table idx ≡ none
      → m.table e0 ≡ none
      → idx ≢ e0
      → shift_back f idx m ≡ some m'
      → (j : ℕ) → j < m.capacity
      → Between e0 m idx m' j
  unfolding shift_back
  shift_back-Between zero idx e0 m m' a b hole free ne run j j_lt = cc
  shift_back-Between (suc f) idx e0 m m' a b hole free ne run j j_lt =
      let i = next_index m.capacity idx in
      elim (Option-cases (m.table i)) [
        | inl ends ↦
            let one : m ≡ m' = some-injective _ _ (rw (ends, shift_back) at run) in
            subst (λ z. Between e0 m idx z j) one (ends-Between e0 idx m hole ne (inl ends) j)
        | inr (y, full) ↦ elim (Bool-cases (ltb 0 y.probe_distance)) [
          | inr home ↦
              let one : m ≡ m' = some-injective _ _ (rw (full, shift_back, home) at run) in
              subst (λ z. Between e0 m idx z j) one
                (ends-Between e0 idx m hole ne (inr (y, full, ground (arith, home))) j)
          | inl on ↦
              let ne_i : i ≢ e0 = λ e. none-some (sym free ∙ ap m.table (sym e) ∙ full) in
              let m₂ = back e0 idx m m' y a b hole ne full (ground (arith, on)) in
              back-Between e0 idx m m' y a b hole ne full (ground (arith, on)) j j_lt (
                shift_back-Between f i e0 m₂ m' (next_index-lt m.capacity idx a) b (ground arith)
                  (ground (arith, free, ne, ne_i)) ne_i (rw (full, shift_back, on) at run) j j_lt)
        ]
      ]

  -- An index between the hole and an empty index is not the one before the hole.
  not_hole :
      (hole e0 : ℕ) (m : RobinHoodHashMap K V)
      → hole < m.capacity
      → e0 < m.capacity
      → (j : ℕ) → j < m.capacity
      → j ≢ e0
      → dist m.capacity j e0 ≤ dist m.capacity hole e0
      → (next_index m.capacity j == hole) ≡ false
  not_hole hole e0 m a b j j_lt off le = elim (Bool-cases (next_index m.capacity j == hole)) [
    | inr other ↦ other
    | inl here ↦
        let at : next_index m.capacity j ≡ hole = ground arith in
        let d = ap (λ z. dist m.capacity z e0) at in
        absurd (omega (arith, le, d, dist-towards m.capacity e0 j b j_lt off))
  ]

  -- What `erase` leaves of the map `m` once the entry at `hole` is unset and the loop has run.
  pub unset-Shifted :
      (f hole e0 n : ℕ) (m m' : RobinHoodHashMap K V) (e : Entry K V)
      → hole < m.capacity
      → e0 < m.capacity
      → m.table hole ≡ some e
      → m.table e0 ≡ none
      → shift_back f hole (record m { table = set_entry m.table hole none; size = n }) ≡ some m'
      → (j : ℕ) → j < m.capacity
      → Shifted m hole m' j
  unset-Shifted f hole e0 n m m' e a b full free run j j_lt =
      let m₂ : RobinHoodHashMap K V = record m { table = set_entry m.table hole none; size = n } in
      let ne : hole ≢ e0 = λ z. none-some (sym free ∙ ap m.table (sym z) ∙ full) in
      elim (shift_back-Between f hole e0 m₂ m' a b (ground arith) (ground (arith, free)) ne run j
        j_lt) [
          | inl (off, same) ↦
              let off_i : (j == hole) ≡ false = ground (arith, off) in inl (off, rw off_i at same)
          | inr (off, le, inl (z, at, pos, now)) ↦
              let n1 = not_hole hole e0 m a b j j_lt off le in inr (inl (z, rw n1 at at, pos, now))
          | inr (off, le, inr (gone, stays, was)) ↦
              let n1 = not_hole hole e0 m a b j j_lt off le in
              inr (
                inr (
                  gone,
                  rw n1 at stays,
                  (elim was [
                    | inl here ↦ inl here
                    | inr (z, s, pos) ↦ elim (Bool-cases (j == hole)) [
                      | inl here ↦ inl (ground arith)
                      | inr there ↦ inr (z, rw there at s, pos)
                    ]
                  ]),
                ))
        ]
