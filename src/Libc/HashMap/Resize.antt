-- ===== src/Libc/HashMap/Resize.antt =====
-- About `insert` with its resize.
use ccbase.Base.{
  ℕ, zero, suc, ◌+◌, ◌*◌, ◌≤◌, ◌<◌, ◌≡◌, inl, inr, refl, sym, ◌∙◌, ap, subst, false, Option, none,
  some, arith, ◌==◌, leb, Bool-cases, Option-cases,
}
use mathlib.Core.Option.{some-injective}
use native.Mathlib.Nat.{mod-lt}
use ccbase.Libc.HashMap.{
  Entry, RobinHoodHashMap, is_loaded, empty_table, move_entries, resize_table, insert_here,
  insert_at, insert,
}
use ccbase.Libc.HashMap.Slots.{occupied, Has, IsPlaced-unique, IsValid}
use ccbase.Libc.HashMap.Insert.{Inserts, insert_here-Inserts}

module _ {K V : Type 0} where
  occupied-empty : (t : ℕ → Option (Entry K V)) (n : ℕ) → ((i : ℕ) → t i ≡ none) → occupied t n ≡ 0
  occupied-empty t zero free = refl
  occupied-empty t (suc n) free = rw (free n) (omega (arith, occupied-empty t n free))

  occupied-le : (t : ℕ → Option (Entry K V)) (n : ℕ) → occupied t n ≤ n
  occupied-le t zero = omega arith
  occupied-le t (suc n) = ground (arith, occupied-le t n)

module _ {K V : Type 0} (hasher : K → ℕ) (same : Discrete K) where
  pub empty-IsValid : (n : ℕ) → 0 < n → IsValid {V = V} hasher same (empty_table n)
  empty-IsValid n pos = record {
    placed = record {
      near = λ i e b s. cc;
      way = λ i e b s. cc;
      home_lt = λ k. mod-lt (hasher k) pos;
    };
    counted = sym (occupied-empty (empty_table {K = K} {V = V} n).table n (λ i. refl));
    sparse = pos;
  }

  insert_at-roomy :
      (d : ℕ) (k : K) (v : V) (m : RobinHoodHashMap K V)
      → is_loaded m ≡ false
      → insert_at hasher same (suc d) k v m ≡ insert_here hasher same k v m
  unfolding insert_at
  insert_at-roomy d k v m free = rw free

  module _ (m : RobinHoodHashMap K V) (valid : IsValid hasher same m) where
    -- An old entry below the index.
    abbrev Below : ℕ → K → V → Type 0
    Below i q u =
        (j : ℕ) × (e : Entry K V) × (j < i) × (m.table j ≡ some e) × (e.key ≡ q) × (e.value ≡ u)

    Below-Has : (q : K) (u : V) → Below m.capacity q u → Has hasher same m q u
    Below-Has q u (i, e, b, s, x, y) = (i, e, b, s, x, y)

    -- The new table holds what was moved so far.
    record Moves (i : ℕ) (t : RobinHoodHashMap K V) : Type 0 where
      valid_new : IsValid hasher same t
      doubled : t.capacity ≡ m.capacity * 2
      few : t.size ≤ occupied m.table i
      to : (q : K) (u : V) → Has hasher same t q u → Below i q u
      from : (q : K) (u : V) → Below i q u → Has hasher same t q u

    skip : (i : ℕ) (t : RobinHoodHashMap K V) → m.table i ≡ none → Moves i t → Moves (suc i) t
    skip i t free w = record {
      valid_new = w.valid_new;
      doubled = w.doubled;
      few = ground (arith, w.few);
      to = λ q u h. (let (j, e, l, s, k, v) = w.to q u h in (j, e, omega arith, s, k, v));
      from = λ q u (j, e, l, s, k, v). elim (Bool-cases (j == i)) [
        | inr other ↦ w.from q u (j, e, ground arith, s, k, v)
        | inl here ↦
            let at : j ≡ i = ground arith in
            let bad : none ≡ some e = sym free ∙ ap m.table (sym at) ∙ s in cc
      ];
    }

    gain :
        (i : ℕ) (e : Entry K V) (t t' : RobinHoodHashMap K V)
        → i < m.capacity
        → m.table i ≡ some e
        → Moves i t
        → t'.capacity ≡ t.capacity
        → Inserts hasher same t e.key e.value t'
        → Moves (suc i) t'
    gain i e t t' b full w cap g = record {
      valid_new = g.valid;
      doubled = cap ∙ w.doubled;
      few = ground (arith, w.few, g.grows);
      to = λ q u h. elim (g.to q u h) [
        | inl is ↦ (i, e, omega arith, full, is.0, is.1)
        | inr old ↦ (let (j, d, l, s, k, v) = w.to q u old.1 in (j, d, omega arith, s, k, v))
      ];
      from = λ q u (j, d, l, s, k, v). elim (Bool-cases (j == i)) [
        | inl here ↦
            let at : j ≡ i = ground arith in
            let one : e ≡ d = some-injective _ _ (sym full ∙ ap m.table (sym at) ∙ s) in
            subst (λ x. Has hasher same t' x u) (ap (λ z. z.key) one ∙ k)
              (subst (λ x. Has hasher same t' e.key x) (ap (λ z. z.value) one ∙ v) g.own)
        | inr there ↦
            let l' : j < i = ground arith in
            g.other q u
              (λ r.
                (let j_i =
                    IsPlaced-unique hasher same m j i d e valid.placed (omega arith) b s full
                      (k ∙ sym r) in
                  absurd (ground arith)))
              (w.from q u (j, d, l', s, k, v))
      ];
    }

    move-Moves :
        (n i : ℕ) (t : RobinHoodHashMap K V)
        → i + n ≡ m.capacity
        → Moves i t
        → (t' : RobinHoodHashMap K V) × (move_entries (insert_at hasher same 1) m.table n i t
            ≡ some t')
          × Moves m.capacity t'
    unfolding move_entries
    move-Moves zero i t e w = (t, refl, subst (λ x. Moves x t) (omega arith) w)
    move-Moves (suc n) i t e w = elim (Option-cases (m.table i)) [
      | inl free ↦
          let (t', run, w') =
            move-Moves n (i + 1) t (omega arith)
              (subst (λ x. Moves x t) (omega arith) (skip i t free w)) in
          (t', rw (free, move_entries) run, w')
      | inr (x, full) ↦
          let not_loaded : is_loaded t ≡ false =
            ground (arith, w.few, w.doubled, occupied-le m.table i) in
          let (t₁, run₁, cap, g) =
            insert_here-Inserts hasher same t x.key x.value w.valid_new
              (omega (arith, w.few, w.doubled, occupied-le m.table i)) in
          let (t', run, w') =
            move-Moves n (i + 1) t₁ (omega arith)
              (subst (λ y. Moves y t₁) (omega arith) (gain i x t t₁ (omega arith) full w cap g)) in
          (t', rw (full, move_entries, insert_at-roomy 0 x.key x.value t not_loaded, run₁) run, w')
    ]

    -- The new table has twice the capacity and the same contents.
    resize_table-Moves :
        (t : RobinHoodHashMap K V) × (resize_table (insert_at hasher same 1) (m.capacity * 2) m
          ≡ some t)
        × Moves m.capacity t
    unfolding resize_table
    resize_table-Moves =
        let larger : leb (m.capacity * 2) m.capacity ≡ false = ground (arith, valid.sparse) in
        let start : Moves 0 (empty_table (m.capacity * 2)) = record {
          valid_new = empty-IsValid (m.capacity * 2) (omega (arith, valid.sparse));
          doubled = refl;
          few = omega arith;
          to = λ q u (j, e, l, s, k, v). cc;
          from = λ q u (j, e, l, s, k, v). absurd (omega arith);
        } in
        let (t, run, w) =
          move-Moves m.capacity 0 (empty_table (m.capacity * 2)) (omega arith) start in
        (t, rw larger run, w)

    -- In a well-formed map of capacity 4 or more, `insert` ends, and gives a well-formed map that has
    -- the value under the key, under every other key what it had, and nothing else.
    pub insert-Inserts :
        (k : K) (v : V)
        → 4 ≤ m.capacity
        → (m' : RobinHoodHashMap K V) × (insert hasher same k v m ≡ some m')
          × (m.capacity ≤ m'.capacity)
          × Inserts hasher same m k v m'
    unfolding insert insert_at
    insert-Inserts k v large = elim (Bool-cases (is_loaded m)) [
      | inr roomy ↦
          let (m', run, cap, g) = insert_here-Inserts hasher same m k v valid (ground arith) in
          (m', rw roomy run, omega (arith, cap), g)
      | inl loaded ↦
          let (t, grown, w) = resize_table-Moves in
          let fits : t.size + 1 < t.capacity =
            omega (arith, w.few, w.doubled, occupied-le m.table m.capacity) in
          let (m', run, cap, g) = insert_here-Inserts hasher same t k v w.valid_new fits in
          (
            m',
            rw (loaded, grown) run,
            omega (arith, cap, w.doubled),
            record {
              valid = g.valid;
              grows = omega (arith, g.grows, w.few, valid.counted);
              to = λ q u h. elim (g.to q u h) [
                | inl is ↦ inl is
                | inr old ↦ inr (old.0, Below-Has q u (w.to q u old.1))
              ];
              own = g.own;
              other = λ q u ne (i, e, b, s, x, y). g.other q u ne (w.from q u (i, e, b, s, x, y));
            },
          )
    ]
