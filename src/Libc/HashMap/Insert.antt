-- ===== src/Libc/HashMap/Insert.antt =====
-- About `insert` without a resize.
use ccbase.Base.{
  ℕ, ◌+◌, ◌≤◌, ◌<◌, ◌≡◌, ◌≢◌, ◌⊎◌, inl, inr, refl, sym, ◌∙◌, ap, true, some, arith, ◌==◌,
  Bool-cases,
}
use mathlib.Core.Option.{some-injective}
use ccbase.Libc.HashMap.{Entry, RobinHoodHashMap, new_entry, insert_here}
use ccbase.Libc.HashMap.Ring.{dist, dist-lt}
use ccbase.Libc.HashMap.Slots.{occupied-set_entry, free_slot, home, Has, IsPlaced-unique, IsValid}
use ccbase.Libc.HashMap.Find.{At, Absent, At-cases}
use ccbase.Libc.HashMap.Place.{put, InHand}
use ccbase.Libc.HashMap.Loop.{place-Gains}
use ccbase.Libc.HashMap.Update.{updated-IsPlaced, place-updates}

module _ {K V : Type 0} (hasher : K → ℕ) (same : Discrete K) where
  -- `m'` is `m` with the value written under the key.
  pub record Inserts (m : RobinHoodHashMap K V) (k : K) (v : V) (m' : RobinHoodHashMap K V)
      : Type 0 where
    pub valid : IsValid hasher same m'
    pub grows : m'.size ≤ m.size + 1
    pub to :
        (q : K) (u : V)
        → Has hasher same m' q u
        → ((k ≡ q) × (v ≡ u)) ⊎ ((k ≢ q) × Has hasher same m q u)
    pub own : Has hasher same m' k v
    pub other : (q : K) (u : V) → k ≢ q → Has hasher same m q u → Has hasher same m' q u

  module _ (m : RobinHoodHashMap K V) (k : K) (v : V) (valid : IsValid hasher same m)
      (room : m.size + 1 < m.capacity) where
    new-InHand :
        Absent hasher same m k → InHand hasher same m (new_entry k v) (home hasher same m k)
    new-InHand absent =
        let own : dist m.capacity (home hasher same m k) (home hasher same m k) ≡ 0 =
          ground arith in
        record {
          in_range = valid.placed.home_lt k;
          near = omega (arith, own);
          way = λ j b l. absurd (omega (arith, own));
          absent = absent;
        }

    insert_new :
        Absent hasher same m k
        → (m' : RobinHoodHashMap K V) × (insert_here hasher same k v m ≡ some m')
          × (m'.capacity ≡ m.capacity)
          × Inserts m k v m'
    unfolding insert_here
    insert_new absent =
        let (e0, b0, free) = free_slot m.table m.capacity (omega (arith, valid.counted)) in
        let l = valid.placed.home_lt k in
        let (m', run, g) =
          place-Gains hasher same m.capacity m (new_entry k v) (home hasher same m k) e0 k v
            valid.placed (new-InHand absent) b0 free
            (dist-lt m.capacity (home hasher same m k) e0 l b0) (λ i e b le s. absent i e b s) in
        (
          m',
          run,
          g.same_capacity,
          record {
            valid = record {
              placed = g.placed;
              counted = rw g.same_capacity (omega (arith, g.one_more, g.bigger, valid.counted));
              sparse = omega (arith, g.same_capacity, g.bigger);
            };
            grows = omega (arith, g.bigger);
            to = λ q u h. elim (g.to q u h) [
              | inr is ↦ inl (is.0, is.1)
              | inl (i, e, b, s, r, w) ↦
                  inr ((λ same_key. absent i e b s (r ∙ sym same_key)), (i, e, b, s, r, w))
            ];
            own = g.own k v (refl, refl);
            other = λ q u ne h. g.old q u h;
          },
        )

    insert_old :
        (t : ℕ)
        → At hasher same m k t
        → (m' : RobinHoodHashMap K V) × (insert_here hasher same k v m ≡ some m')
          × (m'.capacity ≡ m.capacity)
          × Inserts m k v m'
    unfolding insert_here
    insert_old t (b, (e, s, hit)) =
        let l = valid.placed.home_lt k in
        let own : dist m.capacity (home hasher same m k) (home hasher same m k) ≡ 0 =
          ground arith in
        let run =
          place-updates hasher same m.capacity (home hasher same m k) t m (new_entry k v) e v
            valid.placed b s hit l (sym own) (omega (arith, own))
            (omega (arith, own, dist-lt m.capacity (home hasher same m k) t l b)) in
        let e' : Entry K V = record e { value = v } in
        let here : (t == t) ≡ true = ground arith in
        (
          put hasher same m t e',
          run,
          refl,
          record {
            valid = record {
              placed =
                  (let pl = updated-IsPlaced hasher same m t e v valid.placed b s in
                    record { near = pl.near; way = pl.way; home_lt = pl.home_lt });
              counted = valid.counted ∙ sym (occupied-set_entry m.table t m.capacity e e' s);
              sparse = valid.sparse;
            };
            grows = omega arith;
            to = λ q u (i, d, c, r, x, w). elim (Bool-cases (i == t)) [
              | inl at ↦
                  let one : e' ≡ d = some-injective _ _ (rw at at r) in
                  inl (sym hit ∙ ap (λ z. z.key) one ∙ x, ap (λ z. z.value) one ∙ w)
              | inr no_at ↦
                  let r' : m.table i ≡ some d = rw no_at at r in
                  inr (
                    (λ same_key.
                        (let i_t =
                            IsPlaced-unique hasher same m i t d e valid.placed c b r' s
                              (x ∙ sym same_key ∙ sym hit) in
                          absurd (ground arith))),
                    (i, d, c, r', x, w),
                  )
            ];
            own = (t, e', b, rw here refl, hit, refl);
            other = λ q u ne (i, d, c, r, x, w). elim (Bool-cases (i == t)) [
              | inr no_at ↦ (i, d, c, rw no_at r, x, w)
              | inl at ↦
                  let i_t : i ≡ t = ground arith in
                  let one : d ≡ e = some-injective _ _ (sym r ∙ ap m.table i_t ∙ s) in
                  absurd (ne (sym hit ∙ ap (λ z. z.key) (sym one) ∙ x))
            ];
          },
        )

    pub insert_here-Inserts :
        (m' : RobinHoodHashMap K V) × (insert_here hasher same k v m ≡ some m')
        × (m'.capacity ≡ m.capacity)
        × Inserts m k v m'
    insert_here-Inserts = elim (At-cases hasher same m k) [
      | inl (t, at) ↦ insert_old t at
      | inr absent ↦ insert_new absent
    ]
