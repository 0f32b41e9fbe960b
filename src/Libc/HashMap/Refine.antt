-- ===== src/Libc/HashMap/Refine.antt =====
-- The map as a function from keys to values.
use ccbase.Base.{
  ℕ, ◌≤◌, ◌≡◌, inl, inr, refl, sym, ◌∙◌, ap, subst, Option, none, some, List, [], ◌∷◌, arith,
  Option-cases, ◌==◌, false,
}
use mathlib.Core.Option.{some-injective}
use mathlib.Core.Logic.{ite, if_pos, if_neg}
use ccbase.Libc.HashMap.{Entry, RobinHoodHashMap, empty_table, find, insert, new_map}
use ccbase.Libc.HashMap.Slots.{Has, IsValid}
use ccbase.Libc.HashMap.Find.{find-At}
use ccbase.Libc.HashMap.Insert.{Inserts}
use ccbase.Libc.HashMap.Resize.{empty-IsValid, insert-Inserts}

abbrev value_at {ℓ} : {K V : Type ℓ} → Option (Entry K V) → Option V
value_at none = none
value_at (some e) = some e.value

module _ {ℓ} {K V : Type ℓ} (hasher : K → ℕ) (same : Discrete K) where
  -- What a client reads through the pointer that `find` returns.
  unfoldable pub get : K → RobinHoodHashMap K V → Option (Option V)
  unfolding find
  get k m = elim (find hasher same k m) [
    | none ↦ none
    | some none ↦ some none
    | some (some i) ↦ some (value_at (m.table i))
  ]

  unfoldable pub insert_each : List (K × V) → RobinHoodHashMap K V → Option (RobinHoodHashMap K V)
  unfolding insert
  insert_each [] m = some m
  insert_each ((k, v) ∷ l) m = elim (insert hasher same k v m) [
    | none ↦ none
    | some m' ↦ insert_each l m'
  ]

-- The abstract map after the assignments, from `f` on.
abbrev pub assign {ℓ} : {K V : Type ℓ} → Discrete K → K → V → (K → Option V) → K → Option V
assign same k v f q = ite (same k q) (some v) (f q)

abbrev pub assign_all {ℓ} :
    {K V : Type ℓ} → Discrete K → List (K × V) → (K → Option V) → K → Option V
assign_all same [] f = f
assign_all same ((k, v) ∷ l) f = assign_all same l (assign same k v f)

module _ {K V : Type 0} (hasher : K → ℕ) (same : Discrete K) where
  record Models (f : K → Option V) (m : RobinHoodHashMap K V) : Type 0 where
    valid : IsValid hasher same m
    large : 4 ≤ m.capacity
    to : (q : K) (u : V) → Has hasher same m q u → f q ≡ some u
    from : (q : K) (u : V) → f q ≡ some u → Has hasher same m q u

  get-Models :
      (f : K → Option V) (m : RobinHoodHashMap K V) (q : K)
      → Models f m
      → get hasher same q m ≡ some (f q)
  unfolding get
  get-Models f m q w = elim (find-At hasher same m q w.valid) [
    | inl (i, hit, (b, (e, s, k))) ↦
        rw (hit, get, s) (ap some (sym (w.to q e.value (i, e, b, s, k, refl))))
    | inr (miss, absent) ↦ elim (Option-cases (f q)) [
      | inl nothing ↦ rw (miss, get, nothing) refl
      | inr (u, is) ↦ let (i, e, b, s, k, v) = w.from q u is in absurd (absent i e b s k)
    ]
  ]

  insert-Models :
      (f : K → Option V) (m m' : RobinHoodHashMap K V) (k : K) (v : V)
      → Models f m
      → m.capacity ≤ m'.capacity
      → Inserts hasher same m k v m'
      → Models (assign same k v f) m'
  insert-Models f m m' k v w grown g = record {
    valid = g.valid;
    large = omega (arith, w.large);
    to = λ q u h. elim (g.to q u h) [
      | inl is ↦ if_pos (same k q) is.0 _ _ ∙ ap some is.1
      | inr old ↦ if_neg (same k q) old.0 _ _ ∙ w.to q u old.1
    ];
    from = λ q u is. elim (same k q) [
      | yes here ↦
          let value : v ≡ u = some-injective _ _ (sym (if_pos (same k q) here _ _) ∙ is) in
          subst (λ x. Has hasher same m' x u) here (subst (λ x. Has hasher same m' k x) value g.own)
      | no there ↦
          g.other q u there (w.from q u (sym (if_neg (same k q) there (some v) (f q)) ∙ is))
    ];
  }

  insert_each-Models :
      (l : List (K × V)) (f : K → Option V) (m : RobinHoodHashMap K V)
      → Models f m
      → (m' : RobinHoodHashMap K V) × (insert_each hasher same l m ≡ some m')
        × Models (assign_all same l f) m'
  unfolding insert_each
  insert_each-Models [] f m w = (m, refl, w)
  insert_each-Models ((k, v) ∷ l) f m w =
      let (m₁, run, grown, g) = insert-Inserts hasher same m w.valid k v w.large in
      let (m', rest, w') =
        insert_each-Models l (assign same k v f) m₁ (insert-Models f m m₁ k v w grown g) in
      (m', rw (run, insert_each) rest, w')

  -- A map that is constructed with a capacity of 4 or more refines a function from keys to values:
  -- after any insertions, which all end, reading any key ends and gives the value that was inserted
  -- last under it, or nothing. The hash function is arbitrary.
  pub insert_each-get :
      (n : ℕ) (l : List (K × V))
      → 4 ≤ n
      → (m : RobinHoodHashMap K V) × (new_map n ≡ some (empty_table {K = K} {V = V} n))
        × (insert_each hasher same l (empty_table n) ≡ some m)
        × ((q : K) → get hasher same q m ≡ some (assign_all same l (λ _. none) q))
  unfolding new_map
  insert_each-get n l large =
      let start : Models (λ _. none) (empty_table n) = record {
        valid = empty-IsValid hasher same n (omega arith);
        large = large;
        to = λ q u (i, e, b, s, k, v). cc;
        from = λ q u is. cc;
      } in
      let (m, run, w) = insert_each-Models l (λ _. none) (empty_table n) start in
      (m, rw (let pos : (n == 0) ≡ false = ground arith in pos) refl, run, λ q. get-Models _ m q w)
