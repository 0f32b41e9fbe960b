-- ===== src/Application/SkipList/Splices.antt =====
-- About one level of a skip list (application/src/skiplist.h) when a node is put in or taken out.
use ccbase.Base.{
  ℕ, ◌≡◌, refl, subst, ◌∙◌, Bool, true, false, Option, some, List, [], ◌∷◌, ◌++◌, ◌==◌, leb, ◌&&◌,
  ◌||◌, has, Distinct, Bool-cases, inl, inr, arith,
}
use ccbase.Application.SkipList.{SkipNode, read_forward}
use ccbase.Application.SkipList.Towers.{Tower, Leads, at_level, last_at, first_at, places_of}

-- What is in a list is not a number that is not.
pub absent : (b h : ℕ) (l : List ℕ) → has b l ≡ true → has h l ≡ false → (b == h) ≡ false
absent b h l y d = elim (Bool-cases (b == h)) [
  | inl e ↦
      let f : b ≡ h = ground arith in
      let g = subst (λ z. has z l ≡ true) f y in absurd (ground arith)
  | inr e ↦ e
]

pub nor : (a b : Bool) → a ≡ false → b ≡ false → (a || b) ≡ false
nor false b e f = f
nor true b e f = e

pub neither : (a b : Bool) → (a || b) ≡ false → (a ≡ false) × (b ≡ false)
neither false b e = (refl, e)
neither true b e = absurd (ground arith)

module _ {K V : Type 0} where
  pub places_of-append :
      (b : ℕ) (xs ys : List (Tower K V))
      → has b (places_of (xs ++ ys)) ≡ (has b (places_of xs) || has b (places_of ys))
  places_of-append b [] ys = refl
  places_of-append b (x ∷ xs) ys = ground (arith, places_of-append b xs ys)

  pub has-at_level :
      (b i : ℕ) (ts : List (Tower K V))
      → has b (places_of ts) ≡ false
      → has b (places_of (at_level i ts)) ≡ false
  has-at_level b i [] e = refl
  has-at_level b i (t ∷ ts) e = ground (arith, has-at_level b i ts)

  pub Distinct-at_level :
      (i : ℕ) (ts : List (Tower K V))
      → Distinct (places_of ts)
      → Distinct (places_of (at_level i ts))
  Distinct-at_level i [] d = tt
  Distinct-at_level i (t ∷ ts) (e, d) = elim (Bool-cases (leb i t.height)) [
    | inl y ↦ rw y (has-at_level t.at i ts e, Distinct-at_level i ts d)
    | inr y ↦ rw y (Distinct-at_level i ts d)
  ]

  pub has-last_at : (h : ℕ) (ts : List (Tower K V)) → has (last_at h ts) (h ∷ places_of ts) ≡ true
  has-last_at h [] = ground arith
  has-last_at h (t ∷ ts) = ground (arith, has-last_at t.at ts)

  -- A level is what it was if the links of its nodes are.
  pub Leads-frame :
      (ns ns' : ℕ → Option (SkipNode K V)) (i h : ℕ) (ts : List (Tower K V))
      → ((b : ℕ) → has b (h ∷ places_of ts) ≡ true → read_forward ns' b i ≡ read_forward ns b i)
      → Leads ns i h ts
      → Leads ns' i h ts
  Leads-frame ns ns' i h [] f e = f h (ground arith) ∙ e
  Leads-frame ns ns' i h (t ∷ ts) f (e, l) =
      (f h (ground arith) ∙ e, Leads-frame ns ns' i t.at ts (λ b y. f b (ground arith)) l)

  -- The link of `x` was led through `n`.
  pub record Spliced (ns ns' : ℕ → Option (SkipNode K V)) (x n i : ℕ) (p : Option ℕ) : Type 0 where
    pub behind : read_forward ns' x i ≡ some (some n)
    pub through : read_forward ns' n i ≡ some p
    pub others :
        (b j : ℕ)
        → ((j == i) && ((b == x) || (b == n))) ≡ false
        → read_forward ns' b j ≡ read_forward ns b j

  pub Leads-Spliced :
      (ns ns' : ℕ → Option (SkipNode K V)) (i h : ℕ) (bs cs : List (Tower K V)) (t : Tower K V)
      → Spliced ns ns' (last_at h bs) t.at i (first_at cs)
      → Leads ns i h (bs ++ cs)
      → Distinct (h ∷ places_of (bs ++ cs))
      → has t.at (h ∷ places_of (bs ++ cs)) ≡ false
      → Leads ns' i h (bs ++ t ∷ cs)
  Leads-Spliced ns ns' i h [] [] t s l d out = (s.behind, s.through)
  Leads-Spliced ns ns' i h [] (c ∷ cs) t s (e, l) d out = (
    s.behind,
    (
      s.through,
      Leads-frame ns ns' i c.at cs
          (λ b y. s.others b i (
            simp
              (
                absent b h (places_of (c ∷ cs)) y d.0,
                absent b t.at (places_of (c ∷ cs)) y (ground arith),
              )
              (ground arith)))
          l,
    ),
  )
  Leads-Spliced ns ns' i h (x ∷ bs) cs t s (e, l) d out = (
    s.others h i (ground (arith, has-last_at x.at bs, places_of-append h bs cs)) ∙ e,
    Leads-Spliced ns ns' i x.at bs cs t s l d.1 (ground arith),
  )

  -- The link of `x` was led past `n`.
  pub record Cut (ns ns' : ℕ → Option (SkipNode K V)) (x i : ℕ) (p : Option ℕ) : Type 0 where
    pub past : read_forward ns' x i ≡ some p
    pub others :
        (b j : ℕ) → ((b == x) && (j == i)) ≡ false → read_forward ns' b j ≡ read_forward ns b j

  pub Leads-Cut :
      (ns ns' : ℕ → Option (SkipNode K V)) (i h : ℕ) (bs cs : List (Tower K V)) (t : Tower K V)
      → Cut ns ns' (last_at h bs) i (first_at cs)
      → Leads ns i h (bs ++ t ∷ cs)
      → Distinct (h ∷ places_of (bs ++ t ∷ cs))
      → Leads ns' i h (bs ++ cs)
  Leads-Cut ns ns' i h [] [] t s (e, l) d = s.past
  Leads-Cut ns ns' i h [] (c ∷ cs) t s (e, (f, l)) d = (
    s.past,
    Leads-frame ns ns' i c.at cs
        (λ b y. s.others b i (simp (absent b h (places_of (c ∷ cs)) y (ground arith)) refl)) l,
  )
  Leads-Cut ns ns' i h (x ∷ bs) cs t s (e, l) d = (
    s.others h i (ground (arith, has-last_at x.at bs, places_of-append h bs (t ∷ cs))) ∙ e,
    Leads-Cut ns ns' i x.at bs cs t s l d.1,
  )

  pub Distinct-insert :
      (h : ℕ) (bs cs : List (Tower K V)) (t : Tower K V)
      → Distinct (h ∷ places_of (bs ++ cs))
      → has t.at (h ∷ places_of (bs ++ cs)) ≡ false
      → Distinct (h ∷ places_of (bs ++ t ∷ cs))
  Distinct-insert h [] cs t d out =
      let (e, f) = neither (t.at == h) (has t.at (places_of cs)) out in
      (ground (arith, d.0), (f, d.1))
  Distinct-insert h (x ∷ bs) cs t d out = (
    ground (arith, d.0, places_of-append h bs cs, places_of-append h bs (t ∷ cs)),
    Distinct-insert x.at bs cs t d.1 (ground arith),
  )
