-- ===== src/Application/SkipList/Towers.antt =====
-- About the nodes of a skip list (application/src/skiplist.h) as lists, one for each level.
use ccbase.Base.{
  ℕ, suc, ◌≤◌, ◌≡◌, refl, ap, true, false, Option, none, some, List, [], ◌∷◌, ◌++◌, leb,
  if◌then◌else◌, All, length, Bool-cases, inl, inr, arith,
}
use ccbase.Application.SkipList.{SkipNode, read_forward}

-- What a node has for good.
pub record Tower (K V : Type 0) : Type 0 where
  pub at : ℕ
  pub key : K
  pub value : V
  pub height : ℕ

module _ {K V : Type 0} where
  abbrev pub Stands : (ℕ → Option (SkipNode K V)) → Tower K V → Type 0
  Stands ns t =
      (n : SkipNode K V) × (ns t.at ≡ some n)
      × (n.key ≡ t.key)
      × (n.value ≡ t.value)
      × (n.node_level ≡ t.height)

  abbrev pub at_level : ℕ → List (Tower K V) → List (Tower K V)
  at_level i [] = []
  at_level i (t ∷ ts) = let rest = at_level i ts in if leb i t.height then t ∷ rest else rest

  abbrev pub last_at : ℕ → List (Tower K V) → ℕ
  last_at h [] = h
  last_at h (t ∷ ts) = last_at t.at ts

  abbrev pub first_at : List (Tower K V) → Option ℕ
  first_at [] = none
  first_at (t ∷ ts) = some t.at

  abbrev pub places_of : List (Tower K V) → List ℕ
  places_of [] = []
  places_of (t ∷ ts) = t.at ∷ places_of ts

  -- From `h` on, level `i` links these nodes and ends.
  abbrev pub Leads : (ℕ → Option (SkipNode K V)) → ℕ → ℕ → List (Tower K V) → Type 0
  Leads ns i h [] = read_forward ns h i ≡ some none
  Leads ns i h (t ∷ ts) = (read_forward ns h i ≡ some (some t.at)) × Leads ns i t.at ts

  pub Leads-first :
      (ns : ℕ → Option (SkipNode K V)) (i h : ℕ) (ts : List (Tower K V))
      → Leads ns i h ts
      → read_forward ns h i ≡ some (first_at ts)
  Leads-first ns i h [] e = e
  Leads-first ns i h (t ∷ ts) (e, rest) = e

  pub Leads-behind :
      (ns : ℕ → Option (SkipNode K V)) (i h : ℕ) (xs ys : List (Tower K V))
      → Leads ns i h (xs ++ ys)
      → Leads ns i (last_at h xs) ys
  Leads-behind ns i h [] ys l = l
  Leads-behind ns i h (x ∷ xs) ys (e, rest) = Leads-behind ns i x.at xs ys rest

  pub at_level-append :
      (i : ℕ) (xs ys : List (Tower K V)) → at_level i (xs ++ ys) ≡ at_level i xs ++ at_level i ys
  at_level-append i [] ys = refl
  at_level-append i (x ∷ xs) ys = ground (arith, at_level-append i xs ys)

  pub at_level-zero : (ts : List (Tower K V)) → at_level 0 ts ≡ ts
  at_level-zero [] = refl
  at_level-zero (t ∷ ts) = ground (arith, at_level-zero ts)

  pub All-at_level :
      (P : Tower K V → Type 0) (i : ℕ) (ts : List (Tower K V)) → All P ts → All P (at_level i ts)
  All-at_level P i [] a = tt
  All-at_level P i (t ∷ ts) (p, a) = elim (Bool-cases (leb i t.height)) [
    | inl e ↦ rw e (p, All-at_level P i ts a)
    | inr e ↦ rw e (All-at_level P i ts a)
  ]

  abbrev pub Lower : ℕ → List (Tower K V) → Type 0
  Lower i ts =
      (xs : List (Tower K V)) × (ys : List (Tower K V)) × (at_level i ts ≡ xs ++ ys)
      × ((h : ℕ) → last_at h (at_level (suc i) ts) ≡ last_at h xs)

  -- A node that is in level `i` and not above.
  Lower-top :
      (i : ℕ) (t : Tower K V) (ts xs ys : List (Tower K V))
      → leb (suc i) t.height ≡ false
      → leb i t.height ≡ true
      → at_level i ts ≡ xs ++ ys
      → ((h : ℕ) → last_at h (at_level (suc i) ts) ≡ last_at h xs)
      → Lower i (t ∷ ts)
  Lower-top i t ts [] ys y z e f = ([], t ∷ ys, rw z (ap (λ l. t ∷ l) e), λ h. rw y (f h))
  Lower-top i t ts (x ∷ xs) ys y z e f = (t ∷ x ∷ xs, ys, rw z (ap (λ l. t ∷ l) e), λ h. rw y (f h))

  -- Where level `i + 1` has come to is a node of level `i`, or the start.
  pub at_level-Lower : (i : ℕ) (ts : List (Tower K V)) → Lower i ts
  at_level-Lower i [] = ([], [], refl, λ h. refl)
  at_level-Lower i (t ∷ ts) =
      let (xs, ys, e, f) = at_level-Lower i ts in
      elim (Bool-cases (leb (suc i) t.height)) [
        | inl y ↦
            let z : leb i t.height ≡ true = ground arith in
            (t ∷ xs, ys, rw z (ap (λ l. t ∷ l) e), λ h. rw y (f t.at))
        | inr y ↦ elim (Bool-cases (leb i t.height)) [
          | inl z ↦ Lower-top i t ts xs ys y z e f
          | inr z ↦ (xs, ys, rw z e, λ h. rw y (f h))
        ]
      ]

  pub length-at_level : (i : ℕ) (ts : List (Tower K V)) → length (at_level i ts) ≤ length ts
  length-at_level i [] = omega arith
  length-at_level i (t ∷ ts) = ground (arith, length-at_level i ts)

  pub last_at-append :
      (h : ℕ) (xs ys : List (Tower K V)) → last_at h (xs ++ ys) ≡ last_at (last_at h xs) ys
  last_at-append h [] ys = refl
  last_at-append h (x ∷ xs) ys = last_at-append x.at xs ys

  pub All-append :
      (P : Tower K V → Type 0) (xs ys : List (Tower K V)) → All P (xs ++ ys) → All P xs × All P ys
  All-append P [] ys a = (tt, a)
  All-append P (x ∷ xs) ys (p, a) = let (b, c) = All-append P xs ys a in ((p, b), c)
