-- ===== src/Nice/HQueue/Busy.antt =====
-- The nodes that are not free, as a list.
use ccbase.Base.{
  ℕ, ◌+◌, ◌≡◌, inl, inr, refl, subst, true, false, List, [], ◌∷◌, ◌++◌, arith, has, length, ◌==◌,
  if◌then◌else◌, Bool-cases,
}
use ccbase.Nice.HQueue.Tally.{Distinct, Below}

-- The nodes that `Enqueue` cannot take: those from the head on, and node 0.
abbrev pub busy : (h : ℕ) → List ℕ → List ℕ
busy h c = if h == 0 then h ∷ c else 0 ∷ h ∷ c

pub busy-append : (h n : ℕ) (c : List ℕ) → busy h (c ++ n ∷ []) ≡ busy h c ++ n ∷ []
busy-append h n c = elim (Bool-cases (h == 0)) [ inl e ↦ rw e refl | inr e ↦ rw e refl ]

pub busy-length : (h : ℕ) (c : List ℕ) → length (busy h c) ≡ length c + (if h == 0 then 1 else 2)
busy-length h c = ground arith

pub busy-has : (h i : ℕ) (c : List ℕ) → has i (h ∷ c) ≡ true → has i (busy h c) ≡ true
busy-has h i c m = ground (arith, m)

pub off-chain : (h i : ℕ) (c : List ℕ) → has i (busy h c) ≡ false → has i (h ∷ c) ≡ false
off-chain h i c lacks = ground (arith, lacks)

pub busy_zero : (h : ℕ) (c : List ℕ) → has 0 (busy h c) ≡ true
busy_zero h c = ground arith

pub busy-Distinct : (h : ℕ) (c : List ℕ) → Distinct (busy h c) → Distinct (h ∷ c)
busy-Distinct h c d = elim (Bool-cases (h == 0)) [ inl e ↦ rw e at d | inr e ↦ (rw e at d).1 ]

-- The nodes that are left when the head moves on to `n`.
pub busy_next :
    (h n : ℕ) (c : List ℕ) → Distinct (busy h (n ∷ c)) → ((n == 0) ≡ false) × Distinct (0 ∷ n ∷ c)
busy_next h n c d = elim (Bool-cases (h == 0)) [
  | inl e ↦
      let d' : Distinct (h ∷ n ∷ c) = rw e at d in
      let is : h ≡ 0 = ground arith in
      let d₀ : Distinct (0 ∷ n ∷ c) = subst (λ x. Distinct (x ∷ n ∷ c)) is d' in
      (ground (arith, d₀.0), d₀)
  | inr e ↦
      let d' : Distinct (0 ∷ h ∷ n ∷ c) = rw e at d in
      (ground (arith, d'.0), (ground (arith, d'.0), d'.1.1))
]

pub busy_next-Below : (sz h n : ℕ) (c : List ℕ) → Below sz (busy h (n ∷ c)) → Below sz (0 ∷ n ∷ c)
busy_next-Below sz h n c d = elim (Bool-cases (h == 0)) [
  | inl e ↦ let d' : Below sz (h ∷ n ∷ c) = rw e at d in (omega (arith, d'.0), d'.1)
  | inr e ↦ let d' : Below sz (0 ∷ h ∷ n ∷ c) = rw e at d in (d'.0, d'.1.1)
]

pub busy-later : (n : ℕ) (c : List ℕ) → (n == 0) ≡ false → busy n c ≡ 0 ∷ n ∷ c
busy-later n c later = rw later refl
