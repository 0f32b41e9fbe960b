-- ===== src/Nice/HQueue/Tally.antt =====
-- How many numbers below a bound are in a list.
use ccbase.Base.{
  ℕ, zero, suc, ◌+◌, ◌≤◌, ◌<◌, ◌≡◌, inl, inr, refl, true, false, List, [], ◌∷◌, ◌++◌, arith, has,
  length, ltb, ◌==◌, if◌then◌else◌, Bool-cases,
}
pub use ccbase.Base.{Distinct, Distinct-append, has-append}

-- All numbers in the list are below the bound.
abbrev pub Below : ℕ → List ℕ → Type 0
Below n [] = Unit {0}
Below n (x ∷ l) = (x < n) × Below n l

abbrev pub tally : List ℕ → ℕ → ℕ
tally l zero = 0
tally l (suc n) = (if has n l then 1 else 0) + tally l n

tally_le : (l : List ℕ) (n : ℕ) → tally l n ≤ n
tally_le l zero = omega arith
tally_le l (suc n) = ground (arith, tally_le l n)

tally-cons :
    (x : ℕ) (l : List ℕ) (n : ℕ)
    → has x l ≡ false
    → tally (x ∷ l) n ≡ (if ltb x n then 1 else 0) + tally l n
tally-cons x l zero new = ground arith
tally-cons x l (suc n) new = ground (arith, tally-cons x l n new)

tally_nil : (n : ℕ) → tally [] n ≡ 0
tally_nil zero = refl
tally_nil (suc n) = omega (arith, tally_nil n)

pub tally-length : (l : List ℕ) (n : ℕ) → Distinct l → Below n l → tally l n ≡ length l
tally-length [] n d b = tally_nil n
tally-length (x ∷ l) n d b = ground (arith, tally-cons x l n d.0, tally-length l n d.1 b.1, b.0)

-- A list that has every number is counted in full; one that lacks a number is not.
pub tally_full : (l : List ℕ) (n : ℕ) → ((i : ℕ) → i < n → has i l ≡ true) → tally l n ≡ n
tally_full l zero all = refl
tally_full l (suc n) all =
    let here : has n l ≡ true = all n (omega arith) in
    ground (arith, tally_full l n (λ i b. all i (omega arith)))

pub tally_lacks : (l : List ℕ) (n i : ℕ) → i < n → has i l ≡ false → tally l n < n
tally_lacks l zero i b lacks = absurd (omega arith)
tally_lacks l (suc n) i b lacks = elim (Bool-cases (i == n)) [
  | inl here ↦ ground (arith, tally_le l n)
  | inr below ↦ ground (arith, tally_lacks l n i (ground arith) lacks)
]

pub Below-append : (b n : ℕ) (l : List ℕ) → n < b → Below b l → Below b (l ++ n ∷ [])
Below-append b n [] new d = (new, tt)
Below-append b n (x ∷ l) new d = (d.0, Below-append b n l new d.1)

pub Below-has : (b i : ℕ) (l : List ℕ) → Below b l → has i l ≡ true → i < b
Below-has b i [] d m = cc
Below-has b i (x ∷ l) d m = ground (arith, Below-has b i l, d.0, d.1)
