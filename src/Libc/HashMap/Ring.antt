-- ===== src/Libc/HashMap/Ring.antt =====
-- Distances in the ring of indices.
use ccbase.Base.{ℕ, ◌+◌, ◌-◌, ◌<◌, ◌≡◌, ◌≢◌, inl, inr, arith, ◌==◌, leb, if◌then◌else◌, Bool-cases}
use native.Mathlib.Nat.{mod-eq_of_lt, mod_self}
use ccbase.Libc.HashMap.{next_index}

-- How many steps it is from `s` to `i`.
abbrev pub dist : (capacity s i : ℕ) → ℕ
dist n s i = if leb s i then i - s else i + n - s

pub next_index-eq : (n i : ℕ) → i < n → next_index n i ≡ (if i + 1 == n then 0 else i + 1)
unfolding next_index
next_index-eq n i l = elim (Bool-cases (i + 1 == n)) [
  | inl e ↦ let same : i + 1 ≡ n = ground arith in rw (e, same) (mod_self n)
  | inr d ↦ rw d (mod-eq_of_lt (ground arith))
]

pub next_index-lt : (n i : ℕ) → i < n → next_index n i < n
next_index-lt n i l = ground (arith, next_index-eq n i)

-- A step away from `s`, unless it comes back to it.
pub dist-next :
    (n s i : ℕ) → s < n → i < n → dist n s i + 1 < n → dist n s (next_index n i) ≡ dist n s i + 1
dist-next n s i a l far = ground (arith, next_index-eq n i)

-- A step towards `e`.
pub dist-towards : (n e i : ℕ) → e < n → i < n → i ≢ e → dist n (next_index n i) e + 1 ≡ dist n i e
dist-towards n e i a l d = ground (arith, next_index-eq n i)

pub dist-lt : (n s i : ℕ) → s < n → i < n → dist n s i < n
dist-lt n s i a l = ground arith

pub dist-inj : (n s i j : ℕ) → s < n → i < n → j < n → dist n s i ≡ dist n s j → i ≡ j
dist-inj n s i j a l m e = ground arith

-- The last index before `s`.
pub dist-last :
    (n s i j : ℕ) → s < n → i < n → j < n → dist n s i + 1 ≡ n → i ≢ j → dist n s j < dist n s i
dist-last n s i j a l m last d = ground arith
