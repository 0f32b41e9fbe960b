-- ===== src/Nice/HQueue/Chain.antt =====
-- The nodes between the head and the tail.
use ccbase.Base.{
  ℕ, ◌≡◌, ◌≢◌, refl, sym, ◌∙◌, subst, true, Option, none, some, List, [], ◌∷◌, ◌++◌, arith, has,
}
use ccbase.Nice.HQueue.{HqNode}
use ccbase.Nice.HQueue.Tally.{Distinct}

module _ {T : Type 0} where
  -- From `h`, the links go along `c` and end at `t`.
  abbrev pub Chain : (ℕ → HqNode T) → (h : ℕ) → (c : List ℕ) → (t : ℕ) → Type 0
  Chain ns h [] t = (h ≡ t) × ((ns h).next.index ≡ none)
  Chain ns h (n ∷ c) t = ((ns h).next.index ≡ some n) × Chain ns n c t

  abbrev pub values : (ℕ → HqNode T) → List ℕ → List (Option T)
  values ns [] = []
  values ns (n ∷ c) = (ns n).value ∷ values ns c

  pub Chain-last :
      (ns : ℕ → HqNode T) (h : ℕ) (c : List ℕ) (t : ℕ)
      → Chain ns h c t
      → ((ns t).next.index ≡ none) × (has t (h ∷ c) ≡ true)
  Chain-last ns h [] t w = (subst (λ x. (ns x).next.index ≡ none) w.0 w.1, ground (arith, w.0))
  Chain-last ns h (n ∷ c) t w = let ih = Chain-last ns n c t w.1 in (ih.0, ground (arith, ih.1))

  -- Only the links of the chain matter.
  pub Chain-frame :
      (ns ms : ℕ → HqNode T) (h : ℕ) (c : List ℕ) (t : ℕ)
      → ((i : ℕ) → has i (h ∷ c) ≡ true → (ms i).next.index ≡ (ns i).next.index)
      → Chain ns h c t
      → Chain ms h c t
  Chain-frame ns ms h [] t same w = (w.0, same h (ground arith) ∙ w.1)
  Chain-frame ns ms h (n ∷ c) t same w =
      (same h (ground arith) ∙ w.0, Chain-frame ns ms n c t (λ i m. same i (ground (arith, m))) w.1)

  pub values-frame :
      (ns ms : ℕ → HqNode T) (c : List ℕ)
      → ((i : ℕ) → has i c ≡ true → (ms i).value ≡ (ns i).value)
      → values ms c ≡ values ns c
  values-frame ns ms [] same = refl
  values-frame ns ms (n ∷ c) same =
      rw (same n (ground arith), values-frame ns ms c (λ i m. same i (ground (arith, m)))) refl

  -- The tail `t` is linked to a new node `n`.
  pub Chain-append :
      (ns ms : ℕ → HqNode T) (n h : ℕ) (c : List ℕ) (t : ℕ)
      → Distinct (h ∷ c)
      → ((i : ℕ) → has i (h ∷ c) ≡ true → i ≢ t → (ms i).next.index ≡ (ns i).next.index)
      → (ms t).next.index ≡ some n
      → (ms n).next.index ≡ none
      → Chain ns h c t
      → Chain ms h (c ++ n ∷ []) n
  Chain-append ns ms n h [] t d same link end w =
      (subst (λ x. (ms x).next.index ≡ some n) (sym w.0) link, (refl, end))
  Chain-append ns ms n h (m ∷ c) t d same link end w =
      let last : has t (m ∷ c) ≡ true = (Chain-last ns m c t w.1).1 in
      (
        same h (ground arith) (λ e. ground (arith, last, d.0, e)) ∙ w.0,
        Chain-append ns ms n m c t d.1 (λ i j ne. same i (ground (arith, j)) ne) link end w.1,
      )

  pub values-append :
      (ns : ℕ → HqNode T) (n : ℕ) (c : List ℕ)
      → values ns (c ++ n ∷ []) ≡ values ns c ++ (ns n).value ∷ []
  values-append ns n [] = refl
  values-append ns n (m ∷ c) = rw (values-append ns n c) refl
