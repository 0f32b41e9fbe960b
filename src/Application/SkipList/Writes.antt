-- ===== src/Application/SkipList/Writes.antt =====
-- About the writes of application/src/skiplist.h to the fields of a node.
use ccbase.Base.{
  ==_refl, ℕ, ◌≡◌, refl, sym, subst, ◌∙◌, true, false, Option, none, some, List, [], ◌∷◌, ◌==◌, leb,
  ◌&&◌, All, Bool-cases, Option-cases, inl, inr, arith,
}
use ccbase.Application.SkipList.{
  ◌>>=◌, SkipNode, at_index, forward_of, read_forward, write_forward, write_prev,
}
use ccbase.Application.SkipList.Towers.{Tower, Stands}

module _ {K V : Type 0} where
  -- What is not a link stays, and no node goes.
  abbrev pub Same : (ns ns' : ℕ → Option (SkipNode K V)) → Type 0
  Same ns ns' =
      (a : ℕ) (n : SkipNode K V)
      → ns a ≡ some n
      → (n' : SkipNode K V) × (ns' a ≡ some n')
        × (n'.key ≡ n.key)
        × (n'.value ≡ n.value)
        × (n'.node_level ≡ n.node_level)

  pub Same-trans :
      (ns ns' ns'' : ℕ → Option (SkipNode K V)) → Same ns ns' → Same ns' ns'' → Same ns ns''
  Same-trans ns ns' ns'' s s' a n e =
      let (n', e', f, g, h) = s a n e in
      let (n'', e'', f', g', h') = s' a n' e' in (n'', e'', f' ∙ f, g' ∙ g, h' ∙ h)

  pub Stands-Same :
      (ns ns' : ℕ → Option (SkipNode K V))
      → Same ns ns'
      → (t : Tower K V) → Stands ns t
      → Stands ns' t
  Stands-Same ns ns' s t (n, e, f, g, h) =
      let (n', e', f', g', h') = s t.at n e in (n', e', f' ∙ f, g' ∙ g, h' ∙ h)

  pub Stands-All :
      (ns ns' : ℕ → Option (SkipNode K V))
      → Same ns ns'
      → (ts : List (Tower K V)) → All (Stands ns) ts
      → All (Stands ns') ts
  Stands-All ns ns' s [] a = tt
  Stands-All ns ns' s (t ∷ ts) (p, a) = (Stands-Same ns ns' s t p, Stands-All ns ns' s ts a)

  forward-leb :
      (i : ℕ) (n : SkipNode K V) (q : Option ℕ)
      → forward_of i n ≡ some q
      → (leb i n.node_level ≡ true) × (n.forward i ≡ q)
  forward-leb i n q e = elim (Bool-cases (leb i n.node_level)) [
    | inl y ↦ (y, ground arith)
    | inr y ↦ absurd (ground arith)
  ]

  -- A link that can be read belongs to a node that is high enough.
  pub reads-node :
      (ns : ℕ → Option (SkipNode K V)) (a i : ℕ) (q : Option ℕ)
      → read_forward ns a i ≡ some q
      → (n : SkipNode K V) × (ns a ≡ some n) × (leb i n.node_level ≡ true) × (n.forward i ≡ q)
  unfolding read_forward
  reads-node ns a i q e = elim (Option-cases (ns a)) [
    | inl f ↦
        let g : ◌≡◌ {A = Option (Option ℕ)} none (some q) =
          subst (λ z. (z >>= forward_of i) ≡ some q) f e in
        absurd (ground arith)
    | inr (n, f) ↦
        let (g, y) = forward-leb i n q (subst (λ z. (z >>= forward_of i) ≡ some q) f e) in
        (n, f, g, y)
  ]

  pub node-reads :
      (ns : ℕ → Option (SkipNode K V)) (a i : ℕ) (n : SkipNode K V)
      → ns a ≡ some n
      → leb i n.node_level ≡ true
      → read_forward ns a i ≡ some (n.forward i)
  unfolding read_forward
  node-reads ns a i n e f = rw (e, f) refl

  -- `a->forward[i] = p` changes this link and no other.
  pub record Wrote (ns ns' : ℕ → Option (SkipNode K V)) (a i : ℕ) (p : Option ℕ) : Type 0 where
    pub done : write_forward ns a i p ≡ some ns'
    pub here : read_forward ns' a i ≡ some p
    pub others :
        (b j : ℕ) → ((b == a) && (j == i)) ≡ false → read_forward ns' b j ≡ read_forward ns b j
    pub kept : Same ns ns'

  pub write-Wrote :
      (ns : ℕ → Option (SkipNode K V)) (a i : ℕ) (p q : Option ℕ)
      → read_forward ns a i ≡ some q
      → (ns' : ℕ → Option (SkipNode K V)) × Wrote ns ns' a i p
  unfolding read_forward write_forward
  write-Wrote ns a i p q e =
      let (n, f, g, y) = reads-node ns a i q e in
      let n' : SkipNode K V = record n { forward = at_index n.forward i p } in
      (
        at_index ns a (some n'),
        record {
          done = rw (f, g) refl;
          here = rw (==_refl a, g, ==_refl i) refl;
          others = λ b j d. elim (Bool-cases (b == a)) [
            | inl z ↦
                let ab : a ≡ b = ground arith in
                let k : ns b ≡ some n = subst (λ x. ns x ≡ some n) ab f in
                let ji : (j == i) ≡ false = ground arith in rw (z, k, ji) refl
            | inr z ↦ rw z refl
          ];
          kept = λ b m d. elim (Bool-cases (b == a)) [
            | inl z ↦
                let ab : a ≡ b = ground arith in
                let k : some n ≡ some m = sym (subst (λ x. ns x ≡ some n) ab f) ∙ d in
                (n', rw z refl, ground arith, ground arith, ground arith)
            | inr z ↦ (m, rw z d, refl, refl, refl)
          ];
        },
      )

  -- `a->prev = p` changes no link.
  pub record Kept (ns ns' : ℕ → Option (SkipNode K V)) : Type 0 where
    pub reads : (b j : ℕ) → read_forward ns' b j ≡ read_forward ns b j
    pub kept : Same ns ns'

  pub prev-Kept :
      (ns : ℕ → Option (SkipNode K V)) (a : ℕ) (p : Option ℕ) (n : SkipNode K V)
      → ns a ≡ some n
      → (ns' : ℕ → Option (SkipNode K V)) × (write_prev ns a p ≡ some ns') × Kept ns ns'
  unfolding read_forward write_prev
  prev-Kept ns a p n f =
      let n' : SkipNode K V = record n { prev = p } in
      (
        at_index ns a (some n'),
        rw f refl,
        record {
          reads = λ b j. elim (Bool-cases (b == a)) [
            | inl z ↦
                let ab : a ≡ b = ground arith in
                let k : ns b ≡ some n = subst (λ x. ns x ≡ some n) ab f in rw (z, k) refl
            | inr z ↦ rw z refl
          ];
          kept = λ b m d. elim (Bool-cases (b == a)) [
            | inl z ↦
                let ab : a ≡ b = ground arith in
                let k : some n ≡ some m = sym (subst (λ x. ns x ≡ some n) ab f) ∙ d in
                (n', rw z refl, ground arith, ground arith, ground arith)
            | inr z ↦ (m, rw z d, refl, refl, refl)
          ];
        },
      )
