-- ===== src/Libc/ConcurrentQueue/Chain.antt =====
-- About the list that `next` links from the head of a queue of libc/concurrent_queue.cc.
use ccbase.Base.{
  ℕ, suc, ◌≡◌, refl, inl, inr, true, false, Option, none, some, List, [], ◌∷◌, ◌++◌, ◌==◌, arith,
  has, Distinct, length, Bool-cases, ◌∙◌, subst, sym, ap,
}
use ccbase.Libc.ConcurrentQueue.{QueueNode, NodeStore}
use ccbase.Libc.ConcurrentQueue.Turns.{put_node}

-- From `a` the links go through the addresses `l` to an end.
abbrev pub Linked : NodeStore → ℕ → List ℕ → Type 0
Linked ns a [] = (c : QueueNode) × (ns a ≡ some c) × (c.next ≡ none)
Linked ns a (b ∷ l) = (c : QueueNode) × (ns a ≡ some c) × (c.next ≡ some b) × Linked ns b l

abbrev pub first : List ℕ → Option ℕ
first [] = none
first (a ∷ l) = some a

abbrev pub last_node : ℕ → List ℕ → ℕ
last_node a [] = a
last_node a (b ∷ l) = last_node b l

abbrev pub items : NodeStore → List ℕ → List ℕ
items ns [] = []
items ns (a ∷ l) = let rest = items ns l in elim (ns a) [ none ↦ rest | some c ↦ c.item ∷ rest ]

pub items-cons :
    (ns : NodeStore) (a : ℕ) (l : List ℕ) (c : QueueNode)
    → ns a ≡ some c
    → items ns (a ∷ l) ≡ c.item ∷ items ns l
items-cons ns a l c e = rw (e, items) refl

module _ (ns : NodeStore) (x : ℕ) (o : Option QueueNode) where
  pub Linked-put :
      (a : ℕ) (l : List ℕ) → has x (a ∷ l) ≡ false → Linked ns a l → Linked (put_node ns x o) a l
  Linked-put a [] out (c, e, f) = (c, ground arith, f)
  Linked-put a (b ∷ l) out (c, e, f, rest) =
      (c, ground arith, f, Linked-put b l (ground arith) rest)

  pub items-put : (l : List ℕ) → has x l ≡ false → items (put_node ns x o) l ≡ items ns l
  items-put [] out = refl
  items-put (b ∷ l) out = ground (arith, items-put l)

pub last_node-append : (a n : ℕ) (l : List ℕ) → last_node a (l ++ n ∷ []) ≡ n
last_node-append a n [] = refl
last_node-append a n (b ∷ l) = last_node-append b n l

pub first-append : (l : List ℕ) (n r : ℕ) → first l ≡ some r → first (l ++ n ∷ []) ≡ some r
first-append [] n r e = cc
first-append (b ∷ l) n r e = e

pub has-last_node : (a : ℕ) (l : List ℕ) → has (last_node a l) (a ∷ l) ≡ true
has-last_node a [] = ground arith
has-last_node a (b ∷ l) = ground (arith, has-last_node b l)

pub Linked-last_node :
    (ns : NodeStore) (a : ℕ) (l : List ℕ)
    → Linked ns a l
    → (c : QueueNode) × (ns (last_node a l) ≡ some c)
Linked-last_node ns a [] (c, e, f) = (c, e)
Linked-last_node ns a (b ∷ l) (c, e, f, rest) = Linked-last_node ns b l rest

-- A node that is linked behind the last one is the new end.
pub Linked-link :
    (ns : NodeStore) (n d a : ℕ) (l : List ℕ) (z : QueueNode)
    → Linked ns a l
    → Distinct (a ∷ l)
    → ns n ≡ some (record { item = d; next = none })
    → has n (a ∷ l) ≡ false
    → ns (last_node a l) ≡ some z
    → Linked (put_node ns (last_node a l) (some (record z { next = some n }))) a (l ++ n ∷ [])
Linked-link ns n d a [] z k ds own out e = (
  record z { next = some n },
  ground arith,
  refl,
  (record { item = d; next = none }, ground arith, refl),
)
Linked-link ns n d a (b ∷ l) z (c, f, g, rest) ds own out e = (
  c,
  ground (arith, has-last_node b l),
  g,
  Linked-link ns n d b l z rest ds.1 own (ground arith) e,
)

items-link_last :
    (ns : NodeStore) (x : ℕ) (z : QueueNode) (m : Option ℕ) (l : List ℕ)
    → ns x ≡ some z
    → items (put_node ns x (some (record z { next = m }))) l ≡ items ns l
items-link_last ns x z m [] e = refl
items-link_last ns x z m (b ∷ l) e = elim (Bool-cases (b == x)) [
  | inl h ↦ let f : ns b ≡ some z = ground arith in ground (arith, items-link_last ns x z m l e)
  | inr h ↦ ground (arith, items-link_last ns x z m l e)
]

items-append :
    (ns : NodeStore) (n d : ℕ) (l : List ℕ)
    → ns n ≡ some (record { item = d; next = none })
    → items ns (l ++ n ∷ []) ≡ items ns l ++ d ∷ []
items-append ns n d [] e = rw e refl
items-append ns n d (b ∷ l) e = ground (arith, items-append ns n d l e)

-- Linking the node `n` behind the last one puts its value behind those of the list.
pub items-link :
    (ns : NodeStore) (n d a : ℕ) (l : List ℕ) (z : QueueNode)
    → ns n ≡ some (record { item = d; next = none })
    → ns (last_node a l) ≡ some z
    → items (put_node ns (last_node a l) (some (record z { next = some n }))) (l ++ n ∷ [])
      ≡ items ns l ++ d ∷ []
items-link ns n d a l z own e =
    items-link_last ns (last_node a l) z (some n) (l ++ n ∷ []) e ∙ items-append ns n d l own

-- A list has one length, so that it does not come back to a node it has left.
pub Linked-unique : (ns : NodeStore) (a : ℕ) (l m : List ℕ) → Linked ns a l → Linked ns a m → l ≡ m
Linked-unique ns a [] [] k j = refl
Linked-unique ns a [] (b ∷ m) (c, e, f) (c', e', f', rest) = absurd (ground arith)
Linked-unique ns a (b ∷ l) [] (c, e, f, rest) (c', e', f') = absurd (ground arith)
Linked-unique ns a (b ∷ l) (b' ∷ m) (c, e, f, rest) (c', e', f', rest') =
    let g : b ≡ b' = ground arith in
    ground (arith, Linked-unique ns b l m rest (subst (λ z. Linked ns z m) (sym g) rest'))

-- The head's link leads to the first node of the list.
pub Linked-first :
    (ns : NodeStore) (a : ℕ) (l : List ℕ)
    → Linked ns a l
    → (c : QueueNode) × (ns a ≡ some c) × (c.next ≡ first l)
Linked-first ns a [] (c, e, f) = (c, e, f)
Linked-first ns a (b ∷ l) (c, e, f, rest) = (c, e, f)

pub Linked-second :
    (ns : NodeStore) (a r : ℕ) (l : List ℕ)
    → Linked ns a l
    → first l ≡ some r
    → (c : QueueNode) × (ns r ≡ some c)
Linked-second ns a r [] k e = absurd (ground arith)
Linked-second ns a r (b ∷ l) (c, f, g, rest) e =
    let k = Linked-first ns b l rest in (k.0, ground (arith, k.1))

-- Memory that is not allocated is not in the list.
pub Linked-absent :
    (ns : NodeStore) (a n : ℕ) (l : List ℕ) → Linked ns a l → ns n ≡ none → has n (a ∷ l) ≡ false
Linked-absent ns a n [] (c, e, f) g = elim (Bool-cases (n == a)) [
  | inl y ↦ absurd (ground arith)
  | inr y ↦ ground arith
]
Linked-absent ns a n (b ∷ l) (c, e, f, rest) g = elim (Bool-cases (n == a)) [
  | inl y ↦ absurd (ground arith)
  | inr y ↦ ground (arith, Linked-absent ns b n l rest g)
]

pub length-items :
    (ns : NodeStore) (a : ℕ) (l : List ℕ) → Linked ns a l → length (items ns l) ≡ length l
length-items ns a [] k = refl
length-items ns a (b ∷ l) (c, e, f, rest) =
    let (c', e', f') = Linked-first ns b l rest in
    ap length (items-cons ns b l c' e') ∙ ap suc (length-items ns b l rest)
