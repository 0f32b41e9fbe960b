-- ===== src/Nice/HQueue/Bounded.antt =====
-- A bounded queue as a list, and sequences of calls of it and of HQueue.
use ccbase.Base.{
  ℕ, ◌-◌, Bool, true, false, Option, none, some, List, [], ◌∷◌, ◌++◌, length, ltb, if◌then◌else◌,
}
use ccbase.Nice.HQueue.{HQueue, enqueue, dequeue, is_empty}

-- `begun` says whether a value was ever taken out: from then on the queue has room for one less.
pub record Bounded (T : Type 0) : Type 0 where
  pub items : List (Option T)
  pub room : ℕ
  pub begun : Bool

pub data Call (T : Type 0) : Type 0 where
  put : (v : Option T) → Call T
  take : Call T
  ask : Call T

pub data Answer (T : Type 0) : Type 0 where
  entered : (done : Bool) → Answer T
  taken : (v : Option T) → Answer T
  is_bare : (yes : Bool) → Answer T

module _ {T : Type 0} where
  abbrev pub start : (room : ℕ) → Bounded T
  start n = record { items = []; room = n; begun = false }

  unfoldable pub put_spec : Option T → Bounded T → Bool × Bounded T
  put_spec v b =
      if ltb (length b.items) b.room
      then (true, record b { items = b.items ++ v ∷ [] })
      else (false, b)

  abbrev pub take_from : List (Option T) → Bounded T → Option T × Bounded T
  take_from [] b = (none, b)
  take_from (v ∷ l) b =
      (v, record { items = l; room = if b.begun then b.room else b.room - 1; begun = true })

  unfoldable pub take_spec : Bounded T → Option T × Bounded T
  take_spec b = take_from b.items b

  abbrev pub ask_spec : Bounded T → Bool
  ask_spec b = elim b.items [ [] ↦ true | v ∷ l ↦ false ]

  unfoldable pub answers_spec : List (Call T) → Bounded T → List (Answer T)
  unfolding put_spec take_spec
  answers_spec [] b = []
  answers_spec (put v ∷ l) b = let (done, b') = put_spec v b in entered done ∷ answers_spec l b'
  answers_spec (take ∷ l) b = let (v, b') = take_spec b in taken v ∷ answers_spec l b'
  answers_spec (ask ∷ l) b = is_bare (ask_spec b) ∷ answers_spec l b

  -- The answers of the code; `none` where an operation does not end.
  unfoldable pub answers : List (Call T) → HQueue T → Option (List (Answer T))
  unfolding enqueue dequeue is_empty
  answers [] q = some []
  answers (put v ∷ l) q = elim (enqueue v q) [
    | none ↦ none
    | some (done, q') ↦ elim (answers l q') [ none ↦ none | some r ↦ some (entered done ∷ r) ]
  ]
  answers (take ∷ l) q = elim (dequeue q) [
    | none ↦ none
    | some (v, q') ↦ elim (answers l q') [ none ↦ none | some r ↦ some (taken v ∷ r) ]
  ]
  answers (ask ∷ l) q = elim (answers l q) [
    | none ↦ none
    | some r ↦ some (is_bare (is_empty q) ∷ r)
  ]
