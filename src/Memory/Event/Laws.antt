-- ===== src/Memory/Event/Laws.antt =====
-- What the event operations of a buffer promise.
use ccbase.Base.{
  ℕ, ◌%◌, ◌^◌, ◌≤◌, ◌<◌, ◌≡◌, ◌≢◌, refl, ap, inl, inr, true, false, Option, none, some, [], ◌∷◌,
  ◌++◌, arith, ◌==◌, leb, ltb, All, Bool-cases, Option-cases, if◌then◌else◌,
}
use ccbase.Memory.Event.{
  EventList, EventMap, EventBase, no_events, find_events, append_event, erase_events,
  replace_events, record_event, pop_events, wait_event, wait_in, is_event_not_used, sync_lists,
  sync_all_events, events_or_empty,
}

append_event-cons :
    (s : ℕ) (e : ℕ × ℕ) (m : EventMap)
    → is_event_not_used (record { events = some (append_event s e m) }) ≡ false
unfolding append_event
append_event-cons s e [] = refl
append_event-cons s e ((k, l) ∷ m) = ground arith

-- A buffer with a new event is in use by events.
pub record_event-used :
    (t s e : ℕ) (b : EventBase) → is_event_not_used (record_event t s e b) ≡ false
unfolding record_event
record_event-used t s e b = append_event-cons s (t, e) (events_or_empty b)

sync_lists-nil : (m : EventMap) → sync_lists m ≡ []
unfolding sync_lists
sync_lists-nil [] = refl
sync_lists-nil (l ∷ m) = sync_lists-nil m

-- After the events are synchronised none is left.
pub sync_all_events-empty : (b : EventBase) → is_event_not_used (sync_all_events b).1 ≡ true
unfolding sync_all_events
sync_all_events-empty b = elim (Option-cases b.events) [
  | inl e ↦ rw e
  | inr (m, e) ↦ ground (arith, sync_lists-nil m)
]

-- What stays behind the popped prefix begins with a later task, and every popped event is due.
pub pop_events-split :
    (t : ℕ) (l : EventList)
    → (popped : EventList) × (l ≡ popped ++ pop_events t l)
      × All (λ (x : ℕ × ℕ). x.0 ≤ t) popped
      × ((i e : ℕ) (r : EventList) → pop_events t l ≡ (i, e) ∷ r → t < i)
unfolding pop_events
pop_events-split t [] = ([], refl, tt, λ i e r h. cc)
pop_events-split t ((i, e) ∷ l) = elim (Bool-cases (leb i t)) [
  | inl due ↦
      let (popped, parts, dues, rest) = pop_events-split t l in
      ((i, e) ∷ popped, rw due (ap (◌∷◌ (i, e)) parts), (ground arith, dues), rw due rest)
  | inr later ↦ ([], rw later, tt, rw later (λ j f r h. ground arith))
]

-- A buffer whose one event is waited for by its own task id is free of events exactly for the ids
-- below 2^32.
pub wait_event-truncates :
    (t s e : ℕ)
    → is_event_not_used (wait_event t s (record_event t s e no_events)).1 ≡ ltb t (2 ^ 32)
unfolding wait_event record_event
wait_event-truncates t s e = ground arith

-- No stream id stands twice in the map.
abbrev pub Missing : ℕ → EventMap → Type 0
Missing s [] = Unit {0}
Missing s ((k, l) ∷ m) = (s ≢ k) × Missing s m

abbrev pub Distinct : EventMap → Type 0
Distinct [] = Unit {0}
Distinct ((k, l) ∷ m) = Missing k m × Distinct m

find-Missing : (s : ℕ) (m : EventMap) → Missing s m → find_events s m ≡ none
unfolding find_events
find-Missing s [] x = refl
find-Missing s ((k, l) ∷ m) x = ground (arith, find-Missing s m)

find-erase :
    (s q : ℕ) (m : EventMap)
    → Distinct m
    → find_events q (erase_events s m) ≡ (if q == s then none else find_events q m)
unfolding find_events erase_events
find-erase s q [] d = ground arith
find-erase s q ((k, l) ∷ m) d = ground (arith, find-erase s q m, find-Missing k m)

find-replace :
    (s q : ℕ) (l l' : EventList) (m : EventMap)
    → find_events s m ≡ some l
    → find_events q (replace_events s l' m) ≡ (if q == s then some l' else find_events q m)
unfolding find_events replace_events
find-replace s q l l' [] e = cc
find-replace s q l l' ((k, x) ∷ m) e = ground (arith, find-replace s q l l' m)

-- What is left of an event list: nothing stays in the map for an empty one.
abbrev pub remaining : EventList → Option EventList
remaining [] = none
remaining (e ∷ l) = some (e ∷ l)

wait_in-find :
    (s q : ℕ) (l l' : EventList) (m : EventMap)
    → Distinct m
    → find_events s m ≡ some l
    → find_events q (wait_in s l' m) ≡ (if q == s then remaining l' else find_events q m)
wait_in-find s q l [] m d e = find-erase s q m d
wait_in-find s q l (x ∷ l') m d e = find-replace s q l (x ∷ l') m e

-- For a task id of 32 bits and a stream with events, in a map without repeated streams: waiting
-- answers true; the stream's list is a popped part, whose task ids are all at most the one waited
-- for, followed by a rest that is empty or begins with a later task; the stream keeps that rest, or
-- is taken out of the map if the rest is empty; and no other stream changes.
pub wait_event-find :
    (t s : ℕ) (m : EventMap) (l : EventList)
    → t < 2 ^ 32
    → Distinct m
    → find_events s m ≡ some l
    → let r = wait_event t s (record { events = some m }) in
      (r.0 ≡ true)
      × (popped : EventList) × (rest : EventList) × (l ≡ popped ++ rest)
      × All (λ (x : ℕ × ℕ). x.0 ≤ t) popped
      × ((i e : ℕ) (l' : EventList) → rest ≡ (i, e) ∷ l' → t < i)
      × ((q : ℕ)
          → find_events q (events_or_empty r.1)
            ≡ (if q == s then remaining rest else find_events q m))
unfolding wait_event
wait_event-find t s m l small d e =
    let exact : t % 2 ^ 32 ≡ t = omega arith in
    let (popped, parts, dues, later) = pop_events-split t l in
    rw (e, wait_event, exact)
      (
        refl,
        popped,
        pop_events t l,
        parts,
        dues,
        later,
        λ q. wait_in-find s q l (pop_events t l) m d e,
      )
