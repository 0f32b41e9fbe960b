-- ===== src/Memory/Event/Tests.antt =====
-- Runs of the event operations.
use ccbase.Base.{
  ℕ, ◌++◌, ◌≤◌, ◌<◌, All, ◌^◌, ◌≡◌, refl, true, false, some, [], ◌∷◌, arith, ltb, ◌==◌,
  if◌then◌else◌,
}
use ccbase.Memory.Event.{
  EventMap, EventList, no_events, find_events, record_event, wait_event, is_event_not_used,
  events_or_empty,
}
use ccbase.Memory.Event.Laws.{remaining, record_event-used, wait_event-truncates, wait_event-find}

abbrev two_streams : EventMap
two_streams = (7, (1, 10) ∷ (5, 50) ∷ []) ∷ (8, (2, 20) ∷ []) ∷ []

record_event-used_example : is_event_not_used (record_event 3 7 30 no_events) ≡ false
record_event-used_example = record_event-used 3 7 30 no_events

wait_event-truncates_example :
    is_event_not_used (wait_event (2 ^ 32) 7 (record_event (2 ^ 32) 7 30 no_events)).1
    ≡ ltb (2 ^ 32) (2 ^ 32)
wait_event-truncates_example = wait_event-truncates (2 ^ 32) 7 30

found_seven : find_events 7 two_streams ≡ some ((1, 10) ∷ (5, 50) ∷ [])
unfolding find_events
found_seven = refl

wait_event-find_example :
    let r = wait_event 3 7 (record { events = some two_streams }) in
    (r.0 ≡ true)
    × (popped : EventList) × (rest : EventList) × ((1, 10) ∷ (5, 50) ∷ [] ≡ popped ++ rest)
    × All (λ (x : ℕ × ℕ). x.0 ≤ 3) popped
    × ((i e : ℕ) (l : EventList) → rest ≡ (i, e) ∷ l → 3 < i)
    × ((q : ℕ)
        → find_events q (events_or_empty r.1)
          ≡ (if q == 7 then remaining rest else find_events q two_streams))
wait_event-find_example =
    wait_event-find 3 7 two_streams ((1, 10) ∷ (5, 50) ∷ []) (omega arith)
      (((λ e. absurd (omega arith)), tt), (tt, tt)) found_seven
