-- ===== src/Memory/Event.antt =====
-- EventBase of memory/dynamic_memory_pool.cc: the device events that a buffer waits for.
pub mod Laws
mod Tests
use ccbase.Base.{
  ℕ, ◌%◌, ◌^◌, Bool, true, false, Option, none, some, List, [], ◌∷◌, ◌++◌, ◌==◌, leb, if◌then◌else◌,
}

-- A task id on a stream, and the device event (a shared pointer, here an opaque number).
abbrev pub TaskIdOnStreamEvent : Type 0
TaskIdOnStreamEvent = ℕ × ℕ

abbrev pub EventList : Type 0
EventList = List TaskIdOnStreamEvent

-- The unordered map from user stream ids to event lists.
abbrev pub EventMap : Type 0
EventMap = List (ℕ × EventList)

-- `events_` is null until the first event is recorded.
pub record EventBase : Type 0 where
  pub events : Option EventMap

abbrev pub no_events : EventBase
no_events = record { events = none }

unfoldable pub find_events : ℕ → EventMap → Option EventList
find_events s [] = none
find_events s ((k, l) ∷ m) = if k == s then some l else find_events s m

-- The list is appended to through its pointer, or a new list is put under the stream id.
unfoldable pub append_event : ℕ → TaskIdOnStreamEvent → EventMap → EventMap
append_event s e [] = (s, e ∷ []) ∷ []
append_event s e ((k, l) ∷ m) = if k == s then (k, l ++ e ∷ []) ∷ m else (k, l) ∷ append_event s e m

unfoldable pub erase_events : ℕ → EventMap → EventMap
erase_events s [] = []
erase_events s ((k, l) ∷ m) = if k == s then m else (k, l) ∷ erase_events s m

unfoldable pub replace_events : ℕ → EventList → EventMap → EventMap
replace_events s l' [] = []
replace_events s l' ((k, l) ∷ m) = if k == s then (k, l') ∷ m else (k, l) ∷ replace_events s l' m

abbrev pub events_or_empty : EventBase → EventMap
events_or_empty b = elim b.events [ none ↦ [] | some m ↦ m ]

unfoldable pub record_event : (task_id_on_stream user_stream_id event : ℕ) → EventBase → EventBase
unfolding append_event
record_event t s e b = record { events = some (append_event s (t, e) (events_or_empty b)) }

-- Pop every event at the front whose task id is not bigger.
unfoldable pub pop_events : ℕ → EventList → EventList
pop_events t [] = []
pop_events t ((i, e) ∷ l) = let rest = pop_events t l in if leb i t then rest else (i, e) ∷ l

abbrev wait_in : ℕ → EventList → EventMap → EventMap
wait_in s [] m = erase_events s m
wait_in s (e ∷ l) m = replace_events s (e ∷ l) m

-- The parameter of `EventBase::WaitEvent` is a `uint32_t`, so the caller's 64-bit id is cut.
unfoldable pub wait_event : (task_id_on_stream user_stream_id : ℕ) → EventBase → Bool × EventBase
unfolding find_events pop_events erase_events replace_events
wait_event t s b = elim b.events [
  | none ↦ (false, b)
  | some m ↦ elim (find_events s m) [
    | none ↦ (false, b)
    | some l ↦ (true, record { events = some (wait_in s (pop_events (t % 2 ^ 32) l) m) })
  ]
]

abbrev pub is_event_not_used : EventBase → Bool
is_event_not_used b = elim b.events [ none ↦ true | some m ↦ elim m [ [] ↦ true | _ ∷ _ ↦ false ] ]

-- Every list is emptied event by event and erased from the map.
unfoldable pub sync_lists : EventMap → EventMap
sync_lists [] = []
sync_lists (l ∷ m) = sync_lists m

unfoldable pub sync_all_events : EventBase → Bool × EventBase
unfolding sync_lists
sync_all_events b = if is_event_not_used b then (false, b) else elim b.events [
  | none ↦ (false, b)
  | some m ↦
      (elim (sync_lists m) [ [] ↦ true | _ ∷ _ ↦ false ], record { events = some (sync_lists m) })
]
