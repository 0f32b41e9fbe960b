-- ===== src/Nice/HQueue/Tests.antt =====
-- Runs of a queue of three nodes.
use ccbase.Base.{ℕ, ◌-◌, ◌≡◌, refl, true, false, none, some, List, [], ◌∷◌, arith}
use ccbase.Nice.HQueue.{HQueue, new_queue, init}
use ccbase.Nice.HQueue.Bounded.{
  Call, put, take, ask, entered, taken, is_bare, start, answers, answers_spec,
}
use ccbase.Nice.HQueue.Refine.{answers-init}

abbrev calls : List (Call ℕ)
calls = put (some 5) ∷ take ∷ put (some 6) ∷ put (some 7) ∷ ask ∷ take ∷ take ∷ ask ∷ []

abbrev ready : HQueue ℕ
ready = (init 3 new_queue).1

answers-init_example :
    answers calls (init 3 new_queue).1 ≡ some (answers_spec calls (start (3 - 1)))
answers-init_example = answers-init 3 calls (omega arith)

-- After the first value was taken there is room for one, although two are free.
one_left :
    answers calls ready
    ≡ some (
        entered true
        ∷ taken (some 5)
        ∷ entered true
        ∷ entered false
        ∷ is_bare false
        ∷ taken (some 6)
        ∷ taken none
        ∷ is_bare true
        ∷ [])
unfolding answers init
one_left = refl

-- A queue of two nodes takes one value ever.
one_ever :
    answers (put (some 5) ∷ take ∷ put (some 6) ∷ []) (init {T = ℕ} 2 new_queue).1
    ≡ some (entered true ∷ taken (some 5) ∷ entered false ∷ [])
unfolding answers init
one_ever = refl
