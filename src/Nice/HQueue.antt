-- ===== src/Nice/HQueue.antt =====
-- HQueue of nice/include/hqueue.h: a linked queue in a fixed set of nodes. The operations run one
-- at a time, so that a value that was just read is still there when it is compared again.
pub mod Tally
pub mod Chain
pub mod Claim
pub mod Bounded
pub mod Busy
pub mod Loops
pub mod Represents
pub mod Steps
pub mod Refine
mod Tests
use ccbase.Base.{
  ℕ, zero, suc, ◌+◌, ◌-◌, ◌%◌, ◌^◌, Bool, true, false, not, ◌||◌, ◌&&◌, Option, none, some, ◌==◌,
  if◌then◌else◌,
}

-- The index -1 is `none`; the version is a uint32_t.
pub record Pointer : Type 0 where
  pub index : Option ℕ
  pub version : ℕ

-- The value is a pointer, with `none` for nullptr.
pub record HqNode (T : Type 0) : Type 0 where
  pub next : Pointer
  pub value : Option T
  pub free : Bool

-- `node_count` is `nodes.size()`; `nodes` is read below it.
pub record HQueue (T : Type 0) : Type 0 where
  pub qhead : Pointer
  pub qtail : Pointer
  pub nodes : ℕ → HqNode T
  pub node_count : ℕ
  pub queue_size : ℕ
  pub free_index : ℕ

abbrev pub nowhere : Pointer
nowhere = record { index = none; version = 0 }

-- The new value of a compare-and-exchange.
abbrev pub move_to : Option ℕ → Pointer → Pointer
move_to i p = record { index = i; version = (p.version + 1) % 2 ^ 32 }

abbrev pub same_index : Option ℕ → Option ℕ → Bool
same_index none none = true
same_index none (some j) = false
same_index (some i) none = false
same_index (some i) (some j) = i == j

module _ {T : Type 0} where
  abbrev pub set_node : (ℕ → HqNode T) → ℕ → HqNode T → ℕ → HqNode T
  set_node ns i n = λ j. if j == i then n else ns j

  -- A queue that was constructed.
  abbrev pub new_queue : HQueue T
  new_queue = record {
    qhead = nowhere;
    qtail = nowhere;
    nodes = λ i. record { next = nowhere; value = none; free = true };
    node_count = 0;
    queue_size = 0;
    free_index = 0;
  }

  abbrev pub is_init : HQueue T → Bool
  is_init q = not (q.node_count == 0)

  -- A negative size is refused as 0 is.
  unfoldable pub init : (sz : ℕ) → HQueue T → Bool × HQueue T
  init sz q = if is_init q || (sz == 0) then (false, q) else (
    true,
    record {
      qhead = record { index = some 0; version = 0 };
      qtail = record { index = some 0; version = 0 };
      nodes = λ i. record { next = nowhere; value = none; free = not (i == 0) };
      node_count = sz;
      queue_size = sz;
      free_index = 1;
    },
  )

  unfoldable pub clean : HQueue T → HQueue T
  clean q = record q { node_count = 0 }

  -- A search of `Enqueue` for a free node, from `idx` on.
  unfoldable pub claim : (count idx : ℕ) → HQueue T → Option ℕ × HQueue T
  claim zero i q = (none, q)
  claim (suc n) i q =
      let rest = claim n (i + 1) q in
      if (q.nodes i).free
      then (
        some i,
        record q {
          nodes = set_node q.nodes i (record (q.nodes i) { free = false });
          free_index = i + 1;
        },
      )
      else rest

  -- The second search, from 1 on, where the first has found nothing.
  abbrev pub search_again : Option ℕ × HQueue T → Option ℕ × HQueue T
  unfolding claim
  search_again (some i, q) = (some i, q)
  search_again (none, q) = claim (q.queue_size - 1) 1 (record q { free_index = 1 })

  unfoldable pub claim_node : HQueue T → Option ℕ × HQueue T
  unfolding claim
  claim_node q = search_again (claim (q.queue_size - q.free_index) q.free_index q)

  -- The loop of `Enqueue`; `none` is a loop that has not ended within the fuel.
  unfoldable pub link_node : (fuel idx : ℕ) → HQueue T → Option (HQueue T)
  link_node zero i q = none
  link_node (suc f) i q =
      let again = link_node f i q in
      elim q.qtail.index [
        | none ↦ again
        | some t ↦
            let node = q.nodes t in
            let helped = link_node f i (record q { qtail = move_to node.next.index q.qtail }) in
            elim node.next.index [
              | some n ↦ helped
              | none ↦ some (record q {
                nodes = set_node q.nodes t (record node { next = move_to (some i) node.next });
                qtail = move_to (some i) q.qtail;
              })
            ]
      ]

  -- `Enqueue` behind the searches: the value goes into the node, and the node is linked.
  abbrev pub fill_node : Option T → Option ℕ × HQueue T → Option (Bool × HQueue T)
  unfolding link_node
  fill_node v (none, q) = some (false, q)
  fill_node v (some i, q) =
      let node = record (q.nodes i) { value = v; next = nowhere } in
      elim (link_node q.queue_size i (record q { nodes = set_node q.nodes i node })) [
        | none ↦ none
        | some q' ↦ some (true, q')
      ]

  unfoldable pub enqueue : Option T → HQueue T → Option (Bool × HQueue T)
  unfolding claim_node link_node
  enqueue v q = fill_node v (claim_node q)

  -- The loop of `Dequeue`.
  unfoldable pub dequeue_loop : (fuel : ℕ) → HQueue T → Option (Option T × HQueue T)
  dequeue_loop zero q = none
  dequeue_loop (suc f) q =
      let again = dequeue_loop f q in
      elim q.qhead.index [
        | none ↦ again
        | some h ↦
            let node = q.nodes h in
            let helped = dequeue_loop f (record q { qtail = move_to node.next.index q.qtail }) in
            elim node.next.index [
              | none ↦ if same_index q.qhead.index q.qtail.index then some (none, q) else again
              | some n ↦
                  if same_index q.qhead.index q.qtail.index
                  then helped
                  else some (
                    (q.nodes n).value,
                    record q {
                      qhead = move_to (some n) q.qhead;
                      nodes = set_node q.nodes h (record node { free = true });
                    },
                  )
            ]
      ]

  unfoldable pub dequeue : HQueue T → Option (Option T × HQueue T)
  unfolding dequeue_loop
  dequeue q = dequeue_loop (q.queue_size + 1) q

  unfoldable pub is_empty : HQueue T → Bool
  is_empty q = elim q.qhead.index [
    | none ↦ false
    | some h ↦ same_index q.qhead.index q.qtail.index && same_index (q.nodes h).next.index none
  ]
