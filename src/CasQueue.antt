-- ===== src/CasQueue.antt =====
-- The lock-free queue, cas/queue.go: every atomic operation of a goroutine is a step of its own.
pub mod Order
pub mod Moves
pub mod Linking
pub mod Advance
pub mod Calls
pub mod Fifo
pub mod Empty
use lgobase.Base.{ℕ, zero, suc, List, [], ◌∷◌, Option, none, some, ◌==◌, if◌then◌else◌}

abbrev pub update {ℓ} : {A : Type ℓ} → (ℕ → A) → ℕ → A → ℕ → A
update f i a j = if j == i then a else f j

-- A `CasQueue` with the heap of its items: `allocated` of them, the next free one first. An item of a
-- value has `some` of it, and the dummy item has none.
pub record CasQueue : Type 0 where
  pub head : ℕ
  pub tail : ℕ
  pub allocated : ℕ
  pub next : ℕ → Option ℕ
  pub value : ℕ → Option ℕ

-- `CreateCasQueue`.
abbrev pub create_cas_queue : CasQueue
create_cas_queue = record { head = 0; tail = 0; allocated = 1; next = λ i. none; value = λ i. none }

-- What a call has returned: `PushBack`, and `PopFront` with a value or with none.
pub data Return : Type 0 where
  pushed : Return
  popped : Option ℕ → Return
  nothing_left : Return

-- Where a goroutine stands in `PushBack` and `PopFront`, with its local variables: in front of the
-- operation that gives the state its name.
pub data Local : Type 0 where
  returned : Option Return → Local
  push_load_tail : ℕ → Local
  push_load_next : ℕ → ℕ → Local
  push_check : ℕ → ℕ → Option ℕ → Local
  push_help : ℕ → ℕ → ℕ → Local
  push_link : ℕ → ℕ → Local
  push_swing : ℕ → ℕ → Local
  pop_load_head : Local
  pop_load_tail : ℕ → Local
  pop_load_next : ℕ → ℕ → Local
  pop_check : ℕ → ℕ → Option ℕ → Local
  pop_help : ℕ → ℕ → Local
  pop_swing : ℕ → ℕ → Option ℕ → Local
  panicked : Local

-- What a step does to the contents of the queue.
pub data Effect : Type 0 where
  no_effect : Effect
  enqueues dequeues : Option ℕ → Effect

-- `CompareAndSwapPointer` on `Tail`, on `Head`, and on the `next` of an item.
abbrev pub swap_tail : CasQueue → ℕ → ℕ → CasQueue
swap_tail q old new = if q.tail == old then record q { tail = new } else q

abbrev pub swing_head : CasQueue → ℕ → ℕ → Option ℕ → Local × CasQueue × Effect
swing_head q old new v =
    if q.head == old
    then (returned (some (popped v)), record q { head = new }, dequeues v)
    else (pop_load_head, q, no_effect)

abbrev pub link : CasQueue → ℕ → ℕ → Option ℕ → Local × CasQueue × Effect
link q node tail none = (
  push_swing node tail,
  record q { next = update q.next tail (some node) },
  enqueues (q.value node),
)
link q node tail (some other) = (push_load_tail node, q, no_effect)

abbrev pub after_push_check : ℕ → ℕ → Option ℕ → Local
after_push_check node tail none = push_link node tail
after_push_check node tail (some next) = push_help node tail next

abbrev pub after_pop_check : CasQueue → ℕ → ℕ → Option ℕ → Local
after_pop_check q head tail none = if head == tail then returned (some nothing_left) else panicked
after_pop_check q head tail (some next) =
    if head == tail then pop_help tail next else pop_swing head next (q.value next)

-- An operation of a goroutine that is in a call.
unfoldable pub advance : CasQueue → Local → Local × CasQueue × Effect
advance q (returned r) = (returned r, q, no_effect)
advance q (push_load_tail node) = (push_load_next node q.tail, q, no_effect)
advance q (push_load_next node tail) = (push_check node tail (q.next tail), q, no_effect)
advance q (push_check node tail next) =
    (if tail == q.tail then after_push_check node tail next else push_load_tail node, q, no_effect)
advance q (push_help node tail next) = (push_load_tail node, swap_tail q tail next, no_effect)
advance q (push_link node tail) = link q node tail (q.next tail)
advance q (push_swing node tail) = (returned (some pushed), swap_tail q tail node, no_effect)
advance q pop_load_head = (pop_load_tail q.head, q, no_effect)
advance q (pop_load_tail head) = (pop_load_next head q.tail, q, no_effect)
advance q (pop_load_next head tail) = (pop_check head tail (q.next head), q, no_effect)
advance q (pop_check head tail next) =
    (if head == q.head then after_pop_check q head tail next else pop_load_head, q, no_effect)
advance q (pop_help tail next) = (pop_load_head, swap_tail q tail next, no_effect)
advance q (pop_swing head next v) = swing_head q head next v
advance q panicked = (panicked, q, no_effect)

-- A new call of a goroutine: `PushBack` makes its item first.
pub data Event : Type 0 where
  calls_push : ℕ → Event
  calls_pop goes_on : Event

abbrev pub with_item : CasQueue → ℕ → CasQueue
with_item q v = record q {
  allocated = suc q.allocated;
  next = update q.next q.allocated none;
  value = update q.value q.allocated (some v);
}

abbrev pub perform : CasQueue → Local → Event → Local × CasQueue × Effect
perform q (returned r) (calls_push v) = (push_load_tail q.allocated, with_item q v, no_effect)
perform q (returned r) calls_pop = (pop_load_head, q, no_effect)
perform q l e = advance q l

-- The queue and the goroutines that use it.
pub record World : Type 0 where
  pub queue : CasQueue
  pub locals : ℕ → Local

abbrev pub fresh : World
fresh = record { queue = create_cas_queue; locals = λ i. returned none }

abbrev pub settle : World → ℕ → Local × CasQueue × Effect → World × Effect
settle w i (l, q, e) = (record { queue = q; locals = update w.locals i l }, e)

-- The next operation of goroutine i.
unfoldable pub step : World → ℕ × Event → World × Effect
step w (i, e) = settle w i (perform w.queue (w.locals i) e)

-- An interleaving, with what it does to the contents.
unfoldable pub run : World → List (ℕ × Event) → World × List Effect
run w [] = (w, [])
run w (e ∷ es) = let (v, effect) = step w e in let (u, effects) = run v es in (u, effect ∷ effects)

abbrev pub one_more : Option ℕ → Option ℕ
one_more none = none
one_more (some n) = some (suc n)

abbrev print_next : (ℕ → Option ℕ) → Option ℕ → Option ℕ
print_next rest none = some 0
print_next rest (some i) = one_more (rest i)

-- The loop of `Print` from an item on, on fuel: how many items it visits.
unfoldable pub print_from : ℕ → CasQueue → ℕ → Option ℕ
print_from zero q i = none
print_from (suc fuel) q i = print_next (λ j. print_from fuel q j) (q.next i)

-- `Print`.
unfoldable pub print : ℕ → CasQueue → Option ℕ
print fuel q = print_from fuel q q.head
