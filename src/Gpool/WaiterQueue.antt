-- ===== src/Gpool/WaiterQueue.antt =====
-- gpool/waiter_queue.go: the intrusive doubly linked list of waiting callers. A waiter is a heap
-- address, and the store holds the link fields of every waiter with the fields of the queue.
pub mod Chain
pub mod Refines
use lgobase.Base.{ℕ, ◌+◌, ◌-◌, Option, none, some, ◌==◌, if◌then◌else◌}

-- The link fields of a `poolWaiter`.
pub record Node : Type 0 where
  pub prev : Option ℕ
  pub next : Option ℕ

-- A `waiterQueue`, with the heap of nodes behind it.
pub record WaiterQueue : Type 0 where
  pub node : ℕ → Node
  pub head : Option ℕ
  pub tail : Option ℕ
  pub size : ℕ

abbrev pub len : WaiterQueue → ℕ
len q = q.size

-- Writes through a pointer.
abbrev set_node : WaiterQueue → ℕ → Node → WaiterQueue
set_node q w n = record q { node = λ j. if j == w then n else q.node j }

abbrev set_next : WaiterQueue → ℕ → Option ℕ → WaiterQueue
set_next q w v = set_node q w (record { prev = (q.node w).prev; next = v })

abbrev set_prev : WaiterQueue → ℕ → Option ℕ → WaiterQueue
set_prev q w v = set_node q w (record { prev = v; next = (q.node w).next })

-- `if q.tail == nil { q.head = waiter } else { q.tail.next = waiter }`, by the tail.
append_after : Option ℕ → WaiterQueue → ℕ → WaiterQueue
append_after none q w = record q { head = some w }
append_after (some t) q w = set_next q t (some w)

unfoldable pub push_back : WaiterQueue → ℕ → WaiterQueue
unfolding append_after
push_back q w =
    let q₁ = set_node q w (record { prev = q.tail; next = none }) in
    let q₂ = append_after q₁.tail q₁ w in record q₂ { tail = some w; size = q₂.size + 1 }

-- `if waiter.prev == nil { q.head = waiter.next } else { waiter.prev.next = waiter.next }`.
unlink_next : Option ℕ → WaiterQueue → Option ℕ → WaiterQueue
unlink_next none q next = record q { head = next }
unlink_next (some p) q next = set_next q p next

-- `if waiter.next == nil { q.tail = waiter.prev } else { waiter.next.prev = waiter.prev }`.
unlink_prev : Option ℕ → WaiterQueue → Option ℕ → WaiterQueue
unlink_prev none q prev = record q { tail = prev }
unlink_prev (some n) q prev = set_prev q n prev

unfoldable pub remove : WaiterQueue → ℕ → WaiterQueue
unfolding unlink_next unlink_prev
remove q w =
    let q₁ = unlink_next (q.node w).prev q (q.node w).next in
    let q₂ = unlink_prev (q₁.node w).next q₁ (q₁.node w).prev in
    let q₃ = set_node q₂ w (record { prev = none; next = none }) in record q₃ { size = q₃.size - 1 }

-- On the head: nil for an empty queue.
pop_head : Option ℕ → WaiterQueue → WaiterQueue × Option ℕ
pop_head none q = (q, none)
pop_head (some w) q = (remove q w, some w)

unfoldable pub pop_front : WaiterQueue → WaiterQueue × Option ℕ
unfolding pop_head
pop_front q = pop_head q.head q
