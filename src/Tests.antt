-- ===== src/Tests.antt =====
-- Runs of the ring, of the queue of waiters and of the pool on small data, with their theorems at
-- those runs.
mod Tokens
mod Selection
mod Queue
mod Calls
mod Identifiers
use lgobase.Base.{
  ℕ, zero, suc, ◌+◌, ◌≤◌, ◌≡◌, ◌≢◌, refl, ◌⊎◌, Bool, true, false, List, [], ◌∷◌, ◌++◌, map, none,
  some, length, get_elem?, count, mem, erase, arith,
}
use lgobase.Base.Int.{ℤ, pos, pos_part}
use lgobase.Gpool.IdleQueue.{new_idle_queue, push}
use lgobase.Gpool.IdleQueue.Ring.{Holds}
use lgobase.Gpool.IdleQueue.Deque
use lgobase.Gpool.WaiterQueue.{Node}
use lgobase.Gpool.WaiterQueue.Chain.{Apart}
use lgobase.Gpool.WaiterQueue.Refines
use lgobase.Gpool.Pool.{
  Gpool, PoolConn, Config, init, borrowed, closing, closing_conn, creating_conn, reopens, parked,
  returned, panicked, pool_closed, capacity_used, set_state,
}
use lgobase.Gpool.Pool.Locked.{create_result, dispatch, dispatch_from, new_for_use}
use lgobase.Gpool.Pool.Borrow.{made, get, finish_create, wait_begin, receive, wait_result}
use lgobase.Gpool.Pool.Return.{close_conn, reusable_for_handoff, state_of}
use lgobase.Gpool.Pool.Shutdown.{close_pool}
use lgobase.Gpool.Pool.Dispatch.{reservations}
use lgobase.Gpool.Pool.Ownership.{is_idle, is_closing, borrowed_count}
use lgobase.Gpool.Pool.World.{
  Event, calls, resumes, gets, closes_conn, closes_pool, conn_created, conn_closed, run, step,
  perform, resume, take_at, advance, settle,
}
use lgobase.Gpool.Pool.Invariant.{closings, makers}
use lgobase.Gpool.Pool.{wait_timeout, blocked}
use lgobase.Gpool.Pool.Borrow.{cancel_waiter}
use lgobase.Gpool.Pool.Mailbox.{pending, is_queued, waiting_in}
use lgobase.Gpool.Pool.{other}
use lgobase.Gpool.Pool.Borrow.{Created, failed}
use lgobase.Gpool.Pool.Opening.{open_pool, create_idle_conn, create_idle, create_idle_one}
use lgobase.Gpool.Pool.World.{World}
use lgobase.Gpool.Pool.{idle}
use lgobase.Gpool.Pool.Overtaken.{
  RacyEvent, undisturbed, gets_overtaken, returns_late, closes_again,
}
use lgobase.Gpool.Pool.Overtaken.Miscount
use lgobase.Gpool.Pool.Mailbox.Run
use lgobase.Gpool.Pool.Filling
use lgobase.Gpool.Pool.Safety
use lgobase.Gpool.Pool.Panics
use lgobase.Gpool.Pool.Handoff
use lgobase.Gpool.Pool.Reopening

abbrev always_open : ℕ → Bool
always_open c = true

-- One connection at most, kept when idle, and one waiter.
abbrev single : Config
single = record {
  max_conns = pos 1;
  max_idle_conns = pos 1;
  max_waiters = pos 1;
  max_conn_life = pos 0;
  max_idle_conn_life = pos 0;
  rpc_max_retries = pos 3;
  pool_fifo = true;
}

-- The server is down when the pool is opened.
abbrev refused : ℕ → Created × ℤ
refused i = (failed (other 7), pos 9)

-- A caller borrows the connection, a second one waits for it.
abbrev contended : List Event
contended =
    calls (gets (pos 10) always_open)
    ∷ resumes 0 (conn_created (made (pos 10)))
    ∷ calls (gets (pos 11) always_open)
    ∷ []

-- The connection comes back and goes to the ring, and the pool is closed.
abbrev shut_down : List Event
shut_down =
    calls (gets (pos 10) always_open)
    ∷ resumes 0 (conn_created (made (pos 10)))
    ∷ calls (closes_conn 0 (pos 12) true)
    ∷ calls closes_pool
    ∷ resumes 0 (conn_closed none)
    ∷ []

abbrev busy : Gpool
busy = Safety.pool_after single refused contended

abbrev drained : Gpool
drained = Safety.pool_after single refused shut_down

-- The waiter is queued behind the one connection, which is borrowed.
contended_run : (busy.closed ≡ false) × (busy.waiters ≡ 0 ∷ []) × (busy.in_use ≡ 1)
unfolding run step perform advance settle resume take_at init open_pool create_idle_conn create_idle
    create_idle_one new_idle_queue get wait_begin dispatch dispatch_from new_for_use finish_create
contended_run = (refl, refl, refl)

capacity_used-bounded_example : capacity_used busy ≤ suc (pos_part single.max_conns)
capacity_used-bounded_example = Safety.capacity_used-bounded single refused contended

no_lost_wakeup_example : (busy.waiters ≡ []) ⊎ (pos_part single.max_conns ≤ capacity_used busy)
no_lost_wakeup_example = Safety.no_lost_wakeup single refused contended contended_run.0

-- The same calls, none of them overtaken, and a goroutine that finds nothing to give back.
abbrev undisturbed_calls : List RacyEvent
undisturbed_calls =
    undisturbed (calls (gets (pos 10) always_open))
    ∷ undisturbed (resumes 0 (conn_created (made (pos 10))))
    ∷ undisturbed (calls (gets (pos 11) always_open))
    ∷ returns_late (pos 11) true
    ∷ []

connections_owned_example :
    let v = Safety.racy_after single refused undisturbed_calls in
    (ring : List ℕ) × Holds v.gp.idle ring
    × ((j : ℕ) → count j ring ≡ is_idle (get_elem? v.gp.conns j))
    × ((j : ℕ) → count j (closings v.tasks) ≡ is_closing (get_elem? v.gp.conns j))
connections_owned_example = Safety.connections_owned single refused undisturbed_calls tt

counters_agree_example :
    let v = Safety.racy_after single refused undisturbed_calls in
    (v.gp.in_use ≡ borrowed_count v.gp.conns)
    × (v.gp.closing ≡ length (closings v.tasks))
    × (v.gp.creating ≡ makers v.tasks + reservations v.gp.results)
    × (v.gp.waits ≡ length v.gp.waiters)
    × (length v.gp.waiters ≤ pos_part v.gp.max_waiters)
counters_agree_example = Safety.counters_agree single refused undisturbed_calls tt

closed_pool_empty_example :
    ((drained.closed ≡ false) ⊎ ((drained.waiters ≡ []) × (drained.idle.size ≡ 0)))
    × ((drained.close_ended ≡ false) ⊎ (drained.closed ≡ true))
closed_pool_empty_example = Safety.closed_pool_empty single refused shut_down

perform-never_panics_example : (perform busy (closes_conn 0 (pos 12) true)).1 ≢ panicked
perform-never_panics_example =
    Panics.perform-never_panics single refused contended (closes_conn 0 (pos 12) true)

one_result_example :
    (waiting_in 0 (Safety.tasks_after single refused contended)
      ≡ count 0 busy.waiters + pending 0 busy.results)
    × (waiting_in 0 (Safety.tasks_after single refused contended) ≤ 1)
    × (count 0 busy.waiters ≡ is_queued (get_elem? busy.waiter_states 0))
one_result_example = Run.one_result single refused contended 0

-- The second caller waits as the first waiter.
second_waits : waiting_in 0 (Safety.tasks_after single refused contended) ≡ 1
unfolding run step perform advance settle resume take_at init open_pool create_idle_conn create_idle
    create_idle_one new_idle_queue get wait_begin dispatch dispatch_from new_for_use finish_create
second_waits = refl

cancel_waiter-never_blocks_example : (cancel_waiter busy 0 wait_timeout).1 ≢ blocked
cancel_waiter-never_blocks_example =
    Run.cancel_waiter-never_blocks single refused contended 0 wait_timeout second_waits

-- The one slot is free again and two callers wait.
abbrev freed : Gpool
freed = record (init single) { waiters = 0 ∷ 1 ∷ []; waits = 2 }

dispatch-serves_oldest_example :
    (served : List ℕ) × (freed.waiters ≡ served ++ (dispatch freed).waiters)
    × ((dispatch freed).results ≡ freed.results ++ map Handoff.created_for served)
    × ((dispatch freed).creating ≡ freed.creating + length served)
    × ((freed.closed ≡ true)
        ⊎ (((dispatch freed).waiters ≡ [])
            ⊎ (pos_part freed.max_conns ≤ capacity_used (dispatch freed))))
    × ((served ≡ []) ⊎ (capacity_used (dispatch freed) ≤ pos_part freed.max_conns))
dispatch-serves_oldest_example = Handoff.dispatch-serves_oldest freed

abbrev lent : PoolConn
lent = record { ctime = pos 10; idle_time = pos 0; state = borrowed }

-- The one connection is lent out and a caller waits for it.
abbrev awaited : Gpool
awaited = record (init single) { waiters = 0 ∷ []; waits = 1; in_use = 1; conns = lent ∷ [] }

wait_result-close_conn_example :
    let gp' = (close_conn awaited 0 (pos 12) true).0 in
    ((wait_result gp' 0).1 ≡ returned (some 0) none)
    × ((wait_result gp' 0).0.results ≡ awaited.results)
    × (gp'.waiters ≡ [])
    × (state_of (get_elem? gp'.conns 0) ≡ borrowed)
    × (capacity_used gp' ≡ capacity_used awaited)
unfolding init receive reusable_for_handoff
wait_result-close_conn_example =
    Handoff.wait_result-close_conn awaited 0 lent (pos 12) true 0 [] refl refl refl refl refl refl

wait_result-close_pool_example :
    (wait_result (close_pool awaited).0 0).1 ≡ returned none (some pool_closed)
unfolding init receive mem
wait_result-close_pool_example = Handoff.wait_result-close_pool awaited 0 refl refl refl

-- The stale connection is being closed, and a caller waits.
abbrev stale : Gpool
stale = record awaited { in_use = 0; closing = 1; conns = set_state closing lent ∷ [] }

reopening-exceeds_limit_example :
    let r = resume stale (closing_conn 0 reopens) (conn_closed none) in
    (r.1 ≡ parked creating_conn)
    × (r.0.results ≡ stale.results ++ (0, create_result) ∷ [])
    × (r.0.waiters ≡ [])
    × (pos (capacity_used r.0) ≡ pos (suc (pos_part stale.max_conns)))
unfolding init open_pool create_idle_conn create_idle create_idle_one new_idle_queue
reopening-exceeds_limit_example =
    Reopening.reopening-exceeds_limit stale 0 0 [] none refl refl (omega arith) refl

abbrev triple : Config
triple = record single { max_conns = pos 3; max_idle_conns = pos 5 }

-- One connection of two is borrowed, and the other one is idle, and its server has closed it.
abbrev one_idle : World
one_idle = record {
  gp = record (init triple) {
    idle = (push (new_idle_queue (pos 3)) (some 0)).0;
    in_use = 1;
    conns = record lent { state = idle } ∷ lent ∷ [];
  };
  tasks = [];
}

abbrev racy_calls : List RacyEvent
racy_calls = gets_overtaken (pos 20) (λ i. false) closes_again ∷ returns_late (pos 21) false ∷ []

abbrev stale_shut : Gpool
stale_shut = record stale { waiters = []; waits = 0; closed = true }

reopening-outlives_close_example :
    let r = resume stale_shut (closing_conn 0 reopens) (conn_closed none) in
    (r.1 ≡ parked creating_conn) × (r.0.close_ended ≡ true) × (r.0.creating ≡ 1)
unfolding init open_pool create_idle_conn create_idle create_idle_one new_idle_queue
reopening-outlives_close_example =
    Reopening.reopening-outlives_close stale_shut 0 none refl refl (omega arith) refl

-- The second of three attempts fails.
abbrev twice : ℕ → Created × ℤ
twice zero = (made (pos 10), pos 11)
twice (suc zero) = (failed (other 7), pos 12)
twice (suc (suc i)) = (made (pos 13), pos 14)

size-open_pool_example :
    let gp = open_pool triple twice in
    (gp.idle.size ≡ 2)
    × (gp.conns ≡ Filling.conns_made 3 twice)
    × (length gp.conns ≡ 2)
    × Holds gp.idle (Filling.below (length gp.conns))
size-open_pool_example = Filling.size-open_pool triple twice

abbrev ring_run : List (Deque.Operation ℕ)
ring_run =
    Deque.pushes 1
    ∷ Deque.pushes 2
    ∷ Deque.pushes 3
    ∷ Deque.pops
    ∷ Deque.pushes 4
    ∷ Deque.pops_newest
    ∷ Deque.pops
    ∷ Deque.pops
    ∷ []

new-refines_deque_example :
    Deque.ring_answers (new_idle_queue (pos 2)) ring_run ≡ Deque.deque_answers 2 [] ring_run
new-refines_deque_example = Deque.new-refines_deque (pos 2) ring_run

abbrev unlinked : ℕ → Node
unlinked w = record { prev = none; next = none }

abbrev queue_run : List Refines.Operation
queue_run =
    Refines.pushes 5
    ∷ Refines.pushes 6
    ∷ Refines.pushes 7
    ∷ Refines.removes 6
    ∷ Refines.pops
    ∷ Refines.pushes 5
    ∷ Refines.removes 5
    ∷ Refines.pops
    ∷ Refines.pops
    ∷ []

queue_run-AllowedRun : Refines.AllowedRun [] queue_run
unfolding mem erase Refines.listed
queue_run-AllowedRun =
    let six : Apart (some 6) (5 ∷ []) = ((λ e. cc), tt) in
    let seven : Apart (some 7) (5 ∷ 6 ∷ []) = ((λ e. cc), ((λ e. cc), tt)) in
    let five : Apart (some 5) (7 ∷ []) = ((λ e. cc), tt) in
    (tt, (six, (seven, (refl, (tt, (five, (refl, (tt, (tt, tt)))))))))

empty-refines_list_example :
    Refines.linked_answers (Refines.empty unlinked) queue_run ≡ Refines.listed_answers [] queue_run
empty-refines_list_example = Refines.empty-refines_list unlinked queue_run queue_run-AllowedRun
