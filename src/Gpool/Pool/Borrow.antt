-- ===== src/Gpool/Pool/Borrow.antt =====
-- Borrowing: `Get` of gpool/gpool.go and the waiting side of gpool/waiter_queue.go, cut where they
-- give up the mutex. Between two sections a goroutine is a `Task`.
use lgobase.Base.{
  ℕ, ◌+◌, ◌-◌, Bool, not, ◌&&◌, ◌||◌, List, [], ◌∷◌, ◌++◌, Option, none, some, length, get_elem?,
  modify, erase, ltb, ◌==◌, if◌then◌else◌,
}
use lgobase.Base.Int.{ℤ, pos, ltb_ℤ, leb_ℤ, ◌-ℤ◌}
use lgobase.Gpool.IdleQueue.{IdleQueue, pop, pop_newest}
use lgobase.Gpool.Pool.{
  Gpool, PoolConn, Error, pool_closed, wait_queue_full, borrowed, WaiterState, queued, canceled,
  WaitResult, WaitResultKind, result_conn, result_create, creating_conn, waiting, reopens,
  fails_closed, Outcome, returned, parked, blocked, panicked, capacity_used, store_state, add_conn,
}
use lgobase.Gpool.Pool.Locked.{dispatch, finish_close, close_begin, new_for_use}

-- What `getConnFromNew` comes back with: the clock read for `Ctime`, or the factory's error.
pub data Created : Type 0 where
  made : ℤ → Created
  failed : Error → Created

-- `getConnFromNewForUse` once it has the mutex again; `handleWaitResult` goes on in the same way.
unfoldable pub finish_create_closed : Gpool → Created → Gpool × Outcome
finish_create_closed gp (made now) =
    close_begin (add_conn gp (record { ctime = now; idle_time = pos 0; state = borrowed }))
      (length gp.conns) fails_closed
finish_create_closed gp (failed e) = (finish_close gp, returned none (some pool_closed))

unfoldable pub finish_create_open : Gpool → Created → Gpool × Outcome
finish_create_open gp (made now) =
    let gp' = add_conn gp (record { ctime = now; idle_time = pos 0; state = borrowed }) in
    (record gp' { in_use = gp'.in_use + 1 }, returned (some (length gp.conns)) none)
finish_create_open gp (failed e) = (dispatch gp, returned none (some e))

unfoldable pub finish_create : Gpool → Created → Gpool × Outcome
unfolding finish_create_closed finish_create_open
finish_create gp r =
    let gp' = record gp { creating = gp.creating - 1 } in
    if gp'.closed then finish_create_closed gp' r else finish_create_open gp' r

-- The lifetime checks of `getConnFromIdle`; a limit that is not positive is none.
abbrev pub expired : ℤ → ℤ → ℤ → Bool
expired limit now since = ltb_ℤ (pos 0) limit && ltb_ℤ limit (now -ℤ since)

unfoldable pub is_stale : Gpool → PoolConn → ℤ → Bool → Bool
is_stale gp pc now is_open =
    not is_open
    || expired gp.max_conn_life now pc.ctime
    || expired gp.max_idle_conn_life now pc.idle_time

-- `getConnFromIdle` from the popped connection on.
unfoldable pub use_idle : Gpool → ℕ → Option PoolConn → ℤ → Bool → Gpool × Outcome
use_idle gp c none now is_open = (gp, panicked)
use_idle gp c (some pc) now is_open =
    let gp' = store_state gp c borrowed in
    if is_stale gp pc now is_open
    then close_begin gp' c reopens
    else (record gp' { in_use = gp'.in_use + 1 }, returned (some c) none)

unfoldable pub take_idle : Gpool → IdleQueue ℕ × Option ℕ → ℤ → (ℕ → Bool) → Gpool × Outcome
unfolding use_idle
take_idle gp (q, none) now is_open = (gp, panicked)
take_idle gp (q, some c) now is_open =
    use_idle (record gp { idle = q }) c (get_elem? gp.conns c) now (is_open c)

unfoldable pub get_from_idle : Gpool → ℤ → (ℕ → Bool) → Gpool × Outcome
unfolding take_idle
get_from_idle gp now is_open =
    take_idle gp (if gp.pool_fifo then pop gp.idle else pop_newest gp.idle) now is_open

-- `waitForConnectionLocked` up to its `select`.
unfoldable pub wait_begin : Gpool → Gpool × Outcome
wait_begin gp =
    if gp.closed
    then (gp, returned none (some pool_closed))
    else if leb_ℤ gp.max_waiters (pos (length gp.waiters))
    then (gp, returned none (some wait_queue_full))
    else let w = length gp.waiter_states in
      let ws = gp.waiters ++ w ∷ [] in
      (
        dispatch (record gp {
          waiter_states = gp.waiter_states ++ queued ∷ [];
          waiters = ws;
          waits = length ws;
        }),
        parked (waiting w),
      )

-- `Get`. The environment gives the clock and the answers of `IsOpen`.
unfoldable pub get : Gpool → ℤ → (ℕ → Bool) → Gpool × Outcome
get gp now is_open =
    if gp.closed
    then (gp, returned none (some pool_closed))
    else if ltb 0 (length gp.waiters)
    then wait_begin gp
    else if ltb 0 gp.idle.size
    then get_from_idle gp now is_open
    else if ltb_ℤ (pos (capacity_used gp)) gp.max_conns
    then new_for_use gp
    else wait_begin gp

-- The value in the channel of waiter `w`, and the other channels.
unfoldable pub receive : ℕ → List (ℕ × WaitResult) → Option (WaitResult × List (ℕ × WaitResult))
receive w [] = none
receive w ((v, r) ∷ rs) =
    if w == v
    then some (r, rs)
    else elim (receive w rs) [ none ↦ none | some (r', rs') ↦ some (r', (v, r) ∷ rs') ]

-- `handleWaitResult` up to where it gives up the mutex.
unfoldable pub handle_wait_result : Gpool → WaitResultKind → WaitResult → Gpool × Outcome
handle_wait_result gp result_conn r = (gp, returned r.conn none)
handle_wait_result gp result_create r =
    if gp.closed
    then (finish_close (record gp { creating = gp.creating - 1 }), returned none (some pool_closed))
    else (gp, parked creating_conn)

unfoldable pub handle_result : Gpool → WaitResult → Option Error → Gpool × Outcome
unfolding handle_wait_result
handle_result gp r (some e) = (gp, returned none (some e))
handle_result gp r none = handle_wait_result gp r.kind r

unfoldable pub take_result : Gpool → Option (WaitResult × List (ℕ × WaitResult)) → Gpool × Outcome
unfolding handle_result
take_result gp none = (gp, blocked)
take_result gp (some (r, rs)) = handle_result (record gp { results = rs }) r r.err

-- The `select` of `waitForConnectionLocked` takes the result of waiter `w`.
unfoldable pub wait_result : Gpool → ℕ → Gpool × Outcome
unfolding take_result
wait_result gp w = take_result gp (receive w gp.results)

unfoldable pub cancel_in : Gpool → ℕ → Error → Option WaiterState → Gpool × Outcome
cancel_in gp w e (some queued) =
    let ws = erase w gp.waiters in
    (
      dispatch (record gp {
        waiters = ws;
        waiter_states = modify gp.waiter_states w (λ _. canceled);
        waits = length ws;
      }),
      returned none (some e),
    )
cancel_in gp w e _ = wait_result gp w

-- `cancelWaiter`, with the error of the context or the time-out.
unfoldable pub cancel_waiter : Gpool → ℕ → Error → Gpool × Outcome
unfolding cancel_in
cancel_waiter gp w e = cancel_in gp w e (get_elem? gp.waiter_states w)
