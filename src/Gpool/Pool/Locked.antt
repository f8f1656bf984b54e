-- ===== src/Gpool/Pool/Locked.antt =====
-- The helpers of gpool/gpool.go and gpool/waiter_queue.go that run with the mutex held.
use lgobase.Base.{
  ℕ, ◌+◌, ◌-◌, true, not, ◌&&◌, ◌||◌, List, [], ◌∷◌, ◌++◌, Option, none, some, length, modify, ◌==◌,
  if◌then◌else◌,
}
use lgobase.Base.Int.{pos, ltb_ℤ}
use lgobase.Gpool.Pool.{
  Gpool, Error, ConnState, delivered, WaitResult, result_create, closing_conn, creating_conn, After,
  Outcome, parked, capacity_used, store_state,
}

-- `deliverWaiterLocked`. The channel has room for its one result.
unfoldable pub deliver : Gpool → ℕ → WaitResult → Gpool
deliver gp w r = record gp {
  waiter_states = modify gp.waiter_states w (λ _. delivered);
  waits = length gp.waiters;
  results = gp.results ++ (w, r) ∷ [];
}

abbrev pub create_result : WaitResult
create_result = record { kind = result_create; conn = none; err = none }

-- The loop of `dispatchCapacityWaitersLocked`, over the queue of waiters.
unfoldable pub dispatch_from : List ℕ → Gpool → Gpool
dispatch_from [] gp = gp
dispatch_from (w ∷ ws) gp =
    if not gp.closed && ltb_ℤ (pos (capacity_used gp)) gp.max_conns
    then dispatch_from ws
        (deliver (record gp { waiters = ws; creating = gp.creating + 1 }) w create_result)
    else gp

-- `dispatchCapacityWaitersLocked`.
unfoldable pub dispatch : Gpool → Gpool
dispatch gp = dispatch_from gp.waiters gp

-- `finishCloseLocked`.
unfoldable pub finish_close : Gpool → Gpool
finish_close gp =
    if not gp.closed
      || gp.close_ended
      || not (capacity_used gp == 0)
      || not (length gp.waiters == 0)
    then gp
    else record gp { close_ended = true }

-- `errors.Join`, which drops nil errors.
abbrev pub join : List Error → Option Error → List Error
join es none = es
join es (some e) = es ++ e ∷ []

-- `closeConnectionLocked` up to where it gives up the mutex.
unfoldable pub close_begin : Gpool → ℕ → After → Gpool × Outcome
close_begin gp c after =
    let gp' = store_state gp c ConnState.closing in
    (record gp' { closing = gp'.closing + 1 }, parked (closing_conn c after))

-- The rest of `closeConnectionLocked`, with what `Close` of the connection returned.
unfoldable pub close_end : Gpool → ℕ → Option Error → Gpool
close_end gp c err =
    let gp' = store_state gp c ConnState.closed in
    let gp'' = record gp' { closing = gp'.closing - 1 } in
    if gp''.closed
    then finish_close (record gp'' { close_err = join gp''.close_err err })
    else dispatch gp''

-- `getConnFromNewForUse` up to where it gives up the mutex.
unfoldable pub new_for_use : Gpool → Gpool × Outcome
new_for_use gp = (record gp { creating = gp.creating + 1 }, parked creating_conn)
