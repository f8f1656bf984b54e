-- ===== src/Gpool/Pool/Shutdown.antt =====
-- `Close` of the pool and `closeIdleConnections` in gpool/gpool.go.
use lgobase.Base.{
  ℕ, zero, suc, ◌+◌, ◌-◌, Bool, true, false, List, [], ◌∷◌, ◌++◌, Option, none, some, if◌then◌else◌,
}
use lgobase.Gpool.IdleQueue.{pop}
use lgobase.Gpool.Pool.{
  Gpool, Error, pool_closed, ConnState, WaitResult, result_conn, Outcome, parked, returned,
  panicked, closing_idle, store_state,
}
use lgobase.Gpool.Pool.Locked.{deliver, finish_close, join}

abbrev pub closed_result : WaitResult
closed_result = record { kind = result_conn; conn = none; err = some pool_closed }

-- `for gp.waiters.Len() > 0 { … }`
unfoldable pub wake_all : List ℕ → Gpool → Gpool
wake_all [] gp = gp
wake_all (w ∷ ws) gp = wake_all ws (deliver (record gp { waiters = ws }) w closed_result)

-- One round of `for gp.idle.Len() > 0 { … }`, on what the ring gave, and whether the round
-- dereferences nil.
unfoldable pub close_popped : Gpool → Option ℕ → List ℕ → Gpool × List ℕ × Bool
close_popped gp none cs = (gp, cs, true)
close_popped gp (some c) cs =
    let gp' = store_state gp c ConnState.closing in
    (record gp' { closing = gp'.closing + 1 }, cs ++ c ∷ [], false)

-- The loop takes as many rounds as there are idle connections, and ends where it dereferences nil.
unfoldable pub drain_idle : ℕ → Gpool → List ℕ → Gpool × List ℕ × Bool
unfolding close_popped
drain_idle zero gp cs = (gp, cs, false)
drain_idle (suc n) gp cs =
    let (q, pc) = pop gp.idle in
    let (gp', cs', nil) = close_popped (record gp { idle = q }) pc cs in
    let rest = drain_idle n gp' cs' in if nil then (gp', cs', true) else rest

unfoldable pub close_list : Gpool × List ℕ × Bool → Gpool × Outcome
close_list (gp, cs, nil) =
    if nil then (gp, panicked) else (finish_close gp, parked (closing_idle cs))

-- The section of `Close` under the mutex. The list of idle connections to close goes to a
-- goroutine of its own, and the caller then waits for `closeDone`.
unfoldable pub close_pool : Gpool → Gpool × Outcome
unfolding close_list
close_pool gp =
    if gp.closed
    then (gp, returned none none)
    else let gp' = wake_all gp.waiters (record gp { closed = true }) in
      close_list (drain_idle gp'.idle.size gp' [])

-- One round of `closeIdleConnections`, with what `Close` of the connection returned.
unfoldable pub close_idle_one : Gpool → ℕ → Option Error → Gpool
close_idle_one gp c err =
    let gp' = store_state gp c ConnState.closed in
    finish_close (record gp' { closing = gp'.closing - 1; close_err = join gp'.close_err err })
