-- ===== src/Gpool/Pool/Return.antt =====
-- Giving a connection back: `Close`, `Discard` and `put` of a `PoolConn` in gpool/gpool.go. The
-- compare-and-swap to `returning` and the section under the mutex that follows it are one step: no
-- other goroutine writes a connection that is `returning`, unless the compare-and-swap was won inside
-- the section of a `Get` that takes the connection from the ring, which is in Gpool.Pool.Overtaken.
use lgobase.Base.{
  ℕ, ◌-◌, Bool, ◌&&◌, ◌||◌, List, [], ◌∷◌, Option, none, some, length, get_elem?, modify, ltb, ◌==◌,
  if◌then◌else◌,
}
use lgobase.Base.Int.{ℤ, pos, leb_ℤ, ◌-ℤ◌}
use lgobase.Gpool.IdleQueue.{capacity_of, push, pop}
use lgobase.Gpool.Pool.{
  Gpool, PoolConn, ConnState, idle, borrowed, returning, WaitResult, result_conn, returns, Outcome,
  returned, panicked, store_state,
}
use lgobase.Gpool.Pool.Locked.{deliver, close_begin}

-- `connectionReusableForHandoff`.
unfoldable pub reusable_for_handoff : Gpool → PoolConn → ℤ → Bool → Bool
reusable_for_handoff gp pc now is_open =
    is_open && (leb_ℤ gp.max_conn_life (pos 0) || leb_ℤ (now -ℤ pc.ctime) gp.max_conn_life)

abbrev pub conn_result : ℕ → WaitResult
conn_result c = record { kind = result_conn; conn = some c; err = none }

abbrev pub set_idle_time : ℤ → PoolConn → PoolConn
set_idle_time now pc = record pc { idle_time = now }

-- `if closeConn != nil { gp.closeConnectionLocked(ctx, closeConn) }`
unfoldable pub close_if : Gpool → Option ℕ → Gpool × Outcome
close_if gp none = (gp, returned none none)
close_if gp (some c) = close_begin gp c returns

-- The ring is full: the oldest connection makes room, unless there is no room at all.
unfoldable pub evict : Gpool → ℕ → Gpool × Outcome
unfolding close_if
evict gp c =
    if capacity_of gp.idle == 0
    then close_if gp (some c)
    else let (q, oldest) = pop gp.idle in close_if (record gp { idle = (push q (some c)).0 }) oldest

-- A connection that no waiter takes goes to the ring, or is closed.
unfoldable pub put_idle : Gpool → ℕ → Gpool × Outcome
unfolding close_if
put_idle gp c =
    if ltb 0 (length gp.waiters)
    then close_if gp (some c)
    else let (q, ok) = push gp.idle (some c) in
      if ok then close_if (record gp { idle = q }) none else evict (record gp { idle = q }) c

unfoldable pub hand_over : Gpool → ℕ → List ℕ → Gpool × Outcome
hand_over gp c [] = (gp, panicked)
hand_over gp c (w ∷ ws) = (
  deliver (store_state (record gp { waiters = ws }) c borrowed) w (conn_result c),
  returned none none,
)

-- `put`, on the fields of the connection.
unfoldable pub put : Gpool → ℕ → PoolConn → ℤ → Bool → Gpool × Outcome
put gp c pc now is_open =
    let left = record gp {
      in_use = gp.in_use - 1;
      conns = modify gp.conns c (set_idle_time now);
    } in
    if gp.closed
    then close_begin left c returns
    else if ltb 0 (length gp.waiters) && reusable_for_handoff gp pc now is_open
    then hand_over gp c gp.waiters
    else put_idle (store_state left c idle) c

unfoldable pub close_borrowed : Gpool → ℕ → Option PoolConn → ConnState → ℤ → Bool → Gpool × Outcome
close_borrowed gp c (some pc) borrowed now is_open =
    put (store_state gp c returning) c (record pc { state = returning }) now is_open
close_borrowed gp c pc s now is_open = (gp, returned none none)

abbrev pub state_of : Option PoolConn → ConnState
state_of none = ConnState.closed
state_of (some pc) = pc.state

-- `Close` of a `PoolConn`.
unfoldable pub close_conn : Gpool → ℕ → ℤ → Bool → Gpool × Outcome
unfolding close_borrowed
close_conn gp c now is_open =
    close_borrowed gp c (get_elem? gp.conns c) (state_of (get_elem? gp.conns c)) now is_open

unfoldable pub discard_borrowed : Gpool → ℕ → ConnState → Gpool × Outcome
discard_borrowed gp c borrowed =
    close_begin (record (store_state gp c returning) { in_use = gp.in_use - 1 }) c returns
discard_borrowed gp c s = (gp, returned none none)

-- `Discard` of a `PoolConn`.
unfoldable pub discard : Gpool → ℕ → Gpool × Outcome
unfolding discard_borrowed
discard gp c = discard_borrowed gp c (state_of (get_elem? gp.conns c))
