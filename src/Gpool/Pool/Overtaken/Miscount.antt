-- ===== src/Gpool/Pool/Overtaken/Miscount.antt =====
-- What becomes of a connection of gpool/gpool.go that is given back again inside a `Get`.
use lgobase.Base.{ℕ, ◌+◌, modify}
use lgobase.Base.Int.{ℤ}
use lgobase.Gpool.IdleQueue.{pop}
use lgobase.Gpool.Pool.{Gpool, PoolConn, ConnState, idle, borrowed, returning, set_state}
use lgobase.Gpool.Pool.Return.{set_idle_time}
use lgobase.Gpool.Pool.World.{World}

-- The pool behind the overtaken `Get`.
abbrev overtaken : Gpool → ℕ → Gpool
overtaken gp c = record gp {
  idle = (pop gp.idle).0;
  closing = gp.closing + 1;
  conns =
      modify (modify (modify gp.conns c (set_state borrowed)) c (set_state returning)) c
        (set_state ConnState.closing);
}

abbrev returned_conn : ℤ → PoolConn → PoolConn
returned_conn now pc = set_state idle (set_idle_time now (set_state ConnState.closing pc))
