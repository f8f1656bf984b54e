-- ===== src/Gpool/Pool/Opening.antt =====
-- `CreateIdleConn` of gpool/gpool.go, the end of `GpoolInit2`: the pool is filled before anybody uses
-- it. The environment gives what each call of `getConnFromNew` comes back with and the clock.
use lgobase.Base.{ℕ, zero, suc, some, length, if◌then◌else◌}
use lgobase.Base.Int.{ℤ, pos_part}
use lgobase.Gpool.IdleQueue.{push}
use lgobase.Gpool.Pool.{Gpool, idle, Config, init, add_conn}
use lgobase.Gpool.Pool.Borrow.{Created, made, failed}

-- A connection that the ring refuses is closed, and nobody has seen it.
unfoldable pub create_idle_one : Gpool → Created → ℤ → Gpool
create_idle_one gp (failed e) now = gp
create_idle_one gp (made ctime) now =
    let (q, ok) = push gp.idle (some (length gp.conns)) in
    if ok
    then add_conn (record gp { idle = q }) (record { ctime = ctime; idle_time = now; state = idle })
    else record gp { idle = q }

unfoldable pub create_idle : ℕ → (ℕ → Created × ℤ) → Gpool → Gpool
create_idle zero made_now gp = gp
create_idle (suc n) made_now gp =
    let (r, now) = made_now 0 in create_idle n (λ i. made_now (suc i)) (create_idle_one gp r now)

-- `CreateIdleConn`: `MaxIdleConns` rounds, none where it is negative.
unfoldable pub create_idle_conn : Gpool → (ℕ → Created × ℤ) → Gpool
create_idle_conn gp made_now = create_idle (pos_part gp.max_idle_conns) made_now gp

-- `GpoolInit2`.
unfoldable pub open_pool : Config → (ℕ → Created × ℤ) → Gpool
open_pool c made_now = create_idle_conn (init c) made_now
