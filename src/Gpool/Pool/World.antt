-- ===== src/Gpool/Pool/World.antt =====
-- A pool and the goroutines that are between two sections under its mutex. An event is a call on
-- the pool or on a connection, or the next section of a waiting goroutine with the answer that the
-- environment gives it; a list of events is an interleaving of any number of goroutines in which
-- nobody gives a connection back inside the `Get` that takes it from the ring. The interleavings where
-- somebody does are in Gpool.Pool.Overtaken.
use lgobase.Base.{ℕ, zero, suc, List, [], ◌∷◌, ◌++◌, Option, none, some, Bool}
use lgobase.Base.Int.{ℤ}
use lgobase.Gpool.Pool.{
  Gpool, Config, Error, pool_closed, Task, closing_conn, creating_conn, waiting, closing_idle,
  After, reopens, fails_closed, returns, Outcome, returned, parked, blocked, panicked,
}
use lgobase.Gpool.Pool.Opening.{open_pool}
use lgobase.Gpool.Pool.Locked.{close_end, new_for_use}
use lgobase.Gpool.Pool.Borrow.{Created, finish_create, get, wait_result, cancel_waiter}
use lgobase.Gpool.Pool.Return.{close_conn, discard}
use lgobase.Gpool.Pool.Shutdown.{close_pool, close_idle_one}

pub record World : Type 0 where
  pub gp : Gpool
  pub tasks : List Task

-- With the clock and the answers of `IsOpen`.
pub data Call : Type 0 where
  gets : ℤ → (ℕ → Bool) → Call
  closes_conn : ℕ → ℤ → Bool → Call
  discards : ℕ → Call
  closes_pool : Call

pub data Response : Type 0 where
  conn_closed : Option Error → Response
  conn_created : Created → Response
  result_ready : Response
  gave_up : Error → Response

pub data Event : Type 0 where
  calls : Call → Event
  resumes : ℕ → Response → Event

unfoldable pub perform : Gpool → Call → Gpool × Outcome
perform gp (gets now is_open) = get gp now is_open
perform gp (closes_conn c now is_open) = close_conn gp c now is_open
perform gp (discards c) = discard gp c
perform gp closes_pool = close_pool gp

-- What follows `closeConnectionLocked` in its caller.
unfoldable pub after_close : Gpool → After → Gpool × Outcome
after_close gp reopens = new_for_use gp
after_close gp fails_closed = (gp, returned none (some pool_closed))
after_close gp returns = (gp, returned none none)

-- A response that a task does not wait for leaves it blocked.
unfoldable pub resume : Gpool → Task → Response → Gpool × Outcome
unfolding after_close
resume gp (closing_conn c after) (conn_closed err) = after_close (close_end gp c err) after
resume gp creating_conn (conn_created r) = finish_create gp r
resume gp (waiting w) result_ready = wait_result gp w
resume gp (waiting w) (gave_up e) = cancel_waiter gp w e
resume gp (closing_idle []) (conn_closed err) = (gp, returned none none)
resume gp (closing_idle (c ∷ cs)) (conn_closed err) =
    (close_idle_one gp c err, parked (closing_idle cs))
resume gp t r = (gp, blocked)

-- The task at a position, and the others.
unfoldable pub take_at : ℕ → List Task → Option (Task × List Task)
take_at i [] = none
take_at zero (t ∷ ts) = some (t, ts)
take_at (suc i) (t ∷ ts) = elim (take_at i ts) [ none ↦ none | some (u, us) ↦ some (u, t ∷ us) ]

-- A finished goroutine leaves the list; a blocked one stays in it.
unfoldable pub settle : List Task → Outcome → List Task → List Task
settle old (returned c e) ts = ts
settle old (parked t) ts = t ∷ ts
settle old blocked ts = old ++ ts
settle old panicked ts = ts

unfoldable pub advance : Gpool → Response → List Task → Option (Task × List Task) → World
unfolding settle
advance gp r ts none = record { gp = gp; tasks = ts }
advance gp r ts (some (t, rest)) =
    let (gp', out) = resume gp t r in record { gp = gp'; tasks = settle (t ∷ []) out rest }

unfoldable pub step : World → Event → World
unfolding advance settle
step v (calls c) =
    let (gp', out) = perform v.gp c in record { gp = gp'; tasks = settle [] out v.tasks }
step v (resumes i r) = advance v.gp r v.tasks (take_at i v.tasks)

unfoldable pub run : World → List Event → World
run v [] = v
run v (e ∷ es) = run (step v e) es

abbrev pub start : Config → (ℕ → Created × ℤ) → World
start c made_now = record { gp = open_pool c made_now; tasks = [] }
