-- ===== src/Gpool/Pool/Safety.antt =====
-- What holds of a pool of gpool/gpool.go after every interleaving of its goroutines.
use lgobase.Base.{
  ℕ, suc, ◌+◌, ◌≤◌, ◌≡◌, ◌⊎◌, sym, subst, true, false, List, [], arith, length, get_elem?, count,
}
use lgobase.Base.Int.{ℤ, pos_part}
use lgobase.Gpool.IdleQueue.Ring.{Holds}
use lgobase.Gpool.Pool.{Gpool, Config, Task, capacity_used}
use lgobase.Gpool.Pool.Borrow.{Created}
use lgobase.Gpool.Pool.Dispatch.{reservations}
use lgobase.Gpool.Pool.World.{World, Event, run, start}
use lgobase.Gpool.Pool.Overtaken.{
  RacyEvent, racy_run, racy_start, NoneOvertaken, racy_run-undisturbed,
}
use lgobase.Gpool.Pool.Ownership.{is_idle, is_closing, borrowed_count}
use lgobase.Gpool.Pool.Invariant.{closings, makers}
use lgobase.Gpool.Pool.Invariant.Run.{Sound, reached-Sound}

-- The pool after the events `es`, and the goroutines that are in it.
abbrev pub pool_after : Config → (ℕ → Created × ℤ) → List Event → Gpool
pool_after c made_now es = (run (start c made_now) es).gp

abbrev pub tasks_after : Config → (ℕ → Created × ℤ) → List Event → List Task
tasks_after c made_now es = (run (start c made_now) es).tasks

-- After every interleaving, the idle, borrowed, closing and reserved connections together are at
-- most one more than `MaxConns` (than 0 where `MaxConns` is negative).
pub capacity_used-bounded :
    (c : Config) (made_now : ℕ → Created × ℤ) (es : List Event)
    → capacity_used (pool_after c made_now es) ≤ suc (pos_part c.max_conns)
capacity_used-bounded c made_now es = (reached-Sound c made_now es).counts.limit

-- After every interleaving, an open pool where a waiter is queued has all of `MaxConns` taken: no
-- waiter is left waiting beside a free slot.
pub no_lost_wakeup :
    (c : Config) (made_now : ℕ → Created × ℤ) (es : List Event)
    → (pool_after c made_now es).closed ≡ false
    → ((pool_after c made_now es).waiters ≡ [])
      ⊎ (pos_part c.max_conns ≤ capacity_used (pool_after c made_now es))
no_lost_wakeup c made_now es running =
    let s = reached-Sound c made_now es in ground (arith, s.counts.served running, s.limit_is)

-- The same after racy events.
abbrev pub racy_after : Config → (ℕ → Created × ℤ) → List RacyEvent → World
racy_after c made_now es = (racy_run (racy_start c made_now) es).world

racy_after-Sound :
    (c : Config) (made_now : ℕ → Created × ℤ) (es : List RacyEvent)
    → NoneOvertaken es
    → Sound (racy_after c made_now es) (pos_part c.max_conns)
racy_after-Sound c made_now es calm =
    let (fs, same) = racy_run-undisturbed (start c made_now) es calm in
    subst (λ v. Sound v (pos_part c.max_conns)) (sym same) (reached-Sound c made_now fs)

-- After every interleaving in which no `Close` or `Discard` of a connection wins its compare-and-swap
-- inside the section of a `Get` that takes that connection from the ring, the counters `inUse`,
-- `closing` and `creating` are the numbers of the borrowed connections, of the connections that
-- goroutines are closing, and of the slots that goroutines or undelivered results reserve; `waits` is
-- the length of the queue, which is at most `MaxWaiters`.
pub counters_agree :
    (c : Config) (made_now : ℕ → Created × ℤ) (es : List RacyEvent)
    → NoneOvertaken es
    → let v = racy_after c made_now es in
      (v.gp.in_use ≡ borrowed_count v.gp.conns)
      × (v.gp.closing ≡ length (closings v.tasks))
      × (v.gp.creating ≡ makers v.tasks + reservations v.gp.results)
      × (v.gp.waits ≡ length v.gp.waiters)
      × (length v.gp.waiters ≤ pos_part v.gp.max_waiters)
counters_agree c made_now es calm =
    let s = racy_after-Sound c made_now es calm in
    (
      s.owns.1.borrowed_is, s.counts.closing_is, s.counts.creating_is, s.counts.waits_is,
      s.counts.waiters_fit,
    )

-- After every interleaving in which no `Close` or `Discard` of a connection wins its compare-and-swap
-- inside the section of a `Get` that takes that connection from the ring, the ring is a valid ring that
-- holds every idle connection exactly once and no other, and every connection that is being closed is
-- being closed by exactly one goroutine.
pub connections_owned :
    (c : Config) (made_now : ℕ → Created × ℤ) (es : List RacyEvent)
    → NoneOvertaken es
    → let v = racy_after c made_now es in
      (ring : List ℕ) × Holds v.gp.idle ring
      × ((j : ℕ) → count j ring ≡ is_idle (get_elem? v.gp.conns j))
      × ((j : ℕ) → count j (closings v.tasks) ≡ is_closing (get_elem? v.gp.conns j))
connections_owned c made_now es calm =
    let (ring, h) = (racy_after-Sound c made_now es calm).owns in
    (ring, h.holds, h.idle_once, h.closing_once)

-- After every interleaving, a closed pool has no waiter and no idle connection, and a pool that has
-- signalled `closeDone` is closed.
pub closed_pool_empty :
    (c : Config) (made_now : ℕ → Created × ℤ) (es : List Event)
    → let gp = pool_after c made_now es in
      ((gp.closed ≡ false) ⊎ ((gp.waiters ≡ []) × (gp.idle.size ≡ 0)))
      × ((gp.close_ended ≡ false) ⊎ (gp.closed ≡ true))
closed_pool_empty c made_now es = let k = (reached-Sound c made_now es).counts in ground (arith, k)
