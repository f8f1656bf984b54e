-- ===== src/Gpool/Pool/Mailbox/Run.antt =====
-- The result channels of gpool/waiter_queue.go after every interleaving.
use lgobase.Base.{
  ℕ, zero, suc, ◌+◌, ◌≤◌, ◌≡◌, ◌≢◌, refl, inl, inr, List, [], ◌∷◌, Option, none, some, arith,
  get_elem?, count, Option-cases,
}
use lgobase.Gpool.Pool.{
  Gpool, Config, Error, Task, closing_conn, creating_conn, waiting, closing_idle, Outcome, returned,
  parked, blocked, panicked,
}
use lgobase.Base.Int.{ℤ}
use lgobase.Gpool.Pool.Invariant.Fresh.{open_pool-Fresh}
use lgobase.Gpool.Pool.Borrow.{Created, cancel_waiter}
use lgobase.Gpool.Pool.World.{
  World, Response, conn_closed, conn_created, result_ready, gave_up, Event, calls, resumes, perform,
  resume, take_at, settle, advance, step, run, start,
}
use lgobase.Gpool.Pool.Mailbox.{
  pending, is_queued, Box, Box-same, task_waiting, waiting_in, out_waiting, Boxed,
}
use lgobase.Gpool.Pool.Mailbox.Sections.{
  perform-Boxed, close_end-Box, close_idle_one-Box, after_close-Boxed, finish_create-Boxed,
}
use lgobase.Gpool.Pool.Mailbox.Receiving.{
  left, BoxedAfter, wait_result-BoxedAfter, cancel_waiter-BoxedAfter, cancel_waiter-goes_on,
}
use lgobase.Gpool.Pool.Safety.{pool_after, tasks_after}

waiting_in-settle :
    (w : ℕ) (t : Task) (out : Outcome) (ts : List Task)
    → waiting_in w (settle (t ∷ []) out ts)
      ≡ left (task_waiting w t) out + (out_waiting w out + waiting_in w ts)
unfolding settle
waiting_in-settle w t (returned c e) ts = omega arith
waiting_in-settle w t (parked u) ts = omega arith
waiting_in-settle w t blocked ts = omega arith
waiting_in-settle w t panicked ts = omega arith

waiting_in-settle_new :
    (w : ℕ) (out : Outcome) (ts : List Task)
    → waiting_in w (settle [] out ts) ≡ out_waiting w out + waiting_in w ts
unfolding settle
waiting_in-settle_new w (returned c e) ts = omega arith
waiting_in-settle_new w (parked u) ts = omega arith
waiting_in-settle_new w blocked ts = omega arith
waiting_in-settle_new w panicked ts = omega arith

waiting_in-take_at :
    (w i : ℕ) (ts : List Task) {t : Task} {rest : List Task}
    → take_at i ts ≡ some (t, rest)
    → waiting_in w ts ≡ task_waiting w t + waiting_in w rest
unfolding take_at
waiting_in-take_at w i [] e = cc
waiting_in-take_at w zero (u ∷ us) e = ground arith
waiting_in-take_at w (suc i) (u ∷ us) {t} {rest} e = elim (Option-cases (take_at i us)) [
  | inl n ↦ ground arith
  | inr (a, f) ↦ ground (arith, waiting_in-take_at w i us {t = a.0} {rest = a.1} f)
]

no_one_left : (k : ℕ) (out : Outcome) → k ≡ 0 → left k out ≡ 0
no_one_left k (returned c e) h = refl
no_one_left k (parked u) h = refl
no_one_left k blocked h = h
no_one_left k panicked h = refl

module _ (w n : ℕ) where
  -- For a goroutine that does not wait.
  unwaited : (k : ℕ) (r : Gpool × Outcome) → k ≡ 0 → Boxed w n r → BoxedAfter w k n r
  unwaited k r h b = Box-same w r.0 r.0 _ b refl refl refl (omega (arith, no_one_left k r.1 h))

  resume-BoxedAfter :
      (gp : Gpool) (t : Task) (r : Response)
      → Box w gp (task_waiting w t + n)
      → BoxedAfter w (task_waiting w t) n (resume gp t r)
  unfolding resume
  resume-BoxedAfter gp (closing_conn c after) (conn_closed err) b =
      let kept = Box-same w gp gp n b refl refl refl (omega arith) in
      unwaited 0 _ refl (after_close-Boxed w n _ after (close_end-Box w n gp c err kept))
  resume-BoxedAfter gp creating_conn (conn_created c) b =
      unwaited 0 _ refl
        (finish_create-Boxed w n gp c (Box-same w gp gp n b refl refl refl (omega arith)))
  resume-BoxedAfter gp (waiting v) result_ready b = wait_result-BoxedAfter w v n gp b
  resume-BoxedAfter gp (waiting v) (gave_up e) b = cancel_waiter-BoxedAfter w v n gp e b
  resume-BoxedAfter gp (closing_idle []) (conn_closed err) b =
      Box-same w gp gp _ b refl refl refl (omega arith)
  resume-BoxedAfter gp (closing_idle (c ∷ cs)) (conn_closed err) b =
      let kept = Box-same w gp gp n b refl refl refl (omega arith) in
      Box-same w _ _ _ (close_idle_one-Box w n gp c err kept) refl refl refl (omega arith)
  resume-BoxedAfter gp t r b = Box-same w gp gp _ b refl refl refl (omega arith)

abbrev Delivered : ℕ → World → Type 0
Delivered w v = Box w v.gp (waiting_in w v.tasks)

advance-Delivered :
    (w : ℕ) (gp : Gpool) (r : Response) (ts : List Task) (o : Option (Task × List Task))
    → Box w gp (waiting_in w ts)
    → ((t : Task) (rest : List Task)
        → o ≡ some (t, rest)
        → waiting_in w ts ≡ task_waiting w t + waiting_in w rest)
    → Delivered w (advance gp r ts o)
unfolding advance
advance-Delivered w gp r ts none b k = b
advance-Delivered w gp r ts (some (t, rest)) b k =
    let taken = k t rest refl in
    let n = waiting_in w rest in
    let kept =
      resume-BoxedAfter w n gp t r (Box-same w gp gp _ b refl refl refl (omega (arith, taken))) in
    Box-same w _ _ _ kept refl refl refl (waiting_in-settle w t (resume gp t r).1 rest)

step-Delivered : (w : ℕ) (v : World) (e : Event) → Delivered w v → Delivered w (step v e)
unfolding step
step-Delivered w v (calls c) b =
    Box-same w _ _ _ (perform-Boxed w _ v.gp c b) refl refl refl
      (waiting_in-settle_new w (perform v.gp c).1 v.tasks)
step-Delivered w v (resumes i r) b =
    advance-Delivered w v.gp r v.tasks (take_at i v.tasks) b
      (λ t rest. waiting_in-take_at w i v.tasks)

run-Delivered : (w : ℕ) (v : World) (es : List Event) → Delivered w v → Delivered w (run v es)
unfolding run
run-Delivered w v [] b = b
run-Delivered w v (e ∷ es) b = run-Delivered w (step v e) es (step-Delivered w v e b)

reached-Delivered :
    (c : Config) (made_now : ℕ → Created × ℤ) (es : List Event) (w : ℕ)
    → Delivered w (run (start c made_now) es)
reached-Delivered c made_now es w =
    let h = open_pool-Fresh c made_now in
    run-Delivered w (start c made_now) es (record {
      queued_once = rw (h.no_waiters.0, h.no_waiters.2) refl;
      fresh = λ l. rw h.no_results refl;
      held = rw (h.no_waiters.0, h.no_results) (omega arith);
      once = omega arith;
    })

-- After every interleaving, for every waiter: its entry in the queue and the result in its channel
-- are together as many as the goroutines that wait for it, which is one at most. So the channel
-- holds at most one result, a queued waiter has none yet, and it is queued exactly when its state is
-- `waiterQueued`.
pub one_result :
    (c : Config) (made_now : ℕ → Created × ℤ) (es : List Event) (w : ℕ)
    → let gp = pool_after c made_now es in
      (waiting_in w (tasks_after c made_now es) ≡ count w gp.waiters + pending w gp.results)
      × (waiting_in w (tasks_after c made_now es) ≤ 1)
      × (count w gp.waiters ≡ is_queued (get_elem? gp.waiter_states w))
one_result c made_now es w =
    let b = reached-Delivered c made_now es w in (b.held, b.once, b.queued_once)

-- After every interleaving, a goroutine that waits and gives up does not block in `cancelWaiter`,
-- where it holds the mutex: either it is still queued, or its result is in its channel.
pub cancel_waiter-never_blocks :
    (c : Config) (made_now : ℕ → Created × ℤ) (es : List Event) (w : ℕ) (e : Error)
    → waiting_in w (tasks_after c made_now es) ≡ 1
    → (cancel_waiter (pool_after c made_now es) w e).1 ≢ blocked
cancel_waiter-never_blocks c made_now es w e one =
    let b = reached-Delivered c made_now es w in
    cancel_waiter-goes_on w 0 (pool_after c made_now es) e (
      Box-same w (pool_after c made_now es) (pool_after c made_now es) 1 b refl refl refl
        (omega (arith, one)))
