-- ===== src/Gpool/Pool/Mailbox/Sections.antt =====
-- Every section of gpool/gpool.go that receives no result keeps the result channels.
use lgobase.Base.{
  ℕ, zero, suc, ◌+◌, ◌-◌, ◌≡◌, refl, ap, inl, inr, Bool, true, ◌&&◌, List, [], ◌∷◌, ◌++◌, Option,
  none, some, arith, length, length-append, get_elem?, get_elem?_above, get_elem?-concat_last,
  get_elem?-concat_ne, count-append, ltb, ◌==◌, if◌then◌else◌, if_cases, Bool-cases,
}
use lgobase.Base.Int.{ℤ, pos, ltb_ℤ, leb_ℤ}
use lgobase.Gpool.IdleQueue.{IdleQueue, pop, pop_newest, push, capacity_of}
use lgobase.Gpool.Pool.{
  Gpool, PoolConn, Error, ConnState, borrowed, queued, After, reopens, fails_closed, returns,
  Outcome, capacity_used, store_state,
}
use lgobase.Gpool.Pool.Locked.{dispatch, deliver, finish_close, close_begin, close_end, new_for_use}
use lgobase.Gpool.Pool.Borrow.{
  Created, made, failed, finish_create, finish_create_closed, finish_create_open, use_idle,
  take_idle, get_from_idle, wait_begin, get, is_stale,
}
use lgobase.Gpool.Pool.Return.{
  conn_result, close_if, evict, put_idle, hand_over, put, close_borrowed, close_conn,
  discard_borrowed, discard, reusable_for_handoff,
}
use lgobase.Gpool.Pool.Shutdown.{
  closed_result, wake_all, close_popped, drain_idle, close_list, close_pool, close_idle_one,
}
use lgobase.Gpool.Pool.World.{Call, gets, closes_conn, discards, closes_pool, perform, after_close}
use lgobase.Gpool.Pool.Mailbox.{
  same, is_queued, Box, Box-same, Box-deliver, dispatch-Box, finish_close-Box, Boxed,
}

abbrev enqueued : Gpool → Gpool
enqueued gp =
    let ws = gp.waiters ++ length gp.waiter_states ∷ [] in
    record gp { waiter_states = gp.waiter_states ++ queued ∷ []; waiters = ws; waits = length ws }

enqueue-Box :
    (w n : ℕ) (gp : Gpool) → Box w gp n → Box w (enqueued gp) (same w (length gp.waiter_states) + n)
enqueue-Box w n gp b =
    let v = length gp.waiter_states in
    let more = count-append w gp.waiters (v ∷ []) in
    let longer = length-append gp.waiter_states (queued ∷ []) in
    elim (Bool-cases (w == v)) [
      | inl here ↦
          let at : w ≡ v = ground arith in
          let before : is_queued (get_elem? gp.waiter_states w) ≡ 0 =
            ap is_queued (get_elem?_above gp.waiter_states w (omega (arith, at))) in
          let after : is_queued (get_elem? (gp.waiter_states ++ queued ∷ []) w) ≡ 1 =
            rw at (ap is_queued (get_elem?-concat_last gp.waiter_states queued)) in
          let empty = b.fresh (omega (arith, at)) in
          record {
            queued_once = ground (arith, more, after, before, b.queued_once);
            fresh = λ h. empty;
            held = ground (arith, more, b.held);
            once = ground (arith, b.held, before, b.queued_once, empty);
          }
      | inr there ↦
          let off = get_elem?-concat_ne gp.waiter_states queued w (λ e. ground arith) in
          record {
            queued_once = ground (arith, more, ap is_queued off, b.queued_once);
            fresh = λ h. b.fresh (omega (arith, longer));
            held = ground (arith, more, b.held);
            once = ground (arith, b.once);
          }
    ]

module _ (w n : ℕ) where
  close_begin-Boxed :
      (gp : Gpool) (c : ℕ) (after : After) → Box w gp n → Boxed w n (close_begin gp c after)
  unfolding close_begin
  close_begin-Boxed gp c after b = Box-same w gp _ _ b refl refl refl (omega arith)

  -- A section that leaves the waiters alone and returns.
  still :
      (gp gp' : Gpool) (c : Option ℕ) (e : Option Error)
      → Box w gp n
      → gp'.waiters ≡ gp.waiters
      → gp'.waiter_states ≡ gp.waiter_states
      → gp'.results ≡ gp.results
      → Boxed w n (gp', Outcome.returned c e)
  still gp gp' c e b x y z = Box-same w gp gp' _ b x y z (omega arith)

  use_idle-Boxed :
      (gp : Gpool) (c : ℕ) (o : Option PoolConn) (now : ℤ) (is_open : Bool)
      → Box w gp n
      → Boxed w n (use_idle gp c o now is_open)
  unfolding use_idle
  use_idle-Boxed gp c none now is_open b = Box-same w gp gp _ b refl refl refl (omega arith)
  use_idle-Boxed gp c (some pc) now is_open b =
      if_cases (Boxed w n) (is_stale gp pc now is_open)
        (λ e. close_begin-Boxed _ c reopens (Box-same w gp _ n b refl refl refl refl))
        (λ e. Box-same w gp _ _ b refl refl refl (omega arith))

  take_idle-Boxed :
      (gp : Gpool) (q : IdleQueue ℕ) (o : Option ℕ) (now : ℤ) (is_open : ℕ → Bool)
      → Box w gp n
      → Boxed w n (take_idle gp (q, o) now is_open)
  unfolding take_idle
  take_idle-Boxed gp q none now is_open b = Box-same w gp gp _ b refl refl refl (omega arith)
  take_idle-Boxed gp q (some c) now is_open b =
      use_idle-Boxed (record gp { idle = q }) c _ now (is_open c)
        (Box-same w gp _ n b refl refl refl refl)

  new_for_use-Boxed : (gp : Gpool) → Box w gp n → Boxed w n (new_for_use gp)
  unfolding new_for_use
  new_for_use-Boxed gp b = Box-same w gp _ _ b refl refl refl (omega arith)

  wait_begin-Boxed : (gp : Gpool) → Box w gp n → Boxed w n (wait_begin gp)
  unfolding wait_begin
  wait_begin-Boxed gp b =
      let rests = Box-same w gp gp (0 + n) b refl refl refl (omega arith) in
      if_cases (Boxed w n) gp.closed (λ e. rests)
        (λ e.
          if_cases (Boxed w n) (leb_ℤ gp.max_waiters (pos (length gp.waiters))) (λ f. rests)
            (λ f. dispatch-Box _ w (enqueue-Box w n gp b)))

  get-Boxed :
      (gp : Gpool) (now : ℤ) (is_open : ℕ → Bool) → Box w gp n → Boxed w n (get gp now is_open)
  unfolding get get_from_idle
  get-Boxed gp now is_open b =
      let r = if gp.pool_fifo then pop gp.idle else pop_newest gp.idle in
      if_cases (Boxed w n) gp.closed (λ e. Box-same w gp gp _ b refl refl refl (omega arith))
        (λ e.
          if_cases (Boxed w n) (ltb 0 (length gp.waiters)) (λ f. wait_begin-Boxed gp b)
            (λ f.
              if_cases (Boxed w n) (ltb 0 gp.idle.size)
                (λ g. take_idle-Boxed gp r.0 r.1 now is_open b)
                (λ g.
                  if_cases (Boxed w n) (ltb_ℤ (pos (capacity_used gp)) gp.max_conns)
                    (λ h. new_for_use-Boxed gp b) (λ h. wait_begin-Boxed gp b))))

  close_if-Boxed : (gp : Gpool) (o : Option ℕ) → Box w gp n → Boxed w n (close_if gp o)
  unfolding close_if
  close_if-Boxed gp none b = Box-same w gp gp _ b refl refl refl (omega arith)
  close_if-Boxed gp (some c) b = close_begin-Boxed gp c returns b

  put_idle-Boxed : (gp : Gpool) (c : ℕ) → Box w gp n → Boxed w n (put_idle gp c)
  unfolding put_idle evict
  put_idle-Boxed gp c b =
      let q = (push gp.idle (some c)).0 in
      let moved =
        λ (i : IdleQueue ℕ). Box-same w gp (record gp { idle = i }) n b refl refl refl refl in
      if_cases (Boxed w n) (ltb 0 (length gp.waiters)) (λ e. close_if-Boxed gp (some c) b)
        (λ e.
          if_cases (Boxed w n) (push gp.idle (some c)).1
            (λ f. close_if-Boxed (record gp { idle = q }) none (moved q))
            (λ f.
              if_cases (Boxed w n) (capacity_of q == 0)
                (λ g. close_if-Boxed (record gp { idle = q }) (some c) (moved q))
                (λ g.
                  let q' = (push (pop q).0 (some c)).0 in
                  close_if-Boxed (record gp { idle = q' }) (pop q).1 (moved q'))))

  hand_over-Boxed :
      (gp : Gpool) (c : ℕ) (ws : List ℕ)
      → gp.waiters ≡ ws
      → Box w gp n
      → Boxed w n (hand_over gp c ws)
  unfolding hand_over deliver
  hand_over-Boxed gp c [] e b = Box-same w gp gp _ b refl refl refl (omega arith)
  hand_over-Boxed gp c (v ∷ ws) e b =
      let given = deliver (store_state (record gp { waiters = ws }) c borrowed) v (conn_result c) in
      Box-same w given given _ (Box-deliver w gp given v ws (conn_result c) b e refl refl refl) refl
        refl refl (omega arith)

  put-Boxed :
      (gp : Gpool) (c : ℕ) (pc : PoolConn) (now : ℤ) (is_open : Bool)
      → Box w gp n
      → Boxed w n (put gp c pc now is_open)
  unfolding put
  put-Boxed gp c pc now is_open b =
      if_cases (Boxed w n) gp.closed
        (λ e. close_begin-Boxed _ c returns (Box-same w gp _ n b refl refl refl refl))
        (λ e.
          if_cases (Boxed w n) (ltb 0 (length gp.waiters) && reusable_for_handoff gp pc now is_open)
            (λ f. hand_over-Boxed gp c gp.waiters refl b)
            (λ f. put_idle-Boxed _ c (Box-same w gp _ n b refl refl refl refl)))

  close_borrowed-Boxed :
      (gp : Gpool) (c : ℕ) (o : Option PoolConn) (s : ConnState) (now : ℤ) (is_open : Bool)
      → Box w gp n
      → Boxed w n (close_borrowed gp c o s now is_open)
  unfolding close_borrowed
  close_borrowed-Boxed gp c (some pc) borrowed now is_open b =
      put-Boxed _ c _ now is_open (Box-same w gp _ n b refl refl refl refl)
  close_borrowed-Boxed gp c _ _ now is_open b = Box-same w gp gp _ b refl refl refl (omega arith)

  discard_borrowed-Boxed :
      (gp : Gpool) (c : ℕ) (s : ConnState) → Box w gp n → Boxed w n (discard_borrowed gp c s)
  unfolding discard_borrowed
  discard_borrowed-Boxed gp c borrowed b =
      close_begin-Boxed _ c returns (Box-same w gp _ n b refl refl refl refl)
  discard_borrowed-Boxed gp c _ b = Box-same w gp gp _ b refl refl refl (omega arith)

  wake_all-Box :
      (ws : List ℕ) (gp : Gpool) → gp.waiters ≡ ws → Box w gp n → Box w (wake_all ws gp) n
  unfolding wake_all deliver
  wake_all-Box [] gp e b = b
  wake_all-Box (v ∷ ws) gp e b =
      wake_all-Box ws (deliver (record gp { waiters = ws }) v closed_result) refl
        (Box-deliver w gp _ v ws closed_result b e refl refl refl)

  close_popped-Box :
      (gp : Gpool) (o : Option ℕ) (cs : List ℕ) → Box w gp n → Box w (close_popped gp o cs).0 n
  unfolding close_popped
  close_popped-Box gp none cs b = b
  close_popped-Box gp (some c) cs b = Box-same w gp _ n b refl refl refl refl

  drain_idle-Box : (k : ℕ) (gp : Gpool) (cs : List ℕ) → Box w gp n → Box w (drain_idle k gp cs).0 n
  unfolding drain_idle
  drain_idle-Box zero gp cs b = b
  drain_idle-Box (suc k) gp cs b =
      let left = record gp { idle = (pop gp.idle).0 } in
      let next = close_popped left (pop gp.idle).1 cs in
      let one =
        close_popped-Box left (pop gp.idle).1 cs (Box-same w gp _ n b refl refl refl refl) in
      if_cases (λ (r : Gpool × List ℕ × Bool). Box w r.0 n) next.2 (λ e. one)
        (λ e. drain_idle-Box k next.0 next.1 one)

  close_pool-Boxed : (gp : Gpool) → Box w gp n → Boxed w n (close_pool gp)
  unfolding close_pool close_list
  close_pool-Boxed gp b =
      let shut = record gp { closed = true } in
      let awake = wake_all gp.waiters shut in
      let last = drain_idle awake.idle.size awake [] in
      let woken = wake_all-Box gp.waiters shut refl (Box-same w gp shut n b refl refl refl refl) in
      let emptied = drain_idle-Box awake.idle.size awake [] woken in
      let finished = finish_close-Box last.0 w emptied in
      if_cases (Boxed w n) gp.closed (λ e. Box-same w gp gp _ b refl refl refl (omega arith))
        (λ e.
          if_cases (Boxed w n) last.2
            (λ nil. Box-same w last.0 last.0 _ emptied refl refl refl (omega arith))
            (λ popped. Box-same w (finish_close last.0) _ _ finished refl refl refl (omega arith)))

  pub perform-Boxed : (gp : Gpool) (c : Call) → Box w gp n → Boxed w n (perform gp c)
  unfolding perform close_conn discard
  perform-Boxed gp (gets now is_open) b = get-Boxed gp now is_open b
  perform-Boxed gp (closes_conn c now is_open) b = close_borrowed-Boxed gp c _ _ now is_open b
  perform-Boxed gp (discards c) b = discard_borrowed-Boxed gp c _ b
  perform-Boxed gp closes_pool b = close_pool-Boxed gp b

  pub close_end-Box :
      (gp : Gpool) (c : ℕ) (err : Option Error) → Box w gp n → Box w (close_end gp c err) n
  unfolding close_end
  close_end-Box gp c err b =
      if_cases (λ g. Box w g n) gp.closed
        (λ e. finish_close-Box _ w (Box-same w gp _ n b refl refl refl refl))
        (λ e. dispatch-Box _ w (Box-same w gp _ n b refl refl refl refl))

  pub close_idle_one-Box :
      (gp : Gpool) (c : ℕ) (err : Option Error) → Box w gp n → Box w (close_idle_one gp c err) n
  unfolding close_idle_one
  close_idle_one-Box gp c err b = finish_close-Box _ w (Box-same w gp _ n b refl refl refl refl)

  pub after_close-Boxed :
      (gp : Gpool) (after : After) → Box w gp n → Boxed w n (after_close gp after)
  unfolding after_close
  after_close-Boxed gp reopens b = new_for_use-Boxed gp b
  after_close-Boxed gp fails_closed b = Box-same w gp gp _ b refl refl refl (omega arith)
  after_close-Boxed gp returns b = Box-same w gp gp _ b refl refl refl (omega arith)

  pub finish_create-Boxed : (gp : Gpool) (r : Created) → Box w gp n → Boxed w n (finish_create gp r)
  unfolding finish_create finish_create_closed finish_create_open
  finish_create-Boxed gp (made now) b =
      if_cases (Boxed w n) gp.closed
        (λ e. close_begin-Boxed _ _ fails_closed (Box-same w gp _ n b refl refl refl refl))
        (λ e. Box-same w gp _ _ b refl refl refl (omega arith))
  finish_create-Boxed gp (failed x) b =
      let left = record gp { creating = gp.creating - 1 } in
      let kept = Box-same w gp left n b refl refl refl refl in
      if_cases (Boxed w n) gp.closed
        (λ e.
          Box-same w (finish_close left) _ _ (finish_close-Box left w kept) refl refl refl
            (omega arith))
        (λ e.
          Box-same w (dispatch left) _ _ (dispatch-Box left w kept) refl refl refl (omega arith))
