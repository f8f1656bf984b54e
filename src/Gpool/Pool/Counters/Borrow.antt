-- ===== src/Gpool/Pool/Counters/Borrow.antt =====
-- Borrowing keeps the counters of gpool/gpool.go.
use lgobase.Base.{
  ℕ, suc, ◌+◌, ◌-◌, ◌≤◌, ◌<◌, ◌≡◌, inl, inr, Bool, false, List, [], ◌∷◌, ◌++◌, Option, none, some,
  arith, length, length-append, get_elem?, modify, Bool-cases, erase, length-erase-le, Option-cases,
}
use lgobase.Base.Int.{ℤ, pos_part}
use lgobase.Gpool.IdleQueue.{IdleQueue, pop, pop_newest}
use lgobase.Gpool.Pool.{
  Gpool, PoolConn, Error, WaitResult, WaitResultKind, result_conn, result_create, WaiterState,
  queued, canceled, capacity_used,
}
use lgobase.Gpool.Pool.Locked.{close_begin}
use lgobase.Gpool.Pool.Dispatch.{reserves_by, reserves, reservations, dispatch-Dispatched}
use lgobase.Gpool.Pool.Borrow.{
  use_idle, take_idle, get_from_idle, wait_begin, get, receive, handle_wait_result, handle_result,
  wait_result, cancel_in, cancel_waiter,
}
use lgobase.Gpool.Pool.Counters.{
  Counts, Partial, Kept, dispatch-Counts, finish_close-Counts, finish_close-Follows,
  new_for_use-Kept,
}

pub size-pop : (q : IdleQueue ℕ) → (pop q).0.size ≡ q.size - 1
unfolding pop
size-pop q = ground arith

pub size-pop_newest : (q : IdleQueue ℕ) → (pop_newest q).0.size ≡ q.size - 1
unfolding pop_newest
size-pop_newest q = ground arith

use_idle-Kept :
    (gp : Gpool) (c : ℕ) (pc : Option PoolConn) (now : ℤ) (is_open : Bool) (k m : ℕ)
    → Partial gp k m
    → gp.closed ≡ false
    → gp.waiters ≡ []
    → capacity_used gp ≤ pos_part gp.max_conns
    → Kept gp k m (use_idle gp c pc now is_open)
unfolding use_idle close_begin
use_idle-Kept gp c none now is_open k m p running w le = ground arith
use_idle-Kept gp c (some pc) now is_open k m p running w le = ground arith

take_idle-Kept :
    (gp : Gpool) (q : IdleQueue ℕ) (o : Option ℕ) (now : ℤ) (is_open : ℕ → Bool) (k m : ℕ)
    → Counts gp k m (suc (pos_part gp.max_conns))
    → gp.closed ≡ false
    → gp.waiters ≡ []
    → 0 < gp.idle.size
    → q.size ≡ gp.idle.size - 1
    → Kept gp k m (take_idle gp (q, o) now is_open)
unfolding take_idle
take_idle-Kept gp q none now is_open k m v running w lt e = ground arith
take_idle-Kept gp q (some c) now is_open k m v running w lt e =
    let left : Partial (record gp { idle = q }) k m = ground arith in
    let kept =
      use_idle-Kept (record gp { idle = q }) c (get_elem? gp.conns c) now (is_open c) k m left
        running w (omega (arith, v.limit)) in
    (kept.0, ground (arith, kept.1))

pub get_from_idle-Kept :
    (gp : Gpool) (now : ℤ) (is_open : ℕ → Bool) (k m : ℕ)
    → Counts gp k m (suc (pos_part gp.max_conns))
    → gp.closed ≡ false
    → gp.waiters ≡ []
    → 0 < gp.idle.size
    → Kept gp k m (get_from_idle gp now is_open)
unfolding get_from_idle
get_from_idle-Kept gp now is_open k m v running w lt = elim (Bool-cases gp.pool_fifo) [
  | inl e ↦
      let kept =
        take_idle-Kept gp (pop gp.idle).0 (pop gp.idle).1 now is_open k m v running w lt
          (size-pop gp.idle) in
      ground (arith, kept)
  | inr e ↦
      let kept =
        take_idle-Kept gp (pop_newest gp.idle).0 (pop_newest gp.idle).1 now is_open k m v running w
          lt (size-pop_newest gp.idle) in
      ground (arith, kept)
]

-- The pool with a new waiter at the end of the queue.
abbrev enqueued : Gpool → Gpool
enqueued gp = record gp {
  waiter_states = gp.waiter_states ++ queued ∷ [];
  waiters = gp.waiters ++ length gp.waiter_states ∷ [];
  waits = length (gp.waiters ++ length gp.waiter_states ∷ []);
}

pub wait_begin-Kept :
    (gp : Gpool) (k m : ℕ)
    → Counts gp k m (suc (pos_part gp.max_conns))
    → Kept gp k m (wait_begin gp)
unfolding wait_begin
wait_begin-Kept gp k m v =
    let limit = suc (pos_part gp.max_conns) in
    ground (
      arith,
      length-append gp.waiters (length gp.waiter_states ∷ []),
      dispatch-Counts (enqueued gp) k m limit,
      dispatch-Dispatched (enqueued gp),
    )

pub get-Kept :
    (gp : Gpool) (now : ℤ) (is_open : ℕ → Bool) (k m : ℕ)
    → Counts gp k m (suc (pos_part gp.max_conns))
    → Kept gp k m (get gp now is_open)
unfolding get
get-Kept gp now is_open k m v = ground (
  arith,
  wait_begin-Kept gp k m v,
  get_from_idle-Kept gp now is_open k m v,
  new_for_use-Kept gp k m,
)

reservations-receive :
    (w : ℕ) (rs : List (ℕ × WaitResult)) {r : WaitResult} {rs' : List (ℕ × WaitResult)}
    → receive w rs ≡ some (r, rs')
    → reservations rs ≡ reserves r + reservations rs'
unfolding receive reservations
reservations-receive w [] e = cc
reservations-receive w ((v, s) ∷ rs) e = elim (Option-cases (receive w rs)) [
  | inl n ↦ ground arith
  | inr (a, f) ↦ ground (arith, reservations-receive w rs {r = a.0} {rs' = a.1} f)
]

handle_wait_result-Kept :
    (gp : Gpool) (kind : WaitResultKind) (r : WaitResult) (rs : List (ℕ × WaitResult)) (k m : ℕ)
    → reservations gp.results ≡ reserves_by none kind + reservations rs
    → Counts gp k m (suc (pos_part gp.max_conns))
    → Kept gp k m (handle_wait_result (record gp { results = rs }) kind r)
unfolding handle_wait_result
handle_wait_result-Kept gp result_conn r rs k m res v = ground arith
handle_wait_result-Kept gp result_create r rs k m res v =
    let left = record gp { results = rs; creating = gp.creating - 1 } in
    let partial : Partial left k m = ground arith in
    ground (
      arith,
      finish_close-Counts left k m (suc (pos_part gp.max_conns)) partial,
      finish_close-Follows left,
    )

handle_result-Kept :
    (gp : Gpool) (r : WaitResult) (o : Option Error) (rs : List (ℕ × WaitResult)) (k m : ℕ)
    → reservations gp.results ≡ reserves_by o r.kind + reservations rs
    → Counts gp k m (suc (pos_part gp.max_conns))
    → Kept gp k m (handle_result (record gp { results = rs }) r o)
unfolding handle_result
handle_result-Kept gp r none rs k m res v = handle_wait_result-Kept gp r.kind r rs k m res v
handle_result-Kept gp r (some e) rs k m res v = ground arith

pub wait_result-Kept :
    (gp : Gpool) (w k m : ℕ)
    → Counts gp k m (suc (pos_part gp.max_conns))
    → Kept gp k m (wait_result gp w)
unfolding wait_result
wait_result-Kept gp w k m v = elim (Option-cases (receive w gp.results)) [
  | inl e ↦ rw e (ground arith)
  | inr (a, e) ↦
      rw e (handle_result-Kept gp a.0 a.0.err a.1 k m (reservations-receive w gp.results e) v)
]

cancel_in-Kept :
    (gp : Gpool) (w : ℕ) (err : Error) (s : Option WaiterState) (k m : ℕ)
    → Counts gp k m (suc (pos_part gp.max_conns))
    → Kept gp k m (cancel_in gp w err s)
unfolding cancel_in erase
cancel_in-Kept gp w err (some queued) k m v =
    let ws = erase w gp.waiters in
    let left = record gp {
      waiters = ws;
      waiter_states = modify gp.waiter_states w (λ _. canceled);
      waits = length ws;
    } in
    let fewer = length-erase-le w gp.waiters in
    let none_left : gp.waiters ≡ [] → ws ≡ [] = λ e. rw (e, erase) in
    let partial : Partial left k m = ground (arith, fewer, none_left) in
    ground (
      arith,
      dispatch-Counts left k m (suc (pos_part gp.max_conns)) partial,
      dispatch-Dispatched left,
    )
cancel_in-Kept gp w err _ k m v = wait_result-Kept gp w k m v

pub cancel_waiter-Kept :
    (gp : Gpool) (w : ℕ) (err : Error) (k m : ℕ)
    → Counts gp k m (suc (pos_part gp.max_conns))
    → Kept gp k m (cancel_waiter gp w err)
unfolding cancel_waiter
cancel_waiter-Kept gp w err k m v = cancel_in-Kept gp w err (get_elem? gp.waiter_states w) k m v
