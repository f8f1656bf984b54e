-- ===== src/Gpool/Pool/Parking.antt =====
-- Which sections leave a goroutine to close idle connections: only those of a closed pool.
use lgobase.Base.{
  ℕ, ◌≡◌, refl, inl, inr, Bool, List, [], ◌∷◌, Option, none, some, arith, length, get_elem?,
  if◌then◌else◌, if_cases, Option-cases, ltb, ◌&&◌, ◌==◌,
}
use lgobase.Base.Int.{ℤ}
use lgobase.Gpool.IdleQueue.{IdleQueue, pop, pop_newest, push, capacity_of}
use lgobase.Gpool.Pool.{
  Gpool, PoolConn, Error, ConnState, borrowed, WaitResult, WaitResultKind, result_conn,
  result_create, WaiterState, queued, Task, closing_idle, Outcome, parked,
}
use lgobase.Gpool.Pool.Locked.{close_begin, new_for_use}
use lgobase.Gpool.Pool.Borrow.{
  Created, made, failed, finish_create, use_idle, take_idle, get_from_idle, wait_begin, get,
  receive, handle_wait_result, handle_result, take_result, wait_result, cancel_in, cancel_waiter,
}
use lgobase.Gpool.Pool.Return.{
  close_if, evict, put_idle, hand_over, put, close_borrowed, state_of, close_conn, discard_borrowed,
  discard, reusable_for_handoff,
}

abbrev pub ClosesIdle : Task → Type 0
ClosesIdle (closing_idle cs) = ⊥
ClosesIdle _ = Unit {0}

abbrev pub Spares : Gpool × Outcome → Type 0
Spares (gp, parked t) = ClosesIdle t
Spares (gp, _) = Unit {0}

use_idle-Spares :
    (gp : Gpool) (c : ℕ) (o : Option PoolConn) (now : ℤ) (is_open : Bool)
    → Spares (use_idle gp c o now is_open)
unfolding use_idle close_begin
use_idle-Spares gp c none now is_open = tt
use_idle-Spares gp c (some pc) now is_open = ground arith

take_idle-Spares :
    (gp : Gpool) (q : IdleQueue ℕ) (o : Option ℕ) (now : ℤ) (is_open : ℕ → Bool)
    → Spares (take_idle gp (q, o) now is_open)
unfolding take_idle
take_idle-Spares gp q none now is_open = tt
take_idle-Spares gp q (some c) now is_open =
    use_idle-Spares (record gp { idle = q }) c (get_elem? gp.conns c) now (is_open c)

wait_begin-Spares : (gp : Gpool) → Spares (wait_begin gp)
unfolding wait_begin
wait_begin-Spares gp = ground arith

get_from_idle-Spares :
    (gp : Gpool) (now : ℤ) (is_open : ℕ → Bool) → Spares (get_from_idle gp now is_open)
unfolding get_from_idle
get_from_idle-Spares gp now is_open =
    let r = if gp.pool_fifo then pop gp.idle else pop_newest gp.idle in
    take_idle-Spares gp r.0 r.1 now is_open

pub get-Spares : (gp : Gpool) (now : ℤ) (is_open : ℕ → Bool) → Spares (get gp now is_open)
unfolding get new_for_use
get-Spares gp now is_open =
    ground (arith, wait_begin-Spares gp, get_from_idle-Spares gp now is_open)

pub finish_create-Spares : (gp : Gpool) (r : Created) → Spares (finish_create gp r)
unfolding finish_create close_begin
finish_create-Spares gp (made now) = ground arith
finish_create-Spares gp (failed e) = ground arith

handle_result-Spares :
    (gp : Gpool) (r : WaitResult) (kind : WaitResultKind) (o : Option Error)
    → r.kind ≡ kind
    → Spares (handle_result gp r o)
unfolding handle_result handle_wait_result
handle_result-Spares gp r kind (some e) k = tt
handle_result-Spares gp r result_conn none k = rw (k, handle_wait_result) tt
handle_result-Spares gp r result_create none k = rw (k, handle_wait_result) (ground arith)

pub wait_result-Spares : (gp : Gpool) (w : ℕ) → Spares (wait_result gp w)
unfolding wait_result
wait_result-Spares gp w = elim (Option-cases (receive w gp.results)) [
  | inl e ↦ rw (e, take_result) tt
  | inr (a, e) ↦
      rw (e, take_result)
        (handle_result-Spares (record gp { results = a.1 }) a.0 a.0.kind a.0.err refl)
]

cancel_in-Spares :
    (gp : Gpool) (w : ℕ) (e : Error) (s : Option WaiterState) → Spares (cancel_in gp w e s)
unfolding cancel_in
cancel_in-Spares gp w e (some queued) = tt
cancel_in-Spares gp w e _ = wait_result-Spares gp w

pub cancel_waiter-Spares : (gp : Gpool) (w : ℕ) (e : Error) → Spares (cancel_waiter gp w e)
unfolding cancel_waiter
cancel_waiter-Spares gp w e = cancel_in-Spares gp w e (get_elem? gp.waiter_states w)

close_if-Spares : (gp : Gpool) (o : Option ℕ) → Spares (close_if gp o)
unfolding close_if close_begin
close_if-Spares gp none = tt
close_if-Spares gp (some c) = tt

hand_over-Spares : (gp : Gpool) (c : ℕ) (ws : List ℕ) → Spares (hand_over gp c ws)
unfolding hand_over
hand_over-Spares gp c [] = tt
hand_over-Spares gp c (w ∷ ws) = tt

put_idle-Spares : (gp : Gpool) (c : ℕ) → Spares (put_idle gp c)
unfolding put_idle evict
put_idle-Spares gp c =
    let q = (push gp.idle (some c)).0 in
    if_cases Spares (ltb 0 (length gp.waiters)) (λ e. close_if-Spares gp (some c))
      (λ e.
        if_cases Spares (push gp.idle (some c)).1
          (λ f. close_if-Spares (record gp { idle = q }) none)
          (λ f.
            if_cases Spares (capacity_of q == 0)
              (λ g. close_if-Spares (record gp { idle = q }) (some c))
              (λ g. close_if-Spares (record gp { idle = (push (pop q).0 (some c)).0 }) (pop q).1)))

put-Spares :
    (gp : Gpool) (c : ℕ) (pc : PoolConn) (now : ℤ) (is_open : Bool)
    → Spares (put gp c pc now is_open)
unfolding put close_begin
put-Spares gp c pc now is_open =
    if_cases Spares gp.closed (λ e. tt)
      (λ e.
        if_cases Spares (ltb 0 (length gp.waiters) && reusable_for_handoff gp pc now is_open)
          (λ f. hand_over-Spares _ c gp.waiters) (λ f. put_idle-Spares _ c))

close_borrowed-Spares :
    (gp : Gpool) (c : ℕ) (o : Option PoolConn) (s : ConnState) (now : ℤ) (is_open : Bool)
    → Spares (close_borrowed gp c o s now is_open)
unfolding close_borrowed
close_borrowed-Spares gp c (some pc) borrowed now is_open = put-Spares _ c _ now is_open
close_borrowed-Spares gp c _ _ now is_open = tt

pub close_conn-Spares :
    (gp : Gpool) (c : ℕ) (now : ℤ) (is_open : Bool) → Spares (close_conn gp c now is_open)
unfolding close_conn
close_conn-Spares gp c now is_open =
    close_borrowed-Spares gp c (get_elem? gp.conns c) (state_of (get_elem? gp.conns c)) now is_open

discard_borrowed-Spares : (gp : Gpool) (c : ℕ) (s : ConnState) → Spares (discard_borrowed gp c s)
unfolding discard_borrowed close_begin
discard_borrowed-Spares gp c borrowed = tt
discard_borrowed-Spares gp c _ = tt

pub discard-Spares : (gp : Gpool) (c : ℕ) → Spares (discard gp c)
unfolding discard
discard-Spares gp c = discard_borrowed-Spares gp c (state_of (get_elem? gp.conns c))
