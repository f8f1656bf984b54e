-- ===== src/Gpool/Pool/Panics.antt =====
-- No section of gpool/gpool.go dereferences a nil pointer: the pops of `getConnFromIdle`, `put`
-- and `Close` find what they take.
use lgobase.Base.{
  ℕ, ◌+◌, ◌<◌, ◌≡◌, ◌≢◌, ap, sym, subst, ◌∙◌, Bool, ◌&&◌, List, [], ◌∷◌, ◌++◌, Option, none, some,
  arith, length, get_elem?, count, count-append, split_last, split_last_lem, if_cases, ltb, ◌==◌,
}
use lgobase.Base.Int.{ℤ}
use lgobase.Gpool.IdleQueue.{IdleQueue, pop, pop_newest, push, capacity_of}
use lgobase.Gpool.IdleQueue.Ring.{Holds, pop-Holds, pop_newest-Holds}
use lgobase.Gpool.Pool.{Gpool, PoolConn, Config, ConnState, borrowed, Outcome, panicked}
use lgobase.Gpool.Pool.Locked.{close_begin, new_for_use}
use lgobase.Gpool.Pool.Borrow.{Created, use_idle, take_idle, get_from_idle, wait_begin, get}
use lgobase.Gpool.Pool.Return.{
  close_if, evict, put_idle, hand_over, put, close_borrowed, close_conn, discard_borrowed, discard,
  reusable_for_handoff,
}
use lgobase.Gpool.Pool.Shutdown.{close_list, close_pool}
use lgobase.Gpool.Pool.World.{Call, gets, closes_conn, discards, closes_pool, Event, perform}
use lgobase.Gpool.Pool.Ownership.Shutdown.{drain_idle-whole}
use lgobase.Gpool.Pool.Ownership.{Owns, is_idle, is_idle_inv}
use lgobase.Gpool.Pool.Invariant.Run.{reached-Sound}
use lgobase.Gpool.Pool.Safety.{pool_after}

-- As `≢ panicked`, but for computing.
abbrev Runs : Gpool × Outcome → Type 0
Runs (gp, panicked) = ⊥
Runs _ = Unit {0}

use_idle-Runs :
    (gp : Gpool) (c : ℕ) (pc : PoolConn) (now : ℤ) (is_open : Bool)
    → Runs (use_idle gp c (some pc) now is_open)
unfolding use_idle close_begin
use_idle-Runs gp c pc now is_open = ground arith

take_idle-Runs :
    (gp : Gpool) (q : IdleQueue ℕ) (o : Option ℕ) (c : ℕ) (now : ℤ) (is_open : ℕ → Bool)
    → o ≡ some c
    → 0 < is_idle (get_elem? gp.conns c)
    → Runs (take_idle gp (q, o) now is_open)
unfolding take_idle
take_idle-Runs gp q o c now is_open e lt =
    let (pc, held, s) = is_idle_inv (get_elem? gp.conns c) lt in
    rw (e, take_idle, held) (use_idle-Runs (record gp { idle = q }) c pc now (is_open c))

-- What the ring gives is idle.
popped_idle :
    (gp : Gpool) (closers : ℕ → ℕ)
    → Owns gp closers
    → 0 < gp.idle.size
    → (c : ℕ) × ((pop gp.idle).1 ≡ some c) × (0 < is_idle (get_elem? gp.conns c))
popped_idle gp closers ([], h) lt = absurd (omega (arith, h.holds.size_is))
popped_idle gp closers (c ∷ ring, h) lt =
    (c, (pop-Holds gp.idle c ring h.holds).1, ground (arith, h.idle_once c))

newest_idle :
    (gp : Gpool) (closers : ℕ → ℕ)
    → Owns gp closers
    → 0 < gp.idle.size
    → (c : ℕ) × ((pop_newest gp.idle).1 ≡ some c) × (0 < is_idle (get_elem? gp.conns c))
newest_idle gp closers ([], h) lt = absurd (omega (arith, h.holds.size_is))
newest_idle gp closers (x ∷ ring, h) lt =
    let (rest, c) = split_last x ring in
    let whole : x ∷ ring ≡ rest ++ c ∷ [] = sym (split_last_lem x ring) in
    let same : count c (x ∷ ring) ≡ count c rest + count c (c ∷ []) =
      ap (count c) whole ∙ count-append c rest (c ∷ []) in
    let one : count c (c ∷ []) ≡ 1 = ground arith in
    (
      c,
      (pop_newest-Holds gp.idle rest c (subst (Holds gp.idle) whole h.holds)).1,
      omega (arith, h.idle_once c, same, one),
    )

get_from_idle-Runs :
    (gp : Gpool) (now : ℤ) (is_open : ℕ → Bool) (closers : ℕ → ℕ)
    → Owns gp closers
    → 0 < gp.idle.size
    → Runs (get_from_idle gp now is_open)
unfolding get_from_idle
get_from_idle-Runs gp now is_open closers o lt =
    let (c, e, s) = popped_idle gp closers o lt in
    let (c', e', s') = newest_idle gp closers o lt in
    if_cases (λ r. Runs (take_idle gp r now is_open)) gp.pool_fifo
      (λ f. take_idle-Runs gp (pop gp.idle).0 (pop gp.idle).1 c now is_open e s)
      (λ f. take_idle-Runs gp (pop_newest gp.idle).0 (pop_newest gp.idle).1 c' now is_open e' s')

wait_begin-Runs : (gp : Gpool) → Runs (wait_begin gp)
unfolding wait_begin
wait_begin-Runs gp = ground arith

get-Runs :
    (gp : Gpool) (now : ℤ) (is_open : ℕ → Bool) (closers : ℕ → ℕ)
    → Owns gp closers
    → Runs (get gp now is_open)
unfolding get new_for_use
get-Runs gp now is_open closers o =
    ground (arith, wait_begin-Runs gp, get_from_idle-Runs gp now is_open closers o)

close_if-Runs : (gp : Gpool) (o : Option ℕ) → Runs (close_if gp o)
unfolding close_if close_begin
close_if-Runs gp none = tt
close_if-Runs gp (some c) = tt

put_idle-Runs : (gp : Gpool) (c : ℕ) → Runs (put_idle gp c)
unfolding put_idle evict
put_idle-Runs gp c =
    let q = (push gp.idle (some c)).0 in
    if_cases Runs (ltb 0 (length gp.waiters)) (λ e. close_if-Runs gp (some c))
      (λ e.
        if_cases Runs (push gp.idle (some c)).1 (λ f. close_if-Runs (record gp { idle = q }) none)
          (λ f.
            if_cases Runs (capacity_of q == 0)
              (λ g. close_if-Runs (record gp { idle = q }) (some c))
              (λ g. close_if-Runs (record gp { idle = (push (pop q).0 (some c)).0 }) (pop q).1)))

hand_over-Runs : (gp : Gpool) (c : ℕ) (ws : List ℕ) → 0 < length ws → Runs (hand_over gp c ws)
unfolding hand_over
hand_over-Runs gp c [] lt = absurd (omega arith)
hand_over-Runs gp c (w ∷ ws) lt = tt

put-Runs :
    (gp : Gpool) (c : ℕ) (pc : PoolConn) (now : ℤ) (is_open : Bool) → Runs (put gp c pc now is_open)
unfolding put close_begin
put-Runs gp c pc now is_open =
    if_cases Runs gp.closed (λ e. tt)
      (λ e.
        if_cases Runs (ltb 0 (length gp.waiters) && reusable_for_handoff gp pc now is_open)
          (λ f. hand_over-Runs _ c gp.waiters (ground arith)) (λ f. put_idle-Runs _ c))

close_borrowed-Runs :
    (gp : Gpool) (c : ℕ) (o : Option PoolConn) (s : ConnState) (now : ℤ) (is_open : Bool)
    → Runs (close_borrowed gp c o s now is_open)
unfolding close_borrowed
close_borrowed-Runs gp c (some pc) borrowed now is_open = put-Runs _ c _ now is_open
close_borrowed-Runs gp c _ _ now is_open = tt

discard_borrowed-Runs : (gp : Gpool) (c : ℕ) (s : ConnState) → Runs (discard_borrowed gp c s)
unfolding discard_borrowed close_begin
discard_borrowed-Runs gp c borrowed = tt
discard_borrowed-Runs gp c _ = tt

perform-Runs :
    (gp : Gpool) (call : Call) (closers : ℕ → ℕ) → Owns gp closers → Runs (perform gp call)
unfolding perform close_conn discard close_pool close_list
perform-Runs gp (gets now is_open) closers o = get-Runs gp now is_open closers o
perform-Runs gp (closes_conn c now is_open) closers o = close_borrowed-Runs gp c _ _ now is_open
perform-Runs gp (discards c) closers o = discard_borrowed-Runs gp c _
perform-Runs gp closes_pool closers o =
    if_cases Runs gp.closed (λ e. tt) (λ e. rw (drain_idle-whole gp closers o).1 tt)

not_panicked : (r : Gpool × Outcome) → Runs r → r.1 ≢ panicked
not_panicked r h e = subst (λ o. Runs (r.0, o)) e h

-- After every interleaving, no call of `Get`, `Close` or `Discard` and no `Close` of the pool
-- dereferences a nil connection: every pop of the ring that is not tested gives a connection. Nor does
-- `put` dereference a nil waiter, which its test in front of the pop sees to.
pub perform-never_panics :
    (c : Config) (made_now : ℕ → Created × ℤ) (es : List Event) (call : Call)
    → (perform (pool_after c made_now es) call).1 ≢ panicked
perform-never_panics c made_now es call =
    not_panicked (perform (pool_after c made_now es) call)
      (perform-Runs (pool_after c made_now es) call _ (reached-Sound c made_now es).owns)
