-- ===== src/Gpool/Pool/Ownership/Borrow.antt =====
-- Borrowing keeps track of every connection.
use lgobase.Base.{
  ℕ, ◌+◌, ◌-◌, ◌<◌, ◌≡◌, refl, sym, ap, ◌∙◌, List, [], ◌∷◌, ◌++◌, Option, none, some, arith, length,
  get_elem?, get_elem?_above, modify-modify, modify_concat, count, count-append, if◌then◌else◌,
  if_cases, inl, inr, Bool, Bool-cases, Option-cases, split_last, split_last_lem, subst, ltb,
  ltb→lt,
}
use lgobase.Base.Int.{ℤ, pos, ltb_ℤ, leb_ℤ}
use lgobase.Gpool.IdleQueue.{IdleQueue, pop, pop_newest}
use lgobase.Gpool.IdleQueue.Ring.{Holds, pop-Holds, pop_newest-Holds}
use lgobase.Gpool.Pool.{
  Gpool, borrowed, closing, Error, WaitResult, WaitResultKind, result_conn, result_create,
  WaiterState, queued, Outcome, set_state, capacity_used,
}
use lgobase.Gpool.Pool.Locked.{dispatch, finish_close, close_begin, new_for_use}
use lgobase.Gpool.Pool.Dispatch.{dispatch-Dispatched}
use lgobase.Gpool.Pool.Borrow.{
  Created, made, failed, finish_create_closed, finish_create_open, finish_create, use_idle,
  take_idle, get_from_idle, wait_begin, get, receive, handle_wait_result, handle_result,
  wait_result, cancel_in, cancel_waiter, is_stale,
}
use lgobase.Gpool.Pool.Counters.{out_closings}
use lgobase.Gpool.Pool.Ownership.{Owns, is_idle_inv}
use lgobase.Gpool.Pool.Ownership.Transfer.{Held-Transfer, Owns-add, Owns-same}

-- A section keeps track of the connections, with `closers` those of the other goroutines.
abbrev pub Tracks : (ℕ → ℕ) → Gpool × Outcome → Type 0
Tracks closers (gp, out) = Owns gp (λ j. count j (out_closings out) + closers j)

pub dispatch-Owns :
    (gp : Gpool) (closers closers' : ℕ → ℕ)
    → ((j : ℕ) → closers' j ≡ closers j)
    → Owns gp closers
    → Owns (dispatch gp) closers'
dispatch-Owns gp closers closers' k o =
    let d = dispatch-Dispatched gp in
    Owns-same gp (dispatch gp) closers closers' o d.conns_same d.idle_same d.in_use_same k

pub finish_close-Owns :
    (gp : Gpool) (closers closers' : ℕ → ℕ)
    → ((j : ℕ) → closers' j ≡ closers j)
    → Owns gp closers
    → Owns (finish_close gp) closers'
unfolding finish_close
finish_close-Owns gp closers closers' k o =
    Owns-same gp (finish_close gp) closers closers' o (ground arith) (ground arith) (ground arith) k

finish_create_closed-Tracks :
    (gp : Gpool) (r : Created) (closers : ℕ → ℕ)
    → Owns gp closers
    → Tracks closers (finish_create_closed gp r)
unfolding finish_create_closed close_begin
finish_create_closed-Tracks gp (made now) closers o =
    Owns-add gp _ closers _ (record { ctime = now; idle_time = pos 0; state = closing }) o
      (modify_concat gp.conns _ _) refl refl
      (ground (arith, o.1.closing_once (length gp.conns), beyond)) (λ j ne. ground arith)
      (omega arith)
  where
    beyond : get_elem? gp.conns (length gp.conns) ≡ none
    beyond = get_elem?_above gp.conns (length gp.conns) (omega arith)
finish_create_closed-Tracks gp (failed e) closers o =
    finish_close-Owns gp closers _ (λ j. omega arith) o

finish_create_open-Tracks :
    (gp : Gpool) (r : Created) (closers : ℕ → ℕ)
    → Owns gp closers
    → Tracks closers (finish_create_open gp r)
unfolding finish_create_open
finish_create_open-Tracks gp (made now) closers o =
    Owns-add gp _ closers _ (record { ctime = now; idle_time = pos 0; state = borrowed }) o refl
      refl refl (ground (arith, o.1.closing_once (length gp.conns), beyond)) (λ j ne. omega arith)
      refl
  where
    beyond : get_elem? gp.conns (length gp.conns) ≡ none
    beyond = get_elem?_above gp.conns (length gp.conns) (omega arith)
finish_create_open-Tracks gp (failed e) closers o = dispatch-Owns gp closers _ (λ j. omega arith) o

pub finish_create-Tracks :
    (gp : Gpool) (r : Created) (closers : ℕ → ℕ)
    → Owns gp closers
    → Tracks closers (finish_create gp r)
unfolding finish_create
finish_create-Tracks gp r closers o =
    let gp' = record gp { creating = gp.creating - 1 } in
    let o' = Owns-same gp gp' closers closers o refl refl refl (λ j. refl) in
    if_cases (Tracks closers) gp.closed (λ e. finish_create_closed-Tracks gp' r closers o')
      (λ e. finish_create_open-Tracks gp' r closers o')

-- The connection that leaves the ring.
use_idle-Tracks :
    (gp : Gpool) (q : IdleQueue ℕ) (c : ℕ) (ring' : List ℕ) (now : ℤ) (is_open : Bool)
    (closers : ℕ → ℕ) (o : Owns gp closers)
    → Holds q ring'
    → ((j : ℕ) → count j o.0 ≡ count j (c ∷ []) + count j ring')
    → Tracks closers (use_idle (record gp { idle = q }) c (get_elem? gp.conns c) now is_open)
unfolding use_idle close_begin
use_idle-Tracks gp q c ring' now is_open closers o h split =
    let (pc, e, s) =
      is_idle_inv (get_elem? gp.conns c) (ground (arith, o.1.idle_once c, split c)) in
    rw (e, use_idle)
      (if_cases (Tracks closers) (is_stale (record gp { idle = q }) pc now is_open)
        (λ stale. (
          ring',
          Held-Transfer gp _ closers _ o.0 ring' c pc (set_state closing) o.1 (record {
            held = e;
            conns_is = modify-modify gp.conns c (set_state borrowed) (set_state closing);
            holds = h;
            idle_here = ground (arith, o.1.idle_once c, split c);
            idle_there = λ j ne. ground (arith, split j);
            closing_here = ground (arith, o.1.closing_once c);
            closing_there = λ j ne. ground arith;
            in_use_is = ground arith;
          }),
        ))
        (λ fresh. (
          ring',
          Held-Transfer gp _ closers _ o.0 ring' c pc (set_state borrowed) o.1 (record {
            held = e;
            conns_is = refl;
            holds = h;
            idle_here = ground (arith, o.1.idle_once c, split c);
            idle_there = λ j ne. ground (arith, split j);
            closing_here = ground (arith, o.1.closing_once c);
            closing_there = λ j ne. omega arith;
            in_use_is = ground arith;
          }),
        )))

take_fifo-Tracks :
    (gp : Gpool) (ring : List ℕ) (now : ℤ) (is_open : ℕ → Bool) (closers : ℕ → ℕ)
    (o : Owns gp closers)
    → o.0 ≡ ring
    → 0 < gp.idle.size
    → Tracks closers (take_idle gp (pop gp.idle) now is_open)
unfolding take_idle
take_fifo-Tracks gp [] now is_open closers o e lt =
    absurd (omega (arith, o.1.holds.size_is, ap (length {0}) e))
take_fifo-Tracks gp (c ∷ ring) now is_open closers o e lt =
    let (h, p) = pop-Holds gp.idle c ring (subst (Holds gp.idle) e o.1.holds) in
    rw (p, take_idle)
      (use_idle-Tracks gp (pop gp.idle).0 c ring now (is_open c) closers o h
        (λ j. rw e (omega arith)))

take_lifo-Tracks :
    (gp : Gpool) (ring : List ℕ) (now : ℤ) (is_open : ℕ → Bool) (closers : ℕ → ℕ)
    (o : Owns gp closers)
    → o.0 ≡ ring
    → 0 < gp.idle.size
    → Tracks closers (take_idle gp (pop_newest gp.idle) now is_open)
unfolding take_idle
take_lifo-Tracks gp [] now is_open closers o e lt =
    absurd (omega (arith, o.1.holds.size_is, ap (length {0}) e))
take_lifo-Tracks gp (x ∷ xs) now is_open closers o e lt =
    let (rest, c) = split_last x xs in
    let whole : o.0 ≡ rest ++ c ∷ [] = e ∙ sym (split_last_lem x xs) in
    let (h, p) = pop_newest-Holds gp.idle rest c (subst (Holds gp.idle) whole o.1.holds) in
    rw (p, take_idle)
      (use_idle-Tracks gp (pop_newest gp.idle).0 c rest now (is_open c) closers o h
        (λ j. rw whole (omega (arith, count-append j rest (c ∷ [])))))

pub get_from_idle-Tracks :
    (gp : Gpool) (now : ℤ) (is_open : ℕ → Bool) (closers : ℕ → ℕ)
    → Owns gp closers
    → 0 < gp.idle.size
    → Tracks closers (get_from_idle gp now is_open)
unfolding get_from_idle
get_from_idle-Tracks gp now is_open closers o lt = elim (Bool-cases gp.pool_fifo) [
  | inl e ↦
      subst
        (λ b.
          Tracks closers (take_idle gp (if b then pop gp.idle else pop_newest gp.idle) now is_open))
        (sym e) (take_fifo-Tracks gp o.0 now is_open closers o refl lt)
  | inr e ↦
      subst
        (λ b.
          Tracks closers (take_idle gp (if b then pop gp.idle else pop_newest gp.idle) now is_open))
        (sym e) (take_lifo-Tracks gp o.0 now is_open closers o refl lt)
]

pub new_for_use-Tracks :
    (gp : Gpool) (closers : ℕ → ℕ) → Owns gp closers → Tracks closers (new_for_use gp)
unfolding new_for_use
new_for_use-Tracks gp closers o = Owns-same gp _ closers _ o refl refl refl (λ j. omega arith)

pub wait_begin-Tracks :
    (gp : Gpool) (closers : ℕ → ℕ) → Owns gp closers → Tracks closers (wait_begin gp)
unfolding wait_begin
wait_begin-Tracks gp closers o =
    let same = Owns-same gp gp closers (λ j. 0 + closers j) o refl refl refl (λ j. omega arith) in
    if_cases (Tracks closers) gp.closed (λ shut. same)
      (λ running.
        if_cases (Tracks closers) (leb_ℤ gp.max_waiters (pos (length gp.waiters))) (λ full. same)
          (λ room.
            dispatch-Owns _ closers _ (λ j. omega arith)
              (Owns-same gp _ closers closers o refl refl refl (λ j. refl))))

pub get-Tracks :
    (gp : Gpool) (now : ℤ) (is_open : ℕ → Bool) (closers : ℕ → ℕ)
    → Owns gp closers
    → Tracks closers (get gp now is_open)
unfolding get
get-Tracks gp now is_open closers o =
    if_cases (Tracks closers) gp.closed
      (λ shut. Owns-same gp gp closers _ o refl refl refl (λ j. omega arith))
      (λ running.
        if_cases (Tracks closers) (ltb 0 (length gp.waiters))
          (λ queued. wait_begin-Tracks gp closers o)
          (λ free.
            if_cases (Tracks closers) (ltb 0 gp.idle.size)
              (λ some_idle. get_from_idle-Tracks gp now is_open closers o (ltb→lt _ _ some_idle))
              (λ none_idle.
                if_cases (Tracks closers) (ltb_ℤ (pos (capacity_used gp)) gp.max_conns)
                  (λ room. new_for_use-Tracks gp closers o)
                  (λ full. wait_begin-Tracks gp closers o))))

handle_wait_result-Tracks :
    (gp : Gpool) (kind : WaitResultKind) (r : WaitResult) (closers : ℕ → ℕ)
    → Owns gp closers
    → Tracks closers (handle_wait_result gp kind r)
unfolding handle_wait_result
handle_wait_result-Tracks gp result_conn r closers o =
    Owns-same gp gp closers _ o refl refl refl (λ j. omega arith)
handle_wait_result-Tracks gp result_create r closers o =
    if_cases (Tracks closers) gp.closed
      (λ shut.
        finish_close-Owns _ closers _ (λ j. omega arith)
          (Owns-same gp _ closers closers o refl refl refl (λ j. refl)))
      (λ running. Owns-same gp gp closers _ o refl refl refl (λ j. omega arith))

handle_result-Tracks :
    (gp : Gpool) (r : WaitResult) (e : Option Error) (closers : ℕ → ℕ)
    → Owns gp closers
    → Tracks closers (handle_result gp r e)
unfolding handle_result
handle_result-Tracks gp r none closers o = handle_wait_result-Tracks gp r.kind r closers o
handle_result-Tracks gp r (some e) closers o =
    Owns-same gp gp closers _ o refl refl refl (λ j. omega arith)

pub wait_result-Tracks :
    (gp : Gpool) (w : ℕ) (closers : ℕ → ℕ) → Owns gp closers → Tracks closers (wait_result gp w)
unfolding wait_result
wait_result-Tracks gp w closers o = elim (Option-cases (receive w gp.results)) [
  | inl e ↦ rw e (Owns-same gp gp closers _ o refl refl refl (λ j. omega arith))
  | inr (a, e) ↦ rw e (
      handle_result-Tracks (record gp { results = a.1 }) a.0 a.0.err closers
        (Owns-same gp _ closers closers o refl refl refl (λ j. refl)))
]

cancel_in-Tracks :
    (gp : Gpool) (w : ℕ) (err : Error) (s : Option WaiterState) (closers : ℕ → ℕ)
    → Owns gp closers
    → Tracks closers (cancel_in gp w err s)
unfolding cancel_in
cancel_in-Tracks gp w err (some queued) closers o =
    dispatch-Owns _ closers _ (λ j. omega arith)
      (Owns-same gp _ closers closers o refl refl refl (λ j. refl))
cancel_in-Tracks gp w err _ closers o = wait_result-Tracks gp w closers o

pub cancel_waiter-Tracks :
    (gp : Gpool) (w : ℕ) (err : Error) (closers : ℕ → ℕ)
    → Owns gp closers
    → Tracks closers (cancel_waiter gp w err)
unfolding cancel_waiter
cancel_waiter-Tracks gp w err closers o =
    cancel_in-Tracks gp w err (get_elem? gp.waiter_states w) closers o
