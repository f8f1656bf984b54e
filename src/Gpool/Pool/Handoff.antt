-- ===== src/Gpool/Pool/Handoff.antt =====
-- What a waiter receives: from `dispatchCapacityWaitersLocked`, from `put` and from `Close` of the
-- pool in gpool/gpool.go and gpool/waiter_queue.go.
use lgobase.Base.{
  ℕ, zero, suc, ◌+◌, ◌≤◌, ◌≡◌, refl, sym, ap, subst, ◌∙◌, ◌⊎◌, inl, inr, Bool, true, false, not,
  ◌&&◌, List, [], ◌∷◌, ◌++◌, map, append_assoc, append-nil, Option, none, some, arith, length,
  get_elem?, get_elem?-modify_self, modify, mem, if_cases, Bool-cases, Option-cases, ltb, ◌==◌,
}
use lgobase.Base.Int.{ℤ, pos, pos_part, ltb_ℤ}
use lgobase.Gpool.IdleQueue.{pop}
use lgobase.Gpool.Pool.{
  Gpool, PoolConn, pool_closed, borrowed, returning, set_state, store_state, WaitResult, Outcome,
  returned, capacity_used,
}
use lgobase.Gpool.Pool.Locked.{deliver, create_result, dispatch_from, dispatch, finish_close}
use lgobase.Gpool.Pool.Borrow.{receive, wait_result, take_result, handle_result, handle_wait_result}
use lgobase.Gpool.Pool.Return.{
  conn_result, reusable_for_handoff, state_of, put, close_borrowed, close_conn, hand_over,
}
use lgobase.Gpool.Pool.Shutdown.{
  closed_result, wake_all, close_popped, drain_idle, close_list, close_pool,
}
use lgobase.Gpool.Pool.Dispatch.{dispatch-Dispatched}

abbrev pub created_for : ℕ → ℕ × WaitResult
created_for w = (w, create_result)

-- `served` is the front of the queue that the loop answers.
record Serves (gp gp' : Gpool) (served : List ℕ) : Type 0 where
  in_order : gp.waiters ≡ served ++ gp'.waiters
  answered : gp'.results ≡ gp.results ++ map created_for served
  reserved : gp'.creating ≡ gp.creating + length served

dispatch_from-Serves :
    (ws : List ℕ) (gp : Gpool)
    → gp.waiters ≡ ws
    → (served : List ℕ) × Serves gp (dispatch_from ws gp) served
unfolding dispatch_from deliver
dispatch_from-Serves [] gp e =
    ([], record { in_order = refl; answered = sym (append-nil gp.results); reserved = omega arith })
dispatch_from-Serves (w ∷ ws) gp e =
    if_cases (λ g. (served : List ℕ) × Serves gp g served)
      (not gp.closed && ltb_ℤ (pos (capacity_used gp)) gp.max_conns)
      (λ room.
        let next =
          deliver (record gp { waiters = ws; creating = gp.creating + 1 }) w create_result in
        let (served, s) = dispatch_from-Serves ws next refl in
        (
          w ∷ served,
          record {
            in_order = e ∙ ap (◌∷◌ w) s.in_order;
            answered =
                s.answered ∙ append_assoc gp.results (created_for w ∷ []) (map created_for served);
            reserved = ground (arith, s.reserved);
          },
        ))
      (λ full. (
        [],
        record { in_order = refl; answered = sym (append-nil gp.results); reserved = omega arith },
      ))

-- `dispatchCapacityWaitersLocked` answers a front part of the queue in its order, each waiter by
-- the leave to create a connection with a slot reserved for it, and leaves the rest queued. In an
-- open pool it stops only where the queue is empty or `MaxConns` slots are taken, and unless it
-- answers nobody no more than `MaxConns` are taken then.
pub dispatch-serves_oldest :
    (gp : Gpool)
    → (served : List ℕ) × (gp.waiters ≡ served ++ (dispatch gp).waiters)
      × ((dispatch gp).results ≡ gp.results ++ map created_for served)
      × ((dispatch gp).creating ≡ gp.creating + length served)
      × ((gp.closed ≡ true)
          ⊎ (((dispatch gp).waiters ≡ []) ⊎ (pos_part gp.max_conns ≤ capacity_used (dispatch gp))))
      × ((served ≡ []) ⊎ (capacity_used (dispatch gp) ≤ pos_part gp.max_conns))
unfolding dispatch
dispatch-serves_oldest gp =
    let (served, s) = dispatch_from-Serves gp.waiters gp refl in
    let d = dispatch-Dispatched gp in
    (
      served,
      s.in_order,
      s.answered,
      s.reserved,
      ground (arith, d.served),
      ground (arith, s.reserved, d.within_limit),
    )

-- The first result in a channel is the one that is received.
receive-last :
    (w : ℕ) (r : WaitResult) (rs later : List (ℕ × WaitResult))
    → receive w rs ≡ none
    → receive w (rs ++ (w, r) ∷ later) ≡ some (r, rs ++ later)
unfolding receive
receive-last w r [] later e = ground arith
receive-last w r ((v, s) ∷ rs) later e = elim (Option-cases (receive w rs)) [
  | inl n ↦ ground (arith, receive-last w r rs later n)
  | inr (a, f) ↦ ground arith
]

receive-other :
    (w v : ℕ) (r : WaitResult) (rs : List (ℕ × WaitResult))
    → receive w rs ≡ none
    → (w == v) ≡ false
    → receive w (rs ++ (v, r) ∷ []) ≡ none
unfolding receive
receive-other w v r [] e ne = ground arith
receive-other w v r ((u, s) ∷ rs) e ne = elim (Option-cases (receive w rs)) [
  | inl n ↦ ground (arith, receive-other w v r rs n ne)
  | inr (a, f) ↦ ground arith
]

abbrev handed : Gpool → ℕ → ℕ → List ℕ → Gpool
handed gp c w ws =
    deliver (store_state (record (store_state gp c returning) { waiters = ws }) c borrowed) w
      (conn_result c)

hand_over-put :
    (gp : Gpool) (c : ℕ) (pc : PoolConn) (now : ℤ) (is_open : Bool)
    → gp.closed ≡ false
    → ltb 0 (length gp.waiters) ≡ true
    → reusable_for_handoff gp pc now is_open ≡ true
    → put gp c pc now is_open ≡ hand_over gp c gp.waiters
unfolding put
hand_over-put gp c pc now is_open running some_wait good =
    let taken = hand_over gp c gp.waiters in
    if_cases (λ r. r ≡ taken) gp.closed (λ shut. absurd (ground arith))
      (λ e.
        if_cases (λ r. r ≡ taken)
          (ltb 0 (length gp.waiters) && reusable_for_handoff gp pc now is_open) (λ f. refl)
          (λ f. absurd (ground arith)))

hand_over-close_conn :
    (gp : Gpool) (c : ℕ) (pc : PoolConn) (now : ℤ) (is_open : Bool) (w : ℕ) (ws : List ℕ)
    → gp.closed ≡ false
    → gp.waiters ≡ w ∷ ws
    → get_elem? gp.conns c ≡ some pc
    → pc.state ≡ borrowed
    → reusable_for_handoff gp pc now is_open ≡ true
    → (close_conn gp c now is_open).0 ≡ handed gp c w ws
unfolding close_conn hand_over
hand_over-close_conn gp c pc now is_open w ws running queue held s good =
    let some_wait : ltb 0 (length gp.waiters) ≡ true = ground (arith, ap (length {0}) queue) in
    let taken = store_state gp c returning in
    let put_back = put taken c (record pc { state = returning }) now is_open in
    let first : (close_conn gp c now is_open).0 ≡ put_back.0 = rw (held, s, close_borrowed) refl in
    let handing =
      hand_over-put taken c (record pc { state = returning }) now is_open running some_wait
        (unfold reusable_for_handoff in good) in
    first ∙ ap (λ r. r.0) handing ∙ ap (λ xs. (hand_over taken c xs).0) queue

-- A borrowed connection that is given back to an open pool where `w` is the oldest waiter, and that
-- is still good, goes to `w`: `w` receives it, it stays borrowed, and no slot is given up or taken.
pub wait_result-close_conn :
    (gp : Gpool) (c : ℕ) (pc : PoolConn) (now : ℤ) (is_open : Bool) (w : ℕ) (ws : List ℕ)
    → gp.closed ≡ false
    → gp.waiters ≡ w ∷ ws
    → receive w gp.results ≡ none
    → get_elem? gp.conns c ≡ some pc
    → pc.state ≡ borrowed
    → reusable_for_handoff gp pc now is_open ≡ true
    → let gp' = (close_conn gp c now is_open).0 in
      ((wait_result gp' w).1 ≡ returned (some c) none)
      × ((wait_result gp' w).0.results ≡ gp.results)
      × (gp'.waiters ≡ ws)
      × (state_of (get_elem? gp'.conns c) ≡ borrowed)
      × (capacity_used gp' ≡ capacity_used gp)
unfolding wait_result deliver receive
wait_result-close_conn gp c pc now is_open w ws running queue free held s good =
    let received = receive-last w (conn_result c) gp.results [] free in
    let kept = append-nil gp.results in
    let state_kept : state_of (get_elem? (handed gp c w ws).conns c) ≡ borrowed =
      rw
        (
          get_elem?-modify_self (modify gp.conns c (set_state returning)) c (set_state borrowed),
          get_elem?-modify_self gp.conns c (set_state returning),
          held,
        )
        refl in
    rw (hand_over-close_conn gp c pc now is_open w ws running queue held s good) (
      rw (received, take_result, handle_result, handle_wait_result)
        (refl, kept, refl, state_kept, refl))

results-wake_all :
    (ws : List ℕ) (gp : Gpool)
    → (later : List (ℕ × WaitResult)) × ((wake_all ws gp).results ≡ gp.results ++ later)
unfolding wake_all deliver
results-wake_all [] gp = ([], sym (append-nil gp.results))
results-wake_all (w ∷ ws) gp =
    let (later, e) = results-wake_all ws (deliver (record gp { waiters = ws }) w closed_result) in
    ((w, closed_result) ∷ later, e ∙ append_assoc gp.results ((w, closed_result) ∷ []) later)

wake_all-receive :
    (ws : List ℕ) (gp : Gpool) (w : ℕ)
    → mem w ws ≡ true
    → receive w gp.results ≡ none
    → (rs : List (ℕ × WaitResult)) × (receive w (wake_all ws gp).results ≡ some (closed_result, rs))
unfolding wake_all deliver mem
wake_all-receive [] gp w m free = absurd (ground arith)
wake_all-receive (v ∷ ws) gp w m free = elim (Bool-cases (w == v)) [
  | inl same ↦
      let (later, e) = results-wake_all ws (deliver (record gp { waiters = ws }) v closed_result) in
      let whole : (wake_all (v ∷ ws) gp).results ≡ gp.results ++ (v, closed_result) ∷ later =
        e ∙ append_assoc gp.results ((v, closed_result) ∷ []) later in
      let same_waiter : w ≡ v = ground arith in
      (
        gp.results ++ later,
        ap (receive w) whole
            ∙ subst
                (λ x.
                  receive w (gp.results ++ (x, closed_result) ∷ later)
                  ≡ some (closed_result, gp.results ++ later))
                same_waiter (receive-last w closed_result gp.results later free),
      )
  | inr other ↦
      wake_all-receive ws (deliver (record gp { waiters = ws }) v closed_result) w (ground arith)
        (receive-other w v closed_result gp.results free other)
]

results-close_popped :
    (gp : Gpool) (o : Option ℕ) (cs : List ℕ) → (close_popped gp o cs).0.results ≡ gp.results
unfolding close_popped
results-close_popped gp none cs = refl
results-close_popped gp (some c) cs = refl

results-drain_idle :
    (n : ℕ) (gp : Gpool) (cs : List ℕ) → (drain_idle n gp cs).0.results ≡ gp.results
unfolding drain_idle
results-drain_idle zero gp cs = refl
results-drain_idle (suc n) gp cs =
    let left = record gp { idle = (pop gp.idle).0 } in
    let next = close_popped left (pop gp.idle).1 cs in
    let one = results-close_popped left (pop gp.idle).1 cs in
    if_cases (λ (r : Gpool × List ℕ × Bool). r.0.results ≡ gp.results) next.2 (λ e. one)
      (λ e. results-drain_idle n next.0 next.1 ∙ one)

results-finish_close : (gp : Gpool) → (finish_close gp).results ≡ gp.results
unfolding finish_close
results-finish_close gp = ground arith

-- `Close` of an open pool answers every queued waiter by `ErrPoolClosed`: a waiter of the queue that
-- had no result receives that error next.
pub wait_result-close_pool :
    (gp : Gpool) (w : ℕ)
    → gp.closed ≡ false
    → mem w gp.waiters ≡ true
    → receive w gp.results ≡ none
    → (wait_result (close_pool gp).0 w).1 ≡ returned none (some pool_closed)
unfolding close_pool close_list wait_result
wait_result-close_pool gp w running m free =
    let shut = record gp { closed = true } in
    let awake = wake_all gp.waiters shut in
    let (rs, received) = wake_all-receive gp.waiters shut w m free in
    let last = drain_idle awake.idle.size awake [] in
    let kept = results-drain_idle awake.idle.size awake [] in
    let same : (close_list last).0.results ≡ awake.results =
      if_cases (λ (r : Gpool × Outcome). r.0.results ≡ awake.results) last.2 (λ nil. kept)
        (λ popped. results-finish_close last.0 ∙ kept) in
    rw (running, same, received, take_result, handle_result) refl
