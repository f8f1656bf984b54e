-- ===== src/Gpool/Pool/Reopening.antt =====
-- What `getConnFromIdle` of gpool/gpool.go does after it has closed a stale connection: it opens
-- a new one without asking again whether the pool is closed, or whether the slot is still free.
use lgobase.Base.{
  ℕ, suc, ◌+◌, ◌-◌, ◌<◌, ◌≡◌, refl, ap, ◌∙◌, true, false, not, ◌&&◌, List, [], ◌∷◌, ◌++◌, Option,
  arith, modify, if_cases,
}
use lgobase.Base.Int.{pos, pos_part, ltb_ℤ}
use lgobase.Gpool.Pool.{
  Gpool, Error, ConnState, set_state, closing_conn, creating_conn, reopens, parked, capacity_used,
}
use lgobase.Gpool.Pool.Locked.{
  finish_close, close_end, new_for_use, deliver, create_result, dispatch, dispatch_from,
}
use lgobase.Gpool.Pool.World.{conn_closed, resume, after_close}

dispatch_from-full :
    (ws : List ℕ) (gp : Gpool) → gp.max_conns ≡ pos (capacity_used gp) → dispatch_from ws gp ≡ gp
unfolding dispatch_from
dispatch_from-full [] gp full = refl
dispatch_from-full (w ∷ ws) gp full =
    if_cases (λ g. g ≡ gp) (not gp.closed && ltb_ℤ (pos (capacity_used gp)) gp.max_conns)
      (λ room. absurd (ground (arith, full))) (λ stop. refl)

-- With one slot free the oldest waiter gets it, and the others stay.
dispatch-one :
    (gp : Gpool) (w : ℕ) (ws : List ℕ)
    → gp.closed ≡ false
    → gp.waiters ≡ w ∷ ws
    → gp.max_conns ≡ pos (suc (capacity_used gp))
    → dispatch gp ≡ deliver (record gp { waiters = ws; creating = gp.creating + 1 }) w create_result
unfolding dispatch dispatch_from deliver
dispatch-one gp w ws running queue room =
    let next = deliver (record gp { waiters = ws; creating = gp.creating + 1 }) w create_result in
    let loop : dispatch_from (w ∷ ws) gp ≡ next =
      if_cases (λ g. g ≡ next) (not gp.closed && ltb_ℤ (pos (capacity_used gp)) gp.max_conns)
        (λ e. dispatch_from-full ws next (room ∙ ap pos (omega arith)))
        (λ e. absurd (ground (arith, room))) in
    ap (λ vs. dispatch_from vs gp) queue ∙ loop

close_end-one :
    (gp : Gpool) (c w : ℕ) (ws : List ℕ) (err : Option Error)
    → gp.closed ≡ false
    → gp.waiters ≡ w ∷ ws
    → 0 < gp.closing
    → gp.max_conns ≡ pos (capacity_used gp)
    → let left = record gp {
      closing = gp.closing - 1;
      conns = modify gp.conns c (set_state ConnState.closed);
    } in
      close_end gp c err
      ≡ deliver (record left { waiters = ws; creating = gp.creating + 1 }) w create_result
unfolding close_end
close_end-one gp c w ws err running queue lt full =
    let left = record gp {
      closing = gp.closing - 1;
      conns = modify gp.conns c (set_state ConnState.closed);
    } in
    let granted =
      deliver (record left { waiters = ws; creating = gp.creating + 1 }) w create_result in
    if_cases (λ g. g ≡ granted) gp.closed (λ shut. absurd (ground arith))
      (λ e. dispatch-one left w ws running queue (full ∙ ap pos (omega (arith, lt))))

-- An open pool that has `MaxConns` slots taken, one of them by the closing of the stale connection
-- `c`, and the waiter `w` first in the queue: when `c` is closed, `w`, and no other waiter, is given
-- the leave to create a connection in the slot, the borrower opens a connection all the same, and one
-- slot more than `MaxConns` is taken.
pub reopening-exceeds_limit :
    (gp : Gpool) (c w : ℕ) (ws : List ℕ) (err : Option Error)
    → gp.closed ≡ false
    → gp.waiters ≡ w ∷ ws
    → 0 < gp.closing
    → gp.max_conns ≡ pos (capacity_used gp)
    → let r = resume gp (closing_conn c reopens) (conn_closed err) in
      (r.1 ≡ parked creating_conn)
      × (r.0.results ≡ gp.results ++ (w, create_result) ∷ [])
      × (r.0.waiters ≡ ws)
      × (pos (capacity_used r.0) ≡ pos (suc (pos_part gp.max_conns)))
unfolding resume after_close new_for_use deliver
reopening-exceeds_limit gp c w ws err running queue lt full =
    rw (close_end-one gp c w ws err running queue lt full)
      (refl, refl, refl, ap pos (omega (arith, lt, ap pos_part full)))

-- A closed pool whose last slot is the closing of the stale connection `c`: when `c` is closed,
-- `closeDone` is signalled, and the borrower opens a connection all the same.
pub reopening-outlives_close :
    (gp : Gpool) (c : ℕ) (err : Option Error)
    → gp.closed ≡ true
    → gp.waiters ≡ []
    → 0 < gp.closing
    → capacity_used gp ≡ 1
    → let r = resume gp (closing_conn c reopens) (conn_closed err) in
      (r.1 ≡ parked creating_conn) × (r.0.close_ended ≡ true) × (r.0.creating ≡ 1)
unfolding resume after_close new_for_use close_end finish_close
reopening-outlives_close gp c err shut no_waiters lt last = ground arith
