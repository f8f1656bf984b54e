-- ===== src/Gpool/Pool/Ownership/Shutdown.antt =====
-- Closing connections and closing the pool keep track of every connection.
use lgobase.Base.{
  ℕ, zero, suc, ◌+◌, ◌≡◌, refl, ap, subst, List, [], ◌∷◌, Option, some, arith, length, get_elem?,
  modify, count, count-append, if_cases, true, false,
}
use lgobase.Gpool.IdleQueue.{pop}
use lgobase.Gpool.IdleQueue.Ring.{Holds, pop-Holds}
use lgobase.Gpool.Pool.{Gpool, Error, ConnState, closing, set_state}
use lgobase.Gpool.Pool.Locked.{deliver, close_end}
use lgobase.Gpool.Pool.Shutdown.{
  closed_result, wake_all, close_popped, drain_idle, close_list, close_pool, close_idle_one,
}
use lgobase.Gpool.Pool.Ownership.{Owns, is_idle, is_closing, is_idle_inv, is_closing_inv}
use lgobase.Gpool.Pool.Ownership.Transfer.{Held-Transfer, Owns-same}
use lgobase.Gpool.Pool.Ownership.Borrow.{Tracks, dispatch-Owns, finish_close-Owns}

-- A goroutine has closed connection `c`.
closed-Owns :
    (gp gp' : Gpool) (c : ℕ) (closers : ℕ → ℕ)
    → Owns gp (λ j. count j (c ∷ []) + closers j)
    → gp'.conns ≡ modify gp.conns c (set_state ConnState.closed)
    → gp'.idle ≡ gp.idle
    → gp'.in_use ≡ gp.in_use
    → Owns gp' closers
closed-Owns gp gp' c closers o e i n =
    let (pc, held, s) =
      is_closing_inv (get_elem? gp.conns c) (ground (arith, o.1.closing_once c)) in
    (
      o.0,
      Held-Transfer gp gp' _ closers o.0 o.0 c pc (set_state ConnState.closed) o.1 (record {
        held = held;
        conns_is = e;
        holds = rw i o.1.holds;
        idle_here = ground (arith, o.1.idle_once c, ap is_idle held);
        idle_there = λ j ne. refl;
        closing_here = ground (arith, o.1.closing_once c, ap is_closing held);
        closing_there = λ j ne. ground arith;
        in_use_is = ground arith;
      }),
    )

pub close_end-Owns :
    (gp : Gpool) (c : ℕ) (err : Option Error) (closers : ℕ → ℕ)
    → Owns gp (λ j. count j (c ∷ []) + closers j)
    → Owns (close_end gp c err) closers
unfolding close_end
close_end-Owns gp c err closers o =
    if_cases (λ g. Owns g closers) gp.closed
      (λ shut.
        finish_close-Owns _ closers closers (λ j. refl)
          (closed-Owns gp _ c closers o refl refl refl))
      (λ running.
        dispatch-Owns _ closers closers (λ j. refl) (closed-Owns gp _ c closers o refl refl refl))

pub close_idle_one-Owns :
    (gp : Gpool) (c : ℕ) (err : Option Error) (closers : ℕ → ℕ)
    → Owns gp (λ j. count j (c ∷ []) + closers j)
    → Owns (close_idle_one gp c err) closers
unfolding close_idle_one
close_idle_one-Owns gp c err closers o =
    finish_close-Owns _ closers closers (λ j. refl) (closed-Owns gp _ c closers o refl refl refl)

wake_all-Owns :
    (ws : List ℕ) (gp : Gpool) (closers : ℕ → ℕ) → Owns gp closers → Owns (wake_all ws gp) closers
unfolding wake_all deliver
wake_all-Owns [] gp closers o = o
wake_all-Owns (w ∷ ws) gp closers o =
    wake_all-Owns ws (deliver (record gp { waiters = ws }) w closed_result) closers
      (Owns-same gp _ closers closers o refl refl refl (λ j. refl))

drain_idle-Owns :
    (n : ℕ) (gp : Gpool) (cs : List ℕ) (ring : List ℕ) (closers : ℕ → ℕ)
    (o : Owns gp (λ j. count j cs + closers j))
    → o.0 ≡ ring
    → gp.idle.size ≡ n
    → let r = drain_idle n gp cs in Owns r.0 (λ j. count j r.1 + closers j) × (r.2 ≡ false)
unfolding drain_idle
drain_idle-Owns zero gp cs ring closers o e s = (o, refl)
drain_idle-Owns (suc n) gp cs [] closers o e s =
    absurd (omega (arith, o.1.holds.size_is, ap (length {0}) e))
drain_idle-Owns (suc n) gp cs (c ∷ ring) closers o e s =
    let h = subst (Holds gp.idle) e o.1.holds in
    let (popped, p) = pop-Holds gp.idle c ring h in
    let split = λ (j : ℕ). ap (count j) e in
    let (pc, held, st) =
      is_idle_inv (get_elem? gp.conns c) (ground (arith, o.1.idle_once c, split c)) in
    let next = close_popped (record gp { idle = (pop gp.idle).0 }) (some c) cs in
    let left : next.0.idle.size ≡ n =
      unfold close_popped in omega (arith, popped.size_is, h.size_is) in
    let one : Owns next.0 (λ j. count j next.1 + closers j) =
      unfold close_popped in
      (
        ring,
        Held-Transfer gp _ _ _ o.0 ring c pc (set_state closing) o.1 (record {
          held = held;
          conns_is = refl;
          holds = popped;
          idle_here = ground (arith, o.1.idle_once c, split c, ap is_idle held);
          idle_there = λ j ne. ground (arith, split j);
          closing_here =
              ground (arith, o.1.closing_once c, ap is_closing held, count-append c cs (c ∷ []));
          closing_there = λ j ne. ground (arith, count-append j cs (c ∷ []));
          in_use_is = ground arith;
        }),
      ) in
    rw (p, drain_idle, close_popped) (drain_idle-Owns n next.0 next.1 ring closers one refl left)

-- The pops of `Close` find what they take.
pub drain_idle-whole :
    (gp : Gpool) (closers : ℕ → ℕ)
    → Owns gp closers
    → let awake = wake_all gp.waiters (record gp { closed = true }) in
      let r = drain_idle awake.idle.size awake [] in
      Owns r.0 (λ j. count j r.1 + closers j) × (r.2 ≡ false)
drain_idle-whole gp closers o =
    let shut = record gp { closed = true } in
    let awake = wake_all gp.waiters shut in
    let woken =
      wake_all-Owns gp.waiters shut closers
        (Owns-same gp shut closers closers o refl refl refl (λ j. refl)) in
    let ready =
      Owns-same awake awake closers (λ j. 0 + closers j) woken refl refl refl (λ j. omega arith) in
    drain_idle-Owns awake.idle.size awake [] ready.0 closers ready refl refl

pub close_pool-Tracks :
    (gp : Gpool) (closers : ℕ → ℕ) → Owns gp closers → Tracks closers (close_pool gp)
unfolding close_pool close_list
close_pool-Tracks gp closers o =
    if_cases (Tracks closers) gp.closed
      (λ shut. Owns-same gp gp closers _ o refl refl refl (λ j. omega arith))
      (λ running.
        let (drained, whole) = drain_idle-whole gp closers o in
        rw whole (finish_close-Owns _ _ _ (λ j. refl) drained))
