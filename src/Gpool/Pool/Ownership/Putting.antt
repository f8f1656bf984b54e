-- ===== src/Gpool/Pool/Ownership/Putting.antt =====
-- Giving a connection back keeps track of every connection.
use lgobase.Base.{
  ℕ, ◌<◌, ◌≡◌, refl, ◌∙◌, List, [], ◌∷◌, Option, none, some, arith, length, get_elem?,
  modify-modify, get_elem?-modify_self, ltb, if_cases, inl, inr, Bool, ◌&&◌, Option-cases,
}
use lgobase.Base.Int.{ℤ}
use lgobase.Gpool.IdleQueue.{push}
use lgobase.Gpool.IdleQueue.Ring.{push-Holds}
use lgobase.Gpool.Pool.{
  Gpool, PoolConn, ConnState, borrowed, returning, closing, set_state, store_state,
}
use lgobase.Gpool.Pool.Locked.{deliver, close_begin}
use lgobase.Gpool.Pool.Return.{
  set_idle_time, state_of, put_idle, hand_over, put, close_borrowed, close_conn, discard_borrowed,
  discard, reusable_for_handoff,
}
use lgobase.Gpool.Pool.Counters.Return.{push_refused}
use lgobase.Gpool.Pool.Ownership.{Owns}
use lgobase.Gpool.Pool.Ownership.Transfer.{Held-Transfer, Owns-same}
use lgobase.Gpool.Pool.Ownership.Borrow.{Tracks}
use lgobase.Gpool.Pool.Ownership.Return.{
  Returning, in_use-pos, not_idle, not_closing, to_closing, to_idle, push_room, idled, rest_of,
  close_it-Tracks, evict-Tracks,
}

hand_over-Tracks :
    (gp : Gpool) (c : ℕ) (pc : PoolConn) (ws : List ℕ) (closers : ℕ → ℕ)
    → Owns gp closers
    → Returning gp c pc
    → Tracks closers (hand_over gp c ws)
unfolding hand_over deliver
hand_over-Tracks gp c pc [] closers o r =
    Owns-same gp gp closers _ o refl refl refl (λ j. omega arith)
hand_over-Tracks gp c pc (w ∷ ws) closers o r = (
  o.0,
  Held-Transfer gp _ closers _ o.0 o.0 c pc (set_state borrowed) o.1 (record {
    held = r.held;
    conns_is = refl;
    holds = o.1.holds;
    idle_here = not_idle gp c pc closers o r ∙ ground arith;
    idle_there = λ j ne. refl;
    closing_here = ground (arith, not_closing gp c pc closers o r);
    closing_there = λ j ne. omega arith;
    in_use_is = ground (arith, r.state_is);
  }),
)

put_idle-Tracks :
    (gp : Gpool) (c : ℕ) (pc : PoolConn) (now : ℤ) (closers : ℕ → ℕ)
    → Owns gp closers
    → Returning gp c pc
    → Tracks closers (put_idle (idled gp c now) c)
unfolding put_idle
put_idle-Tracks gp c pc now closers o r =
    if_cases (Tracks closers) (ltb 0 (length gp.waiters))
      (λ waiting. close_it-Tracks gp c pc now closers o r (idled gp c now) refl refl refl)
      (λ none_waits.
        if_cases (Tracks closers) (push gp.idle (some c)).1
          (λ kept.
            let room = push_room gp.idle o.0 c o.1.holds kept in
            let back =
              to_idle gp (record (idled gp c now) { idle = (push gp.idle (some c)).0 }) c pc
                (rest_of now) closers o r refl (modify-modify gp.conns c _ _)
                (push-Holds gp.idle o.0 c o.1.holds room) refl in
            Owns-same _ _ closers _ back refl refl refl (λ j. omega arith))
          (λ refused.
            let (same, full) = push_refused gp.idle c refused in
            evict-Tracks gp c pc now closers o r o.0
              (record (idled gp c now) { idle = (push gp.idle (some c)).0 }) refl full refl same
              refl))

pub put-Tracks :
    (gp : Gpool) (c : ℕ) (pc : PoolConn) (now : ℤ) (is_open : Bool) (closers : ℕ → ℕ)
    → Owns gp closers
    → Returning gp c pc
    → Tracks closers (put gp c pc now is_open)
unfolding put
put-Tracks gp c pc now is_open closers o r =
    if_cases (Tracks closers) gp.closed
      (λ shut.
        unfold close_begin in
        to_closing gp _ c pc (λ x. set_state closing (set_idle_time now x)) closers o r refl
          (modify-modify gp.conns c _ _) refl refl)
      (λ running.
        if_cases (Tracks closers)
          (ltb 0 (length gp.waiters) && reusable_for_handoff gp pc now is_open)
          (λ reusable. hand_over-Tracks gp c pc gp.waiters closers o r)
          (λ kept. put_idle-Tracks gp c pc now closers o r))

-- `pc.state.CompareAndSwap(poolConnBorrowed, poolConnReturning)` that succeeds.
take_back :
    (gp : Gpool) (c : ℕ) (pc : PoolConn) (closers : ℕ → ℕ)
    → Owns gp closers
    → get_elem? gp.conns c ≡ some pc
    → pc.state ≡ borrowed
    → Owns (store_state gp c returning) closers
      × Returning (store_state gp c returning) c (set_state returning pc)
take_back gp c pc closers o e s = (
  (
    o.0,
    Held-Transfer gp _ closers closers o.0 o.0 c pc (set_state returning) o.1 (record {
      held = e;
      conns_is = refl;
      holds = o.1.holds;
      idle_here = o.1.idle_once c ∙ rw e (ground arith);
      idle_there = λ j ne. refl;
      closing_here = o.1.closing_once c ∙ rw e (ground arith);
      closing_there = λ j ne. refl;
      in_use_is = ground arith;
    }),
  ),
  record { held = get_elem?-modify_self gp.conns c _ ∙ rw e; state_is = refl },
)

close_borrowed-Tracks :
    (gp : Gpool) (c : ℕ) (o? : Option PoolConn) (s : ConnState) (now : ℤ) (is_open : Bool)
    (closers : ℕ → ℕ)
    → Owns gp closers
    → get_elem? gp.conns c ≡ o?
    → state_of o? ≡ s
    → Tracks closers (close_borrowed gp c o? s now is_open)
unfolding close_borrowed
close_borrowed-Tracks gp c (some pc) borrowed now is_open closers o e s =
    let (o', r) = take_back gp c pc closers o e s in
    put-Tracks (store_state gp c returning) c (set_state returning pc) now is_open closers o' r
close_borrowed-Tracks gp c _ _ now is_open closers o e s =
    Owns-same gp gp closers _ o refl refl refl (λ j. omega arith)

pub close_conn-Tracks :
    (gp : Gpool) (c : ℕ) (now : ℤ) (is_open : Bool) (closers : ℕ → ℕ)
    → Owns gp closers
    → Tracks closers (close_conn gp c now is_open)
unfolding close_conn
close_conn-Tracks gp c now is_open closers o =
    close_borrowed-Tracks gp c (get_elem? gp.conns c) (state_of (get_elem? gp.conns c)) now is_open
      closers o refl refl

discard_borrowed-Tracks :
    (gp : Gpool) (c : ℕ) (o? : Option PoolConn) (s : ConnState) (closers : ℕ → ℕ)
    → Owns gp closers
    → get_elem? gp.conns c ≡ o?
    → state_of o? ≡ s
    → Tracks closers (discard_borrowed gp c s)
unfolding discard_borrowed close_begin
discard_borrowed-Tracks gp c none borrowed closers o e s = cc
discard_borrowed-Tracks gp c (some pc) borrowed closers o e s =
    let (o', r) = take_back gp c pc closers o e s in
    to_closing (store_state gp c returning) _ c (set_state returning pc) (set_state closing) closers
      o' r refl refl refl refl
discard_borrowed-Tracks gp c _ _ closers o e s =
    Owns-same gp gp closers _ o refl refl refl (λ j. omega arith)

pub discard-Tracks :
    (gp : Gpool) (c : ℕ) (closers : ℕ → ℕ) → Owns gp closers → Tracks closers (discard gp c)
unfolding discard
discard-Tracks gp c closers o =
    discard_borrowed-Tracks gp c (get_elem? gp.conns c) (state_of (get_elem? gp.conns c)) closers o
      refl refl

-- A borrowed connection is counted.
pub in_use-pos_of_borrowed :
    (gp : Gpool) (c : ℕ) (closers : ℕ → ℕ)
    → Owns gp closers
    → state_of (get_elem? gp.conns c) ≡ borrowed
    → 0 < gp.in_use
in_use-pos_of_borrowed gp c closers o s = elim (Option-cases (get_elem? gp.conns c)) [
  | inl e ↦ ground arith
  | inr (pc, e) ↦
      let (o', r) = take_back gp c pc closers o e (rw e at s) in
      in_use-pos (store_state gp c returning) c (set_state returning pc) closers o' r
]
