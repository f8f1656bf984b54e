-- ===== src/Gpool/Pool/Counters/Return.antt =====
-- Giving connections back keeps the counters of gpool/gpool.go.
use lgobase.Base.{
  ℕ, suc, ◌+◌, ◌-◌, ◌≤◌, ◌<◌, ◌≡◌, ◌≢◌, refl, ◌⊎◌, inl, inr, Bool, true, false, ◌&&◌, List, [], ◌∷◌,
  Option, none, some, arith, length, get_elem?, modify, ltb, Bool-cases, if_cases,
}
use lgobase.Base.Int.{ℤ, pos_part}
use lgobase.Gpool.IdleQueue.{IdleQueue, push, pop}
use lgobase.Gpool.IdleQueue.Ring.{length-pop}
use lgobase.Gpool.Pool.{
  Gpool, PoolConn, ConnState, idle, borrowed, returning, store_state, capacity_used, returns,
}
use lgobase.Gpool.Pool.Locked.{deliver, close_begin}
use lgobase.Gpool.Pool.Dispatch.{reservations-concat}
use lgobase.Gpool.Pool.Return.{
  conn_result, set_idle_time, state_of, close_if, evict, put_idle, hand_over, put, close_borrowed,
  close_conn, discard_borrowed, discard, reusable_for_handoff,
}
use lgobase.Gpool.Pool.Counters.{Counts, Partial, Kept, close_begin-Kept}
use lgobase.Gpool.Pool.Counters.Borrow.{size-pop}

pub size-push :
    (q : IdleQueue ℕ) (c : ℕ) → (push q (some c)).1 ≡ true → (push q (some c)).0.size ≡ q.size + 1
unfolding push
size-push q c e = ground arith

pub push_refused :
    (q : IdleQueue ℕ) (c : ℕ)
    → (push q (some c)).1 ≡ false
    → ((push q (some c)).0 ≡ q) × (q.size ≡ length q.items)
unfolding push
push_refused q c e = ground arith

pub size-push_room :
    (q : IdleQueue ℕ) (c : ℕ) → q.size ≢ length q.items → (push q (some c)).0.size ≡ q.size + 1
unfolding push
size-push_room q c e = ground arith

close_if-Kept :
    (gp : Gpool) (o : Option ℕ) (k m : ℕ)
    → gp.closed ≡ false
    → gp.waiters ≡ []
    → capacity_used gp ≤ pos_part gp.max_conns
    → Partial gp k m
    → Kept gp k m (close_if gp o)
unfolding close_if close_begin
close_if-Kept gp none k m running w le p = ground arith
close_if-Kept gp (some c) k m running w le p = ground arith

evict-Kept :
    (gp : Gpool) (c k m : ℕ)
    → gp.closed ≡ false
    → gp.waiters ≡ []
    → gp.idle.size ≡ length gp.idle.items
    → capacity_used gp ≤ pos_part gp.max_conns
    → Partial gp k m
    → Kept gp k m (evict gp c)
unfolding evict
evict-Kept gp c k m running w full le p =
    let q = (pop gp.idle).0 in
    let swapped = record gp { idle = (push q (some c)).0 } in
    let swapped_partial : Partial swapped k m = ground arith in
    ground (
      arith,
      size-pop gp.idle,
      length-pop gp.idle,
      size-push_room q c,
      close_if-Kept gp (some c) k m running w le p,
      close_if-Kept swapped (pop gp.idle).1 k m running w,
      swapped_partial,
    )

put_idle-Kept :
    (gp : Gpool) (c k m : ℕ)
    → gp.closed ≡ false
    → ((gp.waiters ≡ []) ⊎ (pos_part gp.max_conns ≤ capacity_used gp + 1))
    → capacity_used gp ≤ pos_part gp.max_conns
    → Partial gp k m
    → Kept gp k m (put_idle gp c)
unfolding put_idle close_if close_begin
put_idle-Kept gp c k m running s le p =
    let kept_in = record gp { idle = (push gp.idle (some c)).0 } in
    let in_partial : Partial kept_in k m = ground arith in
    elim (Bool-cases (push gp.idle (some c)).1) [
      | inl e ↦ rw e (ground (arith, size-push gp.idle c e))
      | inr e ↦
          let refused = push_refused gp.idle c e in
          let evicted = evict-Kept kept_in c k m running in
          rw e (ground (arith, refused, in_partial, evicted))
    ]

hand_over-Kept :
    (gp : Gpool) (c : ℕ) (ws : List ℕ) (k m : ℕ)
    → gp.waiters ≡ ws
    → Counts gp k m (suc (pos_part gp.max_conns))
    → Kept gp k m (hand_over gp c ws)
unfolding hand_over deliver
hand_over-Kept gp c [] k m e v = ground arith
hand_over-Kept gp c (w ∷ ws) k m e v =
    ground (arith, reservations-concat gp.results w (conn_result c))

pub put-Kept :
    (gp : Gpool) (c : ℕ) (pc : PoolConn) (now : ℤ) (is_open : Bool) (k m : ℕ)
    → 0 < gp.in_use
    → Counts gp k m (suc (pos_part gp.max_conns))
    → Kept gp k m (put gp c pc now is_open)
unfolding put
put-Kept gp c pc now is_open k m lt v =
    let left = record gp {
      in_use = gp.in_use - 1;
      conns = modify gp.conns c (set_idle_time now);
    } in
    let idled = store_state left c idle in
    let idled_partial : Partial idled k m = ground arith in
    let left_partial : Partial left k m = ground arith in
    if_cases (Kept gp k m) gp.closed
      (λ shut.
        let kept =
          close_begin-Kept left c returns k m left_partial (omega (arith, v.limit))
            (λ running. cc) in
        (kept.0, ground (arith, kept.1)))
      (λ running.
        if_cases (Kept gp k m) (ltb 0 (length gp.waiters) && reusable_for_handoff gp pc now is_open)
          (λ e. hand_over-Kept gp c gp.waiters k m refl v)
          (λ e.
            let kept =
              put_idle-Kept idled c k m running (ground (arith, v.served running))
                (omega (arith, v.limit)) idled_partial in
            (kept.0, ground (arith, kept.1))))

close_borrowed-Kept :
    (gp : Gpool) (c : ℕ) (pc : Option PoolConn) (s : ConnState) (now : ℤ) (is_open : Bool) (k m : ℕ)
    → (s ≡ borrowed → 0 < gp.in_use)
    → Counts gp k m (suc (pos_part gp.max_conns))
    → Kept gp k m (close_borrowed gp c pc s now is_open)
unfolding close_borrowed
close_borrowed-Kept gp c (some pc) borrowed now is_open k m lt v =
    let taken = store_state gp c returning in
    let taken_counts : Counts taken k m (suc (pos_part gp.max_conns)) = ground arith in
    let kept =
      put-Kept taken c (record pc { state = returning }) now is_open k m (lt refl) taken_counts in
    (kept.0, ground (arith, kept.1))
close_borrowed-Kept gp c _ _ now is_open k m lt v = ground arith

pub close_conn-Kept :
    (gp : Gpool) (c : ℕ) (now : ℤ) (is_open : Bool) (k m : ℕ)
    → (state_of (get_elem? gp.conns c) ≡ borrowed → 0 < gp.in_use)
    → Counts gp k m (suc (pos_part gp.max_conns))
    → Kept gp k m (close_conn gp c now is_open)
unfolding close_conn
close_conn-Kept gp c now is_open k m lt v =
    close_borrowed-Kept gp c (get_elem? gp.conns c) (state_of (get_elem? gp.conns c)) now is_open k
      m lt v

discard_borrowed-Kept :
    (gp : Gpool) (c : ℕ) (s : ConnState) (k m : ℕ)
    → (s ≡ borrowed → 0 < gp.in_use)
    → Counts gp k m (suc (pos_part gp.max_conns))
    → Kept gp k m (discard_borrowed gp c s)
unfolding discard_borrowed close_begin
discard_borrowed-Kept gp c borrowed k m lt v = ground (arith, lt refl)
discard_borrowed-Kept gp c _ k m lt v = ground arith

pub discard-Kept :
    (gp : Gpool) (c k m : ℕ)
    → (state_of (get_elem? gp.conns c) ≡ borrowed → 0 < gp.in_use)
    → Counts gp k m (suc (pos_part gp.max_conns))
    → Kept gp k m (discard gp c)
unfolding discard
discard-Kept gp c k m lt v = discard_borrowed-Kept gp c (state_of (get_elem? gp.conns c)) k m lt v
