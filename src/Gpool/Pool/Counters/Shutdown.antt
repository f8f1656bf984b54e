-- ===== src/Gpool/Pool/Counters/Shutdown.antt =====
-- Closing the pool keeps the counters of gpool/gpool.go.
use lgobase.Base.{
  ℕ, zero, suc, ◌+◌, ◌-◌, ◌≤◌, ◌≡◌, refl, ◌∙◌, true, List, [], ◌∷◌, Option, some, arith, length,
  length-append, modify, if_cases, Option-cases, inl, inr, false,
}
use lgobase.Base.Int.{pos_part}
use lgobase.Gpool.IdleQueue.{IdleQueue, pop}
use lgobase.Gpool.Pool.{Gpool, Error, ConnState, set_state, capacity_used}
use lgobase.Gpool.Pool.Locked.{deliver, join}
use lgobase.Gpool.Pool.Dispatch.{reservations, reservations-concat, Follows}
use lgobase.Gpool.Pool.Shutdown.{
  closed_result, wake_all, close_popped, drain_idle, close_list, close_pool, close_idle_one,
}
use lgobase.Gpool.Pool.Counters.{Counts, Partial, Kept, finish_close-Counts, finish_close-Follows}
use lgobase.Gpool.Pool.Counters.Borrow.{size-pop}

-- A closed pool on the way to an empty queue and an empty ring, with `k` closings elsewhere.
record Closes (gp : Gpool) (k m limit : ℕ) : Type 0 where
  is_closed : gp.closed ≡ true
  closing_is : gp.closing ≡ k
  creating_is : gp.creating ≡ m + reservations gp.results
  within : capacity_used gp ≤ limit
  waits_is : gp.waits ≡ length gp.waiters
  waiters_fit : length gp.waiters ≤ pos_part gp.max_waiters

wake_all-Closes :
    (ws : List ℕ) (gp : Gpool) (k m limit : ℕ)
    → gp.waiters ≡ ws
    → Closes gp k m limit
    → Closes (wake_all ws gp) k m limit
      × ((wake_all ws gp).waiters ≡ [])
      × Follows gp (wake_all ws gp)
unfolding wake_all deliver
wake_all-Closes [] gp k m limit e h = ground arith
wake_all-Closes (w ∷ ws) gp k m limit e h =
    let woken = deliver (record gp { waiters = ws }) w closed_result in
    let count = reservations-concat gp.results w closed_result in
    let one : Closes woken k m limit = ground (arith, count) in
    let (rest, none_left, same) = wake_all-Closes ws woken k m limit refl one in
    (rest, none_left, ground (arith, same))

close_popped-Closes :
    (gp : Gpool) (q : IdleQueue ℕ) (c : ℕ) (cs : List ℕ) (k m limit : ℕ)
    → q.size + 1 ≡ gp.idle.size
    → Closes gp (length cs + k) m limit
    → let r = close_popped (record gp { idle = q }) (some c) cs in
      Closes r.0 (length r.1 + k) m limit
      × (r.0.idle ≡ q)
      × (r.0.waiters ≡ gp.waiters)
      × Follows gp r.0
unfolding close_popped
close_popped-Closes gp q c cs k m limit e h = ground (arith, length-append cs (c ∷ []))

drain_idle-Closes :
    (n : ℕ) (gp : Gpool) (cs : List ℕ) (k m limit : ℕ)
    → gp.idle.size ≡ n
    → Closes gp (length cs + k) m limit
    → (drain_idle n gp cs).2 ≡ false
    → let r = drain_idle n gp cs in
      Closes r.0 (length r.1 + k) m limit
      × (r.0.idle.size ≡ 0)
      × (r.0.waiters ≡ gp.waiters)
      × Follows gp r.0
unfolding drain_idle close_popped
drain_idle-Closes zero gp cs k m limit e h whole = (h, e, refl, ground arith)
drain_idle-Closes (suc n) gp cs k m limit e h whole = elim (Option-cases (pop gp.idle).1) [
  | inl none_left ↦ let bad : true ≡ false = rw none_left at whole in absurd cc
  | inr (c, popped) ↦
      let q = (pop gp.idle).0 in
      let (one, ring, kept, same) =
        close_popped-Closes gp q c cs k m limit (omega (arith, size-pop gp.idle)) h in
      let next = close_popped (record gp { idle = q }) (some c) cs in
      let left : next.0.idle.size ≡ n = rw ring (omega (arith, size-pop gp.idle)) in
      let (rest, done, kept', same') =
        drain_idle-Closes n next.0 next.1 k m limit left one (rw popped at whole) in
      rw popped (rest, done, kept' ∙ kept, ground (arith, same, same'))
]

pub close_pool-Kept :
    (gp : Gpool) (k m : ℕ)
    → Counts gp k m (suc (pos_part gp.max_conns))
    → let awake = wake_all gp.waiters (record gp { closed = true }) in
      (drain_idle awake.idle.size awake []).2 ≡ false
      → Kept gp k m (close_pool gp) × ((close_pool gp).0.closed ≡ true)
unfolding close_pool close_list
close_pool-Kept gp k m v whole =
    if_cases (λ r. Kept gp k m r × (r.0.closed ≡ true)) gp.closed (λ shut. ground arith)
      (λ running.
        let shut = record gp { closed = true } in
        let first : Closes shut k m (suc (pos_part gp.max_conns)) = ground arith in
        let (woken, no_waiters, same) =
          wake_all-Closes gp.waiters shut k m (suc (pos_part gp.max_conns)) refl first in
        let awake = wake_all gp.waiters shut in
        let (drained, no_idle, same_waiters, same') =
          drain_idle-Closes awake.idle.size awake [] k m (suc (pos_part gp.max_conns)) refl
            (ground (arith, woken)) whole in
        let last = drain_idle awake.idle.size awake [] in
        let empty : last.0.waiters ≡ [] = same_waiters ∙ no_waiters in
        let left : Partial last.0 (length last.1 + k) (0 + m) = ground arith in
        let follows = finish_close-Follows last.0 in
        rw whole (
          (
            finish_close-Counts last.0 (length last.1 + k) (0 + m) (suc (pos_part gp.max_conns))
                left drained.is_closed drained.within,
            ground (arith, same, same', follows),
          ),
          follows.stays_closed drained.is_closed,
        ))

pub close_idle_one-Counts :
    (gp : Gpool) (c : ℕ) (err : Option Error) (k m : ℕ)
    → gp.closed ≡ true
    → Counts gp (suc k) m (suc (pos_part gp.max_conns))
    → Counts (close_idle_one gp c err) k m (suc (pos_part gp.max_conns))
      × Follows gp (close_idle_one gp c err)
unfolding close_idle_one
close_idle_one-Counts gp c err k m shut v =
    let shed = record gp {
      closing = gp.closing - 1;
      close_err = join gp.close_err err;
      conns = modify gp.conns c (set_state ConnState.closed);
    } in
    let left : Partial shed k m = ground arith in
    (
      finish_close-Counts shed k m (suc (pos_part gp.max_conns)) left shut (omega (arith, v.limit)),
      ground (arith, finish_close-Follows shed),
    )
