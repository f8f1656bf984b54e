-- ===== src/Gpool/Pool/Invariant/Settle.antt =====
-- A section that ends leaves the invariant of the pool with its goroutines.
use lgobase.Base.{
  ℕ, suc, ◌+◌, ◌<◌, ◌≡◌, refl, sym, ap, List, [], ◌∷◌, ◌++◌, arith, length, length-append,
  get_elem?, count, count-append, false,
}
use lgobase.Base.Int.{pos_part}
use lgobase.Gpool.Pool.{Gpool, Task, Outcome, returned, parked, blocked, panicked, borrowed}
use lgobase.Gpool.Pool.Dispatch.{Follows}
use lgobase.Gpool.Pool.Shutdown.{close_pool}
use lgobase.Gpool.Pool.World.{Call, gets, closes_conn, discards, closes_pool, perform, settle}
use lgobase.Gpool.Pool.Borrow.{get}
use lgobase.Gpool.Pool.Return.{state_of, close_conn, discard}
use lgobase.Gpool.Pool.Counters.{Counts, Kept, task_closings, task_makers, out_closings, out_makers}
use lgobase.Gpool.Pool.Counters.Borrow.{get-Kept}
use lgobase.Gpool.Pool.Counters.Return.{close_conn-Kept, discard-Kept}
use lgobase.Gpool.Pool.Counters.Shutdown.{close_pool-Kept}
use lgobase.Gpool.Pool.Ownership.{Owns}
use lgobase.Gpool.Pool.Parking.{Spares, get-Spares, close_conn-Spares, discard-Spares}
use lgobase.Gpool.Pool.Ownership.Transfer.{Owns-same}
use lgobase.Gpool.Pool.Ownership.Borrow.{Tracks, get-Tracks}
use lgobase.Gpool.Pool.Ownership.Putting.{close_conn-Tracks, discard-Tracks, in_use-pos_of_borrowed}
use lgobase.Gpool.Pool.Ownership.Shutdown.{close_pool-Tracks, drain_idle-whole}
use lgobase.Gpool.Pool.Invariant.{closings, makers, NoneClosesIdle, Inv, Taken}

settled-Inv :
    (gp gp' : Gpool) (out : Outcome) (rest ts : List Task) (limit : ℕ)
    → Kept gp (length (closings rest)) (makers rest) (gp', out)
    → Tracks (λ c. count c (closings rest)) (gp', out)
    → pos_part gp.max_conns ≡ limit
    → (gp'.closed ≡ false → NoneClosesIdle ts)
    → closings ts ≡ out_closings out ++ closings rest
    → out_makers out + makers rest ≡ makers ts
    → Inv gp' ts limit
settled-Inv gp gp' out rest ts limit kept tracks l idle e m = record {
  counts =
      ground (arith, kept, length-append (out_closings out) (closings rest), ap (length {0}) e);
  owns =
      Owns-same gp' gp' _ _ tracks refl refl refl
        (λ j. ground (arith, count-append j (out_closings out) (closings rest), ap (count j) e));
  limit_is = ground (arith, kept.1);
  idle_closers = idle;
}

-- A goroutine that is blocked goes back to where it was.
abbrev pub Quiet : List Task → List Task → Type 0
Quiet old rest =
    (closings (old ++ rest) ≡ closings rest)
    × (makers (old ++ rest) ≡ makers rest)
    × (NoneClosesIdle rest → NoneClosesIdle (old ++ rest))

settle-Inv :
    (gp gp' : Gpool) (old rest : List Task) (out : Outcome) (limit : ℕ)
    → Kept gp (length (closings rest)) (makers rest) (gp', out)
    → Tracks (λ c. count c (closings rest)) (gp', out)
    → pos_part gp.max_conns ≡ limit
    → (gp.closed ≡ false → NoneClosesIdle rest)
    → (gp'.closed ≡ false → Spares (gp', out))
    → (out ≡ blocked → Quiet old rest)
    → Inv gp' (settle old out rest) limit
unfolding settle
settle-Inv gp gp' old rest (returned c e) limit kept tracks l idle spares q =
    settled-Inv gp gp' (returned c e) rest rest limit kept tracks l (ground (arith, kept.1)) refl
      (omega arith)
settle-Inv gp gp' old rest panicked limit kept tracks l idle spares q =
    settled-Inv gp gp' panicked rest rest limit kept tracks l (ground (arith, kept.1)) refl
      (omega arith)
settle-Inv gp gp' old rest (parked t) limit kept tracks l idle spares q =
    settled-Inv gp gp' (parked t) rest (t ∷ rest) limit kept tracks l (ground (arith, kept.1)) refl
      (omega arith)
settle-Inv gp gp' old rest blocked limit kept tracks l idle spares q =
    let (e, m, s) = q refl in
    settled-Inv gp gp' blocked rest (old ++ rest) limit kept tracks l
      (λ running. s (idle (ground (arith, kept.1)))) e (omega (arith, m))

module _ (gp : Gpool) (ts : List Task) (limit : ℕ) (v : Inv gp ts limit) where
  called-Inv :
      (r : Gpool × Outcome)
      → Kept gp (length (closings ts)) (makers ts) r
      → Tracks (λ c. count c (closings ts)) r
      → (r.0.closed ≡ false → Spares r)
      → Inv r.0 (settle [] r.1 ts) limit
  called-Inv r kept tracks spares =
      settle-Inv gp r.0 [] ts r.1 limit kept tracks v.limit_is v.idle_closers spares
        (λ e. (refl, refl, λ s. s))

  bounded : Counts gp (length (closings ts)) (makers ts) (suc (pos_part gp.max_conns))
  bounded = ground (arith, v.counts, v.limit_is)

  held_back : (c : ℕ) → state_of (get_elem? gp.conns c) ≡ borrowed → 0 < gp.in_use
  held_back c = in_use-pos_of_borrowed gp c (λ j. count j (closings ts)) v.owns

  pub perform-Inv : (c : Call) → let r = perform gp c in Inv r.0 (settle [] r.1 ts) limit
  unfolding perform
  perform-Inv (gets now is_open) =
      called-Inv (get gp now is_open) (get-Kept gp now is_open _ _ bounded)
        (get-Tracks gp now is_open _ v.owns) (λ e. get-Spares gp now is_open)
  perform-Inv (closes_conn c now is_open) =
      called-Inv (close_conn gp c now is_open)
        (close_conn-Kept gp c now is_open _ _ (held_back c) bounded)
        (close_conn-Tracks gp c now is_open _ v.owns) (λ e. close_conn-Spares gp c now is_open)
  perform-Inv (discards c) =
      called-Inv (discard gp c) (discard-Kept gp c _ _ (held_back c) bounded)
        (discard-Tracks gp c _ v.owns) (λ e. discard-Spares gp c)
  perform-Inv closes_pool =
      called-Inv (close_pool gp) (close_pool-Kept gp _ _ bounded (drain_idle-whole gp _ v.owns).1).0
        (close_pool-Tracks gp _ v.owns)
        (λ e.
          absurd
            (ground (arith, (close_pool-Kept gp _ _ bounded (drain_idle-whole gp _ v.owns).1).1)))

-- A goroutine at task `t`, with the others at `rest`.
module _ (gp : Gpool) (ts : List Task) (t : Task) (rest : List Task) (limit : ℕ)
    (v : Inv gp ts limit) (k : Taken ts t rest) where
  pub counted :
      Counts gp
        (length (task_closings t) + length (closings rest))
        (task_makers t + makers rest)
        (suc (pos_part gp.max_conns))
  counted = ground (arith, v.counts, v.limit_is, k.closing_count, k.makers_count)

  pub owned : Owns gp (λ c. count c (task_closings t) + count c (closings rest))
  owned = Owns-same gp gp _ _ v.owns refl refl refl (λ c. sym (k.closer_count c))

  rest_spared : gp.closed ≡ false → NoneClosesIdle rest
  rest_spared e = (k.spared (v.idle_closers e)).1

  pub resumed-Inv :
      (gp' : Gpool) (r : Gpool × Outcome)
      → Follows gp gp'
      → Kept gp' (length (closings rest)) (makers rest) r
      → Tracks (λ c. count c (closings rest)) r
      → Spares r
      → (r.1 ≡ blocked → Quiet (t ∷ []) rest)
      → Inv r.0 (settle (t ∷ []) r.1 rest) limit
  resumed-Inv gp' r follows kept tracks spares quiet =
      settle-Inv gp' r.0 (t ∷ []) rest r.1 limit kept tracks (ground (arith, follows, v.limit_is))
        (λ running. rest_spared (ground (arith, follows))) (λ e. spares) quiet

  -- A response that the task does not wait for.
  pub ignored-Inv : Inv gp (t ∷ rest) limit
  ignored-Inv = record {
    counts = ground (
      arith,
      v.counts,
      k.closing_count,
      k.makers_count,
      length-append (task_closings t) (closings rest),
    );
    owns =
        Owns-same gp gp _ _ owned refl refl refl
          (λ c. count-append c (task_closings t) (closings rest));
    limit_is = v.limit_is;
    idle_closers = λ e. k.spared (v.idle_closers e);
  }

pub Follows-refl : (gp : Gpool) → Follows gp gp
Follows-refl gp = ground arith
