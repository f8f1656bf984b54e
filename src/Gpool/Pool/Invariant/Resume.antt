-- ===== src/Gpool/Pool/Invariant/Resume.antt =====
-- Every goroutine that goes on keeps the invariant of the pool.
use lgobase.Base.{
  ℕ, suc, ◌≢◌, ◌≡◌, refl, List, [], ◌∷◌, Option, arith, length, length-append, count-append, true,
}
use lgobase.Base.Int.{pos_part}
use lgobase.Gpool.Pool.{
  Gpool, Error, returns, Task, closing_conn, creating_conn, waiting, closing_idle, After, reopens,
  fails_closed, Outcome, blocked,
}
use lgobase.Gpool.Pool.Locked.{close_end, close_begin, new_for_use}
use lgobase.Gpool.Pool.Shutdown.{close_idle_one}
use lgobase.Gpool.Pool.World.{
  Response, conn_closed, conn_created, result_ready, gave_up, after_close, resume, settle,
}
use lgobase.Gpool.Pool.Borrow.{
  Created, made, failed, finish_create_closed, finish_create_open, wait_result, cancel_waiter,
  finish_create,
}
use lgobase.Gpool.Pool.Counters.{
  Counts, Kept, new_for_use-Kept, close_end-Counts, finish_create-Kept,
}
use lgobase.Gpool.Pool.Counters.Borrow.{wait_result-Kept, cancel_waiter-Kept}
use lgobase.Gpool.Pool.Counters.Shutdown.{close_idle_one-Counts}
use lgobase.Gpool.Pool.Ownership.{Owns}
use lgobase.Gpool.Pool.Parking.{
  Spares, finish_create-Spares, wait_result-Spares, cancel_waiter-Spares,
}
use lgobase.Gpool.Pool.Ownership.Transfer.{Owns-same}
use lgobase.Gpool.Pool.Ownership.Borrow.{
  Tracks, wait_result-Tracks, cancel_waiter-Tracks, finish_create-Tracks, new_for_use-Tracks,
}
use lgobase.Gpool.Pool.Ownership.Shutdown.{close_end-Owns, close_idle_one-Owns}
use lgobase.Gpool.Pool.Invariant.{closings, makers, Inv, Taken}
use lgobase.Gpool.Pool.Invariant.Settle.{Follows-refl, counted, owned, resumed-Inv, ignored-Inv}

after_close-Kept :
    (gp : Gpool) (after : After) (k m : ℕ)
    → Counts gp k m (pos_part gp.max_conns)
    → Kept gp k m (after_close gp after)
unfolding after_close
after_close-Kept gp reopens k m v = new_for_use-Kept gp k m v
after_close-Kept gp fails_closed k m v = ground arith
after_close-Kept gp returns k m v = ground arith

after_close-Tracks :
    (gp : Gpool) (after : After) (closers : ℕ → ℕ)
    → Owns gp closers
    → Tracks closers (after_close gp after)
unfolding after_close
after_close-Tracks gp reopens closers o = new_for_use-Tracks gp closers o
after_close-Tracks gp fails_closed closers o =
    Owns-same gp gp closers _ o refl refl refl (λ j. omega arith)
after_close-Tracks gp returns closers o =
    Owns-same gp gp closers _ o refl refl refl (λ j. omega arith)

after_close-Spares :
    (gp : Gpool) (after : After)
    → Spares (after_close gp after) × ((after_close gp after).1 ≢ blocked)
unfolding after_close new_for_use
after_close-Spares gp reopens = (tt, λ e. cc)
after_close-Spares gp fails_closed = (tt, λ e. cc)
after_close-Spares gp returns = (tt, λ e. cc)

closing_conn-Inv :
    (gp : Gpool) (ts : List Task) (c : ℕ) (after : After) (err : Option Error) (rest : List Task)
    (limit : ℕ)
    → Inv gp ts limit
    → Taken ts (closing_conn c after) rest
    → let r = after_close (close_end gp c err) after in
      Inv r.0 (settle (closing_conn c after ∷ []) r.1 rest) limit
closing_conn-Inv gp ts c after err rest limit v k =
    let m = length (closings rest) in
    let t = closing_conn c after in
    let before : Counts gp (suc m) (makers rest) (suc (pos_part gp.max_conns)) =
      ground (arith, counted gp ts t rest limit v k) in
    let (counts, follows) = close_end-Counts gp c err m (makers rest) before in
    let gp' = close_end gp c err in
    let (spares, goes_on) = after_close-Spares gp' after in
    resumed-Inv gp ts t rest limit v k gp' (after_close gp' after) follows
      (after_close-Kept gp' after m (makers rest) (ground (arith, counts, follows)))
      (after_close-Tracks gp' after _ (close_end-Owns gp c err _ (owned gp ts t rest limit v k)))
      spares (λ e. absurd (goes_on e))

finish_create-goes_on : (gp : Gpool) (r : Created) → (finish_create gp r).1 ≢ blocked
unfolding finish_create close_begin finish_create_closed finish_create_open
finish_create-goes_on gp (made now) e = ground arith
finish_create-goes_on gp (failed x) e = ground arith

creating_conn-Inv :
    (gp : Gpool) (ts : List Task) (c : Created) (rest : List Task) (limit : ℕ)
    → Inv gp ts limit
    → Taken ts creating_conn rest
    → let r = finish_create gp c in Inv r.0 (settle (creating_conn ∷ []) r.1 rest) limit
creating_conn-Inv gp ts c rest limit v k =
    let m = makers rest in
    let before : Counts gp (length (closings rest)) (suc m) (suc (pos_part gp.max_conns)) =
      ground (arith, counted gp ts creating_conn rest limit v k) in
    let owns = owned gp ts creating_conn rest limit v k in
    resumed-Inv gp ts creating_conn rest limit v k gp (finish_create gp c) (Follows-refl gp)
      (finish_create-Kept gp c _ m before)
      (finish_create-Tracks gp c _ (Owns-same gp gp _ _ owns refl refl refl (λ j. omega arith)))
      (finish_create-Spares gp c) (λ e. absurd (finish_create-goes_on gp c e))

-- A goroutine at its `select`.
waiting-Inv :
    (gp : Gpool) (ts : List Task) (w : ℕ) (rest : List Task) (limit : ℕ) (r : Gpool × Outcome)
    → Inv gp ts limit
    → Taken ts (waiting w) rest
    → ((k m : ℕ) → Counts gp k m (suc (pos_part gp.max_conns)) → Kept gp k m r)
    → ((closers : ℕ → ℕ) → Owns gp closers → Tracks closers r)
    → Spares r
    → Inv r.0 (settle (waiting w ∷ []) r.1 rest) limit
waiting-Inv gp ts w rest limit r v k kept tracks spares =
    let before : Counts gp (length (closings rest)) (makers rest) (suc (pos_part gp.max_conns)) =
      ground (arith, counted gp ts (waiting w) rest limit v k) in
    let owns = owned gp ts (waiting w) rest limit v k in
    resumed-Inv gp ts (waiting w) rest limit v k gp r (Follows-refl gp) (kept _ _ before)
      (tracks _ (Owns-same gp gp _ _ owns refl refl refl (λ j. omega arith))) spares
      (λ e. (refl, omega arith, λ s. (tt, s)))

closing_idle-Inv :
    (gp : Gpool) (ts : List Task) (c : ℕ) (cs : List ℕ) (err : Option Error) (rest : List Task)
    (limit : ℕ)
    → Inv gp ts limit
    → Taken ts (closing_idle (c ∷ cs)) rest
    → Inv (close_idle_one gp c err) (closing_idle cs ∷ rest) limit
closing_idle-Inv gp ts c cs err rest limit v k =
    let t = closing_idle (c ∷ cs) in
    let shut : gp.closed ≡ true = ground (arith, v.idle_closers, k.spared) in
    let before : Counts gp (suc (length (closings (closing_idle cs ∷ rest))))
        (makers (closing_idle cs ∷ rest)) (suc (pos_part gp.max_conns)) =
      ground (arith, counted gp ts t rest limit v k, length-append cs (closings rest)) in
    let (counts, follows) = close_idle_one-Counts gp c err _ _ shut before in
    let owns = owned gp ts t rest limit v k in
    record {
      counts = ground (arith, counts, v.limit_is);
      owns = close_idle_one-Owns gp c err _ (
          Owns-same gp gp _ _ owns refl refl refl
            (λ j. ground (arith, count-append j cs (closings rest))));
      limit_is = ground (arith, follows, v.limit_is);
      idle_closers = ground (arith, follows);
    }

pub resume-Inv :
    (gp : Gpool) (ts : List Task) (t : Task) (rest : List Task) (r : Response) (limit : ℕ)
    → Inv gp ts limit
    → Taken ts t rest
    → let o = resume gp t r in Inv o.0 (settle (t ∷ []) o.1 rest) limit
unfolding resume settle
resume-Inv gp ts (closing_conn c after) rest (conn_closed err) limit v k =
    closing_conn-Inv gp ts c after err rest limit v k
resume-Inv gp ts creating_conn rest (conn_created c) limit v k =
    creating_conn-Inv gp ts c rest limit v k
resume-Inv gp ts (waiting w) rest result_ready limit v k =
    waiting-Inv gp ts w rest limit (wait_result gp w) v k (wait_result-Kept gp w)
      (wait_result-Tracks gp w) (wait_result-Spares gp w)
resume-Inv gp ts (waiting w) rest (gave_up e) limit v k =
    waiting-Inv gp ts w rest limit (cancel_waiter gp w e) v k (cancel_waiter-Kept gp w e)
      (cancel_waiter-Tracks gp w e) (cancel_waiter-Spares gp w e)
resume-Inv gp ts (closing_idle []) rest (conn_closed err) limit v k = record {
  counts = ground (arith, v.counts, k.closing_count, k.makers_count);
  owns = Owns-same gp gp _ _ v.owns refl refl refl (λ j. ground (arith, k.closer_count j));
  limit_is = v.limit_is;
  idle_closers = λ e. (k.spared (v.idle_closers e)).1;
}
resume-Inv gp ts (closing_idle (c ∷ cs)) rest (conn_closed err) limit v k =
    closing_idle-Inv gp ts c cs err rest limit v k
resume-Inv gp ts t rest r limit v k = ignored-Inv gp ts t rest limit v k
