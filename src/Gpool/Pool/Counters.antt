-- ===== src/Gpool/Pool/Counters.antt =====
-- The counters of a pool against the goroutines that hold its slots.
pub mod Borrow
pub mod Return
pub mod Shutdown
use lgobase.Base.{
  ℕ, suc, ◌+◌, ◌-◌, ◌≤◌, ◌≡◌, ◌⊎◌, true, false, List, [], ◌∷◌, Option, arith, length, modify,
}
use lgobase.Base.Int.{pos_part}
use lgobase.Gpool.Pool.{
  Gpool, Error, After, Task, closing_conn, creating_conn, closing_idle, Outcome, parked, ConnState,
  set_state, capacity_used,
}
use lgobase.Gpool.Pool.Locked.{dispatch, finish_close, close_begin, close_end, new_for_use, join}
use lgobase.Gpool.Pool.Dispatch.{reservations, Follows, dispatch-Dispatched}
use lgobase.Gpool.Pool.Borrow.{Created, made, failed, finish_create}

-- With `k` connections being closed and `m` connections being made; `bound` is the most slots
-- taken.
pub record Counts (gp : Gpool) (k m bound : ℕ) : Type 0 where
  pub closing_is : gp.closing ≡ k
  pub creating_is : gp.creating ≡ m + reservations gp.results
  pub limit : capacity_used gp ≤ bound
  pub served : gp.closed ≡ false → (gp.waiters ≡ []) ⊎ (pos_part gp.max_conns ≤ capacity_used gp)
  pub waits_is : gp.waits ≡ length gp.waiters
  pub waiters_fit : length gp.waiters ≤ pos_part gp.max_waiters
  pub closed_waiters : gp.closed ≡ true → gp.waiters ≡ []
  pub closed_idle : gp.closed ≡ true → gp.idle.size ≡ 0
  pub ended_closed : gp.close_ended ≡ true → gp.closed ≡ true
  pub end_due : gp.closed ≡ true → capacity_used gp ≡ 0 → gp.close_ended ≡ true

-- What is left of the counters while a slot is being given back.
pub record Partial (gp : Gpool) (k m : ℕ) : Type 0 where
  pub closing_is : gp.closing ≡ k
  pub creating_is : gp.creating ≡ m + reservations gp.results
  pub waits_is : gp.waits ≡ length gp.waiters
  pub waiters_fit : length gp.waiters ≤ pos_part gp.max_waiters
  pub ended_closed : gp.close_ended ≡ true → gp.closed ≡ true
  pub closed_waiters : gp.closed ≡ true → gp.waiters ≡ []
  pub closed_idle : gp.closed ≡ true → gp.idle.size ≡ 0

pub dispatch-Counts :
    (gp : Gpool) (k m bound : ℕ)
    → Partial gp k m
    → gp.closed ≡ false
    → pos_part gp.max_conns ≤ bound
    → capacity_used gp ≤ bound
    → Counts (dispatch gp) k m bound
dispatch-Counts gp k m bound p running le le' =
    ground (arith, dispatch-Dispatched gp, (dispatch-Dispatched gp).waits_kept p.waits_is)

pub finish_close-Counts :
    (gp : Gpool) (k m bound : ℕ)
    → Partial gp k m
    → gp.closed ≡ true
    → capacity_used gp ≤ bound
    → Counts (finish_close gp) k m bound
unfolding finish_close
finish_close-Counts gp k m bound p shut le = ground arith

pub finish_close-Follows : (gp : Gpool) → Follows gp (finish_close gp)
unfolding finish_close
finish_close-Follows gp = ground arith

-- The connections that a goroutine is about to close, and the one that it may be making.
abbrev pub task_closings : Task → List ℕ
task_closings (closing_conn c after) = c ∷ []
task_closings (closing_idle cs) = cs
task_closings _ = []

abbrev pub task_makers : Task → ℕ
task_makers creating_conn = 1
task_makers _ = 0

abbrev pub out_closings : Outcome → List ℕ
out_closings (parked t) = task_closings t
out_closings _ = []

abbrev pub out_makers : Outcome → ℕ
out_makers (parked t) = task_makers t
out_makers _ = 0

-- A section keeps the counters, with `k` closings and `m` makings of the other goroutines.
abbrev pub Kept : Gpool → ℕ → ℕ → Gpool × Outcome → Type 0
Kept gp k m (gp', out) =
    Counts gp' (length (out_closings out) + k) (out_makers out + m) (suc (pos_part gp.max_conns))
    × Follows gp gp'

pub new_for_use-Kept :
    (gp : Gpool) (k m : ℕ) → Counts gp k m (pos_part gp.max_conns) → Kept gp k m (new_for_use gp)
unfolding new_for_use
new_for_use-Kept gp k m v = ground arith

pub close_begin-Kept :
    (gp : Gpool) (c : ℕ) (after : After) (k m : ℕ)
    → Partial gp k m
    → capacity_used gp ≤ pos_part gp.max_conns
    → (gp.closed ≡ false → (gp.waiters ≡ []) ⊎ (pos_part gp.max_conns ≤ capacity_used gp + 1))
    → Kept gp k m (close_begin gp c after)
unfolding close_begin
close_begin-Kept gp c after k m p le s = ground arith

-- The pool once a connection is closed, before what its closing sets off.
abbrev shed : Gpool → ℕ → Gpool
shed gp c = record gp {
  closing = gp.closing - 1;
  conns = modify gp.conns c (set_state ConnState.closed);
}

abbrev shed_err : Gpool → ℕ → Option Error → Gpool
shed_err gp c err = record gp {
  closing = gp.closing - 1;
  conns = modify gp.conns c (set_state ConnState.closed);
  close_err = join gp.close_err err;
}

pub close_end-Counts :
    (gp : Gpool) (c : ℕ) (err : Option Error) (k m : ℕ)
    → Counts gp (suc k) m (suc (pos_part gp.max_conns))
    → Counts (close_end gp c err) k m (pos_part gp.max_conns) × Follows gp (close_end gp c err)
unfolding close_end
close_end-Counts gp c err k m v =
    let limit = pos_part gp.max_conns in
    let left : Partial (shed gp c) k m = ground arith in
    let left_err : Partial (shed_err gp c err) k m = ground arith in
    ground (
      arith,
      dispatch-Counts (shed gp c) k m limit left,
      dispatch-Dispatched (shed gp c),
      finish_close-Counts (shed_err gp c err) k m limit left_err,
      finish_close-Follows (shed_err gp c err),
    )

abbrev made_one : Gpool → Gpool
made_one gp = record gp { creating = gp.creating - 1 }

pub finish_create-Kept :
    (gp : Gpool) (r : Created) (k m : ℕ)
    → Counts gp k (suc m) (suc (pos_part gp.max_conns))
    → Kept gp k m (finish_create gp r)
unfolding finish_create close_begin
finish_create-Kept gp (made now) k m v = ground arith
finish_create-Kept gp (failed e) k m v =
    let limit = suc (pos_part gp.max_conns) in
    let left : Partial (made_one gp) k m = ground arith in
    ground (
      arith,
      dispatch-Counts (made_one gp) k m limit left,
      dispatch-Dispatched (made_one gp),
      finish_close-Counts (made_one gp) k m limit left,
      finish_close-Follows (made_one gp),
    )
