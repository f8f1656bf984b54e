-- ===== src/Gpool/Pool/Dispatch.antt =====
-- What `dispatchCapacityWaitersLocked` does to the counters and to the queue of waiters.
use lgobase.Base.{
  ℕ, ◌+◌, ◌≤◌, ◌≡◌, refl, ap, ◌⊎◌, inl, inr, Bool, true, false, not, ◌&&◌, List, [], ◌∷◌, ◌++◌,
  Option, none, arith, length, Bool-cases,
}
use lgobase.Base.Int.{pos, pos_part, ltb_ℤ}
use lgobase.Gpool.Pool.{Gpool, Error, WaitResult, WaitResultKind, result_create, capacity_used}
use lgobase.Gpool.Pool.Locked.{deliver, create_result, dispatch_from, dispatch}

-- A pending result that reserves a slot for its receiver.
abbrev pub reserves_by : Option Error → WaitResultKind → ℕ
reserves_by none result_create = 1
reserves_by _ _ = 0

abbrev pub reserves : WaitResult → ℕ
reserves r = reserves_by r.err r.kind

unfoldable pub reservations : List (ℕ × WaitResult) → ℕ
reservations [] = 0
reservations ((w, r) ∷ rs) = reserves r + reservations rs

pub reservations-concat :
    (rs : List (ℕ × WaitResult)) (w : ℕ) (r : WaitResult)
    → reservations (rs ++ (w, r) ∷ []) ≡ reservations rs + reserves r
unfolding reservations
reservations-concat [] w r = omega arith
reservations-concat ((v, s) ∷ rs) w r = omega (arith, reservations-concat rs w r)

-- What no section changes, and what no section undoes.
pub record Follows (gp gp' : Gpool) : Type 0 where
  pub max_conns_same : gp'.max_conns ≡ gp.max_conns
  pub max_waiters_same : gp'.max_waiters ≡ gp.max_waiters
  pub stays_closed : gp.closed ≡ true → gp'.closed ≡ true
  pub stays_ended : gp.close_ended ≡ true → gp'.close_ended ≡ true

pub record Dispatched (gp gp' : Gpool) : Type 0 where
  pub follows : Follows gp gp'
  pub idle_same : gp'.idle ≡ gp.idle
  pub in_use_same : gp'.in_use ≡ gp.in_use
  pub closing_same : gp'.closing ≡ gp.closing
  pub closed_same : gp'.closed ≡ gp.closed
  pub close_ended_same : gp'.close_ended ≡ gp.close_ended
  pub conns_same : gp'.conns ≡ gp.conns
  pub creating_grows : gp.creating ≤ gp'.creating
  pub within_limit : (capacity_used gp' ≤ pos_part gp.max_conns) ⊎ (gp'.creating ≡ gp.creating)
  pub reserved : gp'.creating + reservations gp.results ≡ gp.creating + reservations gp'.results
  pub granted : gp'.creating + length gp'.waiters ≡ gp.creating + length gp.waiters
  pub fewer : length gp'.waiters ≤ length gp.waiters
  pub waits_kept : gp.waits ≡ length gp.waiters → gp'.waits ≡ length gp'.waiters
  pub served : gp.closed ≡ false → (gp'.waiters ≡ []) ⊎ (pos_part gp.max_conns ≤ capacity_used gp')

abbrev may_create : Gpool → Bool
may_create gp = not gp.closed && ltb_ℤ (pos (capacity_used gp)) gp.max_conns

-- One round of the loop: the oldest waiter gets a reserved slot.
abbrev grant : Gpool → ℕ → List ℕ → Gpool
grant gp w ws = deliver (record gp { waiters = ws; creating = gp.creating + 1 }) w create_result

grant-Dispatched :
    (gp : Gpool) (w : ℕ) (ws : List ℕ) (gp' : Gpool)
    → gp.waiters ≡ w ∷ ws
    → may_create gp ≡ true
    → Dispatched (grant gp w ws) gp'
    → Dispatched gp gp'
unfolding deliver
grant-Dispatched gp w ws gp' e test d =
    ground (arith, reservations-concat gp.results w create_result, ap length e)

stop-Dispatched : (gp : Gpool) → may_create gp ≡ false → Dispatched gp gp
stop-Dispatched gp test = ground arith

dispatch_from-Dispatched :
    (ws : List ℕ) (gp : Gpool) → gp.waiters ≡ ws → Dispatched gp (dispatch_from ws gp)
unfolding dispatch_from deliver
dispatch_from-Dispatched [] gp e = ground arith
dispatch_from-Dispatched (w ∷ ws) gp e = elim (Bool-cases (may_create gp)) [
  | inl test ↦
      rw test (grant-Dispatched gp w ws _ e test (dispatch_from-Dispatched ws (grant gp w ws) refl))
  | inr test ↦ rw test (stop-Dispatched gp test)
]

pub dispatch-Dispatched : (gp : Gpool) → Dispatched gp (dispatch gp)
unfolding dispatch
dispatch-Dispatched gp = dispatch_from-Dispatched gp.waiters gp refl
