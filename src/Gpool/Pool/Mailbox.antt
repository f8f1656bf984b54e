-- ===== src/Gpool/Pool/Mailbox.antt =====
-- The result channels of gpool/waiter_queue.go: a waiter is either queued or has its one result.
pub mod Sections
pub mod Receiving
pub mod Run
use lgobase.Base.{
  ℕ, ◌+◌, ◌-◌, ◌≤◌, ◌≡◌, refl, ap, inl, inr, not, ◌&&◌, List, [], ◌∷◌, ◌++◌, Option, none, some,
  arith, length, get_elem?, get_elem?-modify_self, get_elem?-modify_ne, get_elem?_above, modify,
  map_option, length-modify, count, ◌==◌, if◌then◌else◌, if_cases, Bool-cases,
}
use lgobase.Base.Int.{pos, ltb_ℤ}
use lgobase.Gpool.Pool.{
  Gpool, WaiterState, queued, delivered, canceled, WaitResult, Task, waiting, Outcome, parked,
  capacity_used,
}
use lgobase.Gpool.Pool.Locked.{deliver, create_result, dispatch_from, dispatch, finish_close}

abbrev pub same : ℕ → ℕ → ℕ
same w v = if w == v then 1 else 0

-- How many results are in the channel of `w`.
abbrev pub pending : ℕ → List (ℕ × WaitResult) → ℕ
pending w [] = 0
pending w ((v, r) ∷ rs) = same w v + pending w rs

abbrev pub is_queued : Option WaiterState → ℕ
is_queued (some queued) = 1
is_queued _ = 0

-- Waiter `w`, for which `n` goroutines wait.
pub record Box (w : ℕ) (gp : Gpool) (n : ℕ) : Type 0 where
  pub queued_once : count w gp.waiters ≡ is_queued (get_elem? gp.waiter_states w)
  pub fresh : length gp.waiter_states ≤ w → pending w gp.results ≡ 0
  pub held : n ≡ count w gp.waiters + pending w gp.results
  pub once : n ≤ 1

pub Box-same :
    (w : ℕ) (gp gp' : Gpool) {n : ℕ} (m : ℕ)
    → Box w gp n
    → gp'.waiters ≡ gp.waiters
    → gp'.waiter_states ≡ gp.waiter_states
    → gp'.results ≡ gp.results
    → m ≡ n
    → Box w gp' m
Box-same w gp gp' {n} m b e s r k = record {
  queued_once = rw (e, s) b.queued_once;
  fresh = rw (s, r) b.fresh;
  held = rw (e, r, k) b.held;
  once = omega (arith, b.once);
}

pub pending-append :
    (w : ℕ) (front back : List (ℕ × WaitResult))
    → pending w (front ++ back) ≡ pending w front + pending w back
pending-append w [] back = omega arith
pending-append w ((v, r) ∷ front) back = omega (arith, pending-append w front back)

is_queued-le : (o : Option WaiterState) → is_queued o ≤ 1
is_queued-le none = omega arith
is_queued-le (some queued) = omega arith
is_queued-le (some delivered) = omega arith
is_queued-le (some canceled) = omega arith

is_queued-map :
    (s : WaiterState)
    → is_queued (some s) ≡ 0
    → (o : Option WaiterState) → is_queued (map_option (λ x. s) o) ≡ 0
is_queued-map s e none = refl
is_queued-map s e (some t) = e

pub is_queued-modify :
    (states : List WaiterState) (s : WaiterState) (w v : ℕ)
    → is_queued (some s) ≡ 0
    → is_queued (get_elem? (modify states v (λ x. s)) w)
      ≡ (if w == v then 0 else is_queued (get_elem? states w))
is_queued-modify states s w v e = elim (Bool-cases (w == v)) [
  | inl here ↦
      let at : w ≡ v = ground arith in
      rw (here, at, get_elem?-modify_self states v (λ x. s))
        (is_queued-map s e (get_elem? states v))
  | inr there ↦ rw (there, get_elem?-modify_ne states v w (λ x. s) (λ f. ground arith)) refl
]

-- The head of the queue gets a result.
pub Box-deliver :
    (w : ℕ) (gp gp' : Gpool) (v : ℕ) (ws : List ℕ) (r : WaitResult) {n : ℕ}
    → Box w gp n
    → gp.waiters ≡ v ∷ ws
    → gp'.waiters ≡ ws
    → gp'.waiter_states ≡ modify gp.waiter_states v (λ x. delivered)
    → gp'.results ≡ gp.results ++ (v, r) ∷ []
    → Box w gp' n
Box-deliver w gp gp' v ws r {n} b e f s g =
    let state_now = is_queued-modify gp.waiter_states delivered w v refl in
    let state_then = is_queued-le (get_elem? gp.waiter_states w) in
    let more = pending-append w gp.results ((v, r) ∷ []) in
    let split = ap (count w) e in
    let above : length gp.waiter_states ≤ w → is_queued (get_elem? gp.waiter_states w) ≡ 0 =
      λ h. ap is_queued (get_elem?_above gp.waiter_states w h) in
    record {
      queued_once = rw (f, s) (ground (arith, state_now, split, b.queued_once, state_then));
      fresh =
          rw (s, g, length-modify gp.waiter_states v (λ x. delivered))
            (λ h. let empty = above h in ground (arith, split, more, b.queued_once, b.fresh h));
      held = rw (f, g) (ground (arith, split, more, b.held));
      once = b.once;
    }

pub dispatch_from-Box :
    (ws : List ℕ) (gp : Gpool) (w : ℕ) {n : ℕ}
    → gp.waiters ≡ ws
    → Box w gp n
    → Box w (dispatch_from ws gp) n
unfolding dispatch_from deliver
dispatch_from-Box [] gp w e b = b
dispatch_from-Box (v ∷ ws) gp w {n} e b =
    if_cases (λ g. Box w g n) (not gp.closed && ltb_ℤ (pos (capacity_used gp)) gp.max_conns)
      (λ room.
        dispatch_from-Box ws
          (deliver (record gp { waiters = ws; creating = gp.creating + 1 }) v create_result) w refl
          (Box-deliver w gp _ v ws create_result b e refl refl refl))
      (λ full. b)

pub dispatch-Box : (gp : Gpool) (w : ℕ) {n : ℕ} → Box w gp n → Box w (dispatch gp) n
unfolding dispatch
dispatch-Box gp w b = dispatch_from-Box gp.waiters gp w refl b

pub finish_close-Box : (gp : Gpool) (w : ℕ) {n : ℕ} → Box w gp n → Box w (finish_close gp) n
unfolding finish_close
finish_close-Box gp w {n} b =
    Box-same w gp (finish_close gp) n b (ground arith) (ground arith) (ground arith) refl

-- The goroutines that wait as `w`.
abbrev pub task_waiting : ℕ → Task → ℕ
task_waiting w (waiting v) = same w v
task_waiting w _ = 0

abbrev pub waiting_in : ℕ → List Task → ℕ
waiting_in w [] = 0
waiting_in w (t ∷ ts) = task_waiting w t + waiting_in w ts

abbrev pub out_waiting : ℕ → Outcome → ℕ
out_waiting w (parked t) = task_waiting w t
out_waiting w _ = 0

-- A section keeps the box of `w`, for which `n` other goroutines wait.
abbrev pub Boxed : ℕ → ℕ → Gpool × Outcome → Type 0
Boxed w n (gp, out) = Box w gp (out_waiting w out + n)
