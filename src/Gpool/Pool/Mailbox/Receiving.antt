-- ===== src/Gpool/Pool/Mailbox/Receiving.antt =====
-- A goroutine that waits in gpool/waiter_queue.go takes its result, or gives up.
use lgobase.Base.{
  ℕ, suc, ◌+◌, ◌-◌, ◌≡◌, ◌≢◌, refl, ap, ◌∙◌, inl, inr, true, List, [], ◌∷◌, Option, none, some,
  arith, length, length-modify, get_elem?, modify, erase, count, ◌==◌, if_cases, Option-cases,
  Bool-cases,
}
use lgobase.Gpool.Pool.{
  Gpool, Error, WaiterState, queued, delivered, canceled, WaitResult, WaitResultKind, result_conn,
  result_create, Outcome, blocked,
}
use lgobase.Gpool.Pool.Locked.{finish_close}
use lgobase.Gpool.Pool.Borrow.{
  receive, handle_wait_result, handle_result, take_result, wait_result, cancel_in, cancel_waiter,
}
use lgobase.Gpool.Pool.Mailbox.{
  same, pending, is_queued, is_queued-modify, Box, Box-same, dispatch-Box, finish_close-Box,
  out_waiting,
}

-- What a goroutine that waits as `w` keeps: itself, while it is blocked.
abbrev pub left : ℕ → Outcome → ℕ
left k blocked = k
left k _ = 0

abbrev pub BoxedAfter : ℕ → ℕ → ℕ → Gpool × Outcome → Type 0
BoxedAfter w k n (gp, out) = Box w gp (left k out + (out_waiting w out + n))

pending-receive :
    (w v : ℕ) (rs : List (ℕ × WaitResult)) {r : WaitResult} {rs' : List (ℕ × WaitResult)}
    → receive v rs ≡ some (r, rs')
    → pending w rs ≡ same w v + pending w rs'
unfolding receive
pending-receive w v [] e = cc
pending-receive w v ((u, s) ∷ rs) e = elim (Option-cases (receive v rs)) [
  | inl n ↦ ground arith
  | inr (a, f) ↦ ground (arith, pending-receive w v rs {r = a.0} {rs' = a.1} f)
]

receive-none : (w : ℕ) (rs : List (ℕ × WaitResult)) → receive w rs ≡ none → pending w rs ≡ 0
unfolding receive
receive-none w [] e = refl
receive-none w ((u, s) ∷ rs) e = elim (Option-cases (receive w rs)) [
  | inl n ↦ ground (arith, receive-none w rs n)
  | inr (a, f) ↦ ground arith
]

count-erase : (w v : ℕ) (xs : List ℕ) → count w (erase v xs) ≡ count w xs - same w v
unfolding erase
count-erase w v [] = omega arith
count-erase w v (x ∷ xs) = ground (arith, count-erase w v xs)

handle_result-BoxedAfter :
    (w k n : ℕ) (gp : Gpool) (r : WaitResult) (kind : WaitResultKind) (o : Option Error)
    → r.kind ≡ kind
    → Box w gp n
    → BoxedAfter w k n (handle_result gp r o) × ((handle_result gp r o).1 ≢ blocked)
unfolding handle_result
handle_result-BoxedAfter w k n gp r kind (some e) f b =
    (Box-same w gp gp _ b refl refl refl (omega arith), λ g. cc)
handle_result-BoxedAfter w k n gp r result_conn none f b =
    rw (f, handle_wait_result) (Box-same w gp gp _ b refl refl refl (omega arith), λ g. cc)
handle_result-BoxedAfter w k n gp r result_create none f b =
    let freed = record gp { creating = gp.creating - 1 } in
    let kept = finish_close-Box freed w (Box-same w gp freed n b refl refl refl refl) in
    rw (f, handle_wait_result)
      (if_cases (λ (x : Gpool × Outcome). BoxedAfter w k n x × (x.1 ≢ blocked)) gp.closed
        (λ e. (Box-same w (finish_close freed) _ _ kept refl refl refl (omega arith), λ g. cc))
        (λ e. (Box-same w gp gp _ b refl refl refl (omega arith), λ g. cc)))

module _ (w v n : ℕ) where
  taken-Box :
      (gp : Gpool) (r : WaitResult) (rs : List (ℕ × WaitResult))
      → receive v gp.results ≡ some (r, rs)
      → Box w gp (same w v + n)
      → Box w (record gp { results = rs }) n
  taken-Box gp r rs e b =
      let less = pending-receive w v gp.results e in
      record {
        queued_once = b.queued_once;
        fresh = λ h. omega (arith, b.fresh h, less);
        held = ground (arith, b.held, less);
        once = ground (arith, b.once);
      }

  pub wait_result-BoxedAfter :
      (gp : Gpool) → Box w gp (same w v + n) → BoxedAfter w (same w v) n (wait_result gp v)
  unfolding wait_result
  wait_result-BoxedAfter gp b = elim (Option-cases (receive v gp.results)) [
    | inl e ↦ rw (e, take_result) (Box-same w gp gp _ b refl refl refl (omega arith))
    | inr (a, e) ↦
        rw (e, take_result)
          (handle_result-BoxedAfter w _ n (record gp { results = a.1 }) a.0 a.0.kind a.0.err refl
            (taken-Box gp a.0 a.1 e b)).0
  ]

  canceled-Box :
      (gp : Gpool)
      → get_elem? gp.waiter_states v ≡ some queued
      → Box w gp (same w v + n)
      → Box w
          (record gp {
            waiters = erase v gp.waiters;
            waiter_states = modify gp.waiter_states v (λ x. canceled);
            waits = length (erase v gp.waiters);
          })
          n
  canceled-Box gp e b =
      let state_now = is_queued-modify gp.waiter_states canceled w v refl in
      let fewer = count-erase w v gp.waiters in
      let here : (w == v) ≡ true → is_queued (get_elem? gp.waiter_states w) ≡ 1 =
        λ h. let at : w ≡ v = ground arith in rw (at, e) in
      elim (Bool-cases (w == v)) [
        | inl h ↦
            let one = here h in
            record {
              queued_once = ground (arith, state_now, fewer, b.queued_once, one);
              fresh =
                  λ l. b.fresh (omega (arith, l, length-modify gp.waiter_states v (λ x. canceled)));
              held = ground (arith, fewer, b.held, b.queued_once, one);
              once = ground (arith, b.once);
            }
        | inr h ↦ record {
          queued_once = ground (arith, state_now, fewer, b.queued_once);
          fresh = λ l. b.fresh (omega (arith, l, length-modify gp.waiter_states v (λ x. canceled)));
          held = ground (arith, fewer, b.held);
          once = ground (arith, b.once);
        }
      ]

  cancel_in-BoxedAfter :
      (gp : Gpool) (e : Error) (o : Option WaiterState)
      → get_elem? gp.waiter_states v ≡ o
      → Box w gp (same w v + n)
      → BoxedAfter w (same w v) n (cancel_in gp v e o)
  unfolding cancel_in
  cancel_in-BoxedAfter gp e (some queued) f b =
      Box-same w _ _ _ (dispatch-Box _ w (canceled-Box gp f b)) refl refl refl (omega arith)
  cancel_in-BoxedAfter gp e _ f b = wait_result-BoxedAfter gp b

  pub cancel_waiter-BoxedAfter :
      (gp : Gpool) (e : Error)
      → Box w gp (same w v + n)
      → BoxedAfter w (same w v) n (cancel_waiter gp v e)
  unfolding cancel_waiter
  cancel_waiter-BoxedAfter gp e b = cancel_in-BoxedAfter gp e _ refl b

-- A goroutine that waits as `w` and is not queued finds its result.
wait_result-goes_on :
    (w n : ℕ) (gp : Gpool)
    → Box w gp (suc n)
    → count w gp.waiters ≡ 0
    → (wait_result gp w).1 ≢ blocked
unfolding wait_result
wait_result-goes_on w n gp b e f = elim (Option-cases (receive w gp.results)) [
  | inl g ↦ ground (arith, receive-none w gp.results g, b.held)
  | inr (a, g) ↦
      let same_box : same w w ≡ 1 = ground arith in
      let kept =
        taken-Box w w n gp a.0 a.1 g
          (Box-same w gp gp _ b refl refl refl (omega (arith, same_box))) in
      (handle_result-BoxedAfter w 0 n (record gp { results = a.1 }) a.0 a.0.kind a.0.err refl
          kept).1
        (rw (g, take_result) at f)
]

cancel_in-goes_on :
    (w n : ℕ) (gp : Gpool) (e : Error) (o : Option WaiterState)
    → get_elem? gp.waiter_states w ≡ o
    → Box w gp (suc n)
    → (cancel_in gp w e o).1 ≢ blocked
unfolding cancel_in
cancel_in-goes_on w n gp e (some queued) f b = λ g. cc
cancel_in-goes_on w n gp e none f b = wait_result-goes_on w n gp b (b.queued_once ∙ ap is_queued f)
cancel_in-goes_on w n gp e (some delivered) f b =
    wait_result-goes_on w n gp b (b.queued_once ∙ ap is_queued f)
cancel_in-goes_on w n gp e (some canceled) f b =
    wait_result-goes_on w n gp b (b.queued_once ∙ ap is_queued f)

pub cancel_waiter-goes_on :
    (w n : ℕ) (gp : Gpool) (e : Error) → Box w gp (suc n) → (cancel_waiter gp w e).1 ≢ blocked
unfolding cancel_waiter
cancel_waiter-goes_on w n gp e b = cancel_in-goes_on w n gp e _ refl b
