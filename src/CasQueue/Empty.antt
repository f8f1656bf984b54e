-- ===== src/CasQueue/Empty.antt =====
-- When `PopFront` of cas/queue.go says that nothing is left.
use lgobase.Base.{
  ℕ, ◌≤◌, ◌≡◌, ◌≢◌, refl, sym, ap, ◌∙◌, subst, List, [], ◌∷◌, Option, none, some, if◌then◌else◌,
  arith, ◌==◌, if_cases,
}
use lgobase.CasQueue.{
  CasQueue, Local, returned, pop_load_head, pop_load_next, pop_check, nothing_left, after_pop_check,
  perform, advance, Event, goes_on, World, fresh, step, run,
}
use lgobase.CasQueue.Order.{Ghost, IsOrdered, Fits, Grows, Span}
use lgobase.CasQueue.Moves.{equal}
use lgobase.CasQueue.Linking.{update_same, update_other}
use lgobase.CasQueue.Advance.{perform-Keeps}
use lgobase.CasQueue.Fifo.{Behind, Holds, settle-Holds, run-Replays, first, fresh-Holds}

Grows-trans : (q r s : CasQueue) (g h k : Ghost) → Grows q g r h → Grows r h s k → Grows q g s k
Grows-trans q r s g h k a b = record {
  more = omega (arith, a.more, b.more);
  head_on = omega (arith, a.head_on, b.head_on);
  tail_on = omega (arith, a.tail_on, b.tail_on);
  stays = λ n lt. b.stays n (omega (arith, a.more)) ∙ a.stays n lt;
  keeps = λ n lt.
      subst (λ x. s.value x ≡ r.value x) (a.stays n lt) (b.keeps n (omega (arith, a.more)))
      ∙ a.keeps n lt;
}

Grows-refl : (q : CasQueue) (g : Ghost) → Grows q g q g
Grows-refl q g = record {
  more = omega arith;
  head_on = omega arith;
  tail_on = omega arith;
  stays = λ n lt. refl;
  keeps = λ n lt. refl;
}

step-Grows :
    (w : World) (g : Ghost) (i : ℕ) (e : Event)
    → Holds w g
    → (h : Ghost) × Holds (step w (i, e)).0 h × Grows w.queue g (step w (i, e)).0.queue h
unfolding step
step-Grows w g i e k =
    let kept = perform-Keeps w.queue g i k.0 (w.locals i) e (k.1 i) in
    let (h, m, c, grows) = settle-Holds w g i (perform w.queue (w.locals i) e) k kept in
    (h, m, grows)

run-Grows :
    (es : List (ℕ × Event)) (w : World) (g : Ghost)
    → Holds w g
    → (h : Ghost) × Holds (run w es).0 h × Grows w.queue g (run w es).0.queue h
unfolding run
run-Grows [] w g k = (g, k, Grows-refl w.queue g)
run-Grows ((i, e) ∷ es) w g k =
    let (h, m, a) = step-Grows w g i e k in
    let v = (step w (i, e)).0 in
    let (z, n, b) = run-Grows es v h m in
    (z, n, Grows-trans w.queue v.queue (run v es).0.queue g h z a b)

-- None of the operations is that goroutine's.
abbrev pub OfOthers : ℕ → List (ℕ × Event) → Type 0
OfOthers i [] = Unit {0}
OfOthers i ((j, e) ∷ es) = (i ≢ j) × OfOthers i es

run-others :
    (i : ℕ) (es : List (ℕ × Event)) (w : World) → OfOthers i es → (run w es).0.locals i ≡ w.locals i
unfolding run step
run-others i [] w h = refl
run-others i ((j, e) ∷ es) w (ne, h) =
    let l = (perform w.queue (w.locals j) e).0 in
    run-others i es (step w (j, e)).0 h ∙ update_other w.locals j i l ne

after_nothing :
    (q : CasQueue) (head tail : ℕ) (next : Option ℕ)
    → after_pop_check q head tail next ≡ returned (some nothing_left)
    → next ≡ none
after_nothing q head tail none e = refl
after_nothing q head tail (some y) e =
    if_cases (λ l. l ≡ returned (some nothing_left) → some y ≡ none) (head == tail)
      (λ same f. absurd cc) (λ other f. absurd cc) e

-- The check that gives this answer: `Head` is as it was read, and nothing was linked behind it.
check_nothing :
    (q : CasQueue) (head tail : ℕ) (next : Option ℕ)
    → (if head == q.head then after_pop_check q head tail next else pop_load_head)
      ≡ returned (some nothing_left)
    → (head ≡ q.head) × (next ≡ none)
check_nothing q head tail next =
    if_cases (λ l. l ≡ returned (some nothing_left) → (head ≡ q.head) × (next ≡ none))
      (head == q.head) (λ same e. (equal head q.head same, after_nothing q head tail next e))
      (λ other e. absurd cc)

step_local :
    (w : World) (i : ℕ) (e : Event) (l : Local)
    → w.locals i ≡ l
    → (step w (i, e)).0.locals i ≡ (perform w.queue l e).0
unfolding step
step_local w i e l h =
    update_same w.locals i (perform w.queue (w.locals i) e).0 ∙ ap (λ x. (perform w.queue x e).0) h

-- `Head` has not moved since the item that was read there was read.
still_head :
    (q r : CasQueue) (g h : Ghost) (head tail j k : ℕ)
    → IsOrdered q g
    → IsOrdered r h
    → Grows q g r h
    → Span g head tail j k
    → head ≡ r.head
    → q.head ≡ head
still_head q r g h head tail j k o p grows (le, lt, top, e, f) same =
    let place : j ≡ h.head_at =
      p.apart j h.head_at (omega (arith, o.tail_linked, grows.more))
        (omega (arith, p.head_first, p.tail_linked))
        (grows.stays j (omega (arith, o.tail_linked)) ∙ e ∙ same ∙ sym p.at_head) in
    sym o.at_head ∙ ap g.item (at_first j g.head_at h.head_at le grows.head_on place) ∙ e
  where
    at_first : (j a b : ℕ) → j ≤ a → a ≤ b → j ≡ b → a ≡ j
    at_first j a b le on same = omega arith

-- `PopFront` says that nothing is left only when the queue was empty at a moment of that call: when a
-- goroutine that stands in front of reading `next` behind the `Head` that it read goes on, others do
-- anything, and its check then gives this answer, no value was in the queue at that reading.
pub pop_front-nothing_left :
    (es others : List (ℕ × Event)) (i head tail : ℕ)
    → (run fresh es).0.locals i ≡ pop_load_next head tail
    → OfOthers i others
    → let w = (run fresh es).0 in
      let v = (run w ((i, goes_on) ∷ others)).0 in
      (step v (i, goes_on)).0.locals i ≡ returned (some nothing_left)
      → Behind w.queue w.queue.head []
unfolding run advance
pop_front-nothing_left es others i head tail at apart answer =
    let w = (run fresh es).0 in
    let v = (run w ((i, goes_on) ∷ others)).0 in
    let (g, k, r) = run-Replays es fresh first fresh-Holds in
    let (h, m, grows) = run-Grows ((i, goes_on) ∷ others) w g k in
    let (a, b, span) = subst (Fits w.queue g i) at (k.1 i) in
    let checks : v.locals i ≡ pop_check head tail (w.queue.next head) =
      run-others i others (step w (i, goes_on)).0 apart
      ∙ step_local w i goes_on (pop_load_next head tail) at in
    let (same, none_left) =
      check_nothing v.queue head tail (w.queue.next head)
        (sym (step_local v i goes_on (pop_check head tail (w.queue.next head)) checks) ∙ answer) in
    ap w.queue.next (still_head w.queue v.queue g h head tail a b k.0 m.0 grows span same)
    ∙ none_left
