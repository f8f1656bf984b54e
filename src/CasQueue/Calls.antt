-- ===== src/CasQueue/Calls.antt =====
-- What the operations on the contents of the queue of cas/queue.go have to do with the calls: with the
-- argument of `PushBack` and with what `PushBack` and `PopFront` return.
use lgobase.Base.{
  ℕ, ◌≤◌, ◌<◌, ◌≡◌, refl, sym, ◌∙◌, subst, List, [], ◌∷◌, Option, none, some, if_cases, arith, ◌==◌,
}
use lgobase.CasQueue.{
  update, CasQueue, Return, pushed, popped, nothing_left, Local, returned, push_load_tail,
  push_load_next, push_check, push_help, push_link, push_swing, pop_load_head, pop_load_tail,
  pop_load_next, pop_check, pop_help, pop_swing, panicked, Effect, no_effect, enqueues, dequeues,
  link, swap_tail, swing_head, after_push_check, after_pop_check, advance, Event, calls_push,
  calls_pop, goes_on, with_item, perform, World, settle, step,
}
use lgobase.CasQueue.Moves.{equal}
use lgobase.CasQueue.Linking.{update_same, update_other}
use lgobase.CasQueue.Advance.{differ}

-- Where a goroutine is in its calls: in none, in a `PushBack` of a value that is not linked yet, in a
-- `PushBack` whose value is linked, or in a `PopFront`.
pub data Status : Type 0 where
  outside has_pushed popping : Status
  pushing : ℕ → Status

abbrev pub begun : Local → Event → Status → Status
begun (returned r) (calls_push v) s = pushing v
begun (returned r) calls_pop s = popping
begun l e s = s

abbrev pub InCall : Local → Type 0
InCall (returned r) = ⊥
InCall l = Unit {0}

abbrev pub Active : Status → Type 0
Active outside = ⊥
Active s = Unit {0}

-- One operation of a goroutine: its status in front of the operation, what the operation does to the
-- contents, where the goroutine stands behind it, and its status there. `PushBack` links the value that
-- it was called with, once, before it returns; `PopFront` returns the value that it takes, or says that
-- nothing is left and takes none; nothing else touches the contents.
pub data Explains : Status → Effect → Local → Status → Type 0 where
  rests : (r : Option Return) → Explains outside no_effect (returned r) outside
  works : (s : Status) (l : Local) → Active s → InCall l → Explains s no_effect l s
  links : (v : ℕ) (l : Local) → InCall l → Explains (pushing v) (enqueues (some v)) l has_pushed
  push_returns : Explains has_pushed no_effect (returned (some pushed)) outside
  takes : (v : Option ℕ) → Explains popping (dequeues v) (returned (some (popped v))) outside
  finds_none : Explains popping no_effect (returned (some nothing_left)) outside

-- Every operation of an interleaving is explained by the calls of its goroutine.
abbrev pub Explained : World → (ℕ → Status) → List (ℕ × Event) → Type 0
Explained w s [] = Unit
Explained w s ((i, e) ∷ es) =
    let after = step w (i, e) in
    (t : Status) × Explains (begun (w.locals i) e (s i)) after.1 (after.0.locals i) t
    × Explained after.0 (update s i t) es

-- The status agrees with where the goroutine stands, and its item has the value of its call.
abbrev Idles : Status → Type 0
Idles outside = Unit {0}
Idles s = ⊥

abbrev Pushes : CasQueue → ℕ → Status → Type 0
Pushes q node (pushing v) = (q.value node ≡ some v) × (node < q.allocated)
Pushes q node s = ⊥

abbrev Linked : Status → Type 0
Linked has_pushed = Unit {0}
Linked s = ⊥

abbrev Pops : Status → Type 0
Pops popping = Unit {0}
Pops s = ⊥

abbrev pub Matches : CasQueue → Local → Status → Type 0
Matches q (returned r) s = Idles s
Matches q (push_load_tail node) s = Pushes q node s
Matches q (push_load_next node tail) s = Pushes q node s
Matches q (push_check node tail next) s = Pushes q node s
Matches q (push_help node tail next) s = Pushes q node s
Matches q (push_link node tail) s = Pushes q node s
Matches q (push_swing node tail) s = Linked s
Matches q pop_load_head s = Pops s
Matches q (pop_load_tail head) s = Pops s
Matches q (pop_load_next head tail) s = Pops s
Matches q (pop_check head tail next) s = Pops s
Matches q (pop_help tail next) s = Pops s
Matches q (pop_swing head next v) s = Pops s
Matches q panicked s = Pops s

-- What an operation leaves.
abbrev Goes : Status → Local × CasQueue × Effect → Type 0
Goes s (l, q, e) = (t : Status) × Explains s e l t × Matches q l t

Pushes-Active : (q : CasQueue) (node : ℕ) (s : Status) → Pushes q node s → Active s
Pushes-Active q node (pushing v) m = tt
Pushes-Active q node outside m = m
Pushes-Active q node has_pushed m = tt
Pushes-Active q node popping m = tt

Pops-Active : (s : Status) → Pops s → Active s
Pops-Active (pushing v) m = tt
Pops-Active outside m = m
Pops-Active has_pushed m = tt
Pops-Active popping m = tt

push_on :
    (q : CasQueue) (node : ℕ) (s : Status) (l : Local)
    → Pushes q node s
    → InCall l
    → Matches q l s
    → Goes s (l, q, no_effect)
push_on q node s l m c k = (s, works s l (Pushes-Active q node s m) c, k)

pop_on :
    (q : CasQueue) (s : Status) (l : Local)
    → Pops s
    → InCall l
    → Matches q l s
    → Goes s (l, q, no_effect)
pop_on q s l m c k = (s, works s l (Pops-Active s m) c, k)

link-Goes :
    (q : CasQueue) (node tail : ℕ) (next : Option ℕ) (s : Status)
    → Pushes q node s
    → Goes s (link q node tail next)
link-Goes q node tail none (pushing v) (held, lt) = (
  has_pushed,
  subst (λ x. Explains (pushing v) (enqueues x) (push_swing node tail) has_pushed) (sym held)
      (links v (push_swing node tail) tt),
  tt,
)
link-Goes q node tail none outside m = absurd m
link-Goes q node tail none has_pushed m = absurd m
link-Goes q node tail none popping m = absurd m
link-Goes q node tail (some other) s m = push_on q node s (push_load_tail node) m tt m

after_push_check-Goes :
    (q : CasQueue) (node tail : ℕ) (next : Option ℕ) (s : Status)
    → Pushes q node s
    → Goes s (after_push_check node tail next, q, no_effect)
after_push_check-Goes q node tail none s m = push_on q node s (push_link node tail) m tt m
after_push_check-Goes q node tail (some next) s m =
    push_on q node s (push_help node tail next) m tt m

after_pop_check-Goes :
    (q : CasQueue) (head tail : ℕ) (next : Option ℕ) (s : Status)
    → Pops s
    → Goes s (after_pop_check q head tail next, q, no_effect)
after_pop_check-Goes q head tail none popping m =
    if_cases (λ l. Goes popping (l, q, no_effect)) (head == tail) (λ e. (outside, finds_none, tt))
      (λ e. pop_on q popping panicked m tt m)
after_pop_check-Goes q head tail (some next) popping m =
    if_cases (λ l. Goes popping (l, q, no_effect)) (head == tail)
      (λ e. pop_on q popping (pop_help tail next) m tt m)
      (λ e. pop_on q popping (pop_swing head next (q.value next)) m tt m)
after_pop_check-Goes q head tail next outside m = absurd m
after_pop_check-Goes q head tail next has_pushed m = absurd m
after_pop_check-Goes q head tail next (pushing v) m = absurd m

swing_head-Goes :
    (q : CasQueue) (old new : ℕ) (v : Option ℕ) (s : Status)
    → Pops s
    → Goes s (swing_head q old new v)
swing_head-Goes q old new v popping m =
    if_cases (Goes popping) (q.head == old) (λ e. (outside, takes v, tt))
      (λ e. pop_on q popping pop_load_head m tt m)
swing_head-Goes q old new v outside m = absurd m
swing_head-Goes q old new v has_pushed m = absurd m
swing_head-Goes q old new v (pushing w) m = absurd m

push_swing-Goes :
    (q r : CasQueue) (s : Status) → Linked s → Goes s (returned (some pushed), r, no_effect)
push_swing-Goes q r has_pushed m = (outside, push_returns, tt)
push_swing-Goes q r outside m = absurd m
push_swing-Goes q r popping m = absurd m
push_swing-Goes q r (pushing v) m = absurd m

returned-Goes :
    (q : CasQueue) (r : Option Return) (s : Status) → Idles s → Goes s (returned r, q, no_effect)
returned-Goes q r outside m = (outside, rests r, tt)
returned-Goes q r has_pushed m = absurd m
returned-Goes q r popping m = absurd m
returned-Goes q r (pushing v) m = absurd m

advance-Goes : (q : CasQueue) (l : Local) (s : Status) → Matches q l s → Goes s (advance q l)
unfolding advance
advance-Goes q (returned r) s m = returned-Goes q r s m
advance-Goes q (push_load_tail node) s m = push_on q node s (push_load_next node q.tail) m tt m
advance-Goes q (push_load_next node tail) s m =
    push_on q node s (push_check node tail (q.next tail)) m tt m
advance-Goes q (push_check node tail next) s m =
    if_cases (λ l. Goes s (l, q, no_effect)) (tail == q.tail)
      (λ e. after_push_check-Goes q node tail next s m)
      (λ e. push_on q node s (push_load_tail node) m tt m)
advance-Goes q (push_help node tail next) s m =
    if_cases (λ r. Goes s (push_load_tail node, r, no_effect)) (q.tail == tail)
      (λ e. push_on (record q { tail = next }) node s (push_load_tail node) m tt m)
      (λ e. push_on q node s (push_load_tail node) m tt m)
advance-Goes q (push_link node tail) s m = link-Goes q node tail (q.next tail) s m
advance-Goes q (push_swing node tail) s m = push_swing-Goes q (swap_tail q tail node) s m
advance-Goes q pop_load_head s m = pop_on q s (pop_load_tail q.head) m tt m
advance-Goes q (pop_load_tail head) s m = pop_on q s (pop_load_next head q.tail) m tt m
advance-Goes q (pop_load_next head tail) s m = pop_on q s (pop_check head tail (q.next head)) m tt m
advance-Goes q (pop_check head tail next) s m =
    if_cases (λ l. Goes s (l, q, no_effect)) (head == q.head)
      (λ e. after_pop_check-Goes q head tail next s m) (λ e. pop_on q s pop_load_head m tt m)
advance-Goes q (pop_help tail next) s m = pop_on (swap_tail q tail next) s pop_load_head m tt m
advance-Goes q (pop_swing head next v) s m = swing_head-Goes q head next v s m
advance-Goes q panicked s m = pop_on q s panicked m tt m

perform-Goes :
    (q : CasQueue) (l : Local) (e : Event) (s : Status)
    → Matches q l s
    → Goes (begun l e s) (perform q l e)
perform-Goes q (returned r) (calls_push v) s m =
    push_on (with_item q v) q.allocated (pushing v) (push_load_tail q.allocated) made tt made
  where
    made : Pushes (with_item q v) q.allocated (pushing v)
    made = (update_same q.value q.allocated (some v), omega arith)
perform-Goes q (returned r) calls_pop s m = pop_on q popping pop_load_head tt tt tt
perform-Goes q (returned r) goes_on s m = advance-Goes q (returned r) s m
perform-Goes q l e s m = advance-Goes q l s m

-- No operation changes the value of an item that was made before.
abbrev Older : CasQueue → CasQueue → Type 0
Older q r =
    (q.allocated ≤ r.allocated) × ((node : ℕ) → node < q.allocated → r.value node ≡ q.value node)

same-Older : (q : CasQueue) → Older q q
same-Older q = (omega arith, (λ node lt. refl))

link-Older : (q : CasQueue) (node tail : ℕ) (next : Option ℕ) → Older q (link q node tail next).1
link-Older q node tail none = (omega arith, (λ n lt. refl))
link-Older q node tail (some other) = same-Older q

advance-Older : (q : CasQueue) (l : Local) → Older q (advance q l).1
unfolding advance
advance-Older q (push_help node tail next) =
    if_cases (Older q) (q.tail == tail) (λ e. (omega arith, (λ n lt. refl))) (λ e. same-Older q)
advance-Older q (push_link node tail) = link-Older q node tail (q.next tail)
advance-Older q (push_swing node tail) =
    if_cases (Older q) (q.tail == tail) (λ e. (omega arith, (λ n lt. refl))) (λ e. same-Older q)
advance-Older q (pop_help tail next) =
    if_cases (Older q) (q.tail == tail) (λ e. (omega arith, (λ n lt. refl))) (λ e. same-Older q)
advance-Older q (pop_swing head next v) =
    if_cases (λ (r : Local × CasQueue × Effect). Older q r.1) (q.head == head)
      (λ e. (omega arith, (λ n lt. refl))) (λ e. same-Older q)
advance-Older q _ = same-Older q

perform-Older : (q : CasQueue) (l : Local) (e : Event) → Older q (perform q l e).1
perform-Older q (returned r) (calls_push v) = (
  omega arith,
  (λ node lt. update_other q.value q.allocated node (some v) (λ e. absurd (omega arith))),
)
perform-Older q (returned r) calls_pop = same-Older q
perform-Older q (returned r) goes_on = advance-Older q (returned r)
perform-Older q l e = advance-Older q l

Pushes-Older :
    (q r : CasQueue) (node : ℕ) (s : Status) → Older q r → Pushes q node s → Pushes r node s
Pushes-Older q r node (pushing v) (le, kept) (held, lt) = (kept node lt ∙ held, omega arith)
Pushes-Older q r node outside o m = m
Pushes-Older q r node has_pushed o m = m
Pushes-Older q r node popping o m = m

Matches-Older :
    (q r : CasQueue) (l : Local) (s : Status) → Older q r → Matches q l s → Matches r l s
Matches-Older q r (push_load_tail node) s o m = Pushes-Older q r node s o m
Matches-Older q r (push_load_next node tail) s o m = Pushes-Older q r node s o m
Matches-Older q r (push_check node tail next) s o m = Pushes-Older q r node s o m
Matches-Older q r (push_help node tail next) s o m = Pushes-Older q r node s o m
Matches-Older q r (push_link node tail) s o m = Pushes-Older q r node s o m
Matches-Older q r _ s o m = m

pub run-Explained :
    (es : List (ℕ × Event)) (w : World) (s : ℕ → Status)
    → ((i : ℕ) → Matches w.queue (w.locals i) (s i))
    → Explained w s es
unfolding step
run-Explained [] w s m = tt
run-Explained ((i, e) ∷ es) w s m =
    let r = perform w.queue (w.locals i) e in
    let after = settle w i r in
    let older = perform-Older w.queue (w.locals i) e in
    let (t, why, own) = perform-Goes w.queue (w.locals i) e (s i) (m i) in
    let all : (j : ℕ) → Matches r.1 (update w.locals i r.0 j) (update s i t j) = λ j.
      if_cases (λ l. Matches r.1 l (update s i t j)) (j == i)
        (λ same.
          if_cases (Matches r.1 r.0) (j == i) (λ e. own)
            (λ other. absurd (differ j i other (equal j i same))))
        (λ other.
          if_cases (Matches r.1 (w.locals j)) (j == i)
            (λ same. absurd (differ j i other (equal j i same)))
            (λ e. Matches-Older w.queue r.1 (w.locals j) (s j) older (m j))) in
    (
      t,
      subst (λ l. Explains (begun (w.locals i) e (s i)) r.2 l t) (sym (update_same w.locals i r.0))
          why,
      run-Explained es after.0 (update s i t) all,
    )
