-- ===== src/CasQueue/Fifo.antt =====
-- Every interleaving of calls of the queue of cas/queue.go is a run of a first-in first-out queue.
use lgobase.Base.{
  ℕ, zero, suc, ◌+◌, ◌-◌, ◌≡◌, ◌≢◌, refl, sym, subst, List, [], ◌∷◌, ◌++◌, length, Option, none,
  some, if_cases, arith, ◌==◌,
}
use lgobase.CasQueue.{
  update, CasQueue, Local, panicked, Effect, no_effect, enqueues, dequeues, perform, Event, World,
  fresh, settle, step, run, print_from, print,
}
use lgobase.CasQueue.Order.{Ghost, IsOrdered, Fits, Grows, Fits-Grows}
use lgobase.CasQueue.Moves.{slice, contents, Changes, Keeps, equal}
use lgobase.CasQueue.Calls.{outside, Explained, run-Explained}
use lgobase.CasQueue.Advance.{perform-Keeps, differ}

-- A first-in first-out queue that holds c in front of the effects, and d behind them.
abbrev pub Replays : List (Option ℕ) → List Effect → List (Option ℕ) → Type 0
Replays c [] d = c ≡ d
Replays c (no_effect ∷ es) d = Replays c es d
Replays c (enqueues v ∷ es) d = Replays (c ++ v ∷ []) es d
Replays c (dequeues v ∷ es) d = (rest : List (Option ℕ)) × (c ≡ v ∷ rest) × Replays rest es d

-- The values that stand behind an item, as its links say.
abbrev pub Behind : CasQueue → ℕ → List (Option ℕ) → Type 0
Behind q i [] = q.next i ≡ none
Behind q i (v ∷ vs) = (j : ℕ) × (q.next i ≡ some j) × (q.value j ≡ v) × Behind q j vs

abbrev pub Holds : World → Ghost → Type 0
Holds w g = IsOrdered w.queue g × ((i : ℕ) → Fits w.queue g i (w.locals i))

Changes-Replays :
    (c d : List (Option ℕ)) (e : Effect) (es : List Effect) (z : List (Option ℕ))
    → Changes c e d
    → Replays d es z
    → Replays c (e ∷ es) z
Changes-Replays c d no_effect es z h r = subst (λ x. Replays x es z) (sym h) r
Changes-Replays c d (enqueues v) es z h r = subst (λ x. Replays x es z) h r
Changes-Replays c d (dequeues v) es z h r = (d, h, r)

pub settle-Holds :
    (w : World) (g : Ghost) (i : ℕ) (r : Local × CasQueue × Effect)
    → Holds w g
    → Keeps w.queue g i r
    → (h : Ghost) × Holds (settle w i r).0 h
      × Changes (contents w.queue g) (settle w i r).1 (contents (settle w i r).0.queue h)
      × Grows w.queue g (settle w i r).0.queue h
settle-Holds w g i (l, q, e) (o, fits) (h, ordered, grows, others, own, changes) =
    (h, (ordered, all), changes, grows)
  where
    all : (j : ℕ) → Fits q h j (update w.locals i l j)
    all j =
        if_cases (Fits q h j) (j == i)
          (λ same. subst (λ x. Fits q h x l) (sym (equal j i same)) own)
          (λ other.
            Fits-Grows w.queue g q h o grows j (w.locals j) (others j (differ j i other)) (fits j))

pub run-Replays :
    (es : List (ℕ × Event)) (w : World) (g : Ghost)
    → Holds w g
    → (h : Ghost) × Holds (run w es).0 h
      × Replays (contents w.queue g) (run w es).1 (contents (run w es).0.queue h)
unfolding run step
run-Replays [] w g k = (g, k, refl)
run-Replays ((i, e) ∷ es) w g k =
    let (h, m, c, grows) =
      settle-Holds w g i (perform w.queue (w.locals i) e) k
        (perform-Keeps w.queue g i k.0 (w.locals i) e (k.1 i)) in
    let next = settle w i (perform w.queue (w.locals i) e) in
    let (z, n, r) = run-Replays es next.0 h m in
    (
      z,
      n,
      Changes-Replays (contents w.queue g) (contents next.0.queue h) next.1 (run next.0 es).1 _ c r,
    )

abbrev pub first : Ghost
first = record { item = λ k. 0; count = 1; head_at = 0; tail_at = 0; owner = λ k. 0 }

pub fresh-Holds : Holds fresh first
fresh-Holds = (
  record {
    head_first = omega arith;
    tail_linked = omega arith;
    at_head = refl;
    at_tail = refl;
    links = λ k lt. absurd (omega arith);
    ends = λ k e. refl;
    apart = λ j k hj hk e. omega arith;
    made = λ k lt. omega arith;
  },
  (λ i. tt),
)

slice-Behind :
    (q : CasQueue) (g : Ghost) (k n : ℕ)
    → IsOrdered q g
    → suc k + n ≡ g.count
    → Behind q (g.item k) (slice (λ j. q.value (g.item j)) (suc k) n)
unfolding slice
slice-Behind q g k zero o e = o.ends k (omega arith)
slice-Behind q g k (suc n) o e =
    (g.item (suc k), o.links k (omega arith), refl, slice-Behind q g (suc k) n o (omega arith))

contents-Behind : (q : CasQueue) (g : Ghost) → IsOrdered q g → Behind q q.head (contents q g)
contents-Behind q g o =
    subst (λ x. Behind q x (contents q g)) o.at_head
      (slice-Behind q g g.head_at (g.count - suc g.head_at) o
        (omega (arith, o.head_first, o.tail_linked)))

-- After every interleaving of the atomic operations of any number of calls of `PushBack` and
-- `PopFront`, the values behind `Head`, link by link, are what a first-in first-out queue holds to which
-- the linked values were given, in order, and from which the values taken were taken, in order, so that
-- a value that is taken was the oldest one. And these are the values of the calls: every `PushBack`
-- links the value that it was called with, exactly once and before it returns, every `PopFront` that
-- returns a value returns the value that it takes, every other `PopFront` that returns takes none, and
-- nothing else changes what the queue holds.
pub run-fifo :
    (es : List (ℕ × Event))
    → let w = (run fresh es).0 in
      ((c : List (Option ℕ)) × Behind w.queue w.queue.head c × Replays [] (run fresh es).1 c)
      × Explained fresh (λ i. outside) es
unfolding slice
run-fifo es =
    let (h, (o, fits), r) = run-Replays es fresh first fresh-Holds in
    let q = (run fresh es).0.queue in
    ((contents q h, contents-Behind q h o, r), run-Explained es fresh (λ i. outside) (λ i. tt))

Fits-sound : (q : CasQueue) (g : Ghost) (i : ℕ) (l : Local) → Fits q g i l → l ≢ panicked
Fits-sound q g i l f e = subst (Fits q g i) e f

-- In no interleaving does `PopFront` follow a link that is nil.
pub run-never_panics : (es : List (ℕ × Event)) (i : ℕ) → (run fresh es).0.locals i ≢ panicked
run-never_panics es i =
    let (h, (o, fits), r) = run-Replays es fresh first fresh-Holds in
    Fits-sound (run fresh es).0.queue h i ((run fresh es).0.locals i) (fits i)

print_from-Behind :
    (q : CasQueue) (i : ℕ) (c : List (Option ℕ))
    → Behind q i c
    → print_from (suc (length c)) q i ≡ some (length c)
unfolding print_from
print_from-Behind q i [] h = rw h refl
print_from-Behind q i (v ∷ c) (j, e, f, h) = rw (e, print_from-Behind q j c h) refl

-- `Print`, run while no goroutine writes, ends, and counts the values that the first-in first-out queue
-- holds then, which is after every interleaving.
pub print-counts :
    (es : List (ℕ × Event))
    → let w = (run fresh es).0 in
      (c : List (Option ℕ)) × Replays [] (run fresh es).1 c
      × (print (suc (length c)) w.queue ≡ some (length c))
unfolding print
print-counts es =
    let ((c, behind, r), why) = run-fifo es in
    let q = (run fresh es).0.queue in (c, r, print_from-Behind q q.head c behind)
