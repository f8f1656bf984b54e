-- ===== src/Tests/Queue.antt =====
-- A run of the lock-free queue, with its theorems at that run.
use lgobase.Base.{ℕ, suc, ◌≡◌, ◌≢◌, refl, arith, List, [], ◌∷◌, Option, some, length}
use lgobase.CasQueue.{
  Event, calls_push, calls_pop, goes_on, World, fresh, run, step, advance, panicked, pop_load_next,
  returned, nothing_left, print,
}
use lgobase.CasQueue.Calls.{outside, Explained}
use lgobase.CasQueue.Empty
use lgobase.CasQueue.Empty.{OfOthers}
use lgobase.CasQueue.Fifo
use lgobase.CasQueue.Fifo.{Replays, Behind}

-- Two goroutines push at once; the second one helps the first, and a third one pops.
abbrev interleaved : List (ℕ × Event)
interleaved =
    (0, calls_push 7)
    ∷ (1, calls_push 8)
    ∷ (0, goes_on)
    ∷ (1, goes_on)
    ∷ (0, goes_on)
    ∷ (1, goes_on)
    ∷ (0, goes_on)
    ∷ (0, goes_on)
    ∷ (1, goes_on)
    ∷ (1, goes_on)
    ∷ (1, goes_on)
    ∷ (1, goes_on)
    ∷ (1, goes_on)
    ∷ (1, goes_on)
    ∷ (1, goes_on)
    ∷ (1, goes_on)
    ∷ (1, goes_on)
    ∷ (1, goes_on)
    ∷ (2, calls_pop)
    ∷ (2, goes_on)
    ∷ (2, goes_on)
    ∷ (2, goes_on)
    ∷ (2, goes_on)
    ∷ (2, goes_on)
    ∷ []

abbrev final : World
final = (run fresh interleaved).0

final-Behind : Behind final.queue final.queue.head (some 8 ∷ [])
unfolding run step advance
final-Behind = (2, refl, refl, refl)

run-fifo_example :
    ((c : List (Option ℕ)) × Behind final.queue final.queue.head c
      × Replays [] (run fresh interleaved).1 c)
    × Explained fresh (λ i. outside) interleaved
run-fifo_example = Fifo.run-fifo interleaved

run-never_panics_example : final.locals 2 ≢ panicked
run-never_panics_example = Fifo.run-never_panics interleaved 2

print-counts_example :
    (c : List (Option ℕ)) × Replays [] (run fresh interleaved).1 c
    × (print (suc (length c)) final.queue ≡ some (length c))
print-counts_example = Fifo.print-counts interleaved

-- A goroutine that pops an empty queue is overtaken by one that pushes.
abbrev reading : List (ℕ × Event)
reading = (2, calls_pop) ∷ (2, goes_on) ∷ (2, goes_on) ∷ []

abbrev pushing : List (ℕ × Event)
pushing =
    (0, calls_push 7)
    ∷ (0, goes_on)
    ∷ (0, goes_on)
    ∷ (0, goes_on)
    ∷ (0, goes_on)
    ∷ (0, goes_on)
    ∷ []

in_front_of_next : (run fresh reading).0.locals 2 ≡ pop_load_next 0 0
unfolding run step advance
in_front_of_next = refl

says_nothing :
    (step (run (run fresh reading).0 ((2, goes_on) ∷ pushing)).0 (2, goes_on)).0.locals 2
    ≡ returned (some nothing_left)
unfolding run step advance
says_nothing = refl

two≢zero : ◌≢◌ {A = ℕ} 2 0
two≢zero e = absurd (omega arith)

pushing-OfOthers : OfOthers 2 pushing
pushing-OfOthers = (two≢zero, (two≢zero, (two≢zero, (two≢zero, (two≢zero, (two≢zero, tt))))))

pop_front-nothing_left_example :
    Behind (run fresh reading).0.queue (run fresh reading).0.queue.head []
pop_front-nothing_left_example =
    Empty.pop_front-nothing_left reading pushing 2 0 0 in_front_of_next pushing-OfOthers
      says_nothing
