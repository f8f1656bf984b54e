-- ===== src/Gpool/IdleQueue/Deque.antt =====
-- What gpool/idle_queue.go promises: a double-ended queue of bounded length, oldest first.
use lgobase.Base.{
  ℕ, ◌<◌, ◌≡◌, refl, sym, ap, ap₂, subst, ◌∙◌, Bool, true, false, inl, inr, List, [], ◌∷◌, ◌++◌,
  Option, none, some, arith, length, length-replicate, split_last, split_last_lem, ◌==◌,
  if◌then◌else◌, Bool-cases,
}
use lgobase.Base.Int.{ℤ, pos, negsuc, pos_part, ltb_ℤ}
use lgobase.Gpool.IdleQueue.{IdleQueue, new_idle_queue, push, pop, pop_newest}
use lgobase.Gpool.IdleQueue.Ring.{
  Holds, new-Holds, push-Holds, pop-Holds, pop_newest-Holds, push-full, pop-empty, pop_newest-empty,
  push_room, length-push, length-pop, length-pop_newest,
}

pub data Operation {ℓ} (A : Type ℓ) : Type ℓ where
  pushes : A → Operation A
  pops : Operation A
  pops_newest : Operation A

pub data Answer {ℓ} (A : Type ℓ) : Type ℓ where
  pushed : Bool → Answer A
  popped : Option A → Answer A

pub length-new {ℓ} :
    (A : Type ℓ) (capacity : ℤ) → length (new_idle_queue {A = A} capacity).items ≡ pos_part capacity
unfolding new_idle_queue
length-new A (pos n) =
    let e : ltb_ℤ (pos n) (pos 0) ≡ false = ground arith in rw e (length-replicate n none)
length-new A (negsuc n) = let e : ltb_ℤ (negsuc n) (pos 0) ≡ true = ground arith in rw e

module _ {ℓ} {A : Type ℓ} where
  -- One operation of the bounded queue of at most `c` elements.
  pub deque : ℕ → List A → Operation A → List A × Answer A
  deque c xs (pushes a) = if length xs == c then (xs, pushed false) else (xs ++ a ∷ [], pushed true)
  deque c [] pops = ([], popped none)
  deque c (x ∷ xs) pops = (xs, popped (some x))
  deque c [] pops_newest = ([], popped none)
  deque c (x ∷ xs) pops_newest = let (rest, last) = split_last x xs in (rest, popped (some last))

  pub ring : IdleQueue A → Operation A → IdleQueue A × Answer A
  ring q (pushes a) = let (q', ok) = push q (some a) in (q', pushed ok)
  ring q pops = let (q', pc) = pop q in (q', popped pc)
  ring q pops_newest = let (q', pc) = pop_newest q in (q', popped pc)

  pub deque_answers : ℕ → List A → List (Operation A) → List (Answer A)
  deque_answers c xs [] = []
  deque_answers c xs (o ∷ os) = let (xs', r) = deque c xs o in r ∷ deque_answers c xs' os

  pub ring_answers : IdleQueue A → List (Operation A) → List (Answer A)
  ring_answers q [] = []
  ring_answers q (o ∷ os) = let (q', r) = ring q o in r ∷ ring_answers q' os

  ring-deque :
      (q : IdleQueue A) (xs : List A) (o : Operation A)
      → Holds q xs
      → Holds (ring q o).0 (deque (length q.items) xs o).0
        × ((ring q o).1 ≡ (deque (length q.items) xs o).1)
        × (length (ring q o).0.items ≡ length q.items)
  unfolding ring deque
  ring-deque q xs (pushes a) h = elim (Bool-cases (length xs == length q.items)) [
    | inl full ↦ rw (full, push-full q a (ground (arith, h.size_is))) (h, refl, refl)
    | inr room ↦
        let lt : q.size < length q.items = ground (arith, h.size_is, h.fits) in
        rw room (push-Holds q xs a h lt, ap pushed (push_room q a lt), length-push q (some a))
  ]
  ring-deque q [] pops h = rw (pop-empty q h.size_is) (h, refl, refl)
  ring-deque q (x ∷ xs) pops h = let (h', e) = pop-Holds q x xs h in (h', ap popped e, length-pop q)
  ring-deque q [] pops_newest h = rw (pop_newest-empty q h.size_is) (h, refl, refl)
  ring-deque q (x ∷ xs) pops_newest h =
      let (rest, last) = split_last x xs in
      let (h', e) = pop_newest-Holds q rest last (subst (Holds q) (sym (split_last_lem x xs)) h) in
      (h', ap popped e, length-pop_newest q)

  ring_answers-deque_answers :
      (q : IdleQueue A) (xs : List A) (os : List (Operation A))
      → Holds q xs
      → ring_answers q os ≡ deque_answers (length q.items) xs os
  unfolding ring_answers deque_answers
  ring_answers-deque_answers q xs [] h = refl
  ring_answers-deque_answers q xs (o ∷ os) h =
      let (h', e, l) = ring-deque q xs o h in
      ap₂ ◌∷◌ e (
        ring_answers-deque_answers (ring q o).0 (deque (length q.items) xs o).0 os h'
        ∙ ap (λ c. deque_answers c (deque (length q.items) xs o).0 os) l)

  -- A new ring answers every sequence of pushes, pops and newest-first pops as a double-ended queue
  -- that holds at most `capacity` elements does (none, when `capacity` is negative): a push is
  -- refused exactly when the queue is full, a pop gives the oldest element and a newest-first pop
  -- the latest, and neither gives one exactly when the queue is empty.
  pub new-refines_deque :
      (capacity : ℤ) (os : List (Operation A))
      → ring_answers (new_idle_queue capacity) os ≡ deque_answers (pos_part capacity) [] os
  new-refines_deque capacity os =
      ring_answers-deque_answers (new_idle_queue capacity) [] os (new-Holds capacity)
      ∙ rw (length-new A capacity)
