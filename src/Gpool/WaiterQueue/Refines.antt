-- ===== src/Gpool/WaiterQueue/Refines.antt =====
-- The operations of gpool/waiter_queue.go on its linked list, against those of a plain list.
use mathlib.Core.Path.{fun_ext, subst₂}
use lgobase.Base.{
  ℕ, true, ◌+◌, ◌-◌, ◌≡◌, ◌≢◌, refl, sym, ap, ap₂, List, [], ◌∷◌, ◌++◌, Option, none, some, arith,
  length, length-append, subst, mem, erase, mem-erase_split,
}
use lgobase.Gpool.WaiterQueue.{Node, WaiterQueue, len, push_back, remove, pop_head, pop_front}
use lgobase.Gpool.WaiterQueue.Chain.{
  Places, update, Apart, Distinct, Chain, Chain-last, Chain-split, Chain-update_next,
  Chain-update_prev, Chain-unlink, Chain-link, Distinct-remove, Distinct-Apart, Distinct-concat,
  Apart-none, Apart-split, ne-last,
}

abbrev next_of : WaiterQueue → Places
next_of q none = q.head
next_of q (some w) = (q.node w).next

abbrev prev_of : WaiterQueue → Places
prev_of q none = q.tail
prev_of q (some w) = (q.node w).prev

-- The queue holds the waiters `xs`, oldest first.
pub record IsList (q : WaiterQueue) (xs : List ℕ) : Type 0 where
  pub chain : Chain (next_of q) (prev_of q) none xs none
  pub size_is : q.size ≡ length xs
  pub distinct : Distinct xs

next_of-push_back :
    (q : WaiterQueue) (w : ℕ) (t k : Option ℕ)
    → q.tail ≡ t
    → next_of (push_back q w) k ≡ update (update (next_of q) (some w) none) t (some w) k
unfolding push_back update
next_of-push_back q w none none e = ground arith
next_of-push_back q w none (some k) e = ground arith
next_of-push_back q w (some t) none e = ground arith
next_of-push_back q w (some t) (some k) e = ground arith

prev_of-push_back :
    (q : WaiterQueue) (w : ℕ) (t k : Option ℕ)
    → q.tail ≡ t
    → prev_of (push_back q w) k ≡ update (update (prev_of q) (some w) t) none (some w) k
unfolding push_back update
prev_of-push_back q w none none e = ground arith
prev_of-push_back q w none (some k) e = ground arith
prev_of-push_back q w (some t) none e = ground arith
prev_of-push_back q w (some t) (some k) e = ground arith

next_of-remove :
    (q : WaiterQueue) (w : ℕ) (p n k : Option ℕ)
    → (q.node w).prev ≡ p
    → (q.node w).next ≡ n
    → p ≢ some w
    → next_of (remove q w) k ≡ update (update (next_of q) p n) (some w) none k
unfolding remove update
next_of-remove q w none none none e e' ne = ground arith
next_of-remove q w none none (some k) e e' ne = ground arith
next_of-remove q w none (some n) none e e' ne = ground arith
next_of-remove q w none (some n) (some k) e e' ne = ground arith
next_of-remove q w (some p) none none e e' ne = ground arith
next_of-remove q w (some p) none (some k) e e' ne = ground arith
next_of-remove q w (some p) (some n) none e e' ne = ground arith
next_of-remove q w (some p) (some n) (some k) e e' ne = ground arith

prev_of-remove :
    (q : WaiterQueue) (w : ℕ) (p n k : Option ℕ)
    → (q.node w).prev ≡ p
    → (q.node w).next ≡ n
    → p ≢ some w
    → prev_of (remove q w) k ≡ update (update (prev_of q) n p) (some w) none k
unfolding remove update
prev_of-remove q w none none none e e' ne = ground arith
prev_of-remove q w none none (some k) e e' ne = ground arith
prev_of-remove q w none (some n) none e e' ne = ground arith
prev_of-remove q w none (some n) (some k) e e' ne = ground arith
prev_of-remove q w (some p) none none e e' ne = ground arith
prev_of-remove q w (some p) none (some k) e e' ne = ground arith
prev_of-remove q w (some p) (some n) none e e' ne = ground arith
prev_of-remove q w (some p) (some n) (some k) e e' ne = ground arith

size-remove : (q : WaiterQueue) (w : ℕ) → (remove q w).size ≡ q.size - 1
unfolding remove
size-remove q w = ground arith

size-push_back : (q : WaiterQueue) (w : ℕ) → (push_back q w).size ≡ q.size + 1
unfolding push_back
size-push_back q w = ground arith

-- Chains are read pointwise.
Chain-ext :
    (f f' g g' : Places) (a : Option ℕ) (xs : List ℕ) (b : Option ℕ)
    → ((k : Option ℕ) → f' k ≡ f k)
    → ((k : Option ℕ) → g' k ≡ g k)
    → Chain f g a xs b
    → Chain f' g' a xs b
Chain-ext f f' g g' a xs b e e' c =
    subst₂ (λ f g. Chain f g a xs b) (sym (fun_ext e)) (sym (fun_ext e')) c

pub push_back-IsList :
    (q : WaiterQueue) (xs : List ℕ) (w : ℕ)
    → IsList q xs
    → Apart (some w) xs
    → IsList (push_back q w) (xs ++ w ∷ [])
push_back-IsList q xs w l fresh = record {
  chain =
      Chain-ext _ _ _ _ none (xs ++ w ∷ []) none (λ k. next_of-push_back q w q.tail k refl)
        (λ k. prev_of-push_back q w q.tail k refl)
        (Chain-link (next_of q) (prev_of q) none xs w none (λ e. cc) (λ e. cc) (Apart-none xs)
          (Apart-none xs) fresh l.distinct l.chain);
  size_is = omega (arith, size-push_back q w, l.size_is, length-append xs (w ∷ []));
  distinct = Distinct-concat xs w fresh l.distinct;
}

pub remove-IsList :
    (q : WaiterQueue) (ys : List ℕ) (w : ℕ) (zs : List ℕ)
    → IsList q (ys ++ w ∷ zs)
    → IsList (remove q w) (ys ++ zs)
remove-IsList q ys w zs l =
    let (before, after) = Chain-split (next_of q) (prev_of q) none ys w zs none l.chain in
    let apart = Distinct-Apart ys w zs l.distinct in
    let behind : some w ≢ prev_of q (some w) =
      rw (Chain-last (next_of q) (prev_of q) none ys (some w) before)
        (ne-last (some w) none ys (λ e. cc) (Apart-split (some w) ys zs apart).0) in
    let linked =
      Chain-unlink (next_of q) (prev_of q) none ys w zs none (Apart-none (ys ++ w ∷ zs))
        (Apart-none (ys ++ w ∷ zs)) l.distinct before after in
    record {
      chain =
          Chain-ext _ _ _ _ none (ys ++ zs) none
            (λ k. next_of-remove q w _ _ k refl refl (λ e. behind (sym e)))
            (λ k. prev_of-remove q w _ _ k refl refl (λ e. behind (sym e)))
            (Chain-update_next _ _ (some w) none none (ys ++ zs) none (λ e. cc) apart
              (Chain-update_prev _ _ (some w) none none (ys ++ zs) none (λ e. cc) apart linked));
      size_is =
          omega (arith, size-remove q w, l.size_is, length-append ys zs, length-append ys (w ∷ zs));
      distinct = Distinct-remove ys w zs l.distinct;
    }

pub data Operation : Type 0 where
  pushes : ℕ → Operation
  pops : Operation
  removes : ℕ → Operation

pub linked : WaiterQueue → Operation → WaiterQueue × Option ℕ
linked q (pushes w) = (push_back q w, none)
linked q pops = pop_front q
linked q (removes w) = (remove q w, none)

-- The same operation on the list of the waiters, oldest first.
unfoldable pub listed : List ℕ → Operation → List ℕ × Option ℕ
listed xs (pushes w) = (xs ++ w ∷ [], none)
listed [] pops = ([], none)
listed (x ∷ xs) pops = (xs, some x)
listed xs (removes w) = (erase w xs, none)

-- A waiter is queued once, and only a queued waiter is removed.
abbrev pub Allowed : List ℕ → Operation → Type 0
Allowed xs (pushes w) = Apart (some w) xs
Allowed xs pops = Unit {0}
Allowed xs (removes w) = mem w xs ≡ true

pop_front-empty : (q : WaiterQueue) → q.head ≡ none → pop_front q ≡ (q, none)
unfolding pop_front
pop_front-empty q e = rw (e, pop_head)

pop_front-some : (q : WaiterQueue) (w : ℕ) → q.head ≡ some w → pop_front q ≡ (remove q w, some w)
unfolding pop_front
pop_front-some q w e = rw (e, pop_head)

linked-listed :
    (q : WaiterQueue) (xs : List ℕ) (o : Operation)
    → IsList q xs
    → Allowed xs o
    → IsList (linked q o).0 (listed xs o).0 × ((linked q o).1 ≡ (listed xs o).1)
unfolding linked listed
linked-listed q xs (pushes w) l a = (push_back-IsList q xs w l a, refl)
linked-listed q [] pops l a = rw (pop_front-empty q l.chain.0) (l, refl)
linked-listed q (x ∷ xs) pops l a =
    rw (pop_front-some q x l.chain.0) (remove-IsList q [] x xs l, refl)
linked-listed q xs (removes w) l a =
    let (ys, zs, e, e') = mem-erase_split w xs a in
    (subst (IsList (remove q w)) (sym e') (remove-IsList q ys w zs (subst (IsList q) e l)), refl)

pub linked_answers : WaiterQueue → List Operation → List (Option ℕ) × ℕ
linked_answers q [] = ([], len q)
linked_answers q (o ∷ os) =
    let (q', r) = linked q o in let (rs, n) = linked_answers q' os in (r ∷ rs, n)

pub listed_answers : List ℕ → List Operation → List (Option ℕ) × ℕ
listed_answers xs [] = ([], length xs)
listed_answers xs (o ∷ os) =
    let (xs', r) = listed xs o in let (rs, n) = listed_answers xs' os in (r ∷ rs, n)

abbrev pub AllowedRun : List ℕ → List Operation → Type 0
AllowedRun xs [] = Unit {0}
AllowedRun xs (o ∷ os) = Allowed xs o × AllowedRun (listed xs o).0 os

linked_answers-listed_answers :
    (q : WaiterQueue) (xs : List ℕ) (os : List Operation)
    → IsList q xs
    → AllowedRun xs os
    → linked_answers q os ≡ listed_answers xs os
unfolding linked_answers listed_answers
linked_answers-listed_answers q xs [] l a = ap (λ n. ([], n)) l.size_is
linked_answers-listed_answers q xs (o ∷ os) l a =
    let (l', e) = linked-listed q xs o l a.0 in
    let rest = linked_answers-listed_answers (linked q o).0 (listed xs o).0 os l' a.1 in
    ap₂ (λ r (p : List (Option ℕ) × ℕ). (r ∷ p.0, p.1)) e rest

-- The zero value of a `waiterQueue`, over any heap.
abbrev pub empty : (ℕ → Node) → WaiterQueue
empty node = record { node = node; head = none; tail = none; size = 0 }

-- From an empty queue, over whatever the link fields of the waiters held before, every sequence of
-- operations that queues a waiter at most once at a time and removes only queued waiters gives the
-- answers and the final length that the list of waiters gives: `PopFront` takes the oldest one,
-- `PushBack` adds the youngest, and `Remove` takes out the given one, wherever it stands.
pub empty-refines_list :
    (node : ℕ → Node) (os : List Operation)
    → AllowedRun [] os
    → linked_answers (empty node) os ≡ listed_answers [] os
empty-refines_list node os =
    linked_answers-listed_answers (empty node) [] os
      (record { chain = (refl, refl); size_is = refl; distinct = tt })
