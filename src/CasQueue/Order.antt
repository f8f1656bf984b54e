-- ===== src/CasQueue/Order.antt =====
-- The items of cas/queue.go in the order in which they were linked.
use lgobase.Base.{
  ℕ, suc, ◌≤◌, ◌<◌, ◌≡◌, ◌≢◌, ◌⊎◌, inl, inr, sym, ap, ◌∙◌, subst, Option, none, some, arith,
}
use lgobase.CasQueue.{
  CasQueue, Local, returned, push_load_tail, push_load_next, push_check, push_help, push_link,
  push_swing, pop_load_head, pop_load_tail, pop_load_next, pop_check, pop_help, pop_swing, panicked,
}

-- The linked items by their places, how many there are, the places of `Head` and of `Tail`, and the
-- goroutine that made an item.
pub record Ghost : Type 0 where
  pub item : ℕ → ℕ
  pub count : ℕ
  pub head_at : ℕ
  pub tail_at : ℕ
  pub owner : ℕ → ℕ

pub record IsOrdered (q : CasQueue) (g : Ghost) : Type 0 where
  pub head_first : g.head_at ≤ g.tail_at
  pub tail_linked : g.tail_at < g.count
  pub at_head : g.item g.head_at ≡ q.head
  pub at_tail : g.item g.tail_at ≡ q.tail
  pub links : (k : ℕ) → suc k < g.count → q.next (g.item k) ≡ some (g.item (suc k))
  pub ends : (k : ℕ) → suc k ≡ g.count → q.next (g.item k) ≡ none
  pub apart : (j k : ℕ) → j < g.count → k < g.count → g.item j ≡ g.item k → j ≡ k
  pub made : (k : ℕ) → k < g.count → g.item k < q.allocated

-- An item that goroutine i made and has not linked.
abbrev pub Unlinked : CasQueue → Ghost → ℕ → ℕ → Type 0
Unlinked q g i node =
    (node < q.allocated)
    × (g.owner node ≡ i)
    × ((k : ℕ) → k < g.count → g.item k ≢ node)
    × (q.next node ≡ none)

-- What `next` of the item at a place was once.
abbrev pub Seen : Ghost → ℕ → Option ℕ → Type 0
Seen g k next = (next ≡ none) ⊎ ((suc k < g.count) × (next ≡ some (g.item (suc k))))

-- An item up to `Tail`, and its successor.
abbrev pub Placed : Ghost → ℕ → Type 0
Placed g tail = (k : ℕ) × (k ≤ g.tail_at) × (g.item k ≡ tail)

abbrev pub Succeeds : Ghost → ℕ → ℕ → Type 0
Succeeds g tail next =
    (k : ℕ) × (k ≤ g.tail_at) × (g.item k ≡ tail) × (suc k < g.count) × (g.item (suc k) ≡ next)

abbrev pub Span : Ghost → ℕ → ℕ → ℕ → ℕ → Type 0
Span g head tail j k =
    (j ≤ g.head_at) × (j ≤ k) × (k ≤ g.tail_at) × (g.item j ≡ head) × (g.item k ≡ tail)

-- What the local variables of a goroutine in a call are.
abbrev pub Fits : CasQueue → Ghost → ℕ → Local → Type 0
Fits q g i (returned r) = Unit {0}
Fits q g i (push_load_tail node) = Unlinked q g i node
Fits q g i (push_load_next node tail) = Unlinked q g i node × Placed g tail
Fits q g i (push_check node tail next) =
    Unlinked q g i node × ((k : ℕ) × (k ≤ g.tail_at) × (g.item k ≡ tail) × Seen g k next)
Fits q g i (push_help node tail next) = Unlinked q g i node × Succeeds g tail next
Fits q g i (push_link node tail) = Unlinked q g i node × Placed g tail
Fits q g i (push_swing node tail) = Succeeds g tail node
Fits q g i pop_load_head = Unit {0}
Fits q g i (pop_load_tail head) = (j : ℕ) × (j ≤ g.head_at) × (g.item j ≡ head)
Fits q g i (pop_load_next head tail) = (j : ℕ) × (k : ℕ) × Span g head tail j k
Fits q g i (pop_check head tail next) =
    (j : ℕ) × (k : ℕ) × Span g head tail j k × Seen g j next × (next ≡ none → j ≡ k)
Fits q g i (pop_help tail next) = Succeeds g tail next
Fits q g i (pop_swing head next v) =
    (j : ℕ) × (g.item j ≡ head) × (j < g.tail_at) × (g.item (suc j) ≡ next) × (v ≡ q.value next)
Fits q g i panicked = ⊥

-- A later state of the queue: nothing that was linked moves, and what was read stays true.
pub record Grows (q : CasQueue) (g : Ghost) (r : CasQueue) (h : Ghost) : Type 0 where
  pub more : g.count ≤ h.count
  pub head_on : g.head_at ≤ h.head_at
  pub tail_on : g.tail_at ≤ h.tail_at
  pub stays : (k : ℕ) → k < g.count → h.item k ≡ g.item k
  pub keeps : (k : ℕ) → k < g.count → r.value (g.item k) ≡ q.value (g.item k)

module _ (q : CasQueue) (g : Ghost) (r : CasQueue) (h : Ghost) (o : IsOrdered q g)
    (grows : Grows q g r h) where
  stay : (k x : ℕ) → k < g.count → g.item k ≡ x → h.item k ≡ x
  stay k x lt e = grows.stays k lt ∙ e

  Seen-Grows : (k : ℕ) (next : Option ℕ) → Seen g k next → Seen h k next
  Seen-Grows k next (inl e) = inl e
  Seen-Grows k next (inr (lt, e)) =
      inr (omega (arith, grows.more), e ∙ ap some (sym (grows.stays (suc k) lt)))

  Placed-Grows : (tail : ℕ) → Placed g tail → Placed h tail
  Placed-Grows tail (k, le, e) =
      (k, omega (arith, grows.tail_on), stay k tail (omega (arith, o.tail_linked)) e)

  Succeeds-Grows : (tail next : ℕ) → Succeeds g tail next → Succeeds h tail next
  Succeeds-Grows tail next (k, le, e, lt, f) = (
    k,
    omega (arith, grows.tail_on),
    stay k tail (omega arith) e,
    omega (arith, grows.more),
    stay (suc k) next lt f,
  )

  Span-Grows : (head tail j k : ℕ) → Span g head tail j k → Span h head tail j k
  Span-Grows head tail j k (le, lt, top, e, f) = (
    omega (arith, grows.head_on),
    lt,
    omega (arith, grows.tail_on),
    stay j head (omega (arith, o.tail_linked)) e,
    stay k tail (omega (arith, o.tail_linked)) f,
  )

  -- What a goroutine knows stays true of a later state, if its item is still unlinked.
  pub Fits-Grows :
      (i : ℕ) (l : Local)
      → ((node : ℕ) → Unlinked q g i node → Unlinked r h i node)
      → Fits q g i l
      → Fits r h i l
  Fits-Grows i (returned x) own f = tt
  Fits-Grows i (push_load_tail node) own f = own node f
  Fits-Grows i (push_load_next node tail) own (u, p) = (own node u, Placed-Grows tail p)
  Fits-Grows i (push_check node tail next) own (u, (k, le, e, s)) = (
    own node u,
    (
      k,
      omega (arith, grows.tail_on),
      stay k tail (omega (arith, o.tail_linked)) e,
      Seen-Grows k next s,
    ),
  )
  Fits-Grows i (push_help node tail next) own (u, s) = (own node u, Succeeds-Grows tail next s)
  Fits-Grows i (push_link node tail) own (u, p) = (own node u, Placed-Grows tail p)
  Fits-Grows i (push_swing node tail) own s = Succeeds-Grows tail node s
  Fits-Grows i pop_load_head own f = tt
  Fits-Grows i (pop_load_tail head) own (j, le, e) =
      (j, omega (arith, grows.head_on), stay j head (omega (arith, o.head_first, o.tail_linked)) e)
  Fits-Grows i (pop_load_next head tail) own (j, k, s) = (j, k, Span-Grows head tail j k s)
  Fits-Grows i (pop_check head tail next) own (j, k, s, seen, end) =
      (j, k, Span-Grows head tail j k s, Seen-Grows j next seen, end)
  Fits-Grows i (pop_help tail next) own s = Succeeds-Grows tail next s
  Fits-Grows i (pop_swing head next v) own (j, e, lt, f, val) = (
    j,
    stay j head (omega (arith, o.tail_linked)) e,
    omega (arith, grows.tail_on),
    stay (suc j) next (omega (arith, o.tail_linked)) f,
    val
        ∙ sym (
            subst (λ x. r.value x ≡ q.value x) f
              (grows.keeps (suc j) (omega (arith, o.tail_linked)))),
  )
  Fits-Grows i panicked own f = f
