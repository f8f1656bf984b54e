-- ===== src/CasQueue/Moves.antt =====
-- The contents of the queue of cas/queue.go, and what moving `Head` and `Tail` does to them.
use lgobase.Base.{
  ℕ, zero, suc, ◌+◌, ◌-◌, ◌≤◌, ◌<◌, ◌≡◌, ◌≢◌, refl, sym, ap, ◌∙◌, true, List, [], ◌∷◌, ◌++◌, Option,
  if_cases, arith, ◌==◌, ==_iff,
}
use lgobase.CasQueue.{
  CasQueue, Local, pop_load_head, pop_swing, Effect, no_effect, enqueues, dequeues, swap_tail,
  swing_head,
}
use lgobase.CasQueue.Order.{Ghost, IsOrdered, Unlinked, Succeeds, Fits, Grows}

-- The values from a place on.
unfoldable pub slice {ℓ} : {A : Type ℓ} → (ℕ → A) → ℕ → ℕ → List A
slice f start zero = []
slice f start (suc n) = f start ∷ slice f (suc start) n

pub slice-same {ℓ} :
    {A : Type ℓ} (f g : ℕ → A) (start n : ℕ)
    → ((k : ℕ) → start ≤ k → k < start + n → f k ≡ g k)
    → slice f start n ≡ slice g start n
unfolding slice
slice-same f g start zero h = refl
slice-same f g start (suc n) h =
    ap (λ x. x ∷ slice f (suc start) n) (h start (omega arith) (omega arith))
    ∙ ap (λ xs. g start ∷ xs)
        (slice-same f g (suc start) n (λ k le lt. h k (omega arith) (omega arith)))

pub slice_more {ℓ} :
    {A : Type ℓ} (f : ℕ → A) (start n : ℕ)
    → slice f start (suc n) ≡ slice f start n ++ f (start + n) ∷ []
unfolding slice
slice_more f start zero = ap (λ x. f x ∷ []) (omega arith)
slice_more f start (suc n) =
    ap (λ xs. f start ∷ xs) (slice_more f (suc start) n)
    ∙ ap (λ x. f start ∷ (slice f (suc start) n ++ f x ∷ [])) (omega arith)

-- The contents: the values of the items behind `Head`, in order.
abbrev pub contents : CasQueue → Ghost → List (Option ℕ)
contents q g = slice (λ k. q.value (g.item k)) (suc g.head_at) (g.count - suc g.head_at)

abbrev pub Changes : List (Option ℕ) → Effect → List (Option ℕ) → Type 0
Changes c no_effect d = c ≡ d
Changes c (enqueues v) d = d ≡ c ++ v ∷ []
Changes c (dequeues v) d = c ≡ v ∷ d

-- What an operation of goroutine i leaves.
abbrev pub Keeps : CasQueue → Ghost → ℕ → Local × CasQueue × Effect → Type 0
Keeps q g i (l, r, e) =
    (h : Ghost) × IsOrdered r h
    × Grows q g r h
    × ((j : ℕ) → j ≢ i → (node : ℕ) → Unlinked q g j node → Unlinked r h j node)
    × Fits r h i l
    × Changes (contents q g) e (contents r h)

pub equal : (a b : ℕ) → (a == b) ≡ true → a ≡ b
equal a b e = (==_iff a b).0 e

module _ (q : CasQueue) (g : Ghost) (i : ℕ) (o : IsOrdered q g) where
  same-Grows : Grows q g q g
  same-Grows = record {
    more = omega arith;
    head_on = omega arith;
    tail_on = omega arith;
    stays = λ k lt. refl;
    keeps = λ k lt. refl;
  }

  pub quiet : (l : Local) → Fits q g i l → Keeps q g i (l, q, no_effect)
  quiet l f = (g, o, same-Grows, (λ j ne node u. u), f, refl)

  abbrev pub further : Ghost
  further = record g { tail_at = suc g.tail_at }

  -- `Tail` moves to the next item, or stays.
  pub swap_tail-Keeps :
      (l : Local) (tail next : ℕ)
      → Succeeds g tail next
      → Fits q g i l
      → Fits (record q { tail = next }) further i l
      → Keeps q g i (l, swap_tail q tail next, no_effect)
  swap_tail-Keeps l tail next (k, le, e, lt, f) here there =
      if_cases (λ r. Keeps q g i (l, r, no_effect)) (q.tail == tail)
        (λ same.
          let place : k ≡ g.tail_at =
            o.apart k g.tail_at (omega arith) o.tail_linked
              (e ∙ sym (equal q.tail tail same) ∙ sym o.at_tail) in
          (
            further,
            record {
              head_first = omega (arith, o.head_first);
              tail_linked = omega arith;
              at_head = o.at_head;
              at_tail = ap (λ x. g.item (suc x)) (sym place) ∙ f;
              links = o.links;
              ends = o.ends;
              apart = o.apart;
              made = o.made;
            },
            record {
              more = omega arith;
              head_on = omega arith;
              tail_on = omega arith;
              stays = λ n h. refl;
              keeps = λ n h. refl;
            },
            (λ j ne node u. u),
            there,
            refl,
          ))
        (λ other. quiet l here)

  slice_first :
      g.head_at < g.tail_at
      → contents q g
        ≡ q.value (g.item (suc g.head_at)) ∷ contents q (record g { head_at = suc g.head_at })
  unfolding slice
  slice_first lt =
      ap (slice (λ k. q.value (g.item k)) (suc g.head_at)) (split (omega (arith, o.tail_linked)))
    where
      split :
          suc g.head_at < g.count → g.count - suc g.head_at ≡ suc (g.count - suc (suc g.head_at))
      split lt = omega arith

  -- `Head` moves to the next item, and its value is returned, or the call starts again.
  pub swing_head-Keeps :
      (head next : ℕ) (v : Option ℕ)
      → Fits q g i (pop_swing head next v)
      → Keeps q g i (swing_head q head next v)
  swing_head-Keeps head next v (j, e, lt, f, val) =
      if_cases (Keeps q g i) (q.head == head)
        (λ same.
          let place : j ≡ g.head_at =
            o.apart j g.head_at (omega (arith, o.tail_linked))
              (omega (arith, o.head_first, o.tail_linked))
              (e ∙ sym (equal q.head head same) ∙ sym o.at_head) in
          let first : v ≡ q.value (g.item (suc g.head_at)) =
            val ∙ ap q.value (sym f ∙ ap (λ x. g.item (suc x)) place) in
          (
            record g { head_at = suc g.head_at },
            record {
              head_first = omega (arith, place);
              tail_linked = o.tail_linked;
              at_head = ap (λ x. g.item (suc x)) (sym place) ∙ f;
              at_tail = o.at_tail;
              links = o.links;
              ends = o.ends;
              apart = o.apart;
              made = o.made;
            },
            record {
              more = omega arith;
              head_on = omega arith;
              tail_on = omega arith;
              stays = λ n h. refl;
              keeps = λ n h. refl;
            },
            (λ n ne node u. u),
            tt,
            slice_first (omega (arith, place))
                ∙ ap (λ x. x ∷ contents q (record g { head_at = suc g.head_at })) (sym first),
          ))
        (λ other. quiet pop_load_head tt)
