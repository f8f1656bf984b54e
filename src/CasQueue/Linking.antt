-- ===== src/CasQueue/Linking.antt =====
-- What linking an item does to the queue of cas/queue.go.
use lgobase.Base.{
  ℕ, suc, ◌+◌, ◌-◌, ◌<◌, ◌≡◌, ◌≢◌, ◌⊎◌, inl, inr, refl, sym, ap, ◌∙◌, [], ◌∷◌, ◌++◌, Option, none,
  some, if_cases, arith, ◌==◌, ==_iff,
}
use lgobase.CasQueue.{update, CasQueue}
use lgobase.CasQueue.Order.{Ghost, IsOrdered, Unlinked, Grows}
use lgobase.CasQueue.Moves.{slice, slice-same, slice_more, contents, equal}

pub update_same {ℓ} : {A : Type ℓ} (f : ℕ → A) (i : ℕ) (a : A) → update f i a i ≡ a
update_same f i a = rw ((==_iff i i).1 refl) refl

pub update_other {ℓ} : {A : Type ℓ} (f : ℕ → A) (i j : ℕ) (a : A) → j ≢ i → update f i a j ≡ f j
update_other f i j a ne =
    if_cases (λ x. x ≡ f j) (j == i) (λ e. absurd (ne (equal j i e))) (λ e. refl)

pub below : (n c : ℕ) → n < suc c → (n < c) ⊎ (n ≡ c)
below n c lt = ground arith

-- The last item is the one behind which nothing is linked.
pub last_place :
    (q : CasQueue) (g : Ghost) (k : ℕ)
    → IsOrdered q g
    → k < g.count
    → q.next (g.item k) ≡ none
    → suc k ≡ g.count
last_place q g k o lt e = elim (below (suc k) g.count (omega arith)) [
  | inl more ↦ absurd (no_link (q.next (g.item k)) (g.item (suc k)) e (o.links k more))
  | inr done ↦ done
]
  where
    no_link : (x : Option ℕ) (y : ℕ) → x ≡ none → x ≡ some y → ⊥
    no_link none y e f = cc
    no_link (some x) y e f = cc

module _ (q : CasQueue) (g : Ghost) (i : ℕ) (o : IsOrdered q g) (node : ℕ) (u : Unlinked q g i node)
    (k : ℕ) (last : suc k ≡ g.count) where
  abbrev pub linked : CasQueue
  linked = record q { next = update q.next (g.item k) (some node) }

  abbrev pub longer : Ghost
  longer = record g { item = update g.item g.count node; count = suc g.count }

  pub old_item : (n : ℕ) → n < g.count → longer.item n ≡ g.item n
  old_item n lt = update_other g.item g.count n node (λ e. absurd (omega arith))

  pub new_item : longer.item g.count ≡ node
  new_item = update_same g.item g.count node

  not_last : (x : ℕ) → x ≢ g.item k → linked.next x ≡ q.next x
  not_last x ne = update_other q.next (g.item k) x (some node) ne

  linked_links :
      (n : ℕ) → suc n < suc g.count → linked.next (longer.item n) ≡ some (longer.item (suc n))
  linked_links n lt = ap linked.next (old_item n (omega arith)) ∙ (elim (below (suc n) g.count lt) [
    | inl more ↦
        not_last (g.item n) (λ e. absurd (omega (arith, o.apart n k (omega arith) (omega arith) e)))
        ∙ o.links n more
        ∙ ap some (sym (old_item (suc n) more))
    | inr done ↦
        ap (λ x. linked.next (g.item x)) (at_last n done)
        ∙ update_same q.next (g.item k) (some node)
        ∙ ap some (sym new_item ∙ ap longer.item (sym done))
  ])
    where
      at_last : (n : ℕ) → suc n ≡ g.count → n ≡ k
      at_last n done = omega arith

  linked_ends : (n : ℕ) → suc n ≡ suc g.count → linked.next (longer.item n) ≡ none
  linked_ends n e =
      ap (λ x. linked.next (longer.item x)) (at_end n e)
      ∙ ap linked.next new_item
      ∙ not_last node (λ same. u.2 k (omega arith) (sym same))
      ∙ u.3
    where
      at_end : (n : ℕ) → suc n ≡ suc g.count → n ≡ g.count
      at_end n e = omega arith

  linked_apart :
      (a b : ℕ) → a < suc g.count → b < suc g.count → longer.item a ≡ longer.item b → a ≡ b
  linked_apart a b ha hb e = elim (below a g.count ha) [
    | inl la ↦ elim (below b g.count hb) [
      | inl lb ↦ o.apart a b la lb (sym (old_item a la) ∙ e ∙ old_item b lb)
      | inr eb ↦ absurd (u.2 a la (sym (old_item a la) ∙ e ∙ ap longer.item eb ∙ new_item))
    ]
    | inr ea ↦ elim (below b g.count hb) [
      | inl lb ↦ absurd (u.2 b lb (sym (old_item b lb) ∙ sym e ∙ ap longer.item ea ∙ new_item))
      | inr eb ↦ ea ∙ sym eb
    ]
  ]

  linked_made : (n : ℕ) → n < suc g.count → longer.item n < q.allocated
  linked_made n lt = elim (below n g.count lt) [
    | inl less ↦ omega (arith, old_item n less, o.made n less)
    | inr same ↦ omega (arith, ap longer.item same, new_item, u.0)
  ]

  pub linked-IsOrdered : IsOrdered linked longer
  linked-IsOrdered = record {
    head_first = o.head_first;
    tail_linked = omega (arith, o.tail_linked);
    at_head = old_item g.head_at (omega (arith, o.head_first, o.tail_linked)) ∙ o.at_head;
    at_tail = old_item g.tail_at o.tail_linked ∙ o.at_tail;
    links = linked_links;
    ends = linked_ends;
    apart = linked_apart;
    made = linked_made;
  }

  pub linked-Grows : Grows q g linked longer
  linked-Grows = record {
    more = omega arith;
    head_on = omega arith;
    tail_on = omega arith;
    stays = old_item;
    keeps = λ n lt. refl;
  }

  -- The items of the other goroutines stay unlinked.
  pub linked-Unlinked : (j : ℕ) → j ≢ i → (x : ℕ) → Unlinked q g j x → Unlinked linked longer j x
  linked-Unlinked j ne x w = (
    w.0,
    w.1,
    (λ n lt. elim (below n g.count lt) [
      | inl less ↦ (λ e. w.2 n less (sym (old_item n less) ∙ e))
      | inr same ↦ (λ e. ne (sym w.1 ∙ ap g.owner (sym e ∙ ap longer.item same ∙ new_item) ∙ u.1))
    ]),
    not_last x (λ e. w.2 k (omega arith) (sym e)) ∙ w.3,
  )

  pub linked-contents : contents linked longer ≡ contents q g ++ q.value node ∷ []
  unfolding slice
  linked-contents =
      ap (slice (λ n. q.value (longer.item n)) (suc g.head_at)) (one_more)
      ∙ slice_more (λ n. q.value (longer.item n)) (suc g.head_at) (g.count - suc g.head_at)
      ∙ ap (λ xs. xs ++ q.value (longer.item (suc g.head_at + (g.count - suc g.head_at))) ∷ [])
          (slice-same (λ n. q.value (longer.item n)) (λ n. q.value (g.item n)) (suc g.head_at)
            (g.count - suc g.head_at) (λ n le lt. ap q.value (old_item n (omega arith))))
      ∙ ap (λ x. contents q g ++ q.value x ∷ []) (ap longer.item at_count ∙ new_item)
    where
      one_more : suc g.count - suc g.head_at ≡ suc (g.count - suc g.head_at)
      one_more = omega (arith, o.head_first, o.tail_linked)

      at_count : suc g.head_at + (g.count - suc g.head_at) ≡ g.count
      at_count = omega (arith, o.head_first, o.tail_linked)
