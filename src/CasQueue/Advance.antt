-- ===== src/CasQueue/Advance.antt =====
-- What an operation of a goroutine on the queue of cas/queue.go keeps, and what it does to the contents.
use lgobase.Base.{
  ℕ, suc, ◌-◌, ◌≤◌, ◌<◌, ◌≡◌, ◌≢◌, inl, inr, refl, sym, ap, ◌∙◌, subst, false, Option, none, some,
  if_cases, arith, ◌==◌,
}
use lgobase.CasQueue.{
  update, CasQueue, Local, returned, push_load_tail, push_load_next, push_check, push_help,
  push_link, push_swing, pop_load_head, pop_load_tail, pop_load_next, pop_check, pop_help,
  pop_swing, panicked, no_effect, link, after_push_check, after_pop_check, advance, with_item,
  perform, Event, calls_push, calls_pop, goes_on, pushed,
}
use lgobase.CasQueue.Order.{Ghost, IsOrdered, Unlinked, Seen, Placed, Span, Fits}
use lgobase.CasQueue.Moves.{slice-same, Keeps, equal, quiet, swap_tail-Keeps, swing_head-Keeps}
use lgobase.CasQueue.Linking.{
  update_same, update_other, last_place, below, longer, old_item, new_item, linked-IsOrdered,
  linked-Grows, linked-Unlinked, linked-contents,
}

pub differ : (a b : ℕ) → (a == b) ≡ false → a ≢ b
differ a b e = ground arith

abbrev IsOne : ℕ → Option ℕ → Type 0
IsOne y none = ⊥
IsOne y (some x) = x ≡ y

module _ (q : CasQueue) (g : Ghost) (i : ℕ) (o : IsOrdered q g) where
  Seen-some : (k y : ℕ) → Seen g k (some y) → (suc k < g.count) × (g.item (suc k) ≡ y)
  Seen-some k y (inl e) = absurd cc
  Seen-some k y (inr (lt, e)) = (lt, subst (IsOne y) e refl)

  -- What `next` of a linked item holds now.
  next-Seen : (k : ℕ) → k < g.count → Seen g k (q.next (g.item k))
  next-Seen k lt = elim (below (suc k) g.count (omega arith)) [
    | inl more ↦ inr (more, o.links k more)
    | inr done ↦ inl (o.ends k done)
  ]

  link-Keeps :
      (node tail : ℕ) (next : Option ℕ)
      → q.next tail ≡ next
      → Unlinked q g i node
      → Placed g tail
      → Keeps q g i (link q node tail next)
  link-Keeps node tail (some other) e u p = quiet q g i o (push_load_tail node) u
  link-Keeps node tail none e u (k, le, f) =
      let last : suc k ≡ g.count =
        last_place q g k o (omega (arith, o.tail_linked)) (ap q.next f ∙ e) in
      subst (λ t. Keeps q g i (link q node t none)) f
        (
          longer q g i o node u k last,
          linked-IsOrdered q g i o node u k last,
          linked-Grows q g i o node u k last,
          linked-Unlinked q g i o node u k last,
          (
            k,
            le,
            old_item q g i o node u k last k (omega (arith, o.tail_linked)),
            omega arith,
            ap (longer q g i o node u k last).item last ∙ new_item q g i o node u k last,
          ),
          linked-contents q g i o node u k last,
        )

  pub with_item-Keeps : (v : ℕ) → Keeps q g i (push_load_tail q.allocated, with_item q v, no_effect)
  with_item-Keeps v =
      let r = with_item q v in
      let h : Ghost = record g { owner = update g.owner q.allocated i } in
      let old_next : (x : ℕ) → x < q.allocated → r.next x ≡ q.next x =
        λ x lt. update_other q.next q.allocated x none (λ e. absurd (omega arith)) in
      let old_value : (k : ℕ) → k < g.count → r.value (g.item k) ≡ q.value (g.item k) = λ k lt.
        update_other q.value q.allocated (g.item k) (some v)
          (λ e. absurd (omega (arith, o.made k lt))) in
      (
        h,
        record {
          head_first = o.head_first;
          tail_linked = o.tail_linked;
          at_head = o.at_head;
          at_tail = o.at_tail;
          links = λ k lt. old_next (g.item k) (o.made k (omega arith)) ∙ o.links k lt;
          ends = λ k e. old_next (g.item k) (o.made k (omega arith)) ∙ o.ends k e;
          apart = o.apart;
          made = λ k lt. omega (arith, o.made k lt);
        },
        record {
          more = omega arith;
          head_on = omega arith;
          tail_on = omega arith;
          stays = λ k lt. refl;
          keeps = old_value;
        },
        (λ j ne x w. (
          omega (arith, w.0),
          update_other g.owner q.allocated x i (λ e. absurd (omega (arith, w.0))) ∙ w.1,
          w.2,
          old_next x w.0 ∙ w.3,
        )),
        (
          omega arith,
          update_same g.owner q.allocated i,
          (λ k lt e. absurd (omega (arith, o.made k lt))),
          update_same q.next q.allocated none,
        ),
        slice-same (λ k. q.value (g.item k)) (λ k. r.value (g.item k)) (suc g.head_at)
            (g.count - suc g.head_at) (λ k le lt. sym (old_value k (omega arith))),
      )

  after_push_check-Fits :
      (node tail k : ℕ) (next : Option ℕ)
      → Unlinked q g i node
      → k ≤ g.tail_at
      → g.item k ≡ tail
      → Seen g k next
      → Fits q g i (after_push_check node tail next)
  after_push_check-Fits node tail k none u le e s = (u, (k, le, e))
  after_push_check-Fits node tail k (some y) u le e s =
      let (lt, f) = Seen-some k y s in (u, (k, le, e, lt, f))

  after_pop_check-Fits :
      (head tail j k : ℕ) (next : Option ℕ)
      → Span g head tail j k
      → Seen g j next
      → (next ≡ none → j ≡ k)
      → Fits q g i (after_pop_check q head tail next)
  after_pop_check-Fits head tail j k none (le, lt, top, e, f) s end =
      if_cases (Fits q g i) (head == tail) (λ same. tt)
        (λ other. differ head tail other (sym e ∙ ap g.item (end refl) ∙ f))
  after_pop_check-Fits head tail j k (some y) (le, lt, top, e, f) s end =
      let (more, next_is) = Seen-some j y s in
      if_cases (Fits q g i) (head == tail)
        (λ same. (j, omega arith, e ∙ equal head tail same, more, next_is))
        (λ other. (
          j,
          e,
          omega (arith, λ (same : j ≡ k). differ head tail other (sym e ∙ ap g.item same ∙ f)),
          next_is,
          refl,
        ))

  pub advance-Keeps : (l : Local) → Fits q g i l → Keeps q g i (advance q l)
  unfolding advance
  advance-Keeps (returned r) f = quiet q g i o (returned r) tt
  advance-Keeps (push_load_tail node) u =
      quiet q g i o (push_load_next node q.tail) (u, (g.tail_at, omega arith, o.at_tail))
  advance-Keeps (push_load_next node tail) (u, (k, le, e)) =
      quiet q g i o (push_check node tail (q.next tail)) (
        u,
        (k, le, e, subst (λ x. Seen g k (q.next x)) e (next-Seen k (omega (arith, o.tail_linked)))),
      )
  advance-Keeps (push_check node tail next) (u, (k, le, e, s)) =
      if_cases (λ l. Keeps q g i (l, q, no_effect)) (tail == q.tail)
        (λ same.
          quiet q g i o (after_push_check node tail next)
            (after_push_check-Fits node tail k next u le e s))
        (λ other. quiet q g i o (push_load_tail node) u)
  advance-Keeps (push_help node tail next) (u, s) =
      swap_tail-Keeps q g i o (push_load_tail node) tail next s u u
  advance-Keeps (push_link node tail) (u, p) = link-Keeps node tail (q.next tail) refl u p
  advance-Keeps (push_swing node tail) s =
      swap_tail-Keeps q g i o (returned (some pushed)) tail node s tt tt
  advance-Keeps pop_load_head f =
      quiet q g i o (pop_load_tail q.head) (g.head_at, omega arith, o.at_head)
  advance-Keeps (pop_load_tail head) (j, le, e) =
      quiet q g i o (pop_load_next head q.tail)
        (j, g.tail_at, (le, omega (arith, o.head_first), omega arith, e, o.at_tail))
  advance-Keeps (pop_load_next head tail) (j, k, s) =
      quiet q g i o (pop_check head tail (q.next head)) (
        j,
        k,
        s,
        subst (λ x. Seen g j (q.next x)) s.3 (next-Seen j (omega (arith, o.tail_linked))),
        (λ e. omega (
          arith,
          o.tail_linked,
          last_place q g j o (omega (arith, o.tail_linked)) (ap q.next s.3 ∙ e),
        )),
      )
  advance-Keeps (pop_check head tail next) (j, k, s, seen, end) =
      if_cases (λ l. Keeps q g i (l, q, no_effect)) (head == q.head)
        (λ same.
          quiet q g i o (after_pop_check q head tail next)
            (after_pop_check-Fits head tail j k next s seen end))
        (λ other. quiet q g i o pop_load_head tt)
  advance-Keeps (pop_help tail next) s = swap_tail-Keeps q g i o pop_load_head tail next s tt tt
  advance-Keeps (pop_swing head next v) f = swing_head-Keeps q g i o head next v f
  advance-Keeps panicked f = absurd f

  pub perform-Keeps : (l : Local) (e : Event) → Fits q g i l → Keeps q g i (perform q l e)
  perform-Keeps (returned r) (calls_push v) f = with_item-Keeps v
  perform-Keeps (returned r) calls_pop f = quiet q g i o pop_load_head tt
  perform-Keeps (returned r) goes_on f = advance-Keeps (returned r) f
  perform-Keeps l e f = advance-Keeps l f
