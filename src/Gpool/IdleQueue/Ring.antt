-- ===== src/Gpool/IdleQueue/Ring.antt =====
-- The ring of gpool/idle_queue.go against a bounded double-ended queue.
use lgobase.Base.{
  ℕ, suc, ◌+◌, ◌-◌, ◌≤◌, ◌<◌, ◌≡◌, ◌≢◌, refl, ap, ◌∙◌, ◌⊎◌, inl, inr, true, false, List, [], ◌∷◌,
  ◌++◌, Option, none, some, arith, length, get_elem?, set, replicate, length-append, length-set,
  length-replicate, get_elem?-replicate, get_elem?-set_self, get_elem?-set_ne, get_elem?_above,
  get_elem?-concat_last, get_elem?-concat_ne, ltb, ◌==◌, if◌then◌else◌, Bool-cases,
}
use lgobase.Base.Int.{ℤ, pos, pos_part, ltb_ℤ}
use lgobase.Gpool.IdleQueue.{IdleQueue, new_idle_queue, slot, push_some, push, pop, pop_newest}

-- The index that lies `n` places on from the start of a ring of `c` slots, for `n` below `2 * c`.
abbrev pub wrap : ℕ → ℕ → ℕ
wrap c n = if ltb n c then n else n - c

-- The ring holds `xs`, oldest first, and every slot outside of them is nil.
pub record Holds {ℓ} {A : Type ℓ} (q : IdleQueue A) (xs : List A) : Type ℓ where
  pub head_in : (q.head < length q.items) ⊎ ((q.head ≡ 0) × (length q.items ≡ 0))
  pub size_is : q.size ≡ length xs
  pub fits : q.size ≤ length q.items
  pub tail_is : q.tail ≡ wrap (length q.items) (q.head + q.size)
  pub slots :
      (i : ℕ)
      → i < length q.items
      → get_elem? q.items (wrap (length q.items) (q.head + i)) ≡ some (get_elem? xs i)

-- Within one turn the places of a ring are distinct.
wrap-ne : (c h i j : ℕ) → h < c → i < c → j < c → i ≢ j → wrap c (h + i) ≢ wrap c (h + j)
wrap-ne c h i j hc ic jc ne = ground arith

wrap-lt : (c h i : ℕ) → h < c → i < c → wrap c (h + i) < c
wrap-lt c h i hc ic = ground arith

module _ {ℓ} {A : Type ℓ} (items : List (Option A)) (h : ℕ) where
  abbrev Slots : List A → Type ℓ
  Slots xs =
      (i : ℕ)
      → i < length items
      → get_elem? items (wrap (length items) (h + i)) ≡ some (get_elem? xs i)

  Slots-concat :
      (xs : List A) (a : A)
      → h < length items
      → length xs < length items
      → Slots xs
      → (i : ℕ) → i < length items
      → get_elem?
          (set items (wrap (length items) (h + length xs)) (some a))
          (wrap (length items) (h + i))
        ≡ some (get_elem? (xs ++ a ∷ []) i)
  Slots-concat xs a hc lt s i ic = elim (Bool-cases (i == length xs)) [
    | inl e ↦
        let e' : i ≡ length xs = ground arith in
        rw (e', get_elem?-concat_last xs a)
          (get_elem?-set_self items _ (some a) (wrap-lt (length items) h (length xs) hc lt))
    | inr e ↦
        let ne : i ≢ length xs = ground arith in
        let ne' : length xs ≢ i = ground arith in
        rw (get_elem?-concat_ne xs a i ne) (
          get_elem?-set_ne items _ _ (some a) (wrap-ne (length items) h (length xs) i hc lt ic ne')
          ∙ s i ic)
  ]

  Slots-tail :
      (x : A) (xs : List A)
      → h < length items
      → length xs < length items
      → Slots (x ∷ xs)
      → (i : ℕ) → i < length items
      → get_elem?
          (set items h none)
          (wrap (length items) ((if h + 1 == length items then 0 else h + 1) + i))
        ≡ some (get_elem? xs i)
  Slots-tail x xs hc lt s i ic = elim (Bool-cases (i + 1 == length items)) [
    | inl e ↦
        let full : length xs ≤ i = ground arith in
        let here : wrap (length items) ((if h + 1 == length items then 0 else h + 1) + i) ≡ h =
          ground arith in
        rw (here, get_elem?_above xs i full) (get_elem?-set_self items h none hc)
    | inr e ↦
        let lt' : suc i < length items = ground arith in
        let there : wrap (length items) ((if h + 1 == length items then 0 else h + 1) + i)
            ≡ wrap (length items) (h + suc i) =
          ground arith in
        let ne : h ≢ wrap (length items) (h + suc i) = ground arith in
        rw there (get_elem?-set_ne items h _ none ne ∙ s (suc i) lt')
  ]

  Slots-init :
      (xs : List A) (x : A)
      → h < length items
      → length xs < length items
      → Slots (xs ++ x ∷ [])
      → (i : ℕ) → i < length items
      → get_elem?
          (set items (wrap (length items) (h + length xs)) none)
          (wrap (length items) (h + i))
        ≡ some (get_elem? xs i)
  Slots-init xs x hc lt s i ic = elim (Bool-cases (i == length xs)) [
    | inl e ↦
        let e' : i ≡ length xs = ground arith in
        rw (e', get_elem?_above xs (length xs) (omega arith))
          (get_elem?-set_self items _ none (wrap-lt (length items) h (length xs) hc lt))
    | inr e ↦
        let ne : i ≢ length xs = ground arith in
        let ne' : length xs ≢ i = ground arith in
        get_elem?-set_ne items _ _ none (wrap-ne (length items) h (length xs) i hc lt ic ne')
        ∙ s i ic
        ∙ ap some (get_elem?-concat_ne xs x i ne)
  ]

module _ {ℓ} {A : Type ℓ} where
  pub new-Holds : (capacity : ℤ) → Holds {A = A} (new_idle_queue capacity) []
  unfolding new_idle_queue
  new-Holds capacity = elim (Bool-cases (ltb_ℤ capacity (pos 0))) [
    | inl e ↦ rw e (empty 0)
    | inr e ↦ rw e (empty (pos_part capacity))
  ]
    where
      empty :
          (n : ℕ)
          → Holds {A = A} (record { items = replicate n none; head = 0; tail = 0; size = 0 }) []
      empty n = record {
        head_in = omega (arith, length-replicate {ℓ} {A = Option A} n none);
        size_is = refl;
        fits = omega arith;
        tail_is = ground (arith, length-replicate {ℓ} {A = Option A} n none);
        slots = λ i ic.
            get_elem?-replicate n none _
              (ground (arith, length-replicate {ℓ} {A = Option A} n none));
      }

  pub push-Holds :
      (q : IdleQueue A) (xs : List A) (a : A)
      → Holds q xs
      → q.size < length q.items
      → Holds (push q (some a)).0 (xs ++ a ∷ [])
  unfolding push
  push-Holds q xs a h lt =
      let room : (q.size == length q.items) ≡ false = ground arith in
      let same = length-set q.items q.tail (some a) in
      let place : q.tail ≡ wrap (length q.items) (q.head + length xs) = ground arith in
      let inside : q.head < length q.items = omega (arith, h) in
      rw (room, push_some)
        (record {
          head_in = omega (arith, same);
          size_is = omega (arith, h, length-append xs (a ∷ []));
          fits = omega (arith, same);
          tail_is = ground (arith, same, h.tail_is);
          slots = λ i ic.
              rw (same, place)
                (Slots-concat q.items q.head xs a inside (omega arith) h.slots i
                  (omega (arith, same)));
        })

  pub pop-Holds :
      (q : IdleQueue A) (x : A) (xs : List A)
      → Holds q (x ∷ xs)
      → Holds (pop q).0 xs × ((pop q).1 ≡ some x)
  unfolding pop
  pop-Holds q x xs h =
      let some_in : (q.size == 0) ≡ false = ground arith in
      let same = length-set q.items q.head none in
      let inside : q.head < length q.items = omega (arith, h) in
      let start : wrap (length q.items) (q.head + 0) ≡ q.head = ground arith in
      let first = h.slots 0 (omega (arith, h)) in
      rw (some_in, same)
        (
          record {
            head_in = rw same (ground arith);
            size_is = omega (arith, h);
            fits = omega (arith, h, same);
            tail_is = rw same (ground (arith, h.tail_is));
            slots = λ i ic. rw same (
                Slots-tail q.items q.head x xs inside (omega (arith, h)) h.slots i
                  (omega (arith, same)));
          },
          rw (rw start at first, slot),
        )

  pub pop_newest-Holds :
      (q : IdleQueue A) (xs : List A) (x : A)
      → Holds q (xs ++ x ∷ [])
      → Holds (pop_newest q).0 xs × ((pop_newest q).1 ≡ some x)
  unfolding pop_newest
  pop_newest-Holds q xs x h =
      let more = length-append xs (x ∷ []) in
      let some_in : (q.size == 0) ≡ false = ground (arith, more) in
      let inside : q.head < length q.items = omega (arith, h, more) in
      let last : (if q.tail == 0 then length q.items else q.tail) - 1
          ≡ wrap (length q.items) (q.head + length xs) =
        ground (arith, more, h.tail_is) in
      let same = length-set q.items (wrap (length q.items) (q.head + length xs)) none in
      let top =
        h.slots (length xs) (omega (arith, h, more)) ∙ ap some (get_elem?-concat_last xs x) in
      rw (some_in, last)
        (
          record {
            head_in = omega (arith, same);
            size_is = omega (arith, h, more);
            fits = omega (arith, h, same);
            tail_is = rw same (ground (arith, more));
            slots = λ i ic. rw same (
                Slots-init q.items q.head xs x inside (omega (arith, h, more)) h.slots i
                  (omega (arith, same)));
          },
          rw (top, slot),
        )

  pub push-full : (q : IdleQueue A) (a : A) → q.size ≡ length q.items → push q (some a) ≡ (q, false)
  unfolding push
  push-full q a e = ground arith

  pub pop-empty : (q : IdleQueue A) → q.size ≡ 0 → pop q ≡ (q, none)
  unfolding pop
  pop-empty q e = ground arith

  pub pop_newest-empty : (q : IdleQueue A) → q.size ≡ 0 → pop_newest q ≡ (q, none)
  unfolding pop_newest
  pop_newest-empty q e = ground arith

  pub push_room : (q : IdleQueue A) (a : A) → q.size < length q.items → (push q (some a)).1 ≡ true
  unfolding push
  push_room q a h = ground arith

  -- No operation changes the number of slots.
  pub length-push : (q : IdleQueue A) (o : Option A) → length (push q o).0.items ≡ length q.items
  unfolding push
  length-push q none = refl
  length-push q (some a) = ground (arith, length-set q.items q.tail (some a))

  pub length-pop : (q : IdleQueue A) → length (pop q).0.items ≡ length q.items
  unfolding pop
  length-pop q = ground (arith, length-set q.items q.head none)

  pub length-pop_newest : (q : IdleQueue A) → length (pop_newest q).0.items ≡ length q.items
  unfolding pop_newest
  length-pop_newest q =
      ground (arith, length-set q.items ((if q.tail == 0 then length q.items else q.tail) - 1) none)
