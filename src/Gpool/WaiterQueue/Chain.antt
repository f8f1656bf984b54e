-- ===== src/Gpool/WaiterQueue/Chain.antt =====
-- Doubly linked chains over two functions, the next and the previous place. The place `none` is
-- that of the queue itself: its next place is the head and its previous place is the tail, so the
-- branches of gpool/waiter_queue.go on a nil neighbour are the same write as the others.
use mathlib.Core.Path.{subst₂}
use lgobase.Base.{
  ℕ, ◌≡◌, ◌≢◌, refl, sym, ◌∙◌, Bool, true, false, List, [], ◌∷◌, ◌++◌, Option, none, some, arith,
  ◌==◌, if◌then◌else◌,
}

abbrev pub same_place : Option ℕ → Option ℕ → Bool
same_place none none = true
same_place (some a) (some b) = a == b
same_place _ _ = false

abbrev pub Places : Type 0
Places = Option ℕ → Option ℕ

unfoldable pub update : Places → Option ℕ → Option ℕ → Places
update f k v j = if same_place j k then v else f j

pub update_self : (f : Places) (k v : Option ℕ) → update f k v k ≡ v
unfolding update
update_self f none v = refl
update_self f (some k) v = ground arith

pub update_ne : (f : Places) (k v j : Option ℕ) → k ≢ j → update f k v j ≡ f j
unfolding update
update_ne f none v none h = absurd (h refl)
update_ne f none v (some j) h = refl
update_ne f (some k) v none h = refl
update_ne f (some k) v (some j) h = ground arith

-- The place `k` is none of these waiters.
abbrev pub Apart : Option ℕ → List ℕ → Type 0
Apart k [] = Unit
Apart k (x ∷ xs) = (k ≢ some x) × Apart k xs

abbrev pub Distinct : List ℕ → Type 0
Distinct [] = Unit
Distinct (x ∷ xs) = Apart (some x) xs × Distinct xs

-- The waiters `xs` lie in order between the places `a` and `b`.
abbrev pub Chain : Places → Places → Option ℕ → List ℕ → Option ℕ → Type 0
Chain f g a [] b = (f a ≡ b) × (g b ≡ a)
Chain f g a (x ∷ xs) b = (f a ≡ some x) × (g (some x) ≡ a) × Chain f g (some x) xs b

abbrev pub first : List ℕ → Option ℕ → Option ℕ
first [] b = b
first (x ∷ xs) b = some x

abbrev pub last : Option ℕ → List ℕ → Option ℕ
last a [] = a
last a (x ∷ xs) = last (some x) xs

pub Apart-split : (k : Option ℕ) (ys zs : List ℕ) → Apart k (ys ++ zs) → Apart k ys × Apart k zs
Apart-split k [] zs h = (tt, h)
Apart-split k (y ∷ ys) zs h = let (p, q) = Apart-split k ys zs h.1 in ((h.0, p), q)

pub Apart-join : (k : Option ℕ) (ys zs : List ℕ) → Apart k ys → Apart k zs → Apart k (ys ++ zs)
Apart-join k [] zs h h' = h'
Apart-join k (y ∷ ys) zs h h' = (h.0, Apart-join k ys zs h.1 h')

pub Apart-none : (xs : List ℕ) → Apart none xs
Apart-none [] = tt
Apart-none (x ∷ xs) = ((λ e. cc), Apart-none xs)

pub ne-last : (k a : Option ℕ) (xs : List ℕ) → k ≢ a → Apart k xs → k ≢ last a xs
ne-last k a [] h h' = h
ne-last k a (x ∷ xs) h h' = ne-last k (some x) xs h'.0 h'.1

ne-first : (k b : Option ℕ) (xs : List ℕ) → k ≢ b → Apart k xs → k ≢ first xs b
ne-first k b [] h h' = h
ne-first k b (x ∷ xs) h h' = h'.0

module _ (f g : Places) where
  pub Chain-first :
      (a : Option ℕ) (xs : List ℕ) (b : Option ℕ) → Chain f g a xs b → f a ≡ first xs b
  Chain-first a [] b c = c.0
  Chain-first a (x ∷ xs) b c = c.0

  pub Chain-last : (a : Option ℕ) (xs : List ℕ) (b : Option ℕ) → Chain f g a xs b → g b ≡ last a xs
  Chain-last a [] b c = c.1
  Chain-last a (x ∷ xs) b c = Chain-last (some x) xs b c.2

  pub Chain-split :
      (a : Option ℕ) (ys : List ℕ) (w : ℕ) (zs : List ℕ) (b : Option ℕ)
      → Chain f g a (ys ++ w ∷ zs) b
      → Chain f g a ys (some w) × Chain f g (some w) zs b
  Chain-split a [] w zs b c = ((c.0, c.1), c.2)
  Chain-split a (y ∷ ys) w zs b c =
      let (p, q) = Chain-split (some y) ys w zs b c.2 in ((c.0, c.1, p), q)

  -- A write at a place outside of the chain leaves it.
  pub Chain-update_next :
      (k v a : Option ℕ) (xs : List ℕ) (b : Option ℕ)
      → k ≢ a
      → Apart k xs
      → Chain f g a xs b
      → Chain (update f k v) g a xs b
  Chain-update_next k v a [] b h h' c = (update_ne f k v a h ∙ c.0, c.1)
  Chain-update_next k v a (x ∷ xs) b h h' c =
      (update_ne f k v a h ∙ c.0, c.1, Chain-update_next k v (some x) xs b h'.0 h'.1 c.2)

  pub Chain-update_prev :
      (k v a : Option ℕ) (xs : List ℕ) (b : Option ℕ)
      → k ≢ b
      → Apart k xs
      → Chain f g a xs b
      → Chain f (update g k v) a xs b
  Chain-update_prev k v a [] b h h' c = (c.0, update_ne g k v b h ∙ c.1)
  Chain-update_prev k v a (x ∷ xs) b h h' c =
      (c.0, update_ne g k v (some x) h'.0 ∙ c.1, Chain-update_prev k v (some x) xs b h h'.1 c.2)

-- Unlinking the waiter between two chains joins them.
pub Chain-unlink :
    (f g : Places) (a : Option ℕ) (ys : List ℕ) (w : ℕ) (zs : List ℕ) (b : Option ℕ)
    → Apart a (ys ++ w ∷ zs)
    → Apart b (ys ++ w ∷ zs)
    → Distinct (ys ++ w ∷ zs)
    → Chain f g a ys (some w)
    → Chain f g (some w) zs b
    → Chain (update f (g (some w)) (f (some w))) (update g (f (some w)) (g (some w))) a (ys ++ zs) b
Chain-unlink f g a [] w [] b α β δ c d = rw (c.1, d.0) (update_self f a b, update_self g b a)
Chain-unlink f g a [] w (z ∷ zs) b α β δ c d =
    subst₂ (λ p n. Chain (update f p n) (update g n p) a (z ∷ zs) b) (sym c.1) (sym d.0)
      (
        update_self f a (some z),
        update_self g (some z) a,
        Chain-update_next f (update g (some z) a) a (some z) (some z) zs b α.1.0 α.1.1
            (Chain-update_prev f g (some z) a (some z) zs b (λ e. β.1.0 (sym e)) δ.1.0 d.2),
      )
Chain-unlink f g a (y ∷ ys) w zs b α β δ c d =
    let behind : a ≢ g (some w) =
      rw (Chain-last f g (some y) ys (some w) c.2)
        (ne-last a (some y) ys α.0 (Apart-split a ys (w ∷ zs) α.1).0) in
    let ahead : some y ≢ f (some w) =
      rw (Chain-first f g (some w) zs b d)
        (ne-first (some y) b zs (λ e. β.0 (sym e)) (Apart-split (some y) ys (w ∷ zs) δ.0).1.1) in
    (
      update_ne f (g (some w)) (f (some w)) a (λ e. behind (sym e)) ∙ c.0,
      update_ne g (f (some w)) (g (some w)) (some y) (λ e. ahead (sym e)) ∙ c.1,
      Chain-unlink f g (some y) ys w zs b δ.0 β.1 δ.1 c.2 d,
    )

-- Linking a new waiter in front of the place `b`.
pub Chain-link :
    (f g : Places) (a : Option ℕ) (xs : List ℕ) (w : ℕ) (b : Option ℕ)
    → some w ≢ a
    → some w ≢ b
    → Apart a xs
    → Apart b xs
    → Apart (some w) xs
    → Distinct xs
    → Chain f g a xs b
    → Chain
        (update (update f (some w) b) (g b) (some w))
        (update (update g (some w) (g b)) b (some w))
        a
        (xs ++ w ∷ [])
        b
Chain-link f g a [] w b wa wb α β ω δ c = rw c.1 (
  update_self (update f (some w) b) a (some w),
  update_ne (update g (some w) a) b (some w) (some w) (λ e. wb (sym e)) ∙ update_self g (some w) a,
  (
    update_ne (update f (some w) b) a (some w) (some w) (λ e. wa (sym e))
        ∙ update_self f (some w) b,
    update_self (update g (some w) a) b (some w),
  ),
)
Chain-link f g a (x ∷ xs) w b wa wb α β ω δ c =
    let behind : a ≢ g b = rw (Chain-last f g (some x) xs b c.2) (ne-last a (some x) xs α.0 α.1) in
    (
      update_ne (update f (some w) b) (g b) (some w) a (λ e. behind (sym e))
          ∙ update_ne f (some w) b a wa
          ∙ c.0,
      update_ne (update g (some w) (g b)) b (some w) (some x) β.0
          ∙ update_ne g (some w) (g b) (some x) ω.0
          ∙ c.1,
      Chain-link f g (some x) xs w b ω.0 wb δ.0 β.1 ω.1 δ.1 c.2,
    )

pub Distinct-remove :
    (ys : List ℕ) (w : ℕ) (zs : List ℕ) → Distinct (ys ++ w ∷ zs) → Distinct (ys ++ zs)
Distinct-remove [] w zs h = h.1
Distinct-remove (y ∷ ys) w zs h =
    let (p, q) = Apart-split (some y) ys (w ∷ zs) h.0 in
    (Apart-join (some y) ys zs p q.1, Distinct-remove ys w zs h.1)

pub Distinct-Apart :
    (ys : List ℕ) (w : ℕ) (zs : List ℕ) → Distinct (ys ++ w ∷ zs) → Apart (some w) (ys ++ zs)
Distinct-Apart [] w zs h = h.0
Distinct-Apart (y ∷ ys) w zs h =
    ((λ e. (Apart-split (some y) ys (w ∷ zs) h.0).1.0 (sym e)), Distinct-Apart ys w zs h.1)

pub Distinct-concat :
    (xs : List ℕ) (w : ℕ) → Apart (some w) xs → Distinct xs → Distinct (xs ++ w ∷ [])
Distinct-concat [] w h d = (tt, tt)
Distinct-concat (x ∷ xs) w h d =
    (Apart-join (some x) xs (w ∷ []) d.0 ((λ e. h.0 (sym e)), tt), Distinct-concat xs w h.1 d.1)
