-- ===== src/Gpool/Pool/Ownership/Return.antt =====
-- A connection that comes back goes into the ring, or is closed: every connection keeps its owner.
use lgobase.Base.{
  ℕ, ◌+◌, ◌-◌, ◌<◌, ◌≡◌, ◌≢◌, refl, sym, ap, ◌∙◌, subst, List, [], ◌∷◌, ◌++◌, some, arith, length,
  get_elem?, modify, modify-modify, modify_comm, get_elem?-modify_ne, count, count-append, ◌==◌,
  true, false,
}
use lgobase.Base.Int.{ℤ}
use lgobase.Gpool.IdleQueue.{IdleQueue, push, pop, capacity_of}
use lgobase.Gpool.IdleQueue.Ring.{Holds, push-Holds, pop-Holds, length-pop}
use lgobase.Gpool.Pool.{Gpool, PoolConn, idle, returning, closing, returns, set_state, store_state}
use lgobase.Gpool.Pool.Locked.{close_begin}
use lgobase.Gpool.Pool.Return.{set_idle_time, close_if, evict}
use lgobase.Gpool.Pool.Ownership.{Owns, is_idle, is_closing, is_idle_inv, borrowed_count-pos}
use lgobase.Gpool.Pool.Ownership.Transfer.{Held-Transfer}
use lgobase.Gpool.Pool.Ownership.Borrow.{Tracks}

-- Connection `c` is on its way back: it is `pc`, in state `returning`.
pub record Returning (gp : Gpool) (c : ℕ) (pc : PoolConn) : Type 0 where
  pub held : get_elem? gp.conns c ≡ some pc
  pub state_is : pc.state ≡ returning

pub in_use-pos :
    (gp : Gpool) (c : ℕ) (pc : PoolConn) (closers : ℕ → ℕ)
    → Owns gp closers
    → Returning gp c pc
    → 0 < gp.in_use
in_use-pos gp c pc closers o r =
    ground (arith, o.1.borrowed_is, borrowed_count-pos gp.conns c pc r.held, r.state_is)

pub not_idle :
    (gp : Gpool) (c : ℕ) (pc : PoolConn) (closers : ℕ → ℕ) (o : Owns gp closers)
    → Returning gp c pc
    → count c o.0 ≡ 0
not_idle gp c pc closers o r = o.1.idle_once c ∙ rw r.held (ground (arith, r.state_is))

pub not_closing :
    (gp : Gpool) (c : ℕ) (pc : PoolConn) (closers : ℕ → ℕ) (o : Owns gp closers)
    → Returning gp c pc
    → closers c ≡ 0
not_closing gp c pc closers o r = o.1.closing_once c ∙ rw r.held (ground (arith, r.state_is))

-- The connection goes to a goroutine that closes it.
pub to_closing :
    (gp gp' : Gpool) (c : ℕ) (pc : PoolConn) (f : PoolConn → PoolConn) (closers : ℕ → ℕ)
    → Owns gp closers
    → Returning gp c pc
    → (f pc).state ≡ closing
    → gp'.conns ≡ modify gp.conns c f
    → gp'.idle ≡ gp.idle
    → gp'.in_use ≡ gp.in_use - 1
    → Owns gp' (λ j. count j (c ∷ []) + closers j)
to_closing gp gp' c pc f closers o r s e e' n = (
  o.0,
  Held-Transfer gp gp' closers _ o.0 o.0 c pc f o.1 (record {
    held = r.held;
    conns_is = e;
    holds = rw e' o.1.holds;
    idle_here = not_idle gp c pc closers o r ∙ ground arith;
    idle_there = λ j ne. refl;
    closing_here = ground (arith, not_closing gp c pc closers o r);
    closing_there = λ j ne. ground arith;
    in_use_is = ground (arith, in_use-pos gp c pc closers o r, r.state_is);
  }),
)

-- The connection goes to the ring.
pub to_idle :
    (gp gp' : Gpool) (c : ℕ) (pc : PoolConn) (f : PoolConn → PoolConn) (closers : ℕ → ℕ)
    (o : Owns gp closers)
    → Returning gp c pc
    → (f pc).state ≡ idle
    → gp'.conns ≡ modify gp.conns c f
    → Holds gp'.idle (o.0 ++ c ∷ [])
    → gp'.in_use ≡ gp.in_use - 1
    → Owns gp' closers
to_idle gp gp' c pc f closers o r s e h n = (
  o.0 ++ c ∷ [],
  Held-Transfer gp gp' closers closers o.0 (o.0 ++ c ∷ []) c pc f o.1 (record {
    held = r.held;
    conns_is = e;
    holds = h;
    idle_here = ground (arith, not_idle gp c pc closers o r, count-append c o.0 (c ∷ []));
    idle_there = λ j ne. ground (arith, count-append j o.0 (c ∷ []));
    closing_here = ground (arith, not_closing gp c pc closers o r);
    closing_there = λ j ne. refl;
    in_use_is = ground (arith, in_use-pos gp c pc closers o r, r.state_is);
  }),
)

pub push_room :
    (q : IdleQueue ℕ) (xs : List ℕ) (c : ℕ)
    → Holds q xs
    → (push q (some c)).1 ≡ true
    → q.size < length q.items
unfolding push
push_room q xs c h e = ground (arith, h.fits)

-- The pool where `put` has counted the connection out and stored `idle` in it.
abbrev pub idled : Gpool → ℕ → ℤ → Gpool
idled gp c now =
    let left = record gp {
      in_use = gp.in_use - 1;
      conns = modify gp.conns c (set_idle_time now);
    } in
    store_state left c idle

abbrev pub rest_of : ℤ → PoolConn → PoolConn
rest_of now pc = set_state idle (set_idle_time now pc)

module _ (gp : Gpool) (c : ℕ) (pc : PoolConn) (now : ℤ) (closers : ℕ → ℕ) (o : Owns gp closers)
    (r : Returning gp c pc) where
  -- Closing the returned connection itself.
  pub close_it-Tracks :
      (gp' : Gpool)
      → gp'.conns ≡ (idled gp c now).conns
      → gp'.idle ≡ gp.idle
      → gp'.in_use ≡ gp.in_use - 1
      → Tracks closers (close_begin gp' c returns)
  unfolding close_begin
  close_it-Tracks gp' e e' n =
      to_closing gp _ c pc (λ x. set_state closing (rest_of now x)) closers o r refl
        (ap (λ xs. modify xs c (set_state closing)) (e ∙ modify-modify gp.conns c _ _)
          ∙ modify-modify gp.conns c _ _)
        e' n

  -- The oldest idle connection `x` makes room.
  evict_oldest :
      (x : ℕ) (ring : List ℕ) (gp' : Gpool)
      → o.0 ≡ x ∷ ring
      → gp'.conns ≡ modify (idled gp c now).conns x (set_state closing)
      → Holds (pop gp.idle).0 ring
      → Holds gp'.idle (ring ++ c ∷ [])
      → gp'.in_use ≡ gp.in_use - 1
      → Owns gp' (λ j. count j (x ∷ []) + closers j)
  evict_oldest x ring gp' e cs popped full n =
      let split = λ (j : ℕ). ap (count j) e in
      let ne : x ≢ c = λ same. ground (arith, not_idle gp c pc closers o r, split c) in
      let (xc, xe, xs) =
        is_idle_inv (get_elem? gp.conns x) (ground (arith, o.1.idle_once x, split x)) in
      let first = record gp {
        idle = (pop gp.idle).0;
        conns = modify gp.conns x (set_state closing);
      } in
      let taken : Owns first (λ j. count j (x ∷ []) + closers j) = (
        ring,
        Held-Transfer gp first closers _ o.0 ring x xc (set_state closing) o.1 (record {
          held = xe;
          conns_is = refl;
          holds = popped;
          idle_here = ground (arith, o.1.idle_once x, split x, ap is_idle xe);
          idle_there = λ j off. ground (arith, split j);
          closing_here = ground (arith, o.1.closing_once x, ap is_closing xe);
          closing_there = λ j off. ground arith;
          in_use_is = ground arith;
        }),
      ) in
      to_idle first gp' c pc (rest_of now) _ taken
        (record {
          held = get_elem?-modify_ne gp.conns x c (set_state closing) ne ∙ r.held;
          state_is = r.state_is;
        })
        refl
        (cs
          ∙ ap (λ xs. modify xs x (set_state closing)) (modify-modify gp.conns c _ _)
          ∙ modify_comm gp.conns c x (rest_of now) (set_state closing) (λ same. ne (sym same)))
        full n

  -- The ring is full.
  pub evict-Tracks :
      (ring : List ℕ) (gp' : Gpool)
      → o.0 ≡ ring
      → gp.idle.size ≡ length gp.idle.items
      → gp'.conns ≡ (idled gp c now).conns
      → gp'.idle ≡ gp.idle
      → gp'.in_use ≡ gp.in_use - 1
      → Tracks closers (evict gp' c)
  unfolding evict
  evict-Tracks [] gp' e full e' i n =
      let none_held : (capacity_of gp'.idle == 0) ≡ true =
        ground (arith, o.1.holds.size_is, ap (length {0}) e, i) in
      rw (none_held, evict) (close_it-Tracks gp' e' i n)
  evict-Tracks (x ∷ ring) gp' e full e' i n =
      let h = subst (Holds gp.idle) e o.1.holds in
      let (popped, p) = pop-Holds gp.idle x ring h in
      let has_room : (capacity_of gp'.idle == 0) ≡ false = ground (arith, h.size_is, h.fits, i) in
      let below : (pop gp.idle).0.size < length (pop gp.idle).0.items =
        omega (arith, popped.size_is, h.size_is, length-pop gp.idle) in
      let pushed =
        subst (λ q. Holds (push (pop q).0 (some c)).0 (ring ++ c ∷ [])) (sym i)
          (push-Holds (pop gp.idle).0 ring c popped below) in
      let oldest : (pop gp'.idle).1 ≡ some x = ap (λ q. (pop q).1) i ∙ p in
      rw (has_room, evict)
        (rw (oldest, close_if)
          (unfold close_begin in
            evict_oldest x ring _ e (ap (λ xs. modify xs x (set_state closing)) e') popped pushed
              n))
