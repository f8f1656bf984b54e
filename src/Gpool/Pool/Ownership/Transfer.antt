-- ===== src/Gpool/Pool/Ownership/Transfer.antt =====
-- A connection changes hands: one write of its state, with the ring, the closing goroutines and
-- `inUse` that go with it.
use lgobase.Base.{
  ℕ, ◌+◌, ◌≡◌, ◌≢◌, sym, subst, ap, ◌∙◌, List, [], ◌∷◌, ◌++◌, some, arith, length, get_elem?,
  modify, get_elem?-modify_self, get_elem?-modify_ne, get_elem?-concat_last, get_elem?-concat_ne,
  get_elem?_above, count, ◌==◌, inl, inr, Bool-cases,
}
use lgobase.Gpool.IdleQueue.Ring.{Holds}
use lgobase.Gpool.Pool.{Gpool, PoolConn}
use lgobase.Gpool.Pool.Ownership.{
  Held, Owns, is_borrowed, is_idle, is_closing, borrowed_count-modify, borrowed_count-concat,
}

-- The change of one connection, as `Owns` sees it.
pub record Transfer (gp gp' : Gpool) (closers closers' : ℕ → ℕ) (ring ring' : List ℕ) (c : ℕ)
    (pc : PoolConn) (f : PoolConn → PoolConn) : Type 0 where
  pub held : get_elem? gp.conns c ≡ some pc
  pub conns_is : gp'.conns ≡ modify gp.conns c f
  pub holds : Holds gp'.idle ring'
  pub idle_here : count c ring' ≡ is_idle (some (f pc))
  pub idle_there : (j : ℕ) → j ≢ c → count j ring' ≡ count j ring
  pub closing_here : closers' c ≡ is_closing (some (f pc))
  pub closing_there : (j : ℕ) → j ≢ c → closers' j ≡ closers j
  pub in_use_is : gp'.in_use + is_borrowed pc.state ≡ gp.in_use + is_borrowed (f pc).state

at_place {ℓ} : (P : ℕ → Type ℓ) (c j : ℕ) → (j ≢ c → P j) → P c → P j
at_place P c j there here = elim (Bool-cases (j == c)) [
  | inl e ↦ subst P (sym (ground arith)) here
  | inr e ↦ there (ground arith)
]

pub Held-Transfer :
    (gp gp' : Gpool) (closers closers' : ℕ → ℕ) (ring ring' : List ℕ) (c : ℕ) (pc : PoolConn)
    (f : PoolConn → PoolConn)
    → Held gp closers ring
    → Transfer gp gp' closers closers' ring ring' c pc f
    → Held gp' closers' ring'
Held-Transfer gp gp' closers closers' ring ring' c pc f o t = record {
  holds = t.holds;
  idle_once = λ j. rw t.conns_is (
      at_place (λ j. count j ring' ≡ is_idle (get_elem? (modify gp.conns c f) j)) c j
        (λ ne.
          rw (get_elem?-modify_ne gp.conns c j f (λ e. ne (sym e)))
            (t.idle_there j ne ∙ o.idle_once j))
        (rw (get_elem?-modify_self gp.conns c f, t.held) t.idle_here));
  closing_once = λ j. rw t.conns_is (
      at_place (λ j. closers' j ≡ is_closing (get_elem? (modify gp.conns c f) j)) c j
        (λ ne.
          rw (get_elem?-modify_ne gp.conns c j f (λ e. ne (sym e)))
            (t.closing_there j ne ∙ o.closing_once j))
        (rw (get_elem?-modify_self gp.conns c f, t.held) t.closing_here));
  borrowed_is =
      rw t.conns_is
        (omega (arith, borrowed_count-modify gp.conns c f pc t.held, o.borrowed_is, t.in_use_is));
}

-- A new connection enters the heap.
pub Owns-add :
    (gp gp' : Gpool) (closers closers' : ℕ → ℕ) (pc : PoolConn) (o : Owns gp closers)
    → gp'.conns ≡ gp.conns ++ pc ∷ []
    → gp'.idle ≡ gp.idle
    → is_idle (some pc) ≡ 0
    → closers' (length gp.conns) ≡ is_closing (some pc)
    → ((j : ℕ) → j ≢ length gp.conns → closers' j ≡ closers j)
    → gp'.in_use ≡ gp.in_use + is_borrowed pc.state
    → Owns gp' closers'
Owns-add gp gp' closers closers' pc o e e' fresh here there n =
    let beyond = get_elem?_above gp.conns (length gp.conns) (omega arith) in
    (
      o.0,
      record {
        holds = rw e' o.1.holds;
        idle_once = λ j. rw e (
            at_place (λ j. count j o.0 ≡ is_idle (get_elem? (gp.conns ++ pc ∷ []) j))
              (length gp.conns) j
              (λ ne. rw (get_elem?-concat_ne gp.conns pc j ne) (o.1.idle_once j))
              (rw (get_elem?-concat_last gp.conns pc)
                (o.1.idle_once (length gp.conns) ∙ ap is_idle beyond ∙ sym fresh)));
        closing_once = λ j. rw e (
            at_place (λ j. closers' j ≡ is_closing (get_elem? (gp.conns ++ pc ∷ []) j))
              (length gp.conns) j
              (λ ne. rw (get_elem?-concat_ne gp.conns pc j ne) (there j ne ∙ o.1.closing_once j))
              (rw (get_elem?-concat_last gp.conns pc) here));
        borrowed_is = rw e (omega (arith, borrowed_count-concat gp.conns pc, o.1.borrowed_is));
      },
    )

-- A section that touches neither the ring, nor the heap of connections, nor `inUse`.
pub Owns-same :
    (gp gp' : Gpool) (closers closers' : ℕ → ℕ) (o : Owns gp closers)
    → gp'.conns ≡ gp.conns
    → gp'.idle ≡ gp.idle
    → gp'.in_use ≡ gp.in_use
    → ((j : ℕ) → closers' j ≡ closers j)
    → Owns gp' closers'
Owns-same gp gp' closers closers' o e e' n k = (
  o.0,
  record {
    holds = rw e' o.1.holds;
    idle_once = λ j. rw e (o.1.idle_once j);
    closing_once = λ j. rw e (k j ∙ o.1.closing_once j);
    borrowed_is = rw (e, n) o.1.borrowed_is;
  },
)
