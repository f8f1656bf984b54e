-- ===== src/Gpool/Pool/Ownership.antt =====
-- Who holds a connection: the ring holds those in state `idle`, a goroutine those in state
-- `closing`, and `inUse` counts those that are borrowed.
pub mod Transfer
pub mod Borrow
pub mod Return
pub mod Putting
pub mod Shutdown
use lgobase.Base.{
  ℕ, zero, suc, ◌+◌, ◌≤◌, ◌<◌, ◌≡◌, refl, List, [], ◌∷◌, ◌++◌, Option, none, some, arith, get_elem?,
  modify, count,
}
use lgobase.Gpool.IdleQueue.Ring.{Holds}
use lgobase.Gpool.Pool.{Gpool, PoolConn, ConnState, idle, borrowed, returning, closing}

abbrev pub is_borrowed : ConnState → ℕ
is_borrowed borrowed = 1
is_borrowed returning = 1
is_borrowed _ = 0

abbrev pub is_idle : Option PoolConn → ℕ
is_idle none = 0
is_idle (some pc) = elim pc.state [ idle ↦ 1 | _ ↦ 0 ]

abbrev pub is_closing : Option PoolConn → ℕ
is_closing none = 0
is_closing (some pc) = elim pc.state [ closing ↦ 1 | _ ↦ 0 ]

abbrev pub borrowed_count : List PoolConn → ℕ
borrowed_count [] = 0
borrowed_count (pc ∷ pcs) = is_borrowed pc.state + borrowed_count pcs

-- The ring holds `ring`, and the goroutines are closing connection `c` as often as `closers c`.
pub record Held (gp : Gpool) (closers : ℕ → ℕ) (ring : List ℕ) : Type 0 where
  pub holds : Holds gp.idle ring
  pub idle_once : (c : ℕ) → count c ring ≡ is_idle (get_elem? gp.conns c)
  pub closing_once : (c : ℕ) → closers c ≡ is_closing (get_elem? gp.conns c)
  pub borrowed_is : gp.in_use ≡ borrowed_count gp.conns

abbrev pub Owns : Gpool → (ℕ → ℕ) → Type 0
Owns gp closers = (ring : List ℕ) × Held gp closers ring

pub borrowed_count-modify :
    (pcs : List PoolConn) (c : ℕ) (f : PoolConn → PoolConn) (pc : PoolConn)
    → get_elem? pcs c ≡ some pc
    → borrowed_count (modify pcs c f) + is_borrowed pc.state
      ≡ borrowed_count pcs + is_borrowed (f pc).state
borrowed_count-modify [] c f pc e = cc
borrowed_count-modify (x ∷ pcs) zero f pc e = ground arith
borrowed_count-modify (x ∷ pcs) (suc c) f pc e = omega (arith, borrowed_count-modify pcs c f pc e)

pub borrowed_count-concat :
    (pcs : List PoolConn) (pc : PoolConn)
    → borrowed_count (pcs ++ pc ∷ []) ≡ borrowed_count pcs + is_borrowed pc.state
borrowed_count-concat [] pc = omega arith
borrowed_count-concat (x ∷ pcs) pc = omega (arith, borrowed_count-concat pcs pc)

pub borrowed_count-pos :
    (pcs : List PoolConn) (c : ℕ) (pc : PoolConn)
    → get_elem? pcs c ≡ some pc
    → is_borrowed pc.state ≤ borrowed_count pcs
borrowed_count-pos [] c pc e = cc
borrowed_count-pos (x ∷ pcs) zero pc e = ground arith
borrowed_count-pos (x ∷ pcs) (suc c) pc e = omega (arith, borrowed_count-pos pcs c pc e)

-- A connection that the ring holds, or that a goroutine is closing, is in that state.
pub is_idle_inv :
    (o : Option PoolConn) → 0 < is_idle o → (pc : PoolConn) × (o ≡ some pc) × (pc.state ≡ idle)
is_idle_inv none h = absurd (omega arith)
is_idle_inv (some pc) h = (pc, refl, ground arith)

pub is_closing_inv :
    (o : Option PoolConn)
    → 0 < is_closing o
    → (pc : PoolConn) × (o ≡ some pc) × (pc.state ≡ closing)
is_closing_inv none h = absurd (omega arith)
is_closing_inv (some pc) h = (pc, refl, ground arith)
