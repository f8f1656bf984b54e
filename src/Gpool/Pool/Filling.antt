-- ===== src/Gpool/Pool/Filling.antt =====
-- What `CreateIdleConn` of gpool/gpool.go puts into the ring.
use lgobase.Base.{
  ℕ, zero, suc, ◌+◌, ◌≤◌, ◌<◌, ◌≡◌, refl, min, ◌∙◌, List, ◌++◌, append_assoc, append-nil, sym,
  subst, ◌∷◌, [], some, arith, length, length-append,
}
use lgobase.Base.Int.{ℤ, pos_part}
use lgobase.Gpool.IdleQueue.{new_idle_queue, push}
use lgobase.Gpool.IdleQueue.Ring.{Holds, push_room, length-push, push-Holds, new-Holds}
use lgobase.Gpool.IdleQueue.Deque.{length-new}
use lgobase.Gpool.Pool.{Gpool, PoolConn, idle, Config, init}
use lgobase.Gpool.Pool.Borrow.{Created, made, failed}
use lgobase.Gpool.Pool.Counters.Return.{size-push}
use lgobase.Gpool.Pool.Opening.{create_idle_one, create_idle, create_idle_conn, open_pool}

abbrev pub is_made : Created → ℕ
is_made (made ctime) = 1
is_made (failed e) = 0

abbrev made_conn : Created × ℤ → List PoolConn
made_conn (made ctime, now) = record { ctime = ctime; idle_time = now; state = idle } ∷ []
made_conn (failed e, now) = []

is_made-le : (r : Created) → is_made r ≤ 1
is_made-le (made ctime) = omega arith
is_made-le (failed e) = omega arith

-- How many of the first `n` attempts give a connection.
abbrev pub made_among : ℕ → (ℕ → Created × ℤ) → ℕ
made_among zero made_now = 0
made_among (suc n) made_now = is_made (made_now 0).0 + made_among n (λ i. made_now (suc i))

create_idle_one-size :
    (gp : Gpool) (r : Created) (now : ℤ)
    → gp.idle.size < length gp.idle.items
    → let gp' = create_idle_one gp r now in
      (gp'.idle.size ≡ is_made r + gp.idle.size)
      × (length gp'.idle.items ≡ length gp.idle.items)
      × (length gp'.conns ≡ is_made r + length gp.conns)
unfolding create_idle_one
create_idle_one-size gp (failed e) now lt = (omega arith, refl, omega arith)
create_idle_one-size gp (made ctime) now lt =
    let c = length gp.conns in
    let room = push_room gp.idle c lt in
    let grown = size-push gp.idle c room in
    let same = length-push gp.idle (some c) in
    rw room (
      omega (arith, grown),
      same,
      omega (
        arith,
        length-append gp.conns (record { ctime = ctime; idle_time = now; state = idle } ∷ []),
      ),
    )

create_idle-size :
    (n : ℕ) (made_now : ℕ → Created × ℤ) (gp : Gpool)
    → gp.idle.size + n ≤ length gp.idle.items
    → let gp' = create_idle n made_now gp in
      (gp'.idle.size ≡ gp.idle.size + made_among n made_now)
      × (length gp'.conns ≡ length gp.conns + made_among n made_now)
unfolding create_idle
create_idle-size zero made_now gp le = (omega arith, omega arith)
create_idle-size (suc n) made_now gp le =
    let (r, now) = made_now 0 in
    let (size_one, same, conns_one) = create_idle_one-size gp r now (omega (arith, le)) in
    let at_most : is_made r ≤ 1 = is_made-le r in
    let (size_rest, conns_rest) =
      create_idle-size n (λ i. made_now (suc i)) (create_idle_one gp r now)
        (omega (arith, le, size_one, same, at_most)) in
    (omega (arith, size_one, size_rest), omega (arith, conns_one, conns_rest))

max_idle_conns-init :
    (c : Config)
    → pos_part (init c).max_idle_conns ≡ min (pos_part c.max_idle_conns) (pos_part c.max_conns)
unfolding init
max_idle_conns-init c = ground arith

idle-init :
    (c : Config)
    → ((init c).idle.size ≡ 0)
      × (length (init c).idle.items ≡ pos_part (init c).max_idle_conns)
      × (length (init c).conns ≡ 0)
unfolding init new_idle_queue
idle-init c = (refl, length-new ℕ (init c).max_idle_conns, refl)

-- The connections of the attempts that give one, in their order.
abbrev pub conns_made : ℕ → (ℕ → Created × ℤ) → List PoolConn
conns_made zero made_now = []
conns_made (suc n) made_now = made_conn (made_now 0) ++ conns_made n (λ i. made_now (suc i))

-- The places below a number, in order.
abbrev pub below : ℕ → List ℕ
below zero = []
below (suc n) = below n ++ n ∷ []

-- The ring holds all connections, the oldest one first.
abbrev Filled : Gpool → List PoolConn → Type 0
Filled gp pcs = (gp.conns ≡ pcs) × Holds gp.idle (below (length pcs))

create_idle_one-Filled :
    (gp : Gpool) (r : Created) (now : ℤ) (pcs : List PoolConn)
    → gp.idle.size < length gp.idle.items
    → Filled gp pcs
    → Filled (create_idle_one gp r now) (pcs ++ made_conn (r, now))
unfolding create_idle_one
create_idle_one-Filled gp (failed e) now pcs lt h = rw (append-nil pcs) h
create_idle_one-Filled gp (made ctime) now pcs lt (same, holds) =
    let pc : PoolConn = record { ctime = ctime; idle_time = now; state = idle } in
    let one_more : length (pcs ++ pc ∷ []) ≡ suc (length pcs) =
      omega (arith, length-append pcs (pc ∷ [])) in
    let pushed : Holds (push gp.idle (some (length pcs))).0 (below (suc (length pcs))) =
      push-Holds gp.idle (below (length pcs)) (length pcs) holds lt in
    rw (push_room gp.idle (length gp.conns) lt, one_more, same) (refl, pushed)

create_idle-Filled :
    (n : ℕ) (made_now : ℕ → Created × ℤ) (gp : Gpool) (pcs : List PoolConn)
    → gp.idle.size + n ≤ length gp.idle.items
    → Filled gp pcs
    → Filled (create_idle n made_now gp) (pcs ++ conns_made n made_now)
unfolding create_idle
create_idle-Filled zero made_now gp pcs le h = rw (append-nil pcs) h
create_idle-Filled (suc n) made_now gp pcs le h =
    let (r, now) = made_now 0 in
    let (size_one, same, conns_one) = create_idle_one-size gp r now (omega (arith, le)) in
    let at_most : is_made r ≤ 1 = is_made-le r in
    let rest = λ (i : ℕ). made_now (suc i) in
    subst (Filled (create_idle n rest (create_idle_one gp r now)))
      (append_assoc pcs (made_conn (r, now)) (conns_made n rest))
      (create_idle-Filled n rest (create_idle_one gp r now) (pcs ++ made_conn (r, now))
        (omega (arith, le, size_one, same, at_most))
        (create_idle_one-Filled gp r now pcs (omega (arith, le)) h))

init-Filled : (c : Config) → Filled (init c) []
unfolding init
init-Filled c = (refl, new-Holds (init c).max_idle_conns)

-- `GpoolInit2` makes `MaxIdleConns` attempts, or `MaxConns` where that is less (none where it is
-- negative). The connections of the pool are then those that the attempts gave, in order and in state
-- `idle`, and the ring holds each of them once, the oldest one first: none is refused.
pub size-open_pool :
    (c : Config) (made_now : ℕ → Created × ℤ)
    → let gp = open_pool c made_now in
      let attempts = min (pos_part c.max_idle_conns) (pos_part c.max_conns) in
      (gp.idle.size ≡ made_among attempts made_now)
      × (gp.conns ≡ conns_made attempts made_now)
      × (length gp.conns ≡ made_among attempts made_now)
      × Holds gp.idle (below (length gp.conns))
unfolding open_pool create_idle_conn
size-open_pool c made_now =
    let start = init c in
    let attempts = min (pos_part c.max_idle_conns) (pos_part c.max_conns) in
    let rounds : pos_part start.max_idle_conns ≡ attempts = max_idle_conns-init c in
    let empty : (start.idle.size ≡ 0)
        × (length start.idle.items ≡ attempts)
        × (length start.conns ≡ 0) =
      let e = idle-init c in (e.0, e.1 ∙ rounds, e.2) in
    let (a, b) = create_idle-size attempts made_now start (omega (arith, empty.0, empty.1)) in
    let (same, holds) =
      create_idle-Filled attempts made_now start [] (omega (arith, empty.0, empty.1))
        (init-Filled c) in
    rw rounds (
      omega (arith, a, empty.0),
      same,
      omega (arith, b, empty.2),
      subst (λ pcs. Holds (create_idle attempts made_now start).idle (below (length pcs)))
          (sym same) holds,
    )
