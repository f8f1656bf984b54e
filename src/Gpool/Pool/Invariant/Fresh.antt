-- ===== src/Gpool/Pool/Invariant/Fresh.antt =====
-- The invariant of a pool that `GpoolInit2` of gpool/gpool.go has just filled.
use lgobase.Base.{
  ℕ, zero, suc, ◌≤◌, ◌≡◌, refl, sym, ap, ◌∙◌, true, false, [], ◌∷◌, ◌++◌, some, arith, length,
  get_elem?-concat_last, modify_concat, count, count-append, if_cases,
}
use lgobase.Base.Int.{ℤ, pos_part}
use lgobase.Gpool.IdleQueue.{push}
use lgobase.Gpool.IdleQueue.Ring.{new-Holds, push-Holds, length-push}
use lgobase.Gpool.IdleQueue.Deque.{length-new}
use lgobase.Gpool.Pool.{Gpool, PoolConn, ConnState, idle, Config, init, add_conn, set_state}
use lgobase.Gpool.Pool.Borrow.{Created, made, failed}
use lgobase.Gpool.Pool.Opening.{create_idle_one, create_idle, create_idle_conn, open_pool}
use lgobase.Gpool.Pool.Dispatch.{reservations}
use lgobase.Gpool.Pool.Counters.Return.{push_refused}
use lgobase.Gpool.Pool.Ownership.{Owns, is_idle}
use lgobase.Gpool.Pool.Ownership.Return.{push_room}
use lgobase.Gpool.Pool.Ownership.Transfer.{Held-Transfer, Owns-add, Owns-same}
use lgobase.Gpool.Pool.Invariant.{Inv}

-- A pool that nobody has used, of at most `limit` connections.
pub record Fresh (gp : Gpool) (limit : ℕ) : Type 0 where
  pub owns : Owns gp (λ c. 0)
  pub room : length gp.idle.items ≤ limit
  pub limit_is : pos_part gp.max_conns ≡ limit
  pub no_slots : (gp.in_use ≡ 0) × (gp.creating ≡ 0) × (gp.closing ≡ 0)
  pub no_waiters : (gp.waiters ≡ []) × (gp.waits ≡ 0) × (gp.waiter_states ≡ [])
  pub no_results : gp.results ≡ []
  pub is_open : (gp.closed ≡ false) × (gp.close_ended ≡ false)

init-Fresh : (c : Config) → Fresh (init c) (pos_part c.max_conns)
unfolding init
init-Fresh c = record {
  owns = (
    [],
    record {
      holds = new-Holds _;
      idle_once = λ j. refl;
      closing_once = λ j. refl;
      borrowed_is = refl;
    },
  );
  room = ground (arith, length-new ℕ (init c).max_idle_conns);
  limit_is = refl;
  no_slots = (refl, refl, refl);
  no_waiters = (refl, refl, refl);
  no_results = refl;
  is_open = (refl, refl);
}

abbrev dropped : Gpool → PoolConn → Gpool
dropped gp pc = add_conn gp (set_state ConnState.closed pc)

-- A new connection goes into the ring.
added-Owns :
    (gp gp' : Gpool) (pc : PoolConn)
    → Owns gp (λ c. 0)
    → pc.state ≡ idle
    → (push gp.idle (some (length gp.conns))).1 ≡ true
    → gp'.idle ≡ (push gp.idle (some (length gp.conns))).0
    → gp'.conns ≡ gp.conns ++ pc ∷ []
    → gp'.in_use ≡ gp.in_use
    → Owns gp' (λ c. 0)
added-Owns gp gp' pc o s ok e f g =
    let c = length gp.conns in
    let before = dropped gp pc in
    let kept : Owns before (λ j. 0) =
      Owns-add gp before (λ j. 0) (λ j. 0) (set_state ConnState.closed pc) o refl refl refl refl
        (λ j ne. refl) (omega arith) in
    let absent : count c kept.0 ≡ 0 =
      kept.1.idle_once c
      ∙ ap is_idle (get_elem?-concat_last gp.conns (set_state ConnState.closed pc)) in
    let more = λ (j : ℕ). count-append j kept.0 (c ∷ []) in
    let room = push_room gp.idle kept.0 c kept.1.holds ok in
    (
      kept.0 ++ c ∷ [],
      Held-Transfer before gp' (λ j. 0) (λ j. 0) kept.0 (kept.0 ++ c ∷ []) c
          (set_state ConnState.closed pc) (λ x. pc) kept.1
          (record {
            held = get_elem?-concat_last gp.conns (set_state ConnState.closed pc);
            conns_is = f ∙ sym (modify_concat gp.conns (set_state ConnState.closed pc) (λ x. pc));
            holds = rw e (push-Holds gp.idle kept.0 c kept.1.holds room);
            idle_here = ground (arith, more c, absent);
            idle_there = λ j ne. ground (arith, more j);
            closing_here = ground arith;
            closing_there = λ j ne. refl;
            in_use_is = ground arith;
          }),
    )

create_idle_one-Fresh :
    (gp : Gpool) (r : Created) (now : ℤ) (limit : ℕ)
    → Fresh gp limit
    → Fresh (create_idle_one gp r now) limit
unfolding create_idle_one
create_idle_one-Fresh gp (failed e) now limit h = h
create_idle_one-Fresh gp (made ctime) now limit h =
    let q = (push gp.idle (some (length gp.conns))).0 in
    let same = length-push gp.idle (some (length gp.conns)) in
    if_cases (λ g. Fresh g limit) (push gp.idle (some (length gp.conns))).1
      (λ ok. record {
        owns = added-Owns gp _ _ h.owns refl ok refl refl refl;
        room = omega (arith, h.room, same);
        limit_is = h.limit_is;
        no_slots = h.no_slots;
        no_waiters = h.no_waiters;
        no_results = h.no_results;
        is_open = h.is_open;
      })
      (λ full. record {
        owns =
            Owns-same gp _ _ _ h.owns refl (push_refused gp.idle (length gp.conns) full).0 refl
              (λ j. refl);
        room = omega (arith, h.room, same);
        limit_is = h.limit_is;
        no_slots = h.no_slots;
        no_waiters = h.no_waiters;
        no_results = h.no_results;
        is_open = h.is_open;
      })

create_idle-Fresh :
    (n : ℕ) (made_now : ℕ → Created × ℤ) (gp : Gpool) (limit : ℕ)
    → Fresh gp limit
    → Fresh (create_idle n made_now gp) limit
unfolding create_idle
create_idle-Fresh zero made_now gp limit h = h
create_idle-Fresh (suc n) made_now gp limit h =
    create_idle-Fresh n (λ i. made_now (suc i)) _ limit
      (create_idle_one-Fresh gp (made_now 0).0 (made_now 0).1 limit h)

pub open_pool-Fresh :
    (c : Config) (made_now : ℕ → Created × ℤ) → Fresh (open_pool c made_now) (pos_part c.max_conns)
unfolding open_pool create_idle_conn
open_pool-Fresh c made_now = create_idle-Fresh _ made_now (init c) _ (init-Fresh c)

pub Fresh-Inv : (gp : Gpool) (limit : ℕ) → Fresh gp limit → Inv gp [] limit
unfolding reservations
Fresh-Inv gp limit h =
    let fits = h.owns.1.holds.fits in
    record {
      counts = ground (arith, h, fits, h.room);
      owns = Owns-same gp gp _ _ h.owns refl refl refl (λ j. refl);
      limit_is = h.limit_is;
      idle_closers = λ e. tt;
    }
