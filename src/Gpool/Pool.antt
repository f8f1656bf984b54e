-- ===== src/Gpool/Pool.antt =====
-- The state of a `Gpool` (gpool/gpool.go, gpool/waiter_queue.go) with the objects that it shares
-- with its callers: connections, waiters and the result channels. Connections and waiters are
-- indices into lists that only grow. The idle ring is that of `Gpool.IdleQueue`, and the waiters
-- are the list that the linked queue of `Gpool.WaiterQueue` stands for.
pub mod Locked
pub mod Borrow
pub mod Return
pub mod Shutdown
pub mod Dispatch
pub mod Opening
pub mod Filling
pub mod World
pub mod Overtaken
pub mod Counters
pub mod Ownership
pub mod Parking
pub mod Invariant
pub mod Safety
pub mod Mailbox
pub mod Panics
pub mod Reopening
pub mod Handoff
use lgobase.Base.{ℕ, ◌+◌, Bool, false, List, [], ◌∷◌, ◌++◌, Option, modify, if◌then◌else◌}
use lgobase.Base.Int.{ℤ, pos, ltb_ℤ}
use lgobase.Gpool.IdleQueue.{IdleQueue, new_idle_queue}

pub data ConnState : Type 0 where
  idle borrowed returning closing closed : ConnState

-- A `PoolConn`. Whether its transport is open and what closing it returns are answers of the
-- environment, given where the code asks.
pub record PoolConn : Type 0 where
  pub ctime : ℤ
  pub idle_time : ℤ
  pub state : ConnState

pub data Error : Type 0 where
  wait_queue_full wait_timeout pool_closed : Error
  other : ℕ → Error

pub data WaiterState : Type 0 where
  queued delivered canceled : WaiterState

pub data WaitResultKind : Type 0 where
  result_conn result_create : WaitResultKind

pub record WaitResult : Type 0 where
  pub kind : WaitResultKind
  pub conn : Option ℕ
  pub err : Option Error

pub record Gpool : Type 0 where
  pub idle : IdleQueue ℕ
  pub pool_fifo : Bool
  pub max_conns : ℤ
  pub max_idle_conns : ℤ
  pub max_conn_life : ℤ
  pub max_idle_conn_life : ℤ
  pub rpc_max_retries : ℤ
  pub in_use : ℕ
  pub creating : ℕ
  pub closing : ℕ
  pub max_waiters : ℤ
  pub waits : ℕ
  pub waiters : List ℕ
  pub closed : Bool
  pub close_ended : Bool
  pub close_err : List Error
  -- The heap: every connection and waiter made so far, and the results not yet received.
  pub conns : List PoolConn
  pub waiter_states : List WaiterState
  pub results : List (ℕ × WaitResult)

-- Where a goroutine goes on after `closeConnectionLocked`.
pub data After : Type 0 where
  reopens fails_closed returns : After

-- A goroutine between two sections under the mutex.
pub data Task : Type 0 where
  closing_conn : ℕ → After → Task
  creating_conn : Task
  waiting : ℕ → Task
  closing_idle : List ℕ → Task

-- How a section ends: with the values that the call returns, or at the next task of its goroutine.
pub data Outcome : Type 0 where
  returned : Option ℕ → Option Error → Outcome
  parked : Task → Outcome
  blocked : Outcome
  panicked : Outcome

abbrev pub max_ℤ : ℤ → ℤ → ℤ
max_ℤ a b = if ltb_ℤ a b then b else a

-- The part of `GPoolConfig` that a pool reads.
pub record Config : Type 0 where
  pub max_conns : ℤ
  pub max_idle_conns : ℤ
  pub max_waiters : ℤ
  pub max_conn_life : ℤ
  pub max_idle_conn_life : ℤ
  pub rpc_max_retries : ℤ
  pub pool_fifo : Bool

-- `GpoolInit2` up to the call of `CreateIdleConn`.
unfoldable pub init : Config → Gpool
init c =
    let max_idle = if ltb_ℤ c.max_conns c.max_idle_conns then c.max_conns else c.max_idle_conns in
    record {
      idle = new_idle_queue max_idle;
      pool_fifo = c.pool_fifo;
      max_conns = c.max_conns;
      max_idle_conns = max_idle;
      max_conn_life = c.max_conn_life;
      max_idle_conn_life = c.max_idle_conn_life;
      rpc_max_retries = c.rpc_max_retries;
      in_use = 0;
      creating = 0;
      closing = 0;
      max_waiters =
          if ltb_ℤ (pos 0) c.max_waiters then c.max_waiters else max_ℤ (pos 1) c.max_conns;
      waits = 0;
      waiters = [];
      closed = false;
      close_ended = false;
      close_err = [];
      conns = [];
      waiter_states = [];
      results = [];
    }

-- `capacityUsedLocked`.
abbrev pub capacity_used : Gpool → ℕ
capacity_used gp = gp.idle.size + gp.in_use + gp.creating + gp.closing

abbrev pub set_state : ConnState → PoolConn → PoolConn
set_state s pc = record pc { state = s }

-- `pc.state.Store(s)`.
abbrev pub store_state : Gpool → ℕ → ConnState → Gpool
store_state gp c s = record gp { conns = modify gp.conns c (set_state s) }

-- A connection that `getConnFromNew` has made enters the heap in the state that it is given under
-- the mutex.
abbrev pub add_conn : Gpool → PoolConn → Gpool
add_conn gp pc = record gp { conns = gp.conns ++ pc ∷ [] }
