-- ===== src/Lib.antt =====
-- A model of lgobase, a base library of Go services, and of what makes it correct. Modelled are
-- its generic connection pool, gpool, the core of the RPC clients, the tokens of its configuration
-- files, its generator of identifiers and its lock-free queue.
--
-- The parts of gpool and the files that model them:
-- * gpool/idle_queue.go, the fixed-capacity ring of idle connections: Gpool.IdleQueue. Its
--   well-formedness is in Gpool.IdleQueue.Ring, its abstract view in Gpool.IdleQueue.Deque.
-- * gpool/waiter_queue.go, the linked list of waiting callers (`waiterQueue`):
--   Gpool.WaiterQueue, with a heap of nodes. Gpool.WaiterQueue.Chain says what a well linked list
--   is, and Refines compares it with a list.
-- * gpool/gpool.go and the rest of gpool/waiter_queue.go, the pool: the state `Gpool` of
--   Gpool.Pool with `GpoolInit2`, whose `CreateIdleConn` is in Gpool.Pool.Opening, the helpers
--   that run under the mutex (`deliverWaiterLocked`, `dispatchCapacityWaitersLocked`,
--   `finishCloseLocked`, `closeConnectionLocked`) in Gpool.Pool.Locked, `Get`, `getConnFromIdle`,
--   `getConnFromNewForUse`, `waitForConnectionLocked`, `handleWaitResult` and `cancelWaiter` in
--   Gpool.Pool.Borrow, `put`, `Close` and `Discard` of a connection in Gpool.Pool.Return, `Close`
--   of the pool and `closeIdleConnections` in Gpool.Pool.Shutdown. The `nil` that `Pop` of an empty
--   ring returns is `none`, and a section that dereferences it ends in `panicked`.
-- * The calls of gpool/gpool.go that borrow from a pool, `thriftCall2Once`, `thriftCall2WithRetry`
--   and `ThriftCall2` with its variants: Gpool.Retry. They run on the answers of `Get`, of the
--   client and of the context, and record what they do with the connection.
-- * gpool/gpool_selector.go, which server a call gets and how servers are taken out and come back
--   (`RoundRobin`, `selectedServer`, `handleCallError`, `checkServerHealth`): Gpool.Selector. Servers
--   go by their places. Other goroutines run meanwhile: every scan of the servers has its own view of
--   which are valid, and the calls that end before and during the pings of the health checker come with
--   its turns (`Turn`). Selector.Rotation and Selector.Ejection have the results.
--
-- The configuration tokens, gconfig_v2/token.go, are in Gconfig: the lexer (`nextToken` and what it
-- calls) in Gconfig.Lexer, the values in Gconfig.Value, the scalars (`parseScalar` and the tests
-- such as `IsFloat`) in Gconfig.Scalar, the parser of the flow syntax (`parseValue`) and
-- `TokenParse` in Gconfig.Parser. `TokenParse` trims its text and gives it to the scalars, or to
-- the parser, which pulls tokens from the lexer and gives plain words to the scalars.
-- Gconfig.Printer writes values in the flow syntax; the program has no such printer.
--
-- The generator of identifiers, util/snowflake.go, is in Snowflake, with `NewSnowflake` as
-- `new_snowflake`, `NextID` as `next_id` and `ParseID` as `parse_id`. Snowflake.Fields has the
-- arithmetic of the fields, Valid the invariant, and Issue what a call of `NextID` leaves.
--
-- The lock-free queue, cas/queue.go, is in CasQueue: a goroutine is a `Local`, which says in front of
-- which atomic operation of `PushBack` or `PopFront` it stands, and `step` does that operation.
-- CasQueue.Order has the invariant, Moves, Linking and Advance what an operation keeps, Calls what an
-- operation has to do with the argument and the answer of its call, Fifo the
-- comparison with a first-in first-out queue, and Empty when it answers that nothing is left.
--
-- How the parts of gpool interact. A function that gives up the mutex is cut there: each section
-- under the mutex is one function from the pool to the pool and an outcome, which is a return or a `Task`,
-- the place where the goroutine goes on. Gpool.Pool.World composes the sections: an event is a
-- new call, or the next section of a goroutine with the answer it waited for, and a list of
-- events is an interleaving of any number of goroutines. The clock, the answers of `IsOpen`, what
-- the connection factory and `Close` of a transport return, and which branch a `select` takes
-- come with the events, so that the theorems hold for all of them.
--
-- Representation. Connections and waiters are numbers, the positions of their entries in lists
-- that only grow. The queue of waiters in the pool is a list, which Gpool.WaiterQueue.Refines
-- justifies. The one-place channel of a waiter is its entry in `results`. `MaxConns` and the
-- other configured limits and the Unix times are integers without a bound: their differences do
-- not overflow for times of this era. The counters are natural numbers; that a decrement never
-- starts from 0 is part of the invariant. Connections keep their lifetimes, and the transport
-- itself is not modelled.
--
-- A text of gconfig_v2 is a list of code points of valid UTF-8, a lexer what is left of its input, a
-- map its entries in the order of the text. Go's parsers of floats, times and durations are given
-- as `Std`, with nothing assumed about them. An `int64` of util/snowflake.go is its bit pattern, a
-- number below 2 ^ 64, and the wrap-around of every operation is written out in Base.Int64. The
-- readings of the clock come as a list, and a call that finds none left is still waiting.
-- An item of the lock-free queue is a number that is not given twice, as the garbage collector of Go
-- gives no address again that a goroutine still holds.
--
-- Bounds and fuel. The parser of the flow syntax runs on fuel, two units for every character and
-- three more: every call reads a token that takes a character, or stands right below one that
-- does. `dispatchCapacityWaitersLocked` and the waking loop of `Close` recurse on the
-- queue. The loop of `Close` that empties the ring recurses on the ring's size, which falls by
-- one in every round, and `CreateIdleConn` counts its attempts down. The retries run on
-- fuel of one more than the retries that are allowed, and each round counts one of them. The loop of
-- `NextID` that waits recurses on the readings of the clock, and that of `Print` runs on fuel of one
-- more than the values in the queue. The loops of `PushBack` and `PopFront` are steps.
--
-- Merged steps. The compare-and-swap of `Close` and `Discard` of a connection and the section
-- that follows it are one step. Nobody else writes a connection that is `returning`, with one
-- exception: `getConnFromIdle` stores `borrowed`, and then `closing` where the connection is stale, and a
-- caller that gives the same connection back for a second time can win its compare-and-swap between
-- the two. The events of Gpool.Pool.World are those where this does not happen, which is what an
-- interleaving means in the results about `World`. Gpool.Pool.Overtaken adds the `Get` that is
-- overtaken in this way and the section that follows later (`RacyEvent`), and Overtaken.Miscount has
-- what they do to the pool. The receiving of a result and the section that follows it are one step,
-- since only its waiter reads the channel. The goroutine of `closeIdleConnections` exists also for an
-- empty list, where it has nothing to do. The waiting of `Close` for `closeDone` is not a step:
-- `close_ended` says when it is over.
--
-- Proofs. Gpool.Pool.Dispatch, Counters and Ownership say what the sections do to the waiters, to
-- the counters and to the owners of the connections; Gpool.Pool.Invariant puts them together for
-- a pool with its goroutines, from the pool that has just been opened (Invariant.Fresh), and
-- Gpool.Pool.Mailbox does the same for the result channels. Safety, Panics, Mailbox.Run, Handoff,
-- Filling, Reopening and
-- Overtaken.Miscount state the results. Base has the shared helpers, and Tests runs the
-- definitions on small data.
--
-- Not modelled: `GpoolInit`, the write of the default `MaxWaiters` back into the configuration,
-- and the calls by reflection (`ThriftCall`, `ThriftCallFramed`) of gpool/gpool.go; the setting up
-- and the closing of the selector of gpool/gpool_selector.go, and the rules of
-- gpool/gpool_rule_selector.go; the Thrift clients and servers of gpool; the documents of
-- gconfig_v2/gconfig.go and the fields of a `TokenNode` that only they use, and what `TokenParse`
-- leaves in the node when it fails; the other packages of the repository, which are mostly wrappers
-- of I/O libraries, and of which network, workpool, selector, token and util have logic of their
-- own.
pub mod Base
pub mod CasQueue
pub mod Gconfig
pub mod Gpool
pub mod Snowflake
pub mod Tests
