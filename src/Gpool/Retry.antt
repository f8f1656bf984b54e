-- ===== src/Gpool/Retry.antt =====
-- The Thrift calls through a pool, gpool/gpool.go from `isDisconnectedError` on. What the pool, the
-- client and the context answer comes with every attempt, and what is done with the connection is
-- recorded. What `errors.As` and `errors.Is` find in an error is part of it.
pub mod Replay
use lgobase.Base.{
  ℕ, zero, suc, ◌+◌, Bool, true, false, not, ◌||◌, List, [], ◌∷◌, ◌++◌, Option, none, some, leb,
  if◌then◌else◌,
}
use lgobase.Base.Int.{ℤ, pos_part}
use lgobase.Base.Text.{Text, eq_text}

-- The `TypeId` of a `TTransportException`.
pub data TransportType : Type 0 where
  unknown_transport not_open end_of_file : TransportType
  other_transport : ℕ → TransportType

-- An error: the first `TTransportException` in it, whether it has a `TProtocolException`, and whether
-- it is one of `io.EOF`, `io.ErrUnexpectedEOF`, `net.ErrClosed`, `ECONNRESET` and `EPIPE`.
pub record RpcError : Type 0 where
  pub transport : Option TransportType
  pub protocol : Bool
  pub cut_off : Bool
  pub text : Text

abbrev pub disconnected_by : RpcError → Option TransportType → Bool
disconnected_by e none = false
disconnected_by e (some not_open) = true
disconnected_by e (some end_of_file) = true
disconnected_by e (some unknown_transport) = e.cut_off
disconnected_by e (some (other_transport n)) = false

-- `isDisconnectedError`.
unfoldable pub is_disconnected_error : RpcError → Bool
is_disconnected_error e = disconnected_by e e.transport

-- What is done with a connection.
pub data Action : Type 0 where
  borrows calls closes discards : ℕ → Action
  sets_timeout : ℕ → ℤ → Action

-- What `Get` returns.
pub data Got : Type 0 where
  got_conn : ℕ → Got
  get_failed : RpcError → Got

-- The answers to an attempt: of `Get`, of the client's call, and of `ctx.Err` behind it.
pub record Attempt : Type 0 where
  pub got : Got
  pub name : Text
  pub err : Option RpcError
  pub ctx_err : Option RpcError

-- The process of `ThriftCall2` and `ThriftExtCall2`, and that of the calls with a timeout, which then
-- set the pool's timeout again.
pub data Process : Type 0 where
  plain_call : Process
  timed_call : ℤ → ℤ → Process

abbrev pub process_actions : Process → ℕ → List Action
process_actions plain_call c = calls c ∷ []
process_actions (timed_call timeout pool_timeout) c =
    sets_timeout c timeout ∷ calls c ∷ sets_timeout c pool_timeout ∷ []

-- What `thriftCall2Once` returns, and what it does.
pub record Once : Type 0 where
  pub name : Text
  pub err : Option RpcError
  pub actions : List Action

abbrev pub is_some {ℓ} : {A : Type ℓ} → Option A → Bool
is_some none = false
is_some (some a) = true

-- How the connection is given back.
abbrev pub give_back : Option RpcError → ℕ → Action
give_back none c = closes c
give_back (some e) c = if is_some e.transport || e.protocol then discards c else closes c

abbrev pub call_conn : Process → Attempt → Got → Once
call_conn p a (get_failed e) = record { name = []; err = some e; actions = [] }
call_conn p a (got_conn c) = record {
  name = a.name;
  err = a.err;
  actions = borrows c ∷ (process_actions p c ++ give_back a.err c ∷ []);
}

-- `thriftCall2Once`.
unfoldable pub call_once : Process → Attempt → Once
call_once p a = call_conn p a a.got

-- What `thriftCall2WithRetry` returns, with its attempts.
pub record Replied : Type 0 where
  pub name : Text
  pub err : Option RpcError
  pub attempts : List Once

abbrev pub name_after : Text → Text → Text
name_after rpc_name attempt_name = if eq_text attempt_name [] then rpc_name else attempt_name

abbrev pub preceded_by : Once → Option Replied → Option Replied
preceded_by o none = none
preceded_by o (some r) = some (record r { attempts = o ∷ r.attempts })

abbrev pub replied : Text → Option RpcError → Once → Option Replied
replied name err o = some (record { name = name; err = err; attempts = o ∷ [] })

-- The end of a round of the loop: a return, or the rounds that follow.
abbrev pub end_round :
    ℕ → ℕ → Text → Option RpcError → Once → Option RpcError → Option Replied → Option Replied
end_round max_retries attempt name ctx_err o none more = replied name none o
end_round max_retries attempt name ctx_err o (some e) more =
    if leb max_retries attempt || not (is_disconnected_error e)
    then replied name (some e) o
    else elim ctx_err [ some e ↦ replied name (some e) o | none ↦ preceded_by o more ]

-- The loop of `thriftCall2WithRetry` on fuel; the answers go by the attempt.
unfoldable pub retry_loop : ℕ → Process → ℕ → (ℕ → Attempt) → ℕ → Text → Option Replied
retry_loop zero p max_retries answers attempt rpc_name = none
retry_loop (suc fuel) p max_retries answers attempt rpc_name =
    let o = call_once p (answers attempt) in
    let name = name_after rpc_name o.name in
    end_round max_retries attempt name (answers attempt).ctx_err o o.err
      (retry_loop fuel p max_retries answers (suc attempt) name)

-- `thriftCall2WithRetry`: a negative `RPCMaxRetries` counts as 0.
unfoldable pub call_with_retry : Process → ℤ → (ℕ → Attempt) → Option Replied
call_with_retry p rpc_max_retries answers =
    retry_loop (suc (pos_part rpc_max_retries)) p (pos_part rpc_max_retries) answers 0 []

-- `ThriftCall2` and its variants return the error.
abbrev pub error_of : Option Replied → Option (Option RpcError)
error_of none = none
error_of (some r) = some r.err

unfoldable pub thrift_call_2 : Process → ℤ → (ℕ → Attempt) → Option (Option RpcError)
thrift_call_2 p rpc_max_retries answers = error_of (call_with_retry p rpc_max_retries answers)
