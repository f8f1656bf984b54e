-- ===== src/Gpool/Selector.antt =====
-- The selector of gpool/gpool_selector.go: which server `RoundRobin` gives to a call, and how servers
-- are taken out and come back. Other goroutines run between the operations, so that every scan of the
-- servers has its own view of which are valid, and calls end while servers are pinged.
pub mod Rotation
pub mod Ejection
use lgobase.Base.{
  ℕ, zero, suc, ◌+◌, ◌-◌, ◌%◌, ◌^◌, Bool, true, false, not, ◌||◌, List, [], ◌∷◌, ◌++◌, Option, none,
  some, length, ltb, if◌then◌else◌, ◌==◌,
}
use lgobase.Gpool.Retry.{RpcError, is_some}

-- The first scan counts the valid servers.
unfoldable pub valid_count : List Bool → ℕ
valid_count [] = 0
valid_count (v ∷ vs) = let rest = valid_count vs in if v then suc rest else rest

-- The second scan counts down to the target among the valid servers; servers go by their places.
unfoldable pub pick_from : ℕ → ℕ → List Bool → Option ℕ
pick_from place target [] = none
pick_from place target (v ∷ vs) =
    let later = pick_from (suc place) target vs in
    let next = pick_from (suc place) (target - 1) vs in
    if not v then later else if target == 0 then some place else next

-- One round of `RoundRobin`: its two views, and the ticket that it draws between them.
pub record Scan : Type 0 where
  pub counted : List Bool
  pub ticket : ℕ
  pub looked_at : List Bool

abbrev pub target_of : Scan → ℕ
target_of s = s.ticket % 2 ^ 32 % valid_count s.counted

abbrev pub or_retry : Option ℕ → Option ℕ → Option ℕ
or_retry none retry = retry
or_retry (some i) retry = some i

abbrev pub scan_round : Scan → Option ℕ → Option ℕ
scan_round s retry =
    if valid_count s.counted == 0
    then none
    else or_retry (pick_from 0 (target_of s) s.looked_at) retry

-- `RoundRobin`: at most two rounds.
unfoldable pub round_robin : Bool → Option RpcError → Scan → Scan → Option ℕ
round_robin closed init_err first second =
    if closed || is_some init_err then none else scan_round first (scan_round second none)

-- What `selectedServer` returns.
pub data Selected : Type 0 where
  server : ℕ → Selected
  init_failed : RpcError → Selected
  selector_closed no_valid_server : Selected

abbrev pub server_or_none : Option ℕ → Selected
server_or_none none = no_valid_server
server_or_none (some i) = server i

-- `selectedServer`. It looks at `closed` itself, before `RoundRobin` does.
unfoldable pub selected_server : Bool → Bool → Option RpcError → Scan → Scan → Selected
selected_server closed closed_later (some e) first second = init_failed e
selected_server closed closed_later none first second =
    if closed then selector_closed else server_or_none (round_robin closed_later none first second)

-- The servers' validity, the channel `NotValid` with its capacity, and the configuration.
pub record RpcPoolSelector : Type 0 where
  pub valid : ℕ → Bool
  pub not_valid : List ℕ
  pub capacity : ℕ
  pub has_ping : Bool
  pub eject_policy : Option (RpcError → Bool)

-- `shouldEject`.
abbrev pub policy_or_default : Option (RpcError → Bool) → RpcError → Bool
policy_or_default none e = is_some e.transport || e.protocol
policy_or_default (some policy) e = policy e

unfoldable pub should_eject : RpcPoolSelector → RpcError → Bool
should_eject s e = policy_or_default s.eject_policy e

abbrev pub set_valid : RpcPoolSelector → ℕ → Bool → RpcPoolSelector
set_valid s i v = record s { valid = λ j. if j == i then v else s.valid j }

-- The notification of the health checker, which is dropped when the channel is full.
abbrev pub notify : RpcPoolSelector → ℕ → RpcPoolSelector
notify s i =
    if ltb (length s.not_valid) s.capacity
    then record s { not_valid = s.not_valid ++ i ∷ [] }
    else s

-- `handleCallError`: what it does to the server.
unfoldable pub handle_call_error : RpcPoolSelector → ℕ → Option RpcError → RpcPoolSelector
handle_call_error s i none = s
handle_call_error s i (some e) =
    if not s.has_ping || not (should_eject s e)
    then s
    else if s.valid i
    then notify (set_valid s i false) i
    else s

-- Calls of other goroutines that end, each with its server and its error.
unfoldable pub calls_end : RpcPoolSelector → List (ℕ × Option RpcError) → RpcPoolSelector
calls_end s [] = s
calls_end s ((i, err) ∷ ended) = calls_end (handle_call_error s i err) ended

-- `checkServerHealth`, with what the ping returns, whether the selector is closed before and behind
-- it, and the calls that end during it.
abbrev pub after_ping : RpcPoolSelector → ℕ → Option RpcError → Bool → RpcPoolSelector
after_ping s i (some e) closed = s
after_ping s i none closed = if closed then s else set_valid s i true

unfoldable pub check_server_health :
    RpcPoolSelector
    → ℕ
    → Bool
    → List (ℕ × Option RpcError)
    → Option RpcError
    → Bool
    → RpcPoolSelector
check_server_health s i closed during ping_err closed_later =
    if s.valid i || closed || not s.has_ping
    then s
    else after_ping (calls_end s during) i ping_err closed_later

-- A case of `runHealthChecker`: the next server of the channel.
abbrev pub checked :
    RpcPoolSelector
    → List ℕ
    → Bool
    → List (ℕ × Option RpcError)
    → Option RpcError
    → Bool
    → RpcPoolSelector
checked s [] closed during ping_err closed_later = s
checked s (i ∷ rest) closed during ping_err closed_later =
    check_server_health (record s { not_valid = rest }) i closed during ping_err closed_later

unfoldable pub check_notified :
    RpcPoolSelector → Bool → List (ℕ × Option RpcError) → Option RpcError → Bool → RpcPoolSelector
check_notified s closed during ping_err closed_later =
    checked s s.not_valid closed during ping_err closed_later

-- What comes with the turn of a server: the calls that end before it and during its ping, whether the
-- selector is closed before and behind the ping, and what the ping returns.
pub record Turn : Type 0 where
  pub before : List (ℕ × Option RpcError)
  pub during : List (ℕ × Option RpcError)
  pub closed : Bool
  pub ping_err : Option RpcError
  pub closed_later : Bool

abbrev pub take_turn : RpcPoolSelector → ℕ → Turn → RpcPoolSelector
take_turn s i t =
    if s.valid i then s else check_server_health s i t.closed t.during t.ping_err t.closed_later

-- The other case: all servers that are not valid in turn.
unfoldable pub check_all : RpcPoolSelector → ℕ → (ℕ → Turn) → RpcPoolSelector
check_all s zero turns = s
check_all s (suc n) turns = take_turn (calls_end (check_all s n turns) (turns n).before) n (turns n)
