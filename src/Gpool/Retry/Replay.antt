-- ===== src/Gpool/Retry/Replay.antt =====
-- What the retries of gpool/gpool.go replay, and what becomes of the connections.
use lgobase.Base.{
  ℕ, zero, suc, ◌+◌, ◌≤◌, ◌<◌, ◌≡◌, ◌≢◌, ◌⊎◌, inl, inr, refl, sym, ap, ◌∙◌, subst, Bool, true,
  false, not, ◌||◌, List, [], ◌∷◌, ◌++◌, Option, none, some, leb, if◌then◌else◌, if_cases, arith,
  length, ◌==◌, ==_iff, append_assoc,
}
use lgobase.Base.Int.{ℤ, pos_part}
use lgobase.Base.Text.{Text}
use lgobase.Gpool.Retry.{
  RpcError, TransportType, unknown_transport, not_open, end_of_file, other_transport,
  disconnected_by, is_disconnected_error, Action, borrows, calls, closes, discards, sets_timeout,
  Got, got_conn, get_failed, Attempt, Process, plain_call, timed_call, process_actions, Once,
  is_some, give_back, call_conn, call_once, Replied, name_after, preceded_by, replied, end_round,
  retry_loop, call_with_retry,
}

-- The documented disconnections: the transport is not open or at its end, or an unknown error of the
-- transport is one of the errors of a connection that is cut off.
pub data Disconnected : RpcError → Type 0 where
  by_not_open : (e : RpcError) → e.transport ≡ some not_open → Disconnected e
  by_end_of_file : (e : RpcError) → e.transport ≡ some end_of_file → Disconnected e
  by_cut_off :
      (e : RpcError) → e.transport ≡ some unknown_transport → e.cut_off ≡ true → Disconnected e

disconnected_by-Disconnected :
    (e : RpcError) (o : Option TransportType)
    → e.transport ≡ o
    → disconnected_by e o ≡ true
    → Disconnected e
disconnected_by-Disconnected e none h d = absurd cc
disconnected_by-Disconnected e (some not_open) h d = by_not_open e h
disconnected_by-Disconnected e (some end_of_file) h d = by_end_of_file e h
disconnected_by-Disconnected e (some unknown_transport) h d = by_cut_off e h d
disconnected_by-Disconnected e (some (other_transport n)) h d = absurd cc

is_disconnected_error-Disconnected :
    (e : RpcError) → is_disconnected_error e ≡ true → Disconnected e
unfolding is_disconnected_error
is_disconnected_error-Disconnected e d = disconnected_by-Disconnected e e.transport refl d

is_disconnected_error_complete : (e : RpcError) → Disconnected e → is_disconnected_error e ≡ true
unfolding is_disconnected_error
is_disconnected_error_complete e (by_not_open _ h) = rw h refl
is_disconnected_error_complete e (by_end_of_file _ h) = rw h refl
is_disconnected_error_complete e (by_cut_off _ h c) = rw (h, c) refl

not_disconnected : (e : RpcError) → is_disconnected_error e ≡ false → ¬ Disconnected e
not_disconnected e h d = let k = is_disconnected_error_complete e d in absurd cc

-- An attempt after which there is another: it failed by a disconnection, and the context is alive.
abbrev Replayed : Attempt → Once → Type 0
Replayed a o = (e : RpcError) × (o.err ≡ some e) × Disconnected e × (a.ctx_err ≡ none)

-- What the last attempt gives: its success, its error, if that is not replayed, or that of the context.
abbrev Final : ℕ → ℕ → Attempt → Once → Option RpcError → Type 0
Final max_retries i a o err =
    ((o.err ≡ none) × (err ≡ none))
    ⊎ ((e : RpcError) × (o.err ≡ some e)
        × (((err ≡ some e) × ((max_retries ≤ i) ⊎ (¬ Disconnected e)))
            ⊎ ((err ≢ none) × (err ≡ a.ctx_err))))

at_end : (m i : ℕ) (b : Bool) → (leb m i || not b) ≡ true → (m ≤ i) ⊎ (b ≡ false)
at_end m i true h = inl (ground arith)
at_end m i false h = inr refl

before_end : (m i : ℕ) (b : Bool) → (leb m i || not b) ≡ false → (i < m) × (b ≡ true)
before_end m i true h = (ground arith, refl)
before_end m i false h = absurd (ground arith)

stops :
    (m i : ℕ) (e : RpcError)
    → (leb m i || not (is_disconnected_error e)) ≡ true
    → (m ≤ i) ⊎ (¬ Disconnected e)
stops m i e h = elim (at_end m i (is_disconnected_error e) h) [
  | inl le ↦ inl le
  | inr other ↦ inr (not_disconnected e other)
]

goes_on :
    (m i : ℕ) (e : RpcError)
    → (leb m i || not (is_disconnected_error e)) ≡ false
    → (i < m) × Disconnected e
goes_on m i e h =
    let (lt, d) = before_end m i (is_disconnected_error e) h in
    (lt, is_disconnected_error-Disconnected e d)

module _ (p : Process) (max_retries : ℕ) (answers : ℕ → Attempt) where
  -- The attempts from one on, and the error that is returned.
  abbrev pub Replays : ℕ → List Once → Option RpcError → Type 0
  Replays i [] err = ⊥
  Replays i (o ∷ []) err = (o ≡ call_once p (answers i)) × Final max_retries i (answers i) o err
  Replays i (o ∷ next ∷ os) err =
      (o ≡ call_once p (answers i))
      × Replayed (answers i) o
      × (i < max_retries)
      × Replays (suc i) (next ∷ os) err

  abbrev Good : ℕ → Option Replied → Type 0
  Good i none = ⊥
  Good i (some r) = Replays i r.attempts r.err

  cons-Replays :
      (i : ℕ) (o : Once) (os : List Once) (err : Option RpcError)
      → o ≡ call_once p (answers i)
      → Replayed (answers i) o
      → i < max_retries
      → Replays (suc i) os err
      → Replays i (o ∷ os) err
  cons-Replays i o [] err e h lt r = absurd r
  cons-Replays i o (next ∷ os) err e h lt r = (e, h, lt, r)

  preceded_by-Good :
      (i : ℕ) (o : Once) (more : Option Replied)
      → o ≡ call_once p (answers i)
      → Replayed (answers i) o
      → i < max_retries
      → Good (suc i) more
      → Good i (preceded_by o more)
  preceded_by-Good i o none e h lt g = g
  preceded_by-Good i o (some r) e h lt g = cons-Replays i o r.attempts r.err e h lt g

  end_round-Good :
      (i : ℕ) (name : Text) (o : Once) (ctx err : Option RpcError) (more : Option Replied)
      → o ≡ call_once p (answers i)
      → o.err ≡ err
      → (answers i).ctx_err ≡ ctx
      → (i < max_retries → Good (suc i) more)
      → Good i (end_round max_retries i name ctx o err more)
  end_round-Good i name o ctx none more e f c go = (e, inl (f, refl))
  end_round-Good i name o ctx (some x) more e f c go =
      if_cases (Good i) (leb max_retries i || not (is_disconnected_error x))
        (λ stop. (e, inr (x, f, inl (refl, stops max_retries i x stop))))
        (λ on.
          let (lt, disconnected) = goes_on max_retries i x on in by_context ctx c lt disconnected)
    where
      by_context :
          (ctx : Option RpcError)
          → (answers i).ctx_err ≡ ctx
          → i < max_retries
          → Disconnected x
          → Good i (elim ctx [ some e ↦ replied name (some e) o | none ↦ preceded_by o more ])
      by_context none c lt d = preceded_by-Good i o more e (x, f, d, c) lt (go lt)
      by_context (some y) c lt d = (e, inr (x, f, inr ((λ h. cc), sym c)))

  retry_loop-Good :
      (left i : ℕ) (name : Text)
      → i + left ≡ max_retries
      → Good i (retry_loop (suc left) p max_retries answers i name)
  unfolding retry_loop
  retry_loop-Good zero i name e =
      let o = call_once p (answers i) in
      end_round-Good i (name_after name o.name) o (answers i).ctx_err o.err none refl refl refl
        (λ lt. absurd (omega arith))
  retry_loop-Good (suc left) i name e =
      let o = call_once p (answers i) in
      let next = name_after name o.name in
      end_round-Good i next o (answers i).ctx_err o.err
        (retry_loop (suc left) p max_retries answers (suc i) next) refl refl refl
        (λ lt. retry_loop-Good left (suc i) next (omega arith))

  length-Replays :
      (i : ℕ) (os : List Once) (err : Option RpcError)
      → i ≤ max_retries
      → Replays i os err
      → i + length os ≤ suc max_retries
  length-Replays i [] err le h = absurd h
  length-Replays i (o ∷ []) err le h = omega arith
  length-Replays i (o ∷ next ∷ os) err le (e, again, lt, h) =
      omega (arith, length-Replays (suc i) (next ∷ os) err (omega arith) h)

Good-some :
    (p : Process) (max_retries : ℕ) (answers : ℕ → Attempt) (i : ℕ) (o : Option Replied)
    → Good p max_retries answers i o
    → (r : Replied) × (o ≡ some r) × Replays p max_retries answers i r.attempts r.err
Good-some p max_retries answers i none h = absurd h
Good-some p max_retries answers i (some r) h = (r, refl, h)

-- A call with retries ends, whatever the pool, the client and the context answer: it makes at least one
-- attempt and at most one more than `RPCMaxRetries` allows (none more when that is negative). Each of
-- its attempts is a run of `thriftCall2Once`, and every attempt but the last failed by a disconnection,
-- as the type `Disconnected` lists them, with the context still alive; so an error of any other type of
-- transport error, TIMED_OUT among them, is not replayed. What is returned is the last
-- attempt's success, or its error where that was the last attempt allowed or no disconnection, or the
-- error of the context.
pub call_with_retry-Replays :
    (p : Process) (rpc_max_retries : ℤ) (answers : ℕ → Attempt)
    → (r : Replied) × (call_with_retry p rpc_max_retries answers ≡ some r)
      × Replays p (pos_part rpc_max_retries) answers 0 r.attempts r.err
      × (length r.attempts ≤ suc (pos_part rpc_max_retries))
unfolding call_with_retry
call_with_retry-Replays p rpc_max_retries answers =
    let most = pos_part rpc_max_retries in
    let (r, e, h) =
      Good-some p most answers 0 (retry_loop (suc most) p most answers 0 [])
        (retry_loop-Good p most answers most 0 [] (omega arith)) in
    (r, e, h, omega (arith, length-Replays p most answers 0 r.attempts r.err (omega arith) h))

-- What the actions of a call leave borrowed, where every one of them is in order: a connection is
-- borrowed when none is, and used and given back when it is.
abbrev used : ℕ → ℕ → Option (Option ℕ) → Option (Option ℕ)
used c d after = if c == d then after else none

unfoldable pub held_after : Option ℕ → List Action → Option (Option ℕ)
held_after held [] = some held
held_after none (borrows c ∷ actions) = held_after (some c) actions
held_after (some c) (calls d ∷ actions) = used c d (held_after (some c) actions)
held_after (some c) (sets_timeout d t ∷ actions) = used c d (held_after (some c) actions)
held_after (some c) (closes d ∷ actions) = used c d (held_after none actions)
held_after (some c) (discards d ∷ actions) = used c d (held_after none actions)
held_after held (action ∷ actions) = none

abbrev pub all_actions : List Once → List Action
all_actions [] = []
all_actions (o ∷ os) = o.actions ++ all_actions os

used_self : (c : ℕ) (o : Option (Option ℕ)) → used c c o ≡ o
used_self c o = rw ((==_iff c c).1 refl) refl

held_after-give_back :
    (c : ℕ) (err : Option RpcError) (rest : List Action)
    → held_after (some c) (give_back err c ∷ rest) ≡ held_after none rest
unfolding held_after
held_after-give_back c none rest = used_self c (held_after none rest)
held_after-give_back c (some e) rest =
    if_cases (λ a. held_after (some c) (a ∷ rest) ≡ held_after none rest)
      (is_some e.transport || e.protocol) (λ h. used_self c (held_after none rest))
      (λ h. used_self c (held_after none rest))

held_after-process_actions :
    (p : Process) (c : ℕ) (rest : List Action)
    → held_after (some c) (process_actions p c ++ rest) ≡ held_after (some c) rest
unfolding held_after
held_after-process_actions plain_call c rest = used_self c (held_after (some c) rest)
held_after-process_actions (timed_call t u) c rest =
    used_self c (used c c (used c c (held_after (some c) rest)))
    ∙ used_self c (used c c (held_after (some c) rest))
    ∙ used_self c (held_after (some c) rest)

held_after-call_conn :
    (p : Process) (a : Attempt) (got : Got) (rest : List Action)
    → held_after none ((call_conn p a got).actions ++ rest) ≡ held_after none rest
unfolding held_after
held_after-call_conn p a (get_failed e) rest = refl
held_after-call_conn p a (got_conn c) rest =
    ap (held_after (some c)) (append_assoc (process_actions p c) (give_back a.err c ∷ []) rest)
    ∙ held_after-process_actions p c (give_back a.err c ∷ rest)
    ∙ held_after-give_back c a.err rest

held_after-Replays :
    (p : Process) (max_retries : ℕ) (answers : ℕ → Attempt) (i : ℕ) (os : List Once)
    (err : Option RpcError)
    → Replays p max_retries answers i os err
    → held_after none (all_actions os) ≡ some none
unfolding held_after call_once
held_after-Replays p m answers i [] err h = absurd h
held_after-Replays p m answers i (o ∷ []) err (e, f) =
    ap (λ (x : Once). held_after none (x.actions ++ [])) e
    ∙ held_after-call_conn p (answers i) (answers i).got []
held_after-Replays p m answers i (o ∷ next ∷ os) err (e, again, lt, h) =
    ap (λ (x : Once). held_after none (x.actions ++ all_actions (next ∷ os))) e
    ∙ held_after-call_conn p (answers i) (answers i).got (all_actions (next ∷ os))
    ∙ held_after-Replays p m answers (suc i) (next ∷ os) err h

abbrev GivesBack : Option Replied → Type 0
GivesBack none = Unit {0}
GivesBack (some r) = held_after none (all_actions r.attempts) ≡ some none

-- A call holds at most one connection at a time, touches a connection only while it holds it, and gives
-- back every connection that it borrowed exactly once, in each of its attempts, whatever the answers.
pub call_with_retry-gives_back :
    (p : Process) (rpc_max_retries : ℤ) (answers : ℕ → Attempt) (r : Replied)
    → call_with_retry p rpc_max_retries answers ≡ some r
    → held_after none (all_actions r.attempts) ≡ some none
call_with_retry-gives_back p rpc_max_retries answers r e =
    let (q, f, h, n) = call_with_retry-Replays p rpc_max_retries answers in
    subst GivesBack (sym f ∙ e)
      (held_after-Replays p (pos_part rpc_max_retries) answers 0 q.attempts q.err h)
