-- ===== src/Gpool/Selector/Ejection.antt =====
-- Servers of gpool/gpool_selector.go are taken out once and come back.
use lgobase.Base.{
  ℕ, zero, suc, ◌<◌, ◌≤◌, ◌≡◌, ◌≢◌, ◌⊎◌, List, [], ◌∷◌, ◌++◌, sym, inl, inr, refl, ap, ◌∙◌, subst,
  Bool, true, false, not, ◌||◌, Option, none, some, length, ltb, if◌then◌else◌, if_cases,
  Bool-cases, arith, ◌==◌, ==_iff,
}
use lgobase.Gpool.Retry.{RpcError}
use lgobase.Gpool.Selector.{
  RpcPoolSelector, should_eject, set_valid, notify, handle_call_error, after_ping,
  check_server_health, check_all, calls_end, Turn, take_turn, policy_or_default,
}

below : (n c : ℕ) → n < suc c → (n < c) ⊎ (n ≡ c)
below n c lt = ground arith

notify-valid : (s : RpcPoolSelector) (i : ℕ) → (notify s i).valid ≡ s.valid
notify-valid s i =
    if_cases (λ (t : RpcPoolSelector). t.valid ≡ s.valid) (ltb (length s.not_valid) s.capacity)
      (λ e. refl) (λ e. refl)

set_valid-valid : (s : RpcPoolSelector) (i : ℕ) (v : Bool) → (set_valid s i v).valid i ≡ v
set_valid-valid s i v = rw ((==_iff i i).1 refl) refl

ejected :
    (s : RpcPoolSelector) (i : ℕ)
    → (if s.valid i then notify (set_valid s i false) i else s).valid i ≡ false
ejected s i = elim (Bool-cases (s.valid i)) [
  | inl e ↦ rw e (
      ap (λ (f : ℕ → Bool). f i) (notify-valid (set_valid s i false) i) ∙ set_valid-valid s i false)
  | inr e ↦ rw e e
]

handle_call_error-invalid :
    (s : RpcPoolSelector) (i : ℕ) (e : RpcError)
    → s.valid i ≡ false
    → handle_call_error s i (some e) ≡ s
unfolding handle_call_error
handle_call_error-invalid s i e h =
    if_cases (λ t. t ≡ s) (not s.has_ping || not (should_eject s e)) (λ k. refl) (λ k. rw h refl)

guard : (a b : Bool) → a ≡ true → b ≡ true → (not a || not b) ≡ false
guard true true h k = refl
guard true false h k = absurd cc
guard false b h k = absurd cc

clash : {b : Bool} → b ≡ false → b ≡ true → ⊥
clash f t = absurd cc

-- Where a failure leaves the channel of the health checker: the server is sent once, if it was valid
-- and the channel has room, and else nothing is sent.
abbrev pub Notified : RpcPoolSelector → ℕ → List ℕ → Type 0
Notified s i sent =
    ((s.valid i ≡ true) × (length s.not_valid < s.capacity) × (sent ≡ s.not_valid ++ i ∷ []))
    ⊎ (((s.valid i ≡ false) ⊎ (s.capacity ≤ length s.not_valid)) × (sent ≡ s.not_valid))

notify-Notified :
    (s : RpcPoolSelector) (i : ℕ)
    → s.valid i ≡ true
    → Notified s i (notify (set_valid s i false) i).not_valid
notify-Notified s i h =
    if_cases (λ (t : RpcPoolSelector). Notified s i t.not_valid)
      (ltb (length s.not_valid) s.capacity) (λ e. inl (h, ground arith, refl))
      (λ e. inr (inr (ground arith), refl))

ejected-Notified :
    (s : RpcPoolSelector) (i : ℕ)
    → Notified s i (if s.valid i then notify (set_valid s i false) i else s).not_valid
ejected-Notified s i =
    if_cases (λ (t : RpcPoolSelector). Notified s i t.not_valid) (s.valid i)
      (λ e. notify-Notified s i e) (λ e. inr (inl e, refl))

ejected_other :
    (s : RpcPoolSelector) (i j : ℕ)
    → j ≢ i
    → (if s.valid i then notify (set_valid s i false) i else s).valid j ≡ s.valid j
ejected_other s i j ne =
    if_cases (λ (t : RpcPoolSelector). t.valid j ≡ s.valid j) (s.valid i)
      (λ e.
        ap (λ (f : ℕ → Bool). f j) (notify-valid (set_valid s i false) i)
        ∙ if_cases (λ b. b ≡ s.valid j) (j == i) (λ k. absurd (ne ((==_iff j i).0 k))) (λ k. refl))
      (λ e. refl)

-- A call that fails by an error that takes servers out takes its server out and no other one. It sends
-- the server to the health checker once if the server was valid and the channel has room, and else
-- sends nothing. A second failure of that server, by any error, changes nothing at all. It wants the
-- selector to have a ping, without which no server is taken out.
pub handle_call_error-twice :
    (s : RpcPoolSelector) (i : ℕ) (e later : RpcError)
    → s.has_ping ≡ true
    → should_eject s e ≡ true
    → let t = handle_call_error s i (some e) in
      (t.valid i ≡ false)
      × ((j : ℕ) → (j ≡ i) ⊎ (t.valid j ≡ s.valid j))
      × Notified s i t.not_valid
      × (handle_call_error t i (some later) ≡ t)
unfolding handle_call_error
handle_call_error-twice s i e later ping eject =
    let passes = guard s.has_ping (should_eject s e) ping eject in
    let out : (handle_call_error s i (some e)).valid i ≡ false = rw passes (ejected s i) in
    (
      out,
      (λ j. elim (Bool-cases (j == i)) [
        | inl same ↦ inl ((==_iff j i).0 same)
        | inr other ↦ inr (rw passes (ejected_other s i j (λ x. clash other ((==_iff j i).1 x))))
      ]),
      rw passes (ejected-Notified s i),
      handle_call_error-invalid (handle_call_error s i (some e)) i later out,
    )

-- What the operations keep: the ping and the policy, and that a server is valid.
abbrev SameRules : RpcPoolSelector → RpcPoolSelector → Type 0
SameRules s t = (t.has_ping ≡ s.has_ping) × (t.eject_policy ≡ s.eject_policy)

abbrev Keeps : ℕ → RpcPoolSelector → RpcPoolSelector → Type 0
Keeps i s t = s.valid i ≡ true → t.valid i ≡ true

handle_call_error-SameRules :
    (s : RpcPoolSelector) (k : ℕ) (err : Option RpcError) → SameRules s (handle_call_error s k err)
unfolding handle_call_error
handle_call_error-SameRules s k none = (refl, refl)
handle_call_error-SameRules s k (some e) =
    if_cases (SameRules s) (not s.has_ping || not (should_eject s e)) (λ h. (refl, refl))
      (λ h.
        if_cases (SameRules s) (s.valid k)
          (λ v.
            if_cases (SameRules s) (ltb (length s.not_valid) s.capacity) (λ n. (refl, refl))
              (λ n. (refl, refl)))
          (λ v. (refl, refl)))

calls_end-SameRules :
    (s : RpcPoolSelector) (ended : List (ℕ × Option RpcError)) → SameRules s (calls_end s ended)
unfolding calls_end
calls_end-SameRules s [] = (refl, refl)
calls_end-SameRules s ((k, err) ∷ ended) =
    let (p, q) = calls_end-SameRules (handle_call_error s k err) ended in
    let (p', q') = handle_call_error-SameRules s k err in (p ∙ p', q ∙ q')

-- None of the calls of a list takes a server out: it goes to another one, it succeeds, or its error
-- does not take servers out.
abbrev Harmless : Option (RpcError → Bool) → Option RpcError → Type 0
Harmless policy none = Unit
Harmless policy (some e) = policy_or_default policy e ≡ false

abbrev pub Spares : Option (RpcError → Bool) → ℕ → List (ℕ × Option RpcError) → Type 0
Spares policy i [] = Unit
Spares policy i ((k, err) ∷ ended) = ((i ≢ k) ⊎ Harmless policy err) × Spares policy i ended

handle_call_error-Keeps :
    (s : RpcPoolSelector) (i k : ℕ) (err : Option RpcError)
    → (i ≢ k) ⊎ Harmless s.eject_policy err
    → Keeps i s (handle_call_error s k err)
unfolding handle_call_error should_eject
handle_call_error-Keeps s i k none h v = v
handle_call_error-Keeps s i k (some e) (inl ne) v =
    if_cases (λ (t : RpcPoolSelector). t.valid i ≡ true)
      (not s.has_ping || not (policy_or_default s.eject_policy e)) (λ x. v)
      (λ x. ejected_other s k i ne ∙ v)
handle_call_error-Keeps s i k (some e) (inr harmless) v =
    rw (spared s.has_ping (policy_or_default s.eject_policy e) harmless) v
  where
    spared : (a b : Bool) → b ≡ false → (not a || not b) ≡ true
    spared true true h = absurd cc
    spared true false h = refl
    spared false b h = refl

calls_end-Keeps :
    (s : RpcPoolSelector) (i : ℕ) (policy : Option (RpcError → Bool))
    (ended : List (ℕ × Option RpcError))
    → s.eject_policy ≡ policy
    → Spares policy i ended
    → Keeps i s (calls_end s ended)
unfolding calls_end
calls_end-Keeps s i policy [] e h v = v
calls_end-Keeps s i policy ((k, err) ∷ ended) e (h, hs) v =
    let t = handle_call_error s k err in
    calls_end-Keeps t i policy ended ((handle_call_error-SameRules s k err).1 ∙ e) hs
      (handle_call_error-Keeps s i k err (subst (λ q. (i ≢ k) ⊎ Harmless q err) (sym e) h) v)

after_ping-SameRules :
    (s : RpcPoolSelector) (k : ℕ) (o : Option RpcError) (closed : Bool)
    → SameRules s (after_ping s k o closed)
after_ping-SameRules s k (some e) closed = (refl, refl)
after_ping-SameRules s k none closed =
    if_cases (SameRules s) closed (λ e. (refl, refl)) (λ e. (refl, refl))

after_ping-Keeps :
    (s : RpcPoolSelector) (i k : ℕ) (o : Option RpcError) (closed : Bool)
    → Keeps i s (after_ping s k o closed)
after_ping-Keeps s i k (some e) closed v = v
after_ping-Keeps s i k none closed v =
    if_cases (λ (t : RpcPoolSelector). t.valid i ≡ true) closed (λ e. v)
      (λ e. if_cases (λ b. b ≡ true) (i == k) (λ e. refl) (λ e. v))

take_turn-SameRules : (s : RpcPoolSelector) (k : ℕ) (t : Turn) → SameRules s (take_turn s k t)
unfolding check_server_health
take_turn-SameRules s k t =
    if_cases (SameRules s) (s.valid k) (λ e. (refl, refl))
      (λ e.
        if_cases (SameRules s) (s.valid k || t.closed || not s.has_ping) (λ e. (refl, refl))
          (λ e.
            let (p, q) = after_ping-SameRules (calls_end s t.during) k t.ping_err t.closed_later in
            let (p', q') = calls_end-SameRules s t.during in (p ∙ p', q ∙ q')))

take_turn-Keeps :
    (s : RpcPoolSelector) (i k : ℕ) (policy : Option (RpcError → Bool)) (t : Turn)
    → s.eject_policy ≡ policy
    → Spares policy i t.during
    → Keeps i s (take_turn s k t)
unfolding check_server_health
take_turn-Keeps s i k policy t e h v =
    if_cases (λ (u : RpcPoolSelector). u.valid i ≡ true) (s.valid k) (λ x. v)
      (λ x.
        if_cases (λ (u : RpcPoolSelector). u.valid i ≡ true)
          (s.valid k || t.closed || not s.has_ping) (λ y. v)
          (λ y.
            after_ping-Keeps (calls_end s t.during) i k t.ping_err t.closed_later
              (calls_end-Keeps s i policy t.during e h v)))

check_all-SameRules :
    (s : RpcPoolSelector) (n : ℕ) (turns : ℕ → Turn) → SameRules s (check_all s n turns)
unfolding check_all
check_all-SameRules s zero turns = (refl, refl)
check_all-SameRules s (suc n) turns =
    let r = check_all s n turns in
    let u = calls_end r (turns n).before in
    let (p, q) = check_all-SameRules s n turns in
    let (p', q') = calls_end-SameRules r (turns n).before in
    let (p'', q'') = take_turn-SameRules u n (turns n) in (p'' ∙ p' ∙ p, q'' ∙ q' ∙ q)

reaches : (a b c : Bool) → a ≡ false → b ≡ false → c ≡ true → (a || b || not c) ≡ false
reaches a b c e f g = rw (e, f, g) refl

-- The server's own turn makes it valid: it is so already, or its ping succeeds.
own_turn :
    (s : RpcPoolSelector) (i : ℕ) (t : Turn)
    → s.has_ping ≡ true
    → t.closed ≡ false
    → t.closed_later ≡ false
    → t.ping_err ≡ none
    → (take_turn s i t).valid i ≡ true
unfolding check_server_health
own_turn s i t ping is_open stays_open ok =
    if_cases (λ (u : RpcPoolSelector). u.valid i ≡ true) (s.valid i) (λ e. e)
      (λ e.
        rw (reaches (s.valid i) t.closed s.has_ping e is_open ping, ok, stays_open)
          (set_valid-valid (calls_end s t.during) i true))

module _ (s : RpcPoolSelector) (i : ℕ) (turns : ℕ → Turn) (ping : s.has_ping ≡ true)
    (is_open : (turns i).closed ≡ false) (stays_open : (turns i).closed_later ≡ false)
    (ok : (turns i).ping_err ≡ none) where
  later_turns :
      (n : ℕ)
      → i < n
      → ((j : ℕ) → i < j → j < n → Spares s.eject_policy i ((turns j).before))
      → ((j : ℕ) → i < j → j < n → Spares s.eject_policy i ((turns j).during))
      → (check_all s n turns).valid i ≡ true
  unfolding check_all
  later_turns zero lt before during = absurd (omega arith)
  later_turns (suc n) lt before during =
      let r = check_all s n turns in
      let u = calls_end r (turns n).before in
      let rules = check_all-SameRules s n turns in
      let rules' = calls_end-SameRules r (turns n).before in
      elim (below i n lt) [
        | inl less ↦
            let earlier =
              later_turns n less (λ j gt lt. before j gt (omega arith))
                (λ j gt lt. during j gt (omega arith)) in
            take_turn-Keeps u i n s.eject_policy (turns n) (rules'.1 ∙ rules.1)
              (during n less (omega arith))
              (calls_end-Keeps r i s.eject_policy (turns n).before rules.1
                (before n less (omega arith)) earlier)
        | inr same ↦
            subst
              (λ m.
                (take_turn (calls_end (check_all s m turns) (turns m).before) m (turns m)).valid i
                ≡ true)
              same
              (own_turn (calls_end (check_all s i turns) (turns i).before) i (turns i)
                ((calls_end-SameRules (check_all s i turns) (turns i).before).0
                  ∙ (check_all-SameRules s i turns).0
                  ∙ ping)
                is_open stays_open ok)
      ]

-- When the ticker fires, a server whose ping succeeds, while the selector is open before and behind that
-- ping, is valid after the turn of the last server, whatever the other pings return and whatever calls
-- of other goroutines end before its turn and during its ping. The calls that end before the turns of
-- the servers behind it and during their pings must not take it out again.
pub check_all-recovers :
    (s : RpcPoolSelector) (n i : ℕ) (turns : ℕ → Turn)
    → s.has_ping ≡ true
    → i < n
    → (turns i).closed ≡ false
    → (turns i).closed_later ≡ false
    → (turns i).ping_err ≡ none
    → ((j : ℕ) → i < j → j < n → Spares s.eject_policy i ((turns j).before))
    → ((j : ℕ) → i < j → j < n → Spares s.eject_policy i ((turns j).during))
    → (check_all s n turns).valid i ≡ true
check_all-recovers s n i turns ping lt is_open stays_open ok before during =
    later_turns s i turns ping is_open stays_open ok n lt before during
