-- ===== src/Tests/Selection.antt =====
-- Runs of the selector of servers, with its theorems at those runs.
use lgobase.Base.{
  ℕ, ◌+◌, ◌<◌, ◌≡◌, ◌⊎◌, refl, Bool, true, false, [], ◌∷◌, List, none, some, get_elem?, arith, inl,
  if_cases, if◌then◌else◌, ◌==◌,
}
use lgobase.Base.Text.{codes}
use lgobase.Gpool.Retry.{RpcError, not_open}
use lgobase.Gpool.Selector.{
  Scan, RpcPoolSelector, valid_count, pick_from, round_robin, should_eject, handle_call_error,
  check_all, Turn,
}
use lgobase.Gpool.Selector.Rotation
use lgobase.Gpool.Selector.Rotation.{steady}
use lgobase.Gpool.Selector.Ejection
use lgobase.Gpool.Selector.Ejection.{Notified, Spares}

-- The middle one of three servers is out.
abbrev servers : List Bool
servers = true ∷ false ∷ true ∷ []

two_valid : valid_count servers ≡ 2
unfolding valid_count
two_valid = refl

round_robin-fair_example :
    (j : ℕ) × (j < valid_count servers)
    × ((second : Scan) → round_robin false none (steady servers (7 + j)) second ≡ some 2)
round_robin-fair_example = Rotation.round_robin-fair servers 2 7 refl (omega (arith, two_valid))

-- The first view counts three servers, and the third one is gone when it would have its turn.
abbrev overtaken : Scan
overtaken = record {
  counted = true ∷ true ∷ true ∷ [];
  ticket = 2;
  looked_at = true ∷ true ∷ false ∷ [];
}

second_round : round_robin false none overtaken (steady (true ∷ true ∷ false ∷ []) 3) ≡ some 1
unfolding round_robin valid_count pick_from
second_round = refl

round_robin-valid_example :
    (get_elem? (true ∷ true ∷ false ∷ []) 1 ≡ some true)
    ⊎ (get_elem? (true ∷ true ∷ false ∷ []) 1 ≡ some true)
round_robin-valid_example =
    Rotation.round_robin-valid false none overtaken (steady (true ∷ true ∷ false ∷ []) 3) 1
      second_round

abbrev selector : RpcPoolSelector
selector = record {
  valid = λ i. true;
  not_valid = [];
  capacity = 3;
  has_ping = true;
  eject_policy = none;
}

abbrev not_connected : RpcError
not_connected = record {
  transport = some not_open;
  protocol = false;
  cut_off = false;
  text = codes "refused";
}

not_connected_ejects : should_eject selector not_connected ≡ true
unfolding should_eject
not_connected_ejects = refl

handle_call_error-twice_example :
    let t = handle_call_error selector 1 (some not_connected) in
    (t.valid 1 ≡ false)
    × ((j : ℕ) → (j ≡ 1) ⊎ (t.valid j ≡ true))
    × Notified selector 1 t.not_valid
    × (handle_call_error t 1 (some not_connected) ≡ t)
handle_call_error-twice_example =
    Ejection.handle_call_error-twice selector 1 not_connected not_connected refl
      not_connected_ejects

pinged : (handle_call_error selector 1 (some not_connected)).has_ping ≡ true
unfolding handle_call_error should_eject
pinged = refl

-- In the turn of the last of three servers, a call to it fails.
abbrev turns : ℕ → Turn
turns i = record {
  before = if i == 2 then (2, some not_connected) ∷ [] else [];
  during = [];
  closed = false;
  ping_err = none;
  closed_later = false;
}

before-Spares : (j : ℕ) → 1 < j → j < 3 → Spares none 1 (turns j).before
before-Spares j gt lt =
    if_cases (Spares none 1) (j == 2) (λ e. (inl (λ h. absurd (omega arith)), tt)) (λ e. tt)

kept_policy : (handle_call_error selector 1 (some not_connected)).eject_policy ≡ none
unfolding handle_call_error should_eject
kept_policy = refl

check_all-recovers_example :
    (check_all (handle_call_error selector 1 (some not_connected)) 3 turns).valid 1 ≡ true
check_all-recovers_example =
    Ejection.check_all-recovers (handle_call_error selector 1 (some not_connected)) 3 1 turns pinged
      (omega arith) refl refl refl (λ j gt lt. rw kept_policy (before-Spares j gt lt))
      (λ j gt lt. tt)
