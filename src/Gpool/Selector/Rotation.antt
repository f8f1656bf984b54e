-- ===== src/Gpool/Selector/Rotation.antt =====
-- `RoundRobin` of gpool/gpool_selector.go gives every valid server its turn.
use native.Mathlib.Nat.{mul-add-mod_self_left, mod-add-div, mod-lt, mod-eq_of_lt}
use lgobase.Base.{
  ℕ, zero, suc, ◌+◌, ◌-◌, ◌*◌, ◌/◌, ◌%◌, ◌^◌, ◌≤◌, ◌<◌, ◌≡◌, ◌≢◌, ◌⊎◌, inl, inr, refl, sym, ap, ◌∙◌,
  subst, Bool, true, false, ◌||◌, List, [], ◌∷◌, Option, none, some, length, get_elem?, if_cases,
  arith, ◌==◌, Bool-cases, leb, leb→le,
}
use lgobase.Gpool.Retry.{RpcError, is_some}
use lgobase.Gpool.Selector.{
  valid_count, pick_from, Scan, target_of, or_retry, scan_round, round_robin,
}

-- The places of the valid servers.
unfoldable pub valid_places : ℕ → List Bool → List ℕ
valid_places place [] = []
valid_places place (true ∷ vs) = place ∷ valid_places (suc place) vs
valid_places place (false ∷ vs) = valid_places (suc place) vs

length-valid_places : (place : ℕ) (vs : List Bool) → length (valid_places place vs) ≡ valid_count vs
unfolding valid_places valid_count
length-valid_places place [] = refl
length-valid_places place (true ∷ vs) = ap suc (length-valid_places (suc place) vs)
length-valid_places place (false ∷ vs) = length-valid_places (suc place) vs

suc_is_zero : (n : ℕ) → (suc n == 0) ≡ false
suc_is_zero n = ground arith

one_less : (n : ℕ) → suc n - 1 ≡ n
one_less n = omega arith

pick_from-valid_places :
    (place target : ℕ) (vs : List Bool)
    → pick_from place target vs ≡ get_elem? (valid_places place vs) target
unfolding pick_from valid_places
pick_from-valid_places place target [] = refl
pick_from-valid_places place zero (true ∷ vs) = refl
pick_from-valid_places place (suc n) (true ∷ vs) =
    rw (suc_is_zero n)
      (ap (λ t. pick_from (suc place) t vs) (one_less n) ∙ pick_from-valid_places (suc place) n vs)
pick_from-valid_places place target (false ∷ vs) = pick_from-valid_places (suc place) target vs

get_elem?-some : (xs : List ℕ) (n : ℕ) → n < length xs → (x : ℕ) × (get_elem? xs n ≡ some x)
get_elem?-some [] n h = absurd (omega arith)
get_elem?-some (x ∷ xs) zero h = (x, refl)
get_elem?-some (x ∷ xs) (suc n) h = get_elem?-some xs n (omega arith)

-- A round in which no server changes.
abbrev pub steady : List Bool → ℕ → Scan
steady vs ticket = record { counted = vs; ticket = ticket; looked_at = vs }

steady_round :
    (vs : List Bool) (ticket : ℕ) (retry : Option ℕ)
    → 0 < valid_count vs
    → scan_round (steady vs ticket) retry
      ≡ get_elem? (valid_places 0 vs) (ticket % 2 ^ 32 % valid_count vs)
steady_round vs ticket retry h =
    if_cases (λ o. o ≡ get_elem? (valid_places 0 vs) (ticket % 2 ^ 32 % valid_count vs))
      (valid_count vs == 0) (λ e. absurd (ground arith))
      (λ e.
        let t = ticket % 2 ^ 32 % valid_count vs in
        let (x, found) = get_elem?-some (valid_places 0 vs) t (
          omega
            (arith, length-valid_places 0 vs, mod-lt (ticket % 2 ^ 32) {m = valid_count vs} h)) in
        ap (λ o. or_retry o retry) (pick_from-valid_places 0 t vs ∙ found) ∙ sym found)

-- Among m tickets in a row, one leaves the remainder p by m.
ticket_for : (m t p : ℕ) → p < m → (j : ℕ) × (j < m) × ((t + j) % m ≡ p)
ticket_for m t p lt =
    let r = t % m in
    let small : r < m = mod-lt t (omega arith) in
    let whole : r + m * (t / m) ≡ t = mod-add-div t m in
    elim (Bool-cases (leb r p)) [
      | inl e ↦
          let le = leb→le r p e in
          (
            p - r,
            omega arith,
            ap (λ (x : ℕ). x % m) (omega (arith, whole))
                ∙ mul-add-mod_self_left m (t / m) p
                ∙ mod-eq_of_lt lt,
          )
      | inr e ↦
          let gt : p < r = ground arith in
          (
            p + m - r,
            omega arith,
            ap (λ (x : ℕ). x % m) (next_lap m t p r whole (omega arith) gt)
                ∙ mul-add-mod_self_left m (suc (t / m)) p
                ∙ mod-eq_of_lt lt,
          )
    ]
  where
    next_lap :
        (m t p r : ℕ) → r + m * (t / m) ≡ t → r < m → p < r → t + (p + m - r) ≡ m * suc (t / m) + p
    next_lap m t p r whole small gt = grind arith

abbrev IsFalse : Option Bool → Type 0
IsFalse (some true) = ⊥
IsFalse _ = Unit {0}

false≢true : some false ≢ some true
false≢true h = subst IsFalse h tt

-- The place of a valid server among the valid ones.
valid_places-get_elem? :
    (place i : ℕ) (vs : List Bool)
    → get_elem? vs i ≡ some true
    → (p : ℕ) × (p < valid_count vs) × (get_elem? (valid_places place vs) p ≡ some (place + i))
unfolding valid_places valid_count
valid_places-get_elem? place i [] h = absurd cc
valid_places-get_elem? place zero (true ∷ vs) h = (0, omega arith, ap some (omega arith))
valid_places-get_elem? place zero (false ∷ vs) h = absurd (false≢true h)
valid_places-get_elem? place (suc i) (true ∷ vs) h =
    let (p, lt, e) = valid_places-get_elem? (suc place) i vs h in
    (suc p, omega arith, e ∙ ap some (omega arith))
valid_places-get_elem? place (suc i) (false ∷ vs) h =
    let (p, lt, e) = valid_places-get_elem? (suc place) i vs h in
    (p, omega arith, e ∙ ap some (omega arith))

-- While no server changes, every valid server has its turn: among as many tickets in a row as there are
-- valid servers, one gives that server, as long as the tickets do not wrap around at 2 ^ 32 in between.
pub round_robin-fair :
    (vs : List Bool) (i ticket : ℕ)
    → get_elem? vs i ≡ some true
    → ticket + valid_count vs ≤ 2 ^ 32
    → (j : ℕ) × (j < valid_count vs)
      × ((second : Scan) → round_robin false none (steady vs (ticket + j)) second ≡ some i)
unfolding round_robin
round_robin-fair vs i ticket h le =
    let (p, lt, e) = valid_places-get_elem? 0 i vs h in
    let (j, less, f) = ticket_for (valid_count vs) ticket p lt in
    (
      j,
      less,
      (λ second.
          steady_round vs (ticket + j) (scan_round second none) (omega arith)
          ∙ ap (λ x. get_elem? (valid_places 0 vs) (x % valid_count vs))
              (mod-eq_of_lt (omega arith))
          ∙ ap (get_elem? (valid_places 0 vs)) f
          ∙ e
          ∙ ap some (omega arith)),
    )

-- The server at a place behind the given one is valid.
abbrev FoundFrom : ℕ → List Bool → Option ℕ → Type 0
FoundFrom place vs none = Unit {0}
FoundFrom place vs (some i) = (k : ℕ) × (place + k ≡ i) × (get_elem? vs k ≡ some true)

FoundFrom-cons :
    (place : ℕ) (v : Bool) (vs : List Bool) (o : Option ℕ)
    → FoundFrom (suc place) vs o
    → FoundFrom place (v ∷ vs) o
FoundFrom-cons place v vs none h = tt
FoundFrom-cons place v vs (some i) (k, e, f) = (suc k, omega arith, f)

pick_from-FoundFrom :
    (place target : ℕ) (vs : List Bool) → FoundFrom place vs (pick_from place target vs)
unfolding pick_from
pick_from-FoundFrom place target [] = tt
pick_from-FoundFrom place target (false ∷ vs) =
    FoundFrom-cons place false vs (pick_from (suc place) target vs)
      (pick_from-FoundFrom (suc place) target vs)
pick_from-FoundFrom place target (true ∷ vs) =
    if_cases (FoundFrom place (true ∷ vs)) (target == 0) (λ e. (0, omega arith, refl))
      (λ e.
        FoundFrom-cons place true vs (pick_from (suc place) (target - 1) vs)
          (pick_from-FoundFrom (suc place) (target - 1) vs))

abbrev IsValidIn : Scan → Scan → Option ℕ → Type 0
IsValidIn first second none = Unit {0}
IsValidIn first second (some i) =
    (get_elem? first.looked_at i ≡ some true) ⊎ (get_elem? second.looked_at i ≡ some true)

found_in : (vs : List Bool) (i : ℕ) → FoundFrom 0 vs (some i) → get_elem? vs i ≡ some true
found_in vs i (k, e, f) = ap (get_elem? vs) (omega arith) ∙ f

retried :
    (first second : Scan) (o retry : Option ℕ)
    → FoundFrom 0 first.looked_at o
    → IsValidIn first second retry
    → IsValidIn first second (or_retry o retry)
retried first second none retry h k = k
retried first second (some i) retry h k = inl (found_in first.looked_at i h)

second_round : (first second : Scan) → IsValidIn first second (scan_round second none)
second_round first second =
    if_cases (IsValidIn first second) (valid_count second.counted == 0) (λ e. tt)
      (λ e.
        last (pick_from 0 (target_of second) second.looked_at)
          (pick_from-FoundFrom 0 (target_of second) second.looked_at))
  where
    last :
        (o : Option ℕ) → FoundFrom 0 second.looked_at o → IsValidIn first second (or_retry o none)
    last none h = tt
    last (some i) h = inr (found_in second.looked_at i h)

-- Whatever other goroutines do to the servers meanwhile, `RoundRobin` gives only a server that it found
-- valid when it looked at it in the second scan of one of its rounds.
pub round_robin-valid :
    (closed : Bool) (init_err : Option RpcError) (first second : Scan) (i : ℕ)
    → round_robin closed init_err first second ≡ some i
    → (get_elem? first.looked_at i ≡ some true) ⊎ (get_elem? second.looked_at i ≡ some true)
unfolding round_robin
round_robin-valid closed init_err first second i e = subst (IsValidIn first second) e (
    if_cases (IsValidIn first second) (closed || is_some init_err) (λ h. tt)
      (λ h.
        if_cases (IsValidIn first second) (valid_count first.counted == 0) (λ k. tt)
          (λ k.
            retried first second (pick_from 0 (target_of first) first.looked_at)
              (scan_round second none) (pick_from-FoundFrom 0 (target_of first) first.looked_at)
              (second_round first second))))
