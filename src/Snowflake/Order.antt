-- ===== src/Snowflake/Order.antt =====
-- The identifiers of util/snowflake.go go up.
use lgobase.Base.{
  ℕ, zero, suc, ◌+◌, ◌-◌, ◌^◌, ◌≤◌, ◌<◌, ◌≡◌, inl, inr, sym, ap, ◌∙◌, subst, List, [], ◌∷◌, Option,
  none, some, arith,
}
use native.Mathlib.Nat.{mul-le-mul_right}
use lgobase.Base.Int64.{word_size}
use lgobase.Snowflake.{
  Snowflake, Outcome, done, refused, stamped, next_id, SnowflakeOption, new_snowflake,
}
use lgobase.Snowflake.Fields.{Valid, InTime, rank, digits_of-lt, digits_of-ge}
use lgobase.Snowflake.Valid.{compose-rank, rank-small, Made, new_snowflake-Made}
use lgobase.Snowflake.Issue.{ClockInTime, Later, Follows, next_id-Follows}

-- The identifier of a later state is larger.
rank-stamped :
    (s : Snowflake) (now sequence : ℕ)
    → Valid s
    → InTime s s.timestamp
    → Later s (stamped s now sequence)
    → rank s < rank (stamped s now sequence)
rank-stamped s now sequence v h (inl lt) =
    let bits = s.data_bits + (s.wk_bits + s.seq_bits) in
    let up : suc (s.timestamp - s.epoch) ≤ now - s.epoch = omega arith in
    omega (
      arith,
      digits_of-lt s.data_bits s.wk_bits s.seq_bits (s.timestamp - s.epoch) s.data_id s.worker_id
          s.sequence v.11 v.10 v.9,
      mul-le-mul_right (2 ^ bits) up,
      digits_of-ge s.data_bits s.wk_bits s.seq_bits (now - s.epoch) s.data_id s.worker_id sequence,
    )
rank-stamped s now sequence v h (inr (e, f)) =
    omega (arith, ap (λ (x : ℕ). rank (stamped s x s.sequence)) e)

rank-Later :
    (s t : Snowflake)
    → Valid s
    → InTime s s.timestamp
    → t ≡ stamped s t.timestamp t.sequence
    → Later s t
    → rank s < rank t
rank-Later s t v h e later =
    omega (arith, rank-stamped s t.timestamp t.sequence v h later, ap rank e)

abbrev pub issued_from :
    (Snowflake → List ℕ → List ℕ) → Option (Outcome ℕ × Snowflake × List ℕ) → List ℕ
issued_from go none = []
issued_from go (some (done id, t, clock)) = id ∷ go t clock
issued_from go (some (refused e, t, clock)) = go t clock

-- The identifiers of n calls; a call that fails issues none, and the generator may still wait when
-- there are no more readings of the clock.
unfoldable pub issued : ℕ → Snowflake → List ℕ → List ℕ
issued zero s clock = []
issued (suc n) s clock = issued_from (λ t rest. issued n t rest) (next_id s clock)

-- Every identifier is at least the bound, and larger than those before it, and no `int64` is negative.
abbrev pub Ascending : ℕ → List ℕ → Type 0
Ascending bound [] = Unit {0}
Ascending bound (id ∷ ids) = (bound ≤ id) × (id < 2 ^ 63) × Ascending (suc id) ids

issued_from-Ascending :
    (s : Snowflake) (bound : ℕ) (go : Snowflake → List ℕ → List ℕ)
    (o : Option (Outcome ℕ × Snowflake × List ℕ))
    → Follows s o
    → ((clock : List ℕ) → ClockInTime s clock → Ascending bound (go s clock))
    → ((t : Snowflake) (clock : List ℕ)
        → Valid t
        → InTime t t.timestamp
        → t ≡ stamped s t.timestamp t.sequence
        → Later s t
        → ClockInTime t clock
        → (bound ≤ rank t) × Ascending (suc (rank t)) (go t clock))
    → Ascending bound (issued_from go o)
issued_from-Ascending s bound go none f again next = tt
issued_from-Ascending s bound go (some (done id, t, clock)) (e, v, h, stamp, later, c) again next =
    let is_rank = e ∙ compose-rank t v h in
    let (above, ids) = next t clock v h stamp later c in
    (
      omega (arith, is_rank),
      omega (arith, is_rank, rank-small t v h),
      subst (λ x. Ascending (suc x) (go t clock)) (sym is_rank) ids,
    )
issued_from-Ascending s bound go (some (refused x, t, clock)) (e, same, c) again next =
    subst (λ u. ClockInTime u clock → Ascending bound (go u clock)) (sym same) (again clock) c

-- Once it has issued an identifier.
issued-Ascending_after :
    (n : ℕ) (s : Snowflake) (clock : List ℕ)
    → Valid s
    → InTime s s.timestamp
    → ClockInTime s clock
    → Ascending (suc (rank s)) (issued n s clock)
unfolding issued
issued-Ascending_after zero s clock v h c = tt
issued-Ascending_after (suc n) s clock v h c =
    issued_from-Ascending s (suc (rank s)) (λ t rest. issued n t rest) (next_id s clock)
      (next_id-Follows s v h.0 clock c) (λ rest d. issued-Ascending_after n s rest v h d)
      (λ t rest w k e later d. (rank-Later s t v h e later, issued-Ascending_after n t rest w k d))

issued-Ascending :
    (n : ℕ) (s : Snowflake) (clock : List ℕ)
    → Made s
    → ClockInTime s clock
    → Ascending 0 (issued n s clock)
unfolding issued
issued-Ascending zero s clock m c = tt
issued-Ascending (suc n) s clock (v, z) c =
    issued_from-Ascending s 0 (λ t rest. issued n t rest) (next_id s clock)
      (next_id-Follows s v (omega arith) clock c) (λ rest d. issued-Ascending n s rest (v, z) d)
      (λ t rest w k e later d. (omega arith, issued-Ascending_after n t rest w k d))

-- However often `NextID` is called on a generator that `NewSnowflake` made, the identifiers that it
-- returns go up strictly, so that none comes twice, and none is negative. It wants every time that the
-- clock shows to be from the epoch on, and so close to it that its distance fits the bits that are left
-- of 63; the clock may go back and stand still.
pub new_snowflake-issued :
    (n worker data_center : ℕ) (options : List SnowflakeOption) (s : Snowflake) (clock : List ℕ)
    → worker < word_size
    → data_center < word_size
    → new_snowflake worker data_center options ≡ done s
    → ClockInTime s clock
    → Ascending 0 (issued n s clock)
new_snowflake-issued n worker data_center options s clock hw hd e c =
    issued-Ascending n s clock (new_snowflake-Made worker data_center options s hw hd e) c
