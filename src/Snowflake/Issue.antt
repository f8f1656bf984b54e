-- ===== src/Snowflake/Issue.antt =====
-- What `NextID` of util/snowflake.go issues, call by call.
use lgobase.Base.{
  ℕ, suc, ◌^◌, ◌≤◌, ◌<◌, ◌≡◌, ◌≢◌, ◌⊎◌, inl, inr, refl, true, false, List, [], ◌∷◌, Option, none,
  some, ◌==◌, if_cases, arith, ==_iff,
}
use native.Mathlib.Nat.{one-le-pow}
use lgobase.Base.Int64.{add_64, less_64}
use lgobase.Snowflake.{
  Snowflake, clock_backwards, Outcome, done, refused, compose, stamped, issued_at, issued_later,
  next_millisecond, next_id,
}
use lgobase.Snowflake.Fields.{Valid, InTime}
use lgobase.Snowflake.Valid.{few_values}

-- What the clock shows stays in time.
abbrev pub ClockInTime : Snowflake → List ℕ → Type 0
ClockInTime s [] = Unit {0}
ClockInTime s (now ∷ clock) = InTime s now × ClockInTime s clock

-- The fields go up: by the time, or by the sequence number.
abbrev pub Later : Snowflake → Snowflake → Type 0
Later s t =
    (s.timestamp < t.timestamp) ⊎ ((t.timestamp ≡ s.timestamp) × (t.sequence ≡ suc s.sequence))

-- What a call leaves, of what it found.
abbrev pub Follows : Snowflake → Option (Outcome ℕ × Snowflake × List ℕ) → Type 0
Follows s none = Unit {0}
Follows s (some (done id, t, clock)) =
    (id ≡ compose t)
    × Valid t
    × InTime t t.timestamp
    × (t ≡ stamped s t.timestamp t.sequence)
    × Later s t
    × ClockInTime t clock
Follows s (some (refused e, t, clock)) = (e ≡ clock_backwards) × (t ≡ s) × ClockInTime t clock

less_64→lt : (a b : ℕ) → a < 2 ^ 63 → b < 2 ^ 63 → less_64 a b ≡ true → a < b
unfolding less_64
less_64→lt a b h k e = ground arith

less_64→le : (a b : ℕ) → a < 2 ^ 63 → b < 2 ^ 63 → less_64 a b ≡ false → b ≤ a
unfolding less_64
less_64→le a b h k e = ground arith

different : (a b : ℕ) → (a == b) ≡ false → a ≢ b
different a b e = ground arith

-- The next number in the sequence, where there is one.
next_sequence :
    (s : Snowflake)
    → Valid s
    → less_64 s.max_seq (add_64 s.sequence 1) ≡ false
    → (add_64 s.sequence 1 < 2 ^ s.seq_bits) × (add_64 s.sequence 1 ≡ suc s.sequence)
unfolding add_64
next_sequence s v e =
    let few = few_values s.seq_bits v.0 in
    let le = less_64→le s.max_seq (add_64 s.sequence 1) (omega (arith, v.3)) (omega arith) e in
    (omega (arith, v.3, one-le-pow s.seq_bits 2), omega arith)

module _ (s : Snowflake) (v : Valid s) (small : s.timestamp < 2 ^ 63) where
  issued_at-Follows :
      (now sequence : ℕ) (clock : List ℕ)
      → sequence < 2 ^ s.seq_bits
      → InTime s now
      → (s.timestamp < now) ⊎ ((now ≡ s.timestamp) × (sequence ≡ suc s.sequence))
      → ClockInTime s clock
      → Follows s (some (issued_at s now sequence clock))
  issued_at-Follows now sequence clock fits h later c =
      (refl, (v.0, v.1, v.2, v.3, v.4, v.5, v.6, v.7, v.8, fits, v.10, v.11), h, refl, later, c)

  waited-Follows :
      (clock : List ℕ)
      → ClockInTime s clock
      → Follows s (issued_later s (next_millisecond s.timestamp clock))
  unfolding next_millisecond
  waited-Follows [] c = tt
  waited-Follows (now ∷ clock) (h, c) =
      if_cases (λ o. Follows s (issued_later s o)) (less_64 s.timestamp now)
        (λ e.
          issued_at-Follows now 0 clock (one-le-pow s.seq_bits 2 (omega arith)) h
            (inl (less_64→lt s.timestamp now small h.0 e)) c)
        (λ e. waited-Follows clock c)

  pub next_id-Follows : (clock : List ℕ) → ClockInTime s clock → Follows s (next_id s clock)
  unfolding next_id
  next_id-Follows [] c = tt
  next_id-Follows (now ∷ clock) (h, c) =
      if_cases (Follows s) (less_64 now s.timestamp) (λ e. (refl, refl, c))
        (λ e.
          if_cases (Follows s) (now == s.timestamp)
            (λ f.
              if_cases (Follows s) (less_64 s.max_seq (add_64 s.sequence 1))
                (λ g. waited-Follows clock c)
                (λ g.
                  let (fits, next) = next_sequence s v g in
                  issued_at-Follows now (add_64 s.sequence 1) clock fits h
                    (inr ((==_iff now s.timestamp).0 f, next)) c))
            (λ f.
              issued_at-Follows now 0 clock (one-le-pow s.seq_bits 2 (omega arith)) h
                (inl (
                  omega
                    (arith, less_64→le now s.timestamp h.0 small e, different now s.timestamp f)))
                c))
