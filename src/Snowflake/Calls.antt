-- ===== src/Snowflake/Calls.antt =====
-- What a call of `NextID` of util/snowflake.go leaves, and what `ParseID` reads from it.
use lgobase.Base.{
  ℕ, ◌^◌, ◌<◌, ◌≡◌, ◌≢◌, refl, sym, ap, ◌∙◌, subst, true, List, [], ◌∷◌, ◌++◌, Option, none, some,
  ◌==◌, if_cases,
}
use lgobase.Base.Int64.{add_64, less_64}
use lgobase.Snowflake.{
  Snowflake, Outcome, done, refused, compose, issued_later, next_millisecond, next_id, parse_id,
}
use lgobase.Snowflake.Fields.{Valid}
use lgobase.Snowflake.Valid.{parse_id-compose}
use lgobase.Snowflake.Issue.{ClockInTime, Follows, next_id-Follows}

-- `ParseID` finds in an identifier that `NextID` returns the time and the sequence number that the
-- generator holds then, and its data centre and worker. It wants a generator as `NewSnowflake` and the
-- calls before leave it, and a clock that stays within the bits of the time.
pub parse_id-next_id :
    (s t : Snowflake) (clock rest : List ℕ) (id : ℕ)
    → Valid s
    → s.timestamp < 2 ^ 63
    → ClockInTime s clock
    → next_id s clock ≡ some (done id, t, rest)
    → parse_id s id ≡ record {
      timestamp = t.timestamp;
      data_id = s.data_id;
      worker_id = s.worker_id;
      sequence = t.sequence;
    }
unfolding parse_id
parse_id-next_id s t clock rest id v small c e =
    let f = subst (Follows s) e (next_id-Follows s v small clock c) in
    ap (λ x. parse_id s x) f.0
    ∙ ap (λ (x : Snowflake). parse_id x (compose t)) (sym f.3)
    ∙ parse_id-compose t f.1 f.2
    ∙ ap
        (λ (x : Snowflake). record {
          timestamp = t.timestamp;
          data_id = x.data_id;
          worker_id = x.worker_id;
          sequence = t.sequence;
        })
        f.3

-- A call of `NextID` leaves the generator valid, whatever the clock shows within the bits of the time.
pub next_id-Valid :
    (s t : Snowflake) (clock rest : List ℕ) (r : Outcome ℕ)
    → Valid s
    → s.timestamp < 2 ^ 63
    → ClockInTime s clock
    → next_id s clock ≡ some (r, t, rest)
    → Valid t
next_id-Valid s t clock rest (done id) v small c e =
    (subst (Follows s) e (next_id-Follows s v small clock c)).1
next_id-Valid s t clock rest (refused x) v small c e =
    subst Valid (sym (subst (Follows s) e (next_id-Follows s v small clock c)).1) v

next_millisecond-ends :
    (timestamp later : ℕ) (before after : List ℕ)
    → less_64 timestamp later ≡ true
    → next_millisecond timestamp (before ++ later ∷ after) ≢ none
unfolding next_millisecond
next_millisecond-ends timestamp later [] after h = rw h (λ e. cc)
next_millisecond-ends timestamp later (now ∷ before) after h =
    if_cases (λ o. o ≢ none) (less_64 timestamp now) (λ e f. cc)
      (λ e. next_millisecond-ends timestamp later before after h)

issued_later-ends : (s : Snowflake) (o : Option (ℕ × List ℕ)) → o ≢ none → issued_later s o ≢ none
issued_later-ends s none h e = h refl
issued_later-ends s (some (now, clock)) h e = cc

-- `NextID` returns as soon as the clock shows a later time than the last one, whatever it shows before:
-- the loop that waits for the next millisecond ends there.
pub next_id-returns :
    (s : Snowflake) (now later : ℕ) (before after : List ℕ)
    → less_64 s.timestamp later ≡ true
    → next_id s (now ∷ (before ++ later ∷ after)) ≢ none
unfolding next_id
next_id-returns s now later before after h =
    if_cases (λ o. o ≢ none) (less_64 now s.timestamp) (λ e f. cc)
      (λ e.
        if_cases (λ o. o ≢ none) (now == s.timestamp)
          (λ f.
            if_cases (λ o. o ≢ none) (less_64 s.max_seq (add_64 s.sequence 1))
              (λ g.
                issued_later-ends s (next_millisecond s.timestamp (before ++ later ∷ after))
                  (next_millisecond-ends s.timestamp later before after h))
              (λ g k. cc))
          (λ f g. cc))
