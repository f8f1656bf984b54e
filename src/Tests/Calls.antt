-- ===== src/Tests/Calls.antt =====
-- Runs of the calls with retries on given answers, with their theorems at those runs.
use lgobase.Base.{ℕ, zero, suc, ◌≤◌, ◌≡◌, refl, true, false, [], ◌∷◌, none, some, length}
use lgobase.Base.Int.{pos}
use lgobase.Base.Text.{codes, eq_text}
use lgobase.Gpool.Retry.{
  RpcError, is_disconnected_error, unknown_transport, borrows, calls, closes, discards,
  sets_timeout, got_conn, Attempt, timed_call, Replied, call_once, call_with_retry, retry_loop,
}
use lgobase.Gpool.Retry.Replay
use lgobase.Gpool.Retry.Replay.{Replays, held_after, all_actions}

abbrev end_of_stream : RpcError
end_of_stream = record {
  transport = some unknown_transport;
  protocol = false;
  cut_off = true;
  text = codes "EOF";
}

-- The first connection is cut off, the second one works.
abbrev cut_off_once : ℕ → Attempt
cut_off_once zero = record {
  got = got_conn 4;
  name = codes "Add";
  err = some end_of_stream;
  ctx_err = none;
}
cut_off_once (suc n) = record { got = got_conn 5; name = []; err = none; ctx_err = none }

abbrev two_attempts : Replied
two_attempts = record {
  name = codes "Add";
  err = none;
  attempts =
      record {
        name = codes "Add";
        err = some end_of_stream;
        actions =
            borrows 4
            ∷ sets_timeout 4 (pos 20)
            ∷ calls 4
            ∷ sets_timeout 4 (pos 100)
            ∷ discards 4
            ∷ [];
      }
      ∷ record {
        name = [];
        err = none;
        actions =
            borrows 5
            ∷ sets_timeout 5 (pos 20)
            ∷ calls 5
            ∷ sets_timeout 5 (pos 100)
            ∷ closes 5
            ∷ [];
      }
      ∷ [];
}

cut_off_once_run :
    call_with_retry (timed_call (pos 20) (pos 100)) (pos 2) cut_off_once ≡ some two_attempts
unfolding call_with_retry retry_loop call_once is_disconnected_error eq_text
cut_off_once_run = refl

call_with_retry-Replays_example :
    (r : Replied) × (call_with_retry (timed_call (pos 20) (pos 100)) (pos 2) cut_off_once ≡ some r)
    × Replays (timed_call (pos 20) (pos 100)) 2 cut_off_once 0 r.attempts r.err
    × (length r.attempts ≤ 3)
call_with_retry-Replays_example =
    Replay.call_with_retry-Replays (timed_call (pos 20) (pos 100)) (pos 2) cut_off_once

call_with_retry-gives_back_example : held_after none (all_actions two_attempts.attempts) ≡ some none
call_with_retry-gives_back_example =
    Replay.call_with_retry-gives_back (timed_call (pos 20) (pos 100)) (pos 2) cut_off_once
      two_attempts cut_off_once_run
