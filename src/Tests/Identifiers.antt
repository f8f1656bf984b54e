-- ===== src/Tests/Identifiers.antt =====
-- Runs of the generator of identifiers, with its theorems at those runs.
use lgobase.Base.{ℕ, ◌≡◌, ◌≢◌, refl, true, List, [], ◌∷◌, ◌++◌, none, some, arith}
use lgobase.Base.Int64.{add_64, sub_64, shl_64, less_64}
use lgobase.Snowflake.{
  Snowflake, done, with_epoch, apply_option, apply_options, configure, new_snowflake, compose,
  stamped, next_millisecond, next_id, parse_id, with_sequence_bits,
}
use lgobase.Snowflake.Fields.{Valid, InTime}
use lgobase.Snowflake.Valid.{new_snowflake-Made}
use lgobase.Snowflake.Issue.{ClockInTime}
use lgobase.Snowflake.Order
use lgobase.Snowflake.Order.{Ascending, issued}
use lgobase.Snowflake.Calls

-- One bit for the sequence number, counted from the time 1000.
abbrev generator : Snowflake
generator = record {
  timestamp = 0;
  worker_id = 3;
  data_id = 2;
  sequence = 0;
  epoch = 1000;
  wk_bits = 5;
  data_bits = 5;
  seq_bits = 1;
  max_worker = 31;
  max_data = 31;
  max_seq = 1;
  wk_shift = 1;
  data_shift = 6;
  time_shift = 11;
}

made : new_snowflake 3 2 (with_epoch 1000 ∷ with_sequence_bits 1 ∷ []) ≡ done generator
unfolding new_snowflake apply_option apply_options configure less_64 sub_64 shl_64
made = refl

generator-Valid : Valid generator
generator-Valid =
    (new_snowflake-Made 3 2 (with_epoch 1000 ∷ with_sequence_bits 1 ∷ []) generator (omega arith)
      (omega arith) made).0

-- The clock stands still for three calls, so that the third waits, and goes back before the fourth.
abbrev clock : List ℕ
clock = 1001 ∷ 1001 ∷ 1001 ∷ 1001 ∷ 1003 ∷ 1002 ∷ 1004 ∷ []

five_calls : issued 5 generator clock ≡ 2182 ∷ 2183 ∷ 6278 ∷ 8326 ∷ []
unfolding issued next_id next_millisecond compose less_64 sub_64 shl_64 add_64
five_calls = refl

clock-ClockInTime : ClockInTime generator clock
clock-ClockInTime =
    let near : InTime generator 1001 = (omega arith, omega arith, omega arith) in
    (
      near,
      (
        near,
        (
          near,
          (
            near,
            (
              (omega arith, omega arith, omega arith),
              (
                (omega arith, omega arith, omega arith),
                ((omega arith, omega arith, omega arith), tt),
              ),
            ),
          ),
        ),
      ),
    )

new_snowflake-issued_example : Ascending 0 (issued 5 generator clock)
new_snowflake-issued_example =
    Order.new_snowflake-issued 5 3 2 (with_epoch 1000 ∷ with_sequence_bits 1 ∷ []) generator clock
      (omega arith) (omega arith) made clock-ClockInTime

first_call :
    next_id generator clock
    ≡ some (done 2182, stamped generator 1001 0, 1001 ∷ 1001 ∷ 1001 ∷ 1003 ∷ 1002 ∷ 1004 ∷ [])
unfolding next_id compose less_64 sub_64 shl_64 add_64
first_call = refl

parse_id-next_id_example :
    parse_id generator 2182 ≡ record { timestamp = 1001; data_id = 2; worker_id = 3; sequence = 0 }
parse_id-next_id_example =
    Calls.parse_id-next_id generator (stamped generator 1001 0) clock
      (1001 ∷ 1001 ∷ 1001 ∷ 1003 ∷ 1002 ∷ 1004 ∷ []) 2182 generator-Valid (omega arith)
      clock-ClockInTime first_call

next_id-Valid_example : Valid (stamped generator 1001 0)
next_id-Valid_example =
    Calls.next_id-Valid generator (stamped generator 1001 0) clock
      (1001 ∷ 1001 ∷ 1001 ∷ 1003 ∷ 1002 ∷ 1004 ∷ []) (done 2182) generator-Valid (omega arith)
      clock-ClockInTime first_call

later : less_64 1001 1003 ≡ true
unfolding less_64
later = refl

-- The third call.
next_id-returns_example :
    next_id (stamped generator 1001 1) (1001 ∷ (1001 ∷ []) ++ 1003 ∷ 1002 ∷ []) ≢ none
next_id-returns_example =
    Calls.next_id-returns (stamped generator 1001 1) 1001 1003 (1001 ∷ []) (1002 ∷ []) later

-- With all the bits that the options allow, three are left for the time, and the sign.
abbrev wide : Snowflake
wide = record {
  timestamp = 1001;
  worker_id = 3;
  data_id = 2;
  sequence = 0;
  epoch = 1000;
  wk_bits = 20;
  data_bits = 20;
  seq_bits = 20;
  max_worker = 1048575;
  max_data = 1048575;
  max_seq = 1048575;
  wk_shift = 20;
  data_shift = 40;
  time_shift = 60;
}

-- Sixteen milliseconds later, the identifiers come again.
wide_ids :
    issued 2 wide (1002 ∷ 1018 ∷ [])
    ≡ compose (stamped wide 1002 0) ∷ compose (stamped wide 1002 0) ∷ []
unfolding issued next_id compose less_64 sub_64 shl_64
wide_ids = refl
