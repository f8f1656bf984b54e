-- ===== src/Snowflake.antt =====
-- The generator of identifiers, util/snowflake.go. An `int64` is its bit pattern.
pub mod Fields
pub mod Valid
pub mod Issue
pub mod Order
pub mod Calls
use Prim.Native.Nat.{bit_and, bit_or}
use lgobase.Base.{
  ℕ, ◌+◌, ◌%◌, Bool, not, ◌||◌, List, [], ◌∷◌, Option, none, some, ltb, ◌==◌, if◌then◌else◌,
}
use lgobase.Base.Int64.{add_64, sub_64, shl_64, shr_64, less_64}

pub record Snowflake : Type 0 where
  pub timestamp : ℕ
  pub worker_id : ℕ
  pub data_id : ℕ
  pub sequence : ℕ
  pub epoch : ℕ
  pub wk_bits : ℕ
  pub data_bits : ℕ
  pub seq_bits : ℕ
  pub max_worker : ℕ
  pub max_data : ℕ
  pub max_seq : ℕ
  pub wk_shift : ℕ
  pub data_shift : ℕ
  pub time_shift : ℕ

pub data SnowflakeError : Type 0 where
  epoch_not_positive worker_bits_range data_bits_range sequence_bits_range : SnowflakeError
  invalid_worker invalid_data clock_backwards : SnowflakeError

pub data Outcome {ℓ} (A : Type ℓ) : Type ℓ where
  done : A → Outcome A
  refused : SnowflakeError → Outcome A

abbrev pub after {ℓ κ} : {A : Type ℓ} {B : Type κ} → Outcome A → (A → Outcome B) → Outcome B
after (done a) f = f a
after (refused e) f = refused e

-- `Option`.
pub data SnowflakeOption : Type 0 where
  with_epoch with_worker_bits with_data_bits with_sequence_bits : ℕ → SnowflakeOption

abbrev bits_range : ℕ → Bool
bits_range bits = bits == 0 || ltb 20 bits

unfoldable pub apply_option : SnowflakeOption → Snowflake → Outcome Snowflake
apply_option (with_epoch epoch) s =
    if not (less_64 0 epoch) then refused epoch_not_positive else done (record s { epoch = epoch })
apply_option (with_worker_bits bits) s =
    if bits_range bits then refused worker_bits_range else done (record s { wk_bits = bits })
apply_option (with_data_bits bits) s =
    if bits_range bits then refused data_bits_range else done (record s { data_bits = bits })
apply_option (with_sequence_bits bits) s =
    if bits_range bits then refused sequence_bits_range else done (record s { seq_bits = bits })

unfoldable pub apply_options : List SnowflakeOption → Snowflake → Outcome Snowflake
apply_options [] s = done s
apply_options (option ∷ options) s = after (apply_option option s) (apply_options options)

abbrev pub default_snowflake : Snowflake
default_snowflake = record {
  timestamp = 0;
  worker_id = 0;
  data_id = 0;
  sequence = 0;
  epoch = 1609459200000;
  wk_bits = 5;
  data_bits = 5;
  seq_bits = 12;
  max_worker = 0;
  max_data = 0;
  max_seq = 0;
  wk_shift = 0;
  data_shift = 0;
  time_shift = 0;
}

-- `NewSnowflake` behind the options: the maxima, the checks and the shifts, which are `uint8`.
unfoldable pub configure : ℕ → ℕ → Snowflake → Outcome Snowflake
configure worker data_center s =
    let max_worker = sub_64 (shl_64 1 s.wk_bits) 1 in
    let max_data = sub_64 (shl_64 1 s.data_bits) 1 in
    let max_seq = sub_64 (shl_64 1 s.seq_bits) 1 in
    if less_64 worker 0 || less_64 max_worker worker
    then refused invalid_worker
    else if less_64 data_center 0 || less_64 max_data data_center
    then refused invalid_data
    else done (record {
      timestamp = 0;
      worker_id = worker;
      data_id = data_center;
      sequence = 0;
      epoch = s.epoch;
      wk_bits = s.wk_bits;
      data_bits = s.data_bits;
      seq_bits = s.seq_bits;
      max_worker = max_worker;
      max_data = max_data;
      max_seq = max_seq;
      wk_shift = s.seq_bits;
      data_shift = (s.seq_bits + s.wk_bits) % 256;
      time_shift = ((s.seq_bits + s.wk_bits) % 256 + s.data_bits) % 256;
    })

-- `NewSnowflake`.
unfoldable pub new_snowflake : ℕ → ℕ → List SnowflakeOption → Outcome Snowflake
new_snowflake worker data_center options =
    after (apply_options options default_snowflake) (configure worker data_center)

-- The identifier of what the fields hold.
unfoldable pub compose : Snowflake → ℕ
compose s =
    bit_or
      (bit_or
        (bit_or (shl_64 (sub_64 s.timestamp s.epoch) s.time_shift) (shl_64 s.data_id s.data_shift))
        (shl_64 s.worker_id s.wk_shift))
      s.sequence

abbrev pub stamped : Snowflake → ℕ → ℕ → Snowflake
stamped s now sequence = record s { timestamp = now; sequence = sequence }

abbrev pub issued_at : Snowflake → ℕ → ℕ → List ℕ → Outcome ℕ × Snowflake × List ℕ
issued_at s now sequence clock =
    (done (compose (stamped s now sequence)), stamped s now sequence, clock)

-- The loop that waits for the next millisecond: `clock` is what the clock shows, reading by reading,
-- and nothing is left of it where the loop is still running.
unfoldable pub next_millisecond : ℕ → List ℕ → Option (ℕ × List ℕ)
next_millisecond timestamp [] = none
next_millisecond timestamp (now ∷ clock) =
    let later = next_millisecond timestamp clock in
    if less_64 timestamp now then some (now, clock) else later

abbrev pub issued_later : Snowflake → Option (ℕ × List ℕ) → Option (Outcome ℕ × Snowflake × List ℕ)
issued_later s none = none
issued_later s (some (now, clock)) = some (issued_at s now 0 clock)

-- `NextID`, with what the clock shows.
unfoldable pub next_id : Snowflake → List ℕ → Option (Outcome ℕ × Snowflake × List ℕ)
next_id s [] = none
next_id s (now ∷ clock) =
    if less_64 now s.timestamp
    then some (refused clock_backwards, s, clock)
    else if now == s.timestamp
    then (if less_64 s.max_seq (add_64 s.sequence 1)
        then issued_later s (next_millisecond s.timestamp clock)
        else some (issued_at s now (add_64 s.sequence 1) clock))
    else some (issued_at s now 0 clock)

pub record Parts : Type 0 where
  pub timestamp : ℕ
  pub data_id : ℕ
  pub worker_id : ℕ
  pub sequence : ℕ

-- `ParseID`.
unfoldable pub parse_id : Snowflake → ℕ → Parts
parse_id s id = record {
  timestamp = add_64 (shr_64 id s.time_shift) s.epoch;
  data_id = bit_and (shr_64 id s.data_shift) s.max_data;
  worker_id = bit_and (shr_64 id s.wk_shift) s.max_worker;
  sequence = bit_and id s.max_seq;
}
