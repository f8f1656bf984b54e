-- ===== src/Snowflake/Valid.antt =====
-- What util/snowflake.go keeps of a generator, and what the fields of an identifier come to.
use native.Mathlib.Nat.{one-le-pow, pow-le-pow_right}
use Prim.Native.Nat.{bit_and}
use lgobase.Base.{
  ℕ, suc, ◌+◌, ◌-◌, ◌*◌, ◌/◌, ◌%◌, ◌^◌, ◌≤◌, ◌<◌, ◌≡◌, refl, ap, ap₂, ◌∙◌, subst, Bool, true, false,
  not, ◌||◌, List, [], ◌∷◌, ltb, ◌==◌, if_cases, arith, lt→ltb,
}
use lgobase.Base.Bits.{bit_and_low}
use lgobase.Base.Int64.{word_size, sign_bit, add_64, sub_64, shl_64, shr_64, less_64}
use lgobase.Snowflake.{
  Snowflake, Outcome, done, refused, after, SnowflakeOption, with_epoch, with_worker_bits,
  with_data_bits, with_sequence_bits, apply_option, apply_options, default_snowflake, configure,
  new_snowflake, compose, parse_id,
}
use lgobase.Snowflake.Fields.{
  Valid, InTime, rank, pow_add, field_lt, room, bit_or-digits_of, digits_of-lt, without_sequence,
  without_worker, without_data,
}

pub few_values : (b : ℕ) → b ≤ 20 → 2 ^ b ≤ 2 ^ 20
few_values b h = pow-le-pow_right (omega arith) h

mask_of : (b : ℕ) → b ≤ 20 → sub_64 (shl_64 1 b) 1 ≡ 2 ^ b - 1
unfolding sub_64 shl_64
mask_of b h = omega (arith, few_values b h, one-le-pow b 2)

or_false : (a b : Bool) → (a || b) ≡ false → (a ≡ false) × (b ≡ false)
or_false false b h = (refl, h)
or_false true b h = absurd cc

less_mask :
    (b x : ℕ)
    → b ≤ 20
    → x < word_size
    → (less_64 x 0 || less_64 (sub_64 (shl_64 1 b) 1) x) ≡ false
    → x < 2 ^ b
unfolding less_64
less_mask b x h w e =
    let (lo, hi) = or_false (less_64 x 0) (less_64 (sub_64 (shl_64 1 b) 1) x) e in
    ground (arith, mask_of b h, few_values b h, one-le-pow b 2)

-- The bits of a generator are few.
abbrev FewBits : Snowflake → Type 0
FewBits s = (s.seq_bits ≤ 20) × (s.wk_bits ≤ 20) × (s.data_bits ≤ 20)

abbrev Every {ℓ} : {A : Type ℓ} → (A → Type 0) → Outcome A → Type 0
Every P (done a) = P a
Every P (refused e) = Unit {0}

apply_option-FewBits :
    (o : SnowflakeOption) (s : Snowflake) → FewBits s → Every FewBits (apply_option o s)
unfolding apply_option
apply_option-FewBits (with_epoch e) s h =
    if_cases (Every FewBits) (not (less_64 0 e)) (λ f. tt) (λ f. h)
apply_option-FewBits (with_worker_bits b) s h =
    if_cases (Every FewBits) (b == 0 || ltb 20 b) (λ f. tt) (λ f. ground arith)
apply_option-FewBits (with_data_bits b) s h =
    if_cases (Every FewBits) (b == 0 || ltb 20 b) (λ f. tt) (λ f. ground arith)
apply_option-FewBits (with_sequence_bits b) s h =
    if_cases (Every FewBits) (b == 0 || ltb 20 b) (λ f. tt) (λ f. ground arith)

after-Every {ℓ κ} :
    {A : Type ℓ} {B : Type κ} (P : A → Type 0) (Q : B → Type 0) (r : Outcome A) (f : A → Outcome B)
    → Every P r
    → ((a : A) → P a → Every Q (f a))
    → Every Q (after r f)
after-Every P Q (done a) f h k = k a h
after-Every P Q (refused e) f h k = tt

apply_options-FewBits :
    (os : List SnowflakeOption) (s : Snowflake) → FewBits s → Every FewBits (apply_options os s)
unfolding apply_options
apply_options-FewBits [] s h = h
apply_options-FewBits (o ∷ os) s h =
    after-Every FewBits FewBits (apply_option o s) (apply_options os) (apply_option-FewBits o s h)
      (λ t. apply_options-FewBits os t)

-- A generator that has issued nothing.
abbrev pub Made : Snowflake → Type 0
Made s = Valid s × (s.timestamp ≡ 0)

configure-Made :
    (worker data_center : ℕ) (s : Snowflake)
    → worker < word_size
    → data_center < word_size
    → FewBits s
    → Every Made (configure worker data_center s)
unfolding configure
configure-Made w d s hw hd (b₁, b₂, b₃) =
    let max_worker = sub_64 (shl_64 1 s.wk_bits) 1 in
    let max_data = sub_64 (shl_64 1 s.data_bits) 1 in
    if_cases (Every Made) (less_64 w 0 || less_64 max_worker w) (λ e. tt)
      (λ e.
        if_cases (Every Made) (less_64 d 0 || less_64 max_data d) (λ f. tt)
          (λ f. (
            (
              b₁,
              b₂,
              b₃,
              mask_of s.seq_bits b₁,
              mask_of s.wk_bits b₂,
              mask_of s.data_bits b₃,
              refl,
              omega arith,
              omega arith,
              one-le-pow s.seq_bits 2 (omega arith),
              less_mask s.wk_bits w b₂ hw e,
              less_mask s.data_bits d b₃ hd f,
            ),
            refl,
          )))

pub new_snowflake-Made :
    (worker data_center : ℕ) (options : List SnowflakeOption) (s : Snowflake)
    → worker < word_size
    → data_center < word_size
    → new_snowflake worker data_center options ≡ done s
    → Made s
unfolding new_snowflake
new_snowflake-Made worker data_center options s hw hd e = subst (Every Made) e (
    after-Every FewBits Made (apply_options options default_snowflake)
      (configure worker data_center)
      (apply_options-FewBits options default_snowflake (omega arith, omega arith, omega arith))
      (λ t. configure-Made worker data_center t hw hd))

-- An identifier is its fields in a row.
module _ (s : Snowflake) (v : Valid s) (h : InTime s s.timestamp) where
  abbrev elapsed : ℕ
  elapsed = s.timestamp - s.epoch

  few_bits : s.time_shift ≤ 60
  few_bits = omega arith

  elapsed_word : shl_64 (sub_64 s.timestamp s.epoch) s.time_shift ≡ elapsed * 2 ^ s.time_shift
  unfolding shl_64 sub_64
  elapsed_word = rw (sub_eq s h) (omega arith)
    where
      sub_eq :
          (s : Snowflake)
          → InTime s s.timestamp
          → (s.timestamp + word_size - s.epoch) % word_size ≡ s.timestamp - s.epoch
      sub_eq s h = omega arith

  field_word : (x b j : ℕ) → b ≤ 20 → j ≤ 40 → x < 2 ^ b → shl_64 x j ≡ x * 2 ^ j
  unfolding shl_64
  field_word x b j le le' lt = omega (
    arith,
    field_lt x (2 ^ b) (2 ^ j) lt (one-le-pow j 2 (omega arith)),
    pow_add b j,
    pow-le-pow_right {n = 2} (omega arith) {i = b + j} {j = 60} (omega arith),
  )

  pub compose-rank : compose s ≡ rank s
  unfolding compose
  compose-rank =
      rw
        (
          elapsed_word,
          field_word s.data_id s.data_bits s.data_shift (omega arith) (omega arith) (omega arith),
          field_word s.worker_id s.wk_bits s.wk_shift (omega arith) (omega arith) (omega arith),
          v.8,
          v.7,
          v.6,
        )
        (bit_or-digits_of s.data_bits s.wk_bits s.seq_bits elapsed s.data_id s.worker_id s.sequence
          v.11 v.10 v.9)

  pub rank-small : rank s < 2 ^ 63
  rank-small = omega (
    arith,
    digits_of-lt s.data_bits s.wk_bits s.seq_bits elapsed s.data_id s.worker_id s.sequence v.11 v.10
        v.9,
    room elapsed s.time_shift few_bits h.2,
    ap (λ (t : ℕ). suc elapsed * 2 ^ t) v.8,
  )

  shr-rank : (k : ℕ) → shr_64 (rank s) k ≡ rank s / 2 ^ k
  unfolding shr_64
  shr-rank k = rw (lt→ltb (rank s) sign_bit rank-small) refl

  -- What the fields stand for below the one that a shift leaves.
  field_of :
      (k j q r b m : ℕ)
      → k ≡ j
      → m ≡ 2 ^ b - 1
      → rank s / 2 ^ j ≡ q * 2 ^ b + r
      → r < 2 ^ b
      → bit_and (shr_64 (rank s) k) m ≡ r
  field_of k j q r b m e mask top lt =
      ap₂ bit_and (shr-rank k ∙ ap (λ (x : ℕ). rank s / 2 ^ x) e ∙ top) mask ∙ bit_and_low b q r lt

  abbrev high : ℕ
  high = elapsed * 2 ^ s.data_bits + s.data_id

  time_part : add_64 (shr_64 (rank s) s.time_shift) s.epoch ≡ s.timestamp
  unfolding add_64
  time_part = omega (
    arith,
    shr-rank s.time_shift,
    ap (λ (x : ℕ). rank s / 2 ^ x) v.8,
    without_data s.data_bits s.wk_bits s.seq_bits elapsed s.data_id s.worker_id s.sequence v.11 v.10
        v.9,
  )

  data_part : bit_and (shr_64 (rank s) s.data_shift) s.max_data ≡ s.data_id
  data_part =
      field_of s.data_shift (s.wk_bits + s.seq_bits) elapsed s.data_id s.data_bits s.max_data v.7
        v.5
        (without_worker s.data_bits s.wk_bits s.seq_bits elapsed s.data_id s.worker_id s.sequence
          v.11 v.10 v.9)
        v.11

  worker_part : bit_and (shr_64 (rank s) s.wk_shift) s.max_worker ≡ s.worker_id
  worker_part =
      field_of s.wk_shift s.seq_bits high s.worker_id s.wk_bits s.max_worker v.6 v.4
        (without_sequence s.data_bits s.wk_bits s.seq_bits elapsed s.data_id s.worker_id s.sequence
          v.11 v.10 v.9)
        v.10

  sequence_part : bit_and (rank s) s.max_seq ≡ s.sequence
  sequence_part =
      ap (λ m. bit_and (rank s) m) v.3
      ∙ bit_and_low s.seq_bits (high * 2 ^ s.wk_bits + s.worker_id) s.sequence v.9

  -- `ParseID` finds the fields that an identifier was made of.
  pub parse_id-compose : parse_id s (compose s) ≡ record {
    timestamp = s.timestamp;
    data_id = s.data_id;
    worker_id = s.worker_id;
    sequence = s.sequence;
  }
  unfolding parse_id
  parse_id-compose = rw (compose-rank, time_part, data_part, worker_part, sequence_part) refl
