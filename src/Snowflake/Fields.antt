-- ===== src/Snowflake/Fields.antt =====
-- The fields of an identifier of util/snowflake.go, as arithmetic.
use Prim.Native.Nat.{bit_or}
use native.Mathlib.Nat.{
  pow-suc, one-le-pow, mul-add-div_right, lt_of_mul-lt-mul_right, mul-le-mul_right, div-eq_of_lt,
  div-div-eq-div-mul,
}
use lgobase.Base.{ℕ, zero, suc, ◌+◌, ◌-◌, ◌*◌, ◌/◌, ◌^◌, ◌≤◌, ◌<◌, ◌≡◌, sym, ap, ◌∙◌, arith}
use lgobase.Base.Bits.{bit_or_field}
use lgobase.Snowflake.{Snowflake}

-- What holds of a generator: the bits are few, the maxima and the shifts are those of the bits, and
-- the fields fit their bits.
abbrev pub Valid : Snowflake → Type 0
Valid s =
    (s.seq_bits ≤ 20)
    × (s.wk_bits ≤ 20)
    × (s.data_bits ≤ 20)
    × (s.max_seq ≡ 2 ^ s.seq_bits - 1)
    × (s.max_worker ≡ 2 ^ s.wk_bits - 1)
    × (s.max_data ≡ 2 ^ s.data_bits - 1)
    × (s.wk_shift ≡ s.seq_bits)
    × (s.data_shift ≡ s.wk_bits + s.seq_bits)
    × (s.time_shift ≡ s.data_bits + (s.wk_bits + s.seq_bits))
    × (s.sequence < 2 ^ s.seq_bits)
    × (s.worker_id < 2 ^ s.wk_bits)
    × (s.data_id < 2 ^ s.data_bits)

-- A time from the epoch on whose distance to it fits what the other fields leave of 63 bits.
abbrev pub InTime : Snowflake → ℕ → Type 0
InTime s now = (now < 2 ^ 63) × (s.epoch ≤ now) × ((now - s.epoch) * 2 ^ s.time_shift < 2 ^ 63)

-- The fields as the digits of a number.
abbrev pub digits_of : ℕ → ℕ → ℕ → ℕ → ℕ → ℕ → ℕ → ℕ
digits_of db wb sb d data_center worker sequence =
    ((d * 2 ^ db + data_center) * 2 ^ wb + worker) * 2 ^ sb + sequence

abbrev pub rank : Snowflake → ℕ
rank s =
    digits_of s.data_bits s.wk_bits s.seq_bits (s.timestamp - s.epoch) s.data_id s.worker_id
      s.sequence

pub pow_add : (a b : ℕ) → 2 ^ (a + b) ≡ 2 ^ a * 2 ^ b
pow_add zero b = ap (λ (t : ℕ). 2 ^ t) (zero_left b) ∙ (omega arith)
  where
    zero_left : (b : ℕ) → 0 + b ≡ b
    zero_left b = omega arith
pow_add (suc a) b =
    ap (λ (t : ℕ). 2 ^ t) (suc_left a b)
    ∙ (grind (arith, pow-suc 2 (a + b), pow-suc 2 a, pow_add a b))
  where
    suc_left : (a b : ℕ) → suc a + b ≡ suc (a + b)
    suc_left a b = omega arith

pub field_lt : (r m n : ℕ) → r < m → 0 < n → r * n < m * n
field_lt r m n h p = grind arith

field_top : (q m r n : ℕ) → q * (m * n) + r * n ≡ (q * m + r) * n
field_top q m r n = grind arith

digit_lt : (q r m n : ℕ) → q < n → r < m → q * m + r < n * m
digit_lt q r m n h k = grind arith

top_digit : (q r m : ℕ) → r < m → (q * m + r) / m ≡ q
top_digit q r m h = mul-add-div_right (omega arith) q r ∙ (omega (arith, div-eq_of_lt h))

pub whole_range : (t : ℕ) → t ≤ 60 → 2 ^ (63 - t) * 2 ^ t ≡ 2 ^ 63
whole_range t le = sym (pow_add (63 - t) t) ∙ ap (λ (x : ℕ). 2 ^ x) (back t le)
  where
    back : (t : ℕ) → t ≤ 60 → 63 - t + t ≡ 63
    back t le = omega arith

-- A number below 2 ^ 63 whose lowest t bits are clear leaves room for them.
pub room : (d t : ℕ) → t ≤ 60 → d * 2 ^ t < 2 ^ 63 → suc d * 2 ^ t ≤ 2 ^ 63
room d t le h =
    let fits : d < 2 ^ (63 - t) =
      lt_of_mul-lt-mul_right (2 ^ t) (omega (arith, whole_range t le)) in
    omega (arith, whole_range t le, mul-le-mul_right (2 ^ t) fits)

-- Two fields that meet at bit j + k.
pub or_fields :
    (k j q r : ℕ) → r < 2 ^ k → bit_or (q * 2 ^ (k + j)) (r * 2 ^ j) ≡ (q * 2 ^ k + r) * 2 ^ j
or_fields k j q r h =
    bit_or_field (k + j) q (r * 2 ^ j)
      (omega (arith, field_lt r (2 ^ k) (2 ^ j) h (one-le-pow j 2 (omega arith)), pow_add k j))
    ∙ (omega (arith, ap (λ (t : ℕ). q * t) (pow_add k j), field_top q (2 ^ k) r (2 ^ j)))

module _ (db wb sb d data_center worker sequence : ℕ) (h₁ : data_center < 2 ^ db)
    (h₂ : worker < 2 ^ wb) (h₃ : sequence < 2 ^ sb) where
  pub bit_or-digits_of :
      bit_or
        (bit_or (bit_or (d * 2 ^ (db + (wb + sb))) (data_center * 2 ^ (wb + sb))) (worker * 2 ^ sb))
        sequence
      ≡ digits_of db wb sb d data_center worker sequence
  bit_or-digits_of =
      ap (λ x. bit_or (bit_or x (worker * 2 ^ sb)) sequence)
        (or_fields db (wb + sb) d data_center h₁)
      ∙ ap (λ x. bit_or x sequence) (or_fields wb sb (d * 2 ^ db + data_center) worker h₂)
      ∙ bit_or_field sb ((d * 2 ^ db + data_center) * 2 ^ wb + worker) sequence h₃

  all_bits : suc d * 2 ^ db * 2 ^ wb * 2 ^ sb ≡ suc d * 2 ^ (db + (wb + sb))
  all_bits = grind (arith, pow_add db (wb + sb), pow_add wb sb)

  pub digits_of-lt : digits_of db wb sb d data_center worker sequence < suc d * 2 ^ (db + (wb + sb))
  digits_of-lt = omega (
    arith,
    all_bits,
    digit_lt ((d * 2 ^ db + data_center) * 2 ^ wb + worker) sequence (2 ^ sb)
        (suc d * 2 ^ db * 2 ^ wb)
        (digit_lt (d * 2 ^ db + data_center) worker (2 ^ wb) (suc d * 2 ^ db)
          (digit_lt d data_center (2 ^ db) (suc d) (omega arith) h₁) h₂)
        h₃,
  )

  -- The shifts of `ParseID` find the fields.
  pub without_sequence :
      digits_of db wb sb d data_center worker sequence / 2 ^ sb
      ≡ (d * 2 ^ db + data_center) * 2 ^ wb + worker
  without_sequence = top_digit ((d * 2 ^ db + data_center) * 2 ^ wb + worker) sequence (2 ^ sb) h₃

  pub without_worker :
      digits_of db wb sb d data_center worker sequence / 2 ^ (wb + sb) ≡ d * 2 ^ db + data_center
  without_worker =
      ap (λ (m : ℕ). digits_of db wb sb d data_center worker sequence / m)
        (pow_add wb sb ∙ grind arith)
      ∙ sym
          (div-div-eq-div-mul (digits_of db wb sb d data_center worker sequence) (2 ^ sb) (2 ^ wb))
      ∙ ap (λ (x : ℕ). x / 2 ^ wb) without_sequence
      ∙ top_digit (d * 2 ^ db + data_center) worker (2 ^ wb) h₂

  pub without_data : digits_of db wb sb d data_center worker sequence / 2 ^ (db + (wb + sb)) ≡ d
  without_data =
      ap (λ (m : ℕ). digits_of db wb sb d data_center worker sequence / m)
        (pow_add db (wb + sb) ∙ grind arith)
      ∙ sym (
          div-div-eq-div-mul (digits_of db wb sb d data_center worker sequence) (2 ^ (wb + sb))
            (2 ^ db))
      ∙ ap (λ (x : ℕ). x / 2 ^ db) without_worker
      ∙ top_digit d data_center (2 ^ db) h₁

pub digits_of-ge :
    (db wb sb d data_center worker sequence : ℕ)
    → d * 2 ^ (db + (wb + sb)) ≤ digits_of db wb sb d data_center worker sequence
digits_of-ge db wb sb d data_center worker sequence =
    grind (arith, pow_add db (wb + sb), pow_add wb sb)
