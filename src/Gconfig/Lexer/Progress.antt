-- ===== src/Gconfig/Lexer/Progress.antt =====
-- Every token of gconfig_v2/token.go but the last takes at least one character of the input.
use lgobase.Base.{
  ℕ, suc, ◌≤◌, ◌≡◌, ◌≢◌, refl, ap, subst, Bool, false, [], ◌∷◌, ◌++◌, Option, arith, length, ◌==◌,
  Bool-cases, if_cases, inl, inr,
}
use lgobase.Base.Text.{Text}
use lgobase.Gconfig.Lexer.{
  Lexer, LexError, Token, TokenType, eof, lbrace, rbrace, lbracket, rbracket, colon, comma,
  read_single_quote, read_double_quote, read_string, token_at, next_token, skip_spaces, ends_plain,
  sign,
}

length-skip_spaces : (s : Text) → length (skip_spaces s) ≤ length s
unfolding skip_spaces
length-skip_spaces [] = omega arith
length-skip_spaces (c ∷ s) = ground (arith, length-skip_spaces s)

length-read_single_quote :
    (err : Option LexError) (buf s : Text) → length (read_single_quote err buf s).1.rest ≤ length s
unfolding read_single_quote
length-read_single_quote err buf [] = omega arith
length-read_single_quote err buf (c ∷ []) = ground arith
length-read_single_quote err buf (c ∷ d ∷ s) =
    let P = λ (r : Text × Lexer). length r.1.rest ≤ length (c ∷ d ∷ s) in
    if_cases P (c == b'\'')
      (λ e.
        if_cases P (d == b'\'')
          (λ f. omega (arith, length-read_single_quote err (buf ++ b'\'' ∷ []) s))
          (λ f. omega arith))
      (λ e. omega (arith, length-read_single_quote err (buf ++ c ∷ []) (d ∷ s)))

length-read_double_quote :
    (err : Option LexError) (buf s : Text) → length (read_double_quote err buf s).1.rest ≤ length s
unfolding read_double_quote
length-read_double_quote err buf [] = omega arith
length-read_double_quote err buf (c ∷ []) = ground arith
length-read_double_quote err buf (c ∷ d ∷ s) =
    let P = λ (r : Text × Lexer). length r.1.rest ≤ length (c ∷ d ∷ s) in
    if_cases P (c == b'\\') (λ e. omega (arith, length-read_double_quote err (buf ++ d ∷ []) s))
      (λ e.
        if_cases P (c == b'"') (λ f. omega arith)
          (λ f. omega (arith, length-read_double_quote err (buf ++ c ∷ []) (d ∷ s))))

length-read_string :
    (stop_at_colon : Bool) (s : Text) → length (read_string stop_at_colon s).1 ≤ length s
unfolding read_string
length-read_string b [] = omega arith
length-read_string b (c ∷ s) =
    if_cases (λ (r : Text × Text). length r.1 ≤ length (c ∷ s)) (ends_plain b c) (λ e. omega arith)
      (λ e. omega (arith, length-read_string b s))

-- The character that a plain token starts with is none of those where it ends.
length-read_string_more :
    (stop_at_colon : Bool) (c : ℕ) (s : Text)
    → ends_plain stop_at_colon c ≡ false
    → length (read_string stop_at_colon (c ∷ s)).1 ≤ length s
unfolding read_string
length-read_string_more b c s e = rw e (length-read_string b s)

abbrev Shorter : ℕ → Token × Lexer → Type 0
Shorter n (t, l) = length l.rest ≤ n × (t.kind ≢ eof)

Shorter-sign :
    (c : ℕ) (k : TokenType) (s : Text) (err : Option LexError)
    → k ≢ eof
    → Shorter (length s) (sign k c, record { rest = s; err = err })
Shorter-sign c k s err ne = (omega arith, ne)

token_at-Shorter :
    (stop_at_colon : Bool) (err : Option LexError) (c : ℕ) (s : Text)
    → (c == b' ') ≡ false
    → Shorter (length s) (token_at stop_at_colon err (c ∷ s))
unfolding token_at
token_at-Shorter b err c s e =
    let P = Shorter (length s) in
    if_cases P (c == b'{') (λ h. Shorter-sign c lbrace s err (λ q. cc))
      (λ h0.
        if_cases P (c == b'}') (λ h. Shorter-sign c rbrace s err (λ q. cc))
          (λ h1.
            if_cases P (c == b'[') (λ h. Shorter-sign c lbracket s err (λ q. cc))
              (λ h2.
                if_cases P (c == b']') (λ h. Shorter-sign c rbracket s err (λ q. cc))
                  (λ h3.
                    if_cases P (c == b':') (λ h. Shorter-sign c colon s err (λ q. cc))
                      (λ h4.
                        if_cases P (c == b',') (λ h. Shorter-sign c comma s err (λ q. cc))
                          (λ h5.
                            if_cases P (c == b'\'')
                              (λ h. (length-read_single_quote err [] s, λ q. cc))
                              (λ h6.
                                if_cases P (c == b'"')
                                  (λ h. (length-read_double_quote err [] s, λ q. cc))
                                  (λ h7.
                                    (length-read_string_more b c s (ground arith), λ q. cc)))))))))

-- What is left to read once token `t` is read.
abbrev pub left_after : TokenType → ℕ → ℕ
left_after eof n = n
left_after _ n = suc n

spaces_gone : (s : Text) {c : ℕ} {t : Text} → skip_spaces s ≡ c ∷ t → (c == b' ') ≡ false
unfolding skip_spaces
spaces_gone [] e = cc
spaces_gone (d ∷ s) {c} {t} e = elim (Bool-cases (d == b' ')) [
  | inl h ↦ spaces_gone s (rw h at e)
  | inr h ↦ let same : d ≡ c = ground arith in subst (λ x. (x == b' ') ≡ false) same h
]

left_after-other : (k : TokenType) (n : ℕ) → k ≢ eof → left_after k n ≡ suc n
left_after-other eof n h = absurd (h refl)
left_after-other _ n h = refl

pub length-next_token :
    (stop_at_colon : Bool) (l : Lexer)
    → let (t, m) = next_token stop_at_colon l in left_after t.kind (length m.rest) ≤ length l.rest
unfolding next_token token_at
length-next_token b l = at (skip_spaces l.rest) refl
  where
    at :
        (s : Text)
        → skip_spaces l.rest ≡ s
        → left_after (token_at b l.err s).0.kind (length (token_at b l.err s).1.rest)
          ≤ length l.rest
    at [] e = omega arith
    at (c ∷ s) e =
        let (short, ne) = token_at-Shorter b l.err c s (spaces_gone l.rest e) in
        omega (
          arith,
          left_after-other _ (length (token_at b l.err (c ∷ s)).1.rest) ne,
          short,
          length-skip_spaces l.rest,
          ap (length {0}) e,
        )
