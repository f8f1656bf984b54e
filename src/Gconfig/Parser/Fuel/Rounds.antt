-- ===== src/Gconfig/Parser/Fuel/Rounds.antt =====
-- What the parts of the parser of gconfig_v2/token.go leave of its input.
use lgobase.Base.{
  ℕ, suc, ◌≤◌, ◌<◌, ◌≡◌, ◌≢◌, refl, Bool, true, false, List, ◌∷◌, Option, none, some, arith, length,
  if_cases,
}
use lgobase.Base.Text.{Text, codes, eq_text}
use lgobase.Gconfig.Lexer.{
  TokenType, eof, lbrace, rbrace, lbracket, rbracket, colon, comma, string, next_token,
}
use lgobase.Gconfig.Lexer.Progress.{left_after, length-next_token}
use lgobase.Gconfig.Value.{
  Value, Values, Entries, NodeType, map_type, slice_type, Result, ok, failed, out_of_fuel, bind,
}
use lgobase.Gconfig.Scalar.{Std, unsupported_plain_scalar, parse_scalar}
use lgobase.Gconfig.Scalar.Total.{Decided, parse_scalar-Decided}
use lgobase.Gconfig.Parser.{
  Parser, Parsed, next_key, next_value, typed, has_key, tagged_string, parse_string, after_item,
  after_entry, expect_colon, scalar_value, plain_string, value_at, items_at, entries_at,
}

-- The tokens and characters that are left.
abbrev pub left : Parser → ℕ
left p = left_after p.tok.kind (length p.lex.rest)

-- A run that ends, and leaves less than `n` behind what it reads.
abbrev pub Ends {ℓ} : {A : Type ℓ} → ℕ → Parsed A → Type 0
Ends n (ok (a, p)) = left p < n
Ends n (failed e) = Unit {0}
Ends n out_of_fuel = ⊥

Ends-bind {ℓ κ} :
    {A : Type ℓ} {B : Type κ} (n m : ℕ) (r : Parsed A) (g : A × Parser → Parsed B)
    → Ends n r
    → ((a : A) (p : Parser) → left p < n → Ends m (g (a, p)))
    → Ends m (bind r g)
Ends-bind n m (ok (a, p)) g h k = k a p h
Ends-bind n m (failed e) g h k = tt
Ends-bind n m out_of_fuel g h k = h

pub Ends-weaken {ℓ} : {A : Type ℓ} (n m : ℕ) (r : Parsed A) → n ≤ m → Ends n r → Ends m r
Ends-weaken n m (ok (a, p)) le h = omega (arith, h)
Ends-weaken n m (failed e) le h = tt
Ends-weaken n m out_of_fuel le h = h

left_eq : (k : TokenType) (p : Parser) → p.tok.kind ≡ k → k ≢ eof → left p ≡ suc (length p.lex.rest)
left_eq eof p e h = absurd (h refl)
left_eq lbrace p e h = rw e refl
left_eq rbrace p e h = rw e refl
left_eq lbracket p e h = rw e refl
left_eq rbracket p e h = rw e refl
left_eq colon p e h = rw e refl
left_eq comma p e h = rw e refl
left_eq string p e h = rw e refl

-- What stands behind the token that was read.
behind :
    (b : Bool) (k : TokenType) (p : Parser)
    → p.tok.kind ≡ k
    → k ≢ eof
    → left_after (next_token b p.lex).0.kind (length (next_token b p.lex).1.rest) < left p
behind b k p e h = omega (arith, left_eq k p e h, length-next_token b p.lex)

-- The rest of a loop, behind an element.
after_item-Ends {ℓ} :
    {A : Type ℓ} (k : TokenType) (p : Parser) (m : ℕ) (g : Parser → Parsed A)
    → p.tok.kind ≡ k
    → ((q : Parser) → left q ≤ left p → Ends m (g q))
    → Ends m (bind (after_item k p) g)
after_item-Ends comma p m g e h = h (next_value p) (omega (arith, behind false comma p e (λ q. cc)))
after_item-Ends eof p m g e h = h p (omega arith)
after_item-Ends rbracket p m g e h = h p (omega arith)
after_item-Ends _ p m g e h = tt

after_entry-Ends {ℓ} :
    {A : Type ℓ} (k : TokenType) (p : Parser) (m : ℕ) (g : Parser → Parsed A)
    → p.tok.kind ≡ k
    → ((q : Parser) → left q ≤ left p → Ends m (g q))
    → Ends m (bind (after_entry k p) g)
after_entry-Ends comma p m g e h = h (next_key p) (omega (arith, behind true comma p e (λ q. cc)))
after_entry-Ends eof p m g e h = h p (omega arith)
after_entry-Ends rbrace p m g e h = h p (omega arith)
after_entry-Ends _ p m g e h = tt

expect_colon-Ends {ℓ} :
    {A : Type ℓ} (k : TokenType) (p : Parser) (m : ℕ) (g : Parser → Parsed A)
    → p.tok.kind ≡ k
    → ((q : Parser) → left q < left p → Ends m (g q))
    → Ends m (bind (expect_colon k p) g)
expect_colon-Ends colon p m g e h = h (next_value p) (behind false colon p e (λ q. cc))
expect_colon-Ends _ p m g e h = tt

module _ (element : Parser → Parsed Value) (p : Parser)
    (reads : (q : Parser) → left q ≤ left p → Ends (left q) (element q)) where
  pub items_at-Ends :
      (items : Parser → Parsed Values) (k : TokenType)
      → p.tok.kind ≡ k
      → ((q : Parser) → left q < left p → Ends (left q) (items q))
      → Ends (left p) (items_at element items p k)
  unfolding items_at
  items_at-Ends items rbracket e more = behind false rbracket p e (λ q. cc)
  items_at-Ends items eof e more = tt
  items_at-Ends items _ e more =
      Ends-bind (left p) (left p) (element p) _ (reads p (omega arith)) (λ v q lt.
        after_item-Ends q.tok.kind q (left p) _ refl (λ r le.
          Ends-bind (left r) (left p) (items r) _ (more r (omega arith)) (λ vs s lt'. omega arith)))

  pub entries_at-Ends :
      (entries : List Text → Parser → Parsed Entries) (seen : List Text) (k : TokenType)
      → p.tok.kind ≡ k
      → ((keys : List Text) (q : Parser) → left q < left p → Ends (left q) (entries keys q))
      → Ends (left p) (entries_at element entries seen p k)
  unfolding entries_at
  entries_at-Ends entries seen rbrace e more = behind false rbrace p e (λ q. cc)
  entries_at-Ends entries seen eof e more = tt
  entries_at-Ends entries seen string e more =
      let key = p.tok.value in
      let here = behind false string p e (λ q. cc) in
      if_cases (Ends (left p)) (has_key key seen) (λ h. tt)
        (λ h. expect_colon-Ends (next_value p).tok.kind (next_value p) (left p) _ refl (λ q lt.
          Ends-bind (left q) (left p) (element q) _ (reads q (omega arith)) (λ v r lt'.
            after_entry-Ends r.tok.kind r (left p) _ refl (λ s le.
              Ends-bind (left s) (left p) (entries (key ∷ seen) s) _
                (more (key ∷ seen) s (omega arith)) (λ es u lt''. omega arith)))))
  entries_at-Ends entries seen _ e more = tt

tagged_string-Ends :
    (n : ℕ) (p : Parser) (k : TokenType) → p.tok.kind ≡ k → left p < n → Ends n (tagged_string p k)
unfolding tagged_string
tagged_string-Ends n p eof e lt = lt
tagged_string-Ends n p string e lt = omega (arith, behind false string p e (λ q. cc))
tagged_string-Ends n p _ e lt = tt

scalar_value-Ends :
    (n : ℕ) (p : Parser) (r : Result (Value × NodeType))
    → Decided r
    → left (next_value p) < n
    → Ends n (bind r (scalar_value p))
scalar_value-Ends n p (ok (v, t)) h lt = lt
scalar_value-Ends n p (failed e) h lt = tt
scalar_value-Ends n p out_of_fuel h lt = h

plain_string-Ends :
    (std : Std) (p : Parser) (o : Option Text)
    → left (next_value p) < left p
    → Ends (left p) (plain_string std p o)
plain_string-Ends std p (some feature) lt = tt
plain_string-Ends std p none lt =
    scalar_value-Ends (left p) p (parse_scalar std p.tok.value)
      (parse_scalar-Decided std p.tok.value) lt

parse_string-Ends :
    (std : Std) (p : Parser) → p.tok.kind ≡ string → Ends (left p) (parse_string std p)
unfolding parse_string
parse_string-Ends std p e =
    let next = next_value p in
    let here = behind false string p e (λ q. cc) in
    if_cases (Ends (left p)) p.tok.quoted (λ f. here)
      (λ f.
        if_cases (Ends (left p)) (eq_text p.tok.value (codes "!!str"))
          (λ g. tagged_string-Ends (left p) next next.tok.kind refl here)
          (λ g. plain_string-Ends std p (unsupported_plain_scalar p.tok.value) here))

pub value_at-Ends :
    (entries : Parser → Parsed Entries) (items : Parser → Parsed Values) (std : Std) (p : Parser)
    (k : TokenType)
    → p.tok.kind ≡ k
    → ((q : Parser) → left q < left p → Ends (left q) (entries q))
    → ((q : Parser) → left q < left p → Ends (left q) (items q))
    → Ends (left p) (value_at entries items std p k)
unfolding value_at
value_at-Ends entries items std p lbrace e h k =
    let here = behind true lbrace p e (λ q. cc) in
    let q = typed map_type (next_key p) in
    Ends-bind (left q) (left p) (entries q) _ (h q here) (λ es r lt. omega (arith, here))
value_at-Ends entries items std p lbracket e h k =
    let here = behind false lbracket p e (λ q. cc) in
    let q = typed slice_type (next_value p) in
    Ends-bind (left q) (left p) (items q) _ (k q here) (λ vs r lt. omega (arith, here))
value_at-Ends entries items std p string e h k = parse_string-Ends std p e
value_at-Ends entries items std p _ e h k = tt
