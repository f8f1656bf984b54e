-- ===== src/Gconfig/Parser/RoundTrip/Rounds.antt =====
-- How the parser of gconfig_v2/token.go reads printed words, and a round of each of its loops.
use lgobase.Base.{
  ℕ, suc, ◌≤◌, ◌<◌, ◌≡◌, refl, ap, ◌∙◌, Bool, true, false, List, [], ◌∷◌, ◌++◌, append_assoc, none,
  arith, length,
}
use lgobase.Base.Text.{
  Text, codes, eq_text, trim_space, trim_left, trim_right, is_space, has_prefix, strip_prefix,
  contains_char, to_lower, lower,
}
use lgobase.Gconfig.Lexer.{new_lexer, next_token, token_at, skip_spaces, read_string, ends_plain}
use lgobase.Gconfig.Lexer.Quotes.{escape_double, string_token, next_token-double}
use lgobase.Gconfig.Value.{
  Value, null_value, bool_value, string_value, list_value, map_value, Values, no_values, value,
  Entries, no_entries, entry, NodeType, bool_type, string_type, ok, bind,
}
use lgobase.Gconfig.Scalar.{
  Std, unsupported_plain_scalar, parse_scalar, plain_scalar, is_null, is_bool, has_crlf,
  parse_explicit_string_tag,
}
use lgobase.Gconfig.Printer.{
  print_string, print_value, print_items, print_more_items, print_entries, print_more_entries,
  Printable, type_after,
}
use lgobase.Gconfig.Parser.{
  Parser, Parsed, with_token, after_item, after_entry, value_at, items_at, entries_at, parse_value,
  parse_items, parse_entries, parse_string, cons_value, cons_entry, has_key,
}

-- The parser in front of a text.
abbrev pub before : Bool → NodeType → Text → Parser
before stop_at_colon t s = with_token t (next_token stop_at_colon (new_lexer s))

-- Where a plain word may end.
abbrev pub Ended : Text → Type 0
Ended [] = Unit {0}
Ended (c ∷ s) = ends_plain false c ≡ true

read_string-Ended : (s : Text) → Ended s → read_string false s ≡ ([], s)
unfolding read_string
read_string-Ended [] h = refl
read_string-Ended (c ∷ s) h = rw h

before-print_string :
    (b : Bool) (t : NodeType) (s rest : Text)
    → before b t (print_string s ++ rest)
      ≡ record { lex = new_lexer rest; tok = string_token s; node_type = t }
unfolding print_string
before-print_string b t s rest = ap (with_token t) (
    ap (λ x. next_token b (new_lexer (b'"' ∷ x))) (append_assoc (escape_double s) (b'"' ∷ []) rest)
    ∙ next_token-double b none s rest)

module _ (std : Std) where
  -- The plain words.
  pub null-read :
      (t : NodeType) (rest : Text) (f : ℕ)
      → Ended rest
      → parse_value (suc f) std (before false t (codes "null" ++ rest))
        ≡ ok (null_value, before false (type_after null_value t) rest)
  unfolding parse_value value_at parse_string next_token skip_spaces token_at read_string type_after
      eq_text unsupported_plain_scalar parse_scalar plain_scalar trim_space trim_left trim_right
      is_space has_prefix strip_prefix is_null has_crlf contains_char to_lower lower
      parse_explicit_string_tag
  null-read t rest f h = rw (read_string-Ended rest h) refl

  pub bool-read :
      (b : Bool) (t : NodeType) (rest : Text) (f : ℕ)
      → Ended rest
      → parse_value (suc f) std (before false t (print_value (bool_value b) ++ rest))
        ≡ ok (bool_value b, before false bool_type rest)
  unfolding parse_value value_at parse_string next_token skip_spaces token_at read_string type_after
      print_value eq_text unsupported_plain_scalar parse_scalar plain_scalar trim_space trim_left
      trim_right is_space has_prefix strip_prefix is_null is_bool has_crlf contains_char to_lower
      lower parse_explicit_string_tag
  bool-read true t rest f h = rw (read_string-Ended rest h) refl
  bool-read false t rest f h = rw (read_string-Ended rest h) refl

  pub string-read :
      (s : Text) (t : NodeType) (rest : Text) (f : ℕ)
      → parse_value (suc f) std (before false t (print_string s ++ rest))
        ≡ ok (string_value s, before false string_type rest)
  unfolding parse_value value_at parse_string
  string-read s t rest f = ap (parse_value (suc f) std) (before-print_string false t s rest)

-- Where the elements of a list and the entries of a map end.
pub Ended-print_more_items : (vs : Values) (rest : Text) → Ended (print_more_items vs ++ rest)
unfolding print_more_items
Ended-print_more_items no_values rest = refl
Ended-print_more_items (value v vs) rest = refl

pub Ended-print_more_entries : (es : Entries) (rest : Text) → Ended (print_more_entries es ++ rest)
unfolding print_more_entries
Ended-print_more_entries no_entries rest = refl
Ended-print_more_entries (entry k v es) rest = refl

pub print_value-positive : (v : Value) → Printable v → 0 < length (print_value v)
unfolding print_value print_string
print_value-positive null_value h = omega arith
print_value-positive (bool_value true) h = omega arith
print_value-positive (bool_value false) h = omega arith
print_value-positive (string_value s) h = omega arith
print_value-positive (list_value vs) h = omega arith
print_value-positive (map_value es) h = omega arith
print_value-positive _ h = absurd h

pub print_items-short : (vs : Values) → length (print_items vs) ≤ length (print_more_items vs)
unfolding print_items print_more_items
print_items-short no_values = omega arith
print_items-short (value v vs) = omega arith

pub print_entries-short :
    (es : Entries) → length (print_entries es) ≤ length (print_more_entries es)
unfolding print_entries print_more_entries
print_entries-short no_entries = omega arith
print_entries-short (entry k v es) = omega arith

-- A round of a loop in front of a printed value.
items_at-print_value :
    (element : Parser → Parsed Value) (items : Parser → Parsed Values) (v : Value) (t : NodeType)
    (rest : Text)
    → Printable v
    → let p = before false t (print_value v ++ rest) in
      items_at element items p p.tok.kind ≡ (
        bind
          (element p)
          λ (w, q). bind (after_item q.tok.kind q) λ r. bind (items r) (cons_value w))
unfolding items_at print_value print_string next_token skip_spaces token_at
items_at-print_value element items null_value t rest h = refl
items_at-print_value element items (bool_value true) t rest h = refl
items_at-print_value element items (bool_value false) t rest h = refl
items_at-print_value element items (string_value s) t rest h = refl
items_at-print_value element items (list_value vs) t rest h = refl
items_at-print_value element items (map_value es) t rest h = refl
items_at-print_value element items _ t rest h = absurd h

-- From what follows a value on to the next round.
after_item-print {ℓ} :
    {A : Type ℓ} (g : Parser → Parsed A) (vs : Values) (t : NodeType) (rest : Text)
    → let p = before false t (print_more_items vs ++ rest) in
      bind (after_item p.tok.kind p) g ≡ g (before false t (print_items vs ++ rest))
unfolding print_items print_more_items next_token skip_spaces token_at
after_item-print g no_values t rest = refl
after_item-print g (value v vs) t rest = refl

after_entry-print {ℓ} :
    {A : Type ℓ} (g : Parser → Parsed A) (es : Entries) (t : NodeType) (rest : Text)
    → let p = before false t (print_more_entries es ++ rest) in
      bind (after_entry p.tok.kind p) g ≡ g (before true t (print_entries es ++ rest))
unfolding print_entries print_more_entries next_token skip_spaces token_at
after_entry-print g no_entries t rest = refl
after_entry-print g (entry k v es) t rest = refl

entry_text :
    (k v more rest : Text)
    → (print_string k ++ b':' ∷ (v ++ more)) ++ rest
      ≡ print_string k ++ b':' ∷ (v ++ (more ++ rest))
entry_text k v more rest =
    append_assoc (print_string k) (b':' ∷ (v ++ more)) rest
    ∙ ap (λ x. print_string k ++ b':' ∷ x) (append_assoc v more rest)

module _ (std : Std) (f : ℕ) (v : Value) (t₀ t₁ t₂ : NodeType) (rest : Text) where
  -- A round that reads an element and goes on.
  pub item_round :
      (vs : Values)
      → Printable v
      → parse_value f std (before false t₀ (print_value v ++ (print_more_items vs ++ rest)))
        ≡ ok (v, before false t₁ (print_more_items vs ++ rest))
      → parse_items f std (before false t₁ (print_items vs ++ rest)) ≡ ok (vs, before false t₂ rest)
      → parse_items (suc f) std (before false t₀ (print_items (value v vs) ++ rest))
        ≡ ok (value v vs, before false t₂ rest)
  unfolding parse_items print_items
  item_round vs h e d =
      ap (λ x. parse_items (suc f) std (before false t₀ x))
        (append_assoc (print_value v) (print_more_items vs) rest)
      ∙ items_at-print_value (λ q. parse_value f std q) (λ q. parse_items f std q) v t₀
          (print_more_items vs ++ rest) h
      ∙ ap
          (λ x.
            bind x λ (w, q).
              bind (after_item q.tok.kind q) λ r. bind (parse_items f std r) (cons_value w))
          e
      ∙ after_item-print (λ r. bind (parse_items f std r) (cons_value v)) vs t₁ rest
      ∙ ap (λ x. bind x (cons_value v)) d

  -- A round that reads a key and its value and goes on.
  pub entry_round :
      (seen : List Text) (k : Text) (es : Entries)
      → has_key k seen ≡ false
      → parse_value f std (before false t₀ (print_value v ++ (print_more_entries es ++ rest)))
        ≡ ok (v, before false t₁ (print_more_entries es ++ rest))
      → parse_entries f std (k ∷ seen) (before true t₁ (print_entries es ++ rest))
        ≡ ok (es, before false t₂ rest)
      → parse_entries (suc f) std seen (before true t₀ (print_entries (entry k v es) ++ rest))
        ≡ ok (entry k v es, before false t₂ rest)
  unfolding parse_entries entries_at print_entries next_token skip_spaces token_at
  entry_round seen k es h e d =
      ap (λ x. parse_entries (suc f) std seen (before true t₀ x))
        (entry_text k (print_value v) (print_more_entries es) rest)
      ∙ ap (parse_entries (suc f) std seen) (
          before-print_string true t₀ k (b':' ∷ (print_value v ++ (print_more_entries es ++ rest))))
      ∙ rw h (
          ap
            (λ x. bind x λ (w, q).
              bind (after_entry q.tok.kind q)
                λ r. bind (parse_entries f std (k ∷ seen) r) (cons_entry k w))
            e
          ∙ after_entry-print (λ r. bind (parse_entries f std (k ∷ seen) r) (cons_entry k v)) es t₁
              rest
          ∙ ap (λ x. bind x (cons_entry k v)) d)
