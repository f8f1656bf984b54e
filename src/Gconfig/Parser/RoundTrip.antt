-- ===== src/Gconfig/Parser/RoundTrip.antt =====
-- Every printed value is read back by gconfig_v2/token.go.
mod Rounds
use Rounds.{
  before, Ended, null-read, bool-read, string-read, Ended-print_more_items,
  Ended-print_more_entries, print_value-positive, print_items-short, print_entries-short,
  item_round, entry_round,
}
use lgobase.Base.{
  ℕ, zero, suc, ◌+◌, ◌*◌, ◌<◌, ◌≡◌, refl, sym, ap, ◌∙◌, true, false, List, [], ◌∷◌, ◌++◌,
  append-nil, some, arith, length, length-append,
}
use lgobase.Base.Text.{Text}
use lgobase.Gconfig.Lexer.{next_token, token_at, skip_spaces}
use lgobase.Gconfig.Value.{
  Value, null_value, bool_value, string_value, list_value, map_value, Values, no_values, value,
  Entries, no_entries, entry, NodeType, untyped, map_type, slice_type, ok, bind,
}
use lgobase.Gconfig.Scalar.{Std}
use lgobase.Gconfig.Printer.{
  print_string, print_value, print_items, print_more_items, print_entries, print_more_entries,
  Printable, PrintableItems, PrintableEntries, type_after, types_after, entry_types_after,
}
use lgobase.Gconfig.Parser.{
  value_at, items_at, entries_at, parse_value, parse_items, parse_entries, a_list, a_map, fuel_for,
  TokenNode, finish, whole_type, parse_structured,
}

mutual
  unfolding parse_value value_at parse_items items_at parse_entries entries_at print_value
      print_items print_more_items print_entries print_more_entries type_after types_after
      entry_types_after next_token skip_spaces token_at

  value-read :
      (std : Std) (v : Value) (t : NodeType) (rest : Text) (f : ℕ)
      → Ended rest
      → Printable v
      → 2 * length (print_value v) < f
      → parse_value f std (before false t (print_value v ++ rest))
        ≡ ok (v, before false (type_after v t) rest)
  value-read std v t rest zero e h lt = absurd (omega arith)
  value-read std null_value t rest (suc f) e h lt = null-read std t rest f e
  value-read std (bool_value true) t rest (suc f) e h lt = bool-read std true t rest f e
  value-read std (bool_value false) t rest (suc f) e h lt = bool-read std false t rest f e
  value-read std (string_value s) t rest (suc f) e h lt = string-read std s t rest f
  value-read std (list_value vs) t rest (suc f) e h lt =
      ap (λ x. bind x a_list) (items-read std vs slice_type rest f h (omega arith))
  value-read std (map_value es) t rest (suc f) e h lt =
      ap (λ x. bind x a_map) (entries-read std [] es map_type rest f h (omega arith))
  value-read std _ t rest (suc f) e h lt = absurd h

  items-read :
      (std : Std) (vs : Values) (t : NodeType) (rest : Text) (f : ℕ)
      → PrintableItems vs
      → 2 * length (print_items vs) + 1 < f
      → parse_items f std (before false t (print_items vs ++ rest))
        ≡ ok (vs, before false (types_after vs t) rest)
  items-read std vs t rest zero h lt = absurd (omega arith)
  items-read std no_values t rest (suc f) h lt = refl
  items-read std (value v vs) t rest (suc f) (h, hs) lt =
      let split = length-append (print_value v) (print_more_items vs) in
      let short = print_items-short vs in
      let some_text = print_value-positive v h in
      item_round std f v t (type_after v t) (types_after vs (type_after v t)) rest vs h
        (value-read std v t (print_more_items vs ++ rest) f (Ended-print_more_items vs rest) h
          (omega arith))
        (items-read std vs (type_after v t) rest f hs (omega arith))

  entries-read :
      (std : Std) (seen : List Text) (es : Entries) (t : NodeType) (rest : Text) (f : ℕ)
      → PrintableEntries seen es
      → 2 * length (print_entries es) + 1 < f
      → parse_entries f std seen (before true t (print_entries es ++ rest))
        ≡ ok (es, before false (entry_types_after es t) rest)
  entries-read std seen es t rest zero h lt = absurd (omega arith)
  entries-read std seen no_entries t rest (suc f) h lt = refl
  entries-read std seen (entry k v es) t rest (suc f) (new, h, hs) lt =
      let split =
        length-append (print_string k) (b':' ∷ (print_value v ++ print_more_entries es)) in
      let inner = length-append (print_value v) (print_more_entries es) in
      let short = print_entries-short es in
      entry_round std f v t (type_after v t) (entry_types_after es (type_after v t)) rest seen k es
        new
        (value-read std v t (print_more_entries es ++ rest) f (Ended-print_more_entries es rest) h
          (omega arith))
        (entries-read std (k ∷ seen) es (type_after v t) rest f hs (omega arith))

-- What prints a value, without numbers and times and with no key twice in a map, gives a text from
-- which the flow syntax reads that value, whatever the node is: the value is stored in the node, with
-- the type of a map or a list, and of a scalar otherwise, and with no other field changed.
pub parse_structured-print :
    (std : Std) (n : TokenNode) (v : Value)
    → Printable v
    → parse_structured std n (print_value v)
      ≡ ok (record n { obj = some v; node_type = whole_type v (type_after v untyped) })
unfolding parse_structured next_token skip_spaces token_at
parse_structured-print std n v h =
    ap (λ x. bind (parse_value (fuel_for (print_value v)) std (before false untyped x)) (finish n))
      (sym (append-nil (print_value v)))
    ∙ ap (λ x. bind x (finish n))
        (value-read std v untyped [] (fuel_for (print_value v)) tt h (omega arith))
