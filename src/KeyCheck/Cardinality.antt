-- ===== src/KeyCheck/Cardinality.antt =====
-- Keys with many values, and the backticks of a key, pkg/keycheck/cardinality.go.
use k_o11y_otel_gateway.Prelude.{
  ℕ, Bool, true, false, not, ◌||◌, List, [], ◌∷◌, any, ◌==◌, if◌then◌else◌,
}
use k_o11y_otel_gateway.KeyCheck.{Key, Letters, in_range, process_key_segments}

abbrev pub json_key_allowed_symbols : List ℕ
json_key_allowed_symbols = b'_' ∷ b'.' ∷ b':' ∷ b'@' ∷ b'-' ∷ []

abbrev pub backtick_required_symbols : List ℕ
backtick_required_symbols = b':' ∷ b'@' ∷ b'-' ∷ []

abbrev contains_symbol : List ℕ → ℕ → Bool
contains_symbol symbols c = any (λ s. c == s) symbols

unfoldable pub is_backtick_required : Key → Bool
is_backtick_required key = any (λ c. contains_symbol backtick_required_symbols c) key

unfoldable pub clean_backticks : Key → Key
clean_backticks [] = []
clean_backticks (c ∷ s) = let rest = clean_backticks s in if c == 0x60 then rest else c ∷ rest

unfoldable pub contains_digits : Key → Bool
contains_digits s = any (λ c. in_range b'0' b'9' c) s

unfoldable pub has_non_allowed_symbols : Key → Bool
has_non_allowed_symbols [] = false
has_non_allowed_symbols (c ∷ s) =
    let rest = has_non_allowed_symbols s in
    if in_range b'a' b'z' c || in_range b'A' b'Z' c
    then rest
    else if in_range b'0' b'9' c
    then rest
    else if not (contains_symbol json_key_allowed_symbols c)
    then true
    else rest

unfoldable pub is_cardinal : Letters → Key → Bool
is_cardinal u key =
    if contains_digits key
    then true
    else if has_non_allowed_symbols key
    then true
    else process_key_segments u key
