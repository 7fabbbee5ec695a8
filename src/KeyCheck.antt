-- ===== src/KeyCheck.antt =====
-- Which attribute keys look random, pkg/keycheck/keycheck.go. A key is its list of code points, and
-- `len` counts its bytes. The letters of the package unicode are a parameter, and the regular
-- expressions are tests on the list.
pub mod Cardinality
pub mod Laws
mod Tests
use k_o11y_otel_gateway.Prelude.{
  ℕ, zero, suc, ◌+◌, ◌*◌, Bool, true, false, not, ◌&&◌, ◌||◌, List, [], ◌∷◌, ◌++◌, any, all, length,
  ltb, leb, ◌==◌, if◌then◌else◌,
}

abbrev pub Key : Type 0
Key = List ℕ

-- The bytes of a code point in UTF-8.
abbrev pub rune_len : ℕ → ℕ
rune_len c = if ltb c 0x80 then 1 else if ltb c 0x800 then 2 else if ltb c 0x10000 then 3 else 4

unfoldable pub len : Key → ℕ
len [] = 0
len (c ∷ s) = rune_len c + len s

abbrev pub max_key_length : ℕ
max_key_length = 256

abbrev pub short_key_length : ℕ
short_key_length = 15

abbrev pub medium_key_length : ℕ
medium_key_length = 25

abbrev pub in_range : ℕ → ℕ → ℕ → Bool
in_range lo hi c = leb lo c && leb c hi

abbrev pub is_digit : ℕ → Bool
is_digit = in_range b'0' b'9'

-- [0-9a-f] without regard to case.
abbrev pub is_hex_digit : ℕ → Bool
is_hex_digit c = is_digit c || (in_range b'a' b'f' c || in_range b'A' b'F' c)

abbrev pub is_base64_char : ℕ → Bool
is_base64_char c =
    in_range b'A' b'Z' c || (in_range b'a' b'z' c || (is_digit c || (c == b'+' || c == b'/')))

-- ^[0-9a-f]{16,}$
unfoldable pub matches_hex : Key → Bool
matches_hex s = all is_hex_digit s && leb 16 (length s)

-- ^\d{13}$
unfoldable pub matches_timestamp : Key → Bool
matches_timestamp s = all is_digit s && (length s == 13)

-- `n` characters that pass the test, and then what `rest` matches.
unfoldable pub matches_times : ℕ → (ℕ → Bool) → (Key → Bool) → Key → Bool
matches_times zero p rest s = rest s
matches_times (suc n) p rest [] = false
matches_times (suc n) p rest (c ∷ s) = p c && matches_times n p rest s

abbrev pub is_empty : Key → Bool
is_empty [] = true
is_empty (c ∷ s) = false

abbrev pub is_dash : ℕ → Bool
is_dash c = c == b'-'

-- The 8-4-4-4-12 hexadecimal digits of a UUID, with its version and its variant.
unfoldable pub matches_uuid : Key → Bool
matches_uuid = matches_times 8 is_hex_digit (
    matches_times 1 is_dash (
      matches_times 4 is_hex_digit (
        matches_times 1 is_dash (
          matches_times 1 (in_range b'1' b'5') (
            matches_times 3 is_hex_digit (
              matches_times 1 is_dash (
                matches_times 1
                  (λ c.
                    (c == b'8' || c == b'9')
                    || ((c == b'a' || c == b'b') || (c == b'A' || c == b'B')))
                  (matches_times 3 is_hex_digit
                    (matches_times 1 is_dash (matches_times 12 is_hex_digit is_empty))))))))))

abbrev pub is_padding : Key → Bool
is_padding s = all (λ c. c == b'=') s && leb (length s) 2

-- ^[A-Za-z0-9+/]{16,}={0,2}$, after `n` characters.
unfoldable pub base64_from : ℕ → Key → Bool
base64_from n [] = leb 16 n
base64_from n (c ∷ s) =
    let rest = base64_from (n + 1) s in
    if is_base64_char c then rest else leb 16 n && is_padding (c ∷ s)

abbrev pub is_ulid_char : ℕ → Bool
is_ulid_char c =
    (in_range b'A' b'Z' c || is_digit c)
    && not ((c == b'I' || c == b'L') || (c == b'O' || c == b'U'))

unfoldable pub is_ulid : Key → Bool
is_ulid s = (len s == 26) && all is_ulid_char s

-- The tables of the package unicode.
pub record Letters : Type 0 where
  pub is_letter : ℕ → Bool
  pub is_lower : ℕ → Bool

module _ (u : Letters) where
  unfoldable pub is_alpha_lower : Key → Bool
  is_alpha_lower [] = true
  is_alpha_lower (r ∷ s) =
      let rest = is_alpha_lower s in
      if not (u.is_lower r) && not (u.is_letter r) then false else rest

  unfoldable pub contains_non_alpha : Key → Bool
  contains_non_alpha s = any (λ r. not (u.is_letter r)) s

  unfoldable pub count_letters : Key → ℕ
  count_letters [] = 0
  count_letters (r ∷ s) = (if u.is_letter r then 1 else 0) + count_letters s

  -- The quotient of the counts against 0.7, for keys of at most 25 bytes.
  unfoldable pub is_mostly_letters : Key → Bool
  is_mostly_letters s = ltb (7 * len s) (10 * count_letters s)

  unfoldable pub is_base64_string : Key → Bool
  is_base64_string s = contains_non_alpha s && base64_from 0 s

  unfoldable pub is_random_segment : Key → Bool
  is_random_segment segment =
      ltb max_key_length (len segment)
      || (matches_uuid segment
          || (matches_hex segment
              || (is_base64_string segment || (matches_timestamp segment || is_ulid segment))))

  -- The loop from an index on: `segment` is what it has read since `start`.
  unfoldable pub process_from : Key → Key → Bool
  process_from segment [] = not (is_empty segment) && is_random_segment segment
  process_from segment (c ∷ s) =
      let next = process_from [] s in
      let longer = process_from (segment ++ (c ∷ [])) s in
      if c == b'.' then (not (is_empty segment) && is_random_segment segment) || next else longer

  unfoldable pub process_key_segments : Key → Bool
  process_key_segments key = process_from [] key

  unfoldable pub is_random_key : Key → Bool
  is_random_key key =
      if ltb max_key_length (len key)
      then true
      else if leb (len key) short_key_length && is_alpha_lower key
      then false
      else if leb (len key) medium_key_length
          && (any (λ c. c == b'_' || c == b'-') key && is_mostly_letters key)
      then false
      else process_key_segments key
