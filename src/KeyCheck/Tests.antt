-- ===== src/KeyCheck/Tests.antt =====
-- Keys that look random and keys that do not.
use k_o11y_otel_gateway.Prelude.{
  ℕ, ◌≤◌, ◌<◌, true, not, ◌&&◌, ◌||◌, [], ◌∷◌, any, all, replicate, ◌≡◌, refl, arith,
}
use k_o11y_otel_gateway.KeyCheck.{
  Key, Letters, len, in_range, is_empty, is_alpha_lower, is_random_segment, process_key_segments,
  matches_uuid, matches_times, matches_hex, is_base64_string, contains_non_alpha, base64_from,
  matches_timestamp, is_ulid, process_from,
}
use k_o11y_otel_gateway.KeyCheck.Laws.{
  split, join, has_no_dot, process_key_segments-split, is_alpha_lower-is_letter,
}

-- The letters of ASCII.
abbrev ascii : Letters
ascii = record {
  is_letter = λ c. in_range b'a' b'z' c || in_range b'A' b'Z' c;
  is_lower = λ c. in_range b'a' b'z' c;
}

lower_letter : (c : ℕ) → ascii.is_lower c ≡ true → ascii.is_letter c ≡ true
lower_letter c h = ground (arith, h)

-- The key A.b
abbrev dotted : Key
dotted = b'A' ∷ b'.' ∷ b'b' ∷ []

process_key_segments-split_example :
    (process_key_segments ascii dotted
      ≡ any (λ part. not (is_empty part) && is_random_segment ascii part) (split dotted))
    × (join (split dotted) ≡ dotted)
    × (all has_no_dot (split dotted) ≡ true)
process_key_segments-split_example = process_key_segments-split ascii dotted

abbrev name : Key
name = b'U' ∷ b'r' ∷ b'l' ∷ []

is_alpha_lower-is_letter_example : is_alpha_lower ascii name ≡ all (λ c. ascii.is_letter c) name
is_alpha_lower-is_letter_example = is_alpha_lower-is_letter ascii name lower_letter

abbrev long_key : Key
long_key = replicate 300 b'a'

short_enough : len name ≤ 15
unfolding len
short_enough = omega arith

long_enough : 256 < len long_key
unfolding len
long_enough = omega arith

-- A part of 16 hexadecimal digits looks random.
hex_part : process_key_segments ascii (b'a' ∷ b'.' ∷ replicate 16 b'7') ≡ true
unfolding process_key_segments process_from is_random_segment matches_uuid matches_times matches_hex
    len is_base64_string contains_non_alpha base64_from matches_timestamp is_ulid
hex_part = refl
