-- ===== src/KeyCheck/Laws.antt =====
-- The segments of a key, and which of them decide.
use mathlib.Core.List.{append_assoc, append-nil}
use k_o11y_otel_gateway.Prelude.{
  ℕ, ◌≤◌, ◌<◌, Bool, true, false, not, ◌&&◌, List, [], ◌∷◌, ◌++◌, any, all, ◌==◌, ◌≡◌, refl, sym,
  ◌∙◌, arith, if◌then◌else◌, Bool-cases, inl, inr,
}
use k_o11y_otel_gateway.KeyCheck.{
  Key, len, is_empty, Letters, is_alpha_lower, is_random_segment, process_from,
  process_key_segments, is_random_key,
}

-- A key without separators after `segment`: what stands before the first dot, and the parts after it.
unfoldable pub split_from : Key → Key → List Key
split_from segment [] = segment ∷ []
split_from segment (c ∷ s) =
    let next = split_from [] s in
    let longer = split_from (segment ++ (c ∷ [])) s in if c == b'.' then segment ∷ next else longer

-- The parts between the dots.
unfoldable pub split : Key → List Key
split key = split_from [] key

unfoldable pub join : List Key → Key
join [] = []
join (part ∷ []) = part
join (part ∷ (other ∷ parts)) = part ++ (b'.' ∷ join (other ∷ parts))

abbrev pub has_no_dot : Key → Bool
has_no_dot s = all (λ c. not (c == b'.')) s

module _ (u : Letters) where
  process_from-any :
      (segment s : Key)
      → process_from u segment s
        ≡ any (λ part. not (is_empty part) && is_random_segment u part) (split_from segment s)
  unfolding process_from split_from
  process_from-any segment [] = ground arith
  process_from-any segment (c ∷ s) =
      ground (arith, process_from-any [] s, process_from-any (segment ++ (c ∷ [])) s)

join_part : (p q s : Key) → join (p ∷ split_from q s) ≡ p ++ (b'.' ∷ join (split_from q s))
unfolding split_from join
join_part p q [] = refl
join_part p q (c ∷ s) = elim (Bool-cases (c == b'.')) [
  | inl dot ↦ ground (arith, dot)
  | inr other ↦ ground (arith, other, join_part p (q ++ (c ∷ [])) s)
]

join-split_from : (segment s : Key) → join (split_from segment s) ≡ segment ++ s
unfolding split_from
join-split_from segment [] = unfold join in sym (append-nil segment)
join-split_from segment (c ∷ s) = elim (Bool-cases (c == b'.')) [
  | inl dot ↦ ground (arith, dot, join_part segment [] s, join-split_from [] s)
  | inr other ↦
      ground
        (arith, other, join-split_from (segment ++ (c ∷ [])) s, append_assoc segment (c ∷ []) s)
]

all-append : (p : ℕ → Bool) (xs ys : Key) → all p (xs ++ ys) ≡ (all p xs && all p ys)
all-append p [] ys = refl
all-append p (x ∷ xs) ys = ground (arith, all-append p xs ys)

split_from_no_dot :
    (segment s : Key) → has_no_dot segment ≡ true → all has_no_dot (split_from segment s) ≡ true
unfolding split_from
split_from_no_dot segment [] h = ground (arith, h)
split_from_no_dot segment (c ∷ s) h = elim (Bool-cases (c == b'.')) [
  | inl dot ↦ ground (arith, dot, h, split_from_no_dot [] s refl)
  | inr other ↦
      let longer : has_no_dot (segment ++ (c ∷ [])) ≡ true =
        all-append (λ x. not (x == b'.')) segment (c ∷ []) ∙ ground (arith, h, other) in
      ground (arith, other, split_from_no_dot (segment ++ (c ∷ [])) s longer)
]

module _ (u : Letters) where
  -- The loop over the segments of a key finds out whether some part between its dots that is not empty
  -- looks random: these parts have no dots, and joined by dots they are the key.
  pub process_key_segments-split :
      (key : Key)
      → (process_key_segments u key
          ≡ any (λ part. not (is_empty part) && is_random_segment u part) (split key))
        × (join (split key) ≡ key)
        × (all has_no_dot (split key) ≡ true)
  unfolding process_key_segments split
  process_key_segments-split key =
      (process_from-any u [] key, join-split_from [] key, split_from_no_dot [] key refl)

  -- When every lower-case character is a letter, the test for lower-case letters lets upper-case
  -- letters pass: it asks for letters only.
  pub is_alpha_lower-is_letter :
      (key : Key)
      → ((c : ℕ) → u.is_lower c ≡ true → u.is_letter c ≡ true)
      → is_alpha_lower u key ≡ all (λ c. u.is_letter c) key
  unfolding is_alpha_lower
  is_alpha_lower-is_letter [] h = refl
  is_alpha_lower-is_letter (c ∷ s) h = ground (arith, h c, is_alpha_lower-is_letter s h)

  -- A key of at most 15 bytes that consists of letters, of whichever case, does not look random, and one
  -- of more than 256 bytes does, whatever it consists of.
  pub is_random_key_by_length :
      (short long : Key)
      → ((c : ℕ) → u.is_lower c ≡ true → u.is_letter c ≡ true)
      → len short ≤ 15
      → all (λ c. u.is_letter c) short ≡ true
      → 256 < len long
      → (is_random_key u short ≡ false) × (is_random_key u long ≡ true)
  unfolding is_random_key
  is_random_key_by_length short long h few letters many =
      (ground (arith, few, is_alpha_lower-is_letter short h ∙ letters), ground (arith, many))
