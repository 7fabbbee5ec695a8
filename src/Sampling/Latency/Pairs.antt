-- ===== src/Sampling/Latency/Pairs.antt =====
-- The longest duration between two spans of a list, from the latest end and the earliest start.
use k_o11y_otel_gateway.Prelude.{
  ℕ, ◌^◌, ◌≤◌, ◌<◌, min, max, Bool, true, ◌||◌, List, [], ◌∷◌, ◌≡◌, refl, ◌∙◌, any, arith,
  Bool-cases, inl, inr,
}
use k_o11y_otel_gateway.Prelude.Int.{ℤ, sub_ℕ, leb_ℤ}
use k_o11y_otel_gateway.Sampling.Trace.{Span}
use k_o11y_otel_gateway.Sampling.Latency.{milliseconds}

-- From a start to an end, in whole milliseconds, it takes as long as the threshold at least.
unfoldable pub is_long : ℤ → ℕ → ℕ → Bool
is_long threshold to from = leb_ℤ threshold (milliseconds (sub_ℕ to from))

pub is_long_mono :
    (threshold : ℤ) (to to' from from' : ℕ)
    → to ≤ to'
    → from' ≤ from
    → is_long threshold to from ≡ true
    → is_long threshold to' from' ≡ true
unfolding is_long milliseconds
is_long_mono threshold to to' from from' p q h = ground arith

-- Times that are set and fit an int64.
abbrev pub IsTime : ℕ → Type 0
IsTime t = (0 < t) × (t < 2 ^ 63)

abbrev pub IsTimed : Span → Type 0
IsTimed span = IsTime span.start_timestamp × IsTime span.end_timestamp

-- The latest end and the earliest start.
unfoldable pub last_end : List Span → ℕ
last_end [] = 0
last_end (x ∷ xs) = max x.end_timestamp (last_end xs)

unfoldable pub first_start : Span → List Span → ℕ
first_start x [] = x.start_timestamp
first_start x (y ∷ ys) = min x.start_timestamp (first_start y ys)

is_long_or_max :
    (threshold : ℤ) (from a b : ℕ)
    → (is_long threshold a from || is_long threshold b from) ≡ is_long threshold (max a b) from
unfolding is_long milliseconds
is_long_or_max threshold from a b = ground arith

is_long_or_min :
    (threshold : ℤ) (to a b : ℕ)
    → (is_long threshold to a || is_long threshold to b) ≡ is_long threshold to (min a b)
is_long_or_min threshold to a b = elim (Bool-cases (is_long threshold to a)) [
  | inl t ↦ ground (arith, t, is_long_mono threshold to to a (min a b))
  | inr f ↦ elim (Bool-cases (is_long threshold to b)) [
    | inl t ↦ ground (arith, t, f, is_long_mono threshold to to b (min a b))
    | inr g ↦ ground (arith, f, g)
  ]
]

any-last_end :
    (threshold : ℤ) (from : ℕ) (x : Span) (xs : List Span)
    → any (λ b. is_long threshold b.end_timestamp from) (x ∷ xs)
      ≡ is_long threshold (last_end (x ∷ xs)) from
unfolding last_end
any-last_end threshold from x [] = ground arith
any-last_end threshold from x (y ∷ ys) =
    rw (any-last_end threshold from y ys)
      (is_long_or_max threshold from x.end_timestamp (last_end (y ∷ ys)))

any-first_start :
    (threshold : ℤ) (to : ℕ) (x : Span) (xs : List Span)
    → any (λ a. is_long threshold to a.start_timestamp) (x ∷ xs)
      ≡ is_long threshold to (first_start x xs)
unfolding first_start
any-first_start threshold to x [] = ground arith
any-first_start threshold to x (y ∷ ys) =
    rw (any-first_start threshold to y ys)
      (is_long_or_min threshold to x.start_timestamp (first_start y ys))

any_congr :
    {A : Type 0} (p q : A → Bool) (xs : List A) → ((x : A) → p x ≡ q x) → any p xs ≡ any q xs
any_congr p q [] h = refl
any_congr p q (x ∷ xs) h = ground (arith, h x, any_congr p q xs h)

-- Some span ends late enough after some span of the trace has started.
unfoldable pub has_long_pair : ℤ → List Span → Bool
has_long_pair threshold xs =
    any (λ b. any (λ a. is_long threshold b.end_timestamp a.start_timestamp) xs) xs

pub has_long_pair-extremes :
    (threshold : ℤ) (x : Span) (xs : List Span)
    → has_long_pair threshold (x ∷ xs) ≡ is_long threshold (last_end (x ∷ xs)) (first_start x xs)
unfolding has_long_pair
has_long_pair-extremes threshold x xs =
    any_congr (λ b. any (λ a. is_long threshold b.end_timestamp a.start_timestamp) (x ∷ xs))
      (λ b. is_long threshold b.end_timestamp (first_start x xs)) (x ∷ xs)
      (λ b. any-first_start threshold b.end_timestamp x xs)
    ∙ any-last_end threshold (first_start x xs) x xs
