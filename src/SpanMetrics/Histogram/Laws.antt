-- ===== src/SpanMetrics/Histogram/Laws.antt =====
-- The counts of a histogram, processor/signozspanmetricsprocessor/processor.go.
use k_o11y_otel_gateway.Prelude.{
  ℕ, zero, suc, ◌+◌, ◌/◌, ◌%◌, ◌^◌, ◌≤◌, ◌<◌, Option, none, some, String, List, [], ◌∷◌, length,
  set, replicate, ltb, length-set, length-replicate, ◌≡◌, refl, arith, Bool-cases, inl, inr, ltb→lt,
  ◌∙◌, if◌then◌else◌,
}
use k_o11y_otel_gateway.SpanMetrics.Histogram.{
  Floats, at, HistogramData, add_uint64, at_least, search_from, search_floats, new_histogram,
  observed, observe, drop_exemplars,
}

unfoldable pub total : List ℕ → ℕ
total [] = 0
total (n ∷ ns) = n + total ns

pub at-lt : (ns : List ℕ) (i : ℕ) → i < length ns → (n : ℕ) × (at ns i ≡ some n)
at-lt [] i h = absurd (omega (arith, h))
at-lt (n ∷ ns) zero h = (n, refl)
at-lt (n ∷ ns) (suc i) h = at-lt ns i (omega (arith, h))

total-set :
    (ns : List ℕ) (i n : ℕ)
    → at ns i ≡ some n
    → total (set ns i (add_uint64 n 1)) % 2 ^ 64 ≡ (total ns + 1) % 2 ^ 64
unfolding total
total-set [] i n h = absurd (ground (arith, h))
total-set (m ∷ ns) zero n h = ground (arith, h)
total-set (m ∷ ns) (suc i) n h = ground (arith, total-set ns i n h)

total-replicate : (n : ℕ) → total (replicate n 0) ≡ 0
unfolding total
total-replicate zero = refl
total-replicate (suc n) = ground (arith, total-replicate n)

module _ (floats : Floats) where
  open floats use {Float}

  search_from-le :
      (bounds : List Float) (x : Float) (fuel i j : ℕ)
      → i ≤ j
      → search_from floats bounds x fuel i j ≤ j
  unfolding search_from
  search_from-le bounds x zero i j h = h
  search_from-le bounds x (suc fuel) i j h = elim (Bool-cases (ltb i j)) [
    | inl less ↦
        let l : i < j = ltb→lt i j less in
        let m : ℕ = (i + j) / 2 in
        ground (
          arith,
          less,
          search_from-le bounds x fuel i m (omega (arith, l)),
          search_from-le bounds x fuel (suc m) j (omega (arith, l)),
        )
    | inr more ↦ ground (arith, more, h)
  ]

  pub search_from_step :
      (bounds : List Float) (x : Float) (fuel i j : ℕ)
      → search_from floats bounds x (suc fuel) i j ≡ (
          if ltb i j
          then if at_least floats bounds x ((i + j) / 2)
            then search_from floats bounds x fuel i ((i + j) / 2)
            else search_from floats bounds x fuel (suc ((i + j) / 2)) j
          else i)
  unfolding search_from
  search_from_step bounds x fuel i j = refl

  pub search_from_unfueled :
      (bounds : List Float) (x : Float) (i j : ℕ) → search_from floats bounds x zero i j ≡ i
  unfolding search_from
  search_from_unfueled bounds x i j = refl

  -- More fuel than the range is long changes nothing.
  search_from-enough :
      (bounds : List Float) (x : Float) (fuel i j : ℕ)
      → j ≤ i + fuel
      → search_from floats bounds x (suc fuel) i j ≡ search_from floats bounds x fuel i j
  search_from-enough bounds x zero i j h = elim (Bool-cases (ltb i j)) [
    | inl less ↦ absurd (omega (arith, ltb→lt i j less, h))
    | inr more ↦
        ground (arith, more, search_from_step bounds x zero i j, search_from_unfueled bounds x i j)
  ]
  search_from-enough bounds x (suc fuel) i j h = elim (Bool-cases (ltb i j)) [
    | inl less ↦
        let l : i < j = ltb→lt i j less in
        let m : ℕ = (i + j) / 2 in
        ground (
          arith,
          less,
          search_from_step bounds x (suc fuel) i j,
          search_from_step bounds x fuel i j,
          search_from-enough bounds x fuel i m (omega (arith, l, h)),
          search_from-enough bounds x fuel (suc m) j (omega (arith, l, h)),
        )
    | inr more ↦
        ground (
          arith,
          more,
          search_from_step bounds x (suc fuel) i j,
          search_from_step bounds x fuel i j,
        )
  ]

  pub search_floats-le :
      (bounds : List Float) (x : Float) → search_floats floats bounds x ≤ length bounds
  unfolding search_floats
  search_floats-le bounds x =
      search_from-le bounds x (length bounds) 0 (length bounds) (omega arith)

  -- There is a bucket for each bound and one above, and every count is in a bucket.
  pub record IsCounted (bounds : List Float) (histo : HistogramData Float) : Type 0 where
    pub shape : length histo.bucket_counts ≡ suc (length bounds)
    pub counted : total histo.bucket_counts % 2 ^ 64 ≡ histo.count

  pub new_histogram-IsCounted :
      (bounds : List Float) → IsCounted bounds (new_histogram floats bounds)
  unfolding new_histogram
  new_histogram-IsCounted bounds = record {
    shape = length-replicate (suc (length bounds)) 0;
    counted = ground (arith, total-replicate (suc (length bounds)));
  }

  pub observe-IsCounted :
      (bounds : List Float) (x : Float) (trace span : String) (histo : HistogramData Float)
      → IsCounted bounds histo
      → (next : HistogramData Float) × (observe floats bounds x trace span histo ≡ some next)
        × IsCounted bounds next
        × (next.count ≡ (histo.count + 1) % 2 ^ 64)
  unfolding observe
  observe-IsCounted bounds x trace span histo c =
      let i : ℕ = search_floats floats bounds x in
      let (n, found) =
        at-lt histo.bucket_counts i (omega (arith, search_floats-le bounds x, c.shape)) in
      (
        observed floats x trace span i n histo,
        ground (arith, found),
        record {
          shape = length-set histo.bucket_counts i (add_uint64 n 1) ∙ c.shape;
          counted = ground (arith, total-set histo.bucket_counts i n found, c.counted);
        },
        refl,
      )

  -- The updates of one histogram, one after the other.
  unfoldable pub observe_all :
      List Float
      → List (Float × String × String)
      → HistogramData Float
      → Option (HistogramData Float)
  observe_all bounds [] histo = some histo
  observe_all bounds ((x, trace, span) ∷ rest) histo =
      elim (observe floats bounds x trace span histo) [
        | none ↦ none
        | some next ↦ observe_all bounds rest next
      ]

  observe_all-from :
      (bounds : List Float) (xs : List (Float × String × String)) (histo : HistogramData Float)
      → IsCounted bounds histo
      → (next : HistogramData Float) × (observe_all bounds xs histo ≡ some next)
        × IsCounted bounds next
        × (next.count % 2 ^ 64 ≡ (histo.count + length xs) % 2 ^ 64)
  unfolding observe_all
  observe_all-from bounds [] histo c = (histo, refl, c, ground arith)
  observe_all-from bounds ((x, trace, span) ∷ rest) histo c =
      let (one, seen, c1, counts) = observe-IsCounted bounds x trace span histo c in
      let (all, done, c2, sums) = observe_all-from bounds rest one c1 in
      (all, ground (arith, seen, done), c2, ground (arith, sums, counts))

  -- Any latencies, however the bounds are ordered, are counted without a panic: afterwards there is one
  -- bucket more than bounds, and both the buckets and the count add up to the number of latencies,
  -- modulo 2^64.
  pub observe_all-IsCounted :
      (bounds : List Float) (xs : List (Float × String × String))
      → (histo : HistogramData Float) × (observe_all bounds xs (new_histogram floats bounds)
          ≡ some histo)
        × IsCounted bounds histo
        × (histo.count % 2 ^ 64 ≡ length xs % 2 ^ 64)
  unfolding new_histogram
  observe_all-IsCounted bounds xs =
      let start : HistogramData Float = new_histogram floats bounds in
      let (histo, seen, c, sums) =
        observe_all-from bounds xs start (new_histogram-IsCounted bounds) in
      (histo, seen, c, ground (arith, sums))

  pub drop_exemplars-IsCounted :
      (bounds : List Float) (histo : HistogramData Float)
      → IsCounted bounds histo
      → IsCounted bounds (drop_exemplars floats histo)
  unfolding drop_exemplars
  drop_exemplars-IsCounted bounds histo c = record { shape = c.shape; counted = c.counted }
