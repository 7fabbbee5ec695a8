-- ===== src/SpanMetrics/Histogram/Buckets.antt =====
-- The bucket that a latency falls into, the binary search of `sort.SearchFloat64s` that
-- processor/signozspanmetricsprocessor/processor.go calls.
use k_o11y_otel_gateway.Prelude.{
  if◌then◌else◌, ℕ, String, set, ◌==◌, ◌%◌, ◌^◌, ◌++◌, zero, suc, ◌+◌, ◌/◌, ◌≤◌, ◌<◌, Bool, true,
  false, none, some, List, [], ◌∷◌, length, ltb, ltb→lt, ◌≡◌, refl, sym, subst, arith, Bool-cases,
  Option-cases, inl, inr,
}
use k_o11y_otel_gateway.SpanMetrics.Histogram.{
  Floats, at, at_least, search_from, search_floats, HistogramData, add_uint64, observed, observe,
}
use k_o11y_otel_gateway.SpanMetrics.Histogram.Laws.{
  at-lt, search_floats-le, IsCounted, search_from_step, search_from_unfueled,
}

at-none : {A : Type 0} (xs : List A) (i : ℕ) → length xs ≤ i → at xs i ≡ none
at-none [] i h = refl
at-none (x ∷ xs) zero h = absurd (omega (arith, h))
at-none (x ∷ xs) (suc i) h = at-none xs i (omega (arith, h))

at-none_mono : {A : Type 0} (xs : List A) (i j : ℕ) → i ≤ j → at xs i ≡ none → at xs j ≡ none
at-none_mono [] i j h e = refl
at-none_mono (x ∷ xs) zero j h e = absurd (ground (arith, e))
at-none_mono (x ∷ xs) (suc i) zero h e = absurd (omega (arith, h))
at-none_mono (x ∷ xs) (suc i) (suc j) h e = at-none_mono xs i j (omega (arith, h)) e

module _ (floats : Floats) (bounds : List floats.Float) (x : floats.Float) where
  open floats use {Float, is_below, add_float}

  -- Of two bounds the later is not below the earlier.
  abbrev pub IsSorted : Type 0
  IsSorted =
      (h k : ℕ) (b c : Float)
      → h ≤ k
      → at bounds h ≡ some b
      → at bounds k ≡ some c
      → is_below c b ≡ false

  -- What is not below a bound that is not below `x` is not below `x`.
  abbrev pub IsOrdered : Type 0
  IsOrdered = (b c : Float) → is_below c b ≡ false → is_below b x ≡ false → is_below c x ≡ false

  abbrev test : ℕ → Bool
  test k = at_least floats bounds x k

  at_least_mono : IsSorted → IsOrdered → (h k : ℕ) → h ≤ k → test h ≡ true → test k ≡ true
  at_least_mono sorted order h k le t = elim (Option-cases (at bounds k)) [
    | inl out ↦ ground (arith, out)
    | inr (c, there) ↦ elim (Option-cases (at bounds h)) [
      | inl out ↦ ground (arith, there, at-none_mono bounds h k le out)
      | inr (b, here) ↦ ground (arith, there, here, t, sorted h k b c le here there, order b c)
    ]
  ]

  -- The bounds before the index are below `x`, and those from it on are not.
  abbrev Separates : ℕ → Type 0
  Separates i = ((k : ℕ) → k < i → test k ≡ false) × ((k : ℕ) → i ≤ k → test k ≡ true)

  search_from-Separates :
      IsSorted
      → IsOrdered
      → (fuel i j : ℕ) → i ≤ j
      → j ≤ i + fuel
      → ((k : ℕ) → k < i → test k ≡ false)
      → ((k : ℕ) → j ≤ k → test k ≡ true)
      → Separates (search_from floats bounds x fuel i j)
  search_from-Separates sorted order zero i j h enough below above =
      subst (λ r. Separates r) (sym (search_from_unfueled floats bounds x i j))
        (below, λ k le. above k (omega (arith, le, enough)))
  search_from-Separates sorted order (suc fuel) i j h enough below above =
      let m : ℕ = (i + j) / 2 in
      elim (Bool-cases (ltb i j)) [
        | inr done ↦
            let stopped : search_from floats bounds x (suc fuel) i j ≡ i =
              ground (arith, done, search_from_step floats bounds x fuel i j) in
            subst (λ r. Separates r) (sym stopped)
              (below, λ k le. above k (ground (arith, le, done)))
        | inl less ↦
            let l : i < j = ltb→lt i j less in
            elim (Bool-cases (test m)) [
              | inl upper ↦
                  let went : search_from floats bounds x (suc fuel) i j
                      ≡ search_from floats bounds x fuel i m =
                    ground (arith, less, upper, search_from_step floats bounds x fuel i j) in
                  subst (λ r. Separates r) (sym went)
                    (search_from-Separates sorted order fuel i m (omega (arith, l))
                      (omega (arith, l, enough)) below
                      (λ k le. at_least_mono sorted order m k le upper))
              | inr lower ↦
                  let went : search_from floats bounds x (suc fuel) i j
                      ≡ search_from floats bounds x fuel (suc m) j =
                    ground (arith, less, lower, search_from_step floats bounds x fuel i j) in
                  subst (λ r. Separates r) (sym went)
                    (search_from-Separates sorted order fuel (suc m) j (omega (arith, l))
                      (omega (arith, l, enough))
                      (λ k lt. elim (Bool-cases (test k)) [
                        | inl t ↦ absurd (
                            ground
                              (arith, lower, at_least_mono sorted order k m (omega (arith, lt)) t))
                        | inr f ↦ f
                      ])
                      above)
            ]
      ]

  -- The bounds before the index that the search finds are below `x`, and those from it on are not,
  -- when they are sorted by an order.
  search_floats-separates :
      IsSorted
      → IsOrdered
      → (k : ℕ) (b : Float) → at bounds k ≡ some b
      → is_below b x ≡ ltb k (search_floats floats bounds x)
  unfolding search_floats
  search_floats-separates sorted order k b there =
      let (below, above) =
        search_from-Separates sorted order (length bounds) 0 (length bounds) (omega arith)
          (omega arith) (λ k lt. absurd (omega (arith, lt)))
          (λ k le. ground (arith, at-none bounds k le)) in
      elim (Bool-cases (ltb k (search_floats floats bounds x))) [
        | inl less ↦
            ground (arith, less, there, below k (ltb→lt k (search_floats floats bounds x) less))
        | inr more ↦ ground (arith, more, there, above k (ground (arith, more)))
      ]

  -- The histogram with the latency: one more in the bucket whose bounds enclose it, in the count, in the
  -- sum and among the exemplars.
  pub record IsObserved (trace span : String) (h h' : HistogramData Float) : Type 0 where
    pub bucket : ℕ
    pub in_range : bucket ≤ length bounds
    pub encloses : (k : ℕ) (b : Float) → at bounds k ≡ some b → is_below b x ≡ ltb k bucket
    pub raised :
        (k n : ℕ)
        → at h.bucket_counts k ≡ some n
        → at h'.bucket_counts k ≡ some (if k == bucket then (n + 1) % 2 ^ 64 else n)
    pub counted : h'.count ≡ (h.count + 1) % 2 ^ 64
    pub summed : h'.sum ≡ add_float h.sum x
    pub remembered :
        h'.exemplars_data
        ≡ h.exemplars_data ++ (record { trace_id = trace; span_id = span; value = x } ∷ [])

  at-set :
      (ns : List ℕ) (i k n m v : ℕ)
      → at ns i ≡ some m
      → at ns k ≡ some n
      → at (set ns i v) k ≡ some (if k == i then v else n)
  at-set [] i k n m v e f = absurd (ground (arith, e))
  at-set (y ∷ ns) zero zero n m v e f = ground (arith, f)
  at-set (y ∷ ns) zero (suc k) n m v e f = ground (arith, f)
  at-set (y ∷ ns) (suc i) zero n m v e f = ground (arith, f)
  at-set (y ∷ ns) (suc i) (suc k) n m v e f = ground (arith, at-set ns i k n m v e f)

  -- A latency goes into the bucket whose bounds enclose it, and no other bucket changes, when the bounds
  -- are sorted by an order and the histogram has a bucket for each bound and one above.
  pub observe-IsObserved :
      IsSorted
      → IsOrdered
      → (trace span : String) (h : HistogramData Float) → IsCounted floats bounds h
      → (h' : HistogramData Float) × (observe floats bounds x trace span h ≡ some h')
        × IsObserved trace span h h'
  unfolding observe
  observe-IsObserved sorted order trace span h c =
      let i : ℕ = search_floats floats bounds x in
      let le : i ≤ length bounds = search_floats-le floats bounds x in
      let (m, found) = at-lt h.bucket_counts i (omega (arith, le, c.shape)) in
      (
        observed floats x trace span i m h,
        ground (arith, found),
        record {
          bucket = i;
          in_range = le;
          encloses = λ k b there. search_floats-separates sorted order k b there;
          raised = λ k n here.
              ground
                (arith, here, found, at-set h.bucket_counts i k n m (add_uint64 m 1) found here);
          counted = refl;
          summed = refl;
          remembered = refl;
        },
      )
