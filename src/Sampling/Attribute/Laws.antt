-- ===== src/Sampling/Attribute/Laws.antt =====
-- The string filter against its meaning: which attributes match, with and without the cache.
use k_o11y_otel_gateway.Prelude.{
  String, Bool, false, not, none, some, List, [], ◌∷◌, ◌≡◌, refl, ap, inl, inr, any, arith, str_eq,
  if◌then◌else◌, Bool-cases, Option-cases,
}
use k_o11y_otel_gateway.Sampling.Trace.{
  Attributes, Span, get, get_str, Traces, TraceData, Decision, sampled, not_sampled, invert_sampled,
  invert_not_sampled,
}
use k_o11y_otel_gateway.Sampling.Scan.Laws.{
  Computes, some_resource_or_span, every_resource_and_span, has_resource_or_span-some,
  invert_has_resource_or_span-every,
}
use k_o11y_otel_gateway.Sampling.Attribute.{
  LruCache, Matcher, exact, regex, StringAttributeFilter, regex_loop, regex_match, match_string,
  resource_matches, span_matches, invert_resource_matches, invert_span_matches, string_evaluate,
}

-- What the filter relies on in the cache, whatever it evicts: `IsSound p c` says that `c` holds only
-- answers of `p`, and no operation makes an answer up.
pub record IsFaithful (lru : LruCache) (IsSound : (String → Bool) → lru.Cache → Type 0)
    : Type 0 where
  pub get_sound :
      (p : String → Bool) (s : String) (c : lru.Cache) (b : Bool)
      → IsSound p c
      → (lru.lru_get s c).0 ≡ some b
      → b ≡ p s
  pub get_keeps :
      (p : String → Bool) (s : String) (c : lru.Cache) → IsSound p c → IsSound p (lru.lru_get s c).1
  pub add_keeps :
      (p : String → Bool) (s : String) (c : lru.Cache)
      → IsSound p c
      → IsSound p (lru.lru_add s (p s) c)

module _ (lru : LruCache) (IsSound : (String → Bool) → lru.Cache → Type 0)
    (faithful : IsFaithful lru IsSound) where
  open lru use {Cache, lru_get, lru_add}

  -- What a matcher matches: a listed value, or a string that an expression matches.
  abbrev pub means : Matcher Cache → String → Bool
  means (exact values) s = any (str_eq s) values
  means (regex c rs) s = any (λ r. r s) rs

  -- A matcher of the same kind with the same values or expressions and a sound cache.
  abbrev pub IsLike : Matcher Cache → Matcher Cache → Type 0
  IsLike (exact values) (exact values') = values' ≡ values
  IsLike (regex c rs) (regex c' rs') = (rs' ≡ rs) × IsSound (λ s. any (λ r. r s) rs) c'
  IsLike _ _ = ⊥

  -- The loop finds whether some expression matches, and caches just that.
  regex_loop-any :
      (rs : List (String → Bool)) (s : String) (c : Cache)
      → regex_loop lru rs s c ≡ (any (λ r. r s) rs, lru_add s (any (λ r. r s) rs) c)
  unfolding regex_loop
  regex_loop-any [] s c = refl
  regex_loop-any (r ∷ rs) s c = ground (arith, regex_loop-any rs s c)

  regex_match-means :
      (rs : List (String → Bool)) (s : String) (c : Cache)
      → IsSound (λ t. any (λ r. r t) rs) c
      → ((regex_match lru rs s c).0 ≡ any (λ r. r s) rs)
        × IsSound (λ t. any (λ r. r t) rs) (regex_match lru rs s c).1
  unfolding regex_match
  regex_match-means rs s c h =
      let p = λ (t : String). any (λ r. r t) rs in
      let kept = faithful.get_keeps p s c h in
      elim (Option-cases (lru_get s c).0) [
        | inl miss ↦
            rw (miss, regex_match)
              (rw (regex_loop-any rs s (lru_get s c).1)
                (refl, faithful.add_keeps p s (lru_get s c).1 kept))
        | inr (b, hit) ↦ rw (hit, regex_match) (faithful.get_sound p s c b h hit, kept)
      ]

  match_string-means :
      (m m' : Matcher Cache) (s : String)
      → IsLike m m'
      → ((match_string lru m' s).0 ≡ means m s) × IsLike m (match_string lru m' s).1
  unfolding match_string
  match_string-means (exact values) (exact values') s h = (rw h, h)
  match_string-means (exact values) (regex c' rs') s h = absurd h
  match_string-means (regex c rs) (exact values') s h = absurd h
  match_string-means (regex c rs) (regex c' rs') s h =
      let (same, sound) = regex_match-means rs s c' h.1 in rw h.0 (same, (refl, sound))

  module _ (key : String) (m : Matcher Cache) where
    -- The resource's attribute matches; the span's does, and is not empty.
    abbrev pub resource_means : Attributes → Bool
    resource_means resource = elim (get key resource) [
      | none ↦ false
      | some v ↦ means m (get_str v)
    ]

    abbrev pub span_means : Span → Bool
    span_means span = elim (get key span.attributes) [
      | none ↦ false
      | some v ↦ if str_eq (get_str v) "" then false else means m (get_str v)
    ]

    resource_matches-Computes : Computes (IsLike m) resource_means (resource_matches lru key)
    unfolding resource_matches
    resource_matches-Computes = record {
      step = λ resource m' h. elim (Option-cases (get key resource)) [
        | inl missing ↦ ground (arith, missing, h)
        | inr (v, found) ↦ ground (arith, found, match_string-means m m' (get_str v) h)
      ];
    }

    span_matches-Computes : Computes (IsLike m) span_means (span_matches lru key)
    unfolding span_matches
    span_matches-Computes = record {
      step = λ span m' h. elim (Option-cases (get key span.attributes)) [
        | inl missing ↦ ground (arith, missing, h)
        | inr (v, found) ↦ elim (Bool-cases (str_eq (get_str v) "")) [
          | inl empty ↦ ground (arith, found, empty, h)
          | inr full ↦ ground (arith, found, full, match_string-means m m' (get_str v) h)
        ]
      ];
    }

    negated :
        {X : Type 0} (p : X → Bool) (check invert : X → Matcher Cache → Bool × Matcher Cache)
        → ((x : X) (m' : Matcher Cache) → invert x m' ≡ (not (check x m').0, (check x m').1))
        → Computes (IsLike m) p check
        → Computes (IsLike m) (λ x. not (p x)) invert
    negated p check invert e c = record {
      step = λ x m' h. rw (e x m') (let (same, like) = c.step x m' h in (ap not same, like));
    }

  abbrev pub resource_hits : StringAttributeFilter Cache → Attributes → Bool
  resource_hits f = resource_means f.key f.matcher

  abbrev pub span_hits : StringAttributeFilter Cache → Span → Bool
  span_hits f = span_means f.key f.matcher

  -- What a string filter decides. Inverted, it looks for a resource or span that hits as well, and
  -- refuses the trace then.
  abbrev pub string_decision : StringAttributeFilter Cache → Traces → Decision
  string_decision f td =
      if f.invert_match
      then if every_resource_and_span (λ r. not (resource_hits f r)) (λ s. not (span_hits f s)) td
        then invert_sampled
        else invert_not_sampled
      else if some_resource_or_span (resource_hits f) (span_hits f) td
      then sampled
      else not_sampled

  -- With a faithful cache a string filter decides by the attributes of the trace alone: whether some
  -- resource has a value under the key that matches, or some span one that matches and is not empty;
  -- it reports no error, and its values or expressions stay, with a cache that is sound again.
  pub string_evaluate-string_decision :
      (trace : TraceData) (f : StringAttributeFilter Cache)
      → IsLike f.matcher f.matcher
      → ((string_evaluate lru trace f).0 ≡ (string_decision f trace.received_batches, none))
        × IsLike f.matcher (string_evaluate lru trace f).1.matcher
  unfolding string_evaluate
  string_evaluate-string_decision trace f h =
      let cr = resource_matches-Computes f.key f.matcher in
      let cs = span_matches-Computes f.key f.matcher in
      let cr' =
        negated f.key f.matcher (resource_hits f) (resource_matches lru f.key)
          (invert_resource_matches lru f.key) (λ x m. unfold invert_resource_matches in refl) cr in
      let cs' =
        negated f.key f.matcher (span_hits f) (span_matches lru f.key)
          (invert_span_matches lru f.key) (λ x m. unfold invert_span_matches in refl) cs in
      let plain =
        has_resource_or_span-some (IsLike f.matcher) (span_hits f) (span_matches lru f.key) cs
          (resource_hits f) (resource_matches lru f.key) cr trace.received_batches f.matcher h in
      let inverted =
        invert_has_resource_or_span-every (IsLike f.matcher) (λ s. not (span_hits f s))
          (invert_span_matches lru f.key) cs' (λ r. not (resource_hits f r))
          (invert_resource_matches lru f.key) cr' trace.received_batches f.matcher h in
      elim (Bool-cases f.invert_match) [
        | inl inv ↦ rw inv (ap (λ d. (d, none)) inverted.0, inverted.1)
        | inr no_inv ↦ rw no_inv (ap (λ d. (d, none)) plain.0, plain.1)
      ]
