-- ===== src/TailSampler/Tests/Policies.antt =====
-- Runs of a policy's evaluator on a concrete trace.
use k_o11y_otel_gateway.Prelude.{Bool, true, false, none, List, [], ◌∷◌, ◌≡◌, refl, ap, inl}
use k_o11y_otel_gateway.Prelude.Int.{pos}
use k_o11y_otel_gateway.Sampling.Trace.{sampled}
use k_o11y_otel_gateway.Sampling.Simple.{SpanCount, span_count_evaluate}
use k_o11y_otel_gateway.Sampling.Attribute.{exact}
use k_o11y_otel_gateway.TailSampler.Evaluator.{
  DefaultEvaluator, Filter, string_filter, Sampler, always, never, sampler_policy, no_policy,
  filter_policy, default_evaluate,
}
use k_o11y_otel_gateway.TailSampler.Evaluator.Laws.{default_evaluate-promised, promised}
use k_o11y_otel_gateway.TailSampler.Evaluator.Inverted.{
  drop_inverted, default_evaluate-drop_inverted,
}
use k_o11y_otel_gateway.TailSampler.Tests.{trace, by_size, no_cache}

-- A filter on the service, as it is and inverted.
abbrev service : Bool → Filter (Unit {0})
service inverted =
    string_filter
      (record { key = "service"; matcher = exact ("cart" ∷ []); invert_match = inverted })

abbrev evaluator_of : List (Filter (Unit {0})) → DefaultEvaluator (Filter (Unit {0})) Sampler ⊥
evaluator_of filters = record {
  name = "carts";
  sampler = always;
  sampling_method = "include_all";
  filter_operator = "AND";
  filters = filters;
  sub_evaluators = [];
}

default_evaluate-drop_inverted_example :
    (default_evaluate ⦃pf = filter_policy no_cache⦄
      (pos 5)
      7
      trace
      (evaluator_of (service true ∷ service false ∷ []))).0
    ≡ (default_evaluate ⦃pf = filter_policy no_cache⦄
        (pos 5)
        7
        trace
        (evaluator_of (drop_inverted no_cache (service true ∷ service false ∷ [])))).0
default_evaluate-drop_inverted_example =
    default_evaluate-drop_inverted no_cache (pos 5) 7 trace
      (evaluator_of (service true ∷ service false ∷ []))

nothing_left : drop_inverted no_cache (service true ∷ []) ≡ []
unfolding drop_inverted
nothing_left = refl

abbrev sized : DefaultEvaluator SpanCount Sampler ⊥
sized = record {
  name = "sized";
  sampler = never;
  sampling_method = "exclude_all";
  filter_operator = "and";
  filters = record { min_spans = pos 1 } ∷ record { min_spans = pos 0 } ∷ [];
  sub_evaluators = [];
}

big_enough : span_count_evaluate trace (record { min_spans = pos 1 }) ≡ (sampled, none)
unfolding span_count_evaluate
big_enough = refl

any_size : span_count_evaluate trace (record { min_spans = pos 0 }) ≡ (sampled, none)
unfolding span_count_evaluate
any_size = refl

default_evaluate-promised_example :
    (default_evaluate (pos 5) 7 trace sized).0 ≡ promised (pos 5) 7 trace sized
default_evaluate-promised_example = default_evaluate-promised (pos 5) 7 trace sized (
  (ap (λ v. v.1) big_enough, inl (ap (λ v. v.0) big_enough)),
  ((ap (λ v. v.1) any_size, inl (ap (λ v. v.0) any_size)), tt),
)
