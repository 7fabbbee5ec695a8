-- ===== src/Sampling/Tests.antt =====
-- Runs of the sampling policies on concrete traces.
use k_o11y_otel_gateway.Prelude.{
  ◌≤◌, ℕ, ◌^◌, ◌-◌, ◌<◌, Bool, true, Option, none, some, [], ◌∷◌, String, str_eq, ◌≡◌, ◌≢◌, eq_iff,
  ap, refl, inr, arith, if◌then◌else◌, all, All,
}
use k_o11y_otel_gateway.Prelude.Int.{pos}
use k_o11y_otel_gateway.Sampling.Trace.{
  str, int, StatusCode, Span, TraceData, PolicyEvaluator, unspecified, sampled, not_sampled,
  is_sampled,
}
use k_o11y_otel_gateway.Sampling.Scan.{
  has_span_with_condition, has_instrumentation_library_span_with_condition, scope_has,
}
use k_o11y_otel_gateway.Sampling.Scan.Flat.{all_spans}
use k_o11y_otel_gateway.Sampling.Simple.{
  SpanCount, span_count_evaluate, NumericAttributeFilter, StatusCodeFilter, has_status,
  status_code_evaluate, TraceStateFilter,
}
use k_o11y_otel_gateway.Sampling.Latency.{Latency, latency_evaluate}
use k_o11y_otel_gateway.Sampling.Latency.Pairs.{IsTimed, has_long_pair}
use k_o11y_otel_gateway.Sampling.Latency.Laws.{latency_evaluate-has_long_pair}
use k_o11y_otel_gateway.Sampling.Hash.{ProbabilisticSampler, probabilistic_evaluate}
use k_o11y_otel_gateway.Sampling.Hash.Laws.{probabilistic_evaluate_mono}
use k_o11y_otel_gateway.Sampling.Attribute.{LruCache, regex, StringAttributeFilter, string_evaluate}
use k_o11y_otel_gateway.Sampling.Attribute.Laws.{
  IsFaithful, IsLike, string_decision, string_evaluate-string_decision,
}
use k_o11y_otel_gateway.Sampling.Rate.{new_rate_limiting}
use k_o11y_otel_gateway.Sampling.Rate.Laws.{admitted, admitted-lt-limit}
use k_o11y_otel_gateway.Sampling.Combine.{
  Composite, new_composite, and_evaluate, composite_evaluate,
}
use k_o11y_otel_gateway.Sampling.Combine.Caps.{let_through, allowed, let_through-allowed}
use k_o11y_otel_gateway.Sampling.Combine.Laws.{
  lets_pass, and_evaluate-lets_pass, limited, composite-exceeds_total,
}

abbrev span : ℕ → ℕ → Span
span from to = record {
  trace_id = 7;
  trace_state = "";
  start_timestamp = from;
  end_timestamp = to;
  attributes = ("peer", str "db") ∷ ("size", int (pos 12)) ∷ [];
  status = StatusCode.error;
}

abbrev trace_of : ℕ → TraceData
trace_of n = record {
  decisions = [];
  arrival_time = 0;
  decision_time = 0;
  span_count = pos n;
  received_batches =
      record {
        resource = ("service", str "cart") ∷ [];
        scope_spans = (span 5 6 ∷ []) ∷ (span 7 9_000_000_000 ∷ []) ∷ [];
      }
      ∷ [];
  final_decision = unspecified;
}

abbrev trace : TraceData
trace = trace_of 2

abbrev one_second : Latency
one_second = record { threshold_ms = pos 1000 }

timed : All IsTimed (all_spans trace.received_batches)
timed = ground arith

latency_evaluate-has_long_pair_example : latency_evaluate trace one_second ≡ (
  if has_long_pair (pos 1000) (all_spans trace.received_batches) then sampled else not_sampled,
  none,
)
latency_evaluate-has_long_pair_example = latency_evaluate-has_long_pair trace one_second timed

abbrev at : ℕ → ProbabilisticSampler
at threshold = record { threshold = threshold; hash_salt = "salt" }

probabilistic_evaluate_mono_example : probabilistic_evaluate 7 (at (2 ^ 64 - 1)) ≡ (sampled, none)
probabilistic_evaluate_mono_example =
    probabilistic_evaluate_mono 7 (at 5) (at (2 ^ 64 - 1)) refl (omega arith) (inr refl)

abbrev sizes : NumericAttributeFilter
sizes = record { key = "size"; min_value = pos 10; max_value = pos 20 }

abbrev errors : StatusCodeFilter
errors = record { status_codes = StatusCode.error ∷ [] }

abbrev states : TraceStateFilter
states = record { key = "vendor"; values = "a" ∷ [] }

-- A cache of one answer.
abbrev one_answer : LruCache
one_answer = record {
  Cache = Option (String × Bool);
  new = λ size. none;
  lru_get = λ s c. (answer s c, c);
  lru_add = λ s b c. some (s, b);
}
  where
    answer : String → Option (String × Bool) → Option Bool
    answer s none = none
    answer s (some (key, b)) = if str_eq key s then some b else none

abbrev IsSound : (String → Bool) → Option (String × Bool) → Type 0
IsSound p none = Unit
IsSound p (some (s, b)) = b ≡ p s

one_answer-IsFaithful : IsFaithful one_answer IsSound
one_answer-IsFaithful = record {
  get_sound = λ p s c b sound found. looked_up p s c b sound found;
  get_keeps = λ p s c sound. sound;
  add_keeps = λ p s c sound. refl;
}
  where
    looked_up :
        (p : String → Bool) (s : String) (c : Option (String × Bool)) (b : Bool)
        → IsSound p c
        → (one_answer.lru_get s c).0 ≡ some b
        → b ≡ p s
    looked_up p s none b sound found = ground (arith, found)
    looked_up p s (some (key, b')) b sound found = ground (arith, sound, found, eq_iff key s)

abbrev carts : StringAttributeFilter (Option (String × Bool))
carts = record {
  key = "service";
  matcher = regex none ((λ s. str_eq s "cart") ∷ []);
  invert_match = true;
}

string_evaluate-string_decision_example :
    ((string_evaluate one_answer trace carts).0 ≡ (
      string_decision one_answer IsSound one_answer-IsFaithful carts trace.received_batches,
      none,
    ))
    × IsLike one_answer IsSound one_answer-IsFaithful carts.matcher
        (string_evaluate one_answer trace carts).1.matcher
string_evaluate-string_decision_example =
    string_evaluate-string_decision one_answer IsSound one_answer-IsFaithful trace carts (refl, tt)

later : (new_rate_limiting (pos 10)).current_second ≢ pos 100
unfolding new_rate_limiting
later = λ e. ground (arith, e)

limit : (new_rate_limiting (pos 10)).spans_per_second ≡ pos 10
unfolding new_rate_limiting
limit = refl

admitted-lt-limit_example :
    admitted (pos 100) (trace_of 4 ∷ trace_of 5 ∷ trace_of 3 ∷ []) (new_rate_limiting (pos 10)) < 10
admitted-lt-limit_example =
    admitted-lt-limit (pos 100) (trace_of 4 ∷ trace_of 5 ∷ trace_of 3 ∷ [])
      (new_rate_limiting (pos 10)) 10 later limit (omega arith) (omega arith)
      ((4, refl, omega arith), ((5, refl, omega arith), ((3, refl, omega arith), tt)))

instance abbrev by_size : PolicyEvaluator SpanCount
by_size = record { evaluate = λ now id t c. (span_count_evaluate t c, c) }

abbrev at_least : ℕ → SpanCount
at_least n = record { min_spans = pos n }

and_evaluate-lets_pass_example :
    is_sampled (and_evaluate (pos 100) 7 trace (at_least 1 ∷ at_least 3 ∷ [])).0.0
    ≡ all (λ e. lets_pass (by_size.evaluate (pos 100) 7 trace e).0) (at_least 1 ∷ at_least 3 ∷ [])
and_evaluate-lets_pass_example =
    and_evaluate-lets_pass (pos 100) 7 trace (at_least 1 ∷ at_least 3 ∷ [])

abbrev shared : Composite SpanCount
shared = record {
  subpolicies =
      record { evaluator = at_least 1; allocated_sps = pos 3; sampled_sps = pos 2 }
      ∷ record { evaluator = at_least 2; allocated_sps = pos 9; sampled_sps = pos 0 }
      ∷ [];
  max_total_sps = pos 6;
  current_second = pos 100;
}

new_second : shared.current_second ≢ pos 101
new_second = λ e. ground (arith, e)

let_through-allowed_example :
    let_through (pos 101) ((7, trace_of 2) ∷ (8, trace_of 4) ∷ []) shared
    ≤ allowed 6 shared.subpolicies
let_through-allowed_example =
    let_through-allowed (pos 101) 6 ((7, trace_of 2) ∷ (8, trace_of 4) ∷ []) shared (omega arith)
      new_second refl ((refl, omega arith), ((refl, omega arith), tt))

instance abbrev by_status : PolicyEvaluator StatusCodeFilter
by_status = record { evaluate = λ now id t c. (status_code_evaluate t c, c) }

abbrev fine_trace : TraceData
fine_trace = record trace {
  received_batches =
      record {
        resource = [];
        scope_spans = (record (span 5 6) { status = StatusCode.ok } ∷ []) ∷ [];
      }
      ∷ [];
}

abbrev all_codes : StatusCodeFilter
all_codes = record { status_codes = StatusCode.ok ∷ StatusCode.error ∷ [] }

first_samples : status_code_evaluate trace errors ≡ (sampled, none)
unfolding status_code_evaluate has_status has_span_with_condition
    has_instrumentation_library_span_with_condition scope_has
first_samples = refl

first_refuses : status_code_evaluate fine_trace errors ≡ (not_sampled, none)
unfolding status_code_evaluate has_status has_span_with_condition
    has_instrumentation_library_span_with_condition scope_has
first_refuses = refl

second_samples : status_code_evaluate fine_trace all_codes ≡ (sampled, none)
unfolding status_code_evaluate has_status has_span_with_condition
    has_instrumentation_library_span_with_condition scope_has
second_samples = refl

abbrev pair : Composite StatusCodeFilter
pair = new_composite (pos 3) (limited errors (pos 3) ∷ limited all_codes (pos 3) ∷ [])

composite-exceeds_total_example :
    ((composite_evaluate (pos 100) 7 trace pair).0 ≡ (sampled, none))
    × ((composite_evaluate (pos 100) 8 fine_trace (composite_evaluate (pos 100) 7 trace pair).1).0
        ≡ (sampled, none))
composite-exceeds_total_example =
    composite-exceeds_total (pos 100) 7 8 trace fine_trace errors all_codes 2 3 (omega arith)
      (omega arith) (omega arith) refl refl (ap (λ v. (v, errors)) first_samples)
      (ap (λ v. (v, errors)) first_refuses) (ap (λ v. (v, all_codes)) second_samples)
