-- ===== src/Sampling/Trace.antt =====
-- The data that a sampling policy reads: processor/signoztailsampler/internal/sampling/policy.go
-- (Decision, TraceData, PolicyEvaluator), over spans with the fields that the policies read.
use k_o11y_otel_gateway.Prelude.{
  ℕ, String, Bool, true, false, Option, none, some, List, [], ◌∷◌, str_eq, if◌then◌else◌,
}
use k_o11y_otel_gateway.Prelude.Int.{ℤ, pos}

-- An attribute's value, with Go's accessors: of another type they return the zero value.
pub data Value : Type 0 where
  str : String → Value
  int : ℤ → Value
  other : Value

abbrev pub get_str : Value → String
get_str (str s) = s
get_str _ = ""

abbrev pub get_int : Value → ℤ
get_int (int n) = n
get_int _ = pos 0

abbrev pub Attributes : Type 0
Attributes = List (String × Value)

-- `Map.Get`: the first entry with the key.
unfoldable pub get : String → Attributes → Option Value
get k [] = none
get k ((j, v) ∷ rest) = if str_eq j k then some v else get k rest

pub data StatusCode : Type 0 where
  unset ok error : StatusCode

-- Timestamps are uint64 nanoseconds; a trace id is its 16 bytes read as one number.
pub record Span : Type 0 where
  pub trace_id : ℕ
  pub trace_state : String
  pub start_timestamp : ℕ
  pub end_timestamp : ℕ
  pub attributes : Attributes
  pub status : StatusCode

pub record ResourceSpans : Type 0 where
  pub resource : Attributes
  pub scope_spans : List (List Span)

abbrev pub Traces : Type 0
Traces = List ResourceSpans

pub data Decision : Type 0 where
  unspecified pending sampled not_sampled dropped failed : Decision
  invert_sampled invert_not_sampled no_result : Decision

pub record TraceData : Type 0 where
  pub decisions : List Decision
  pub arrival_time : ℕ
  pub decision_time : ℕ
  pub span_count : ℤ
  pub received_batches : Traces
  pub final_decision : Decision

-- What `Evaluate` returns: a decision and, where it is not nil, an error.
abbrev pub Verdict : Type 0
Verdict = Decision × Option String

-- The interface. A policy may keep state, so a call returns the policy as it is afterwards; the
-- current Unix second is an argument.
pub record PolicyEvaluator (E : Type 0) : Type 0 where
  pub evaluate : ℤ → ℕ → TraceData → E → Verdict × E

abbrev pub is_sampled : Decision → Bool
is_sampled sampled = true
is_sampled _ = false

abbrev pub is_not_sampled : Decision → Bool
is_not_sampled not_sampled = true
is_not_sampled _ = false

abbrev pub is_no_result : Decision → Bool
is_no_result no_result = true
is_no_result _ = false
