-- ===== src/SpanMetrics/Span.antt =====
-- Spans and attributes as processor/signozspanmetricsprocessor/processor.go reads them.
pub mod Laws
use k_o11y_otel_gateway.Prelude.{
  ℕ, String, Option, none, some, List, [], ◌∷◌, if◌then◌else◌, str_eq,
}

-- A value of an attribute: what `Str` and `AsString` give of it.
pub record Value : Type 0 where
  pub str : String
  pub as_string : String

abbrev pub Attributes : Type 0
Attributes = List (String × Value)

unfoldable pub lookup : String → Attributes → Option Value
lookup k [] = none
lookup k ((j, v) ∷ m) = let rest = lookup k m in if str_eq j k then some v else rest

-- `Put`: the value of a key that is there is replaced, else the key is added at the end.
unfoldable pub put : String → Value → Attributes → Attributes
put k v [] = (k, v) ∷ []
put k v ((j, w) ∷ m) = let rest = put k v m in if str_eq j k then (k, v) ∷ m else (j, w) ∷ rest

abbrev pub text_value : String → Value
text_value s = record { str = s; as_string = s }

abbrev pub put_str : String → String → Attributes → Attributes
put_str k s m = put k (text_value s) m

pub data SpanKind : Type 0 where
  unspecified internal server client producer consumer other_kind : SpanKind

pub data StatusCode : Type 0 where
  unset ok_code error_code other_code : StatusCode

unfoldable pub span_kind_str : SpanKind → String
span_kind_str unspecified = "SPAN_KIND_UNSPECIFIED"
span_kind_str internal = "SPAN_KIND_INTERNAL"
span_kind_str server = "SPAN_KIND_SERVER"
span_kind_str client = "SPAN_KIND_CLIENT"
span_kind_str producer = "SPAN_KIND_PRODUCER"
span_kind_str consumer = "SPAN_KIND_CONSUMER"
span_kind_str other_kind = ""

unfoldable pub status_code_str : StatusCode → String
status_code_str unset = "STATUS_CODE_UNSET"
status_code_str ok_code = "STATUS_CODE_OK"
status_code_str error_code = "STATUS_CODE_ERROR"
status_code_str other_code = ""

-- Times are in nanoseconds since 1970.
pub record Span : Type 0 where
  pub name : String
  pub kind : SpanKind
  pub status : StatusCode
  pub attributes : Attributes
  pub start_timestamp : ℕ
  pub end_timestamp : ℕ
  pub trace_id : String
  pub span_id : String
