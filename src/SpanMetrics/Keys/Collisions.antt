-- ===== src/SpanMetrics/Keys/Collisions.antt =====
-- Keys that stand for different dimensions, `buildKey` of
-- processor/signozspanmetricsprocessor/processor.go.
use k_o11y_otel_gateway.Prelude.{false, String, All, str_eq, none, some, List, ◌∷◌, ◌≡◌, arith}
use k_o11y_otel_gateway.SpanMetrics.Span.{Value, Attributes, Span}
use k_o11y_otel_gateway.SpanMetrics.Keys.{
  Dimension, Services, Limits, get_dimension_value, dimension_parts, build_key,
}

-- Two spans that agree but for their attributes have one key, when the value that the first has for
-- the first optional dimension the second has for the next, each has no value for the other, and the
-- values that they have for the rest of the dimensions give one text.
pub build_key-skipped :
    (l : Limits) (service : String) (span other : Span) (d e : Dimension) (dims : List Dimension)
    (resource_attrs : Attributes) (ss : Services) (v : Value)
    → other.name ≡ span.name
    → other.kind ≡ span.kind
    → other.status ≡ span.status
    → get_dimension_value d span.attributes resource_attrs ≡ some v
    → get_dimension_value e span.attributes resource_attrs ≡ none
    → get_dimension_value d other.attributes resource_attrs ≡ none
    → get_dimension_value e other.attributes resource_attrs ≡ some v
    → dimension_parts dims other.attributes resource_attrs
      ≡ dimension_parts dims span.attributes resource_attrs
    → build_key l service other (d ∷ e ∷ dims) resource_attrs ss
      ≡ build_key l service span (d ∷ e ∷ dims) resource_attrs ss
unfolding build_key dimension_parts
build_key-skipped l service span other d e dims attrs ss v n k s a b a' b' rest =
    ground (arith, n, k, s, a, b, a', b', rest)

-- No dimension has the name of the reserved one, as `validateDimensions` checks.
abbrev pub AreAdditional : List Dimension → Type 0
AreAdditional dims = All (λ d. str_eq d.name "service.name" ≡ false) dims
