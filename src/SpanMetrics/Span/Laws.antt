-- ===== src/SpanMetrics/Span/Laws.antt =====
-- Attributes after a `Put`, as processor/signozspanmetricsprocessor/processor.go writes them.
use k_o11y_otel_gateway.Prelude.{String, false, some, [], ◌∷◌, ◌≡◌, arith, str_eq, eq_iff}
use k_o11y_otel_gateway.SpanMetrics.Span.{Value, Attributes, lookup, put}

pub lookup-put_same : (k : String) (v : Value) (m : Attributes) → lookup k (put k v m) ≡ some v
unfolding lookup put
lookup-put_same k v [] = ground (arith, eq_iff k k)
lookup-put_same k v ((j, w) ∷ m) = ground (arith, eq_iff k k, lookup-put_same k v m)

pub lookup-put_other :
    (k j : String) (v : Value) (m : Attributes)
    → str_eq k j ≡ false
    → lookup j (put k v m) ≡ lookup j m
unfolding lookup put
lookup-put_other k j v [] n = ground (arith, n)
lookup-put_other k j v ((i, w) ∷ m) n = ground (arith, n, eq_iff i k, lookup-put_other k j v m n)
