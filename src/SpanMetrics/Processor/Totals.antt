-- ===== src/SpanMetrics/Processor/Totals.antt =====
-- What a delivery of traces counts and passes on, described by the spans alone,
-- processor/signozspanmetricsprocessor/processor.go.
use k_o11y_otel_gateway.Prelude.{
  ℕ, ◌+◌, String, Bool, false, not, ◌&&◌, ◌||◌, Option, none, some, List, [], ◌∷◌, ◌++◌, map, any,
  ◌≡◌, str_eq, leb, ◌==◌, if◌then◌else◌,
}
use k_o11y_otel_gateway.SpanMetrics.Span.{Value, Attributes, lookup, text_value, Span}
use k_o11y_otel_gateway.SpanMetrics.Histogram.{Floats}
use k_o11y_otel_gateway.SpanMetrics.Cache.{SimpleLru}
use k_o11y_otel_gateway.SpanMetrics.Cache.Laws.{IsLru}
use k_o11y_otel_gateway.SpanMetrics.Processor.{Config, Processor, Library, ResourceSpans, marked}
use k_o11y_otel_gateway.SpanMetrics.Processor.Runs.{marked_all}

abbrev pub joined : List (List Span) → List Span
joined [] = []
joined (spans ∷ scopes) = spans ++ joined scopes

-- What an exclude pattern is compared with: the texts that a span goes by, with their names.
abbrev pub texts : Attributes → List (String × String)
texts attrs = map (λ (k, v). (k, v.as_string)) attrs

module _ {F X : Type 0} (lib : Library F X) (cfg : Config) (now : ℕ) where
  abbrev pub known_by : String → Attributes → Span → List (String × String)
  known_by service resource_attrs span =
      ("service.name", service)
        ∷ ("operation", span.name)
        ∷ ("span.kind", lib.kind_string span.kind)
        ∷ ("status.code", lib.code_string span.status)
        ∷ texts span.attributes
      ++ texts resource_attrs

  -- No pattern matches a text of its name, and the span is not older than the window, if there is one.
  unfoldable pub counts : String → Attributes → Span → Bool
  counts service resource_attrs span =
      not (
        any
          (λ (key, matches).
            any (λ (k, v). str_eq key k && matches v) (known_by service resource_attrs span))
          cfg.exclude_patterns)
      && (cfg.skip_spans_older_than == 0
          || leb now (span.start_timestamp + cfg.skip_spans_older_than))

  unfoldable pub counted : String → Attributes → List Span → ℕ
  counted service resource_attrs [] = 0
  counted service resource_attrs (span ∷ spans) =
      (if counts service resource_attrs span then 1 else 0) + counted service resource_attrs spans

  -- The spans that count, of the resources that name a service.
  unfoldable pub total_calls : List ResourceSpans → ℕ
  total_calls [] = 0
  total_calls (r ∷ rs) =
      let rest = total_calls rs in
      elim (lookup "service.name" r.resource) [
        | none ↦ rest
        | some service ↦ counted service.str r.resource (joined r.scopes) + rest
      ]

-- A resource as it is passed on: with the instance id, if it names a service, and nothing else changed.
pub record IsPassed (cfg : Config) (r r' : ResourceSpans) : Type 0 where
  pub same_scopes : r'.scopes ≡ r.scopes
  pub same_attributes :
      (k : String)
      → str_eq "signoz.collector.id" k ≡ false
      → lookup k r'.resource ≡ lookup k r.resource
  pub unnamed : lookup "service.name" r.resource ≡ none → r' ≡ r
  pub instance_id :
      (service : Value)
      → lookup "service.name" r.resource ≡ some service
      → lookup "signoz.collector.id" r'.resource ≡ some (text_value cfg.instance_id)

abbrev pub ArePassed : Config → List ResourceSpans → List ResourceSpans → Type 0
ArePassed cfg [] [] = Unit
ArePassed cfg (r ∷ rs) (r' ∷ rs') = IsPassed cfg r r' × ArePassed cfg rs rs'
ArePassed cfg _ _ = ⊥

module _ (floats : Floats) {X : Type 0} (lib : Library floats.Float X)
    (simple : SimpleLru String Attributes) (peek : simple.Lru → String → Option Attributes)
    (laws : IsLru str_eq simple peek) (bounds : List floats.Float) (cfg : Config) where
  abbrev marks : List ResourceSpans → List ResourceSpans
  marks traces = marked_all floats lib simple peek laws bounds cfg traces

  abbrev mark : ResourceSpans → ResourceSpans
  mark r = record r { resource = marked floats lib simple bounds cfg r }

  abbrev continued : ResourceSpans → List ResourceSpans → Option Value → List ResourceSpans
  continued r rest none = r ∷ rest
  continued r rest (some v) = mark r ∷ rest
