-- ===== src/SpanMetrics/Tests/Runs.antt =====
-- Runs of the span metrics processor over a cache that evicts nothing.
use k_o11y_otel_gateway.Prelude.{
  ℕ, zero, suc, ◌+◌, ◌/◌, ◌^◌, ◌*◌, String, true, Option, none, some, List, [], ◌∷◌, map, ◌≡◌, refl,
  arith, if◌then◌else◌, str_eq, eq_iff, ltb,
}
use k_o11y_otel_gateway.Prelude.Results.{ok}
use k_o11y_otel_gateway.SpanMetrics.Span.{Attributes, text_value, lookup, client, ok_code, Span}
use k_o11y_otel_gateway.SpanMetrics.Keys.{
  Dimension, Limits, build_key, get_dimension_value, dimension_parts,
}
use k_o11y_otel_gateway.SpanMetrics.Keys.Laws.{AreLimited}
use k_o11y_otel_gateway.SpanMetrics.Keys.Collisions.{build_key-skipped}
use k_o11y_otel_gateway.SpanMetrics.Histogram.{Floats, HistogramData, new_histogram, observe}
use k_o11y_otel_gateway.SpanMetrics.Histogram.Laws.{new_histogram-IsCounted}
use k_o11y_otel_gateway.SpanMetrics.Histogram.Buckets.{IsSorted, IsObserved, observe-IsObserved}
use k_o11y_otel_gateway.SpanMetrics.Address.{get_peer_address, get_remote_address}
use k_o11y_otel_gateway.SpanMetrics.Address.Laws.{get_remote_address-get_peer_address}
use k_o11y_otel_gateway.SpanMetrics.Cache.{SimpleLru}
use k_o11y_otel_gateway.SpanMetrics.Cache.Laws.{IsLru, is_some}
use k_o11y_otel_gateway.SpanMetrics.Store.{Store}
use k_o11y_otel_gateway.SpanMetrics.Processor.{Config, Processor, Library, ResourceSpans}
use k_o11y_otel_gateway.SpanMetrics.Processor.Laws.{IsSound}
use k_o11y_otel_gateway.SpanMetrics.Processor.Totals.{total_calls, counted, counts}
use k_o11y_otel_gateway.SpanMetrics.Processor.Export.{Metrics}
use k_o11y_otel_gateway.SpanMetrics.Processor.Runs.{Event, traces_at, tick, serve, serve-IsSound}

abbrev Held : Type 0
Held = String → Option Attributes

abbrev nothing : Held
nothing j = none

abbrev unbounded : SimpleLru String Attributes
unbounded = record {
  Lru = Held;
  new_lru = λ size. ok nothing;
  lru_add = λ k v l. (none, λ j. if str_eq k j then some v else l j);
  lru_get = λ k l. (l k, l);
  lru_contains = λ k l. is_some (l k);
  lru_len = λ l. 0;
  lru_purge = λ l. ([], nothing);
}

abbrev peek : Held → String → Option Attributes
peek l k = l k

abbrev whole : Floats
whole = record {
  Float = ℕ;
  zero_float = 0;
  add_float = λ a b. a + b;
  is_below = λ a b. ltb a b;
  millis = λ n. n / 10 ^ 6;
}

unbounded-IsLru : IsLru str_eq unbounded peek
unbounded-IsLru = record {
  same_iff = λ j k. eq_iff j k;
  gets = λ k l. refl;
  contains_iff = λ k l. refl;
  get_keeps = λ k j l. refl;
  adds = λ k v l. ground (arith, eq_iff k k);
  keeps_all = λ k j v l ne e. ground (arith, ne, eq_iff k j);
  keeps_others = λ k j i v w l ne e. absurd (ground (arith, e));
  evicts = λ k i v w l e. absurd (ground (arith, e));
}

abbrev limits : Limits
limits = record { max_services = 1; max_operations = 1 }

abbrev method : Dimension
method = record { name = "http.method"; value = none }

abbrev peer : Dimension
peer = record { name = "peer"; value = none }

abbrev config : Config
config = record {
  is_delta = true;
  time_bucket_interval = 60 * 10 ^ 9;
  enable_exp_histogram = true;
  skip_spans_older_than = 0;
  limits = limits;
  instance_id = "collector-1";
  dimensions = method ∷ [];
  exp_dimensions = [];
  call_dimensions = method ∷ [];
  db_call_dimensions = [];
  external_call_dimensions = [];
  exclude_patterns = [];
}

abbrev library : Library ℕ ℕ
library = record {
  kind_string = λ k. "Client";
  code_string = λ c. "Ok";
  url_host = λ u. some u;
  new_exp_histogram = 0;
  update_exp_histogram = λ x n. n + x;
}

abbrev empty : {A : Type 0} → Store Held A
empty = record { histograms = []; dimensions = record { lru = nothing; evicted_items = [] } }

abbrev started : Processor Held ℕ ℕ
started = record {
  services = [];
  latency = empty;
  exp = empty;
  call = empty;
  db_call = empty;
  external_call = empty;
}

started-IsSound :
    IsSound whole library unbounded peek unbounded-IsLru (10 ∷ 100 ∷ []) config started
unfolding AreLimited
started-IsSound = record {
  services = (refl, tt);
  latency = tt;
  exp = tt;
  call = tt;
  db_call = tt;
  external_call = tt;
}

abbrev span_with : Attributes → Span
span_with attrs = record {
  name = "GET /";
  kind = client;
  status = ok_code;
  attributes = attrs;
  start_timestamp = 1000;
  end_timestamp = 50_000_000;
  trace_id = "t";
  span_id = "s";
}

abbrev pipe_attrs : Attributes
pipe_attrs =
    ("http.method", text_value "GET")
    ∷ ("net.peer.name", text_value "/run/db.sock")
    ∷ ("net.transport", text_value "pipe")
    ∷ ("db.system", text_value "postgresql")
    ∷ []

abbrev traces : List ResourceSpans
traces =
    record {
      resource = ("service.name", text_value "shop") ∷ [];
      scopes = (span_with pipe_attrs ∷ span_with [] ∷ []) ∷ [];
    }
    ∷ record { resource = []; scopes = [] }
    ∷ []

abbrev events : List Event
events = traces_at 0 traces ∷ tick ∷ traces_at 9 traces ∷ tick ∷ []

serve-IsSound_example :
    (q : Processor Held ℕ ℕ) × (ms : List (Metrics ℕ ℕ)) × (serve whole library unbounded peek
        unbounded-IsLru
        (10 ∷ 100 ∷ [])
        config
        events
        started
      ≡ some (q, map (λ m. ok m) ms))
    × IsSound whole library unbounded peek unbounded-IsLru (10 ∷ 100 ∷ []) config q
serve-IsSound_example =
    serve-IsSound whole library unbounded peek unbounded-IsLru (10 ∷ 100 ∷ []) config events started
      started-IsSound

-- Two spans are counted.
two_calls : total_calls library config 0 traces ≡ 2
unfolding total_calls counted counts lookup
two_calls = refl

get_remote_address-get_peer_address_example :
    get_remote_address (λ u. some u) (span_with pipe_attrs) ≡ some "/run/db.sock"
unfolding get_peer_address lookup
get_remote_address-get_peer_address_example =
    get_remote_address-get_peer_address (λ u. some u) (span_with pipe_attrs) "/run/db.sock" refl
      refl refl

build_key-skipped_example :
    build_key limits "shop" (span_with (("peer", text_value "x") ∷ [])) (method ∷ peer ∷ []) [] []
    ≡ build_key limits "shop"
        (span_with (("http.method", text_value "x") ∷ []))
        (method ∷ peer ∷ [])
        []
        []
unfolding get_dimension_value dimension_parts lookup
build_key-skipped_example =
    build_key-skipped limits "shop" (span_with (("http.method", text_value "x") ∷ []))
      (span_with (("peer", text_value "x") ∷ [])) method peer [] [] [] (text_value "x") refl refl
      refl refl refl refl refl refl

bounds_sorted : IsSorted whole (5 ∷ []) 7
bounds_sorted zero zero b c le e f = ground (arith, e, f)
bounds_sorted zero (suc k) b c le e f = absurd (ground (arith, f))
bounds_sorted (suc h) k b c le e f = absurd (ground (arith, e))

observe-IsObserved_example :
    (h : HistogramData ℕ) × (observe whole (5 ∷ []) 7 "t" "s" (new_histogram whole (5 ∷ []))
      ≡ some h)
    × IsObserved whole (5 ∷ []) 7 "t" "s" (new_histogram whole (5 ∷ [])) h
observe-IsObserved_example =
    observe-IsObserved whole (5 ∷ []) 7 bounds_sorted (λ b c p q. ground (arith, p, q)) "t" "s"
      (new_histogram whole (5 ∷ [])) (new_histogram-IsCounted whole (5 ∷ []))
