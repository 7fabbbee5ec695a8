-- ===== src/SpanMetrics/Keys.antt =====
-- The key of a metric and its dimensions, processor/signozspanmetricsprocessor/processor.go: the
-- values of the dimensions, joined by a null character behind the time bucket, and the limits on the
-- services and operations that are told apart.
pub mod Collisions
pub mod Laws
use Prim.Native.String.{◌++◌}
use k_o11y_otel_gateway.Prelude.{
  ℕ, ◌+◌, ◌-◌, ◌*◌, ◌/◌, ◌%◌, ◌^◌, String, Bool, true, false, Option, none, some, List, [], ◌∷◌,
  any, length, ltb, leb, ◌==◌, if◌then◌else◌, str_eq,
}
use k_o11y_otel_gateway.Prelude.Int.{ℤ, pos, negsuc}
use k_o11y_otel_gateway.Prelude.Decimal.{itoa}
use k_o11y_otel_gateway.SpanMetrics.Span.{
  Value, Attributes, lookup, put, put_str, span_kind_str, status_code_str, Span,
}

pub record Dimension : Type 0 where
  pub name : String
  pub value : Option Value

abbrev pub metric_key_separator : String
metric_key_separator = "\0"

abbrev pub overflow_service_name : String
overflow_service_name = "overflow_service"

abbrev pub overflow_operation : String
overflow_operation = "overflow_operation"

-- The stable name stands in for `http.status_code` in the attributes of a span.
abbrev span_value : Dimension → Attributes → Option Value
span_value d m = elim (lookup d.name m) [
  | some v ↦ some v
  | none ↦ if str_eq d.name "http.status_code" then lookup "http.response.status_code" m else none
]

unfoldable pub get_dimension_value : Dimension → Attributes → Attributes → Option Value
get_dimension_value d span_attr resource_attr = elim (span_value d span_attr) [
  | some v ↦ some v
  | none ↦ elim (lookup d.name resource_attr) [ some v ↦ some v | none ↦ d.value ]
]

abbrev is_there : Option Value → Bool
is_there none = false
is_there (some v) = true

abbrev without_resource : Option Value → Option (Value × Bool)
without_resource none = none
without_resource (some v) = some (v, false)

-- The value, and whether it was found in the resource.
unfoldable pub get_dimension_value_with_resource :
    Dimension → Attributes → Attributes → Option (Value × Bool)
get_dimension_value_with_resource d span_attr resource_attr = elim (lookup d.name span_attr) [
  | some v ↦ some (v, is_there (lookup d.name resource_attr))
  | none ↦ elim (span_value d span_attr) [
    | some v ↦ some (v, false)
    | none ↦ elim (lookup d.name resource_attr) [
      | some v ↦ some (v, true)
      | none ↦ without_resource d.value
    ]
  ]
]

-- `serviceToOperations`.
abbrev pub Services : Type 0
Services = List (String × List String)

unfoldable pub operations_of : String → Services → List String
operations_of s [] = []
operations_of s ((t, ops) ∷ ss) = let rest = operations_of s ss in if str_eq t s then ops else rest

abbrev pub has : String → List String → Bool
has x xs = any (λ y. str_eq y x) xs

abbrev pub with_member : String → List String → List String
with_member x xs = if has x xs then xs else x ∷ xs

unfoldable pub track : String → String → Services → Services
track s op [] = (s, op ∷ []) ∷ []
track s op ((t, ops) ∷ ss) =
    let rest = track s op ss in if str_eq t s then (t, with_member op ops) ∷ ss else (t, ops) ∷ rest

pub record Limits : Type 0 where
  pub max_services : ℕ
  pub max_operations : ℕ

unfoldable pub limited_service : Limits → Services → String → String
limited_service l ss service =
    if ltb l.max_services (length ss) then overflow_service_name else service

unfoldable pub limited_operation : Limits → Services → String → String → String
limited_operation l ss service name =
    if ltb l.max_operations (length (operations_of service ss)) then overflow_operation else name

abbrev pub part : String → String
part s = metric_key_separator ++ s

unfoldable pub dimension_parts : List Dimension → Attributes → Attributes → String
dimension_parts [] span_attr resource_attr = ""
dimension_parts (d ∷ ds) span_attr resource_attr =
    let rest = dimension_parts ds span_attr resource_attr in
    elim (get_dimension_value d span_attr resource_attr) [
      | none ↦ rest
      | some v ↦ part v.as_string ++ rest
    ]

unfoldable pub build_key :
    Limits → String → Span → List Dimension → Attributes → Services → String × Services
build_key l service span dims resource_attr ss =
    let s = limited_service l ss service in
    let op = limited_operation l ss s span.name in
    (
      s
          ++ part op
          ++ part (span_kind_str span.kind)
          ++ part (status_code_str span.status)
          ++ dimension_parts dims span.attributes resource_attr,
      track s op ss,
    )

unfoldable pub custom_parts : List Dimension → Attributes → Attributes → String
custom_parts [] span_attr resource_attr = ""
custom_parts (d ∷ ds) span_attr resource_attr =
    let rest = custom_parts ds span_attr resource_attr in
    elim (get_dimension_value_with_resource d span_attr resource_attr) [
      | none ↦ rest
      | some (v, false) ↦ part v.as_string ++ rest
      | some (v, true) ↦ part v.as_string ++ part ("resource_" ++ v.as_string) ++ rest
    ]

unfoldable pub extra_parts : List String → String
extra_parts [] = ""
extra_parts (v ∷ vs) = part v ++ extra_parts vs

unfoldable pub build_custom_key : String → Span → List Dimension → Attributes → List String → String
build_custom_key service span dims resource_attr extra_vals =
    service
    ++ part (status_code_str span.status)
    ++ extra_parts extra_vals
    ++ custom_parts dims span.attributes resource_attr

-- Nanoseconds from Go's zero time to 1970.
abbrev zero_time : ℕ
zero_time = 62_135_596_800 * 10 ^ 9

-- The second that `t.Truncate(interval)` stands in.
unfoldable pub bucket_second : ℕ → ℕ → ℤ
bucket_second interval t =
    let past = (zero_time + t) % interval in
    if interval == 0
    then pos (t / 10 ^ 9)
    else if leb past t
    then pos ((t - past) / 10 ^ 9)
    else negsuc ((past - t - 1) / 10 ^ 9)

unfoldable pub time_prefix : Bool → ℕ → ℕ → String
time_prefix delta interval t =
    if delta then itoa (bucket_second interval t) ++ metric_key_separator else ""

abbrev pub put_found : String → Option (Value × Bool) → Attributes → Attributes
put_found name none m = m
put_found name (some (v, false)) m = put name v m
put_found name (some (v, true)) m = put ("resource_" ++ name) v (put name v m)

unfoldable pub put_dimensions : List Dimension → Attributes → Attributes → Attributes → Attributes
put_dimensions [] span_attr resource_attr dims = dims
put_dimensions (d ∷ ds) span_attr resource_attr dims =
    put_dimensions ds span_attr resource_attr
      (put_found d.name (get_dimension_value_with_resource d span_attr resource_attr) dims)

unfoldable pub build_dimension_kvs :
    Limits → Services → String → Span → List Dimension → Attributes → Attributes
build_dimension_kvs l ss service span optional resource_attr =
    let s = limited_service l ss service in
    let op = limited_operation l ss s span.name in
    put_dimensions optional span.attributes resource_attr (
      put_str "status.code" (status_code_str span.status) (
        put_str "span.kind" (span_kind_str span.kind)
          (put_str "operation" op (put_str "service.name" s []))))

unfoldable pub put_extra : List (String × Value) → Attributes → Attributes
put_extra [] dims = dims
put_extra ((k, v) ∷ extra) dims = put_extra extra (put k v dims)

unfoldable pub build_custom_dimension_kvs :
    String → Span → List Dimension → Attributes → List (String × Value) → Attributes
build_custom_dimension_kvs service span optional resource_attr extra =
    put_dimensions optional span.attributes resource_attr (
      put_str "status.code" (status_code_str span.status)
        (put_extra extra (put_str "service.name" service [])))
