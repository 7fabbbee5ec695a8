-- ===== src/SpanMetrics/Address.antt =====
-- The remote address of a span, `getRemoteAddress`,
-- processor/signozspanmetricsprocessor/processor.go. The host of a parsed URL is a parameter.
pub mod Laws
use Prim.Native.String.{◌++◌}
use text.Mathlib.Text.{starts_with}
use k_o11y_otel_gateway.Prelude.{
  String, Bool, true, false, not, ◌&&◌, ◌||◌, Option, none, some, if◌then◌else◌, str_eq,
}
use k_o11y_otel_gateway.SpanMetrics.Span.{Value, Attributes, lookup, Span}

-- The address under one name, with the port under the other.
abbrev with_port : Option Value → String → String
with_port none addr = addr
with_port (some port) addr = addr ++ (":" ++ port.str)

abbrev address_at : String → String → Attributes → Option String → Option String
address_at name port attrs rest = elim (lookup name attrs) [
  | some v ↦ some (with_port (lookup port attrs) v.str)
  | none ↦ rest
]

unfoldable pub get_peer_address : Attributes → Option String
get_peer_address attrs = address_at "net.peer.name" "net.peer.port" attrs (
    address_at "server.address" "server.port" attrs (
      address_at "net.peer.ip" "net.peer.port" attrs (
        address_at "net.sock.peer.addr" "net.sock.peer.port" attrs
          (address_at "network.peer.address" "network.peer.port" attrs none))))

abbrev text_of : Option Value → String
text_of none = ""
text_of (some v) = v.str

abbrev method_part : Option Value → String
method_part none = ""
method_part (some v) = "/" ++ v.str

unfoldable pub rpc_address : Attributes → Option String
rpc_address attrs =
    let addr = text_of (lookup "rpc.service" attrs) ++ method_part (lookup "rpc.method" attrs) in
    if str_eq addr "" then get_peer_address attrs else some addr

-- `http.url`, or its later name.
abbrev url_value : Attributes → Option Value
url_value attrs = elim (lookup "http.url" attrs) [
  | some v ↦ some v
  | none ↦ lookup "url.full" attrs
]

abbrev with_scheme : String → String
with_scheme u =
    if not (starts_with u "http://") && not (starts_with u "https://") then "http://" ++ u else u

-- The test on `net.transport`, as it is written.
unfoldable pub is_local_transport : Attributes → Bool
is_local_transport attrs = elim (lookup "net.transport" attrs) [
  | none ↦ false
  | some t ↦ str_eq t.str "unix" && str_eq t.str "pipe"
]

abbrev peer_service : Attributes → Option String
peer_service attrs = elim (lookup "peer.service" attrs) [ none ↦ none | some v ↦ some v.str ]

module _ (url_host : String → Option String) where
  unfoldable pub url_address : Attributes → Option String
  url_address attrs = elim (url_value attrs) [
    | some u ↦ url_host (with_scheme u.str)
    | none ↦ peer_service attrs
  ]

  unfoldable pub plain_address : Attributes → Option String
  plain_address attrs = elim (get_peer_address attrs) [
    | some a ↦ if is_local_transport attrs then none else some a
    | none ↦ url_address attrs
  ]

  unfoldable pub get_remote_address : Span → Option String
  get_remote_address span =
      let attrs = span.attributes in
      elim (lookup "rpc.system" attrs) [
        | some _ ↦ rpc_address attrs
        | none ↦ elim (lookup "http.host" attrs) [
          | some h ↦ some h.str
          | none ↦ plain_address attrs
        ]
      ]
