-- ===== src/SpanMetrics/Address/Laws.antt =====
-- What `getRemoteAddress` of processor/signozspanmetricsprocessor/processor.go finds.
use k_o11y_otel_gateway.Prelude.{
  String, false, Option, none, some, ◌≡◌, refl, sym, subst, arith, eq_iff, str_eq, ◌&&◌,
  Option-cases, Bool-cases, inl, inr,
}
use k_o11y_otel_gateway.SpanMetrics.Span.{Attributes, lookup, Span}
use k_o11y_otel_gateway.SpanMetrics.Address.{
  get_peer_address, is_local_transport, plain_address, get_remote_address,
}

two_names_lem : (t : String) → (str_eq t "unix" && str_eq t "pipe") ≡ false
two_names_lem t = elim (Bool-cases (str_eq t "unix")) [
  | inl y ↦
      subst (λ u. (str_eq u "unix" && str_eq u "pipe") ≡ false) (sym ((eq_iff t "unix").0 y)) refl
  | inr n ↦ ground (arith, n)
]

-- No transport is two.
is_local_transport-false : (attrs : Attributes) → is_local_transport attrs ≡ false
unfolding is_local_transport
is_local_transport-false attrs = elim (Option-cases (lookup "net.transport" attrs)) [
  | inl unset ↦ ground (arith, unset)
  | inr (t, set) ↦ ground (arith, set, two_names_lem t.str)
]

module _ (url_host : String → Option String) (span : Span) where
  -- A span without `rpc.system` and `http.host` that has a peer address gets this address,
  -- whatever its `net.transport` says, a Unix domain socket and a pipe included.
  pub get_remote_address-get_peer_address :
      (addr : String)
      → lookup "rpc.system" span.attributes ≡ none
      → lookup "http.host" span.attributes ≡ none
      → get_peer_address span.attributes ≡ some addr
      → get_remote_address url_host span ≡ some addr
  unfolding get_remote_address plain_address
  get_remote_address-get_peer_address addr no_rpc no_host peer =
      ground (arith, no_rpc, no_host, peer, is_local_transport-false span.attributes)
