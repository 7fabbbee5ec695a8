-- ===== src/Sampling/Attribute.antt =====
-- processor/signoztailsampler/internal/sampling/string_tag_filter.go. The regular expressions and
-- the cache of `github.com/golang/groupcache/lru` are parameters.
pub mod Laws
use k_o11y_otel_gateway.Prelude.{
  ℕ, String, Bool, true, false, not, Option, none, some, List, [], ◌∷◌, any, str_eq, if◌then◌else◌,
}
use k_o11y_otel_gateway.Prelude.Int.{ℤ, pos, pos_part, leb_ℤ}
use k_o11y_otel_gateway.Sampling.Trace.{Attributes, get_str, get, Span, TraceData, Verdict}
use k_o11y_otel_gateway.Sampling.Scan.{
  has_resource_or_span_with_condition, invert_has_resource_or_span_with_condition,
}

-- The cache of strings and match results: `New`, `Get` (which may reorder the entries), `Add`
-- (which may evict others).
pub record LruCache : Type 1 where
  pub Cache : Type 0
  pub new : ℕ → Cache
  pub lru_get : String → Cache → Option Bool × Cache
  pub lru_add : String → Bool → Cache → Cache

abbrev pub default_cache_size : ℕ
default_cache_size = 128

-- A strict filter holds its values; a regex filter its compiled expressions and the cache.
pub data Matcher (C : Type 0) : Type 0 where
  exact : List String → Matcher C
  regex : C → List (String → Bool) → Matcher C

pub record StringAttributeFilter (C : Type 0) : Type 0 where
  pub key : String
  pub matcher : Matcher C
  pub invert_match : Bool

-- The values that go into the map: the empty one does not.
unfoldable pub exact_values : List String → List String
exact_values [] = []
exact_values (v ∷ vs) = let rest = exact_values vs in if str_eq v "" then rest else v ∷ rest

module _ (compile : String → Option (String → Bool)) where
  -- `regexp.MustCompile` panics on an expression that it refuses: `none`.
  unfoldable pub add_filters : List String → Option (List (String → Bool))
  add_filters [] = some []
  add_filters (e ∷ es) = elim (compile e) [
    | none ↦ none
    | some r ↦ elim (add_filters es) [ none ↦ none | some rs ↦ some (r ∷ rs) ]
  ]

module _ (lru : LruCache) where
  open lru use {Cache, new, lru_get, lru_add}

  unfoldable pub new_string_attribute_filter :
      (String → Option (String → Bool))
      → String
      → List String
      → Bool
      → ℤ
      → Bool
      → Option (StringAttributeFilter Cache)
  new_string_attribute_filter compile key values true evict_size invert =
      elim (add_filters compile values) [
        | none ↦ none
        | some rs ↦ some (record {
          key = key;
          matcher =
              regex
                (new (if leb_ℤ evict_size (pos 0) then default_cache_size else pos_part evict_size))
                rs;
          invert_match = invert;
        })
      ]
  new_string_attribute_filter compile key values false evict_size invert =
      some (record { key = key; matcher = exact (exact_values values); invert_match = invert })

  -- The loop over the expressions: the first match is cached and returned.
  unfoldable pub regex_loop : List (String → Bool) → String → Cache → Bool × Cache
  regex_loop [] s c = (false, lru_add s false c)
  regex_loop (r ∷ rs) s c = if r s then (true, lru_add s true c) else regex_loop rs s c

  unfoldable pub regex_match : List (String → Bool) → String → Cache → Bool × Cache
  regex_match rs s c =
      let (cached, c') = lru_get s c in elim cached [ some b ↦ (b, c') | none ↦ regex_loop rs s c' ]

  -- The matcher on its state: the strict one has none to change.
  unfoldable pub match_string : Matcher Cache → String → Bool × Matcher Cache
  match_string (exact values) s = (any (str_eq s) values, exact values)
  match_string (regex c rs) s = let (b, c') = regex_match rs s c in (b, regex c' rs)

  module _ (key : String) where
    unfoldable pub resource_matches : Attributes → Matcher Cache → Bool × Matcher Cache
    resource_matches resource m = elim (get key resource) [
      | none ↦ (false, m)
      | some v ↦ match_string m (get_str v)
    ]

    -- A span's attribute counts only if its text is not empty.
    unfoldable pub span_matches : Span → Matcher Cache → Bool × Matcher Cache
    span_matches span m = elim (get key span.attributes) [
      | none ↦ (false, m)
      | some v ↦ if str_eq (get_str v) "" then (false, m) else match_string m (get_str v)
    ]

    -- The inverted callbacks return false on a match, and true otherwise.
    unfoldable pub invert_resource_matches : Attributes → Matcher Cache → Bool × Matcher Cache
    invert_resource_matches resource m =
        let (hit, m') = resource_matches resource m in (not hit, m')

    unfoldable pub invert_span_matches : Span → Matcher Cache → Bool × Matcher Cache
    invert_span_matches span m = let (hit, m') = span_matches span m in (not hit, m')

  unfoldable pub string_evaluate :
      TraceData → StringAttributeFilter Cache → Verdict × StringAttributeFilter Cache
  string_evaluate trace saf =
      let (d, m) =
        (if saf.invert_match
          then invert_has_resource_or_span_with_condition (invert_resource_matches saf.key)
              (invert_span_matches saf.key) trace.received_batches saf.matcher
          else has_resource_or_span_with_condition (resource_matches saf.key) (span_matches saf.key)
              trace.received_batches saf.matcher) in
      ((d, none), record saf { matcher = m })
