-- ===== src/SpanMetrics/Keys/Laws.antt =====
-- The services and operations that the keys tell apart stay within their limits, `buildKey`,
-- processor/signozspanmetricsprocessor/processor.go.
use k_o11y_otel_gateway.Prelude.{
  ℕ, suc, String, Bool, true, false, ◌&&◌, ◌||◌, List, [], ◌∷◌, All, length, ltb, leb,
  if◌then◌else◌, ◌≡◌, refl, sym, subst, arith, Bool-cases, inl, inr, str_eq, eq_iff,
}
use k_o11y_otel_gateway.SpanMetrics.Span.{Attributes, Span}
use k_o11y_otel_gateway.SpanMetrics.Keys.{
  Dimension, overflow_service_name, overflow_operation, Services, operations_of, has, with_member,
  track, Limits, limited_service, limited_operation, build_key,
}

-- At most one more than the limit, and the overflow name beyond.
abbrev pub within : ℕ → ℕ → Bool → Bool
within max n overflows = leb n (suc max) || (leb n (suc (suc max)) && overflows)

abbrev pub AreFew : ℕ → List String → Type 0
AreFew max ops = within max (length ops) (has overflow_operation ops) ≡ true

unfoldable pub knows : String → Services → Bool
knows s [] = false
knows s ((t, ops) ∷ ss) = str_eq t s || knows s ss

-- The services, and the operations of each, are within their limits.
unfoldable pub AreLimited : Limits → Services → Type 0
AreLimited l ss =
    (within l.max_services (length ss) (knows overflow_service_name ss) ≡ true)
    × All (λ (s, ops). AreFew l.max_operations ops) ss

with_member-AreFew :
    (max : ℕ) (name : String) (ops : List String)
    → AreFew max ops
    → AreFew max (with_member (if ltb max (length ops) then overflow_operation else name) ops)
with_member-AreFew max name ops a = elim (Bool-cases (ltb max (length ops))) [
  | inl over ↦
      subst (λ b. AreFew max (with_member (if b then overflow_operation else name) ops)) (sym over)
        (elim (Bool-cases (has overflow_operation ops)) [
          | inl there ↦ ground (arith, there, a)
          | inr new ↦ ground (arith, new, a, eq_iff overflow_operation overflow_operation)
        ])
  | inr under ↦
      subst (λ b. AreFew max (with_member (if b then overflow_operation else name) ops)) (sym under)
        (elim (Bool-cases (has name ops)) [
          | inl there ↦ ground (arith, there, a)
          | inr new ↦ ground (arith, new, under)
        ])
]

pub length-track :
    (s op : String) (ss : Services)
    → length (track s op ss) ≡ (if knows s ss then length ss else suc (length ss))
unfolding track knows
length-track s op [] = refl
length-track s op ((t, ops) ∷ ss) = ground (arith, length-track s op ss)

knows-track :
    (j s op : String) (ss : Services) → knows j (track s op ss) ≡ (str_eq s j || knows j ss)
unfolding track knows
knows-track j s op [] = ground arith
knows-track j s op ((t, ops) ∷ ss) = ground (arith, knows-track j s op ss, eq_iff t s)

track-AreFew :
    (max : ℕ) (s op : String) (ss : Services)
    → AreFew max (with_member op (operations_of s ss))
    → All (λ (t, ops). AreFew max ops) ss
    → All (λ (t, ops). AreFew max ops) (track s op ss)
unfolding track operations_of
track-AreFew max s op [] f a = (f, tt)
track-AreFew max s op ((t, ops) ∷ ss) f (a, r) = elim (Bool-cases (str_eq t s)) [
  | inl here ↦
      subst
        (λ b.
          All (λ (t, ops). AreFew max ops)
            (if b then (t, with_member op ops) ∷ ss else (t, ops) ∷ track s op ss))
        (sym here)
        (subst (λ b. AreFew max (with_member op (if b then ops else operations_of s ss))) here f, r)
  | inr there ↦
      subst
        (λ b.
          All (λ (t, ops). AreFew max ops)
            (if b then (t, with_member op ops) ∷ ss else (t, ops) ∷ track s op ss))
        (sym there)
        (
          a,
          track-AreFew max s op ss
              (subst (λ b. AreFew max (with_member op (if b then ops else operations_of s ss)))
                there f)
              r,
        )
]

operations_of-AreFew :
    (max : ℕ) (s : String) (ss : Services)
    → All (λ (t, ops). AreFew max ops) ss
    → AreFew max (operations_of s ss)
unfolding operations_of
operations_of-AreFew max s [] a = ground arith
operations_of-AreFew max s ((t, ops) ∷ ss) (a, r) = elim (Bool-cases (str_eq t s)) [
  | inl here ↦ subst (λ b. AreFew max (if b then ops else operations_of s ss)) (sym here) a
  | inr there ↦
      subst (λ b. AreFew max (if b then ops else operations_of s ss)) (sym there)
        (operations_of-AreFew max s ss r)
]

track-within :
    (max : ℕ) (service op : String) (ss : Services)
    → within max (length ss) (knows overflow_service_name ss) ≡ true
    → let next = track (if ltb max (length ss) then overflow_service_name else service) op ss in
      within max (length next) (knows overflow_service_name next) ≡ true
track-within max service op ss a = elim (Bool-cases (ltb max (length ss))) [
  | inl over ↦ ground (
    arith,
    over,
    a,
    length-track overflow_service_name op ss,
    knows-track overflow_service_name overflow_service_name op ss,
    eq_iff overflow_service_name overflow_service_name,
  )
  | inr under ↦ ground (arith, under, a, length-track service op ss)
]

-- Whatever span is counted, the services and the operations of each stay limited.
pub build_key-AreLimited :
    (l : Limits) (service : String) (span : Span) (dims : List Dimension)
    (resource_attrs : Attributes) (ss : Services)
    → AreLimited l ss
    → AreLimited l (build_key l service span dims resource_attrs ss).1
unfolding AreLimited build_key limited_service limited_operation
build_key-AreLimited l service span dims resource_attrs ss (a, r) =
    let s : String = limited_service l ss service in
    let op : String = limited_operation l ss s span.name in
    (
      track-within l.max_services service op ss a,
      track-AreFew l.max_operations s op ss
          (with_member-AreFew l.max_operations span.name (operations_of s ss)
            (operations_of-AreFew l.max_operations s ss r))
          r,
    )
