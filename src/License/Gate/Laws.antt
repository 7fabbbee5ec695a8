-- ===== src/License/Gate/Laws.antt =====
-- What the gate lets through over a run, while the licence's memory changes between the calls.
use k_o11y_otel_gateway.Prelude.{
  ℕ, Bool, true, false, Option, none, List, [], ◌∷◌, ◌++◌, String, ◌≡◌, refl, sym, subst, ap, arith,
  str_eq, if◌then◌else◌, inl, inr, Bool-cases,
}
use mathlib.Core.List.{append_assoc, append-nil}
use k_o11y_otel_gateway.Prelude.Results.{Result, ok, err}
use k_o11y_otel_gateway.License.Checker.{LicenseChecker}
use k_o11y_otel_gateway.License.Gate.{
  Extension, checker, other_extension, Signal, traces, logs, metrics, Pipeline, Gate,
  new_license_gate_processor, find_checker, start, get_checker, is_open, forward, record_dropped,
  consume_traces, consume_logs, consume_metrics,
}

module _ {T L M : Type 0} (pipeline : Pipeline T L M) where
  unfoldable pub count : Signal T L M → ℕ × String
  count (traces td) = (pipeline.span_count td, "traces")
  count (logs ld) = (pipeline.log_record_count ld, "logs")
  count (metrics md) = (pipeline.metric_count md, "metrics")

-- The extensions of a name, and whether the first of them lets telemetry through: a checker does
-- while its licence is valid, another extension always, and so does a host without one.
abbrev pub named : {W : Type 0} → String → List (String × Extension W) → List (Extension W)
named name [] = []
named name ((id, ext) ∷ exts) =
    let rest = named name exts in if str_eq id name then ext ∷ rest else rest

abbrev pub lets : {W : Type 0} → List (Extension W) → W → Bool
lets [] w = true
lets (checker c ∷ exts) w = c.is_valid w
lets (other_extension ∷ exts) w = true

-- The payloads of the calls at which the licence is valid.
unfoldable pub let_through : {W S : Type 0} → (W → Bool) → List (W × S) → List S
let_through valid [] = []
let_through valid ((w, s) ∷ calls) =
    let rest = let_through valid calls in if valid w then s ∷ rest else rest

module _ {W T L M : Type 0} (pipeline : Pipeline T L M) where
  -- One call of the gate, by the kind of its payload.
  unfoldable pub consume : W → Signal T L M → Gate W T L M → Option String × Gate W T L M
  consume w (traces td) p = consume_traces pipeline w td p
  consume w (logs ld) p = consume_logs pipeline w ld p
  consume w (metrics md) p = consume_metrics pipeline w md p

  -- The calls of a run, each with the licence's memory at that call.
  unfoldable pub run : List (W × Signal T L M) → Gate W T L M → Gate W T L M
  run [] p = p
  run ((w, s) ∷ calls) p = run calls (consume w s p).1

  -- What it counts as dropped.
  unfoldable pub refused : (W → Bool) → List (W × Signal T L M) → List (ℕ × String)
  refused valid [] = []
  refused valid ((w, s) ∷ calls) =
      let rest = refused valid calls in if valid w then rest else count pipeline s ∷ rest

  is_open-find_checker :
      (name : String) (extensions : List (String × Extension W)) (w : W)
      → is_open (find_checker name extensions) w ≡ lets (named name extensions) w
  unfolding find_checker is_open
  is_open-find_checker name [] w = refl
  is_open-find_checker name ((id, checker c) ∷ exts) w =
      ground (arith, is_open-find_checker name exts w)
  is_open-find_checker name ((id, other_extension) ∷ exts) w =
      ground (arith, is_open-find_checker name exts w)

  -- The gate has looked for its checker and found `c`, or will find it.
  abbrev IsLinked : Option (LicenseChecker W) → Gate W T L M → Type 0
  IsLinked c p = (get_checker p).0 ≡ c

  consume-forwards :
      (c : Option (LicenseChecker W)) (w : W) (s : Signal T L M) (p : Gate W T L M)
      → IsLinked c p
      → IsLinked c (consume w s p).1
        × ((consume w s p).1.forwarded
            ≡ (if is_open c w then p.forwarded ++ (s ∷ []) else p.forwarded))
        × ((consume w s p).1.dropped
            ≡ (if is_open c w then p.dropped else p.dropped ++ (count pipeline s ∷ [])))
  unfolding consume consume_traces consume_logs consume_metrics get_checker forward record_dropped
      count
  consume-forwards c w (traces td) p h = elim (Bool-cases (is_open c w)) [
    | inl o ↦ ground (arith, h, o)
    | inr o ↦ ground (arith, h, o)
  ]
  consume-forwards c w (logs ld) p h = elim (Bool-cases (is_open c w)) [
    | inl o ↦ ground (arith, h, o)
    | inr o ↦ ground (arith, h, o)
  ]
  consume-forwards c w (metrics md) p h = elim (Bool-cases (is_open c w)) [
    | inl o ↦ ground (arith, h, o)
    | inr o ↦ ground (arith, h, o)
  ]

  run-forwards :
      (c : Option (LicenseChecker W)) (valid : W → Bool) (calls : List (W × Signal T L M))
      (p : Gate W T L M)
      → ((w : W) → is_open c w ≡ valid w)
      → IsLinked c p
      → ((run calls p).forwarded ≡ p.forwarded ++ let_through valid calls)
        × ((run calls p).dropped ≡ p.dropped ++ refused valid calls)
  unfolding run let_through refused
  run-forwards c valid [] p same h = (sym (append-nil p.forwarded), sym (append-nil p.dropped))
  run-forwards c valid ((w, s) ∷ calls) p same h =
      let (linked, forwards, drops) = consume-forwards c w s p h in
      let (rest, rest') = run-forwards c valid calls (consume w s p).1 same linked in
      ground (
        arith,
        same w,
        forwards,
        drops,
        rest,
        rest',
        append_assoc p.forwarded (s ∷ []) (let_through valid calls),
        append_assoc p.dropped (count pipeline s ∷ []) (refused valid calls),
      )

  abbrev or_else : Gate W T L M → Result (Gate W T L M) → Gate W T L M
  or_else p (err e) = p
  or_else p (ok q) = q

  abbrev fresh : String → Gate W T L M
  fresh name = record {
    extension_name = name;
    host = none;
    is_resolved = false;
    license_checker = none;
    forwarded = [];
    dropped = [];
  }

  -- A gate that was made and started, whatever its calls and however the licence changes between them,
  -- hands on exactly the payloads of the calls at which the first extension of its name lets them
  -- through, in their order, and counts exactly the others: a checker does while its licence is
  -- valid, and everything goes through when there is no extension of the name or it checks no licences.
  pub run-let_through :
      (name : String) (extensions : List (String × Extension W)) (calls : List (W × Signal T L M))
      (metered : Result (Unit {0})) (p : Gate W T L M)
      → new_license_gate_processor metered name ≡ ok p
      → ((run calls (start extensions p)).forwarded
          ≡ let_through (lets (named name extensions)) calls)
        × ((run calls (start extensions p)).dropped ≡ refused (lets (named name extensions)) calls)
  unfolding start new_license_gate_processor get_checker
  run-let_through name extensions calls (err e) p made = absurd (ground (arith, made))
  run-let_through name extensions calls (ok m) p made =
      let same : fresh name ≡ p = ap (or_else p) made in
      subst
        (λ g.
          ((run calls (start extensions g)).forwarded
            ≡ let_through (lets (named name extensions)) calls)
          × ((run calls (start extensions g)).dropped
              ≡ refused (lets (named name extensions)) calls))
        same
        (run-forwards (find_checker name extensions) (lets (named name extensions)) calls
          (start extensions (fresh name)) (is_open-find_checker name extensions) refl)
