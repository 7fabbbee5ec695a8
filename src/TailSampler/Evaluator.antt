-- ===== src/TailSampler/Evaluator.antt =====
-- The evaluator of a policy, processor/signoztailsampler/evaluator.go: `Evaluate` over any filters,
-- samplers and subpolicies, and what `NewDefaultEvaluator` builds.
pub mod Laws
pub mod Inverted
use Prim.Native.Char.{code}
use k_o11y_otel_gateway.Prelude.{
  ℕ, ◌+◌, String, Bool, true, false, ◌&&◌, ◌||◌, Option, none, some, List, [], ◌∷◌, ◌++◌, leb, ◌==◌,
  if◌then◌else◌,
}
use k_o11y_otel_gateway.Prelude.Int.{ℤ}
use k_o11y_otel_gateway.Sampling.Trace.{
  TraceData, Decision, Verdict, PolicyEvaluator, failed, no_result, is_sampled, is_not_sampled,
  is_no_result,
}
use k_o11y_otel_gateway.Sampling.Simple.{
  NumericAttributeFilter, numeric_evaluate, always_sample_evaluate, never_sample_evaluate,
}
use k_o11y_otel_gateway.Sampling.Hash.{
  Percentages, ProbabilisticSampler, new_probabilistic_sampler, probabilistic_evaluate,
}
use k_o11y_otel_gateway.Sampling.Attribute.{
  LruCache, StringAttributeFilter, new_string_attribute_filter, string_evaluate,
}
use k_o11y_otel_gateway.TailSampler.Config.{
  StringAttributeCfg, NumericAttributeCfg, PolicyFilterCfg, BasePolicy, sort_policies,
}

pub record DefaultEvaluator (F S U : Type 0) : Type 0 where
  pub name : String
  pub sampler : S
  pub sampling_method : String
  pub filter_operator : String
  pub filters : List F
  pub sub_evaluators : List U

-- `strings.ToLower` on the letters of ASCII, and the codes of a text.
unfoldable pub lower_codes : String → List ℕ
lower_codes String.[] = []
lower_codes (String.◌∷◌ c s) =
    (if leb b'A' (code c) && leb (code c) b'Z' then code c + 32 else code c) ∷ lower_codes s

abbrev pub same_codes : List ℕ → List ℕ → Bool
same_codes [] [] = true
same_codes (x ∷ xs) (y ∷ ys) = x == y && same_codes xs ys
same_codes _ _ = false

-- strings.ToLower(op) == "and"
unfoldable pub is_and : String → Bool
is_and op = same_codes (lower_codes op) (b'a' ∷ b'n' ∷ b'd' ∷ [])

-- How the loop over the filters ends: with a decision, or with the flag `filterMatched`.
pub data FilterOutcome : Type 0 where
  decided : Decision → FilterOutcome
  matched : Bool → FilterOutcome

module _ {F : Type 0} ⦃pf : PolicyEvaluator F⦄ (now : ℤ) (id : ℕ) (trace : TraceData) where
  unfoldable pub filter_loop : String → Bool → List F → FilterOutcome × List F
  filter_loop op flag [] = (matched flag, [])
  filter_loop op flag (fe ∷ fes) =
      let ((result, err), fe') = pf.evaluate now id trace fe in
      let (outcome, fes') = filter_loop op (is_sampled result || flag) fes in
      elim err [
        | some e ↦ (decided failed, fe' ∷ fes)
        | none ↦
            if is_not_sampled result && is_and op
            then (decided no_result, fe' ∷ fes)
            else (outcome, fe' ∷ fes')
      ]

module _ {U : Type 0} ⦃pu : PolicyEvaluator U⦄ (now : ℤ) (id : ℕ) (trace : TraceData) where
  -- The subpolicies in turn: the first that has no error and a result decides.
  unfoldable pub sub_loop : List U → Option Decision × List U
  sub_loop [] = (none, [])
  sub_loop (sp ∷ sps) =
      let ((decision, err), sp') = pu.evaluate now id trace sp in
      let (found, sps') = sub_loop sps in
      elim err [
        | some e ↦ (found, sp' ∷ sps')
        | none ↦ if is_no_result decision then (found, sp' ∷ sps') else (some decision, sp' ∷ sps)
      ]

module _ {F S U : Type 0} ⦃pf : PolicyEvaluator F⦄ ⦃ps : PolicyEvaluator S⦄ ⦃pu : PolicyEvaluator U⦄
    (now : ℤ) (id : ℕ) (trace : TraceData) where
  unfoldable pub default_evaluate : DefaultEvaluator F S U → Verdict × DefaultEvaluator F S U
  default_evaluate de =
      let (outcome, filters) = filter_loop now id trace de.filter_operator false de.filters in
      let filtered = record de { filters = filters } in
      let (found, subs) = sub_loop now id trace de.sub_evaluators in
      let passed = record filtered { sub_evaluators = subs } in
      let (verdict, sampler) = ps.evaluate now id trace de.sampler in
      elim outcome [
        | decided d ↦ ((d, none), filtered)
        | matched flag ↦
            if flag
            then elim found [
              | some d ↦ ((d, none), passed)
              | none ↦ (verdict, record passed { sampler = sampler })
            ]
            else ((no_result, none), filtered)
      ]

-- The filters and samplers that a configuration can name.
pub data Filter (C : Type 0) : Type 0 where
  string_filter : StringAttributeFilter C → Filter C
  numeric_filter : NumericAttributeFilter → Filter C

pub data Sampler : Type 0 where
  never : Sampler
  always : Sampler
  probabilistic : ProbabilisticSampler → Sampler

unfoldable pub sampler_evaluate : ℕ → TraceData → Sampler → Verdict
sampler_evaluate id trace never = never_sample_evaluate trace
sampler_evaluate id trace always = always_sample_evaluate trace
sampler_evaluate id trace (probabilistic p) = probabilistic_evaluate id p

instance abbrev pub sampler_policy : PolicyEvaluator Sampler
sampler_policy = record { evaluate = λ now id trace s. (sampler_evaluate id trace s, s) }

-- A subpolicy has no subpolicies.
instance abbrev pub no_policy : PolicyEvaluator ⊥
no_policy = record { evaluate = λ now id trace e. absurd e }

module _ (lru : LruCache) where
  open lru use {Cache}

  unfoldable pub filter_evaluate : TraceData → Filter Cache → Verdict × Filter Cache
  filter_evaluate trace (string_filter f) =
      let (v, f') = string_evaluate lru trace f in (v, string_filter f')
  filter_evaluate trace (numeric_filter n) = (numeric_evaluate trace n, numeric_filter n)

  abbrev pub filter_policy : PolicyEvaluator (Filter Cache)
  filter_policy = record { evaluate = λ now id trace f. filter_evaluate trace f }

  abbrev pub SubEvaluator : Type 0
  SubEvaluator = DefaultEvaluator (Filter Cache) Sampler ⊥

  abbrev pub RootEvaluator : Type 0
  RootEvaluator = DefaultEvaluator (Filter Cache) Sampler SubEvaluator

  abbrev pub sub_policy : PolicyEvaluator SubEvaluator
  sub_policy = record { evaluate = default_evaluate ⦃pf = filter_policy⦄ }

  abbrev pub root_policy : PolicyEvaluator RootEvaluator
  root_policy = record { evaluate = default_evaluate ⦃pf = filter_policy⦄ ⦃pu = sub_policy⦄ }

  -- What `NewDefaultEvaluator` builds; `none` where compiling an expression panics.
  module _ (compile : String → Option (String → Bool)) (fl : Percentages) where
    unfoldable pub string_filters : List StringAttributeCfg → Option (List (Filter Cache))
    string_filters [] = some []
    string_filters (s ∷ ss) =
        elim (new_string_attribute_filter lru compile s.key s.values s.enabled_regex_matching
          s.cache_max_size s.invert_match) [
            | none ↦ none
            | some f ↦ elim (string_filters ss) [
              | none ↦ none
              | some fs ↦ some (string_filter f ∷ fs)
            ]
          ]

    unfoldable pub numeric_filters : List NumericAttributeCfg → List (Filter Cache)
    numeric_filters [] = []
    numeric_filters (n ∷ ns) =
        numeric_filter (record { key = n.key; min_value = n.min_value; max_value = n.max_value })
        ∷ numeric_filters ns

    unfoldable pub prepare_filter_evaluators : PolicyFilterCfg → Option (List (Filter Cache))
    prepare_filter_evaluators cfg = elim (string_filters cfg.string_attribute_cfgs) [
      | none ↦ none
      | some fs ↦ some (fs ++ numeric_filters cfg.numeric_attribute_cfgs)
    ]

    unfoldable pub choose_sampler : fl.Percentage → String × Sampler
    choose_sampler percentage =
        if fl.is_zero percentage
        then ("exclude_all", never)
        else if fl.is_hundred percentage
        then ("include_all", always)
        else ("probabilistic", probabilistic (new_probabilistic_sampler fl "" percentage))

    unfoldable pub new_evaluator :
        {U : Type 0}
        → BasePolicy fl.Percentage
        → List U
        → Option (DefaultEvaluator (Filter Cache) Sampler U)
    new_evaluator p subs =
        let (method, sampler) = choose_sampler p.sampling_percentage in
        elim (prepare_filter_evaluators p.policy_filter) [
          | none ↦ none
          | some filters ↦ some (record {
            name = p.name;
            sampler = sampler;
            sampling_method = method;
            filter_operator = p.policy_filter.filter_op;
            filters = filters;
            sub_evaluators = subs;
          })
        ]

    unfoldable pub new_sub_evaluators : List (BasePolicy fl.Percentage) → Option (List SubEvaluator)
    new_sub_evaluators [] = some []
    new_sub_evaluators (p ∷ ps) = elim (new_evaluator p []) [
      | none ↦ none
      | some e ↦ elim (new_sub_evaluators ps) [ none ↦ none | some es ↦ some (e ∷ es) ]
    ]

    unfoldable pub new_default_evaluator :
        BasePolicy fl.Percentage → List (BasePolicy fl.Percentage) → Option RootEvaluator
    new_default_evaluator p subs = elim (new_sub_evaluators (sort_policies subs)) [
      | none ↦ none
      | some es ↦ new_evaluator p es
    ]
