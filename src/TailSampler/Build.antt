-- ===== src/TailSampler/Build.antt =====
-- Building the processor, processor/signoztailsampler/processor.go (newTracesProcessor).
use k_o11y_otel_gateway.Prelude.{ℕ, ◌*◌, ◌/◌, String, Bool, Option, none, some, List, [], ◌∷◌}
use k_o11y_otel_gateway.Prelude.Results.{Result, ok, err}
use k_o11y_otel_gateway.Sampling.Attribute.{LruCache}
use k_o11y_otel_gateway.Sampling.Hash.{Percentages}
use k_o11y_otel_gateway.TailSampler.Config.{PolicyGroupCfg, Config, validate, sort_groups, copy}
use k_o11y_otel_gateway.TailSampler.Evaluator.{RootEvaluator, new_default_evaluator}
use k_o11y_otel_gateway.TailSampler.Batcher
use k_o11y_otel_gateway.TailSampler.Decide.{Policy}
use k_o11y_otel_gateway.TailSampler.State.{Processor}

-- `tag_new` is opencensus's check of a policy's name as a tag value: an error or nothing.
module _ (lru : LruCache) (compile : String → Option (String → Bool)) (fl : Percentages)
    (tag_new : String → Option String) where
  -- `none` where compiling an expression panics.
  unfoldable pub build_policies :
      List (PolicyGroupCfg fl.Percentage) → Option (Result (List (Policy (RootEvaluator lru))))
  build_policies [] = some (ok [])
  build_policies (g ∷ gs) = elim (tag_new g.base_policy.name) [
    | some e ↦ some (err e)
    | none ↦ elim (new_default_evaluator lru compile fl g.base_policy g.sub_policies) [
      | none ↦ none
      | some eval ↦ elim (build_policies gs) [
        | none ↦ none
        | some (err e) ↦ some (err e)
        | some (ok ps) ↦ some (ok (record { name = g.base_policy.name; evaluator = eval } ∷ ps))
      ]
    ]
  ]

  -- The groups are copied into an empty slice before they are sorted.
  unfoldable pub policy_groups : Config fl.Percentage → List (PolicyGroupCfg fl.Percentage)
  policy_groups cfg = sort_groups (copy [] cfg.policy_cfgs)

  unfoldable pub new_traces_processor :
      ℕ → Config fl.Percentage → Option (Result (Processor (RootEvaluator lru)))
  new_traces_processor num_cpu cfg = elim (validate cfg) [
    | e ∷ es ↦ some (err "config invalid")
    | [] ↦ elim (Batcher.new (cfg.decision_wait / 1_000_000_000) (2 * num_cpu)) [
      | err e ↦ some (err e)
      | ok b ↦ elim (build_policies (policy_groups cfg)) [
        | none ↦ none
        | some (err e) ↦ some (err e)
        | some (ok policies) ↦ some (
            ok (record {
              max_num_traces = cfg.num_traces;
              policies = policies;
              id_to_trace = [];
              decision_batcher = b;
              delete_chan = [];
              num_traces_on_map = 0;
              forwarded = [];
            }))
      ]
    ]
  ]
