-- ===== src/TailSampler/Config.antt =====
-- processor/signoztailsampler/config.go, and the policies that evaluator.go builds from it
-- (NewDefaultEvaluator, prepareFilterEvaluators).
use k_o11y_otel_gateway.Prelude.{ℕ, String, Bool, List, [], ◌∷◌, if◌then◌else◌}
use k_o11y_otel_gateway.Prelude.Int.{ℤ, pos, eqb_ℤ, leb_ℤ}

pub record StringAttributeCfg : Type 0 where
  pub key : String
  pub values : List String
  pub enabled_regex_matching : Bool
  pub cache_max_size : ℤ
  pub invert_match : Bool

pub record NumericAttributeCfg : Type 0 where
  pub key : String
  pub min_value : ℤ
  pub max_value : ℤ

pub record PolicyFilterCfg : Type 0 where
  pub filter_op : String
  pub string_attribute_cfgs : List StringAttributeCfg
  pub numeric_attribute_cfgs : List NumericAttributeCfg

-- `P` is the type of percentages. The hash salt and the type of a policy are read by nothing.
pub record BasePolicy (P : Type 0) : Type 0 where
  pub name : String
  pub policy_type : String
  pub priority : ℤ
  pub hash_salt : String
  pub sampling_percentage : P
  pub policy_filter : PolicyFilterCfg

pub record PolicyGroupCfg (P : Type 0) : Type 0 where
  pub base_policy : BasePolicy P
  pub sub_policies : List (BasePolicy P)

-- The decision wait is in nanoseconds.
pub record Config (P : Type 0) : Type 0 where
  pub decision_wait : ℕ
  pub num_traces : ℕ
  pub expected_new_traces_per_sec : ℕ
  pub policy_cfgs : List (PolicyGroupCfg P)
  pub version : ℤ

module _ {P : Type 0} where
  -- The names of the policies that `Validate` complains of: those with no priority.
  unfoldable pub without_priority : List (PolicyGroupCfg P) → List String
  without_priority [] = []
  without_priority (p ∷ ps) =
      let rest = without_priority ps in
      if eqb_ℤ p.base_policy.priority (pos 0) then p.base_policy.name ∷ rest else rest

  unfoldable pub validate : Config P → List String
  validate c = without_priority c.policy_cfgs

  -- `sort.Slice` by ascending priority, with equals kept in order (the source leaves their order
  -- to the library).
  unfoldable pub insert_policy : BasePolicy P → List (BasePolicy P) → List (BasePolicy P)
  insert_policy p [] = p ∷ []
  insert_policy p (q ∷ qs) =
      let rest = insert_policy p qs in if leb_ℤ p.priority q.priority then p ∷ q ∷ qs else q ∷ rest

  unfoldable pub sort_policies : List (BasePolicy P) → List (BasePolicy P)
  sort_policies [] = []
  sort_policies (p ∷ ps) = insert_policy p (sort_policies ps)

  unfoldable pub insert_group : PolicyGroupCfg P → List (PolicyGroupCfg P) → List (PolicyGroupCfg P)
  insert_group p [] = p ∷ []
  insert_group p (q ∷ qs) =
      let rest = insert_group p qs in
      if leb_ℤ p.base_policy.priority q.base_policy.priority then p ∷ q ∷ qs else q ∷ rest

  unfoldable pub sort_groups : List (PolicyGroupCfg P) → List (PolicyGroupCfg P)
  sort_groups [] = []
  sort_groups (p ∷ ps) = insert_group p (sort_groups ps)

-- Go's `copy(dst, src)`: it overwrites as many elements as both slices have, and adds none.
unfoldable pub copy : {A : Type 0} → List A → List A → List A
copy [] src = []
copy (d ∷ dst) [] = d ∷ dst
copy (d ∷ dst) (s ∷ src) = s ∷ copy dst src
