-- ===== src/Sampling/Hash.antt =====
-- processor/signoztailsampler/internal/sampling/probabilistic.go: a trace is kept if the FNV-1a
-- hash of the salt and its id is at most a threshold. The threshold is computed from a float64
-- percentage, which is a parameter (`Percentages`).
pub mod Laws
use Prim.Native.Nat.{bit_xor}
use Prim.Native.Char.{code}
use k_o11y_otel_gateway.Prelude.{
  ℕ, zero, suc, ◌+◌, ◌*◌, ◌/◌, ◌%◌, ◌^◌, String, Bool, none, List, [], ◌∷◌, ◌++◌, leb, ltb, str_eq,
  if◌then◌else◌,
}
use k_o11y_otel_gateway.Sampling.Trace.{sampled, not_sampled, Verdict}

-- A code point in UTF-8.
unfoldable pub utf8 : ℕ → List ℕ
utf8 c =
    if ltb c 0x80
    then c ∷ []
    else if ltb c 0x800
    then (0xc0 + c / 64) ∷ (0x80 + c % 64) ∷ []
    else if ltb c 0x10000
    then (0xe0 + c / 4096) ∷ (0x80 + c / 64 % 64) ∷ (0x80 + c % 64) ∷ []
    else (0xf0 + c / 262144) ∷ (0x80 + c / 4096 % 64) ∷ (0x80 + c / 64 % 64) ∷ (0x80 + c % 64) ∷ []

unfoldable pub bytes : String → List ℕ
bytes String.[] = []
bytes (String.◌∷◌ c s) = utf8 (code c) ++ bytes s

-- The 16 bytes of a trace id, the most significant first.
unfoldable pub id_bytes : ℕ → ℕ → List ℕ
id_bytes zero id = []
id_bytes (suc n) id = (id / 256 ^ n % 256) ∷ id_bytes n id

-- `hash/fnv`'s 64-bit FNV-1a.
unfoldable pub fnv_write : ℕ → List ℕ → ℕ
fnv_write h [] = h
fnv_write h (b ∷ bs) = fnv_write (bit_xor h b * 1099511628211 % 2 ^ 64) bs

abbrev pub fnv_offset : ℕ
fnv_offset = 14695981039346656037

unfoldable pub hash_trace_id : String → ℕ → ℕ
hash_trace_id salt id = fnv_write (fnv_write fnv_offset (bytes salt)) (id_bytes 16 id)

pub record ProbabilisticSampler : Type 0 where
  pub threshold : ℕ
  pub hash_salt : String

abbrev pub default_hash_salt : String
default_hash_salt = "default-hash-seed"

-- float64 as a percentage: the tests of the source, and `calculateThreshold(p / 100)`.
pub record Percentages : Type 1 where
  pub Percentage : Type 0
  pub is_zero : Percentage → Bool
  pub is_hundred : Percentage → Bool
  pub calculate_threshold : Percentage → ℕ

unfoldable pub new_probabilistic_sampler :
    (fl : Percentages) → String → fl.Percentage → ProbabilisticSampler
new_probabilistic_sampler fl salt percentage = record {
  threshold = fl.calculate_threshold percentage;
  hash_salt = if str_eq salt "" then default_hash_salt else salt;
}

unfoldable pub probabilistic_evaluate : ℕ → ProbabilisticSampler → Verdict
probabilistic_evaluate id s =
    if leb (hash_trace_id s.hash_salt id) s.threshold then (sampled, none) else (not_sampled, none)
