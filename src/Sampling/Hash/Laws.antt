-- ===== src/Sampling/Hash/Laws.antt =====
-- Which traces the probabilistic policy keeps under one threshold and another.
use k_o11y_otel_gateway.Prelude.{
  ℕ, ◌-◌, ◌^◌, ◌%◌, ◌≤◌, ◌<◌, String, none, List, [], ◌∷◌, ◌*◌, ◌⊎◌, ◌≡◌, arith,
}
use Prim.Native.Nat.{bit_xor}
use k_o11y_otel_gateway.Sampling.Trace.{sampled}
use k_o11y_otel_gateway.Sampling.Hash.{
  fnv_write, fnv_offset, bytes, id_bytes, hash_trace_id, ProbabilisticSampler,
  probabilistic_evaluate,
}

fnv_write-lt : (bs : List ℕ) (h : ℕ) → h < 2 ^ 64 → fnv_write h bs < 2 ^ 64
unfolding fnv_write
fnv_write-lt [] h p = p
fnv_write-lt (b ∷ bs) h p = fnv_write-lt bs (bit_xor h b * 1099511628211 % 2 ^ 64) (omega arith)

-- A hash is a uint64.
hash_trace_id-lt : (salt : String) (id : ℕ) → hash_trace_id salt id < 2 ^ 64
unfolding hash_trace_id
hash_trace_id-lt salt id =
    fnv_write-lt (id_bytes 16 id) (fnv_write fnv_offset (bytes salt))
      (fnv_write-lt (bytes salt) fnv_offset (omega arith))

-- Of two policies with one salt, the one with the higher threshold keeps every trace that the other
-- one keeps, and under the highest threshold every trace is kept.
pub probabilistic_evaluate_mono :
    (id : ℕ) (s t : ProbabilisticSampler)
    → t.hash_salt ≡ s.hash_salt
    → s.threshold ≤ t.threshold
    → (probabilistic_evaluate id s ≡ (sampled, none)) ⊎ (t.threshold ≡ 2 ^ 64 - 1)
    → probabilistic_evaluate id t ≡ (sampled, none)
unfolding probabilistic_evaluate
probabilistic_evaluate_mono id s t same le h = ground (arith, hash_trace_id-lt t.hash_salt id, same)
