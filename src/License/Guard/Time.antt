-- ===== src/License/Guard/Time.antt =====
-- Go's arithmetic on durations in extension/licenseguardextension/extension.go.
use k_o11y_otel_gateway.Prelude.{ℕ, suc, ◌*◌, ◌≤◌, ◌≡◌, arith}
use k_o11y_otel_gateway.Prelude.Int.{ℤ, pos, negsuc, sub_ℕ, wrap64}

-- An int64 times a positive constant.
unfoldable pub scale64 : ℤ → ℕ → ℤ
scale64 (pos n) k = wrap64 (pos (n * k))
scale64 (negsuc n) k = wrap64 (sub_ℕ 0 (suc n * k))

-- `time.Duration(days) * 24 * time.Hour`.
unfoldable pub grace_duration : ℤ → ℤ
grace_duration days = scale64 (scale64 days 24) 3_600_000_000_000

abbrev pub nanoseconds_per_day : ℕ
nanoseconds_per_day = 86_400_000_000_000

-- 106751 days are the most that a duration can hold.
pub grace_duration_of_days :
    (days : ℕ) → days ≤ 106_751 → grace_duration (pos days) ≡ pos (days * nanoseconds_per_day)
unfolding grace_duration scale64 wrap64
grace_duration_of_days days h = ground arith
