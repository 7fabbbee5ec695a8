-- ===== src/Prelude/Decimal.antt =====
-- The decimal digits of a number, as Go's `strconv.Itoa` and `strconv.FormatInt` write them.
use Prim.Native.String.{String, ◌++◌}
use k_o11y_otel_gateway.Prelude.{ℕ, zero, suc, ◌/◌, ◌%◌, ◌≡◌, refl, ltb, if◌then◌else◌}
use k_o11y_otel_gateway.Prelude.Int.{ℤ, pos, negsuc}

abbrev digit : ℕ → String
digit zero = "0"
digit (suc zero) = "1"
digit (suc (suc zero)) = "2"
digit (suc (suc (suc zero))) = "3"
digit (suc (suc (suc (suc zero)))) = "4"
digit (suc (suc (suc (suc (suc zero))))) = "5"
digit (suc (suc (suc (suc (suc (suc zero)))))) = "6"
digit (suc (suc (suc (suc (suc (suc (suc zero))))))) = "7"
digit (suc (suc (suc (suc (suc (suc (suc (suc zero)))))))) = "8"
digit _ = "9"

-- A number has at most as many digits as its value, and one more.
abbrev decimal : ℕ → ℕ → String
decimal zero n = ""
decimal (suc fuel) n =
    let higher = decimal fuel (n / 10) in if ltb n 10 then digit n else higher ++ digit (n % 10)

abbrev pub itoa_ℕ : ℕ → String
itoa_ℕ n = decimal (suc n) n

abbrev pub itoa : ℤ → String
itoa (pos n) = itoa_ℕ n
itoa (negsuc n) = "-" ++ itoa_ℕ (suc n)

test_itoa : itoa (negsuc 1023) ≡ "-1024"
test_itoa = refl
