-- ===== src/License/Guard/Laws.antt =====
-- What a check of the licence decides, and how long the decision lets telemetry through.
use k_o11y_otel_gateway.Prelude.{
  ℕ, ◌*◌, ◌≤◌, true, false, not, ◌&&◌, none, some, List, [], ◌∷◌, ◌++◌, String, str_eq, ◌≡◌, inl,
  inr, refl, subst, sym, ◌∙◌, ap, arith,
}
use k_o11y_otel_gateway.Prelude.Int.{ℤ, pos, ◌+ℤ◌, ltb_ℤ}
use k_o11y_otel_gateway.Prelude.Results.{Result, ok, ◌>>=◌, Result-cases}
use k_o11y_otel_gateway.License.Guard.{
  Config, LicenseClaims, ParseWithClaims, Guard, new_license_guard_extension, verify_jwt,
  record_metrics, judge, check_license, start, validation_loop, key_func, resolve_license_key,
  is_valid, is_grace_period,
}
use k_o11y_otel_gateway.License.Guard.Time.{
  grace_duration, grace_duration_of_days, nanoseconds_per_day,
}

module _ {K : Type 0} where
  -- What a verified licence with the expiry `exp` leaves behind at `now`: it is valid before the end of
  -- the grace period, which counts as grace from the expiry on.
  pub record IsJudgedAt (now exp : ℤ) (days : ℕ) (c : LicenseClaims) (e : Guard K) : Type 0 where
    validity : is_valid e ≡ ltb_ℤ now (exp +ℤ pos (days * nanoseconds_per_day))
    grace :
        is_grace_period e
        ≡ (ltb_ℤ now (exp +ℤ pos (days * nanoseconds_per_day)) && not (ltb_ℤ now exp))
    tenant : e.tenant_id ≡ c.tenant_id
    contract : e.contract_id ≡ c.contract_id
    expiry : e.expires_at ≡ some exp

  judge-IsJudgedAt :
      (now exp : ℤ) (days : ℕ) (c : LicenseClaims) (e : Guard K)
      → e.pass_through ≡ false
      → e.config.grace_period_days ≡ pos days
      → days ≤ 106_751
      → IsJudgedAt now exp days c (record_metrics c (judge now c exp e))
  unfolding judge record_metrics is_valid is_grace_period ◌+ℤ◌
  judge-IsJudgedAt now exp days c e p d h =
      ground (arith, p, ap grace_duration d ∙ grace_duration_of_days days h)

  -- A verified licence is judged by the clock alone: the check reports no error, and until the end of
  -- the grace period, of at most 106751 days, the guard is valid.
  pub check_license-IsJudgedAt :
      (parse : ParseWithClaims K) (now exp : ℤ) (days : ℕ) (c : LicenseClaims) (e : Guard K)
      → e.pass_through ≡ false
      → e.config.grace_period_days ≡ pos days
      → days ≤ 106_751
      → verify_jwt parse e ≡ ok (c, exp)
      → ((check_license parse now e).0 ≡ none)
        × IsJudgedAt now exp days c (check_license parse now e).1
  unfolding check_license
  check_license-IsJudgedAt parse now exp days c e p d h v =
      rw (v, check_license) (refl, judge-IsJudgedAt now exp days c e p d h)

  -- A check changes neither the configuration nor the key, so it does not change what is verified.
  same_setup :
      (parse : ParseWithClaims K) (now : ℤ) (e : Guard K)
      → ((check_license parse now e).1.config ≡ e.config)
        × ((check_license parse now e).1.pass_through ≡ e.pass_through)
        × ((check_license parse now e).1.is_running ≡ e.is_running)
        × (verify_jwt parse (check_license parse now e).1 ≡ verify_jwt parse e)
  unfolding check_license record_metrics judge verify_jwt key_func
  same_setup parse now e = ground arith

  finished : (parse : ParseWithClaims K) (e : Guard K) → validation_loop parse [] e ≡ e
  unfolding validation_loop
  finished parse e = refl

  running_step :
      (parse : ParseWithClaims K) (ticks : List ℤ) (t : ℤ) (e : Guard K)
      → e.is_running ≡ true
      → validation_loop parse (t ∷ ticks) e
        ≡ validation_loop parse ticks (check_license parse t e).1
  unfolding validation_loop
  running_step parse ticks t e r = ground (arith, r)

  running_loop :
      (parse : ParseWithClaims K) (ticks : List ℤ) (now exp : ℤ) (days : ℕ) (c : LicenseClaims)
      (e : Guard K)
      → e.is_running ≡ true
      → e.pass_through ≡ false
      → e.config.grace_period_days ≡ pos days
      → days ≤ 106_751
      → verify_jwt parse e ≡ ok (c, exp)
      → IsJudgedAt now exp days c (validation_loop parse (ticks ++ (now ∷ [])) e)
  running_loop parse [] now exp days c e r p d h v =
      subst (IsJudgedAt now exp days c)
        (sym (running_step parse [] now e r ∙ finished parse (check_license parse now e).1))
        (check_license-IsJudgedAt parse now exp days c e p d h v).1
  running_loop parse (t ∷ ticks) now exp days c e r p d h v =
      let (same_config, same_pass, same_running, same_token) = same_setup parse t e in
      subst (IsJudgedAt now exp days c) (sym (running_step parse (ticks ++ (now ∷ [])) t e r)) (
        running_loop parse ticks now exp days c (check_license parse t e).1 (same_running ∙ r)
          (same_pass ∙ p) (ap (λ cfg. cfg.grace_period_days) same_config ∙ d) h (same_token ∙ v))

  start-setup :
      (parse : ParseWithClaims K) (now : ℤ) (e : Guard K)
      → e.pass_through ≡ false
      → ((start parse now e).config ≡ e.config)
        × ((start parse now e).pass_through ≡ e.pass_through)
        × ((start parse now e).is_running ≡ true)
        × (verify_jwt parse (start parse now e) ≡ verify_jwt parse e)
  unfolding start check_license record_metrics judge verify_jwt key_func
  start-setup parse now e p = ground (arith, p)

  -- However the earlier checks of a started guard with a licence key went, and at whatever instants, the
  -- last check of a token that verifies leaves the guard as that instant judges it, when the grace
  -- period is of 0 to 106751 days, which a Duration holds.
  pub validation_loop-IsJudgedAt :
      (parse : ParseWithClaims K) (first : ℤ) (ticks : List ℤ) (now exp : ℤ) (days : ℕ)
      (c : LicenseClaims) (e : Guard K)
      → e.pass_through ≡ false
      → e.config.grace_period_days ≡ pos days
      → days ≤ 106_751
      → verify_jwt parse e ≡ ok (c, exp)
      → IsJudgedAt now exp days c
          (validation_loop parse (ticks ++ (now ∷ [])) (start parse first e))
  validation_loop-IsJudgedAt parse first ticks now exp days c e p d h v =
      let (same_config, same_pass, running, same_token) = start-setup parse first e p in
      running_loop parse ticks now exp days c (start parse first e) running (same_pass ∙ p)
        (ap (λ cfg. cfg.grace_period_days) same_config ∙ d) h (same_token ∙ v)

  -- Without a licence key, neither configured nor in the environment, the guard is made and is valid
  -- after any run of its timer.
  pub new_license_guard_extension-pass_through :
      (getenv : String → String) (parse_key : String → Result K) (new_metrics : Result (Unit {0}))
      (cfg : Config) (parse : ParseWithClaims K) (first : ℤ) (ticks : List ℤ)
      → resolve_license_key getenv cfg ≡ ""
      → (new_license_guard_extension getenv parse_key new_metrics cfg >>= λ e.
          ok (is_valid (validation_loop parse ticks (start parse first e))))
        ≡ ok true
  unfolding new_license_guard_extension start is_valid validation_loop
  new_license_guard_extension-pass_through getenv parse_key new_metrics cfg parse first [] h =
      rw h refl
  new_license_guard_extension-pass_through getenv parse_key new_metrics cfg parse first (t ∷ ticks)
        h =
      rw h refl

  -- A guard that is made with a licence key has parsed a public key, and is not valid before its
  -- first check.
  pub new_license_guard_extension-closed :
      (getenv : String → String) (parse_key : String → Result K) (new_metrics : Result (Unit {0}))
      (cfg : Config) (e : Guard K)
      → str_eq (resolve_license_key getenv cfg) "" ≡ false
      → new_license_guard_extension getenv parse_key new_metrics cfg ≡ ok e
      → (is_valid e ≡ false)
        × ((parse_key cfg.public_key_pem >>= λ k. ok (some k)) ≡ ok e.public_key)
  unfolding new_license_guard_extension is_valid
  new_license_guard_extension-closed getenv parse_key new_metrics cfg e h made =
      elim (Result-cases (parse_key cfg.public_key_pem)) [
        | inl (r, q) ↦ ground (arith, h, made, q)
        | inr (k, q) ↦ ground (arith, h, made, q)
      ]
