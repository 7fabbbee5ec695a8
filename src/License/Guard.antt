-- ===== src/License/Guard.antt =====
-- The licence guard, extension/licenseguardextension/extension.go and config.go. Instants are
-- nanoseconds, and `none` is the zero time. The JWT, PEM and X.509 libraries are parameters.
pub mod Time
pub mod Laws
use k_o11y_otel_gateway.Prelude.{
  Bool, true, false, not, ◌&&◌, Option, none, some, List, [], ◌∷◌, ◌++◌, String, str_eq,
  if◌then◌else◌,
}
use k_o11y_otel_gateway.Prelude.Int.{ℤ, ◌+ℤ◌, ltb_ℤ}
use k_o11y_otel_gateway.Prelude.Results.{Result, ok, err, ◌>>=◌}
use k_o11y_otel_gateway.License.Checker.{LicenseChecker}
use Time.{grace_duration}

pub record LicenseClaims : Type 0 where
  pub tenant_id : String
  pub cluster_id : String
  pub contract_id : String
  pub expires_at : Option ℤ

pub record Config : Type 0 where
  pub license_key : String
  pub license_key_env : String
  pub public_key_pem : String
  pub grace_period_days : ℤ
  pub fail_mode : String

abbrev pub fail_mode_open : String
fail_mode_open = "open"

-- A parsed token: the claims are absent when they have another type.
pub record Token : Type 0 where
  pub claims : Option LicenseClaims
  pub valid : Bool

pub record SigningMethod : Type 0 where
  pub is_rsa : Bool
  pub alg : String

-- `jwt.ParseWithClaims` without claims validation: the accepted algorithms, the key function and the
-- token's text.
abbrev pub ParseWithClaims : Type 0 → Type 0
ParseWithClaims K = List String → (SigningMethod → Result (Option K)) → String → Result Token

-- A public key of X.509: RSA or another kind.
pub data PublicKey (K : Type 0) : Type 0 where
  rsa : K → PublicKey K
  other_key : PublicKey K

-- One call of the gauges, metrics.go.
pub record Reading : Type 0 where
  pub tenant_id : String
  pub contract_id : String
  pub valid : Bool
  pub expires_at : Option ℤ
  pub grace_period : Bool
  pub grace_period_end : Option ℤ

pub record Guard (K : Type 0) : Type 0 where
  pub config : Config
  pub public_key : Option K
  pub valid : Bool
  pub grace_period : Bool
  pub expires_at : Option ℤ
  pub grace_period_end : Option ℤ
  pub tenant_id : String
  pub contract_id : String
  pub pass_through : Bool
  pub is_running : Bool
  pub has_metrics : Bool
  pub recorded : List Reading

module _ {K B : Type 0} (decode : String → Option B) (parse_pkix : B → Result (PublicKey K)) where
  unfoldable pub parse_public_key : String → Result K
  parse_public_key pem = elim (decode pem) [
    | none ↦ err "failed to decode PEM block"
    | some block ↦ elim (parse_pkix block) [
      | err e ↦ err "failed to parse public key"
      | ok (rsa k) ↦ ok k
      | ok other_key ↦ err "key is not RSA public key"
    ]
  ]

-- The configured key, or that of the environment.
unfoldable pub resolve_license_key : (String → String) → Config → String
resolve_license_key getenv cfg =
    if str_eq cfg.license_key "" && not (str_eq cfg.license_key_env "")
    then getenv cfg.license_key_env
    else cfg.license_key

-- The claims that `verifyJWT` returns, and their expiry, which is present.
unfoldable pub check_claims : LicenseClaims → Result (LicenseClaims × ℤ)
check_claims c =
    if str_eq c.tenant_id ""
    then err "tenant_id is missing from JWT claims"
    else elim c.expires_at [ none ↦ err "exp claim is missing from JWT" | some exp ↦ ok (c, exp) ]

module _ {K : Type 0} where
  unfoldable pub new_license_guard_extension :
      (String → String) → (String → Result K) → Result (Unit {0}) → Config → Result (Guard K)
  new_license_guard_extension getenv parse_key new_metrics cfg =
      let key : String = resolve_license_key getenv cfg in
      let ext : Guard K = record {
        config = record cfg { license_key = key };
        public_key = none;
        valid = false;
        grace_period = false;
        expires_at = none;
        grace_period_end = none;
        tenant_id = "";
        contract_id = "";
        pass_through = false;
        is_running = false;
        has_metrics = false;
        recorded = [];
      } in
      if str_eq key ""
      then ok (record ext { pass_through = true; valid = true })
      else if str_eq cfg.public_key_pem ""
      then err "public_key_pem is required when license_key is set"
      else elim (parse_key cfg.public_key_pem) [
        | err e ↦ err "failed to parse public key"
        | ok k ↦ elim new_metrics [
          | err e ↦ err "failed to initialize license metrics"
          | ok _ ↦ ok (record ext { public_key = some k; has_metrics = true })
        ]
      ]

  unfoldable pub key_func : Guard K → SigningMethod → Result (Option K)
  key_func e m = if m.is_rsa then ok e.public_key else err "unexpected signing method"

  unfoldable pub verify_jwt : ParseWithClaims K → Guard K → Result (LicenseClaims × ℤ)
  verify_jwt parse e = elim (parse ("RS256" ∷ []) (key_func e) e.config.license_key) [
    | err _ ↦ err "signature verification failed"
    | ok token ↦ elim token.claims [
      | none ↦ err "invalid token or claims type"
      | some c ↦ if token.valid then check_claims c else err "invalid token or claims type"
    ]
  ]

  unfoldable pub record_metrics : LicenseClaims → Guard K → Guard K
  record_metrics c e =
      if e.has_metrics
      then record e {
        recorded =
            e.recorded
            ++ (record {
              tenant_id = c.tenant_id;
              contract_id = c.contract_id;
              valid = e.valid;
              expires_at = e.expires_at;
              grace_period = e.grace_period;
              grace_period_end = e.grace_period_end;
            }
                ∷ []);
      }
      else e

  -- What a verified licence does to the state at the instant `now`.
  unfoldable pub judge : ℤ → LicenseClaims → ℤ → Guard K → Guard K
  judge now c exp e =
      let grace_end = exp +ℤ grace_duration e.config.grace_period_days in
      let e' : Guard K = record e {
        tenant_id = c.tenant_id;
        contract_id = c.contract_id;
        expires_at = some exp;
        grace_period_end = some grace_end;
      } in
      if ltb_ℤ now exp
      then record e' { valid = true; grace_period = false }
      else if ltb_ℤ now grace_end
      then record e' { valid = true; grace_period = true }
      else record e' { valid = false; grace_period = false }

  -- The error that is returned, and the state.
  unfoldable pub check_license : ParseWithClaims K → ℤ → Guard K → Option String × Guard K
  check_license parse now e = elim (verify_jwt parse e) [
    | err _ ↦
        if str_eq e.config.fail_mode fail_mode_open
        then (none, record e { valid = true; grace_period = false })
        else (some "JWT verification failed", record e { valid = false; grace_period = false })
    | ok (c, exp) ↦ (none, record_metrics c (judge now c exp e))
  ]

  -- `Start` and the instants at which the timer then fires, until `Shutdown`.
  unfoldable pub start : ParseWithClaims K → ℤ → Guard K → Guard K
  start parse now e =
      if e.pass_through
      then e
      else let e' : Guard K = (check_license parse now e).1 in record e' { is_running = true }

  unfoldable pub validation_loop : ParseWithClaims K → List ℤ → Guard K → Guard K
  validation_loop parse [] e = e
  validation_loop parse (now ∷ ticks) e =
      if e.is_running then validation_loop parse ticks (check_license parse now e).1 else e

  unfoldable pub shutdown : Guard K → Guard K
  shutdown e = record e { is_running = false }

  unfoldable pub is_valid : Guard K → Bool
  is_valid e = if e.pass_through then true else e.valid

  unfoldable pub is_grace_period : Guard K → Bool
  is_grace_period e = if e.pass_through then false else e.grace_period

-- The guard as the gate sees it.
unfoldable pub guard_checker : {K : Type 0} → LicenseChecker (Guard K)
guard_checker = record {
  is_valid = is_valid;
  is_grace_period = is_grace_period;
  tenant_id = λ e. e.tenant_id;
  contract_id = λ e. e.contract_id;
}
