-- ===== src/Runtime/EnvParse.antt =====
-- What the loaders of src/config_runtime.c make of an environment.
use std.Path.{subst}
use awg2_webui.Base.{
  ℕ, ◌<◌, ◌^◌, ◌≡◌, refl, ap, sym, ◌∙◌, false, Option, some, none, List, [], ◌∷◌, ◌++◌,
  if◌then◌else◌, if_false, if_true, ℤ, pos, negsuc, bytes_eq, codes, arith, Bool-cases, inl, inr,
  decimal, decimal_not_empty, All,
}
use awg2_webui.Transform.{Hrange}
use awg2_webui.Transform.Ranges.{IsRange}
use awg2_webui.Transform.Validate.{Params}
use awg2_webui.Runtime.{nul, parse_int_strict, parse_hrange_str}
use awg2_webui.Runtime.Parse.{
  nul_of_length, signed_decimal, FitsInt, parse_int_strict-signed_decimal, parse_int_strict-FitsInt,
  parse_hrange_str-IsRange, parse_hrange_str-decimal,
}
use awg2_webui.Runtime.Env.{
  Env, EnvError, invalid_integer, invalid_range, Result, ok, err, ◌>>=◌, or_error, env_value,
  env_int, check_nonneg, env_nonneg, Operational, load_operational_env, getenv_or, required_int,
  required_range, load_obfuscation_env, FileParams, override, apply_file_obfuscation_overrides,
}

-- An environment given as a list.
abbrev pub env_of : List (List ℕ × List ℕ) → Env
env_of [] name = none
env_of (v ∷ vs) name = if bytes_eq v.0 name then some v.1 else env_of vs name

-- `%u-%u`
abbrev pub range_decimal : Hrange → List ℕ
range_decimal r = decimal r.min ++ (b'-' ∷ decimal r.max)

abbrev pub params_env : Params → Env
params_env p = env_of (
    (codes "AWG_JC", signed_decimal p.jc)
    ∷ (codes "AWG_JMIN", signed_decimal p.jmin)
    ∷ (codes "AWG_JMAX", signed_decimal p.jmax)
    ∷ (codes "AWG_S1", signed_decimal p.s1)
    ∷ (codes "AWG_S2", signed_decimal p.s2)
    ∷ (codes "AWG_S3", signed_decimal p.s3)
    ∷ (codes "AWG_S4", signed_decimal p.s4)
    ∷ (codes "AWG_H1", range_decimal p.h1)
    ∷ (codes "AWG_H2", range_decimal p.h2)
    ∷ (codes "AWG_H3", range_decimal p.h3)
    ∷ (codes "AWG_H4", range_decimal p.h4)
    ∷ [])

abbrev pub operational_env : Operational → Env
operational_env o = env_of (
    (codes "AWG_TIMEOUT", signed_decimal o.timeout)
    ∷ (codes "AWG_REMOTE_SILENT_TIMEOUT", signed_decimal o.remote_silent_timeout)
    ∷ (codes "AWG_REMOTE_SILENT_EXIT_TIMEOUT", decimal o.remote_silent_exit_timeout)
    ∷ (codes "AWG_CONNECT_RETRIES", decimal o.connect_retries)
    ∷ (codes "AWG_DNS_RESOLVE_FAILURE_TIMEOUT", decimal o.dns_resolve_failure_timeout)
    ∷ (codes "AWG_SOCKET_BUF", signed_decimal o.socket_buf)
    ∷ [])

-- The parameters are of the C types, with ordered ranges.
pub record IsLoaded (p : Params) : Type 0 where
  pub jc_fits : FitsInt p.jc
  pub jmin_fits : FitsInt p.jmin
  pub jmax_fits : FitsInt p.jmax
  pub s1_fits : FitsInt p.s1
  pub s2_fits : FitsInt p.s2
  pub s3_fits : FitsInt p.s3
  pub s4_fits : FitsInt p.s4
  pub h1_range : IsRange p.h1
  pub h2_range : IsRange p.h2
  pub h3_range : IsRange p.h3
  pub h4_range : IsRange p.h4

nul-signed_decimal : (z : ℤ) → nul (signed_decimal z) ≡ false
nul-signed_decimal (pos n) = nul_of_length (decimal n) (decimal_not_empty n)
nul-signed_decimal (negsuc n) = refl

module _ (env : Env) (name : List ℕ) where
  required_int_lem :
      (z : ℤ) → FitsInt z → env name ≡ some (signed_decimal z) → required_int env name ≡ ok z
  unfolding required_int
  required_int_lem z h e =
      ap
        (λ s.
          or_error (invalid_integer name)
            (parse_int_strict (elim s [ none ↦ codes "0" | some s ↦ s ])))
        e
      ∙ ap (or_error (invalid_integer name)) (parse_int_strict-signed_decimal z h)

  env_int_lem :
      (z default : ℤ)
      → FitsInt z
      → env name ≡ some (signed_decimal z)
      → env_int env name default ≡ ok z
  unfolding env_int env_value
  env_int_lem z default h e =
      ap (env_value (invalid_integer name) parse_int_strict default) e
      ∙ if_false _ (nul-signed_decimal z) _ _
      ∙ ap (or_error (invalid_integer name)) (parse_int_strict-signed_decimal z h)

  env_nonneg_lem :
      (n default : ℕ)
      → n < 2 ^ 31
      → env name ≡ some (decimal n)
      → env_nonneg env name default ≡ ok n
  unfolding env_nonneg check_nonneg
  env_nonneg_lem n default h e =
      ap (λ r. r >>= check_nonneg name) (env_int_lem (pos n) (pos default) h e)

  required_range_lem :
      (r : Hrange) (default : List ℕ)
      → IsRange r
      → env name ≡ some (range_decimal r)
      → required_range env name default ≡ ok r
  unfolding required_range
  required_range_lem r default h e =
      ap
        (λ s.
          or_error (invalid_range name) (parse_hrange_str (elim s [ none ↦ default | some s ↦ s ])))
        e
      ∙ ap (or_error (invalid_range name)) (parse_hrange_str-decimal r h)

-- Parameters of the C types that are printed into the environment, the ranges as `min-max`, are loaded
-- as they were.
pub load_obfuscation_env-params_env :
    (p : Params) → IsLoaded p → load_obfuscation_env (params_env p) ≡ ok p
unfolding load_obfuscation_env
load_obfuscation_env-params_env p h =
    let env : Env = params_env p in
    rw
      (
        required_int_lem env (codes "AWG_JC") p.jc h.jc_fits refl,
        required_int_lem env (codes "AWG_JMIN") p.jmin h.jmin_fits refl,
        required_int_lem env (codes "AWG_JMAX") p.jmax h.jmax_fits refl,
        required_int_lem env (codes "AWG_S1") p.s1 h.s1_fits refl,
        required_int_lem env (codes "AWG_S2") p.s2 h.s2_fits refl,
        required_range_lem env (codes "AWG_H1") p.h1 (codes "1") h.h1_range refl,
        required_range_lem env (codes "AWG_H2") p.h2 (codes "2") h.h2_range refl,
        required_range_lem env (codes "AWG_H3") p.h3 (codes "3") h.h3_range refl,
        required_range_lem env (codes "AWG_H4") p.h4 (codes "4") h.h4_range refl,
        env_int_lem env (codes "AWG_S3") p.s3 (pos 0) h.s3_fits refl,
        env_int_lem env (codes "AWG_S4") p.s4 (pos 0) h.s4_fits refl,
      )
      refl

-- Settings of the C types that are printed into the environment are loaded as they were.
pub load_operational_env-operational_env :
    (o : Operational)
    → FitsInt o.timeout
    → FitsInt o.remote_silent_timeout
    → o.remote_silent_exit_timeout < 2 ^ 31
    → o.connect_retries < 2 ^ 31
    → o.dns_resolve_failure_timeout < 2 ^ 31
    → FitsInt o.socket_buf
    → load_operational_env (operational_env o) ≡ ok o
unfolding load_operational_env
load_operational_env-operational_env o timeout silent exit retries dns buf =
    let env : Env = operational_env o in
    rw
      (
        env_int_lem env (codes "AWG_TIMEOUT") o.timeout (pos 180) timeout refl,
        env_int_lem env (codes "AWG_REMOTE_SILENT_TIMEOUT") o.remote_silent_timeout (pos 0) silent
            refl,
        env_nonneg_lem env (codes "AWG_REMOTE_SILENT_EXIT_TIMEOUT") o.remote_silent_exit_timeout 600
            exit refl,
        env_nonneg_lem env (codes "AWG_CONNECT_RETRIES") o.connect_retries 0 retries refl,
        env_nonneg_lem env (codes "AWG_DNS_RESOLVE_FAILURE_TIMEOUT") o.dns_resolve_failure_timeout
            720 dns refl,
        env_int_lem env (codes "AWG_SOCKET_BUF") o.socket_buf (pos 16777216) buf refl,
      )
      refl

-- A step that succeeded.
bind_ok {ℓ κ} :
    {A : Type ℓ} {B : Type κ} (m : Result A) (f : A → Result B) (b : B)
    → (m >>= f) ≡ ok b
    → (a : A) × (m ≡ ok a) × (f a ≡ ok b)
bind_ok (ok a) f b h = (a, refl, h)
bind_ok (err e) f b h = cc

ok_of {ℓ} : {A : Type ℓ} (e : EnvError) (x : Option A) (a : A) → or_error e x ≡ ok a → x ≡ some a
ok_of e none a h = cc
ok_of e (some x) a h = cc

ok-injective {ℓ} : {A : Type ℓ} (a b : A) → ok a ≡ ok b → a ≡ b
ok-injective a b h = cc

module _ (env : Env) (name : List ℕ) where
  required_int-FitsInt : (z : ℤ) → required_int env name ≡ ok z → FitsInt z
  unfolding required_int
  required_int-FitsInt z h =
      parse_int_strict-FitsInt (getenv_or env name (codes "0")) z
        (ok_of (invalid_integer name) _ z h)

  required_range-IsRange :
      (default : List ℕ) (r : Hrange) → required_range env name default ≡ ok r → IsRange r
  unfolding required_range
  required_range-IsRange default r h =
      parse_hrange_str-IsRange (getenv_or env name default) r (ok_of (invalid_range name) _ r h)

  value-FitsInt :
      (default : ℤ) (s : Option (List ℕ)) (z : ℤ)
      → FitsInt default
      → env_value (invalid_integer name) parse_int_strict default s ≡ ok z
      → FitsInt z
  unfolding env_value
  value-FitsInt default none z d h = subst FitsInt (ok-injective default z h) d
  value-FitsInt default (some s) z d h = elim (Bool-cases (nul s)) [
    | inl e ↦ subst FitsInt (ok-injective default z (sym (if_true _ e _ _) ∙ h)) d
    | inr e ↦
        parse_int_strict-FitsInt s z
          (ok_of (invalid_integer name) (parse_int_strict s) z (sym (if_false _ e _ _) ∙ h))
  ]

  env_int-FitsInt : (default z : ℤ) → FitsInt default → env_int env name default ≡ ok z → FitsInt z
  unfolding env_int
  env_int-FitsInt default z d h = value-FitsInt default (env name) z d h

load_obfuscation_env-IsLoaded :
    (env : Env) (p : Params) → load_obfuscation_env env ≡ ok p → IsLoaded p
unfolding load_obfuscation_env
load_obfuscation_env-IsLoaded env p h =
    let (jc, h_jc, r1) = bind_ok _ _ p h in
    let (jmin, h_jmin, r2) = bind_ok _ _ p r1 in
    let (jmax, h_jmax, r3) = bind_ok _ _ p r2 in
    let (s1, h_s1, r4) = bind_ok _ _ p r3 in
    let (s2, h_s2, r5) = bind_ok _ _ p r4 in
    let (h1, h_h1, r6) = bind_ok _ _ p r5 in
    let (h2, h_h2, r7) = bind_ok _ _ p r6 in
    let (h3, h_h3, r8) = bind_ok _ _ p r7 in
    let (h4, h_h4, r9) = bind_ok _ _ p r8 in
    let (s3, h_s3, r10) = bind_ok _ _ p r9 in
    let (s4, h_s4, r11) = bind_ok _ _ p r10 in
    subst IsLoaded (ok-injective _ p r11) (record {
      jc_fits = required_int-FitsInt env _ jc h_jc;
      jmin_fits = required_int-FitsInt env _ jmin h_jmin;
      jmax_fits = required_int-FitsInt env _ jmax h_jmax;
      s1_fits = required_int-FitsInt env _ s1 h_s1;
      s2_fits = required_int-FitsInt env _ s2 h_s2;
      s3_fits = env_int-FitsInt env _ (pos 0) s3 (omega arith) h_s3;
      s4_fits = env_int-FitsInt env _ (pos 0) s4 (omega arith) h_s4;
      h1_range = required_range-IsRange env _ _ h1 h_h1;
      h2_range = required_range-IsRange env _ _ h2 h_h2;
      h3_range = required_range-IsRange env _ _ h3 h_h3;
      h4_range = required_range-IsRange env _ _ h4 h_h4;
    })

-- The parameters that a configuration file holds are of the C types, with ordered ranges.
abbrev pub AllOf {ℓ} : {A : Type ℓ} → (A → Type 0) → Option A → Type 0
AllOf P none = Unit
AllOf P (some a) = P a

pub record IsFileLoaded (f : FileParams) : Type 0 where
  pub ints_fit : All (AllOf FitsInt) (f.jc ∷ f.jmin ∷ f.jmax ∷ f.s1 ∷ f.s2 ∷ f.s3 ∷ f.s4 ∷ [])
  pub ranges : All (AllOf IsRange) (f.h1 ∷ f.h2 ∷ f.h3 ∷ f.h4 ∷ [])

override_lem {ℓ} :
    {A : Type ℓ} (P : A → Type 0) (x : Option A) (a : A) → AllOf P x → P a → P (override x a)
override_lem P none a h k = k
override_lem P (some b) a h k = h

-- Whatever environment is accepted, and whatever of the parameters the configuration file overrides with
-- values of the C types: what is in force is of the C types, with ordered ranges of 32-bit numbers.
pub apply_file_obfuscation_overrides-IsLoaded :
    (env : Env) (p : Params) (f : FileParams)
    → load_obfuscation_env env ≡ ok p
    → IsFileLoaded f
    → IsLoaded (apply_file_obfuscation_overrides p f)
unfolding apply_file_obfuscation_overrides
apply_file_obfuscation_overrides-IsLoaded env p f h file =
    let from_env : IsLoaded p = load_obfuscation_env-IsLoaded env p h in
    record {
      jc_fits = override_lem FitsInt f.jc p.jc file.ints_fit.0 from_env.jc_fits;
      jmin_fits = override_lem FitsInt f.jmin p.jmin file.ints_fit.1.0 from_env.jmin_fits;
      jmax_fits = override_lem FitsInt f.jmax p.jmax file.ints_fit.1.1.0 from_env.jmax_fits;
      s1_fits = override_lem FitsInt f.s1 p.s1 file.ints_fit.1.1.1.0 from_env.s1_fits;
      s2_fits = override_lem FitsInt f.s2 p.s2 file.ints_fit.1.1.1.1.0 from_env.s2_fits;
      s3_fits = override_lem FitsInt f.s3 p.s3 file.ints_fit.1.1.1.1.1.0 from_env.s3_fits;
      s4_fits = override_lem FitsInt f.s4 p.s4 file.ints_fit.1.1.1.1.1.1.0 from_env.s4_fits;
      h1_range = override_lem IsRange f.h1 p.h1 file.ranges.0 from_env.h1_range;
      h2_range = override_lem IsRange f.h2 p.h2 file.ranges.1.0 from_env.h2_range;
      h3_range = override_lem IsRange f.h3 p.h3 file.ranges.1.1.0 from_env.h3_range;
      h4_range = override_lem IsRange f.h4 p.h4 file.ranges.1.1.1.0 from_env.h4_range;
    }
