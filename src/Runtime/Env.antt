-- ===== src/Runtime/Env.antt =====
-- What src/config_runtime.c reads from the environment and merges with the configuration file. The
-- environment is a function from names to values; an error carries the name that the message names.
use awg2_webui.Base.{
  ℕ, ◌-◌, ◌*◌, Bool, true, not, ◌||◌, Option, some, none, List, [], ◌∷◌, ◌==◌, if◌then◌else◌, take,
  ℤ, pos, negsuc, codes,
}
use awg2_webui.Obfs.{Profile}
use awg2_webui.Obfs.Names.{parse_obfs_profile}
use awg2_webui.Cps.{Template}
use awg2_webui.Cps.Parse.{cps_parse}
use awg2_webui.Transform.{Hrange}
use awg2_webui.Transform.Validate.{Params}
use awg2_webui.Runtime.{nul, parse_int_strict, parse_src_port, parse_hrange_str}

abbrev pub Env : Type 0
Env = List ℕ → Option (List ℕ)

pub data EnvError : Type 0 where
  invalid_integer must_not_be_negative invalid_range invalid_template : (name : List ℕ) → EnvError

pub data Result {ℓ} (A : Type ℓ) : Type ℓ where
  ok : A → Result A
  err : EnvError → Result A

infixl 5 ◌>>=◌
abbrev pub ◌>>=◌ {ℓ κ} : {A : Type ℓ} {B : Type κ} → Result A → (A → Result B) → Result B
ok a >>= f = f a
err e >>= f = err e

abbrev pub or_error {ℓ} : {A : Type ℓ} → EnvError → Option A → Result A
or_error e none = err e
or_error e (some a) = ok a

-- A variable that is unset or empty leaves the default.
unfoldable pub env_value {ℓ} :
    {A : Type ℓ} → EnvError → (List ℕ → Option A) → A → Option (List ℕ) → Result A
env_value e parse default none = ok default
env_value e parse default (some s) = if nul s then ok default else or_error e (parse s)

unfoldable pub env_int : Env → List ℕ → ℤ → Result ℤ
unfolding env_value parse_int_strict
env_int env name default = env_value (invalid_integer name) parse_int_strict default (env name)

-- `if (iv < 0)`
unfoldable pub check_nonneg : List ℕ → ℤ → Result ℕ
check_nonneg name (pos n) = ok n
check_nonneg name (negsuc n) = err (must_not_be_negative name)

unfoldable pub env_nonneg : Env → List ℕ → ℕ → Result ℕ
unfolding env_int check_nonneg
env_nonneg env name default = env_int env name (pos default) >>= check_nonneg name

pub record Operational : Type 0 where
  pub timeout : ℤ
  pub remote_silent_timeout : ℤ
  pub remote_silent_exit_timeout : ℕ
  pub connect_retries : ℕ
  pub dns_resolve_failure_timeout : ℕ
  pub socket_buf : ℤ

unfoldable pub load_operational_env : Env → Result Operational
unfolding env_int env_nonneg
load_operational_env env = do
  timeout ← env_int env (codes "AWG_TIMEOUT") (pos 180)
  silent ← env_int env (codes "AWG_REMOTE_SILENT_TIMEOUT") (pos 0)
  exit ← env_nonneg env (codes "AWG_REMOTE_SILENT_EXIT_TIMEOUT") 600
  retries ← env_nonneg env (codes "AWG_CONNECT_RETRIES") 0
  dns ← env_nonneg env (codes "AWG_DNS_RESOLVE_FAILURE_TIMEOUT") (12 * 60)
  buf ← env_int env (codes "AWG_SOCKET_BUF") (pos (16 * 1024 * 1024))
  ok (record {
    timeout = timeout;
    remote_silent_timeout = silent;
    remote_silent_exit_timeout = exit;
    connect_retries = retries;
    dns_resolve_failure_timeout = dns;
    socket_buf = buf;
  })

pub record NetworkPerf : Type 0 where
  pub src_port : ℤ
  pub src_port_drift : Bool
  pub cpu_c2s : ℤ
  pub cpu_s2c : ℤ
  pub busy_poll : ℤ
  pub no_gro : ℤ

-- `iv ? 1 : 0`
abbrev pub nonzero : ℤ → Bool
nonzero (pos n) = not (n == 0)
nonzero (negsuc n) = true

unfoldable pub load_network_perf_env : Env → Result NetworkPerf
unfolding env_value env_int parse_src_port
load_network_perf_env env = do
  src_port ←
      env_value (invalid_integer (codes "AWG_SRC_PORT")) parse_src_port (pos 0)
        (env (codes "AWG_SRC_PORT"))
  drift ← env_int env (codes "AWG_SRC_PORT_DRIFT") (pos 1)
  c2s ← env_int env (codes "AWG_CPU_C2S") (negsuc 0)
  s2c ← env_int env (codes "AWG_CPU_S2C") (negsuc 0)
  poll ← env_int env (codes "AWG_BUSY_POLL") (pos 0)
  no_gro ← env_int env (codes "AWG_NO_GRO") (pos 0)
  ok (record {
    src_port = src_port;
    src_port_drift = nonzero drift;
    cpu_c2s = c2s;
    cpu_s2c = s2c;
    busy_poll = poll;
    no_gro = no_gro;
  })

-- `getenv(name) ? getenv(name) : default`; here the empty string is not the default.
abbrev pub getenv_or : Env → List ℕ → List ℕ → List ℕ
getenv_or env name default = elim (env name) [ none ↦ default | some s ↦ s ]

unfoldable pub required_int : Env → List ℕ → Result ℤ
unfolding parse_int_strict
required_int env name =
    or_error (invalid_integer name) (parse_int_strict (getenv_or env name (codes "0")))

unfoldable pub required_range : Env → List ℕ → List ℕ → Result Hrange
unfolding parse_hrange_str
required_range env name default =
    or_error (invalid_range name) (parse_hrange_str (getenv_or env name default))

unfoldable pub load_obfuscation_env : Env → Result Params
unfolding required_int required_range env_int
load_obfuscation_env env = do
  jc ← required_int env (codes "AWG_JC")
  jmin ← required_int env (codes "AWG_JMIN")
  jmax ← required_int env (codes "AWG_JMAX")
  s1 ← required_int env (codes "AWG_S1")
  s2 ← required_int env (codes "AWG_S2")
  h1 ← required_range env (codes "AWG_H1") (codes "1")
  h2 ← required_range env (codes "AWG_H2") (codes "2")
  h3 ← required_range env (codes "AWG_H3") (codes "3")
  h4 ← required_range env (codes "AWG_H4") (codes "4")
  s3 ← env_int env (codes "AWG_S3") (pos 0)
  s4 ← env_int env (codes "AWG_S4") (pos 0)
  ok (record {
    jc = jc;
    jmin = jmin;
    jmax = jmax;
    s1 = s1;
    s2 = s2;
    s3 = s3;
    s4 = s4;
    h1 = h1;
    h2 = h2;
    h3 = h3;
    h4 = h4;
  })

unfoldable pub load_obfs_profile_env : Env → Profile
unfolding parse_obfs_profile
load_obfs_profile_env env = parse_obfs_profile (env (codes "AWG_OBFS_PROFILE"))

abbrev optional {ℓ} : {A : Type ℓ} → Option A → Option (Option A)
optional none = none
optional (some a) = some (some a)

-- The loop of `load_cps_env`, for the templates that were there before.
unfoldable pub load_templates :
    Env → List (List ℕ) → List (Option Template) → Result (List (Option Template))
unfolding env_value cps_parse
load_templates env [] old = ok []
load_templates env (name ∷ names) [] = ok []
load_templates env (name ∷ names) (t ∷ old) = do
  mine ← env_value (invalid_template name) (λ s. optional (cps_parse s)) t (env name)
  rest ← load_templates env names old
  ok (mine ∷ rest)

unfoldable pub load_cps_env : Env → List (Option Template) → Result (List (Option Template))
unfolding load_templates
load_cps_env env old =
    load_templates env
      (codes "AWG_I1" ∷ codes "AWG_I2" ∷ codes "AWG_I3" ∷ codes "AWG_I4" ∷ codes "AWG_I5" ∷ []) old

abbrev pub override {ℓ} : {A : Type ℓ} → Option A → A → A
override none a = a
override (some b) a = b

-- A value that is there and not empty.
abbrev filled : Option (List ℕ) → Option (List ℕ)
filled none = none
filled (some s) = if nul s then none else some s

-- `strncpy` into a buffer, with the zero at its end.
abbrev buffered : ℕ → Option (List ℕ) → Option (List ℕ)
buffered size none = none
buffered size (some s) = some (take (size - 1) s)

-- The last value that is there wins.
unfoldable pub merge_endpoint : Option (List ℕ) → Option (List ℕ) → ℕ → List ℕ
merge_endpoint from_env from_file size =
    override (buffered size (filled from_file)) (override (buffered size (filled from_env)) [])

-- `merge_endpoint_values`, with the two buffers; a file value is there where its `have` flag is set.
unfoldable pub merge_endpoint_values :
    Option (List ℕ)
    → Option (List ℕ)
    → Option (List ℕ)
    → Option (List ℕ)
    → ℕ
    → ℕ
    → Option (List ℕ × List ℕ)
unfolding merge_endpoint
merge_endpoint_values env_listen env_remote file_listen file_remote listen_size remote_size =
    if listen_size == 0 || remote_size == 0
    then none
    else some (
      merge_endpoint env_listen file_listen listen_size,
      merge_endpoint env_remote file_remote remote_size,
    )

unfoldable pub select_dns_value : Option (List ℕ) → Option (List ℕ) → Option (List ℕ)
select_dns_value env_dns file_dns = elim (filled file_dns) [
  | none ↦ filled env_dns
  | some s ↦ some s
]

-- The obfuscation parameters of a configuration file, where its `have` flags are set.
pub record FileParams : Type 0 where
  pub jc : Option ℤ
  pub jmin : Option ℤ
  pub jmax : Option ℤ
  pub s1 : Option ℤ
  pub s2 : Option ℤ
  pub s3 : Option ℤ
  pub s4 : Option ℤ
  pub h1 : Option Hrange
  pub h2 : Option Hrange
  pub h3 : Option Hrange
  pub h4 : Option Hrange

unfoldable pub apply_file_obfuscation_overrides : Params → FileParams → Params
apply_file_obfuscation_overrides p f = record {
  jc = override f.jc p.jc;
  jmin = override f.jmin p.jmin;
  jmax = override f.jmax p.jmax;
  s1 = override f.s1 p.s1;
  s2 = override f.s2 p.s2;
  s3 = override f.s3 p.s3;
  s4 = override f.s4 p.s4;
  h1 = override f.h1 p.h1;
  h2 = override f.h2 p.h2;
  h3 = override f.h3 p.h3;
  h4 = override f.h4 p.h4;
}
