-- ===== src/Runtime/Tests.antt =====
-- Tests of the parsers and loaders of src/config_runtime.c, and of their theorems.
use awg2_webui.Base.{
  ℕ, ◌*◌, ◌≤◌, ◌<◌, ◌≡◌, refl, true, false, some, none, List, [], ◌∷◌, ◌++◌, pos, negsuc, codes,
  replicate, arith, All,
}
use awg2_webui.Base64.{base64_decode}
use awg2_webui.Base64.RoundTrip.{base64_encode}
use awg2_webui.Transform.{Hrange}
use awg2_webui.Transform.Ranges.{IsRange}
use awg2_webui.Transform.Validate.{Params}
use awg2_webui.Control.{Proxy, Window, bounds, run, started}
use awg2_webui.Runtime.{parse_int_strict, parse_uint32_str, parse_src_port}
use awg2_webui.Runtime.Silent.{compute_remote_silent_timeout, run-compute_remote_silent_timeout}
use awg2_webui.Runtime.Peers.{is_pub_sep, words, parse_server_peer_list, write_dns_resolv_conf}
use awg2_webui.Runtime.Listed.{IsPeers, IsListed, parse_server_peer_list-IsPeers}
use awg2_webui.Runtime.Env.{
  Env, ok, Operational, load_operational_env, load_obfuscation_env, FileParams,
  apply_file_obfuscation_overrides,
}
use awg2_webui.Runtime.EnvParse.{
  IsLoaded, IsFileLoaded, params_env, load_obfuscation_env-params_env,
  apply_file_obfuscation_overrides-IsLoaded,
}

negative_int : parse_int_strict (codes " -42") ≡ some (negsuc 41)
unfolding parse_int_strict
negative_int = refl

trailing_garbage : parse_int_strict (codes "42s") ≡ none
unfolding parse_int_strict
trailing_garbage = refl

-- `strtoul` takes a sign and wraps around.
wrapped_minus : parse_uint32_str (codes "-18446744073709551615") ≡ some 1
unfolding parse_uint32_str
wrapped_minus = refl

auto_port : parse_src_port (codes "Auto") ≡ some (pos 0)
unfolding parse_src_port
auto_port = refl

two_servers :
    write_dns_resolv_conf (codes "1.1.1.1, 8.8.8.8")
    ≡ codes "nameserver 1.1.1.1\nnameserver 8.8.8.8\n"
unfolding write_dns_resolv_conf
two_servers = refl

abbrev range : ℕ → ℕ → Hrange
range lo hi = record { min = lo; max = hi }

abbrev range-IsRange : (lo hi : ℕ) → lo ≤ hi → hi < 4294967296 → IsRange (range lo hi)
range-IsRange lo hi h k = record { ordered = h; fits = k }

-- A keepalive of 10 seconds, with the default exit: 40 seconds, which is 8 ticks.
abbrev open_proxy : Proxy
open_proxy = record { has_remote_fd = true; src_port_drift = true; auto_src_port = true }

abbrev trying : Window
trying = record { active = true; remote_rx = false }

run-compute_remote_silent_timeout_example :
    ((run
        (bounds 180 (compute_remote_silent_timeout (pos 0) true (pos 10) (pos 600)) 600)
        open_proxy
        started
        (replicate 8 trying)).reconnect_needed
      ≡ true)
    × (2
          * (bounds 180
              (compute_remote_silent_timeout (pos 0) true (pos 10) (pos 600))
              600).silent_checks_needed
        ≤ (bounds 180
            (compute_remote_silent_timeout (pos 0) true (pos 10) (pos 600))
            600).exit_checks_needed)
unfolding compute_remote_silent_timeout bounds
run-compute_remote_silent_timeout_example =
    run-compute_remote_silent_timeout (pos 0) (pos 10) true 600 180 open_proxy (replicate 8 trying)
      refl (omega arith) refl
      (
        refl,
        (
          omega arith,
          (
            refl,
            (
              omega arith,
              (
                refl,
                (
                  omega arith,
                  (
                    refl,
                    (
                      omega arith,
                      (
                        refl,
                        (
                          omega arith,
                          (refl, (omega arith, (refl, (omega arith, (refl, (omega arith, tt)))))),
                        ),
                      ),
                    ),
                  ),
                ),
              ),
            ),
          ),
        ),
      )
      refl

-- One key, given twice.
abbrev key : List ℕ
key = replicate 32 7

abbrev twice : List ℕ
unfolding base64_encode
twice = base64_encode key ++ codes ", " ++ base64_encode key

parse_server_peer_list-IsPeers_example :
    IsPeers (key ∷ []) × All (IsListed (key ∷ [])) (words is_pub_sep twice)
unfolding parse_server_peer_list base64_decode twice
parse_server_peer_list-IsPeers_example =
    parse_server_peer_list-IsPeers [] twice (key ∷ [])
      (record { different = tt; keys_of_32 = tt; fit = omega arith }) refl

abbrev params : Params
params = record {
  jc = pos 4;
  jmin = pos 10;
  jmax = pos 50;
  s1 = pos 46;
  s2 = pos 122;
  s3 = pos 17;
  s4 = negsuc 0;
  h1 = range 1000 2000;
  h2 = range 3000 4000;
  h3 = range 5 5;
  h4 = range 7000 9000;
}

params-IsLoaded : IsLoaded params
params-IsLoaded = record {
  jc_fits = omega arith;
  jmin_fits = omega arith;
  jmax_fits = omega arith;
  s1_fits = omega arith;
  s2_fits = omega arith;
  s3_fits = omega arith;
  s4_fits = omega arith;
  h1_range = range-IsRange 1000 2000 (omega arith) (omega arith);
  h2_range = range-IsRange 3000 4000 (omega arith) (omega arith);
  h3_range = range-IsRange 5 5 (omega arith) (omega arith);
  h4_range = range-IsRange 7000 9000 (omega arith) (omega arith);
}

load_obfuscation_env-params_env_example : load_obfuscation_env (params_env params) ≡ ok params
load_obfuscation_env-params_env_example = load_obfuscation_env-params_env params params-IsLoaded

abbrev settings : Operational
settings = record {
  timeout = pos 60;
  remote_silent_timeout = negsuc 0;
  remote_silent_exit_timeout = 0;
  connect_retries = 3;
  dns_resolve_failure_timeout = 720;
  socket_buf = pos 65536;
}

-- An empty environment leaves the defaults.
abbrev nothing_set : Env
nothing_set name = none

defaults :
    load_operational_env nothing_set
    ≡ ok (record {
      timeout = pos 180;
      remote_silent_timeout = pos 0;
      remote_silent_exit_timeout = 600;
      connect_retries = 0;
      dns_resolve_failure_timeout = 720;
      socket_buf = pos 16777216;
    })
unfolding load_operational_env
defaults = refl

abbrev file_params : FileParams
file_params = record {
  jc = some (pos 9);
  jmin = none;
  jmax = none;
  s1 = none;
  s2 = none;
  s3 = none;
  s4 = some (pos 0);
  h1 = none;
  h2 = none;
  h3 = none;
  h4 = some (range 8 9);
}

file_params-IsFileLoaded : IsFileLoaded file_params
file_params-IsFileLoaded = record {
  ints_fit = (omega arith, (tt, (tt, (tt, (tt, (tt, (omega arith, tt)))))));
  ranges = (tt, (tt, (tt, (range-IsRange 8 9 (omega arith) (omega arith), tt))));
}

apply_file_obfuscation_overrides-IsLoaded_example :
    IsLoaded (apply_file_obfuscation_overrides params file_params)
apply_file_obfuscation_overrides-IsLoaded_example =
    apply_file_obfuscation_overrides-IsLoaded (params_env params) params file_params
      load_obfuscation_env-params_env_example file_params-IsFileLoaded
