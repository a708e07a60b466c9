-- ===== src/Transform/Tests.antt =====
-- Runs of the transforms of src/transform.c, and the theorems at a concrete configuration.
use awg2_webui.Base.{ℕ, ◌≡◌, ◌↔◌, refl, false, some, none, List, [], ◌∷◌, replicate, arith, pos}
use awg2_webui.Transform.{
  Hrange, Config, client, config_compute, hrange_pick, hrange_contains, seal_init,
}
use awg2_webui.Transform.Outbound.{transform_outbound_with_mac1}
use awg2_webui.Transform.Inbound.{transform_inbound}
use awg2_webui.Transform.Computed.{config_compute-IsComputed}
use awg2_webui.Transform.RoundTrip
use awg2_webui.Transform.RoundTrip.{
  inbound-outbound_init, inbound-outbound_response, inbound-outbound_cookie,
}
use awg2_webui.Transform.RoundTripData.{inbound-outbound_transport}
use awg2_webui.Transform.Validate.{
  Params, config_validate, config_validate_iff, IsSound, jmax_below_jmin, h_overlap, int_lt,
  hrange_overlaps,
}

abbrev range : ℕ → ℕ → Hrange
range lo hi = record { min = lo; max = hi }

abbrev draft : Config
draft = record {
  jc = 4;
  jmin = 10;
  jmax = 50;
  s1 = 46;
  s2 = 122;
  s3 = 17;
  s4 = 200;
  h1 = range 1000 2000;
  h2 = range 3000 4000;
  h3 = range 5000 5000;
  h4 = range 7000 9000;
  server_pub = replicate 32 9;
  client_pub = replicate 32 8;
  server_peer_pubs = [];
  mac1key_server = [];
  mac1key_client = [];
  server_peer_mac1keys = [];
  h4_fixed = 0;
  h4_noop = false;
  init_total = 0;
  resp_total = 0;
  cookie_total = 0;
  has_server_pub = false;
  has_client_pub = false;
  mac1key_out = none;
  mac1key_in = none;
  transport_size_ambiguous = false;
  mode = client;
}

abbrev config : Config
unfolding config_compute
config = config_compute draft

abbrev init : List ℕ
init = 1 ∷ 0 ∷ 0 ∷ 0 ∷ replicate 144 7

abbrev response : List ℕ
response = 2 ∷ 0 ∷ 0 ∷ 0 ∷ replicate 88 7

abbrev cookie : List ℕ
cookie = 3 ∷ 0 ∷ 0 ∷ 0 ∷ replicate 60 7

abbrev packet : List ℕ
packet = 4 ∷ 0 ∷ 0 ∷ 0 ∷ replicate 28 7

abbrev room : List ℕ
room = replicate 200 0

inbound-outbound_init_example :
    transform_inbound config (RoundTrip.sent config [] init none 77)
    ≡ some (seal_init config.mac1key_in init)
unfolding config_compute
inbound-outbound_init_example =
    inbound-outbound_init config [] init none 77 (config_compute-IsComputed draft) (omega arith)
      refl refl (λ e. cc) (λ e. cc)

-- Without keys and padding: the bytes themselves.
abbrev bare : Config
bare = record draft {
  s2 = 0;
  s3 = 0;
  s4 = 0;
  h4 = range 4 4;
  server_pub = replicate 32 0;
  client_pub = replicate 32 0;
}

abbrev open_h4 : Config
open_h4 = record bare { h4 = range 7000 9000 }

bare-cookie :
    (transform_outbound_with_mac1 [] cookie (config_compute bare) none 77).bytes
    ≡ 0x88 ∷ 0x13 ∷ 0 ∷ 0 ∷ replicate 60 7
unfolding transform_outbound_with_mac1 config_compute hrange_pick
bare-cookie = refl

bare-cookie_back :
    transform_inbound (config_compute bare) (0x88 ∷ 0x13 ∷ 0 ∷ 0 ∷ replicate 60 7) ≡ some cookie
unfolding transform_inbound config_compute hrange_contains
bare-cookie_back = refl

inbound-outbound_cookie_example :
    transform_inbound (config_compute bare) (RoundTrip.sent (config_compute bare) [] cookie none 77)
    ≡ some cookie
unfolding config_compute transform_outbound_with_mac1 hrange_pick
inbound-outbound_cookie_example =
    inbound-outbound_cookie (config_compute bare) [] cookie none 77 (config_compute-IsComputed bare)
      (omega arith) refl refl (λ e. λ f. absurd (omega (arith, f))) (λ e. absurd (omega (arith, e)))
      (λ e. absurd (omega (arith, e)))

inbound-outbound_response_example :
    transform_inbound
      (config_compute bare)
      (RoundTrip.sent (config_compute bare) [] response none 77)
    ≡ some response
unfolding config_compute transform_outbound_with_mac1 hrange_pick
inbound-outbound_response_example =
    inbound-outbound_response (config_compute bare) [] response none 77
      (config_compute-IsComputed bare) (omega arith) refl refl (λ e. refl)
      (λ e. λ f. absurd (omega (arith, f))) (λ e. absurd (omega (arith, e)))

-- A 40-byte data packet under the configuration with short frames.
inbound-outbound_transport_example :
    transform_inbound
      (config_compute open_h4)
      (RoundTrip.sent (config_compute open_h4) [] packet none 77)
    ≡ some packet
unfolding config_compute transform_outbound_with_mac1 hrange_pick
inbound-outbound_transport_example =
    inbound-outbound_transport (config_compute open_h4) [] packet none 77
      (config_compute-IsComputed open_h4) (omega arith) (omega arith) (omega arith) refl
      (λ e. absurd (omega (arith, e))) (λ e. absurd (omega (arith, e)))
      (λ e. absurd (omega (arith, e)))

abbrev params : Params
params = record {
  jc = pos 4;
  jmin = pos 10;
  jmax = pos 50;
  s1 = pos 46;
  s2 = pos 122;
  s3 = pos 17;
  s4 = pos 200;
  h1 = range 1000 2000;
  h2 = range 3000 4000;
  h3 = range 5000 5000;
  h4 = range 7000 9000;
}

validate_runs :
    (config_validate params ≡ none)
    × (config_validate (record params { jmax = pos 5 }) ≡ some jmax_below_jmin)
    × (config_validate (record params { h2 = range 1500 1600 }) ≡ some h_overlap)
unfolding config_validate int_lt hrange_overlaps
validate_runs = (refl, refl, refl)

config_validate_iff_example : (config_validate params ≡ none) ↔ IsSound params
config_validate_iff_example = config_validate_iff params
