-- ===== src/Transform/Computed.antt =====
-- `config_compute` of src/transform.c: the derived fields that the transforms rely on.
use awg2_webui.Base.{◌+◌, ◌<◌, ◌≡◌, refl, true, false, arith}
use awg2_webui.Transform.{
  Config, config_compute, wg_transport_data, wg_transport_min, wg_init_size, wg_resp_size,
  wg_cookie_size,
}

pub record IsComputed (c : Config) : Type 0 where
  pub init_total_eq : c.init_total ≡ c.s1 + wg_init_size
  pub resp_total_eq : c.resp_total ≡ c.s2 + wg_resp_size
  pub cookie_total_eq : c.cookie_total ≡ c.s3 + wg_cookie_size
  pub fixed_eq : c.h4_fixed ≡ c.h4.min
  pub noop_min : c.h4_noop ≡ true → c.h4.min ≡ wg_transport_data
  pub noop_max : c.h4_noop ≡ true → c.h4.max ≡ wg_transport_data
  pub noop_size : c.h4_noop ≡ true → c.s4 ≡ 0
  pub init_apart : c.transport_size_ambiguous ≡ false → c.init_total < c.s4 + wg_transport_min
  pub resp_apart : c.transport_size_ambiguous ≡ false → c.resp_total < c.s4 + wg_transport_min
  pub cookie_apart : c.transport_size_ambiguous ≡ false → c.cookie_total < c.s4 + wg_transport_min

-- `config_compute` sets each total to the padding and the message together; it takes data packets for
-- unchanged only where H4 is {4, 4} and S4 is 0; and where it does not call the sizes ambiguous every
-- padded handshake is shorter than the shortest data packet.
pub config_compute-IsComputed : (c : Config) → IsComputed (config_compute c)
unfolding config_compute
config_compute-IsComputed c = record {
  init_total_eq = refl;
  resp_total_eq = refl;
  cookie_total_eq = refl;
  fixed_eq = refl;
  noop_min = λ h. ground arith;
  noop_max = λ h. ground arith;
  noop_size = λ h. ground arith;
  init_apart = λ h. ground arith;
  resp_apart = λ h. ground arith;
  cookie_apart = λ h. ground arith;
}
