-- ===== src/Proxy/Tests.antt =====
-- Tests of the proxies and of their theorems.
use awg2_webui.Base.{
  ◌≤◌, ℕ, ◌≡◌, refl, true, false, Option, some, none, List, [], ◌∷◌, length, take, replicate, arith,
  negsuc, All-replicate, length-replicate,
}
use awg2_webui.Obfs.{Profile, off, dtls_record, session_init}
use awg2_webui.Obfs.Wrap.{obfs_wrap}
use awg2_webui.Session.{Addr, inet, Table}
use awg2_webui.Transform.{Hrange, Config, gateway, config_compute, hrange_contains}
use awg2_webui.Transform.Inbound.{transform_inbound}
use awg2_webui.Transform.Computed.{config_compute-IsComputed}
use awg2_webui.Proxy.{Setup, ProxyState, h4_ring_size, Thread, to}
use awg2_webui.Proxy.Client.{Packet, learn_client, c2s_client}
use awg2_webui.Proxy.ClientBatch.{sends, sends_all, c2s_client-sends_all}
use awg2_webui.Proxy.FromRemote.{inbound_bytes, inbound_bytes-transform}
use awg2_webui.Proxy.Gateway.{s2c_data, s2c_gateway}
use awg2_webui.Proxy.Overwritten.{client_route, data_frame, s2c_gateway-overwritten}
use awg2_webui.Proxy.Ring.{IsMember, IsRing}
use awg2_webui.Proxy.EndToEnd.{received, sends-inbound_bytes}
use awg2_webui.Base.{All}
use awg2_webui.Proxy.Gro.{
  batch_size, c2s_received, s2c_client_gro, FitsBuffer, c2s_received_bounds, s2c_client_gro-batch,
}
use awg2_webui.Proxy.Gso.{proxy_io_send_batch_gso, proxy_io_send_batch_gso_complete}
use awg2_webui.Proxy.Pieces.{socket, socket-IsReady, socket-IsSegmenting}

abbrev range : ℕ → ℕ → Hrange
range lo hi = record { min = lo; max = hi }

abbrev draft : Config
draft = record {
  jc = 1;
  jmin = 10;
  jmax = 20;
  s1 = 8;
  s2 = 12;
  s3 = 16;
  s4 = 4;
  h1 = range 1000 2000;
  h2 = range 3000 4000;
  h3 = range 5000 6000;
  h4 = range 7000 9000;
  server_pub = replicate 32 0;
  client_pub = replicate 32 0;
  server_peer_pubs = [];
  mac1key_server = [];
  mac1key_client = [];
  server_peer_mac1keys = [];
  h4_fixed = 0;
  h4_noop = false;
  init_total = 0;
  resp_total = 0;
  cookie_total = 0;
  has_server_pub = false;
  has_client_pub = false;
  mac1key_out = none;
  mac1key_in = none;
  transport_size_ambiguous = false;
  mode = gateway;
}

abbrev setup : Profile → Setup
unfolding config_compute
setup profile = record { awg = config_compute draft; cps = []; obfs_profile = profile }

abbrev home : Addr
home = inet 51820 16777343

abbrev no_entry : Table
no_entry s = record {
  sender_index = 0;
  seq = 0;
  peer_slot = negsuc 0;
  valid = false;
  obfs_ready = false;
  obfs_c2s = session_init off 1;
  obfs_s2c = session_init off 2;
  addr = home;
  addr_len = 0;
}

abbrev state : Profile → ProxyState
state profile = record {
  remote_open = true;
  has_client = true;
  last_active = false;
  reconnect_needed = false;
  client_addr = home;
  client_addr_len = 16;
  auto_src_port = false;
  local_port = 0;
  rng = 1;
  h4_ring = replicate h4_ring_size 8000;
  h4_idx = 0;
  cps_counter = 0;
  sessions = no_entry;
  obfs_c2s = session_init profile 3;
  obfs_s2c = session_init profile 4;
  obfs_fail_c2s = 0;
  obfs_fail_s2c = 0;
}

abbrev idle : Thread
idle = record { obfs_buf = replicate 64 0; hs_buf = replicate 64 0; batch = []; sent = [] }

-- A data packet filled with a byte, and a cookie reply.
abbrev filled : ℕ → Packet
filled v = record { room = replicate 4 0; bytes = 4 ∷ 0 ∷ 0 ∷ 0 ∷ replicate 28 v }

abbrev reply : Packet
reply = record { room = replicate 4 0; bytes = 3 ∷ 0 ∷ 0 ∷ 0 ∷ replicate 60 7 }

c2s_client-sends_all_example :
    let learnt = learn_client home 16 (record (state off) { last_active = true }) in
    ((c2s_client (λ n. n) (setup off) home 16 (state off) idle (filled 5 ∷ reply ∷ [])).0
      ≡ (sends_all (λ n. n) (setup off) learnt (filled 5 ∷ reply ∷ [])).1)
    × ((c2s_client (λ n. n) (setup off) home 16 (state off) idle (filled 5 ∷ reply ∷ [])).1.sent
        ≡ (sends_all (λ n. n) (setup off) learnt (filled 5 ∷ reply ∷ [])).0)
unfolding learn_client
c2s_client-sends_all_example =
    c2s_client-sends_all (λ n. n) (setup off) home 16 (state off) idle (filled 5 ∷ reply ∷ []) refl
      refl

inbound_bytes-transform_example :
    inbound_bytes (config_compute draft) (filled 5).bytes
    ≡ transform_inbound (config_compute draft) (filled 5).bytes
inbound_bytes-transform_example =
    inbound_bytes-transform (config_compute draft) (filled 5).bytes
      (config_compute-IsComputed draft)

state-IsRing : (profile : Profile) → IsRing (range 7000 9000) (state profile)
unfolding hrange_contains
state-IsRing profile = (
  All-replicate (IsMember (range 7000 9000)) h4_ring_size 8000 (refl, omega arith),
  (length-replicate {A = ℕ} h4_ring_size 8000, omega arith),
)

sends-inbound_bytes_example :
    received (config_compute draft) (sends (λ n. n) (setup off) (state off) (filled 5)).0
    ≡ some (filled 5).bytes ∷ []
unfolding config_compute
sends-inbound_bytes_example =
    sends-inbound_bytes (setup off) (config_compute-IsComputed draft)
      (record { ordered = omega arith; fits = omega arith }) (λ n. n) (state off) (filled 5)
      (state-IsRing off) refl refl refl

-- Two data packets in a batch, under a disguise.
abbrev bytes_of : Option (List ℕ) → List ℕ
bytes_of none = []
bytes_of (some b) = b

abbrev after_first : ProxyState
unfolding s2c_data
after_first =
    (s2c_data (setup dtls_record) (client_route (state dtls_record)) (state dtls_record) idle
      (filled 5)).0

abbrev frame_a : List ℕ
frame_a = bytes_of (data_frame (setup dtls_record) (state dtls_record) (filled 5))

abbrev frame_b : List ℕ
frame_b = bytes_of (data_frame (setup dtls_record) after_first (filled 6))

s2c_gateway-overwritten_example :
    (s2c_gateway
      (λ n. n)
      (setup dtls_record)
      (state dtls_record)
      idle
      (filled 5 ∷ filled 6 ∷ [])).1.sent
    ≡ record { dest = to home 16; bytes = take (length frame_a) frame_b }
      ∷ record { dest = to home 16; bytes = frame_b }
      ∷ []
unfolding s2c_data setup obfs_wrap awg2_webui.Obfs.Wrap.wrap_dtls_record
s2c_gateway-overwritten_example =
    s2c_gateway-overwritten (λ n. n) (setup dtls_record) refl (state dtls_record) idle (filled 5)
      (filled 6) frame_a frame_b refl refl (refl, refl, refl, refl) (refl, refl, refl, refl)
      (omega arith)

-- Two packets of a size, a shorter one, and a longer one.
abbrev four_packets : List (List ℕ)
four_packets = (1 ∷ 2 ∷ []) ∷ (3 ∷ 4 ∷ []) ∷ (5 ∷ []) ∷ (6 ∷ 7 ∷ 8 ∷ []) ∷ []

proxy_io_send_batch_gso_complete_example :
    (proxy_io_send_batch_gso socket true true four_packets).0 ≡ four_packets
proxy_io_send_batch_gso_complete_example =
    proxy_io_send_batch_gso_complete socket socket-IsReady socket-IsSegmenting true true
      four_packets
      (
        (omega arith, omega arith),
        (
          (omega arith, omega arith),
          ((omega arith, omega arith), ((omega arith, omega arith), tt)),
        ),
      )

-- Seven bytes in segments of three.
c2s_received_bounds_example :
    All FitsBuffer (c2s_received 3 (replicate 7 1))
    × (length (c2s_received 3 (replicate 7 1)) ≤ batch_size)
c2s_received_bounds_example = c2s_received_bounds 3 (replicate 7 1)

s2c_client_gro-batch_example :
    length (s2c_client_gro (setup off) 3 (state off) idle (replicate 7 1)).1.batch ≤ batch_size
s2c_client_gro-batch_example =
    s2c_client_gro-batch (setup off) 3 (state off) idle (replicate 7 1) refl
