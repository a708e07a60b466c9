-- ===== src/Obfs/Tests.antt =====
-- Runs of the obfuscation layer of src/obfs.c, and the theorems at concrete sessions.
use awg2_webui.Base.{
  ℕ, ◌+◌, ◌≤◌, ◌<◌, ◌≡◌, refl, ◌↔◌, ◌≢◌, inl, true, List, [], ◌∷◌, ◌++◌, some, none, arith, length,
}
use awg2_webui.Obfs.{
  off, dtls_record, dns_like, Session, session_init, marker_write_if_needed,
  marker_unwrap_if_needed, obfs_marker, marker_extra_len, obfs_max_packet,
}
use awg2_webui.Obfs.Wrap.{obfs_wrap, wrap_dtls_record, wrap_dns_like}
use awg2_webui.Obfs.Unwrap.{obfs_unwrap, unwrap_dtls_record, deliver}
use awg2_webui.Obfs.Overhead.{obfs_profile_overhead_max, obfs_wrap_overhead, obfs_wrap_dns_overhead}
use awg2_webui.Obfs.Send.{frame_length, frame_bytes, advanced, obfs_wrap_lem}
use awg2_webui.Obfs.RoundTrip.{unstripped, obfs_unwrap-obfs_wrap}
use awg2_webui.Obfs.Flow.{flow, obfs_unwrap_in_step, obfs_unwrap_marker_left, flow_fresh}

abbrev tx : Session
unfolding session_init
tx = session_init dtls_record 5

abbrev rx : Session
unfolding session_init
rx = session_init dtls_record 6

abbrev rx_later : Session
unfolding session_init
rx_later = record (session_init dtls_record 6) { marker_seen = true }

abbrev packet : List ℕ
packet = 1 ∷ 2 ∷ 3 ∷ []

abbrev wire : List ℕ
wire =
    23 ∷ 0xfe ∷ 0xfd ∷ 0 ∷ 0 ∷ 0 ∷ 0 ∷ 0 ∷ 0 ∷ 0 ∷ 5 ∷ 0 ∷ 7 ∷ 0xa7 ∷ 0x51 ∷ 0xc3 ∷ 0x2e ∷ 1 ∷ 2 ∷ 3
    ∷ []

sent_wire : (obfs_wrap tx packet).0 ≡ some wire
unfolding obfs_wrap wrap_dtls_record session_init
sent_wire = refl

received_wire : (obfs_unwrap rx wire).0 ≡ some packet
unfolding obfs_unwrap unwrap_dtls_record deliver marker_unwrap_if_needed session_init
received_wire = refl

dtls_on : dtls_record ≢ off
dtls_on h = cc

obfs_unwrap-obfs_wrap_example :
    obfs_unwrap rx wire
    ≡ deliver rx ((marker_write_if_needed tx).0 ++ (packet ++ unstripped dtls_record 5))
unfolding session_init
obfs_unwrap-obfs_wrap_example = obfs_unwrap-obfs_wrap tx rx packet wire refl dtls_on sent_wire

obfs_unwrap_in_step_example : (obfs_unwrap rx wire).0 ≡ some packet
unfolding session_init
obfs_unwrap_in_step_example =
    obfs_unwrap_in_step tx rx packet wire refl dtls_on sent_wire (inl (refl, omega arith))

obfs_unwrap_marker_left_example : (obfs_unwrap rx_later wire).0 ≡ some (obfs_marker ++ packet)
unfolding session_init
obfs_unwrap_marker_left_example =
    obfs_unwrap_marker_left tx rx_later packet wire refl dtls_on sent_wire refl (omega arith)

obfs_wrap_lem_example :
    (frame_length dtls_record tx packet ≤ obfs_max_packet
      → obfs_wrap tx packet ≡ (some (frame_bytes dtls_record tx packet), advanced dtls_record tx))
    × (obfs_max_packet < frame_length dtls_record tx packet → obfs_wrap tx packet ≡ (none, tx))
unfolding session_init
obfs_wrap_lem_example = obfs_wrap_lem tx packet dtls_on

obfs_wrap_overhead_example : length wire ≤ length packet + obfs_profile_overhead_max dtls_record
unfolding session_init
obfs_wrap_overhead_example = obfs_wrap_overhead tx packet wire dtls_on (λ h. cc) sent_wire

abbrev dns_tx : Session
unfolding session_init
dns_tx = session_init dns_like 11

abbrev dns_wire : List ℕ
dns_wire =
    0 ∷ 11 ∷ 1 ∷ 0 ∷ 0 ∷ 1 ∷ 0 ∷ 0 ∷ 0 ∷ 0 ∷ 0 ∷ 0 ∷ 11 ∷ b'l' ∷ b'm' ∷ b'n' ∷ b'o' ∷ b'p' ∷ b'q'
    ∷ b'r' ∷ b's' ∷ b't' ∷ b'u' ∷ b'v' ∷ 3 ∷ b'c' ∷ b'd' ∷ b'n' ∷ 0 ∷ 0 ∷ 16 ∷ 0 ∷ 1 ∷ 0xa7 ∷ 0x51
    ∷ 0xc3 ∷ 0x2e ∷ 1 ∷ 2 ∷ 3 ∷ 0 ∷ 0 ∷ 0 ∷ []

sent_dns_wire : (obfs_wrap dns_tx packet).0 ≡ some dns_wire
unfolding obfs_wrap wrap_dns_like session_init
sent_dns_wire = refl

-- 40 bytes more than the packet, where `obfs_profile_overhead_max` says 34.
obfs_wrap_dns_overhead_example :
    (43 ≡ 3 + (28 + 5 + marker_extra_len dns_tx + 3))
    × ((3 + obfs_profile_overhead_max dns_like < 43) ↔ (6 < 5 + marker_extra_len dns_tx + 3))
unfolding session_init
obfs_wrap_dns_overhead_example = obfs_wrap_dns_overhead dns_tx packet dns_wire refl sent_dns_wire

flow_fresh_example :
    flow tx rx (packet ∷ packet ∷ packet ∷ packet ∷ [])
    ≡ some packet ∷ some (obfs_marker ++ packet) ∷ some (obfs_marker ++ packet) ∷ some packet ∷ []
unfolding session_init
flow_fresh_example =
    flow_fresh dtls_record 5 6 packet (packet ∷ packet ∷ packet ∷ []) (dtls_on, λ h. cc, λ h. cc)
      (omega arith)
