-- ===== src/NetAddr/Tests.antt =====
-- Tests of `net_addr_parse_host_port` and of its theorems.
use awg2_webui.Base.{◌≡◌, refl, some, none, codes, has_byte, arith}
use awg2_webui.NetAddr.{net_addr_parse_host_port, Fits, net_addr_parse_host_port_bounds}
use awg2_webui.NetAddr.RoundTrip.{show_host_port, net_addr_parse_host_port-show_host_port}

two_colons : net_addr_parse_host_port 256 (codes "::1:80") ≡ none
unfolding net_addr_parse_host_port
two_colons = refl

loopback : net_addr_parse_host_port 256 (codes "[::1]:51820") ≡ some (codes "::1", 51820)
unfolding net_addr_parse_host_port
loopback = refl

net_addr_parse_host_port_bounds_example : Fits 256 (codes "::1", 51820)
net_addr_parse_host_port_bounds_example =
    net_addr_parse_host_port_bounds 256 (codes "[::1]:51820") (codes "::1", 51820) loopback

net_addr_parse_host_port-show_host_port_example :
    net_addr_parse_host_port 256 (show_host_port (codes "fe80::1") 51820)
    ≡ some (codes "fe80::1", 51820)
unfolding has_byte
net_addr_parse_host_port-show_host_port_example =
    net_addr_parse_host_port-show_host_port 256 (codes "fe80::1") 51820 refl refl (omega arith)
      (omega arith) (omega arith)
