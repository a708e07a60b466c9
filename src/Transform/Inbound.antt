-- ===== src/Transform/Inbound.antt =====
-- `transform_inbound` and the peer lookup of src/transform.c: from AmneziaWG to WireGuard.
use awg2_webui.Base.{
  ℕ, ◌+◌, ◌&&◌, ◌||◌, not, Option, none, some, List, [], ◌∷◌, ltb, leb, ◌==◌, if◌then◌else◌, length,
  drop, take, bytes_eq,
}
use awg2_webui.Blake2s.{blake2s_128mac}
use awg2_webui.Transform.{
  wg_handshake_init, wg_handshake_response, wg_cookie_reply, wg_transport_data, wg_resp_size,
  wg_transport_min, hrange_contains, Config, read32_le, write32_le, seal_init, seal_response,
}

-- The last test, of transport packets.
unfoldable pub inbound_transport : Config → List ℕ → Option (List ℕ)
inbound_transport c buf =
    if leb (c.s4 + wg_transport_min) (length buf)
      && hrange_contains c.h4 (read32_le (drop c.s4 buf))
    then some (write32_le (drop c.s4 buf) wg_transport_data)
    else none

unfoldable pub inbound_cookie : Config → List ℕ → Option (List ℕ)
unfolding inbound_transport
inbound_cookie c buf =
    if length buf == c.cookie_total && hrange_contains c.h3 (read32_le (drop c.s3 buf))
    then some (write32_le (drop c.s3 buf) wg_cookie_reply)
    else inbound_transport c buf

unfoldable pub inbound_response : Config → List ℕ → Option (List ℕ)
unfolding inbound_cookie
inbound_response c buf =
    if length buf == c.resp_total && hrange_contains c.h2 (read32_le (drop c.s2 buf))
    then some (seal_response c.mac1key_in (write32_le (drop c.s2 buf) wg_handshake_response))
    else inbound_cookie c buf

unfoldable pub inbound_init : Config → List ℕ → Option (List ℕ)
unfolding inbound_response
inbound_init c buf =
    if length buf == c.init_total && hrange_contains c.h1 (read32_le (drop c.s1 buf))
    then some (seal_init c.mac1key_in (write32_le (drop c.s1 buf) wg_handshake_init))
    else inbound_response c buf

-- The packet for WireGuard; `none` is the null pointer for junk. The tests that fail fall through
-- to the next, in the order of the code: `inbound_init`, then `inbound_response`, and so on.
unfoldable pub transform_inbound : Config → List ℕ → Option (List ℕ)
unfolding inbound_init
transform_inbound c buf =
    if ltb (length buf) 4
    then none
    else if c.h4_noop && (read32_le buf == wg_transport_data && leb wg_transport_min (length buf))
    then some buf
    else inbound_init c buf

-- The loop over the configured peers, from index `i` on; `none` is the -1 of the code.
unfoldable pub find_peer : List ℕ → ℕ → List (List ℕ) → Option ℕ
find_peer wg_resp i [] = none
find_peer wg_resp i (key ∷ keys) =
    if bytes_eq (blake2s_128mac key (take 60 wg_resp)) (take 16 (drop 60 wg_resp))
    then some i
    else find_peer wg_resp (i + 1) keys

unfoldable pub config_server_resolve_peer_for_response : Config → List ℕ → Option ℕ
unfolding find_peer
config_server_resolve_peer_for_response c wg_resp =
    if not (length wg_resp == wg_resp_size) || not (read32_le wg_resp == wg_handshake_response)
    then none
    else find_peer wg_resp 0 c.server_peer_mac1keys
