-- ===== src/Runtime/Peers.antt =====
-- The lists of src/config_runtime.c: the public keys of the peers of a server, and the name servers.
use awg2_webui.Base.{
  ℕ, Bool, false, ◌||◌, Option, some, none, List, [], ◌∷◌, ◌++◌, ltb, leb, ◌==◌, if◌then◌else◌,
  length, bytes_eq, codes,
}
use awg2_webui.Base64.{base64_decode}

abbrev pub max_server_peers : ℕ
max_server_peers = 256

-- `is_pub_sep`
abbrev pub is_pub_sep : ℕ → Bool
is_pub_sep c = c == b',' || (c == b';' || (c == 32 || (c == 9 || (c == 13 || c == 10))))

-- The separators of `write_dns_resolv_conf`.
abbrev pub is_dns_sep : ℕ → Bool
is_dns_sep c = c == b',' || (c == 32 || c == 9)

abbrev pub not_empty : List ℕ → List (List ℕ) → List (List ℕ)
not_empty [] ws = ws
not_empty (c ∷ w) ws = (c ∷ w) ∷ ws

-- The rest of the word at the front, and the words behind it.
unfoldable pub cut : (ℕ → Bool) → List ℕ → List ℕ × List (List ℕ)
cut sep [] = ([], [])
cut sep (c ∷ s) = let (w, ws) = cut sep s in if sep c then ([], not_empty w ws) else (c ∷ w, ws)

-- The runs of other bytes between separators, in order.
unfoldable pub words : (ℕ → Bool) → List ℕ → List (List ℕ)
unfolding cut
words sep s = let (w, ws) = cut sep s in not_empty w ws

unfoldable pub is_peer : List (List ℕ) → List ℕ → Bool
is_peer [] key = false
is_peer (k ∷ keys) key = bytes_eq k key || is_peer keys key

-- `add_server_peer_pub_unique`, on `server_peer_pubs` as far as it is used.
unfoldable pub add_server_peer_pub_unique : List (List ℕ) → List ℕ → Option (List (List ℕ))
unfolding is_peer
add_server_peer_pub_unique keys key =
    if is_peer keys key
    then some keys
    else if leb max_server_peers (length keys)
    then none
    else some (keys ++ (key ∷ []))

-- 32 bytes in base 64.
unfoldable pub key_of : Option (List ℕ) → Option (List ℕ)
key_of none = none
key_of (some key) = if length key == 32 then some key else none

unfoldable pub add_decoded : List (List ℕ) → Option (List ℕ) → Option (List (List ℕ))
unfolding add_server_peer_pub_unique
add_decoded keys none = none
add_decoded keys (some key) = add_server_peer_pub_unique keys key

-- A token of 128 characters or more, or one that is not a key, is refused.
unfoldable pub add_token : List (List ℕ) → List ℕ → Option (List (List ℕ))
unfolding key_of base64_decode add_decoded
add_token keys token =
    if leb 128 (length token) then none else add_decoded keys (key_of (base64_decode token 32))

unfoldable pub add_tokens : List (List ℕ) → List (List ℕ) → Option (List (List ℕ))
unfolding add_token
add_tokens keys [] = some keys
add_tokens keys (token ∷ tokens) = elim (add_token keys token) [
  | none ↦ none
  | some more ↦ add_tokens more tokens
]

-- `parse_server_peer_list`
unfoldable pub parse_server_peer_list : List (List ℕ) → List ℕ → Option (List (List ℕ))
unfolding words add_tokens
parse_server_peer_list keys value = add_tokens keys (words is_pub_sep value)

-- The string at the front of a buffer.
unfoldable pub c_string : List ℕ → List ℕ
c_string [] = []
c_string (c ∷ s) = let rest = c_string s in if c == 0 then [] else c ∷ rest

-- `load_server_peer_file`, given what the file holds, where it can be read.
unfoldable pub load_server_peer_file : List (List ℕ) → Option (List ℕ) → Option (List (List ℕ))
unfolding c_string parse_server_peer_list
load_server_peer_file keys none = none
load_server_peer_file keys (some content) =
    if ltb 1048576 (length content) then none else parse_server_peer_list keys (c_string content)

-- `write_dns_resolv_conf`: what it writes. A name of 64 characters or more is left out.
unfoldable pub nameserver_lines : List (List ℕ) → List ℕ
nameserver_lines [] = []
nameserver_lines (w ∷ ws) =
    (if ltb (length w) 64 then codes "nameserver " ++ w ++ (10 ∷ []) else []) ++ nameserver_lines ws

unfoldable pub write_dns_resolv_conf : List ℕ → List ℕ
unfolding words nameserver_lines
write_dns_resolv_conf dns_str = nameserver_lines (words is_dns_sep dns_str)
