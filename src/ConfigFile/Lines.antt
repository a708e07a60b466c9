-- ===== src/ConfigFile/Lines.antt =====
-- The lines of src/config_file.c, and its loop over them.
use mathlib.Core.Option.{map}
use awg2_webui.Base.{
  ℕ, ◌-◌, Bool, true, ◌||◌, Option, some, none, List, [], ◌∷◌, ◌++◌, ltb, ◌==◌, if◌then◌else◌, set,
  byte_at, ℤ, exceeds, is_neg, pos_part, codes, streqi, split_at, decimal,
}
use awg2_webui.Cps.{Template}
use awg2_webui.Cps.Parse.{cps_parse}
use awg2_webui.Runtime.{nul, parse_int_strict}
use awg2_webui.Runtime.Peers.{not_empty, c_string}
use awg2_webui.Runtime.Env.{FileParams}
use awg2_webui.ConfigFile.{
  trim, strip_comment, parse_hrange, decode_key32, FileConfig, Section, sec_none, sec_interface,
  sec_peer, Peer, no_peer, Parser, stored_in, newer, flush_peer, flush_at, section_header,
}

-- A change by a value that was parsed, where it was.
abbrev pub changed {ℓ κ} : {A : Type ℓ} {B : Type κ} → Option A → (A → B) → Option B
changed x f = map f x

-- `port < 1 || port > 65535` is refused.
unfoldable pub listen_port : Option ℤ → Option (List ℕ)
unfolding decimal
listen_port none = none
listen_port (some port) =
    if is_neg port || (pos_part port == 0 || exceeds port 65535)
    then none
    else some (codes "0.0.0.0:" ++ decimal (pos_part port))

unfoldable pub template_at : ℕ → Option Template → Option (ℕ × Template)
template_at idx none = none
template_at idx (some t) = if ltb idx 5 then some (idx, t) else none

abbrev with_params : FileConfig → FileParams → FileConfig
with_params f p = record f { params = p }

-- A parameter: an `int` or a range.
unfoldable pub interface_param : List ℕ → List ℕ → FileConfig → Option FileConfig
unfolding streqi parse_int_strict parse_hrange
interface_param key val f =
    let p = f.params in
    let int = parse_int_strict val in
    let range = parse_hrange val in
    if streqi key (codes "Jc")
    then changed int (λ v. with_params f (record p { jc = some v }))
    else if streqi key (codes "Jmin")
    then changed int (λ v. with_params f (record p { jmin = some v }))
    else if streqi key (codes "Jmax")
    then changed int (λ v. with_params f (record p { jmax = some v }))
    else if streqi key (codes "S1")
    then changed int (λ v. with_params f (record p { s1 = some v }))
    else if streqi key (codes "S2")
    then changed int (λ v. with_params f (record p { s2 = some v }))
    else if streqi key (codes "S3")
    then changed int (λ v. with_params f (record p { s3 = some v }))
    else if streqi key (codes "S4")
    then changed int (λ v. with_params f (record p { s4 = some v }))
    else if streqi key (codes "H1")
    then changed range (λ r. with_params f (record p { h1 = some r }))
    else if streqi key (codes "H2")
    then changed range (λ r. with_params f (record p { h2 = some r }))
    else if streqi key (codes "H3")
    then changed range (λ r. with_params f (record p { h3 = some r }))
    else if streqi key (codes "H4")
    then changed range (λ r. with_params f (record p { h4 = some r }))
    else some f

unfoldable pub is_cps_key : List ℕ → Bool
unfolding streqi
is_cps_key key =
    streqi key (codes "I1")
    || (streqi key (codes "I2")
        || (streqi key (codes "I3") || (streqi key (codes "I4") || streqi key (codes "I5"))))

-- A line of an `[Interface]` section. Other keys are ignored.
unfoldable pub interface_line : (List ℕ → List ℕ) → List ℕ → List ℕ → FileConfig → Option FileConfig
unfolding streqi decode_key32 parse_int_strict listen_port interface_param is_cps_key cps_parse
    template_at
interface_line public_key key val f =
    if streqi key (codes "PrivateKey")
    then changed (decode_key32 val) (λ sk. record f { client_pub = some (public_key sk) })
    else if streqi key (codes "ListenPort")
    then changed (listen_port (parse_int_strict val)) (λ l. record f { listen = some l })
    else if streqi key (codes "DNS")
    then some (record f { dns = some (stored_in 256 val) })
    else if is_cps_key key
    then changed (template_at (byte_at key 1 - b'1') (cps_parse val))
        (λ t. record f { cps = set f.cps t.0 (some t.1) })
    else interface_param key val f

-- A keepalive that is no positive number is ignored.
abbrev pub positive : Option ℤ → Option ℕ
positive none = none
positive (some z) = if exceeds z 0 then some (pos_part z) else none

-- A line of a `[Peer]` section.
unfoldable pub peer_line : List ℕ → List ℕ → Peer → Option Peer
unfolding streqi decode_key32 parse_int_strict
peer_line key val p =
    if streqi key (codes "PublicKey")
    then changed (decode_key32 val) (λ k. record p { key = some k })
    else if streqi key (codes "Endpoint")
    then some (record p { endpoint = some (stored_in 256 val) })
    else if streqi key (codes "PersistentKeepalive")
    then some (record p { keepalive = newer (positive (parse_int_strict val)) p.keepalive })
    else some p

unfoldable pub line_in : (List ℕ → List ℕ) → Section → List ℕ → List ℕ → Parser → Option Parser
unfolding interface_line peer_line
line_in public_key sec_none key val s = some s
line_in public_key sec_interface key val s =
    changed (interface_line public_key key val s.out) (λ f. record s { out = f })
line_in public_key sec_peer key val s =
    changed (peer_line key val s.peer) (λ p. record s { peer = p })

-- `key = value`; a line without them is ignored.
unfoldable pub key_value : (List ℕ → List ℕ) → Option (List ℕ × List ℕ) → Parser → Option Parser
unfolding trim line_in
key_value public_key none s = some s
key_value public_key (some x) s =
    let key = trim x.0 in
    let val = trim x.1 in
    if nul key || nul val then some s else line_in public_key s.section key val s

-- The turn of the loop for what `fgets` stored.
unfoldable pub parse_line : (List ℕ → List ℕ) → List ℕ → Parser → Option Parser
unfolding trim strip_comment section_header key_value split_at c_string
parse_line public_key stored s =
    let line = trim (strip_comment (c_string stored)) in
    if nul line
    then some s
    else if byte_at line 0 == b'['
    then some (section_header line s)
    else key_value public_key (split_at b'=' line) s

unfoldable pub parse_lines : (List ℕ → List ℕ) → List (List ℕ) → Parser → Option Parser
unfolding parse_line
parse_lines public_key [] s = some s
parse_lines public_key (line ∷ lines) s = elim (parse_line public_key line s) [
  | none ↦ none
  | some s' ↦ parse_lines public_key lines s'
]

-- What the calls `fgets(line, 1024, f)` store, with room for `left` more bytes: the rest of the line
-- begun, and what comes behind it.
unfoldable pub fgets_from : ℕ → List ℕ → List ℕ × List (List ℕ)
fgets_from left [] = ([], [])
fgets_from left (c ∷ s) =
    let ends = c == 10 || left == 1 in
    let (line, lines) = fgets_from (if ends then 1023 else left - 1) s in
    if ends then (c ∷ [], not_empty line lines) else (c ∷ line, lines)

unfoldable pub fgets_lines : List ℕ → List (List ℕ)
unfolding fgets_from
fgets_lines content = let (line, lines) = fgets_from 1023 content in not_empty line lines

abbrev pub no_params : FileParams
no_params = record {
  jc = none;
  jmin = none;
  jmax = none;
  s1 = none;
  s2 = none;
  s3 = none;
  s4 = none;
  h1 = none;
  h2 = none;
  h3 = none;
  h4 = none;
}

-- After `memset`.
abbrev pub start : Parser
start = record {
  out = record {
    params = no_params;
    cps = none ∷ none ∷ none ∷ none ∷ none ∷ [];
    client_pub = none;
    listen = none;
    dns = none;
    server_pub = none;
    endpoint = none;
    keepalive = none;
    peer_pubs = [];
  };
  section = sec_none;
  first_peer = true;
  peer = no_peer;
}

-- `config_file_parse`, given what the file holds, where it can be opened.
unfoldable pub config_file_parse : (List ℕ → List ℕ) → Option (List ℕ) → Option FileConfig
unfolding parse_lines fgets_lines flush_peer
config_file_parse public_key none = none
config_file_parse public_key (some content) =
    changed (parse_lines public_key (fgets_lines content) start) (λ s. (flush_at s.section s).out)
