-- ===== src/ConfigFile/Invariant.antt =====
-- Every line of a file keeps the result of src/config_file.c well-formed.
use std.Path.{subst}
use mathlib.Core.Option.{none-ne-some, some-injective}
use awg2_webui.Base.{
  ℕ, ◌≤◌, ◌<◌, ◌≡◌, Bool, true, false, ◌||◌, Option, some, none, List, [], ◌∷◌, ltb, ◌==◌,
  if◌then◌else◌, length, length-append, byte_at, ℤ, pos, negsuc, codes, streqi, split_at, arith,
  All, All-append, Bool-cases, inl, inr, lt_of_ltb-true,
}
use awg2_webui.Runtime.{nul, parse_int_strict}
use awg2_webui.Runtime.Peers.{max_server_peers, c_string}
use awg2_webui.Runtime.EnvParse.{AllOf}
use awg2_webui.ConfigFile.{
  trim, strip_comment, decode_key32, FileConfig, Section, sec_none, sec_interface, sec_peer, Peer,
  Parser, add_peer_pub, present, flush_peer, flush_at, section_header,
}
use awg2_webui.ConfigFile.Lines.{
  changed, interface_line, positive, peer_line, line_in, key_value, parse_line, parse_lines,
  fgets_lines, start, config_file_parse,
}
use awg2_webui.ConfigFile.Loaded.{
  IsKey, IsFile, IsPeer, IsParser, if-AllOf, changed-AllOf, newer-AllOf, decode_key32-IsKey,
}
use awg2_webui.ConfigFile.Interface.{interface_line-IsFile}

positive-on : (z : Option ℤ) → AllOf (λ n. 0 < n) (positive z)
positive-on none = tt
positive-on (some (pos n)) = elim (Bool-cases (ltb 0 n)) [
  | inl e ↦ rw (e) (lt_of_ltb-true 0 n e)
  | inr e ↦ rw (e) tt
]
positive-on (some (negsuc n)) = tt

peer_line-IsPeer : (key val : List ℕ) (p : Peer) → IsPeer p → AllOf IsPeer (peer_line key val p)
unfolding peer_line
peer_line-IsPeer key val p ok =
    if-AllOf IsPeer (streqi key (codes "PublicKey")) _ _
      (changed-AllOf IsKey IsPeer (decode_key32 val) (λ k. record p { key = some k })
        (decode_key32-IsKey val) (λ k h. record { key_of_32 = h; keepalive_on = ok.keepalive_on }))
      (if-AllOf IsPeer (streqi key (codes "Endpoint")) _ _
        (record { key_of_32 = ok.key_of_32; keepalive_on = ok.keepalive_on })
        (if-AllOf IsPeer (streqi key (codes "PersistentKeepalive")) _ _
          (record {
            key_of_32 = ok.key_of_32;
            keepalive_on =
                newer-AllOf (λ n. 0 < n) (positive (parse_int_strict val)) p.keepalive
                  (positive-on (parse_int_strict val)) ok.keepalive_on;
          })
          ok))

add_peer_pub_lem :
    (key : Option (List ℕ)) (keys : List (List ℕ))
    → AllOf IsKey key
    → All IsKey keys
    → length keys ≤ max_server_peers
    → All IsKey (add_peer_pub key keys) × (length (add_peer_pub key keys) ≤ max_server_peers)
add_peer_pub_lem none keys h k fits = (k, fits)
add_peer_pub_lem (some key) keys h k fits = elim (Bool-cases (ltb (length keys) max_server_peers)) [
  | inl room ↦ rw (room) (
    All-append IsKey keys (key ∷ []) k (h, tt),
    omega
        (arith, length-append keys (key ∷ []), lt_of_ltb-true (length keys) max_server_peers room),
  )
  | inr full ↦ rw (full) (k, fits)
]

if-any {ℓ κ} :
    {A : Type ℓ} (P : A → Type κ) (b : Bool) (x y : A) → P x → P y → P (if b then x else y)
if-any P true x y h k = h
if-any P false x y h k = k

flush_peer-IsFile : (s : Parser) → IsParser s → IsFile (flush_peer s).out
unfolding flush_peer
flush_peer-IsFile s (ok, peer) =
    let (keys, fit) =
      add_peer_pub_lem s.peer.key s.out.peer_pubs peer.key_of_32 ok.peer_keys ok.peers_fit in
    if-any (λ (x : Parser). IsFile x.out)
      (present s.peer.key || (present s.peer.endpoint || present s.peer.keepalive)) _ _
      (if-any IsFile s.first_peer _ _
        (record {
          params_loaded = ok.params_loaded;
          cps_fit = ok.cps_fit;
          server_key = newer-AllOf IsKey s.peer.key s.out.server_pub peer.key_of_32 ok.server_key;
          keepalive_on =
              newer-AllOf (λ n. 0 < n) s.peer.keepalive s.out.keepalive peer.keepalive_on
                ok.keepalive_on;
          peer_keys = keys;
          peers_fit = fit;
        })
        (record {
          params_loaded = ok.params_loaded;
          cps_fit = ok.cps_fit;
          server_key = ok.server_key;
          keepalive_on = ok.keepalive_on;
          peer_keys = keys;
          peers_fit = fit;
        }))
      ok

flush_at-IsFile : (section : Section) (s : Parser) → IsParser s → IsFile (flush_at section s).out
flush_at-IsFile sec_none s ok = ok.0
flush_at-IsFile sec_interface s ok = ok.0
flush_at-IsFile sec_peer s ok = flush_peer-IsFile s ok

section_header-IsParser :
    (line : List ℕ) (s : Parser) → IsParser s → IsParser (section_header line s)
unfolding section_header
section_header-IsParser line s ok =
    (flush_at-IsFile s.section s ok, record { key_of_32 = tt; keepalive_on = tt })

module _ (public_key : List ℕ → List ℕ) where
  line_in-IsParser :
      (section : Section) (key val : List ℕ) (s : Parser)
      → IsParser s
      → AllOf IsParser (line_in public_key section key val s)
  unfolding line_in
  line_in-IsParser sec_none key val s ok = ok
  line_in-IsParser sec_interface key val s ok =
      changed-AllOf IsFile IsParser (interface_line public_key key val s.out)
        (λ f. record s { out = f }) (interface_line-IsFile public_key key val s.out ok.0)
        (λ f h. (h, ok.1))
  line_in-IsParser sec_peer key val s ok =
      changed-AllOf IsPeer IsParser (peer_line key val s.peer) (λ p. record s { peer = p })
        (peer_line-IsPeer key val s.peer ok.1) (λ p h. (ok.0, h))

  key_value-IsParser :
      (x : Option (List ℕ × List ℕ)) (s : Parser)
      → IsParser s
      → AllOf IsParser (key_value public_key x s)
  unfolding key_value
  key_value-IsParser none s ok = ok
  key_value-IsParser (some x) s ok =
      if-AllOf IsParser (nul (trim x.0) || nul (trim x.1)) _ _ ok
        (line_in-IsParser s.section (trim x.0) (trim x.1) s ok)

  parse_line-IsParser :
      (stored : List ℕ) (s : Parser) → IsParser s → AllOf IsParser (parse_line public_key stored s)
  unfolding parse_line
  parse_line-IsParser stored s ok =
      let line : List ℕ = trim (strip_comment (c_string stored)) in
      if-AllOf IsParser (nul line) _ _ ok (
        if-AllOf IsParser (byte_at line 0 == b'[') _ _ (section_header-IsParser line s ok)
          (key_value-IsParser (split_at b'=' line) s ok))

  rest_IsParser :
      (lines : List (List ℕ)) (x : Option Parser)
      → AllOf IsParser x
      → ((s : Parser) → IsParser s → AllOf IsParser (parse_lines public_key lines s))
      → AllOf IsParser (elim x [ none ↦ none | some s ↦ parse_lines public_key lines s ])
  rest_IsParser lines none h k = tt
  rest_IsParser lines (some s) h k = k s h

  parse_lines-IsParser :
      (lines : List (List ℕ)) (s : Parser)
      → IsParser s
      → AllOf IsParser (parse_lines public_key lines s)
  unfolding parse_lines
  parse_lines-IsParser [] s ok = ok
  parse_lines-IsParser (line ∷ lines) s ok =
      rest_IsParser lines (parse_line public_key line s) (parse_line-IsParser line s ok)
        (λ s' h. parse_lines-IsParser lines s' h)

start-IsParser : IsParser start
start-IsParser = (
  record {
    params_loaded = record {
      ints_fit = (tt, (tt, (tt, (tt, (tt, (tt, (tt, tt)))))));
      ranges = (tt, (tt, (tt, (tt, tt))));
    };
    cps_fit = (tt, (tt, (tt, (tt, (tt, tt)))));
    server_key = tt;
    keepalive_on = tt;
    peer_keys = tt;
    peers_fit = omega arith;
  },
  record { key_of_32 = tt; keepalive_on = tt },
)

AllOf-elim {ℓ} : {A : Type ℓ} (P : A → Type 0) (x : Option A) (a : A) → AllOf P x → x ≡ some a → P a
AllOf-elim P none a h e = absurd (none-ne-some a e)
AllOf-elim P (some b) a h e = subst P (some-injective b a e) h

-- Whatever a configuration file holds, when it is accepted: its parameters are of the C types with ordered
-- ranges, its templates make packets of at most 1500 bytes, it has at most 256 peer keys, each of
-- them and the server's of 32 bytes, and its keepalive is not 0.
pub config_file_parse-IsFile :
    (public_key : List ℕ → List ℕ) (content : List ℕ) (f : FileConfig)
    → config_file_parse public_key (some content) ≡ some f
    → IsFile f
unfolding config_file_parse
config_file_parse-IsFile public_key content f e =
    AllOf-elim IsFile
      (changed (parse_lines public_key (fgets_lines content) start)
        (λ s. (flush_at s.section s).out))
      f
      (changed-AllOf IsParser IsFile (parse_lines public_key (fgets_lines content) start)
        (λ s. (flush_at s.section s).out)
        (parse_lines-IsParser public_key (fgets_lines content) start start-IsParser)
        (λ s h. flush_at-IsFile s.section s h))
      e
