-- ===== src/ConfigFile/Interface.antt =====
-- Every line of an `[Interface]` section keeps the result of src/config_file.c well-formed.
use awg2_webui.Base.{ℕ, ◌-◌, ◌≤◌, Option, some, none, List, ltb, set, byte_at, codes, streqi}
use awg2_webui.Cps.{Template, cps_max_size}
use awg2_webui.Cps.Parse.{cps_parse}
use awg2_webui.Cps.Sound.{cps_parse-IsTemplate}
use awg2_webui.Runtime.{parse_int_strict}
use awg2_webui.Runtime.EnvParse.{AllOf}
use awg2_webui.ConfigFile.{decode_key32, FileConfig}
use awg2_webui.ConfigFile.Lines.{listen_port, template_at, is_cps_key, interface_line}
use awg2_webui.ConfigFile.Loaded.{
  IsFitting, IsFile, if-AllOf, changed-AllOf, AllOf-of, All-set, interface_param-IsFile,
}

template_at-fits :
    (idx : ℕ) (t : Option Template)
    → IsFitting t
    → AllOf (λ (x : ℕ × Template). cps_max_size x.1 ≤ 1500) (template_at idx t)
unfolding template_at
template_at-fits idx none h = tt
template_at-fits idx (some t) h =
    if-AllOf (λ (x : ℕ × Template). cps_max_size x.1 ≤ 1500) (ltb idx 5) (some (idx, t)) none h tt

cps_parse-fits : (s : List ℕ) → IsFitting (cps_parse s)
cps_parse-fits s =
    AllOf-of (λ u. cps_max_size u ≤ 1500) (cps_parse s) (λ t e. (cps_parse-IsTemplate s t e).2)

-- Values without a condition.
any {ℓ} : {A : Type ℓ} (x : Option A) → AllOf (λ a. Unit) x
any none = tt
any (some a) = tt

module _ (public_key : List ℕ → List ℕ) where
  pub interface_line-IsFile :
      (key val : List ℕ) (f : FileConfig)
      → IsFile f
      → AllOf IsFile (interface_line public_key key val f)
  unfolding interface_line
  interface_line-IsFile key val f ok =
      if-AllOf IsFile (streqi key (codes "PrivateKey")) _ _
        (changed-AllOf (λ k. Unit) IsFile (decode_key32 val)
          (λ sk. record f { client_pub = some (public_key sk) }) (any (decode_key32 val))
          (λ sk h. same sk))
        (if-AllOf IsFile (streqi key (codes "ListenPort")) _ _
          (changed-AllOf (λ k. Unit) IsFile (listen_port (parse_int_strict val))
            (λ l. record f { listen = some l }) (any (listen_port (parse_int_strict val)))
            (λ l h. same_listen l))
          (if-AllOf IsFile (streqi key (codes "DNS")) _ _
            (record {
              params_loaded = ok.params_loaded;
              cps_fit = ok.cps_fit;
              server_key = ok.server_key;
              keepalive_on = ok.keepalive_on;
              peer_keys = ok.peer_keys;
              peers_fit = ok.peers_fit;
            })
            (if-AllOf IsFile (is_cps_key key) _ _
              (changed-AllOf (λ (x : ℕ × Template). cps_max_size x.1 ≤ 1500) IsFile
                (template_at (byte_at key 1 - b'1') (cps_parse val))
                (λ t. record f { cps = set f.cps t.0 (some t.1) })
                (template_at-fits (byte_at key 1 - b'1') (cps_parse val) (cps_parse-fits val))
                (λ t h. with_cps t h))
              (interface_param-IsFile val f ok key))))
    where
      same : (k : List ℕ) → IsFile (record f { client_pub = some (public_key k) })
      same k = record {
        params_loaded = ok.params_loaded;
        cps_fit = ok.cps_fit;
        server_key = ok.server_key;
        keepalive_on = ok.keepalive_on;
        peer_keys = ok.peer_keys;
        peers_fit = ok.peers_fit;
      }

      same_listen : (l : List ℕ) → IsFile (record f { listen = some l })
      same_listen l = record {
        params_loaded = ok.params_loaded;
        cps_fit = ok.cps_fit;
        server_key = ok.server_key;
        keepalive_on = ok.keepalive_on;
        peer_keys = ok.peer_keys;
        peers_fit = ok.peers_fit;
      }

      with_cps :
          (t : ℕ × Template)
          → cps_max_size t.1 ≤ 1500
          → IsFile (record f { cps = set f.cps t.0 (some t.1) })
      with_cps t h = record {
        params_loaded = ok.params_loaded;
        cps_fit = All-set IsFitting f.cps t.0 (some t.1) ok.cps_fit h;
        server_key = ok.server_key;
        keepalive_on = ok.keepalive_on;
        peer_keys = ok.peer_keys;
        peers_fit = ok.peers_fit;
      }
